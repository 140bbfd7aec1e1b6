-- ===== src/Worker.antt =====
-- worker/src/worker.cpp: the process around the packet loop. It takes its policy and its
-- classifications from the controller, counts packets, and runs the loop.
pub mod Policy
pub mod Counters
pub mod Loop
pub mod Start
pub mod Program
pub mod Sample
mod Tests
