-- ===== src/Ports/Trio.antt =====
-- The three ports of a program, as worker/src/worker.cpp and worker/src/dpdk_filter/main.c hold them:
-- each with its pointer and the calls made on its device so far. Each call of a function of
-- net_port.c has a number, and DPDK answers it by an `EthDev` of its own.
pub mod Staged
use grpc_server.Base.{
  ℕ, suc, ◌+◌, Bool, true, false, Option, none, some, List, [], ◌∷◌, ◌++◌, ℤ, pos, if◌then◌else◌,
}
use grpc_server.Base.Run.{Run, done, fault, ◌>>=◌}
use grpc_server.Ports.{
  Port, EthDev, Call, is_nonzero, net_port_init, net_port_start, net_port_close,
}

-- `port` is `none` for NULL, and after `net_port_destroy`.
pub record Slot : Type 0 where
  pub port : Option Port
  pub calls : List Call

abbrev pub slot_of : Option Port → Slot
slot_of port = record { port = port; calls = [] }

pub record Trio : Type 0 where
  pub port_in : Slot
  pub port_out : Slot
  pub port_exception : Slot

abbrev pub no_ports : Trio
no_ports = record { port_in = slot_of none; port_out = slot_of none; port_exception = slot_of none }

-- `net_port_init` and `net_port_start` of `port->port_id` read the port: NULL is a fault.
unfoldable pub init_slot : EthDev → Slot → Run (ℤ × Slot)
init_slot eth slot = elim slot.port [
  | none ↦ fault
  | some port ↦
      let (ret, port', calls) = net_port_init eth port in
      done (ret, record { port = some port'; calls = slot.calls ++ calls })
]

unfoldable pub start_slot : EthDev → Slot → Run (ℤ × Slot)
start_slot eth slot = elim slot.port [
  | none ↦ fault
  | some port ↦
      let (ret, calls) = net_port_start eth port.port_id in
      done (ret, record slot { calls = slot.calls ++ calls })
]

unfoldable pub close_slot : EthDev → Slot → Slot
close_slot eth slot =
    let (port, calls) = net_port_close eth slot.port in
    record { port = port; calls = slot.calls ++ calls }

-- net_port_destroy
abbrev pub destroy_slot : Slot → Slot
destroy_slot slot = record slot { port = none }

-- `f(port_in) || f(port_out) || f(port_exception)`, where `f` is called with the number of the call
unfoldable pub any_fails : (ℕ → Slot → Run (ℤ × Slot)) → Trio → Run (Bool × Trio)
any_fails f ports = do
  (ret1, port_in) ← f 0 ports.port_in
  let ports1 = record ports { port_in = port_in }
  elim (is_nonzero ret1) [
    | true ↦ done (true, ports1)
    | false ↦ do
      (ret2, port_out) ← f 1 ports1.port_out
      let ports2 = record ports1 { port_out = port_out }
      elim (is_nonzero ret2) [
        | true ↦ done (true, ports2)
        | false ↦ do
          (ret3, port_exception) ← f 2 ports2.port_exception
          done (is_nonzero ret3, record ports2 { port_exception = port_exception })
      ]
  ]

unfoldable pub init_ports : (ℕ → EthDev) → Trio → Run (Bool × Trio)
init_ports eth ports = any_fails (λ i. init_slot (eth i)) ports

unfoldable pub start_ports : (ℕ → EthDev) → Trio → Run (Bool × Trio)
start_ports eth ports = any_fails (λ i. start_slot (eth (3 + i))) ports

-- the closing of all three, and then their destruction
unfoldable pub close_ports : (ℕ → EthDev) → Trio → Trio
unfolding close_slot
close_ports eth ports = record {
  port_in = destroy_slot (close_slot (eth 6) ports.port_in);
  port_out = destroy_slot (close_slot (eth 7) ports.port_out);
  port_exception = destroy_slot (close_slot (eth 8) ports.port_exception);
}
