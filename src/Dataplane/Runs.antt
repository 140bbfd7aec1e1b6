-- ===== src/Dataplane/Runs.antt =====
-- What the stand-alone program does with packets, ports and caches.
use grpc_server.Base.{◌+◌, ◌*◌, ◌≡◌, ◌⊎◌, none, some, List, length, pos}
use grpc_server.RteHash.{RteHash}
use grpc_server.Cache.{Heap}
use grpc_server.Packets.Accounts.{count_sent, count_released}
use grpc_server.Save.{Sqlite, domain_tables, ip_tables}
use grpc_server.Ports.Stages.{ready, started}
use grpc_server.Ports.Trio.Staged.{UpTo, NotReady, NotStarted, Built, FailsAt}
use grpc_server.Worker.Start.{Services}
use grpc_server.Worker.Start.Brought.{OpensTo}
use grpc_server.Worker.Start.Shut.{IsEnded}
use grpc_server.Worker.Program.{no_store}
use grpc_server.Dataplane.{Cycle, Plane, Finish, timer_check_interval}
use grpc_server.Dataplane.Cycles.{packets_of}

-- each packet of the rounds sent or released once, the timers managed once in 10000 rounds
abbrev pub HasRun : {h : RteHash} → List Cycle → Plane h → Type 0
HasRun cycles l =
    (count_sent l.world.events + count_released l.world.events ≡ packets_of cycles)
    × (l.managed * timer_check_interval + l.timer_check_counter ≡ length cycles)

-- The loop has run and nothing is left; or a port failed, and what was opened stays open.
abbrev pub Finished :
    (s : Sqlite) (h : RteHash) → Services → List Cycle → Heap → Heap → Finish s h → Type 0
Finished s h services cycles dns_heap ip_heap fin =
    ((fin.ret ≡ pos 0)
      × ((l : Plane h) × (fin.plane ≡ some l) × HasRun cycles l)
      × IsEnded fin.dpdk)
    ⊎ ((fin.ret ≡ pos 1)
        × (fin.plane ≡ none)
        × (FailsAt Built (UpTo ready) NotReady fin.dpdk.ports
            ⊎ FailsAt (UpTo ready) (UpTo started) NotStarted fin.dpdk.ports)
        × OpensTo s h domain_tables services.load_dns (no_store dns_heap) fin.dpdk.dns_store
        × OpensTo s h ip_tables services.load_ip (no_store ip_heap) fin.dpdk.ip_store)
