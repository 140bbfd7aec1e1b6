-- ===== src/Worker/Program/Tests.antt =====
-- The theorems on the start, the run and the end of the program, at drivers that take every call.
use grpc_server.Base.{
  ℕ, ◌≡◌, refl, true, false, none, some, Option, List, [], ◌∷◌, ◌++◌, Bytes, replicate, length,
  arith, if◌then◌else◌, inl, inr,
}
use grpc_server.Base.Run.{done, Gives}
use grpc_server.Cache.Table.{sample_hash, sample_hash-IsHash}
use grpc_server.Cache.Sample.{node_with, sample_heap, one_entry}
use grpc_server.Save.Sample.{sqlite, empty_db}
use grpc_server.Packets.Sample.{env}
use grpc_server.Ports.{Call, op_init, op_configure, op_rx, op_tx, op_start, op_promiscuous}
use grpc_server.Ports.Stages.{advance, after}
use grpc_server.Ports.Trio.{Slot}
use grpc_server.Ports.Trio.Staged.{AllPorts, HalfStarted}
use grpc_server.Metrics.{CpuUsage, open_cpus, is_cpu, fresh_cpu}
use grpc_server.Metrics.Opened.{is_listed, open_cpus-registers}
use grpc_server.Worker.Counters.Kept.{IsWired}
use grpc_server.Worker.Sample.{pton, counter, counter-IsCounter, collector}
use grpc_server.Worker.Program.Sample.{
  eth0, eth1, eth-Closes, services, settings, intr, session, no_objects, no_objects-CanStart,
}
use grpc_server.Worker.Start.{Services, InitError, Dpdk, init_dpdk, destroy}
use grpc_server.Worker.Start.Brought.{Brought, init_dpdk-Brought}
use grpc_server.Worker.Start.Shut.{IsEnded, destroy-IsEnded}
use grpc_server.Worker.Program.{Left, main}
use grpc_server.Worker.Program.Exits.{CanServe, Ended, main-Ended}

init_dpdk-Brought_example :
    (thrown : Option InitError) × (d : Dpdk sqlite sample_hash) × (init_dpdk services no_objects
      ≡ done (thrown, d))
    × Brought sqlite sample_hash services no_objects thrown d
init_dpdk-Brought_example =
    init_dpdk-Brought sample_hash-IsHash services no_objects 7 eth0 eth1 no_objects-CanStart refl
      refl refl refl

abbrev calls_to_ready : List Call
calls_to_ready = (op_init, true) ∷ (op_configure, true) ∷ (op_rx, true) ∷ (op_tx, true) ∷ []

abbrev slot_with : List Call → Slot
slot_with calls = record {
  port = some (record {
    port_id = 0;
    iface_name = eth0;
    dev_name = eth0;
    dev_args = [];
    mbuf_pool = 7;
    mac_addr = replicate 6 0;
    neighbor_learned = false;
  });
  calls = calls;
}

-- a started port, one that could not be started, and one that was not reached
abbrev unfinished : Dpdk sqlite sample_hash
unfinished = record no_objects {
  mbuf_pool = some 7;
  ports = record {
    port_in = slot_with (calls_to_ready ++ (op_start, true) ∷ (op_promiscuous, true) ∷ []);
    port_out = slot_with (calls_to_ready ++ (op_start, false) ∷ []);
    port_exception = slot_with calls_to_ready;
  };
  dns_store = record {
    hash = some one_entry;
    heap = sample_heap;
    db = some empty_db;
    timer = some 3600;
  };
}

-- as many entries as the caches have
abbrev saving : Services
saving = record services { counted_dns = record { key = []; node = node_with none } ∷ [] }

unfinished-HalfStarted : AllPorts HalfStarted unfinished.ports
unfolding after advance
unfinished-HalfStarted = (inr (_, refl, refl), inl (_, refl, refl), inl (_, refl, refl))

destroy-IsEnded_example : Gives IsEnded (destroy saving unfinished)
destroy-IsEnded_example =
    destroy-IsEnded saving unfinished eth-Closes unfinished-HalfStarted (inl (one_entry, refl))
      (inr (record { hash = refl; db = refl; timer = refl }))

intr-is_cpu : is_cpu intr ≡ false
unfolding is_cpu
intr-is_cpu = refl

stat_opened :
    (usage : CpuUsage) × (open_cpus 1 session.stat ≡ done usage)
    × ((name : Bytes) → usage name ≡ (if is_listed name [] then some fresh_cpu else none))
stat_opened = open_cpus-registers [] [] intr [] 1 tt intr-is_cpu (omega arith)

abbrev id_of : Bytes → Option ℕ
id_of text = some (length text)

collector-IsWired : IsWired counter collector
collector-IsWired = record { received = tt; passed = tt; dropped = tt }

can_serve : CanServe sqlite sample_hash services sample_heap sample_heap
can_serve = record {
  start = no_objects-CanStart;
  eal = refl;
  pool = (7, refl);
  iface_in = (eth0, refl);
  iface_out = (eth1, refl);
  closes = eth-Closes;
}

main-Ended_example :
    Gives
      (λ out.
        (left : Left sqlite sample_hash counter) × (out ≡ (left.exit, some left))
        × Ended services session sample_heap sample_heap left)
      (main env services pton id_of 1 settings session collector sample_heap sample_heap)
main-Ended_example =
    main-Ended env services pton id_of 1 settings session collector sample_heap sample_heap
      (b'4' ∷ []) (b'g' ∷ []) (b'1' ∷ []) 1 stat_opened.0 sample_hash-IsHash counter-IsCounter refl
      refl refl refl refl refl stat_opened.1 collector-IsWired refl can_serve
