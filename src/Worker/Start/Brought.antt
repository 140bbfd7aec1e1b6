-- ===== src/Worker/Start/Brought.antt =====
-- How far `initDPDK` comes.
use grpc_server.Base.{
  ℕ, ◌<◌, ◌≡◌, ◌⊎◌, refl, inl, inr, Bool, true, false, Option, none, some, [], Bytes,
}
use grpc_server.Base.Run.{done, ◌>>=◌}
use grpc_server.RteHash.{RteHash, IsHash}
use grpc_server.Cache.Invariant.{IsFresh}
use grpc_server.Save.{Sqlite, Tables, domain_tables, ip_tables}
use grpc_server.Save.Caches.{LoadEnv, Store, init_dns_cache, init_ip_cache}
use grpc_server.Save.Caches.Opened.{Opened, init_caches-Opened}
use grpc_server.Ports.{is_negative}
use grpc_server.Ports.Named.{init_struct_tap_port, init_struct_af_xdp_port}
use grpc_server.Ports.Stages.{ready, started}
use grpc_server.Ports.Trio.{slot_of}
use grpc_server.Ports.Trio.Staged.{
  UpTo, NotReady, NotStarted, Built, AllPorts, FailsAt, Removes, init_ports-InOrder,
  start_ports-InOrder,
}
use grpc_server.Worker.Start.{
  Services, InitError, ports_not_initialized, ports_not_started, Dpdk, tap_name, built_ports,
  init_devices, init_with_pool, init_dpdk,
}

-- the opening of a cache, with what it leaves
abbrev pub OpensTo : (s : Sqlite) (h : RteHash) → Tables → LoadEnv → Store s h → Store s h → Type 0
OpensTo s h ts env store store' = Opened s h ts env store (done store')

-- Nothing is thrown, all ports are started without a failed call, and each cache is opened, or left
-- without a table where none can be created; or the ports come as far as the first error, and the
-- caches are as before.
abbrev pub Brought :
    (s : Sqlite) (h : RteHash) → Services → Dpdk s h → Option InitError → Dpdk s h → Type 0
Brought s h env d thrown d' =
    ((thrown ≡ none)
      × AllPorts (UpTo started) d'.ports
      × OpensTo s h domain_tables env.load_dns d.dns_store d'.dns_store
      × OpensTo s h ip_tables env.load_ip d.ip_store d'.ip_store)
    ⊎ ((thrown ≡ some ports_not_initialized)
        × FailsAt Built (UpTo ready) NotReady d'.ports
        × (d'.dns_store ≡ d.dns_store)
        × (d'.ip_store ≡ d.ip_store))
    ⊎ ((thrown ≡ some ports_not_started)
        × FailsAt (UpTo ready) (UpTo started) NotStarted d'.ports
        × (d'.dns_store ≡ d.dns_store)
        × (d'.ip_store ≡ d.ip_store))

-- What a start needs: the hash tables, the clock, the heaps, and the memory for the ports.
pub record CanStart (s : Sqlite) (h : RteHash) (env : Services) (d : Dpdk s h) : Type 0 where
  pub empty : (t : h.Table) → h.create ≡ some t → h.entries t ≡ []
  pub hz_dns : 0 < env.load_dns.hz
  pub hz_ip : 0 < env.load_ip.hz
  pub fresh_dns : IsFresh d.dns_store.heap
  pub fresh_ip : IsFresh d.ip_store.heap
  pub removes : (i : ℕ) → Removes (env.eth i)
  pub memory : (i : ℕ) → env.calloc_ok i ≡ true

tap_port-Built :
    (allocated : Bool) (name : Bytes) (pool : ℕ)
    → allocated ≡ true
    → Built (slot_of (init_struct_tap_port allocated name pool))
unfolding init_struct_tap_port
tap_port-Built true name pool e = (_, refl)
tap_port-Built false name pool e = absurd (cc)

af_xdp_port-Built :
    (with_af_packet allocated : Bool) (name : Bytes) (pool : ℕ)
    → allocated ≡ true
    → Built (slot_of (init_struct_af_xdp_port with_af_packet allocated name pool))
unfolding init_struct_af_xdp_port
af_xdp_port-Built with_af_packet true name pool e = (_, refl)
af_xdp_port-Built with_af_packet false name pool e = absurd (cc)

pub built_ports-Built :
    (env : Services) (pool : ℕ) (iface_in iface_out : Bytes)
    → ((i : ℕ) → env.calloc_ok i ≡ true)
    → AllPorts Built (built_ports env pool iface_in iface_out)
built_ports-Built env pool iface_in iface_out memory = (
  af_xdp_port-Built env.with_af_packet (env.calloc_ok 0) iface_in pool (memory 0),
  af_xdp_port-Built env.with_af_packet (env.calloc_ok 1) iface_out pool (memory 1),
  tap_port-Built (env.calloc_ok 2) tap_name pool (memory 2),
)

module _ {s : Sqlite} {h : RteHash} (laws : IsHash h) (env : Services) where
  pub dns-OpensTo :
      (d : Dpdk s h)
      → CanStart s h env d
      → (store : Store s h) × (init_dns_cache s h env.load_dns d.dns_store ≡ done store)
        × OpensTo s h domain_tables env.load_dns d.dns_store store
  dns-OpensTo d can =
      elim (init_caches-Opened s h env.load_dns d.dns_store env.pton env.garbage_key laws can.hz_dns
        can.empty can.fresh_dns).0 [
          | inl (t, at_t, run) ↦ (_, run, inl (t, at_t, refl))
          | inr (inl (at_none, full, run)) ↦ (_, run, inr (inl (at_none, full, refl)))
          | inr (inr (t, heap, at_none, run, all, fresh)) ↦
              (_, run, inr (inr (t, heap, at_none, refl, all, fresh)))
        ]

  pub ip-OpensTo :
      (d : Dpdk s h)
      → CanStart s h env d
      → (store : Store s h) × (init_ip_cache s h env.pton env.garbage_key env.load_ip d.ip_store
          ≡ done store)
        × OpensTo s h ip_tables env.load_ip d.ip_store store
  ip-OpensTo d can =
      elim (init_caches-Opened s h env.load_ip d.ip_store env.pton env.garbage_key laws can.hz_ip
        can.empty can.fresh_ip).1 [
          | inl (t, at_t, run) ↦ (_, run, inl (t, at_t, refl))
          | inr (inl (at_none, full, run)) ↦ (_, run, inr (inl (at_none, full, refl)))
          | inr (inr (t, heap, at_none, run, all, fresh)) ↦
              (_, run, inr (inr (t, heap, at_none, refl, all, fresh)))
        ]

  init_devices-Brought :
      (d : Dpdk s h)
      → CanStart s h env d
      → AllPorts Built d.ports
      → (thrown : Option InitError) × (d' : Dpdk s h) × (init_devices env d ≡ done (thrown, d'))
        × Brought s h env d thrown d'
  unfolding init_devices
  init_devices-Brought d can built =
      let (fails1, ports1, run1, end1) = init_ports-InOrder env.eth d.ports can.removes built in
      elim end1 [
        | inr (bad, at_) ↦ (
          some ports_not_initialized,
          record d { ports = ports1 },
          rw (run1, ◌>>=◌, bad) refl,
          inr (inl (refl, at_, refl, refl)),
        )
        | inl (good1, all1) ↦
            let (fails2, ports2, run2, end2) = start_ports-InOrder env.eth ports1 all1 in
            elim end2 [
              | inr (bad, at_) ↦ (
                some ports_not_started,
                record d { ports = ports2 },
                rw (run1, ◌>>=◌, good1, run2, ◌>>=◌, bad) refl,
                inr (inr (refl, at_, refl, refl)),
              )
              | inl (good2, all2) ↦
                  let (dns, run3, opens3) = dns-OpensTo d can in
                  let (ip, run4, opens4) = ip-OpensTo d can in
                  (
                    none,
                    record d { ports = ports2; dns_store = dns; ip_store = ip },
                    rw (run1, ◌>>=◌, good1, run2, ◌>>=◌, good2, run3, ◌>>=◌, run4) refl,
                    inl (refl, all2, opens3, opens4),
                  )
            ]
      ]

  -- If the hash tables behave as documented and start empty, the clocks run, the heaps give fresh
  -- addresses, EAL and the pool are there, both interfaces are named, the memory for the three
  -- ports is there and DPDK removes the virtual devices where it is asked to: `initDPDK` ends.
  -- Either no call on a port failed, all three ports are started, and each cache is opened, or left
  -- without a table where no table can be created (nothing is thrown then); or one port fails, with
  -- no device left or with a failed call behind which the device is ready or started, those before
  -- it are ready or started, those behind it are as before, and the exception names the stage, with
  -- the caches as before. On each port the calls are in an order that DPDK allows.
  pub init_dpdk-Brought :
      (d : Dpdk s h) (pool : ℕ) (iface_in iface_out : Bytes)
      → CanStart s h env d
      → is_negative env.eal_init ≡ false
      → env.pool_create ≡ some pool
      → env.iface_in ≡ some iface_in
      → env.iface_out ≡ some iface_out
      → (thrown : Option InitError) × (d' : Dpdk s h) × (init_dpdk env d ≡ done (thrown, d'))
        × Brought s h env d thrown d'
  unfolding init_dpdk init_with_pool
  init_dpdk-Brought d pool iface_in iface_out can eal at_pool at_in at_out =
      rw (eal, at_pool, at_in, at_out)
        (init_devices-Brought
          (record d { mbuf_pool = some pool; ports = built_ports env pool iface_in iface_out })
          (record {
            empty = can.empty;
            hz_dns = can.hz_dns;
            hz_ip = can.hz_ip;
            fresh_dns = can.fresh_dns;
            fresh_ip = can.fresh_ip;
            removes = can.removes;
            memory = can.memory;
          })
          (built_ports-Built env pool iface_in iface_out can.memory))
