-- ===== src/Worker/Start/Shut.antt =====
-- What the destructor leaves.
use grpc_server.Base.{ℕ, ◌≡◌, ◌⊎◌, ◌∙◌, refl, inl, inr, true, ◌&&◌, Option, none, some}
use grpc_server.Base.Run.{done, Gives, Gives-if, Gives-then}
use grpc_server.RteHash.{RteHash}
use grpc_server.Save.{save_all_cache, Sqlite, domain_tables, ip_tables}
use grpc_server.Save.Caches.{
  Store, domain_text, ip_text, save_all_cache_to_sqlite, save_all_cache_ip_to_sqlite,
}
use grpc_server.Save.Caches.Released.{free_store, IsShut, free_store-IsShut, Gives-save_all_cache}
use grpc_server.Ports.Trio.{Slot}
use grpc_server.Ports.Trio.Staged.{AllPorts, HalfStarted, Closes, Gone, close_ports-Gone}
use grpc_server.Worker.Start.{Services, Dpdk, end_caches, is_there, destroy}

-- a cache that has a table, or neither a connection nor a timer
abbrev pub IsWhole : {s : Sqlite} {h : RteHash} → Store s h → Type 0
IsWhole {s} {h} store = ((t : h.Table) × (store.hash ≡ some t)) ⊎ IsShut s h store

-- No device, no port, and nothing of the two caches is left.
abbrev pub IsEnded : {s : Sqlite} {h : RteHash} → Dpdk s h → Type 0
IsEnded {s} {h} d = AllPorts Gone d.ports × IsShut s h d.dns_store × IsShut s h d.ip_store

HalfStarted-is_there : (slot : Slot) → HalfStarted slot → is_there slot ≡ true
HalfStarted-is_there slot (inl (port, at_port, stage)) = rw at_port refl
HalfStarted-is_there slot (inr (port, at_port, stage)) = rw at_port refl

module _ {s : Sqlite} {h : RteHash} (env : Services) where
  -- A cache whose connection is replaced is as whole as before.
  saved-IsWhole :
      (store : Store s h) (db : Option s.Db)
      → IsWhole store
      → ((store.hash ≡ none) → db ≡ store.db)
      → IsWhole (record store { db = db })
  saved-IsWhole store db (inl (t, at_t)) same = inl (t, at_t)
  saved-IsWhole store db (inr shut) same =
      inr (record { hash = shut.hash; db = same shut.hash ∙ shut.db; timer = shut.timer })

  pub end_caches-IsShut :
      (d : Dpdk s h)
      → IsWhole d.dns_store
      → IsWhole d.ip_store
      → Gives
          (λ d'. (d'.ports ≡ d.ports) × IsShut s h d'.dns_store × IsShut s h d'.ip_store)
          (end_caches env d)
  unfolding end_caches save_all_cache_to_sqlite save_all_cache_ip_to_sqlite
  end_caches-IsShut d dns ip =
      let out = λ (d' : Dpdk s h).
        (d'.ports ≡ d.ports) × IsShut s h d'.dns_store × IsShut s h d'.ip_store in
      Gives-then (λ saved. d.dns_store.hash ≡ none → saved.1 ≡ d.dns_store.db) out
        (save_all_cache s domain_tables h domain_text d.dns_store.hash d.dns_store.db
          env.counted_dns d.dns_store.heap)
        _
        (Gives-save_all_cache s domain_tables h domain_text d.dns_store.hash d.dns_store.db
          env.counted_dns d.dns_store.heap)
        (λ dns_saved dns_db.
          Gives-then (λ saved. d.ip_store.hash ≡ none → saved.1 ≡ d.ip_store.db) out
            (save_all_cache s ip_tables h (ip_text env.ntop) d.ip_store.hash d.ip_store.db
              env.counted_ip d.ip_store.heap)
            _
            (Gives-save_all_cache s ip_tables h (ip_text env.ntop) d.ip_store.hash d.ip_store.db
              env.counted_ip d.ip_store.heap)
            (λ ip_saved ip_db.
              Gives-then (IsShut s h) out (free_store s h (record d.dns_store { db = dns_saved.1 }))
                _ (free_store-IsShut s h _ (saved-IsWhole d.dns_store dns_saved.1 dns dns_db))
                (λ dns_store dns_shut.
                  Gives-then (IsShut s h) out
                    (free_store s h (record d.ip_store { db = ip_saved.1 })) _
                    (free_store-IsShut s h _ (saved-IsWhole d.ip_store ip_saved.1 ip ip_db))
                    (λ ip_store ip_shut. (refl, dns_shut, ip_shut)))))

  -- Where the devices of all three ports are ready or started, each cache has a table or nothing, and
  -- DPDK does what closing a port asks for: the destructor ends, and if it touches live objects alone,
  -- no device and no port is left, after calls in an allowed order, and no table, no connection and no
  -- timer of either cache.
  pub destroy-IsEnded :
      (d : Dpdk s h)
      → ((i : ℕ) → Closes (env.eth i))
      → AllPorts HalfStarted d.ports
      → IsWhole d.dns_store
      → IsWhole d.ip_store
      → Gives IsEnded (destroy env d)
  unfolding destroy
  destroy-IsEnded d closes (b1, b2, b3) dns ip =
      rw (HalfStarted-is_there d.ports.port_in b1, HalfStarted-is_there d.ports.port_out b2)
        (Gives-then _ IsEnded (end_caches env d) _ (end_caches-IsShut d dns ip)
          (λ d' (same, dns_shut, ip_shut).
            (rw same (close_ports-Gone env.eth d.ports closes (b1, b2, b3)), dns_shut, ip_shut)))

  -- The destructor leaves a cache that was never opened as it is.
  pub destroy-IsShut :
      (d : Dpdk s h)
      → IsShut s h d.dns_store
      → IsShut s h d.ip_store
      → Gives (λ d'. IsShut s h d'.dns_store × IsShut s h d'.ip_store) (destroy env d)
  unfolding destroy
  destroy-IsShut d dns ip =
      let out = λ (d' : Dpdk s h). IsShut s h d'.dns_store × IsShut s h d'.ip_store in
      Gives-if out (is_there d.ports.port_in && is_there d.ports.port_out) _ (done d)
        (λ there.
          Gives-then _ out (end_caches env d) _ (end_caches-IsShut d (inr dns) (inr ip))
            (λ d' (same, dns_shut, ip_shut). (dns_shut, ip_shut)))
        (λ gone. (dns, ip))
