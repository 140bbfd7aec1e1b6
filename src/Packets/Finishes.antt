-- ===== src/Packets/Finishes.antt =====
-- Each step on a packet comes to an end, with caches that keep their invariant.
use grpc_server.Base.{
  ℕ, suc, ◌≤◌, ◌<◌, ◌≡◌, refl, Bool, true, false, Option, none, some, length, Bool-cases, inl, inr,
}
use grpc_server.Base.Run.{Run, done, ◌>>=◌}
use grpc_server.RteHash.{RteHash, IsHash}
use grpc_server.Cache.{Node}
use grpc_server.Cache.Total.{IsSound, add_new-IsSound}
use grpc_server.DomainCache.{add_to_dns_cache, copy_domain}
use grpc_server.IpCache.{add_to_ip_cache, key_bytes}
use grpc_server.Parser.{Mbuf}
use grpc_server.Filter.{BasePolicy, InfoOfPakage}
use grpc_server.Packets.State.{Env, World, tick}
use grpc_server.Packets.Forward.{package_sending_decision}
use grpc_server.Packets.Progress.{PortsOk, forward-done}
use grpc_server.Packets.Decisions.{
  remembered_ip, remembered_domain, remember_ip_lem, remember_domain_lem, filter_ip, filter_domain,
  decided_by, process_ip_decides, process_domain_decides,
}
use grpc_server.Packets.{
  fresh_node, ip_key_of, remember_ip, remember_domain, process_ip, process_domain,
}

-- The ports have their addresses, and both caches are open and keep their invariant.
pub record IsReady {h : RteHash} (w : World h) : Type 0 where
  pub ports : PortsOk w.ports
  pub ip_cache : IsSound h w.ip_cache
  pub dns_cache : IsSound h w.dns_cache

-- A step that comes to an end, ready for the next one.
abbrev pub Finishes : {h : RteHash} → Run (World h) → Type 0
Finishes {h} run = (w' : World h) × (run ≡ done w') × IsReady w'

pub Finishes-then :
    {h : RteHash} (m : Run (World h)) (f : World h → Run (World h))
    → Finishes m
    → ((w1 : World h) → IsReady w1 → Finishes (f w1))
    → Finishes (m >>= f)
Finishes-then m f (w1, run, ready) k = rw run (k w1 ready)

-- A verdict is reached at every step at which it may be asked for.
abbrev pub Decides : (ℕ → Run Bool) → Type 0
Decides decide = (step : ℕ) → (b : Bool) × (decide step ≡ done b)

module _ {h : RteHash} (laws : IsHash h) (env : Env) (hz_pos : 0 < env.hz)
    (policy : BasePolicy) where
  remember_ip-Finishes :
      (solution : Bool) (i : InfoOfPakage) (w : World h)
      → IsReady w
      → Finishes (remember_ip env policy solution i w)
  unfolding remember_ip add_to_ip_cache
  remember_ip-Finishes solution i w ready =
      let (t, heap, at_ip, all, fresh) = ready.ip_cache in
      elim (Bool-cases (env.malloc_ok w.step)) [
        | inr e ↦ (
          tick w,
          rw e refl,
          record { ports = ready.ports; ip_cache = ready.ip_cache; dns_cache = ready.dns_cache },
        )
        | inl e ↦
            let (c, run, sound) =
              add_new-IsSound h laws (env.cycles (suc w.step)) policy.ttl_ip
                (key_bytes (ip_key_of i)) t heap (fresh_node solution) all fresh
                (env.malloc_ok (suc w.step)) in
            (
              record (tick (tick w)) { ip_cache = c },
              rw (e, at_ip, run) refl,
              record { ports = ready.ports; ip_cache = sound; dns_cache = ready.dns_cache },
            )
      ]

  remember_domain-Finishes :
      (solution : Bool) (i : InfoOfPakage) (w : World h)
      → IsReady w
      → Finishes (remember_domain env policy solution i w)
  unfolding remember_domain add_to_dns_cache
  remember_domain-Finishes solution i w ready =
      let (t, heap, at_dns, all, fresh) = ready.dns_cache in
      elim (Bool-cases (env.malloc_ok w.step)) [
        | inr e ↦ (
          tick w,
          rw e refl,
          record { ports = ready.ports; ip_cache = ready.ip_cache; dns_cache = ready.dns_cache },
        )
        | inl e ↦
            let (c, run, sound) =
              add_new-IsSound h laws (env.cycles (suc w.step)) policy.ttl_domain
                (copy_domain i.domain) t heap (fresh_node solution) all fresh
                (env.malloc_ok (suc w.step)) in
            (
              record (tick (tick w)) { dns_cache = c },
              rw (e, at_dns, run) refl,
              record { ports = ready.ports; ip_cache = ready.ip_cache; dns_cache = sound },
            )
      ]

  module _ (port_in port_out queue_number : ℕ) (pkt : Mbuf) (long : 34 ≤ length pkt.buf) where
    pub sending-Finishes :
        (solution : Bool) (w : World h)
        → IsReady w
        → Finishes (package_sending_decision env solution pkt port_in port_out queue_number w)
    unfolding package_sending_decision
    sending-Finishes true w ready =
        let (w', run, ok, same_ip, same_dns) =
          forward-done env pkt port_in port_out queue_number w ready.ports long in
        (
          w',
          run,
          record {
            ports = ok;
            ip_cache = rw same_ip ready.ip_cache;
            dns_cache = rw same_dns ready.dns_cache;
          },
        )
    sending-Finishes false w ready = (
      _,
      refl,
      record { ports = ready.ports; ip_cache = ready.ip_cache; dns_cache = ready.dns_cache },
    )

    decided_by-Finishes :
        (i : InfoOfPakage) (m : Option Node) (decision : Run Bool)
        (remember : Bool → InfoOfPakage → World h → Run (World h)) (w : World h)
        → (b : Bool) × (decision ≡ done b)
        → ((b : Bool) (w1 : World h) → IsReady w1 → Finishes (remember b i w1))
        → IsReady w
        → Finishes (decided_by env policy port_in port_out queue_number pkt i m decision remember w)
    decided_by-Finishes i (some node) decision remember w decides k ready =
        sending-Finishes node.solution_is_send w ready
    decided_by-Finishes i none decision remember w (b, e) k ready =
        let ready' : IsReady (tick w) = record {
          ports = ready.ports;
          ip_cache = ready.ip_cache;
          dns_cache = ready.dns_cache;
        } in
        rw e (
          Finishes-then (package_sending_decision env b pkt port_in port_out queue_number (tick w))
            (remember b i) (sending-Finishes b (tick w) ready') (k b))

    pub process_ip-Finishes :
        (i : InfoOfPakage) (w : World h)
        → Decides (λ step. filter_ip env policy step i)
        → IsReady w
        → Finishes (process_ip env policy port_in port_out queue_number pkt i w)
    process_ip-Finishes i w decides ready =
        let (t, heap, at_ip, all, fresh) = ready.ip_cache in
        let (t', heap', run, all', fresh', same) =
          process_ip_decides env policy port_in port_out queue_number pkt i laws hz_pos w t heap all
            fresh at_ip in
        rw run (
          decided_by-Finishes i _ (filter_ip env policy (suc w.step) i) (remembered_ip env policy) _
            (decides (suc w.step))
            (λ b w1 ready1.
              rw (← remember_ip_lem env policy b i w1) (remember_ip-Finishes b i w1 ready1))
            (record {
              ports = ready.ports;
              ip_cache = (t', heap', refl, all', fresh');
              dns_cache = ready.dns_cache;
            }))

    pub process_domain-Finishes :
        (i : InfoOfPakage) (w : World h)
        → Decides (λ step. filter_domain env policy step i)
        → IsReady w
        → Finishes (process_domain env policy port_in port_out queue_number pkt i w)
    process_domain-Finishes i w decides ready =
        let (t, heap, at_dns, all, fresh) = ready.dns_cache in
        let (t', heap', run, all', fresh', same) =
          process_domain_decides env policy port_in port_out queue_number pkt i laws hz_pos w t heap
            all fresh at_dns in
        rw run (
          decided_by-Finishes i _ (filter_domain env policy (suc w.step) i)
            (remembered_domain env policy) _ (decides (suc w.step))
            (λ b w1 ready1.
              rw (← remember_domain_lem env policy b i w1) (remember_domain-Finishes b i w1 ready1))
            (record {
              ports = ready.ports;
              ip_cache = ready.ip_cache;
              dns_cache = (t', heap', refl, all', fresh');
            }))
