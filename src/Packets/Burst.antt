-- ===== src/Packets/Burst.antt =====
-- The buffers and the counters over the packets of a burst.
use grpc_server.Base.{
  ◌+◌, ℕ, suc, ◌≡◌, refl, Bool, true, Option, none, some, List, [], ◌∷◌, length, starts_nul,
}
use grpc_server.Base.Run.{
  Run, done, ◌>>=◌, or_fault, Gives, Gives-bind, Gives-bind-Ends, Gives-then, Gives-if,
  Gives-weaken, Gives-or_fault, Ends,
}
use grpc_server.RteHash.{RteHash}
use grpc_server.Cache.{Cache, is_open}
use grpc_server.Cache.Ends.{Gives-lookup_cache, Gives-add_to_cache}
use grpc_server.DomainCache.{lookup_dns_cache, add_to_dns_cache}
use grpc_server.IpCache.{lookup_ip_cache, add_to_ip_cache}
use grpc_server.Parser.{Mbuf, parsing_pakage}
use grpc_server.Parser.Fields.{parsing_pakage-IsParsed}
use grpc_server.Filter.{
  BasePolicy, RequestedClassification, InfoOfPakage, main_filtring_by_domain, main_filtring_by_ip,
}
use grpc_server.Packets.State.{Env, World, ip, domain, record_packet_received, tick}
use grpc_server.Packets.Forward.{check_is_exception}
use grpc_server.Packets.Accounts.{
  count_sent, count_released, Disposes, drop-Disposes, Gives-package_sending_decision,
}
use grpc_server.Packets.{
  LookupResult, hit, missed, failed, lookup_result, decide_ip, decide_domain, remember_ip,
  remember_domain, on_ip_result, on_domain_result, process_ip, process_domain, process_packet,
  unless_exception, process_all, forward_all, pakage_processing, zero_info, ip_text,
}
use grpc_server.Packets.Handled.{
  Untouched, IsAccounted, Handles, Disposes-before, Disposes-after, IsAccounted-Handles,
  Handles-none, Handles-counted,
}

Ends-or_fault {ℓ} : {A : Type ℓ} (o : Option A) → Ends (or_fault o)
Ends-or_fault o = Gives-or_fault _ o (λ _. tt)

Ends-decide_ip :
    (env : Env) (policy : BasePolicy) (step : ℕ) (i : InfoOfPakage)
    → Ends (decide_ip env policy step i)
unfolding decide_ip
Ends-decide_ip env policy step i = go (env.classify step ip (ip_text env i))
  where
    go :
        (r : Option RequestedClassification)
        → Ends
            (elim r [ some req ↦ or_fault (main_filtring_by_ip req policy i) | none ↦ done true ])
    go none = tt
    go (some req) = Ends-or_fault (main_filtring_by_ip req policy i)

Ends-decide_domain :
    (env : Env) (policy : BasePolicy) (step : ℕ) (i : InfoOfPakage)
    → Ends (decide_domain env policy step i)
unfolding decide_domain
Ends-decide_domain env policy step i = go (env.classify step domain i.domain)
  where
    go :
        (r : Option RequestedClassification)
        → Ends (elim r [
          | some req ↦ or_fault (main_filtring_by_domain req policy i)
          | none ↦ done true
        ])
    go none = tt
    go (some req) = Ends-or_fault (main_filtring_by_domain req policy i)

caches-Untouched :
    {h : RteHash} (w : World h) (ip_cache dns_cache : Cache h) (step : ℕ)
    → is_open ip_cache ≡ is_open w.ip_cache
    → is_open dns_cache ≡ is_open w.dns_cache
    → Untouched w (record w { ip_cache = ip_cache; dns_cache = dns_cache; step = step })
caches-Untouched w ip_cache dns_cache step same_ip same_dns = record {
  events = refl;
  received = refl;
  passed = refl;
  dropped = refl;
  dns_open = same_dns;
  ip_open = same_ip;
}

-- what is remembered once a packet is gone
decided-Disposes :
    {h : RteHash} (w : World h) (m : Run (World h)) (remember : World h → Run (World h))
    → Gives (Disposes (tick w)) m
    → ((w' : World h) → Gives (Untouched w') (remember w'))
    → Gives (Disposes w) (m >>= remember)
decided-Disposes w m remember g k = Gives-bind (Disposes w) m remember (
    Gives-weaken _ _ m g (λ w1 d. Gives-weaken _ _ (remember w1) (k w1) (λ w' u.
      Disposes-before (caches-Untouched w w.ip_cache w.dns_cache (suc w.step) refl refl)
        (Disposes-after d u))))

module _ {h : RteHash} (env : Env) (policy : BasePolicy) where
  Gives-remember_ip :
      (solution : Bool) (i : InfoOfPakage) (w : World h)
      → Gives (Untouched w) (remember_ip env policy solution i w)
  unfolding remember_ip add_to_ip_cache
  Gives-remember_ip solution i w =
      Gives-if (Untouched w) (env.malloc_ok w.step) _ _
        (λ _.
          Gives-then (λ cache. is_open cache ≡ is_open w.ip_cache) (Untouched w)
            (add_to_ip_cache h _ _ _ _ policy.ttl_ip _) _
            (Gives-add_to_cache h _ _ _ _ policy.ttl_ip _)
            (λ cache same. caches-Untouched w cache w.dns_cache _ same refl))
        (λ _. caches-Untouched w w.ip_cache w.dns_cache _ refl refl)

  Gives-remember_domain :
      (solution : Bool) (i : InfoOfPakage) (w : World h)
      → Gives (Untouched w) (remember_domain env policy solution i w)
  unfolding remember_domain add_to_dns_cache
  Gives-remember_domain solution i w =
      Gives-if (Untouched w) (env.malloc_ok w.step) _ _
        (λ _.
          Gives-then (λ cache. is_open cache ≡ is_open w.dns_cache) (Untouched w)
            (add_to_dns_cache h _ _ _ _ policy.ttl_domain _) _
            (Gives-add_to_cache h _ _ _ _ policy.ttl_domain _)
            (λ cache same. caches-Untouched w w.ip_cache cache _ refl same))
        (λ _. caches-Untouched w w.ip_cache w.dns_cache _ refl refl)

  module _ (port_in port_out queue_number : ℕ) (pkt : Mbuf) (i : InfoOfPakage) where
    Gives-on_ip_result :
        (r : LookupResult) (w : World h)
        → Gives (Disposes w) (on_ip_result env policy port_in port_out queue_number pkt i r w)
    unfolding on_ip_result
    Gives-on_ip_result (hit p) w =
        Gives-bind-Ends (Disposes w) (or_fault (w.ip_cache.heap.nodes p)) _ (Ends-or_fault _)
          (λ node.
            Gives-package_sending_decision env pkt port_in port_out queue_number
              node.solution_is_send w)
    Gives-on_ip_result missed w =
        Gives-bind-Ends (Disposes w) (decide_ip env policy w.step i) _
          (Ends-decide_ip env policy w.step i)
          (λ solution.
            decided-Disposes w _ (remember_ip env policy solution i)
              (Gives-package_sending_decision env pkt port_in port_out queue_number solution
                (tick w))
              (Gives-remember_ip solution i))
    Gives-on_ip_result failed w = drop-Disposes env pkt w

    Gives-on_domain_result :
        (r : LookupResult) (w : World h)
        → Gives (Disposes w) (on_domain_result env policy port_in port_out queue_number pkt i r w)
    unfolding on_domain_result
    Gives-on_domain_result (hit p) w =
        Gives-bind-Ends (Disposes w) (or_fault (w.dns_cache.heap.nodes p)) _ (Ends-or_fault _)
          (λ node.
            Gives-package_sending_decision env pkt port_in port_out queue_number
              node.solution_is_send w)
    Gives-on_domain_result missed w =
        Gives-bind-Ends (Disposes w) (decide_domain env policy w.step i) _
          (Ends-decide_domain env policy w.step i)
          (λ solution.
            decided-Disposes w _ (remember_domain env policy solution i)
              (Gives-package_sending_decision env pkt port_in port_out queue_number solution
                (tick w))
              (Gives-remember_domain solution i))
    Gives-on_domain_result failed w = drop-Disposes env pkt w

    Gives-process_ip :
        (w : World h)
        → Gives (Disposes w) (process_ip env policy port_in port_out queue_number pkt i w)
    unfolding process_ip lookup_ip_cache
    Gives-process_ip w =
        Gives-then (λ out. is_open out.1 ≡ is_open w.ip_cache) (Disposes w)
          (lookup_ip_cache h _ _ _ w.ip_cache) _ (Gives-lookup_cache h _ _ _ w.ip_cache)
          (λ (r, cache) same.
            Gives-weaken _ (Disposes w) _ (Gives-on_ip_result (lookup_result r) _)
              (λ w' d. Disposes-before (caches-Untouched w cache w.dns_cache _ same refl) d))

    Gives-process_domain :
        (w : World h)
        → Gives (Disposes w) (process_domain env policy port_in port_out queue_number pkt i w)
    unfolding process_domain lookup_dns_cache
    Gives-process_domain w =
        Gives-then (λ out. is_open out.1 ≡ is_open w.dns_cache) (Disposes w)
          (lookup_dns_cache h _ _ _ w.dns_cache) _ (Gives-lookup_cache h _ _ _ w.dns_cache)
          (λ (r, cache) same.
            Gives-weaken _ (Disposes w) _ (Gives-on_domain_result (lookup_result r) _)
              (λ w' d. Disposes-before (caches-Untouched w w.ip_cache cache _ refl same) d))

  module _ (port_in port_out port_exception queue_number : ℕ) where
    Gives-unless_exception :
        (pkt : Mbuf) (i : InfoOfPakage) (process : World h → Run (World h))
        → ((w : World h) → Gives (Disposes w) (process w))
        → (w : World h)
        → Gives (Disposes w) (
            unless_exception env policy port_in port_out port_exception queue_number pkt i process
              w)
    unfolding unless_exception
    Gives-unless_exception pkt i process gives w =
        Gives-if (Disposes w) (check_is_exception i.number_port) _ _
          (λ _. Gives-package_sending_decision env pkt port_in port_exception queue_number true w)
          (λ _. gives w)

    Gives-process_packet :
        (pkt : Mbuf) (w : World h)
        → Gives
            (Disposes (record_packet_received w))
            (process_packet env policy port_in port_out port_exception queue_number pkt w)
    unfolding process_packet
    Gives-process_packet pkt w =
        Gives-bind-Ends (Disposes (record_packet_received w)) (parsing_pakage env.net pkt zero_info)
          _ (Gives-weaken _ _ _ (parsing_pakage-IsParsed env.net pkt zero_info refl) (λ _ _. tt))
          (λ i.
            Gives-if (Disposes (record_packet_received w)) (starts_nul i.domain) _ _
              (λ _.
                Gives-unless_exception pkt i _
                  (Gives-process_ip port_in port_out queue_number pkt i) _)
              (λ _.
                Gives-unless_exception pkt i _
                  (Gives-process_domain port_in port_out queue_number pkt i) _))

    -- one packet and the rest of the burst
    Gives-burst :
        (pkts : List Mbuf) (w : World h) (m : Run (World h)) (rest : World h → Run (World h))
        → Gives (Disposes (record_packet_received w)) m
        → ((w1 : World h) → Gives (Handles (length pkts) (length pkts) w1) (rest w1))
        → Gives (Handles (suc (length pkts)) (suc (length pkts)) w) (m >>= rest)
    Gives-burst pkts w m rest first k = Gives-bind _ m rest (
        Gives-weaken _ _ m first
          (λ w1 d. Gives-weaken _ _ (rest w1) (k w1) (λ w' hs. Handles-counted (length pkts) d hs)))

    Gives-process_all :
        (pkts : List Mbuf) (w : World h)
        → Gives
            (Handles (length pkts) (length pkts) w)
            (process_all env policy port_in port_out port_exception queue_number pkts w)
    unfolding process_all
    Gives-process_all [] w = Handles-none w
    Gives-process_all (pkt ∷ pkts) w =
        Gives-burst pkts w _ _ (Gives-process_packet pkt w) (Gives-process_all pkts)

    Gives-forward_all :
        (pkts : List Mbuf) (w : World h)
        → Gives
            (Handles (length pkts) (length pkts) w)
            (forward_all env policy port_in port_out port_exception queue_number pkts w)
    unfolding forward_all
    Gives-forward_all [] w = Handles-none w
    Gives-forward_all (pkt ∷ pkts) w =
        Gives-burst pkts w _ _
          (Gives-package_sending_decision env pkt port_in port_out queue_number true
            (record_packet_received w))
          (Gives-forward_all pkts)

pub Gives-pakage_processing :
    {h : RteHash} (env : Env) (policy : BasePolicy)
    (port_in port_out port_exception queue_number : ℕ) (filtring_is_turned_off : Bool)
    (pkts : List Mbuf) (w : World h)
    → Gives (Handles (length pkts) (length pkts) w) (
        pakage_processing env policy port_in port_out port_exception queue_number
          filtring_is_turned_off pkts w)
unfolding pakage_processing
Gives-pakage_processing env policy port_in port_out port_exception queue_number off pkts w =
    Gives-if _ off _ _
      (λ _. Gives-forward_all env policy port_in port_out port_exception queue_number pkts w)
      (λ _. Gives-process_all env policy port_in port_out port_exception queue_number pkts w)

-- Over any burst, with the filter on or off, whatever the classifier, the allocator and the
-- drivers answer, no loop runs on without end, and if no access goes outside a buffer, an array or
-- the live objects: the sent and the released buffers together grow by the length of the burst, and
-- so does the count of received packets; and if the counters were right before, they are right
-- after: received packets are those sent or released, `passed` counts what was offered to a driver,
-- and `dropped` counts at least what a driver refused and at most what was released.
pub pakage_processing-IsAccounted :
    {h : RteHash} (env : Env) (policy : BasePolicy)
    (port_in port_out port_exception queue_number : ℕ) (filtring_is_turned_off : Bool)
    (pkts : List Mbuf) (w : World h)
    → IsAccounted w
    → Gives
        (λ w'.
          IsAccounted w'
          × (w'.received ≡ length pkts + w.received)
          × (count_sent w'.events + count_released w'.events
              ≡ length pkts + (count_sent w.events + count_released w.events)))
        (pakage_processing env policy port_in port_out port_exception queue_number
          filtring_is_turned_off pkts w)
pakage_processing-IsAccounted {h} env policy port_in port_out port_exception queue_number off pkts w
      a =
    Gives-weaken (Handles (length pkts) (length pkts) w) _
      (pakage_processing env policy port_in port_out port_exception queue_number off pkts w)
      (Gives-pakage_processing env policy port_in port_out port_exception queue_number off pkts w)
      (λ w' hs. all w' hs)
  where
    all :
        (w' : World h)
        → Handles (length pkts) (length pkts) w w'
        → IsAccounted w'
          × (w'.received ≡ length pkts + w.received)
          × (count_sent w'.events + count_released w'.events
              ≡ length pkts + (count_sent w.events + count_released w.events))
    all w' hs = (IsAccounted-Handles (length pkts) a hs, hs.received, hs.disposed)
