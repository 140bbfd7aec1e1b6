-- ===== src/Worker/Loop/Answered.antt =====
-- What the answers of the controller leave alone.
use grpc_server.Base.{
  ◌≡◌, ◌∙◌, refl, Option, none, some, List, [], ◌∷◌, Bool-cases, Option-cases, inl, inr,
}
use grpc_server.Base.Run.{Gives, Gives-bind-Ends, Gives-then, Gives-weaken, Ends}
use grpc_server.RteHash.{RteHash}
use grpc_server.Cache.{Cache, is_open, clear_cache}
use grpc_server.DomainCache.{clear_dns_cache}
use grpc_server.IpCache.{clear_ip_cache}
use grpc_server.Worker.Policy.{
  AddrParser, PolicyMessage, PolicyResult, policy_provided, policy_unchanged, unknown_result,
  GetPolicyResponse, Configured, install_policy, apply_result, request_policy,
}
use grpc_server.Worker.Policy.Tables.{fits, install_policy_cases}
use grpc_server.Worker.Counters.{Counter}
use grpc_server.Worker.Loop.{Process, as_configured, with_configured, apply_answers}

-- The clock of the loop, its counters and its packets are the same, and no cache is opened or closed.
pub record Leaves {h : RteHash} {c : Counter} (p p' : Process h c) : Type 0 where
  pub calls : p'.calls ≡ p.calls
  pub policy_interval : p'.policy_interval ≡ p.policy_interval
  pub last_policy_time : p'.last_policy_time ≡ p.last_policy_time
  pub timer_check_counter : p'.timer_check_counter ≡ p.timer_check_counter
  pub state : p'.state ≡ p.state
  pub metrics_collector : p'.metrics_collector ≡ p.metrics_collector
  pub received : p'.world.received ≡ p.world.received
  pub passed : p'.world.passed ≡ p.world.passed
  pub dropped : p'.world.dropped ≡ p.world.dropped
  pub events : p'.world.events ≡ p.world.events
  pub dns_open : is_open p'.world.dns_cache ≡ is_open p.world.dns_cache
  pub ip_open : is_open p'.world.ip_cache ≡ is_open p.world.ip_cache

-- an answer neither opens a cache nor closes one
record KeepsOpen {h : RteHash} (w w' : Configured h) : Type 0 where
  dns_open : is_open w'.dns_cache ≡ is_open w.dns_cache
  ip_open : is_open w'.ip_cache ≡ is_open w.ip_cache

module _ {h : RteHash} {c : Counter} where
  Leaves-both : {p p1 p' : Process h c} → Leaves p p1 → Leaves p1 p' → Leaves p p'
  Leaves-both a b = record {
    calls = b.calls ∙ a.calls;
    policy_interval = b.policy_interval ∙ a.policy_interval;
    last_policy_time = b.last_policy_time ∙ a.last_policy_time;
    timer_check_counter = b.timer_check_counter ∙ a.timer_check_counter;
    state = b.state ∙ a.state;
    metrics_collector = b.metrics_collector ∙ a.metrics_collector;
    received = b.received ∙ a.received;
    passed = b.passed ∙ a.passed;
    dropped = b.dropped ∙ a.dropped;
    events = b.events ∙ a.events;
    dns_open = b.dns_open ∙ a.dns_open;
    ip_open = b.ip_open ∙ a.ip_open;
  }

  with_configured-Leaves :
      (p : Process h c) (w : Configured h)
      → KeepsOpen (as_configured p) w
      → Leaves p (with_configured p w)
  with_configured-Leaves p w k = record {
    calls = refl;
    policy_interval = refl;
    last_policy_time = refl;
    timer_check_counter = refl;
    state = refl;
    metrics_collector = refl;
    received = refl;
    passed = refl;
    dropped = refl;
    events = refl;
    dns_open = k.dns_open;
    ip_open = k.ip_open;
  }

Ends-install_policy : (pton : AddrParser) (pol : PolicyMessage) → Ends (install_policy pton pol)
Ends-install_policy pton pol = elim (Bool-cases (fits pol)) [
  | inl few ↦ rw ((install_policy_cases pton pol).0, few) tt
  | inr many ↦ rw ((install_policy_cases pton pol).0, many) tt
]

module _ {h : RteHash} where
  clear_cache-is_open : (c : Cache h) → is_open (clear_cache h c) ≡ is_open c
  unfolding clear_cache
  clear_cache-is_open c = elim (Option-cases c.hash) [
    | inl null ↦ rw null refl
    | inr (t, e) ↦ rw e refl
  ]

  KeepsOpen-same : (w : Configured h) → KeepsOpen w w
  KeepsOpen-same w = record { dns_open = refl; ip_open = refl }

module _ {h : RteHash} (pton : AddrParser) where
  Gives-apply_result :
      (result : PolicyResult) (pol : PolicyMessage) (w : Configured h)
      → Gives (KeepsOpen w) (apply_result pton result pol w)
  unfolding apply_result clear_ip_cache clear_dns_cache
  Gives-apply_result policy_unchanged pol w = KeepsOpen-same w
  Gives-apply_result unknown_result pol w = KeepsOpen-same w
  Gives-apply_result policy_provided pol w =
      Gives-bind-Ends (KeepsOpen w) (install_policy pton pol) _ (Ends-install_policy pton pol)
        (λ policy. record {
          dns_open = clear_cache-is_open w.dns_cache;
          ip_open = clear_cache-is_open w.ip_cache;
        })

  Gives-request_policy :
      (answer : Option GetPolicyResponse) (w : Configured h)
      → Gives (KeepsOpen w) (request_policy pton answer w)
  unfolding request_policy
  Gives-request_policy none w = KeepsOpen-same w
  Gives-request_policy (some resp) w =
      let w1 = record w { enable = resp.filtering_enabled } in
      Gives-weaken (KeepsOpen w1) (KeepsOpen w) (apply_result pton resp.result resp.policy w1)
        (Gives-apply_result resp.result resp.policy w1)
        (λ w' k. record { dns_open = k.dns_open; ip_open = k.ip_open })

  module _ {c : Counter} where
    pub Gives-apply_answers :
        (answers : List (Option GetPolicyResponse)) (p : Process h c)
        → Gives (Leaves p) (apply_answers pton answers p)
    unfolding apply_answers
    Gives-apply_answers [] p =
        with_configured-Leaves p (as_configured p) (KeepsOpen-same (as_configured p))
    Gives-apply_answers (answer ∷ answers) p =
        Gives-then (KeepsOpen (as_configured p)) (Leaves p)
          (request_policy pton answer (as_configured p)) _
          (Gives-request_policy answer (as_configured p))
          (λ w k.
            Gives-weaken (Leaves (with_configured p w)) (Leaves p)
              (apply_answers pton answers (with_configured p w))
              (Gives-apply_answers answers (with_configured p w))
              (λ p' l. Leaves-both (with_configured-Leaves p w k) l))
