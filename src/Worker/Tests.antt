-- ===== src/Worker/Tests.antt =====
-- The theorems on the worker at small messages, counters and rounds.
use grpc_server.Base.{
  ◌≡◌, refl, get_elem?, true, false, some, [], ◌∷◌, ◌++◌, Bytes, pos, replicate, c_str,
  if◌then◌else◌, arith,
}
use grpc_server.Base.Run.{done, fault, Gives}
use grpc_server.Cache.Table.{sample_hash, sample_hash-IsHash}
use grpc_server.Cache.Sample.{sample_heap, one_entry}
use grpc_server.DomainCache.{strncpy}
use grpc_server.Packets.Sample.{env, policy, world}
use grpc_server.Packets.Accounts.{count_sent, count_refused, count_released}
use grpc_server.Filter.{RequestedClassification, check_categories}
use grpc_server.Filter.Rows.{IsSized}
use grpc_server.Packets.{zero_info}
use grpc_server.Worker.Policy.{
  zero_policy, PolicyMessage, policy_provided, GetPolicyResponse, Configured, ClassifyResponse,
  install_policy, request_policy, classify,
}
use grpc_server.Worker.Policy.Tables.{fits, installed, install_policy_cases}
use grpc_server.Worker.Policy.Installed.{DecidesLists, install_policy-DecidesLists}
use grpc_server.Worker.Policy.Classified.{classify_keeps_rows}
use grpc_server.Worker.Policy.Requests.{Requested, request_policy-Requested}
use grpc_server.Worker.Counters.{
  Totals, no_packets, MetricsCollector, flush_local_counters, at_rest, Shared, Reach, start,
  received, passed,
}
use grpc_server.Worker.Counters.Kept.{Conserved, exported_totals, flush_local_counters_exports}
use grpc_server.Worker.Loop.{Process, free, main_loop}
use grpc_server.Worker.Sample.{pton, counter, counter-IsCounter, collector, round}
use grpc_server.Worker.Loop.Paced.{IsPaced, main_loop-IsPaced}
use grpc_server.Worker.Loop.Recorded.{Reports, IsFlushed}
use grpc_server.Worker.Loop.Reported.{main_loop-Reports}

abbrev text_a : Bytes
text_a = b'a' ∷ b'.' ∷ b'b' ∷ []

abbrev message : PolicyMessage
message = record {
  block_categories = text_a ∷ [];
  block_by_trust = (text_a, pos 3) ∷ [];
  block_domains = text_a ∷ [];
  allow_domains = [];
  block_ips = (b'1' ∷ []) ∷ (b'1' ∷ b':' ∷ []) ∷ [] ∷ [];
  allow_ips = [];
  min_trust_level = pos 1;
  ttl_ip = pos 0;
  ttl_domain = pos 60;
  config_version = 4;
}

install_policy_cases_example :
    (install_policy pton message ≡ (if fits message then done (installed pton message) else fault))
    × IsSized (installed pton message)
install_policy_cases_example = install_policy_cases pton message

fits-message : fits message ≡ true
unfolding fits
fits-message = refl

message_built : install_policy pton message ≡ done (installed pton message)
message_built = rw fits-message at (install_policy_cases pton message).0

install_policy-DecidesLists_example : DecidesLists pton message zero_info (installed pton message)
install_policy-DecidesLists_example =
    install_policy-DecidesLists pton message zero_info (installed pton message) message_built

-- rows that no answer has reached
abbrev old_rows : RequestedClassification
old_rows = record { get_categories = replicate 100 text_a; get_trust_level = pos 9 }

abbrev answer : ClassifyResponse
answer = record { categories = (b'n' ∷ []) ∷ []; trust_level = pos 5 }

abbrev locked_row : Bytes
locked_row = text_a ++ replicate 61 0

locked_row_at :
    (get_elem? (installed pton message).locked_categories 0 ≡ some locked_row)
    × (c_str text_a ≡ c_str locked_row)
unfolding zero_policy strncpy c_str
locked_row_at = (refl, refl)

classify_keeps_rows_example :
    (req : RequestedClassification) × (classify (some answer) old_rows ≡ some req)
    × (get_elem? req.get_categories 1 ≡ some text_a)
    × (req.get_trust_level ≡ pos 5)
    × (check_categories req.get_categories (installed pton message).locked_categories ≡ false)
classify_keeps_rows_example =
    classify_keeps_rows answer old_rows (installed pton message)
      (install_policy_cases pton message).1 refl 1 text_a locked_row 0 (omega arith) refl
      locked_row_at.0 locked_row_at.1

abbrev response : GetPolicyResponse
response = record { filtering_enabled = true; result = policy_provided; policy = message }

abbrev configured : Configured sample_hash
configured = record {
  current_config_version = 3;
  enable = false;
  current_policy = policy;
  ip_cache = record { hash = some one_entry; heap = sample_heap };
  dns_cache = record { hash = some one_entry; heap = sample_heap };
}

request_policy-Requested_example :
    Requested sample_hash pton
      (some response)
      configured
      (request_policy pton (some response) configured)
request_policy-Requested_example =
    request_policy-Requested sample_hash-IsHash pton (some response) configured one_entry one_entry
      refl refl

abbrev at_start : Shared counter
at_start = record { local = no_packets; point = at_rest; metrics = collector }

at_start-Conserved : Conserved counter no_packets at_start
at_start-Conserved = record {
  wired = record { received = tt; passed = tt; dropped = tt };
  received = (omega arith, 0, refl);
  passed = (omega arith, 0, refl);
  dropped = (omega arith, 0, refl);
}

-- two packets received and one passed
abbrev recorded : Totals
recorded = record { received = 2; passed = 1; dropped = 0 }

two_received : Reach counter at_start recorded (record at_start { local = recorded })
two_received = passed (received (received start))

flush_local_counters_exports_example :
    (m' : MetricsCollector counter) × (flush_local_counters counter
        (record { local = recorded; metrics_collector = some collector })
      ≡ record { local = no_packets; metrics_collector = some m' })
    × (exported_totals counter m' ≡ recorded)
flush_local_counters_exports_example =
    flush_local_counters_exports counter counter-IsCounter at_start recorded collector recorded
      at_start-Conserved two_received (omega arith) (omega arith) (omega arith)

abbrev process : Process sample_hash counter
process = record {
  world = world;
  current_config_version = 3;
  enable = true;
  current_policy = policy;
  state = free;
  last_policy_time = 0;
  policy_interval = 30;
  last_metrics_push_time = 0;
  timer_check_counter = 0;
  metrics_collector = some collector;
  calls = [];
}

main_loop-IsPaced_example :
    Gives (IsPaced 0 2) (main_loop env pton 0 1 2 0 0 (round ∷ round ∷ []) true process)
main_loop-IsPaced_example =
    main_loop-IsPaced env pton 0 1 2 0 0 (round ∷ round ∷ []) true process refl refl (omega arith)
      (omega arith)

process-Reports : Reports 0 0 process
unfolding count_sent count_refused count_released
process-Reports = record {
  collecting = record { received = tt; passed = tt; dropped = tt };
  received = refl;
  disposed = refl;
  passed = refl;
  dropped_ge = omega arith;
  dropped_le = omega arith;
}

main_loop-Reports_example :
    Gives
      (λ p'. Reports 4 8 p' × IsFlushed p')
      (main_loop env pton 0 1 2 0 0 (round ∷ round ∷ []) true process)
main_loop-Reports_example =
    main_loop-Reports env pton 0 1 2 0 0 (round ∷ round ∷ []) true process counter-IsCounter refl
      process-Reports
