-- ===== src/Packets/Handled.antt =====
-- What a step of the burst does to the buffers and the counters, and how steps compose.
use grpc_server.Base.{ℕ, suc, ◌+◌, ◌≤◌, ◌≡◌, arith}
use grpc_server.RteHash.{RteHash}
use grpc_server.Cache.{is_open}
use grpc_server.Packets.State.{World, record_packet_received}
use grpc_server.Packets.Accounts.{count_sent, count_refused, count_released, Disposes}

-- Neither the buffers nor the counters are touched, and no cache is opened or closed.
pub record Untouched {h : RteHash} (w w' : World h) : Type 0 where
  pub events : w'.events ≡ w.events
  pub received : w'.received ≡ w.received
  pub passed : w'.passed ≡ w.passed
  pub dropped : w'.dropped ≡ w.dropped
  pub dns_open : is_open w'.dns_cache ≡ is_open w.dns_cache
  pub ip_open : is_open w'.ip_cache ≡ is_open w.ip_cache

-- Every buffer that was received was sent or released, once. `passed` counts what was offered to a
-- driver, refused or not; `dropped` counts every refusal, and no more than the releases.
pub record IsAccounted {h : RteHash} (w : World h) : Type 0 where
  pub disposed : w.received ≡ count_sent w.events + count_released w.events
  pub passed : w.passed ≡ count_sent w.events + count_refused w.events
  pub dropped_ge : count_refused w.events ≤ w.dropped
  pub dropped_le : w.dropped ≤ count_released w.events

-- From `w` to `w'`, `n` buffers are sent or released, `counted` of them are counted as received, and
-- `passed` and `dropped` count as for one packet. No cache is opened or closed.
pub record Handles {h : RteHash} (counted n : ℕ) (w w' : World h) : Type 0 where
  pub disposed :
      count_sent w'.events + count_released w'.events
      ≡ n + (count_sent w.events + count_released w.events)
  pub received : w'.received ≡ counted + w.received
  pub passed :
      w'.passed + (count_sent w.events + count_refused w.events)
      ≡ w.passed + (count_sent w'.events + count_refused w'.events)
  pub dropped_ge : w.dropped + count_refused w'.events ≤ w'.dropped + count_refused w.events
  pub dropped_le : w'.dropped + count_released w.events ≤ w.dropped + count_released w'.events
  pub dns_open : is_open w'.dns_cache ≡ is_open w.dns_cache
  pub ip_open : is_open w'.ip_cache ≡ is_open w.ip_cache

module _ {h : RteHash} where
  pub Disposes-before : {w w1 w' : World h} → Untouched w w1 → Disposes w1 w' → Disposes w w'
  Disposes-before u d = ground arith

  pub Disposes-after : {w w1 w' : World h} → Disposes w w1 → Untouched w1 w' → Disposes w w'
  Disposes-after d u = ground arith

  -- the packet that was counted as received
  pub IsAccounted-step :
      {w w' : World h} → IsAccounted w → Disposes (record_packet_received w) w' → IsAccounted w'
  IsAccounted-step a d = ground arith

  pub IsAccounted-Handles :
      (n : ℕ) {w w' : World h} → IsAccounted w → Handles n n w w' → IsAccounted w'
  IsAccounted-Handles n a hs = ground arith

  pub Handles-none : (w : World h) → Handles 0 0 w w
  Handles-none w = ground arith

  pub Handles-counted :
      (n : ℕ) {w w1 w' : World h}
      → Disposes (record_packet_received w) w1
      → Handles n n w1 w'
      → Handles (suc n) (suc n) w w'
  Handles-counted n d hs = ground arith

  pub Handles-uncounted :
      (n : ℕ) {w w1 w' : World h} → Disposes w w1 → Handles 0 n w1 w' → Handles 0 (suc n) w w'
  Handles-uncounted n d hs = ground arith
