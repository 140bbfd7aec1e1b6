-- ===== src/Packets/Accounts.antt =====
-- What happens to the packet buffers and to the three counters of the metrics.
use grpc_server.Base.{
  ℕ, suc, length, get_elem?, drop, ◌+◌, ◌-◌, ◌≤◌, ◌≡◌, Bool, true, false, Option, none, some, List,
  [], ◌∷◌, Bytes, ltb, leb, ◌==◌, arith, if◌then◌else◌,
}
use grpc_server.Base.Run.{or_fault, Gives, Gives-bind, Gives-if, Gives-weaken, Gives-or_fault, Ends}
use grpc_server.Cache.{is_open}
use grpc_server.Cache.Ends.{Ends-bind}
use grpc_server.RteHash.{RteHash}
use grpc_server.Parser.{Mbuf, read16, read_bytes, cpu_to_be_16}
use grpc_server.Packets.State.{
  NetPort, Event, tx, released, Env, World, record_packet_dropped, pktmbuf_free,
}
use grpc_server.Packets.Forward.{
  send_packet, forward_packet_with_rewrite, package_sending_decision, learn_neighbor_mac,
  rewrite_packet, rewrite_ipv4, write_bytes, bytes16,
}

-- the packets that a driver took
unfoldable pub count_sent : List Event → ℕ
count_sent [] = 0
count_sent (tx port queue pkt ret ∷ events) =
    if ltb ret 1 then count_sent events else suc (count_sent events)
count_sent (released pkt ∷ events) = count_sent events

-- the packets that a driver did not take
unfoldable pub count_refused : List Event → ℕ
count_refused [] = 0
count_refused (tx port queue pkt ret ∷ events) =
    if ltb ret 1 then suc (count_refused events) else count_refused events
count_refused (released pkt ∷ events) = count_refused events

-- the packets that went back to the pool
unfoldable pub count_released : List Event → ℕ
count_released [] = 0
count_released (tx port queue pkt ret ∷ events) = count_released events
count_released (released pkt ∷ events) = suc (count_released events)

-- From `w` to `w'` exactly one buffer is sent or released, `passed` counts what was offered to a
-- driver, refused or not, and `dropped` counts what was refused and perhaps other releases. No cache
-- is opened or closed.
pub record Disposes {h : RteHash} (w w' : World h) : Type 0 where
  pub once :
      count_sent w'.events + count_released w'.events
      ≡ suc (count_sent w.events + count_released w.events)
  pub received : w'.received ≡ w.received
  pub passed :
      w'.passed + count_sent w.events + count_refused w.events
      ≡ w.passed + count_sent w'.events + count_refused w'.events
  pub dropped_ge : w.dropped + count_refused w'.events ≤ w'.dropped + count_refused w.events
  pub dropped_le : w'.dropped + count_released w.events ≤ w.dropped + count_released w'.events
  pub dns_open : is_open w'.dns_cache ≡ is_open w.dns_cache
  pub ip_open : is_open w'.ip_cache ≡ is_open w.ip_cache

with_ports :
    {h : RteHash} {w' : World h} (w : World h) (ports : ℕ → NetPort)
    → Disposes (record w { ports = ports }) w'
    → Disposes w w'
with_ports w ports d = record {
  once = d.once;
  received = d.received;
  passed = d.passed;
  dropped_ge = d.dropped_ge;
  dropped_le = d.dropped_le;
  dns_open = d.dns_open;
  ip_open = d.ip_open;
}

module _ {h : RteHash} (env : Env) where
  send_packet-Disposes :
      (pkt : Mbuf) (port_id queue_number : ℕ) (w : World h)
      → Disposes w (send_packet env pkt port_id queue_number w)
  unfolding send_packet count_sent count_refused count_released
  send_packet-Disposes pkt port_id queue_number w = ground arith

  release-Disposes : (pkt : Mbuf) (w : World h) → Disposes w (pktmbuf_free pkt w)
  unfolding count_sent count_refused count_released
  release-Disposes pkt w = ground arith

  pub drop-Disposes :
      (pkt : Mbuf) (w : World h) → Disposes w (pktmbuf_free pkt (record_packet_dropped w))
  unfolding count_sent count_refused count_released
  drop-Disposes pkt w = ground arith

Ends-write_bytes : (buf : Bytes) (o : ℕ) (bytes : Bytes) → Ends (write_bytes buf o bytes)
unfolding write_bytes
Ends-write_bytes buf o bytes =
    Gives-if _ (leb (o + length bytes) (length buf)) _ _ (λ _. tt) (λ _. tt)

Ends-read_bytes : (buf : Bytes) (o n : ℕ) → Ends (read_bytes buf o n)
unfolding read_bytes
Ends-read_bytes buf o n = Gives-if _ (leb (o + n) (length buf)) _ _ (λ _. tt) (λ _. tt)

Ends-read16 : (buf : Bytes) (o : ℕ) → Ends (read16 buf o)
unfolding read16
Ends-read16 buf o =
    Ends-bind (or_fault (get_elem? buf o)) _ (Gives-or_fault _ (get_elem? buf o) (λ _. tt)) (λ _.
      Ends-bind (or_fault (get_elem? buf (o + 1))) _
        (Gives-or_fault _ (get_elem? buf (o + 1)) (λ _. tt)) (λ _. tt))

Ends-learn_neighbor_mac :
    (port : ℕ) (buf : Bytes) (port_2 : ℕ) (ports : ℕ → NetPort)
    → Ends (learn_neighbor_mac port buf port_2 ports)
unfolding learn_neighbor_mac
Ends-learn_neighbor_mac port buf port_2 ports =
    Ends-bind (read_bytes buf 6 6) _ (Ends-read_bytes buf 6 6) (λ _. tt)

Ends-rewrite_ipv4 : (env : Env) (buf : Bytes) → Ends (rewrite_ipv4 env buf)
unfolding rewrite_ipv4
Ends-rewrite_ipv4 env buf =
    Ends-bind (or_fault (get_elem? buf 22)) _ (Gives-or_fault _ (get_elem? buf 22) (λ _. tt))
      (λ ttl.
        Gives-if _ (ltb 1 ttl) _ _
          (λ _.
            Ends-bind (write_bytes buf 22 ((ttl - 1) ∷ [])) _ (Ends-write_bytes buf 22 _) (λ buf1.
              Ends-bind (write_bytes buf1 24 (bytes16 0)) _ (Ends-write_bytes buf1 24 _) (λ buf2.
                Ends-bind (write_bytes buf2 24 (bytes16 (env.ipv4_cksum (drop 14 buf2)))) _
                  (Ends-write_bytes buf2 24 _) (λ _. tt))))
          (λ _. tt))

Ends-rewrite_packet :
    (env : Env) (out_port : NetPort) (buf : Bytes) → Ends (rewrite_packet env out_port buf)
unfolding rewrite_packet
Ends-rewrite_packet env out_port buf =
    Ends-bind (write_bytes buf 6 out_port.mac_addr) _ (Ends-write_bytes buf 6 _) (λ buf1.
      Ends-bind (write_bytes buf1 0 _) _ (Ends-write_bytes buf1 0 _) (λ buf2.
        Ends-bind (read16 buf2 12) _ (Ends-read16 buf2 12) (λ ether_type.
          Gives-if _ (ether_type == cpu_to_be_16 env.net.ether_type_ipv4) _ _
            (λ _. Ends-rewrite_ipv4 env buf2) (λ _. tt))))

module _ {h : RteHash} (env : Env) (pkt : Mbuf) (in_port out_port queue_number : ℕ) where
  pub Gives-forward :
      (w : World h)
      → Gives (Disposes w) (forward_packet_with_rewrite env pkt in_port out_port queue_number w)
  unfolding forward_packet_with_rewrite
  Gives-forward w =
      Gives-bind (Disposes w) (learn_neighbor_mac in_port pkt.buf out_port w.ports) _ (
        Gives-weaken _ _ (learn_neighbor_mac in_port pkt.buf out_port w.ports)
          (Ends-learn_neighbor_mac in_port pkt.buf out_port w.ports)
          (λ ports _. Gives-bind (Disposes w) (rewrite_packet env (ports out_port) pkt.buf) _ (
            Gives-weaken _ _ (rewrite_packet env (ports out_port) pkt.buf)
              (Ends-rewrite_packet env (ports out_port) pkt.buf)
              (λ rewritten _. after ports rewritten))))
    where
      after :
          (ports : ℕ → NetPort) (rewritten : Option Bytes)
          → Disposes w (elim rewritten [
            | none ↦ pktmbuf_free pkt (record w { ports = ports })
            | some buf ↦
                send_packet env
                  (record pkt { buf = buf })
                  (ports out_port).port_id
                  queue_number
                  (record w { ports = ports })
          ])
      after ports none = with_ports w ports (release-Disposes env pkt (record w { ports = ports }))
      after ports (some buf) = with_ports w ports (
          send_packet-Disposes env (record pkt { buf = buf }) (ports out_port).port_id queue_number
            (record w { ports = ports }))

  -- A sending decision disposes of the packet once, whatever the drivers answer.
  pub Gives-package_sending_decision :
      (solution : Bool) (w : World h)
      → Gives
          (Disposes w)
          (package_sending_decision env solution pkt in_port out_port queue_number w)
  unfolding package_sending_decision
  Gives-package_sending_decision true w = Gives-forward w
  Gives-package_sending_decision false w = drop-Disposes env pkt w
