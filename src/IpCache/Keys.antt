-- ===== src/IpCache/Keys.antt =====
-- The keys of ip_cache.c: those that are read back from the database against those of packets.
use grpc_server.Base.{
  ◌≡◌, ◌↔◌, ◌∙◌, refl, sym, ap, ◌++◌, Bytes, some, length, drop, drop-append, replicate,
}
use grpc_server.IpCache.{IpKey, Pton, key_bytes, ip_str_to_key}

-- the key that `pakage_processing` makes of an IPv4 destination, in a key that is all zero
abbrev pub packet_key4 : Bytes → IpKey
packet_key4 ip4 = record { version = 4; addr = ip4 ++ replicate 12 0 }

append_cancel : (a b c : Bytes) → a ++ b ≡ a ++ c → b ≡ c
append_cancel a b c e = sym (drop-append a b) ∙ ap (drop (length a)) e ∙ drop-append a c

-- An IPv4 address that is read back from the database gets the key of a packet to that address
-- exactly when the stack bytes behind the address happen to be zero.
pub ip_str_to_key4_iff :
    (pton : Pton) (garbage ip_str ip4 : Bytes)
    → pton.inet ip_str ≡ some ip4
    → (key : IpKey) × (ip_str_to_key pton garbage ip_str ≡ some key)
      × ((key_bytes key ≡ key_bytes (packet_key4 ip4)) ↔ (drop 4 garbage ≡ replicate 12 0))
unfolding ip_str_to_key key_bytes
ip_str_to_key4_iff pton garbage ip_str ip4 e = (
  record { version = 4; addr = ip4 ++ drop 4 garbage },
  rw (e, ip_str_to_key) refl,
  (
    λ same. append_cancel ip4 (drop 4 garbage) (replicate 12 0) (ap (drop 4) same),
    λ zeros. rw zeros refl,
  ),
)
