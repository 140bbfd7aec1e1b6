-- ===== src/IpCache.antt =====
-- worker/src/dpdk_filter/ip_cache.c: the cache of decisions by destination address. A key is the 20
-- bytes of a `struct ip_key`: the version, and the union of an IPv4 and an IPv6 address.
mod Keys
mod Tests
use grpc_server.Base.{
  ℕ, Bool, true, false, [], ◌∷◌, ◌++◌, Bytes, ℤ, Option, none, some, length, take, drop, replicate,
}
use grpc_server.Base.Run.{Run}
use grpc_server.RteHash.{RteHash, Ptr}
use grpc_server.Cache.{Cache, lookup_cache, add_to_cache, clear_cache}

-- struct ip_key; `addr` is the 16 bytes of the union
pub record IpKey : Type 0 where
  pub version : ℕ
  pub addr : Bytes

-- the key as `rte_hash` sees it
unfoldable pub key_bytes : IpKey → Bytes
key_bytes key = key.version ∷ 0 ∷ 0 ∷ 0 ∷ key.addr

-- `inet_pton` on a text: the 4 bytes of an IPv4 address, the 16 of an IPv6 address
pub record Pton : Type 0 where
  pub inet : Bytes → Option Bytes
  pub inet6 : Bytes → Option Bytes

-- `garbage` is what the uninitialised key on the stack of the caller holds.
unfoldable pub ip_str_to_key : Pton → Bytes → Bytes → Option IpKey
ip_str_to_key pton garbage ip_str = elim (pton.inet ip_str) [
  | some ip4 ↦ some (record { version = 4; addr = ip4 ++ drop 4 garbage })
  | none ↦ elim (pton.inet6 ip_str) [
    | some ip6 ↦ some (record { version = 6; addr = ip6 })
    | none ↦ none
  ]
]

module _ (h : RteHash) where
  unfoldable pub lookup_ip_cache : ℕ → ℕ → IpKey → Cache h → Run ((ℤ × Option Ptr) × Cache h)
  lookup_ip_cache now hz key c = lookup_cache h now hz (key_bytes key) c

  unfoldable pub add_to_ip_cache : Bool → ℕ → IpKey → Ptr → ℤ → Cache h → Run (Cache h)
  add_to_ip_cache malloc_ok now key node ttl_ip c =
      add_to_cache h malloc_ok now (key_bytes key) node ttl_ip c

  unfoldable pub clear_ip_cache : Cache h → Cache h
  clear_ip_cache c = clear_cache h c
