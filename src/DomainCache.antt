-- ===== src/DomainCache.antt =====
-- worker/src/dpdk_filter/domain_cache.c: the cache of decisions by domain. A key is the 260 bytes of
-- a `domain` buffer; the copy in the table is made by `strncpy`.
pub mod Keys
mod Tests
use grpc_server.Base.{
  ℕ, zero, suc, ◌-◌, Bool, [], ◌∷◌, ◌++◌, Bytes, ℤ, Option, length, take, replicate, c_str,
}
use grpc_server.Base.Run.{Run}
use grpc_server.RteHash.{RteHash, Ptr}
use grpc_server.Cache.{Cache, lookup_cache, add_to_cache, clear_cache}

abbrev pub domain_max_len : ℕ
domain_max_len = 260

-- strncpy(dst, src, n): `n` bytes, cut or filled with NULs
unfoldable pub strncpy : ℕ → Bytes → Bytes
strncpy zero src = []
strncpy (suc n) [] = 0 ∷ strncpy n []
strncpy (suc n) (b ∷ src) = b ∷ strncpy n src

-- the copy of a key: `strncpy` of the string, and a NUL in the last byte
unfoldable pub copy_domain : Bytes → Bytes
unfolding strncpy
copy_domain domain = take 259 (strncpy domain_max_len (c_str domain)) ++ 0 ∷ []

module _ (h : RteHash) where
  -- `rte_hash` reads 260 bytes at `domain`.
  unfoldable pub lookup_dns_cache : ℕ → ℕ → Bytes → Cache h → Run ((ℤ × Option Ptr) × Cache h)
  lookup_dns_cache now hz domain c = lookup_cache h now hz (take domain_max_len domain) c

  unfoldable pub add_to_dns_cache : Bool → ℕ → Bytes → Ptr → ℤ → Cache h → Run (Cache h)
  add_to_dns_cache malloc_ok now domain node ttl_dns c =
      add_to_cache h malloc_ok now (copy_domain domain) node ttl_dns c

  unfoldable pub clear_dns_cache : Cache h → Cache h
  clear_dns_cache c = clear_cache h c
