-- ===== src/Parser/Dns.antt =====
-- The two loops of `parsing_pakage` over the name of a DNS query. `rest` is the packet from `*pos`
-- to the end of its buffer; a read behind it is a fault, and so is a write outside `domain`.
use grpc_server.Base.{
  ℕ, zero, suc, ◌+◌, ◌&&◌, not, [], ◌∷◌, ◌++◌, Bytes, length, take, drop, ◌==◌, ltb, leb,
  if◌then◌else◌,
}
use grpc_server.Base.Run.{Run, done, fault, no_fuel, ◌>>=◌}

abbrev pub domain_max_len : ℕ
domain_max_len = 260

-- the first loop: `*pos` and `domain_len` where it ends
unfoldable pub dns_scan : ℕ → Bytes → ℕ → Run (ℕ × ℕ)
dns_scan zero rest domain_len = no_fuel
dns_scan (suc fuel) [] domain_len = fault
dns_scan (suc fuel) (b ∷ rest) domain_len =
    let next = dns_scan fuel (drop b rest) (domain_len + (b + 1)) in
    if not (b == 0) && ltb domain_len 255 then next else done (b, domain_len)

-- `if (dst != info_pac->domain) *dst++ = '.';`, with `written` what stands before `dst`
abbrev pub add_dot : Bytes → Bytes
add_dot [] = []
add_dot (c ∷ written) = (c ∷ written) ++ b'.' ∷ []

-- the second loop: the text that it writes, without the closing NUL
unfoldable pub dns_copy : ℕ → Bytes → Bytes → Run Bytes
dns_copy zero rest written = no_fuel
dns_copy (suc fuel) [] written = fault
dns_copy (suc fuel) (b ∷ rest) written =
    let written' = add_dot written ++ take b rest in
    let next = dns_copy fuel (drop b rest) written' in
    if b == 0
    then (if ltb (length written) domain_max_len then done written else fault)
    else if leb b (length rest) && leb (length written') domain_max_len
    then next
    else fault

-- the text and its NUL over the old content of `domain`
unfoldable pub store_domain : Bytes → Bytes → Bytes
store_domain old written = written ++ 0 ∷ drop (suc (length written)) old

-- The name that starts at `rest`: nothing if it is malformed.
unfoldable pub dns_name : Bytes → Bytes → Run Bytes
dns_name rest old = do
  (b, domain_len) ← dns_scan 256 rest 0
  if b == 0 && ltb 0 domain_len
      then (do written ← dns_copy 256 rest []; done (store_domain old written))
      else done old
