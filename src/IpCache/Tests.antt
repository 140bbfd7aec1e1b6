-- ===== src/IpCache/Tests.antt =====
-- The theorem on the keys of the IP cache at the address 10.0.0.1, with a stack that is not zero.
use grpc_server.Base.{◌≡◌, ◌↔◌, refl, none, some, [], ◌∷◌, Bytes, drop, replicate}
use grpc_server.IpCache.{IpKey, Pton, key_bytes, ip_str_to_key}
use grpc_server.IpCache.Keys.{packet_key4, ip_str_to_key4_iff}

abbrev ten_one : Bytes
ten_one = 10 ∷ 0 ∷ 0 ∷ 1 ∷ []

-- reads every text as 10.0.0.1
abbrev one_address : Pton
one_address = record { inet = λ text. some ten_one; inet6 = λ text. none }

abbrev stack : Bytes
stack = replicate 16 7

ip_str_to_key4_iff_example :
    (key : IpKey) × (ip_str_to_key one_address stack [] ≡ some key)
    × ((key_bytes key ≡ key_bytes (packet_key4 ten_one)) ↔ (drop 4 stack ≡ replicate 12 0))
ip_str_to_key4_iff_example = ip_str_to_key4_iff one_address stack [] ten_one refl
