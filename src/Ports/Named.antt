-- ===== src/Ports/Named.antt =====
-- worker/src/dpdk_filter/net_port.c: the ports as they are built, before their devices exist.
use grpc_server.Base.{
  ℕ, zero, suc, ◌==◌, Bool-cases, inl, inr, length-append, ◌-◌, ◌≤◌, ◌<◌, ◌≡◌, ◌↔◌, refl, Bool,
  true, false, Option, none, some, [], ◌∷◌, ◌++◌, Bytes, length, take, replicate, c_str, strcmp_eq,
  strcmp_eq_iff, memcmp_eq, take_all, arith, if◌then◌else◌,
}
use grpc_server.Ports.{Port, no_port}

abbrev pub iface_eq : Bytes
iface_eq = b'i' ∷ b'f' ∷ b'a' ∷ b'c' ∷ b'e' ∷ b'=' ∷ []

abbrev pub remote_eq : Bytes
remote_eq = b',' ∷ b' ' ∷ b'r' ∷ b'e' ∷ b'm' ∷ b'o' ∷ b't' ∷ b'e' ∷ b'=' ∷ []

abbrev pub tap_prefix : Bytes
tap_prefix = b'n' ∷ b'e' ∷ b't' ∷ b'_' ∷ b't' ∷ b'a' ∷ b'p' ∷ b'_' ∷ []

abbrev pub af_packet_prefix : Bytes
af_packet_prefix =
    b'e' ∷ b't' ∷ b'h' ∷ b'_' ∷ b'a' ∷ b'f' ∷ b'_' ∷ b'p' ∷ b'a' ∷ b'c' ∷ b'k' ∷ b'e' ∷ b't' ∷ b'_'
    ∷ []

abbrev pub af_xdp_prefix : Bytes
af_xdp_prefix = b'n' ∷ b'e' ∷ b't' ∷ b'_' ∷ b'a' ∷ b'f' ∷ b'_' ∷ b'x' ∷ b'd' ∷ b'p' ∷ b'_' ∷ []

abbrev pub af_packet_options : Bytes
af_packet_options =
    b',' ∷ b'q' ∷ b'p' ∷ b'a' ∷ b'i' ∷ b'r' ∷ b's' ∷ b'=' ∷ b'1' ∷ b',' ∷ b'b' ∷ b'l' ∷ b'o' ∷ b'c'
    ∷ b'k' ∷ b's' ∷ b'z' ∷ b'=' ∷ b'1' ∷ b'6' ∷ b'3' ∷ b'8' ∷ b'4' ∷ b',' ∷ b'f' ∷ b'r' ∷ b'a'
    ∷ b'm' ∷ b'e' ∷ b's' ∷ b'z' ∷ b'=' ∷ b'2' ∷ b'0' ∷ b'4' ∷ b'8' ∷ b',' ∷ b'f' ∷ b'r' ∷ b'a'
    ∷ b'm' ∷ b'e' ∷ b'c' ∷ b'n' ∷ b't' ∷ b'=' ∷ b'4' ∷ b'0' ∷ b'9' ∷ b'6' ∷ []

abbrev pub af_xdp_options : Bytes
af_xdp_options =
    b',' ∷ b's' ∷ b't' ∷ b'a' ∷ b'r' ∷ b't' ∷ b'_' ∷ b'q' ∷ b'u' ∷ b'e' ∷ b'u' ∷ b'e' ∷ b'=' ∷ b'0'
    ∷ b',' ∷ b'q' ∷ b'u' ∷ b'e' ∷ b'u' ∷ b'e' ∷ b'_' ∷ b'c' ∷ b'o' ∷ b'u' ∷ b'n' ∷ b't' ∷ b'='
    ∷ b'1' ∷ []

-- what `snprintf` and `strncpy` leave of a string without a NUL in a buffer of `size` zeros
unfoldable pub print_into : ℕ → Bytes → Bytes
print_into size text = let kept = take (size - 1) text in kept ++ replicate (size - length kept) 0

-- `allocated` tells whether `calloc` succeeded.
unfoldable pub init_struct_tap_port : Bool → Bytes → ℕ → Option Port
unfolding print_into
init_struct_tap_port allocated tap_iface_name mbuf_pool =
    let name = c_str tap_iface_name in
    if allocated
    then some (record {
      port_id = no_port;
      iface_name = print_into 32 name;
      dev_name = print_into 64 (tap_prefix ++ name);
      dev_args = print_into 256 (iface_eq ++ name ++ remote_eq ++ name);
      mbuf_pool = mbuf_pool;
      mac_addr = replicate 6 0;
      neighbor_learned = false;
    })
    else none

-- `with_af_packet` is the build option WITH_AF_PACKET.
unfoldable pub init_struct_af_xdp_port : Bool → Bool → Bytes → ℕ → Option Port
unfolding print_into
init_struct_af_xdp_port with_af_packet allocated iface_name mbuf_pool =
    let name = c_str iface_name in
    if allocated
    then some (record {
      port_id = no_port;
      iface_name = print_into 32 name;
      dev_name =
          print_into 64 ((if with_af_packet then af_packet_prefix else af_xdp_prefix) ++ name);
      dev_args =
          print_into 256
            (iface_eq ++ name ++ (if with_af_packet then af_packet_options else af_xdp_options));
      mbuf_pool = mbuf_pool;
      mac_addr = replicate 6 0;
      neighbor_learned = false;
    })
    else none

-- no byte is a NUL
abbrev pub IsText : Bytes → Type 0
IsText [] = Unit
IsText (b ∷ bs) = (0 < b) × IsText bs

c_str-IsText : (s : Bytes) → IsText (c_str s)
unfolding c_str
c_str-IsText [] = tt
c_str-IsText (b ∷ bs) = elim (Bool-cases (b == 0)) [
  | inl e ↦ rw e tt
  | inr e ↦ rw e (ground (arith, e), c_str-IsText bs)
]

append-IsText : (a b : Bytes) → IsText a → IsText b → IsText (a ++ b)
append-IsText [] b ha hb = hb
append-IsText (x ∷ a) b (lt, ha) hb = (lt, append-IsText a b ha hb)

c_str-zeros : (n : ℕ) → c_str (replicate n 0) ≡ []
unfolding c_str
c_str-zeros zero = refl
c_str-zeros (suc n) = refl

c_str-text : (s : Bytes) (n : ℕ) → IsText s → c_str (s ++ replicate n 0) ≡ s
unfolding c_str
c_str-text [] n ok = c_str-zeros n
c_str-text (b ∷ s) n (lt, ok) =
    let e : (b == 0) ≡ false = ground (arith, lt) in rw (e, c_str-text s n ok) refl

c_str-print_into :
    (size : ℕ) (text : Bytes)
    → length text < size
    → IsText text
    → c_str (print_into size text) ≡ text
unfolding print_into
c_str-print_into size text lt ok =
    rw (take_all text (size - 1) (omega (arith, lt))) (c_str-text text _ ok)

cons-tail : {x : ℕ} {a b : Bytes} → x ∷ a ≡ x ∷ b → a ≡ b
cons-tail e = grind (arith, e)

append_cancel : (p a b : Bytes) → p ++ a ≡ p ++ b → a ≡ b
append_cancel [] a b e = e
append_cancel (x ∷ p) a b e = append_cancel p a b (cons-tail e)

-- the name of a device: a prefix and the name of an interface
module _ (a : Bytes) (short : length (c_str a) < 50) where
  c_str-named :
      (prefix : Bytes)
      → length prefix ≤ 14
      → IsText prefix
      → c_str (print_into 64 (prefix ++ c_str a)) ≡ prefix ++ c_str a
  c_str-named prefix le ok =
      c_str-print_into 64 (prefix ++ c_str a)
        (omega (arith, length-append prefix (c_str a), le, short))
        (append-IsText prefix (c_str a) ok (c_str-IsText a))

same_prefix_iff :
    (a b prefix : Bytes)
    → length (c_str a) < 50
    → length (c_str b) < 50
    → length prefix ≤ 14
    → IsText prefix
    → (strcmp_eq (print_into 64 (prefix ++ c_str a)) (print_into 64 (prefix ++ c_str b)) ≡ true)
      ↔ (c_str a ≡ c_str b)
same_prefix_iff a b prefix short_a short_b le ok =
    let at_a = c_str-named a short_a prefix le ok in
    let at_b = c_str-named b short_b prefix le ok in
    (
      (λ e.
          append_cancel prefix (c_str a) (c_str b) (rw (at_a, at_b) at ((strcmp_eq_iff _ _).0 e))),
      (λ e. (strcmp_eq_iff _ _).1 (rw (at_a, at_b, e) refl)),
    )

tap_prefix-IsText : IsText tap_prefix
tap_prefix-IsText = ground arith

af_packet_prefix-IsText : IsText af_packet_prefix
af_packet_prefix-IsText = ground arith

af_xdp_prefix-IsText : IsText af_xdp_prefix
af_xdp_prefix-IsText = ground arith

-- Both ports are built, and with the same device name.
abbrev pub same_device : Option Port → Option Port → Bool
same_device (some p) (some q) = strcmp_eq p.dev_name q.dev_name
same_device (some p) none = false
same_device none q = false

-- For interface names under 50 bytes, and with the memory for the ports: two ports of the same kind
-- get the same device name exactly when their interfaces have the same name, and a port for AF_XDP or
-- AF_PACKET never gets the device name of a TAP port.
pub init_struct_names :
    (with_af_packet : Bool) (a b : Bytes) (mbuf_pool : ℕ)
    → length (c_str a) < 50
    → length (c_str b) < 50
    → ((same_device (init_struct_tap_port true a mbuf_pool) (init_struct_tap_port true b mbuf_pool)
          ≡ true)
        ↔ (c_str a ≡ c_str b))
      × ((same_device
              (init_struct_af_xdp_port with_af_packet true a mbuf_pool)
              (init_struct_af_xdp_port with_af_packet true b mbuf_pool)
            ≡ true)
          ↔ (c_str a ≡ c_str b))
      × (same_device
            (init_struct_af_xdp_port with_af_packet true a mbuf_pool)
            (init_struct_tap_port true b mbuf_pool)
          ≡ false)
unfolding init_struct_tap_port init_struct_af_xdp_port strcmp_eq memcmp_eq c_str
init_struct_names true a b mbuf_pool short_a short_b = (
  same_prefix_iff a b tap_prefix short_a short_b (omega arith) tap_prefix-IsText,
  same_prefix_iff a b af_packet_prefix short_a short_b (omega arith) af_packet_prefix-IsText,
  refl,
)
init_struct_names false a b mbuf_pool short_a short_b = (
  same_prefix_iff a b tap_prefix short_a short_b (omega arith) tap_prefix-IsText,
  same_prefix_iff a b af_xdp_prefix short_a short_b (omega arith) af_xdp_prefix-IsText,
  refl,
)
