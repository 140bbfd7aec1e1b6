-- ===== src/Parser/Names.antt =====
-- The DNS names of `parsing_pakage` against their wire format: a list of labels, each behind its
-- length, and a zero byte.
use mathlib.Core.List.{append-nil, append_assoc}
use grpc_server.Base.{
  ℕ, zero, suc, ◌+◌, ◌*◌, ◌≤◌, ◌<◌, ◌≡◌, refl, List, [], ◌∷◌, ap, ◌++◌, Bytes, length,
  length-append, take-append, drop-append, leb, if◌then◌else◌, arith,
}
use grpc_server.Base.Run.{Run, done, fault}
use grpc_server.Parser.Dns.{domain_max_len, add_dot, dns_scan, dns_copy, store_domain, dns_name}

-- the labels on the wire, in front of `rest`
abbrev pub wire : List Bytes → Bytes → Bytes
wire [] rest = rest
wire (l ∷ labels) rest = length l ∷ (l ++ wire labels rest)

-- the bytes that they take there
abbrev pub wire_len : List Bytes → ℕ
wire_len [] = 0
wire_len (l ∷ labels) = length l + 1 + wire_len labels

-- each label behind a dot
abbrev pub dot_tail : List Bytes → Bytes
dot_tail [] = []
dot_tail (l ∷ labels) = b'.' ∷ (l ++ dot_tail labels)

-- the labels with dots between them
abbrev pub dotted : List Bytes → Bytes
dotted [] = []
dotted (l ∷ labels) = l ++ dot_tail labels

-- No label is empty.
abbrev pub AreLabels : List Bytes → Type 0
AreLabels [] = Unit
AreLabels (l ∷ labels) = (0 < length l) × AreLabels labels

length-dot_tail : (labels : List Bytes) → length (dot_tail labels) ≡ wire_len labels
length-dot_tail [] = refl
length-dot_tail (l ∷ labels) =
    omega (arith, length-append l (dot_tail labels), length-dot_tail labels)

length-le-wire_len : (labels : List Bytes) → AreLabels labels → 2 * length labels ≤ wire_len labels
length-le-wire_len [] h = omega arith
length-le-wire_len (l ∷ labels) h = omega (arith, length-le-wire_len labels h.1)

wire_len-append : (xs ys : List Bytes) → wire_len (xs ++ ys) ≡ wire_len xs + wire_len ys
wire_len-append [] ys = omega arith
wire_len-append (x ∷ xs) ys = omega (arith, wire_len-append xs ys)

AreLabels-append : (xs ys : List Bytes) → AreLabels xs → AreLabels ys → AreLabels (xs ++ ys)
AreLabels-append [] ys hx hy = hy
AreLabels-append (x ∷ xs) ys hx hy = (hx.0, AreLabels-append xs ys hx.1 hy)

-- one label of the first loop
pub dns_scan-label :
    (fuel : ℕ) (l : Bytes) (rest : Bytes) (n : ℕ)
    → 0 < length l
    → n < 255
    → dns_scan (suc fuel) (length l ∷ (l ++ rest)) n ≡ dns_scan fuel rest (n + (length l + 1))
unfolding dns_scan
dns_scan-label fuel l rest n h lt = rw (drop-append l rest) (ground arith)

abbrev ends_at : ℕ → Run (ℕ × ℕ)
ends_at m = done (0, m)

dns_scan-end : (fuel : ℕ) (rest : Bytes) (n : ℕ) → dns_scan (suc fuel) (0 ∷ rest) n ≡ done (0, n)
unfolding dns_scan
dns_scan-end fuel rest n = refl

dns_scan-wire :
    (fuel : ℕ) (init : List Bytes) (last rest : Bytes) (n : ℕ)
    → AreLabels init
    → 0 < length last
    → n + wire_len init < 255
    → length init + 2 ≤ fuel
    → dns_scan fuel (wire (init ++ last ∷ []) (0 ∷ rest)) n
      ≡ done (0, n + wire_len (init ++ last ∷ []))
dns_scan-wire zero init last rest n hi hl lt f = absurd (omega arith)
dns_scan-wire (suc zero) init last rest n hi hl lt f = absurd (omega arith)
dns_scan-wire (suc (suc fuel)) [] last rest n hi hl lt f =
    rw (dns_scan-label (suc fuel) last (0 ∷ rest) n hl (omega arith), dns_scan-end)
      (ap ends_at (omega arith))
dns_scan-wire (suc (suc fuel)) (l ∷ init) last rest n hi hl lt f =
    rw
      (
        dns_scan-label (suc fuel) l (wire (init ++ last ∷ []) (0 ∷ rest)) n hi.0 (omega arith),
        dns_scan-wire (suc fuel) init last rest (n + (length l + 1)) hi.1 hl (omega arith)
            (omega arith),
      )
      (ap ends_at (omega arith))

-- one label of the second loop
dns_copy-label :
    (fuel : ℕ) (l rest written : Bytes)
    → 0 < length l
    → dns_copy (suc fuel) (length l ∷ (l ++ rest)) written ≡ (
        if leb (length (add_dot written ++ l)) domain_max_len
        then dns_copy fuel rest (add_dot written ++ l)
        else fault)
unfolding dns_copy
dns_copy-label fuel l rest written h =
    rw (drop-append l rest, take-append l rest) (ground (arith, length-append l rest))

length-add_dot : (w l : Bytes) → 0 < length w → length (add_dot w ++ l) ≡ length w + 1 + length l
length-add_dot [] l h = absurd (omega arith)
length-add_dot (c ∷ w) l h =
    omega (arith, length-append (w ++ b'.' ∷ []) l, length-append w (b'.' ∷ []))

add_dot-tail :
    (w l : Bytes) (labels : List Bytes)
    → 0 < length w
    → (add_dot w ++ l) ++ dot_tail labels ≡ w ++ dot_tail (l ∷ labels)
add_dot-tail [] l labels h = absurd (omega arith)
add_dot-tail (c ∷ w) l labels h = simp append_assoc

dns_copy-wire :
    (fuel : ℕ) (labels : List Bytes) (rest w : Bytes)
    → AreLabels labels
    → 0 < length w
    → length labels < fuel
    → dns_copy fuel (wire labels (0 ∷ rest)) w
      ≡ (if leb (length w + wire_len labels) 259 then done (w ++ dot_tail labels) else fault)
dns_copy-wire zero labels rest w h hw f = absurd (omega arith)
dns_copy-wire (suc fuel) [] rest w h hw f = unfold dns_copy in rw append-nil (ground arith)
dns_copy-wire (suc fuel) (l ∷ labels) rest w h hw f =
    rw
      (
        dns_copy-label fuel l (wire labels (0 ∷ rest)) w h.0,
        dns_copy-wire fuel labels rest (add_dot w ++ l) h.1 (omega (arith, length-add_dot w l hw))
            (omega arith),
        add_dot-tail w l labels hw,
        length-add_dot w l hw,
      )
      (ground arith)

-- The second loop on a name of at least one label: the dotted text, or a write outside `domain`.
dns_copy-name :
    (fuel : ℕ) (labels : List Bytes) (rest : Bytes)
    → AreLabels labels
    → 0 < length labels
    → length labels < fuel
    → dns_copy fuel (wire labels (0 ∷ rest)) []
      ≡ (if leb (wire_len labels) domain_max_len then done (dotted labels) else fault)
dns_copy-name fuel [] rest h k f = absurd (omega arith)
dns_copy-name zero labels rest h k f = absurd (omega arith)
dns_copy-name (suc fuel) (l ∷ labels) rest h k f =
    rw
      (
        dns_copy-label fuel l (wire labels (0 ∷ rest)) [] h.0,
        dns_copy-wire fuel labels rest l h.1 h.0 (omega arith),
      )
      (ground arith)

-- A name on the wire whose last label starts before byte 255 is stored with dots if it takes at
-- most 260 bytes there, and is otherwise written past the end of `domain`.
pub dns_name-wire :
    (init : List Bytes) (last rest old : Bytes)
    → AreLabels init
    → 0 < length last
    → wire_len init < 255
    → dns_name (wire (init ++ last ∷ []) (0 ∷ rest)) old ≡ (
        if leb (wire_len (init ++ last ∷ [])) domain_max_len
        then done (store_domain old (dotted (init ++ last ∷ [])))
        else fault)
unfolding dns_name
dns_name-wire init last rest old hi hl lt =
    let few = length-le-wire_len init hi in
    let all = AreLabels-append init (last ∷ []) hi (hl, tt) in
    let size : length (init ++ last ∷ []) ≡ length init + 1 = length-append init (last ∷ []) in
    rw
      (
        dns_scan-wire 256 init last rest 0 hi hl (omega arith) (omega arith),
        dns_copy-name 256 (init ++ last ∷ []) rest all (omega arith) (omega arith),
      )
      (ground (arith, wire_len-append init (last ∷ [])))
