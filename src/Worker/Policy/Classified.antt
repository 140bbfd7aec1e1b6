-- ===== src/Worker/Policy/Classified.antt =====
-- The classification that the packet loop gets, and its requests for a policy.
use grpc_server.Base.{
  ℕ, zero, suc, ◌≤◌, ◌≡◌, ◌∙◌, refl, ap, false, none, some, List, [], ◌∷◌, ◌++◌, Bytes, c_str,
  length, get_elem?, take, drop, inl, inr, Option, Option-cases, arith,
}
use grpc_server.DomainCache.{strncpy}
use grpc_server.Filter.{RequestedClassification, BasePolicy, max_categories, check_categories}
use grpc_server.Filter.Rows.{IsSized}
use grpc_server.Filter.Categories.{check_categories_iff}
use grpc_server.Worker.Policy.{ClassifyResponse, copy_categories, classify}

-- the row that a category leaves over an old one
abbrev pub category_row : Bytes → Bytes → Bytes
category_row category old = strncpy 63 (c_str category) ++ drop 63 old

-- Row `i` of the outcome: the category over the old row, or the old row.
unfoldable pub row_of : List Bytes → List Bytes → ℕ → Option Bytes
row_of old categories i = elim (get_elem? old i) [
  | none ↦ none
  | some row ↦ elim (get_elem? categories i) [
    | none ↦ some row
    | some category ↦ some (category_row category row)
  ]
]

get_elem?-copy :
    (old categories : List Bytes) (i : ℕ)
    → get_elem? (copy_categories old categories) i ≡ row_of old categories i
unfolding copy_categories row_of
get_elem?-copy [] [] i = refl
get_elem?-copy [] (c ∷ cs) i = refl
get_elem?-copy (r ∷ rows) [] zero = refl
get_elem?-copy (r ∷ rows) [] (suc i) = elim (Option-cases (get_elem? rows i)) [
  | inl e ↦ rw (row_of, e) refl
  | inr (row, e) ↦ rw (row_of, e) refl
]
get_elem?-copy (r ∷ rows) (c ∷ cs) zero = refl
get_elem?-copy (r ∷ rows) (c ∷ cs) (suc i) = get_elem?-copy rows cs i

length-copy : (old categories : List Bytes) → length (copy_categories old categories) ≡ length old
unfolding copy_categories
length-copy [] [] = refl
length-copy [] (c ∷ cs) = refl
length-copy (r ∷ rows) [] = refl
length-copy (r ∷ rows) (c ∷ cs) = ap suc (length-copy rows cs)

get_elem?_beyond : {A : Type 0} (xs : List A) (i : ℕ) → length xs ≤ i → get_elem? xs i ≡ none
get_elem?_beyond [] i h = refl
get_elem?_beyond (x ∷ xs) zero h = absurd (omega arith)
get_elem?_beyond (x ∷ xs) (suc i) h = get_elem?_beyond xs i (omega arith)

take_short : {A : Type 0} (n : ℕ) (xs : List A) → length (take n xs) ≤ length xs
take_short zero xs = omega arith
take_short (suc n) [] = omega arith
take_short (suc n) (x ∷ xs) = omega (arith, take_short n xs)

module _ (resp : ClassifyResponse) (out_req : RequestedClassification) (p : BasePolicy)
    (sized : IsSized p) (old_sized : length out_req.get_categories ≡ max_categories) where
  -- A successful classification keeps, behind the categories of the answer, the rows that the caller's
  -- variable held. If one of these holds the text of a locked category, the category test fails,
  -- whatever the answer is.
  pub classify_keeps_rows :
      (i : ℕ) (row locked : Bytes) (j : ℕ)
      → length resp.categories ≤ i
      → get_elem? out_req.get_categories i ≡ some row
      → get_elem? p.locked_categories j ≡ some locked
      → c_str row ≡ c_str locked
      → (req : RequestedClassification) × (classify (some resp) out_req ≡ some req)
        × (get_elem? req.get_categories i ≡ some row)
        × (req.get_trust_level ≡ resp.trust_level)
        × (check_categories req.get_categories p.locked_categories ≡ false)
  unfolding classify row_of
  classify_keeps_rows i row locked j behind at_i at_j same =
      let gets = copy_categories out_req.get_categories (take max_categories resp.categories) in
      let short : length (take max_categories resp.categories) ≤ i =
        omega (arith, take_short max_categories resp.categories) in
      let kept : get_elem? gets i ≡ some row =
        get_elem?-copy out_req.get_categories (take max_categories resp.categories) i
        ∙ rw (row_of, at_i, get_elem?_beyond (take max_categories resp.categories) i short) refl in
      (
        record { get_categories = gets; get_trust_level = resp.trust_level },
        refl,
        kept,
        refl,
        (check_categories_iff gets p.locked_categories
              (length-copy out_req.get_categories (take max_categories resp.categories) ∙ old_sized)
              sized.locked_categories).1
            (i, row, kept, (j, locked, at_j, same)),
      )
