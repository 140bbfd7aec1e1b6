-- ===== src/Filter/Categories.antt =====
-- The category tests of filtr_packets.c: what their double loops decide.
use grpc_server.Base.{
  ℕ, zero, suc, ◌<◌, ◌≡◌, ◌↔◌, refl, ◌⊎◌, inl, inr, true, false, ◌&&◌, none, some, List, [], ◌∷◌,
  Bytes, c_str, strcmp_eq, strcmp_eq_iff, ℤ, ltb_ℤ, ◌<ℤ◌, length, get_elem?, take, take_all, arith,
  Bool-cases, sym, leb, if◌then◌else◌,
}
use grpc_server.Filter.{
  RequestedClassification, TrustCategoriesWithLvl, max_categories, category_is_locked,
  categories_pass, check_categories, lvl_row_locks, lvl_rows_pass, check_categories_with_lvl,
}

-- Some row of the second list holds the string `g`.
abbrev pub HasRow : Bytes → List Bytes → Type 0
HasRow g rows = (j : ℕ) × (row : Bytes) × (get_elem? rows j ≡ some row) × (c_str g ≡ c_str row)

-- A row of each list holds the same string.
abbrev pub CommonRow : List Bytes → List Bytes → Type 0
CommonRow gets rows = (i : ℕ) × (g : Bytes) × (get_elem? gets i ≡ some g) × HasRow g rows

HasRow-locked : (g : Bytes) (rows : List Bytes) → category_is_locked g rows ≡ true → HasRow g rows
unfolding category_is_locked
HasRow-locked g [] e = cc
HasRow-locked g (r ∷ rows) e = elim (Bool-cases (strcmp_eq g r)) [
  | inl same ↦ (0, r, refl, (strcmp_eq_iff g r).0 same)
  | inr other ↦ let (j, row, at_j, h) = HasRow-locked g rows (ground arith) in (suc j, row, at_j, h)
]

locked_of_HasRow :
    (g : Bytes) (rows : List Bytes) → HasRow g rows → category_is_locked g rows ≡ true
unfolding category_is_locked
locked_of_HasRow g [] (j, row, at_j, h) = cc
locked_of_HasRow g (r ∷ rows) (zero, row, at_j, h) = ground (arith, strcmp_eq_iff g r)
locked_of_HasRow g (r ∷ rows) (suc j, row, at_j, h) =
    ground (arith, locked_of_HasRow g rows (j, row, at_j, h))

CommonRow-fail : (gets rows : List Bytes) → categories_pass gets rows ≡ false → CommonRow gets rows
unfolding categories_pass
CommonRow-fail [] rows e = cc
CommonRow-fail (g ∷ gets) rows e = elim (Bool-cases (category_is_locked g rows)) [
  | inl locked ↦ (0, g, refl, HasRow-locked g rows locked)
  | inr free ↦
      let (i, g', at_i, h) = CommonRow-fail gets rows (ground arith) in (suc i, g', at_i, h)
]

fail_of_CommonRow :
    (gets rows : List Bytes) → CommonRow gets rows → categories_pass gets rows ≡ false
unfolding categories_pass
fail_of_CommonRow [] rows (i, g, at_i, h) = cc
fail_of_CommonRow (g' ∷ gets) rows (zero, g, at_i, h) = ground (arith, locked_of_HasRow g rows h)
fail_of_CommonRow (g' ∷ gets) rows (suc i, g, at_i, h) =
    ground (arith, fail_of_CommonRow gets rows (i, g, at_i, h))

-- For arrays of the declared size, the category test fails exactly when a row of the
-- classification and a row of the locked categories hold the same string, empty rows included.
pub check_categories_iff :
    (gets locked : List Bytes)
    → length gets ≡ max_categories
    → length locked ≡ max_categories
    → (check_categories gets locked ≡ false) ↔ CommonRow gets locked
unfolding check_categories
check_categories_iff gets locked hg hl =
    rw (take_all gets max_categories (omega arith), take_all locked max_categories (omega arith))
      (CommonRow-fail gets locked, fail_of_CommonRow gets locked)

-- Some category of the classification is the string of `row`, and the trust level is below the
-- level of `row`.
abbrev pub RowLocks : RequestedClassification → TrustCategoriesWithLvl → Type 0
RowLocks req row =
    HasRow row.locked_by_trust_category req.get_categories × (req.get_trust_level <ℤ row.trust_lvl)

-- One of the first `n` rows locks the classification.
abbrev pub LvlLocks : ℕ → RequestedClassification → List TrustCategoriesWithLvl → Type 0
LvlLocks n req rows =
    (i : ℕ) × (row : TrustCategoriesWithLvl) × (i < n)
    × (get_elem? rows i ≡ some row)
    × RowLocks req row

RowLocks_of_true :
    (lvl : ℤ) (row : TrustCategoriesWithLvl) (cats : List Bytes)
    → lvl_row_locks lvl row cats ≡ true
    → HasRow row.locked_by_trust_category cats × (lvl <ℤ row.trust_lvl)
unfolding lvl_row_locks
RowLocks_of_true lvl row [] e = cc
RowLocks_of_true lvl row (c ∷ cats) e =
    elim (Bool-cases (strcmp_eq c row.locked_by_trust_category && ltb_ℤ lvl row.trust_lvl)) [
      | inl hit ↦ (
        (0, c, refl, sym ((strcmp_eq_iff c row.locked_by_trust_category).0 (ground arith))),
        ground arith,
      )
      | inr miss ↦
          let (found, below) = RowLocks_of_true lvl row cats (ground arith) in
          let (j, c', at_j, h) = found in ((suc j, c', at_j, h), below)
    ]

true_of_RowLocks :
    (lvl : ℤ) (row : TrustCategoriesWithLvl) (cats : List Bytes)
    → HasRow row.locked_by_trust_category cats
    → lvl <ℤ row.trust_lvl
    → lvl_row_locks lvl row cats ≡ true
unfolding lvl_row_locks
true_of_RowLocks lvl row [] (j, c', at_j, h) below = cc
true_of_RowLocks lvl row (c ∷ cats) (zero, c', at_j, h) below =
    ground (arith, strcmp_eq_iff c row.locked_by_trust_category)
true_of_RowLocks lvl row (c ∷ cats) (suc j, c', at_j, h) below =
    ground (arith, true_of_RowLocks lvl row cats (j, c', at_j, h) below)

leb-suc : (n m : ℕ) → leb (suc n) (suc m) ≡ leb n m
leb-suc n m = ground arith

-- what the outer loop returns, after `n` rounds over `rows`
abbrev PassCases : ℕ → RequestedClassification → List TrustCategoriesWithLvl → Type 0
PassCases n req rows =
    ((lvl_rows_pass n req rows ≡ some false) × LvlLocks n req rows)
    ⊎ ((lvl_rows_pass n req rows ≡ (if leb n (length rows) then some true else none))
        × (¬ LvlLocks n req rows))

module _ (req : RequestedClassification) (sized : length req.get_categories ≡ max_categories) where
  lvl_row_locks_iff :
      (row : TrustCategoriesWithLvl)
      → (lvl_row_locks req.get_trust_level row (take max_categories req.get_categories) ≡ true)
        ↔ RowLocks req row
  lvl_row_locks_iff row = rw (take_all req.get_categories max_categories (omega arith)) (
    RowLocks_of_true req.get_trust_level row req.get_categories,
    λ (found, below). true_of_RowLocks req.get_trust_level row req.get_categories found below,
  )

  not-LvlLocks-cons :
      (n : ℕ) (row : TrustCategoriesWithLvl) (rows : List TrustCategoriesWithLvl)
      → ¬ RowLocks req row
      → ¬ LvlLocks n req rows
      → ¬ LvlLocks (suc n) req (row ∷ rows)
  not-LvlLocks-cons n row rows free rest (zero, r, lt, at_i, h) =
      ground (arith, free (ground arith))
  not-LvlLocks-cons n row rows free rest (suc i, r, lt, at_i, h) = rest (i, r, omega arith, at_i, h)

  PassCases-cons :
      (n : ℕ) (row : TrustCategoriesWithLvl) (rows : List TrustCategoriesWithLvl)
      → PassCases n req rows
      → PassCases (suc n) req (row ∷ rows)
  unfolding lvl_rows_pass
  PassCases-cons n row rows ih =
      let locks = lvl_row_locks req.get_trust_level row (take max_categories req.get_categories) in
      elim (Bool-cases locks) [
        | inl hit ↦ inl (rw hit refl, (0, row, omega arith, refl, (lvl_row_locks_iff row).0 hit))
        | inr free ↦ elim ih [
          | inl (e, (i, r, lt, at_i, h)) ↦ inl (rw free e, (suc i, r, omega arith, at_i, h))
          | inr (e, unlocked) ↦ inr (
            rw (free, leb-suc) e,
            not-LvlLocks-cons n row rows (λ h. cc (free, (lvl_row_locks_iff row).1 h)) unlocked,
          )
        ]
      ]

  PassCases-all : (n : ℕ) (rows : List TrustCategoriesWithLvl) → PassCases n req rows
  unfolding lvl_rows_pass
  PassCases-all zero rows = inr (ground arith, λ (i, r, lt, at_i, h). absurd (omega arith))
  PassCases-all (suc n) [] = inr (ground arith, λ (i, r, lt, at_i, h). cc)
  PassCases-all (suc n) (row ∷ rows) = PassCases-cons n row rows (PassCases-all n rows)

  -- Over a table of any length, the level test returns `false` exactly when one of the first 100
  -- rows locks the classification. Otherwise it passes if the table has 100 rows, and reads
  -- outside the table if it has fewer.
  pub check_categories_with_lvl_cases :
      (rows : List TrustCategoriesWithLvl)
      → ((check_categories_with_lvl req rows ≡ some false) × LvlLocks max_categories req rows)
        ⊎ ((check_categories_with_lvl req rows
              ≡ (if leb max_categories (length rows) then some true else none))
            × (¬ LvlLocks max_categories req rows))
  unfolding check_categories_with_lvl
  check_categories_with_lvl_cases rows = PassCases-all max_categories rows
