-- ===== src/Ports/Search.antt =====
-- The search for a port by the name of its device.
use grpc_server.Base.{
  ℕ, zero, suc, ◌+◌, ◌≤◌, ◌<◌, ◌≡◌, ◌≢◌, refl, ◌⊎◌, inl, inr, true, false, Option, none, some,
  Bytes, ℤ, pos, negsuc, Bool-cases, ◌==◌, ==_iff, arith,
}
use grpc_server.Ports.{EthDev, is_nonzero, has_name, find_port_from, find_port_by_dev_name}

module _ (eth : EthDev) (dev_name : Bytes) where
  -- No port from `first` to below `last` ends the search.
  abbrev pub Passed : ℕ → ℕ → Type 0
  Passed first last =
      (j : ℕ) → first ≤ j → j < last → (eth.info_get j ≡ pos 0) × (has_name eth dev_name j ≡ false)

  -- The first port that ends the search has the name or gives an error, or there is none.
  abbrev pub FindOk : ℕ → ℕ → ℤ × Option ℕ → Type 0
  FindOk first last r =
      ((id : ℕ) × (id < last)
        × Passed first id
        × (eth.info_get id ≡ pos 0)
        × (has_name eth dev_name id ≡ true)
        × (r ≡ (pos 0, some id)))
      ⊎ ((id : ℕ) × (id < last)
          × Passed first id
          × (eth.info_get id ≢ pos 0)
          × (r ≡ (eth.info_get id, none)))
      ⊎ (Passed first last × (r ≡ (negsuc 0, none)))

  nonzero_ne : (ret : ℤ) → is_nonzero ret ≡ true → ret ≢ pos 0
  nonzero_ne ret h e = ground arith

  zero_of_test : (ret : ℤ) → is_nonzero ret ≡ false → ret ≡ pos 0
  zero_of_test (pos zero) h = refl
  zero_of_test (pos (suc n)) h = absurd (ground arith)
  zero_of_test (negsuc n) h = absurd (ground arith)

  Passed-empty : (first : ℕ) → Passed first first
  Passed-empty first j le lt = absurd (omega arith)

  Passed-cons :
      (first last : ℕ)
      → eth.info_get first ≡ pos 0
      → has_name eth dev_name first ≡ false
      → Passed (first + 1) last
      → Passed first last
  Passed-cons first last ok other rest j le lt = elim (Bool-cases (first == j)) [
    | inl e ↦ rw (← ((==_iff first j).0 e)) (ok, other)
    | inr ne ↦ rest j (ground arith) lt
  ]

  FindOk-cons :
      (first last : ℕ) (r : ℤ × Option ℕ)
      → eth.info_get first ≡ pos 0
      → has_name eth dev_name first ≡ false
      → FindOk (first + 1) last r
      → FindOk first last r
  FindOk-cons first last r ok other (inl (id, lt, passed, info, named, e)) =
      inl (id, lt, Passed-cons first id ok other passed, info, named, e)
  FindOk-cons first last r ok other (inr (inl (id, lt, passed, failed, e))) =
      inr (inl (id, lt, Passed-cons first id ok other passed, failed, e))
  FindOk-cons first last r ok other (inr (inr (passed, e))) =
      inr (inr (Passed-cons first last ok other passed, e))

  find_port_from-FindOk :
      (left first last : ℕ)
      → first + left ≡ last
      → FindOk first last (find_port_from eth left first dev_name)
  unfolding find_port_from
  find_port_from-FindOk zero first last e = inr (inr (λ j le lt. absurd (omega arith), refl))
  find_port_from-FindOk (suc left) first last e =
      elim (Bool-cases (is_nonzero (eth.info_get first))) [
        | inl bad ↦
            rw bad (inr (inl (first, omega arith, Passed-empty first, nonzero_ne _ bad, refl)))
        | inr good ↦ elim (Bool-cases (has_name eth dev_name first)) [
          | inl hit ↦
              rw (good, hit)
                (inl (first, omega arith, Passed-empty first, zero_of_test _ good, hit, refl))
          | inr miss ↦
              rw (good, miss)
                (FindOk-cons first last _ (zero_of_test _ good) miss
                  (find_port_from-FindOk left (first + 1) last (omega arith)))
        ]
      ]

  -- The search over the available ports returns 0 and the first port with the name of the device,
  -- if every port up to it gives its information; the error of the first port that does not; or -1,
  -- if every port does and none has the name.
  pub find_port_by_dev_name-FindOk : FindOk 0 eth.count_avail (find_port_by_dev_name eth dev_name)
  unfolding find_port_by_dev_name
  find_port_by_dev_name-FindOk =
      find_port_from-FindOk eth.count_avail 0 eth.count_avail (omega arith)
