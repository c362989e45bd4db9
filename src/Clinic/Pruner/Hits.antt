-- ===== src/Clinic/Pruner/Hits.antt =====
-- The indices that `prune_single_trajectory` of packages/clinic/src/wutai_clinic/engine/pruner.py prunes
-- by signatures: each lies in its window, and each pruned signature stands before in the window.
use mathlib.Core.Option.{some_inj}
use agent_runtime_observator.Prelude.{
  ℕ, zero, suc, ◌+◌, ◌≤◌, ◌<◌, ◌≡◌, refl, sym, ap, ◌∙◌, ◌⊎◌, inl, inr, Bool, true, false, ◌&&◌,
  String, some, List, [], ◌∷◌, ◌++◌, contains, get_elem?, take, length, leb, ltb, arith, str_eq,
  eq_iff, Bool-cases, All, All-map, All-append,
}
use agent_runtime_observator.Clinic.Pruner.Segments.{
  bootstrap_min_samples, seen_hits, scan, has_index,
}

-- A text of the list stands at a place whose index, counted from `i`, is not pruned.
abbrev pub Shows : List ℕ → ℕ → List String → String → Type 0
Shows pruned i xs s = (j : ℕ) × (get_elem? xs j ≡ some s) × (has_index pruned (i + j) ≡ false)

-- All indices of a list are within these bounds.
abbrev pub Between : ℕ → ℕ → List ℕ → Type 0
Between low high = All (λ j. (low ≤ j) × (j < high))

pub has_index-out :
    (low high i : ℕ) (indices : List ℕ)
    → Between low high indices
    → (i < low) ⊎ (high ≤ i)
    → has_index indices i ≡ false
unfolding has_index
has_index-out low high i [] h out = refl
has_index-out low high i (j ∷ indices) ((a, b), h) out =
    let rest = has_index-out low high i indices h out in
    elim out [
      | inl less ↦ ground (arith, a, b, less, rest)
      | inr more ↦ ground (arith, a, b, more, rest)
    ]

pub has_index-append :
    (xs ys : List ℕ) (i : ℕ)
    → has_index xs i ≡ false
    → has_index ys i ≡ false
    → has_index (xs ++ ys) i ≡ false
unfolding has_index
has_index-append [] ys i a b = b
has_index-append (x ∷ xs) ys i a b =
    ground (arith, a, has_index-append xs ys i (ground (arith, a)) b)

Between-widen :
    (low high low' high' : ℕ) (indices : List ℕ)
    → low ≤ low'
    → high' ≤ high
    → Between low' high' indices
    → Between low high indices
Between-widen low high low' high' indices h k =
    All-map (λ j. (low' ≤ j) × (j < high')) (λ j. (low ≤ j) × (j < high)) indices
      (λ j b. (omega (arith, b.0, h), omega (arith, b.1, k)))

Between-append :
    (low high : ℕ) (xs ys : List ℕ)
    → Between low high xs
    → Between low high ys
    → Between low high (xs ++ ys)
Between-append low high = All-append (λ j. (low ≤ j) × (j < high))

pub seen_hits-Between :
    (i : ℕ) (seen window : List String) → Between i (i + length window) (seen_hits i seen window)
unfolding seen_hits
seen_hits-Between i seen [] = tt
seen_hits-Between i seen (s ∷ window) =
    let wider : (seen : List String)
        → Between i (i + suc (length window)) (seen_hits (suc i) seen window) =
      λ seen.
        Between-widen i (i + suc (length window)) (suc i) (suc i + length window)
          (seen_hits (suc i) seen window) (omega arith) (omega arith)
          (seen_hits-Between (suc i) seen window) in
    elim (Bool-cases (contains seen s)) [
      | inl e ↦ rw e ((omega arith, omega arith), wider seen)
      | inr e ↦ rw e (wider (s ∷ seen))
    ]

pub shift : (i j : ℕ) → i + suc j ≡ suc i + j
shift i j = omega arith

-- One more index that lies before does not matter.
further :
    (i j : ℕ) (indices : List ℕ)
    → has_index indices (suc i + j) ≡ false
    → has_index (i ∷ indices) (i + suc j) ≡ false
unfolding has_index
further i j indices free =
    let moved : has_index indices (i + suc j) ≡ false = ap (has_index indices) (shift i j) ∙ free in
    ground (arith, moved)

-- A text of a window was seen before it, or stands in it where it is not pruned.
pub seen_hits-Shows :
    (i : ℕ) (seen window : List String) (k : ℕ) (s : String)
    → get_elem? window k ≡ some s
    → (contains seen s ≡ true) ⊎ Shows (seen_hits i seen window) i window s
unfolding seen_hits has_index
seen_hits-Shows i seen [] k s h = cc
seen_hits-Shows i seen (t ∷ window) zero s h = elim (Bool-cases (contains seen t)) [
  | inl e ↦ inl (ap (contains seen) (sym (some_inj.0 h)) ∙ e)
  | inr e ↦ inr (
    0,
    h,
    rw e (
        has_index-out (suc i) (suc i + length window) (i + 0) (seen_hits (suc i) (t ∷ seen) window)
          (seen_hits-Between (suc i) (t ∷ seen) window) (inl (omega arith))),
  )
]
seen_hits-Shows i seen (t ∷ window) (suc k) s h = elim (Bool-cases (contains seen t)) [
  | inl e ↦ elim (seen_hits-Shows (suc i) seen window k s h) [
    | inl before ↦ inl before
    | inr (j, at, free) ↦ inr (suc j, at, rw e (further i j (seen_hits (suc i) seen window) free))
  ]
  | inr e ↦ elim (seen_hits-Shows (suc i) (t ∷ seen) window k s h) [
    | inl before ↦ elim (Bool-cases (str_eq t s)) [
      | inl same ↦ inr (
        0,
        ap some ((eq_iff t s).0 same),
        rw e (
            has_index-out (suc i) (suc i + length window) (i + 0)
              (seen_hits (suc i) (t ∷ seen) window) (seen_hits-Between (suc i) (t ∷ seen) window)
              (inl (omega arith))),
      )
      | inr other ↦ inl (ground (arith, before, other))
    ]
    | inr (j, at, free) ↦
        inr (
          suc j,
          at,
          rw e (ap (has_index (seen_hits (suc i) (t ∷ seen) window)) (shift i j) ∙ free),
        )
  ]
]

pub get_elem?-take :
    (n : ℕ) (xs : List String) (j : ℕ) (s : String)
    → get_elem? (take n xs) j ≡ some s
    → (get_elem? xs j ≡ some s) × (j < n)
get_elem?-take zero xs j s h = cc
get_elem?-take (suc n) [] j s h = cc
get_elem?-take (suc n) (x ∷ xs) zero s h = (h, omega arith)
get_elem?-take (suc n) (x ∷ xs) (suc j) s h =
    let rest = get_elem?-take n xs j s h in (rest.0, omega (arith, rest.1))

pub take-get_elem? :
    (n : ℕ) (xs : List String) (j : ℕ) (s : String)
    → get_elem? xs j ≡ some s
    → j < n
    → get_elem? (take n xs) j ≡ some s
take-get_elem? zero xs j s h less = absurd (omega (arith, less))
take-get_elem? (suc n) [] j s h less = cc
take-get_elem? (suc n) (x ∷ xs) zero s h less = h
take-get_elem? (suc n) (x ∷ xs) (suc j) s h less = take-get_elem? n xs j s h (omega (arith, less))

pub length-take_le :
    (n : ℕ) (xs : List String) → (length (take n xs) ≤ n) × (length (take n xs) ≤ length xs)
length-take_le zero xs = (omega arith, omega arith)
length-take_le (suc n) [] = (omega arith, omega arith)
length-take_le (suc n) (x ∷ xs) =
    let rest = length-take_le n xs in (omega (arith, rest.0), omega (arith, rest.1))

module _ (dense : List String → Bool) where
  abbrev pub scan_seen : ℕ → ℕ → List String → List ℕ
  scan_seen = scan String dense (λ i w. seen_hits i [] w)

  scan-Between :
      (skip i : ℕ) (xs : List String) → Between (i + skip) (i + length xs) (scan_seen skip i xs)
  unfolding scan
  scan-Between skip i [] = tt
  scan-Between (suc skip) i (x ∷ xs) =
      Between-widen (i + suc skip) (i + suc (length xs)) (suc i + skip) (suc i + length xs)
        (scan_seen skip (suc i) xs) (omega arith) (omega arith) (scan-Between skip (suc i) xs)
  scan-Between zero i (x ∷ xs) =
      let window = take bootstrap_min_samples (x ∷ xs) in
      let wide = length-take_le bootstrap_min_samples (x ∷ xs) in
      elim (Bool-cases (leb bootstrap_min_samples (length (x ∷ xs)) && dense window)) [
        | inl e ↦
            rw (e, scan)
              (Between-append (i + 0) (i + suc (length xs)) (seen_hits i [] window)
                (scan_seen 4 (suc i) xs)
                (Between-widen (i + 0) (i + suc (length xs)) i (i + length window)
                  (seen_hits i [] window) (omega arith) (omega (arith, wide.1))
                  (seen_hits-Between i [] window))
                (Between-widen (i + 0) (i + suc (length xs)) (suc i + 4) (suc i + length xs)
                  (scan_seen 4 (suc i) xs) (omega arith) (omega arith) (scan-Between 4 (suc i) xs)))
        | inr e ↦
            rw (e, scan)
              (Between-widen (i + 0) (i + suc (length xs)) (suc i + 0) (suc i + length xs)
                (scan_seen 0 (suc i) xs) (omega arith) (omega arith) (scan-Between 0 (suc i) xs))
      ]

  -- Where a text stands behind the first turn of the scan, it stands in the scan.
  abbrev Finds : ℕ → ℕ → List String → String → Type 0
  Finds skip i xs s =
      (j : ℕ) × (get_elem? xs j ≡ some s)
      × (skip ≤ j)
      × (has_index (scan_seen skip i xs) (i + j) ≡ false)

  -- A dense window: what is pruned in it shows there before, and what is behind it is scanned on.
  dense-Shows :
      (i : ℕ) (xs : List String) (k : ℕ) (s : String) (more : List ℕ)
      → get_elem? xs k ≡ some s
      → k < bootstrap_min_samples
      → ((j : ℕ) → j < bootstrap_min_samples → has_index more (i + j) ≡ false)
      → Shows (seen_hits i [] (take bootstrap_min_samples xs) ++ more) i xs s
  dense-Shows i xs k s more h less free =
      let window = take bootstrap_min_samples xs in
      elim (seen_hits-Shows i [] window k s (take-get_elem? bootstrap_min_samples xs k s h less)) [
        | inl before ↦ cc before
        | inr (j, at, kept) ↦
            let (here, short) = get_elem?-take bootstrap_min_samples xs j s at in
            (j, here, has_index-append (seen_hits i [] window) more (i + j) kept (free j short))
      ]

  -- Behind a dense window its hits do not matter.
  behind-Shows :
      (i : ℕ) (x : String) (xs : List String) (s : String)
      → Finds 4 (suc i) xs s
      → Shows
          (seen_hits i [] (take bootstrap_min_samples (x ∷ xs)) ++ scan_seen 4 (suc i) xs)
          i
          (x ∷ xs)
          s
  behind-Shows i x xs s (j, at, behind, free) =
      let window = take bootstrap_min_samples (x ∷ xs) in
      let short = length-take_le bootstrap_min_samples (x ∷ xs) in
      (
        suc j,
        at,
        has_index-append (seen_hits i [] window) (scan_seen 4 (suc i) xs) (i + suc j)
            (has_index-out i (i + length window) (i + suc j) (seen_hits i [] window)
              (seen_hits-Between i [] window) (inr (omega (arith, behind, short.0))))
            (ap (has_index (scan_seen 4 (suc i) xs)) (shift i j) ∙ free),
      )

  -- A text behind the turns to skip stands somewhere behind them where it is not pruned.
  pub scan-Shows :
      (skip i : ℕ) (xs : List String) (k : ℕ) (s : String)
      → get_elem? xs k ≡ some s
      → skip ≤ k
      → (j : ℕ) × (get_elem? xs j ≡ some s)
        × (skip ≤ j)
        × (has_index (scan_seen skip i xs) (i + j) ≡ false)
  unfolding scan
  scan-Shows skip i [] k s h less = cc
  scan-Shows (suc skip) i (x ∷ xs) zero s h less = absurd (omega (arith, less))
  scan-Shows (suc skip) i (x ∷ xs) (suc k) s h less =
      let (j, at, behind, free) = scan-Shows skip (suc i) xs k s h (omega (arith, less)) in
      (
        suc j,
        at,
        omega (arith, behind),
        ap (has_index (scan_seen skip (suc i) xs)) (shift i j) ∙ free,
      )
  scan-Shows zero i (x ∷ xs) zero s h less =
      let first_turn : (skip : ℕ) (j : ℕ)
          → j < suc skip
          → has_index (scan_seen skip (suc i) xs) (i + j) ≡ false =
        λ skip j short.
          has_index-out (suc i + skip) (suc i + length xs) (i + j) (scan_seen skip (suc i) xs)
            (scan-Between skip (suc i) xs) (inl (omega (arith, short))) in
      elim (Bool-cases (
        leb bootstrap_min_samples (length (x ∷ xs))
        && dense (take bootstrap_min_samples (x ∷ xs)))) [
          | inl e ↦
              let (j, at, free) =
                dense-Shows i (x ∷ xs) 0 s (scan_seen 4 (suc i) xs) h (omega arith)
                  (first_turn 4) in
              (j, at, omega arith, rw (e, scan) free)
          | inr e ↦ (0, h, omega arith, rw (e, scan) (first_turn 0 0 (omega arith)))
        ]
  scan-Shows zero i (x ∷ xs) (suc k) s h less =
      let next = scan-Shows 0 (suc i) xs k s h (omega arith) in
      elim (Bool-cases (
        leb bootstrap_min_samples (length (x ∷ xs))
        && dense (take bootstrap_min_samples (x ∷ xs)))) [
          | inl e ↦ elim (Bool-cases (ltb k 4)) [
            | inl near ↦
                let (j, at, free) =
                  dense-Shows i (x ∷ xs) (suc k) s (scan_seen 4 (suc i) xs) h (ground (arith, near))
                    (λ j short.
                      has_index-out (suc i + 4) (suc i + length xs) (i + j) (scan_seen 4 (suc i) xs)
                        (scan-Between 4 (suc i) xs) (inl (omega (arith, short)))) in
                (j, at, omega arith, rw (e, scan) free)
            | inr far ↦
                let (j, at, free) =
                  behind-Shows i x xs s (scan-Shows 4 (suc i) xs k s h (ground (arith, far))) in
                (j, at, omega arith, rw (e, scan) free)
          ]
          | inr e ↦
              let (j, at, behind, free) = next in
              (
                suc j,
                at,
                omega arith,
                rw (e, scan) (ap (has_index (scan_seen 0 (suc i) xs)) (shift i j) ∙ free),
              )
        ]
