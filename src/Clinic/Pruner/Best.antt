-- ===== src/Clinic/Pruner/Best.antt =====
-- Proofs about `deduplicate` of packages/clinic/src/wutai_clinic/engine/pruner.py: one trajectory of every
-- group stays, and none of its group is better.
use mathlib.Core.Path.{subst}
use mathlib.Core.List.{Memᴰ}
use mathlib.Core.Option.{some_inj}
use agent_runtime_observator.Prelude.{
  ◌≡◌, refl, sym, ap, ◌∙◌, inl, inr, true, false, ◌||◌, String, none, some, List, [], ◌∷◌, map, All,
  All-map, All_intro, contains, all_distinct, arith, str_eq, eq_iff, Bool-cases, Option-cases,
  dict_get?, dict_put, get-put_same, get-put_other,
}
use agent_runtime_observator.Clinic.Pruner.{Python}
use agent_runtime_observator.Clinic.Pruner.Policy.{best_of, deduplicate}

-- The order of the scores, which are no NaN.
pub record IsOrder (py : Python) : Type 0 where
  pub reflexive : (a : py.Float) → py.at_least a a ≡ true
  pub transitive :
      (a b c : py.Float) → py.at_least a b ≡ true → py.at_least b c ≡ true → py.at_least a c ≡ true
  pub total : (a b : py.Float) → py.at_least a b ≡ false → py.at_least b a ≡ true

module _ {T : Type 0} where
  abbrev keys_of : List (String × T) → List String
  keys_of = map (λ p. p.0)

  contains-put :
      (k i : String) (x : T) (d : List (String × T))
      → contains (keys_of (dict_put k x d)) i ≡ (contains (keys_of d) i || str_eq k i)
  contains-put k i x [] = ground arith
  contains-put k i x ((j, y) ∷ d) = ground (arith, eq_iff j k, contains-put k i x d)

  put-distinct :
      (k : String) (x : T) (d : List (String × T))
      → all_distinct (keys_of d) ≡ true
      → all_distinct (keys_of (dict_put k x d)) ≡ true
  put-distinct k x [] h = refl
  put-distinct k x ((j, y) ∷ d) h = elim (Bool-cases (str_eq j k)) [
    | inl e ↦ rw e h
    | inr e ↦ rw e (
        ground (
          arith,
          h,
          e,
          eq_iff k j,
          eq_iff j k,
          contains-put k j x d,
          put-distinct k x d (ground (arith, h)),
        ))
  ]

  get-Mem :
      (k : String) (x : T) (d : List (String × T))
      → dict_get? k d ≡ some x
      → Memᴰ x (map (λ p. p.1) d)
  get-Mem k x [] h = cc
  get-Mem k x ((j, y) ∷ d) h = elim (Bool-cases (str_eq j k)) [
    | inl e ↦ Memᴰ.head (sym (some_inj.0 (rw e at h)))
    | inr e ↦ Memᴰ.tail (get-Mem k x d (rw e at h))
  ]

module _ (py : Python) (order : IsOrder py) (T : Type 0) (key : T → String)
    (score : T → py.Float) where
  -- The group of a trajectory has an entry that is at least as good.
  abbrev Covers : List (String × T) → T → Type 0
  Covers best t =
      (r : T) × (dict_get? (key t) best ≡ some r) × (py.at_least (score r) (score t) ≡ true)

  put-Covers :
      (best : List (String × T)) (x t : T)
      → ((r : T) → dict_get? (key x) best ≡ some r → py.at_least (score x) (score r) ≡ true)
      → Covers best t
      → Covers (dict_put (key x) x best) t
  put-Covers best x t better (r, at, good) = elim (Bool-cases (str_eq (key x) (key t))) [
    | inl e ↦
        let same = (eq_iff (key x) (key t)).0 e in
        (
          x,
          ap (λ k. dict_get? k (dict_put (key x) x best)) (sym same) ∙ get-put_same (key x) x best,
          order.transitive (score x) (score r) (score t)
              (better r (ap (λ k. dict_get? k best) same ∙ at)) good,
        )
    | inr e ↦ (r, get-put_other (key x) (key t) x best e ∙ at, good)
  ]

  -- The entries stand under their own keys and come from the input.
  abbrev IsFiled : List T → List (String × T) → Type 0
  IsFiled input = All (λ p. (key p.1 ≡ p.0) × Memᴰ p.1 input)

  put-IsFiled :
      (input : List T) (x : T) (best : List (String × T))
      → Memᴰ x input
      → IsFiled input best
      → IsFiled input (dict_put (key x) x best)
  put-IsFiled input x [] m h = ((refl, m), tt)
  put-IsFiled input x ((j, y) ∷ best) m (here, h) = elim (Bool-cases (str_eq j (key x))) [
    | inl e ↦ rw e ((sym ((eq_iff j (key x)).0 e), m), h)
    | inr e ↦ rw e (here, put-IsFiled input x best m h)
  ]

  -- A dict that is in order, and covers what the dict before it covered.
  abbrev IsBetter : List T → List (String × T) → List (String × T) → Type 0
  IsBetter input best next =
      (all_distinct (keys_of next) ≡ true)
      × IsFiled input next
      × ((t : T) → Covers best t → Covers next t)

  put-IsBetter :
      (input : List T) (x : T) (best : List (String × T))
      → Memᴰ x input
      → all_distinct (keys_of best) ≡ true
      → IsFiled input best
      → ((r : T) → dict_get? (key x) best ≡ some r → py.at_least (score x) (score r) ≡ true)
      → IsBetter input best (dict_put (key x) x best) × Covers (dict_put (key x) x best) x
  put-IsBetter input x best m apart filed better = (
    (
      put-distinct (key x) x best apart,
      put-IsFiled input x best m filed,
      λ t. put-Covers best x t better,
    ),
    (x, get-put_same (key x) x best, order.reflexive (score x)),
  )

  best_of-new :
      (best : List (String × T)) (x : T) (ts : List T)
      → dict_get? (key x) best ≡ none
      → best_of py T key score best (x ∷ ts) ≡ best_of py T key score (dict_put (key x) x best) ts
  unfolding best_of
  best_of-new best x ts e = rw (e, best_of) refl

  best_of-better :
      (best : List (String × T)) (x old : T) (ts : List T)
      → dict_get? (key x) best ≡ some old
      → py.at_least (score x) (score old) ≡ true
      → best_of py T key score best (x ∷ ts) ≡ best_of py T key score (dict_put (key x) x best) ts
  unfolding best_of
  best_of-better best x old ts e more = rw (e, more, best_of) refl

  best_of-worse :
      (best : List (String × T)) (x old : T) (ts : List T)
      → dict_get? (key x) best ≡ some old
      → py.at_least (score x) (score old) ≡ false
      → best_of py T key score best (x ∷ ts) ≡ best_of py T key score best ts
  unfolding best_of
  best_of-worse best x old ts e less = rw (e, less, best_of) refl

  best_of-IsBetter :
      (input : List T) (best : List (String × T)) (ts : List T)
      → all_distinct (keys_of best) ≡ true
      → IsFiled input best
      → All (λ t. Memᴰ t input) ts
      → IsBetter input best (best_of py T key score best ts)
        × All (Covers (best_of py T key score best ts)) ts
  unfolding best_of
  best_of-IsBetter input best [] apart filed members = ((apart, filed, λ t c. c), tt)
  best_of-IsBetter input best (x ∷ ts) apart filed (m, members) =
      let put = dict_put (key x) x best in
      let goal : List (String × T) → Type 0 =
        λ b. IsBetter input best b × All (Covers b) (x ∷ ts) in
      let onward : (next : List (String × T))
          → IsBetter input best next
          → Covers next x
          → IsBetter input best (best_of py T key score next ts)
            × All (Covers (best_of py T key score next ts)) (x ∷ ts) =
        λ next (next_apart, next_filed, kept) own.
          let ((last_apart, last_filed, on), rest) =
            best_of-IsBetter input next ts next_apart next_filed members in
          ((last_apart, last_filed, λ t c. on t (kept t c)), (on x own, rest)) in
      elim (Option-cases (dict_get? (key x) best)) [
        | inl e ↦
            let (better, own) = put-IsBetter input x best m apart filed (λ r at. cc (sym e ∙ at)) in
            subst goal (sym (best_of-new best x ts e)) (onward put better own)
        | inr (old, e) ↦ elim (Bool-cases (py.at_least (score x) (score old))) [
          | inl more ↦
              let (better, own) = put-IsBetter input x best m apart filed (λ r at.
                ap (λ y. py.at_least (score x) (score y)) (some_inj.0 (sym at ∙ e)) ∙ more) in
              subst goal (sym (best_of-better best x old ts e more)) (onward put better own)
          | inr less ↦ subst goal (sym (best_of-worse best x old ts e less)) (
              onward best (apart, filed, λ t c. c) (old, e, order.total (score x) (score old) less))
        ]
      ]

  -- One trajectory of each group, each of them given, and none given is better than that of its group.
  abbrev pub IsBest : List T → List T → Type 0
  IsBest input result =
      (all_distinct (map key result) ≡ true)
      × All (λ r. Memᴰ r input) result
      × All
          (λ t.
            (r : T) × Memᴰ r result × (key r ≡ key t) × (py.at_least (score r) (score t) ≡ true))
          input

  filed-keys :
      (input : List T) (best : List (String × T))
      → IsFiled input best
      → (map key (map (λ p. p.1) best) ≡ keys_of best)
        × All (λ r. Memᴰ r input) (map (λ p. p.1) best)
  filed-keys input [] h = (refl, tt)
  filed-keys input ((k, r) ∷ best) ((here, m), h) =
      let rest = filed-keys input best h in
      (
        ap (λ i. i ∷ map key (map (λ (p : String × T). p.1) best)) here ∙ ap (λ ks. k ∷ ks) rest.0,
        (m, rest.1),
      )

  filed-key :
      (input : List T) (best : List (String × T)) (k : String) (r : T)
      → IsFiled input best
      → dict_get? k best ≡ some r
      → key r ≡ k
  filed-key input [] k r h at = cc
  filed-key input ((j, y) ∷ best) k r ((here, m), h) at = elim (Bool-cases (str_eq j k)) [
    | inl e ↦ ap key (sym (some_inj.0 (rw e at at))) ∙ here ∙ (eq_iff j k).0 e
    | inr e ↦ filed-key input best k r h (rw e at at)
  ]

  -- Where the scores are in order, the trajectories that stay are one of each group, and none of the
  -- trajectories given is better than the one of its group.
  pub deduplicate-IsBest :
      (trajectories : List T) → IsBest trajectories (deduplicate py T key score trajectories)
  unfolding deduplicate
  deduplicate-IsBest input =
      let best = best_of py T key score [] input in
      let ((apart, filed, kept), covers) =
        best_of-IsBetter input [] input refl tt (All_intro (λ t. Memᴰ t input) input (λ t m. m)) in
      let (keys, members) = filed-keys input best filed in
      (
        ap all_distinct keys ∙ apart,
        members,
        All-map (Covers best)
            (λ t.
              (r : T) × Memᴰ r (map (λ p. p.1) best)
              × (key r ≡ key t)
              × (py.at_least (score r) (score t) ≡ true))
            input
            (λ t (r, at, good).
              (r, get-Mem (key t) r best at, filed-key input best (key t) r filed at, good))
            covers,
      )
