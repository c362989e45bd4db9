-- ===== src/Clinic/Pruner/Kept.antt =====
-- Proofs about `prune_single_trajectory` of packages/clinic/src/wutai_clinic/engine/pruner.py without the
-- semantic kernel: the pruned turns are turns of the trajectory, and they show every state it showed.
use mathlib.Core.Path.{subst}
use mathlib.Core.Option.{some_inj}
use mathlib.Core.List.{Memᴰ}
use mathlib.Core.List.Memᴰ as Mem
use agent_runtime_observator.Prelude.{
  ℕ, zero, suc, ◌+◌, ◌≡◌, refl, sym, ap, ◌∙◌, ◌⊎◌, inl, inr, false, ◌&&◌, String, none, some, List,
  [], ◌∷◌, ◌++◌, map, get_elem?, length, leb, arith, str_eq, Bool-cases,
}
use agent_runtime_observator.Json.{Value, str, Fields}
use agent_runtime_observator.Json.Lookup.{field_get?, put_field, field_get?-put}
use agent_runtime_observator.Clinic.Pruner.{
  Python, value_at, content_at, tool_call_of, signature_of, stringify_content, calculate_window_str,
  signature_text, get_pruner_state_signature,
}
use agent_runtime_observator.Clinic.Pruner.Segments.{
  bootstrap_min_samples, mark_last, detect_cognitive_restart, segments_from, pruned_indices,
  has_index, keep_from, prune_segment, prune_segments, prune_single_trajectory,
}
use agent_runtime_observator.Clinic.Pruner.Hits.{scan-Shows}

module _ {ℓ} {A : Type ℓ} where
  mem_left : {x : A} (xs ys : List A) → Memᴰ x xs → Memᴰ x (xs ++ ys)
  mem_left [] ys m = elim m [ ]
  mem_left (y ∷ xs) ys m = elim (Mem.cases_cons m) [
    | inl e ↦ Memᴰ.head e
    | inr t ↦ Memᴰ.tail (mem_left xs ys t)
  ]

  mem_right : {x : A} (xs ys : List A) → Memᴰ x ys → Memᴰ x (xs ++ ys)
  mem_right [] ys m = m
  mem_right (y ∷ xs) ys m = Memᴰ.tail (mem_right xs ys m)

  get_elem?-map :
      (f : A → String) (xs : List A) (j : ℕ) (s : String)
      → get_elem? (map f xs) j ≡ some s
      → (x : A) × (get_elem? xs j ≡ some x) × (f x ≡ s)
  get_elem?-map f [] j s h = cc
  get_elem?-map f (x ∷ xs) zero s h = (x, refl, some_inj.0 h)
  get_elem?-map f (x ∷ xs) (suc j) s h = get_elem?-map f xs j s h

  mem-get_elem? :
      (f : A → String) {x : A} (xs : List A)
      → Memᴰ x xs
      → (k : ℕ) × (get_elem? (map f xs) k ≡ some (f x))
  mem-get_elem? f [] m = elim m [ ]
  mem-get_elem? f (y ∷ xs) m = elim (Mem.cases_cons m) [
    | inl e ↦ (0, ap (λ z. some (f z)) (sym e))
    | inr t ↦ let (k, at) = mem-get_elem? f xs t in (suc k, at)
  ]

-- A turn whose index is not pruned is kept.
keep_from-Mem :
    (i : ℕ) (pruned : List ℕ) (turns : List Fields) (j : ℕ) (turn : Fields)
    → get_elem? turns j ≡ some turn
    → has_index pruned (i + j) ≡ false
    → Memᴰ turn (keep_from i pruned turns)
unfolding keep_from
keep_from-Mem i pruned [] j turn h free = cc
keep_from-Mem i pruned (t ∷ turns) zero turn h free =
    let here : has_index pruned i ≡ false = ap (has_index pruned) (omega arith) ∙ free in
    rw here (Memᴰ.head (sym (some_inj.0 h)))
keep_from-Mem i pruned (t ∷ turns) (suc j) turn h free =
    let rest =
      keep_from-Mem (suc i) pruned turns j turn h (ap (has_index pruned) (omega arith) ∙ free) in
    elim (Bool-cases (has_index pruned i)) [ inl e ↦ rw e rest | inr e ↦ rw e (Memᴰ.tail rest) ]

-- The mark is no part of what a signature reads.
mark-other :
    (k : String) (v : Value) (turn : Fields)
    → str_eq "aha_signal" k ≡ false
    → field_get? k (put_field "aha_signal" v turn) ≡ field_get? k turn
mark-other k = field_get?-put k "aha_signal"

value_at-mark :
    (k : String) (v : Value) (turn : Fields)
    → str_eq "aha_signal" k ≡ false
    → value_at k (put_field "aha_signal" v turn) ≡ value_at k turn
unfolding value_at
value_at-mark k v turn h = rw (mark-other k v turn h, value_at) refl

tool_call_of-mark :
    (v : Value) (turn : Fields) → tool_call_of (put_field "aha_signal" v turn) ≡ tool_call_of turn
unfolding tool_call_of
tool_call_of-mark v turn = rw (mark-other "tool_call" v turn refl, tool_call_of) refl

module _ (py : Python) where
  abbrev pub signature : Fields → String
  signature = get_pruner_state_signature py

  signature_text-same :
      (a b : Fields)
      → value_at "role" a ≡ value_at "role" b
      → value_at "content" a ≡ value_at "content" b
      → tool_call_of a ≡ tool_call_of b
      → signature_text py a ≡ signature_text py b
  unfolding signature_text content_at
  signature_text-same a b role content tool =
      ap (λ r. signature_of py r (content_at py "content" a) (tool_call_of a)) role
      ∙ ap (λ c. signature_of py (value_at "role" b) (stringify_content py none c) (tool_call_of a))
          content
      ∙ ap (signature_of py (value_at "role" b) (content_at py "content" b)) tool

  signature-mark :
      (v : Value) (turn : Fields) → signature (put_field "aha_signal" v turn) ≡ signature turn
  unfolding get_pruner_state_signature
  signature-mark v turn = ap py.md5 (
      signature_text-same (put_field "aha_signal" v turn) turn (value_at-mark "role" v turn refl)
        (value_at-mark "content" v turn refl) (tool_call_of-mark v turn))

  -- A turn with this signature is among the turns.
  abbrev pub Shown : List Fields → String → Type 0
  Shown turns s = (turn : Fields) × Memᴰ turn turns × (signature turn ≡ s)

  -- A segment that is pruned by signatures still shows every signature it showed.
  prune_segment-Shown :
      (segment : List Fields) (s : String)
      → Shown segment s
      → Shown (prune_segment py false segment) s
  unfolding prune_segment pruned_indices
  prune_segment-Shown segment s (turn, m, is) =
      elim (Bool-cases (leb (length segment) bootstrap_min_samples)) [
        | inl e ↦ rw (e, prune_segment) (turn, m, is)
        | inr e ↦
            let (k, at) = mem-get_elem? signature segment m in
            let (j, there, behind, free) =
              scan-Shows (λ w. py.at_least (calculate_window_str py w) py.max_confidence) 0 0
                (map signature segment) k (signature turn) at (omega arith) in
            let (kept, here, same) = get_elem?-map signature segment j (signature turn) there in
            rw (e, prune_segment) (kept, keep_from-Mem 0 _ segment j kept here free, same ∙ is)
      ]

  -- Some segment shows the signature.
  abbrev InSegments : List (List Fields) → String → Type 0
  InSegments segments s = (segment : List Fields) × Memᴰ segment segments × Shown segment s

  prune_segments-Shown :
      (segments : List (List Fields)) (s : String)
      → InSegments segments s
      → Shown (prune_segments py false segments) s
  unfolding prune_segments
  prune_segments-Shown [] s (segment, m, shown) = elim m [ ]
  prune_segments-Shown (first ∷ segments) s (segment, m, shown) =
      let front = prune_segment py false first in
      let behind = prune_segments py false segments in
      elim (Mem.cases_cons m) [
        | inl e ↦
            let (turn, t, is) = prune_segment-Shown first s (subst (λ g. Shown g s) e shown) in
            (turn, mem_left front behind t, is)
        | inr later ↦
            let (turn, t, is) = prune_segments-Shown segments s (segment, later, shown) in
            (turn, mem_right front behind t, is)
      ]

  mark_last-Shown : (turns : List Fields) (s : String) → Shown turns s → Shown (mark_last turns) s
  unfolding mark_last
  mark_last-Shown [] s (turn, m, is) = elim m [ ]
  mark_last-Shown (t ∷ []) s (turn, m, is) = elim (Mem.cases_cons m) [
    | inl e ↦ (_, Memᴰ.head refl, signature-mark (str "pre_restart") t ∙ ap signature (sym e) ∙ is)
    | inr later ↦ elim later [ ]
  ]
  mark_last-Shown (t ∷ u ∷ turns) s (turn, m, is) = elim (Mem.cases_cons m) [
    | inl e ↦ (t, Memᴰ.head refl, ap signature (sym e) ∙ is)
    | inr later ↦
        let (x, n, same) = mark_last-Shown (u ∷ turns) s (turn, later, is) in (x, Memᴰ.tail n, same)
  ]

  -- Where the signature may show between two steps of the loop.
  abbrev Pending : List (List Fields) → List Fields → List Fields → String → Type 0
  Pending segments current turns s = (InSegments segments s ⊎ Shown current s) ⊎ Shown turns s

  restart-Shown :
      (segments : List (List Fields)) (current turns : List Fields) (u : Fields) (s : String)
      → Pending segments current (u ∷ turns) s
      → Pending
          (segments ++ mark_last current ∷ [])
          (put_field "aha_signal" (str "cognitive_restart") u ∷ [])
          turns
          s
  restart-Shown segments current turns u s (inl (inl (segment, m, shown))) =
      inl (inl (segment, mem_left segments (mark_last current ∷ []) m, shown))
  restart-Shown segments current turns u s (inl (inr shown)) = inl (
      inl (
        mark_last current,
        mem_right segments (mark_last current ∷ []) (Memᴰ.head refl),
        mark_last-Shown current s shown,
      ))
  restart-Shown segments current turns u s (inr (turn, m, is)) = elim (Mem.cases_cons m) [
    | inl e ↦ inl (
        inr (
          _,
          Memᴰ.head refl,
          signature-mark (str "cognitive_restart") u ∙ ap signature (sym e) ∙ is,
        ))
    | inr later ↦ inr (turn, later, is)
  ]

  append-Shown :
      (segments : List (List Fields)) (current turns : List Fields) (u : Fields) (s : String)
      → Pending segments current (u ∷ turns) s
      → Pending segments (current ++ u ∷ []) turns s
  append-Shown segments current turns u s (inl (inl found)) = inl (inl found)
  append-Shown segments current turns u s (inl (inr (turn, m, is))) =
      inl (inr (turn, mem_left current (u ∷ []) m, is))
  append-Shown segments current turns u s (inr (turn, m, is)) = elim (Mem.cases_cons m) [
    | inl e ↦ inl (inr (turn, mem_right current (u ∷ []) (Memᴰ.head e), is))
    | inr later ↦ inr (turn, later, is)
  ]

  -- What the segments so far, the current one or the turns to come show, the segments show.
  segments_from-InSegments :
      (segments : List (List Fields)) (current turns : List Fields) (s : String)
      → Pending segments current turns s
      → InSegments (segments_from py segments current turns) s
  unfolding segments_from
  segments_from-InSegments segments [] [] s (inl (inl found)) = found
  segments_from-InSegments segments [] [] s (inl (inr (turn, m, is))) = elim m [ ]
  segments_from-InSegments segments [] [] s (inr (turn, m, is)) = elim m [ ]
  segments_from-InSegments segments (t ∷ current) [] s (inl (inl (segment, m, shown))) =
      (segment, mem_left segments ((t ∷ current) ∷ []) m, shown)
  segments_from-InSegments segments (t ∷ current) [] s (inl (inr shown)) =
      (t ∷ current, mem_right segments ((t ∷ current) ∷ []) (Memᴰ.head refl), shown)
  segments_from-InSegments segments (t ∷ current) [] s (inr (turn, m, is)) = elim m [ ]
  segments_from-InSegments segments [] (u ∷ turns) s h =
      elim (Bool-cases
        (detect_cognitive_restart py u && leb bootstrap_min_samples (length {A = Fields} []))) [
          | inl e ↦
              rw (e, segments_from)
                (segments_from-InSegments (segments ++ mark_last [] ∷ [])
                  (put_field "aha_signal" (str "cognitive_restart") u ∷ []) turns s
                  (restart-Shown segments [] turns u s h))
          | inr e ↦
              rw (e, segments_from)
                (segments_from-InSegments segments ([] ++ u ∷ []) turns s
                  (append-Shown segments [] turns u s h))
        ]
  segments_from-InSegments segments (t ∷ current) (u ∷ turns) s h =
      elim (Bool-cases
        (detect_cognitive_restart py u && leb bootstrap_min_samples (length (t ∷ current)))) [
          | inl e ↦
              rw (e, segments_from)
                (segments_from-InSegments (segments ++ mark_last (t ∷ current) ∷ [])
                  (put_field "aha_signal" (str "cognitive_restart") u ∷ []) turns s
                  (restart-Shown segments (t ∷ current) turns u s h))
          | inr e ↦
              rw (e, segments_from)
                (segments_from-InSegments segments ((t ∷ current) ++ u ∷ []) turns s
                  (append-Shown segments (t ∷ current) turns u s h))
        ]

  -- Pruned by signatures, a trajectory still has, for each of its turns, a turn with that signature.
  pub prune_single_trajectory-Shown :
      (turns : List Fields) (turn : Fields)
      → Memᴰ turn turns
      → Shown (prune_single_trajectory py false turns) (signature turn)
  unfolding prune_single_trajectory
  prune_single_trajectory-Shown turns turn m =
      elim (Bool-cases (leb (length turns) bootstrap_min_samples)) [
        | inl e ↦ rw (e, prune_single_trajectory) (turn, m, refl)
        | inr e ↦
            rw (e, prune_single_trajectory)
              (prune_segments-Shown (segments_from py [] [] turns) (signature turn)
                (segments_from-InSegments [] [] turns (signature turn) (inr (turn, m, refl))))
      ]
