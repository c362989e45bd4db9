-- ===== src/Clinic/Diagnoser/Gap.antt =====
-- What the lengths of packages/clinic/src/wutai_clinic/engine/diagnoser.py count.
use agent_runtime_observator.Prelude.{
  ℕ, suc, ◌-◌, ◌≤◌, ◌≡◌, refl, ap, ◌∙◌, Bool, true, false, not, ◌&&◌, ◌==◌, ltb, Option, none, some,
  List, [], ◌∷◌, map, length, arith, if◌then◌else◌,
}
use agent_runtime_observator.Clinic.Diagnoser.{
  CanonicalStep, is_edit, is_validation, gaps_from, validation_gap_lengths,
}

-- The steps up to each step, the latest first.
unfoldable pub histories : List CanonicalStep → List CanonicalStep → List (List CanonicalStep)
histories past [] = []
histories past (state ∷ states) = (state ∷ past) ∷ histories (state ∷ past) states

-- One step more, where there is a count.
unfoldable one_more : Option ℕ → Option ℕ
one_more none = none
one_more (some n) = some (suc n)

-- How many steps passed since the latest edit that no validation came after.
unfoldable unvalidated : List CanonicalStep → Option ℕ
unfolding is_edit is_validation one_more
unvalidated [] = none
unvalidated (state ∷ past) =
    let rest = unvalidated past in
    if is_validation state then none else if is_edit state then some 0 else one_more rest

unfoldable count : Option ℕ → ℕ
count none = 0
count (some n) = n

unfoldable pub gap : List CanonicalStep → ℕ
unfolding unvalidated count
gap past = count (unvalidated past)

-- The index from 1 of the latest step with a property, or 0.
unfoldable last_index : (CanonicalStep → Bool) → List CanonicalStep → ℕ
last_index P [] = 0
last_index P (state ∷ past) =
    let rest = last_index P past in if P state then suc (length past) else rest

last_index-le :
    (P : CanonicalStep → Bool) (past : List CanonicalStep) → last_index P past ≤ length past
unfolding last_index
last_index-le P [] = ground (arith)
last_index-le P (state ∷ past) = ground (arith, last_index-le P past)

unfoldable measured : ℕ → ℕ → ℕ → Option ℕ
measured index edit validation =
    if not (edit == 0) && ltb validation edit then some (index - edit) else none

measured-suc :
    (edits validates : Bool) (n e v : ℕ)
    → e ≤ n
    → v ≤ n
    → measured (suc n) (if edits then suc n else e) (if validates then suc n else v)
      ≡ (if validates then none else if edits then some 0 else one_more (measured n e v))
unfolding measured one_more
measured-suc true true n e v he hv = ground (arith)
measured-suc true false n e v he hv = ground (arith, hv)
measured-suc false true n e v he hv = ground (arith, he)
measured-suc false false n e v he hv = ground (arith, he)

measured-unvalidated :
    (past : List CanonicalStep)
    → measured (length past) (last_index is_edit past) (last_index is_validation past)
      ≡ unvalidated past
unfolding last_index unvalidated measured
measured-unvalidated [] = refl
measured-unvalidated (state ∷ past) =
    measured-suc (is_edit state) (is_validation state) (length past) (last_index is_edit past)
      (last_index is_validation past) (last_index-le is_edit past)
      (last_index-le is_validation past)
    ∙ ap
        (λ rest.
          if is_validation state then none else if is_edit state then some 0 else one_more rest)
        (measured-unvalidated past)

-- The count of the loop at an index.
count-measured :
    (index edit validation : ℕ)
    → (if not (edit == 0) && ltb validation edit then index - edit else 0)
      ≡ count (measured index edit validation)
unfolding measured count
count-measured index edit validation = ground (arith)

gaps_from-histories :
    (past states : List CanonicalStep)
    → gaps_from (suc (length past)) (last_index is_edit past) (last_index is_validation past) states
      ≡ map gap (histories past states)
unfolding gaps_from histories last_index gap
gaps_from-histories past [] = refl
gaps_from-histories past (state ∷ states) =
    let first =
      count-measured (suc (length past)) (last_index is_edit (state ∷ past))
        (last_index is_validation (state ∷ past))
      ∙ ap count (measured-unvalidated (state ∷ past)) in
    λ i. first i ∷ gaps_from-histories (state ∷ past) states i

-- The length at each step is the number of steps since the latest edit that no validation came after, and
-- 0 where there is no such edit.
pub validation_gap_lengths-gap :
    (states : List CanonicalStep) → validation_gap_lengths states ≡ map gap (histories [] states)
unfolding validation_gap_lengths last_index
validation_gap_lengths-gap states = gaps_from-histories [] states
