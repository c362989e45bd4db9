-- ===== src/Schema/Subject/Binding.antt =====
-- The canonical text of a subject of packages/schema/aro_schema/review_debt.py, written as the text of
-- an object whose pairs are in the order of their keys.
pub mod Content
use mathlib.Core.Option.{some_inj}
use text.Mathlib.TextLemmas.{append_cancel_left}
use agent_runtime_observator.Prelude.{
  ℕ, zero, suc, ◌≡◌, refl, sym, ap, ◌∙◌, inl, inr, true, String, Option, none, some, List, [], ◌∷◌,
  map, str_eq, if◌then◌else◌,
}
use agent_runtime_observator.Text.{◌⁀◌}
use agent_runtime_observator.Platform.{Platform}
use agent_runtime_observator.Json.{
  Value, int, pos, null, str, arr, Items, nil, item, canonical_json, digest_obj,
}
use agent_runtime_observator.Json.Injective.{
  Cell, blank, words, number, row, Cells, no_cells, cell, value_of, items_of,
}
use agent_runtime_observator.Json.Keyed.{
  Pairs, object_text, object_text-values, object_text_inj, values_text,
}
use agent_runtime_observator.Schema.Models.{Decision, allow, deny, needs_review, decision_value}
use agent_runtime_observator.Schema.Models.Run.{ReviewerSeat, PolicyDecision, StepRecord, AgentRun}
use agent_runtime_observator.Schema.Subject.{
  subject_v2, seat_row, step_row, decision_row, items, opt_str, run_subject_digest, subject_matches,
}
use agent_runtime_observator.Schema.Subject.Laws.{ReadsVersion, subject_matches_iff, digest_v2}

-- What a review can see of a seat, of a step and of a decision.
abbrev pub seat_view : ReviewerSeat → String × String × String × String
seat_view s = (s.id, s.name, s.role, s.scope)

abbrev pub step_view : StepRecord → ℕ × String × Option String × Option String
step_view s = (s.index, s.input_digest, s.output_digest, s.error)

abbrev pub decision_view : PolicyDecision → String × ℕ × String × String × Decision × String
decision_view d = (d.id, d.step_index, d.policy_id, d.rule_id, d.decision, d.reason)

-- Two runs with the same reviewed content.
abbrev pub SameContent : AgentRun → AgentRun → Type 0
SameContent run other =
    (run.id ≡ other.id)
    × (run.task_id ≡ other.task_id)
    × (run.agent ≡ other.agent)
    × (run.model ≡ other.model)
    × (map seat_view run.reviewer_seats ≡ map seat_view other.reviewer_seats)
    × (map step_view run.steps ≡ map step_view other.steps)
    × (map decision_view run.policy_decisions ≡ map decision_view other.policy_decisions)

cells : List Cell → Cells
cells [] = no_cells
cells (c ∷ cs) = cell c (cells cs)

opt_cell : Option String → Cell
opt_cell none = blank
opt_cell (some s) = words s

seat_cell : ReviewerSeat → Cell
unfolding cells
seat_cell s = row (cells (words s.id ∷ words s.name ∷ words s.role ∷ words s.scope ∷ []))

step_cell : StepRecord → Cell
unfolding cells opt_cell
step_cell s = row (
    cells
      (number s.index ∷ words s.input_digest ∷ opt_cell s.output_digest ∷ opt_cell s.error ∷ []))

decision_cell : PolicyDecision → Cell
unfolding cells decision_value
decision_cell d = row (
    cells (
      words d.id
      ∷ number d.step_index
      ∷ words d.policy_id
      ∷ words d.rule_id
      ∷ words (decision_value d.decision)
      ∷ words d.reason
      ∷ []))

-- The subject's fields in the order of their keys.
subject_pairs : AgentRun → Pairs
unfolding cells opt_cell seat_cell step_cell decision_cell
subject_pairs run =
    ("agent", words run.agent)
    ∷ ("model", opt_cell run.model)
    ∷ ("policy_decisions", row (cells (map decision_cell run.policy_decisions)))
    ∷ ("reviewer_seats", row (cells (map seat_cell run.reviewer_seats)))
    ∷ ("run_id", words run.id)
    ∷ ("steps", row (cells (map step_cell run.steps)))
    ∷ ("task_id", words run.task_id)
    ∷ ("v", number 2)
    ∷ []

opt_cell-value : (o : Option String) → value_of (opt_cell o) ≡ opt_str o
unfolding opt_cell value_of
opt_cell-value none = refl
opt_cell-value (some s) = refl

cells-items {ℓ} :
    {A : Type ℓ} (f : A → Cell) (g : A → Value) (xs : List A)
    → ((x : A) → value_of (f x) ≡ g x)
    → items_of (cells (map f xs)) ≡ items (map g xs)
unfolding cells value_of
cells-items f g [] h = refl
cells-items f g (x ∷ xs) h =
    ap (λ v. item v (items_of (cells (map f xs)))) (h x) ∙ ap (item (g x)) (cells-items f g xs h)

step_cell-value : (s : StepRecord) → value_of (step_cell s) ≡ step_row s
unfolding step_cell step_row value_of
step_cell-value s = rw (opt_cell-value s.output_digest, opt_cell-value s.error) refl

-- The text of a subject, over the values of the fields that are no texts.
over : AgentRun → Value → Value → Value → Value → String
over run model decisions seats steps = values_text (
    ("agent", str run.agent)
    ∷ ("model", model)
    ∷ ("policy_decisions", decisions)
    ∷ ("reviewer_seats", seats)
    ∷ ("run_id", str run.id)
    ∷ ("steps", steps)
    ∷ ("task_id", str run.task_id)
    ∷ ("v", int (pos 2))
    ∷ [])

subject-over :
    (run : AgentRun)
    → canonical_json (subject_v2 run)
      ≡ over run
          (opt_str run.model)
          (arr (items (map decision_row run.policy_decisions)))
          (arr (items (map seat_row run.reviewer_seats)))
          (arr (items (map step_row run.steps)))
unfolding subject_v2 canonical_json values_text over
subject-over run = refl

pairs-over :
    (run : AgentRun)
    → object_text (subject_pairs run)
      ≡ over run
          (value_of (opt_cell run.model))
          (arr (items_of (cells (map decision_cell run.policy_decisions))))
          (arr (items_of (cells (map seat_cell run.reviewer_seats))))
          (arr (items_of (cells (map step_cell run.steps))))
unfolding subject_pairs over value_of
pairs-over run = object_text-values (subject_pairs run)

-- The canonical text of the subject is the text of its fields in order.
subject_text : (run : AgentRun) → canonical_json (subject_v2 run) ≡ object_text (subject_pairs run)
unfolding value_of decision_cell decision_row seat_cell seat_row
subject_text run =
    let model = opt_cell-value run.model in
    let decisions =
      ap arr (cells-items decision_cell decision_row run.policy_decisions (λ d. refl)) in
    let seats = ap arr (cells-items seat_cell seat_row run.reviewer_seats (λ s. refl)) in
    let steps = ap arr (cells-items step_cell step_row run.steps step_cell-value) in
    subject-over run ∙ (rw (← model, ← decisions, ← seats, ← steps) (sym (pairs-over run)))
