-- ===== src/Schema/Subject/Binding/Content.antt =====
-- What a digest of packages/schema/aro_schema/review_debt.py binds: where SHA-256 does not collide on
-- the two subjects, one digest is fresh only for runs with the same reviewed content.
use mathlib.Core.Option.{some_inj}
use text.Mathlib.TextLemmas.{append_cancel_left}
use agent_runtime_observator.Prelude.{
  ℕ, zero, suc, ◌≡◌, refl, sym, ap, ◌∙◌, true, String, Option, none, some, List, [], ◌∷◌, map,
  str_eq, if◌then◌else◌,
}
use agent_runtime_observator.Platform.{Platform}
use agent_runtime_observator.Json.{canonical_json, digest_obj}
use agent_runtime_observator.Json.Injective.{Cell, blank, words, number, row, Cells, no_cells, cell}
use agent_runtime_observator.Json.Keyed.{object_text_inj}
use agent_runtime_observator.Schema.Models.{Decision, allow, deny, needs_review, decision_value}
use agent_runtime_observator.Schema.Models.Run.{ReviewerSeat, PolicyDecision, StepRecord, AgentRun}
use agent_runtime_observator.Schema.Subject.{subject_v2, subject_matches}
use agent_runtime_observator.Schema.Subject.Laws.{ReadsVersion, subject_matches_iff, digest_v2}
use agent_runtime_observator.Schema.Subject.Binding.{
  seat_view, step_view, decision_view, SameContent, cells, opt_cell, seat_cell, step_cell,
  decision_cell, subject_pairs, subject_text,
}

-- Reading the cells back.
words_of : Cell → String
words_of (words s) = s
words_of _ = ""

opt_of : Cell → Option String
opt_of (words s) = some s
opt_of _ = none

number_of : Cell → ℕ
number_of (number n) = n
number_of _ = 0

list_of : Cells → List Cell
list_of no_cells = []
list_of (cell c cs) = c ∷ list_of cs

row_of : Cell → List Cell
unfolding list_of
row_of (row cs) = list_of cs
row_of _ = []

nth : ℕ → List Cell → Cell
nth i [] = blank
nth zero (c ∷ cs) = c
nth (suc i) (c ∷ cs) = nth i cs

seat_of : Cell → String × String × String × String
unfolding row_of words_of nth
seat_of c =
    let r = row_of c in
    (words_of (nth 0 r), words_of (nth 1 r), words_of (nth 2 r), words_of (nth 3 r))

step_of : Cell → ℕ × String × Option String × Option String
unfolding row_of words_of number_of opt_of nth
step_of c =
    let r = row_of c in
    (number_of (nth 0 r), words_of (nth 1 r), opt_of (nth 2 r), opt_of (nth 3 r))

decision_of_value : String → Decision
decision_of_value s =
    if str_eq s "allow" then allow else if str_eq s "deny" then deny else needs_review

decision_of : Cell → String × ℕ × String × String × Decision × String
unfolding row_of words_of number_of nth decision_of_value
decision_of c =
    let r = row_of c in
    (
      words_of (nth 0 r),
      number_of (nth 1 r),
      words_of (nth 2 r),
      words_of (nth 3 r),
      decision_of_value (words_of (nth 4 r)),
      words_of (nth 5 r),
    )

opt_of-cell : (o : Option String) → opt_of (opt_cell o) ≡ o
unfolding opt_of opt_cell
opt_of-cell none = refl
opt_of-cell (some s) = refl

seat_of-cell : (s : ReviewerSeat) → seat_of (seat_cell s) ≡ seat_view s
unfolding seat_of seat_cell
seat_of-cell s = refl

step_of-cell : (s : StepRecord) → step_of (step_cell s) ≡ step_view s
unfolding step_of step_cell
step_of-cell s = rw (opt_of-cell s.output_digest, opt_of-cell s.error) refl

decision_of-value : (d : Decision) → decision_of_value (decision_value d) ≡ d
unfolding decision_of_value decision_value
decision_of-value allow = refl
decision_of-value deny = refl
decision_of-value needs_review = refl

decision_of-cell : (d : PolicyDecision) → decision_of (decision_cell d) ≡ decision_view d
unfolding decision_of decision_cell
decision_of-cell d = rw (decision_of-value d.decision) refl

list_of-cells {ℓ κ} :
    {A : Type ℓ} {B : Type κ} (f : A → Cell) (g : Cell → B) (v : A → B) (xs : List A)
    → ((x : A) → g (f x) ≡ v x)
    → map g (list_of (cells (map f xs))) ≡ map v xs
unfolding list_of cells
list_of-cells f g v [] h = refl
list_of-cells f g v (x ∷ xs) h =
    ap (λ y. y ∷ map g (list_of (cells (map f xs)))) (h x)
    ∙ ap (λ ys. v x ∷ ys) (list_of-cells f g v xs h)

-- Rows that are equal hold the same views.
rows_inj {ℓ κ} :
    {A : Type ℓ} {B : Type κ} (f : A → Cell) (g : Cell → B) (v : A → B) (xs ys : List A)
    → ((x : A) → g (f x) ≡ v x)
    → row (cells (map f xs)) ≡ row (cells (map f ys))
    → map v xs ≡ map v ys
unfolding row_of
rows_inj f g v xs ys h same =
    sym (list_of-cells f g v xs h) ∙ ap (λ c. map g (row_of c)) same ∙ list_of-cells f g v ys h

-- Runs with one canonical text have the same content.
subject_text_inj :
    (run other : AgentRun)
    → canonical_json (subject_v2 run) ≡ canonical_json (subject_v2 other)
    → SameContent run other
unfolding subject_pairs words_of nth
subject_text_inj run other h =
    let fields =
      object_text_inj (subject_pairs run) (subject_pairs other)
        (refl, (refl, (refl, (refl, (refl, (refl, (refl, (refl, tt))))))))
        (sym (subject_text run) ∙ h ∙ subject_text other) in
    let at : (i : ℕ)
        → nth i (map (λ p. p.1) (subject_pairs run))
          ≡ nth i (map (λ p. p.1) (subject_pairs other)) =
      λ i. ap (nth i) fields in
    (
      ap words_of (at 4),
      ap words_of (at 6),
      ap words_of (at 0),
      sym (opt_of-cell run.model) ∙ ap opt_of (at 1) ∙ opt_of-cell other.model,
      rows_inj seat_cell seat_of seat_view run.reviewer_seats other.reviewer_seats seat_of-cell
          (at 3),
      rows_inj step_cell step_of step_view run.steps other.steps step_of-cell (at 5),
      rows_inj decision_cell decision_of decision_view run.policy_decisions other.policy_decisions
          decision_of-cell (at 2),
    )

-- SHA-256 has no collision on two texts.
abbrev pub NoCollision : Platform → String → String → Type 0
NoCollision platform a b = platform.sha256_hex a ≡ platform.sha256_hex b → a ≡ b

-- One digest is fresh for two runs only if they have the same ids, agent, model, seats, steps and
-- decisions, where SHA-256 does not collide on their subjects.
pub subject_matches-SameContent :
    (platform : Platform) (run other : AgentRun) (digest : String)
    → ReadsVersion platform
    → NoCollision platform (canonical_json (subject_v2 run)) (canonical_json (subject_v2 other))
    → subject_matches platform run digest ≡ true
    → subject_matches platform other digest ≡ true
    → SameContent run other
unfolding digest_obj
subject_matches-SameContent platform run other digest reads apart fresh fresh' =
    let one = (subject_matches_iff platform reads run digest).0 fresh in
    let two = (subject_matches_iff platform reads other digest).0 fresh' in
    let same =
      some_inj.0 (sym (digest_v2 platform run) ∙ one ∙ sym two ∙ digest_v2 platform other) in
    subject_text_inj run other (apart (append_cancel_left "sha256:" _ _ (cc same)))
