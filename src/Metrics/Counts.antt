-- ===== src/Metrics/Counts.antt =====
-- The gauges count what the items say.
use agent_runtime_observator.Prelude.{
  ℕ, ◌+◌, ◌≡◌, refl, Bool, true, false, ◌&&◌, String, Option, none, List, [], ◌∷◌, arith, eq_iff,
  str_eq, count_if, if◌then◌else◌,
}
use agent_runtime_observator.Schema.Models.Governance.{
  ReviewDebtItem, DebtStatus, open_debt, cleared,
}
use agent_runtime_observator.Metrics.{
  Counts, add_one, count_of, Tally, tally_open, tally_item, tally, Gauges, clear,
  refresh_review_debt_gauges,
}
use agent_runtime_observator.Metrics.Keys.{count_of-set_clear, tally-IsTally}

abbrev pub is_open : ReviewDebtItem → Bool
is_open item = elim item.status [ cleared ↦ false | open_debt ↦ true ]

abbrev pub is_cleared : ReviewDebtItem → Bool
is_cleared item = elim item.status [ cleared ↦ true | open_debt ↦ false ]

count_of-add_one :
    (j rule : String) (counts : Counts)
    → count_of j (add_one rule counts) ≡ (if str_eq rule j then 1 else 0) + count_of j counts
unfolding count_of add_one
count_of-add_one j rule [] = ground arith
count_of-add_one j rule ((k, n) ∷ counts) =
    ground (arith, count_of-add_one j rule counts, eq_iff rule j, eq_iff k rule, eq_iff k j)

module _ (rule : String) where
  abbrev pub Row : Type 0
  Row = ReviewDebtItem × Option ℕ

  abbrev pub open_row : Row → Bool
  open_row (item, _) = is_open item && str_eq item.rule_id rule

  abbrev pub cleared_row : Row → Bool
  cleared_row (item, _) = is_cleared item && str_eq item.rule_id rule

  abbrev pub stale_row : Row → Bool
  stale_row (item, _) = (is_open item && item.stale_attestation) && str_eq item.rule_id rule

  abbrev one_if : Bool → ℕ
  one_if b = if b then 1 else 0

  record Adds (row : Row) (t t' : Tally) : Type 0 where
    pub opened : count_of rule t'.open_c ≡ one_if (open_row row) + count_of rule t.open_c
    pub closed : count_of rule t'.cleared_c ≡ one_if (cleared_row row) + count_of rule t.cleared_c
    pub outdated : count_of rule t'.stale_c ≡ one_if (stale_row row) + count_of rule t.stale_c

  tally_open-stale :
      (b : Bool) (name : String) (counts : Counts)
      → count_of rule (if b then add_one name counts else counts)
        ≡ one_if (b && str_eq name rule) + count_of rule counts
  tally_open-stale true name counts = count_of-add_one rule name counts
  tally_open-stale false name counts = omega arith

  tally_item-Adds :
      (item : ReviewDebtItem) (finished : Option ℕ) (t : Tally)
      → Adds (item, finished) t (tally_item item finished t)
  unfolding tally_item tally_open
  tally_item-Adds item finished t = go item.status refl
    where
      go :
          (status : DebtStatus)
          → item.status ≡ status
          → Adds
              (record item { status = status }, finished)
              t
              (elim status [
                | cleared ↦ record t { cleared_c = add_one item.rule_id t.cleared_c }
                | open_debt ↦ tally_open item finished t
              ])
      go cleared e = record {
        opened = omega arith;
        closed = count_of-add_one rule item.rule_id t.cleared_c;
        outdated = omega arith;
      }
      go open_debt e = record {
        opened = count_of-add_one rule item.rule_id t.open_c;
        closed = omega arith;
        outdated = tally_open-stale item.stale_attestation item.rule_id t.stale_c;
      }

  tally-counts :
      (items : List Row) (t : Tally)
      → (count_of rule (tally items t).open_c ≡ count_if open_row items + count_of rule t.open_c)
        × (count_of rule (tally items t).cleared_c
            ≡ count_if cleared_row items + count_of rule t.cleared_c)
        × (count_of rule (tally items t).stale_c
            ≡ count_if stale_row items + count_of rule t.stale_c)
  unfolding tally
  tally-counts [] t = (omega arith, omega arith, omega arith)
  tally-counts ((item, finished) ∷ items) t =
      let adds = tally_item-Adds item finished t in
      let (a, b, c) = tally-counts items (tally_item item finished t) in
      (
        omega (arith, a, adds.opened),
        omega (arith, b, adds.closed),
        omega (arith, c, adds.outdated),
      )

  -- After a scrape the gauges hold, for every rule and whatever they held before, the number of its
  -- items that are open, that are cleared, and that are open and stale, in the items of this scrape
  -- alone.
  pub refresh_review_debt_gauges-counts :
      (items : List Row) (now : ℕ) (before : Gauges)
      → (count_of rule (refresh_review_debt_gauges items now before).open_by_rule
          ≡ count_if open_row items)
        × (count_of rule (refresh_review_debt_gauges items now before).cleared_by_rule
            ≡ count_if cleared_row items)
        × (count_of rule (refresh_review_debt_gauges items now before).stale_by_rule
            ≡ count_if stale_row items)
  unfolding refresh_review_debt_gauges clear count_of
  refresh_review_debt_gauges-counts items now before =
      let start : Tally = record {
        open_c = [];
        cleared_c = [];
        stale_c = [];
        oldest_open = none;
      } in
      let (a, b, c) = tally-counts items start in
      let keyed = tally-IsTally items start (record { opened = tt; closed = tt; outdated = tt }) in
      (
        omega (arith, a, count_of-set_clear rule (tally items start).open_c keyed.opened),
        omega (arith, b, count_of-set_clear rule (tally items start).cleared_c keyed.closed),
        omega (arith, c, count_of-set_clear rule (tally items start).stale_c keyed.outdated),
      )
