-- ===== src/Metrics/Keys.antt =====
-- The rules of a tally are distinct, so a gauge that is set from it holds its counts.
use agent_runtime_observator.Prelude.{
  ℕ, ◌≡◌, refl, ap, sym, ◌∙◌, inl, inr, Bool-cases, Bool, true, false, ◌||◌, String, Option, List,
  [], ◌∷◌, arith, eq_iff, str_eq, if◌then◌else◌,
}
use agent_runtime_observator.Schema.Models.Governance.{
  ReviewDebtItem, DebtStatus, open_debt, cleared,
}
use agent_runtime_observator.Metrics.{
  Counts, add_one, count_of, Tally, tally_open, tally_item, tally, set_gauge, set_all,
}

unfoldable pub has_rule : String → Counts → Bool
has_rule rule [] = false
has_rule rule ((k, n) ∷ counts) = let rest = has_rule rule counts in str_eq k rule || rest

-- Each rule has one count.
abbrev pub IsKeyed : Counts → Type 0
IsKeyed [] = Unit
IsKeyed ((k, n) ∷ counts) = (has_rule k counts ≡ false) × IsKeyed counts

has_rule-add_one :
    (j rule : String) (counts : Counts)
    → has_rule j (add_one rule counts) ≡ (str_eq rule j || has_rule j counts)
unfolding has_rule add_one
has_rule-add_one j rule [] = ground arith
has_rule-add_one j rule ((k, n) ∷ counts) =
    ground (arith, has_rule-add_one j rule counts, eq_iff rule j, eq_iff k rule, eq_iff k j)

add_one-IsKeyed : (rule : String) (counts : Counts) → IsKeyed counts → IsKeyed (add_one rule counts)
unfolding has_rule add_one
add_one-IsKeyed rule [] h = (refl, tt)
add_one-IsKeyed rule ((k, n) ∷ counts) (fresh, h) = elim (Bool-cases (str_eq k rule)) [
  | inl e ↦ rw (add_one, e) (fresh, h)
  | inr e ↦
      rw (add_one, e)
        (
          has_rule-add_one k rule counts ∙ ground (arith, fresh, e, eq_iff rule k, eq_iff k rule),
          add_one-IsKeyed rule counts h,
        )
]

count_of-set_gauge :
    (j rule : String) (n : ℕ) (gauge : Counts)
    → count_of j (set_gauge rule n gauge) ≡ (if str_eq rule j then n else count_of j gauge)
unfolding count_of set_gauge
count_of-set_gauge j rule n [] = ground arith
count_of-set_gauge j rule n ((k, m) ∷ gauge) =
    ground (arith, count_of-set_gauge j rule n gauge, eq_iff rule j, eq_iff k rule, eq_iff k j)

-- A gauge holds the counts that are set, and what it held for the other rules.
count_of-set_all :
    (j : String) (counts gauge : Counts)
    → IsKeyed counts
    → count_of j (set_all counts gauge)
      ≡ (if has_rule j counts then count_of j counts else count_of j gauge)
unfolding count_of set_all has_rule
count_of-set_all j [] gauge h = refl
count_of-set_all j ((k, n) ∷ counts) gauge (fresh, h) =
    let absent : str_eq k j ≡ true → has_rule j counts ≡ false =
      λ e. ap (λ i. has_rule i counts) (sym ((eq_iff k j).0 e)) ∙ fresh in
    count_of-set_all j counts (set_gauge k n gauge) h ∙ elim (Bool-cases (str_eq k j)) [
      | inl e ↦ rw (e, absent e, count_of-set_gauge j k n gauge, e) refl
      | inr e ↦ rw (e, count_of-set_gauge j k n gauge, e) refl
    ]

count_of-absent : (j : String) (counts : Counts) → has_rule j counts ≡ false → count_of j counts ≡ 0
unfolding count_of has_rule
count_of-absent j [] h = refl
count_of-absent j ((k, n) ∷ counts) h = ground (arith, h, count_of-absent j counts)

pub count_of-set_clear :
    (j : String) (counts : Counts)
    → IsKeyed counts
    → count_of j (set_all counts []) ≡ count_of j counts
unfolding count_of
count_of-set_clear j counts h =
    ground (arith, count_of-set_all j counts [] h, count_of-absent j counts)

pub record IsTally (t : Tally) : Type 0 where
  pub opened : IsKeyed t.open_c
  pub closed : IsKeyed t.cleared_c
  pub outdated : IsKeyed t.stale_c

stale-IsKeyed :
    (stale : Bool) (rule : String) (counts : Counts)
    → IsKeyed counts
    → IsKeyed (if stale then add_one rule counts else counts)
stale-IsKeyed true rule counts h = add_one-IsKeyed rule counts h
stale-IsKeyed false rule counts h = h

tally_item-IsTally :
    (item : ReviewDebtItem) (finished : Option ℕ) (t : Tally)
    → IsTally t
    → IsTally (tally_item item finished t)
unfolding tally_item tally_open
tally_item-IsTally item finished t h = go item.status
  where
    go :
        (status : DebtStatus)
        → IsTally (elim status [
          | cleared ↦ record t { cleared_c = add_one item.rule_id t.cleared_c }
          | open_debt ↦ tally_open item finished t
        ])
    go cleared = record {
      opened = h.opened;
      closed = add_one-IsKeyed item.rule_id t.cleared_c h.closed;
      outdated = h.outdated;
    }
    go open_debt = record {
      closed = h.closed;
      opened = add_one-IsKeyed item.rule_id t.open_c h.opened;
      outdated = stale-IsKeyed item.stale_attestation item.rule_id t.stale_c h.outdated;
    }

pub tally-IsTally :
    (items : List (ReviewDebtItem × Option ℕ)) (t : Tally) → IsTally t → IsTally (tally items t)
unfolding tally
tally-IsTally [] t h = h
tally-IsTally ((item, finished) ∷ items) t h =
    tally-IsTally items (tally_item item finished t) (tally_item-IsTally item finished t h)
