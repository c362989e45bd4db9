-- ===== src/Runtime/Store/Queue.antt =====
-- The queue of the store: rows stand in the order of their ids, and the row that is claimed is the
-- first that can be.
use mathlib.Core.Path.{subst}
use mathlib.Core.Option.{some_inj}
use agent_runtime_observator.Prelude.{
  ℕ, suc, ◌<◌, ◌≡◌, refl, ap, inl, inr, true, false, String, Option, none, some, List, [], ◌∷◌,
  ◌++◌, map, arith, ==_iff, ◌==◌, Bool-cases, All, All-map, All-append,
}
use agent_runtime_observator.Runtime.Store.{
  Store, QueueItem, enqueue, is_claimable, first_claimable, update_item, mark, claim_next,
}

abbrev pub id_of : QueueItem → ℕ
id_of item = item.id

abbrev pub Ascending : List ℕ → Type 0
Ascending [] = Unit
Ascending (n ∷ ns) = All (λ m. n < m) ns × Ascending ns

-- The ids ascend, and stay below the next one.
pub record IsOrdered (s : Store) : Type 0 where
  pub ascending : Ascending (map id_of s.queue)
  pub below : All (λ n. n < s.next_id) (map id_of s.queue)

Ascending-append :
    (ns : List ℕ) (n : ℕ) → Ascending ns → All (λ m. m < n) ns → Ascending (ns ++ n ∷ [])
Ascending-append [] n h below = (tt, tt)
Ascending-append (m ∷ ns) n (later, h) (here, below) =
    (All-append (λ k. m < k) ns (n ∷ []) later (here, tt), Ascending-append ns n h below)

map-append-id :
    (items : List QueueItem) (item : QueueItem)
    → map id_of (items ++ item ∷ []) ≡ map id_of items ++ item.id ∷ []
map-append-id [] item = refl
map-append-id (x ∷ items) item = ap (λ ns. x.id ∷ ns) (map-append-id items item)

pub enqueue-IsOrdered :
    (now : ℕ) (run_id example : String) (s : Store)
    → IsOrdered s
    → IsOrdered (enqueue now run_id example s).1
unfolding enqueue
enqueue-IsOrdered now run_id example s h = record {
  ascending =
      rw (map-append-id s.queue _)
        (Ascending-append (map id_of s.queue) s.next_id h.ascending h.below);
  below = rw (map-append-id s.queue _) (
      All-append (λ n. n < suc s.next_id) (map id_of s.queue) (s.next_id ∷ [])
        (All-map (λ n. n < s.next_id) _ (map id_of s.queue) (λ n k. omega (arith, k)) h.below)
        (omega arith, tt));
}

-- An update leaves the ids, where the change does.
pub update_item-ids :
    (id : ℕ) (change : QueueItem → QueueItem) (items : List QueueItem)
    → ((item : QueueItem) → (change item).id ≡ item.id)
    → map id_of (update_item id change items) ≡ map id_of items
unfolding update_item
update_item-ids id change [] h = refl
update_item-ids id change (item ∷ items) h =
    let rest = update_item-ids id change items h in
    elim (Bool-cases (item.id == id)) [
      | inl e ↦ rw (e, h item, rest) refl
      | inr e ↦ rw (e, rest) refl
    ]

-- No row has a later id.
update_item-absent :
    (id : ℕ) (change : QueueItem → QueueItem) (items : List QueueItem)
    → All (λ m. id < m) (map id_of items)
    → update_item id change items ≡ items
unfolding update_item
update_item-absent id change [] h = refl
update_item-absent id change (item ∷ items) (here, h) =
    rw (the_other item.id here, update_item-absent id change items h) refl
  where
    the_other : (n : ℕ) → id < n → (n == id) ≡ false
    the_other n k = ground (arith, k)

first_claimable-later :
    (now n : ℕ) (items : List QueueItem) {claim : QueueItem}
    → All (λ m. n < m) (map id_of items)
    → first_claimable now items ≡ some claim
    → n < claim.id
unfolding first_claimable
first_claimable-later now n [] h found = cc found
first_claimable-later now n (item ∷ items) {claim} (here, h) found =
    elim (Bool-cases (is_claimable now item)) [
      | inl e ↦ omega (arith, here, ap (λ o. id_or n o) (rw e at found))
      | inr e ↦ first_claimable-later now n items h (rw e at found)
    ]
  where
    id_or : ℕ → Option QueueItem → ℕ
    id_or k none = k
    id_or k (some x) = x.id

-- The queue around the first row that can be claimed.
pub record Claimed (now : ℕ) (items : List QueueItem) (claim : QueueItem) : Type 0 where
  pub before : List QueueItem
  pub after : List QueueItem
  pub here : items ≡ before ++ claim ∷ after
  pub skipped : All (λ (item : QueueItem). is_claimable now item ≡ false) before
  pub claimable : is_claimable now claim ≡ true
  pub updated :
      (change : QueueItem → QueueItem)
      → update_item claim.id change items ≡ before ++ change claim ∷ after

add_skipped :
    (now : ℕ) (item : QueueItem) {items : List QueueItem} {claim : QueueItem}
    → is_claimable now item ≡ false
    → item.id < claim.id
    → Claimed now items claim
    → Claimed now (item ∷ items) claim
unfolding update_item
add_skipped now item {items} {claim} e less found = record {
  before = item ∷ found.before;
  after = found.after;
  here = ap (λ rest. item ∷ rest) found.here;
  skipped = (e, found.skipped);
  claimable = found.claimable;
  updated = λ change.
      rw (the_other item.id claim.id less) (ap (λ rest. item ∷ rest) (found.updated change));
}
  where
    the_other : (m n : ℕ) → m < n → (m == n) ≡ false
    the_other m n k = ground (arith, k)

take_first :
    (now : ℕ) (item : QueueItem) (items : List QueueItem)
    → is_claimable now item ≡ true
    → All (λ m. item.id < m) (map id_of items)
    → Claimed now (item ∷ items) item
unfolding update_item
take_first now item items e later = record {
  before = [];
  after = items;
  here = refl;
  skipped = tt;
  claimable = e;
  updated = λ change.
      rw ((==_iff item.id item.id).1 refl)
        (ap (λ rest. change item ∷ rest) (update_item-absent item.id change items later));
}

pub first_claimable-Claimed :
    (now : ℕ) (items : List QueueItem) {claim : QueueItem}
    → Ascending (map id_of items)
    → first_claimable now items ≡ some claim
    → Claimed now items claim
unfolding first_claimable
first_claimable-Claimed now [] h found = cc found
first_claimable-Claimed now (item ∷ items) {claim} (later, h) found =
    elim (Bool-cases (is_claimable now item)) [
      | inl e ↦
          subst (λ x. Claimed now (item ∷ items) x) (some_inj.0 (rw e at found))
            (take_first now item items e later)
      | inr e ↦
          let rest : first_claimable now items ≡ some claim = rw e at found in
          add_skipped now item e (first_claimable-later now item.id items later rest)
            (first_claimable-Claimed now items h rest)
    ]

pub first_claimable-none :
    (now : ℕ) (items : List QueueItem)
    → first_claimable now items ≡ none
    → All (λ (item : QueueItem). is_claimable now item ≡ false) items
unfolding first_claimable
first_claimable-none now [] h = tt
first_claimable-none now (item ∷ items) h = elim (Bool-cases (is_claimable now item)) [
  | inl e ↦ cc (rw e at h)
  | inr e ↦ (e, first_claimable-none now items (rw e at h))
]

-- What a claim selects and changes.
abbrev pub Selects : ℕ → Store → Option QueueItem × Store → Type 0
Selects now s (none, s') =
    (s' ≡ s) × All (λ (item : QueueItem). is_claimable now item ≡ false) s.queue
Selects now s (some claim, s') =
    (before after : List QueueItem) × (s.queue ≡ before ++ claim ∷ after)
    × All (λ (item : QueueItem). is_claimable now item ≡ false) before
    × (is_claimable now claim ≡ true)
    × (s' ≡ record s { queue = before ++ record claim { status = "running" } ∷ after })

-- In a store whose queue is in order, a claim takes the first row that is pending and available,
-- and changes nothing but the status of that one row, to running; it takes none, and changes
-- nothing, exactly when no row is pending and available.
pub claim_next-Selects : (now : ℕ) (s : Store) → IsOrdered s → Selects now s (claim_next now s)
unfolding claim_next mark
claim_next-Selects now s h = go (first_claimable now s.queue) refl
  where
    go :
        (o : Option QueueItem)
        → first_claimable now s.queue ≡ o
        → Selects now s
            (elim o [ none ↦ (none, s) | some item ↦ (some item, mark item.id "running" s) ])
    go none e = (refl, first_claimable-none now s.queue e)
    go (some claim) e =
        let found = first_claimable-Claimed now s.queue h.ascending e in
        (
          found.before,
          found.after,
          found.here,
          found.skipped,
          found.claimable,
          ap (λ items. record s { queue = items })
              (found.updated (λ item. record item { status = "running" })),
        )
