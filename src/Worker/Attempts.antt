-- ===== src/Worker/Attempts.antt =====
-- What a unit of work does to the queue: attempts stay within the limit, no row is left running,
-- and the work that is left gets less.
use mathlib.Core.Path.{subst}
use agent_runtime_observator.Prelude.{
  ℕ, ◌+◌, ◌-◌, ◌*◌, ◌^◌, ◌<◌, ◌≡◌, refl, sym, ap, ◌∙◌, inl, inr, ◌⊎◌, true, false, String, Option,
  none, some, is_none, List, [], ◌∷◌, ◌++◌, map, arith, eq_iff, str_eq, leb, ◌==◌, Bool-cases, All,
  All-append, if◌then◌else◌,
}
use agent_runtime_observator.Platform.{Platform}
use agent_runtime_observator.Runtime.Store.{
  Store, RunRow, QueueItem, save_run, enqueue, is_claimable, first_claimable, update_item, mark,
  claim_next, retry, mark_dead,
}
use agent_runtime_observator.Runtime.Store.Queue.{
  id_of, IsOrdered, Claimed, first_claimable-Claimed, first_claimable-none, enqueue-IsOrdered,
}
use agent_runtime_observator.Worker.{
  Settings, Times, Attempt, finished, raised, attempt, fail_placeholder, settle_failure, settle,
  after_claim, process_once,
}

-- A row is not running, and it is dead exactly when its attempts have reached the limit.
pub record IsSettled (limit : ℕ) (item : QueueItem) : Type 0 where
  pub idle : str_eq item.status "running" ≡ false
  pub dead : str_eq item.status "dead" ≡ true → item.attempts ≡ limit
  pub alive : str_eq item.status "dead" ≡ false → item.attempts < limit

-- The attempts that a row may still take.
abbrev pub left : ℕ → QueueItem → ℕ
left limit item = if str_eq item.status "pending" then limit - item.attempts else 0

abbrev pub work_left : ℕ → List QueueItem → ℕ
work_left limit [] = 0
work_left limit (item ∷ items) = left limit item + work_left limit items

work_left-append :
    (limit : ℕ) (xs ys : List QueueItem)
    → work_left limit (xs ++ ys) ≡ work_left limit xs + work_left limit ys
work_left-append limit [] ys = omega arith
work_left-append limit (x ∷ xs) ys = omega (arith, work_left-append limit xs ys)

pub record IsSound (limit : ℕ) (s : Store) : Type 0 where
  pub ordered : IsOrdered s
  pub settled : All (IsSettled limit) s.queue

-- A new row keeps the queue sound, where at least one attempt is allowed: the ids ascend, no row
-- is running, and the dead rows are those that have used all attempts.
pub enqueue-IsSound :
    (limit now : ℕ) (run_id example : String) (s : Store)
    → 0 < limit
    → IsSound limit s
    → IsSound limit (enqueue now run_id example s).1
unfolding enqueue
enqueue-IsSound limit now run_id example s some_attempt h = record {
  ordered = enqueue-IsOrdered now run_id example s h.ordered;
  settled =
      All-append (IsSettled limit) s.queue (_ ∷ []) h.settled
        (record { idle = refl; dead = λ e. cc e; alive = λ e. some_attempt }, tt);
}

update_item-twice :
    (id : ℕ) (f g : QueueItem → QueueItem) (items : List QueueItem)
    → ((item : QueueItem) → (g item).id ≡ item.id)
    → update_item id f (update_item id g items) ≡ update_item id (λ item. f (g item)) items
unfolding update_item
update_item-twice id f g [] h = refl
update_item-twice id f g (item ∷ items) h =
    let rest = update_item-twice id f g items h in
    elim (Bool-cases (item.id == id)) [
      | inl e ↦
          let kept : ((g item).id == id) ≡ true = ap (λ n. n == id) (h item) ∙ e in
          rw (e, kept) (ap (λ xs. f (g item) ∷ xs) rest)
      | inr e ↦ rw (e, e) (ap (λ xs. item ∷ xs) rest)
    ]

map-middle :
    (before after : List QueueItem) (x y : QueueItem)
    → x.id ≡ y.id
    → map id_of (before ++ x ∷ after) ≡ map id_of (before ++ y ∷ after)
map-middle [] after x y h = ap (λ n. n ∷ map id_of after) h
map-middle (z ∷ before) after x y h = ap (λ ns. z.id ∷ ns) (map-middle before after x y h)

All-middle {κ} :
    (P : QueueItem → Type κ) (before after : List QueueItem) (x y : QueueItem)
    → (P x → P y)
    → All P (before ++ x ∷ after)
    → All P (before ++ y ∷ after)
All-middle P [] after x y f (p, h) = (f p, h)
All-middle P (z ∷ before) after x y f (p, h) = (p, All-middle P before after x y f h)

All-at {κ} :
    (P : QueueItem → Type κ) (before after : List QueueItem) (x : QueueItem)
    → All P (before ++ x ∷ after)
    → P x
All-at P [] after x (p, h) = p
All-at P (z ∷ before) after x (p, h) = All-at P before after x h

module _ (platform : Platform) (settings : Settings) (times : Times) where
  -- The row of a failed attempt: dead at the limit, and otherwise to be tried again after a delay
  -- that doubles with each attempt.
  abbrev pub failed_item : QueueItem → String → QueueItem
  failed_item claim error =
      let attempts = claim.attempts + 1 in
      if leb settings.max_attempts attempts
      then record claim { status = "dead"; attempts = attempts; last_error = some error }
      else record claim {
        status = "pending";
        attempts = attempts;
        available_at = some (times.failed + settings.backoff_us * 2 ^ (attempts - 1));
        last_error = some error;
      }

  -- The row after its unit of work.
  abbrev pub final_item : QueueItem → Attempt → QueueItem
  final_item claim (finished example run) = record claim { status = "done" }
  final_item claim (raised error) = failed_item claim error

  fail_placeholder-queue :
      (o : Option RunRow) (s : Store)
      → (fail_placeholder platform settings times o s).queue ≡ s.queue
  unfolding fail_placeholder save_run
  fail_placeholder-queue none s = refl
  fail_placeholder-queue (some row) s = refl

  fail_placeholder-next_id :
      (o : Option RunRow) (s : Store)
      → (fail_placeholder platform settings times o s).next_id ≡ s.next_id
  unfolding fail_placeholder save_run
  fail_placeholder-next_id none s = refl
  fail_placeholder-next_id (some row) s = refl

  settle_failure-next_id :
      (claim : QueueItem) (error : String) (s : Store)
      → (settle_failure platform settings times claim error s).next_id ≡ s.next_id
  unfolding settle_failure mark_dead retry
  settle_failure-next_id claim error s =
      elim (Bool-cases (leb settings.max_attempts (claim.attempts + 1))) [
        | inl e ↦ rw e (fail_placeholder-next_id _ _)
        | inr e ↦ rw e refl
      ]

  settle-next_id :
      (claim : QueueItem) (a : Attempt) (s : Store)
      → (settle platform settings times claim a s).next_id ≡ s.next_id
  unfolding settle save_run mark
  settle-next_id claim (finished example run) s = refl
  settle-next_id claim (raised error) s = settle_failure-next_id claim error s

  module _ (now : ℕ) (s : Store) (claim : QueueItem) (found : Claimed now s.queue claim) where
    running : Store
    running = mark claim.id "running" s

    updated_twice :
        (f : QueueItem → QueueItem)
        → update_item claim.id f running.queue
          ≡ found.before ++ f (record claim { status = "running" }) ∷ found.after
    unfolding running mark
    updated_twice f =
        update_item-twice claim.id f (λ item. record item { status = "running" }) s.queue
          (λ item. refl)
        ∙ found.updated (λ item. f (record item { status = "running" }))

    settle_failure-queue :
        (error : String)
        → (settle_failure platform settings times claim error running).queue
          ≡ found.before ++ failed_item claim error ∷ found.after
    unfolding settle_failure mark_dead retry
    settle_failure-queue error =
        elim (Bool-cases (leb settings.max_attempts (claim.attempts + 1))) [
          | inl e ↦ rw e (fail_placeholder-queue _ _ ∙ updated_twice _)
          | inr e ↦ rw e (updated_twice _)
        ]

    settle-queue :
        (a : Attempt)
        → (settle platform settings times claim a running).queue
          ≡ found.before ++ final_item claim a ∷ found.after
    unfolding settle save_run mark
    settle-queue (finished example run) = updated_twice (λ item. record item { status = "done" })
    settle-queue (raised error) = settle_failure-queue error

  -- What a unit of work does, by what it returns.
  abbrev pub Processes : Store → Option String × Store → Type 0
  Processes s (none, s') =
      (s' ≡ s) × All (λ (item : QueueItem). is_claimable times.claimed item ≡ false) s.queue
  Processes s (some run_id, s') =
      (claim : QueueItem) × (before after : List QueueItem) × (s.queue ≡ before ++ claim ∷ after)
      × All (λ (item : QueueItem). is_claimable times.claimed item ≡ false) before
      × (is_claimable times.claimed claim ≡ true)
      × (run_id ≡ claim.run_id)
      × (s'.queue ≡ before ++ final_item claim (attempt platform settings times claim) ∷ after)
      × (s'.next_id ≡ s.next_id)

  -- A unit of work on a queue in order does nothing exactly when no row is pending and available.
  -- Otherwise it returns the run of the first such row and changes the queue at that row only: the
  -- row is done if the run succeeds; if the attempt fails, it is dead with the error once the
  -- attempts reach the limit, and before that it is pending again, with one attempt more, the
  -- error, and a delay that doubles with each attempt.
  pub process_once-Processes :
      (s : Store) → IsOrdered s → Processes s (process_once platform settings times s)
  unfolding process_once claim_next after_claim running
  process_once-Processes s h = go (first_claimable times.claimed s.queue) refl
    where
      go :
          (o : Option QueueItem)
          → first_claimable times.claimed s.queue ≡ o
          → Processes s (
              let (claim, claimed) : Option QueueItem × Store = elim o [
                | none ↦ (none, s)
                | some item ↦ (some item, mark item.id "running" s)
              ] in
              after_claim platform settings times claim claimed)
      go none e = (refl, first_claimable-none times.claimed s.queue e)
      go (some claim) e =
          let found = first_claimable-Claimed times.claimed s.queue h.ascending e in
          (
            claim,
            found.before,
            found.after,
            found.here,
            found.skipped,
            found.claimable,
            refl,
            settle-queue times.claimed s claim found (attempt platform settings times claim),
            settle-next_id claim (attempt platform settings times claim)
                (mark claim.id "running" s),
          )

  module _ (claim : QueueItem) (pending : is_claimable times.claimed claim ≡ true)
      (fine : IsSettled settings.max_attempts claim) where
    was_pending : str_eq claim.status "pending" ≡ true
    unfolding is_claimable
    was_pending = ground (arith, pending)

    tries_left : claim.attempts < settings.max_attempts
    tries_left = fine.alive (go claim.status was_pending)
      where
        go : (status : String) → str_eq status "pending" ≡ true → str_eq status "dead" ≡ false
        go status e = rw ((eq_iff status "pending").0 e) refl

    failed_item-IsSettled :
        (error : String) → IsSettled settings.max_attempts (failed_item claim error)
    failed_item-IsSettled error =
        elim (Bool-cases (leb settings.max_attempts (claim.attempts + 1))) [
          | inl e ↦
              rw e (record {
                idle = refl;
                dead = λ d. ground (arith, tries_left, e);
                alive = λ a. cc a;
              })
          | inr e ↦
              rw e (record {
                idle = refl;
                dead = λ d. cc d;
                alive = λ a. ground (arith, tries_left, e);
              })
        ]

    final_item-IsSettled : (a : Attempt) → IsSettled settings.max_attempts (final_item claim a)
    final_item-IsSettled (finished example run) = record {
      idle = refl;
      dead = λ d. cc d;
      alive = λ a. tries_left;
    }
    final_item-IsSettled (raised error) = failed_item-IsSettled error

    left-failed_item :
        (error : String)
        → left settings.max_attempts (failed_item claim error) < left settings.max_attempts claim
    left-failed_item error = elim (Bool-cases (leb settings.max_attempts (claim.attempts + 1))) [
      | inl e ↦ rw (e, was_pending) (omega (arith, tries_left))
      | inr e ↦ rw (e, was_pending) (omega (arith, tries_left))
    ]

    left-final_item :
        (a : Attempt)
        → left settings.max_attempts (final_item claim a) < left settings.max_attempts claim
    left-final_item (finished example run) = rw was_pending (omega (arith, tries_left))
    left-final_item (raised error) = left-failed_item error

  final_item-id : (claim : QueueItem) (a : Attempt) → (final_item claim a).id ≡ claim.id
  final_item-id claim (finished example run) = refl
  final_item-id claim (raised error) =
      elim (Bool-cases (leb settings.max_attempts (claim.attempts + 1))) [
        | inl e ↦ rw e refl
        | inr e ↦ rw e refl
      ]

  module _ (s : Store) (sound : IsSound settings.max_attempts s) where
    after-IsSound :
        (result : Option String × Store)
        → Processes s result
        → IsSound settings.max_attempts result.1
    after-IsSound (none, s') (same, _) = rw same sound
    after-IsSound (some run_id, s') (claim, before, after, here, _, pending, _, changed, next) =
        let final = final_item claim (attempt platform settings times claim) in
        let settled : All (IsSettled settings.max_attempts) (before ++ claim ∷ after) =
          subst (All (IsSettled settings.max_attempts)) here sound.settled in
        let fine = All-at (IsSettled settings.max_attempts) before after claim settled in
        let ids : map id_of s'.queue ≡ map id_of s.queue =
          ap (map id_of) changed
          ∙ map-middle before after final claim (final_item-id claim _)
          ∙ ap (map id_of) (sym here) in
        record {
          ordered = record {
            ascending = rw ids sound.ordered.ascending;
            below = rw (ids, next) sound.ordered.below;
          };
          settled = rw changed (
              All-middle (IsSettled settings.max_attempts) before after claim final
                (λ f. final_item-IsSettled claim pending f (attempt platform settings times claim))
                settled);
        }

    -- A unit of work keeps the queue sound: the ids ascend, no row is running, and a row is dead
    -- exactly when it has used all attempts that the settings allow.
    pub process_once-IsSound :
        IsSound settings.max_attempts (process_once platform settings times s).1
    process_once-IsSound =
        after-IsSound (process_once platform settings times s)
          (process_once-Processes s sound.ordered)

    after-work_left :
        (result : Option String × Store)
        → Processes s result
        → (is_none result.0 ≡ true)
          ⊎ (work_left settings.max_attempts result.1.queue
              < work_left settings.max_attempts s.queue)
    after-work_left (none, s') h = inl refl
    after-work_left (some run_id, s') (claim, before, after, here, _, pending, _, changed, next) =
        let limit = settings.max_attempts in
        let final = final_item claim (attempt platform settings times claim) in
        let fine =
          All-at (IsSettled limit) before after claim
            (subst (All (IsSettled limit)) here sound.settled) in
        let less : left limit final < left limit claim =
          left-final_item claim pending fine (attempt platform settings times claim) in
        inr (
          rw (changed, here)
            (omega (
              arith,
              less,
              work_left-append limit before (claim ∷ after),
              work_left-append limit before (final ∷ after),
            )))

    -- A unit of work on a sound queue returns nothing, or it lowers the number of attempts that the
    -- pending rows may still take.
    pub process_once-work_left :
        (is_none (process_once platform settings times s).0 ≡ true)
        ⊎ (work_left settings.max_attempts (process_once platform settings times s).1.queue
            < work_left settings.max_attempts s.queue)
    process_once-work_left =
        after-work_left (process_once platform settings times s)
          (process_once-Processes s sound.ordered)
