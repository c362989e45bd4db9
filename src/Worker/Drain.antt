-- ===== src/Worker/Drain.antt =====
-- The polling loop of apps/worker/aro_worker/main.py: the work in a queue runs out.
use agent_runtime_observator.Prelude.{
  ℕ, ◌≤◌, ◌<◌, ◌≡◌, ◌-◌, refl, sym, ap, ◌∙◌, inl, inr, true, false, String, Option, none, some,
  is_none, is_some, List, [], ◌∷◌, ◌++◌, length, All, arith, Option-cases,
}
use agent_runtime_observator.Platform.{Platform}
use agent_runtime_observator.Runtime.Store.{Store, is_claimable}
use agent_runtime_observator.Worker.{Settings, Times, process_once, poll}
use agent_runtime_observator.Worker.Attempts.{
  IsSound, work_left, Processes, process_once-Processes, process_once-IsSound,
  process_once-work_left,
}

-- Some units that each process a run, at most as many as `bound`, and then a unit that finds no row
-- pending and available and leaves the store as it is.
abbrev pub Drains : Platform → Settings → ℕ → List Times → Store → Type 0
Drains platform settings bound instants s =
    (busy : List Times) × (idle : Times) × (later : List Times) × (instants ≡ busy ++ idle ∷ later)
    × (length busy ≤ bound)
    × All (λ o. is_some o ≡ true) (poll platform settings busy s).0
    × (process_once platform settings idle (poll platform settings busy s).1
        ≡ (none, (poll platform settings busy s).1))
    × All (λ item. is_claimable idle.claimed item ≡ false) (poll platform settings busy s).1.queue
    × IsSound settings.max_attempts (poll platform settings busy s).1

module _ (platform : Platform) (settings : Settings) where
  idle-Processes :
      (now : Times) (s : Store) (result : Option String × Store)
      → Processes platform settings now s result
      → result.0 ≡ none
      → (result ≡ (none, s)) × All (λ item. is_claimable now.claimed item ≡ false) s.queue
  idle-Processes now s (none, s') (same, none_left) e = (ap (λ x. (none, x)) same, none_left)
  idle-Processes now s (some run_id, s') done e = cc

  work_less :
      (now : Times) (s : Store) (sound : IsSound settings.max_attempts s) (run_id : String)
      → (process_once platform settings now s).0 ≡ some run_id
      → work_left settings.max_attempts (process_once platform settings now s).1.queue
        < work_left settings.max_attempts s.queue
  work_less now s sound run_id e = elim (process_once-work_left platform settings now s sound) [
    | inl idle ↦ cc (sym (ap is_none e) ∙ idle)
    | inr less ↦ less
  ]

  -- On a sound queue the loop comes to a unit without work after at most as many units as the
  -- pending rows have attempts left, whatever the runs do.
  pub poll-Drains :
      (bound : ℕ) (instants : List Times) (s : Store)
      → IsSound settings.max_attempts s
      → work_left settings.max_attempts s.queue ≤ bound
      → bound < length instants
      → Drains platform settings bound instants s
  unfolding poll
  poll-Drains bound [] s sound enough h = absurd (omega (arith, h))
  poll-Drains bound (now ∷ instants) s sound enough h =
      let done = process_once-Processes platform settings now s sound.ordered in
      elim (Option-cases (process_once platform settings now s).0) [
        | inl e ↦
            let (stays, none_left) =
              idle-Processes now s (process_once platform settings now s) done e in
            ([], now, instants, refl, omega arith, tt, stays, none_left, sound)
        | inr (run_id, e) ↦
            let worked = (process_once platform settings now s).1 in
            let less = work_less now s sound run_id e in
            let (busy, idle, later, split, short, ran, stays, none_left, kept) =
              poll-Drains (bound - 1) instants worked
                (process_once-IsSound platform settings now s sound) (omega (arith, less, enough))
                (omega (arith, less, enough, h)) in
            (
              now ∷ busy,
              idle,
              later,
              ap (λ ts. now ∷ ts) split,
              omega (arith, short, less, enough),
              (ap is_some e, ran),
              stays,
              none_left,
              kept,
            )
      ]
