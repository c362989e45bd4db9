-- ===== src/Examples/Pruned.antt =====
-- The theorems on pruning, at seven turns of which six are alike, and at three trajectories of two
-- groups. The floats are natural numbers, and a signature is its text.
use mathlib.Core.List.{Memᴰ}
use agent_runtime_observator.Prelude.{
  ℕ, ◌+◌, ◌*◌, ◌-◌, ◌≡◌, refl, true, false, String, List, [], ◌∷◌, ltb, leb, str_eq, length, arith,
  if◌then◌else◌,
}
use agent_runtime_observator.Json.{Value, str, Fields, end, field}
use agent_runtime_observator.Text.{contains_text}
use agent_runtime_observator.Clinic.Pruner.{Python, get_pruner_state_signature}
use agent_runtime_observator.Clinic.Pruner.Segments.{prune_single_trajectory}
use agent_runtime_observator.Clinic.Pruner.Kept.{signature, Shown, prune_single_trajectory-Shown}
use agent_runtime_observator.Clinic.Pruner.Policy.{deduplicate}
use agent_runtime_observator.Clinic.Pruner.Best.{IsOrder, IsBest, deduplicate-IsBest}

abbrev text_of : Value → String
text_of (str s) = s
text_of _ = ""

abbrev py : Python
py = record {
  Float = ℕ;
  zero = 0;
  one = 1;
  add = λ a b. a + b;
  times = λ a b. a * b;
  over = λ a b. a - b;
  is_positive = λ a. true;
  at_least = λ a b. leb b a;
  above = λ a b. ltb b a;
  literal = λ t. 1;
  float_of = λ n. n;
  log1p = λ a. a;
  weight = λ d. 1;
  max_confidence = 0;
  semantic_threshold = 0;
  dumps_text = text_of;
  dumps_sorted = text_of;
  dumps = text_of;
  python_str = text_of;
  lower = λ t. t;
  md5 = λ t. t;
  find_tracks = λ t. [];
  ratio = λ a b. if str_eq a b then 1 else 0;
}

abbrev turn_of : String → Fields
turn_of content = field "role" (str "assistant") (field "content" (str content) end)

abbrev turns : List Fields
turns =
    turn_of "x"
    ∷ turn_of "x"
    ∷ turn_of "y"
    ∷ turn_of "x"
    ∷ turn_of "x"
    ∷ turn_of "x"
    ∷ turn_of "x"
    ∷ []

pruned : length (prune_single_trajectory py false turns) ≡ 4
unfolding prune_single_trajectory contains_text get_pruner_state_signature
pruned = refl

prune_single_trajectory-Shown_example :
    Shown py (prune_single_trajectory py false turns) (signature py (turn_of "y"))
prune_single_trajectory-Shown_example =
    prune_single_trajectory-Shown py turns (turn_of "y") (Memᴰ.tail (Memᴰ.tail (Memᴰ.head refl)))

abbrev group_of : String × ℕ → String
group_of t = t.0

abbrev score_of : String × ℕ → ℕ
score_of t = t.1

abbrev scored : List (String × ℕ)
scored = ("a", 1) ∷ ("b", 5) ∷ ("a", 3) ∷ []

order : IsOrder py
order = record {
  reflexive = λ a. ground arith;
  transitive = λ a b c h k. ground (arith, h, k);
  total = λ a b h. ground (arith, h);
}

deduplicate-IsBest_example :
    IsBest py order
      (String × ℕ)
      group_of
      score_of
      scored
      (deduplicate py (String × ℕ) group_of score_of scored)
deduplicate-IsBest_example = deduplicate-IsBest py order (String × ℕ) group_of score_of scored
