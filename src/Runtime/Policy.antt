-- ===== src/Runtime/Policy.antt =====
-- packages/runtime/aro_runtime/policy.py: the rules of a bundle are tried in order, and the first
-- that matches decides.
pub mod FirstMatch
use Prim.Native.String.{[] as nil_text, ◌∷◌ as cons_text}
use agent_runtime_observator.Prelude.{
  Bool, true, false, not, ◌&&◌, String, Option, none, some, List, [], ◌∷◌, contains, str_eq,
  if◌then◌else◌,
}
use agent_runtime_observator.Text.{◌⁀◌}
use agent_runtime_observator.Outcome.{Outcome, ok, tool_error, fault, ◌>>=◌}
use agent_runtime_observator.Platform.{Platform}
use agent_runtime_observator.Json.{
  Value, null, bool, int, float, str, arr, obj, Fields, canonical_json,
}
use agent_runtime_observator.Json.Lookup.{field_get?}
use agent_runtime_observator.Schema.Models.{Decision, Severity}

pub record PolicyRule : Type 0 where
  pub id : String
  pub description : String
  pub tool : Option String
  pub args_regex : Option String
  pub domain_not_in : Option (List String)
  pub action : Decision
  pub severity : Severity
  pub category : String

pub record Policy : Type 0 where
  pub id : String
  pub description : String
  pub default : Decision
  pub rules : List PolicyRule

-- `rule.tool is not None and rule.tool != tool`, negated
tool_fits : Option String → String → Bool
tool_fits none tool = true
tool_fits (some t) tool = str_eq t tool

-- `rule.description or f"…"`
reason_for : PolicyRule → String → String
reason_for rule tool =
    if str_eq rule.description ""
    then "rule " ⁀ rule.id ⁀ " matched tool " ⁀ tool
    else rule.description

abbrev pub no_match_reason : String
no_match_reason = "no rule matched; bundle default applied"

module _ (platform : Platform) where
  args_fit : Option String → Fields → Outcome Bool
  args_fit none args = ok true
  args_fit (some pattern) args = platform.re_search pattern (canonical_json (obj args))

  -- The rule is skipped when `url` is no text, or its host is on the list.
  domain_fits : Option (List String) → Option Value → Outcome Bool
  domain_fits none url = ok true
  domain_fits (some hosts) (some (str url)) = do
    parts ← platform.url_parts url
    ok (not (contains hosts parts.0))
  domain_fits (some hosts) _ = ok false

  -- The tests of one round of the loop, each made only if those before it passed.
  unfoldable pub rule_matches : PolicyRule → String → Fields → Outcome Bool
  unfolding tool_fits args_fit domain_fits
  rule_matches rule tool args =
      if tool_fits rule.tool tool
      then (do
        fits ← args_fit rule.args_regex args
        if fits then domain_fits rule.domain_not_in (field_get? "url" args) else ok false)
      else ok false

  unfoldable pub evaluate_rules :
      Decision → List PolicyRule → String → Fields → Outcome (Decision × Option PolicyRule × String)
  unfolding reason_for
  evaluate_rules default [] tool args = ok (default, none, no_match_reason)
  evaluate_rules default (rule ∷ rules) tool args =
      let rest = evaluate_rules default rules tool args in
      do
        fits ← rule_matches rule tool args
        if fits then ok (rule.action, some rule, reason_for rule tool) else rest

  -- `PolicyEngine.evaluate`
  unfoldable pub evaluate :
      Policy → String → Fields → Outcome (Decision × Option PolicyRule × String)
  unfolding evaluate_rules
  evaluate policy tool args = evaluate_rules policy.default policy.rules tool args
