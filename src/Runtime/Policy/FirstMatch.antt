-- ===== src/Runtime/Policy/FirstMatch.antt =====
-- The verdict of a bundle is that of its first matching rule, and of its default if there is none.
use mathlib.Core.Path.{subst}
use mathlib.Core.Bool.{false≢true}
use mathlib.Core.Option.{some_inj}
use mathlib.Core.List.{Memᴰ}
use agent_runtime_observator.Prelude.{
  ◌≡◌, refl, sym, ap, ◌∙◌, ◌↔◌, inl, inr, Bool, true, false, not, String, Option, none, some, List,
  [], ◌∷◌, arith, eq_iff, contains, contains_iff, Bool-cases, if◌then◌else◌,
}
use agent_runtime_observator.Outcome.{Outcome, ok, tool_error, fault, ◌>>=◌, >>=-eq-ok, ok_inj}
use agent_runtime_observator.Platform.{Platform}
use agent_runtime_observator.Json.{Value, str, obj, Fields, canonical_json}
use agent_runtime_observator.Json.Lookup.{field_get?}
use agent_runtime_observator.Schema.Models.{Decision}
use agent_runtime_observator.Runtime.Policy.{
  PolicyRule, Policy, reason_for, tool_fits, args_fit, domain_fits, rule_matches, evaluate_rules,
  evaluate,
}

-- Three tests in a row pass only together.
all_pass :
    (b : Bool) (m n : Outcome Bool)
    → (if b then (m >>= λ fits. if fits then n else ok false) else ok false) ≡ ok true
    → (b ≡ true) × (m ≡ ok true) × (n ≡ ok true)
all_pass true (ok true) n h = (refl, refl, h)
all_pass true (ok false) n h = cc
all_pass true (tool_error x) n h = cc
all_pass true (fault f) n h = cc
all_pass false m n h = cc

module _ (platform : Platform) where
  -- The documented meaning of a rule: each field that is given constrains the call.
  abbrev pub UnlistedHost : List String → Fields → Type 0
  UnlistedHost hosts args =
      (url : String) × (parts : String × String) × (field_get? "url" args ≡ some (str url))
      × (platform.url_parts url ≡ ok parts)
      × (¬ Memᴰ parts.0 hosts)

  pub record Matches (rule : PolicyRule) (tool : String) (args : Fields) : Type 0 where
    pub tool_named : (t : String) → rule.tool ≡ some t → t ≡ tool
    pub regex_found :
        (pattern : String)
        → rule.args_regex ≡ some pattern
        → platform.re_search pattern (canonical_json (obj args)) ≡ ok true
    pub host_unlisted :
        (hosts : List String) → rule.domain_not_in ≡ some hosts → UnlistedHost hosts args

  tool_fits_iff :
      (o : Option String) (tool : String)
      → (tool_fits o tool ≡ true) ↔ ((t : String) → o ≡ some t → t ≡ tool)
  unfolding tool_fits
  tool_fits_iff none tool = (λ h t e. cc, λ h. refl)
  tool_fits_iff (some s) tool =
      (λ h t e. sym (some_inj.0 e) ∙ (eq_iff s tool).0 h, λ h. (eq_iff s tool).1 (h s refl))

  args_fit_iff :
      (o : Option String) (args : Fields)
      → (args_fit platform o args ≡ ok true) ↔ (
          (pattern : String)
          → o ≡ some pattern
          → platform.re_search pattern (canonical_json (obj args)) ≡ ok true)
  unfolding args_fit
  args_fit_iff none args = (λ h t e. cc, λ h. refl)
  args_fit_iff (some s) args = (λ h t e. rw (← some_inj.0 e) h, λ h. h s refl)

  host_fits_iff :
      (hosts : List String) (parts : String × String)
      → (not (contains hosts parts.0) ≡ true) ↔ (¬ Memᴰ parts.0 hosts)
  host_fits_iff hosts parts = (
    λ h m. ground (arith, h, (contains_iff hosts parts.0).1 m),
    λ h. elim (Bool-cases (contains hosts parts.0)) [
      | inl e ↦ absurd (h ((contains_iff hosts parts.0).0 e))
      | inr e ↦ rw e refl
    ],
  )

  domain_fits_sound :
      (hosts : List String) (args : Fields) (url : Option Value)
      → field_get? "url" args ≡ url
      → domain_fits platform (some hosts) url ≡ ok true
      → UnlistedHost hosts args
  unfolding domain_fits
  domain_fits_sound hosts args (some (str url)) e h =
      let (parts, found, passed) =
        >>=-eq-ok (platform.url_parts url) (λ ps. ok (not (contains hosts ps.0))) h in
      (url, parts, e, found, (host_fits_iff hosts parts).0 (ok_inj passed))
  domain_fits_sound hosts args _ e h = cc

  domain_fits_complete :
      (hosts : List String) (args : Fields)
      → UnlistedHost hosts args
      → domain_fits platform (some hosts) (field_get? "url" args) ≡ ok true
  unfolding domain_fits
  domain_fits_complete hosts args (url, parts, e, found, unlisted) =
      rw (e, found) (ap ok ((host_fits_iff hosts parts).1 unlisted))

  domain_fits_iff :
      (o : Option (List String)) (args : Fields)
      → (domain_fits platform o (field_get? "url" args) ≡ ok true)
        ↔ ((hosts : List String) → o ≡ some hosts → UnlistedHost hosts args)
  unfolding domain_fits
  domain_fits_iff none args = (λ h hosts e. cc, λ h. refl)
  domain_fits_iff (some hosts) args = (
    λ h hs e. rw (← some_inj.0 e) (domain_fits_sound hosts args (field_get? "url" args) refl h),
    λ h. domain_fits_complete hosts args (h hosts refl),
  )

  rule_matches-eq_ok :
      (rule : PolicyRule) (tool : String) (args : Fields)
      → rule_matches platform rule tool args ≡ ok true
      → (tool_fits rule.tool tool ≡ true)
        × (args_fit platform rule.args_regex args ≡ ok true)
        × (domain_fits platform rule.domain_not_in (field_get? "url" args) ≡ ok true)
  unfolding rule_matches
  rule_matches-eq_ok rule tool args h =
      all_pass (tool_fits rule.tool tool) (args_fit platform rule.args_regex args)
        (domain_fits platform rule.domain_not_in (field_get? "url" args)) h

  -- The code's tests pass exactly when the rule matches by the documented meaning of its fields.
  pub rule_matches_iff :
      (rule : PolicyRule) (tool : String) (args : Fields)
      → (rule_matches platform rule tool args ≡ ok true) ↔ Matches rule tool args
  unfolding rule_matches
  rule_matches_iff rule tool args = (
    λ h.
        let (t, a, d) = rule_matches-eq_ok rule tool args h in
        record {
          tool_named = (tool_fits_iff rule.tool tool).0 t;
          regex_found = (args_fit_iff rule.args_regex args).0 a;
          host_unlisted = (domain_fits_iff rule.domain_not_in args).0 d;
        },
    λ m.
        rw
          (
            (tool_fits_iff rule.tool tool).1 m.tool_named,
            (args_fit_iff rule.args_regex args).1 m.regex_found,
          )
          ((domain_fits_iff rule.domain_not_in args).1 m.host_unlisted),
  )

module _ (platform : Platform) (tool : String) (args : Fields) where
  -- Which rule decides: the first that matches, the rules before it not matching.
  pub data FirstMatch : List PolicyRule → Option PolicyRule → Type 0 where
    exhausted : FirstMatch [] none
    decides :
        {rule : PolicyRule} {rules : List PolicyRule}
        → Matches platform rule tool args
        → FirstMatch (rule ∷ rules) (some rule)
    passes :
        {rule : PolicyRule} {rules : List PolicyRule} {found : Option PolicyRule}
        → ¬ Matches platform rule tool args
        → FirstMatch rules found
        → FirstMatch (rule ∷ rules) found

  abbrev pub decision_by : Decision → Option PolicyRule → Decision
  decision_by default none = default
  decision_by default (some rule) = rule.action

  abbrev Explained : Decision → List PolicyRule → Decision × Option PolicyRule × String → Type 0
  Explained default rules verdict =
      FirstMatch rules verdict.1 × (verdict.0 ≡ decision_by default verdict.1)

  Explained-step :
      (default : Decision) (rule : PolicyRule) (rules : List PolicyRule)
      (verdict : Decision × Option PolicyRule × String) (fits : Bool)
      → rule_matches platform rule tool args ≡ ok fits
      → (evaluate_rules platform default rules tool args ≡ ok verdict
          → Explained default rules verdict)
      → (if fits
          then ok (rule.action, some rule, reason_for rule tool)
          else evaluate_rules platform default rules tool args)
        ≡ ok verdict
      → Explained default (rule ∷ rules) verdict
  Explained-step default rule rules verdict true e rest h =
      subst (Explained default (rule ∷ rules)) (ok_inj h)
        (decides ((rule_matches_iff platform rule tool args).0 e), refl)
  Explained-step default rule rules verdict false e rest h =
      let (first, decided) = rest h in
      (
        passes
            (λ m.
              absurd (false≢true (ok_inj (sym e ∙ (rule_matches_iff platform rule tool args).1 m))))
            first,
        decided,
      )

  explained :
      (default : Decision) (rules : List PolicyRule)
      (verdict : Decision × Option PolicyRule × String)
      → evaluate_rules platform default rules tool args ≡ ok verdict
      → Explained default rules verdict
  unfolding evaluate_rules
  explained default [] verdict h = subst (Explained default []) (ok_inj h) (exhausted, refl)
  explained default (rule ∷ rules) verdict h =
      let (fits, e, k) = >>=-eq-ok (rule_matches platform rule tool args) _ h in
      Explained-step default rule rules verdict fits e (explained default rules verdict) k

  -- An evaluation that returns has found the first matching rule of the bundle, by the documented
  -- meaning of a match, and decides by its action; it decides by the default, and names no rule,
  -- exactly when no rule matches.
  pub evaluate_first :
      (policy : Policy) {decision : Decision} {found : Option PolicyRule} {reason : String}
      → evaluate platform policy tool args ≡ ok (decision, found, reason)
      → FirstMatch policy.rules found × (decision ≡ decision_by policy.default found)
  unfolding evaluate
  evaluate_first policy {decision} {found} {reason} h =
      explained policy.default policy.rules (decision, found, reason) h
