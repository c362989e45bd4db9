-- ===== src/Schema/Subject/Laws.antt =====
-- When an attestation's digest is fresh: exactly when it is the digest of the current version.
use Prim.Native.String.{◌∷◌ as cons_text}
use agent_runtime_observator.Prelude.{
  ℕ, ◌≡◌, sym, ap, ◌∙◌, ◌↔◌, inl, inr, true, String, none, some, arith, eq_iff, Option-cases,
}
use mathlib.Core.Option.{some_inj}
use agent_runtime_observator.Text.{char-append}
use agent_runtime_observator.Text.Decimal.{show_nat}
use agent_runtime_observator.Platform.{Platform}
use agent_runtime_observator.Json.{digest_obj}
use agent_runtime_observator.Schema.Models.Run.{AgentRun}
use agent_runtime_observator.Schema.Subject.{
  subject_v2, subject_schema_version, version_from, parse_version, run_subject_digest,
  matches_version, subject_matches,
}

-- `\d` accepts the digit 2 with its value, and no colon.
pub record ReadsVersion (platform : Platform) : Type 0 where
  pub two : platform.decimal_value "2" ≡ some 2
  pub colon : platform.decimal_value ":" ≡ none

module _ (platform : Platform) (run : AgentRun) where
  pub digest_v2 :
      run_subject_digest platform run 2
      ≡ some (cons_text "v" (cons_text "2" (cons_text ":" (digest_obj platform (subject_v2 run)))))
  unfolding run_subject_digest show_nat
  digest_v2 = ap some (
      char-append "v" _
      ∙ ap (cons_text "v") (char-append "2" _ ∙ ap (cons_text "2") (char-append ":" _)))

  matches_version-eq_some :
      (digest : String) (v : ℕ)
      → matches_version platform run digest v ≡ true
      → run_subject_digest platform run 2 ≡ some digest
  unfolding matches_version
  matches_version-eq_some digest v h = elim (Option-cases (run_subject_digest platform run v)) [
    | inl absent ↦ ground (arith, h, absent)
    | inr (d, found) ↦ ground (arith, h, found, eq_iff d digest)
  ]

module _ (platform : Platform) (reads : ReadsVersion platform) where
  parse_v2 :
      (rest : String)
      → parse_version platform (cons_text "v" (cons_text "2" (cons_text ":" rest))) ≡ some 2
  unfolding parse_version version_from
  parse_v2 rest = ground (arith, reads.two, reads.colon)

  parse-digest :
      (run : AgentRun) (digest : String)
      → run_subject_digest platform run 2 ≡ some digest
      → parse_version platform digest ≡ some 2
  parse-digest run digest h =
      rw (some_inj.0 (sym h ∙ digest_v2 platform run))
        (parse_v2 (digest_obj platform (subject_v2 run)))

  -- An attestation is fresh exactly when its digest is that of the current version of the subject:
  -- a digest with no version, with an unknown one or with version 1 is never fresh.
  pub subject_matches_iff :
      (run : AgentRun) (digest : String)
      → (subject_matches platform run digest ≡ true)
        ↔ (run_subject_digest platform run subject_schema_version ≡ some digest)
  unfolding subject_matches
  subject_matches_iff run digest = (
    λ h. elim (Option-cases (parse_version platform digest)) [
      | inl absent ↦ cc (h, absent)
      | inr (v, found) ↦ matches_version-eq_some platform run digest v (ground (arith, h, found))
    ],
    λ h. ground (arith, h, parse-digest run digest h, eq_iff digest digest),
  )
