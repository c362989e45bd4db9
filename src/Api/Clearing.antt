-- ===== src/Api/Clearing.antt =====
-- What a posted attestation does: it clears the debt that it names, or it changes nothing.
use mathlib.Core.Path.{subst}
use mathlib.Core.Option.{some_inj}
use mathlib.Core.List.{Memᴰ}
use mathlib.Core.List.Memᴰ as Mem
use agent_runtime_observator.Prelude.{
  ℕ, ◌≡◌, ◌≢◌, refl, sym, ap, ◌∙◌, ◌⊎◌, inl, inr, Bool, true, false, ◌||◌, String, Option, none,
  some, List, [], ◌∷◌, ◌++◌, arith, keep, contains, contains_iff, leb, str_eq, str_eq_refl, eq_iff,
  Bool-cases, if◌then◌else◌,
}
use agent_runtime_observator.Platform.{Platform}
use agent_runtime_observator.Schema.Models.{AttestationDecision, accept, amend, reject}
use agent_runtime_observator.Schema.Models.Run.{AgentRun}
use agent_runtime_observator.Schema.Models.Governance.{
  Attestation, ReviewDebtItem, is_signed, cleared,
}
use agent_runtime_observator.Schema.Subject.{subject_schema_version, run_subject_digest}
use agent_runtime_observator.Schema.Subject.Laws.{ReadsVersion}
use agent_runtime_observator.Schema.ReviewDebt.{is_reject, compute_review_debt}
use agent_runtime_observator.Schema.ReviewDebt.Clearing.{cleared_iff}
use agent_runtime_observator.Runtime.Store.{
  Store, RunRow, AttestationRow, get_run, insert_by_time, by_time, save_attestation,
  list_attestations,
}
use agent_runtime_observator.Api.{
  Reply, reply, http_error, server_error, CreateAttestationRequest, Wording, dedup_from, dedup,
  clears_error, refused, digest_of, attestation_of, attest, attest_run, create_attestation,
}

mem-insert_by_time :
    (x row : AttestationRow) (rows : List AttestationRow)
    → Memᴰ x (row ∷ rows)
    → Memᴰ x (insert_by_time row rows)
unfolding insert_by_time
mem-insert_by_time x row [] m = m
mem-insert_by_time x row (other ∷ rows) m =
    elim (Bool-cases (leb row.created_at other.created_at)) [
      | inl e ↦ rw e m
      | inr e ↦ rw e (elim (Mem.cases_cons m) [
        | inl same ↦ Memᴰ.tail (mem-insert_by_time x row rows (Memᴰ.head same))
        | inr t ↦ elim (Mem.cases_cons t) [
          | inl same ↦ Memᴰ.head same
          | inr u ↦ Memᴰ.tail (mem-insert_by_time x row rows (Memᴰ.tail u))
        ]
      ])
    ]

mem-by_time :
    (x : AttestationRow) (rows : List AttestationRow) → Memᴰ x rows → Memᴰ x (by_time rows)
unfolding by_time
mem-by_time x [] m = elim m [ ]
mem-by_time x (row ∷ rows) m = elim (Mem.cases_cons m) [
  | inl same ↦ mem-insert_by_time x row (by_time rows) (Memᴰ.head same)
  | inr t ↦ mem-insert_by_time x row (by_time rows) (Memᴰ.tail (mem-by_time x rows t))
]

-- The last of a list stays if it passes.
mem-keep-last :
    (p : AttestationRow → Bool) (rows : List AttestationRow) (x : AttestationRow)
    → p x ≡ true
    → Memᴰ x (keep p (rows ++ x ∷ []))
mem-keep-last p [] x h = rw h (Memᴰ.head refl)
mem-keep-last p (row ∷ rows) x h = elim (Bool-cases (p row)) [
  | inl e ↦ rw e (Memᴰ.tail (mem-keep-last p rows x h))
  | inr e ↦ rw e (mem-keep-last p rows x h)
]

mem-list_attestations :
    (now : ℕ) (a : Attestation) (s : Store)
    → Memᴰ a (list_attestations a.run_id (save_attestation now a s))
unfolding list_attestations save_attestation
mem-list_attestations now a s =
    let row : AttestationRow = record {
      id = a.id;
      run_id = a.run_id;
      created_at = now;
      payload = a;
    } in
    Mem.map (λ (r : AttestationRow). r.payload)
      (mem-by_time row _ (
        mem-keep-last (λ (r : AttestationRow). str_eq r.run_id a.run_id) _ row
          (str_eq_refl a.run_id)))

contains-dedup_from :
    (seen xs : List String) (d : String)
    → contains xs d ≡ true
    → (contains seen d || contains (dedup_from seen xs) d) ≡ true
unfolding dedup_from
contains-dedup_from seen [] d h = cc h
contains-dedup_from seen (x ∷ xs) d h = elim (Bool-cases (str_eq x d)) [
  | inl e ↦ first (contains seen x) refl e
  | inr e ↦
      let rest = contains-dedup_from (x ∷ seen) xs d (ground (arith, h, e)) in
      ground (arith, rest, e)
]
  where
    first :
        (b : Bool)
        → contains seen x ≡ b
        → str_eq x d ≡ true
        → (contains seen d
            || contains (if b then dedup_from (x ∷ seen) xs else x ∷ dedup_from (x ∷ seen) xs) d)
          ≡ true
    first true k e = rw (sym (ap (contains seen) ((eq_iff x d).0 e)) ∙ k) refl
    first false k e = ground (arith, e)

mem-dedup : (xs : List String) (d : String) → Memᴰ d xs → Memᴰ d (dedup xs)
unfolding dedup
mem-dedup xs d m =
    (contains_iff (dedup xs) d).0 (contains-dedup_from [] xs d ((contains_iff xs d).1 m))

not_reject : (decision : AttestationDecision) → is_reject decision ≡ false → decision ≢ reject
not_reject accept h e = cc e
not_reject amend h e = cc e
not_reject reject h e = cc h

clearing_decision :
    (wording : Wording) (run_id : String) (run : AgentRun) (request : CreateAttestationRequest)
    (clears : List String) (d : String)
    → Memᴰ d clears
    → refused wording run_id run request clears ≡ none
    → is_reject request.decision ≡ false
unfolding refused clears_error
clearing_decision wording run_id run request [] d m h = elim m [ ]
clearing_decision wording run_id run request (x ∷ clears) d m h = ground (arith, h)

module _ (platform : Platform) (wording : Wording) (id : String) (now : ℕ) (run_id : String)
    (request : CreateAttestationRequest) (s : Store) where
  abbrev clears : List String
  clears = dedup request.clears_decisions

  -- What each kind of answer says of the store.
  abbrev pub Responds : Reply Attestation × Store → Type 0
  Responds (reply a, s') =
      (row : RunRow) × (get_run run_id s ≡ some row)
      × (refused wording run_id row.run request (dedup request.clears_decisions) ≡ none)
      × (a ≡ attestation_of platform id now run_id row.run request (dedup request.clears_decisions))
      × (is_signed a ≡ true)
      × (s' ≡ save_attestation now a s)
  Responds (http_error status detail, s') = ((status ≡ 404) ⊎ (status ≡ 422)) × (s' ≡ s)
  Responds (server_error fault, s') = ⊥

  attest-Responds :
      (row : RunRow)
      → get_run run_id s ≡ some row
      → refused wording run_id row.run request clears ≡ none
      → Responds (
          attest platform wording
            (attestation_of platform id now run_id row.run request clears)
            now
            s)
  unfolding attest
  attest-Responds row there allowed =
      let a : Attestation = attestation_of platform id now run_id row.run request clears in
      elim (Bool-cases (is_signed a)) [
        | inl e ↦ rw e (row, there, allowed, refl, e, refl)
        | inr e ↦ rw e (inr refl, refl)
      ]

  refused_status :
      (run : AgentRun) {status : ℕ} {detail : String}
      → refused wording run_id run request clears ≡ some (status, detail)
      → status ≡ 422
  unfolding refused clears_error
  refused_status run h = go clears h
    where
      go :
          (xs : List String) {status : ℕ} {detail : String}
          → refused wording run_id run request xs ≡ some (status, detail)
          → status ≡ 422
      go [] h = ground (arith, h)
      go (x ∷ xs) h = ground (arith, h)

  -- The route either refuses, with status 404 or 422, and leaves the store as it was; or the run is
  -- there, none of the checks on the seat, the decision and the named debt fails, and the answer is
  -- the signed attestation to the run as it stands, which is the one thing that the store gains.
  pub create_attestation-Responds :
      Responds (create_attestation platform wording id now run_id request s)
  unfolding create_attestation attest_run
  create_attestation-Responds = go (get_run run_id s) refl
    where
      checked :
          (row : RunRow)
          → get_run run_id s ≡ some row
          → (o : Option (ℕ × String)) → refused wording run_id row.run request clears ≡ o
          → Responds (elim o [
            | some (status, detail) ↦ (http_error status detail, s)
            | none ↦
                attest platform wording
                  (attestation_of platform id now run_id row.run request clears)
                  now
                  s
          ])
      checked row e none allowed = attest-Responds row e allowed
      checked row e (some (status, detail)) bad = (inr (refused_status row.run bad), refl)

      go :
          (o : Option RunRow)
          → get_run run_id s ≡ o
          → Responds (attest_run platform wording id now run_id request o s)
      go none e = (inl refl, refl)
      go (some row) e = checked row e (refused wording run_id row.run request clears) refl

  named_clears :
      (row : RunRow) (a : Attestation) (d : String)
      → refused wording run_id row.run request clears ≡ none
      → a ≡ attestation_of platform id now run_id row.run request clears
      → Memᴰ d request.clears_decisions
      → (a.decision ≢ reject)
        × (run_subject_digest platform row.run subject_schema_version ≡ some a.subject_digest)
        × Memᴰ d a.clears_decisions
  unfolding attestation_of digest_of run_subject_digest
  named_clears row a d allowed same named =
      let found = mem-dedup request.clears_decisions d named in
      rw same (
        not_reject request.decision
            (clearing_decision wording run_id row.run request clears d found allowed),
        refl,
        found,
      )

  -- A decision that an accepted request names is cleared at once: in the debt of the same run,
  -- computed from the attestations that the store then holds, every item for it is cleared.
  pub create_attestation-cleared :
      (reads : ReadsVersion platform) {a : Attestation} {s' : Store} {row : RunRow}
      {item : ReviewDebtItem}
      → create_attestation platform wording id now run_id request s ≡ (reply a, s')
      → get_run run_id s ≡ some row
      → Memᴰ item.decision_id request.clears_decisions
      → Memᴰ item (compute_review_debt platform row.run (list_attestations run_id s'))
      → item.status ≡ cleared
  unfolding attestation_of
  create_attestation-cleared reads {a} {s'} {row} {item} answered there named debt =
      let (row', there', allowed, same, signed, saved) =
        subst Responds answered create_attestation-Responds in
      let one : row' ≡ row = some_inj.0 (sym there' ∙ there) in
      let listed : Memᴰ a (list_attestations run_id s') =
        subst (λ t. Memᴰ a (list_attestations run_id t)) (sym saved)
          (subst (λ r. Memᴰ a (list_attestations r (save_attestation now a s)))
            (ap (λ (x : Attestation). x.run_id) same) (mem-list_attestations now a s)) in
      (cleared_iff platform reads row.run (list_attestations run_id s') debt).1 (
        a,
        listed,
        subst
            (λ (r : RunRow).
              (a.decision ≢ reject)
              × (run_subject_digest platform r.run subject_schema_version ≡ some a.subject_digest)
              × Memᴰ item.decision_id a.clears_decisions)
            one (named_clears row' a item.decision_id allowed same named),
      )
