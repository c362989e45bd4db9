-- ===== src/Clinic/Chain/Reports.antt =====
-- Proofs about `run_all` of packages/clinic/src/wutai_clinic/evidence/chain.py: what the reports of
-- a chain's nodes say about their gates, their inputs and what is upstream of them.
use mathlib.Core.Path.{subst}
use mathlib.Core.List.{Memᴰ}
use agent_runtime_observator.Prelude.{
  ℕ, ◌≡◌, refl, sym, ap, ◌∙◌, ◌↔◌, inl, inr, Bool, true, false, ◌&&◌, ◌||◌, String, some, List, [],
  ◌∷◌, map, All, All-map, All_elim, contains, all_distinct, arith, str_eq, eq_iff, Bool-cases,
  dict_get?, dict_put, get-put_same, get-put_other, if◌then◌else◌,
}
use agent_runtime_observator.Outcome.{ok, >>=-eq-ok, ok_inj}
use agent_runtime_observator.Json.{Fields}
use agent_runtime_observator.Clinic.Chain.{
  EvidenceNode, Report, Reports, Disk, node_key, gate_holds, run_gates, emit_report,
  inputs_verified, reports_passed, verify_upstream, with_upstream, some_text, has_upstream,
  run_node, context_of, run_ordered, run_all, topological_order,
}
use agent_runtime_observator.Clinic.Chain.Visit.{UpstreamFirst}
use agent_runtime_observator.Clinic.Chain.Order.{topological_order-IsOrder}
use agent_runtime_observator.Clinic.Chain.Results.{
  HasOwnNames, emit_report-passed, result_of, run_gates-eq, with_upstream-eq, all_hold,
}

-- A report that is there and has passed.
abbrev pub PassedIn : Reports → String → Type 0
PassedIn reports k = (r : Report) × (dict_get? k reports ≡ some r) × (r.passed ≡ true)

-- The gates of the node hold, its inputs are as expected, and what is upstream of it passed.
abbrev pub IsClear : Disk → List (String × Fields) → Reports → EvidenceNode → Type 0
IsClear disk contexts reports n =
    All (λ g. gate_holds g (context_of contexts (node_key n)) ≡ true) n.gates
    × (inputs_verified disk n n.inputs ≡ ok true)
    × All (PassedIn reports) n.upstream

-- The node has a report, which passed exactly if the node is clear.
abbrev pub IsReported : Disk → List (String × Fields) → Reports → EvidenceNode → Type 0
IsReported disk contexts reports n =
    (r : Report) × (dict_get? (node_key n) reports ≡ some r)
    × ((r.passed ≡ true) ↔ IsClear disk contexts reports n)

-- What the loop knows of the keys it has seen: both dicts hold the same report.
abbrev Agrees : List String → Reports → Reports → Type 0
Agrees seen reports kept =
    (k : String)
    → contains seen k ≡ true
    → (r : Report) × (dict_get? k reports ≡ some r) × (dict_get? k kept ≡ some r)

-- The keys seen have passed in one dict exactly if they have in the other.
reports_passed_iff :
    (kept final : Reports) (ks : List String)
    → All (λ k. (r : Report) × (dict_get? k final ≡ some r) × (dict_get? k kept ≡ some r)) ks
    → (reports_passed kept ks ≡ true) ↔ All (PassedIn final) ks
unfolding reports_passed
reports_passed_iff kept final [] h = (λ e. tt, λ e. refl)
reports_passed_iff kept final (k ∷ ks) ((r, now, old), h) =
    let rest = reports_passed_iff kept final ks h in
    (
      λ e. elim (Bool-cases r.passed) [
        | inl p ↦ ((r, now, p), rest.0 (rw (old, p, reports_passed) at e))
        | inr p ↦ cc (rw (old, p, reports_passed) at e)
      ],
      λ ((r', now', p), more).
          let same : r ≡ r' = cc (sym now ∙ now') in
          let passed : r.passed ≡ true = ap (λ (x : Report). x.passed) same ∙ p in
          rw (old, passed, reports_passed) (rest.1 more),
    )

Agrees-put :
    (k : String) (new : Report) (seen : List String) (reports kept : Reports)
    → Agrees seen reports kept
    → Agrees (k ∷ seen) (dict_put k new reports) (dict_put k new kept)
Agrees-put k new seen reports kept agree j e = elim (Bool-cases (str_eq k j)) [
  | inl same ↦
      let here = (eq_iff k j).0 same in
      (
        new,
        ap (λ i. dict_get? i (dict_put k new reports)) (sym here) ∙ get-put_same k new reports,
        ap (λ i. dict_get? i (dict_put k new kept)) (sym here) ∙ get-put_same k new kept,
      )
  | inr apart ↦
      let (r, now, old) = agree j (ground (arith, e, apart)) in
      (r, get-put_other k j new reports apart ∙ now, get-put_other k j new kept apart ∙ old)
]

-- A text that is seen is none of those that are not.
not_among :
    (seen : List String) (j : String) (ks : List String)
    → contains seen j ≡ true
    → All (λ k. contains seen k ≡ false) ks
    → contains ks j ≡ false
not_among seen j [] e h = refl
not_among seen j (k ∷ ks) e (a, h) = ground (arith, e, a, eq_iff k j, not_among seen j ks e h)

all_new : (ks : List String) → All (λ k. contains [] k ≡ false) ks
all_new [] = tt
all_new (k ∷ ks) = (refl, all_new ks)

still_new :
    (seen : List String) (k : String) (ks : List String)
    → contains ks k ≡ false
    → All (λ j. contains seen j ≡ false) ks
    → All (λ j. contains (k ∷ seen) j ≡ false) ks
still_new seen k [] e h = tt
still_new seen k (j ∷ ks) e (a, h) =
    (ground (arith, e, a, eq_iff k j, eq_iff j k), still_new seen k ks (ground (arith, e)) h)

module _ (disk : Disk) where
  no_inputs :
      (n : EvidenceNode)
      → has_upstream n ≡ false
      → (inputs_verified disk n n.inputs ≡ ok true) × (n.upstream ≡ [])
  unfolding has_upstream inputs_verified
  no_inputs n h = both n.inputs n.upstream h
    where
      both :
          (xs ys : List String)
          → (some_text xs || some_text ys) ≡ false
          → (inputs_verified disk n xs ≡ ok true) × (ys ≡ [])
      both [] [] h = (refl, refl)
      both [] (y ∷ ys) h = cc
      both (x ∷ xs) ys h = cc

  -- What `verify_upstream` says, where it returns.
  verified_iff :
      (n : EvidenceNode) (kept final : Reports) (v : Bool)
      → All
          (λ k. (r : Report) × (dict_get? k final ≡ some r) × (dict_get? k kept ≡ some r))
          n.upstream
      → verify_upstream disk n kept ≡ ok v
      → (v ≡ true) ↔ ((inputs_verified disk n n.inputs ≡ ok true) × All (PassedIn final) n.upstream)
  unfolding verify_upstream
  verified_iff n kept final v agree h =
      let rp = reports_passed kept n.upstream in
      let (held, ran, same) = >>=-eq-ok (inputs_verified disk n n.inputs) (λ b. ok (b && rp)) h in
      let both : (held && rp) ≡ v = ok_inj same in
      let iff = reports_passed_iff kept final n.upstream agree in
      (
        λ e. (
          ran ∙ ap (λ (b : Bool). ok b) (ground (arith, both, e)),
          iff.0 (ground (arith, both, e)),
        ),
        λ (inputs_hold, passed).
            let one : held ≡ true = ok_inj (sym ran ∙ inputs_hold) in
            let two : rp ≡ true = iff.1 passed in ground (arith, both, one, two),
      )

  -- The report of a node is kept under its key.
  run_node-put :
      (n : EvidenceNode) (context : Fields) (kept : Reports) (ran : Report × Reports)
      → run_node disk n context kept ≡ ok ran
      → ran.1 ≡ dict_put (node_key n) ran.0 kept
  unfolding run_node
  run_node-put n context kept ran h =
      let (v, verified, same) =
        >>=-eq-ok (verify_upstream disk n kept)
          (λ v.
            let results = run_gates n context in
            let shown = if has_upstream n then with_upstream v results else results in
            let report = emit_report n shown in ok (report, dict_put (node_key n) report kept))
          h in
      ap (λ (p : Report × Reports). p.1) (sym (ok_inj same))
      ∙ ap (λ (p : Report × Reports). dict_put (node_key n) p.0 kept) (ok_inj same)

  -- The report of a node, against the dict in which its upstream's reports end.
  run_node-passed :
      (contexts : List (String × Fields)) (n : EvidenceNode) (kept final : Reports)
      (ran : Report × Reports)
      → HasOwnNames n
      → All
          (λ k. (r : Report) × (dict_get? k final ≡ some r) × (dict_get? k kept ≡ some r))
          n.upstream
      → run_node disk n (context_of contexts (node_key n)) kept ≡ ok ran
      → (ran.0.passed ≡ true) ↔ IsClear disk contexts final n
  unfolding run_node
  run_node-passed contexts n kept final ran own agree h =
      let context = context_of contexts (node_key n) in
      let gates_iff = all_hold context n.gates in
      let (v, verified, same) =
        >>=-eq-ok (verify_upstream disk n kept)
          (λ v.
            let results = run_gates n context in
            let shown = if has_upstream n then with_upstream v results else results in
            let report = emit_report n shown in ok (report, dict_put (node_key n) report kept))
          h in
      let pair = ok_inj same in
      let iff = verified_iff n kept final v agree verified in
      let choose =
        λ (b : Bool). if b then with_upstream v (run_gates n context) else run_gates n context in
      let shown_passed : (results : List (String × Bool))
          → (if has_upstream n then with_upstream v (run_gates n context) else run_gates n context)
            ≡ results
          → ran.0.passed ≡ (emit_report n results).passed =
        λ results e.
          ap (λ (p : Report × Reports). p.0.passed) (sym pair)
          ∙ ap (λ rs. (emit_report n rs).passed) e in
      elim (Bool-cases (has_upstream n)) [
        | inl e ↦
            let results = ("upstream", v) ∷ map (result_of context) n.gates in
            let passes = emit_report-passed n results in
            let same_passed =
              shown_passed results (ap choose e ∙ with_upstream-eq context n v own) in
            (
              λ p.
                  let (held, gates) = passes.0 (sym same_passed ∙ p) in
                  let (inputs_hold, up) = iff.0 held in (gates_iff.0 gates, inputs_hold, up),
              λ (gates, inputs_hold, up).
                  same_passed ∙ passes.1 (iff.1 (inputs_hold, up), gates_iff.1 gates),
            )
        | inr e ↦
            let results = map (result_of context) n.gates in
            let passes = emit_report-passed n results in
            let same_passed = shown_passed results (ap choose e ∙ run_gates-eq context n own) in
            let (inputs_hold, empty) = no_inputs n e in
            (
              λ p. (
                gates_iff.0 (passes.0 (sym same_passed ∙ p)),
                inputs_hold,
                subst (All (PassedIn final)) (sym empty) tt,
              ),
              λ c. same_passed ∙ passes.1 (gates_iff.1 c.0),
            )
      ]

  -- The loop keeps the reports of the keys seen, and reports every other node.
  run_ordered-IsReported :
      (contexts : List (String × Fields)) (seen : List String) (ns : List EvidenceNode)
      (reports kept final kept' : Reports)
      → All HasOwnNames ns
      → UpstreamFirst seen ns
      → all_distinct (map node_key ns) ≡ true
      → All (λ k. contains seen k ≡ false) (map node_key ns)
      → Agrees seen reports kept
      → run_ordered disk contexts ns reports kept ≡ ok (final, kept')
      → All (IsReported disk contexts final) ns
        × ((k : String)
            → contains (map node_key ns) k ≡ false
            → dict_get? k final ≡ dict_get? k reports)
  unfolding run_ordered
  run_ordered-IsReported contexts seen [] reports kept final kept' own first apart new agree h =
      let same = ok_inj h in (tt, λ k e. ap (λ (p : Reports × Reports). dict_get? k p.0) (sym same))
  run_ordered-IsReported contexts seen (n ∷ ns) reports kept final kept' (own, owns) (up, first)
        apart (fresh, new) agree h =
      let k = node_key n in
      let (ran, one, more) =
        >>=-eq-ok (run_node disk n (context_of contexts k) kept)
          (λ ran. run_ordered disk contexts ns (dict_put k ran.0 reports) ran.1) h in
      let put = run_node-put n (context_of contexts k) kept ran one in
      let reports' = dict_put k ran.0 reports in
      let other : (j : String) → contains seen j ≡ true → str_eq k j ≡ false = λ j e.
        elim (Bool-cases (str_eq k j)) [
          | inl same ↦ cc (sym fresh ∙ ap (contains seen) ((eq_iff k j).0 same) ∙ e)
          | inr apart ↦ apart
        ] in
      let agree' : Agrees (k ∷ seen) reports' ran.1 =
        subst (Agrees (k ∷ seen) reports') (sym put) (Agrees-put k ran.0 seen reports kept agree) in
      let new' : All (λ j. contains (k ∷ seen) j ≡ false) (map node_key ns) =
        still_new seen k (map node_key ns) (ground (arith, apart)) new in
      let (reported, stays) =
        run_ordered-IsReported contexts (k ∷ seen) ns reports' ran.1 final kept' owns first
          (ground (arith, apart)) new' agree' more in
      let unseen : (j : String) → contains seen j ≡ true → contains (map node_key ns) j ≡ false =
        λ j e. not_among seen j (map node_key ns) e new in
      let here : dict_get? k final ≡ some ran.0 =
        stays k (ground (arith, apart)) ∙ get-put_same k ran.0 reports in
      let among =
        All-map (λ j. contains seen j ≡ true)
          (λ j. (r : Report) × (dict_get? j final ≡ some r) × (dict_get? j kept ≡ some r))
          n.upstream
          (λ j e.
            let (r, now, old) = agree j e in
            (r, stays j (unseen j e) ∙ get-put_other k j ran.0 reports (other j e) ∙ now, old))
          up in
      (
        ((ran.0, here, run_node-passed contexts n kept final ran own among one), reported),
        λ j e. stays j (ground (arith, e)) ∙ get-put_other k j ran.0 reports (ground (arith, e)),
      )

  -- If a run of the whole chain returns, every node of its order has a report, which passed
  -- exactly if the node's gates hold, its inputs are as expected, and the reports upstream of it
  -- passed. No gate may share its name with another of the node or be named "upstream".
  pub run_all-IsReported :
      (nodes : List EvidenceNode) (frames : ℕ) (contexts : List (String × Fields))
      (kept reports kept' : Reports)
      → All HasOwnNames nodes
      → run_all disk nodes frames contexts kept ≡ ok (reports, kept')
      → (ordered : List EvidenceNode) × (topological_order nodes frames ≡ ok ordered)
        × All (IsReported disk contexts reports) ordered
  unfolding run_all
  run_all-IsReported nodes frames contexts kept reports kept' own h =
      let (ordered, order, ran) =
        >>=-eq-ok (topological_order nodes frames) (λ o. run_ordered disk contexts o [] kept) h in
      let (first, apart, members, every) = topological_order-IsOrder nodes frames ordered order in
      let owns : All HasOwnNames ordered =
        All-map (λ n. Memᴰ n nodes) HasOwnNames ordered (λ n m. All_elim HasOwnNames nodes own m)
          members in
      (
        ordered,
        order,
        (run_ordered-IsReported contexts [] ordered [] kept reports kept' owns first apart
            (all_new (map node_key ordered)) (λ k e. cc) ran).0,
      )
