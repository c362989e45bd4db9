-- ===== src/Clinic/Chain.antt =====
-- packages/clinic/src/wutai_clinic/evidence/chain.py: nodes of evidence, the order of their
-- dependencies, their gates and their reports. The files that a node reads are an interface.
pub mod Visit
pub mod Order
pub mod Results
pub mod Reports
use agent_runtime_observator.Prelude.{
  ℕ, zero, suc, Bool, true, false, not, ◌&&◌, ◌||◌, String, Option, none, some, List, [], ◌∷◌, ◌++◌,
  map, keep, length, str_eq, contains, is_none, dict_get?, dict_put, if◌then◌else◌,
}
use agent_runtime_observator.Text.{◌⁀◌, is_empty}
use agent_runtime_observator.Outcome.{
  Outcome, ok, tool_error, fault, key_error, value_error, recursion_error, ◌>>=◌,
}
use agent_runtime_observator.Json.{Fields, end}

pub record Gate : Type 0 where
  pub name : String
  pub check : Fields → Outcome Bool
  pub description : String

pub record EvidenceNode : Type 0 where
  pub phase_id : String
  pub inputs : List String
  pub outputs : List String
  pub gates : List Gate
  pub decision : String
  pub node_id : String
  pub upstream : List String
  pub input_hashes : List (String × String)

-- `EvidenceNode.key`
unfoldable pub node_key : EvidenceNode → String
unfolding is_empty
node_key node = if is_empty node.node_id then node.phase_id else node.node_id

-- `{node.key: node for node in nodes}.get(k)`: the last node of a key.
unfoldable pub by_key : List EvidenceNode → String → Option EvidenceNode
unfolding node_key
by_key [] k = none
by_key (node ∷ nodes) k = elim (by_key nodes k) [
  | some later ↦ some later
  | none ↦ if str_eq (node_key node) k then some node else none
]

-- The three variables that `visit` closes over.
pub record Search : Type 0 where
  pub ordered : List EvidenceNode
  pub temporary : List String
  pub permanent : List String

abbrev pub no_search : Search
no_search = record { ordered = []; temporary = []; permanent = [] }

unfoldable pub enter : String → Search → Search
enter k s = record { ordered = s.ordered; temporary = k ∷ s.temporary; permanent = s.permanent }

unfoldable pub leave : EvidenceNode → Search → Search
unfolding node_key
leave node s = record {
  ordered = s.ordered ++ node ∷ [];
  temporary = keep (λ k. not (str_eq k (node_key node))) s.temporary;
  permanent = s.permanent ++ node_key node ∷ [];
}

module _ (nodes : List EvidenceNode) where
  -- The loop over the keys upstream, where `visit_node` is the recursive call.
  unfoldable pub visit_upstream :
      (EvidenceNode → Search → Outcome Search) → List String → Search → Outcome Search
  unfolding by_key
  visit_upstream visit_node [] s = ok s
  visit_upstream visit_node (k ∷ ks) s = elim (by_key nodes k) [
    | none ↦ fault (key_error ("Unknown upstream evidence node: " ⁀ k))
    | some node ↦ visit_node node s >>= λ visited. visit_upstream visit_node ks visited
  ]

  -- `visit`, where the first argument is the number of nested calls that the interpreter allows.
  unfoldable pub visit : ℕ → EvidenceNode → Search → Outcome Search
  unfolding visit_upstream enter leave
  visit zero node s = fault recursion_error
  visit (suc depth) node s = elim (contains s.permanent (node_key node)) [
    | true ↦ ok s
    | false ↦ elim (contains s.temporary (node_key node)) [
      | true ↦ fault (value_error ("Evidence cycle detected at " ⁀ node_key node))
      | false ↦ visit_upstream (visit depth) node.upstream (enter (node_key node) s) >>= λ inner.
          ok (leave node inner)
    ]
  ]

  unfoldable pub visit_all : ℕ → List EvidenceNode → Search → Outcome Search
  unfolding visit
  visit_all depth [] s = ok s
  visit_all depth (node ∷ rest) s = visit depth node s >>= λ visited. visit_all depth rest visited

  -- `EvidenceChain.topological_order`, with the number of calls of `visit` that the recursion limit of
  -- the interpreter leaves.
  unfoldable pub topological_order : ℕ → Outcome (List EvidenceNode)
  unfolding visit_all
  topological_order frames = visit_all frames nodes no_search >>= λ s. ok s.ordered

-- `EvidenceChain.run_gates`, where every exception of a check counts as False.
unfoldable pub gate_holds : Gate → Fields → Bool
gate_holds gate context = elim (gate.check context) [ ok held ↦ held | _ ↦ false ]

unfoldable pub gates_from : Fields → List Gate → List (String × Bool) → List (String × Bool)
unfolding gate_holds
gates_from context [] results = results
gates_from context (gate ∷ gates) results =
    gates_from context gates (dict_put gate.name (gate_holds gate context) results)

unfoldable pub run_gates : EvidenceNode → Fields → List (String × Bool)
unfolding gates_from
run_gates node context = gates_from context node.gates []

pub record Report : Type 0 where
  pub phase : String
  pub node_id : String
  pub decision : String
  pub inputs : List String
  pub outputs : List String
  pub gates : List (String × Bool)
  pub passed : Bool
  pub blocking_failures : List String

-- `[name for name, passed in gate_results.items() if not passed]`
unfoldable pub blocking : List (String × Bool) → List String
blocking [] = []
blocking ((name, held) ∷ results) =
    let rest = blocking results in if held then rest else name ∷ rest

unfoldable pub none_blocking : List String → Bool
none_blocking [] = true
none_blocking (_ ∷ _) = false

unfoldable pub emit_report : EvidenceNode → List (String × Bool) → Report
unfolding node_key blocking none_blocking
emit_report node results = record {
  phase = node.phase_id;
  node_id = node_key node;
  decision = node.decision;
  inputs = node.inputs;
  outputs = node.outputs;
  gates = results;
  passed = none_blocking (blocking results);
  blocking_failures = blocking results;
}

abbrev pub Reports : Type 0
Reports = List (String × Report)

-- The files that a node names: `exists`, `as_posix` and `sha256_file` of a path.
pub record Disk : Type 0 where
  pub exists : String → Bool
  pub posix : String → String
  pub file_digest : String → Outcome String

-- `d.get(a) or d.get(b)`, as a text that may be empty
unfoldable pub expected_hash : Disk → EvidenceNode → String → String
unfolding is_empty
expected_hash disk node raw = elim (dict_get? raw node.input_hashes) [
  | some h ↦ if is_empty h then by_posix else h
  | none ↦ by_posix
]
  where
    by_posix : String
    by_posix = elim (dict_get? (disk.posix raw) node.input_hashes) [ some h ↦ h | none ↦ "" ]

-- `d.update(entries)`
unfoldable pub put_all : List (String × Bool) → List (String × Bool) → List (String × Bool)
put_all [] d = d
put_all ((k, v) ∷ more) d = put_all more (dict_put k v d)

-- `{"upstream": upstream_passed, **gate_results}`
unfoldable pub with_upstream : Bool → List (String × Bool) → List (String × Bool)
unfolding put_all
with_upstream held results = put_all results (("upstream", held) ∷ [])

unfoldable pub some_text : List String → Bool
some_text [] = false
some_text (_ ∷ _) = true

unfoldable pub has_upstream : EvidenceNode → Bool
unfolding some_text
has_upstream node = some_text node.inputs || some_text node.upstream

-- `context_by_node.get(key, {})`
unfoldable pub context_of : List (String × Fields) → String → Fields
context_of contexts k = elim (dict_get? k contexts) [ some context ↦ context | none ↦ end ]

-- The loop over the keys upstream: a report that is there must have passed.
unfoldable pub reports_passed : Reports → List String → Bool
reports_passed reports [] = true
reports_passed reports (k ∷ ks) = elim (dict_get? k reports) [
  | some report ↦ if report.passed then reports_passed reports ks else false
  | none ↦ reports_passed reports ks
]

module _ (disk : Disk) where
  -- The loop over the inputs of `verify_upstream`; the digest is read only if one is expected.
  unfoldable pub inputs_verified : EvidenceNode → List String → Outcome Bool
  unfolding expected_hash is_empty
  inputs_verified node [] = ok true
  inputs_verified node (raw ∷ raws) =
      let expected = expected_hash disk node raw in
      elim (disk.exists raw) [
        | false ↦ ok false
        | true ↦ elim (is_empty expected) [
          | true ↦ inputs_verified node raws
          | false ↦ disk.file_digest raw >>= λ digest. elim (str_eq digest expected) [
            | true ↦ inputs_verified node raws
            | false ↦ ok false
          ]
        ]
      ]

  unfoldable pub verify_upstream : EvidenceNode → Reports → Outcome Bool
  unfolding inputs_verified reports_passed
  verify_upstream node reports = inputs_verified node node.inputs >>= λ inputs_hold.
      ok (inputs_hold && reports_passed reports node.upstream)

  -- `EvidenceChain.run_node`, with `_last_reports` after it.
  unfoldable pub run_node : EvidenceNode → Fields → Reports → Outcome (Report × Reports)
  unfolding verify_upstream run_gates has_upstream with_upstream emit_report
  run_node node context reports = verify_upstream node reports >>= λ verified.
      let results = run_gates node context in
      let shown = if has_upstream node then with_upstream verified results else results in
      let report = emit_report node shown in ok (report, dict_put (node_key node) report reports)

  unfoldable pub run_ordered :
      List (String × Fields) → List EvidenceNode → Reports → Reports → Outcome (Reports × Reports)
  unfolding run_node context_of
  run_ordered contexts [] reports kept = ok (reports, kept)
  run_ordered contexts (node ∷ rest) reports kept =
      run_node node (context_of contexts (node_key node)) kept >>= λ ran.
      run_ordered contexts rest (dict_put (node_key node) ran.0 reports) ran.1

  -- `EvidenceChain.run_all`: the reports, and `_last_reports` after it.
  unfoldable pub run_all :
      List EvidenceNode → ℕ → List (String × Fields) → Reports → Outcome (Reports × Reports)
  unfolding topological_order run_ordered
  run_all nodes frames contexts kept =
      topological_order nodes frames >>= λ ordered. run_ordered contexts ordered [] kept
