-- ===== src/Examples/Chains.antt =====
-- The theorems on evidence chains, at three nodes that are listed before what is upstream of them.
use agent_runtime_observator.Prelude.{
  ℕ, ◌≡◌, refl, Bool, true, false, String, List, [], ◌∷◌, arith, All, str_eq, if◌then◌else◌,
}
use agent_runtime_observator.Outcome.{ok, fault, value_error}
use agent_runtime_observator.Clinic.Chain.{
  Gate, EvidenceNode, Disk, Reports, Report, emit_report, by_key, topological_order, run_all,
}
use agent_runtime_observator.Clinic.Chain.Visit.{IsOrder}
use agent_runtime_observator.Clinic.Chain.Order.{
  Descends, topological_order-IsOrder, topological_order-returns,
}
use agent_runtime_observator.Clinic.Chain.Reports.{IsReported, run_all-IsReported}

abbrev holds : Gate
holds = record { name = "holds"; check = λ context. ok true; description = "" }

abbrev raises : Gate
raises = record { name = "raises"; check = λ context. fault (value_error "x"); description = "" }

abbrev node_of : String → List String → List Gate → EvidenceNode
node_of id upstream gates = record {
  phase_id = id;
  inputs = "in" ∷ [];
  outputs = [];
  gates = gates;
  decision = "d";
  node_id = "";
  upstream = upstream;
  input_hashes = ("in", "h") ∷ [];
}

abbrev first : EvidenceNode
first = node_of "first" [] (holds ∷ [])

abbrev second : EvidenceNode
second = node_of "second" ("first" ∷ []) (holds ∷ raises ∷ [])

abbrev third : EvidenceNode
third = node_of "third" ("second" ∷ "first" ∷ []) []

abbrev chain : List EvidenceNode
chain = third ∷ second ∷ first ∷ []

abbrev disk : Disk
disk = record { exists = λ path. true; posix = λ path. path; file_digest = λ path. ok "h" }

abbrev rank : String → ℕ
rank k = if str_eq k "third" then 2 else if str_eq k "second" then 1 else 0

chain-Descends : Descends rank chain
unfolding by_key
chain-Descends =
    (((refl, omega arith), ((refl, omega arith), tt)), (((refl, omega arith), tt), (tt, tt)))

abbrev report_of : EvidenceNode → List (String × Bool) → Report
report_of n results = emit_report n results

abbrev chain_reports : Reports
chain_reports =
    ("first", report_of first (("upstream", true) ∷ ("holds", true) ∷ []))
    ∷ ("second", report_of second (("upstream", true) ∷ ("holds", true) ∷ ("raises", false) ∷ []))
    ∷ ("third", report_of third (("upstream", false) ∷ []))
    ∷ []

cycle :
    topological_order (node_of "a" ("b" ∷ []) [] ∷ node_of "b" ("a" ∷ []) [] ∷ []) 100
    ≡ fault (value_error "Evidence cycle detected at a")
unfolding topological_order
cycle = refl

topological_order-returns_example :
    (ordered : List EvidenceNode) × (topological_order chain 100 ≡ ok ordered)
    × IsOrder chain ordered
topological_order-returns_example =
    topological_order-returns rank chain chain-Descends 100 (omega arith)

topological_order-IsOrder_example : IsOrder chain (first ∷ second ∷ third ∷ [])
unfolding topological_order
topological_order-IsOrder_example =
    topological_order-IsOrder chain 100 (first ∷ second ∷ third ∷ []) refl

run_all-IsReported_example :
    (ordered : List EvidenceNode) × (topological_order chain 100 ≡ ok ordered)
    × All (IsReported disk [] chain_reports) ordered
unfolding run_all
run_all-IsReported_example =
    run_all-IsReported disk chain 100 [] [] chain_reports chain_reports (refl, (refl, (refl, tt)))
      refl
