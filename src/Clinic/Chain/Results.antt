-- ===== src/Clinic/Chain/Results.antt =====
-- The results of a node's gates in packages/clinic/src/wutai_clinic/evidence/chain.py: where the
-- names differ, the dict that `run_gates` fills is the list of the gates' results.
use agent_runtime_observator.Prelude.{
  ◌≡◌, refl, sym, ap, ◌∙◌, ◌↔◌, Bool, true, false, String, none, List, [], ◌∷◌, ◌++◌, map, All,
  contains, all_distinct, arith, str_eq, eq_iff, dict_get?, dict_put, get-put_other,
}
use agent_runtime_observator.Json.{Fields}
use agent_runtime_observator.Clinic.Chain.{
  EvidenceNode, Gate, gate_holds, gates_from, run_gates, emit_report, put_all, with_upstream,
}

-- The gates of a node have names of their own, none of them the name of the upstream check.
abbrev pub HasOwnNames : EvidenceNode → Type 0
HasOwnNames node = all_distinct ("upstream" ∷ map (λ (g : Gate). g.name) node.gates) ≡ true

abbrev pub IsTrue : String × Bool → Type 0
IsTrue p = p.1 ≡ true

pub emit_report-passed :
    (node : EvidenceNode) (results : List (String × Bool))
    → ((emit_report node results).passed ≡ true) ↔ All IsTrue results
unfolding emit_report
emit_report-passed node [] = (λ h. tt, λ h. refl)
emit_report-passed node ((k, true) ∷ results) =
    let rest = emit_report-passed node results in (λ h. (refl, rest.0 h), λ h. rest.1 h.1)
emit_report-passed node ((k, false) ∷ results) = (λ h. cc, λ h. cc (h.0))

append-nil {ℓ} : {A : Type ℓ} (xs : List A) → xs ++ [] ≡ xs
append-nil [] = refl
append-nil (x ∷ xs) = ap (λ zs. x ∷ zs) (append-nil xs)

concat-append {ℓ} :
    {A : Type ℓ} (d : List A) (x : A) (ys : List A) → (d ++ x ∷ []) ++ ys ≡ d ++ x ∷ ys
concat-append [] x ys = refl
concat-append (y ∷ d) x ys = ap (λ zs. y ∷ zs) (concat-append d x ys)

put-absent :
    (k : String) (v : Bool) (d : List (String × Bool))
    → dict_get? k d ≡ none
    → dict_put k v d ≡ d ++ (k, v) ∷ []
put-absent k v [] h = refl
put-absent k v ((j, b) ∷ d) h = ground (arith, h, put-absent k v d (ground (arith, h)))

-- The names of a list without the text `s` differ from it.
contains-apart :
    (s : String) (names : List String)
    → contains names s ≡ false
    → All (λ j. str_eq s j ≡ false) names
contains-apart s [] h = tt
contains-apart s (j ∷ names) h =
    (ground (arith, h, eq_iff s j, eq_iff j s), contains-apart s names (ground (arith, h)))

module _ (context : Fields) where
  abbrev pub result_of : Gate → String × Bool
  result_of g = (g.name, gate_holds g context)

  abbrev name_of : Gate → String
  name_of g = g.name

  -- Entries with names of their own are appended.
  put_all-append :
      (gates : List Gate) (d : List (String × Bool))
      → all_distinct (map name_of gates) ≡ true
      → All (λ j. dict_get? j d ≡ none) (map name_of gates)
      → put_all (map result_of gates) d ≡ d ++ map result_of gates
  unfolding put_all
  put_all-append [] d apart absent = sym (append-nil d)
  put_all-append (g ∷ gates) d apart (here, absent) =
      let put : dict_put g.name (gate_holds g context) d ≡ d ++ result_of g ∷ [] =
        put-absent g.name (gate_holds g context) d here in
      let still : All (λ j. dict_get? j (dict_put g.name (gate_holds g context) d) ≡ none)
          (map name_of gates) =
        still_absent g d (map name_of gates)
          (contains-apart g.name (map name_of gates) (ground (arith, apart))) absent in
      put_all-append gates (dict_put g.name (gate_holds g context) d) (ground (arith, apart)) still
      ∙ ap (λ e. e ++ map result_of gates) put
      ∙ concat-append d (result_of g) (map result_of gates)
    where
      still_absent :
          (g : Gate) (d : List (String × Bool)) (names : List String)
          → All (λ j. str_eq g.name j ≡ false) names
          → All (λ j. dict_get? j d ≡ none) names
          → All (λ j. dict_get? j (dict_put g.name (gate_holds g context) d) ≡ none) names
      still_absent g d [] apart absent = tt
      still_absent g d (j ∷ names) (a, apart) (b, absent) = (
        get-put_other g.name j (gate_holds g context) d a ∙ b,
        still_absent g d names apart absent,
      )

  gates_from-put_all :
      (gates : List Gate) (d : List (String × Bool))
      → gates_from context gates d ≡ put_all (map result_of gates) d
  unfolding gates_from put_all
  gates_from-put_all [] d = refl
  gates_from-put_all (g ∷ gates) d =
      gates_from-put_all gates (dict_put g.name (gate_holds g context) d)

  no_entry : (names : List String) → All (λ j. dict_get? {A = Bool} j [] ≡ none) names
  no_entry [] = tt
  no_entry (j ∷ names) = (refl, no_entry names)

  one_entry :
      (held : Bool) (names : List String)
      → All (λ j. str_eq "upstream" j ≡ false) names
      → All (λ j. dict_get? j (("upstream", held) ∷ []) ≡ none) names
  one_entry held [] apart = tt
  one_entry held (j ∷ names) (e, apart) = (ground (arith, e), one_entry held names apart)

  pub run_gates-eq :
      (n : EvidenceNode) → HasOwnNames n → run_gates n context ≡ map result_of n.gates
  unfolding run_gates
  run_gates-eq n own =
      gates_from-put_all n.gates []
      ∙ put_all-append n.gates [] (ground (arith, own)) (no_entry (map name_of n.gates))

  pub with_upstream-eq :
      (n : EvidenceNode) (held : Bool)
      → HasOwnNames n
      → with_upstream held (run_gates n context) ≡ ("upstream", held) ∷ map result_of n.gates
  unfolding with_upstream
  with_upstream-eq n held own =
      ap (λ rs. put_all rs (("upstream", held) ∷ [])) (run_gates-eq n own)
      ∙ put_all-append n.gates (("upstream", held) ∷ []) (ground (arith, own)) (
          one_entry held (map name_of n.gates)
            (contains-apart "upstream" (map name_of n.gates) (ground (arith, own))))

  pub all_hold :
      (gates : List Gate)
      → All IsTrue (map result_of gates) ↔ All (λ g. gate_holds g context ≡ true) gates
  all_hold [] = (λ h. tt, λ h. tt)
  all_hold (g ∷ gates) =
      let rest = all_hold gates in (λ h. (h.0, rest.0 h.1), λ h. (h.0, rest.1 h.1))
