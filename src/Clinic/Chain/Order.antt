-- ===== src/Clinic/Chain/Order.antt =====
-- Proofs about `topological_order` of packages/clinic/src/wutai_clinic/evidence/chain.py: what it
-- returns is an order of the dependencies, and it returns one whenever the dependencies descend.
use mathlib.Core.Path.{subst}
use mathlib.Core.List.{Memᴰ}
use mathlib.Core.List.Memᴰ as Mem
use agent_runtime_observator.Prelude.{
  ℕ, zero, suc, ◌<◌, ◌≤◌, ◌≡◌, refl, sym, ap, ◌∙◌, inl, inr, true, false, not, String, List, [],
  ◌∷◌, map, All, All-map, contains, all_distinct, count_if, length, is_some, arith, All_intro,
  All_elim, str_eq, str_eq_refl, eq_iff, Bool-cases, Option-cases,
}
use agent_runtime_observator.Outcome.{Outcome, ok, >>=-eq-ok, ok_inj}
use agent_runtime_observator.Clinic.Chain.{
  EvidenceNode, node_key, by_key, Search, no_search, enter, leave, visit_upstream, visit, visit_all,
  topological_order,
}
use agent_runtime_observator.Clinic.Chain.Visit.{
  IsOrder, visit_all-IsSearch, by_key-Mem, keep-absent,
}

-- If it returns, the result is an order of the nodes.
pub topological_order-IsOrder :
    (nodes : List EvidenceNode) (frames : ℕ) (ordered : List EvidenceNode)
    → topological_order nodes frames ≡ ok ordered
    → IsOrder nodes ordered
unfolding topological_order
topological_order-IsOrder nodes frames ordered h =
    let (s, ran, same) = >>=-eq-ok (visit_all nodes frames nodes no_search) (λ s. ok s.ordered) h in
    let (sound, extends, all) =
      visit_all-IsSearch nodes frames nodes no_search s
        (All_intro (λ n. Memᴰ n nodes) nodes (λ n m. m)) (refl, tt, refl, (λ k e. cc), tt) ran in
    let (keys, first, distinct, apart, members) = sound in
    subst (IsOrder nodes) (ok_inj same) (
      first,
      ap all_distinct (sym keys) ∙ distinct,
      members,
      All-map (λ n. contains s.permanent (node_key n) ≡ true)
          (λ n. contains (map node_key s.ordered) (node_key n) ≡ true) nodes
          (λ n e. ap (λ ks. contains ks (node_key n)) (sym keys) ∙ e) all,
    )

-- Every key upstream is known, and along every dependency a rank of the keys descends, as it
-- does where there is no cycle.
abbrev pub Descends : (String → ℕ) → List EvidenceNode → Type 0
Descends rank nodes =
    All
      (λ n. All (λ k. (is_some (by_key nodes k) ≡ true) × (rank k < rank (node_key n))) n.upstream)
      nodes

-- The nodes that are off the path.
abbrev off_path : List String → List EvidenceNode → ℕ
off_path t nodes = count_if (λ n. not (contains t (node_key n))) nodes

off_path-le :
    (k : String) (t : List String) (ns : List EvidenceNode) → off_path (k ∷ t) ns ≤ off_path t ns
off_path-le k t [] = omega arith
off_path-le k t (n ∷ ns) = ground (arith, off_path-le k t ns)

-- Stepping onto a node of the chain leaves fewer nodes off the path.
off_path-enter :
    (n : EvidenceNode) (t : List String) (ns : List EvidenceNode)
    → Memᴰ n ns
    → contains t (node_key n) ≡ false
    → off_path (node_key n ∷ t) ns < off_path t ns
off_path-enter n t [] m off = elim m [ ]
off_path-enter n t (x ∷ ns) m off = elim (Mem.cases_cons m) [
  | inl e ↦
      let new : contains t (node_key x) ≡ false = ap (λ y. contains t (node_key y)) (sym e) ∙ off in
      let own : str_eq (node_key n) (node_key x) ≡ true =
        ap (λ y. str_eq (node_key n) (node_key y)) (sym e) ∙ str_eq_refl (node_key n) in
      ground (arith, new, own, off_path-le (node_key n) t ns)
  | inr later ↦ ground (arith, off_path-enter n t ns later off)
]

-- What is asked of a call of `visit`: it returns, with the path as it was.
abbrev Returns : Outcome Search → Search → Type 0
Returns result s = (s' : Search) × (result ≡ ok s') × (s'.temporary ≡ s.temporary)

abbrev Above : (String → ℕ) → Search → String → Type 0
Above rank s k = (t : String) → contains s.temporary t ≡ true → rank k < rank t

count_if-length : (ns : List EvidenceNode) → off_path [] ns < suc (length ns)
count_if-length [] = omega arith
count_if-length (n ∷ ns) = omega (arith, count_if-length ns)

module _ (rank : String → ℕ) (nodes : List EvidenceNode) (descends : Descends rank nodes) where
  visit_upstream-Returns :
      (visit_node : EvidenceNode → Search → Outcome Search) (bound : ℕ)
      → ((n : EvidenceNode) (s : Search)
          → Memᴰ n nodes
          → off_path s.temporary nodes < bound
          → Above rank s (node_key n)
          → Returns (visit_node n s) s)
      → (ks : List String) (s : Search) → off_path s.temporary nodes < bound
      → All (λ k. (is_some (by_key nodes k) ≡ true) × Above rank s k) ks
      → Returns (visit_upstream nodes visit_node ks s) s
  unfolding visit_upstream
  visit_upstream-Returns visit_node bound spec [] s less h = (s, refl, refl)
  visit_upstream-Returns visit_node bound spec (k ∷ ks) s less ((known, above), h) =
      elim (Option-cases (by_key nodes k)) [
        | inl e ↦ cc (rw e at known)
        | inr (n, e) ↦
            let found = by_key-Mem nodes k n e in
            let (mid, ran, path) =
              spec n s found.0 less (subst (Above rank s) (sym found.1) above) in
            let (s', more, path') =
              visit_upstream-Returns visit_node bound spec ks mid
                (subst (λ t. off_path t nodes < bound) (sym path) less)
                (All-map (λ j. (is_some (by_key nodes j) ≡ true) × Above rank s j)
                  (λ j. (is_some (by_key nodes j) ≡ true) × Above rank mid j) ks
                  (λ j p. (p.0, λ t o. p.1 t (ap (λ q. contains q t) (sym path) ∙ o))) h) in
            (s', rw (e, ran, visit_upstream) more, path' ∙ path)
      ]

  visit-Returns :
      (depth : ℕ) (n : EvidenceNode) (s : Search)
      → Memᴰ n nodes
      → off_path s.temporary nodes < depth
      → Above rank s (node_key n)
      → Returns (visit nodes depth n s) s
  unfolding visit enter leave
  visit-Returns zero n s member less above = absurd (omega (arith, less))
  visit-Returns (suc depth) n s member less above =
      elim (Bool-cases (contains s.permanent (node_key n))) [
        | inl e ↦ (s, rw (e, visit) refl, refl)
        | inr new ↦ elim (Bool-cases (contains s.temporary (node_key n))) [
          | inl e ↦ absurd (omega (arith, above (node_key n) e))
          | inr off ↦
              let k = node_key n in
              let start = enter k s in
              let (inner, ran, path) =
                visit_upstream-Returns (visit nodes depth) depth (visit-Returns depth) n.upstream
                  start (omega (arith, less, off_path-enter n s.temporary nodes member off))
                  (All-map (λ j. (is_some (by_key nodes j) ≡ true) × (rank j < rank k))
                    (λ j. (is_some (by_key nodes j) ≡ true) × Above rank start j) n.upstream
                    (λ j p. (
                      p.0,
                      λ t o. elim (Bool-cases (str_eq k t)) [
                        | inl e ↦ subst (λ q. rank j < rank q) ((eq_iff k t).0 e) p.1
                        | inr e ↦ omega (arith, p.1, above t (ground (arith, o, e)))
                      ],
                    ))
                    (All_elim
                      (λ m.
                        All (λ j. (is_some (by_key nodes j) ≡ true) × (rank j < rank (node_key m)))
                          m.upstream)
                      nodes descends member)) in
              (
                leave n inner,
                rw (new, off, ran, visit) refl,
                rw path (ground (arith, str_eq_refl k, keep-absent k s.temporary off)),
              )
        ]
      ]

  visit_all-Returns :
      (depth : ℕ) (ns : List EvidenceNode) (s : Search)
      → All (λ n. Memᴰ n nodes) ns
      → off_path s.temporary nodes < depth
      → s.temporary ≡ []
      → Returns (visit_all nodes depth ns s) s
  unfolding visit_all
  visit_all-Returns depth [] s members less empty = (s, refl, refl)
  visit_all-Returns depth (n ∷ ns) s (member, members) less empty =
      let (mid, ran, path) =
        visit-Returns depth n s member less (λ t o. cc (ap (λ q. contains q t) (sym empty) ∙ o)) in
      let (s', more, path') =
        visit_all-Returns depth ns mid members
          (subst (λ t. off_path t nodes < depth) (sym path) less) (path ∙ empty) in
      (s', rw ran more, path' ∙ path)

  -- Where the dependencies descend and the interpreter allows more nested calls than there are nodes, it
  -- returns an order of the nodes.
  pub topological_order-returns :
      (frames : ℕ)
      → length nodes < frames
      → (ordered : List EvidenceNode) × (topological_order nodes frames ≡ ok ordered)
        × IsOrder nodes ordered
  unfolding topological_order
  topological_order-returns frames enough =
      let (s, ran, path) =
        visit_all-Returns frames nodes no_search (All_intro (λ n. Memᴰ n nodes) nodes (λ n m. m))
          (omega (arith, count_if-length nodes, enough)) refl in
      let h : topological_order nodes frames ≡ ok s.ordered = rw ran refl in
      (s.ordered, h, topological_order-IsOrder nodes frames s.ordered h)
