-- ===== src/Clinic/Chain/Visit.antt =====
-- The search of `topological_order` in packages/clinic/src/wutai_clinic/evidence/chain.py: what
-- holds between two calls of `visit`, and what a call leaves.
use mathlib.Core.Path.{subst}
use mathlib.Core.List.{Memᴰ}
use agent_runtime_observator.Prelude.{
  ℕ, zero, suc, ◌≡◌, refl, sym, ap, ◌∙◌, inl, inr, true, false, not, ◌||◌, String, some, List, [],
  ◌∷◌, ◌++◌, map, keep, All, All-map, All-append, contains, contains-concat, all_distinct,
  all_distinct-concat, arith, str_eq, str_eq_refl, eq_iff, Bool-cases, Option-cases,
}
use agent_runtime_observator.Outcome.{Outcome, ok, >>=-eq-ok, ok_inj}
use agent_runtime_observator.Clinic.Chain.{
  EvidenceNode, node_key, by_key, Search, enter, leave, visit_upstream, visit, visit_all,
}

-- Every key upstream of a node is seen before the node.
abbrev pub UpstreamFirst : List String → List EvidenceNode → Type 0
UpstreamFirst seen [] = Unit
UpstreamFirst seen (n ∷ ns) =
    All (λ k. contains seen k ≡ true) n.upstream × UpstreamFirst (node_key n ∷ seen) ns

-- An order of the nodes: every key once, what is upstream first, nodes of the chain only, and the
-- keys of all of them.
abbrev pub IsOrder : List EvidenceNode → List EvidenceNode → Type 0
IsOrder nodes ordered =
    UpstreamFirst [] ordered
    × (all_distinct (map node_key ordered) ≡ true)
    × All (λ n. Memᴰ n nodes) ordered
    × All (λ n. contains (map node_key ordered) (node_key n) ≡ true) nodes

UpstreamFirst-concat :
    (seen : List String) (ns : List EvidenceNode) (n : EvidenceNode)
    → UpstreamFirst seen ns
    → All (λ k. (contains seen k || contains (map node_key ns) k) ≡ true) n.upstream
    → UpstreamFirst seen (ns ++ n ∷ [])
UpstreamFirst-concat seen [] n h up = (
  All-map (λ k. (contains seen k || false) ≡ true) (λ k. contains seen k ≡ true) n.upstream
      (λ k e. ground (arith, e)) up,
  tt,
)
UpstreamFirst-concat seen (m ∷ ns) n (first, h) up = (
  first,
  UpstreamFirst-concat (node_key m ∷ seen) ns n h (
      All-map (λ k. (contains seen k || contains (map node_key (m ∷ ns)) k) ≡ true)
        (λ k. (contains (node_key m ∷ seen) k || contains (map node_key ns) k) ≡ true) n.upstream
        (λ k e. ground (arith, e)) up),
)

map-concat :
    (ns : List EvidenceNode) (n : EvidenceNode)
    → map node_key (ns ++ n ∷ []) ≡ map node_key ns ++ node_key n ∷ []
map-concat [] n = refl
map-concat (m ∷ ns) n = ap (λ ks. node_key m ∷ ks) (map-concat ns n)

-- What was not there is not taken away.
pub keep-absent :
    (k : String) (t : List String) → contains t k ≡ false → keep (λ j. not (str_eq j k)) t ≡ t
keep-absent k [] h = refl
keep-absent k (j ∷ t) h = ground (arith, h, keep-absent k t (ground (arith, h)))

pub by_key-Mem :
    (nodes : List EvidenceNode) (k : String) (n : EvidenceNode)
    → by_key nodes k ≡ some n
    → Memᴰ n nodes × (node_key n ≡ k)
unfolding by_key
by_key-Mem [] k n h = cc
by_key-Mem (m ∷ nodes) k n h = elim (Option-cases (by_key nodes k)) [
  | inr (later, e) ↦
      let found = by_key-Mem nodes k n (e ∙ (rw e at h)) in (Memᴰ.tail found.0, found.1)
  | inl e ↦ elim (Bool-cases (str_eq (node_key m) k)) [
    | inl same ↦
        let here : m ≡ n = cc (rw (e, same) at h) in
        (Memᴰ.head (sym here), ap node_key (sym here) ∙ (eq_iff (node_key m) k).0 same)
    | inr other ↦ cc (rw (e, other) at h)
  ]
]

-- What holds of the search between two calls of `visit`.
abbrev pub IsSearch : List EvidenceNode → Search → Type 0
IsSearch nodes s =
    (s.permanent ≡ map node_key s.ordered)
    × UpstreamFirst [] s.ordered
    × (all_distinct s.permanent ≡ true)
    × ((k : String) → contains s.temporary k ≡ true → contains s.permanent k ≡ false)
    × All (λ n. Memᴰ n nodes) s.ordered

-- What a call of `visit` leaves: the same path, and no key forgotten.
abbrev pub Extends : Search → Search → Type 0
Extends s s' =
    (s'.temporary ≡ s.temporary)
    × ((k : String) → contains s.permanent k ≡ true → contains s'.permanent k ≡ true)

abbrev pub Visits : List EvidenceNode → EvidenceNode → Search → Search → Type 0
Visits nodes node s s' =
    IsSearch nodes s' × Extends s s' × (contains s'.permanent (node_key node) ≡ true)

enter-IsSearch :
    (nodes : List EvidenceNode) (k : String) (s : Search)
    → contains s.permanent k ≡ false
    → IsSearch nodes s
    → IsSearch nodes (enter k s)
unfolding enter
enter-IsSearch nodes k s new (keys, first, distinct, apart, members) = (
  keys,
  first,
  distinct,
  λ j h. elim (Bool-cases (str_eq k j)) [
    | inl e ↦ ap (contains s.permanent) (sym ((eq_iff k j).0 e)) ∙ new
    | inr e ↦ apart j (ground (arith, h, e))
  ],
  members,
)

-- Leaving a node whose key is on the path appends it and takes the key off the path.
leave-Visits :
    (nodes : List EvidenceNode) (node : EvidenceNode) (s inner : Search)
    → Memᴰ node nodes
    → contains s.temporary (node_key node) ≡ false
    → IsSearch nodes inner
    → Extends (enter (node_key node) s) inner
    → All (λ k. contains inner.permanent k ≡ true) node.upstream
    → Visits nodes node s (leave node inner)
unfolding leave enter
leave-Visits nodes node s inner member off (keys, first, distinct, apart, members) (path, kept) up =
    let k = node_key node in
    let here : contains inner.temporary k ≡ true =
      ap (λ t. contains t k) path ∙ ground (arith, str_eq_refl k) in
    let new : contains inner.permanent k ≡ false = apart k here in
    let restored : keep (λ j. not (str_eq j k)) inner.temporary ≡ s.temporary =
      rw path (ground (arith, str_eq_refl k, keep-absent k s.temporary off)) in
    (
      (
        ap (λ ks. ks ++ k ∷ []) keys ∙ sym (map-concat inner.ordered node),
        UpstreamFirst-concat [] inner.ordered node first (
            All-map (λ j. contains inner.permanent j ≡ true)
              (λ j. contains (map node_key inner.ordered) j ≡ true) node.upstream
              (λ j e. ap (λ ks. contains ks j) (sym keys) ∙ e) up),
        all_distinct-concat inner.permanent k distinct new,
        λ j h.
            let on : contains s.temporary j ≡ true = ap (λ t. contains t j) (sym restored) ∙ h in
            let old : contains inner.permanent j ≡ false =
              apart j (ap (λ t. contains t j) path ∙ ground (arith, on)) in
            contains-concat inner.permanent k j ∙ ground (arith, old, on, off, eq_iff k j),
        All-append (λ n. Memᴰ n nodes) inner.ordered (node ∷ []) members (member, tt),
      ),
      (restored, λ j h. contains-concat inner.permanent k j ∙ ground (arith, kept j h)),
      contains-concat inner.permanent k k ∙ ground (arith, str_eq_refl k),
    )

-- The loop over the keys upstream, if the recursive call keeps to its description.
visit_upstream-IsSearch :
    (nodes : List EvidenceNode) (visit_node : EvidenceNode → Search → Outcome Search)
    → ((n : EvidenceNode) (s s' : Search)
        → Memᴰ n nodes
        → IsSearch nodes s
        → visit_node n s ≡ ok s'
        → Visits nodes n s s')
    → (ks : List String) (s s' : Search) → IsSearch nodes s
    → visit_upstream nodes visit_node ks s ≡ ok s'
    → IsSearch nodes s' × Extends s s' × All (λ k. contains s'.permanent k ≡ true) ks
unfolding visit_upstream
visit_upstream-IsSearch nodes visit_node spec [] s s' sound h =
    let same : s ≡ s' = ok_inj h in
    (subst (IsSearch nodes) same sound, subst (Extends s) same (refl, λ k e. e), tt)
visit_upstream-IsSearch nodes visit_node spec (k ∷ ks) s s' sound h =
    elim (Option-cases (by_key nodes k)) [
      | inl e ↦ cc (rw (e, visit_upstream) at h)
      | inr (n, e) ↦
          let found = by_key-Mem nodes k n e in
          let (mid, one, more) =
            >>=-eq-ok (visit_node n s) (λ v. visit_upstream nodes visit_node ks v)
              (rw (e, visit_upstream) at h) in
          let (mid_sound, (path, kept), has) = spec n s mid found.0 sound one in
          let (end_sound, (path', kept'), rest) =
            visit_upstream-IsSearch nodes visit_node spec ks mid s' mid_sound more in
          (
            end_sound,
            (path' ∙ path, λ j e. kept' j (kept j e)),
            (kept' k (subst (λ j. contains mid.permanent j ≡ true) found.1 has), rest),
          )
    ]

visit-Visits :
    (nodes : List EvidenceNode) (depth : ℕ) (node : EvidenceNode) (s s' : Search)
    → Memᴰ node nodes
    → IsSearch nodes s
    → visit nodes depth node s ≡ ok s'
    → Visits nodes node s s'
unfolding visit
visit-Visits nodes zero node s s' member sound h = cc
visit-Visits nodes (suc depth) node s s' member sound h =
    elim (Bool-cases (contains s.permanent (node_key node))) [
      | inl e ↦
          let same : s ≡ s' = ok_inj (rw (e, visit) at h) in
          subst (Visits nodes node s) same (sound, (refl, λ k e. e), e)
      | inr new ↦ elim (Bool-cases (contains s.temporary (node_key node))) [
        | inl e ↦ cc (rw (new, e, visit) at h)
        | inr off ↦
            let start = enter (node_key node) s in
            let (inner, ran, same) =
              >>=-eq-ok (visit_upstream nodes (visit nodes depth) node.upstream start)
                (λ i. ok (leave node i)) (rw (new, off, visit) at h) in
            let (inner_sound, extends, up) =
              visit_upstream-IsSearch nodes (visit nodes depth) (visit-Visits nodes depth)
                node.upstream start inner (enter-IsSearch nodes (node_key node) s new sound) ran in
            subst (Visits nodes node s) (ok_inj same)
              (leave-Visits nodes node s inner member off inner_sound extends up)
      ]
    ]

pub visit_all-IsSearch :
    (nodes : List EvidenceNode) (depth : ℕ) (ns : List EvidenceNode) (s s' : Search)
    → All (λ n. Memᴰ n nodes) ns
    → IsSearch nodes s
    → visit_all nodes depth ns s ≡ ok s'
    → IsSearch nodes s' × Extends s s' × All (λ n. contains s'.permanent (node_key n) ≡ true) ns
unfolding visit_all
visit_all-IsSearch nodes depth [] s s' members sound h =
    let same : s ≡ s' = ok_inj h in
    (subst (IsSearch nodes) same sound, subst (Extends s) same (refl, λ k e. e), tt)
visit_all-IsSearch nodes depth (n ∷ ns) s s' (member, members) sound h =
    let (mid, one, more) = >>=-eq-ok (visit nodes depth n s) (λ v. visit_all nodes depth ns v) h in
    let (mid_sound, (path, kept), has) = visit-Visits nodes depth n s mid member sound one in
    let (end_sound, (path', kept'), rest) =
      visit_all-IsSearch nodes depth ns mid s' members mid_sound more in
    (end_sound, (path' ∙ path, λ j e. kept' j (kept j e)), (kept' (node_key n) has, rest))
