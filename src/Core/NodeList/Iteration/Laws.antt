-- ===== src/Core/NodeList/Iteration/Laws.antt =====
-- What the walks over the member list visit.
use eswim.Base.{
  ℕ, ◌≤◌, ◌<◌, ◌≡◌, ◌≢◌, refl, inl, inr, Option, none, some, List, [], ◌∷◌, ◌++◌, map, length,
  length-append, All, arith, Option-cases, ◌⊎◌, if◌then◌else◌, length-map, ◌==◌, Bool-cases,
}
use mathlib.Core.List.{map-append}
use eswim.Proto.Ip.{NodeHash, NodeHash-discrete}
use eswim.Proto.Node.{Node, hash}
use eswim.Core.NodeList.{NodeList, Reordering, look}
use eswim.Core.NodeList.View.{IsConsistent, view, member_node}
use eswim.Core.NodeList.Iteration.{candidates_loop, candidate, indirect_ping_candidates}

-- A node that may be asked to ping in the place of this one.
abbrev pub IsDelegate : NodeHash → NodeList → Node → Type 0
IsDelegate except n x = (hash x ≢ except) × (member_node (view n (hash x)) ≡ some x)

pub record Delegates (k : ℕ) (except : NodeHash) (n : NodeList) (r : Option (List (Option Node)))
    : Type 0 where
  pub nodes : List Node
  pub returned : r ≡ some (map some nodes)
  pub bounded : length nodes ≤ k
  pub known : All (IsDelegate except n) nodes

module _ (n : NodeList) (c : IsConsistent n) where
  candidate-IsDelegate :
      (except h : NodeHash) (source : ℕ)
      → look h n.node_by_type ≡ some source
      → h ≢ except
      → (x : Node) × (candidate n h source ≡ some (some x ∷ [])) × IsDelegate except n x
  unfolding candidate
  candidate-IsDelegate except h source e other = elim (Option-cases (look h n.stable)) [
    | inr (x, s) ↦ (x, ground (arith, c h), ground (arith, c h))
    | inl no_stable ↦ elim (Option-cases (look h n.suspects)) [
      | inr (s, t) ↦ (s.node, ground (arith, c h), ground (arith, c h))
      | inl no_suspect ↦ absurd (ground (arith, c h))
    ]
  ]

  module _ (k : ℕ) (except : NodeHash) where
    snoc-Delegates :
        (nodes : List Node) (x : Node)
        → All (IsDelegate except n) nodes
        → IsDelegate except n x
        → All (IsDelegate except n) (nodes ++ (x ∷ []))
    snoc-Delegates [] x a d = (d, tt)
    snoc-Delegates (y ∷ nodes) x a d = (a.0, snoc-Delegates nodes x a.1 d)

    passes_over :
        (h : NodeHash) (hs : List NodeHash) (r : List (Option Node))
        → (look h n.node_by_type ≡ none) ⊎ (h ≡ except)
        → candidates_loop k except n (h ∷ hs) r ≡ candidates_loop k except n hs r
    unfolding candidates_loop
    passes_over h hs r e = ground arith

    takes :
        (h : NodeHash) (hs : List NodeHash) (nodes : List Node) (source : ℕ) (x : Node)
        → look h n.node_by_type ≡ some source
        → h ≢ except
        → candidate n h source ≡ some (some x ∷ [])
        → candidates_loop k except n (h ∷ hs) (map some nodes) ≡ (
            if length (nodes ++ (x ∷ [])) == k
            then some (map some (nodes ++ (x ∷ [])))
            else candidates_loop k except n hs (map some (nodes ++ (x ∷ []))))
    unfolding candidates_loop
    takes h hs nodes source x e other p =
        ground (arith, map-append some nodes (x ∷ []), length-map some (nodes ++ (x ∷ [])))

    candidates_loop-Delegates :
        (hs : List NodeHash) (nodes : List Node)
        → length nodes < k
        → All (IsDelegate except n) nodes
        → Delegates k except n (candidates_loop k except n hs (map some nodes))
    candidates_loop-Delegates [] nodes room a =
        unfold candidates_loop in
        record { nodes = nodes; returned = refl; bounded = omega arith; known = a }
    candidates_loop-Delegates (h ∷ hs) nodes room a = elim (Option-cases (look h n.node_by_type)) [
      | inl unknown ↦
          rw (passes_over h hs (map some nodes) (inl unknown))
            (candidates_loop-Delegates hs nodes room a)
      | inr (source, e) ↦ elim (NodeHash-discrete h except) [
        | yes p ↦
            rw (passes_over h hs (map some nodes) (inr p))
              (candidates_loop-Delegates hs nodes room a)
        | no other ↦
            let (x, picked, d) = candidate-IsDelegate except h source e other in
            let a' = snoc-Delegates nodes x a d in
            rw (takes h hs nodes source x e other picked)
              (elim (Bool-cases (length (nodes ++ (x ∷ [])) == k)) [
                | inl full ↦ rw full (record {
                  nodes = nodes ++ (x ∷ []);
                  returned = refl;
                  bounded = ground arith;
                  known = a';
                })
                | inr more ↦ rw more (
                    candidates_loop-Delegates hs (nodes ++ (x ∷ []))
                      (ground (arith, length-append nodes (x ∷ []))) a')
              ])
      ]
    ]

    -- With `k` above zero, `IndirectPingCandidates` on a consistent list never panics and never
    -- returns a nil node: it returns at most `k` nodes, all of them members, and none of them the
    -- excepted one, in whatever order Go visits the map.
    pub indirect_ping_candidates-Delegates :
        (order : Reordering)
        → 0 < k
        → Delegates k except n (indirect_ping_candidates order k except n)
    unfolding indirect_ping_candidates
    indirect_ping_candidates-Delegates order pos = candidates_loop-Delegates _ [] pos tt
