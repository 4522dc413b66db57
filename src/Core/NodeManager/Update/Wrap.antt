-- ===== src/Core/NodeManager/Update/Wrap.antt =====
-- WrapIncarnation of internal/core/node_manager.go against the view of the list.
use eswim.Base.{ℕ, ◌≡◌, none, some, false, arith, Option-cases, inl, inr, ◌∙◌, subst}
use eswim.Proto.Ip.{equal}
use eswim.Proto.Node.{Node, hash}
use eswim.Core.NodeList.{NodeList, unsafe_add, node_by_hash, mark_stable}
use eswim.Core.NodeList.View.{Member, absent, IsConsistent, view, member_node, node_by_hash-view}
use eswim.Core.NodeList.Refinement.{Sets, stabilised, added, mark_stable-Sets, unsafe_add-Sets}
use eswim.Core.NodeManager.{set_incarnation, wrap_list}
use eswim.Core.NodeManager.Update.{with_incarnation, set_incarnation-Sets, Sets-trans, Sets-at}

abbrev pub wrapped : ℕ → Node → Member → Member
wrapped period node absent = added period node absent
wrapped period node m = with_incarnation node.incarnation (stabilised m)

module _ (n : NodeList) (c : IsConsistent n) where
  module _ (period : ℕ) (node : Node) where
    wrap_list_new :
        node_by_hash (hash node) n ≡ none → wrap_list period node n ≡ unsafe_add period node n
    unfolding wrap_list
    wrap_list_new e = rw (e, wrap_list)

    wrap_list_known :
        (x : Node)
        → node_by_hash (hash node) n ≡ some x
        → wrap_list period node n
          ≡ set_incarnation (hash node) node.incarnation (mark_stable (hash node) n)
    unfolding wrap_list
    wrap_list_known x e = rw (e, wrap_list)

    -- A wrap of a known node other than the own one makes it stable and forces the given incarnation
    -- on it, also a lower one; an unknown node is entered. No other member changes, and the list
    -- stays consistent.
    pub wrap_list-Sets :
        equal n.self_addr node.address ≡ false
        → Sets n (hash node) (wrapped period node (view n (hash node))) (wrap_list period node n)
    wrap_list-Sets other = elim (Option-cases (member_node (view n (hash node)))) [
      | inl unknown ↦ rw (wrap_list_new (node_by_hash-view (hash node) n c ∙ unknown)) (
          subst (λ m. Sets n (hash node) m (unsafe_add period node n)) (added-wrapped unknown)
            (unsafe_add-Sets n c period node other))
      | inr (x, known) ↦ rw (wrap_list_known x (node_by_hash-view (hash node) n c ∙ known)) (
          subst
            (λ m.
              Sets n (hash node) m
                (set_incarnation (hash node) node.incarnation (mark_stable (hash node) n)))
            (known-wrapped x known) forced)
    ]
      where
        added-wrapped :
            member_node (view n (hash node)) ≡ none
            → added period node (view n (hash node)) ≡ wrapped period node (view n (hash node))
        added-wrapped e = ground arith

        known-wrapped :
            (x : Node)
            → member_node (view n (hash node)) ≡ some x
            → with_incarnation node.incarnation (stabilised (view n (hash node)))
              ≡ wrapped period node (view n (hash node))
        known-wrapped x e = ground arith

        calm : Sets n (hash node) (stabilised (view n (hash node))) (mark_stable (hash node) n)
        calm = mark_stable-Sets n c (hash node)

        forced :
            Sets n
              (hash node)
              (with_incarnation node.incarnation (stabilised (view n (hash node))))
              (set_incarnation (hash node) node.incarnation (mark_stable (hash node) n))
        forced = Sets-trans n c (hash node) _ _ (mark_stable (hash node) n) _ calm (
            rw (← Sets-at n c (hash node) _ _ calm)
              (set_incarnation-Sets _ calm.consistent (hash node) node.incarnation))
