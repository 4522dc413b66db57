-- ===== src/Core/NodeManager/Update.antt =====
-- UpdateOrCreate of internal/core/node_manager.go against the view of the list.
pub mod Wrap
use eswim.Base.{
  ℕ, ◌≤◌, ◌≡◌, none, some, true, false, arith, if◌then◌else◌, ltb, Option-cases, inl, inr, ◌∙◌,
  subst, sym, ap, Bool-cases,
}
use eswim.Base.Assoc.{get-put}
use eswim.Proto.Ip.{NodeHash, equal}
use eswim.Proto.Node.{Node, hash}
use eswim.Core.NodeList.{NodeList, unsafe_add, node_by_hash, mark_stable, mark_suspect}
use eswim.Core.NodeList.View.{
  Member, absent, stable, suspected, IsConsistent, view, member_node, node_by_hash-view,
}
use eswim.Core.NodeList.Refinement.{
  Sets, stabilised, suspected_by, added, mark_stable-Sets, mark_suspect-Sets, unsafe_add-Sets,
}
use eswim.Core.NodeManager.{set_incarnation, wrap_list, update_list}

abbrev pub with_incarnation : ℕ → Member → Member
with_incarnation inc absent = absent
with_incarnation inc (stable x) = stable (record x { incarnation = inc })
with_incarnation inc (suspected s) =
    suspected (record s { node = record (s.node) { incarnation = inc } })

-- What news of a node does to a member: a known one changes only if the news is not older.
abbrev pub updated : ℕ → Node → Member → Member
updated period node absent = added period node absent
updated period node (stable x) =
    if ltb node.incarnation x.incarnation
    then stable x
    else if node.suspect
    then suspected_by period true (with_incarnation node.incarnation (stable x))
    else with_incarnation node.incarnation (stable x)
updated period node (suspected s) =
    if ltb node.incarnation s.node.incarnation
    then suspected s
    else if node.suspect
    then with_incarnation node.incarnation (suspected s)
    else stabilised (with_incarnation node.incarnation (suspected s))

module _ (n : NodeList) (c : IsConsistent n) where
  set_incarnation-Sets :
      (h : NodeHash) (inc : ℕ)
      → Sets n h (with_incarnation inc (view n h)) (set_incarnation h inc n)
  unfolding set_incarnation hash
  set_incarnation-Sets h inc = record {
    consistent = λ j. grind (arith, c j, c h, get-put);
    changed = λ j. grind (arith, c j, c h, get-put);
  }

  Sets-trans :
      (h : NodeHash) (x y : Member) (m k : NodeList) → Sets n h x m → Sets m h y k → Sets n h y k
  Sets-trans h x y m k s t = record {
    consistent = t.consistent;
    changed = λ j. ground (arith, s.changed j, t.changed j);
  }

  Sets-at : (h : NodeHash) (x : Member) (m : NodeList) → Sets n h x m → view m h ≡ x
  Sets-at h x m s = ground (arith, s.changed h)

module _ (n : NodeList) (c : IsConsistent n) where
  module _ (period : ℕ) (node : Node) where
    update_list_new :
        node_by_hash (hash node) n ≡ none → update_list period node n ≡ unsafe_add period node n
    unfolding update_list
    update_list_new e = rw (e, update_list)

    update_list_known :
        (x : Node)
        → node_by_hash (hash node) n ≡ some x
        → update_list period node n ≡ (
            if ltb node.incarnation x.incarnation
            then n
            else if node.suspect
            then mark_suspect period true
                (hash node)
                (set_incarnation (hash node) node.incarnation n)
            else mark_stable (hash node) (set_incarnation (hash node) node.incarnation n))
    unfolding update_list
    update_list_known x e = rw (e, update_list)

    -- Writing the incarnation and then moving the node, as `UpdateOrCreate` does.
    abbrev written : NodeList
    written = set_incarnation (hash node) node.incarnation n

    written-Sets :
        Sets n (hash node) (with_incarnation node.incarnation (view n (hash node))) written
    written-Sets = set_incarnation-Sets n c (hash node) node.incarnation

    written-view : view written (hash node) ≡ with_incarnation node.incarnation (view n (hash node))
    written-view = Sets-at n c (hash node) _ written written-Sets

    written_suspect :
        Sets n
          (hash node)
          (suspected_by period true (with_incarnation node.incarnation (view n (hash node))))
          (mark_suspect period true (hash node) written)
    written_suspect = Sets-trans n c (hash node) _ _ written _ written-Sets (
        rw (← written-view)
          (mark_suspect-Sets written written-Sets.consistent period true (hash node)))

    written_stable :
        Sets n
          (hash node)
          (stabilised (with_incarnation node.incarnation (view n (hash node))))
          (mark_stable (hash node) written)
    written_stable =
        Sets-trans n c (hash node) _ _ written _ written-Sets
          (rw (← written-view) (mark_stable-Sets written written-Sets.consistent (hash node)))

    Sets-same : Sets n (hash node) (view n (hash node)) n
    Sets-same = record { consistent = c; changed = λ j. ground arith }

    known-Sets :
        (x : Node)
        → member_node (view n (hash node)) ≡ some x
        → Sets n (hash node) (updated period node (view n (hash node))) (
            if ltb node.incarnation x.incarnation
            then n
            else if node.suspect
            then mark_suspect period true (hash node) written
            else mark_stable (hash node) written)
    known-Sets x e = record {
      consistent =
          λ j. ground (arith, c j, written_suspect.consistent j, written_stable.consistent j);
      changed =
          λ j. ground (arith, c (hash node), written_suspect.changed j, written_stable.changed j);
    }

    -- News of a node with another address than the own one: an unknown node is entered as it says; of
    -- a known one, older news changes nothing, and other news sets the incarnation and makes the node
    -- suspect or stable as it says. No other member changes, and the list stays consistent.
    pub update_list-Sets :
        equal n.self_addr node.address ≡ false
        → Sets n (hash node) (updated period node (view n (hash node))) (update_list period node n)
    update_list-Sets other = elim (Option-cases (member_node (view n (hash node)))) [
      | inl unknown ↦ rw (update_list_new (node_by_hash-view (hash node) n c ∙ unknown)) (
          subst (λ m. Sets n (hash node) m (unsafe_add period node n)) (added-updated unknown)
            (unsafe_add-Sets n c period node other))
      | inr (x, known) ↦
          rw (update_list_known x (node_by_hash-view (hash node) n c ∙ known)) (known-Sets x known)
    ]
      where
        added-updated :
            member_node (view n (hash node)) ≡ none
            → added period node (view n (hash node)) ≡ updated period node (view n (hash node))
        added-updated e = ground arith

    -- On a consistent list, news of a known node keeps it a member, and leaves it with an
    -- incarnation that is neither below the one known before nor below the one of the news.
    pub update_list-le :
        (x : Node)
        → node_by_hash (hash node) n ≡ some x
        → (y : Node) × (node_by_hash (hash node) (update_list period node n) ≡ some y)
          × (x.incarnation ≤ y.incarnation)
          × (node.incarnation ≤ y.incarnation)
    update_list-le x known =
        let e = sym (node_by_hash-view (hash node) n c) ∙ known in
        let s = known-Sets x e in
        let (y, found, old, new) = updated-le (view n (hash node)) x e in
        (
          y,
          rw (update_list_known x known) (
              node_by_hash-view (hash node) _ s.consistent
              ∙ ap member_node (Sets-at n c (hash node) _ _ s)
              ∙ found),
          old,
          new,
        )
      where
        updated-le :
            (m : Member) (x : Node)
            → member_node m ≡ some x
            → (y : Node) × (member_node (updated period node m) ≡ some y)
              × (x.incarnation ≤ y.incarnation)
              × (node.incarnation ≤ y.incarnation)
        updated-le absent x e = absurd (ground arith)
        updated-le (stable z) x e = elim (Bool-cases (ltb node.incarnation z.incarnation)) [
          | inl older ↦ (z, ground arith, ground arith, ground arith)
          | inr newer ↦ elim (Bool-cases node.suspect) [
            | inl s ↦ (
              record z { incarnation = node.incarnation; suspect = true },
              ground arith,
              ground arith,
              ground arith,
            )
            | inr s ↦ (
              record z { incarnation = node.incarnation },
              ground arith,
              ground arith,
              ground arith,
            )
          ]
        ]
        updated-le (suspected z) x e = elim (Bool-cases (ltb node.incarnation z.node.incarnation)) [
          | inl older ↦ (z.node, ground arith, ground arith, ground arith)
          | inr newer ↦ elim (Bool-cases node.suspect) [
            | inl s ↦ (
              record (z.node) { incarnation = node.incarnation },
              ground arith,
              ground arith,
              ground arith,
            )
            | inr s ↦ (
              record (z.node) { incarnation = node.incarnation; suspect = false },
              ground arith,
              ground arith,
              ground arith,
            )
          ]
        ]
