-- ===== src/Core/NodeList/Refinement.antt =====
-- Each operation of the member list does to the view what its documentation says, keeps the three
-- maps in agreement, and touches no other member.
use eswim.Base.{ℕ, ◌≡◌, ite, Bool, true, false, arith, if◌then◌else◌, List, [], ◌∷◌}
use eswim.Base.Assoc.{get-put, get-del}
use eswim.Proto.Ip.{NodeHash, NodeHash-discrete, equal}
use eswim.Proto.Node.{Node, hash}
use eswim.Core.NodeList.{
  NodeList, look, unsafe_add, insert_stable, insert_suspect, take_and_delete, mark_stable,
  mark_suspect, mark_faulty, delete, bootstrap,
}
use eswim.Core.NodeList.View.{Member, absent, stable, suspected, Agrees, IsConsistent, view}

-- The list `m` is consistent, and its view is that of `n` but for the member under `h`.
pub record Sets (n : NodeList) (h : NodeHash) (new : Member) (m : NodeList) : Type 0 where
  pub consistent : IsConsistent m
  pub changed : (j : NodeHash) → view m j ≡ ite (NodeHash-discrete j h) new (view n j)

abbrev pub stabilised : Member → Member
stabilised absent = absent
stabilised (stable x) = stable x
stabilised (suspected s) = stable (record (s.node) { suspect = false })

abbrev pub suspected_by : ℕ → Bool → Member → Member
suspected_by period remote absent = absent
suspected_by period remote (stable x) = suspected (record {
  node = record x { suspect = true };
  suspect_at_period = period;
  from_remote = remote;
})
suspected_by period remote (suspected s) = suspected s

abbrev pub added : ℕ → Node → Member → Member
added period node absent =
    if node.suspect
    then suspected (record { node = node; suspect_at_period = period; from_remote = true })
    else stable node
added period node (stable x) = stable x
added period node (suspected s) = suspected s

-- The list stays consistent.
abbrev AgreesAt : NodeList → NodeHash → Type 0
AgreesAt m j = Agrees j (look j m.node_by_type) (look j m.stable) (look j m.suspects)

module _ (n : NodeList) (c : IsConsistent n) (h j : NodeHash) where
  mark_stable-AgreesAt : AgreesAt (mark_stable h n) j
  unfolding mark_stable take_and_delete insert_stable hash
  mark_stable-AgreesAt = grind (arith, c j, c h, get-put, get-del)

  mark_stable-changed :
      view (mark_stable h n) j ≡ ite (NodeHash-discrete j h) (stabilised (view n h)) (view n j)
  unfolding mark_stable take_and_delete insert_stable
  mark_stable-changed = grind (arith, c j, c h, get-put, get-del)

  mark_faulty-AgreesAt : AgreesAt (mark_faulty h n) j
  unfolding mark_faulty take_and_delete
  mark_faulty-AgreesAt = grind (arith, c j, c h, get-put, get-del)

  mark_faulty-changed : view (mark_faulty h n) j ≡ ite (NodeHash-discrete j h) absent (view n j)
  unfolding mark_faulty take_and_delete
  mark_faulty-changed = grind (arith, c j, c h, get-put, get-del)

  delete-AgreesAt : AgreesAt (delete h n) j
  unfolding delete
  delete-AgreesAt = grind (arith, c j, c h, get-put, get-del)

  delete-changed : view (delete h n) j ≡ ite (NodeHash-discrete j h) absent (view n j)
  unfolding delete
  delete-changed = grind (arith, c j, c h, get-put, get-del)

  mark_suspect-AgreesAt : (period : ℕ) (remote : Bool) → AgreesAt (mark_suspect period remote h n) j
  unfolding mark_suspect take_and_delete insert_suspect hash
  mark_suspect-AgreesAt period remote = grind (arith, c j, c h, get-put, get-del)

  mark_suspect-changed :
      (period : ℕ) (remote : Bool)
      → view (mark_suspect period remote h n) j
        ≡ ite (NodeHash-discrete j h) (suspected_by period remote (view n h)) (view n j)
  unfolding mark_suspect take_and_delete insert_suspect
  mark_suspect-changed period remote = grind (arith, c j, c h, get-put, get-del)

module _ (n : NodeList) (c : IsConsistent n) (period : ℕ) (node : Node) (j : NodeHash) where
  unsafe_add-AgreesAt : AgreesAt (unsafe_add period node n) j
  unfolding unsafe_add insert_stable insert_suspect
  unsafe_add-AgreesAt = grind (arith, c j, c (hash node), get-put, get-del)

  unsafe_add-changed :
      equal n.self_addr node.address ≡ false
      → view (unsafe_add period node n) j
        ≡ ite (NodeHash-discrete j (hash node)) (added period node (view n (hash node))) (view n j)
  unfolding unsafe_add insert_stable insert_suspect
  unsafe_add-changed other = grind (arith, c j, c (hash node), get-put, get-del)

module _ (n : NodeList) (c : IsConsistent n) where
  -- `MarkStable` turns a suspect into a stable node with its suspicion cleared, leaves a stable or
  -- an unknown hash alone, changes no other member, and keeps the list consistent.
  pub mark_stable-Sets : (h : NodeHash) → Sets n h (stabilised (view n h)) (mark_stable h n)
  mark_stable-Sets h = record {
    consistent = mark_stable-AgreesAt n c h;
    changed = mark_stable-changed n c h;
  }

  -- `MarkSuspect` turns a stable node into a suspect with the given period and origin, leaves a
  -- suspect (with its first period) or an unknown hash alone, changes no other member, and keeps the
  -- list consistent.
  pub mark_suspect-Sets :
      (period : ℕ) (remote : Bool) (h : NodeHash)
      → Sets n h (suspected_by period remote (view n h)) (mark_suspect period remote h n)
  mark_suspect-Sets period remote h = record {
    consistent = λ j. mark_suspect-AgreesAt n c h j period remote;
    changed = λ j. mark_suspect-changed n c h j period remote;
  }

  -- `MarkFaulty` removes the member under its hash, whatever its state, changes no other member, and
  -- keeps the list consistent.
  pub mark_faulty-Sets : (h : NodeHash) → Sets n h absent (mark_faulty h n)
  mark_faulty-Sets h = record {
    consistent = mark_faulty-AgreesAt n c h;
    changed = mark_faulty-changed n c h;
  }

  -- `Delete` has the same effect as `MarkFaulty`: the member under the hash is gone, and nothing else
  -- has changed.
  pub delete-Sets : (h : NodeHash) → Sets n h absent (delete h n)
  delete-Sets h = record { consistent = delete-AgreesAt n c h; changed = delete-changed n c h }

  -- `Add` of a node with another address than the own one enters it, stable or suspect as it says,
  -- exactly when its hash is unknown; a known member keeps its data. Nothing else changes, and the
  -- list stays consistent.
  pub unsafe_add-Sets :
      (period : ℕ) (node : Node)
      → equal n.self_addr node.address ≡ false
      → Sets n (hash node) (added period node (view n (hash node))) (unsafe_add period node n)
  unsafe_add-Sets period node other = record {
    consistent = unsafe_add-AgreesAt n c period node;
    changed = λ j. unsafe_add-changed n c period node j other;
  }

  pub unsafe_add-IsConsistent : (period : ℕ) (node : Node) → IsConsistent (unsafe_add period node n)
  unsafe_add-IsConsistent period node j = unsafe_add-AgreesAt n c period node j

-- A bootstrap with any list of nodes keeps the member list consistent.
pub bootstrap-IsConsistent :
    (period : ℕ) (list : List Node) (n : NodeList)
    → IsConsistent n
    → IsConsistent (bootstrap period list n)
unfolding bootstrap
bootstrap-IsConsistent period [] n c = c
bootstrap-IsConsistent period (v ∷ list) n c =
    bootstrap-IsConsistent period list (unsafe_add period v n)
      (unsafe_add-IsConsistent n c period v)
