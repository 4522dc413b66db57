-- ===== src/Core/NodeList/View.antt =====
-- The abstract member list: for each hash, nothing, a stable node, or a suspect. A list is consistent
-- when its three maps agree; then this view is all there is to it.
use eswim.Base.{ℕ, ◌≡◌, Option, none, some, true, false, arith}
use eswim.Base.Assoc.{get}
use eswim.Proto.Ip.{NodeHash, Ip}
use eswim.Proto.Node.{Node, hash}
use eswim.Core.NodeList.{
  Suspect, NodeList, look, node_type_stable, node_type_suspect, new_node_list, node_by_hash,
}

pub data Member : Type 0 where
  absent : Member
  stable : Node → Member
  suspected : Suspect → Member

-- What the three maps may hold under the hash `h`.
abbrev pub Agrees : NodeHash → Option ℕ → Option Node → Option Suspect → Type 0
Agrees h none none none = Unit
Agrees h (some t) (some x) none = (t ≡ node_type_stable) × (x.suspect ≡ false) × (hash x ≡ h)
Agrees h (some t) none (some s) =
    (t ≡ node_type_suspect) × (s.node.suspect ≡ true) × (hash s.node ≡ h)
Agrees h _ _ _ = ⊥

abbrev pub IsConsistent : NodeList → Type 0
IsConsistent n =
    (h : NodeHash) → Agrees h (look h n.node_by_type) (look h n.stable) (look h n.suspects)

abbrev pub member_of : Option Node → Option Suspect → Member
member_of (some x) _ = stable x
member_of none (some s) = suspected s
member_of none none = absent

abbrev pub view : NodeList → NodeHash → Member
view n h = member_of (look h n.stable) (look h n.suspects)

abbrev pub member_node : Member → Option Node
member_node absent = none
member_node (stable x) = some x
member_node (suspected s) = some s.node

-- A new list is consistent.
pub new_node_list-IsConsistent : (self : Ip) → IsConsistent (new_node_list self)
unfolding new_node_list get
new_node_list-IsConsistent self h = tt

-- On a consistent list `NodeByHash` answers the member that the view has under the hash, stable or
-- suspect, or nil.
pub node_by_hash-view :
    (h : NodeHash) (n : NodeList) → IsConsistent n → node_by_hash h n ≡ member_node (view n h)
unfolding node_by_hash
node_by_hash-view h n c = ground (arith, c h)
