-- ===== src/Core/NodeManager.antt =====
-- The members and the order in which they are pinged: internal/core/node_manager.go. The methods
-- that `nodeManager` inherits from the embedded `nodeList` (Add, MarkStable, MarkSuspect, Delete,
-- ExpiredSuspects) work on the field `node_list`. A write of `localNode.Incarnation` goes through
-- the pointer that the member list holds, so it is `set_incarnation` on that list.
pub mod Update
pub mod PingList
use eswim.Base.{
  ℕ, ◌==◌, ltb, Bool, true, false, Option, none, some, List, [], ◌∷◌, ◌++◌, ite, if◌then◌else◌,
}
use eswim.Base.Assoc.{put}
use eswim.Proto.Ip.{Ip, NodeHash, NodeHash-discrete}
use eswim.Proto.Node.{Node, hash}
use eswim.Core.NodeList
use eswim.Core.NodeList.{
  Suspect, NodeList, Reordering, look, node_type_stable, new_node_list, unsafe_add, mark_stable,
  mark_suspect, expired_suspects, node_by_hash,
}
use eswim.Core.NodeList.Iteration.{range}

pub record NodeManager : Type 0 where
  pub node_list : NodeList
  pub nodes_to_ping : List NodeHash
  pub self_addr : Ip

unfoldable pub new_node_manager : Ip → NodeManager
new_node_manager self = record {
  node_list = new_node_list self;
  nodes_to_ping = [];
  self_addr = self;
}

-- `localNode.Incarnation = inc`, with `localNode` from NodeByHash.
unfoldable pub set_incarnation : NodeHash → ℕ → NodeList → NodeList
set_incarnation h inc n = elim (look h n.node_by_type) [
  | none ↦ n
  | some kind ↦
      if kind == node_type_stable
      then (elim (look h n.stable) [
        | none ↦ n
        | some x ↦ record n {
          stable = put NodeHash-discrete h (record x { incarnation = inc }) n.stable;
        }
      ])
      else (elim (look h n.suspects) [
        | none ↦ n
        | some s ↦ record n {
          suspects =
              put NodeHash-discrete h (record s { node = record (s.node) { incarnation = inc } })
                n.suspects;
        }
      ])
]

-- `All`: the values of the nodes that match the filter.
unfoldable pub all : Reordering → ℕ → NodeList → List Node
all order filter n = range (λ x acc. (acc ++ (x ∷ []), true)) order filter n []

-- `unsafePreparePingList`; `shuffle` is `rand.Shuffle`.
unfoldable pub prepare_ping_list : Reordering → Reordering → NodeManager → NodeManager
prepare_ping_list order shuffle m = record m {
  nodes_to_ping =
      shuffle.apply (range (λ x acc. (acc ++ (hash x ∷ []), true)) order 3 m.node_list []);
}

unfoldable pub bootstrap : Reordering → Reordering → ℕ → List Node → NodeManager → NodeManager
bootstrap order shuffle period list m =
    prepare_ping_list order shuffle
      (record m { node_list = NodeList.bootstrap period list m.node_list })

unfoldable pub wrap_list : ℕ → Node → NodeList → NodeList
wrap_list period node n = elim (node_by_hash (hash node) n) [
  | none ↦ unsafe_add period node n
  | some known ↦ set_incarnation (hash node) node.incarnation (mark_stable (hash node) n)
]

unfoldable pub wrap_incarnation : ℕ → Node → NodeManager → NodeManager
unfolding wrap_list
wrap_incarnation period node m = record m { node_list = wrap_list period node m.node_list }

unfoldable pub update_list : ℕ → Node → NodeList → NodeList
update_list period node n = elim (node_by_hash (hash node) n) [
  | none ↦ unsafe_add period node n
  | some known ↦
      let written = set_incarnation (hash node) node.incarnation n in
      if ltb node.incarnation known.incarnation
      then n
      else if node.suspect
      then mark_suspect period true (hash node) written
      else mark_stable (hash node) written
]

unfoldable pub update_or_create : ℕ → Node → NodeManager → NodeManager
unfolding update_list
update_or_create period node m = record m { node_list = update_list period node m.node_list }

-- `slices.Delete` at `slices.Index`: the first occurrence goes.
unfoldable pub remove_first : NodeHash → List NodeHash → List NodeHash
remove_first h [] = []
remove_first h (j ∷ l) = ite (NodeHash-discrete j h) l (j ∷ remove_first h l)

unfoldable pub mark_faulty : NodeHash → NodeManager → NodeManager
unfolding remove_first
mark_faulty h m = record m {
  node_list = NodeList.mark_faulty h m.node_list;
  nodes_to_ping = remove_first h m.nodes_to_ping;
}

unfoldable pub refill : Reordering → Reordering → NodeManager → NodeManager
refill order shuffle m = elim m.nodes_to_ping [
  | [] ↦ prepare_ping_list order shuffle m
  | h ∷ hs ↦ m
]

unfoldable pub next_ping : Reordering → Reordering → NodeManager → NodeManager × Option Node
unfolding refill
next_ping order shuffle m = elim m.nodes_to_ping [
  | [] ↦ (m, none)
  | h ∷ rest ↦
      let m' = refill order shuffle (record m { nodes_to_ping = rest }) in
      (m', node_by_hash h m'.node_list)
]
