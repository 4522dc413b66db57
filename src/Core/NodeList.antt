-- ===== src/Core/NodeList.antt =====
-- The member list: internal/core/node_list.go. A method that changes `*nodeList` returns the new
-- record. A `*proto.Node` in a map is its value: each pointer is held by one entry of one map, so
-- a write through it is a write of that entry. The locks are left out, since the methods are taken
-- one at a time.
pub mod Keys
pub mod View
pub mod Refinement
pub mod Expiry
pub mod Iteration
use eswim.Base.{
  ℕ, ◌+◌, ◌-◌, ◌==◌, leb, Bool, true, false, ◌&&◌, not, Option, none, some, List, [], ◌∷◌, ◌++◌,
  map, length, ite, if◌then◌else◌, bit_and,
}
use eswim.Base.Assoc.{get, put, del}
use eswim.Proto.Ip.{Ip, NodeHash, NodeHash-discrete, into_hash, equal}
use eswim.Proto.Node.{Node, hash}
use mathlib.Core.List.{Perm}
use Prim.Native.Nat.{min}

-- The bits of `NodeType`.
abbrev pub node_type_invalid : ℕ
node_type_invalid = 0

abbrev pub node_type_stable : ℕ
node_type_stable = 1

abbrev pub node_type_suspect : ℕ
node_type_suspect = 2

abbrev pub node_type_remote : ℕ
node_type_remote = 4

abbrev pub node_type_all : ℕ
node_type_all = 3

-- `NodeType.Is`
unfoldable pub is_type : ℕ → ℕ → Bool
is_type n o = bit_and n o == o

pub record Suspect : Type 0 where
  pub node : Node
  pub suspect_at_period : ℕ  -- uint16
  pub from_remote : Bool

pub record NodeList : Type 0 where
  pub node_by_type : List (NodeHash × ℕ)
  pub stable : List (NodeHash × Node)
  pub suspects : List (NodeHash × Suspect)
  pub self_addr : Ip

-- An order in which Go may visit the keys of a map, or into which it may shuffle a list: any
-- rearrangement.
pub record Reordering : Type 0 where
  pub apply : List NodeHash → List NodeHash
  pub apply-perm : (l : List NodeHash) → Perm (apply l) l

abbrev pub look : {V : Type 0} → NodeHash → List (NodeHash × V) → Option V
look = get NodeHash-discrete

abbrev pub keys : {V : Type 0} → List (NodeHash × V) → List NodeHash
keys = map (λ e. e.0)

unfoldable pub new_node_list : Ip → NodeList
new_node_list self = record { node_by_type = []; stable = []; suspects = []; self_addr = self }

-- The three map writes that every transition is made of.
unfoldable pub insert_stable : NodeHash → Node → NodeList → NodeList
insert_stable h node n = record n {
  node_by_type = put NodeHash-discrete h node_type_stable n.node_by_type;
  stable = put NodeHash-discrete h node n.stable;
}

unfoldable pub insert_suspect : NodeHash → Suspect → NodeList → NodeList
insert_suspect h s n = record n {
  node_by_type = put NodeHash-discrete h node_type_suspect n.node_by_type;
  suspects = put NodeHash-discrete h s n.suspects;
}

unfoldable pub unsafe_add : ℕ → Node → NodeList → NodeList
unsafe_add period node n =
    if equal n.self_addr node.address then n else (elim (look (hash node) n.node_by_type) [
      | some known ↦ n
      | none ↦
          if not node.suspect
          then insert_stable (hash node) node n
          else insert_suspect (hash node)
              (record { node = node; suspect_at_period = period; from_remote = true }) n
    ])

-- `unsafeTakeAndDelete`: the node, and the list without it.
unfoldable pub take_and_delete : NodeHash → ℕ → NodeList → Option (Node × NodeList)
take_and_delete h source n =
    if source == node_type_stable
    then (elim (look h n.stable) [
      | none ↦ none
      | some node ↦ some (
        node,
        record n {
          node_by_type = del NodeHash-discrete h n.node_by_type;
          stable = del NodeHash-discrete h n.stable;
        },
      )
    ])
    else if source == node_type_suspect
    then (elim (look h n.suspects) [
      | none ↦ none
      | some s ↦ some (
        s.node,
        record n {
          node_by_type = del NodeHash-discrete h n.node_by_type;
          suspects = del NodeHash-discrete h n.suspects;
        },
      )
    ])
    else none

unfoldable pub mark_stable : NodeHash → NodeList → NodeList
mark_stable h n = elim (look h n.node_by_type) [
  | none ↦ n
  | some current ↦ if current == node_type_stable then n else (elim (take_and_delete h current n) [
    | none ↦ n
    | some (node, rest) ↦ insert_stable h (record node { suspect = false }) rest
  ])
]

unfoldable pub mark_suspect : ℕ → Bool → NodeHash → NodeList → NodeList
mark_suspect period remote h n = elim (look h n.node_by_type) [
  | none ↦ n
  | some current ↦ if current == node_type_suspect then n else (elim (take_and_delete h current n) [
    | none ↦ n
    | some (node, rest) ↦
        insert_suspect h
          (record {
            node = record node { suspect = true };
            suspect_at_period = period;
            from_remote = remote;
          })
          rest
  ])
]

-- `unsafeMarkFaulty` and `MarkFaulty`
unfoldable pub mark_faulty : NodeHash → NodeList → NodeList
mark_faulty h n = elim (look h n.node_by_type) [
  | none ↦ n
  | some current ↦ elim (take_and_delete h current n) [ none ↦ n | some (node, rest) ↦ rest ]
]

-- The distance of two periods, as the float computation gives it: uint16(min(|a - b|, 65534)).
unfoldable pub period_distance : ℕ → ℕ → ℕ
period_distance a b = min ((a - b) + (b - a)) 65534

unfoldable pub expired_loop : ℕ → ℕ → List NodeHash → NodeList → List Node → NodeList × List Node
unfolding period_distance
expired_loop current rounds [] n result = (n, result)
expired_loop current rounds (h ∷ hs) n result = elim (look h n.suspects) [
  | none ↦ expired_loop current rounds hs n result
  | some s ↦
      let kept = expired_loop current rounds hs n result in
      let removed = expired_loop current rounds hs (mark_faulty h n) result in
      let listed = expired_loop current rounds hs n (result ++ (s.node ∷ [])) in
      if leb rounds (period_distance current s.suspect_at_period)
      then if s.from_remote then removed else listed
      else kept
]

unfoldable pub expired_suspects : Reordering → ℕ → ℕ → NodeList → NodeList × List Node
unfolding expired_loop
expired_suspects order current rounds n =
    expired_loop current rounds (order.apply (keys n.suspects)) n []

unfoldable pub delete : NodeHash → NodeList → NodeList
delete h n = elim (look h n.node_by_type) [
  | none ↦ n
  | some current ↦
      let rest = record n { node_by_type = del NodeHash-discrete h n.node_by_type } in
      if current == node_type_stable
      then record rest { stable = del NodeHash-discrete h n.stable }
      else if current == node_type_suspect
      then record rest { suspects = del NodeHash-discrete h n.suspects }
      else rest
]

unfoldable pub bootstrap : ℕ → List Node → NodeList → NodeList
bootstrap period [] n = n
bootstrap period (v ∷ list) n = bootstrap period list (unsafe_add period v n)

unfoldable pub node_by_hash : NodeHash → NodeList → Option Node
node_by_hash h n = elim (look h n.node_by_type) [
  | none ↦ none
  | some kind ↦
      if kind == node_type_stable
      then look h n.stable
      else (elim (look h n.suspects) [ none ↦ none | some s ↦ some s.node ])
]

unfoldable pub node_by_ip : Ip → NodeList → Option Node
node_by_ip ip n = node_by_hash (into_hash ip) n
