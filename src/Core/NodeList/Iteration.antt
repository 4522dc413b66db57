-- ===== src/Core/NodeList/Iteration.antt =====
-- Walks over the member list: Range and IndirectPingCandidates of internal/core/node_list.go. Go
-- visits a map in an order of its own, which is a parameter here.
pub mod Laws
pub mod Collect
use eswim.Base.{
  ℕ, ◌==◌, Bool, true, false, ◌&&◌, not, Option, none, some, List, [], ◌∷◌, ◌++◌, length, ite,
  if◌then◌else◌,
}
use eswim.Proto.Ip.{NodeHash, NodeHash-discrete}
use eswim.Proto.Node.{Node}
use eswim.Core.NodeList.{
  Suspect, NodeList, Reordering, look, keys, is_type, node_type_invalid, node_type_stable,
  node_type_suspect, node_type_remote, node_type_all,
}

-- `if wantsRemote && !v.FromRemote { continue }`
abbrev pub wanted_suspect : Bool → Option Suspect → Option Node
wanted_suspect remote none = none
wanted_suspect remote (some s) = if remote && not s.from_remote then none else some s.node

module _ {S : Type 0} (fn : Node → S → S × Bool) where
  -- One `for range` over a map, by its keys; `entry` is what the body hands to `fn`. The flag tells
  -- whether `fn` wants to go on.
  unfoldable pub range_loop : (NodeHash → Option Node) → List NodeHash → S → S × Bool
  range_loop entry [] s = (s, true)
  range_loop entry (h ∷ hs) s = elim (entry h) [
    | none ↦ range_loop entry hs s
    | some x ↦
        let (s', more) = fn x s in
        let rest = range_loop entry hs s' in if more then rest else (s', false)
  ]

  unfoldable pub range : Reordering → ℕ → NodeList → S → S
  unfolding range_loop is_type
  range order filter n s =
      let kinds = if filter == node_type_invalid then node_type_all else filter in
      let (s', more) =
        (if is_type kinds node_type_stable
          then range_loop (λ h. look h n.stable) (order.apply (keys n.stable)) s
          else (s, true)) in
      if more && is_type kinds node_type_suspect
      then (range_loop (λ h. wanted_suspect (is_type kinds node_type_remote) (look h n.suspects))
          (order.apply (keys n.suspects)) s').0
      else s'

-- What `switch source` appends; the outer `none` is the panic of `n.suspects[key].Node` at a missing
-- key, an inner one is a nil pointer.
unfoldable pub candidate : NodeList → NodeHash → ℕ → Option (List (Option Node))
candidate n h source =
    if source == node_type_stable
    then some (look h n.stable ∷ [])
    else if source == node_type_suspect
    then (elim (look h n.suspects) [ none ↦ none | some s ↦ some (some s.node ∷ []) ])
    else some []

unfoldable pub candidates_loop :
    ℕ → NodeHash → NodeList → List NodeHash → List (Option Node) → Option (List (Option Node))
unfolding candidate
candidates_loop k except n [] result = some result
candidates_loop k except n (h ∷ hs) result = elim (look h n.node_by_type) [
  | none ↦ candidates_loop k except n hs result
  | some source ↦
      let skipped = candidates_loop k except n hs result in
      ite (NodeHash-discrete h except) skipped (elim (candidate n h source) [
        | none ↦ none
        | some picked ↦
            let rest = candidates_loop k except n hs (result ++ picked) in
            if length (result ++ picked) == k then some (result ++ picked) else rest
      ])
]

-- The early return at an empty map gives the empty list as well.
unfoldable pub indirect_ping_candidates :
    Reordering → ℕ → NodeHash → NodeList → Option (List (Option Node))
unfolding candidates_loop
indirect_ping_candidates order k except n =
    candidates_loop k except n (order.apply (keys n.node_by_type)) []
