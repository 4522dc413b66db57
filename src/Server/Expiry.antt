-- ===== src/Server/Expiry.antt =====
-- ProcessExpiredSuspects of swim_server.go: who leaves the member list.
use eswim.Base.{
  ℕ, ◌≡◌, refl, ap, ◌∙◌, Bool, true, false, ◌&&◌, not, List, [], ◌∷◌, map, arith, if◌then◌else◌,
  ite, Option-cases, inl, inr,
}
use eswim.Proto.Ip.{NodeHash, NodeHash-discrete, hash_zero}
use mathlib.Core.List.{map-append}
use eswim.Proto.Node.{Node, hash}
use eswim.Core.NodeList.{NodeList, Reordering, look, keys, expired_suspects}
use eswim.Core.NodeList.Keys.{contains, contains-append}
use eswim.Core.NodeList.View.{Member, absent, stable, suspected, IsConsistent, view}
use eswim.Core.NodeList.Refinement.{mark_faulty-Sets}
use eswim.Core.NodeList.Expiry.{
  is_expired, reported, all_reported, expired_suspects_lem, visits_suspects,
}
use eswim.Core.NodeManager
use eswim.Core.GossipManager.{Sorter}
use eswim.Server.{Server, announce_faulty, process_expired_suspects}

module _ (current rounds : ℕ) where
  -- What becomes of a member when the expired suspects have been processed.
  abbrev pub expelled : Member → Member
  expelled absent = absent
  expelled (stable x) = stable x
  expelled (suspected s) = if is_expired current rounds s then absent else suspected s

  abbrev is_reported : Member → Bool
  is_reported absent = false
  is_reported (stable x) = false
  is_reported (suspected s) = is_expired current rounds s && not s.from_remote

  contains-reported :
      (n : NodeList) (c : IsConsistent n) (j h : NodeHash)
      → contains j (map hash (reported current rounds (view n h)))
        ≡ (ite (NodeHash-discrete j h) true false && is_reported (view n h))
  contains-reported n c j h = ground (arith, c h)

  contains-all_reported :
      (n : NodeList) (c : IsConsistent n) (j : NodeHash) (hs : List NodeHash)
      → contains j (map hash (all_reported current rounds n hs))
        ≡ (contains j hs && is_reported (view n j))
  contains-all_reported n c j [] = refl
  contains-all_reported n c j (h ∷ hs) =
      ap (contains j) (map-append hash (reported current rounds (view n h)) _)
      ∙ contains-append j (map hash (reported current rounds (view n h)))
          (map hash (all_reported current rounds n hs))
      ∙ ground (arith, contains-reported n c j h, contains-all_reported n c j hs)

module _ (sorter : Sorter) where
  announce_faulty-view :
      (ns : List Node) (s : Server) (j : NodeHash)
      → IsConsistent s.nodes.node_list
      → IsConsistent (announce_faulty sorter ns s).nodes.node_list
        × (view (announce_faulty sorter ns s).nodes.node_list j
            ≡ (if contains j (map hash ns) then absent else view s.nodes.node_list j))
  unfolding announce_faulty NodeManager.mark_faulty
  announce_faulty-view [] s j c = (c, refl)
  announce_faulty-view (n ∷ ns) s j c =
      let sets = mark_faulty-Sets s.nodes.node_list c (hash n) in
      let (c', e) = announce_faulty-view ns _ j sets.consistent in
      (c', e ∙ ground (arith, sets.changed j))

  -- When the expired suspects of a consistent member list have been processed, exactly the
  -- suspects whose time is over have left it, whether this node or another found them, and it
  -- is still consistent. The time of a suspect is over when the identifier
  -- of the period is at least the number of rounds above, or at least that number below, that of the
  -- period in which the suspicion began, and that number is not the highest uint16; so it may be over at
  -- once when the identifiers start again from 0.
  pub process_expired_suspects-expelled :
      (order : Reordering) (rounds period : ℕ) (s : Server)
      → IsConsistent s.nodes.node_list
      → IsConsistent (process_expired_suspects sorter order rounds period s).nodes.node_list
        × ((j : NodeHash)
            → view (process_expired_suspects sorter order rounds period s).nodes.node_list j
              ≡ expelled period rounds (view s.nodes.node_list j))
  unfolding process_expired_suspects
  process_expired_suspects-expelled order rounds period s c = (
    (announce_faulty-view expired started hash_zero
        (expired_suspects_lem period rounds order s.nodes.node_list c).0).0,
    λ j.
        (announce_faulty-view expired started j
          (expired_suspects_lem period rounds order s.nodes.node_list c).0).1
        ∙ at j,
  )
    where
      expired : List Node
      expired = (expired_suspects order period rounds s.nodes.node_list).1

      started : Server
      started = record s {
        nodes = record (s.nodes) {
          node_list = (expired_suspects order period rounds s.nodes.node_list).0;
        };
      }

      visited : List NodeHash
      visited = order.apply (keys s.nodes.node_list.suspects)

      at :
          (j : NodeHash)
          → (if contains j (map hash expired) then absent else view started.nodes.node_list j)
            ≡ expelled period rounds (view s.nodes.node_list j)
      at j =
          let swept_list = expired_suspects_lem period rounds order s.nodes.node_list c in
          let listed : contains j (map hash expired)
              ≡ (contains j visited && is_reported period rounds (view s.nodes.node_list j)) =
            ap (λ l. contains j (map hash l)) swept_list.2
            ∙ contains-all_reported period rounds s.nodes.node_list c j visited in
          elim (Option-cases (look j s.nodes.node_list.suspects)) [
            | inl unknown ↦ ground (arith, listed, swept_list.1 j, c j)
            | inr (x, here) ↦ ground (
              arith,
              listed,
              swept_list.1 j,
              c j,
              visits_suspects period rounds order s.nodes.node_list j x here,
            )
          ]
