-- ===== src/Core/NodeManager/PingList.antt =====
-- The ping list of internal/core/node_manager.go: whom it holds when it is prepared, and when it runs
-- dry for good.
use eswim.Base.{ℕ, ◌≡◌, refl, ◌∙◌, Bool, none, List, [], ◌∷◌, arith}
use eswim.Proto.Ip.{Ip, NodeHash}
use eswim.Proto.Node.{Node}
use eswim.Core.NodeList
use eswim.Core.NodeList.{Reordering, NodeList, expired_suspects}
use eswim.Core.NodeList.Keys.{contains, contains-apply}
use eswim.Core.NodeList.View.{IsConsistent, view, member_node, node_by_hash-view}
use eswim.Core.NodeList.Iteration.Collect.{is_member, contains-range}
use eswim.Core.NodeManager.{
  NodeManager, new_node_manager, prepare_ping_list, update_or_create, wrap_incarnation, mark_faulty,
  next_ping, remove_first, refill,
}

-- The calls that a server makes on its manager, but for Bootstrap.
pub data Call : Type 0 where
  add : ℕ → Node → Call
  update : ℕ → Node → Call
  wrap : ℕ → Node → Call
  stabilise : NodeHash → Call
  suspect : ℕ → Bool → NodeHash → Call
  fail : NodeHash → Call
  delete : NodeHash → Call
  expire : ℕ → ℕ → Call
  ping : Call

module _ (order shuffle : Reordering) where
  -- A ping list that is prepared from a consistent member list holds the hash of every member,
  -- stable or suspect, and no other hash.
  pub contains-prepare_ping_list :
      (m : NodeManager) (h : NodeHash)
      → IsConsistent m.node_list
      → contains h (prepare_ping_list order shuffle m).nodes_to_ping
        ≡ is_member (view m.node_list h)
  unfolding prepare_ping_list
  contains-prepare_ping_list m h c =
      contains-apply shuffle h _ ∙ contains-range m.node_list c order h

  unfoldable pub perform : Call → NodeManager → NodeManager
  perform (add period x) m = record m { node_list = NodeList.unsafe_add period x m.node_list }
  perform (update period x) m = update_or_create period x m
  perform (wrap period x) m = wrap_incarnation period x m
  perform (stabilise h) m = record m { node_list = NodeList.mark_stable h m.node_list }
  perform (suspect period remote h) m = record m {
    node_list = NodeList.mark_suspect period remote h m.node_list;
  }
  perform (fail h) m = mark_faulty h m
  perform (delete h) m = record m { node_list = NodeList.delete h m.node_list }
  perform (expire current rounds) m = record m {
    node_list = (expired_suspects order current rounds m.node_list).0;
  }
  perform ping m = (next_ping order shuffle m).0

  unfoldable pub perform_all : List Call → NodeManager → NodeManager
  unfolding perform
  perform_all [] m = m
  perform_all (call ∷ calls) m = perform_all calls (perform call m)

  perform-starved :
      (call : Call) (m : NodeManager) → m.nodes_to_ping ≡ [] → (perform call m).nodes_to_ping ≡ []
  unfolding perform update_or_create wrap_incarnation mark_faulty remove_first next_ping
  perform-starved (add period x) m e = e
  perform-starved call m e = ground arith

  perform_all-starved :
      (calls : List Call) (m : NodeManager)
      → m.nodes_to_ping ≡ []
      → (perform_all calls m).nodes_to_ping ≡ []
  unfolding perform_all
  perform_all-starved [] m e = e
  perform_all-starved (call ∷ calls) m e =
      perform_all-starved calls (perform call m) (perform-starved call m e)

  -- A manager that has not been bootstrapped never names a node to ping, whatever nodes are added,
  -- updated, suspected or removed meanwhile.
  pub next_ping-starved :
      (self : Ip) (calls : List Call)
      → (next_ping order shuffle (perform_all calls (new_node_manager self))).1 ≡ none
  unfolding next_ping new_node_manager
  next_ping-starved self calls =
      ground (arith, perform_all-starved calls (new_node_manager self) refl)

  -- On a consistent list `NextPing` answers the member under the first hash of the ping list, or nil if
  -- it is a member no longer. It drops that hash and keeps the others in order, and the member list.
  pub next_ping_first :
      (m : NodeManager) (h i : NodeHash) (rest : List NodeHash)
      → m.nodes_to_ping ≡ h ∷ i ∷ rest
      → IsConsistent m.node_list
      → ((next_ping order shuffle m).1 ≡ member_node (view m.node_list h))
        × ((next_ping order shuffle m).0 ≡ record m { nodes_to_ping = i ∷ rest })
  unfolding next_ping refill
  next_ping_first m h i rest e c = ground (arith, node_by_hash-view h m.node_list c)

  -- At the last hash of the ping list it answers the member under it in the same way, and the next
  -- round holds exactly the members; the member list stays.
  pub next_ping_last :
      (m : NodeManager) (h : NodeHash)
      → m.nodes_to_ping ≡ h ∷ []
      → IsConsistent m.node_list
      → ((next_ping order shuffle m).1 ≡ member_node (view m.node_list h))
        × ((next_ping order shuffle m).0.node_list ≡ m.node_list)
        × ((j : NodeHash)
            → contains j (next_ping order shuffle m).0.nodes_to_ping
              ≡ is_member (view m.node_list j))
  unfolding next_ping refill
  next_ping_last m h e c = (
    ground (arith, kept, node_by_hash-view h m.node_list c),
    ground (arith, kept),
    λ j. ground (arith, contains-prepare_ping_list (record m { nodes_to_ping = [] }) j c),
  )
    where
      kept :
          (prepare_ping_list order shuffle (record m { nodes_to_ping = [] })).node_list
          ≡ m.node_list
      kept = unfold prepare_ping_list in refl
