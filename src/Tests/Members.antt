-- ===== src/Tests/Members.antt =====
-- A cluster of two members: a stable node, and a suspect that another node reported in period 1.
use eswim.Base.{◌≡◌, refl, true, false, none, List, [], ◌∷◌, arith}
use eswim.Base.{bytes_equal, ℕ_discrete}
use eswim.Base.Assoc.{get, put}
use eswim.Proto.Ip.{
  Ip, NodeHash, NodeHash-discrete, equal, into_hash, bytes, size, kind_size, addr_from_slice,
}
use eswim.Proto.Node.{Node, hash}
use eswim.Core.NodeList.{
  NodeList, Reordering, new_node_list, bootstrap, unsafe_add, expired_suspects,
}
use eswim.Core.NodeList.View.{IsConsistent, view, new_node_list-IsConsistent}
use eswim.Core.NodeList.Refinement.{Sets, bootstrap-IsConsistent}
use eswim.Core.NodeList.{keys, insert_stable, insert_suspect}
use eswim.Core.NodeList.Expiry.{swept, all_reported, expired_suspects_lem}
use eswim.Core.NodeList.Iteration.{indirect_ping_candidates}
use eswim.Core.NodeList.Iteration.Laws.{Delegates, indirect_ping_candidates-Delegates}
use eswim.Core.NodeManager.{NodeManager, new_node_manager, update_list, next_ping}
use eswim.Core.NodeManager.Update.{updated, update_list-Sets}
use eswim.Core.NodeManager.PingList.{add, stabilise, perform_all, next_ping-starved}
use mathlib.Core.List.Perm
use eswim.Base.Int.{pos}
use eswim.Core.GossipManager.{Sorter, new_gossip_manager}
use eswim.Server.{Server, process_expired_suspects}
use eswim.Server.Expiry.{expelled, process_expired_suspects-expelled}

abbrev pub self : Ip
self = record { address_kind = 0; address_bytes = 10 ∷ 0 ∷ 0 ∷ 1 ∷ [] }

abbrev pub node_a : Node
node_a = record {
  suspect = false;
  incarnation = 3;
  address = record { address_kind = 0; address_bytes = 10 ∷ 0 ∷ 0 ∷ 2 ∷ [] };
}

abbrev pub node_b : Node
node_b = record {
  suspect = true;
  incarnation = 5;
  address = record { address_kind = 0; address_bytes = 10 ∷ 0 ∷ 0 ∷ 3 ∷ [] };
}

abbrev pub node_c : Node
node_c = record {
  suspect = false;
  incarnation = 1;
  address = record { address_kind = 0; address_bytes = 10 ∷ 0 ∷ 0 ∷ 4 ∷ [] };
}

abbrev pub unchanged : Reordering
unchanged = record { apply = λ l. l; apply-perm = λ l. Perm.refl l }

abbrev pub cluster : NodeList
cluster = bootstrap 1 (node_a ∷ node_b ∷ []) (new_node_list self)

pub cluster-IsConsistent : IsConsistent cluster
cluster-IsConsistent =
    bootstrap-IsConsistent 1 (node_a ∷ node_b ∷ []) (new_node_list self)
      (new_node_list-IsConsistent self)

outsider_b : equal cluster.self_addr node_b.address ≡ false
unfolding equal bytes_equal bootstrap unsafe_add insert_stable insert_suspect get put new_node_list
    NodeHash-discrete hash into_hash bytes size kind_size addr_from_slice ℕ_discrete
outsider_b = refl

expired_suspects_lem_example :
    IsConsistent (expired_suspects unchanged 9 2 cluster).0
    × ((j : NodeHash)
        → view (expired_suspects unchanged 9 2 cluster).0 j ≡ swept 9 2 (view cluster j))
    × ((expired_suspects unchanged 9 2 cluster).1
        ≡ all_reported 9 2 cluster (unchanged.apply (keys cluster.suspects)))
expired_suspects_lem_example = expired_suspects_lem 9 2 unchanged cluster cluster-IsConsistent

indirect_ping_candidates-Delegates_example :
    Delegates 2 (hash node_a) cluster (indirect_ping_candidates unchanged 2 (hash node_a) cluster)
indirect_ping_candidates-Delegates_example =
    indirect_ping_candidates-Delegates cluster cluster-IsConsistent 2 (hash node_a) unchanged
      (omega arith)

update_list-Sets_example :
    Sets cluster
      (hash node_b)
      (updated 4 (record node_b { incarnation = 6 }) (view cluster (hash node_b)))
      (update_list 4 (record node_b { incarnation = 6 }) cluster)
unfolding hash
update_list-Sets_example =
    update_list-Sets cluster cluster-IsConsistent 4 (record node_b { incarnation = 6 }) outsider_b

-- A manager in the middle of a round, at the last hash of its ping list, and after a bootstrap.
abbrev pub manager : List NodeHash → NodeManager
manager hs = record { node_list = cluster; nodes_to_ping = hs; self_addr = self }

next_ping-starved_example :
    (next_ping unchanged unchanged (
      perform_all unchanged unchanged
        (add 1 node_a ∷ stabilise (hash node_a) ∷ [])
        (new_node_manager self))).1
    ≡ none
next_ping-starved_example =
    next_ping-starved unchanged unchanged self (add 1 node_a ∷ stabilise (hash node_a) ∷ [])

-- A server with these members.
abbrev pub server : Server
server = record {
  host_address = self;
  incarnation = 4;
  nodes = manager [];
  gossip = new_gossip_manager (pos 1);
}

abbrev pub unsorted : Sorter
unsorted = record { apply = λ l. l; apply-perm = λ l. Perm.refl l }

process_expired_suspects-expelled_example :
    IsConsistent (process_expired_suspects unsorted unchanged 2 9 server).nodes.node_list
    × ((j : NodeHash)
        → view (process_expired_suspects unsorted unchanged 2 9 server).nodes.node_list j
          ≡ expelled 9 2 (view cluster j))
process_expired_suspects-expelled_example =
    process_expired_suspects-expelled unsorted unchanged 2 9 server cluster-IsConsistent
