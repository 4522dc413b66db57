-- ===== src/Server/Loop.antt =====
-- The server as the delegate of its run loop: swim_server.go. What a method hands to the sockets or to the
-- sync manager is appended to `outgoing`.
pub mod Turns
use eswim.Base.{ℕ, Bool, true, false, Option, none, some, List, [], ◌∷◌, ◌++◌}
use eswim.Proto.Ip.{Ip, NodeHash, bytes}
use eswim.Proto.Node.{Node}
use eswim.Proto.Event.{Event}
use eswim.Proto.Message.{Message}
use eswim.Core.NodeList.{Reordering, node_by_hash}
use eswim.Core.NodeList.Iteration.{indirect_ping_candidates}
use eswim.Core.NodeManager.{next_ping}
use eswim.Core.GossipManager
use eswim.Core.GossipManager.{Sorter}
use eswim.Core.RunLoop.{Delegate}
use eswim.Server.{Server, signal_healthy_node, signal_suspect_node, process_expired_suspects}
use eswim.Server.FullSync.{perform_full_sync}

pub data Outgoing : Type 0 where
  datagram : List ℕ → ℕ → Message → Outgoing
  full_sync : Node → Outgoing

-- A server, the node that it last synced with, and what it sends.
pub record Running : Type 0 where
  pub server : Server
  pub last_full_sync_node : NodeHash
  pub outgoing : List Outgoing

-- The options that the methods read, and what sorts, shuffles and orders the maps.
pub record Tuning : Type 0 where
  pub sorter : Sorter
  pub order : Reordering
  pub shuffle : Reordering
  pub indirect_pings : ℕ
  pub suspect_periods : ℕ
  pub ping_timeout : ℕ

-- The nodes of IndirectPingCandidates; a nil pointer, which a consistent list does not give, is left
-- out here.
unfoldable pub members_of : List (Option Node) → List Node
members_of [] = []
members_of (none ∷ l) = members_of l
members_of (some x ∷ l) = x ∷ members_of l

unfoldable pub indirect_members : Option (List (Option Node)) → List Node
unfolding members_of
indirect_members none = []
indirect_members (some l) = members_of l

module _ (t : Tuning) where
  unfoldable pub next_probe_subject : Running → Running × Option Node
  next_probe_subject s =
      let (m, probed) = next_ping t.order t.shuffle s.server.nodes in
      (record s { server = record (s.server) { nodes = m } }, probed)

  unfoldable pub gossip_events : ℕ → Running → Running × List Event
  gossip_events max_len s =
      let (g, events) = GossipManager.next t.sorter max_len s.server.gossip in
      (record s { server = record (s.server) { gossip = g } }, events)

  unfoldable pub dispatch_message : Ip → Message → Running → Running
  dispatch_message ip m s = record s {
    outgoing = s.outgoing ++ (datagram (bytes ip) s.server.incarnation m ∷ []);
  }

  -- `PerformFullSync`, with the selection of its own.
  unfoldable pub sync_with_next : Running → Running
  sync_with_next s =
      let (last, selected) =
        perform_full_sync t.order s.last_full_sync_node s.server.nodes.node_list in
      elim selected [
        | none ↦ s
        | some x ↦ record s {
          last_full_sync_node = last;
          outgoing = s.outgoing ++ (full_sync x ∷ []);
        }
      ]

  unfoldable pub loop_delegate : Delegate Running
  unfolding next_probe_subject gossip_events dispatch_message sync_with_next indirect_members
  loop_delegate = record {
    next_probe_subject = next_probe_subject;
    gossip_events = gossip_events;
    dispatch_message = dispatch_message;
    signal_healthy_node = λ h s. record s { server = signal_healthy_node h s.server };
    signal_suspect_node =
        λ period h s. record s { server = signal_suspect_node t.sorter period h s.server };
    process_expired_suspects = λ period s. record s {
      server = process_expired_suspects t.sorter t.order t.suspect_periods period s.server;
    };
    ping_timeout_setting = λ s. t.ping_timeout;
    indirect_ping_members = λ h s.
        indirect_members
          (indirect_ping_candidates t.order t.indirect_pings h s.server.nodes.node_list);
    node_by_hash = λ h s. node_by_hash h s.server.nodes.node_list;
    perform_full_sync = sync_with_next;
  }
