-- ===== src/Server/Life/Handlers.antt =====
-- What the handlers of datagrams and of TCP frames in swim_server.go leave of a server's state.
use eswim.Base.{
  ℕ, ◌≡◌, refl, subst, ◌∙◌, Bool, true, false, Option, none, some, List, [], ◌∷◌, ◌==◌,
  if◌then◌else◌, Bool-cases, inl, inr,
}
use eswim.Proto.Ip.{Ip}
use eswim.Proto.Node.{Node}
use eswim.Proto.Message.{
  Message, Sync, bootstrap_request, bootstrap_response, bootstrap_ack, ping, pong, indirect_ping,
  indirect_pong, sync,
}
use eswim.Proto.NetIp.{net_ip_equal, ip_from_net_ip}
use eswim.Proto.Packet.{Packet}
use eswim.Proto.TcpPacket.{TcpPacket}
use eswim.Core.NodeList
use eswim.Core.NodeList.{NodeList, unsafe_add}
use eswim.Core.NodeList.Refinement.{unsafe_add-IsConsistent, bootstrap-IsConsistent}
use eswim.Core.NodeManager
use eswim.Core.NodeManager.{prepare_ping_list, new_node_manager}
use eswim.Core.GossipManager.{Sorter}
use eswim.Core.GossipManager.Adding.{add-IsUnique}
use eswim.Core.SyncManager.{
  Action, close, Received, crashed, unopened, unparsed, received, after_reply, take_sync,
  handle_bootstrap, handle_sync_request,
}
use eswim.Server.Events.{unsafe_add-self_addr}
use eswim.Server.Transport.{receive, decode_tcp_packet}
use eswim.Server.Datagrams.{Host, Effect, handle_message, handle_pong, handle_udp_control_message}
use eswim.Server.Syncs.{
  Peer, Surroundings, delegate, handle_incoming_node_list, bootstrap_completed,
  perform_bootstrap_complete, handle_sync, handle_packet, handle_tcp_packet,
}
use eswim.Server.Life.Events.{IsSound, receive_ping-IsSound, receive_pong-IsSound}

module _ (host : Ip) where
  handle_message-IsSound :
      (sorter : Sorter) (period : ℕ) (p : Packet) (o : Option Message) (h : Host)
      → IsSound host h.server
      → IsSound host (handle_message sorter period p o h).0.server
  unfolding handle_message handle_pong
  handle_message-IsSound sorter period p none h i = i
  handle_message-IsSound sorter period p (some bootstrap_request) h i = i
  handle_message-IsSound sorter period p (some bootstrap_response) h i =
      elim (Bool-cases h.bootstrap_response_received) [
        | inl again ↦ rw (again) i
        | inr first ↦ rw (first) i
      ]
  handle_message-IsSound sorter period p (some bootstrap_ack) h i = i
  handle_message-IsSound sorter period p (some (ping m)) h i =
      receive_ping-IsSound sorter host h.server i period (ip_from_net_ip p.source)
        p.header.incarnation m
  handle_message-IsSound sorter period p (some (pong m)) h i =
      receive_pong-IsSound sorter host h.server i m
  handle_message-IsSound sorter period p (some (indirect_ping m)) h i = i
  handle_message-IsSound sorter period p (some (indirect_pong m)) h i = i
  handle_message-IsSound sorter period p (some (sync m)) h i = i

  bootstrap-self_addr :
      (period : ℕ) (list : List Node) (n : NodeList)
      → (NodeList.bootstrap period list n).self_addr ≡ n.self_addr
  unfolding NodeList.bootstrap
  bootstrap-self_addr period [] n = refl
  bootstrap-self_addr period (x ∷ list) n =
      bootstrap-self_addr period list (unsafe_add period x n) ∙ unsafe_add-self_addr period x n

  module _ (u : Surroundings) where
    pub handle_incoming_node_list-IsSound :
        (nodes : List Node) (p : Peer)
        → IsSound host p.server
        → IsSound host (handle_incoming_node_list u nodes p).server
    unfolding handle_incoming_node_list NodeManager.bootstrap prepare_ping_list
    handle_incoming_node_list-IsSound nodes p i = record {
      own = i.own;
      wired = record {
        consistent =
            bootstrap-IsConsistent u.period nodes p.server.nodes.node_list i.wired.consistent;
        own_address =
            bootstrap-self_addr u.period nodes p.server.nodes.node_list ∙ i.wired.own_address;
      };
      unique = i.unique;
      bounded = i.bounded;
    }

    pub perform_bootstrap_complete-IsSound :
        (target : Node) (p : Peer)
        → IsSound host p.server
        → IsSound host (perform_bootstrap_complete u target p).server
    unfolding perform_bootstrap_complete
    perform_bootstrap_complete-IsSound target p i = record {
      own = i.own;
      wired = record {
        consistent =
            unsafe_add-IsConsistent p.server.nodes.node_list i.wired.consistent u.period target;
        own_address =
            unsafe_add-self_addr u.period target p.server.nodes.node_list ∙ i.wired.own_address;
      };
      unique = add-IsUnique u.sorter _ p.server.gossip i.unique;
      bounded = i.bounded;
    }

    handle_bootstrap-IsSound :
        (source accept : List ℕ) (m : Sync) (p : Peer)
        → IsSound host p.server
        → IsSound host (handle_bootstrap (delegate u) m source accept p).0.1.server
    unfolding handle_bootstrap bootstrap_completed
    handle_bootstrap-IsSound source accept m p i = elim (Bool-cases (net_ip_equal source accept)) [
      | inl expected ↦ rw (expected) (handle_incoming_node_list-IsSound m.nodes p i)
      | inr other ↦ rw (other) i
    ]

    either-IsSound :
        (b : Bool) (x y : Peer × List Action)
        → IsSound host x.0.server
        → IsSound host y.0.server
        → IsSound host (if b then x else y).0.server
    either-IsSound true x y i j = i
    either-IsSound false x y i j = j

    handle_sync-IsSound :
        (source : List ℕ) (m : Sync) (p : Peer)
        → IsSound host p.server
        → IsSound host (handle_sync u source m p).0.server
    unfolding handle_sync handle_sync_request
    handle_sync-IsSound source m p i =
        either-IsSound (m.mode == 2) _ _
          (handle_bootstrap-IsSound source p.accept_bootstrap_from m p i)
          (either-IsSound (m.mode == 0) _ _ (handle_incoming_node_list-IsSound m.nodes p i)
            (either-IsSound (m.mode == 1) (p, close ∷ []) (p, []) i i))

    handle_packet-IsSound :
        (source : List ℕ) (o : Option Message) (p : Peer)
        → IsSound host p.server
        → IsSound host (handle_packet u source o p).0.server
    unfolding handle_packet
    handle_packet-IsSound source (some (sync m)) p i = handle_sync-IsSound source m p i
    handle_packet-IsSound source none p i = i
    handle_packet-IsSound source (some bootstrap_request) p i = i
    handle_packet-IsSound source (some bootstrap_response) p i = i
    handle_packet-IsSound source (some bootstrap_ack) p i = i
    handle_packet-IsSound source (some (ping m)) p i = i
    handle_packet-IsSound source (some (pong m)) p i = i
    handle_packet-IsSound source (some (indirect_ping m)) p i = i
    handle_packet-IsSound source (some (indirect_pong m)) p i = i

    take_sync-IsSound :
        (mode : ℕ) (act : Sync → Peer → Peer)
        → ((m : Sync) (p : Peer) → IsSound host p.server → IsSound host (act m p).server)
        → (o : Option Message) (p : Peer) → IsSound host p.server
        → IsSound host (take_sync (delegate u) mode act o p).server
    unfolding take_sync
    take_sync-IsSound mode act keeps none p i = i
    take_sync-IsSound mode act keeps (some bootstrap_request) p i = i
    take_sync-IsSound mode act keeps (some bootstrap_response) p i = i
    take_sync-IsSound mode act keeps (some bootstrap_ack) p i = i
    take_sync-IsSound mode act keeps (some (ping m)) p i = i
    take_sync-IsSound mode act keeps (some (pong m)) p i = i
    take_sync-IsSound mode act keeps (some (indirect_ping m)) p i = i
    take_sync-IsSound mode act keeps (some (indirect_pong m)) p i = i
    take_sync-IsSound mode act keeps (some (sync m)) p i = elim (Bool-cases (m.mode == mode)) [
      | inl expected ↦ rw (expected) (keeps m p i)
      | inr other ↦ rw (other) i
    ]

    abbrev Becomes : Option Peer → Type 0
    Becomes none = Unit
    Becomes (some p) = IsSound host p.server

    pub after_reply-IsSound :
        (mode : ℕ) (act : Sync → Peer → Peer)
        → ((m : Sync) (p : Peer) → IsSound host p.server → IsSound host (act m p).server)
        → (r : Received) (p p' : Peer) → after_reply (delegate u) mode act r p ≡ some p'
        → IsSound host p.server
        → IsSound host p'.server
    unfolding after_reply
    after_reply-IsSound mode act keeps crashed p p' e i = cc
    after_reply-IsSound mode act keeps unopened p p' e i = subst Becomes e i
    after_reply-IsSound mode act keeps (unparsed x) p p' e i = subst Becomes e i
    after_reply-IsSound mode act keeps (received x) p p' e i =
        subst Becomes e (take_sync-IsSound mode act keeps x.message p i)

    abbrev Answers : Option (Peer × List Action) → Type 0
    Answers none = Unit
    Answers (some r) = IsSound host r.0.server

    pub handle_tcp_packet-IsSound :
        (source : List ℕ) (f : TcpPacket) (p p' : Peer) (actions : List Action)
        → handle_tcp_packet u source f p ≡ some (p', actions)
        → IsSound host p.server
        → IsSound host p'.server
    unfolding handle_tcp_packet
    handle_tcp_packet-IsSound source f p p' actions e i =
        go (decode_tcp_packet u.cipher u.ascon source f) e
      where
        go :
            (r : Received)
            → elim r as (λ x. Option (Peer × List Action)) [
              | crashed ↦ none
              | unopened ↦ none
              | unparsed x ↦ some (p, close ∷ [])
              | received x ↦ some (handle_packet u source x.message p)
            ]
              ≡ some (p', actions)
            → IsSound host p'.server
        go crashed n = cc
        go unopened n = cc
        go (unparsed x) n = subst Answers n i
        go (received x) n = subst Answers n (handle_packet-IsSound source x.message p i)

  pub handle_udp_control_message-IsSound :
      (u : Surroundings) (period : ℕ) (source bytes : List ℕ) (h h' : Host) (effects : List Effect)
      → handle_udp_control_message u.cipher u.ascon u.sorter period source bytes h
        ≡ some (h', effects)
      → IsSound host h.server
      → IsSound host h'.server
  unfolding handle_udp_control_message
  handle_udp_control_message-IsSound u period source bytes h h' effects e i =
      go (receive u.cipher u.ascon source bytes) e
    where
      Handles : Option (Host × List Effect) → Type 0
      Handles none = Unit
      Handles (some r) = IsSound host r.0.server

      go :
          (r : Received)
          → elim r as (λ x. Option (Host × List Effect)) [
            | crashed ↦ none
            | unopened ↦ some (h, [])
            | unparsed x ↦ some (h, [])
            | received x ↦ some (handle_message u.sorter period x x.message h)
          ]
            ≡ some (h', effects)
          → IsSound host h'.server
      go crashed n = cc
      go unopened n = subst Handles n i
      go (unparsed x) n = subst Handles n i
      go (received x) n = subst Handles n (handle_message-IsSound u.sorter period x x.message h i)
