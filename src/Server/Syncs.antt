-- ===== src/Server/Syncs.antt =====
-- The server as the delegate of its sync manager, and HandleTCPPacket: swim_server.go.
pub mod Known
pub mod Exchange
use eswim.Base.{
  ℕ, ◌+◌, ◌==◌, Bool, true, false, not, Option, none, some, List, [], ◌∷◌, ◌++◌, if◌then◌else◌,
}
use mathlib.Core.Option
use eswim.Proto.Node.{Node}
use eswim.Proto.Event.{join}
use eswim.Proto.Message.{Message, Sync, sync}
use eswim.Proto.Packet.{Packet}
use eswim.Proto.TcpPacket.{TcpPacket}
use eswim.Core.Ascon.{Cipher, Ascon}
use eswim.Core.NodeList.{Reordering, unsafe_add, node_type_stable, node_type_remote}
use eswim.Core.NodeManager.{NodeManager, all}
use eswim.Core.NodeManager
use eswim.Core.GossipManager.{Sorter, add}
use eswim.Core.SyncManager.{
  Delegate, Action, close, Received, crashed, unopened, unparsed, received, handle_bootstrap,
  handle_sync_request, sync_mode_first_phase, sync_mode_bootstrap, sync_mode_second_phase,
  sync_mode_bootstrap_ack,
}
use eswim.Server.{Server}
use eswim.Server.Transport.{enc_tcp_pkt, decode_tcp_packet}

-- A server, where its sync manager accepts a bootstrap from, and how often it has said on the channel
-- `bootstrapCompleted` that a bootstrap is over.
pub record Peer : Type 0 where
  pub server : Server
  pub accept_bootstrap_from : List ℕ
  pub bootstrap_completed : ℕ

-- What the methods take from outside the state: the period, the next nonce, the order of maps, and
-- what sorts and shuffles.
pub record Surroundings : Type 0 where
  pub cipher : Cipher
  pub ascon : Ascon
  pub nonce : Option (List ℕ)
  pub sorter : Sorter
  pub order : Reordering
  pub shuffle : Reordering
  pub period : ℕ

module _ (u : Surroundings) where
  -- `HandleIncomingNodeList`
  unfoldable pub handle_incoming_node_list : List Node → Peer → Peer
  handle_incoming_node_list nodes p = record p {
    server = record (p.server) {
      nodes = NodeManager.bootstrap u.order u.shuffle u.period nodes p.server.nodes;
    };
  }

  -- `AllKnownNodes`; the filter is `NodeTypeStable | NodeTypeRemote`.
  unfoldable pub all_known_nodes : Peer → List Node
  all_known_nodes p =
      all u.order (node_type_stable + node_type_remote) p.server.nodes.node_list
      ++ (record {
        suspect = false;
        incarnation = p.server.incarnation;
        address = p.server.host_address;
      }
          ∷ [])

  -- `PerformBootstrapComplete`
  unfoldable pub perform_bootstrap_complete : Node → Peer → Peer
  perform_bootstrap_complete target p = record p {
    server = record (p.server) {
      nodes = record (p.server.nodes) {
        node_list = unsafe_add u.period target p.server.nodes.node_list;
      };
      gossip =
          add u.sorter
            (join (record {
              source = p.server.host_address;
              subject = target.address;
              incarnation = target.incarnation;
            }))
            p.server.gossip;
    };
  }

  -- `BootstrapCompleted`
  unfoldable pub bootstrap_completed : Peer → Peer
  bootstrap_completed p = record p { bootstrap_completed = p.bootstrap_completed + 1 }

  -- `EncodeTCPPacket`
  unfoldable pub encode_tcp_packet : Message → Peer → Option TcpPacket
  encode_tcp_packet m p = enc_tcp_pkt u.cipher u.ascon u.nonce p.server.incarnation m

  abbrev pub delegate : Delegate Peer
  delegate = record {
    bootstrap_completed = bootstrap_completed;
    handle_incoming_node_list = handle_incoming_node_list;
    encode_tcp_packet = encode_tcp_packet;
    decode_tcp_packet = λ source p s. decode_tcp_packet u.cipher u.ascon source p;
    all_known_nodes = all_known_nodes;
    perform_bootstrap_complete = perform_bootstrap_complete;
  }

  -- The `switch sync.Mode`; the state is kept by every mode but two.
  unfoldable pub handle_sync : List ℕ → Sync → Peer → Peer × List Action
  handle_sync source m p =
      if m.mode == sync_mode_bootstrap
      then (let ((accept, p'), actions) =
            handle_bootstrap delegate m source p.accept_bootstrap_from p in
          (record p' { accept_bootstrap_from = accept }, actions))
      else if m.mode == sync_mode_first_phase
      then handle_sync_request delegate m p
      else if m.mode == sync_mode_second_phase
      then (p, close ∷ [])
      else (p, [])

  unfoldable pub handle_packet : List ℕ → Option Message → Peer → Peer × List Action
  unfolding handle_sync
  handle_packet source (some (sync m)) p = handle_sync source m p
  handle_packet source _ p = (p, close ∷ [])

  -- `HandleTCPPacket`; `none` is a panic, also that of `pkt.Message` at the nil packet that
  -- DecodeTCPPacket gives without an error when the payload cannot be opened.
  unfoldable pub handle_tcp_packet : List ℕ → TcpPacket → Peer → Option (Peer × List Action)
  unfolding handle_packet
  handle_tcp_packet source t p = elim (decode_tcp_packet u.cipher u.ascon source t) [
    | crashed ↦ none
    | unopened ↦ none
    | unparsed e ↦ some (p, close ∷ [])
    | received pkt ↦ some (handle_packet source pkt.message p)
  ]
