-- ===== src/Server/Syncs/Exchange.antt =====
-- A full sync between two servers, from PerformSync of internal/core/sync_manager.go at one end through
-- HandleTCPPacket of swim_server.go at the other and back.
use eswim.Base.{ℕ, ◌≡◌, refl, ap, true, some, List, [], ◌∷◌, ◌++◌, length, All}
use eswim.Proto.Bytes.{IsU16}
use eswim.Proto.Message.{Sync, sync}
use eswim.Proto.Message.SyncDecoder.RoundTrip.{IsWireSync}
use eswim.Proto.Packet.{pkt}
use eswim.Proto.TcpPacket.{TcpPacket}
use eswim.Core.Ascon.{new_ascon}
use eswim.Core.NodeList.View.{IsConsistent}
use eswim.Core.NodeManager.{prepare_ping_list}
use eswim.Core.NodeManager
use eswim.Core.SyncManager.{
  write, close, Link, received, take_sync, after_reply, exchange, perform_sync, handle_sync_request,
  write_all,
}
use eswim.Server.Transport.{decode_tcp_packet, decode_tcp_packet-encoded}
use eswim.Server.Syncs.{
  Peer, Surroundings, all_known_nodes, handle_incoming_node_list, encode_tcp_packet, delegate,
  handle_sync, handle_packet, handle_tcp_packet,
}
use eswim.Server.Syncs.Known.{Known, bootstrap-Known}

-- The connection of a sync that works, at the end that opened it.
abbrev pub working : TcpPacket → List ℕ → Link Peer
working reply source = record {
  established = true;
  written = true;
  meanwhile = λ s. s;
  response = some reply;
  source = source;
}

module _ (u w : Surroundings) (key near_nonce far_nonce : List ℕ)
    (made : new_ascon u.cipher key ≡ some u.ascon) (near_sized : length near_nonce ≡ 16)
    (far_sized : length far_nonce ≡ 16) where
  -- What surrounds the two servers; they have the same cipher and key.
  abbrev pub near : Surroundings
  near = record u { nonce = some near_nonce }

  abbrev pub far : Surroundings
  far = record w { cipher = u.cipher; ascon = u.ascon; nonce = some far_nonce }

  abbrev pub request_of : Peer → Sync
  request_of a = record { mode = 0; nodes = all_known_nodes near a }

  abbrev pub reply_of : Peer → Sync
  reply_of b = record { mode = 1; nodes = all_known_nodes far b }

  -- The far server after the request, and the near one after the reply.
  abbrev pub far_after : Peer → Peer → Peer
  far_after a b = handle_incoming_node_list far (request_of a).nodes b

  abbrev pub near_after : Peer → Peer → Peer
  near_after a b = handle_incoming_node_list near (reply_of (far_after a b)).nodes a

  module _ (a b : Peer) (request reply : TcpPacket) (source : List ℕ)
      (near_u16 : IsU16 a.server.incarnation) (far_u16 : IsU16 b.server.incarnation)
      (near_wire : IsWireSync (request_of a)) (far_wire : IsWireSync (reply_of (far_after a b)))
      (requested : encode_tcp_packet near (sync (request_of a)) a ≡ some request)
      (replied : encode_tcp_packet far (sync (reply_of (far_after a b))) (far_after a b)
        ≡ some reply) where
    request_decoded :
        decode_tcp_packet u.cipher u.ascon source request
        ≡ received (record (pkt a.server.incarnation (sync (request_of a))) { source = source })
    unfolding encode_tcp_packet
    request_decoded =
        decode_tcp_packet-encoded u.cipher key near_nonce u.ascon made near_sized
          a.server.incarnation (sync (request_of a)) near_u16 near_wire source request requested

    reply_decoded :
        decode_tcp_packet u.cipher u.ascon source reply
        ≡ received (record (pkt b.server.incarnation (sync (reply_of (far_after a b)))) {
          source = source;
        })
    unfolding encode_tcp_packet handle_incoming_node_list
    reply_decoded =
        decode_tcp_packet-encoded u.cipher key far_nonce u.ascon made far_sized b.server.incarnation
          (sync (reply_of (far_after a b))) far_u16 far_wire source reply replied

    handled :
        handle_tcp_packet far source request b ≡ some (far_after a b, write reply ∷ close ∷ [])
    unfolding handle_tcp_packet handle_packet handle_sync handle_sync_request pkt write_all
    handled =
        rw (request_decoded, handle_tcp_packet)
          (ap (λ o. some (far_after a b, write_all o ++ (close ∷ []))) replied)

    performed :
        perform_sync (delegate near) (working reply source) a
        ≡ some (near_after a b, write request ∷ close ∷ [])
    unfolding perform_sync exchange after_reply take_sync pkt
    performed = rw requested (rw reply_decoded refl)

    -- When a server performs a full sync with another one that has its key over a connection that
    -- works, the other one takes in the nodes that it is sent and writes its own nodes back, with
    -- those new ones; the first one takes these in. Both close the connection. The incarnations
    -- are uint16 values, both node lists are short enough for a Sync and their nodes have the form
    -- of the wire.
    pub perform_sync-handled :
        (handle_tcp_packet far source request b ≡ some (far_after a b, write reply ∷ close ∷ []))
        × (perform_sync (delegate near) (working reply source) a
            ≡ some (near_after a b, write request ∷ close ∷ []))
    perform_sync-handled = (handled, performed)

  -- After a full sync each of two servers with consistent member lists has as a member whomever
  -- the other one told it of, itself included, but for its own address.
  pub far_after-Known :
      (a b : Peer)
      → IsConsistent a.server.nodes.node_list
      → IsConsistent b.server.nodes.node_list
      → let a' = (near_after a b).server.nodes.node_list in
        let b' = (far_after a b).server.nodes.node_list in
        All (Known b.server.nodes.node_list.self_addr b') (all_known_nodes near a)
        × All (Known a.server.nodes.node_list.self_addr a') (all_known_nodes far (far_after a b))
  unfolding handle_incoming_node_list NodeManager.bootstrap prepare_ping_list
  far_after-Known a b ca cb = (
    bootstrap-Known w.period (all_known_nodes near a) b.server.nodes.node_list cb,
    bootstrap-Known u.period (all_known_nodes far (far_after a b)) a.server.nodes.node_list ca,
  )
