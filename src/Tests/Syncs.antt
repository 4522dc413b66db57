-- ===== src/Tests/Syncs.antt =====
-- Two servers, one of which knows a third node: full syncs and bootstraps.
use eswim.Base.{
  ◌≡◌, refl, true, false, none, some, [], ◌∷◌, ◌++◌, length, All, subst, sym, ◌<◌, arith,
}
use eswim.Proto.Ip.{Ip, NodeHash-discrete, bytes, size, kind_size, into_hash, addr_from_slice}
use eswim.Proto.Ip.Equal.{IsWire}
use eswim.Proto.NetIp.{net_ip_equal}
use eswim.Proto.Node.{Node, hash}
use eswim.Proto.NodeDecoder.{IsWireNode}
use eswim.Proto.Message.{Sync, sync}
use eswim.Proto.Message.SyncDecoder.RoundTrip.{IsWireSync}
use eswim.Proto.Packet.{enc_pkt}
use eswim.Proto.TcpPacket.{TcpPacket, tcp_packet}
use eswim.Core.Ascon.{keyed, seal}
use eswim.Core.NodeList.{new_node_list, look, keys}
use eswim.Core.NodeList.View.{IsConsistent}
use eswim.Core.NodeList.View.{new_node_list-IsConsistent}
use eswim.Core.NodeList.Iteration.Collect.{gathered}
use eswim.Core.NodeManager.{NodeManager, new_node_manager}
use eswim.Core.SyncManager.{write, close, handle_bootstrap, perform_sync}
use eswim.Core.SyncManager.Once.{handle_bootstrap-refused}
use eswim.Server.FullSync.{perform_full_sync, to_sync_with, perform_full_sync_lem}
use eswim.Server.Syncs.{
  Peer, Surroundings, delegate, encode_tcp_packet, all_known_nodes, handle_incoming_node_list,
  handle_tcp_packet,
}
use eswim.Server.Syncs.Known.{Known}
use eswim.Server.Syncs.Exchange.{
  near, far, request_of, reply_of, near_after, far_after, working, perform_sync-handled,
  far_after-Known,
}
use eswim.Tests.Wire.{here, here-IsWire}
use eswim.Tests.Packets.{toy, key, some_nonce, key-made}
use eswim.Tests.Members.{node_a, unchanged, unsorted, cluster}
use eswim.Base.{bytes_equal, ℕ_discrete}
use eswim.Base.Assoc.{get, put}
use eswim.Proto.Ip.{equal}
use eswim.Core.NodeList.{bootstrap, unsafe_add, insert_stable, insert_suspect, is_type}
use eswim.Core.NodeList.Iteration.{range, range_loop}
use eswim.Core.NodeManager
use eswim.Core.NodeManager.{next_ping, refill, prepare_ping_list, all}
use eswim.Server.Transport.{enc_tcp_pkt}
use eswim.Tests.Servers.{there, there-IsWire, server_at, from_there}

-- The two servers of a full sync.
abbrev surroundings : Surroundings
surroundings = record {
  cipher = toy;
  ascon = keyed key;
  nonce = none;
  sorter = unsorted;
  order = unchanged;
  shuffle = unchanged;
  period = 5;
}

abbrev peer_at : Ip → Peer
peer_at ip = record {
  server = server_at ip;
  accept_bootstrap_from = from_there;
  bootstrap_completed = 0;
}

abbrev own : Surroundings
own = near surroundings surroundings key some_nonce some_nonce key-made refl refl

abbrev other : Surroundings
other = far surroundings surroundings key some_nonce some_nonce key-made refl refl

abbrev node_at : Ip → Node
node_at ip = record { suspect = false; incarnation = 4; address = ip }

node_at-IsWire : (ip : Ip) → IsWire ip → IsWireNode (node_at ip)
node_at-IsWire ip w = record { address_wire = w; incarnation_fits = omega arith }

requesting-IsWire : IsWireSync (
    request_of surroundings surroundings key some_nonce some_nonce key-made refl refl
      (peer_at here))
unfolding all_known_nodes all range range_loop is_type new_node_manager new_node_list
requesting-IsWire = record {
  mode_fits = omega arith;
  count_fits = omega arith;
  nodes_wire = (node_at-IsWire here here-IsWire, tt);
}

abbrev near_peer : Peer
near_peer = peer_at here

abbrev far_peer : Peer
far_peer =
    far_after surroundings surroundings key some_nonce some_nonce key-made refl refl near_peer
      (peer_at there)

abbrev reply_sync : Sync
reply_sync =
    reply_of surroundings surroundings key some_nonce some_nonce key-made refl refl far_peer

replying-nodes : reply_sync.nodes ≡ node_at here ∷ node_at there ∷ []
unfolding all_known_nodes handle_incoming_node_list NodeManager.bootstrap prepare_ping_list
    bootstrap unsafe_add insert_stable insert_suspect get put NodeHash-discrete hash into_hash bytes
    size kind_size addr_from_slice ℕ_discrete equal bytes_equal all range range_loop is_type
    new_node_manager new_node_list
replying-nodes = refl

replying-IsWire : IsWireSync reply_sync
replying-IsWire = record {
  mode_fits = omega arith;
  count_fits = subst (λ l. length l < 256) (sym replying-nodes) (omega arith);
  nodes_wire =
      subst (All IsWireNode) (sym replying-nodes)
        (node_at-IsWire here here-IsWire, (node_at-IsWire there there-IsWire, tt));
}

abbrev request_frame : TcpPacket
request_frame = tcp_packet (
    some_nonce
    ++ (1
        ∷ enc_pkt 4 (
            sync (
              request_of surroundings surroundings key some_nonce some_nonce key-made refl refl
                near_peer))))

requested :
    encode_tcp_packet own
      (sync (
        request_of surroundings surroundings key some_nonce some_nonce key-made refl refl
          near_peer))
      near_peer
    ≡ some request_frame
unfolding encode_tcp_packet enc_tcp_pkt seal
requested = refl

abbrev reply_frame : TcpPacket
reply_frame = tcp_packet (some_nonce ++ (1 ∷ enc_pkt 4 (sync reply_sync)))

replied : encode_tcp_packet other (sync reply_sync) far_peer ≡ some reply_frame
unfolding encode_tcp_packet enc_tcp_pkt seal handle_incoming_node_list
replied = refl

perform_sync-handled_example :
    (handle_tcp_packet other from_there request_frame (peer_at there)
      ≡ some (far_peer, write reply_frame ∷ close ∷ []))
    × (perform_sync (delegate own) (working reply_frame from_there) near_peer
        ≡ some (
          near_after surroundings surroundings key some_nonce some_nonce key-made refl refl
              near_peer
              (peer_at there),
          write request_frame ∷ close ∷ [],
        ))
perform_sync-handled_example =
    perform_sync-handled surroundings surroundings key some_nonce some_nonce key-made refl refl
      near_peer (peer_at there) request_frame reply_frame from_there (omega arith) (omega arith)
      requesting-IsWire replying-IsWire requested replied

empty-IsConsistent : (ip : Ip) → IsConsistent (peer_at ip).server.nodes.node_list
unfolding new_node_manager
empty-IsConsistent ip = new_node_list-IsConsistent ip

far_after-Known_example :
    All
      (Known (peer_at there).server.nodes.node_list.self_addr far_peer.server.nodes.node_list)
      (all_known_nodes own near_peer)
    × All
        (Known near_peer.server.nodes.node_list.self_addr
          (near_after surroundings surroundings key some_nonce some_nonce key-made refl refl
            near_peer
            (peer_at there)).server.nodes.node_list)
        (all_known_nodes other far_peer)
far_after-Known_example =
    far_after-Known surroundings surroundings key some_nonce some_nonce key-made refl refl near_peer
      (peer_at there) (empty-IsConsistent here) (empty-IsConsistent there)

accepted : net_ip_equal from_there from_there ≡ true
unfolding net_ip_equal bytes_equal
accepted = refl

handle_bootstrap-refused_example :
    let (accept', s') =
      (handle_bootstrap
        (delegate own)
        (record { mode = 2; nodes = [] })
        from_there
        from_there
        near_peer).0 in
    handle_bootstrap (delegate own) (record { mode = 2; nodes = [] }) (1 ∷ []) accept' s'
    ≡ ((accept', s'), close ∷ [])
handle_bootstrap-refused_example =
    handle_bootstrap-refused (delegate own) (record { mode = 2; nodes = [] })
      (record { mode = 2; nodes = [] }) from_there (1 ∷ []) from_there near_peer accepted
      (omega arith)

perform_full_sync_lem_example :
    perform_full_sync unchanged (hash node_a) cluster
    ≡ elim (to_sync_with
        (hash node_a)
        (gathered (λ x. x) (λ h. look h cluster.stable) (keys cluster.stable))) [
          | none ↦ (hash node_a, none)
          | some x ↦ (hash x, some x)
        ]
perform_full_sync_lem_example = perform_full_sync_lem unchanged (hash node_a) cluster
