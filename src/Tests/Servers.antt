-- ===== src/Tests/Servers.antt =====
-- A server that knows of another one: datagrams, a period, and its options.
use eswim.Base.{ℕ, ◌≡◌, ◌≢◌, refl, true, false, none, some, List, [], ◌∷◌, ◌++◌, arith}
use eswim.Base.Int.{pos}
use eswim.Proto.Ip.{
  Ip, hash_zero, NodeHash-discrete, copy_ip, copy, bytes, size, kind_size, into_hash,
  addr_from_slice,
}
use eswim.Proto.Ip.Equal.{IsWire}
use eswim.Proto.Node.{hash}
use eswim.Proto.Message.{Pong, IndirectPing, ping, indirect_pong}
use eswim.Proto.Packet.{Packet, enc_pkt}
use eswim.Core.Ascon.{keyed, seal}
use eswim.Core.NodeList.{new_node_list}
use eswim.Core.NodeManager.{new_node_manager}
use eswim.Core.GossipManager.{new_gossip_manager}
use eswim.Core.RunLoop.{ping_timeout}
use eswim.Server.{Server}
use eswim.Server.Transport.{enc_datagram}
use eswim.Server.Datagrams.{
  Host, dispatch_message, receive_message, handle_pong, perform_indirect_ping,
}
use eswim.Server.Datagrams.Relay.{perform_indirect_ping-relays}
use eswim.Server.Loop.{Running, Tuning, loop_delegate}
use eswim.Options.{Options, unset, ignored}
use eswim.Tests.Wire.{here}
use eswim.Tests.Packets.{pinged, toy, key, some_nonce}
use eswim.Tests.Members.{node_a, node_b, unchanged, unsorted, manager, server}
use eswim.Base.{bytes_equal, ℕ_discrete}
use eswim.Base.Assoc.{get, put}
use eswim.Proto.Ip.{equal}
use eswim.Core.NodeList.{bootstrap, unsafe_add, insert_stable, insert_suspect, node_by_hash}
use eswim.Core.NodeManager.{next_ping, refill}
use eswim.Server.Loop.{next_probe_subject}

abbrev pub there : Ip
there = record {
  address_kind = 0;
  address_bytes = 10 ∷ 0 ∷ 0 ∷ 2 ∷ 0 ∷ 0 ∷ 0 ∷ 0 ∷ 0 ∷ 0 ∷ 0 ∷ 0 ∷ 0 ∷ 0 ∷ 0 ∷ 0 ∷ [];
}

pub there-IsWire : IsWire there
unfolding copy_ip copy bytes size kind_size
there-IsWire = record { known_kind = omega arith; sized = refl; padded = refl }

abbrev pub server_at : Ip → Server
server_at ip = record {
  host_address = ip;
  incarnation = 4;
  nodes = new_node_manager ip;
  gossip = new_gossip_manager (pos 1);
}

abbrev host : Host
host = record {
  server = server_at here;
  bootstrap_response_received = false;
  indirect_ping_callbacks = [];
}

-- A Ping from the other server.
abbrev pub from_there : List ℕ
from_there = 10 ∷ 0 ∷ 0 ∷ 2 ∷ []

abbrev pub sealed_ping : List ℕ
sealed_ping = some_nonce ++ (1 ∷ enc_pkt 9 (ping pinged))

pub sealed : enc_datagram toy (keyed key) (some some_nonce) 9 (ping pinged) ≡ some sealed_ping
unfolding enc_datagram seal
sealed = refl

abbrev asked : IndirectPing
asked = record { cookie = 44; period = 3; address = there }

abbrev asking : Packet
asking = record {
  source = from_there;
  header = record { magic = 51966; version = 1; op_code = 6; incarnation = 2 };
  message = none;
}

abbrev answering : ℕ → Pong
answering cookie = record {
  ack = true;
  cookie = cookie;
  period = 3;
  is_last_state_known = false;
  last_known_incarnation = 0;
  last_known_event_kind = 0;
}

perform_indirect_ping-relays_example :
    let started = (perform_indirect_ping 77 3 asked asking host).0 in
    let (h1, e1) = handle_pong unsorted (answering 77) asking started in
    let (h2, e2) = handle_pong unsorted (answering 77) asking h1 in
    (e1
      ≡ dispatch_message from_there h1.server.incarnation
          (indirect_pong (record { cookie = 44; period = 3 }))
        ∷ receive_message asking
        ∷ [])
    × (e2 ≡ receive_message asking ∷ [])
perform_indirect_ping-relays_example =
    perform_indirect_ping-relays unsorted 77 3 asked asking asking (answering 77) host refl refl

-- A server that pings node_a next.
abbrev pub running : Running
running = record {
  server = record server { nodes = manager (hash node_a ∷ hash node_b ∷ []) };
  last_full_sync_node = hash_zero;
  outgoing = [];
}

abbrev pub tuning : Tuning
tuning = record {
  sorter = unsorted;
  order = unchanged;
  shuffle = unchanged;
  indirect_pings = 2;
  suspect_periods = 20;
  ping_timeout = 1000000000;
}

pub probed : ((loop_delegate tuning).next_probe_subject running).1 ≡ some node_a
unfolding loop_delegate next_probe_subject next_ping refill node_by_hash bootstrap unsafe_add
    insert_stable insert_suspect get put NodeHash-discrete hash into_hash bytes size kind_size
    addr_from_slice ℕ_discrete equal bytes_equal new_node_list
probed = refl

pub node_a-valid : hash node_a ≢ hash_zero
unfolding hash into_hash addr_from_slice bytes size kind_size
node_a-valid = λ e. cc

-- Options with a key, and with nothing else.
abbrev options : Options
options = record {
  ipv4_address = unset;
  ipv6_address = ignored;
  ipv4_multicast_address = [];
  ipv6_multicast_address = [];
  crypto_key = key;
  insecure_disable_crypto = false;
  indirect_pings = pos 0;
  protocol_period = pos 0;
  ping_timeout = pos 0;
  suspect_periods = 0;
  full_sync_protocol_rounds = pos 0;
  udp_max_length = pos 0;
}
