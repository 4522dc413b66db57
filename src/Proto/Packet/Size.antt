-- ===== src/Proto/Packet/Size.antt =====
-- How many bytes a packet takes: RequiredSize against Encode in internal/proto/packet.go and
-- internal/proto/message_*.go.
use eswim.Base.{ℕ, ◌≡◌, refl, List, [], ◌∷◌, length, All, length-append, arith}
use eswim.Fsm.Repeated.{all_bytes}
use eswim.Proto.Ip.Equal.{length-bytes}
use eswim.Proto.Node.{Node}
use eswim.Proto.NodeDecoder.{IsWireNode, node_bytes, length-node_bytes}
use eswim.Proto.Event.{Event}
use eswim.Proto.EventDecoder.{event_bytes}
use eswim.Proto.EventDecoder.RoundTrip.{IsWireEvent}
use eswim.Proto.EventDecoder.Size.{length-event_bytes}
use eswim.Proto.Message.{
  Message, bootstrap_request, bootstrap_response, bootstrap_ack, ping, pong, indirect_ping,
  indirect_pong, sync, message_size, ping_size, sync_size, indirect_ping_size, events_size,
  nodes_size,
}
use eswim.Proto.Packet.{message_bytes, enc_pkt, packet_size}
use eswim.Proto.Packet.RoundTrip.{IsWireMessage}

length-all_bytes-events :
    (l : List Event) → All IsWireEvent l → length (all_bytes event_bytes l) ≡ events_size l
unfolding events_size
length-all_bytes-events [] w = refl
length-all_bytes-events (e ∷ es) w = omega (
  arith,
  length-append (event_bytes e) (all_bytes event_bytes es),
  length-event_bytes e w.0,
  length-all_bytes-events es w.1,
)

length-all_bytes-nodes :
    (l : List Node) → All IsWireNode l → length (all_bytes node_bytes l) ≡ nodes_size l
unfolding nodes_size
length-all_bytes-nodes [] w = refl
length-all_bytes-nodes (n ∷ ns) w = omega (
  arith,
  length-append (node_bytes n) (all_bytes node_bytes ns),
  length-node_bytes n w.0,
  length-all_bytes-nodes ns w.1,
)

pub length-message_bytes :
    (m : Message) → IsWireMessage m → length (message_bytes m) ≡ message_size m
unfolding message_size ping_size indirect_ping_size sync_size
length-message_bytes bootstrap_request w = refl
length-message_bytes bootstrap_response w = refl
length-message_bytes bootstrap_ack w = refl
length-message_bytes (ping m) w = omega (arith, length-all_bytes-events m.events w.events_wire)
length-message_bytes (pong m) w = refl
length-message_bytes (indirect_ping m) w =
    omega (arith, length-bytes m.address w.address_wire.sized)
length-message_bytes (indirect_pong m) w = refl
length-message_bytes (sync m) w = omega (arith, length-all_bytes-nodes m.nodes w.nodes_wire)

-- `EncPkt` writes exactly as many bytes for a message as `RequiredSize` says, so the buffer that it
-- makes is filled.
pub length-enc_pkt :
    (incarnation : ℕ) (m : Message)
    → IsWireMessage m
    → length (enc_pkt incarnation m) ≡ packet_size m
unfolding enc_pkt packet_size
length-enc_pkt incarnation m w = omega (arith, length-message_bytes m w)
