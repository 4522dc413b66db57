-- ===== src/Proto/Writer/Encoders.antt =====
-- The Encode methods of internal/proto, as they write into a buffer, and EncPkt, which makes that buffer.
-- `none` is a panic. The values that are written are those of the lists of bytes in the other modules.
use eswim.Base.{ℕ, ◌%◌, ◌*◌, ◌^◌, Option, some, List, [], ◌∷◌, length, replicate}
use Prim.Native.Nat.{bit_or}
use eswim.Proto.Bytes.{u16_bytes}
use eswim.Proto.Node.{Node}
use eswim.Proto.Node
use eswim.Proto.NodeDecoder.{node_flags}
use eswim.Proto.Event.{
  Join, Healthy, Suspect, Faulty, Left, Alive, Wrap, Event, join, healthy, suspect, faulty, left,
  alive, wrap, payload_size,
}
use eswim.Proto.Event
use eswim.Proto.EventDecoder.{event_flag_byte}
use eswim.Proto.Header.{Header, protocol_magic, protocol_version}
use eswim.Proto.Message.{
  Ping, Pong, IndirectPing, IndirectPong, Sync, Message, bootstrap_request, bootstrap_response,
  bootstrap_ack, ping, pong, indirect_ping, indirect_pong, sync,
}
use eswim.Proto.Message.PongDecoder.{pong_flags}
use eswim.Proto.Packet.{pkt, packet_size}
use eswim.Proto.TcpPacket.{TcpPacket}
use eswim.Proto.TcpPacket
use eswim.Proto.Writer.{
  Writer, set_byte, marshal, write_from, u8, u16, u32, bytes, encoder, ip, ◌>>=◌, ◌then◌,
  write_into,
}

unfoldable pub encode_join : Join → List ℕ → Option (List ℕ)
encode_join j = write_into (ip j.source then ip j.subject then u16 j.incarnation)

unfoldable pub encode_healthy : Healthy → List ℕ → Option (List ℕ)
encode_healthy h = write_into (ip h.source then ip h.subject then u16 h.incarnation)

unfoldable pub encode_suspect : Suspect → List ℕ → Option (List ℕ)
encode_suspect s = write_into (ip s.source then ip s.subject then u16 s.incarnation)

unfoldable pub encode_faulty : Faulty → List ℕ → Option (List ℕ)
encode_faulty f = write_into (ip f.source then ip f.subject then u16 f.incarnation)

unfoldable pub encode_left : Left → List ℕ → Option (List ℕ)
encode_left l = write_into (ip l.subject then u16 l.incarnation)

unfoldable pub encode_alive : Alive → List ℕ → Option (List ℕ)
encode_alive a = write_into (ip a.subject then u16 a.incarnation)

unfoldable pub encode_wrap : Wrap → List ℕ → Option (List ℕ)
encode_wrap w = write_into (ip w.subject then u16 w.incarnation then u16 w.new_incarnation)

-- `e.Payload.Encode`
unfoldable pub encode_payload : Event → List ℕ → Option (List ℕ)
unfolding encode_join encode_healthy encode_suspect encode_faulty encode_left encode_alive
    encode_wrap
encode_payload (join p) = encode_join p
encode_payload (healthy p) = encode_healthy p
encode_payload (suspect p) = encode_suspect p
encode_payload (faulty p) = encode_faulty p
encode_payload (left p) = encode_left p
encode_payload (alive p) = encode_alive p
encode_payload (wrap p) = encode_wrap p

unfoldable pub encode_event : Event → List ℕ → Option (List ℕ)
unfolding encode_payload
encode_event e =
    write_into (u8 (event_flag_byte e) then encoder (encode_payload e) (payload_size e))

unfoldable pub encode_node : Node → List ℕ → Option (List ℕ)
encode_node n = write_into (u8 (node_flags n) then u16 n.incarnation then ip n.address)

-- `forEachCast(in, w.encoderNoChain)`
unfoldable pub encode_each :
    {X : Type 0} → (X → List ℕ → Option (List ℕ)) → (X → ℕ) → List X → Writer → Option Writer
encode_each encode size [] = some
encode_each encode size (v ∷ vs) = encoder (encode v) (size v) then encode_each encode size vs

unfoldable pub encode_ping : Ping → List ℕ → Option (List ℕ)
unfolding encode_event encode_each
encode_ping p = write_into (
    u16 p.cookie
    then u16 p.period
    then u16 p.target_incarnation
    then u8 (length p.events % 256)
    then encode_each encode_event Event.required_size p.events)

unfoldable pub encode_pong : Pong → List ℕ → Option (List ℕ)
encode_pong p =
    write_into
      (u8 (pong_flags p) then u16 p.cookie then u16 p.period then u16 p.last_known_incarnation)

unfoldable pub encode_indirect_ping : IndirectPing → List ℕ → Option (List ℕ)
encode_indirect_ping i =
    write_into (u8 i.address.address_kind then u16 i.cookie then u16 i.period then ip i.address)

unfoldable pub encode_indirect_pong : IndirectPong → List ℕ → Option (List ℕ)
encode_indirect_pong i = write_into (u16 i.cookie then u16 i.period)

unfoldable pub encode_sync : Sync → List ℕ → Option (List ℕ)
unfolding encode_node encode_each
encode_sync s = write_into (
    u8 s.mode
    then u8 (length s.nodes % 256)
    then encode_each encode_node Node.required_size s.nodes)

-- `Encode` of a message; those without a body write nothing.
unfoldable pub encode_message : Message → List ℕ → Option (List ℕ)
unfolding encode_ping encode_pong encode_indirect_ping encode_indirect_pong encode_sync
encode_message bootstrap_request = some
encode_message bootstrap_response = some
encode_message bootstrap_ack = some
encode_message (ping m) = encode_ping m
encode_message (pong m) = encode_pong m
encode_message (indirect_ping m) = encode_indirect_ping m
encode_message (indirect_pong m) = encode_indirect_pong m
encode_message (sync m) = encode_sync m

-- A header is written without a writer.
unfoldable pub encode_header : Header → List ℕ → Option (List ℕ)
encode_header h into = do
  a ← marshal (u16_bytes h.magic) into
  b ← set_byte 2 (bit_or (h.version * 16 % 256) h.op_code) a
  write_from 3 (marshal (u16_bytes h.incarnation)) b

-- `EncPkt`
unfoldable pub encode_packet : ℕ → Message → Option (List ℕ)
unfolding encode_header encode_message
encode_packet incarnation m = do
  data_with_header ← encode_header (pkt incarnation m).header (replicate (packet_size m) 0)
  write_from 5 (encode_message m) data_with_header

-- `TCPPacket.Encode`, and the buffer that Write of a TCP client makes for it.
unfoldable pub encode_tcp_packet : TcpPacket → List ℕ → Option (List ℕ)
encode_tcp_packet t = write_into (
    u16 protocol_magic
    then u8 protocol_version
    then u32 (length t.payload % 2 ^ 32)
    then bytes t.payload)

unfoldable pub tcp_buffer : TcpPacket → Option (List ℕ)
unfolding encode_tcp_packet
tcp_buffer t = encode_tcp_packet t (replicate (TcpPacket.required_size t) 0)
