-- ===== src/Proto/Writer/Fills.antt =====
-- What the Encode methods of internal/proto write into a buffer of RequiredSize bytes, and that they stay
-- inside it.
use eswim.Base.{
  ℕ, zero, suc, ◌+◌, ◌%◌, ◌≡◌, refl, sym, ap, ◌∙◌, Option, some, List, [], ◌∷◌, ◌++◌, length,
  replicate, All, arith,
}
use mathlib.Core.List.{append-nil}
use eswim.Fsm.Repeated.{all_bytes}
use eswim.Proto.Node.{Node}
use eswim.Proto.Node
use eswim.Proto.NodeDecoder.{IsWireNode, node_bytes, length-node_bytes}
use eswim.Proto.Event.{Event, join, healthy, suspect, faulty, left, alive, wrap, payload_size}
use eswim.Proto.Event
use eswim.Proto.EventDecoder.{event_bytes, payload_bytes}
use eswim.Proto.EventDecoder.RoundTrip.{IsWireEvent}
use eswim.Proto.EventDecoder.Size.{length-event_bytes}
use eswim.Proto.Header.{Header, header_bytes, protocol_magic, protocol_version}
use eswim.Proto.Message.{
  Message, message_size, bootstrap_request, bootstrap_response, bootstrap_ack, ping, pong,
  indirect_ping, indirect_pong, sync,
}
use eswim.Proto.Packet.{message_bytes, enc_pkt, packet_size, pkt}
use eswim.Proto.Packet.RoundTrip.{IsWireMessage}
use eswim.Proto.Packet.Size.{length-message_bytes}
use eswim.Proto.TcpPacket.{TcpPacket, tcp_bytes}
use eswim.Proto.TcpPacket
use eswim.Proto.Writer.{set_byte, marshal, write_from}
use eswim.Proto.Writer.Puts.{
  at, Puts, Fills, u8-Puts, u16-Puts, u32-Puts, bytes-Puts, ip-Puts, encoder-Puts, write_from-past,
  then-Puts, write_into-Fills,
}
use eswim.Proto.Writer.Encoders.{
  encode_payload, encode_event, encode_node, encode_each, encode_message, encode_header,
  encode_packet, tcp_buffer, encode_tcp_packet,
}

encode_payload-Fills : (e : Event) → Fills (encode_payload e) (payload_bytes e)
unfolding encode_payload
encode_payload-Fills (join p) =
    write_into-Fills
      (then-Puts (ip-Puts p.source) (then-Puts (ip-Puts p.subject) (u16-Puts p.incarnation)))
encode_payload-Fills (healthy p) =
    write_into-Fills
      (then-Puts (ip-Puts p.source) (then-Puts (ip-Puts p.subject) (u16-Puts p.incarnation)))
encode_payload-Fills (suspect p) =
    write_into-Fills
      (then-Puts (ip-Puts p.source) (then-Puts (ip-Puts p.subject) (u16-Puts p.incarnation)))
encode_payload-Fills (faulty p) =
    write_into-Fills
      (then-Puts (ip-Puts p.source) (then-Puts (ip-Puts p.subject) (u16-Puts p.incarnation)))
encode_payload-Fills (left p) =
    write_into-Fills (then-Puts (ip-Puts p.subject) (u16-Puts p.incarnation))
encode_payload-Fills (alive p) =
    write_into-Fills (then-Puts (ip-Puts p.subject) (u16-Puts p.incarnation))
encode_payload-Fills (wrap p) = write_into-Fills (
    then-Puts (ip-Puts p.subject) (then-Puts (u16-Puts p.incarnation) (u16-Puts p.new_incarnation)))

length-payload_bytes : (e : Event) → IsWireEvent e → length (payload_bytes e) ≡ payload_size e
unfolding Event.required_size
length-payload_bytes e w = omega (arith, length-event_bytes e w)

encode_event-Fills : (e : Event) → IsWireEvent e → Fills (encode_event e) (event_bytes e)
unfolding encode_event
encode_event-Fills e w =
    write_into-Fills (
      then-Puts (u8-Puts _)
        (encoder-Puts _ _ _ (length-payload_bytes e w) (encode_payload-Fills e)))

encode_node-Fills : (n : Node) → Fills (encode_node n) (node_bytes n)
unfolding encode_node
encode_node-Fills n =
    write_into-Fills
      (then-Puts (u8-Puts _) (then-Puts (u16-Puts n.incarnation) (ip-Puts n.address)))

nothing-Puts : Puts some []
nothing-Puts = record { puts = λ past old ahead e. nothing past old ahead e }
  where
    nothing :
        (past old ahead : List ℕ)
        → length old ≡ 0
        → some (at past (old ++ ahead)) ≡ some (at (past ++ []) ahead)
    nothing past [] ahead e = rw (append-nil past) refl
    nothing past (x ∷ old) ahead e = absurd (omega arith)

nothing-Fills : Fills some []
nothing-Fills = record { fills = nothing }
  where
    nothing : (old ahead : List ℕ) → length old ≡ 0 → some (old ++ ahead) ≡ some ahead
    nothing [] ahead e = refl
    nothing (x ∷ old) ahead e = absurd (omega arith)

module _ {X : Type 0} (encode : X → List ℕ → Option (List ℕ)) (size : X → ℕ)
    (bytes_of : X → List ℕ) where
  -- An item is written as its bytes, of which there are as many as its size says.
  abbrev IsEncoded : X → Type 0
  IsEncoded x = Fills (encode x) (bytes_of x) × (length (bytes_of x) ≡ size x)

  encode_each-Puts :
      (l : List X) → All IsEncoded l → Puts (encode_each encode size l) (all_bytes bytes_of l)
  unfolding encode_each
  encode_each-Puts [] a = nothing-Puts
  encode_each-Puts (x ∷ xs) ((f, e), a) =
      then-Puts (encoder-Puts (encode x) (bytes_of x) (size x) e f) (encode_each-Puts xs a)

IsEncoded-events :
    (l : List Event)
    → All IsWireEvent l
    → All (IsEncoded encode_event Event.required_size event_bytes) l
IsEncoded-events [] w = tt
IsEncoded-events (e ∷ es) (w, ws) =
    ((encode_event-Fills e w, length-event_bytes e w), IsEncoded-events es ws)

IsEncoded-nodes :
    (l : List Node) → All IsWireNode l → All (IsEncoded encode_node Node.required_size node_bytes) l
IsEncoded-nodes [] w = tt
IsEncoded-nodes (n ∷ ns) (w, ws) =
    ((encode_node-Fills n, length-node_bytes n w), IsEncoded-nodes ns ws)

encode_message-Fills : (m : Message) → IsWireMessage m → Fills (encode_message m) (message_bytes m)
unfolding encode_message
encode_message-Fills bootstrap_request w = nothing-Fills
encode_message-Fills bootstrap_response w = nothing-Fills
encode_message-Fills bootstrap_ack w = nothing-Fills
encode_message-Fills (ping m) w = write_into-Fills (
    then-Puts (u16-Puts m.cookie) (
      then-Puts (u16-Puts m.period) (
        then-Puts (u16-Puts m.target_incarnation) (
          then-Puts (u8-Puts _)
            (encode_each-Puts _ _ _ m.events (IsEncoded-events m.events w.events_wire))))))
encode_message-Fills (pong m) w = write_into-Fills (
    then-Puts (u8-Puts _) (
      then-Puts (u16-Puts m.cookie)
        (then-Puts (u16-Puts m.period) (u16-Puts m.last_known_incarnation))))
encode_message-Fills (indirect_ping m) w = write_into-Fills (
    then-Puts (u8-Puts _)
      (then-Puts (u16-Puts m.cookie) (then-Puts (u16-Puts m.period) (ip-Puts m.address))))
encode_message-Fills (indirect_pong m) w =
    write_into-Fills (then-Puts (u16-Puts m.cookie) (u16-Puts m.period))
encode_message-Fills (sync m) w = write_into-Fills (
    then-Puts (u8-Puts _) (
      then-Puts (u8-Puts _)
        (encode_each-Puts _ _ _ m.nodes (IsEncoded-nodes m.nodes w.nodes_wire))))

encode_header-Fills : (h : Header) → Fills (encode_header h) (header_bytes h)
unfolding encode_header marshal set_byte write_from
encode_header-Fills h = record { fills = five }
  where
    five :
        (old ahead : List ℕ)
        → length old ≡ 5
        → encode_header h (old ++ ahead) ≡ some (header_bytes h ++ ahead)
    five (a ∷ b ∷ c ∷ d ∷ e ∷ []) ahead l = ground arith
    five [] ahead l = absurd (omega arith)
    five (a ∷ []) ahead l = absurd (omega arith)
    five (a ∷ b ∷ []) ahead l = absurd (omega arith)
    five (a ∷ b ∷ c ∷ []) ahead l = absurd (omega arith)
    five (a ∷ b ∷ c ∷ d ∷ []) ahead l = absurd (omega arith)
    five (a ∷ b ∷ c ∷ d ∷ e ∷ f ∷ old) ahead l = absurd (omega arith)

length-replicate : (n x : ℕ) → length (replicate n x) ≡ n
length-replicate zero x = refl
length-replicate (suc n) x = ap suc (length-replicate n x)

-- A buffer that is filled to its end.
filled :
    {f : List ℕ → Option (List ℕ)} {bs : List ℕ}
    → Fills f bs
    → (n : ℕ) → length bs ≡ n
    → f (replicate n 0) ≡ some bs
filled {f} {bs} p n e =
    ap f (sym (append-nil (replicate n 0)))
    ∙ p.fills (replicate n 0) [] (length-replicate n 0 ∙ sym e)
    ∙ ap some (append-nil bs)

abbrev zeros : ℕ → List ℕ
zeros n = replicate n 0

zeros-add : (n k : ℕ) → zeros (n + k) ≡ zeros n ++ zeros k
zeros-add zero k = let e : 0 + k ≡ k = omega arith in ap zeros e
zeros-add (suc n) k =
    let e : suc n + k ≡ suc (n + k) = omega arith in ap zeros e ∙ ap (◌∷◌ 0) (zeros-add n k)

-- `EncPkt` stays inside the buffer that it makes and fills it: for every message that the wire can carry,
-- it does not panic, and gives the bytes of the header and the message.
pub encode_packet-enc_pkt :
    (incarnation : ℕ) (m : Message)
    → IsWireMessage m
    → encode_packet incarnation m ≡ some (enc_pkt incarnation m)
unfolding encode_packet enc_pkt packet_size
encode_packet-enc_pkt incarnation m w =
    let h = (pkt incarnation m).header in
    let room = zeros (message_size m) in
    rw
      (
        zeros-add 5 (message_size m),
        (encode_header-Fills h).fills (zeros 5) room refl,
        write_from-past (encode_message m) (header_bytes h) room,
        filled (encode_message-Fills m w) (message_size m) (length-message_bytes m w),
      )
      refl

-- The same of a TCP frame, whatever its payload is.
pub tcp_buffer-tcp_bytes : (t : TcpPacket) → tcp_buffer t ≡ some (tcp_bytes t)
unfolding tcp_buffer encode_tcp_packet TcpPacket.required_size tcp_bytes
tcp_buffer-tcp_bytes t =
    filled
      (write_into-Fills (
        then-Puts (u16-Puts protocol_magic) (
          then-Puts (u8-Puts protocol_version)
            (then-Puts (u32-Puts (length t.payload % 4294967296)) (bytes-Puts t.payload)))))
      (7 + length t.payload) (omega arith)
