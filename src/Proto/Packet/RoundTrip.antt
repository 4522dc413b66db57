-- ===== src/Proto/Packet/RoundTrip.antt =====
-- A packet that EncPkt of internal/proto/base.go writes is what ParsePacket gives back.
use eswim.Base.{
  ℕ, ◌/◌, ◌%◌, ◌≤◌, ◌≡◌, refl, ap, ◌∙◌, false, none, some, List, [], ◌∷◌, ◌++◌, inl, arith,
}
use eswim.Base.Int.{pos}
use eswim.Fsm.{
  Fsm, Def, continue, Run, Fed, pending, finished, new, reset, transition, transition_size, answer,
  step, feed, run, proceed,
}
use eswim.Fsm.Nested.{run-nested}
use eswim.Proto.Bytes.{u16_bytes, IsU16}
use eswim.Proto.Error.{Error}
use eswim.Proto.Message.{
  Message, bootstrap_request, bootstrap_response, bootstrap_ack, ping, pong, indirect_ping,
  indirect_pong, sync,
}
use eswim.Proto.Message.PingDecoder.{ping_decoder, ping_bytes, ping_shape}
use eswim.Proto.Message.PingDecoder
use eswim.Proto.Message.SyncDecoder
use eswim.Proto.EventDecoder.{event_shape}
use eswim.Proto.Message.PingDecoder.RoundTrip.{IsWirePing, run-ping}
use eswim.Proto.Message.PongDecoder.{pong_decoder, pong_bytes, IsWirePong, run-pong}
use eswim.Proto.Message.IndirectPingDecoder.{
  indirect_ping_decoder, indirect_ping_bytes, IsWireIndirectPing, run-indirect_ping,
}
use eswim.Proto.Message.IndirectPongDecoder.{
  indirect_pong_decoder, indirect_pong_bytes, IsWireIndirectPong, run-indirect_pong,
}
use eswim.Proto.Message.SyncDecoder.{sync_decoder, sync_bytes, sync_shape}
use eswim.Proto.Message.SyncDecoder.RoundTrip.{IsWireSync, run-sync}
use eswim.Proto.Header.{Header, HeaderMachine, header_decoder, protocol_magic}
use eswim.Proto.Header.RoundTrip
use eswim.Proto.Header.RoundTrip.{known, versioned, run_magic, run-header}
use eswim.Proto.Packet.{
  Packet, AnyDecoder, pinging, ponging, indirect_pinging, indirect_ponging, syncing, PacketMachine,
  State, state_header, state_payload, Context, packet_shape, init_context, packet_decoder, op_code,
  message_decoder_list, with_body, empty_message, accept_header, after_header, after_payload,
  feed_any, lift_fed, pkt, enc_pkt, parsed, parse_packet,
}

-- A message has the form in which the wire carries it: its numbers fit their fields, its addresses are such
-- as a decoder builds, a Ping has fewer than 256 events and a Sync fewer than 256 nodes, and the
-- kind in a Pong is below 64, and 0 when no last state is known.
abbrev pub IsWireMessage : Message → Type 0
IsWireMessage bootstrap_request = Unit {0}
IsWireMessage bootstrap_response = Unit {0}
IsWireMessage bootstrap_ack = Unit {0}
IsWireMessage (ping m) = IsWirePing m
IsWireMessage (pong m) = IsWirePong m
IsWireMessage (indirect_ping m) = IsWireIndirectPing m
IsWireMessage (indirect_pong m) = IsWireIndirectPong m
IsWireMessage (sync m) = IsWireSync m

-- The decoder inside a header.
abbrev pub heading : HeaderMachine → ℕ → PacketMachine
heading h cb = record {
  value = record {
    source = [];
    header = record { magic = 0; version = 0; op_code = 0; incarnation = 0 };
    message = none;
  };
  size = pos 0;
  payload = [];
  state = state_header;
  context = record { header_machine = h; payload_machine = none };
  current_byte = cb;
  must_satisfy_size = false;
}

-- The decoder between two packets.
abbrev pub idle : PacketMachine
idle = heading RoundTrip.idle 0

-- The decoder inside a message.
abbrev paying : Header → AnyDecoder → ℕ → PacketMachine
paying head d cb = record {
  value = record { source = []; header = head; message = none };
  size = pos 0;
  payload = [];
  state = state_payload;
  context = record { header_machine = RoundTrip.idle; payload_machine = some d };
  current_byte = cb;
  must_satisfy_size = false;
}

abbrev packet : Header → Message → Packet
packet head m = record { source = []; header = head; message = some m }

-- In the first state the decoder does as the header decoder says.
pub feed-heading :
    (cb b : ℕ) (h : HeaderMachine) {q : HeaderMachine × Fed Header Error}
    → feed header_decoder h b ≡ q
    → let r = after_header (heading h b) q in
      feed packet_decoder (heading h cb) b ≡ answer packet_decoder r.0 r.1
unfolding feed step packet_decoder
feed-heading cb b h e =
    ap (λ q. let r = after_header (heading h b) q in answer packet_decoder r.0 r.1) e

pub heading-follows :
    (cb b : ℕ) (h h' : HeaderMachine)
    → feed header_decoder h b ≡ (h', pending)
    → feed packet_decoder (heading h cb) b ≡ (heading h' b, pending)
unfolding after_header
heading-follows cb b h h' e = feed-heading cb b h e

feed-paying :
    (head : Header) (cb b : ℕ) (d : AnyDecoder) {q : AnyDecoder × Fed Message Error}
    → feed_any d b ≡ q
    → let r = after_payload (paying head d b) q in
      feed packet_decoder (paying head d cb) b ≡ answer packet_decoder r.0 r.1
unfolding feed step packet_decoder
feed-paying head cb b d e =
    ap (λ q. let r = after_payload (paying head d b) q in answer packet_decoder r.0 r.1) e

-- While the decoder of a message works, the packet decoder does as it does.
module _ {T S C : Type 0} (def : Def T S C Error) (inject : Fsm T S C → AnyDecoder)
    (make : T → Message)
    (law : (f : Fsm T S C) (b : ℕ)
      → feed_any (inject f) b ≡ (inject (feed def f b).0, lift_fed make (feed def f b).1))
    (head : Header) where
  feed-injected :
      (cb b : ℕ) (f : Fsm T S C) {q : Fsm T S C × Fed T Error}
      → feed def f b ≡ q
      → let r = after_payload (paying head (inject f) b) (inject q.0, lift_fed make q.1) in
        feed packet_decoder (paying head (inject f) cb) b ≡ answer packet_decoder r.0 r.1
  feed-injected cb b f e =
      feed-paying head cb b (inject f) (law f b ∙ ap (λ q. (inject q.0, lift_fed make q.1)) e)

  run-paying :
      (bs : List ℕ) (f g : Fsm T S C) (v : T) (rest : List ℕ) (cb : ℕ)
      → run def f bs ≡ finished v g rest
      → run packet_decoder (paying head (inject f) cb) bs
        ≡ finished (packet head (make v)) idle rest
  unfolding after_payload reset new packet_decoder packet_shape
  run-paying bs f g v rest cb e =
      run-nested def packet_decoder (λ f cb. paying head (inject f) cb)
        (λ cb b m m' h. feed-injected cb b m h) bs f g v rest cb e
        (λ m0 cb b h. ap (λ r. proceed packet_decoder r rest) (feed-injected cb b m0 h))

module _ (incarnation : ℕ) (w : IsU16 incarnation) (rest : List ℕ) where
  -- The header comes first, and then what `accept_header` says.
  run-head :
      (op b : ℕ) {r : Run Packet State Context Error} (bs : List ℕ)
      → b / 16 % 16 ≡ 1
      → b % 16 ≡ op
      → 1 ≤ op
      → op ≤ 8
      → ((b : ℕ)
          → let r' = accept_header (heading RoundTrip.idle b) (known op incarnation) in
            proceed packet_decoder (answer packet_decoder r'.0 r'.1) bs ≡ r)
      → run packet_decoder
          (new packet_shape init_context)
          (u16_bytes protocol_magic ++ (b ∷ (u16_bytes incarnation ++ bs)))
        ≡ r
  unfolding after_header new reset packet_shape init_context
  run-head op b bs h k l u c =
      run-nested header_decoder packet_decoder heading heading-follows _ RoundTrip.idle
        RoundTrip.idle (known op incarnation) bs 0
        (run_magic (b ∷ (u16_bytes incarnation ++ bs)) ∙ run-header bs op incarnation b h k l u w)
        (λ m0 cb b e. ap (λ r. proceed packet_decoder r bs) (feed-heading cb b m0 e) ∙ c b)

  accept-paying :
      (op b : ℕ) (d : AnyDecoder)
      → message_decoder_list op ≡ with_body d
      → accept_header (heading RoundTrip.idle b) (known op incarnation)
        ≡ (paying (known op incarnation) d b, continue)
  unfolding accept_header transition transition_size
  accept-paying op b d e = rw (e, accept_header) refl

  -- The header opens the decoder of the message, which does the rest.
  opened :
      {T S C : Type 0} (def : Def T S C Error) (inject : Fsm T S C → AnyDecoder)
      (make : T → Message)
      (law : (f : Fsm T S C) (b : ℕ)
        → feed_any (inject f) b ≡ (inject (feed def f b).0, lift_fed make (feed def f b).1))
      (op b : ℕ) (f g : Fsm T S C) (v : T) (bs : List ℕ)
      → b / 16 % 16 ≡ 1
      → b % 16 ≡ op
      → 1 ≤ op
      → op ≤ 8
      → message_decoder_list op ≡ with_body (inject f)
      → run def f (bs ++ rest) ≡ finished v g rest
      → run packet_decoder
          (new packet_shape init_context)
          (u16_bytes protocol_magic ++ (b ∷ (u16_bytes incarnation ++ (bs ++ rest))))
        ≡ finished (packet (known op incarnation) (make v)) idle rest
  opened def inject make law op b f g v bs h k l u o e = run-head op b (bs ++ rest) h k l u (λ c.
      ap (λ r. proceed packet_decoder (answer packet_decoder r.0 r.1) (bs ++ rest))
        (accept-paying op c (inject f) o)
      ∙ run-paying def inject make law (known op incarnation) (bs ++ rest) f g v rest c e)

  -- The packet decoder gives the packet of a message back when its bytes are fed to it, and leaves
  -- what follows.
  pub run-pkt :
      (m : Message)
      → IsWireMessage m
      → run packet_decoder (new packet_shape init_context) (enc_pkt incarnation m ++ rest)
        ≡ finished (pkt incarnation m) idle rest
  unfolding enc_pkt pkt op_code accept_header message_decoder_list empty_message reset new
      packet_decoder packet_shape feed_any PingDecoder.init_context ping_shape
      SyncDecoder.init_context sync_shape event_shape
  run-pkt bootstrap_request v = run-head 1 17 rest refl refl (omega arith) (omega arith) (λ b. refl)
  run-pkt bootstrap_response v =
      run-head 2 18 rest refl refl (omega arith) (omega arith) (λ b. refl)
  run-pkt bootstrap_ack v = run-head 3 19 rest refl refl (omega arith) (omega arith) (λ b. refl)
  run-pkt (ping m) v =
      opened ping_decoder pinging ping (λ f b. refl) 4 20 _ _ m (ping_bytes m) refl refl
        (omega arith) (omega arith) refl (run-ping m v 0 rest)
  run-pkt (pong m) v =
      opened pong_decoder ponging pong (λ f b. refl) 5 21 _ _ m (pong_bytes m) refl refl
        (omega arith) (omega arith) refl (run-pong m v rest)
  run-pkt (indirect_ping m) v =
      opened indirect_ping_decoder indirect_pinging indirect_ping (λ f b. refl) 6 22 _ _ m
        (indirect_ping_bytes m) refl refl (omega arith) (omega arith) refl
        (run-indirect_ping m v rest)
  run-pkt (indirect_pong m) v =
      opened indirect_pong_decoder indirect_ponging indirect_pong (λ f b. refl) 7 23 _ _ m
        (indirect_pong_bytes m) refl refl (omega arith) (omega arith) refl
        (run-indirect_pong m v rest)
  run-pkt (sync m) v =
      opened sync_decoder syncing sync (λ f b. refl) 8 24 _ _ m (sync_bytes m) refl refl
        (omega arith) (omega arith) refl (run-sync m v rest)

-- What `EncPkt` writes for a message of the form of the wire, at an incarnation that is a uint16, is what
-- `ParsePacket` gives back, whatever follows it. A message has that form if its numbers fit their fields,
-- its addresses are such as a decoder builds, a Ping has fewer than 256 events and a Sync fewer than 256
-- nodes, and the kind in a Pong is below 64, and 0 when no last state is known.
pub parse_packet-enc_pkt :
    (incarnation : ℕ) (m : Message) (rest : List ℕ)
    → IsU16 incarnation
    → IsWireMessage m
    → parse_packet (enc_pkt incarnation m ++ rest) ≡ inl (pkt incarnation m)
unfolding parse_packet parsed
parse_packet-enc_pkt incarnation m rest w v = ap parsed (run-pkt incarnation w rest m v)
