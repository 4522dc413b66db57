-- ===== src/Proto/Packet.antt =====
-- Packets: internal/proto/packet.go, and the lists of the messages' decoders, EncPkt and ParsePacket of
-- internal/proto/base.go. The interface AnyDecoder, at the five machines that can stand behind it
-- here, is a data type with a constructor for each.
pub mod RoundTrip
pub mod Rejects
pub mod Size
use eswim.Base.{ℕ, ◌+◌, ◌==◌, Option, none, some, List, [], ◌++◌, ◌⊎◌, inl, inr, if◌then◌else◌}
use eswim.Fsm.{
  Fsm, Shape, Def, Signal, continue, done, raise, Fed, pending, value, failed, Run, waiting,
  finished, stopped, new, reset, transition, feed, run,
}
use eswim.Proto.Error.{Error, could_not_parse_packet, no_decoder}
use eswim.Proto.Message.{
  Message, bootstrap_request, bootstrap_response, bootstrap_ack, ping, pong, indirect_ping,
  indirect_pong, sync, message_size,
}
use eswim.Proto.Message.PingDecoder
use eswim.Proto.Message.PingDecoder.{PingMachine, ping_shape, ping_decoder, ping_bytes}
use eswim.Proto.Message.PongDecoder.{PongMachine, pong_shape, pong_decoder, pong_bytes}
use eswim.Proto.Message.IndirectPingDecoder.{
  IndirectPingMachine, indirect_ping_shape, indirect_ping_decoder, indirect_ping_bytes,
}
use eswim.Proto.Message.IndirectPongDecoder.{
  IndirectPongMachine, indirect_pong_shape, indirect_pong_decoder, indirect_pong_bytes,
}
use eswim.Proto.Message.SyncDecoder
use eswim.Proto.Message.SyncDecoder.{SyncMachine, sync_shape, sync_decoder, sync_bytes}
use eswim.Proto.Header.{
  Header, HeaderMachine, header_shape, header_decoder, header_bytes, protocol_magic,
  protocol_version,
}

-- The IP from which a packet came is nil (empty) until a server sets it. The message is `none` while
-- it is nil.
pub record Packet : Type 0 where
  pub source : List ℕ
  pub header : Header
  pub message : Option Message

-- The OpCode of each message.
unfoldable pub op_code : Message → ℕ
op_code bootstrap_request = 1
op_code bootstrap_response = 2
op_code bootstrap_ack = 3
op_code (ping m) = 4
op_code (pong m) = 5
op_code (indirect_ping m) = 6
op_code (indirect_pong m) = 7
op_code (sync m) = 8

pub data AnyDecoder : Type 0 where
  pinging : PingMachine → AnyDecoder
  ponging : PongMachine → AnyDecoder
  indirect_pinging : IndirectPingMachine → AnyDecoder
  indirect_ponging : IndirectPongMachine → AnyDecoder
  syncing : SyncMachine → AnyDecoder

-- What `messageDecoderList` has for an OpCode, with NewGeneric applied: nothing, nil, or a decoder.
pub data Listed : Type 0 where
  unlisted without_body : Listed
  with_body : AnyDecoder → Listed

unfoldable pub message_decoder_list : ℕ → Listed
message_decoder_list op =
    if op == 1
    then without_body
    else if op == 2
    then without_body
    else if op == 3
    then without_body
    else if op == 4
    then with_body (pinging (new ping_shape PingDecoder.init_context))
    else if op == 5
    then with_body (ponging (new pong_shape tt))
    else if op == 6
    then with_body (indirect_pinging (new indirect_ping_shape tt))
    else if op == 7
    then with_body (indirect_ponging (new indirect_pong_shape tt))
    else if op == 8
    then with_body (syncing (new sync_shape SyncDecoder.init_context))
    else unlisted

-- `emptyMessageTypes`
unfoldable pub empty_message : ℕ → Option Message
empty_message op =
    if op == 1
    then some bootstrap_request
    else if op == 2
    then some bootstrap_response
    else if op == 3
    then some bootstrap_ack
    else none

-- The value of a machine as a message.
abbrev pub lift_fed : {T : Type 0} → (T → Message) → Fed T Error → Fed Message Error
lift_fed make pending = pending
lift_fed make (value v) = value (make v)
lift_fed make (failed e) = failed e

-- `FeedAny`
unfoldable pub feed_any : AnyDecoder → ℕ → AnyDecoder × Fed Message Error
feed_any (pinging f) b = let (g, o) = feed ping_decoder f b in (pinging g, lift_fed ping o)
feed_any (ponging f) b = let (g, o) = feed pong_decoder f b in (ponging g, lift_fed pong o)
feed_any (indirect_pinging f) b =
    let (g, o) = feed indirect_ping_decoder f b in (indirect_pinging g, lift_fed indirect_ping o)
feed_any (indirect_ponging f) b =
    let (g, o) = feed indirect_pong_decoder f b in (indirect_ponging g, lift_fed indirect_pong o)
feed_any (syncing f) b = let (g, o) = feed sync_decoder f b in (syncing g, lift_fed sync o)

pub data State : Type 0 where
  state_header state_payload : State

pub record Context : Type 0 where
  pub header_machine : HeaderMachine
  pub payload_machine : Option AnyDecoder

abbrev pub PacketMachine : Type 0
PacketMachine = Fsm Packet State Context

unfoldable pub packet_shape : Shape Packet State Context
packet_shape = record {
  initial_size = 0;
  initial_state = state_header;
  zero_value = record {
    source = [];
    header = record { magic = 0; version = 0; op_code = 0; incarnation = 0 };
    message = none;
  };
  reset_context =
      λ c. record { header_machine = reset header_shape c.header_machine; payload_machine = none };
}

-- `Init`
unfoldable pub init_context : Context
init_context = record { header_machine = new header_shape tt; payload_machine = none }

-- What the packet becomes with a header.
unfoldable pub accept_header : PacketMachine → Header → PacketMachine × Signal Error
accept_header f head = elim (message_decoder_list head.op_code) [
  | unlisted ↦ (f, raise (no_decoder head.op_code))
  | without_body ↦ (
    record f {
      value = record (f.value) {
        header = head;
        message = elim (empty_message head.op_code) [ none ↦ f.value.message | some m ↦ some m ];
      };
    },
    done,
  )
  | with_body decoder ↦ (
    transition state_payload (record f {
      value = record (f.value) { header = head };
      context = record (f.context) { payload_machine = some decoder };
    }),
    continue,
  )
]

unfoldable pub after_header :
    PacketMachine → HeaderMachine × Fed Header Error → PacketMachine × Signal Error
unfolding accept_header
after_header f (m, pending) =
    (record f { context = record (f.context) { header_machine = m } }, continue)
after_header f (m, value head) =
    accept_header (record f { context = record (f.context) { header_machine = m } }) head
after_header f (m, failed e) =
    (record f { context = record (f.context) { header_machine = m } }, raise e)

unfoldable pub after_payload :
    PacketMachine → AnyDecoder × Fed Message Error → PacketMachine × Signal Error
after_payload f (d, pending) =
    (record f { context = record (f.context) { payload_machine = some d } }, continue)
after_payload f (d, value m) = (
  record f {
    value = record (f.value) { message = some m };
    context = record (f.context) { payload_machine = some d };
  },
  done,
)
after_payload f (d, failed e) =
    (record f { context = record (f.context) { payload_machine = some d } }, raise e)

-- The `switch state` of Feed. In the second state the context holds a decoder; a call through nil
-- would panic.
packet_switch : State → PacketMachine → ℕ → PacketMachine × Signal Error
unfolding after_header after_payload
packet_switch state_header f b = after_header f (feed header_decoder f.context.header_machine b)
packet_switch state_payload f b = elim (f.context.payload_machine) [
  | none ↦ (f, continue)
  | some d ↦ after_payload f (feed_any d b)
]

unfoldable pub packet_decoder : Def Packet State Context Error
unfolding packet_switch packet_shape
packet_decoder = record { shape = packet_shape; feed_fn = λ f b. packet_switch f.state f b }

-- `Encode` of each message.
abbrev pub message_bytes : Message → List ℕ
message_bytes bootstrap_request = []
message_bytes bootstrap_response = []
message_bytes bootstrap_ack = []
message_bytes (ping m) = ping_bytes m
message_bytes (pong m) = pong_bytes m
message_bytes (indirect_ping m) = indirect_ping_bytes m
message_bytes (indirect_pong m) = indirect_pong_bytes m
message_bytes (sync m) = sync_bytes m

-- `Pkt`
unfoldable pub pkt : ℕ → Message → Packet
unfolding op_code
pkt incarnation m = record {
  source = [];
  header = record {
    magic = protocol_magic;
    version = protocol_version;
    op_code = op_code m;
    incarnation = incarnation;
  };
  message = some m;
}

-- `Packet.RequiredSize`; a header takes five bytes.
unfoldable pub packet_size : Message → ℕ
packet_size m = 5 + message_size m

-- `EncPkt`
unfoldable pub enc_pkt : ℕ → Message → List ℕ
unfolding pkt
enc_pkt incarnation m = header_bytes (pkt incarnation m).header ++ message_bytes m

-- `ParsePacket`: a new decoder is fed the bytes up to its first answer.
unfoldable pub parsed : Run Packet State Context Error → Packet ⊎ Error
parsed (waiting f) = inr could_not_parse_packet
parsed (finished p f rest) = inl p
parsed (stopped e) = inr e

unfoldable pub parse_packet : List ℕ → Packet ⊎ Error
unfolding parsed
parse_packet bytes = parsed (run packet_decoder (new packet_shape init_context) bytes)
