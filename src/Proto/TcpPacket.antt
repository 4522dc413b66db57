-- ===== src/Proto/TcpPacket.antt =====
-- The frames of a TCP stream and their decoder: internal/proto/tcp_packet.go.
pub mod RoundTrip
use eswim.Base.{ℕ, ◌+◌, ◌%◌, ◌==◌, ◌^◌, not, List, [], ◌∷◌, ◌++◌, length, replicate, if◌then◌else◌}
use eswim.Fsm.{
  Fsm, Shape, Def, Signal, continue, done, reset, transition_satisfy_size, u16_of, u32_of,
}
use eswim.Proto.Bytes.{u16_bytes, u32_bytes}
use eswim.Proto.Error.{Error}
use eswim.Proto.Header.{protocol_magic, protocol_version}
use eswim.Proto.Ip.{copy}

pub record TcpPacket : Type 0 where
  pub magic : ℕ  -- uint16
  pub version : ℕ  -- uint8
  pub payload : List ℕ

pub data State : Type 0 where
  state_magic state_version state_size state_payload : State

abbrev pub TcpMachine : Type 0
TcpMachine = Fsm TcpPacket State (Unit {0})

abbrev pub tcp_shape : Shape TcpPacket State (Unit {0})
tcp_shape = record {
  initial_size = 2;
  initial_state = state_magic;
  zero_value = record { magic = 0; version = 0; payload = [] };
  reset_context = λ c. c;
}

-- The `switch state` of Feed.
tcp_switch : State → TcpMachine → ℕ → TcpMachine × Signal Error
unfolding copy
tcp_switch state_magic f b =
    if not (u16_of f.payload == protocol_magic) then (reset tcp_shape f, continue) else (
      transition_satisfy_size state_version 1
          (record f { value = record (f.value) { magic = protocol_magic } }),
      continue,
    )
tcp_switch state_version f b = if not (b == 1) then (reset tcp_shape f, continue) else (
  transition_satisfy_size state_size 4 (record f { value = record (f.value) { version = b } }),
  continue,
)
tcp_switch state_size f b = (
  transition_satisfy_size state_payload (u32_of f.payload)
      (record f { value = record (f.value) { payload = replicate (u32_of f.payload) 0 } }),
  continue,
)
tcp_switch state_payload f b =
    (record f { value = record (f.value) { payload = copy f.value.payload f.payload } }, done)

unfoldable pub tcp_decoder : Def TcpPacket State (Unit {0}) Error
unfolding tcp_switch
tcp_decoder = record { shape = tcp_shape; feed_fn = λ f b. tcp_switch f.state f b }

-- `TCPPacket.RequiredSize`
unfoldable pub required_size : TcpPacket → ℕ
required_size p = 7 + length p.payload

-- `TCPPacket.Encode`; the magic number and the version are those of the protocol, whatever the packet
-- says.
unfoldable pub tcp_bytes : TcpPacket → List ℕ
tcp_bytes p =
    u16_bytes protocol_magic
    ++ (protocol_version ∷ (u32_bytes (length p.payload % 2 ^ 32) ++ p.payload))

-- The packet that EncTCPPkt of internal/proto/base.go makes of sealed bytes.
unfoldable pub tcp_packet : List ℕ → TcpPacket
tcp_packet sealed = record { magic = protocol_magic; version = protocol_version; payload = sealed }
