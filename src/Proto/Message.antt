-- ===== src/Proto/Message.antt =====
-- The messages: internal/proto/message_*.go. The interface Message is a data type with a constructor
-- for each struct that implements it.
pub mod PingDecoder
pub mod PongDecoder
pub mod IndirectPongDecoder
pub mod IndirectPingDecoder
pub mod SyncDecoder
use eswim.Base.{ℕ, ◌+◌, Bool, List, [], ◌∷◌}
use eswim.Proto.Ip.{Ip}
use eswim.Proto.Ip.{size}
use eswim.Proto.Node
use eswim.Proto.Node.{Node}
use eswim.Proto.Event
use eswim.Proto.Event.{Event}

pub record Ping : Type 0 where
  pub cookie : ℕ  -- uint16
  pub period : ℕ  -- uint16
  pub target_incarnation : ℕ  -- uint16
  pub events : List Event

pub record Pong : Type 0 where
  pub ack : Bool
  pub cookie : ℕ  -- uint16
  pub period : ℕ  -- uint16
  pub is_last_state_known : Bool
  pub last_known_incarnation : ℕ  -- uint16
  pub last_known_event_kind : ℕ  -- EventKind, a uint8

pub record IndirectPing : Type 0 where
  pub cookie : ℕ  -- uint16
  pub period : ℕ  -- uint16
  pub address : Ip

pub record IndirectPong : Type 0 where
  pub cookie : ℕ  -- uint16
  pub period : ℕ  -- uint16

pub record Sync : Type 0 where
  pub mode : ℕ  -- uint8
  pub nodes : List Node

pub data Message : Type 0 where
  bootstrap_request bootstrap_response bootstrap_ack : Message
  ping : Ping → Message
  pong : Pong → Message
  indirect_ping : IndirectPing → Message
  indirect_pong : IndirectPong → Message
  sync : Sync → Message

-- `reduce` of the sizes of the events.
unfoldable pub events_size : List Event → ℕ
events_size [] = 0
events_size (e ∷ es) = Event.required_size e + events_size es

-- `Ping.RequiredSize`
unfoldable pub ping_size : Ping → ℕ
unfolding events_size
ping_size p = 7 + events_size p.events

-- `IndirectPing.RequiredSize`
unfoldable pub indirect_ping_size : IndirectPing → ℕ
indirect_ping_size m = 5 + size m.address

-- `reduce` of the sizes of the nodes.
unfoldable pub nodes_size : List Node → ℕ
nodes_size [] = 0
nodes_size (n ∷ ns) = Node.required_size n + nodes_size ns

-- `Sync.RequiredSize`
unfoldable pub sync_size : Sync → ℕ
unfolding nodes_size
sync_size m = 2 + nodes_size m.nodes

-- `RequiredSize` of each message.
unfoldable pub message_size : Message → ℕ
unfolding ping_size indirect_ping_size sync_size
message_size bootstrap_request = 0
message_size bootstrap_response = 0
message_size bootstrap_ack = 0
message_size (ping m) = ping_size m
message_size (pong m) = 7
message_size (indirect_ping m) = indirect_ping_size m
message_size (indirect_pong m) = 4
message_size (sync m) = sync_size m
