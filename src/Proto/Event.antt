-- ===== src/Proto/Event.antt =====
-- Events about a node: internal/proto/event.go, the structs of internal/proto/event_*.go, and the
-- kinds of internal/proto/base.go. The interface EventEncoder is a data type with a constructor for
-- each struct that implements it.
pub mod JoinDecoder
pub mod HealthyDecoder
pub mod SuspectDecoder
pub mod FaultyDecoder
pub mod LeftDecoder
pub mod AliveDecoder
pub mod WrapDecoder
pub mod Setters
use eswim.Base.{ℕ, ◌+◌}
use eswim.Proto.Ip.{Ip, address_ipv4, size, copy_ip}
use eswim.Proto.Node.{Node}

pub data EventKind : Type 0 where
  kind_join kind_healthy kind_suspect kind_faulty kind_left kind_alive kind_wrap : EventKind

pub record Join : Type 0 where
  pub source : Ip
  pub subject : Ip
  pub incarnation : ℕ  -- uint16

pub record Healthy : Type 0 where
  pub source : Ip
  pub subject : Ip
  pub incarnation : ℕ  -- uint16

pub record Suspect : Type 0 where
  pub source : Ip
  pub subject : Ip
  pub incarnation : ℕ  -- uint16

pub record Faulty : Type 0 where
  pub source : Ip
  pub subject : Ip
  pub incarnation : ℕ  -- uint16

pub record Left : Type 0 where
  pub subject : Ip
  pub incarnation : ℕ  -- uint16

pub record Alive : Type 0 where
  pub subject : Ip
  pub incarnation : ℕ  -- uint16

pub record Wrap : Type 0 where
  pub subject : Ip
  pub incarnation : ℕ  -- uint16
  pub new_incarnation : ℕ  -- uint16

pub data Event : Type 0 where
  join : Join → Event
  healthy : Healthy → Event
  suspect : Suspect → Event
  faulty : Faulty → Event
  left : Left → Event
  alive : Alive → Event
  wrap : Wrap → Event

unfoldable pub event_kind : Event → EventKind
event_kind (join p) = kind_join
event_kind (healthy p) = kind_healthy
event_kind (suspect p) = kind_suspect
event_kind (faulty p) = kind_faulty
event_kind (left p) = kind_left
event_kind (alive p) = kind_alive
event_kind (wrap p) = kind_wrap

unfoldable pub get_incarnation : Event → ℕ
get_incarnation (join p) = p.incarnation
get_incarnation (healthy p) = p.incarnation
get_incarnation (suspect p) = p.incarnation
get_incarnation (faulty p) = p.incarnation
get_incarnation (left p) = p.incarnation
get_incarnation (alive p) = p.incarnation
get_incarnation (wrap p) = p.incarnation

unfoldable pub get_subject : Event → Ip
get_subject (join p) = p.subject
get_subject (healthy p) = p.subject
get_subject (suspect p) = p.subject
get_subject (faulty p) = p.subject
get_subject (left p) = p.subject
get_subject (alive p) = p.subject
get_subject (wrap p) = p.subject

unfoldable pub source_address_kind : Event → ℕ
source_address_kind (join p) = p.source.address_kind
source_address_kind (healthy p) = p.source.address_kind
source_address_kind (suspect p) = p.source.address_kind
source_address_kind (faulty p) = p.source.address_kind
source_address_kind (left p) = address_ipv4
source_address_kind (alive p) = address_ipv4
source_address_kind (wrap p) = address_ipv4

unfoldable pub subject_address_kind : Event → ℕ
unfolding get_subject
subject_address_kind e = (get_subject e).address_kind

-- `RequiredSize` of each payload.
unfoldable pub payload_size : Event → ℕ
payload_size (join p) = 2 + size p.source + size p.subject
payload_size (healthy p) = 2 + size p.subject + size p.source
payload_size (suspect p) = 2 + size p.source + size p.subject
payload_size (faulty p) = 2 + size p.source + size p.subject
payload_size (left p) = 2 + size p.subject
payload_size (alive p) = 2 + size p.subject
payload_size (wrap p) = 4 + size p.subject

-- `Event.RequiredSize`: one byte of flags and the payload.
unfoldable pub required_size : Event → ℕ
required_size e = 1 + payload_size e
