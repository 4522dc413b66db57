-- ===== src/Proto/EventDecoder.antt =====
-- The decoder of an event: eventDecoder of internal/proto/event.go, and the list of the payloads'
-- decoders in internal/proto/base.go. The interface AnyDecoder, at the seven machines that can stand
-- behind it, is a data type with a constructor for each.
pub mod RoundTrip
pub mod Size
use eswim.Base.{
  ℕ, ◌+◌, ◌*◌, ◌/◌, ◌%◌, ◌==◌, ◌≡◌, refl, Option, none, some, List, [], ◌∷◌, ◌++◌, if◌then◌else◌,
}
use eswim.Fsm.{
  Fsm, Shape, Def, Signal, continue, done, raise, Fed, pending, value, failed, new, reset,
  transition, feed,
}
use eswim.Proto.Ip.{address_ipv6}
use eswim.Proto.Error.{Error, no_event_decoder}
use eswim.Proto.Ip.{Ip}
use eswim.Proto.Event.{
  EventKind, kind_join, kind_healthy, kind_suspect, kind_faulty, kind_left, kind_alive, kind_wrap,
  Join, Healthy, Suspect, Faulty, Left, Alive, Wrap, Event, join, healthy, suspect, faulty, left,
  alive, wrap, event_kind, source_address_kind, subject_address_kind,
}
use eswim.Proto.Event.JoinDecoder
use eswim.Proto.Event.HealthyDecoder
use eswim.Proto.Event.SuspectDecoder
use eswim.Proto.Event.FaultyDecoder
use eswim.Proto.Event.LeftDecoder
use eswim.Proto.Event.AliveDecoder
use eswim.Proto.Event.WrapDecoder
use eswim.Proto.Event.JoinDecoder.{join_decoder, open_join, join_bytes}
use eswim.Proto.Event.HealthyDecoder.{healthy_decoder, open_healthy, healthy_bytes}
use eswim.Proto.Event.SuspectDecoder.{suspect_decoder, open_suspect, suspect_bytes}
use eswim.Proto.Event.FaultyDecoder.{faulty_decoder, open_faulty, faulty_bytes}
use eswim.Proto.Event.LeftDecoder.{left_decoder, open_left, left_bytes}
use eswim.Proto.Event.AliveDecoder.{alive_decoder, open_alive, alive_bytes}
use eswim.Proto.Event.WrapDecoder.{wrap_decoder, open_wrap, wrap_bytes}

-- The number of each kind on the wire.
unfoldable pub kind_code : EventKind → ℕ
kind_code kind_join = 0
kind_code kind_healthy = 1
kind_code kind_suspect = 2
kind_code kind_faulty = 3
kind_code kind_left = 4
kind_code kind_alive = 5
kind_code kind_wrap = 6

pub data AnyDecoder : Type 0 where
  joining : Fsm Join JoinDecoder.State JoinDecoder.Context → AnyDecoder
  healing : Fsm Healthy HealthyDecoder.State HealthyDecoder.Context → AnyDecoder
  suspecting : Fsm Suspect SuspectDecoder.State SuspectDecoder.Context → AnyDecoder
  failing : Fsm Faulty FaultyDecoder.State FaultyDecoder.Context → AnyDecoder
  leaving : Fsm Left LeftDecoder.State LeftDecoder.Context → AnyDecoder
  living : Fsm Alive AliveDecoder.State AliveDecoder.Context → AnyDecoder
  wrapping : Fsm Wrap WrapDecoder.State WrapDecoder.Context → AnyDecoder

-- `eventDecoderList`, NewGeneric, the two setters on the context where it has them, and Prepare.
unfoldable pub open_decoder : ℕ → ℕ → ℕ → Option AnyDecoder
open_decoder kind source subject =
    if kind == 0
    then some (joining (open_join source subject))
    else if kind == 1
    then some (healing (open_healthy source subject))
    else if kind == 2
    then some (suspecting (open_suspect source subject))
    else if kind == 3
    then some (failing (open_faulty source subject))
    else if kind == 4
    then some (leaving (open_left subject))
    else if kind == 5
    then some (living (open_alive subject))
    else if kind == 6
    then some (wrapping (open_wrap subject))
    else none

-- The value of a machine as an event.
abbrev pub lift_fed : {T : Type 0} → (T → Event) → Fed T Error → Fed Event Error
lift_fed make pending = pending
lift_fed make (value v) = value (make v)
lift_fed make (failed e) = failed e

-- `FeedAny`
unfoldable pub feed_any : AnyDecoder → ℕ → AnyDecoder × Fed Event Error
feed_any (joining f) b = let (g, o) = feed join_decoder f b in (joining g, lift_fed join o)
feed_any (healing f) b = let (g, o) = feed healthy_decoder f b in (healing g, lift_fed healthy o)
feed_any (suspecting f) b =
    let (g, o) = feed suspect_decoder f b in (suspecting g, lift_fed suspect o)
feed_any (failing f) b = let (g, o) = feed faulty_decoder f b in (failing g, lift_fed faulty o)
feed_any (leaving f) b = let (g, o) = feed left_decoder f b in (leaving g, lift_fed left o)
feed_any (living f) b = let (g, o) = feed alive_decoder f b in (living g, lift_fed alive o)
feed_any (wrapping f) b = let (g, o) = feed wrap_decoder f b in (wrapping g, lift_fed wrap o)

pub data State : Type 0 where
  state_flags state_payload : State

pub record Context : Type 0 where
  pub source_kind : ℕ
  pub subject_kind : ℕ
  pub kind : ℕ
  pub decoder : Option AnyDecoder

-- The value is `none` as long as `Payload` is nil. The Reset of the context leaves the event kind.
abbrev pub EventMachine : Type 0
EventMachine = Fsm (Option Event) State Context

unfoldable pub event_shape : Shape (Option Event) State Context
event_shape = record {
  initial_size = 0;
  initial_state = state_flags;
  zero_value = none;
  reset_context = λ c. record c { source_kind = 0; subject_kind = 0; decoder = none };
}

-- The bits of the flags: `(b >> 4) & 0xF`, `(b & 0x8) >> 3` and `(b & 0x4) >> 2`.
event_flags : EventMachine → ℕ → EventMachine × Signal Error
event_flags f b =
    let kind = b / 16 % 16 in
    let source = b / 8 % 2 in
    let subject = b / 4 % 2 in
    let known = record (f.context) { source_kind = source; subject_kind = subject; kind = kind } in
    elim (open_decoder kind source subject) [
      | none ↦ (reset event_shape (record f { context = known }), raise (no_event_decoder kind))
      | some decoder ↦ (
        transition state_payload (record f { context = record known { decoder = some decoder } }),
        continue,
      )
    ]

-- In this state the context holds a decoder; a call through nil would panic.
event_payload : EventMachine → ℕ → EventMachine × Signal Error
event_payload f b = elim (f.context.decoder) [
  | none ↦ (f, continue)
  | some decoder ↦
      let (decoder', answered) = feed_any decoder b in
      let g = record f { context = record (f.context) { decoder = some decoder' } } in
      elim answered [
        | pending ↦ (g, continue)
        | value v ↦ (record g { value = some v }, done)
        | failed e ↦ (g, raise e)
      ]
]

event_switch : State → EventMachine → ℕ → EventMachine × Signal Error
unfolding event_flags event_payload
event_switch state_flags f b = event_flags f b
event_switch state_payload f b = event_payload f b

unfoldable pub event_decoder : Def (Option Event) State Context Error
unfolding event_switch event_shape
event_decoder = record { shape = event_shape; feed_fn = λ f b. event_switch f.state f b }

-- `Event.Encode`: the flags, and the payload. `flag_byte` is `byte(kind) << 4`, with 0x8 and 0x4 set
-- for an IPv6 source and subject.
abbrev pub flag_byte : ℕ → ℕ → ℕ → ℕ
flag_byte kind source subject =
    kind * 16
    + (if source == address_ipv6 then 8 else 0)
    + (if subject == address_ipv6 then 4 else 0)

abbrev pub event_flag_byte : Event → ℕ
event_flag_byte e =
    flag_byte (kind_code (event_kind e)) (source_address_kind e) (subject_address_kind e)

abbrev pub payload_bytes : Event → List ℕ
payload_bytes (join p) = join_bytes p
payload_bytes (healthy p) = healthy_bytes p
payload_bytes (suspect p) = suspect_bytes p
payload_bytes (faulty p) = faulty_bytes p
payload_bytes (left p) = left_bytes p
payload_bytes (alive p) = alive_bytes p
payload_bytes (wrap p) = wrap_bytes p

abbrev pub event_bytes : Event → List ℕ
event_bytes e = event_flag_byte e ∷ payload_bytes e
