-- ===== src/Proto/Message/PingDecoder.antt =====
-- The bytes of a Ping and its decoder: internal/proto/message_ping.go.
pub mod RoundTrip
use eswim.Base.{
  ℕ, zero, suc, ◌+◌, ◌-◌, ◌%◌, ◌==◌, ◌<◌, ◌≡◌, refl, ap, ◌∙◌, Option, none, some, List, [], ◌∷◌,
  ◌++◌, length, All, not, if◌then◌else◌, arith,
}
use eswim.Base.Int.{ℤ, pos, pred_ℤ, is_zero}
use eswim.Fsm.{
  Fsm, Shape, Def, Signal, continue, done, raise, Fed, pending, value, failed, finished, new, reset,
  transition, transition_size, transition_satisfy_size, u16_of, step, feed, run,
}
use eswim.Fsm.Laws.{filling, run-filling_then, run-cons}
use eswim.Fsm.Repeated.{all_bytes, taken, run-items}
use eswim.Proto.Bytes.{u16_bytes, IsU16, u16_of-u16_bytes}
use eswim.Proto.Error.{Error}
use eswim.Proto.Event.{Event, event_kind}
use eswim.Proto.EventDecoder.{EventMachine, event_shape, event_decoder, event_bytes, kind_code}
use eswim.Proto.EventDecoder.RoundTrip.{ready, IsWireEvent, run-event}
use eswim.Proto.Message.{Ping}

pub data State : Type 0 where
  state_cookie state_period state_target_incarnation state_event_size state_events : State

pub record Context : Type 0 where
  pub event_machine : EventMachine

abbrev pub PingMachine : Type 0
PingMachine = Fsm Ping State Context

-- The Reset of the context resets the event decoder.
unfoldable pub ping_shape : Shape Ping State Context
ping_shape = record {
  initial_size = 2;
  initial_state = state_cookie;
  zero_value = record { cookie = 0; period = 0; target_incarnation = 0; events = [] };
  reset_context = λ c. record { event_machine = reset event_shape c.event_machine };
}

-- The Init of the context: `eventDecoder.New()`.
unfoldable pub init_context : Context
init_context = record {
  event_machine =
      new event_shape (record { source_kind = 0; subject_kind = 0; kind = 0; decoder = none });
}

-- `if f.Size != 0 { break }; return fsm.Done`
unfoldable pub unless_done : PingMachine → PingMachine × Signal Error
unless_done f = if not (is_zero f.size) then (f, continue) else (f, done)

-- What becomes of the answer of the event decoder. An event that comes without a payload would be
-- appended with a nil one; it is left out, and the event decoder gives none.
unfoldable pub after_event :
    PingMachine → EventMachine × Fed (Option Event) Error → PingMachine × Signal Error
unfolding unless_done
after_event f (m, pending) = unless_done (record f { context = record { event_machine = m } })
after_event f (m, value none) =
    unless_done (record f { size = pred_ℤ f.size; context = record { event_machine = m } })
after_event f (m, value (some e)) = unless_done (record f {
  size = pred_ℤ f.size;
  value = record (f.value) { events = f.value.events ++ (e ∷ []) };
  context = record { event_machine = m };
})
after_event f (m, failed e) = (record f { context = record { event_machine = m } }, raise e)

-- The `switch state` of Feed.
ping_switch : State → PingMachine → ℕ → PingMachine × Signal Error
unfolding after_event
ping_switch state_cookie f b = (
  transition_satisfy_size state_period 2
      (record f { value = record (f.value) { cookie = u16_of f.payload } }),
  continue,
)
ping_switch state_period f b = (
  transition_satisfy_size state_target_incarnation 2
      (record f { value = record (f.value) { period = u16_of f.payload } }),
  continue,
)
ping_switch state_target_incarnation f b = (
  transition state_event_size
      (record f { value = record (f.value) { target_incarnation = u16_of f.payload } }),
  continue,
)
ping_switch state_event_size f b =
    if b == 0 then (f, done) else (transition_size state_events b f, continue)
ping_switch state_events f b = after_event f (feed event_decoder f.context.event_machine b)

unfoldable pub ping_decoder : Def Ping State Context Error
unfolding ping_switch ping_shape
ping_decoder = record { shape = ping_shape; feed_fn = λ f b. ping_switch f.state f b }

-- `Ping.Encode`; the count is a uint8.
abbrev pub ping_bytes : Ping → List ℕ
ping_bytes m =
    u16_bytes m.cookie
    ++ (u16_bytes m.period
        ++ (u16_bytes m.target_incarnation
            ++ ((length m.events % 256) ∷ all_bytes event_bytes m.events)))
