-- ===== src/Proto/EventDecoder/Size.antt =====
-- How many bytes an event takes on the wire: RequiredSize against Encode, internal/proto/event.go and
-- internal/proto/event_*.go.
use eswim.Base.{◌≡◌, arith, length, length-append}
use eswim.Proto.Ip.Equal.{length-bytes}
use eswim.Proto.Event.{
  Event, join, healthy, suspect, faulty, left, alive, wrap, payload_size, required_size,
}
use eswim.Proto.EventDecoder.{event_bytes}
use eswim.Proto.EventDecoder.RoundTrip.{IsWireEvent}

-- `Encode` of an event whose addresses have a known kind writes exactly as many bytes as
-- `RequiredSize` says, so the buffer is filled.
pub length-event_bytes : (e : Event) → IsWireEvent e → length (event_bytes e) ≡ required_size e
unfolding required_size payload_size
length-event_bytes (join p) w = grind (
  arith,
  length-append,
  length-bytes p.source w.source_wire.sized,
  length-bytes p.subject w.subject_wire.sized,
)
length-event_bytes (healthy p) w = grind (
  arith,
  length-append,
  length-bytes p.source w.source_wire.sized,
  length-bytes p.subject w.subject_wire.sized,
)
length-event_bytes (suspect p) w = grind (
  arith,
  length-append,
  length-bytes p.source w.source_wire.sized,
  length-bytes p.subject w.subject_wire.sized,
)
length-event_bytes (faulty p) w = grind (
  arith,
  length-append,
  length-bytes p.source w.source_wire.sized,
  length-bytes p.subject w.subject_wire.sized,
)
length-event_bytes (left p) w =
    grind (arith, length-append, length-bytes p.subject w.subject_wire.sized)
length-event_bytes (alive p) w =
    grind (arith, length-append, length-bytes p.subject w.subject_wire.sized)
length-event_bytes (wrap p) w =
    grind (arith, length-append, length-bytes p.subject w.subject_wire.sized)
