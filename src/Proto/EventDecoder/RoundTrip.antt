-- ===== src/Proto/EventDecoder/RoundTrip.antt =====
-- The event decoder of internal/proto/event.go reads back what an event is written as.
use eswim.Base.{
  ℕ, ◌+◌, ◌*◌, ◌/◌, ◌%◌, ◌<◌, ◌≡◌, refl, ap, ◌∙◌, false, Option, none, some, List, [], ◌∷◌, ◌++◌,
  arith,
}
use eswim.Base.Int.{pos}
use eswim.Fsm.{
  Fsm, Def, proceed, Fed, pending, value, failed, finished, reset, transition, feed, run, step,
}
use eswim.Fsm.Nested.{run-nested}
use eswim.Fsm.Laws.{run-cons}
use eswim.Proto.Error.{Error}
use eswim.Proto.Event.{
  Event, join, healthy, suspect, faulty, left, alive, wrap, event_kind, source_address_kind,
  subject_address_kind,
}
use eswim.Proto.Event.JoinDecoder.{join_decoder, join_bytes, IsWireJoin, run-join}
use eswim.Proto.Event.HealthyDecoder.{healthy_decoder, healthy_bytes, IsWireHealthy, run-healthy}
use eswim.Proto.Event.SuspectDecoder.{suspect_decoder, suspect_bytes, IsWireSuspect, run-suspect}
use eswim.Proto.Event.FaultyDecoder.{faulty_decoder, faulty_bytes, IsWireFaulty, run-faulty}
use eswim.Proto.Event.LeftDecoder.{left_decoder, left_bytes, IsWireLeft, run-left}
use eswim.Proto.Event.AliveDecoder.{alive_decoder, alive_bytes, IsWireAlive, run-alive}
use eswim.Proto.Event.WrapDecoder.{wrap_decoder, wrap_bytes, IsWireWrap, run-wrap}
use eswim.Proto.EventDecoder.{
  flag_byte, AnyDecoder, joining, healing, suspecting, failing, leaving, living, wrapping,
  open_decoder, feed_any, lift_fed, state_flags, state_payload, EventMachine, event_decoder,
  kind_code, event_bytes,
}

-- The machine between two events; it remembers the kind of the last one.
abbrev pub ready : ℕ → EventMachine
ready k = record {
  value = none;
  size = pos 0;
  payload = [];
  state = state_flags;
  context = record { source_kind = 0; subject_kind = 0; kind = k; decoder = none };
  current_byte = 0;
  must_satisfy_size = false;
}

-- The machine inside an event.
abbrev paying : AnyDecoder → ℕ → ℕ → ℕ → ℕ → EventMachine
paying d s t k cb = record {
  value = none;
  size = pos 0;
  payload = [];
  state = state_payload;
  context = record { source_kind = s; subject_kind = t; kind = k; decoder = some d };
  current_byte = cb;
  must_satisfy_size = false;
}

abbrev after_any :
    ℕ → ℕ → ℕ → ℕ → AnyDecoder → Fed Event Error → EventMachine × Fed (Option Event) Error
after_any s t k b d pending = (paying d s t k b, pending)
after_any s t k b d (value v) = (ready k, value (some v))
after_any s t k b d (failed e) = (paying d s t k b, pending)

feed-paying :
    (d : AnyDecoder) (s t k cb b : ℕ)
    → feed event_decoder (paying d s t k cb) b ≡ after_any s t k b (feed_any d b).0 (feed_any d b).1
unfolding feed step event_decoder reset
feed-paying d s t k cb b = ground arith

-- While the decoder of a payload works, the event machine does as it does.
module _ {T S C : Type 0} (def : Def T S C Error) (inject : Fsm T S C → AnyDecoder)
    (make : T → Event)
    (law : (f : Fsm T S C) (b : ℕ)
      → feed_any (inject f) b ≡ (inject (feed def f b).0, lift_fed make (feed def f b).1))
    (s t k : ℕ) where
  feed-answered :
      (cb b : ℕ) (f : Fsm T S C) {q : Fsm T S C × Fed T Error}
      → feed def f b ≡ q
      → feed event_decoder (paying (inject f) s t k cb) b
        ≡ after_any s t k b (inject q.0) (lift_fed make q.1)
  feed-answered cb b f h =
      feed-paying (inject f) s t k cb b
      ∙ ap (λ r. after_any s t k b r.0 r.1) (law f b)
      ∙ ap (λ q. after_any s t k b (inject q.0) (lift_fed make q.1)) h

  run-paying :
      (bs : List ℕ) (f g : Fsm T S C) (p : T) (rest : List ℕ) (cb : ℕ)
      → run def f bs ≡ finished p g rest
      → run event_decoder (paying (inject f) s t k cb) bs ≡ finished (some (make p)) (ready k) rest
  run-paying bs f g p rest cb e =
      run-nested def event_decoder (λ f cb. paying (inject f) s t k cb)
        (λ cb b m m' h. feed-answered cb b m h) bs f g p rest cb e
        (λ m0 cb b h. ap (λ r. proceed event_decoder r rest) (feed-answered cb b m0 h))

feed-flags :
    (k b c s t : ℕ) {d : AnyDecoder}
    → b / 16 % 16 ≡ c
    → b / 8 % 2 ≡ s
    → b / 4 % 2 ≡ t
    → open_decoder c s t ≡ some d
    → feed event_decoder (ready k) b ≡ (paying d s t c b, pending)
unfolding feed step event_decoder reset transition
feed-flags k b c s t {d} kind source subject e =
    let e' : open_decoder (b / 16 % 16) (b / 8 % 2) (b / 4 % 2) ≡ some d =
      rw (kind, source, subject) e in
    ground arith

flag_byte-lt : (c s t : ℕ) → s < 2 → t < 2 → flag_byte c s t ≡ c * 16 + s * 8 + t * 4
flag_byte-lt c s t hs ht = ground arith

feed-ready :
    (k c s t : ℕ) {d : AnyDecoder}
    → c < 16
    → s < 2
    → t < 2
    → open_decoder c s t ≡ some d
    → feed event_decoder (ready k) (flag_byte c s t) ≡ (paying d s t c (flag_byte c s t), pending)
feed-ready k c s t hc hs ht =
    let e = flag_byte-lt c s t hs ht in
    feed-flags k _ c s t (omega arith) (omega arith) (omega arith)

-- The addresses and incarnations of an event have the form in which the wire carries them.
abbrev pub IsWireEvent : Event → Type 0
IsWireEvent (join p) = IsWireJoin p
IsWireEvent (healthy p) = IsWireHealthy p
IsWireEvent (suspect p) = IsWireSuspect p
IsWireEvent (faulty p) = IsWireFaulty p
IsWireEvent (left p) = IsWireLeft p
IsWireEvent (alive p) = IsWireAlive p
IsWireEvent (wrap p) = IsWireWrap p

module _ (k : ℕ) (rest : List ℕ) where
  -- The flags open the decoder of the payload, which does the rest.
  opened :
      {T S C : Type 0} (def : Def T S C Error) (inject : Fsm T S C → AnyDecoder) (make : T → Event)
      (law : (f : Fsm T S C) (b : ℕ)
        → feed_any (inject f) b ≡ (inject (feed def f b).0, lift_fed make (feed def f b).1))
      (c s t : ℕ) (f g : Fsm T S C) (p : T) (bs : List ℕ)
      → c < 16
      → s < 2
      → t < 2
      → open_decoder c s t ≡ some (inject f)
      → run def f (bs ++ rest) ≡ finished p g rest
      → run event_decoder (ready k) (flag_byte c s t ∷ (bs ++ rest))
        ≡ finished (some (make p)) (ready c) rest
  opened def inject make law c s t f g p bs hc hs ht o e =
      run-cons event_decoder (ready k) _ (bs ++ rest)
      ∙ ap (λ r. proceed event_decoder r (bs ++ rest)) (feed-ready k c s t hc hs ht o)
      ∙ run-paying def inject make law s t c (bs ++ rest) f g p rest _ e

  -- The event decoder, before its first event or between two, gives an event back when the
  -- bytes that `Encode` writes for it are fed to it, leaves what follows, and is ready for the
  -- next one. The addresses of the event have a known kind and no bytes beyond its size, and
  -- its incarnations are uint16 values.
  pub run-event :
      (e : Event)
      → IsWireEvent e
      → run event_decoder (ready k) (event_bytes e ++ rest)
        ≡ finished (some e) (ready (kind_code (event_kind e))) rest
  unfolding open_decoder feed_any kind_code event_kind source_address_kind subject_address_kind
  run-event (join p) w =
      opened join_decoder joining join (λ f b. refl) 0 p.source.address_kind p.subject.address_kind
        _ _ p (join_bytes p) (omega arith) w.source_wire.known_kind w.subject_wire.known_kind refl
        (run-join p w rest)
  run-event (healthy p) w =
      opened healthy_decoder healing healthy (λ f b. refl) 1 p.source.address_kind
        p.subject.address_kind _ _ p (healthy_bytes p) (omega arith) w.source_wire.known_kind
        w.subject_wire.known_kind refl (run-healthy p w rest)
  run-event (suspect p) w =
      opened suspect_decoder suspecting suspect (λ f b. refl) 2 p.source.address_kind
        p.subject.address_kind _ _ p (suspect_bytes p) (omega arith) w.source_wire.known_kind
        w.subject_wire.known_kind refl (run-suspect p w rest)
  run-event (faulty p) w =
      opened faulty_decoder failing faulty (λ f b. refl) 3 p.source.address_kind
        p.subject.address_kind _ _ p (faulty_bytes p) (omega arith) w.source_wire.known_kind
        w.subject_wire.known_kind refl (run-faulty p w rest)
  run-event (left p) w =
      opened left_decoder leaving left (λ f b. refl) 4 0 p.subject.address_kind _ _ p (left_bytes p)
        (omega arith) (omega arith) w.subject_wire.known_kind refl (run-left p w rest)
  run-event (alive p) w =
      opened alive_decoder living alive (λ f b. refl) 5 0 p.subject.address_kind _ _ p
        (alive_bytes p) (omega arith) (omega arith) w.subject_wire.known_kind refl
        (run-alive p w rest)
  run-event (wrap p) w =
      opened wrap_decoder wrapping wrap (λ f b. refl) 6 0 p.subject.address_kind _ _ p
        (wrap_bytes p) (omega arith) (omega arith) w.subject_wire.known_kind refl
        (run-wrap p w rest)
