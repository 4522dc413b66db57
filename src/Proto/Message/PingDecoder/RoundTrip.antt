-- ===== src/Proto/Message/PingDecoder/RoundTrip.antt =====
-- The decoder of internal/proto/message_ping.go reads back what a Ping is written as.
use eswim.Base.{
  ℕ, zero, suc, ◌%◌, ◌<◌, ◌≡◌, refl, ap, ◌∙◌, false, Option, some, List, [], ◌∷◌, ◌++◌, length, All,
  arith,
}
use eswim.Base.Int.{pos, pred_ℤ, is_zero}
use eswim.Fsm.{
  pending, value, Fed, finished, new, reset, transition, transition_size, transition_satisfy_size,
  step, feed, run, proceed,
}
use eswim.Fsm.Laws.{filling, run-filling_then, run-cons}
use eswim.Fsm.Repeated.{all_bytes, last_index, taken, run-items}
use eswim.Proto.Bytes.{u16_bytes, IsU16, u16_of-u16_bytes}
use eswim.Proto.Error.{Error}
use eswim.Proto.Event.{Event, event_kind}
use eswim.Proto.EventDecoder.{EventMachine, event_decoder, event_shape, event_bytes, kind_code}
use eswim.Proto.EventDecoder.RoundTrip.{ready, IsWireEvent, run-event}
use eswim.Proto.Message.{Ping}
use eswim.Proto.Message.PingDecoder.{
  PingMachine, state_period, state_target_incarnation, state_event_size, state_events, ping_shape,
  ping_decoder, ping_bytes, after_event, unless_done,
}
use eswim.Fsm.{answer}
use mathlib.Core.List.{append_assoc}

-- A count and events that the wire carries.
pub record IsWirePing (m : Ping) : Type 0 where
  pub cookie_fits : IsU16 m.cookie
  pub period_fits : IsU16 m.period
  pub target_fits : IsU16 m.target_incarnation
  pub count_fits : length m.events < 256
  pub events_wire : All IsWireEvent m.events

-- The decoder between two Pings.
abbrev pub idle : ℕ → PingMachine
idle k = new ping_shape (record { event_machine = ready k })

module _ (m : Ping) where
  abbrev reading : List Event → ℕ → EventMachine → ℕ → PingMachine
  reading l n e cb = record {
    value = record m { events = l };
    size = pos n;
    payload = [];
    state = state_events;
    context = record { event_machine = e };
    current_byte = cb;
    must_satisfy_size = false;
  }

  abbrev ended : EventMachine → PingMachine
  ended e = new ping_shape (record { event_machine = e })

  -- In this state the decoder does as the event decoder says.
  feed-reading :
      (l : List Event) (n cb b : ℕ) (e : EventMachine)
      → let r = after_event (reading l n e b) (feed event_decoder e b) in
        feed ping_decoder (reading l n e cb) b ≡ answer ping_decoder r.0 r.1
  unfolding feed step ping_decoder
  feed-reading l n cb b e = refl

  feed-answered :
      (l : List Event) (n cb b : ℕ) (e : EventMachine) {q : EventMachine × Fed (Option Event) Error}
      → feed event_decoder e b ≡ q
      → let r = after_event (reading l n e b) q in
        feed ping_decoder (reading l n e cb) b ≡ answer ping_decoder r.0 r.1
  feed-answered l n cb b e h =
      feed-reading l n cb b e
      ∙ ap (λ q. let r = after_event (reading l n e b) q in answer ping_decoder r.0 r.1) h

  follows :
      (l : List Event) (n cb b : ℕ) (e e' : EventMachine)
      → feed event_decoder e b ≡ (e', pending)
      → feed ping_decoder (reading l (suc n) e cb) b ≡ (reading l (suc n) e' b, pending)
  unfolding after_event unless_done is_zero
  follows l n cb b e e' h = feed-answered l (suc n) cb b e h

  takes :
      (l : List Event) (n cb b : ℕ) (e e' : EventMachine) (x : Event)
      → feed event_decoder e b ≡ (e', value (some x))
      → feed ping_decoder (reading l (suc n) e cb) b
        ≡ taken reading (λ k. record m { events = k }) ended (l ++ (x ∷ [])) n e' b
  unfolding after_event unless_done is_zero pred_ℤ reset new ping_decoder ping_shape
  takes l zero cb b e e' x h = feed-answered l 1 cb b e h
  takes l (suc n) cb b e e' x h = feed-answered l (suc (suc n)) cb b e h

-- The kind of the last of some events, or `k`.
abbrev pub last_kind : ℕ → List Event → ℕ
last_kind = last_index (λ e. kind_code (event_kind e))

module _ (m : Ping) (w : IsWirePing m) (k : ℕ) (rest : List ℕ) where
  abbrev count_machine : ℕ → PingMachine
  count_machine cb = record {
    value = record m { events = [] };
    size = pos 0;
    payload = [];
    state = state_event_size;
    context = record { event_machine = ready k };
    current_byte = cb;
    must_satisfy_size = false;
  }

  feed-count :
      (cb n : ℕ)
      → feed ping_decoder (count_machine cb) (suc n)
        ≡ (reading m [] (suc n) (ready k) (suc n), pending)
  unfolding feed step ping_decoder transition_size
  feed-count cb n = ground arith

  run_events :
      (cb : ℕ) (l : List Event)
      → length l < 256
      → All IsWireEvent l
      → run ping_decoder (count_machine cb) ((length l % 256) ∷ (all_bytes event_bytes l ++ rest))
        ≡ finished (record m { events = l }) (idle (last_kind k l)) rest
  unfolding feed step ping_decoder reset new ping_shape event_shape transition_size
  run_events cb [] h ws = run-cons ping_decoder _ 0 rest
  run_events cb (x ∷ xs) h ws =
      let n : suc (length xs) % 256 ≡ suc (length xs) = omega arith in
      rw n (
        run-cons ping_decoder (count_machine cb) (suc (length xs)) _
        ∙ ap (λ r. proceed ping_decoder r (all_bytes event_bytes (x ∷ xs) ++ rest))
            (feed-count cb (length xs))
        ∙ ap
            (λ bs. run ping_decoder (reading m [] (suc (length xs)) (ready k) (suc (length xs))) bs)
            (append_assoc (event_bytes x) (all_bytes event_bytes xs) rest)
        ∙ run-items event_decoder ping_decoder (reading m) (λ l. record m { events = l }) (ended m)
            some (follows m) (takes m) ready (λ e. kind_code (event_kind e)) event_bytes IsWireEvent
            (λ i e bs v. run-event i bs e v) x xs [] k (suc (length xs)) rest ws.0 ws.1)

  counted : List ℕ
  counted = (length m.events % 256) ∷ (all_bytes event_bytes m.events ++ rest)

  run_target :
      (cb : ℕ)
      → run ping_decoder
          (filling ping_decoder
            (record m { target_incarnation = 0; events = [] })
            2
            []
            state_target_incarnation
            (record { event_machine = ready k })
            cb)
          (u16_bytes m.target_incarnation ++ counted)
        ≡ finished m (idle (last_kind k m.events)) rest
  unfolding ping_decoder step transition transition_size counted
  run_target cb =
      run-filling_then ping_decoder _ _ _ _ (u16_bytes m.target_incarnation) _ refl (omega arith)
        (λ b.
          rw (u16_of-u16_bytes m.target_incarnation w.target_fits)
            (run_events b m.events w.count_fits w.events_wire))

  run_period :
      (cb : ℕ)
      → run ping_decoder
          (filling ping_decoder
            (record m { period = 0; target_incarnation = 0; events = [] })
            2
            []
            state_period
            (record { event_machine = ready k })
            cb)
          (u16_bytes m.period ++ (u16_bytes m.target_incarnation ++ counted))
        ≡ finished m (idle (last_kind k m.events)) rest
  unfolding ping_decoder step transition_satisfy_size
  run_period cb =
      run-filling_then ping_decoder _ _ _ _ (u16_bytes m.period) _ refl (omega arith)
        (λ b. rw (u16_of-u16_bytes m.period w.period_fits) (run_target b))

  -- The decoder gives a Ping back when its bytes are fed to it, leaves what follows, and is as
  -- before but for the kind of the last event.
  pub run-ping :
      run ping_decoder (idle k) (ping_bytes m ++ rest)
      ≡ finished m (idle (last_kind k m.events)) rest
  unfolding ping_decoder step transition_satisfy_size new reset ping_shape event_shape counted
  run-ping =
      run-filling_then ping_decoder _ _ _ _ (u16_bytes m.cookie) _ refl (omega arith)
        (λ b. rw (u16_of-u16_bytes m.cookie w.cookie_fits) (run_period b))
