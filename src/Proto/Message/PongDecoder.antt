-- ===== src/Proto/Message/PongDecoder.antt =====
-- The bytes of a Pong and its decoder: internal/proto/message_pong.go.
use eswim.Base.{
  ℕ, ◌+◌, ◌*◌, ◌/◌, ◌%◌, ◌==◌, ◌<◌, ◌≡◌, refl, ap, ◌∙◌, false, List, [], ◌∷◌, ◌++◌, if◌then◌else◌,
  arith,
}
use eswim.Fsm.{
  Fsm, Shape, Def, Signal, continue, done, pending, finished, new, reset, transition_satisfy_size,
  u16_of, step, feed, run, proceed,
}
use eswim.Fsm.Laws.{filling, run-filling_then, run-cons}
use eswim.Proto.Bytes.{u16_bytes, IsU16, u16_of-u16_bytes}
use eswim.Proto.Error.{Error}
use eswim.Proto.Message.{Pong}

pub data State : Type 0 where
  state_flags state_cookie state_period state_last_known_incarnation : State

abbrev pub PongMachine : Type 0
PongMachine = Fsm Pong State (Unit {0})

abbrev pub pong_shape : Shape Pong State (Unit {0})
pong_shape = record {
  initial_size = 0;
  initial_state = state_flags;
  zero_value = record {
    ack = false;
    cookie = 0;
    period = 0;
    is_last_state_known = false;
    last_known_incarnation = 0;
    last_known_event_kind = 0;
  };
  reset_context = λ c. c;
}

-- What the flags say: `b&0x1 == 0x1`, `b&0x2 == 0x2` and `b >> 2`.
unfoldable pub read_flags : ℕ → Pong → Pong
read_flags b m = record m {
  ack = b % 2 == 1;
  is_last_state_known = b / 2 % 2 == 1;
  last_known_event_kind = if b / 2 % 2 == 1 then b / 4 else m.last_known_event_kind;
}

-- The `switch state` of Feed.
pong_switch : State → PongMachine → ℕ → PongMachine × Signal Error
unfolding read_flags
pong_switch state_flags f b =
    (transition_satisfy_size state_cookie 2 (record f { value = read_flags b f.value }), continue)
pong_switch state_cookie f b = (
  transition_satisfy_size state_period 2
      (record f { value = record (f.value) { cookie = u16_of f.payload } }),
  continue,
)
pong_switch state_period f b = (
  transition_satisfy_size state_last_known_incarnation 2
      (record f { value = record (f.value) { period = u16_of f.payload } }),
  continue,
)
pong_switch state_last_known_incarnation f b =
    (record f { value = record (f.value) { last_known_incarnation = u16_of f.payload } }, done)

unfoldable pub pong_decoder : Def Pong State (Unit {0}) Error
unfolding pong_switch
pong_decoder = record { shape = pong_shape; feed_fn = λ f b. pong_switch f.state f b }

-- `Pong.Encode`; `byte(kind) << 2` loses what does not fit into a byte.
abbrev pub pong_flags : Pong → ℕ
pong_flags m =
    (if m.ack then 1 else 0)
    + (if m.is_last_state_known then 2 + m.last_known_event_kind * 4 % 256 else 0)

abbrev pub pong_bytes : Pong → List ℕ
pong_bytes m =
    pong_flags m
    ∷ (u16_bytes m.cookie ++ (u16_bytes m.period ++ u16_bytes m.last_known_incarnation))

-- The kind of an event that is not known is not sent.
pub record IsWirePong (m : Pong) : Type 0 where
  pub kind_fits : m.last_known_event_kind < 64
  pub unknown_kind : m.is_last_state_known ≡ false → m.last_known_event_kind ≡ 0
  pub cookie_fits : IsU16 m.cookie
  pub period_fits : IsU16 m.period
  pub incarnation_fits : IsU16 m.last_known_incarnation

module _ (m : Pong) (w : IsWirePong m) (rest : List ℕ) where
  -- What the flags of a Pong tell about it.
  abbrev flagged : Pong
  flagged = record m { cookie = 0; period = 0; last_known_incarnation = 0 }

  read_flags-pong_flags : read_flags (pong_flags m) pong_shape.zero_value ≡ flagged
  unfolding read_flags
  read_flags-pong_flags = ground (arith, w.kind_fits, w.unknown_kind)

  feed-pong_flags :
      feed pong_decoder (new pong_shape tt) (pong_flags m)
      ≡ (filling pong_decoder flagged 2 [] state_cookie tt (pong_flags m), pending)
  unfolding feed step pong_decoder new transition_satisfy_size
  feed-pong_flags =
      ap (λ v. (filling pong_decoder v 2 [] state_cookie tt (pong_flags m), pending))
        read_flags-pong_flags

  run_incarnation :
      (cb : ℕ)
      → run pong_decoder
          (filling pong_decoder
            (record m { last_known_incarnation = 0 })
            2
            []
            state_last_known_incarnation
            tt
            cb)
          (u16_bytes m.last_known_incarnation ++ rest)
        ≡ finished m (new pong_shape tt) rest
  unfolding pong_decoder step new reset
  run_incarnation cb =
      run-filling_then pong_decoder _ _ _ _ (u16_bytes m.last_known_incarnation) rest refl
        (omega arith) (λ b. rw (u16_of-u16_bytes m.last_known_incarnation w.incarnation_fits))

  run_period :
      (cb : ℕ)
      → run pong_decoder
          (filling pong_decoder
            (record m { period = 0; last_known_incarnation = 0 })
            2
            []
            state_period
            tt
            cb)
          (u16_bytes m.period ++ (u16_bytes m.last_known_incarnation ++ rest))
        ≡ finished m (new pong_shape tt) rest
  unfolding pong_decoder step transition_satisfy_size
  run_period cb =
      run-filling_then pong_decoder _ _ _ _ (u16_bytes m.period) _ refl (omega arith)
        (λ b. rw (u16_of-u16_bytes m.period w.period_fits) (run_incarnation b))

  run_cookie :
      (cb : ℕ)
      → run pong_decoder (filling pong_decoder flagged 2 [] state_cookie tt cb) (
          u16_bytes m.cookie
          ++ (u16_bytes m.period ++ (u16_bytes m.last_known_incarnation ++ rest)))
        ≡ finished m (new pong_shape tt) rest
  unfolding pong_decoder step transition_satisfy_size
  run_cookie cb =
      run-filling_then pong_decoder _ _ _ _ (u16_bytes m.cookie) _ refl (omega arith)
        (λ b. rw (u16_of-u16_bytes m.cookie w.cookie_fits) (run_period b))

  -- The decoder gives a Pong back when its bytes are fed to it, and leaves what follows.
  pub run-pong :
      run pong_decoder (new pong_shape tt) (pong_bytes m ++ rest)
      ≡ finished m (new pong_shape tt) rest
  run-pong =
      run-cons pong_decoder _ (pong_flags m) _
      ∙ ap
          (λ r. proceed pong_decoder r (
            u16_bytes m.cookie
            ++ (u16_bytes m.period ++ (u16_bytes m.last_known_incarnation ++ rest))))
          feed-pong_flags
      ∙ run_cookie (pong_flags m)
