-- ===== src/Proto/Message/IndirectPongDecoder.antt =====
-- The bytes of an IndirectPong and its decoder: internal/proto/message_indirect_pong.go.
use eswim.Base.{ℕ, ◌≡◌, refl, List, [], ◌++◌, arith}
use eswim.Fsm.{
  Fsm, Shape, Def, Signal, continue, done, finished, new, reset, transition_satisfy_size, u16_of,
  step, run,
}
use eswim.Fsm.Laws.{filling, run-filling_then}
use eswim.Proto.Bytes.{u16_bytes, IsU16, u16_of-u16_bytes}
use eswim.Proto.Error.{Error}
use eswim.Proto.Message.{IndirectPong}

pub data State : Type 0 where
  state_cookie state_period : State

abbrev pub IndirectPongMachine : Type 0
IndirectPongMachine = Fsm IndirectPong State (Unit {0})

abbrev pub indirect_pong_shape : Shape IndirectPong State (Unit {0})
indirect_pong_shape = record {
  initial_size = 2;
  initial_state = state_cookie;
  zero_value = record { cookie = 0; period = 0 };
  reset_context = λ c. c;
}

-- The `switch state` of Feed.
indirect_pong_switch : State → IndirectPongMachine → IndirectPongMachine × Signal Error
indirect_pong_switch state_cookie f = (
  transition_satisfy_size state_period 2
      (record f { value = record (f.value) { cookie = u16_of f.payload } }),
  continue,
)
indirect_pong_switch state_period f =
    (record f { value = record (f.value) { period = u16_of f.payload } }, done)

unfoldable pub indirect_pong_decoder : Def IndirectPong State (Unit {0}) Error
unfolding indirect_pong_switch
indirect_pong_decoder = record {
  shape = indirect_pong_shape;
  feed_fn = λ f b. indirect_pong_switch f.state f;
}

-- `IndirectPong.Encode`
abbrev pub indirect_pong_bytes : IndirectPong → List ℕ
indirect_pong_bytes m = u16_bytes m.cookie ++ u16_bytes m.period

pub record IsWireIndirectPong (m : IndirectPong) : Type 0 where
  pub cookie_fits : IsU16 m.cookie
  pub period_fits : IsU16 m.period

module _ (m : IndirectPong) (w : IsWireIndirectPong m) (rest : List ℕ) where
  run_period :
      (cb : ℕ)
      → run indirect_pong_decoder
          (filling indirect_pong_decoder (record m { period = 0 }) 2 [] state_period tt cb)
          (u16_bytes m.period ++ rest)
        ≡ finished m (new indirect_pong_shape tt) rest
  unfolding indirect_pong_decoder step new reset
  run_period cb =
      run-filling_then indirect_pong_decoder _ _ _ _ (u16_bytes m.period) rest refl (omega arith)
        (λ b. rw (u16_of-u16_bytes m.period w.period_fits))

  -- The decoder gives an IndirectPong back when its bytes are fed to it, and leaves what follows.
  pub run-indirect_pong :
      run indirect_pong_decoder (new indirect_pong_shape tt) (indirect_pong_bytes m ++ rest)
      ≡ finished m (new indirect_pong_shape tt) rest
  unfolding indirect_pong_decoder step new transition_satisfy_size
  run-indirect_pong =
      run-filling_then indirect_pong_decoder _ _ _ _ (u16_bytes m.cookie)
        (u16_bytes m.period ++ rest) refl (omega arith)
        (λ b. rw (u16_of-u16_bytes m.cookie w.cookie_fits) (run_period b))
