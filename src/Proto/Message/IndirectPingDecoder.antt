-- ===== src/Proto/Message/IndirectPingDecoder.antt =====
-- The bytes of an IndirectPing and its decoder: internal/proto/message_indirect_ping.go.
use eswim.Base.{ℕ, ◌≡◌, refl, ◌∙◌, List, [], ◌∷◌, ◌++◌, arith}
use eswim.Base.Int.{pred_ℤ, is_zero}
use eswim.Fsm.{
  Fsm, Shape, Def, Signal, continue, done, finished, new, reset, transition_satisfy_size, u16_of,
  step, feed, run,
}
use eswim.Fsm.Laws.{filling, run-filling_then, run-cons}
use eswim.Proto.Bytes.{u16_bytes, IsU16, u16_of-u16_bytes}
use eswim.Proto.Error.{Error}
use eswim.Proto.Ip.{zero_ip, kind_size, bytes, fsm_copy_ip, size}
use eswim.Proto.Ip.Equal.{IsWire, blank, fsm_copy_ip-bytes, kind_size-bytes, kind_size-pos}
use eswim.Proto.Message.{IndirectPing}

pub data State : Type 0 where
  state_flags state_cookie state_period state_address : State

abbrev pub IndirectPingMachine : Type 0
IndirectPingMachine = Fsm IndirectPing State (Unit {0})

abbrev pub indirect_ping_shape : Shape IndirectPing State (Unit {0})
indirect_ping_shape = record {
  initial_size = 1;
  initial_state = state_flags;
  zero_value = record { cookie = 0; period = 0; address = zero_ip };
  reset_context = λ c. c;
}

-- The `switch state` of Feed.
indirect_ping_switch : State → IndirectPingMachine → ℕ → IndirectPingMachine × Signal Error
indirect_ping_switch state_flags f b = (
  transition_satisfy_size state_cookie 2 (record f {
    value = record (f.value) { address = record (f.value.address) { address_kind = b } };
  }),
  continue,
)
indirect_ping_switch state_cookie f b = (
  transition_satisfy_size state_period 2
      (record f { value = record (f.value) { cookie = u16_of f.payload } }),
  continue,
)
indirect_ping_switch state_period f b = (
  transition_satisfy_size state_address (size f.value.address)
      (record f { value = record (f.value) { period = u16_of f.payload } }),
  continue,
)
indirect_ping_switch state_address f b = (
  record f { value = record (f.value) { address = fsm_copy_ip f.payload f.value.address } },
  done,
)

unfoldable pub indirect_ping_decoder : Def IndirectPing State (Unit {0}) Error
unfolding indirect_ping_switch
indirect_ping_decoder = record {
  shape = indirect_ping_shape;
  feed_fn = λ f b. indirect_ping_switch f.state f b;
}

-- `IndirectPing.Encode`
abbrev pub indirect_ping_bytes : IndirectPing → List ℕ
indirect_ping_bytes m =
    m.address.address_kind ∷ (u16_bytes m.cookie ++ (u16_bytes m.period ++ bytes m.address))

pub record IsWireIndirectPing (m : IndirectPing) : Type 0 where
  pub address_wire : IsWire m.address
  pub cookie_fits : IsU16 m.cookie
  pub period_fits : IsU16 m.period

module _ (m : IndirectPing) (w : IsWireIndirectPing m) (rest : List ℕ) where
  run_address :
      (cb : ℕ)
      → run indirect_ping_decoder
          (filling indirect_ping_decoder
            (record m { address = blank m.address.address_kind })
            (kind_size m.address.address_kind)
            []
            state_address
            tt
            cb)
          (bytes m.address ++ rest)
        ≡ finished m (new indirect_ping_shape tt) rest
  unfolding indirect_ping_decoder step new reset
  run_address cb =
      run-filling_then indirect_ping_decoder _ _ _ _ (bytes m.address) rest
        (kind_size-bytes m.address w.address_wire.sized) (kind_size-pos _)
        (λ b. rw (fsm_copy_ip-bytes m.address w.address_wire))

  run_period :
      (cb : ℕ)
      → run indirect_ping_decoder
          (filling indirect_ping_decoder
            (record m { period = 0; address = blank m.address.address_kind })
            2
            []
            state_period
            tt
            cb)
          (u16_bytes m.period ++ (bytes m.address ++ rest))
        ≡ finished m (new indirect_ping_shape tt) rest
  unfolding indirect_ping_decoder step transition_satisfy_size size
  run_period cb =
      run-filling_then indirect_ping_decoder _ _ _ _ (u16_bytes m.period) _ refl (omega arith)
        (λ b. rw (u16_of-u16_bytes m.period w.period_fits) (run_address b))

  run_cookie :
      (cb : ℕ)
      → run indirect_ping_decoder
          (filling indirect_ping_decoder
            (record { cookie = 0; period = 0; address = blank m.address.address_kind })
            2
            []
            state_cookie
            tt
            cb)
          (u16_bytes m.cookie ++ (u16_bytes m.period ++ (bytes m.address ++ rest)))
        ≡ finished m (new indirect_ping_shape tt) rest
  unfolding indirect_ping_decoder step transition_satisfy_size
  run_cookie cb =
      run-filling_then indirect_ping_decoder _ _ _ _ (u16_bytes m.cookie) _ refl (omega arith)
        (λ b. rw (u16_of-u16_bytes m.cookie w.cookie_fits) (run_period b))

  -- The decoder gives an IndirectPing back when its bytes are fed to it, and leaves what follows.
  pub run-indirect_ping :
      run indirect_ping_decoder (new indirect_ping_shape tt) (indirect_ping_bytes m ++ rest)
      ≡ finished m (new indirect_ping_shape tt) rest
  unfolding feed indirect_ping_decoder step new transition_satisfy_size pred_ℤ is_zero
  run-indirect_ping =
      run-cons indirect_ping_decoder _ m.address.address_kind _ ∙ run_cookie m.address.address_kind
