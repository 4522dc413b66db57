-- ===== src/Proto/Event/LeftDecoder.antt =====
-- The decoder of a Left: internal/proto/event_left.go.
use eswim.Base.{ℕ, ◌≡◌, refl, List, [], ◌++◌, arith}
use eswim.Base.Int.{pos}
use eswim.Fsm.{
  Fsm, Shape, Def, Signal, continue, done, finished, new, reset, satisfy_size,
  transition_satisfy_size, u16_of, step, run,
}
use eswim.Fsm.Laws.{filling, run-filling_then}
use eswim.Proto.Bytes.{u16_bytes, IsU16, u16_of-u16_bytes}
use eswim.Proto.Error.{Error}
use eswim.Proto.Ip.{zero_ip, kind_size, bytes, fsm_copy_ip, size}
use eswim.Proto.Ip.Equal.{IsWire, fsm_copy_ip-bytes, kind_size-bytes, kind_size-pos}
use eswim.Proto.Event.{Left}
use mathlib.Core.List.{append_assoc}

pub data State : Type 0 where
  state_subject state_incarnation : State

pub record Context : Type 0 where
  pub subject_address_kind : ℕ

abbrev pub left_shape : Shape Left State Context
left_shape = record {
  initial_size = 0;
  initial_state = state_subject;
  zero_value = record { subject = zero_ip; incarnation = 0 };
  reset_context = λ c. c;
}

-- The `switch state` of Feed.
left_switch : State → Fsm Left State Context → Fsm Left State Context × Signal Error
left_switch state_subject f = (
  transition_satisfy_size state_incarnation 2
      (record f { value = record (f.value) { subject = fsm_copy_ip f.payload f.value.subject } }),
  continue,
)
left_switch state_incarnation f =
    (record f { value = record (f.value) { incarnation = u16_of f.payload } }, done)

unfoldable pub left_decoder : Def Left State Context Error
unfolding left_switch
left_decoder = record { shape = left_shape; feed_fn = λ f b. left_switch f.state f }

-- `Prepare`
left_prepare : Fsm Left State Context → Fsm Left State Context
left_prepare f = satisfy_size (record f {
  value = record (f.value) {
    subject = record (f.value.subject) { address_kind = f.context.subject_address_kind };
  };
  size = pos (kind_size f.context.subject_address_kind);
})

-- A new decoder whose context has been told the kind, after `Prepare`.
unfoldable pub open_left : ℕ → Fsm Left State Context
unfolding left_prepare new satisfy_size
open_left subject_kind =
    let f = new left_shape (record { subject_address_kind = 0 }) in
    left_prepare (record f { context = record { subject_address_kind = subject_kind } })

-- The bytes of a Left on the wire.
abbrev pub left_bytes : Left → List ℕ
left_bytes p = bytes p.subject ++ u16_bytes p.incarnation

pub record IsWireLeft (p : Left) : Type 0 where
  pub subject_wire : IsWire p.subject
  pub incarnation_fits : IsU16 p.incarnation

module _ (p : Left) (w : IsWireLeft p) (rest : List ℕ) where
  abbrev pub kinds : Context
  kinds = record { subject_address_kind = p.subject.address_kind }

  run_incarnation :
      (cb : ℕ)
      → run left_decoder
          (filling left_decoder (record p { incarnation = 0 }) 2 [] state_incarnation kinds cb)
          (u16_bytes p.incarnation ++ rest)
        ≡ finished p (new left_shape kinds) rest
  unfolding left_decoder step new reset
  run_incarnation cb =
      run-filling_then left_decoder _ _ _ _ (u16_bytes p.incarnation) rest refl (omega arith)
        (λ b. rw (u16_of-u16_bytes p.incarnation w.incarnation_fits))

  -- The decoder gives the Left back when its bytes are fed to it, and leaves what follows.
  pub run-left :
      run left_decoder (open_left p.subject.address_kind) (left_bytes p ++ rest)
      ≡ finished p (new left_shape kinds) rest
  unfolding open_left left_decoder step new reset transition_satisfy_size size
  run-left = rw append_assoc (
      run-filling_then left_decoder _ _ _ _ (bytes p.subject) _
        (kind_size-bytes p.subject w.subject_wire.sized) (kind_size-pos _)
        (λ b. rw (fsm_copy_ip-bytes p.subject w.subject_wire) (run_incarnation b)))
