-- ===== src/Proto/Event/WrapDecoder.antt =====
-- The decoder of a Wrap: internal/proto/event_wrap.go.
use eswim.Base.{ℕ, ◌≡◌, refl, List, [], ◌++◌, arith}
use eswim.Base.Int.{pos}
use eswim.Fsm.{
  Fsm, Shape, Def, Signal, continue, done, finished, new, reset, satisfy_size,
  transition_satisfy_size, u16_of, step, run,
}
use eswim.Fsm.Laws.{filling, run-filling_then}
use eswim.Proto.Bytes.{u16_bytes, IsU16, u16_of-u16_bytes}
use eswim.Proto.Error.{Error}
use eswim.Proto.Ip.{zero_ip, kind_size, bytes, fsm_copy_ip, size}
use eswim.Proto.Ip.Equal.{IsWire, fsm_copy_ip-bytes, kind_size-bytes, kind_size-pos}
use eswim.Proto.Event.{Wrap}
use mathlib.Core.List.{append_assoc}

pub data State : Type 0 where
  state_subject state_incarnation state_new_incarnation : State

pub record Context : Type 0 where
  pub subject_address_kind : ℕ

abbrev pub wrap_shape : Shape Wrap State Context
wrap_shape = record {
  initial_size = 0;
  initial_state = state_subject;
  zero_value = record { subject = zero_ip; incarnation = 0; new_incarnation = 0 };
  reset_context = λ c. c;
}

-- The `switch state` of Feed.
wrap_switch : State → Fsm Wrap State Context → Fsm Wrap State Context × Signal Error
wrap_switch state_subject f = (
  transition_satisfy_size state_incarnation 2
      (record f { value = record (f.value) { subject = fsm_copy_ip f.payload f.value.subject } }),
  continue,
)
wrap_switch state_incarnation f = (
  transition_satisfy_size state_new_incarnation 2
      (record f { value = record (f.value) { incarnation = u16_of f.payload } }),
  continue,
)
wrap_switch state_new_incarnation f =
    (record f { value = record (f.value) { new_incarnation = u16_of f.payload } }, done)

unfoldable pub wrap_decoder : Def Wrap State Context Error
unfolding wrap_switch
wrap_decoder = record { shape = wrap_shape; feed_fn = λ f b. wrap_switch f.state f }

-- `Prepare`
wrap_prepare : Fsm Wrap State Context → Fsm Wrap State Context
wrap_prepare f = satisfy_size (record f {
  value = record (f.value) {
    subject = record (f.value.subject) { address_kind = f.context.subject_address_kind };
  };
  size = pos (kind_size f.context.subject_address_kind);
})

-- A new decoder whose context has been told the kind, after `Prepare`.
unfoldable pub open_wrap : ℕ → Fsm Wrap State Context
unfolding wrap_prepare new satisfy_size
open_wrap subject_kind =
    let f = new wrap_shape (record { subject_address_kind = 0 }) in
    wrap_prepare (record f { context = record { subject_address_kind = subject_kind } })

-- The bytes of a Wrap on the wire.
abbrev pub wrap_bytes : Wrap → List ℕ
wrap_bytes p = bytes p.subject ++ (u16_bytes p.incarnation ++ u16_bytes p.new_incarnation)

pub record IsWireWrap (p : Wrap) : Type 0 where
  pub subject_wire : IsWire p.subject
  pub incarnation_fits : IsU16 p.incarnation
  pub new_incarnation_fits : IsU16 p.new_incarnation

module _ (p : Wrap) (w : IsWireWrap p) (rest : List ℕ) where
  abbrev pub kinds : Context
  kinds = record { subject_address_kind = p.subject.address_kind }

  run_new_incarnation :
      (cb : ℕ)
      → run wrap_decoder
          (filling wrap_decoder
            (record p { new_incarnation = 0 })
            2
            []
            state_new_incarnation
            kinds
            cb)
          (u16_bytes p.new_incarnation ++ rest)
        ≡ finished p (new wrap_shape kinds) rest
  unfolding wrap_decoder step new reset
  run_new_incarnation cb =
      run-filling_then wrap_decoder _ _ _ _ (u16_bytes p.new_incarnation) rest refl (omega arith)
        (λ b. rw (u16_of-u16_bytes p.new_incarnation w.new_incarnation_fits))

  run_incarnation :
      (cb : ℕ)
      → run wrap_decoder
          (filling wrap_decoder
            (record p { incarnation = 0; new_incarnation = 0 })
            2
            []
            state_incarnation
            kinds
            cb)
          (u16_bytes p.incarnation ++ (u16_bytes p.new_incarnation ++ rest))
        ≡ finished p (new wrap_shape kinds) rest
  unfolding wrap_decoder step new reset transition_satisfy_size
  run_incarnation cb =
      run-filling_then wrap_decoder _ _ _ _ (u16_bytes p.incarnation) _ refl (omega arith)
        (λ b. rw (u16_of-u16_bytes p.incarnation w.incarnation_fits) (run_new_incarnation b))

  -- The decoder gives the Wrap back when its bytes are fed to it, and leaves what follows.
  pub run-wrap :
      run wrap_decoder (open_wrap p.subject.address_kind) (wrap_bytes p ++ rest)
      ≡ finished p (new wrap_shape kinds) rest
  unfolding open_wrap wrap_decoder step new reset transition_satisfy_size size
  run-wrap = rw (append_assoc) (
      run-filling_then wrap_decoder _ _ _ _ (bytes p.subject) _
        (kind_size-bytes p.subject w.subject_wire.sized) (kind_size-pos _)
        (λ b. rw (fsm_copy_ip-bytes p.subject w.subject_wire) (run_incarnation b)))
