-- ===== src/Proto/Event/AliveDecoder.antt =====
-- The decoder of a Alive: internal/proto/event_alive.go.
use eswim.Base.{ℕ, ◌≡◌, refl, List, [], ◌++◌, arith}
use eswim.Base.Int.{pos}
use eswim.Fsm.{
  Fsm, Shape, Def, Signal, continue, done, finished, new, reset, satisfy_size,
  transition_satisfy_size, u16_of, step, run,
}
use eswim.Fsm.Laws.{filling, run-filling_then}
use eswim.Proto.Bytes.{u16_bytes, IsU16, u16_of-u16_bytes}
use eswim.Proto.Error.{Error}
use eswim.Proto.Ip.{zero_ip, kind_size, bytes, fsm_copy_ip, size}
use eswim.Proto.Ip.Equal.{IsWire, fsm_copy_ip-bytes, kind_size-bytes, kind_size-pos}
use eswim.Proto.Event.{Alive}
use mathlib.Core.List.{append_assoc}

pub data State : Type 0 where
  state_subject state_incarnation : State

pub record Context : Type 0 where
  pub subject_address_kind : ℕ

abbrev pub alive_shape : Shape Alive State Context
alive_shape = record {
  initial_size = 0;
  initial_state = state_subject;
  zero_value = record { subject = zero_ip; incarnation = 0 };
  reset_context = λ c. c;
}

-- The `switch state` of Feed.
alive_switch : State → Fsm Alive State Context → Fsm Alive State Context × Signal Error
alive_switch state_subject f = (
  transition_satisfy_size state_incarnation 2
      (record f { value = record (f.value) { subject = fsm_copy_ip f.payload f.value.subject } }),
  continue,
)
alive_switch state_incarnation f =
    (record f { value = record (f.value) { incarnation = u16_of f.payload } }, done)

unfoldable pub alive_decoder : Def Alive State Context Error
unfolding alive_switch
alive_decoder = record { shape = alive_shape; feed_fn = λ f b. alive_switch f.state f }

-- `Prepare`
alive_prepare : Fsm Alive State Context → Fsm Alive State Context
alive_prepare f = satisfy_size (record f {
  value = record (f.value) {
    subject = record (f.value.subject) { address_kind = f.context.subject_address_kind };
  };
  size = pos (kind_size f.context.subject_address_kind);
})

-- A new decoder whose context has been told the kind, after `Prepare`.
unfoldable pub open_alive : ℕ → Fsm Alive State Context
unfolding alive_prepare new satisfy_size
open_alive subject_kind =
    let f = new alive_shape (record { subject_address_kind = 0 }) in
    alive_prepare (record f { context = record { subject_address_kind = subject_kind } })

-- The bytes of a Alive on the wire.
abbrev pub alive_bytes : Alive → List ℕ
alive_bytes p = bytes p.subject ++ u16_bytes p.incarnation

pub record IsWireAlive (p : Alive) : Type 0 where
  pub subject_wire : IsWire p.subject
  pub incarnation_fits : IsU16 p.incarnation

module _ (p : Alive) (w : IsWireAlive p) (rest : List ℕ) where
  abbrev pub kinds : Context
  kinds = record { subject_address_kind = p.subject.address_kind }

  run_incarnation :
      (cb : ℕ)
      → run alive_decoder
          (filling alive_decoder (record p { incarnation = 0 }) 2 [] state_incarnation kinds cb)
          (u16_bytes p.incarnation ++ rest)
        ≡ finished p (new alive_shape kinds) rest
  unfolding alive_decoder step new reset
  run_incarnation cb =
      run-filling_then alive_decoder _ _ _ _ (u16_bytes p.incarnation) rest refl (omega arith)
        (λ b. rw (u16_of-u16_bytes p.incarnation w.incarnation_fits))

  -- The decoder gives the Alive back when its bytes are fed to it, and leaves what follows.
  pub run-alive :
      run alive_decoder (open_alive p.subject.address_kind) (alive_bytes p ++ rest)
      ≡ finished p (new alive_shape kinds) rest
  unfolding open_alive alive_decoder step new reset transition_satisfy_size size
  run-alive = rw append_assoc (
      run-filling_then alive_decoder _ _ _ _ (bytes p.subject) _
        (kind_size-bytes p.subject w.subject_wire.sized) (kind_size-pos _)
        (λ b. rw (fsm_copy_ip-bytes p.subject w.subject_wire) (run_incarnation b)))
