-- ===== src/Proto/Event/JoinDecoder.antt =====
-- The decoder of a Join: internal/proto/event_join.go.
use eswim.Base.{ℕ, ◌≡◌, refl, List, [], ◌++◌, arith}
use eswim.Base.Int.{pos}
use eswim.Fsm.{
  Fsm, Shape, Def, Signal, continue, done, finished, new, reset, satisfy_size,
  transition_satisfy_size, u16_of, step, run,
}
use eswim.Fsm.Laws.{filling, run-filling_then}
use eswim.Proto.Bytes.{u16_bytes, IsU16, u16_of-u16_bytes}
use eswim.Proto.Error.{Error}
use eswim.Proto.Ip.{zero_ip, kind_size, bytes, fsm_copy_ip, size}
use eswim.Proto.Ip.Equal.{IsWire, blank, fsm_copy_ip-bytes, kind_size-bytes, kind_size-pos}
use eswim.Proto.Event.{Join}
use mathlib.Core.List.{append_assoc}

pub data State : Type 0 where
  state_source state_subject state_incarnation : State

pub record Context : Type 0 where
  pub source_address_kind : ℕ
  pub subject_address_kind : ℕ

abbrev pub join_shape : Shape Join State Context
join_shape = record {
  initial_size = 0;
  initial_state = state_source;
  zero_value = record { source = zero_ip; subject = zero_ip; incarnation = 0 };
  reset_context = λ c. c;
}

-- The `switch state` of Feed.
join_switch : State → Fsm Join State Context → Fsm Join State Context × Signal Error
join_switch state_source f = (
  transition_satisfy_size state_subject (kind_size f.context.subject_address_kind)
      (record f { value = record (f.value) { source = fsm_copy_ip f.payload f.value.source } }),
  continue,
)
join_switch state_subject f = (
  transition_satisfy_size state_incarnation 2
      (record f { value = record (f.value) { subject = fsm_copy_ip f.payload f.value.subject } }),
  continue,
)
join_switch state_incarnation f =
    (record f { value = record (f.value) { incarnation = u16_of f.payload } }, done)

unfoldable pub join_decoder : Def Join State Context Error
unfolding join_switch
join_decoder = record { shape = join_shape; feed_fn = λ f b. join_switch f.state f }

-- `Prepare`
join_prepare : Fsm Join State Context → Fsm Join State Context
join_prepare f = satisfy_size (record f {
  value = record (f.value) {
    subject = record (f.value.subject) { address_kind = f.context.subject_address_kind };
    source = record (f.value.source) { address_kind = f.context.source_address_kind };
  };
  size = pos (kind_size f.context.source_address_kind);
})

-- A new decoder whose context has been told the two kinds, after `Prepare`.
unfoldable pub open_join : ℕ → ℕ → Fsm Join State Context
unfolding join_prepare new satisfy_size
open_join source_kind subject_kind =
    let f = new join_shape (record { source_address_kind = 0; subject_address_kind = 0 }) in
    join_prepare (record f {
      context = record { source_address_kind = source_kind; subject_address_kind = subject_kind };
    })

-- The bytes of a Join on the wire.
abbrev pub join_bytes : Join → List ℕ
join_bytes p = bytes p.source ++ (bytes p.subject ++ u16_bytes p.incarnation)

pub record IsWireJoin (p : Join) : Type 0 where
  pub source_wire : IsWire p.source
  pub subject_wire : IsWire p.subject
  pub incarnation_fits : IsU16 p.incarnation

module _ (p : Join) (w : IsWireJoin p) (rest : List ℕ) where
  abbrev pub kinds : Context
  kinds = record {
    source_address_kind = p.source.address_kind;
    subject_address_kind = p.subject.address_kind;
  }

  run_incarnation :
      (cb : ℕ)
      → run join_decoder
          (filling join_decoder (record p { incarnation = 0 }) 2 [] state_incarnation kinds cb)
          (u16_bytes p.incarnation ++ rest)
        ≡ finished p (new join_shape kinds) rest
  unfolding join_decoder step new reset
  run_incarnation cb =
      run-filling_then join_decoder _ _ _ _ (u16_bytes p.incarnation) rest refl (omega arith)
        (λ b. rw (u16_of-u16_bytes p.incarnation w.incarnation_fits))

  run_subject :
      (cb : ℕ)
      → run join_decoder
          (filling join_decoder
            (record p { subject = blank p.subject.address_kind; incarnation = 0 })
            (kind_size p.subject.address_kind)
            []
            state_subject
            kinds
            cb)
          (bytes p.subject ++ (u16_bytes p.incarnation ++ rest))
        ≡ finished p (new join_shape kinds) rest
  unfolding join_decoder step new reset transition_satisfy_size
  run_subject cb =
      run-filling_then join_decoder _ _ _ _ (bytes p.subject) _
        (kind_size-bytes p.subject w.subject_wire.sized) (kind_size-pos _)
        (λ b. rw (fsm_copy_ip-bytes p.subject w.subject_wire) (run_incarnation b))

  -- The decoder gives the Join back when its bytes are fed to it, and leaves what follows.
  pub run-join :
      run join_decoder
        (open_join p.source.address_kind p.subject.address_kind)
        (join_bytes p ++ rest)
      ≡ finished p (new join_shape kinds) rest
  unfolding open_join join_decoder step new reset transition_satisfy_size size
  run-join =
      rw (append_assoc, append_assoc)
        (run-filling_then join_decoder _ _ _ _ (bytes p.source) _
          (kind_size-bytes p.source w.source_wire.sized) (kind_size-pos _)
          (λ b. rw (fsm_copy_ip-bytes p.source w.source_wire) (run_subject b)))
