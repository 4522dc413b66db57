-- ===== src/Proto/Header.antt =====
-- The header of every message and its decoder: internal/proto/header.go, and the numbers of the
-- protocol, internal/proto/base.go.
pub mod RoundTrip
use eswim.Base.{ℕ, ◌*◌, ◌/◌, ◌%◌, ◌==◌, ltb, ◌||◌, not, List, [], ◌∷◌, ◌++◌, if◌then◌else◌}
use eswim.Fsm.{
  Fsm, Shape, Def, Signal, continue, done, reset, transition, transition_satisfy_size, u16_of,
}
use eswim.Proto.Bytes.{u16_bytes}
use eswim.Proto.Error.{Error}
use Prim.Native.Nat.{bit_or}

abbrev pub min_op_code : ℕ
min_op_code = 1

abbrev pub max_op_code : ℕ
max_op_code = 8

abbrev pub protocol_version : ℕ
protocol_version = 1

-- 0xCAFE
abbrev pub protocol_magic : ℕ
protocol_magic = 51966

pub record Header : Type 0 where
  pub magic : ℕ  -- uint16
  pub version : ℕ  -- uint8
  pub op_code : ℕ  -- OpCode, a uint8
  pub incarnation : ℕ  -- uint16

pub data State : Type 0 where
  state_magic state_version_op_code state_incarnation : State

abbrev pub HeaderMachine : Type 0
HeaderMachine = Fsm Header State (Unit {0})

abbrev pub header_shape : Shape Header State (Unit {0})
header_shape = record {
  initial_size = 2;
  initial_state = state_magic;
  zero_value = record { magic = 0; version = 0; op_code = 0; incarnation = 0 };
  reset_context = λ c. c;
}

-- The `switch state` of Feed; a deferred Reset runs on the way out.
header_switch : State → HeaderMachine → ℕ → HeaderMachine × Signal Error
header_switch state_magic f b =
    let g = record f { value = record (f.value) { magic = u16_of f.payload } } in
    if not (g.value.magic == protocol_magic)
    then (reset header_shape g, continue)
    else (transition state_version_op_code g, continue)
header_switch state_version_op_code f b =
    let g = record f { value = record (f.value) { version = b / 16 % 16; op_code = b % 16 } } in
    if not (g.value.version == protocol_version)
    then (reset header_shape g, continue)
    else if ltb g.value.op_code min_op_code || ltb max_op_code g.value.op_code
    then (reset header_shape g, continue)
    else (transition_satisfy_size state_incarnation 2 g, continue)
header_switch state_incarnation f b =
    (record f { value = record (f.value) { incarnation = u16_of f.payload } }, done)

unfoldable pub header_decoder : Def Header State (Unit {0}) Error
unfolding header_switch
header_decoder = record { shape = header_shape; feed_fn = λ f b. header_switch f.state f b }

-- `Header.Encode`
abbrev pub header_bytes : Header → List ℕ
header_bytes h =
    u16_bytes h.magic ++ (bit_or (h.version * 16 % 256) h.op_code ∷ u16_bytes h.incarnation)
