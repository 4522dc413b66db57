-- ===== src/Fsm.antt =====
-- The decoder machine that every message is read by: internal/fsm/fsm.go and fsm_def.go. A machine is
-- its fields; what a definition gives it once and for all (the feed and prepare functions, the initial
-- size and state, the zero value, the Reset of the context) is in `Def`.
pub mod Laws
pub mod Nested
pub mod Prefix
pub mod Repeated
use eswim.Base.{
  ℕ, zero, suc, ◌+◌, ◌*◌, ◌==◌, not, Bool, true, false, Option, none, some, List, [], ◌∷◌, ◌++◌,
  take, if◌then◌else◌,
}
use eswim.Base.Int.{ℤ, pos, pred_ℤ, is_zero}

-- What a feed function returns: nil, Done, or an error of its own.
pub data Signal {ℓ} (E : Type ℓ) : Type ℓ where
  continue : Signal E
  done : Signal E
  raise : E → Signal E

-- What `Feed` returns: no value yet, a value, or an error.
pub data Fed {ℓ} (T E : Type ℓ) : Type ℓ where
  pending : Fed T E
  value : T → Fed T E
  failed : E → Fed T E

pub record Fsm {ℓ} (T S C : Type ℓ) : Type ℓ where
  pub value : T
  pub size : ℤ
  pub payload : List ℕ
  pub state : S
  pub context : C
  pub current_byte : ℕ
  pub must_satisfy_size : Bool

-- The constant part that `Init` reads.
pub record Shape {ℓ} (T S C : Type ℓ) : Type ℓ where
  pub initial_size : ℕ
  pub initial_state : S
  pub zero_value : T
  pub reset_context : C → C

pub record Def {ℓ} (T S C E : Type ℓ) : Type ℓ where
  pub shape : Shape T S C
  pub feed_fn : Fsm T S C → ℕ → Fsm T S C × Signal E

module _ {ℓ} {T S C : Type ℓ} where
  unfoldable pub satisfy_size : Fsm T S C → Fsm T S C
  satisfy_size i = record i { must_satisfy_size = true }

  unfoldable pub append : Fsm T S C → Fsm T S C
  append i = record i { payload = i.payload ++ (i.current_byte ∷ []); size = pred_ℤ i.size }

  -- `Init`, which is also `Reset`
  unfoldable pub reset : Shape T S C → Fsm T S C → Fsm T S C
  reset shape i = record {
    value = shape.zero_value;
    size = pos shape.initial_size;
    payload = [];
    state = shape.initial_state;
    context = shape.reset_context i.context;
    current_byte = 0;
    must_satisfy_size = not (shape.initial_size == 0);
  }

  -- `Def.New`, given the context after its own `Init`.
  unfoldable pub new : Shape T S C → C → Fsm T S C
  new shape context = record {
    value = shape.zero_value;
    size = pos shape.initial_size;
    payload = [];
    state = shape.initial_state;
    context = shape.reset_context context;
    current_byte = 0;
    must_satisfy_size = not (shape.initial_size == 0);
  }

  unfoldable pub transition_size : S → ℕ → Fsm T S C → Fsm T S C
  transition_size next size i = record i { size = pos size; state = next; payload = [] }

  unfoldable pub transition : S → Fsm T S C → Fsm T S C
  unfolding transition_size
  transition next i = transition_size next 0 i

  unfoldable pub transition_satisfy_size : S → ℕ → Fsm T S C → Fsm T S C
  unfolding transition_size satisfy_size
  transition_satisfy_size next size i = satisfy_size (transition_size next size i)

-- `byteOrder.Uint16` and `Uint32` in the default order, big-endian; it reads the first bytes.
unfoldable pub u16_of : List ℕ → ℕ
u16_of (a ∷ b ∷ rest) = a * 256 + b
u16_of (a ∷ []) = 0
u16_of [] = 0

unfoldable pub u32_of : List ℕ → ℕ
u32_of (a ∷ b ∷ c ∷ d ∷ rest) = ((a * 256 + b) * 256 + c) * 256 + d
u32_of _ = 0

-- A value comes with the machine as it is afterwards and the bytes left over.
pub data Run {ℓ} (T S C E : Type ℓ) : Type ℓ where
  waiting : Fsm T S C → Run T S C E
  finished : T → Fsm T S C → List ℕ → Run T S C E
  stopped : E → Run T S C E

module _ {ℓ} {T S C E : Type ℓ} (def : Def T S C E) where
  -- What `Feed` makes of the answer of the feed function: an error is not passed on.
  abbrev pub answer : Fsm T S C → Signal E → Fsm T S C × Fed T E
  answer j done = (reset def.shape j, value j.value)
  answer j continue = (j, pending)
  answer j (raise e) = (j, pending)

  unfoldable pub step : Fsm T S C → ℕ → Fsm T S C × Fed T E
  step i b = let (j, signal) = def.feed_fn i b in answer j signal

  unfoldable pub feed : Fsm T S C → ℕ → Fsm T S C × Fed T E
  unfolding step append
  feed i b =
      let fed = record i { current_byte = b } in
      let grown = append fed in
      if fed.must_satisfy_size
      then if is_zero grown.size
        then step (record grown { must_satisfy_size = false }) b
        else (grown, pending)
      else step fed b

  -- A machine fed by a list of bytes up to its first answer.
  unfoldable pub run : Fsm T S C → List ℕ → Run T S C E
  unfolding feed
  run i [] = waiting i
  run i (b ∷ bs) =
      let (j, answered) = feed i b in
      elim answered [ pending ↦ run j bs | value v ↦ finished v j bs | failed e ↦ stopped e ]

  -- What follows a fed byte.
  abbrev pub proceed : Fsm T S C × Fed T E → List ℕ → Run T S C E
  proceed r rest = elim (r.1) [
    | pending ↦ run r.0 rest
    | value v ↦ finished v r.0 rest
    | failed e ↦ stopped e
  ]
