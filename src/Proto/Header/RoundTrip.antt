-- ===== src/Proto/Header/RoundTrip.antt =====
-- What the decoder of internal/proto/header.go makes of bytes: it reads a header of this protocol
-- back, and drops every other one.
use eswim.Base.{
  ℕ, ◌/◌, ◌%◌, ◌≤◌, ◌<◌, ◌≡◌, ◌≢◌, ◌⊎◌, refl, ap, ◌∙◌, true, false, List, [], ◌∷◌, ◌++◌, arith,
}
use eswim.Base.Int.{pos, pred_ℤ, is_zero}
use eswim.Fsm.{
  pending, finished, new, reset, transition, transition_satisfy_size, u16_of, step, feed, run,
  proceed,
}
use eswim.Fsm.Laws.{filling, run-filling_then, run-cons}
use eswim.Proto.Bytes.{u16_bytes, IsU16, u16_of-u16_bytes}
use eswim.Proto.Header.{
  Header, HeaderMachine, state_magic, state_version_op_code, state_incarnation, header_shape,
  header_decoder, protocol_magic, min_op_code, max_op_code,
}

-- The decoder between two headers.
abbrev pub idle : HeaderMachine
idle = new header_shape tt

-- After the magic number, and after the byte of the version and the operation.
abbrev pub versioned : ℕ → HeaderMachine
versioned cb = record {
  value = record { magic = protocol_magic; version = 0; op_code = 0; incarnation = 0 };
  size = pos 0;
  payload = [];
  state = state_version_op_code;
  context = tt;
  current_byte = cb;
  must_satisfy_size = false;
}

abbrev pub known : ℕ → ℕ → Header
known op incarnation = record {
  magic = protocol_magic;
  version = 1;
  op_code = op;
  incarnation = incarnation;
}

feed-version :
    (cb b op : ℕ)
    → b / 16 % 16 ≡ 1
    → b % 16 ≡ op
    → min_op_code ≤ op
    → op ≤ max_op_code
    → feed header_decoder (versioned cb) b
      ≡ (filling header_decoder (known op 0) 2 [] state_incarnation tt b, pending)
unfolding feed step header_decoder transition_satisfy_size
feed-version cb b op h k l u = ground arith

-- A byte with another version, or without an operation, makes the decoder start again.
pub feed-foreign :
    (cb b : ℕ)
    → (b / 16 % 16 ≢ 1) ⊎ (b % 16 < min_op_code) ⊎ (max_op_code < b % 16)
    → feed header_decoder (versioned cb) b ≡ (idle, pending)
unfolding feed step header_decoder reset new
feed-foreign cb b h = ground arith

-- After the first byte of a magic number.
abbrev pub first : ℕ → HeaderMachine
first a = record {
  value = record { magic = 0; version = 0; op_code = 0; incarnation = 0 };
  size = pos 1;
  payload = a ∷ [];
  state = state_magic;
  context = tt;
  current_byte = a;
  must_satisfy_size = true;
}

pub feed-first : (a : ℕ) → feed header_decoder idle a ≡ (first a, pending)
unfolding feed new pred_ℤ is_zero
feed-first a = refl

-- Two bytes that are not the magic number leave the decoder as it was.
pub feed-second :
    (a b : ℕ)
    → u16_of (a ∷ b ∷ []) ≢ protocol_magic
    → feed header_decoder (first a) b ≡ (idle, pending)
unfolding feed step header_decoder new reset u16_of pred_ℤ is_zero
feed-second a b h = ground arith

-- And the magic number brings it to the version.
pub feed-magic : feed header_decoder (first 202) 254 ≡ (versioned 254, pending)
unfolding feed step header_decoder transition u16_of pred_ℤ is_zero
feed-magic = refl

module _ (rest : List ℕ) where
  -- The magic number brings the decoder to the version.
  pub run_magic :
      run header_decoder idle (u16_bytes protocol_magic ++ rest)
      ≡ run header_decoder (versioned 254) rest
  unfolding run feed step header_decoder new transition u16_of is_zero pred_ℤ
  run_magic = refl

  run_incarnation :
      (op incarnation cb : ℕ)
      → IsU16 incarnation
      → run header_decoder
          (filling header_decoder (known op 0) 2 [] state_incarnation tt cb)
          (u16_bytes incarnation ++ rest)
        ≡ finished (known op incarnation) idle rest
  unfolding header_decoder step new reset
  run_incarnation op incarnation cb h =
      run-filling_then header_decoder _ _ _ _ (u16_bytes incarnation) rest refl (omega arith)
        (λ b. rw (u16_of-u16_bytes incarnation h))

  -- The decoder gives a header of this protocol back, and leaves what follows.
  pub run-header :
      (op incarnation b : ℕ)
      → b / 16 % 16 ≡ 1
      → b % 16 ≡ op
      → min_op_code ≤ op
      → op ≤ max_op_code
      → IsU16 incarnation
      → run header_decoder (versioned 254) (b ∷ (u16_bytes incarnation ++ rest))
        ≡ finished (known op incarnation) idle rest
  run-header op incarnation b h k l u w =
      run-cons header_decoder (versioned 254) b _
      ∙ ap (λ r. proceed header_decoder r (u16_bytes incarnation ++ rest))
          (feed-version 254 b op h k l u)
      ∙ run_incarnation op incarnation b w
