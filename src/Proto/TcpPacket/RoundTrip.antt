-- ===== src/Proto/TcpPacket/RoundTrip.antt =====
-- The decoder of internal/proto/tcp_packet.go reads a stream of frames back, but for an empty one.
use eswim.Base.{
  ℕ, zero, suc, ◌<◌, ◌%◌, ◌≡◌, ◌≢◌, refl, ap, ◌∙◌, List, [], ◌∷◌, ◌++◌, length, replicate, drop,
  take-length, arith,
}
use eswim.Base.Int.{pred_ℤ, is_zero}
use eswim.Fsm.{
  Run, waiting, finished, new, reset, transition_satisfy_size, u16_of, u32_of, step, feed, run,
}
use eswim.Fsm.Prefix.{run-overdue}
use eswim.Proto.Error.{Error}
use eswim.Fsm.Laws.{filling, run-filling_then}
use eswim.Proto.Bytes.{u32_bytes, u32_of-u32_bytes}
use eswim.Proto.Header.{protocol_magic}
use eswim.Proto.Ip.{copy}
use eswim.Proto.TcpPacket.{
  TcpPacket, TcpMachine, State, state_size, state_payload, tcp_shape, tcp_decoder, tcp_bytes,
  tcp_packet,
}
use mathlib.Core.List.{append-nil}

-- The decoder between two frames.
abbrev pub idle : TcpMachine
idle = new tcp_shape tt

length-replicate : (n x : ℕ) → length (replicate n x) ≡ n
length-replicate zero x = refl
length-replicate (suc n) x = ap suc (length-replicate n x)

drop-nil : (n : ℕ) (l : List ℕ) → length l ≡ n → drop n l ≡ []
drop-nil zero [] h = refl
drop-nil zero (x ∷ l) h = absurd (omega arith)
drop-nil (suc n) [] h = refl
drop-nil (suc n) (x ∷ l) h = drop-nil n l (omega arith)

-- A buffer of the right size is overwritten.
copy-exact : (into l : List ℕ) → length into ≡ length l → copy into l ≡ l
unfolding copy
copy-exact into l h = rw (h, take-length l, drop-nil (length l) into h) (append-nil l)

-- A frame without its bytes.
abbrev framed : List ℕ → TcpPacket
framed l = record { magic = protocol_magic; version = 1; payload = l }

pos-length : (l : List ℕ) → l ≢ [] → 0 < length l
pos-length [] n = absurd (n refl)
pos-length (x ∷ l) n = omega arith

-- The decoder after a version, and after a size.
abbrev sizing : TcpMachine
sizing =
    filling tcp_decoder (record { magic = protocol_magic; version = 1; payload = [] }) 4 []
      state_size tt 1

abbrev filling_payload : ℕ → ℕ → TcpMachine
filling_payload n cb = filling tcp_decoder (framed (replicate n 0)) n [] state_payload tt cb

run-sizing :
    (n : ℕ) (rest : List ℕ) {r : Run TcpPacket State (Unit {0}) Error}
    → n < 4294967296
    → ((b : ℕ) → run tcp_decoder (filling_payload n b) rest ≡ r)
    → run tcp_decoder sizing (u32_bytes (n % 4294967296) ++ rest) ≡ r
unfolding tcp_decoder step transition_satisfy_size
run-sizing n rest h k =
    let e : n % 4294967296 ≡ n = omega arith in
    rw e (
      run-filling_then tcp_decoder _ _ _ _ (u32_bytes n) rest refl (omega arith)
        (λ b. rw (u32_of-u32_bytes n h) (k b)))

module _ (l rest : List ℕ) where
  run_payload :
      (cb : ℕ)
      → l ≢ []
      → run tcp_decoder (filling_payload (length l) cb) (l ++ rest)
        ≡ finished (tcp_packet l) idle rest
  unfolding tcp_decoder step new reset tcp_packet
  run_payload cb n =
      run-filling_then tcp_decoder _ _ _ _ l rest refl (pos-length l n)
        (λ b. rw (copy-exact (replicate (length l) 0) l (length-replicate (length l) 0)))

  -- Up to the size of the payload.
  run_prefix :
      run tcp_decoder idle (tcp_bytes (tcp_packet l) ++ rest)
      ≡ run tcp_decoder sizing (u32_bytes (length l % 4294967296) ++ (l ++ rest))
  unfolding run feed step tcp_decoder new transition_satisfy_size u16_of is_zero pred_ℤ tcp_bytes
      tcp_packet
  run_prefix = refl

  -- The decoder gives the frame of some bytes back when it is fed it, leaves what follows, and is
  -- as before. The payload is not empty, and its length is a uint32.
  pub run-tcp :
      l ≢ []
      → length l < 4294967296
      → run tcp_decoder idle (tcp_bytes (tcp_packet l) ++ rest) ≡ finished (tcp_packet l) idle rest
  run-tcp n short = run_prefix ∙ run-sizing (length l) (l ++ rest) short (λ b. run_payload b n)

run_empty :
    (rest : List ℕ)
    → run tcp_decoder idle (tcp_bytes (tcp_packet []) ++ rest)
      ≡ run tcp_decoder (filling_payload 0 0) rest
unfolding run feed step tcp_decoder new transition_satisfy_size u16_of u32_of is_zero pred_ℤ
    tcp_bytes tcp_packet
run_empty rest = refl

-- A frame without a payload stops the decoder for good: whatever follows, it gives no value.
run-tcp-empty :
    (rest : List ℕ)
    → (k : TcpMachine) × (run tcp_decoder idle (tcp_bytes (tcp_packet []) ++ rest) ≡ waiting k)
run-tcp-empty rest =
    let (k, h) = run-overdue tcp_decoder rest (framed []) [] state_payload tt 0 in
    (k, run_empty rest ∙ h)
