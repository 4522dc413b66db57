-- ===== src/Core/RunLoop/Adaptive.antt =====
-- Adaptive pings: what internal/core/runloop.go measures, and how long it waits for an answer. The digest
-- that it keeps is a library, and so a parameter. Times and durations are nanoseconds on a clock
-- that does not go back; a happening comes with the time at which the loop takes it.
pub mod Pings
pub mod Measures
use eswim.Base.{
  ℕ, ◌+◌, ◌-◌, ◌*◌, ◌/◌, ◌==◌, leb, not, Bool, true, false, Option, none, some, List, [], ◌∷◌, ite,
  if◌then◌else◌, ℕ_discrete, map,
}
use eswim.Base.Assoc.{get, put, del}
use eswim.Proto.Ip.{NodeHash-discrete, hash_zero}
use eswim.Proto.Message.{
  Message, Pong, bootstrap_request, bootstrap_response, bootstrap_ack, ping, pong, indirect_ping,
  indirect_pong, sync,
}
use eswim.Core.RunLoop.{
  Delegate, RunLoopPeriod, Settings, Happening, ping_timeout, incoming, changed, start_period,
  wait_period, end_period,
}
use eswim.Core.RunLoop

-- `tdigest.TDigest`: `quantile` is the 99th percentile as a whole number, and `count` is a test
-- of the number of centroids for zero.
pub record TDigest (D : Type 0) : Type 0 where
  pub add : ℕ → D → D
  pub is_empty : D → Bool
  pub quantile : D → ℕ

-- The fields of `runLoop` and of its period that only adaptive pings need.
pub record Measuring (D : Type 0) : Type 0 where
  pub adaptive_pings : Bool
  pub ping_timestamps : List (ℕ × ℕ)
  pub t_digest : D

module _ {D : Type 0} (lib : TDigest D) where
  -- `registerSentPing`
  unfoldable pub register_sent_ping : ℕ → RunLoopPeriod → Measuring D → Measuring D
  register_sent_ping now r m =
      if not m.adaptive_pings
      then m
      else record m { ping_timestamps = put ℕ_discrete r.period_hash now m.ping_timestamps }

  -- `registerReceivedPong`
  unfoldable pub register_received_pong : ℕ → Pong → Measuring D → Measuring D
  register_received_pong now p m =
      let id = p.cookie + p.period * 65536 in
      if not m.adaptive_pings then m else (elim (get ℕ_discrete id m.ping_timestamps) [
        | none ↦ m
        | some old ↦ record m {
          ping_timestamps = del ℕ_discrete id m.ping_timestamps;
          t_digest = lib.add ((now - old) / 1000000) m.t_digest;
        }
      ])

  -- The delete in `pingIndirect`.
  unfoldable pub forget_ping : RunLoopPeriod → Measuring D → Measuring D
  forget_ping r m =
      if m.adaptive_pings
      then record m { ping_timestamps = del ℕ_discrete r.period_hash m.ping_timestamps }
      else m

  abbrev min : ℕ → ℕ → ℕ
  min a b = if leb a b then a else b

  -- `pingTimeout`, given the duration of a period, which is not negative; PingTimeout of the delegate is
  -- asked for without adaptive pings only.
  unfoldable pub ping_timeout_of : {S : Type 0} → Delegate S → ℕ → Measuring D → S → ℕ
  ping_timeout_of d duration m s =
      if not m.adaptive_pings
      then d.ping_timeout_setting s
      else if lib.is_empty m.t_digest
      then duration / 2
      else min (lib.quantile m.t_digest * 1000000) duration

  -- What `handleMessage` measures.
  unfoldable pub measure_message : ℕ → Message → RunLoopPeriod → Measuring D → Measuring D
  unfolding register_received_pong
  measure_message now (pong p) r m =
      if not (p.period == r.id)
      then m
      else if not (p.cookie == r.cookie)
      then m
      else register_received_pong now p m
  measure_message now _ r m = m

  module _ {S : Type 0} (d : Delegate S) where
    unfoldable pub start_measured :
        Settings → ℕ → ℕ → RunLoopPeriod → Measuring D → S → (RunLoopPeriod × Measuring D) × S
    unfolding register_sent_ping
    start_measured settings random now r m s =
        let (r', s') = start_period d settings random r s in
        elim ((d.next_probe_subject s).1) [
          | none ↦ ((r', m), s')
          | some n ↦ ((r', register_sent_ping now r' m), s')
        ]

    unfoldable pub wait_measured :
        List (ℕ × Happening S) → RunLoopPeriod → Measuring D → S → (RunLoopPeriod × Measuring D) × S
    unfolding measure_message forget_ping
    wait_measured [] r m s = ((r, m), s)
    wait_measured ((now, ping_timeout) ∷ hs) r m s =
        wait_measured hs r (ite (NodeHash-discrete r.node hash_zero) m (forget_ping r m))
          (ite (NodeHash-discrete r.node hash_zero) s (RunLoop.ping_indirect d r s))
    wait_measured ((now, incoming x) ∷ hs) r m s =
        wait_measured hs (RunLoop.handle_message x r) (measure_message now x r m) s
    wait_measured ((now, changed f) ∷ hs) r m s = wait_measured hs r m (f s)

    -- One turn of `loop`.
    unfoldable pub turn_measured :
        Settings
        → ℕ
        → ℕ
        → List (ℕ × Happening S)
        → RunLoopPeriod
        → Measuring D
        → S
        → (RunLoopPeriod × Measuring D) × S
    unfolding start_measured wait_measured
    turn_measured settings random now hs r m s =
        let ((r', m'), s') = start_measured settings random now r m s in
        let ((r'', m''), s'') = wait_measured hs r' m' s' in
        let (r''', s''') = end_period d settings r'' s'' in ((r''', m''), s''')
