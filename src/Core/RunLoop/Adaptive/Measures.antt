-- ===== src/Core/RunLoop/Adaptive/Measures.antt =====
-- What a turn of internal/core/runloop.go measures.
use eswim.Base.{
  ℕ, ◌+◌, ◌-◌, ◌*◌, ◌/◌, ◌%◌, ◌==◌, ◌≡◌, ◌≢◌, refl, ap, ◌∙◌, Bool, true, false, ◌&&◌, some, List,
  [], ◌∷◌, ite, if◌then◌else◌,
}
use eswim.Base.Assoc.{put}
use eswim.Proto.Ip.{NodeHash-discrete, hash_zero}
use eswim.Proto.Node.{Node, hash}
use eswim.Proto.Message.{
  Pong, bootstrap_request, bootstrap_response, bootstrap_ack, ping, pong, indirect_ping,
  indirect_pong, sync,
}
use eswim.Core.RunLoop.{
  Delegate, RunLoopPeriod, Settings, Happening, ping_timeout, incoming, changed, start_period,
  wait_period, end_period, make_cookie, turn,
}
use eswim.Core.RunLoop
use eswim.Core.RunLoop.Period.{probing, start_period-probing}
use eswim.Core.RunLoop.Adaptive.{
  TDigest, Measuring, register_sent_ping, start_measured, wait_measured, turn_measured,
}
use eswim.Core.RunLoop.Adaptive.Pings.{
  round_trip, is_settled, measuring, with_round_trip, Probes, handle_message-Probes,
  forget_ping-nothing, measure_message-nothing, measure_message-own, forget_ping-own,
}

module _ {D : Type 0} (lib : TDigest D) where
  module _ {S : Type 0} (d : Delegate S) where
    -- With no timestamp left, nothing is measured any more.
    wait_measured-settled :
        (hs : List (ℕ × Happening S)) (r : RunLoopPeriod) (t : D) (s : S)
        → (wait_measured lib d hs r (measuring lib [] t) s).0.1 ≡ measuring lib [] t
    unfolding wait_measured
    wait_measured-settled [] r t s = refl
    wait_measured-settled ((now, ping_timeout) ∷ hs) r t s =
        ap
          (λ m.
            (wait_measured lib d hs r m
              (ite (NodeHash-discrete r.node hash_zero) s (RunLoop.ping_indirect d r s))).0.1)
          (forget_ping-nothing lib r t)
        ∙ wait_measured-settled hs r t _
    wait_measured-settled ((now, incoming x) ∷ hs) r t s =
        ap (λ m. (wait_measured lib d hs (RunLoop.handle_message x r) m s).0.1)
          (measure_message-nothing lib now x r t)
        ∙ wait_measured-settled hs _ t s
    wait_measured-settled ((now, changed f) ∷ hs) r t s = wait_measured-settled hs r t (f s)

    -- The timestamps and the digest after a wait.
    abbrev pub waited : ℕ → ℕ → ℕ → D → List (ℕ × Happening S) → Measuring D
    waited id cookie since t hs =
        measuring lib (if is_settled id cookie hs then [] else (cookie + id * 65536, since) ∷ [])
          (with_round_trip lib (round_trip id cookie since hs) t)

    after_pong :
        (id cookie since now : ℕ) (t : D) (m : Pong) (hs : List (ℕ × Happening S))
        (r : RunLoopPeriod) (s : S) (b : Bool)
        → (wait_measured lib d hs r (measuring lib ((cookie + id * 65536, since) ∷ []) t) s).0.1
          ≡ waited id cookie since t hs
        → (wait_measured lib d hs r
            (if b
              then measuring lib [] (lib.add ((now - since) / 1000000) t)
              else measuring lib ((cookie + id * 65536, since) ∷ []) t)
            s).0.1
          ≡ measuring lib
              (if (if b then true else is_settled id cookie hs)
                then []
                else (cookie + id * 65536, since) ∷ [])
              (with_round_trip lib
                (if b then some ((now - since) / 1000000) else round_trip id cookie since hs)
                t)
    after_pong id cookie since now t m hs r s true e = wait_measured-settled hs r _ s
    after_pong id cookie since now t m hs r s false e = e

    wait_measured-waited :
        (id cookie since : ℕ) (t : D) (hs : List (ℕ × Happening S)) (r : RunLoopPeriod) (s : S)
        → Probes id cookie r
        → (wait_measured lib d hs r (measuring lib ((cookie + id * 65536, since) ∷ []) t) s).0.1
          ≡ waited id cookie since t hs
    unfolding wait_measured
    wait_measured-waited id cookie since t [] r s p = refl
    wait_measured-waited id cookie since t ((now, ping_timeout) ∷ hs) r s p =
        ap
          (λ m.
            (wait_measured lib d hs r m
              (ite (NodeHash-discrete r.node hash_zero) s (RunLoop.ping_indirect d r s))).0.1)
          (forget_ping-own lib id cookie since r t p)
        ∙ wait_measured-settled hs r t _
    wait_measured-waited id cookie since t ((now, changed f) ∷ hs) r s p =
        wait_measured-waited id cookie since t hs r (f s) p
    wait_measured-waited id cookie since t ((now, incoming (pong m)) ∷ hs) r s p =
        ap (λ q. (wait_measured lib d hs (RunLoop.handle_message (pong m) r) q s).0.1)
          (measure_message-own lib id cookie since now m r t p)
        ∙ after_pong id cookie since now t m hs (RunLoop.handle_message (pong m) r) s
            ((m.period == id) && (m.cookie == cookie))
            (wait_measured-waited id cookie since t hs (RunLoop.handle_message (pong m) r) s
              (handle_message-Probes id cookie (pong m) r p))
    wait_measured-waited id cookie since t ((now, incoming (ping x)) ∷ hs) r s p =
        wait_measured-waited id cookie since t hs (RunLoop.handle_message (ping x) r) s
          (handle_message-Probes id cookie (ping x) r p)
    wait_measured-waited id cookie since t ((now, incoming (indirect_ping x)) ∷ hs) r s p =
        wait_measured-waited id cookie since t hs (RunLoop.handle_message (indirect_ping x) r) s
          (handle_message-Probes id cookie (indirect_ping x) r p)
    wait_measured-waited id cookie since t ((now, incoming (indirect_pong x)) ∷ hs) r s p =
        wait_measured-waited id cookie since t hs (RunLoop.handle_message (indirect_pong x) r) s
          (handle_message-Probes id cookie (indirect_pong x) r p)
    wait_measured-waited id cookie since t ((now, incoming (sync x)) ∷ hs) r s p =
        wait_measured-waited id cookie since t hs (RunLoop.handle_message (sync x) r) s
          (handle_message-Probes id cookie (sync x) r p)
    wait_measured-waited id cookie since t ((now, incoming bootstrap_request) ∷ hs) r s p =
        wait_measured-waited id cookie since t hs (RunLoop.handle_message bootstrap_request r) s
          (handle_message-Probes id cookie bootstrap_request r p)
    wait_measured-waited id cookie since t ((now, incoming bootstrap_response) ∷ hs) r s p =
        wait_measured-waited id cookie since t hs (RunLoop.handle_message bootstrap_response r) s
          (handle_message-Probes id cookie bootstrap_response r p)
    wait_measured-waited id cookie since t ((now, incoming bootstrap_ack) ∷ hs) r s p =
        wait_measured-waited id cookie since t hs (RunLoop.handle_message bootstrap_ack r) s
          (handle_message-Probes id cookie bootstrap_ack r p)

    module _ (settings : Settings) (random now : ℕ) (hs : List (ℕ × Happening S))
        (r : RunLoopPeriod) (s : S) where
      abbrev begun : Measuring D → (RunLoopPeriod × Measuring D) × S
      begun m = start_measured lib d settings random now r m s

      start_measured-probing :
          (n : Node) (t : D)
          → (d.next_probe_subject s).1 ≡ some n
          → begun (measuring lib [] t) ≡ (
            (
              probing d settings random r n false,
              measuring lib ((random % 65536 + r.id * 65536, now) ∷ []) t,
            ),
            (start_period d settings random r s).1,
          )
      unfolding start_measured register_sent_ping put
      start_measured-probing n t e =
          let p = start_period-probing d settings random r s n e in
          rw (e, start_measured)
            (ap
              (λ q. (
                (q, measuring lib ((q.period_hash, now) ∷ []) t),
                (start_period d settings random r s).1,
              ))
              p)

      -- A turn that probes a node, begun with no timestamp left, adds one value to the digest if the
      -- first Pong with the identifier and cookie of the period comes before the ping times out,
      -- the time that it took in milliseconds, and otherwise none. No timestamp is left after it,
      -- but for the one of its own ping when neither of the two happens.
      pub turn_measured-round_trip :
          (n : Node) (t : D)
          → (d.next_probe_subject s).1 ≡ some n
          → hash n ≢ hash_zero
          → (turn_measured lib d settings random now hs r (measuring lib [] t) s).0.1
            ≡ waited r.id (random % 65536) now t hs
      unfolding turn_measured start_measured
      turn_measured-round_trip n t e valid =
          ap (λ b. (wait_measured lib d hs b.0.0 b.0.1 b.1).0.1) (start_measured-probing n t e)
          ∙ wait_measured-waited r.id (random % 65536) now t hs _ _
              (record { same_id = refl; same_cookie = refl; same_hash = refl; valid = valid })
