-- ===== src/Core/RunLoop/Adaptive/Pings.antt =====
-- What one ping of internal/core/runloop.go leaves behind, and what the messages of its period measure.
use eswim.Base.{
  ℕ, ◌+◌, ◌-◌, ◌*◌, ◌/◌, ◌≤◌, ◌==◌, ◌≡◌, ◌≢◌, refl, sym, subst, Bool, true, false, ◌&&◌, Option,
  none, some, List, [], ◌∷◌, ite, if◌then◌else◌, arith,
}
use eswim.Base.Assoc.{get, del}
use eswim.Proto.Ip.{NodeHash-discrete, hash_zero}
use eswim.Proto.Message.{
  Message, Pong, bootstrap_request, bootstrap_response, bootstrap_ack, ping, pong, indirect_ping,
  indirect_pong, sync,
}
use eswim.Core.RunLoop.{
  Delegate, RunLoopPeriod, Settings, Happening, ping_timeout, incoming, changed, start_period,
  wait_period, end_period, make_cookie, turn,
}
use eswim.Core.RunLoop
use eswim.Core.RunLoop.Period.{handle_message-answers}
use eswim.Core.RunLoop.Adaptive.{
  TDigest, Measuring, register_received_pong, forget_ping, ping_timeout_of, measure_message,
}

-- What is measured of the round trip of the ping sent at the time `since`: how long the first Pong with
-- the identifier and the cookie of the period took, unless the ping timed out before it came.
abbrev pub round_trip : {S : Type 0} → ℕ → ℕ → ℕ → List (ℕ × Happening S) → Option ℕ
round_trip id cookie since [] = none
round_trip id cookie since ((now, ping_timeout) ∷ hs) = none
round_trip id cookie since ((now, incoming (pong p)) ∷ hs) =
    if (p.period == id) && (p.cookie == cookie)
    then some ((now - since) / 1000000)
    else round_trip id cookie since hs
round_trip id cookie since (h ∷ hs) = round_trip id cookie since hs

-- The timestamp is gone.
abbrev pub is_settled : {S : Type 0} → ℕ → ℕ → List (ℕ × Happening S) → Bool
is_settled id cookie [] = false
is_settled id cookie ((now, ping_timeout) ∷ hs) = true
is_settled id cookie ((now, incoming (pong p)) ∷ hs) =
    if (p.period == id) && (p.cookie == cookie) then true else is_settled id cookie hs
is_settled id cookie (h ∷ hs) = is_settled id cookie hs

-- A period that probes a node, with its identifier and cookie.
pub record Probes (id cookie : ℕ) (r : RunLoopPeriod) : Type 0 where
  pub same_id : r.id ≡ id
  pub same_cookie : r.cookie ≡ cookie
  pub same_hash : r.period_hash ≡ cookie + id * 65536
  pub valid : r.node ≢ hash_zero

pub handle_message-Probes :
    (id cookie : ℕ) (x : Message) (r : RunLoopPeriod)
    → Probes id cookie r
    → Probes id cookie (RunLoop.handle_message x r)
handle_message-Probes id cookie x r p =
    subst (Probes id cookie) (sym (handle_message-answers x r)) (record {
      same_id = p.same_id;
      same_cookie = p.same_cookie;
      same_hash = p.same_hash;
      valid = p.valid;
    })

module _ {D : Type 0} (lib : TDigest D) where
  abbrev pub measuring : List (ℕ × ℕ) → D → Measuring D
  measuring ts t = record { adaptive_pings = true; ping_timestamps = ts; t_digest = t }

  abbrev pub with_round_trip : Option ℕ → D → D
  with_round_trip none t = t
  with_round_trip (some ms) t = lib.add ms t

  pub forget_ping-nothing :
      (r : RunLoopPeriod) (t : D)
      → ite
          (NodeHash-discrete r.node hash_zero)
          (measuring [] t)
          (forget_ping lib r (measuring [] t))
        ≡ measuring [] t
  unfolding forget_ping del
  forget_ping-nothing r t = ground arith

  -- An adaptive ping timeout is never longer than the period.
  ping_timeout_of-le :
      {S : Type 0} (d : Delegate S) (duration : ℕ) (m : Measuring D) (s : S)
      → m.adaptive_pings ≡ true
      → ping_timeout_of lib d duration m s ≤ duration
  unfolding ping_timeout_of
  ping_timeout_of-le d duration m s a = ground arith

  pub measure_message-nothing :
      (now : ℕ) (x : Message) (r : RunLoopPeriod) (t : D)
      → measure_message lib now x r (measuring [] t) ≡ measuring [] t
  unfolding measure_message register_received_pong get
  measure_message-nothing now (pong p) r t = ground arith
  measure_message-nothing now (ping p) r t = refl
  measure_message-nothing now (indirect_ping p) r t = refl
  measure_message-nothing now (indirect_pong p) r t = refl
  measure_message-nothing now (sync p) r t = refl
  measure_message-nothing now bootstrap_request r t = refl
  measure_message-nothing now bootstrap_response r t = refl
  measure_message-nothing now bootstrap_ack r t = refl

  pub forget_ping-own :
      (id cookie since : ℕ) (r : RunLoopPeriod) (t : D)
      → Probes id cookie r
      → ite
          (NodeHash-discrete r.node hash_zero)
          (measuring ((cookie + id * 65536, since) ∷ []) t)
          (forget_ping lib r (measuring ((cookie + id * 65536, since) ∷ []) t))
        ≡ measuring [] t
  unfolding forget_ping del
  forget_ping-own id cookie since r t p =
      let h = p.same_hash in let v = p.valid in ground (arith, h, v)

  pub measure_message-own :
      (id cookie since now : ℕ) (m : Pong) (r : RunLoopPeriod) (t : D)
      → Probes id cookie r
      → measure_message lib now (pong m) r (measuring ((cookie + id * 65536, since) ∷ []) t) ≡ (
          if (m.period == id) && (m.cookie == cookie)
          then measuring [] (lib.add ((now - since) / 1000000) t)
          else measuring ((cookie + id * 65536, since) ∷ []) t)
  unfolding measure_message register_received_pong get del
  measure_message-own id cookie since now m r t p =
      let i = p.same_id in let c = p.same_cookie in ground (arith, i, c)
