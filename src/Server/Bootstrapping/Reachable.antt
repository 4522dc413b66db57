-- ===== src/Server/Bootstrapping/Reachable.antt =====
-- What holds in every state that runBootstrap of swim_server.go comes to, whatever the order of the steps.
use eswim.Base.{
  ℕ, ◌+◌, ◌<◌, ◌≤◌, ◌≡◌, refl, subst, Bool, true, false, Option, none, some, List, [], ◌∷◌, length,
  length-append, ◌⊎◌, inr, arith, if◌then◌else◌,
}
use eswim.Proto.Packet.{Packet}
use eswim.Core.SyncManager.{set_bootstrap_source}
use eswim.Server.Bootstrapping.{
  Phase, at_start, drained, publishing, awaiting, timed_out, completed, over, Bootstrapping, Effect,
  initial, Step, DatagramStep, ClientStep, accepts, Reach,
}

abbrev flying : Option Packet → ℕ
flying none = 0
flying (some p) = 1

-- The responses on their way to runBootstrap.
abbrev responses : Bootstrapping → ℕ
responses b = length b.bootstrap_response + flying b.in_flight

-- How many of them there can be.
abbrev limit : Phase → Bool → ℕ
limit drained r = if r then 1 else 0
limit publishing r = if r then 2 else 1
limit ph r = if r then 2 else 0

-- From whom a bootstrap is accepted.
abbrev pub Accepts : Phase → List ℕ → Type 0
Accepts (awaiting p) source = (source ≡ []) ⊎ (source ≡ p.source)
Accepts (timed_out p) source = (source ≡ []) ⊎ (source ≡ p.source)
Accepts (completed p) source = (source ≡ []) ⊎ (source ≡ p.source)
Accepts (over p) source = (source ≡ []) ⊎ (source ≡ p.source)
Accepts _ source = source ≡ []

-- That the server takes itself as bootstrapped.
abbrev pub HasJoined : Phase → Type 0
HasJoined (completed p) = Unit {0}
HasJoined (over p) = Unit {0}
HasJoined _ = ⊥

-- What holds of a state, with its phase named.
record Holds (n : ℕ) (ph : Phase) (b : Bootstrapping) : Type 0 where
  few : responses b ≤ limit ph b.bootstrap_response_received
  from : Accepts ph b.accept_bootstrap_from
  counted : 0 < b.notifying + b.bootstrap_completed → 0 < n
  joined : HasJoined ph → 0 < n

abbrev Inv : ℕ → Bootstrapping → Type 0
Inv n b = Holds n b.phase b

at : {n : ℕ} {b : Bootstrapping} {ph : Phase} → b.phase ≡ ph → Inv n b → Holds n ph b
at {n} {b} e i = subst (λ ph. Holds n ph b) e i

limit-le : (ph : Phase) (r : Bool) → limit ph r ≤ 2
limit-le ph r = ground arith

Accepts-nil : (ph : Phase) → Accepts ph []
Accepts-nil ph = ground arith

limit-swap : (ph : Phase) → limit ph false + 1 ≤ limit ph true
limit-swap ph = ground arith

Inv-initial : Inv 0 initial
unfolding initial
Inv-initial = record { few = omega arith; from = refl; counted = λ h. h; joined = λ h. absurd h }

limit_drained : (n k : ℕ) (r : Bool) → n + k ≤ limit at_start r → k ≤ 1 → 0 + k ≤ limit drained r
limit_drained n k true h f = omega arith
limit_drained n k false h f = omega arith

flying-le : (o : Option Packet) → flying o ≤ 1
flying-le none = omega arith
flying-le (some p) = omega arith

publishing-le : (k : ℕ) (r : Bool) → k ≤ limit drained r → k ≤ 1
publishing-le k true h = h
publishing-le k false h = omega arith

Inv-step : {n : ℕ} {b b' : Bootstrapping} {e : List Effect} → Step b e b' → Inv n b → Inv n b'
Inv-step {b = b} (Step.drain_first e) i =
    let j = at e i in
    record {
      few =
          limit_drained (length b.bootstrap_response) (flying b.in_flight)
            b.bootstrap_response_received j.few (flying-le b.in_flight);
      from = j.from;
      counted = j.counted;
      joined = j.joined;
    }
Inv-step {b = b} (Step.forget_response e) i =
    let j = at e i in
    record {
      few = publishing-le (responses b) b.bootstrap_response_received j.few;
      from = j.from;
      counted = j.counted;
      joined = j.joined;
    }
Inv-step (Step.publish e) i = i
Inv-step {b = b} (Step.skip {ps = ps} e q ne) i = record {
  few =
      let l =
        subst (λ l. length l + flying b.in_flight ≤ limit b.phase b.bootstrap_response_received) q
          i.few in
      omega arith;
  from = i.from;
  counted = i.counted;
  joined = i.joined;
}
Inv-step {b = b} (Step.take e q ok) i =
    let j = at e i in
    record {
      few =
          let l =
            subst
              (λ l. length l + flying b.in_flight ≤ limit publishing b.bootstrap_response_received)
              q j.few in
          let m = limit-le publishing b.bootstrap_response_received in omega arith;
      from = j.from;
      counted = j.counted;
      joined = λ h. absurd h;
    }
Inv-step (Step.drain_second e) i =
    let j = at e i in
    record {
      few = let f = j.few in omega arith;
      from = j.from;
      counted = j.counted;
      joined = λ h. absurd h;
    }
Inv-step (Step.acknowledge e) i =
    let j = at e i in
    record { few = j.few; from = j.from; counted = j.counted; joined = λ h. absurd h }
Inv-step (Step.accept e) i =
    let j = at e i in
    record {
      few = j.few;
      from = unfold set_bootstrap_source in inr refl;
      counted = j.counted;
      joined = λ h. absurd h;
    }
Inv-step {b = b} (Step.complete e q) i =
    let j = at e i in
    record {
      few = j.few;
      from = j.from;
      counted = λ h. j.counted (omega arith);
      joined = λ h. j.counted (omega arith);
    }
Inv-step (Step.time_out e) i =
    let j = at e i in
    record { few = j.few; from = j.from; counted = j.counted; joined = λ h. absurd h }
Inv-step (Step.restart e) i =
    let j = at e i in
    record {
      few = j.few;
      from = unfold set_bootstrap_source in refl;
      counted = j.counted;
      joined = λ h. absurd h;
    }
Inv-step {b = b} (Step.drain_last e) i =
    let j = at e i in
    record { few = j.few; from = j.from; counted = λ h. j.counted (omega arith); joined = j.joined }

Inv-datagram : {n : ℕ} {b b' : Bootstrapping} → DatagramStep b b' → Inv n b → Inv n b'
Inv-datagram {b = b} (DatagramStep.swap p e f) i =
    let l = subst (λ r. responses b ≤ limit b.phase r) f i.few in
    let m = subst (λ o. length b.bootstrap_response + flying o ≤ limit b.phase false) e l in
    let w = limit-swap b.phase in
    record { few = omega arith; from = i.from; counted = i.counted; joined = i.joined }
Inv-datagram {b = b} (DatagramStep.send {p} e h) i =
    let m =
      subst
        (λ o. length b.bootstrap_response + flying o ≤ limit b.phase b.bootstrap_response_received)
        e i.few in
    record {
      few = omega (arith, length-append b.bootstrap_response (p ∷ []), m);
      from = i.from;
      counted = i.counted;
      joined = i.joined;
    }

Inv-client : {n : ℕ} {b b' : Bootstrapping} (c : ClientStep b b') → Inv n b → Inv (n + accepts c) b'
unfolding accepts
Inv-client {b = b} (ClientStep.accept_bootstrap source h) i = record {
  few = i.few;
  from = Accepts-nil b.phase;
  counted = λ h. omega arith;
  joined = λ h. omega arith;
}
Inv-client {b = b} (ClientStep.notify e h) i = record {
  few = i.few;
  from = i.from;
  counted = λ h. let c = i.counted (omega arith) in omega arith;
  joined = λ h. let c = i.joined h in omega arith;
}

Inv-Reach : {n : ℕ} {b : Bootstrapping} → Reach n b → Inv n b
Inv-Reach Reach.start = Inv-initial
Inv-Reach (Reach.step r s) = Inv-step s (Inv-Reach r)
Inv-Reach (Reach.datagram r d) = Inv-datagram d (Inv-Reach r)
Inv-Reach (Reach.client r c) = Inv-client c (Inv-Reach r)

-- In every state that a server comes to, at most two responses wait for runBootstrap, so that the
-- handler that sends one on the channel is never held up; a bootstrap is accepted from nobody or
-- from the source of the response that runBootstrap has acknowledged, and only once it has; and it
-- takes itself as bootstrapped only after it has accepted a bootstrap.
pub Reach-Accepts :
    {n : ℕ} {b : Bootstrapping}
    → Reach n b
    → (length b.bootstrap_response ≤ 2)
      × (Accepts b.phase b.accept_bootstrap_from × (HasJoined b.phase → 0 < n))
Reach-Accepts {n} {b} r =
    let i = Inv-Reach r in
    let l = limit-le b.phase b.bootstrap_response_received in
    let f = i.few in (omega arith, (i.from, i.joined))
