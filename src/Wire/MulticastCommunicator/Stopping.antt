-- ===== src/Wire/MulticastCommunicator/Stopping.antt =====
-- How Listen of internal/wire/multicast_listener.go ends.
use eswim.Base.{
  ◌+◌, ◌≤◌, length, length-append, arith, ℕ, ◌≡◌, refl, sym, subst, Bool, true, false, List,
}
use eswim.Wire.MulticastCommunicator.{
  Phase, at_listen, at_make_listener, at_made, at_read, at_close, at_handle, returned,
  MulticastCommunicator, new_multicast_communicator, Handled, Step, Reach, Run,
}

-- What holds at each place of the routine: the listener is published once, and a routine that ends was
-- stopped.
abbrev Holds : Phase → Bool → Bool → Type 0
Holds at_listen published stopping = published ≡ false
Holds at_make_listener published stopping = published ≡ false
Holds at_made published stopping = published ≡ false
Holds at_read published stopping = published ≡ true
Holds (at_handle source data_read) published stopping = published ≡ true
Holds at_close published stopping = (published ≡ true) × (stopping ≡ true)
Holds returned published stopping = stopping ≡ true

record Inv (m : MulticastCommunicator) : Type 0 where
  holds : Holds m.phase m.current_listener m.stopping

at :
    {m : MulticastCommunicator} {p : Phase}
    → m.phase ≡ p
    → Inv m
    → Holds p m.current_listener m.stopping
at {m} e i = subst (λ q. Holds q m.current_listener m.stopping) e i.holds

stopped_holds : (p : Phase) (b s : Bool) → Holds p b s → Holds p b true
stopped_holds at_listen b s h = h
stopped_holds at_make_listener b s h = h
stopped_holds at_made b s h = h
stopped_holds at_read b s h = h
stopped_holds (at_handle source data_read) b s h = h
stopped_holds at_close b s h = (h.0, refl)
stopped_holds returned b s h = refl

-- How many datagrams may still be handled when the listener is closed.
abbrev budget : Phase → ℕ
budget (at_handle source data_read) = 1
budget _ = 0

from_phase : {p q : Phase} (k : ℕ) → p ≡ q → k ≤ budget q → k ≤ budget p
from_phase k e h = subst (λ p. k ≤ budget p) (sym e) h

-- A step with the published listener closed uses up what it handles, and leaves it closed.
record Spends (m : MulticastCommunicator) (handled : Handled) (n : MulticastCommunicator)
    : Type 0 where
  published : n.current_listener ≡ true
  closed : n.is_open ≡ false
  spent : length handled + budget n.phase ≤ budget m.phase

budget-le : (p : Phase) → budget p ≤ 1
budget-le p = ground arith

module _ {local_ips : List ℕ → Bool} where
  Inv-step :
      {m n : MulticastCommunicator} {handled : Handled} → Step local_ips m handled n → Inv m → Inv n
  Inv-step (Step.stop e f) i = record { holds = f }
  Inv-step (Step.go_on e f) i = record { holds = at e i }
  Inv-step (Step.listen_failed e) i = record { holds = at e i }
  Inv-step (Step.listening e) i = record { holds = at e i }
  Inv-step (Step.publish_listener e) i = record { holds = refl }
  Inv-step (Step.read source data_read e o) i = record { holds = at e i }
  Inv-step (Step.pass_over source data_read e l) i = record { holds = at e i }
  Inv-step (Step.handle source data_read e l) i = record { holds = at e i }
  Inv-step (Step.read_failed e f) i = i
  Inv-step (Step.read_stopped e f) i = record { holds = (at e i, f) }
  Inv-step (Step.close e) i = let h = at e i in record { holds = h.1 }
  Inv-step {m = m} (Step.shutdown f) i = record {
    holds = stopped_holds m.phase m.current_listener m.stopping i.holds;
  }
  Inv-step (Step.shutdown_again f) i = i
  Inv-step (Step.no_listener c p) i = record { holds = i.holds }
  Inv-step (Step.close_listener c p) i = record { holds = i.holds }

  Inv-Reach : {m : MulticastCommunicator} → Reach local_ips m → Inv m
  Inv-Reach Reach.start = unfold new_multicast_communicator in record { holds = refl }
  Inv-Reach (Reach.step r s) = Inv-step s (Inv-Reach r)

  -- Listen returns only after Shutdown was called.
  Reach-returned :
      {m : MulticastCommunicator} → Reach local_ips m → m.phase ≡ returned → m.stopping ≡ true
  Reach-returned r e = at e (Inv-Reach r)

  Step-Spends :
      {m n : MulticastCommunicator} {handled : Handled}
      → Inv m
      → m.current_listener ≡ true
      → m.is_open ≡ false
      → Step local_ips m handled n
      → Spends m handled n
  Step-Spends i p o (Step.stop e f) = record {
    published = p;
    closed = o;
    spent = from_phase _ e (omega arith);
  }
  Step-Spends i p o (Step.go_on e f) = record {
    published = p;
    closed = o;
    spent = from_phase _ e (omega arith);
  }
  Step-Spends i p o (Step.listen_failed e) = record {
    published = p;
    closed = o;
    spent = from_phase _ e (omega arith);
  }
  Step-Spends i p o (Step.listening e) = let h = at e i in absurd cc
  Step-Spends i p o (Step.publish_listener e) = record {
    published = refl;
    closed = o;
    spent = from_phase _ e (omega arith);
  }
  Step-Spends i p o (Step.read source data_read e b) = absurd cc
  Step-Spends i p o (Step.pass_over source data_read e l) = record {
    published = p;
    closed = o;
    spent = from_phase _ e (omega arith);
  }
  Step-Spends i p o (Step.handle source data_read e l) = record {
    published = p;
    closed = o;
    spent = from_phase _ e (omega arith);
  }
  Step-Spends i p o (Step.read_failed e f) = record {
    published = p;
    closed = o;
    spent = omega arith;
  }
  Step-Spends i p o (Step.read_stopped e f) = record {
    published = p;
    closed = o;
    spent = from_phase _ e (omega arith);
  }
  Step-Spends i p o (Step.close e) = record {
    published = p;
    closed = refl;
    spent = from_phase _ e (omega arith);
  }
  Step-Spends i p o (Step.shutdown f) = record { published = p; closed = o; spent = omega arith }
  Step-Spends i p o (Step.shutdown_again f) = record {
    published = p;
    closed = o;
    spent = omega arith;
  }
  Step-Spends i p o (Step.no_listener c q) = record {
    published = p;
    closed = o;
    spent = omega arith;
  }
  Step-Spends i p o (Step.close_listener c q) = record {
    published = p;
    closed = refl;
    spent = omega arith;
  }

  Run-budget :
      {m n : MulticastCommunicator} {handled : Handled}
      → Inv m
      → m.current_listener ≡ true
      → m.is_open ≡ false
      → Run local_ips m handled n
      → length handled ≤ budget m.phase
  Run-budget i p o Run.done = omega arith
  Run-budget i p o (Run.next h k s r) =
      let b = Step-Spends i p o s in
      let q = Run-budget (Inv-step s i) b.published b.closed r in
      let l = length-append h k in let x = b.spent in omega (arith, q, l, x)

  -- Once the listener that Listen uses is published and closed, at most one more datagram is handled,
  -- however long the routine goes on.
  pub Run-closed :
      {m n : MulticastCommunicator} {handled : Handled}
      → Reach local_ips m
      → m.current_listener ≡ true
      → m.is_open ≡ false
      → Run local_ips m handled n
      → length handled ≤ 1
  Run-closed {m} r p o run =
      let b = Run-budget (Inv-Reach r) p o run in let q = budget-le m.phase in omega (arith, b, q)
