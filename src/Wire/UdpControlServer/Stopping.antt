-- ===== src/Wire/UdpControlServer/Stopping.antt =====
-- What Listen of internal/wire/udp_control_server.go still handles after Shutdown was called.
use eswim.Base.{ℕ, ◌+◌, ◌≤◌, ◌≡◌, sym, subst, true, length, length-append, arith}
use eswim.Wire.UdpControlServer.{Phase, at_read, at_handle, UdpControlServer, Handled, Step, Run}

-- How many datagrams a routine that is stopped may still handle.
abbrev budget : Phase → ℕ
budget at_read = 1
budget (at_handle source data_read) = 1
budget _ = 0

-- A step of a stopped server uses up what it handles.
record Spends (u : UdpControlServer) (handled : Handled) (v : UdpControlServer) : Type 0 where
  stopped : v.stopping ≡ true
  spent : length handled + budget v.phase ≤ budget u.phase

from_phase : {p q : Phase} (k : ℕ) → p ≡ q → k ≤ budget q → k ≤ budget p
from_phase k e h = subst (λ p. k ≤ budget p) (sym e) h

Step-Spends :
    {u v : UdpControlServer} {handled : Handled}
    → u.stopping ≡ true
    → Step u handled v
    → Spends u handled v
Step-Spends f (Step.stop_listening e g) = record {
  stopped = f;
  spent = from_phase _ e (omega arith);
}
Step-Spends f (Step.go_on_listening e g) = absurd cc
Step-Spends f (Step.listen_failed e) = record { stopped = f; spent = from_phase _ e (omega arith) }
Step-Spends f (Step.listening e) = record { stopped = f; spent = from_phase _ e (omega arith) }
Step-Spends f (Step.stop_reading e g) = record { stopped = f; spent = from_phase _ e (omega arith) }
Step-Spends f (Step.go_on_reading e g) = absurd cc
Step-Spends f (Step.read source data_read e o) = record {
  stopped = f;
  spent = from_phase _ e (omega arith);
}
Step-Spends f (Step.read_closed e o) = record { stopped = f; spent = from_phase _ e (omega arith) }
Step-Spends f (Step.read_failed e) = record { stopped = f; spent = from_phase _ e (omega arith) }
Step-Spends f (Step.handle source data_read e) = record {
  stopped = f;
  spent = from_phase _ e (omega arith);
}
Step-Spends f (Step.shutdown g) = absurd cc
Step-Spends f (Step.shutdown_again g) = record { stopped = f; spent = omega arith }
Step-Spends f (Step.no_listener c o) = record { stopped = f; spent = omega arith }
Step-Spends f (Step.close b c o) = record { stopped = f; spent = omega arith }

Run-budget :
    {u v : UdpControlServer} {handled : Handled}
    → u.stopping ≡ true
    → Run u handled v
    → length handled ≤ budget u.phase
Run-budget f Run.done = omega arith
Run-budget {u} f (Run.next {v = v} h k s r) =
    let p = Step-Spends f s in
    let q = Run-budget p.stopped r in
    let l = length-append h k in let x = p.spent in omega (arith, q, l, x)

budget-le : (p : Phase) → budget p ≤ 1
budget-le p = ground arith

-- Once Shutdown was called, the server handles at most one more datagram, whatever comes in and however long
-- it goes on.
pub Run-stopping :
    {u v : UdpControlServer} {handled : Handled}
    → u.stopping ≡ true
    → Run u handled v
    → length handled ≤ 1
Run-stopping {u} f r = let p = Run-budget f r in let q = budget-le u.phase in omega (arith, p, q)
