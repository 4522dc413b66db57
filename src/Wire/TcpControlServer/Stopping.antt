-- ===== src/Wire/TcpControlServer/Stopping.antt =====
-- What a server of internal/wire/tcp_control_server.go still accepts after Shutdown was called.
use eswim.Base.{ℕ, ◌+◌, ◌≤◌, ◌≡◌, false, arith}
use eswim.Wire.TcpControlServer.{TcpControlServer, opened, make_client, Step, Run}

-- The routines of loop.
abbrev routines : TcpControlServer → ℕ
routines t = t.testing + t.accepting + t.making

-- Every routine of loop comes from a Start.
routines-step :
    {t u : TcpControlServer} {starts made : ℕ}
    → Step t starts made u
    → routines u ≤ routines t + starts
routines-step (Step.start p f) = omega arith
routines-step (Step.start_again p f) = omega arith
routines-step (Step.go_on n p e f) = omega arith
routines-step (Step.finish n p e f) = omega arith
routines-step (Step.accept n p e o) = omega arith
routines-step (Step.accept_closed n p e o) = omega arith
routines-step (Step.accept_failed n p e o) = unfold make_client in omega arith
routines-step (Step.make n p e) = unfold make_client in omega arith
routines-step (Step.dial p) = unfold make_client in omega arith
routines-step (Step.dial_failed p) = omega arith
routines-step (Step.leave n p e) = omega arith
routines-step (Step.shutdown p f) = omega arith
routines-step (Step.shutdown_again p f) = omega arith
routines-step (Step.close n p e o) = omega arith
routines-step (Step.close_closed n p e o) = omega arith
routines-step (Step.drained n p e c) = omega arith

routines-run :
    {t u : TcpControlServer} {starts made : ℕ}
    → Run t starts made u
    → routines u ≤ routines t + starts
routines-run Run.done = omega arith
routines-run (Run.next s m s' m' x r) =
    let a = routines-step x in let b = routines-run r in omega (arith, a, b)

-- A step of a server that does not run, and is not started again, uses up what it accepts.
record Spends (t : TcpControlServer) (made : ℕ) (u : TcpControlServer) : Type 0 where
  stopped : u.running ≡ false
  spent : made + (u.accepting + u.making) ≤ t.accepting + t.making

Step-Spends :
    {t u : TcpControlServer} {starts made : ℕ}
    → starts ≡ 0
    → t.running ≡ false
    → Step t starts made u
    → Spends t made u
Step-Spends z w (Step.start p f) = absurd (omega (arith, z))
Step-Spends z w (Step.start_again p f) = absurd cc
Step-Spends z w (Step.go_on n p e f) = absurd cc
Step-Spends z w (Step.finish n p e f) = record { stopped = w; spent = omega arith }
Step-Spends z w (Step.accept n p e o) = record { stopped = w; spent = omega arith }
Step-Spends z w (Step.accept_closed n p e o) = record { stopped = w; spent = omega arith }
Step-Spends z w (Step.accept_failed n p e o) =
    unfold make_client in record { stopped = w; spent = omega arith }
Step-Spends z w (Step.make n p e) =
    unfold make_client in record { stopped = w; spent = omega arith }
Step-Spends z w (Step.dial p) = unfold make_client in record { stopped = w; spent = omega arith }
Step-Spends z w (Step.dial_failed p) = record { stopped = w; spent = omega arith }
Step-Spends z w (Step.leave n p e) = record { stopped = w; spent = omega arith }
Step-Spends z w (Step.shutdown p f) = absurd cc
Step-Spends z w (Step.shutdown_again p f) = record { stopped = w; spent = omega arith }
Step-Spends z w (Step.close n p e o) = record { stopped = w; spent = omega arith }
Step-Spends z w (Step.close_closed n p e o) = record { stopped = w; spent = omega arith }
Step-Spends z w (Step.drained n p e c) = record { stopped = w; spent = omega arith }

Run-spends :
    {t u : TcpControlServer} {starts made : ℕ}
    → starts ≡ 0
    → t.running ≡ false
    → Run t starts made u
    → made ≤ t.accepting + t.making
Run-spends z w Run.done = omega arith
Run-spends z w (Run.next s m s' m' x r) =
    let a = Step-Spends (omega (arith, z)) w x in
    let b = Run-spends (omega (arith, z)) a.stopped r in let c = a.spent in omega (arith, b, c)

-- A server that was started once makes a client of at most one more connection that it accepts, once
-- Shutdown was called and as long as it is not started again, whatever else happens.
pub Run-accepts :
    {t u : TcpControlServer} {before made starts : ℕ}
    → Run opened 1 before t
    → t.running ≡ false
    → starts ≡ 0
    → Run t starts made u
    → made ≤ 1
Run-accepts r w z run = let a = routines-run r in let b = Run-spends z w run in omega (arith, a, b)
