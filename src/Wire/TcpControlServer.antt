-- ===== src/Wire/TcpControlServer.antt =====
-- The server that connections come in to: internal/wire/tcp_control_server.go as a step relation on what
-- Start, Shutdown, Dial, the routines of loop and the clients share.
pub mod Stopping
use eswim.Base.{ℕ, ◌+◌, ◌≡◌, Bool, true, false}

-- How many routines are at each place: of loop before its test, in Accept and before makeClient with a
-- connection; of Shutdown before Close and before Wait. `clients` is the WaitGroup's count. A server that
-- panicked makes no step.
pub record TcpControlServer : Type 0 where
  pub running : Bool
  pub is_open : Bool
  pub testing : ℕ
  pub accepting : ℕ
  pub making : ℕ
  pub closing : ℕ
  pub draining : ℕ
  pub clients : ℕ
  pub panicked : Bool

-- What NewTCPControlServer returns when ResolveTCPAddr and ListenTCP succeed.
abbrev pub opened : TcpControlServer
opened = record {
  running = false;
  is_open = true;
  testing = 0;
  accepting = 0;
  making = 0;
  closing = 0;
  draining = 0;
  clients = 0;
  panicked = false;
}

-- `makeClient` at a connection, or at nil.
unfoldable pub make_client : Bool → TcpControlServer → TcpControlServer
make_client false t = record t { clients = t.clients + 1; panicked = true }
make_client true t = record t { clients = t.clients + 1 }

-- One step, with the number of routines of loop that it starts, and of accepted connections that it makes
-- clients of.
pub data Step (t : TcpControlServer) : ℕ → ℕ → TcpControlServer → Type 0 where
  start :
      t.panicked ≡ false
      → t.running ≡ false
      → Step t 1 0 (record t { running = true; testing = t.testing + 1 })
  start_again : t.panicked ≡ false → t.running ≡ true → Step t 0 0 t
  go_on :
      (n : ℕ)
      → t.panicked ≡ false
      → t.testing ≡ n + 1
      → t.running ≡ true
      → Step t 0 0 (record t { testing = n; accepting = t.accepting + 1 })
  finish :
      (n : ℕ)
      → t.panicked ≡ false
      → t.testing ≡ n + 1
      → t.running ≡ false
      → Step t 0 0 (record t { testing = n })
  accept :
      (n : ℕ)
      → t.panicked ≡ false
      → t.accepting ≡ n + 1
      → t.is_open ≡ true
      → Step t 0 0 (record t { accepting = n; making = t.making + 1 })
  accept_closed :
      (n : ℕ)
      → t.panicked ≡ false
      → t.accepting ≡ n + 1
      → t.is_open ≡ false
      → Step t 0 0 (record t { accepting = n; testing = t.testing + 1 })
  accept_failed :
      (n : ℕ)
      → t.panicked ≡ false
      → t.accepting ≡ n + 1
      → t.is_open ≡ true
      → Step t 0 0 (make_client false t)
  make :
      (n : ℕ)
      → t.panicked ≡ false
      → t.making ≡ n + 1
      → Step t 0 1 (make_client true (record t { making = n; testing = t.testing + 1 }))
  dial : t.panicked ≡ false → Step t 0 0 (make_client true t)
  dial_failed : t.panicked ≡ false → Step t 0 0 t
  leave : (n : ℕ) → t.panicked ≡ false → t.clients ≡ n + 1 → Step t 0 0 (record t { clients = n })
  shutdown :
      t.panicked ≡ false
      → t.running ≡ true
      → Step t 0 0 (record t { running = false; closing = t.closing + 1 })
  shutdown_again : t.panicked ≡ false → t.running ≡ false → Step t 0 0 t
  close :
      (n : ℕ)
      → t.panicked ≡ false
      → t.closing ≡ n + 1
      → t.is_open ≡ true
      → Step t 0 0 (record t { closing = n; is_open = false; draining = t.draining + 1 })
  close_closed :
      (n : ℕ)
      → t.panicked ≡ false
      → t.closing ≡ n + 1
      → t.is_open ≡ false
      → Step t 0 0 (record t { closing = n })
  drained :
      (n : ℕ)
      → t.panicked ≡ false
      → t.draining ≡ n + 1
      → t.clients ≡ 0
      → Step t 0 0 (record t { draining = n })

-- Any number of steps, with the sums of the two numbers.
pub data Run : TcpControlServer → ℕ → ℕ → TcpControlServer → Type 0 where
  done : {t : TcpControlServer} → Run t 0 0 t
  next :
      {t u v : TcpControlServer} (starts made more_starts more_made : ℕ)
      → Step t starts made u
      → Run u more_starts more_made v
      → Run t (starts + more_starts) (made + more_made) v
