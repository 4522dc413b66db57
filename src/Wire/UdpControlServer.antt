-- ===== src/Wire/UdpControlServer.antt =====
-- The routine that receives datagrams: Listen of internal/wire/udp_control_server.go as a step relation,
-- with Shutdown, which another routine runs, in between. The sleep after a failure is left out.
pub mod Stopping
use eswim.Base.{ℕ, ◌≡◌, Bool, true, false, Option, none, some, List, [], ◌∷◌, ◌++◌}

-- The places in Listen, makeListener and readLoop between two of their steps. At `at_handle` a datagram from
-- an address was read, and is not handled yet.
pub data Phase : Type 0 where
  at_listen at_make_listener at_read_loop at_read returned : Phase
  at_handle : List ℕ → List ℕ → Phase

-- `listener` tells whether there is one, and if so whether it is open. `closing` tells that a Shutdown has
-- set `stopping` and has not come to the listener yet.
pub record UdpControlServer : Type 0 where
  pub phase : Phase
  pub stopping : Bool
  pub listener : Option Bool
  pub closing : Bool

unfoldable pub new_udp_control_server : UdpControlServer
new_udp_control_server = record {
  phase = at_listen;
  stopping = false;
  listener = none;
  closing = false;
}

-- What HandleUDPControlMessage is given: the source and the bytes.
abbrev pub Handled : Type 0
Handled = List (List ℕ × List ℕ)

pub data Step (u : UdpControlServer) : Handled → UdpControlServer → Type 0 where
  stop_listening :
      u.phase ≡ at_listen → u.stopping ≡ true → Step u [] (record u { phase = returned })
  go_on_listening :
      u.phase ≡ at_listen → u.stopping ≡ false → Step u [] (record u { phase = at_make_listener })
  listen_failed : u.phase ≡ at_make_listener → Step u [] (record u { phase = at_listen })
  listening :
      u.phase ≡ at_make_listener
      → Step u [] (record u { phase = at_read_loop; listener = some true })
  stop_reading :
      u.phase ≡ at_read_loop → u.stopping ≡ true → Step u [] (record u { phase = at_listen })
  go_on_reading :
      u.phase ≡ at_read_loop → u.stopping ≡ false → Step u [] (record u { phase = at_read })
  read :
      (source data_read : List ℕ)
      → u.phase ≡ at_read
      → u.listener ≡ some true
      → Step u [] (record u { phase = at_handle source data_read })
  read_closed :
      u.phase ≡ at_read → u.listener ≡ some false → Step u [] (record u { phase = at_listen })
  read_failed : u.phase ≡ at_read → Step u [] (record u { phase = at_read_loop })
  handle :
      (source data_read : List ℕ)
      → u.phase ≡ at_handle source data_read
      → Step u ((source, data_read) ∷ []) (record u { phase = at_read_loop })
  shutdown : u.stopping ≡ false → Step u [] (record u { stopping = true; closing = true })
  shutdown_again : u.stopping ≡ true → Step u [] u
  no_listener : u.closing ≡ true → u.listener ≡ none → Step u [] (record u { closing = false })
  close :
      (is_open : Bool)
      → u.closing ≡ true
      → u.listener ≡ some is_open
      → Step u [] (record u { listener = some false; closing = false })

-- Any number of steps, and what is handled in them.
pub data Run : UdpControlServer → Handled → UdpControlServer → Type 0 where
  done : {u : UdpControlServer} → Run u [] u
  next :
      {u v w : UdpControlServer} (handled later : Handled)
      → Step u handled v
      → Run v later w
      → Run u (handled ++ later) w
