-- ===== src/Wire/MulticastCommunicator.antt =====
-- The routine that listens to the multicast group: Listen of internal/wire/multicast_listener.go as a step
-- relation, with Shutdown, which another routine runs, in between, and Write. The sleep after a failure
-- is left out.
pub mod Stopping
use eswim.Base.{ℕ, ◌≡◌, Bool, true, false, ◌||◌, Option, none, some, List, [], ◌∷◌, ◌++◌}
use eswim.Wire.TcpControlClient.{Wrote, Writing, sent, unsent, writing, write_loop}

-- What `net/netip` says of an address: that it is a loopback or a link-local one.
pub record Netip : Type 0 where
  pub is_link_local : List ℕ → Bool

abbrev pub bytes_in : (List ℕ → List ℕ → Bool) → List ℕ → List (List ℕ) → Bool
bytes_in same ip [] = false
bytes_in same ip (x ∷ xs) = same x ip || bytes_in same ip xs

-- `IPList.Contains`; `same` compares two addresses.
unfoldable pub contains : Netip → (List ℕ → List ℕ → Bool) → List (List ℕ) → List ℕ → Bool
contains lib same list ip = lib.is_link_local ip || bytes_in same ip list

pub data Phase : Type 0 where
  at_listen at_make_listener at_made at_read at_close returned : Phase
  at_handle : List ℕ → List ℕ → Phase

-- `current_listener` tells whether the field is set, and `is_open` whether the socket that Listen uses
-- is open. `closing` tells that a Shutdown has set `stopping` and has not come to the listener yet.
pub record MulticastCommunicator : Type 0 where
  pub phase : Phase
  pub stopping : Bool
  pub current_listener : Bool
  pub is_open : Bool
  pub closing : Bool

unfoldable pub new_multicast_communicator : MulticastCommunicator
new_multicast_communicator = record {
  phase = at_listen;
  stopping = false;
  current_listener = false;
  is_open = false;
  closing = false;
}

abbrev pub Handled : Type 0
Handled = List (List ℕ × List ℕ)

-- `local_ips` are the addresses that LocalIPs of the delegate holds, asked whether they contain one.
module _ (local_ips : List ℕ → Bool) where
  pub data Step (m : MulticastCommunicator) : Handled → MulticastCommunicator → Type 0 where
    stop : m.phase ≡ at_listen → m.stopping ≡ true → Step m [] (record m { phase = returned })
    go_on :
        m.phase ≡ at_listen → m.stopping ≡ false → Step m [] (record m { phase = at_make_listener })
    listen_failed : m.phase ≡ at_make_listener → Step m [] (record m { phase = at_listen })
    listening :
        m.phase ≡ at_make_listener → Step m [] (record m { phase = at_made; is_open = true })
    publish_listener :
        m.phase ≡ at_made → Step m [] (record m { phase = at_read; current_listener = true })
    read :
        (source data_read : List ℕ)
        → m.phase ≡ at_read
        → m.is_open ≡ true
        → Step m [] (record m { phase = at_handle source data_read })
    pass_over :
        (source data_read : List ℕ)
        → m.phase ≡ at_handle source data_read
        → local_ips source ≡ true
        → Step m [] (record m { phase = at_read })
    handle :
        (source data_read : List ℕ)
        → m.phase ≡ at_handle source data_read
        → local_ips source ≡ false
        → Step m ((source, data_read) ∷ []) (record m { phase = at_read })
    read_failed : m.phase ≡ at_read → m.stopping ≡ false → Step m [] m
    read_stopped : m.phase ≡ at_read → m.stopping ≡ true → Step m [] (record m { phase = at_close })
    close : m.phase ≡ at_close → Step m [] (record m { phase = returned; is_open = false })
    shutdown : m.stopping ≡ false → Step m [] (record m { stopping = true; closing = true })
    shutdown_again : m.stopping ≡ true → Step m [] m
    no_listener :
        m.closing ≡ true → m.current_listener ≡ false → Step m [] (record m { closing = false })
    close_listener :
        m.closing ≡ true
        → m.current_listener ≡ true
        → Step m [] (record m { is_open = false; closing = false })

  pub data Reach : MulticastCommunicator → Type 0 where
    start : Reach new_multicast_communicator
    step : {m n : MulticastCommunicator} {handled : Handled} → Reach m → Step m handled n → Reach n

  -- Any number of steps, and what is handled in them.
  pub data Run : MulticastCommunicator → Handled → MulticastCommunicator → Type 0 where
    done : {m : MulticastCommunicator} → Run m [] m
    next :
        {m n o : MulticastCommunicator} (handled later : Handled)
        → Step m handled n
        → Run n later o
        → Run m (handled ++ later) o

-- `Write`: none when the dial fails, and otherwise what the connection took and how it ends.
unfoldable pub write : Bool → List Wrote → List ℕ → Option (List ℕ × Writing)
unfolding write_loop
write false rs data_written = none
write true rs data_written = some (write_loop rs data_written)
