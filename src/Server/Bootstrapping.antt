-- ===== src/Server/Bootstrapping.antt =====
-- How a server joins: runBootstrap of swim_server.go as a step relation, interleaved with what the two
-- other routines do with its state: the one that handles datagrams, and those that
-- handle TCP clients. A channel is the list of what waits in it; timers may fire at any time.
pub mod Reachable
use eswim.Base.{
  ℕ, suc, ◌+◌, ◌<◌, ◌≡◌, ◌≢◌, Bool, true, false, Option, none, some, List, [], ◌∷◌, ◌++◌, length,
}
use eswim.Proto.NetIp.{net_ip_equal}
use eswim.Proto.Message.{Message, bootstrap_request, bootstrap_ack}
use eswim.Proto.Packet.{Packet}
use eswim.Core.SyncManager.{set_bootstrap_source}

-- The capacities of the channels `bootstrapResponse` and `bootstrapCompleted`.
abbrev pub response_capacity : ℕ
response_capacity = 32

abbrev pub completed_capacity : ℕ
completed_capacity = 2

-- The places in runBootstrap between two of its steps, with the variable `bootstrapResponse` once it is
-- set.
pub data Phase : Type 0 where
  at_start drained publishing : Phase
  responded acknowledging accepting awaiting timed_out completed over : Packet → Phase

-- `in_flight` is a response between the Swap of its handler and the channel, and `notifying` counts the
-- bootstraps that HandleBootstrap has accepted and not reported on the channel yet.
pub record Bootstrapping : Type 0 where
  pub phase : Phase
  pub bootstrap_response : List Packet
  pub bootstrap_response_received : Bool
  pub in_flight : Option Packet
  pub accept_bootstrap_from : List ℕ
  pub notifying : ℕ
  pub bootstrap_completed : ℕ

pub data Effect : Type 0 where
  dispatch_multicast : Message → Effect
  dispatch_message : List ℕ → Message → Effect

-- A server that is started.
unfoldable pub initial : Bootstrapping
initial = record {
  phase = at_start;
  bootstrap_response = [];
  bootstrap_response_received = false;
  in_flight = none;
  accept_bootstrap_from = [];
  notifying = 0;
  bootstrap_completed = 0;
}

-- The steps of runBootstrap.
pub data Step (b : Bootstrapping) : List Effect → Bootstrapping → Type 0 where
  drain_first :
      b.phase ≡ at_start → Step b [] (record b { phase = drained; bootstrap_response = [] })
  forget_response :
      b.phase ≡ drained
      → Step b [] (record b { phase = publishing; bootstrap_response_received = false })
  publish : b.phase ≡ publishing → Step b (dispatch_multicast bootstrap_request ∷ []) b
  skip :
      {p : Packet} {ps : List Packet}
      → b.phase ≡ publishing
      → b.bootstrap_response ≡ p ∷ ps
      → p.header.op_code ≢ 2
      → Step b [] (record b { bootstrap_response = ps })
  take :
      {p : Packet} {ps : List Packet}
      → b.phase ≡ publishing
      → b.bootstrap_response ≡ p ∷ ps
      → p.header.op_code ≡ 2
      → Step b [] (record b {
        phase = responded p;
        bootstrap_response = ps;
        bootstrap_response_received = true;
      })
  drain_second :
      {p : Packet}
      → b.phase ≡ responded p
      → Step b [] (record b { phase = acknowledging p; bootstrap_response = [] })
  acknowledge :
      {p : Packet}
      → b.phase ≡ acknowledging p
      → Step b (dispatch_message p.source bootstrap_ack ∷ []) (record b { phase = accepting p })
  accept :
      {p : Packet}
      → b.phase ≡ accepting p
      → Step b [] (record b {
        phase = awaiting p;
        accept_bootstrap_from = set_bootstrap_source p.source b.accept_bootstrap_from;
      })
  complete :
      {p : Packet} {n : ℕ}
      → b.phase ≡ awaiting p
      → b.bootstrap_completed ≡ suc n
      → Step b [] (record b { phase = completed p; bootstrap_completed = n })
  time_out : {p : Packet} → b.phase ≡ awaiting p → Step b [] (record b { phase = timed_out p })
  restart :
      {p : Packet}
      → b.phase ≡ timed_out p
      → Step b [] (record b {
        phase = at_start;
        accept_bootstrap_from = set_bootstrap_source [] b.accept_bootstrap_from;
      })
  drain_last :
      {p : Packet}
      → b.phase ≡ completed p
      → Step b [] (record b { phase = over p; bootstrap_completed = 0 })

-- The steps of the BootstrapResponse case of HandleUDPControlMessage, which handles one datagram at a
-- time.
pub data DatagramStep (b : Bootstrapping) : Bootstrapping → Type 0 where
  swap :
      (p : Packet)
      → b.in_flight ≡ none
      → b.bootstrap_response_received ≡ false
      → DatagramStep b (record b { bootstrap_response_received = true; in_flight = some p })
  send :
      {p : Packet}
      → b.in_flight ≡ some p
      → length b.bootstrap_response < response_capacity
      → DatagramStep b
          (record b { bootstrap_response = b.bootstrap_response ++ (p ∷ []); in_flight = none })

-- The steps of HandleBootstrap of internal/core/sync_manager.go at a source that it accepts.
pub data ClientStep (b : Bootstrapping) : Bootstrapping → Type 0 where
  accept_bootstrap :
      (source : List ℕ)
      → net_ip_equal source b.accept_bootstrap_from ≡ true
      → ClientStep b (record b { accept_bootstrap_from = []; notifying = b.notifying + 1 })
  notify :
      {n : ℕ}
      → b.notifying ≡ suc n
      → b.bootstrap_completed < completed_capacity
      → ClientStep b (record b { notifying = n; bootstrap_completed = b.bootstrap_completed + 1 })

-- How many bootstraps a step accepts.
unfoldable pub accepts : {b b' : Bootstrapping} → ClientStep b b' → ℕ
accepts (ClientStep.accept_bootstrap source h) = 1
accepts _ = 0

-- The states that a server comes to, with the number of bootstraps that it has accepted.
pub data Reach : ℕ → Bootstrapping → Type 0 where
  start : Reach 0 initial
  step :
      {n : ℕ} {b b' : Bootstrapping} {effects : List Effect}
      → Reach n b
      → Step b effects b'
      → Reach n b'
  datagram : {n : ℕ} {b b' : Bootstrapping} → Reach n b → DatagramStep b b' → Reach n b'
  client :
      {n : ℕ} {b b' : Bootstrapping} → Reach n b → (c : ClientStep b b') → Reach (n + accepts c) b'
