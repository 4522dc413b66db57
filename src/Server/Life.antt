-- ===== src/Server/Life.antt =====
-- A server over its whole life: the handlers and routines of swim_server.go and of its loop and sync manager
-- as the steps that its state takes, one at a time and in any order. HandleMulticastMessage, AllKnownNodes
-- and pingIndirect change nothing of it and are left out. runBootstrap is there with what it changes:
-- the source, whether a response came, and the tokens of bootstrapCompleted, of which it takes some.
pub mod Events
pub mod Periods
pub mod Handlers
pub mod Reachable
use eswim.Base.{ℕ, ◌≤◌, ◌≡◌, Bool, true, false, Option, none, some, List, []}
use eswim.Base.Int.{pos}
use eswim.Proto.Ip.{Ip, NodeHash, hash_zero}
use eswim.Proto.Node.{Node}
use eswim.Proto.Message.{Message, IndirectPing}
use eswim.Proto.Packet.{Packet}
use eswim.Proto.TcpPacket.{TcpPacket}
use eswim.Core.NodeManager.{new_node_manager}
use eswim.Core.GossipManager.{new_gossip_manager}
use eswim.Core.RunLoop
use eswim.Core.RunLoop.{RunLoopPeriod, Settings, new_period, start_period, end_period}
use eswim.Core.SyncManager.{
  Action, Received, after_reply, sync_mode_second_phase, sync_mode_bootstrap_ack,
  set_bootstrap_source,
}
use eswim.Server.{Server}
use eswim.Server.Datagrams.{
  Host, Callback, Effect, handle_udp_control_message, perform_indirect_ping, expire_indirect_ping,
}
use eswim.Server.Syncs.{
  Peer, Surroundings, delegate, handle_incoming_node_list, perform_bootstrap_complete,
  handle_tcp_packet,
}
use eswim.Server.Loop.{Running, Tuning, loop_delegate}

-- The fields of `swimServer`, of its sync manager and of its loop that change.
pub record System : Type 0 where
  pub server : Server
  pub bootstrap_response_received : Bool
  pub indirect_ping_callbacks : List (ℕ × Callback)
  pub accept_bootstrap_from : List ℕ
  pub bootstrap_completed : ℕ
  pub last_full_sync_node : NodeHash
  pub period : RunLoopPeriod

-- What newSwimServer starts with; the gossip manager sends each event once.
unfoldable pub new_system : Ip → System
new_system self_address = record {
  server = record {
    host_address = self_address;
    incarnation = 0;
    nodes = new_node_manager self_address;
    gossip = new_gossip_manager (pos 1);
  };
  bootstrap_response_received = false;
  indirect_ping_callbacks = [];
  accept_bootstrap_from = [];
  bootstrap_completed = 0;
  last_full_sync_node = hash_zero;
  period = new_period;
}

-- The parts of the state that the handlers of datagrams, the sync manager and the loop work on.
abbrev pub host_of : System → Host
host_of s = record {
  server = s.server;
  bootstrap_response_received = s.bootstrap_response_received;
  indirect_ping_callbacks = s.indirect_ping_callbacks;
}

abbrev pub with_host : Host → System → System
with_host h s = record s {
  server = h.server;
  bootstrap_response_received = h.bootstrap_response_received;
  indirect_ping_callbacks = h.indirect_ping_callbacks;
}

abbrev pub peer_of : System → Peer
peer_of s = record {
  server = s.server;
  accept_bootstrap_from = s.accept_bootstrap_from;
  bootstrap_completed = s.bootstrap_completed;
}

abbrev pub with_peer : Peer → System → System
with_peer p s = record s {
  server = p.server;
  accept_bootstrap_from = p.accept_bootstrap_from;
  bootstrap_completed = p.bootstrap_completed;
}

abbrev pub running_of : System → Running
running_of s = record {
  server = s.server;
  last_full_sync_node = s.last_full_sync_node;
  outgoing = [];
}

abbrev pub with_running : RunLoopPeriod × Running → System → System
with_running (r, x) s = record s {
  server = x.server;
  last_full_sync_node = x.last_full_sync_node;
  period = r;
}

-- What a handler takes from outside, with the period that CurrentPeriod gives.
abbrev pub now : Surroundings → System → Surroundings
now u s = record u { period = s.period.id }

pub data Step (s : System) : System → Type 0 where
  datagram :
      (u : Surroundings) (source bytes : List ℕ) {h : Host} {effects : List Effect}
      → handle_udp_control_message u.cipher u.ascon u.sorter s.period.id source bytes (host_of s)
        ≡ some (h, effects)
      → Step s (with_host h s)
  indirect_ping :
      (random : ℕ) (m : IndirectPing) (p : Packet)
      → Step s (with_host (perform_indirect_ping random s.period.id m p (host_of s)).0 s)
  indirect_ping_over :
      (random period : ℕ) → Step s (with_host (expire_indirect_ping random period (host_of s)) s)
  frame :
      (u : Surroundings) (source : List ℕ) (f : TcpPacket) {p : Peer} {actions : List Action}
      → handle_tcp_packet (now u s) source f (peer_of s) ≡ some (p, actions)
      → Step s (with_peer p s)
  sync_reply :
      (u : Surroundings) (r : Received) {p : Peer}
      → after_reply
          (delegate (now u s))
          sync_mode_second_phase
          (λ m. handle_incoming_node_list (now u s) m.nodes)
          r
          (peer_of s)
        ≡ some p
      → Step s (with_peer p s)
  bootstrap_reply :
      (u : Surroundings) (target : Node) (r : Received) {p : Peer}
      → after_reply
          (delegate (now u s))
          sync_mode_bootstrap_ack
          (λ m. perform_bootstrap_complete (now u s) target)
          r
          (peer_of s)
        ≡ some p
      → Step s (with_peer p s)
  bootstrap_source :
      (source : List ℕ)
      → Step s
          (record s { accept_bootstrap_from = set_bootstrap_source source s.accept_bootstrap_from })
  bootstrap_response :
      (received : Bool) → Step s (record s { bootstrap_response_received = received })
  bootstrap_taken :
      (left : ℕ) → left ≤ s.bootstrap_completed → Step s (record s { bootstrap_completed = left })
  period_start :
      (t : Tuning) (settings : Settings) (random : ℕ)
      → Step s
          (with_running (start_period (loop_delegate t) settings random s.period (running_of s)) s)
  period_message : (m : Message) → Step s (record s { period = RunLoop.handle_message m s.period })
  period_end :
      (t : Tuning) (settings : Settings)
      → Step s (with_running (end_period (loop_delegate t) settings s.period (running_of s)) s)

-- The states that a new server comes to.
pub data Reach (host : Ip) : System → Type 0 where
  start : Reach host (new_system host)
  step : {s s' : System} → Reach host s → Step s s' → Reach host s'
