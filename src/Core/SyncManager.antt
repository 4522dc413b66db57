-- ===== src/Core/SyncManager.antt =====
-- Full syncs and bootstraps over TCP: internal/core/sync_manager.go. What the manager asks of its delegate
-- is a record of operations on the delegate's state `S`. What it does with a client is a list of
-- actions, and what becomes of a connection that it opens is a `Link`; each routine is taken as one
-- sequence of steps, with what the rest of the program does while it waits for the answer.
pub mod Once
use eswim.Base.{
  ℕ, ◌==◌, Bool, true, false, not, Option, none, some, List, [], ◌∷◌, ◌++◌, if◌then◌else◌,
}
use mathlib.Core.Option
use eswim.Proto.NetIp.{net_ip_equal}
use eswim.Proto.Error.{Error}
use eswim.Proto.Node.{Node}
use eswim.Proto.Message.{Message, Sync, sync}
use eswim.Proto.Packet.{Packet}
use eswim.Proto.TcpPacket.{TcpPacket}

-- The values of `SyncMode`.
abbrev pub sync_mode_first_phase : ℕ
sync_mode_first_phase = 0

abbrev pub sync_mode_second_phase : ℕ
sync_mode_second_phase = 1

abbrev pub sync_mode_bootstrap : ℕ
sync_mode_bootstrap = 2

abbrev pub sync_mode_bootstrap_ack : ℕ
sync_mode_bootstrap_ack = 3

-- What DecodeTCPPacket gives: a panic, nil, an error, or a packet.
pub data Received : Type 0 where
  crashed unopened : Received
  unparsed : Error → Received
  received : Packet → Received

-- EncodeTCPPacket stands for DispatchTCPPacket too, which writes what it gives.
pub record Delegate (S : Type 0) : Type 1 where
  pub bootstrap_completed : S → S
  pub handle_incoming_node_list : List Node → S → S
  pub encode_tcp_packet : Message → S → Option TcpPacket
  pub decode_tcp_packet : List ℕ → TcpPacket → S → Received
  pub all_known_nodes : S → List Node
  pub perform_bootstrap_complete : Node → S → S

pub data Action : Type 0 where
  write : TcpPacket → Action
  close : Action

-- A connection: whether it is established and written to, what the rest of the program does to the
-- state until the answer or the timeout, the answer, and where it comes from.
pub record Link (S : Type 0) : Type 0 where
  pub established : Bool
  pub written : Bool
  pub meanwhile : S → S
  pub response : Option TcpPacket
  pub source : List ℕ

-- `client.Write` of what was encoded, if it was.
unfoldable pub write_all : Option TcpPacket → List Action
write_all none = []
write_all (some p) = write p ∷ []

module _ {S : Type 0} (d : Delegate S) where
  -- `HandleBootstrap`; the first value is the new `acceptBootstrapFrom`.
  unfoldable pub handle_bootstrap : Sync → List ℕ → List ℕ → S → (List ℕ × S) × List Action
  unfolding write_all
  handle_bootstrap m source accept s =
      if not (net_ip_equal source accept)
      then ((accept, s), close ∷ [])
      else let s' = d.bootstrap_completed (d.handle_incoming_node_list m.nodes s) in
        (
          ([], s'),
          write_all (
                d.encode_tcp_packet (sync (record { mode = sync_mode_bootstrap_ack; nodes = [] }))
                  s')
              ++ (close ∷ []),
        )

  -- `HandleSyncRequest`
  unfoldable pub handle_sync_request : Sync → S → S × List Action
  unfolding write_all
  handle_sync_request m s =
      let s' = d.handle_incoming_node_list m.nodes s in
      (
        s',
        write_all (
              d.encode_tcp_packet
                (sync (record { mode = sync_mode_second_phase; nodes = d.all_known_nodes s' })) s')
            ++ (close ∷ []),
      )

  -- What PerformSync does with the message of an answer, at its last case.
  unfoldable pub take_sync : ℕ → (Sync → S → S) → Option Message → S → S
  take_sync mode act (some (sync r)) s = if not (r.mode == mode) then s else act r s
  take_sync mode act _ s = s

  unfoldable pub after_reply : ℕ → (Sync → S → S) → Received → S → Option S
  unfolding take_sync
  after_reply mode act crashed s = none
  after_reply mode act unopened s = some s
  after_reply mode act (unparsed e) s = some s
  after_reply mode act (received p) s = some (take_sync mode act p.message s)

  -- The common course of PerformSync and PerformBootstrap: the nodes are sent in the mode `sent`, and
  -- `act` is done with an answer in the mode `expected`. `none` is a panic.
  unfoldable pub exchange : ℕ → ℕ → (Sync → S → S) → Link S → S → Option (S × List Action)
  unfolding after_reply
  exchange sent expected act link s =
      if not link.established
      then some (s, [])
      else (elim (d.encode_tcp_packet (sync (record { mode = sent; nodes = d.all_known_nodes s }))
          s) [
            | none ↦ some (s, close ∷ [])
            | some p ↦ if not link.written then some (s, close ∷ []) else (elim link.response [
              | none ↦ some (link.meanwhile s, write p ∷ close ∷ [])
              | some r ↦
                  let s' = link.meanwhile s in
                  Option.map (λ s''. (s'', write p ∷ close ∷ []))
                    (after_reply expected act (d.decode_tcp_packet link.source r s') s')
            ])
          ])

  unfoldable pub perform_sync : Link S → S → Option (S × List Action)
  unfolding exchange
  perform_sync link s =
      exchange sync_mode_first_phase sync_mode_second_phase
        (λ r. d.handle_incoming_node_list r.nodes) link s

  unfoldable pub perform_bootstrap : Node → Link S → S → Option (S × List Action)
  unfolding exchange
  perform_bootstrap target link s =
      exchange sync_mode_bootstrap sync_mode_bootstrap_ack
        (λ r. d.perform_bootstrap_complete target) link s

-- `SetBootstrapSource`
unfoldable pub set_bootstrap_source : List ℕ → List ℕ → List ℕ
set_bootstrap_source source accept = source
