-- ===== src/Server.antt =====
-- The server: the state of swimServer in swim_server.go that is not a socket, a channel or a timer, and
-- what it does with the events that a Ping brings. The handlers run one at a time; `period` is what
-- CurrentPeriod of the loop gives.
pub mod Incarnation
pub mod Events
pub mod Expiry
pub mod Signals
pub mod Messages
pub mod Transport
pub mod Datagrams
pub mod Syncs
pub mod FullSync
pub mod Loop
pub mod Bootstrapping
pub mod Life
use eswim.Base.{
  ℕ, ◌+◌, ◌%◌, ltb, leb, Bool, true, false, ◌||◌, Option, none, some, List, [], ◌∷◌, if◌then◌else◌,
}
use eswim.Proto.Ip.{NodeHash, Ip, equal, into_hash}
use eswim.Proto.Node.{Node, hash}
use eswim.Proto.Event.{
  EventKind, kind_suspect, kind_faulty, Event, join, healthy, suspect, faulty, left, alive, wrap,
  event_kind, get_incarnation, get_subject,
}
use eswim.Core.NodeList.{Reordering, expired_suspects, node_by_hash, node_by_ip}
use eswim.Core.NodeList
use eswim.Core.NodeManager.{NodeManager, update_or_create, wrap_incarnation}
use eswim.Core.NodeManager
use eswim.Core.GossipManager.{GossipManager, Sorter, add}

pub record Server : Type 0 where
  pub host_address : Ip
  pub incarnation : ℕ  -- uint16
  pub nodes : NodeManager
  pub gossip : GossipManager

-- `isEventLocal`
unfoldable pub is_event_local : Event → Server → Bool
is_event_local e s = equal (get_subject e) s.host_address

-- `lastIncarnation`, where none is -1, and `reannounce`.
pub record Tally : Type 0 where
  pub last_incarnation : Option ℕ
  pub reannounce : Bool

abbrev pub is_accusation : EventKind → Bool
is_accusation kind_suspect = true
is_accusation kind_faulty = true
is_accusation _ = false

-- What the loop does with an event about this node.
unfoldable pub tally_local : ℕ → Event → Tally → Tally
tally_local incarnation e t =
    if is_accusation (event_kind e)
    then (if leb incarnation (get_incarnation e)
        then record {
          last_incarnation = some (get_incarnation e);
          reannounce = t.reannounce || ltb (get_incarnation e) incarnation;
        }
        else record t { reannounce = t.reannounce || ltb (get_incarnation e) incarnation })
    else if ltb incarnation (get_incarnation e)
    then record t { last_incarnation = some (get_incarnation e) }
    else t

-- What the loop does to the nodes at an event about another node.
unfoldable pub apply_event : ℕ → Event → NodeManager → NodeManager
apply_event period (faulty p) m = elim (node_by_ip p.subject m.node_list) [
  | none ↦ m
  | some n ↦ if ltb p.incarnation n.incarnation then m else NodeManager.mark_faulty (hash n) m
]
apply_event period (suspect p) m =
    update_or_create period
      (record { suspect = true; incarnation = p.incarnation; address = p.subject }) m
apply_event period (join p) m =
    update_or_create period
      (record { suspect = false; incarnation = p.incarnation; address = p.subject }) m
apply_event period (healthy p) m =
    update_or_create period
      (record { suspect = false; incarnation = p.incarnation; address = p.subject }) m
apply_event period (left p) m = elim (node_by_hash (into_hash p.subject) m.node_list) [
  | none ↦ m
  | some n ↦
      if ltb p.incarnation n.incarnation
      then m
      else record m { node_list = NodeList.delete (into_hash p.subject) m.node_list }
]
apply_event period (alive p) m =
    update_or_create period
      (record { suspect = false; incarnation = p.incarnation; address = p.subject }) m
apply_event period (wrap p) m =
    wrap_incarnation period
      (record { suspect = false; incarnation = p.incarnation; address = p.subject }) m

module _ (sorter : Sorter) where
  -- `lastKnown+1` is a uint16.
  unfoldable pub increment_incarnation_to_surpass : ℕ → Server → Server
  increment_incarnation_to_surpass last_known s =
      if ltb 65535 ((last_known + 1) % 65536)
      then record s {
        incarnation = 0;
        gossip =
            add sorter
              (wrap (record {
                subject = s.host_address;
                incarnation = last_known;
                new_incarnation = 0;
              }))
              s.gossip;
      }
      else record s {
        incarnation = (last_known + 1) % 65536;
        gossip =
            add sorter
              (alive (record { subject = s.host_address; incarnation = (last_known + 1) % 65536 }))
              s.gossip;
      }

  -- The body of the loop, and the loop.
  unfoldable pub process_event : ℕ → Event → Tally × Server → Tally × Server
  unfolding is_event_local tally_local apply_event
  process_event period e (t, s) =
      let heard = record s { gossip = add sorter e s.gossip } in
      if is_event_local e s
      then (tally_local s.incarnation e t, heard)
      else (t, record heard { nodes = apply_event period e s.nodes })

  unfoldable pub process_loop : ℕ → List Event → Tally × Server → Tally × Server
  unfolding process_event
  process_loop period [] p = p
  process_loop period (e ∷ es) p = process_loop period es (process_event period e p)

  -- `processPingEvents`
  unfoldable pub process_ping_events : ℕ → List Event → Server → Server
  unfolding process_loop increment_incarnation_to_surpass
  process_ping_events period events s =
      let (t, s') =
        process_loop period events (record { last_incarnation = none; reannounce = false }, s) in
      elim t.last_incarnation [
        | some last ↦ increment_incarnation_to_surpass last s'
        | none ↦
            if t.reannounce
            then record s' {
              gossip =
                  add sorter
                    (alive (record { subject = s'.host_address; incarnation = s'.incarnation }))
                    s'.gossip;
            }
            else s'
      ]

-- `SignalHealthyNode`
unfoldable pub signal_healthy_node : NodeHash → Server → Server
signal_healthy_node h s = record s {
  nodes = record (s.nodes) { node_list = NodeList.mark_stable h s.nodes.node_list };
}

module _ (sorter : Sorter) where
  unfoldable pub signal_suspect_node : ℕ → NodeHash → Server → Server
  signal_suspect_node period h s =
      let marked = NodeList.mark_suspect period false h s.nodes.node_list in
      let s' : Server = record s { nodes = record (s.nodes) { node_list = marked } } in
      elim (node_by_hash h marked) [
        | none ↦ s'
        | some n ↦ record s' {
          gossip =
              add sorter
                (suspect (record {
                  source = s.host_address;
                  subject = n.address;
                  incarnation = n.incarnation;
                }))
                s.gossip;
        }
      ]

  -- The loop of `ProcessExpiredSuspects`.
  unfoldable pub announce_faulty : List Node → Server → Server
  announce_faulty [] s = s
  announce_faulty (n ∷ ns) s = announce_faulty ns (record s {
    nodes = NodeManager.mark_faulty (hash n) s.nodes;
    gossip =
        add sorter
          (faulty
            (record { source = s.host_address; subject = n.address; incarnation = n.incarnation }))
          s.gossip;
  })

  -- `ProcessExpiredSuspects`; `rounds` is the option SuspectPeriods.
  unfoldable pub process_expired_suspects : Reordering → ℕ → ℕ → Server → Server
  unfolding announce_faulty
  process_expired_suspects order rounds period s =
      let (rest, expired) = expired_suspects order period rounds s.nodes.node_list in
      announce_faulty expired (record s { nodes = record (s.nodes) { node_list = rest } })
