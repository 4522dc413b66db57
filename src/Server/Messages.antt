-- ===== src/Server/Messages.antt =====
-- The Ping and Pong cases of HandleUDPControlMessage in swim_server.go. `source` is the IP that
-- IPFromNetIP makes of the sender's address. A Pong that is sent is returned.
pub mod Pings
use eswim.Server.Events.{
  IsWired, unsafe_add-self_addr, mark_stable-self_addr, process_ping_events-IsWired,
}
use Prim.Native.Nat.{compare, Ordering}
use eswim.Base.{
  ◌∙◌, ℕ, ◌+◌, ◌<◌, ◌==◌, ◌≡◌, ltb, leb, Bool, true, false, ◌&&◌, ◌||◌, none, some, arith,
  if◌then◌else◌,
}
use eswim.Proto.Ip.{Ip, equal}
use eswim.Proto.Node.{Node, hash}
use eswim.Proto.Event.{event_kind, get_incarnation}
use eswim.Proto.EventDecoder.{kind_code}
use eswim.Proto.Message.{Ping, Pong}
use eswim.Core.NodeList.{NodeList, unsafe_add, mark_stable}
use eswim.Core.NodeList.View.{IsConsistent, view}
use eswim.Core.NodeList.Refinement.{
  Sets, stabilised, added, unsafe_add-Sets, mark_stable-Sets, unsafe_add-IsConsistent,
}
use eswim.Core.GossipManager.{Sorter, last_gossip_about}
use eswim.Server.{Server, increment_incarnation_to_surpass, process_ping_events}

-- The Pong that answers a Ping; 0 is EventJoin.
unfoldable pub answer_ping : Ip → Ping → Server → Pong
answer_ping source m s = elim (last_gossip_about source s.gossip) [
  | none ↦ record {
    ack = m.target_incarnation == s.incarnation;
    cookie = m.cookie;
    period = m.period;
    is_last_state_known = false;
    last_known_incarnation = 0;
    last_known_event_kind = 0;
  }
  | some e ↦ record {
    ack = m.target_incarnation == s.incarnation;
    cookie = m.cookie;
    period = m.period;
    is_last_state_known = true;
    last_known_incarnation = get_incarnation e;
    last_known_event_kind = kind_code (event_kind e);
  }
]

-- `s.nodes.Add` and `s.nodes.MarkStable` of the sender.
unfoldable pub welcome : ℕ → Node → NodeList → NodeList
welcome period x n = mark_stable (hash x) (unsafe_add period x n)

unfoldable pub receive_ping : Sorter → ℕ → Ip → ℕ → Ping → Server → Server × Pong
unfolding answer_ping welcome
receive_ping sorter period source incarnation m s =
    let x : Node = record { suspect = false; incarnation = incarnation; address = source } in
    let s' : Server = record s {
      nodes = record (s.nodes) { node_list = welcome period x s.nodes.node_list };
    } in
    (process_ping_events sorter period m.events s', answer_ping source m s)

-- `ev == proto.EventFaulty || ev == proto.EventSuspect`, on the number of the kind.
abbrev pub is_accusing : ℕ → Bool
is_accusing kind = (kind == 3) || (kind == 2)

-- The test of the Pong case, with the precedence of `&&` over `||`.
unfoldable pub is_outdated : Pong → ℕ → Bool
is_outdated m own =
    (m.is_last_state_known
      && (is_accusing m.last_known_event_kind && leb own m.last_known_incarnation))
    || ltb own m.last_known_incarnation

-- What a Pong does to the own incarnation. The callback of an indirect ping is left out, and the Pong
-- then goes to the loop.
unfoldable pub receive_pong : Sorter → Pong → Server → Server
unfolding is_outdated
receive_pong sorter m s =
    if is_outdated m s.incarnation
    then increment_incarnation_to_surpass sorter m.last_known_incarnation s
    else s

-- The sender of a Ping, at another address than the own one, is a stable member afterwards, unless an
-- event says otherwise: an unknown node with the incarnation of the packet, a known one with the
-- incarnation that was known before. No other member changes, and the list stays consistent.
pub welcome-Sets :
    (period : ℕ) (x : Node) (n : NodeList)
    → IsConsistent n
    → equal n.self_addr x.address ≡ false
    → Sets n (hash x) (stabilised (added period x (view n (hash x)))) (welcome period x n)
unfolding welcome
welcome-Sets period x n c other =
    let entered = unsafe_add-Sets n c period x other in
    let stable = mark_stable-Sets (unsafe_add period x n) entered.consistent (hash x) in
    record {
      consistent = stable.consistent;
      changed = λ j. ground (arith, stable.changed j, entered.changed j, entered.changed (hash x));
    }

-- The own incarnation after a Pong, by how it compares with the last known one.
abbrev pub surpassed : Pong → ℕ → ℕ
surpassed m own = elim (compare own m.last_known_incarnation) [
  | Ordering.lt ↦ m.last_known_incarnation + 1
  | Ordering.eq ↦
      if m.is_last_state_known && is_accusing m.last_known_event_kind
      then m.last_known_incarnation + 1
      else own
  | Ordering.gt ↦ own
]

-- A Pong whose last known incarnation is below 65535 makes the own incarnation the next after it, if it
-- is higher than the own one, or is the own one and the last known event is a suspicion or a report of
-- a fault; otherwise the own incarnation stays.
pub receive_pong-surpassed :
    (sorter : Sorter) (m : Pong) (s : Server)
    → m.last_known_incarnation < 65535
    → (receive_pong sorter m s).incarnation ≡ surpassed m s.incarnation
unfolding receive_pong is_outdated increment_incarnation_to_surpass
receive_pong-surpassed sorter m s h = ground arith

pub welcome-IsWired :
    (host : Ip) (period : ℕ) (x : Node) (n : NodeList)
    → IsWired host n
    → IsWired host (welcome period x n)
unfolding welcome
welcome-IsWired host period x n w = record {
  consistent =
      (mark_stable-Sets (unsafe_add period x n) (unsafe_add-IsConsistent n w.consistent period x)
        (hash x)).consistent;
  own_address =
      mark_stable-self_addr (hash x) (unsafe_add period x n)
      ∙ unsafe_add-self_addr period x n
      ∙ w.own_address;
}

-- A Ping from anyone, its own address included, leaves a member list consistent and made for the own
-- address that was so before.
pub receive_ping-IsWired :
    (sorter : Sorter) (period : ℕ) (source : Ip) (incarnation : ℕ) (m : Ping) (s : Server)
    → IsWired s.host_address s.nodes.node_list
    → IsWired s.host_address (receive_ping sorter period source incarnation m s).0.nodes.node_list
unfolding receive_ping
receive_ping-IsWired sorter period source incarnation m s w =
    process_ping_events-IsWired sorter period m.events _
      (welcome-IsWired s.host_address period _ s.nodes.node_list w)
