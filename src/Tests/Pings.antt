-- ===== src/Tests/Pings.antt =====
-- A server at the incarnation 4, and a Ping that accuses it and reports another node.
use eswim.Base.{◌≤◌, ◌<◌, ◌≡◌, refl, inl, inr, [], ◌∷◌, List, arith, bytes_equal}
use eswim.Base.Int.{pos}
use eswim.Proto.Ip.{Ip, equal, into_hash}
use eswim.Proto.Event.{Event, alive, suspect, get_incarnation, get_subject, event_kind}
use eswim.Core.NodeList.{new_node_list}
use eswim.Core.NodeList.View.{new_node_list-IsConsistent}
use eswim.Core.NodeManager.{new_node_manager}
use eswim.Core.GossipManager.{Sorter, new_gossip_manager, add}
use eswim.Server.{Server, increment_incarnation_to_surpass, process_ping_events}
use eswim.Server.Incarnation.{
  AllBelow, Accuses, increment_incarnation_to_surpass-alive, process_ping_events-le,
  process_ping_events-refutes,
}
use eswim.Server.Events.{IsWired}
use eswim.Server.Events.Effects.{heard_all, process_ping_events-view}
use eswim.Base.{true}
use eswim.Proto.Message.{Ping, Pong}
use eswim.Core.NodeList.View.{view}
use eswim.Server.Messages.{receive_pong, surpassed, receive_pong-surpassed}
use mathlib.Core.List.Perm

abbrev here : Ip
here = record { address_kind = 0; address_bytes = 10 ∷ 0 ∷ 0 ∷ 1 ∷ [] }

abbrev there : Ip
there = record { address_kind = 0; address_bytes = 10 ∷ 0 ∷ 0 ∷ 2 ∷ [] }

abbrev unsorted : Sorter
unsorted = record { apply = λ l. l; apply-perm = λ l. Perm.refl l }

abbrev server : Server
server = record {
  host_address = here;
  incarnation = 4;
  nodes = new_node_manager here;
  gossip = new_gossip_manager (pos 1);
}

abbrev heard : List Event
heard =
    alive (record { subject = there; incarnation = 9 })
    ∷ suspect (record { source = there; subject = here; incarnation = 6 })
    ∷ []

heard-AllBelow : AllBelow heard
unfolding get_incarnation
heard-AllBelow = (omega arith, (omega arith, tt))

heard-Accuses : Accuses here 4 heard
unfolding get_incarnation get_subject event_kind equal bytes_equal
heard-Accuses = inr (inl (refl, refl, omega arith))

server-IsWired : IsWired server.host_address server.nodes.node_list
unfolding new_node_manager new_node_list
server-IsWired = record { consistent = new_node_list-IsConsistent here; own_address = refl }

increment_incarnation_to_surpass-alive_example :
    increment_incarnation_to_surpass unsorted 65535 server ≡ record server {
      incarnation = 0;
      gossip = add unsorted (alive (record { subject = here; incarnation = 0 })) server.gossip;
    }
increment_incarnation_to_surpass-alive_example =
    increment_incarnation_to_surpass-alive unsorted 65535 server

process_ping_events-le_example : 4 ≤ (process_ping_events unsorted 8 heard server).incarnation
process_ping_events-le_example = process_ping_events-le unsorted 8 heard server heard-AllBelow

process_ping_events-refutes_example : 4 < (process_ping_events unsorted 8 heard server).incarnation
process_ping_events-refutes_example =
    process_ping_events-refutes unsorted 8 heard server heard-AllBelow heard-Accuses

process_ping_events-view_example :
    view (process_ping_events unsorted 8 heard server).nodes.node_list (into_hash there)
    ≡ heard_all 8 here (into_hash there) heard (view server.nodes.node_list (into_hash there))
process_ping_events-view_example =
    process_ping_events-view unsorted 8 heard server (into_hash there) server-IsWired

abbrev accusing : Pong
accusing = record {
  ack = true;
  cookie = 5;
  period = 8;
  is_last_state_known = true;
  last_known_incarnation = 4;
  last_known_event_kind = 2;
}

-- A Ping of the sender, which itself is said to be suspect.
abbrev pinging : Ping
pinging = record {
  cookie = 5;
  period = 8;
  target_incarnation = 4;
  events = suspect (record { source = here; subject = there; incarnation = 2 }) ∷ [];
}

receive_pong-surpassed_example :
    (receive_pong unsorted accusing server).incarnation ≡ surpassed accusing 4
receive_pong-surpassed_example = receive_pong-surpassed unsorted accusing server (omega arith)
