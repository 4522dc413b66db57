-- ===== src/Server/Messages/Pings.antt =====
-- What a Ping does to the members, and what answers it, in swim_server.go.
use eswim.Base.{ℕ, ◌==◌, ◌≡◌, refl, true, false, Option, none, some, ite, Option-cases, inl, inr}
use eswim.Proto.Ip.{Ip, NodeHash, NodeHash-discrete, into_hash}
use eswim.Proto.Node.{Node}
use eswim.Proto.Event.{Event, event_kind, get_incarnation}
use eswim.Proto.EventDecoder.{kind_code}
use eswim.Proto.Message.{Ping, Pong}
use eswim.Core.NodeList.View.{Member}
use eswim.Core.NodeList.Refinement.{stabilised, added}
use eswim.Core.GossipManager.{last_gossip_about}
use eswim.Server.{Server}
use eswim.Server.Events.Effects.{heard_all}
use eswim.Server.Messages.{answer_ping}

-- What a Ping from `source` makes of the member under the hash `j`: the sender is stable, entered if it was
-- unknown, and then the events are taken in.
abbrev pub greeted : ℕ → Ip → Ip → ℕ → Ping → NodeHash → (NodeHash → Member) → Member
greeted period host source incarnation m j before =
    let x : Node = record { suspect = false; incarnation = incarnation; address = source } in
    heard_all period host j m.events (
      ite (NodeHash-discrete j (into_hash source))
        (stabilised (added period x (before (into_hash source)))) (before j))

-- The fields of a Pong that tell of an event, if there is one.
abbrev pub Tells : Option Event → Pong → Type 0
Tells none answer = answer.is_last_state_known ≡ false
Tells (some e) answer =
    (answer.is_last_state_known ≡ true)
    × (answer.last_known_incarnation ≡ get_incarnation e)
    × (answer.last_known_event_kind ≡ kind_code (event_kind e))

-- The Pong that answers a Ping at a server: it repeats its cookie and its period, is an acknowledgement
-- if the Ping was meant for the incarnation of the server, and tells of the last event about the sender.
pub record Answers (source : Ip) (m : Ping) (s : Server) (answer : Pong) : Type 0 where
  pub same_cookie : answer.cookie ≡ m.cookie
  pub same_period : answer.period ≡ m.period
  pub acked : answer.ack ≡ (m.target_incarnation == s.incarnation)
  pub told : Tells (last_gossip_about source s.gossip) answer

pub answer_ping-Answers :
    (source : Ip) (m : Ping) (s : Server) → Answers source m s (answer_ping source m s)
unfolding answer_ping
answer_ping-Answers source m s = elim (Option-cases (last_gossip_about source s.gossip)) [
  | inl unknown ↦
      rw (unknown, answer_ping)
        (record { same_cookie = refl; same_period = refl; acked = refl; told = rw (unknown) refl })
  | inr (e, known) ↦
      rw (known, answer_ping)
        (record {
          same_cookie = refl;
          same_period = refl;
          acked = refl;
          told = rw (known) (refl, refl, refl);
        })
]
