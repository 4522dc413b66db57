-- ===== src/Tests/Lives.antt =====
-- A server that gets a Ping and ends a period, and a turn that is measured.
use eswim.Base.{ℕ, ◌%◌, ◌≡◌, ◌<◌, refl, true, false, some, List, [], ◌∷◌, arith}
use eswim.Proto.NetIp.{ip_from_net_ip}
use eswim.Proto.Message.{Pong, pong}
use eswim.Core.Ascon.{keyed}
use eswim.Core.NodeList.View.{IsConsistent}
use eswim.Core.GossipManager.About.{IsUnique}
use eswim.Core.SyncManager.{set_bootstrap_source}
use eswim.Core.RunLoop.{Settings, Happening, incoming, new_period}
use eswim.Core.RunLoop.Adaptive.{TDigest, Measuring, turn_measured}
use eswim.Core.RunLoop.Adaptive.Measures.{waited, turn_measured-round_trip}
use eswim.Server.Messages.{receive_ping}
use eswim.Server.Datagrams.Relay.{handle_udp_control_message-receive_ping}
use eswim.Server.Syncs.{Surroundings}
use eswim.Server.Loop.{Running, loop_delegate}
use eswim.Server.Life.{System, new_system, host_of, with_host, Step, Reach}
use eswim.Server.Life.Reachable.{Reach-IsSound}
use eswim.Tests.Wire.{here}
use eswim.Tests.Packets.{pinged, pinged-IsWire, toy, key, some_nonce, key-made}
use eswim.Tests.Members.{node_a, unchanged, unsorted}
use eswim.Tests.Servers.{from_there, sealed_ping, sealed, running, tuning, probed, node_a-valid}

abbrev surroundings : Surroundings
surroundings = record {
  cipher = toy;
  ascon = keyed key;
  nonce = some some_nonce;
  sorter = unsorted;
  order = unchanged;
  shuffle = unchanged;
  period = 0;
}

abbrev begun : System
begun = record (new_system here) { accept_bootstrap_from = from_there }

abbrev after_ping : System
after_ping =
    with_host
      (record (host_of begun) {
        server =
            (receive_ping unsorted begun.period.id (ip_from_net_ip from_there) 9 pinged
              begun.server).0;
      })
      begun

after_ping-reached : Reach here after_ping
unfolding set_bootstrap_source
after_ping-reached = Reach.step (Reach.step Reach.start (Step.bootstrap_source from_there)) (
    Step.datagram surroundings from_there sealed_ping (
      handle_udp_control_message-receive_ping toy key some_nonce (keyed key) key-made refl 9
        (omega arith) unsorted begun.period.id from_there sealed_ping pinged (host_of begun)
        pinged-IsWire sealed))

Reach-IsSound_example :
    (after_ping.server.host_address ≡ here)
    × IsConsistent after_ping.server.nodes.node_list
    × (after_ping.server.nodes.node_list.self_addr ≡ here)
    × IsUnique after_ping.server.gossip.queue
    × (after_ping.server.incarnation < 65536)
    × (after_ping.period.id < 65535)
Reach-IsSound_example = Reach-IsSound here after_ping after_ping-reached

abbrev answering : ℕ → ℕ → Pong
answering cookie period = record {
  ack = true;
  cookie = cookie;
  period = period;
  is_last_state_known = false;
  last_known_incarnation = 0;
  last_known_event_kind = 0;
}

-- A digest that is the list of its values.
abbrev listed : TDigest (List ℕ)
listed = record { add = λ n ns. n ∷ ns; is_empty = λ ns. false; quantile = λ ns. 40 }

abbrev settings : Settings
settings = record { udp_max_len = 508; sync_proto_rounds = 0 }

abbrev measuring : Measuring (List ℕ)
measuring = record { adaptive_pings = true; ping_timestamps = []; t_digest = [] }

-- A Pong after thirty milliseconds, that of another period before it.
abbrev happenings : List (ℕ × Happening Running)
happenings =
    (10000000, incoming (pong (answering 77 8))) ∷ (30000000, incoming (pong (answering 77 1))) ∷ []

turn_measured-round_trip_example :
    (turn_measured listed
      (loop_delegate tuning)
      settings
      77
      0
      happenings
      new_period
      measuring
      running).0.1
    ≡ waited listed (loop_delegate tuning) new_period.id (77 % 65536) 0 [] happenings
turn_measured-round_trip_example =
    turn_measured-round_trip listed (loop_delegate tuning) settings 77 0 happenings new_period
      running node_a [] probed node_a-valid
