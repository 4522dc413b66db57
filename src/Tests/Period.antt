-- ===== src/Tests/Period.antt =====
-- A protocol period whose delegate writes down what it is told.
use eswim.Base.{ℕ, ◌≡◌, false, some, List, [], ◌∷◌}
use eswim.Proto.Node.{Node}
use eswim.Proto.Message.{indirect_pong}
use eswim.Core.RunLoop.{Delegate, Settings, Happening, ping_timeout, incoming, new_period}
use eswim.Core.RunLoop.Period.{turns, turns-new_period}

-- What the delegate was told: 1 healthy, 2 suspect, 3 expired suspects, 4 full sync, 5 a message.
abbrev peer : Node
peer = record {
  suspect = false;
  incarnation = 3;
  address = record { address_kind = 0; address_bytes = 10 ∷ 0 ∷ 0 ∷ 2 ∷ [] };
}

abbrev recorder : Delegate (List ℕ)
recorder = record {
  next_probe_subject = λ s. (s, some peer);
  gossip_events = λ max s. (s, []);
  dispatch_message = λ to m s. 5 ∷ s;
  signal_healthy_node = λ h s. 1 ∷ s;
  signal_suspect_node = λ period h s. 2 ∷ s;
  process_expired_suspects = λ period s. 3 ∷ s;
  ping_timeout_setting = λ s. 1000000000;
  indirect_ping_members = λ h s. [];
  node_by_hash = λ h s. some peer;
  perform_full_sync = λ s. 4 ∷ s;
}

abbrev settings : Settings
settings = record { udp_max_len = 508; sync_proto_rounds = 2 }

-- Period 1 with the cookie 77: the timeout passes, and then an indirect answer comes.
abbrev late_answer : List (Happening (List ℕ))
late_answer = ping_timeout ∷ incoming (indirect_pong (record { cookie = 77; period = 1 })) ∷ []

turns-new_period_example :
    (turns recorder settings ((9, []) ∷ (77, late_answer) ∷ []) (new_period, [])).0.id ≡ 3
turns-new_period_example = turns-new_period recorder settings ((9, []) ∷ (77, late_answer) ∷ []) []
