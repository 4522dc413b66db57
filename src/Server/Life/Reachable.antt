-- ===== src/Server/Life/Reachable.antt =====
-- What holds in every state that a server of swim_server.go comes to.
use eswim.Base.{◌<◌, ◌≡◌, refl, sym, subst, arith}
use mathlib.Core.List.{Nodup-nil}
use eswim.Proto.Ip.{Ip}
use eswim.Proto.Message.{
  Message, bootstrap_request, bootstrap_response, bootstrap_ack, ping, pong, indirect_ping,
  indirect_pong, sync,
}
use eswim.Core.NodeList.{new_node_list}
use eswim.Core.NodeList.View.{new_node_list-IsConsistent}
use eswim.Core.NodeManager.{new_node_manager}
use eswim.Core.GossipManager.{new_gossip_manager}
use eswim.Core.RunLoop
use eswim.Core.RunLoop.{RunLoopPeriod, new_period, increment_id, end_period, start_period}
use eswim.Server.Datagrams.{perform_indirect_ping, expire_indirect_ping}
use eswim.Server.Life.{System, new_system, running_of, now, Step, Reach}
use eswim.Server.Life.Events.{IsSound}
use eswim.Server.Life.Periods.{start_period-IsSound, end_period-IsSound}
use eswim.Server.Life.Handlers.{
  handle_udp_control_message-IsSound, handle_tcp_packet-IsSound, after_reply-IsSound,
  handle_incoming_node_list-IsSound, perform_bootstrap_complete-IsSound,
}
use eswim.Core.RunLoop.Period.{start_period-id}
use eswim.Core.NodeList.View.{IsConsistent}
use eswim.Core.GossipManager.About.{IsUnique}
use eswim.Server.Loop.{Tuning, loop_delegate, Running}
use eswim.Core.RunLoop.{Settings}

handle_message-id : (m : Message) (r : RunLoopPeriod) → (RunLoop.handle_message m r).id ≡ r.id
unfolding RunLoop.handle_message
handle_message-id (ping m) r = refl
handle_message-id (pong m) r = ground arith
handle_message-id (indirect_ping m) r = refl
handle_message-id (indirect_pong m) r = ground arith
handle_message-id (sync m) r = refl
handle_message-id bootstrap_request r = refl
handle_message-id bootstrap_response r = refl
handle_message-id bootstrap_ack r = refl

end_period-le :
    (t : Tuning) (settings : Settings) (r : RunLoopPeriod) (x : Running)
    → (end_period (loop_delegate t) settings r x).0.id < 65535
unfolding end_period increment_id
end_period-le t settings r x = ground arith

module _ (host : Ip) where
  -- A server with its period, whose identifier is below 65535.
  record IsLiving (s : System) : Type 0 where
    sound : IsSound host s.server
    timed : s.period.id < 65535

  new_system-IsLiving : IsLiving (new_system host)
  unfolding new_system new_node_manager new_gossip_manager new_period new_node_list
  new_system-IsLiving = record {
    sound = record {
      own = refl;
      wired = record { consistent = new_node_list-IsConsistent host; own_address = refl };
      unique = Nodup-nil;
      bounded = omega arith;
    };
    timed = omega arith;
  }

  Step-IsLiving : {s s' : System} → Step s s' → IsLiving s → IsLiving s'
  Step-IsLiving {s = s} (Step.datagram u source bytes e) l = record {
    sound = handle_udp_control_message-IsSound host u s.period.id source bytes _ _ _ e l.sound;
    timed = l.timed;
  }
  Step-IsLiving (Step.indirect_ping random m p) l =
      unfold perform_indirect_ping in record { sound = l.sound; timed = l.timed }
  Step-IsLiving (Step.indirect_ping_over random period) l =
      unfold expire_indirect_ping in record { sound = l.sound; timed = l.timed }
  Step-IsLiving {s = s} (Step.frame u source f e) l = record {
    sound = handle_tcp_packet-IsSound host (now u s) source f _ _ _ e l.sound;
    timed = l.timed;
  }
  Step-IsLiving {s = s} (Step.sync_reply u r e) l = record {
    sound =
        after_reply-IsSound host (now u s) 1 _
          (λ m. handle_incoming_node_list-IsSound host (now u s) m.nodes) r _ _ e l.sound;
    timed = l.timed;
  }
  Step-IsLiving {s = s} (Step.bootstrap_reply u target r e) l = record {
    sound =
        after_reply-IsSound host (now u s) 3 _
          (λ m. perform_bootstrap_complete-IsSound host (now u s) target) r _ _ e l.sound;
    timed = l.timed;
  }
  Step-IsLiving (Step.bootstrap_source source) l = record { sound = l.sound; timed = l.timed }
  Step-IsLiving (Step.bootstrap_response received) l = record { sound = l.sound; timed = l.timed }
  Step-IsLiving (Step.bootstrap_taken left fewer) l = record { sound = l.sound; timed = l.timed }
  Step-IsLiving {s = s} (Step.period_start t settings random) l = record {
    sound = start_period-IsSound host t settings random s.period (running_of s) l.sound;
    timed =
        subst (λ n. n < 65535)
          (sym (start_period-id (loop_delegate t) settings random s.period (running_of s))) l.timed;
  }
  Step-IsLiving {s = s} (Step.period_message m) l = record {
    sound = l.sound;
    timed = subst (λ n. n < 65535) (sym (handle_message-id m s.period)) l.timed;
  }
  Step-IsLiving {s = s} (Step.period_end t settings) l = record {
    sound = end_period-IsSound host t settings s.period (running_of s) l.sound;
    timed = end_period-le t settings s.period (running_of s);
  }

  Reach-IsLiving : {s : System} → Reach host s → IsLiving s
  Reach-IsLiving Reach.start = new_system-IsLiving
  Reach-IsLiving (Reach.step r st) = Step-IsLiving st (Reach-IsLiving r)

-- Whatever datagrams, frames, answers and periods a server goes through, in whatever order, since it was
-- started at the address `host`: it keeps that address, and so does its member list; the three maps
-- of the list agree; the queue has at most one event about each node; the own incarnation is a
-- uint16; and the identifier of the period stays below 65535.
pub Reach-IsSound :
    (host : Ip) (s : System)
    → Reach host s
    → (s.server.host_address ≡ host)
      × IsConsistent s.server.nodes.node_list
      × (s.server.nodes.node_list.self_addr ≡ host)
      × IsUnique s.server.gossip.queue
      × (s.server.incarnation < 65536)
      × (s.period.id < 65535)
Reach-IsSound host s r =
    let l = Reach-IsLiving host r in
    let i = l.sound in
    (i.own, i.wired.consistent, i.wired.own_address, i.unique, i.bounded, l.timed)
