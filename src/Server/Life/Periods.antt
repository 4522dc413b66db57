-- ===== src/Server/Life/Periods.antt =====
-- What a protocol period leaves of a server's state: the methods that the loop calls on swim_server.go.
use eswim.Base.{
  ℕ, zero, suc, ◌<◌, ◌≡◌, refl, sym, ap, subst, ◌∙◌, Bool, true, false, Option, none, some, List,
  [], ◌∷◌, ◌++◌, map, drop, arith, Option-cases, inl, inr, ite, if◌then◌else◌,
}
use mathlib.Core.List.{Nodup, Nodup-cons}
use mathlib.Core.List.Perm
use eswim.Proto.Ip.{Ip, NodeHash, NodeHash-discrete, hash_zero}
use eswim.Core.GossipManager.{GossipItem, GossipManager, Sorter, next}
use eswim.Core.GossipManager.About.{IsUnique, subject}
use eswim.Core.GossipManager.Sending.{next-Sends, worn, last_times}
use eswim.Proto.Node.{Node, hash}
use eswim.Core.NodeList.{
  NodeList, Reordering, look, keys, mark_faulty, expired_suspects, mark_stable, expired_loop,
}
use eswim.Core.NodeList.Refinement.{mark_stable-Sets}
use eswim.Core.NodeManager
use eswim.Core.GossipManager.Adding.{add-IsUnique}
use eswim.Server.{
  Server, signal_healthy_node, signal_suspect_node, announce_faulty, process_expired_suspects,
}
use eswim.Server.Events.{
  IsWired, mark_stable-self_addr, mark_suspect-self_addr, mark_faulty-self_addr,
  mark_faulty-IsWired,
}
use eswim.Server.Signals.{accused, signal_suspect_node-Sets}
use eswim.Core.NodeList.Expiry.{expired_suspects_lem}
use eswim.Core.RunLoop.{RunLoopPeriod, Settings, start_period, end_period, synced, signalled}
use eswim.Server.Loop.{
  Running, Tuning, loop_delegate, sync_with_next, next_probe_subject, gossip_events,
  dispatch_message,
}
use eswim.Server.Loop.Turns.{start_period-members}
use eswim.Core.NodeManager.{next_ping}
use eswim.Server.Life.Events.{IsSound}

Nodup-drop : {A : Type 0} (n : ℕ) (l : List A) → Nodup l → Nodup (drop n l)
Nodup-drop zero l u = u
Nodup-drop (suc n) [] u = u
Nodup-drop (suc n) (x ∷ l) u = Nodup-drop n l (Nodup-cons.0 u).1

map-drop : {A B : Type 0} (f : A → B) (n : ℕ) (l : List A) → map f (drop n l) ≡ drop n (map f l)
map-drop f zero l = refl
map-drop f (suc n) [] = refl
map-drop f (suc n) (x ∷ l) = map-drop f n l

subject-worn : (l m : List GossipItem) → map subject (map worn l ++ m) ≡ map subject (l ++ m)
subject-worn [] m = refl
subject-worn (v ∷ l) m = ground (arith, subject-worn l m)

-- The events that `Next` keeps are about different nodes if those of the queue were.
next-IsUnique :
    (sorter : Sorter) (max : ℕ) (g : GossipManager)
    → IsUnique g.queue
    → IsUnique (next sorter max g).0.queue
next-IsUnique sorter max g u =
    let s = next-Sends sorter max g in
    Perm.nodup (Perm.symm (Perm.map subject s.left)) (
      subst Nodup
        (sym (
          map-drop subject (last_times s.sent) (map worn s.sent ++ s.kept)
          ∙ ap (drop (last_times s.sent))
              (subject-worn s.sent s.kept ∙ ap (map subject) (sym s.all))))
        (Nodup-drop (last_times s.sent) (map subject g.queue) u))

module _ (host : Ip) where
  mark_stable-IsWired :
      (h : NodeHash) (n : NodeList) → IsWired host n → IsWired host (mark_stable h n)
  mark_stable-IsWired h n w = record {
    consistent = (mark_stable-Sets n w.consistent h).consistent;
    own_address = mark_stable-self_addr h n ∙ w.own_address;
  }

  signal_healthy_node-IsSound :
      (h : NodeHash) (s : Server) → IsSound host s → IsSound host (signal_healthy_node h s)
  unfolding signal_healthy_node
  signal_healthy_node-IsSound h s i = record {
    own = i.own;
    wired = mark_stable-IsWired h s.nodes.node_list i.wired;
    unique = i.unique;
    bounded = i.bounded;
  }

  module _ (sorter : Sorter) where
    accused-IsUnique :
        (ip : Ip) (o : Option Node) (g : GossipManager)
        → IsUnique g.queue
        → IsUnique (accused sorter ip o g).queue
    accused-IsUnique ip none g u = u
    accused-IsUnique ip (some x) g u = add-IsUnique sorter _ g u

    signal_suspect_node-kept :
        (period : ℕ) (h : NodeHash) (s : Server)
        → ((signal_suspect_node sorter period h s).host_address ≡ s.host_address)
          × ((signal_suspect_node sorter period h s).incarnation ≡ s.incarnation)
          × ((signal_suspect_node sorter period h s).nodes.node_list.self_addr
              ≡ s.nodes.node_list.self_addr)
    unfolding signal_suspect_node
    signal_suspect_node-kept period h s =
        let e = mark_suspect-self_addr period false h s.nodes.node_list in
        (ground arith, ground arith, ground (arith, e))

    signal_suspect_node-IsSound :
        (period : ℕ) (h : NodeHash) (s : Server)
        → IsSound host s
        → IsSound host (signal_suspect_node sorter period h s)
    signal_suspect_node-IsSound period h s i =
        let (sets, queue) = signal_suspect_node-Sets sorter period h s i.wired.consistent in
        let (same_host, same_incarnation, same_self) = signal_suspect_node-kept period h s in
        record {
          own = same_host ∙ i.own;
          wired = record {
            consistent = sets.consistent;
            own_address = same_self ∙ i.wired.own_address;
          };
          unique =
              subst (λ g. IsUnique g.queue) (sym queue)
                (accused-IsUnique s.host_address _ s.gossip i.unique);
          bounded = subst (λ n. n < 65536) (sym same_incarnation) i.bounded;
        }

    announce_faulty-IsSound :
        (ns : List Node) (s : Server) → IsSound host s → IsSound host (announce_faulty sorter ns s)
    unfolding announce_faulty NodeManager.mark_faulty
    announce_faulty-IsSound [] s i = i
    announce_faulty-IsSound (n ∷ ns) s i = announce_faulty-IsSound ns _ (record {
      own = i.own;
      wired = mark_faulty-IsWired host 0 (hash n) s.nodes.node_list i.wired;
      unique = add-IsUnique sorter _ s.gossip i.unique;
      bounded = i.bounded;
    })

    expired_loop-self_addr :
        (current rounds : ℕ) (hs : List NodeHash) (n : NodeList) (found : List Node)
        → (expired_loop current rounds hs n found).0.self_addr ≡ n.self_addr
    unfolding expired_loop
    expired_loop-self_addr current rounds [] n found = refl
    expired_loop-self_addr current rounds (h ∷ hs) n found =
        let kept = expired_loop-self_addr current rounds hs n found in
        let removed = expired_loop-self_addr current rounds hs (mark_faulty h n) found in
        let faulty = mark_faulty-self_addr h n in
        elim (Option-cases (look h n.suspects)) [
          | inl unknown ↦ rw (unknown, expired_loop) kept
          | inr (x, here) ↦
              let listed = expired_loop-self_addr current rounds hs n (found ++ (x.node ∷ [])) in
              ground (arith, here, kept, removed, faulty, listed)
        ]

    process_expired_suspects-IsSound :
        (order : Reordering) (rounds period : ℕ) (s : Server)
        → IsSound host s
        → IsSound host (process_expired_suspects sorter order rounds period s)
    unfolding process_expired_suspects expired_suspects
    process_expired_suspects-IsSound order rounds period s i =
        let (rest, expired) = expired_suspects order period rounds s.nodes.node_list in
        announce_faulty-IsSound expired (record s { nodes = record (s.nodes) { node_list = rest } })
          (record {
            own = i.own;
            wired = record {
              consistent =
                  (expired_suspects_lem period rounds order s.nodes.node_list i.wired.consistent).0;
              own_address =
                  expired_loop-self_addr period rounds
                    (order.apply (keys s.nodes.node_list.suspects)) s.nodes.node_list []
                  ∙ i.wired.own_address;
            };
            unique = i.unique;
            bounded = i.bounded;
          })

  module _ (t : Tuning) (settings : Settings) where
    start_period-kept :
        (random : ℕ) (r : RunLoopPeriod) (s : Running)
        → let s' = (start_period (loop_delegate t) settings random r s).1.server in
          (s'.host_address ≡ s.server.host_address)
          × (s'.incarnation ≡ s.server.incarnation)
          × (IsUnique s.server.gossip.queue → IsUnique s'.gossip.queue)
    unfolding start_period loop_delegate next_probe_subject gossip_events dispatch_message
    start_period-kept random r s =
        elim (Option-cases (next_ping t.order t.shuffle s.server.nodes).1) [
          | inl nobody ↦ rw (nobody, start_period) (refl, refl, λ u. u)
          | inr (n, probed) ↦
              rw (probed, start_period)
                (refl, refl, λ u. next-IsUnique t.sorter _ s.server.gossip u)
        ]

    pub start_period-IsSound :
        (random : ℕ) (r : RunLoopPeriod) (s : Running)
        → IsSound host s.server
        → IsSound host (start_period (loop_delegate t) settings random r s).1.server
    start_period-IsSound random r s i =
        let (same_host, same_incarnation, queue) = start_period-kept random r s in
        record {
          own = same_host ∙ i.own;
          wired = subst (IsWired host) (sym (start_period-members t settings random r s)) i.wired;
          unique = queue i.unique;
          bounded = subst (λ n. n < 65536) (sym same_incarnation) i.bounded;
        }

    synced-server :
        (id : ℕ) (s : Running) → (synced (loop_delegate t) settings id s).server ≡ s.server
    unfolding synced loop_delegate sync_with_next
    synced-server id s = ground arith

    signalled-IsSound :
        (r : RunLoopPeriod) (s : Running)
        → IsSound host s.server
        → IsSound host (signalled (loop_delegate t) settings r s).server
    unfolding signalled loop_delegate
    signalled-IsSound r s i = unless_zero (NodeHash-discrete r.node hash_zero)
      where
        judged :
            (b : Bool)
            → IsSound host
                (if b
                  then (loop_delegate t).signal_healthy_node r.node s
                  else (loop_delegate t).signal_suspect_node r.id r.node s).server
        judged true = signal_healthy_node-IsSound r.node s.server i
        judged false = signal_suspect_node-IsSound t.sorter r.id r.node s.server i

        unless_zero :
            (d : Dec (r.node ≡ hash_zero))
            → IsSound host
                (ite d s (
                  if r.acked
                  then (loop_delegate t).signal_healthy_node r.node s
                  else (loop_delegate t).signal_suspect_node r.id r.node s)).server
        unless_zero (yes e) = i
        unless_zero (no ne) = judged r.acked

    pub end_period-IsSound :
        (r : RunLoopPeriod) (s : Running)
        → IsSound host s.server
        → IsSound host (end_period (loop_delegate t) settings r s).1.server
    unfolding end_period loop_delegate
    end_period-IsSound r s i = subst (IsSound host) (sym (synced-server _ _)) (
        process_expired_suspects-IsSound t.sorter t.order t.suspect_periods r.id _
          (signalled-IsSound r s i))
