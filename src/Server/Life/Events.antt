-- ===== src/Server/Life/Events.antt =====
-- What the messages of other servers leave of a server's state: the Ping and Pong cases of swim_server.go.
use eswim.Base.{
  true, false, Bool, ℕ, ◌<◌, ◌≡◌, refl, sym, subst, ◌∙◌, Option, none, some, List, [], ◌∷◌, arith,
  Bool-cases, inl, inr, if◌then◌else◌,
}
use eswim.Proto.Ip.{Ip}
use eswim.Proto.Event.{Event, alive}
use eswim.Proto.Message.{Ping, Pong}
use eswim.Core.GossipManager.{Sorter, add}
use eswim.Core.GossipManager.About.{IsUnique}
use eswim.Core.GossipManager.Adding.{add-IsUnique}
use eswim.Server.{
  Server, Tally, is_event_local, increment_incarnation_to_surpass, process_event, process_loop,
  process_ping_events,
}
use eswim.Server.Incarnation.{increment_incarnation_to_surpass-alive}
use eswim.Server.Events.{IsWired}
use eswim.Proto.Node.{Node}
use eswim.Server.Messages.{is_outdated, receive_ping, receive_pong, receive_ping-IsWired, welcome}

-- The server keeps its address, its member list is consistent and made for that address, its queue
-- has at most one event about each node, and its incarnation is a uint16.
pub record IsSound (host : Ip) (s : Server) : Type 0 where
  pub own : s.host_address ≡ host
  pub wired : IsWired host s.nodes.node_list
  pub unique : IsUnique s.gossip.queue
  pub bounded : s.incarnation < 65536

-- What an operation may not touch, but for the queue, which stays one of an event for each node.
pub record IsQuiet (s s' : Server) : Type 0 where
  pub host_kept : s'.host_address ≡ s.host_address
  pub bound_kept : s.incarnation < 65536 → s'.incarnation < 65536
  pub unique_kept : IsUnique s.gossip.queue → IsUnique s'.gossip.queue

module _ (sorter : Sorter) where
  increment-IsQuiet :
      (last : ℕ) (s : Server) → IsQuiet s (increment_incarnation_to_surpass sorter last s)
  increment-IsQuiet last s =
      subst (IsQuiet s) (sym (increment_incarnation_to_surpass-alive sorter last s)) (record {
        host_kept = refl;
        bound_kept = λ h. omega arith;
        unique_kept = λ u. add-IsUnique sorter _ s.gossip u;
      })

  heard-IsQuiet : (e : Event) (s : Server) → IsQuiet s (record s { gossip = add sorter e s.gossip })
  heard-IsQuiet e s = record {
    host_kept = refl;
    bound_kept = λ h. h;
    unique_kept = λ u. add-IsUnique sorter e s.gossip u;
  }

  process_event-IsQuiet :
      (period : ℕ) (e : Event) (p : Tally × Server)
      → IsQuiet p.1 (process_event sorter period e p).1
  unfolding process_event
  process_event-IsQuiet period e (t, s) = elim (Bool-cases (is_event_local e s)) [
    | inl own ↦ rw (own) (heard-IsQuiet e s)
    | inr other ↦ rw (other) (record {
      host_kept = refl;
      bound_kept = λ h. h;
      unique_kept = λ u. add-IsUnique sorter e s.gossip u;
    })
  ]

  IsQuiet-trans : {s t u : Server} → IsQuiet s t → IsQuiet t u → IsQuiet s u
  IsQuiet-trans q r = record {
    host_kept = r.host_kept ∙ q.host_kept;
    bound_kept = λ h. r.bound_kept (q.bound_kept h);
    unique_kept = λ u. r.unique_kept (q.unique_kept u);
  }

  process_loop-IsQuiet :
      (period : ℕ) (es : List Event) (p : Tally × Server)
      → IsQuiet p.1 (process_loop sorter period es p).1
  unfolding process_loop
  process_loop-IsQuiet period [] p = record {
    host_kept = refl;
    bound_kept = λ h. h;
    unique_kept = λ u. u;
  }
  process_loop-IsQuiet period (e ∷ es) p =
      IsQuiet-trans (process_event-IsQuiet period e p)
        (process_loop-IsQuiet period es (process_event sorter period e p))

  abbrev untold : Tally
  untold = record { last_incarnation = none; reannounce = false }

  -- The end of `processPingEvents`.
  abbrev reannounced : Tally × Server → Server
  reannounced (t, s) = elim t.last_incarnation [
    | some last ↦ increment_incarnation_to_surpass sorter last s
    | none ↦
        if t.reannounce
        then record s {
          gossip =
              add sorter (alive (record { subject = s.host_address; incarnation = s.incarnation }))
                s.gossip;
        }
        else s
  ]

  reannounced-IsQuiet : (p : Tally × Server) → IsQuiet p.1 (reannounced p)
  reannounced-IsQuiet (t, s) = go t.last_incarnation t.reannounce
    where
      go :
          (last : Option ℕ) (again : Bool)
          → IsQuiet s (reannounced (record { last_incarnation = last; reannounce = again }, s))
      go (some last) again = increment-IsQuiet last s
      go none true = heard-IsQuiet _ s
      go none false = record { host_kept = refl; bound_kept = λ h. h; unique_kept = λ u. u }

  process_ping_events-IsQuiet :
      (period : ℕ) (es : List Event) (s : Server)
      → IsQuiet s (process_ping_events sorter period es s)
  unfolding process_ping_events
  process_ping_events-IsQuiet period es s =
      IsQuiet-trans (process_loop-IsQuiet period es (untold, s))
        (reannounced-IsQuiet (process_loop sorter period es (untold, s)))

  receive_ping-IsQuiet :
      (period : ℕ) (source : Ip) (incarnation : ℕ) (m : Ping) (s : Server)
      → IsQuiet s (receive_ping sorter period source incarnation m s).0
  unfolding receive_ping
  receive_ping-IsQuiet period source incarnation m s =
      let x : Node = record { suspect = false; incarnation = incarnation; address = source } in
      let s' : Server = record s {
        nodes = record (s.nodes) { node_list = welcome period x s.nodes.node_list };
      } in
      let q = process_ping_events-IsQuiet period m.events s' in
      record { host_kept = q.host_kept; bound_kept = q.bound_kept; unique_kept = q.unique_kept }

  receive_pong-IsQuiet : (m : Pong) (s : Server) → IsQuiet s (receive_pong sorter m s)
  unfolding receive_pong
  receive_pong-IsQuiet m s = elim (Bool-cases (is_outdated m s.incarnation)) [
    | inl old ↦ rw (old) (increment-IsQuiet m.last_known_incarnation s)
    | inr new ↦ rw (new) (record { host_kept = refl; bound_kept = λ h. h; unique_kept = λ u. u })
  ]

  receive_pong-nodes : (m : Pong) (s : Server) → (receive_pong sorter m s).nodes ≡ s.nodes
  unfolding receive_pong increment_incarnation_to_surpass
  receive_pong-nodes m s = ground arith

  module _ (host : Ip) (s : Server) (i : IsSound host s) where
    quiet-IsSound : (s' : Server) → IsQuiet s s' → IsWired host s'.nodes.node_list → IsSound host s'
    quiet-IsSound s' q w = record {
      own = q.host_kept ∙ i.own;
      wired = w;
      unique = q.unique_kept i.unique;
      bounded = q.bound_kept i.bounded;
    }

    pub receive_ping-IsSound :
        (period : ℕ) (source : Ip) (incarnation : ℕ) (m : Ping)
        → IsSound host (receive_ping sorter period source incarnation m s).0
    receive_ping-IsSound period source incarnation m =
        quiet-IsSound _ (receive_ping-IsQuiet period source incarnation m s) (
          subst
            (λ ip. IsWired ip (receive_ping sorter period source incarnation m s).0.nodes.node_list)
            i.own
            (receive_ping-IsWired sorter period source incarnation m s
              (subst (λ ip. IsWired ip s.nodes.node_list) (sym i.own) i.wired)))

    pub receive_pong-IsSound : (m : Pong) → IsSound host (receive_pong sorter m s)
    receive_pong-IsSound m =
        quiet-IsSound _ (receive_pong-IsQuiet m s)
          (subst (λ n. IsWired host n.node_list) (sym (receive_pong-nodes m s)) i.wired)
