-- ===== src/Server/Events.antt =====
-- The members after the events of a Ping, in swim_server.go.
pub mod Effects
use eswim.Base.{
  subst, ℕ, ◌≡◌, refl, sym, ◌∙◌, Bool, true, false, Option, none, some, List, [], ◌∷◌, arith, ltb,
  Bool-cases, inl, inr, if◌then◌else◌,
}
use eswim.Proto.Ip.{Ip, NodeHash, equal, into_hash}
use eswim.Proto.Ip.Equal.{equal_iff}
use eswim.Proto.Node.{Node, hash}
use eswim.Proto.Event.{Event, join, healthy, suspect, faulty, left, alive, wrap, get_subject}
use eswim.Core.NodeList.{
  NodeList, unsafe_add, insert_stable, insert_suspect, take_and_delete, mark_stable, mark_suspect,
  mark_faulty, delete, node_by_ip, node_by_hash,
}
use eswim.Core.NodeList.View.{IsConsistent}
use eswim.Core.NodeList.Refinement.{mark_faulty-Sets, delete-Sets}
use eswim.Core.NodeManager
use eswim.Core.NodeManager.{
  NodeManager, set_incarnation, update_list, wrap_list, update_or_create, wrap_incarnation,
}
use eswim.Core.NodeManager.Update.{update_list-Sets}
use eswim.Core.NodeManager.Update.Wrap.{wrap_list-Sets}
use eswim.Core.GossipManager.{Sorter}
use eswim.Server.{
  Server, Tally, is_event_local, apply_event, increment_incarnation_to_surpass, process_event,
  process_loop, process_ping_events,
}

pub unsafe_add-self_addr :
    (period : ℕ) (x : Node) (n : NodeList) → (unsafe_add period x n).self_addr ≡ n.self_addr
unfolding unsafe_add insert_stable insert_suspect
unsafe_add-self_addr period x n = ground arith

pub mark_stable-self_addr :
    (h : NodeHash) (n : NodeList) → (mark_stable h n).self_addr ≡ n.self_addr
unfolding mark_stable take_and_delete insert_stable
mark_stable-self_addr h n = ground arith

pub mark_suspect-self_addr :
    (period : ℕ) (remote : Bool) (h : NodeHash) (n : NodeList)
    → (mark_suspect period remote h n).self_addr ≡ n.self_addr
unfolding mark_suspect take_and_delete insert_suspect
mark_suspect-self_addr period remote h n = ground arith

pub mark_faulty-self_addr :
    (h : NodeHash) (n : NodeList) → (mark_faulty h n).self_addr ≡ n.self_addr
unfolding mark_faulty take_and_delete
mark_faulty-self_addr h n = ground arith

delete-self_addr : (h : NodeHash) (n : NodeList) → (delete h n).self_addr ≡ n.self_addr
unfolding delete
delete-self_addr h n = ground arith

set_incarnation-self_addr :
    (h : NodeHash) (i : ℕ) (n : NodeList) → (set_incarnation h i n).self_addr ≡ n.self_addr
unfolding set_incarnation
set_incarnation-self_addr h i n = ground arith

module _ (period : ℕ) (x : Node) (n : NodeList) where
  update_list-self_addr : (update_list period x n).self_addr ≡ n.self_addr
  unfolding update_list
  update_list-self_addr =
      let written = set_incarnation (hash x) x.incarnation n in
      ground (
        arith,
        unsafe_add-self_addr period x n,
        mark_suspect-self_addr period true (hash x) written,
        mark_stable-self_addr (hash x) written,
        set_incarnation-self_addr (hash x) x.incarnation n,
      )

  wrap_list-self_addr : (wrap_list period x n).self_addr ≡ n.self_addr
  unfolding wrap_list
  wrap_list-self_addr = ground (
    arith,
    unsafe_add-self_addr period x n,
    mark_stable-self_addr (hash x) n,
    set_incarnation-self_addr (hash x) x.incarnation (mark_stable (hash x) n),
  )

-- The member list is consistent, and was made for the node at the address `host`.
pub record IsWired (host : Ip) (n : NodeList) : Type 0 where
  pub consistent : IsConsistent n
  pub own_address : n.self_addr ≡ host

module _ (host : Ip) (period : ℕ) where
  module _ (x : Node) (n : NodeList) (w : IsWired host n)
      (other : equal x.address host ≡ false) where
    pub foreign : equal n.self_addr x.address ≡ false
    foreign =
        ground (arith, w.own_address, equal_iff n.self_addr x.address, equal_iff x.address host)

    update_list-IsWired : IsWired host (update_list period x n)
    update_list-IsWired = record {
      consistent = (update_list-Sets n w.consistent period x foreign).consistent;
      own_address = update_list-self_addr period x n ∙ w.own_address;
    }

    wrap_list-IsWired : IsWired host (wrap_list period x n)
    wrap_list-IsWired = record {
      consistent = (wrap_list-Sets n w.consistent period x foreign).consistent;
      own_address = wrap_list-self_addr period x n ∙ w.own_address;
    }

  pub mark_faulty-IsWired :
      (h : NodeHash) (n : NodeList) → IsWired host n → IsWired host (mark_faulty h n)
  mark_faulty-IsWired h n w = record {
    consistent = (mark_faulty-Sets n w.consistent h).consistent;
    own_address = mark_faulty-self_addr h n ∙ w.own_address;
  }

  delete-IsWired : (h : NodeHash) (n : NodeList) → IsWired host n → IsWired host (delete h n)
  delete-IsWired h n w = record {
    consistent = (delete-Sets n w.consistent h).consistent;
    own_address = delete-self_addr h n ∙ w.own_address;
  }

  -- A change that a known node undergoes unless the news of it is old.
  if_known :
      (incarnation : ℕ) (change : Node → NodeManager) (o : Option Node) (m : NodeManager)
      → IsWired host m.node_list
      → ((n : Node) → IsWired host (change n).node_list)
      → IsWired host
          (elim o as (λ x. NodeManager) [
            | none ↦ m
            | some n ↦ if ltb incarnation n.incarnation then m else change n
          ]).node_list
  if_known incarnation change none m w c = w
  if_known incarnation change (some n) m w c = elim (Bool-cases (ltb incarnation n.incarnation)) [
    | inl old ↦ rw (old) w
    | inr new ↦ rw (new) (c n)
  ]

  apply_event-IsWired :
      (e : Event) (m : NodeManager)
      → equal (get_subject e) host ≡ false
      → IsWired host m.node_list
      → IsWired host (apply_event period e m).node_list
  unfolding apply_event get_subject update_or_create wrap_incarnation NodeManager.mark_faulty
  apply_event-IsWired (join p) m o w = update_list-IsWired _ m.node_list w o
  apply_event-IsWired (healthy p) m o w = update_list-IsWired _ m.node_list w o
  apply_event-IsWired (suspect p) m o w = update_list-IsWired _ m.node_list w o
  apply_event-IsWired (alive p) m o w = update_list-IsWired _ m.node_list w o
  apply_event-IsWired (wrap p) m o w = wrap_list-IsWired _ m.node_list w o
  apply_event-IsWired (faulty p) m o w =
      if_known p.incarnation (λ n. NodeManager.mark_faulty (hash n) m)
        (node_by_ip p.subject m.node_list) m w (λ n. mark_faulty-IsWired (hash n) m.node_list w)
  apply_event-IsWired (left p) m o w =
      if_known p.incarnation
        (λ n. record m { node_list = delete (into_hash p.subject) m.node_list })
        (node_by_hash (into_hash p.subject) m.node_list) m w (λ n. delete-IsWired _ m.node_list w)

  module _ (sorter : Sorter) where
    process_event-IsWired :
        (e : Event) (p : Tally × Server)
        → p.1.host_address ≡ host
        → IsWired host p.1.nodes.node_list
        → (process_event sorter period e p).1.host_address ≡ host
          × IsWired host (process_event sorter period e p).1.nodes.node_list
    unfolding process_event is_event_local
    process_event-IsWired e (t, s) h w = elim (Bool-cases (equal (get_subject e) s.host_address)) [
      | inl own ↦ rw (own, process_event) (h, w)
      | inr other ↦ rw (other, process_event) (h, apply_event-IsWired e s.nodes (ground arith) w)
    ]

    process_loop-IsWired :
        (es : List Event) (p : Tally × Server)
        → p.1.host_address ≡ host
        → IsWired host p.1.nodes.node_list
        → IsWired host (process_loop sorter period es p).1.nodes.node_list
    unfolding process_loop
    process_loop-IsWired [] p h w = w
    process_loop-IsWired (e ∷ es) p h w =
        let (h', w') = process_event-IsWired e p h w in
        process_loop-IsWired es (process_event sorter period e p) h' w'

module _ (sorter : Sorter) (period : ℕ) (es : List Event) (s : Server) where
  abbrev fresh : Tally
  fresh = record { last_incarnation = none; reannounce = false }

  process_ping_events-nodes :
      (process_ping_events sorter period es s).nodes
      ≡ (process_loop sorter period es (fresh, s)).1.nodes
  unfolding process_ping_events increment_incarnation_to_surpass
  process_ping_events-nodes = ground arith

  -- A member list that is consistent and made for the own address stays so when the events of
  -- a Ping are processed, whatever they say and however many there are.
  pub process_ping_events-IsWired :
      IsWired s.host_address s.nodes.node_list
      → IsWired s.host_address (process_ping_events sorter period es s).nodes.node_list
  process_ping_events-IsWired w =
      subst (λ m. IsWired s.host_address m.node_list) (sym process_ping_events-nodes)
        (process_loop-IsWired s.host_address period sorter es (fresh, s) refl w)
