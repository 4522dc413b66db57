-- ===== src/Server/Events/Effects.antt =====
-- What each event of a Ping does to the members, in swim_server.go.
use eswim.Base.{
  ℕ, ◌≡◌, refl, sym, ap, subst, ◌∙◌, true, false, Option, none, some, List, [], ◌∷◌, arith, ltb,
  ite, Bool-cases, inl, inr, if◌then◌else◌,
}
use eswim.Proto.Ip.{Ip, NodeHash, NodeHash-discrete, equal, into_hash}
use eswim.Proto.Node.{Node, hash}
use eswim.Proto.Event.{Event, join, healthy, suspect, faulty, left, alive, wrap, get_subject}
use eswim.Core.NodeList.{NodeList, mark_faulty, delete, node_by_ip, node_by_hash}
use eswim.Core.NodeList.View.{
  IsConsistent, Member, absent, stable, suspected, view, member_node, node_by_hash-view,
}
use eswim.Core.NodeList.Refinement.{Sets, mark_faulty-Sets, delete-Sets}
use eswim.Core.NodeManager
use eswim.Core.NodeManager.{NodeManager, update_or_create, wrap_incarnation}
use eswim.Core.NodeManager.Update.{updated, update_list-Sets}
use eswim.Core.NodeManager.Update.Wrap.{wrapped, wrap_list-Sets}
use eswim.Core.GossipManager.{Sorter}
use eswim.Server.{
  Server, Tally, is_event_local, apply_event, process_event, process_loop, process_ping_events,
}
use eswim.Server.Events.{IsWired, foreign, process_event-IsWired, process_ping_events-nodes}

-- A member that is said to be gone: it goes, unless the news is older than what is known of it.
abbrev pub gone : ℕ → Member → Member
gone incarnation absent = absent
gone incarnation (stable x) = if ltb incarnation x.incarnation then stable x else absent
gone incarnation (suspected s) = if ltb incarnation s.node.incarnation then suspected s else absent

-- What an event makes of the member that it is about.
abbrev pub heard : ℕ → Event → Member → Member
heard period (faulty p) = gone p.incarnation
heard period (left p) = gone p.incarnation
heard period (suspect p) =
    updated period (record { suspect = true; incarnation = p.incarnation; address = p.subject })
heard period (join p) =
    updated period (record { suspect = false; incarnation = p.incarnation; address = p.subject })
heard period (healthy p) =
    updated period (record { suspect = false; incarnation = p.incarnation; address = p.subject })
heard period (alive p) =
    updated period (record { suspect = false; incarnation = p.incarnation; address = p.subject })
heard period (wrap p) =
    wrapped period (record { suspect = false; incarnation = p.incarnation; address = p.subject })

gone-unknown : (incarnation : ℕ) (m : Member) → member_node m ≡ none → gone incarnation m ≡ m
gone-unknown incarnation absent e = refl
gone-unknown incarnation (stable x) e = absurd cc
gone-unknown incarnation (suspected s) e = absurd cc

gone-known :
    (incarnation : ℕ) (m : Member) (x : Node)
    → member_node m ≡ some x
    → gone incarnation m ≡ (if ltb incarnation x.incarnation then m else absent)
gone-known incarnation m x e = ground (arith, e)

module _ (n : NodeList) (c : IsConsistent n) (h : NodeHash) where
  kept : Sets n h (view n h) n
  kept = record { consistent = c; changed = λ j. ground arith }

  known-hash : (x : Node) → member_node (view n h) ≡ some x → hash x ≡ h
  known-hash x e = ground (arith, c h, e)

leaves :
    (incarnation : ℕ) (h : NodeHash) (m m' : NodeManager) (x : Node)
    → IsConsistent m.node_list
    → member_node (view m.node_list h) ≡ some x
    → Sets m.node_list h absent m'.node_list
    → Sets m.node_list h
        (gone incarnation (view m.node_list h))
        (if ltb incarnation x.incarnation then m else m').node_list
leaves incarnation h m m' x c e sets = elim (Bool-cases (ltb incarnation x.incarnation)) [
  | inl old ↦ rw (gone-known incarnation (view m.node_list h) x e, old) (kept m.node_list c h)
  | inr new ↦ rw (gone-known incarnation (view m.node_list h) x e, new) sets
]

-- A change that the member undergoes, if there is one, unless the news is old.
leaves_known :
    (incarnation : ℕ) (h : NodeHash) (m : NodeManager) (change : Node → NodeManager)
    (o : Option Node)
    → IsConsistent m.node_list
    → o ≡ member_node (view m.node_list h)
    → ((x : Node)
        → member_node (view m.node_list h) ≡ some x
        → Sets m.node_list h absent (change x).node_list)
    → Sets m.node_list h
        (gone incarnation (view m.node_list h))
        (elim o as (λ x. NodeManager) [
          | none ↦ m
          | some n ↦ if ltb incarnation n.incarnation then m else change n
        ]).node_list
leaves_known incarnation h m change none c e k =
    rw (gone-unknown incarnation (view m.node_list h) (sym e)) (kept m.node_list c h)
leaves_known incarnation h m change (some x) c e k =
    leaves incarnation h m (change x) x c (sym e) (k x (sym e))

-- An event about a node with another address than the own one makes of the member under that address what
-- its kind says, and changes no other member; the list stays consistent.
pub apply_event-Sets :
    (period : ℕ) (e : Event) (m : NodeManager)
    → IsConsistent m.node_list
    → equal m.node_list.self_addr (get_subject e) ≡ false
    → Sets m.node_list
        (into_hash (get_subject e))
        (heard period e (view m.node_list (into_hash (get_subject e))))
        (apply_event period e m).node_list
unfolding apply_event get_subject update_or_create wrap_incarnation NodeManager.mark_faulty hash
    node_by_ip
apply_event-Sets period (join p) m c o = update_list-Sets m.node_list c period _ o
apply_event-Sets period (healthy p) m c o = update_list-Sets m.node_list c period _ o
apply_event-Sets period (suspect p) m c o = update_list-Sets m.node_list c period _ o
apply_event-Sets period (alive p) m c o = update_list-Sets m.node_list c period _ o
apply_event-Sets period (wrap p) m c o = wrap_list-Sets m.node_list c period _ o
apply_event-Sets period (faulty p) m c o =
    let h = into_hash p.subject in
    leaves_known p.incarnation h m (λ x. NodeManager.mark_faulty (hash x) m)
      (node_by_ip p.subject m.node_list) c (node_by_hash-view h m.node_list c)
      (λ x e.
        subst (λ k. Sets m.node_list k absent (mark_faulty (hash x) m.node_list))
          (known-hash m.node_list c h x e) (mark_faulty-Sets m.node_list c (hash x)))
apply_event-Sets period (left p) m c o =
    let h = into_hash p.subject in
    leaves_known p.incarnation h m (λ x. record m { node_list = delete h m.node_list })
      (node_by_hash h m.node_list) c (node_by_hash-view h m.node_list c)
      (λ x e. delete-Sets m.node_list c h)

-- What the events of a Ping make of the member under the hash `j`, one after the other; those about the
-- address `host` are not about members.
abbrev pub heard_all : ℕ → Ip → NodeHash → List Event → Member → Member
heard_all period host j [] m = m
heard_all period host j (e ∷ es) m = heard_all period host j es (
    if equal (get_subject e) host
    then m
    else ite (NodeHash-discrete j (into_hash (get_subject e))) (heard period e m) m)

at_same :
    (f : Member → Member) (n : NodeList) (j h : NodeHash)
    → ite (NodeHash-discrete j h) (f (view n h)) (view n j)
      ≡ ite (NodeHash-discrete j h) (f (view n j)) (view n j)
at_same f n j h =
    elim (NodeHash-discrete j h)
      as (λ d. ite d (f (view n h)) (view n j) ≡ ite d (f (view n j)) (view n j)) [
        | yes same ↦ ap (λ k. f (view n k)) (sym same)
        | no other ↦ refl
      ]

module _ (sorter : Sorter) (period : ℕ) where
  process_event-view :
      (e : Event) (t : Tally) (s : Server) (j : NodeHash)
      → IsWired s.host_address s.nodes.node_list
      → view (process_event sorter period e (t, s)).1.nodes.node_list j ≡ (
          if equal (get_subject e) s.host_address
          then view s.nodes.node_list j
          else ite
              (NodeHash-discrete j (into_hash (get_subject e)))
              (heard period e (view s.nodes.node_list j))
              (view s.nodes.node_list j))
  unfolding process_event is_event_local
  process_event-view e t s j w = elim (Bool-cases (equal (get_subject e) s.host_address)) [
    | inl own ↦ rw (own, process_event) refl
    | inr other ↦
        let o =
          foreign s.host_address period
            (record { suspect = false; incarnation = 0; address = get_subject e }) s.nodes.node_list
            w other in
        rw (other, process_event)
          ((apply_event-Sets period e s.nodes w.consistent o).changed j
            ∙ at_same (heard period e) s.nodes.node_list j (into_hash (get_subject e)))
  ]

  process_loop-view :
      (host : Ip) (es : List Event) (p : Tally × Server) (j : NodeHash)
      → p.1.host_address ≡ host
      → IsWired host p.1.nodes.node_list
      → view (process_loop sorter period es p).1.nodes.node_list j
        ≡ heard_all period host j es (view p.1.nodes.node_list j)
  unfolding process_loop
  process_loop-view host [] p j h w = refl
  process_loop-view host (e ∷ es) (t, s) j h w =
      let (h', w') = process_event-IsWired host period sorter e (t, s) h w in
      let v = process_event-view e t s j (subst (λ a. IsWired a s.nodes.node_list) (sym h) w) in
      process_loop-view host es (process_event sorter period e (t, s)) j h' w'
      ∙ ap (heard_all period host j es) (
          v
          ∙ ap
              (λ a.
                if equal (get_subject e) a
                then view s.nodes.node_list j
                else ite (NodeHash-discrete j (into_hash (get_subject e)))
                    (heard period e (view s.nodes.node_list j)) (view s.nodes.node_list j))
              h)

  -- After the events of a Ping, each member of a consistent list that was made for the own address is what
  -- the events about it make of it, one after the other: a Suspect, Join, Healthy or Alive enters or updates it
  -- unless it is older than what is known, a Faulty or Left removes it likewise, and a Wrap makes it stable and
  -- forces on it the Incarnation of the Wrap, which is the one that it had before: NewIncarnation, to which it
  -- is to go back, is not read. The events about the own address change no member.
  pub process_ping_events-view :
      (es : List Event) (s : Server) (j : NodeHash)
      → IsWired s.host_address s.nodes.node_list
      → view (process_ping_events sorter period es s).nodes.node_list j
        ≡ heard_all period s.host_address j es (view s.nodes.node_list j)
  process_ping_events-view es s j w =
      ap (λ m. view m.node_list j) (process_ping_events-nodes sorter period es s)
      ∙ process_loop-view s.host_address es
          (record { last_incarnation = none; reannounce = false }, s) j refl w
