-- ===== src/Server/Incarnation.antt =====
-- The incarnation of the node itself: what the events of a Ping do to it, in swim_server.go.
use eswim.Base.{
  ◌⊎◌, ℕ, ◌+◌, ◌%◌, ◌<◌, ◌≤◌, ◌≡◌, refl, true, false, Option, none, some, List, [], ◌∷◌, arith, inl,
  inr,
}
use eswim.Proto.Ip.{Ip, equal}
use eswim.Proto.Event.{Event, alive, event_kind, get_incarnation, get_subject}
use eswim.Core.GossipManager.{Sorter, add}
use eswim.Server.{
  Server, Tally, is_event_local, is_accusation, tally_local, increment_incarnation_to_surpass,
  process_event, process_loop, process_ping_events,
}

module _ (sorter : Sorter) where
  -- Whatever incarnation it surpasses, the server announces itself alive with the next one, modulo
  -- 65536: at 65535 it starts again at 0, and no Wrap is announced.
  pub increment_incarnation_to_surpass-alive :
      (last_known : ℕ) (s : Server)
      → increment_incarnation_to_surpass sorter last_known s ≡ record s {
        incarnation = (last_known + 1) % 65536;
        gossip =
            add sorter
              (alive (record { subject = s.host_address; incarnation = (last_known + 1) % 65536 }))
              s.gossip;
      }
  unfolding increment_incarnation_to_surpass
  increment_incarnation_to_surpass-alive last_known s = ground arith

-- The incarnation of an event that `tally_local` keeps, of a node at the incarnation `own`.
abbrev Surpassable : ℕ → Option ℕ → Type 0
Surpassable own none = Unit
Surpassable own (some i) = (own ≤ i) × (i < 65535)

abbrev IsSome : Option ℕ → Type 0
IsSome none = ⊥
IsSome (some i) = Unit

-- No event has the highest incarnation.
abbrev pub AllBelow : List Event → Type 0
AllBelow [] = Unit
AllBelow (e ∷ es) = (get_incarnation e < 65535) × AllBelow es

-- The events accuse the node at the address `host` of being suspect or faulty, at its own incarnation
-- `own` or a later one.
abbrev pub Accuses : Ip → ℕ → List Event → Type 0
Accuses host own [] = ⊥
Accuses host own (e ∷ es) =
    ((equal (get_subject e) host ≡ true)
      × (is_accusation (event_kind e) ≡ true)
      × (own ≤ get_incarnation e))
    ⊎ Accuses host own es

tally_local-Surpassable :
    (own : ℕ) (e : Event) (t : Tally)
    → get_incarnation e < 65535
    → Surpassable own t.last_incarnation
    → Surpassable own (tally_local own e t).last_incarnation
unfolding tally_local
tally_local-Surpassable own e t b h = ground arith

tally_local-IsSome :
    (own : ℕ) (e : Event) (t : Tally)
    → IsSome t.last_incarnation
    → IsSome (tally_local own e t).last_incarnation
unfolding tally_local
tally_local-IsSome own e t h = ground arith

tally_local-accused :
    (own : ℕ) (e : Event) (t : Tally)
    → is_accusation (event_kind e) ≡ true
    → own ≤ get_incarnation e
    → IsSome (tally_local own e t).last_incarnation
unfolding tally_local
tally_local-accused own e t a h = ground arith

module _ (sorter : Sorter) (period : ℕ) (host : Ip) (own : ℕ) where
  -- The loop does not write the own incarnation and address.
  abbrev IsRunning : Tally × Server → Type 0
  IsRunning p =
      Surpassable own p.0.last_incarnation × (p.1.incarnation ≡ own) × (p.1.host_address ≡ host)

  process_event-IsRunning :
      (e : Event) (p : Tally × Server)
      → get_incarnation e < 65535
      → IsRunning p
      → IsRunning (process_event sorter period e p)
  unfolding process_event
  process_event-IsRunning e (t, s) b (h, i, j) =
      ground (arith, tally_local-Surpassable s.incarnation e t b (rw (i) h))

  process_event-IsSome :
      (e : Event) (p : Tally × Server)
      → IsSome p.0.last_incarnation
      → IsSome (process_event sorter period e p).0.last_incarnation
  unfolding process_event
  process_event-IsSome e (t, s) h = ground (arith, tally_local-IsSome s.incarnation e t h)

  process_event-accused :
      (e : Event) (p : Tally × Server)
      → IsRunning p
      → equal (get_subject e) host ≡ true
      → is_accusation (event_kind e) ≡ true
      → own ≤ get_incarnation e
      → IsSome (process_event sorter period e p).0.last_incarnation
  unfolding process_event is_event_local
  process_event-accused e (t, s) (h, i, j) subject a o =
      ground (arith, tally_local-accused s.incarnation e t a (omega arith))

  process_loop-IsRunning :
      (es : List Event) (p : Tally × Server)
      → AllBelow es
      → IsRunning p
      → IsRunning (process_loop sorter period es p)
  unfolding process_loop
  process_loop-IsRunning [] p b h = h
  process_loop-IsRunning (e ∷ es) p b h =
      process_loop-IsRunning es (process_event sorter period e p) b.1
        (process_event-IsRunning e p b.0 h)

  process_loop-IsSome :
      (es : List Event) (p : Tally × Server)
      → IsSome p.0.last_incarnation
      → IsSome (process_loop sorter period es p).0.last_incarnation
  unfolding process_loop
  process_loop-IsSome [] p h = h
  process_loop-IsSome (e ∷ es) p h =
      process_loop-IsSome es (process_event sorter period e p) (process_event-IsSome e p h)

  process_loop-Accuses :
      (es : List Event) (p : Tally × Server)
      → AllBelow es
      → IsRunning p
      → Accuses host own es
      → IsSome (process_loop sorter period es p).0.last_incarnation
  unfolding process_loop
  process_loop-Accuses [] p b h a = absurd a
  process_loop-Accuses (e ∷ es) p b h (inl (subject, accused, late)) =
      process_loop-IsSome es (process_event sorter period e p)
        (process_event-accused e p h subject accused late)
  process_loop-Accuses (e ∷ es) p b h (inr a) =
      process_loop-Accuses es (process_event sorter period e p) b.1
        (process_event-IsRunning e p b.0 h) a

module _ (sorter : Sorter) (period : ℕ) (es : List Event) (s : Server) (b : AllBelow es) where
  abbrev fresh : Tally
  fresh = record { last_incarnation = none; reannounce = false }

  -- As long as no event bears the incarnation 65535, the events of a Ping never lower the own
  -- incarnation.
  pub process_ping_events-le : s.incarnation ≤ (process_ping_events sorter period es s).incarnation
  unfolding process_ping_events increment_incarnation_to_surpass
  process_ping_events-le = ground (
    arith,
    process_loop-IsRunning sorter period s.host_address s.incarnation es (fresh, s) b
        (tt, refl, refl),
  )

  -- If no event bears the incarnation 65535, and one accuses the node itself of being suspect or
  -- faulty, at its own incarnation or a later one, then its incarnation rises.
  pub process_ping_events-refutes :
      Accuses s.host_address s.incarnation es
      → s.incarnation < (process_ping_events sorter period es s).incarnation
  unfolding process_ping_events increment_incarnation_to_surpass
  process_ping_events-refutes a = ground (
    arith,
    process_loop-IsRunning sorter period s.host_address s.incarnation es (fresh, s) b
        (tt, refl, refl),
    process_loop-Accuses sorter period s.host_address s.incarnation es (fresh, s) b (tt, refl, refl)
        a,
  )
