-- ===== src/Proto/Invalidation.antt =====
-- Which event overrides which: the seven Invalidates methods of internal/proto/invalidation.go. A
-- `switch` there names each kind, so its final panic cannot be reached.
pub mod Order
use eswim.Base.{ℕ, Bool, true, false, ltb, leb}
use eswim.Proto.Event.{
  EventKind, kind_join, kind_healthy, kind_suspect, kind_faulty, kind_left, kind_alive, kind_wrap,
  Join, Healthy, Suspect, Faulty, Left, Alive, Wrap, Event, join, healthy, suspect, faulty, left,
  alive, wrap, event_kind, get_incarnation,
}

-- `i > j` and `i >= j`
abbrev newer : ℕ → ℕ → Bool
newer i j = ltb j i

abbrev newer_or_same : ℕ → ℕ → Bool
newer_or_same i j = leb j i

alive_invalidates : Alive → Event → Bool
alive_invalidates a current = newer a.incarnation (get_incarnation current)

suspect_switch : EventKind → ℕ → ℕ → Bool
suspect_switch kind_suspect i j = newer i j
suspect_switch kind_faulty i j = newer i j
suspect_switch kind_left i j = newer i j
suspect_switch _ i j = newer_or_same i j

suspect_invalidates : Suspect → Event → Bool
unfolding suspect_switch
suspect_invalidates s current =
    suspect_switch (event_kind current) s.incarnation (get_incarnation current)

faulty_invalidates : Faulty → Event → Bool
faulty_invalidates f current = true

join_switch : EventKind → ℕ → ℕ → Bool
join_switch kind_faulty i j = false
join_switch _ i j = newer i j

join_invalidates : Join → Event → Bool
unfolding join_switch
join_invalidates p current =
    join_switch (event_kind current) p.incarnation (get_incarnation current)

healthy_switch : EventKind → ℕ → ℕ → Bool
healthy_switch kind_suspect i j = newer_or_same i j
healthy_switch kind_join i j = newer_or_same i j
healthy_switch kind_faulty i j = false
healthy_switch _ i j = newer i j

healthy_invalidates : Healthy → Event → Bool
unfolding healthy_switch
healthy_invalidates h current =
    healthy_switch (event_kind current) h.incarnation (get_incarnation current)

left_switch : EventKind → ℕ → ℕ → Bool
left_switch kind_left i j = newer i j
left_switch kind_faulty i j = false
left_switch _ i j = newer_or_same i j

left_invalidates : Left → Event → Bool
unfolding left_switch
left_invalidates l current =
    left_switch (event_kind current) l.incarnation (get_incarnation current)

wrap_switch : EventKind → ℕ → ℕ → Bool
wrap_switch kind_left i j = newer i j
wrap_switch kind_wrap i j = newer i j
wrap_switch kind_faulty i j = false
wrap_switch _ i j = newer_or_same i j

wrap_invalidates : Wrap → Event → Bool
unfolding wrap_switch
wrap_invalidates w current =
    wrap_switch (event_kind current) w.incarnation (get_incarnation current)

-- The dynamic dispatch of `item.Payload.(Invalidator).Invalidates(existing)`.
unfoldable pub invalidates : Event → Event → Bool
unfolding alive_invalidates suspect_invalidates faulty_invalidates join_invalidates
    healthy_invalidates left_invalidates wrap_invalidates event_kind get_incarnation
invalidates (alive a) current = alive_invalidates a current
invalidates (suspect s) current = suspect_invalidates s current
invalidates (faulty f) current = faulty_invalidates f current
invalidates (join p) current = join_invalidates p current
invalidates (healthy h) current = healthy_invalidates h current
invalidates (left l) current = left_invalidates l current
invalidates (wrap w) current = wrap_invalidates w current
