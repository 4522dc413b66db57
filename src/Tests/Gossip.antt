-- ===== src/Tests/Gossip.antt =====
-- Two nodes, and what others report about them.
use eswim.Base.{ℕ, ◌≤◌, ◌≤◌, ◌≡◌, ◌↔◌, refl, true, some, [], ◌∷◌, arith, if◌then◌else◌, bytes_equal}
use eswim.Base.Int.{pos}
use eswim.Proto.Ip.{Ip, equal, size, kind_size}
use eswim.Proto.Event.{
  Event, alive, suspect, event_kind, get_subject, get_incarnation, required_size, payload_size,
}
use eswim.Proto.Invalidation.{invalidates}
use eswim.Proto.Invalidation.Order.{demand, Meets, invalidates_iff}
use eswim.Core.GossipManager.{GossipManager, Sorter, find_about, last_gossip_about, add, next}
use eswim.Core.GossipManager.About.{IsUnique}
use eswim.Core.GossipManager.Adding.{resolved, last_gossip_about-add}
use eswim.Core.GossipManager.Sending.{Sends, next-Sends}
use eswim.Core.GossipManager.Retries.{after_next, alone, next-times, next_forever}
use mathlib.Core.List.{Nodup-cons, Nodup-nil, not-mem-nil}
use mathlib.Core.List.Perm

abbrev here : Ip
here = record { address_kind = 0; address_bytes = 10 ∷ 0 ∷ 0 ∷ 1 ∷ [] }

abbrev there : Ip
there = record { address_kind = 0; address_bytes = 10 ∷ 0 ∷ 0 ∷ 2 ∷ [] }

abbrev alive_4 : Event
alive_4 = alive (record { subject = there; incarnation = 4 })

abbrev suspect_4 : Event
suspect_4 = suspect (record { source = here; subject = there; incarnation = 4 })

abbrev unsorted : Sorter
unsorted = record { apply = λ l. l; apply-perm = λ l. Perm.refl l }

-- A queue with one event.
abbrev queued : GossipManager
queued = alone unsorted 100 alive_4 (pos 3) (pos 3)

queued-IsUnique : IsUnique queued.queue
queued-IsUnique = Nodup-cons.1 (not-mem-nil, Nodup-nil)

invalidates_iff_example :
    (invalidates suspect_4 alive_4 ≡ true)
    ↔ Meets
        (demand (event_kind suspect_4) (event_kind alive_4))
        (get_incarnation suspect_4)
        (get_incarnation alive_4)
invalidates_iff_example = invalidates_iff suspect_4 alive_4

last_gossip_about-add_example : last_gossip_about there (add unsorted suspect_4 queued) ≡ (
    if equal (get_subject suspect_4) there
    then resolved suspect_4 (last_gossip_about there queued)
    else last_gossip_about there queued)
last_gossip_about-add_example =
    last_gossip_about-add unsorted suspect_4 queued queued-IsUnique there

heard : last_gossip_about there queued ≡ some alive_4
unfolding last_gossip_about find_about get_subject equal bytes_equal
heard = refl

next-Sends_example : Sends 100 queued (next unsorted 100 queued)
next-Sends_example = next-Sends unsorted 100 queued

alive_4-fits : required_size alive_4 ≤ 100
unfolding required_size payload_size size kind_size
alive_4-fits = omega arith

next-times_example :
    ((k : ℕ) → k ≤ 2 → (next unsorted 100 (after_next unsorted 100 k queued)).1 ≡ alive_4 ∷ [])
    × ((after_next unsorted 100 3 queued).queue ≡ [])
next-times_example = next-times unsorted 100 alive_4 (pos 3) alive_4-fits 2

next_forever_example :
    (next unsorted 100 (after_next unsorted 100 7 (alone unsorted 100 alive_4 (pos 0) (pos 3)))).1
    ≡ alive_4 ∷ []
next_forever_example = next_forever unsorted 100 alive_4 (pos 3) alive_4-fits 7
