-- ===== src/Core/GossipManager/Adding.antt =====
-- Add of internal/core/gossip_manager.go: what the queue says about each node afterwards.
use eswim.Base.{
  ◌≤◌, ◌≡◌, ◌≢◌, Option, none, some, List, [], ◌∷◌, ◌++◌, arith, Bool-cases, Option-cases, inl, inr,
  if◌then◌else◌,
}
use eswim.Proto.Ip.{Ip, equal}
use eswim.Proto.Ip.Equal.{equal_iff}
use eswim.Proto.Event.{Event, kind_faulty, event_kind, get_subject, get_incarnation}
use eswim.Proto.Invalidation.{invalidates}
use eswim.Proto.Invalidation.Order.{invalidates-le}
use eswim.Core.GossipManager.{
  GossipItem, GossipManager, Sorter, find_about, last_gossip_about, override, add,
}
use eswim.Core.GossipManager.About.{
  subject, IsUnique, find_about-perm, subject-override, find_about-override, find_about-snoc,
  not_mem_of_find_about,
}
use mathlib.Core.List.{Nodup-cons, perm_middle, append-nil}
use mathlib.Core.List.Perm

-- The event that is kept about a node when another one about it arrives.
abbrev pub resolved : Event → Option Event → Option Event
resolved item none = some item
resolved item (some old) = if invalidates item old then some item else some old

module _ (sorter : Sorter) (item : Event) (g : GossipManager) (u : IsUnique g.queue) where
  abbrev fresh : GossipItem
  fresh = record { event = item; tx_left = g.max_tx }

  snoc-IsUnique : find_about (get_subject item) g.queue ≡ none → IsUnique (g.queue ++ (fresh ∷ []))
  snoc-IsUnique e =
      Perm.nodup
        (Perm.map subject
          (Perm.symm (rw (append-nil g.queue) at (perm_middle {a = fresh} g.queue []))))
        (Nodup-cons.1 (not_mem_of_find_about g.queue (get_subject item) e, u))

  override-IsUnique : IsUnique (override item g.queue)
  override-IsUnique = rw (subject-override item g.queue) u

  sorted-IsUnique : (q : List GossipItem) → IsUnique q → IsUnique (sorter.apply q)
  sorted-IsUnique q v = Perm.nodup (Perm.symm (Perm.map subject (sorter.apply-perm q))) v

  -- If the queue holds at most one event about each node, it does so after an `Add`.
  pub add-IsUnique : IsUnique (add sorter item g).queue
  unfolding add
  add-IsUnique = elim (Option-cases (find_about (get_subject item) g.queue)) [
    | inl unheard ↦ rw (unheard, add) (sorted-IsUnique _ (snoc-IsUnique unheard))
    | inr (old, heard) ↦ elim (Bool-cases (invalidates item old.event)) [
      | inl wins ↦ rw (heard, add, wins) (sorted-IsUnique _ override-IsUnique)
      | inr loses ↦ rw (heard, add, loses) u
    ]
  ]

  -- In a queue with at most one event about each node, an `Add` has this effect. About the
  -- subject of the event the queue then says that event, if there was none before or if it
  -- overrides the one before, and otherwise the one before; of every other node it says what
  -- it said before.
  pub last_gossip_about-add :
      (ip : Ip)
      → last_gossip_about ip (add sorter item g) ≡ (
          if equal (get_subject item) ip
          then resolved item (last_gossip_about ip g)
          else last_gossip_about ip g)
  unfolding add last_gossip_about
  last_gossip_about-add ip = elim (Option-cases (find_about (get_subject item) g.queue)) [
    | inl unheard ↦ ground (
      arith,
      equal_iff (get_subject item) ip,
      find_about-perm ip _ _ (sorter.apply-perm (g.queue ++ (fresh ∷ []))) (snoc-IsUnique unheard),
      find_about-snoc ip g.queue fresh unheard,
    )
    | inr (old, heard) ↦ ground (
      arith,
      equal_iff (get_subject item) ip,
      find_about-perm ip _ _ (sorter.apply-perm (override item g.queue)) override-IsUnique,
      find_about-override ip item g.queue old heard,
    )
  ]

  -- In a queue with at most one event about each node, an `Add` of anything but a report of a
  -- faulty node never lowers the incarnation that the queue gives for a node.
  pub last_gossip_about-add-le :
      (ip : Ip) (old : Event)
      → event_kind item ≢ kind_faulty
      → last_gossip_about ip g ≡ some old
      → (new : Event) × (last_gossip_about ip (add sorter item g) ≡ some new)
        × (get_incarnation old ≤ get_incarnation new)
  last_gossip_about-add-le ip old nf e = elim (Bool-cases (equal (get_subject item) ip)) [
    | inr other ↦ (old, ground (arith, last_gossip_about-add ip), omega arith)
    | inl same ↦ elim (Bool-cases (invalidates item old)) [
      | inl wins ↦ (item, ground (arith, last_gossip_about-add ip), invalidates-le item old nf wins)
      | inr loses ↦ (old, ground (arith, last_gossip_about-add ip), omega arith)
    ]
  ]
