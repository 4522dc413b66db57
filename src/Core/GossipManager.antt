-- ===== src/Core/GossipManager.antt =====
-- The queue of events to pass on: internal/core/gossip_manager.go. `slices.SortFunc` is not stable,
-- so it is a parameter that gives some sorted rearrangement. The lock is left out, since the methods
-- are taken one at a time. The lengths of events are sums of small numbers, which an int holds.
pub mod Sending
pub mod About
pub mod Adding
pub mod Retries
use eswim.Base.{
  ℕ, zero, suc, ◌+◌, ltb, Bool, true, false, not, Option, none, some, List, [], ◌∷◌, ◌++◌, map,
  length, if◌then◌else◌, ◌==◌,
}
use eswim.Base.Int.{ℤ, pred_ℤ, is_one}
use eswim.Proto.Ip.{Ip, equal}
use eswim.Proto.Event.{Event, get_subject, required_size}
use eswim.Proto.Invalidation.{invalidates}
use mathlib.Core.List.{Perm}

-- `containers.Tuple[*proto.Event, int]`
pub record GossipItem : Type 0 where
  pub event : Event
  pub tx_left : ℤ

pub record GossipManager : Type 0 where
  pub queue : List GossipItem
  pub max_tx : ℤ

-- What `reorder` does to the queue.
pub record Sorter : Type 0 where
  pub apply : List GossipItem → List GossipItem
  pub apply-perm : (l : List GossipItem) → Perm (apply l) l

unfoldable pub new_gossip_manager : ℤ → GossipManager
new_gossip_manager max_tx = record { queue = []; max_tx = max_tx }

unfoldable pub current_gossips : GossipManager → List Event
current_gossips g = map (λ v. v.event) g.queue

-- The loop of `LastGossipAbout`, which `findEventByNode` has too.
unfoldable pub find_about : Ip → List GossipItem → Option GossipItem
find_about ip [] = none
find_about ip (v ∷ vs) = if equal (get_subject v.event) ip then some v else find_about ip vs

unfoldable pub last_gossip_about : Ip → GossipManager → Option Event
last_gossip_about ip g = elim (find_about ip g.queue) [ none ↦ none | some v ↦ some v.event ]

-- `existing.First = item; existing.Second = 0`, through the pointer that `findEventByNode` returned.
unfoldable pub override : Event → List GossipItem → List GossipItem
override item [] = []
override item (v ∷ vs) =
    if equal (get_subject v.event) (get_subject item)
    then record { event = item; tx_left = ℤ.pos 0 } ∷ vs
    else v ∷ override item vs

unfoldable pub add : Sorter → Event → GossipManager → GossipManager
add sorter item g = elim (find_about (get_subject item) g.queue) [
  | some existing ↦
      if not (invalidates item existing.event)
      then g
      else record g { queue = sorter.apply (override item g.queue) }
  | none ↦ record g {
    queue = sorter.apply (g.queue ++ (record { event = item; tx_left = g.max_tx } ∷ []));
  }
]

-- The loop of `Next` from the index `i` on: the events taken, the queue with the counters written,
-- and the indexes to remove.
unfoldable pub next_loop : ℕ → ℕ → ℕ → List GossipItem → List Event × List GossipItem × List ℕ
next_loop max_length current_len i [] = ([], [], [])
next_loop max_length current_len i (v ∷ vs) =
    let size = required_size v.event in
    let (items, rest, indexes) = next_loop max_length (current_len + size) (suc i) vs in
    if ltb max_length (current_len + size)
    then ([], v ∷ vs, [])
    else if is_one v.tx_left
    then (v.event ∷ items, v ∷ rest, i ∷ indexes)
    else (v.event ∷ items, record v { tx_left = pred_ℤ v.tx_left } ∷ rest, indexes)

-- `slices.Delete(g.queue, i, i+1)`
unfoldable pub delete_at : ℕ → List GossipItem → List GossipItem
delete_at i [] = []
delete_at zero (v ∷ vs) = vs
delete_at (suc i) (v ∷ vs) = v ∷ delete_at i vs

-- `for i := n - 1; i >= 0; i--`: it deletes at the loop's own index `i`.
unfoldable pub delete_down : ℕ → List GossipItem → List GossipItem
unfolding delete_at
delete_down zero queue = queue
delete_down (suc i) queue = delete_down i (delete_at i queue)

unfoldable pub next : Sorter → ℕ → GossipManager → GossipManager × List Event
unfolding next_loop delete_down
next sorter max_length g =
    let (items, queue, indexes) = next_loop max_length 0 0 g.queue in
    if length indexes == 0
    then (record g { queue = queue }, items)
    else (record g { queue = sorter.apply (delete_down (length indexes) queue) }, items)

-- `maxTx == g.maxTx` leaves everything as it is, and so does writing an equal number.
unfoldable pub adjust_max_transmission : ℤ → GossipManager → GossipManager
adjust_max_transmission max_tx g = record g { max_tx = max_tx }
