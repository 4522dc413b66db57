-- ===== src/Core/GossipManager/Sending.antt =====
-- What Next of internal/core/gossip_manager.go hands out, and what it takes off the queue.
use eswim.Base.{
  ℕ, zero, suc, ◌+◌, ◌≤◌, ◌<◌, ◌≡◌, refl, ◌∙◌, ltb, false, inl, inr, List, [], ◌∷◌, ◌++◌, map,
  length, drop, arith, Bool-cases, subst, if◌then◌else◌, ◌==◌,
}
use eswim.Base.Int.{pred_ℤ, is_one}
use mathlib.Core.List.{Perm}
use mathlib.Core.List.Perm
use eswim.Proto.Event.{Event, required_size}
use eswim.Core.GossipManager.{
  GossipItem, GossipManager, Sorter, next_loop, delete_at, delete_down, next,
}

-- The bytes that events take on the wire.
abbrev pub total_size : List Event → ℕ
total_size [] = 0
total_size (e ∷ es) = required_size e + total_size es

next_loop-fits :
    (max cur i : ℕ) (q : List GossipItem)
    → cur ≤ max
    → cur + total_size (next_loop max cur i q).0 ≤ max
unfolding next_loop
next_loop-fits max cur i [] h = omega arith
next_loop-fits max cur i (v ∷ vs) h =
    ground (arith, next_loop-fits max (cur + required_size v.event) (suc i) vs)

-- The event that comes next does not fit any more, or there is none.
abbrev pub NoRoom : ℕ → ℕ → List GossipItem → Type 0
NoRoom max used [] = Unit
NoRoom max used (v ∷ vs) = max < used + required_size v.event

-- `Next` writes the counter of an item that it hands out, unless it is the last time.
abbrev pub worn : GossipItem → GossipItem
worn v = if is_one v.tx_left then v else record v { tx_left = pred_ℤ v.tx_left }

-- How many of the items are handed out for the last time.
abbrev pub last_times : List GossipItem → ℕ
last_times [] = 0
last_times (v ∷ vs) = if is_one v.tx_left then suc (last_times vs) else last_times vs

-- The queue is `sent` and then `kept`; the loop hands out the events of `sent`.
record Splits (max cur i : ℕ) (q : List GossipItem) (r : List Event × List GossipItem × List ℕ)
    : Type 0 where
  sent : List GossipItem
  kept : List GossipItem
  all : q ≡ sent ++ kept
  events : r.0 ≡ map (λ v. v.event) sent
  written : r.1 ≡ map worn sent ++ kept
  removed : length r.2 ≡ last_times sent
  full : NoRoom max (cur + total_size r.0) kept

next_loop-Splits :
    (max cur i : ℕ) (q : List GossipItem) → Splits max cur i q (next_loop max cur i q)
unfolding next_loop
next_loop-Splits max cur i [] = record {
  sent = [];
  kept = [];
  all = refl;
  events = refl;
  written = refl;
  removed = refl;
  full = tt;
}
next_loop-Splits max cur i (v ∷ vs) =
    let rest = next_loop-Splits max (cur + required_size v.event) (suc i) vs in
    elim (Bool-cases (ltb max (cur + required_size v.event))) [
      | inl stop ↦ record {
        sent = [];
        kept = v ∷ vs;
        all = refl;
        events = ground arith;
        written = ground arith;
        removed = ground arith;
        full = ground arith;
      }
      | inr go ↦ record {
        sent = v ∷ rest.sent;
        kept = rest.kept;
        all = ground (arith, rest.all);
        events = ground (arith, rest.events);
        written = ground (arith, rest.written);
        removed = ground (arith, rest.removed);
        full = more go rest;
      }
    ]
  where
    more :
        ltb max (cur + required_size v.event) ≡ false
        → (rest : Splits max
            (cur + required_size v.event)
            (suc i)
            vs
            (next_loop max (cur + required_size v.event) (suc i) vs))
        → NoRoom max (cur + total_size (next_loop max cur i (v ∷ vs)).0) rest.kept
    more go rest = subst (λ used. NoRoom max used rest.kept) (ground arith) rest.full

drop-delete_at : (i : ℕ) (q : List GossipItem) → drop i (delete_at i q) ≡ drop (suc i) q
unfolding delete_at
drop-delete_at zero [] = refl
drop-delete_at zero (v ∷ q) = refl
drop-delete_at (suc i) [] = refl
drop-delete_at (suc i) (v ∷ q) = drop-delete_at i q

delete_down-drop : (n : ℕ) (q : List GossipItem) → delete_down n q ≡ drop n q
unfolding delete_down
delete_down-drop zero q = refl
delete_down-drop (suc i) q = delete_down-drop i (delete_at i q) ∙ drop-delete_at i q

-- What one `Next` does. The queue was `sent` and then `kept`; the events of `sent`, in that order, are
-- handed out, and no more of them would fit. The counters of `sent` are written, and of the whole
-- queue the first `last_times sent` items are gone, in whatever order the queue is left.
pub record Sends (max : ℕ) (g : GossipManager) (r : GossipManager × List Event) : Type 0 where
  pub sent : List GossipItem
  pub kept : List GossipItem
  pub all : g.queue ≡ sent ++ kept
  pub events : r.1 ≡ map (λ v. v.event) sent
  pub fits : total_size r.1 ≤ max
  pub full : NoRoom max (total_size r.1) kept
  pub left : Perm r.0.queue (drop (last_times sent) (map worn sent ++ kept))

left_queue :
    (sorter : Sorter) (max : ℕ) (g : GossipManager)
    → Perm
        (next sorter max g).0.queue
        (drop (length (next_loop max 0 0 g.queue).2) (next_loop max 0 0 g.queue).1)
unfolding next
left_queue sorter max g =
    let looped = next_loop max 0 0 g.queue in
    elim (Bool-cases (length looped.2 == 0)) [
      | inl nothing ↦ let n : length looped.2 ≡ 0 = ground arith in rw n (Perm.refl looped.1)
      | inr some_gone ↦
          rw (some_gone, ← delete_down-drop (length looped.2) looped.1)
            (sorter.apply-perm (delete_down (length looped.2) looped.1))
    ]

-- Every `Next` hands out a longest prefix of the queue that fits, and takes as many items off the front
-- of the queue as were handed out for the last time.
pub next-Sends : (sorter : Sorter) (max : ℕ) (g : GossipManager) → Sends max g (next sorter max g)
next-Sends sorter max g =
    let s = next_loop-Splits max 0 0 g.queue in
    let same : (next sorter max g).1 ≡ (next_loop max 0 0 g.queue).0 =
      unfold next in ground arith in
    record {
      sent = s.sent;
      kept = s.kept;
      all = s.all;
      events = same ∙ s.events;
      fits = rw same (omega (arith, next_loop-fits max 0 0 g.queue (omega arith)));
      full = rw same (subst (λ used. NoRoom max used s.kept) (omega arith) s.full);
      left = rw (← s.removed, ← s.written) (left_queue sorter max g);
    }
