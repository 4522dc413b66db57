-- ===== src/Core/GossipManager/Retries.antt =====
-- How often Next of internal/core/gossip_manager.go hands out an event that is alone in the queue.
use eswim.Base.{ℕ, zero, suc, ◌+◌, ◌-◌, ◌≤◌, ◌≡◌, refl, ap, ◌∙◌, false, [], ◌∷◌, arith}
use eswim.Base.Int.{ℤ, pos, negsuc, pred_ℤ, is_one}
use eswim.Proto.Event.{Event, required_size}
use eswim.Core.GossipManager.{GossipManager, Sorter, next, next_loop, delete_down, delete_at}
use mathlib.Core.List.Perm

module _ (sorter : Sorter) (max : ℕ) where
  -- The state after a number of calls of `Next`.
  abbrev pub after_next : ℕ → GossipManager → GossipManager
  after_next zero g = g
  after_next (suc n) g = after_next n (next sorter max g).0

  abbrev pub alone : Event → ℤ → ℤ → GossipManager
  alone e t max_tx = record { queue = record { event = e; tx_left = t } ∷ []; max_tx = max_tx }

  module _ (e : Event) (max_tx : ℤ) (fits : required_size e ≤ max) where
    next-alone :
        (t : ℤ)
        → is_one t ≡ false
        → next sorter max (alone e t max_tx) ≡ (alone e (pred_ℤ t) max_tx, e ∷ [])
    unfolding next next_loop
    next-alone t h = ground arith

    next_last :
        next sorter max (alone e (pos 1) max_tx) ≡ (record { queue = []; max_tx = max_tx }, e ∷ [])
    unfolding next next_loop delete_down delete_at is_one
    next_last = ground (arith, Perm.eq-nil (sorter.apply-perm []))

    -- With `m` more transmissions than calls to come, and one.
    counted_down :
        (n m i : ℕ)
        → i ≡ n + m
        → after_next n (alone e (pos (suc i)) max_tx) ≡ alone e (pos (suc m)) max_tx
    unfolding pred_ℤ is_one
    counted_down zero m i h =
        let same : i ≡ m = omega (arith, h) in ap (λ i. alone e (pos (suc i)) max_tx) same
    counted_down (suc n) m zero h = absurd (omega (arith, h))
    counted_down (suc n) m (suc i) h =
        ap (λ r. after_next n r.0) (next-alone (pos (suc (suc i))) refl)
        ∙ counted_down n m i (omega (arith, h))

    -- The call that finds `m` more transmissions, and one, to be left.
    handed_out : (m : ℕ) → (next sorter max (alone e (pos (suc m)) max_tx)).1 ≡ e ∷ []
    unfolding is_one
    handed_out zero = ap (λ r. r.1) next_last
    handed_out (suc m) = ap (λ r. r.1) (next-alone (pos (suc (suc m))) refl)

    after_next-suc :
        (n : ℕ) (g : GossipManager) → after_next (suc n) g ≡ (next sorter max (after_next n g)).0
    after_next-suc zero g = refl
    after_next-suc (suc n) g = after_next-suc n (next sorter max g).0

    -- An event that is alone in the queue, fits into the message and has `n + 1` transmissions left
    -- is handed out by each of the next `n + 1` calls, alone, and the queue is empty then.
    pub next-times :
        (n : ℕ)
        → ((k : ℕ)
            → k ≤ n
            → (next sorter max (after_next k (alone e (pos (suc n)) max_tx))).1 ≡ e ∷ [])
          × ((after_next (suc n) (alone e (pos (suc n)) max_tx)).queue ≡ [])
    next-times n = (
      λ k below.
          ap (λ g. (next sorter max g).1) (counted_down k (n - k) n (omega arith))
          ∙ handed_out (n - k),
      ap (λ g. g.queue) (after_next-suc n (alone e (pos (suc n)) max_tx))
          ∙ ap (λ g. (next sorter max g).0.queue) (counted_down n zero n (omega arith))
          ∙ ap (λ r. r.0.queue) next_last,
    )

    -- An item whose counter is not above zero is handed out and stays, one lower.
    handed_out_below :
        (n k : ℕ) → (next sorter max (after_next n (alone e (negsuc k) max_tx))).1 ≡ e ∷ []
    unfolding pred_ℤ is_one
    handed_out_below zero k = ap (λ r. r.1) (next-alone (negsuc k) refl)
    handed_out_below (suc n) k =
        ap (λ r. (next sorter max (after_next n r.0)).1) (next-alone (negsuc k) refl)
        ∙ handed_out_below n (suc k)

    -- An event that is alone in the queue, fits into the message and has a counter of zero,
    -- as one that overrode another starts with, is handed out by every later call and never
    -- dropped.
    pub next_forever :
        (n : ℕ) → (next sorter max (after_next n (alone e (pos zero) max_tx))).1 ≡ e ∷ []
    unfolding pred_ℤ is_one
    next_forever zero = ap (λ r. r.1) (next-alone (pos zero) refl)
    next_forever (suc n) =
        ap (λ r. (next sorter max (after_next n r.0)).1) (next-alone (pos zero) refl)
        ∙ handed_out_below n zero
