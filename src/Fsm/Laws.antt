-- ===== src/Fsm/Laws.antt =====
-- Facts about every machine of internal/fsm/fsm.go.
use eswim.Base.{
  ℕ, suc, ◌<◌, ◌≡◌, ◌≢◌, refl, ap, ◌∙◌, true, false, List, [], ◌∷◌, ◌++◌, length, arith,
}
use eswim.Base.Int.{pos, pred_ℤ, is_zero}
use eswim.Fsm.{Fsm, Def, Run, failed, step, feed, run, proceed}
use mathlib.Core.List.{append_assoc}

module _ {ℓ} {T S C E : Type ℓ} (def : Def T S C E) where
  step-ne-failed : (i : Fsm T S C) (b : ℕ) (e : E) → (step def i b).1 ≢ failed e
  unfolding step
  step-ne-failed i b e = ground arith

  -- `Feed` never returns an error, whatever error the feed function of the decoder raises.
  pub feed-ne-failed : (i : Fsm T S C) (b : ℕ) (e : E) → (feed def i b).1 ≢ failed e
  unfolding feed step
  feed-ne-failed i b e = ground arith

  pub run-cons :
      (i : Fsm T S C) (b : ℕ) (rest : List ℕ)
      → run def i (b ∷ rest) ≡ proceed def (feed def i b) rest
  unfolding run
  run-cons i b rest = refl

  -- A machine that waits for `n` bytes.
  abbrev pub filling : T → ℕ → List ℕ → S → C → ℕ → Fsm T S C
  filling v n p s c cb = record {
    value = v;
    size = pos n;
    payload = p;
    state = s;
    context = c;
    current_byte = cb;
    must_satisfy_size = true;
  }

  -- The same when they have come.
  abbrev pub filled : T → List ℕ → S → C → ℕ → Fsm T S C
  filled v p s c b = record {
    value = v;
    size = pos 0;
    payload = p;
    state = s;
    context = c;
    current_byte = b;
    must_satisfy_size = false;
  }

  abbrev last : ℕ → List ℕ → ℕ
  last x [] = x
  last x (y ∷ ys) = last y ys

  run-filling :
      (v : T) (p : List ℕ) (s : S) (c : C) (cb x : ℕ) (xs rest : List ℕ)
      → run def (filling v (suc (length xs)) p s c cb) (x ∷ (xs ++ rest))
        ≡ proceed def (step def (filled v (p ++ (x ∷ xs)) s c (last x xs)) (last x xs)) rest
  unfolding feed pred_ℤ is_zero
  run-filling v p s c cb x [] rest = run-cons _ x rest
  run-filling v p s c cb x (y ∷ ys) rest =
      run-cons _ x (y ∷ (ys ++ rest))
      ∙ run-filling v (p ++ (x ∷ [])) s c x y ys rest
      ∙ ap (λ l. proceed def (step def (filled v l s c (last y ys)) (last y ys)) rest)
          (append_assoc p (x ∷ []) (y ∷ ys))

  -- A machine that waits for the bytes `l` calls its feed function once, when the last of them has
  -- come, with all of them.
  pub run-filling_then :
      (v : T) (s : S) (c : C) (cb : ℕ) {n : ℕ} (l rest : List ℕ) {r : Run T S C E}
      → length l ≡ n
      → 0 < n
      → ((b : ℕ) → proceed def (step def (filled v l s c b) b) rest ≡ r)
      → run def (filling v n [] s c cb) (l ++ rest) ≡ r
  run-filling_then v s c cb [] rest e h k = absurd (omega arith)
  run-filling_then v s c cb (x ∷ xs) rest e h k =
      rw (← e) (run-filling v [] s c cb x xs rest ∙ k (last x xs))
