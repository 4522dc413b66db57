-- ===== src/Fsm/Prefix.antt =====
-- What a machine of internal/fsm/fsm.go does on a part of its bytes.
use eswim.Base.Int.{negsuc, pred_ℤ, is_zero}
use eswim.Base.{ℕ, suc, true, ◌≡◌, ◌≢◌, sym, ◌∙◌, refl, List, [], ◌∷◌, ◌++◌}
use eswim.Fsm.{
  Fsm, Def, Run, waiting, finished, stopped, Fed, pending, value, failed, append, feed, run,
  proceed,
}
use eswim.Fsm.Laws.{run-cons, feed-ne-failed, filling}

module _ {ℓ} {T S C E : Type ℓ} (def : Def T S C E) where
  -- No error ever ends a run.
  pub run-ne-stopped : (bs : List ℕ) (i : Fsm T S C) (e : E) → run def i bs ≢ stopped e
  run-ne-stopped [] i e h = unfold run in cc
  run-ne-stopped (b ∷ bs) i e h =
      go (feed def i b) (feed-ne-failed def i b) (λ j. run-ne-stopped bs j e)
        (sym (run-cons def i b bs) ∙ h)
    where
      go :
          (q : Fsm T S C × Fed T E)
          → ((e : E) → q.1 ≢ failed e)
          → ((j : Fsm T S C) → run def j bs ≢ stopped e)
          → proceed def q bs ≢ stopped e
      go (j, pending) n ih p = ih j p
      go (j, value v) n ih p = cc
      go (j, failed x) n ih p = n x refl

  -- Bytes that come after a value are left over.
  pub run-append :
      (bs more : List ℕ) (i j : Fsm T S C) (v : T) (rest : List ℕ)
      → run def i bs ≡ finished v j rest
      → run def i (bs ++ more) ≡ finished v j (rest ++ more)
  run-append [] more i j v rest h = unfold run in cc
  run-append (b ∷ bs) more i j v rest h =
      run-cons def i b (bs ++ more)
      ∙ go (feed def i b) (λ k. run-append bs more k j v rest) (sym (run-cons def i b bs) ∙ h)
    where
      go :
          (q : Fsm T S C × Fed T E)
          → ((k : Fsm T S C)
              → run def k bs ≡ finished v j rest
              → run def k (bs ++ more) ≡ finished v j (rest ++ more))
          → proceed def q bs ≡ finished v j rest
          → proceed def q (bs ++ more) ≡ finished v j (rest ++ more)
      go (k, pending) ih p = ih k p
      go (k, value w) ih p = cc
      go (k, failed x) ih p = cc

  -- A byte read before does not matter.
  pub run-current_byte :
      (bs : List ℕ) (i : Fsm T S C) (x : ℕ) {R : Type ℓ} (answer : Run T S C E → R)
      → ((j k : Fsm T S C) → answer (waiting j) ≡ answer (waiting k))
      → answer (run def (record i { current_byte = x }) bs) ≡ answer (run def i bs)
  unfolding run feed
  run-current_byte [] i x answer h = h _ _
  run-current_byte (b ∷ bs) i x answer h = refl

  nil_right : (l more : List ℕ) → l ++ more ≡ [] → more ≡ []
  nil_right [] more h = h
  nil_right (x ∷ l) more h = cc

  -- A machine that takes some bytes whole has no value yet on a part of them.
  pub run-part :
      (bs more : List ℕ) (i j : Fsm T S C) (v : T)
      → more ≢ []
      → run def i (bs ++ more) ≡ finished v j []
      → (k : Fsm T S C) × (run def i bs ≡ waiting k)
  run-part bs more i j v n h = go (run def i bs) refl
    where
      go : (r : Run T S C E) → run def i bs ≡ r → (k : Fsm T S C) × (run def i bs ≡ waiting k)
      go (waiting k) e = (k, e)
      go (finished w k rest) e =
          let g : run def i (bs ++ more) ≡ finished w k (rest ++ more) =
            run-append bs more i k w rest e in
          absurd (n (nil_right rest more (cc)))
      go (stopped x) e = absurd (run-ne-stopped bs i x e)

  -- A machine whose size has fallen below zero.
  abbrev late : T → ℕ → List ℕ → S → C → ℕ → Fsm T S C
  late v n p s c cb = record {
    value = v;
    size = negsuc n;
    payload = p;
    state = s;
    context = c;
    current_byte = cb;
    must_satisfy_size = true;
  }

  run-late :
      (bs : List ℕ) (v : T) (n : ℕ) (p : List ℕ) (s : S) (c : C) (cb : ℕ)
      → (k : Fsm T S C) × (run def (late v n p s c cb) bs ≡ waiting k)
  unfolding run feed append pred_ℤ is_zero
  run-late [] v n p s c cb = (_, refl)
  run-late (b ∷ bs) v n p s c cb = run-late bs v (suc n) (p ++ (b ∷ [])) s c b

  -- A machine that waits for no bytes at all never does anything again.
  pub run-overdue :
      (bs : List ℕ) (v : T) (p : List ℕ) (s : S) (c : C) (cb : ℕ)
      → (k : Fsm T S C) × (run def (filling def v 0 p s c cb) bs ≡ waiting k)
  unfolding run feed append pred_ℤ is_zero
  run-overdue [] v p s c cb = (_, refl)
  run-overdue (b ∷ bs) v p s c cb = run-late bs v 0 (p ++ (b ∷ [])) s c b
