-- ===== src/Fsm/Nested.antt =====
-- A machine that passes its bytes to another one, as the decoder of a packet does to those of the
-- header and of the message.
use eswim.Base.{ℕ, ◌≡◌, sym, ap, refl, ◌∙◌, subst, List, [], ◌∷◌}
use eswim.Fsm.{Fsm, Def, Run, proceed, Fed, pending, value, failed, finished, feed, run}
use eswim.Fsm.Laws.{run-cons}

module _ {T S C T' S' C' E : Type 0} (inner : Def T S C E) (outer : Def T' S' C' E)
    (wrapped : Fsm T S C → ℕ → Fsm T' S' C')
    (follows : (cb b : ℕ) (m m' : Fsm T S C)
      → feed inner m b ≡ (m', pending)
      → feed outer (wrapped m cb) b ≡ (wrapped m' b, pending)) where
  -- The outer machine waits while the inner one does; how it goes on with the value says the last
  -- hypothesis.
  pub run-nested :
      (bs : List ℕ) (m m' : Fsm T S C) (v : T) (rest : List ℕ) (cb : ℕ) {r : Run T' S' C' E}
      → run inner m bs ≡ finished v m' rest
      → ((m0 : Fsm T S C) (cb b : ℕ)
          → feed inner m0 b ≡ (m', value v)
          → proceed outer (feed outer (wrapped m0 cb) b) rest ≡ r)
      → run outer (wrapped m cb) bs ≡ r
  run-nested [] m m' v rest cb e k = unfold run in cc
  run-nested (b ∷ bs) m m' v rest cb {r} e k =
      run-cons outer _ b bs
      ∙ go (feed inner m b) (sym (run-cons inner m b bs) ∙ e) refl
          (λ j h. run-nested bs j m' v rest b h k)
    where
      go :
          (q : Fsm T S C × Fed T E)
          → proceed inner q bs ≡ finished v m' rest
          → feed inner m b ≡ q
          → ((j : Fsm T S C) → run inner j bs ≡ finished v m' rest → run outer (wrapped j b) bs ≡ r)
          → proceed outer (feed outer (wrapped m cb) b) bs ≡ r
      go (j, pending) h f ih = ap (λ q. proceed outer q bs) (follows cb b m j f) ∙ ih j h
      go (j, value w) h f ih = subst P (cc) (step_value (cc))
        where
          P : List ℕ → Type 0
          P = λ u. proceed outer (feed outer (wrapped m cb) b) u ≡ r

          step_value : feed inner m b ≡ (m', value v) → P rest
          step_value g = k m cb b g
      go (j, failed y) h f ih = cc
