-- ===== src/Fsm/Repeated.antt =====
-- A machine that reads a counted sequence of items by another machine, as the decoders of a Ping and
-- of a Sync do. The section says how the outer machine follows the inner one; its lemmas then read
-- the whole sequence.
use eswim.Base.{refl, ℕ, zero, suc, ◌≡◌, ap, refl, ◌∙◌, List, [], ◌∷◌, ◌++◌, length, All}
use eswim.Fsm.{Fsm, Def, Run, proceed, Fed, pending, value, finished, feed, run}
use eswim.Fsm.Nested.{run-nested}
use mathlib.Core.List.{append_assoc}

-- The bytes of a sequence.
abbrev pub all_bytes : {X : Type 0} → (X → List ℕ) → List X → List ℕ
all_bytes encode [] = []
all_bytes encode (x ∷ xs) = encode x ++ all_bytes encode xs

-- The index that a sequence leaves.
abbrev pub last_index : {X I : Type 0} → (X → I) → I → List X → I
last_index after i [] = i
last_index after i (x ∷ xs) = last_index after (after x) xs

-- What the outer machine is after an item, when `n` are still to come.
module _ {T S C T' S' C' X E : Type 0} (reading : List X → ℕ → Fsm T S C → ℕ → Fsm T' S' C')
    (complete : List X → T') (ended : Fsm T S C → Fsm T' S' C') where
  abbrev pub taken : List X → ℕ → Fsm T S C → ℕ → Fsm T' S' C' × Fed T' E
  taken l zero m b = (ended m, value (complete l))
  taken l (suc n) m b = (reading l (suc n) m b, pending)

module _ {T S C T' S' C' X E : Type 0} (inner : Def T S C E) (outer : Def T' S' C' E)
    (reading : List X → ℕ → Fsm T S C → ℕ → Fsm T' S' C') (complete : List X → T')
    (ended : Fsm T S C → Fsm T' S' C') (wrap : X → T)
    (follows : (l : List X) (n cb b : ℕ) (m m' : Fsm T S C)
      → feed inner m b ≡ (m', pending)
      → feed outer (reading l (suc n) m cb) b ≡ (reading l (suc n) m' b, pending))
    (takes : (l : List X) (n cb b : ℕ) (m m' : Fsm T S C) (x : X)
      → feed inner m b ≡ (m', value (wrap x))
      → feed outer (reading l (suc n) m cb) b
        ≡ taken reading complete ended (l ++ (x ∷ [])) n m' b) where
  -- One item, and then what `taken` says.
  run-item :
      (bs : List ℕ) (m m' : Fsm T S C) (x : X) (rest : List ℕ) (l : List X) (n cb : ℕ)
      {r : Run T' S' C' E}
      → run inner m bs ≡ finished (wrap x) m' rest
      → ((b : ℕ) → proceed outer (taken reading complete ended (l ++ (x ∷ [])) n m' b) rest ≡ r)
      → run outer (reading l (suc n) m cb) bs ≡ r
  run-item bs m m' x rest l n cb e k =
      run-nested inner outer (reading l (suc n)) (follows l n) bs m m' (wrap x) rest cb e
        (λ m0 cb b h. ap (λ q. proceed outer q rest) (takes l n cb b m0 m' x h) ∙ k b)

  -- Between two items the inner machine is `ready`, at an index that the last item leaves.
  module _ {I : Type 0} (ready : I → Fsm T S C) (after : X → I) (encode : X → List ℕ)
      (Ok : X → Type 0)
      (reads : (i : I) (x : X) (rest : List ℕ)
        → Ok x
        → run inner (ready i) (encode x ++ rest) ≡ finished (wrap x) (ready (after x)) rest) where
    -- The outer machine reads all the items, in order, and leaves what follows.
    pub run-items :
        (x : X) (xs l : List X) (i : I) (cb : ℕ) (rest : List ℕ)
        → Ok x
        → All Ok xs
        → run outer
            (reading l (suc (length xs)) (ready i) cb)
            (encode x ++ (all_bytes encode xs ++ rest))
          ≡ finished (complete (l ++ (x ∷ xs))) (ended (ready (last_index after (after x) xs))) rest
    run-items x [] l i cb rest w ws =
        run-item (encode x ++ rest) (ready i) (ready (after x)) x rest l zero cb (reads i x rest w)
          (λ b. refl)
    run-items x (y ∷ ys) l i cb rest w ws =
        run-item _ (ready i) (ready (after x)) x _ l (suc (length ys)) cb (reads i x _ w) (λ b.
          rw append_assoc (
            run-items y ys (l ++ (x ∷ [])) (after x) b rest ws.0 ws.1
            ∙ ap (λ k. finished (complete k) (ended (ready (last_index after (after y) ys))) rest)
                (append_assoc l (x ∷ []) (y ∷ ys))))
