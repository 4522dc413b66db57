-- ===== src/Server/Loop/Turns/Detection.antt =====
-- How a member that no longer answers leaves the list: periods of the loop of internal/core/runloop.go run on
-- swim_server.go, one after the other.
use eswim.Base.{
  ℕ, ◌+◌, ◌%◌, ◌<◌, ◌≤◌, ◌≡◌, refl, ap, sym, subst, ◌∙◌, true, false, some, List, [], ◌∷◌, length,
  ite, arith, All, if_pos, Bool-cases, inl, inr,
}
use eswim.Proto.Ip.{NodeHash, NodeHash-discrete}
use eswim.Proto.Node.{Node, hash}
use eswim.Core.NodeList.{Suspect}
use eswim.Core.NodeList.View.{IsConsistent, absent, stable, suspected, view}
use eswim.Core.NodeList.Expiry.{is_expired}
use eswim.Core.NodeList.Refinement.{suspected_by}
use eswim.Core.RunLoop.{Settings, RunLoopPeriod, Happening, turn}
use eswim.Core.RunLoop.Period.{answered, turns, turn-id}
use eswim.Server.Expiry.{expelled}
use eswim.Server.Loop.{Running, Tuning}
use eswim.Server.Loop.Turns.{members, IsQuiet, d, verdict, turn-view}
use eswim.Server.Loop.Turns.Judged.{Unanswered, Lost, turn-IsConsistent, turn-Judged}

module _ (t : Tuning) (settings : Settings) where
  -- Turns of the loop in which nothing but messages to it and ping timeouts happens, and no answer
  -- comes from the node whose hash is `j`.
  abbrev pub IsSilent :
      NodeHash → List (ℕ × List (Happening Running)) → RunLoopPeriod × Running → Type 0
  IsSilent j [] (r, s) = Unit
  IsSilent j ((random, hs) ∷ ts) (r, s) =
      All IsQuiet hs
      × Unanswered t settings j random hs r.id ((d t settings).next_probe_subject s).1
      × IsSilent j ts (turn (d t settings) settings random hs r s)

  turns-absent :
      (j : NodeHash) (ts : List (ℕ × List (Happening Running))) (r : RunLoopPeriod) (s : Running)
      → IsConsistent (members s)
      → IsSilent j ts (r, s)
      → view (members s) j ≡ absent
      → view (members (turns (d t settings) settings ts (r, s)).1) j ≡ absent
  turns-absent j [] r s c q e = e
  turns-absent j ((random, hs) ∷ ts) r s c q e =
      let (c', v) =
        turn-Judged t settings random hs r s j c q.0 q.1 (subst (Lost t settings) (sym e) tt) in
      turns-absent j ts (turn (d t settings) settings random hs r s).0
        (turn (d t settings) settings random hs r s).1 c' q.2
        (v ∙ ap (expelled r.id t.suspect_periods) e)

  kept_young :
      (id rounds : ℕ) (x : Suspect)
      → is_expired id rounds x ≡ false
      → x.suspect_at_period ≤ id
      → id < 65535
      → id < x.suspect_at_period + rounds
  unfolding is_expired
  kept_young id rounds x k since b = ground (arith, k)

  -- A suspect of a consistent list that the node no longer answers for has left the list when as many periods
  -- have begun since it was suspected as SuspectPeriods says, and does not come back: in turns of the loop
  -- in which nothing but messages to it and ping timeouts happens, in which no answer with the identifier and
  -- the cookie of a period that probes it comes in, and in which the hashes of the probed nodes are valid, as
  -- long as the identifiers of the periods do not wrap around.
  pub turns-expelled :
      (j : NodeHash) (ts : List (ℕ × List (Happening Running))) (r : RunLoopPeriod) (s : Running)
      (x : Suspect)
      → IsConsistent (members s)
      → view (members s) j ≡ suspected x
      → IsSilent j ts (r, s)
      → x.suspect_at_period ≤ r.id
      → r.id ≤ x.suspect_at_period + t.suspect_periods
      → x.suspect_at_period + t.suspect_periods < r.id + length ts
      → r.id + length ts < 65535
      → view (members (turns (d t settings) settings ts (r, s)).1) j ≡ absent
  turns-expelled j [] r s x c e q since young late b = absurd (omega arith)
  turns-expelled j ((random, hs) ∷ ts) r s x c e q since young late b =
      let (c', v) =
        turn-Judged t settings random hs r s j c q.0 q.1 (subst (Lost t settings) (sym e) tt) in
      let r' = (turn (d t settings) settings random hs r s).0 in
      let s' = (turn (d t settings) settings random hs r s).1 in
      elim (Bool-cases (is_expired r.id t.suspect_periods x)) [
        | inl gone ↦
            turns-absent j ts r' s' c' q.2
              (v ∙ ap (expelled r.id t.suspect_periods) e ∙ rw (gone) refl)
        | inr kept ↦
            let next : r'.id ≡ r.id + 1 =
              turn-id (d t settings) settings random hs r s ∙ ground arith in
            let k = kept_young r.id t.suspect_periods x kept since (omega arith) in
            turns-expelled j ts r' s' x c'
              (v ∙ ap (expelled r.id t.suspect_periods) e ∙ rw (kept) refl) q.2 (omega arith)
              (omega arith) (omega arith) (omega arith)
      ]

  young_kept :
      (id rounds : ℕ) (x : Suspect)
      → x.suspect_at_period ≡ id
      → 0 < rounds
      → is_expired id rounds x ≡ false
  unfolding is_expired
  young_kept id rounds x e h = ground (arith, e, h)

  -- A stable member of a consistent list that is probed and does not answer, and that no message speaks for
  -- later, is detected: it has left the list once SuspectPeriods further periods have ended, and does not
  -- come back. This holds for turns of the loop in which nothing but messages to it and ping timeouts happens,
  -- in which no answer with the identifier and the cookie of a period that probes the member comes in, and in
  -- which the hashes of the probed nodes are valid, as long as SuspectPeriods is not zero and the identifiers
  -- of the periods do not wrap around.
  pub turns-detected :
      (random : ℕ) (hs : List (Happening Running)) (ts : List (ℕ × List (Happening Running)))
      (r : RunLoopPeriod) (s : Running) (known probed : Node)
      → IsConsistent (members s)
      → view (members s) (hash probed) ≡ stable known
      → ((d t settings).next_probe_subject s).1 ≡ some probed
      → IsSilent (hash probed) ((random, hs) ∷ ts) (r, s)
      → 0 < t.suspect_periods
      → t.suspect_periods ≤ length ts
      → r.id + length ts + 1 < 65535
      → view (members (turns (d t settings) settings ((random, hs) ∷ ts) (r, s)).1) (hash probed)
        ≡ absent
  turns-detected random hs ts r s known probed c e p q positive enough b =
      let j = hash probed in
      let u : Unanswered t settings j random hs r.id (some probed) =
        subst (Unanswered t settings j random hs r.id) p q.1 in
      let x : Suspect = record {
        node = record known { suspect = true };
        suspect_at_period = r.id;
        from_remote = false;
      } in
      let now_suspect : ite (NodeHash-discrete j j)
            (verdict t settings (answered r.id (random % 65536) hs) r.id (view (members s) j))
            (view (members s) j)
          ≡ suspected x =
        if_pos (NodeHash-discrete j j) refl _ _
        ∙ ap (λ a. verdict t settings a r.id (view (members s) j)) (u.1 refl)
        ∙ ap (suspected_by r.id false) e in
      let next : (turn (d t settings) settings random hs r s).0.id ≡ r.id + 1 =
        turn-id (d t settings) settings random hs r s ∙ ground arith in
      turns-expelled j ts (turn (d t settings) settings random hs r s).0
        (turn (d t settings) settings random hs r s).1 x
        (turn-IsConsistent t settings random hs r s probed c q.0 p u.0)
        (turn-view t settings random hs r s probed j c q.0 p u.0
          ∙ ap (expelled r.id t.suspect_periods) now_suspect
          ∙ rw (young_kept r.id t.suspect_periods x refl positive) refl)
        q.2 (omega arith) (omega arith) (omega arith) (omega arith)
