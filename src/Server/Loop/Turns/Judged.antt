-- ===== src/Server/Loop/Turns/Judged.antt =====
-- What one period of a server does to a member that no longer answers: the loop of internal/core/runloop.go
-- run on swim_server.go.
use eswim.Base.{
  ℕ, ◌%◌, ◌≡◌, ◌≢◌, refl, ap, sym, subst, ◌∙◌, false, Option, none, some, List, All, if_pos, if_neg,
  Option-cases, inl, inr,
}
use eswim.Proto.Ip.{NodeHash, NodeHash-discrete, hash_zero}
use eswim.Proto.Node.{Node, hash}
use eswim.Core.NodeList.View.{IsConsistent, Member, absent, stable, suspected, view}
use eswim.Core.NodeList.Refinement.{suspected_by}
use eswim.Core.RunLoop.{
  Settings, RunLoopPeriod, Happening, start_period, wait_period, turn, increment_id,
}
use eswim.Core.RunLoop.Period.{answered, turn-probed, turn-idle}
use eswim.Server.Expiry.{expelled, process_expired_suspects-expelled}
use eswim.Server.Loop.{Running, Tuning, loop_delegate}
use eswim.Server.Loop.Turns.{
  members, IsQuiet, d, probe-members, start_period-members, wait_period-members, synced-members,
  verdict, signal-Sets, turn-view,
}

module _ (t : Tuning) (settings : Settings) where
  -- A period in which no answer comes from the node that is probed, should its hash be `j`; the hashes
  -- of all nodes are valid.
  abbrev pub Unanswered : NodeHash → ℕ → List (Happening Running) → ℕ → Option Node → Type 0
  Unanswered j random hs id none = Unit
  Unanswered j random hs id (some n) =
      (hash n ≢ hash_zero) × (hash n ≡ j → answered id (random % 65536) hs ≡ false)

  -- A suspect, or no member at all.
  abbrev pub Lost : Member → Type 0
  Lost absent = Unit
  Lost (stable x) = ⊥
  Lost (suspected x) = Unit

  suspected_by-Lost : (period : ℕ) (m : Member) → Lost m → suspected_by period false m ≡ m
  suspected_by-Lost period absent l = refl
  suspected_by-Lost period (suspected x) l = refl
  suspected_by-Lost period (stable x) l = absurd l

  module _ (random : ℕ) (hs : List (Happening Running)) (r : RunLoopPeriod) (s : Running) where
    abbrev waited : Running
    waited =
        (wait_period (d t settings) hs (start_period (d t settings) settings random r s).0
          (start_period (d t settings) settings random r s).1).1

    expelled-IsConsistent :
        (s' : Running)
        → IsConsistent (members s')
        → IsConsistent (members ((d t settings).process_expired_suspects r.id s'))
          × ((j : NodeHash)
              → view (members ((d t settings).process_expired_suspects r.id s')) j
                ≡ expelled r.id t.suspect_periods (view (members s') j))
    unfolding loop_delegate
    expelled-IsConsistent s' c =
        process_expired_suspects-expelled t.sorter t.order t.suspect_periods r.id s'.server c

    pub turn-IsConsistent :
        (n : Node)
        → IsConsistent (members s)
        → All IsQuiet hs
        → ((d t settings).next_probe_subject s).1 ≡ some n
        → hash n ≢ hash_zero
        → IsConsistent (members (turn (d t settings) settings random hs r s).1)
    turn-IsConsistent n c q e valid =
        let m =
          wait_period-members t settings hs (start_period (d t settings) settings random r s).0
            (start_period (d t settings) settings random r s).1 q
          ∙ start_period-members t settings random r s in
        let a = answered r.id (random % 65536) hs in
        let sets = signal-Sets t settings a r.id (hash n) waited (subst IsConsistent (sym m) c) in
        subst IsConsistent
          (sym (
            ap members (turn-probed (d t settings) settings random hs r s n e valid)
            ∙ synced-members t settings (increment_id r).id _))
          (expelled-IsConsistent _ sets.consistent).0

    -- The list after a turn: consistent, and with a lost member under `j` as it was, unless it expired.
    abbrev pub Judged : NodeHash → Running → Type 0
    Judged j s' =
        IsConsistent (members s')
        × (view (members s') j ≡ expelled r.id t.suspect_periods (view (members s) j))

    idle-Judged :
        (j : NodeHash)
        → IsConsistent (members s)
        → All IsQuiet hs
        → ((d t settings).next_probe_subject s).1 ≡ none
        → Judged j (turn (d t settings) settings random hs r s).1
    idle-Judged j c q e =
        let s0 = ((d t settings).next_probe_subject s).0 in
        let r' = (start_period (d t settings) settings random r s).0 in
        let m = wait_period-members t settings hs r' s0 q ∙ probe-members t settings s in
        let (c', v) =
          expelled-IsConsistent (wait_period (d t settings) hs r' s0).1
            (subst IsConsistent (sym m) c) in
        subst
          (λ n. IsConsistent n × (view n j ≡ expelled r.id t.suspect_periods (view (members s) j)))
          (sym (
            ap members (turn-idle (d t settings) settings random hs r s e)
            ∙ synced-members t settings (increment_id r).id _))
          (c', v j ∙ ap (λ n. expelled r.id t.suspect_periods (view n j)) m)

    probed-Judged :
        (n : Node) (j : NodeHash)
        → IsConsistent (members s)
        → All IsQuiet hs
        → ((d t settings).next_probe_subject s).1 ≡ some n
        → Unanswered j random hs r.id (some n)
        → Lost (view (members s) j)
        → Judged j (turn (d t settings) settings random hs r s).1
    probed-Judged n j c q e u l = (
      turn-IsConsistent n c q e u.0,
      turn-view t settings random hs r s n j c q e u.0
          ∙ ap (expelled r.id t.suspect_periods) (elim (NodeHash-discrete j (hash n)) [
            | yes same ↦
                if_pos (NodeHash-discrete j (hash n)) same _ _
                ∙ ap (λ a. verdict t settings a r.id (view (members s) (hash n))) (u.1 (sym same))
                ∙ ap (λ h. suspected_by r.id false (view (members s) h)) (sym same)
                ∙ suspected_by-Lost r.id _ l
            | no other ↦ if_neg (NodeHash-discrete j (hash n)) other _ _
          ]),
    )

    pub turn-Judged :
        (j : NodeHash)
        → IsConsistent (members s)
        → All IsQuiet hs
        → Unanswered j random hs r.id ((d t settings).next_probe_subject s).1
        → Lost (view (members s) j)
        → Judged j (turn (d t settings) settings random hs r s).1
    turn-Judged j c q u l = elim (Option-cases ((d t settings).next_probe_subject s).1) [
      | inl e ↦ idle-Judged j c q e
      | inr (n, e) ↦ probed-Judged n j c q e (subst (Unanswered j random hs r.id) e u) l
    ]
