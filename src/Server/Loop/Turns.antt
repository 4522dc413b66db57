-- ===== src/Server/Loop/Turns.antt =====
-- What a whole protocol period does to the members of a server: the loop of internal/core/runloop.go run
-- on swim_server.go.
pub mod Judged
pub mod Detection
use eswim.Base.{
  ℕ, ◌%◌, ◌≡◌, ◌≢◌, refl, ap, sym, subst, ◌∙◌, Bool, true, false, some, List, [], ◌∷◌, ite,
  if◌then◌else◌, arith, All, Option-cases, inl, inr,
}
use eswim.Proto.Ip.{NodeHash, NodeHash-discrete, hash_zero}
use eswim.Proto.Node.{Node, hash}
use eswim.Proto.Message.{Message, indirect_ping}
use eswim.Core.NodeList.{NodeList}
use eswim.Core.NodeList.View.{IsConsistent, Member, view}
use eswim.Core.NodeList.Refinement.{Sets, stabilised, suspected_by, mark_stable-Sets}
use eswim.Core.NodeManager.{next_ping, refill, prepare_ping_list}
use eswim.Core.RunLoop.{
  Settings, RunLoopPeriod, Happening, ping_timeout, incoming, changed, start_period, wait_period,
  turn, synced, increment_id, ping_indirect, dispatch_all, handle_message, Delegate,
}
use eswim.Core.RunLoop.Period.{answered, turn-probed}
use eswim.Server.{signal_healthy_node}
use eswim.Server.Signals.{signal_suspect_node-Sets}
use eswim.Server.Expiry.{expelled, process_expired_suspects-expelled}
use eswim.Server.Loop.{
  Running, Tuning, loop_delegate, next_probe_subject, gossip_events, dispatch_message,
  sync_with_next,
}

abbrev pub members : Running → NodeList
members s = s.server.nodes.node_list

-- What can happen in a period in which nothing but its own messages and timeout reaches the server.
abbrev pub IsQuiet : Happening Running → Type 0
IsQuiet ping_timeout = Unit {0}
IsQuiet (incoming m) = Unit {0}
IsQuiet (changed f) = ⊥

module _ (t : Tuning) (settings : Settings) where
  abbrev d : Delegate Running
  d = loop_delegate t

  probe-members : (s : Running) → members (d.next_probe_subject s).0 ≡ members s
  unfolding loop_delegate next_probe_subject next_ping refill prepare_ping_list
  probe-members s = ground arith

  dispatch_all-members :
      (l : List Node) (m : Message) (s : Running) → members (dispatch_all d l m s) ≡ members s
  unfolding dispatch_all loop_delegate dispatch_message
  dispatch_all-members [] m s = refl
  dispatch_all-members (x ∷ l) m s = dispatch_all-members l m (d.dispatch_message x.address m s)

  ping_indirect-members :
      (r : RunLoopPeriod) (s : Running) → members (ping_indirect d r s) ≡ members s
  unfolding ping_indirect
  ping_indirect-members r s = elim (Option-cases (d.node_by_hash r.node s)) [
    | inl unknown ↦ ground (arith, unknown)
    | inr (n, known) ↦
        let e =
          dispatch_all-members (d.indirect_ping_members r.node s)
            (indirect_ping (record { cookie = r.cookie; period = r.id; address = n.address })) s in
        ground (arith, known, e)
  ]

  pub start_period-members :
      (random : ℕ) (r : RunLoopPeriod) (s : Running)
      → members (start_period d settings random r s).1 ≡ members s
  unfolding start_period loop_delegate gossip_events dispatch_message
  start_period-members random r s =
      elim (Option-cases (next_ping t.order t.shuffle s.server.nodes).1) [
        | inl nobody ↦ rw (nobody, start_period) (probe-members s)
        | inr (n, probed) ↦ rw (probed, start_period) (probe-members s)
      ]

  wait_period-members :
      (hs : List (Happening Running)) (r : RunLoopPeriod) (s : Running)
      → All IsQuiet hs
      → members (wait_period d hs r s).1 ≡ members s
  unfolding wait_period
  wait_period-members [] r s w = refl
  wait_period-members (ping_timeout ∷ hs) r s w =
      wait_period-members hs r (ite (NodeHash-discrete r.node hash_zero) s (ping_indirect d r s))
        w.1
      ∙ ground (arith, ping_indirect-members r s)
  wait_period-members (incoming m ∷ hs) r s w = wait_period-members hs (handle_message m r) s w.1
  wait_period-members (changed f ∷ hs) r s w = absurd w.0

  pub synced-members : (id : ℕ) (s : Running) → members (synced d settings id s) ≡ members s
  unfolding synced loop_delegate sync_with_next
  synced-members id s = ground arith

  -- What the end of a period finds about the node that was probed.
  abbrev pub verdict : Bool → ℕ → Member → Member
  verdict acked period m = if acked then stabilised m else suspected_by period false m

  abbrev signal : Bool → ℕ → NodeHash → Running → Running
  signal acked period h s =
      if acked then d.signal_healthy_node h s else d.signal_suspect_node period h s

  signal-Sets :
      (acked : Bool) (period : ℕ) (h : NodeHash) (s : Running)
      → IsConsistent (members s)
      → Sets
          (members s)
          h
          (verdict acked period (view (members s) h))
          (members (signal acked period h s))
  unfolding loop_delegate signal_healthy_node
  signal-Sets true period h s c = mark_stable-Sets (members s) c h
  signal-Sets false period h s c = (signal_suspect_node-Sets t.sorter period h s.server c).0

  -- The members after a signal and the processing of expired suspects.
  judged :
      (acked : Bool) (period : ℕ) (h : NodeHash) (s : Running) (n : NodeList) (j : NodeHash)
      → IsConsistent n
      → members s ≡ n
      → view (members (d.process_expired_suspects period (signal acked period h s))) j
        ≡ expelled period t.suspect_periods
            (ite (NodeHash-discrete j h) (verdict acked period (view n h)) (view n j))
  unfolding loop_delegate
  judged acked period h s n j c e =
      let c' : IsConsistent (members s) = subst IsConsistent (sym e) c in
      let sets = signal-Sets acked period h s c' in
      (process_expired_suspects-expelled t.sorter t.order t.suspect_periods period
          (signal acked period h s).server sets.consistent).1
        j
      ∙ ap (expelled period t.suspect_periods) (
          sets.changed j
          ∙ ap (λ n. ite (NodeHash-discrete j h) (verdict acked period (view n h)) (view n j)) e)

  pub turn-view :
      (random : ℕ) (hs : List (Happening Running)) (r : RunLoopPeriod) (s : Running) (n : Node)
      (j : NodeHash)
      → IsConsistent (members s)
      → All IsQuiet hs
      → (d.next_probe_subject s).1 ≡ some n
      → hash n ≢ hash_zero
      → view (members (turn d settings random hs r s).1) j
        ≡ expelled r.id t.suspect_periods (
            ite
              (NodeHash-discrete j (hash n))
              (verdict (answered r.id (random % 65536) hs) r.id (view (members s) (hash n)))
              (view (members s) j))
  turn-view random hs r s n j c q e valid =
      let (r', s') = start_period d settings random r s in
      let w = (wait_period d hs r' s').1 in
      ap (λ x. view (members x) j) (turn-probed d settings random hs r s n e valid)
      ∙ ap (λ l. view l j) (synced-members (increment_id r).id _)
      ∙ judged (answered r.id (random % 65536) hs) r.id (hash n) w (members s) j c
          (wait_period-members hs r' s' q ∙ start_period-members random r s)
