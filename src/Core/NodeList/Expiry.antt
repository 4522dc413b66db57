-- ===== src/Core/NodeList/Expiry.antt =====
-- `ExpiredSuspects` of internal/core/node_list.go against the view.
use eswim.Base.{
  ℕ, ◌+◌, ◌≡◌, refl, Option, none, some, Bool, true, false, arith, if◌then◌else◌, leb, ◌&&◌, ◌||◌,
  not, List, [], ◌∷◌, ◌++◌, Option-cases, Bool-cases, ◌∙◌, sym, ap, inl, inr,
}
use mathlib.Core.List.{append_assoc, append-nil}
use eswim.Proto.Ip.{NodeHash}
use eswim.Proto.Node.{Node}
use eswim.Core.NodeList.{
  Suspect, NodeList, Reordering, look, keys, mark_faulty, period_distance, expired_loop,
  expired_suspects,
}
use eswim.Core.NodeList.Keys.{contains, contains-keys, contains-apply, is_some}
use eswim.Core.NodeList.View.{Member, absent, stable, suspected, IsConsistent, view}
use eswim.Core.NodeList.Refinement.{Sets, mark_faulty-Sets}

module _ (current rounds : ℕ) where
  -- The identifier of the current period is at least `rounds` above that of the period in which the
  -- suspicion began, or at least `rounds` below it, as it is once the identifiers have started again.
  -- A number of rounds that is the highest uint16 is never reached.
  unfoldable pub is_expired : Suspect → Bool
  is_expired s =
      leb rounds 65534
      && (leb (s.suspect_at_period + rounds) current || leb (current + rounds) s.suspect_at_period)

  is_expired-distance :
      (s : Suspect) → leb rounds (period_distance current s.suspect_at_period) ≡ is_expired s
  unfolding is_expired period_distance
  is_expired-distance s = ground arith

  -- What becomes of a member: a suspect that another node reported is dropped on its expiry.
  abbrev pub swept : Member → Member
  swept absent = absent
  swept (stable x) = stable x
  swept (suspected s) = if is_expired s && s.from_remote then absent else suspected s

  -- What is returned for a member: a suspect of this node, on its expiry.
  abbrev pub reported : Member → List Node
  reported absent = []
  reported (stable x) = []
  reported (suspected s) = if is_expired s && not s.from_remote then s.node ∷ [] else []

  abbrev pub all_reported : NodeList → List NodeHash → List Node
  all_reported n [] = []
  all_reported n (h ∷ hs) = reported (view n h) ++ all_reported n hs

  pub record Expires (n : NodeList) (hs : List NodeHash) (found : List Node)
      (m : NodeList × List Node) : Type 0 where
    pub consistent : IsConsistent m.0
    pub kept : (j : NodeHash) → view m.0 j ≡ (if contains j hs then swept (view n j) else view n j)
    pub listed : m.1 ≡ found ++ all_reported n hs

  swept-swept : (m : Member) → swept (swept m) ≡ swept m
  swept-swept absent = refl
  swept-swept m = ground arith

  reported-swept : (m : Member) → reported (swept m) ≡ reported m
  reported-swept absent = refl
  reported-swept m = ground arith

  all_reported-eq :
      (m n : NodeList) (hs : List NodeHash)
      → ((k : NodeHash) → reported (view m k) ≡ reported (view n k))
      → all_reported m hs ≡ all_reported n hs
  all_reported-eq m n [] e = refl
  all_reported-eq m n (h ∷ hs) e = cc (e h, all_reported-eq m n hs e)

  module _ (n m : NodeList) (h : NodeHash) (sets : Sets n h (swept (view n h)) m) where
    same_reports : (k : NodeHash) → reported (view m k) ≡ reported (view n k)
    same_reports k = ground (arith, sets.changed k, reported-swept (view n h))

    -- One key, whatever becomes of it, and then the rest.
    Expires-cons :
        (hs : List NodeHash) (found found' : List Node) (final : NodeList × List Node)
        → found' ≡ found ++ reported (view n h)
        → Expires m hs found' final
        → Expires n (h ∷ hs) found final
    Expires-cons hs found found' final e rest = record {
      consistent = rest.consistent;
      kept = λ j. ground (arith, rest.kept j, sets.changed j, swept-swept (view n h));
      listed = cc (
        rest.listed,
        all_reported-eq m n hs same_reports,
        append_assoc found (reported (view n h)) (all_reported n hs),
      );
    }

  -- One round of the loop.
  drops : Option Suspect → Bool
  drops none = false
  drops (some s) = is_expired s && s.from_remote

  next_list : NodeHash → NodeList → NodeList
  next_list h n = if drops (look h n.suspects) then mark_faulty h n else n

  lists : Option Suspect → List Node
  lists none = []
  lists (some s) = if is_expired s && not s.from_remote then s.node ∷ [] else []

  expired_loop_round :
      (h : NodeHash) (hs : List NodeHash) (n : NodeList) (found : List Node)
      → expired_loop current rounds (h ∷ hs) n found
        ≡ expired_loop current rounds hs (next_list h n) (found ++ lists (look h n.suspects))
  unfolding expired_loop next_list lists drops
  expired_loop_round h hs n found = elim (Option-cases (look h n.suspects)) [
    | inl unknown ↦ ground (arith, append-nil found, unknown)
    | inr (s, here) ↦ ground (arith, append-nil found, here, is_expired-distance s)
  ]

  module _ (n : NodeList) (c : IsConsistent n) (h : NodeHash) where
    drops-swept : (swept (view n h) ≡ (if drops (look h n.suspects) then absent else view n h))
    unfolding drops
    drops-swept = ground (arith, c h)

    next_list-Sets : Sets n h (swept (view n h)) (next_list h n)
    unfolding next_list
    next_list-Sets = elim (Bool-cases (drops (look h n.suspects))) [
      | inl d ↦ rw (drops-swept, d) (mark_faulty-Sets n c h)
      | inr k ↦ rw (drops-swept, k) (record { consistent = c; changed = λ j. ground arith })
    ]

    lists-reported : lists (look h n.suspects) ≡ reported (view n h)
    unfolding lists
    lists-reported = ground (arith, c h)

  expired_loop-Expires :
      (hs : List NodeHash) (n : NodeList) (found : List Node)
      → IsConsistent n
      → Expires n hs found (expired_loop current rounds hs n found)
  expired_loop-Expires [] n found c =
      unfold expired_loop in
      record { consistent = c; kept = λ j. refl; listed = sym (append-nil found) }
  expired_loop-Expires (h ∷ hs) n found c = rw (expired_loop_round h hs n found) (
      Expires-cons n (next_list h n) h (next_list-Sets n c h) hs found _ _
        (ap (λ l. found ++ l) (lists-reported n c h))
        (expired_loop-Expires hs (next_list h n) _ (next_list-Sets n c h).consistent))

  -- A suspect is visited in whatever order the map is visited.
  pub visits_suspects :
      (order : Reordering) (n : NodeList) (j : NodeHash) (s : Suspect)
      → look j n.suspects ≡ some s
      → contains j (order.apply (keys n.suspects)) ≡ true
  visits_suspects order n j s e =
      contains-apply order j _ ∙ contains-keys j n.suspects ∙ ap is_some e

  -- `ExpiredSuspects` on a consistent list, in whatever order Go visits the map: the list stays
  -- consistent, exactly the suspects that other nodes reported and whose time is over are gone from the
  -- view, and the nodes returned are exactly those of the suspects that this node itself found and whose
  -- time is over, in the order of the visit. The time of a suspect is over when the identifier of the
  -- current period is at least `rounds` above, or at least `rounds` below, that of the period in which the
  -- suspicion began, and `rounds` is not the highest uint16; so it may be over at once when the
  -- identifiers start again from 0.
  pub expired_suspects_lem :
      (order : Reordering) (n : NodeList)
      → IsConsistent n
      → IsConsistent (expired_suspects order current rounds n).0
        × ((j : NodeHash) → view (expired_suspects order current rounds n).0 j ≡ swept (view n j))
        × ((expired_suspects order current rounds n).1
            ≡ all_reported n (order.apply (keys n.suspects)))
  unfolding expired_suspects
  expired_suspects_lem order n c =
      let e = expired_loop-Expires (order.apply (keys n.suspects)) n [] c in
      (e.consistent, λ j. at j e, e.listed)
    where
      at :
          (j : NodeHash)
          → Expires n
              (order.apply (keys n.suspects))
              []
              (expired_loop current rounds (order.apply (keys n.suspects)) n [])
          → view (expired_loop current rounds (order.apply (keys n.suspects)) n []).0 j
            ≡ swept (view n j)
      at j e = elim (Option-cases (look j n.suspects)) [
        | inl unknown ↦ ground (arith, e.kept j, c j)
        | inr (s, here) ↦ ground (arith, e.kept j, c j, visits_suspects order n j s here)
      ]
