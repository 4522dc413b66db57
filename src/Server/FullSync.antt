-- ===== src/Server/FullSync.antt =====
-- Whom a server syncs with: PerformFullSync of swim_server.go. The node that is selected is returned,
-- for PerformSync of the sync manager.
use eswim.Base.{
  ◌≡◌, ◌≢◌, refl, ap, sym, ◌∙◌, Bool, true, false, Option, none, some, All, List, [], ◌∷◌,
  Option-cases, inl, inr, arith, if◌then◌else◌,
}
use eswim.Proto.Ip.{NodeHash, NodeHash-discrete}
use eswim.Proto.Node.{Node, hash}
use eswim.Core.NodeList.{NodeList, Reordering, look, keys, node_type_stable, is_type}
use eswim.Core.NodeList.Iteration.{range, range_loop}
use eswim.Core.NodeList.Iteration.Collect.{gathered}

-- `foundFirst` with `firstNode`, and `anySelected` with `selected`.
pub record Selection : Type 0 where
  pub first_node : Option Node
  pub selected : Option Node

-- The callback.
unfoldable pub select : NodeHash → Node → Selection → Selection × Bool
select last n s =
    let first : Option Node = elim s.first_node [ none ↦ some n | some x ↦ some x ] in
    elim (NodeHash-discrete (hash n) last) [
      | yes e ↦ (record s { first_node = first }, true)
      | no ne ↦ (record { first_node = first; selected = some n }, false)
    ]

-- What is done with the selection.
unfoldable pub conclude : NodeHash → Selection → NodeHash × Option Node
conclude last s = elim s.selected [
  | some x ↦ (hash x, some x)
  | none ↦ elim s.first_node [ none ↦ (last, none) | some x ↦ (hash x, some x) ]
]

-- `PerformFullSync`: the new `lastFullSyncNode`, and the node to sync with.
unfoldable pub perform_full_sync : Reordering → NodeHash → NodeList → NodeHash × Option Node
unfolding select conclude
perform_full_sync order last n =
    conclude last
      (range (select last) order node_type_stable n (record { first_node = none; selected = none }))

-- Whom a walk over the nodes `l` has to find: the first one with another hash than `last`, or else the
-- first one.
abbrev pub other_than : NodeHash → List Node → Option Node
other_than last [] = none
other_than last (x ∷ xs) = elim (NodeHash-discrete (hash x) last) [
  | yes e ↦ other_than last xs
  | no ne ↦ some x
]

abbrev or_first : Option Node → List Node → Option Node
or_first (some x) l = some x
or_first none [] = none
or_first none (x ∷ xs) = some x

abbrev pub to_sync_with : NodeHash → List Node → Option Node
to_sync_with last l = or_first (other_than last l) l

abbrev first_of : Option Node → List Node → Option Node
first_of (some x) l = some x
first_of none [] = none
first_of none (x ∷ xs) = some x

module _ {S : Type 0} (fn : Node → S → S × Bool) where
  -- What a walk does with a callback's answer.
  abbrev go_on : (NodeHash → Option Node) → List NodeHash → S × Bool → S × Bool
  go_on entry hs r = if r.1 then range_loop fn entry hs r.0 else (r.0, false)

  range_loop-some :
      (entry : NodeHash → Option Node) (h : NodeHash) (hs : List NodeHash) (s : S) (x : Node)
      → entry h ≡ some x
      → range_loop fn entry (h ∷ hs) s ≡ go_on entry hs (fn x s)
  unfolding range_loop
  range_loop-some entry h hs s x e = rw (e, range_loop) refl

  -- Over stable nodes only.
  range_stable :
      (order : Reordering) (n : NodeList) (s : S)
      → range fn order node_type_stable n s
        ≡ (range_loop fn (λ h. look h n.stable) (order.apply (keys n.stable)) s).0
  unfolding range is_type
  range_stable order n s = ground arith

abbrev found : NodeHash → Option Node → List Node → Selection
found last first l = record { first_node = first_of first l; selected = other_than last l }

abbrev begun : Option Node → Selection
begun first = record { first_node = first; selected = none }

module _ (last : NodeHash) (entry : NodeHash → Option Node) where
  -- The callback at a node, when the rest of the walk is known.
  select-found :
      (x : Node) (first : Option Node) (hs : List NodeHash)
      → ((f : Option Node)
          → (range_loop (select last) entry hs (begun f)).0
            ≡ found last f (gathered (λ x. x) entry hs))
      → (go_on (select last) entry hs (select last x (begun first))).0
        ≡ found last first (x ∷ gathered (λ x. x) entry hs)
  unfolding select
  select-found x none hs ih =
      elim (NodeHash-discrete (hash x) last)
        as (λ d.
          (go_on (select last) entry hs (elim d [
            | yes e ↦ (begun (some x), true)
            | no ne ↦ (record { first_node = some x; selected = some x }, false)
          ])).0
          ≡ record {
            first_node = some x;
            selected = elim d [
              | yes e ↦ other_than last (gathered (λ x. x) entry hs)
              | no ne ↦ some x
            ];
          }) [ yes e ↦ ih (some x) | no ne ↦ refl ]
  select-found x (some y) hs ih =
      elim (NodeHash-discrete (hash x) last)
        as (λ d.
          (go_on (select last) entry hs (elim d [
            | yes e ↦ (begun (some y), true)
            | no ne ↦ (record { first_node = some y; selected = some x }, false)
          ])).0
          ≡ record {
            first_node = some y;
            selected = elim d [
              | yes e ↦ other_than last (gathered (λ x. x) entry hs)
              | no ne ↦ some x
            ];
          }) [ yes e ↦ ih (some y) | no ne ↦ refl ]

  walk :
      (hs : List NodeHash) (first : Option Node)
      → (range_loop (select last) entry hs (begun first)).0
        ≡ found last first (gathered (λ x. x) entry hs)
  unfolding range_loop
  walk [] none = refl
  walk [] (some y) = refl
  walk (h ∷ hs) first = elim (Option-cases (entry h)) [
    | inl skipped ↦ rw (skipped, range_loop) (walk hs first)
    | inr (x, here) ↦
        ap (λ r. r.0) (range_loop-some (select last) entry h hs (begun first) x here)
        ∙ select-found x first hs (walk hs)
        ∙ rw here
  ]

conclude-found :
    (last : NodeHash) (o : Option Node) (l : List Node)
    → conclude last (record { first_node = first_of none l; selected = o })
      ≡ elim (or_first o l) [ none ↦ (last, none) | some x ↦ (hash x, some x) ]
unfolding conclude
conclude-found last (some x) l = refl
conclude-found last none [] = refl
conclude-found last none (x ∷ l) = refl

-- A full sync is performed with the first stable member that the order of the map gives and that is not
-- the one of the last sync; when there is no other one, with the first; without a stable member, with
-- nobody. It is remembered as the last one.
pub perform_full_sync_lem :
    (order : Reordering) (last : NodeHash) (n : NodeList)
    → let members = gathered (λ x. x) (λ h. look h n.stable) (order.apply (keys n.stable)) in
      perform_full_sync order last n
      ≡ elim (to_sync_with last members) [ none ↦ (last, none) | some x ↦ (hash x, some x) ]
unfolding perform_full_sync
perform_full_sync_lem order last n =
    let members = gathered (λ x. x) (λ h. look h n.stable) (order.apply (keys n.stable)) in
    let e : range (select last) order node_type_stable n (begun none) ≡ found last none members =
      range_stable (select last) order n _
      ∙ walk last (λ h. look h n.stable) (order.apply (keys n.stable)) none in
    ap (conclude last) e ∙ conclude-found last (other_than last members) members

other_than-ne :
    (last : NodeHash) (l : List Node) (x : Node) → other_than last l ≡ some x → hash x ≢ last
other_than-ne last [] x = λ e. cc
other_than-ne last (y ∷ l) x =
    elim (NodeHash-discrete (hash y) last)
      as (λ d. elim d [ yes e ↦ other_than last l | no ne ↦ some y ] ≡ some x → hash x ≢ last) [
        | yes e ↦ other_than-ne last l x
        | no ne ↦ λ e h. ne (cc)
      ]

other_than-All :
    (last : NodeHash) (l : List Node) → other_than last l ≡ none → All (λ y. hash y ≡ last) l
other_than-All last [] = λ e. tt
other_than-All last (y ∷ l) =
    elim (NodeHash-discrete (hash y) last)
      as (λ d.
        elim d [ yes e ↦ other_than last l | no ne ↦ some y ] ≡ none
        → (hash y ≡ last) × All (λ y. hash y ≡ last) l) [
          | yes e ↦ λ h. (e, other_than-All last l h)
          | no ne ↦ λ h. cc
        ]

-- The node of the last full sync is selected again only if no other member is stable.
pub to_sync_with-All :
    (last : NodeHash) (l : List Node) (x : Node)
    → to_sync_with last l ≡ some x
    → hash x ≡ last
    → All (λ y. hash y ≡ last) l
to_sync_with-All last l x e h = elim (Option-cases (other_than last l)) [
  | inl nobody ↦ other_than-All last l nobody
  | inr (y, other) ↦
      let f : some y ≡ some x = ap (λ o. or_first o l) (sym other) ∙ e in
      absurd (other_than-ne last l y other (cc))
]
