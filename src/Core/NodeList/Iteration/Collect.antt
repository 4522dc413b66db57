-- ===== src/Core/NodeList/Iteration/Collect.antt =====
-- Range of internal/core/node_list.go with a callback that collects and never stops: it meets every
-- member that its filter asks for.
use eswim.Base.{
  ◌≡◌, refl, ap, ◌∙◌, Bool, true, false, ◌&&◌, Option, none, some, List, [], ◌∷◌, ◌++◌, arith,
  Option-cases, inl, inr,
}
use mathlib.Core.List.{append_assoc, append-nil}
use eswim.Proto.Ip.{NodeHash}
use eswim.Proto.Node.{Node, hash}
use eswim.Core.NodeList.{NodeList, Reordering, look, keys}
use eswim.Core.NodeList.Keys.{contains, is_some, contains-keys, contains-append, contains-apply}
use eswim.Core.NodeList.View.{Member, absent, stable, suspected, IsConsistent, view}
use eswim.Core.NodeList.Iteration.{range, range_loop, wanted_suspect}

module _ {B : Type 0} (f : Node → B) where
  -- `acc = append(acc, f(x)); return true`
  abbrev pub append_to : Node → List B → List B × Bool
  append_to x acc = (acc ++ (f x ∷ []), true)

  abbrev cons_if : Option Node → List B → List B
  cons_if none l = l
  cons_if (some x) l = f x ∷ l

  abbrev pub gathered : (NodeHash → Option Node) → List NodeHash → List B
  gathered entry [] = []
  gathered entry (h ∷ hs) = cons_if (entry h) (gathered entry hs)

  range_loop-gathered :
      (entry : NodeHash → Option Node) (hs : List NodeHash) (acc : List B)
      → range_loop append_to entry hs acc ≡ (acc ++ gathered entry hs, true)
  unfolding range_loop
  range_loop-gathered entry [] acc = ground (arith, append-nil acc)
  range_loop-gathered entry (h ∷ hs) acc = elim (Option-cases (entry h)) [
    | inl skipped ↦ rw (skipped, range_loop) (range_loop-gathered entry hs acc)
    | inr (x, here) ↦
        rw (here, range_loop)
          (range_loop-gathered entry hs (acc ++ (f x ∷ []))
            ∙ ap (λ l. (l, true)) (append_assoc acc (f x ∷ []) (gathered entry hs)))
  ]

  -- Over stable nodes and suspects.
  pub range_members :
      (order : Reordering) (n : NodeList)
      → range append_to order 3 n []
        ≡ gathered (λ h. look h n.stable) (order.apply (keys n.stable))
          ++ gathered
              (λ h. wanted_suspect false (look h n.suspects))
              (order.apply (keys n.suspects))
  unfolding range
  range_members order n = rw (
    range_loop-gathered (λ h. look h n.stable) (order.apply (keys n.stable)) [],
    range_loop-gathered (λ h. wanted_suspect false (look h n.suspects))
        (order.apply (keys n.suspects))
        (gathered (λ h. look h n.stable) (order.apply (keys n.stable))),
  )

module _ (entry : NodeHash → Option Node)
    (own : (h : NodeHash) (x : Node) → entry h ≡ some x → hash x ≡ h) where
  contains-gathered :
      (j : NodeHash) (hs : List NodeHash)
      → contains j (gathered hash entry hs) ≡ (contains j hs && is_some (entry j))
  contains-gathered j [] = refl
  contains-gathered j (h ∷ hs) = elim (Option-cases (entry h)) [
    | inl skipped ↦ ground (arith, contains-gathered j hs)
    | inr (x, here) ↦ ground (arith, contains-gathered j hs, own h x here)
  ]

abbrev pub is_member : Member → Bool
is_member absent = false
is_member (stable x) = true
is_member (suspected s) = true

module _ (n : NodeList) (c : IsConsistent n) where
  own_stable : (h : NodeHash) (x : Node) → look h n.stable ≡ some x → hash x ≡ h
  own_stable h x e = ground (arith, c h)

  own_suspect :
      (h : NodeHash) (x : Node) → wanted_suspect false (look h n.suspects) ≡ some x → hash x ≡ h
  own_suspect h x e = ground (arith, c h)

  -- The hashes that the walk collects are exactly those of the members.
  pub contains-range :
      (order : Reordering) (j : NodeHash)
      → contains j (range (append_to hash) order 3 n []) ≡ is_member (view n j)
  contains-range order j =
      ap (contains j) (range_members hash order n)
      ∙ contains-append j (gathered hash (λ h. look h n.stable) (order.apply (keys n.stable))) (
          gathered hash (λ h. wanted_suspect false (look h n.suspects))
            (order.apply (keys n.suspects)))
      ∙ ground (
        arith,
        contains-gathered (λ h. look h n.stable) own_stable j (order.apply (keys n.stable)),
        contains-gathered (λ h. wanted_suspect false (look h n.suspects)) own_suspect j
            (order.apply (keys n.suspects)),
        contains-apply order j (keys n.stable),
        contains-apply order j (keys n.suspects),
        contains-keys j n.stable,
        contains-keys j n.suspects,
      )
