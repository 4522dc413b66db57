-- ===== src/Core/NodeList/Keys.antt =====
-- Which keys a map has, and which of them a walk over it visits: all of them, in any order.
use eswim.Base.{
  ◌≡◌, refl, ite, Option, none, some, Bool, true, false, ◌||◌, arith, List, [], ◌∷◌, ◌++◌,
}
use eswim.Base.Assoc.{get}
use eswim.Proto.Ip.{NodeHash, NodeHash-discrete}
use eswim.Core.NodeList.{Reordering, look, keys}
use mathlib.Core.List.{Mem, mem-cons_self, mem-cons_of_mem, not-mem-nil, eq-or-mem_of_mem-cons}
use mathlib.Core.List.Perm
use mathlib.Core.Logic.Or

abbrev pub contains : NodeHash → List NodeHash → Bool
contains j [] = false
contains j (h ∷ hs) = ite (NodeHash-discrete j h) true (contains j hs)

abbrev pub is_some : {V : Type 0} → Option V → Bool
is_some none = false
is_some (some v) = true

pub contains-keys :
    {V : Type 0} (j : NodeHash) (m : List (NodeHash × V)) → contains j (keys m) ≡ is_some (look j m)
unfolding get
contains-keys j [] = refl
contains-keys j ((i, w) ∷ m) = ground (arith, contains-keys j m)

pub contains-append :
    (j : NodeHash) (l k : List NodeHash) → contains j (l ++ k) ≡ (contains j l || contains j k)
contains-append j [] k = refl
contains-append j (h ∷ l) k = ground (arith, contains-append j l k)

mem_of_contains : (j : NodeHash) (l : List NodeHash) → contains j l ≡ true → Mem j l
mem_of_contains j [] e = cc
mem_of_contains j (h ∷ l) e = elim (NodeHash-discrete j h) [
  | yes p ↦ rw p mem-cons_self
  | no p ↦ mem-cons_of_mem h (mem_of_contains j l (ground arith))
]

contains_of_mem : (j : NodeHash) (l : List NodeHash) → Mem j l → contains j l ≡ true
contains_of_mem j [] m = absurd (not-mem-nil m)
contains_of_mem j (h ∷ l) m =
    Or.elim (hlevel) (eq-or-mem_of_mem-cons m) (λ e. ground arith)
      (λ r. ground (arith, contains_of_mem j l r))

-- A rearrangement has the same members.
pub contains-apply :
    (order : Reordering) (j : NodeHash) (l : List NodeHash)
    → contains j (order.apply l) ≡ contains j l
contains-apply order j l = ground (arith, there, back)
  where
    there : contains j (order.apply l) ≡ true → contains j l ≡ true
    there e = contains_of_mem j l ((Perm.mem_iff (order.apply-perm l)).0 (mem_of_contains j _ e))

    back : contains j l ≡ true → contains j (order.apply l) ≡ true
    back e = contains_of_mem j _ ((Perm.mem_iff (order.apply-perm l)).1 (mem_of_contains j l e))
