-- ===== src/Server/Syncs/Known.antt =====
-- Who is a member after a list of nodes has come in: Bootstrap of internal/core/node_list.go.
use eswim.Base.{ℕ, ◌≡◌, true, false, ◌⊎◌, inl, inr, subst, List, [], ◌∷◌, All, Bool-cases, arith}
use eswim.Proto.Ip.{Ip, NodeHash, equal}
use eswim.Proto.Node.{Node, hash}
use eswim.Core.NodeList.{NodeList, unsafe_add, bootstrap}
use eswim.Core.NodeList.View.{IsConsistent, view}
use eswim.Core.NodeList.Refinement.{added, unsafe_add-Sets, unsafe_add-IsConsistent}
use eswim.Core.NodeList.Iteration.Collect.{is_member}
use eswim.Server.Events.{unsafe_add-self_addr}

added-member :
    (period : ℕ) (x : Node) (n : NodeList) → is_member (added period x (view n (hash x))) ≡ true
added-member period x n = ground arith

module _ (n : NodeList) (c : IsConsistent n) (period : ℕ) (x : Node) where
  unsafe_add-enters :
      equal n.self_addr x.address ≡ false → is_member (view (unsafe_add period x n) (hash x)) ≡ true
  unsafe_add-enters other =
      let s = unsafe_add-Sets n c period x other in
      let m = added-member period x n in ground (arith, s.changed (hash x), m)

  unsafe_add-keeps :
      (j : NodeHash)
      → is_member (view n j) ≡ true
      → is_member (view (unsafe_add period x n) j) ≡ true
  unsafe_add-keeps j k = elim (Bool-cases (equal n.self_addr x.address)) [
    | inl own ↦ unfold unsafe_add in rw own k
    | inr other ↦
        let s = unsafe_add-Sets n c period x other in
        let m = added-member period x n in ground (arith, s.changed j, m, k)
  ]

bootstrap-keeps :
    (period : ℕ) (list : List Node) (n : NodeList) (j : NodeHash)
    → IsConsistent n
    → is_member (view n j) ≡ true
    → is_member (view (bootstrap period list n) j) ≡ true
unfolding bootstrap
bootstrap-keeps period [] n j c k = k
bootstrap-keeps period (x ∷ xs) n j c k =
    bootstrap-keeps period xs (unsafe_add period x n) j (unsafe_add-IsConsistent n c period x)
      (unsafe_add-keeps n c period x j k)

-- A node is known to a list, or has the list's own address.
abbrev pub Known : Ip → NodeList → Node → Type 0
Known self n x = (equal self x.address ≡ true) ⊎ (is_member (view n (hash x)) ≡ true)

-- After a bootstrap every node of the list that came in is a member, but for the own address.
pub bootstrap-Known :
    (period : ℕ) (list : List Node) (n : NodeList)
    → IsConsistent n
    → All (Known n.self_addr (bootstrap period list n)) list
unfolding bootstrap
bootstrap-Known period [] n c = tt
bootstrap-Known period (x ∷ xs) n c =
    let n' = unsafe_add period x n in
    let c' = unsafe_add-IsConsistent n c period x in
    (
      elim (Bool-cases (equal n.self_addr x.address)) [
        | inl own ↦ inl own
        | inr other ↦
            inr (bootstrap-keeps period xs n' (hash x) c' (unsafe_add-enters n c period x other))
      ],
      subst (λ self. All (Known self (bootstrap period xs n')) xs) (unsafe_add-self_addr period x n)
          (bootstrap-Known period xs n' c'),
    )
