-- ===== src/Core/GossipManager/About.antt =====
-- What the queue of internal/core/gossip_manager.go says about a node: one event at most, and which
-- one after an Add.
use eswim.Base.{
  ◌≡◌, refl, sym, ◌∙◌, false, none, some, List, [], ◌∷◌, ◌++◌, map, arith, Bool-cases, Option-cases,
  inl, inr, if◌then◌else◌,
}
use eswim.Base.Int.{pos}
use eswim.Proto.Ip.{Ip, equal}
use eswim.Proto.Ip.Equal.{equal_iff}
use eswim.Proto.Event.{Event, get_subject}
use eswim.Core.GossipManager.{GossipItem, find_about, override}
use mathlib.Core.List.{
  Mem, Nodup, Perm, mem-cons_self, mem-cons_of_mem, not-mem-nil, eq-or-mem_of_mem-cons, Nodup-cons,
  mem-map_of_mem,
}
use mathlib.Core.List.Perm
use mathlib.Core.Logic.Or

abbrev pub subject : GossipItem → Ip
subject v = get_subject v.event

-- No two events of the queue are about the same node.
abbrev pub IsUnique : List GossipItem → Type 0
IsUnique q = Nodup (map subject q)

pub find_about-Mem :
    (ip : Ip) (q : List GossipItem) (v : GossipItem)
    → find_about ip q ≡ some v
    → Mem v q × (subject v ≡ ip)
unfolding find_about
find_about-Mem ip [] v e = cc
find_about-Mem ip (x ∷ q) v e = elim (Bool-cases (equal (subject x) ip)) [
  | inl same ↦
      let here : x ≡ v = ground arith in
      (rw here mem-cons_self, rw (← here) ((equal_iff (subject x) ip).0 same))
  | inr other ↦ let (m, s) = find_about-Mem ip q v (ground arith) in (mem-cons_of_mem x m, s)
]

find_about_of_mem :
    (v : GossipItem) (q : List GossipItem)
    → IsUnique q
    → Mem v q
    → find_about (subject v) q ≡ some v
unfolding find_about
find_about_of_mem v [] u m = absurd (not-mem-nil m)
find_about_of_mem v (x ∷ q) u m =
    Or.elim (hlevel) (eq-or-mem_of_mem-cons m)
      (λ e. rw (e, (equal_iff (subject x) (subject x)).1 refl) refl)
      (λ r. ground (arith, apart r, find_about_of_mem v q (Nodup-cons.0 u).1 r))
  where
    apart : Mem v q → equal (subject x) (subject v) ≡ false
    apart r = elim (Bool-cases (equal (subject x) (subject v))) [
      | inl same ↦ absurd (
          (Nodup-cons.0 u).0
            (rw ((equal_iff (subject x) (subject v)).0 same) (mem-map_of_mem subject r)))
      | inr other ↦ other
    ]

-- In a queue without duplicates a search does not depend on the order.
pub find_about-perm :
    (ip : Ip) (p q : List GossipItem) → Perm p q → IsUnique q → find_about ip p ≡ find_about ip q
find_about-perm ip p q h u = elim (Option-cases (find_about ip q)) [
  | inr (v, there) ↦ let (m, s) = find_about-Mem ip q v there in rw there (from_q v m s)
  | inl nowhere ↦ elim (Option-cases (find_about ip p)) [
    | inl neither ↦ neither ∙ sym nowhere
    | inr (v, here) ↦ let (m, s) = find_about-Mem ip p v here in cc (from_p v m s)
  ]
]
  where
    from_q : (v : GossipItem) → Mem v q → subject v ≡ ip → find_about ip p ≡ some v
    from_q v m s = rw (← s) (
        find_about_of_mem v p (Perm.nodup (Perm.symm (Perm.map subject h)) u)
          ((Perm.mem_iff h).1 m))

    from_p : (v : GossipItem) → Mem v p → subject v ≡ ip → find_about ip q ≡ some v
    from_p v m s = rw (← s) (find_about_of_mem v q u ((Perm.mem_iff h).0 m))

pub subject-override :
    (item : Event) (q : List GossipItem) → map subject (override item q) ≡ map subject q
unfolding override
subject-override item [] = refl
subject-override item (v ∷ q) =
    ground (arith, equal_iff (subject v) (get_subject item), subject-override item q)

pub find_about-override :
    (ip : Ip) (item : Event) (q : List GossipItem) (old : GossipItem)
    → find_about (get_subject item) q ≡ some old
    → find_about ip (override item q) ≡ (
        if equal (get_subject item) ip
        then some (record { event = item; tx_left = pos 0 })
        else find_about ip q)
unfolding override find_about
find_about-override ip item [] old e = cc
find_about-override ip item (v ∷ q) old e = ground (
  arith,
  equal_iff (subject v) (get_subject item),
  equal_iff (subject v) ip,
  equal_iff (get_subject item) ip,
  find_about-override ip item q old,
)

pub find_about-snoc :
    (ip : Ip) (q : List GossipItem) (v : GossipItem)
    → find_about (subject v) q ≡ none
    → find_about ip (q ++ (v ∷ [])) ≡ (if equal (subject v) ip then some v else find_about ip q)
unfolding find_about
find_about-snoc ip [] v e = refl
find_about-snoc ip (x ∷ q) v e = ground (
  arith,
  equal_iff (subject x) (subject v),
  equal_iff (subject x) ip,
  equal_iff (subject v) ip,
  find_about-snoc ip q v,
)

pub not_mem_of_find_about :
    (q : List GossipItem) (ip : Ip) → find_about ip q ≡ none → ¬ Mem ip (map subject q)
unfolding find_about
not_mem_of_find_about [] ip e = not-mem-nil
not_mem_of_find_about (x ∷ q) ip e = λ m.
    Or.elim (hlevel) (eq-or-mem_of_mem-cons m) (λ s. ground (arith, equal_iff (subject x) ip))
      (not_mem_of_find_about q ip (ground arith))
