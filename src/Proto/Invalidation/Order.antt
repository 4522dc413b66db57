-- ===== src/Proto/Invalidation/Order.antt =====
-- How the override relation of internal/proto/invalidation.go behaves: what it does to incarnations,
-- and when two events override each other.
use eswim.Base.{ℕ, ◌≤◌, ◌<◌, ◌≡◌, ◌≢◌, ◌↔◌, true, arith}
use eswim.Proto.Event.{
  EventKind, kind_join, kind_healthy, kind_suspect, kind_faulty, kind_left, kind_alive, kind_wrap,
  Event, join, faulty, event_kind, get_incarnation,
}
use eswim.Proto.Invalidation.{invalidates}

-- The tables in the comments of invalidation.go: what `{ ..., inc = i } overrides { ..., inc = j }`
-- asks of `i` and `j`, the overriding kind first.
pub data Demand : Type 0 where
  never any newer newer_or_same : Demand

abbrev pub demand : EventKind → EventKind → Demand
demand kind_faulty _ = any
demand kind_alive _ = newer
demand kind_join kind_faulty = never
demand kind_join _ = newer
demand kind_suspect kind_suspect = newer
demand kind_suspect kind_faulty = newer
demand kind_suspect kind_left = newer
demand kind_suspect _ = newer_or_same
demand kind_healthy kind_faulty = never
demand kind_healthy kind_suspect = newer_or_same
demand kind_healthy kind_join = newer_or_same
demand kind_healthy _ = newer
demand kind_left kind_faulty = never
demand kind_left kind_left = newer
demand kind_left _ = newer_or_same
demand kind_wrap kind_faulty = never
demand kind_wrap kind_left = newer
demand kind_wrap kind_wrap = newer
demand kind_wrap _ = newer_or_same

abbrev pub Meets : Demand → ℕ → ℕ → Type 0
Meets never i j = ⊥
Meets any i j = Unit
Meets newer i j = j < i
Meets newer_or_same i j = j ≤ i

-- An event overrides another exactly when the tables in the comments of the source say so, for each
-- of the forty-nine pairs of kinds.
pub invalidates_iff :
    (new old : Event)
    → (invalidates new old ≡ true)
      ↔ Meets (demand (event_kind new) (event_kind old)) (get_incarnation new) (get_incarnation old)
unfolding invalidates
invalidates_iff (join p) old = ground arith
invalidates_iff new old = ground arith

-- An event that overrides another has at least its incarnation, unless it reports a faulty node.
pub invalidates-le :
    (new old : Event)
    → event_kind new ≢ kind_faulty
    → invalidates new old ≡ true
    → get_incarnation old ≤ get_incarnation new
unfolding invalidates
invalidates-le (faulty f) old nf h = absurd (ground arith)
invalidates-le new old nf h = ground arith

abbrev pub Contradicts : EventKind → EventKind → Type 0
Contradicts kind_suspect kind_healthy = Unit
Contradicts kind_suspect kind_wrap = Unit
Contradicts kind_healthy kind_suspect = Unit
Contradicts kind_wrap kind_suspect = Unit
Contradicts _ _ = ⊥

-- Two events of which neither reports a faulty node override each other exactly when they have the
-- same incarnation and one is a suspicion that the other, healthy or wrap, contradicts.
pub invalidates-mutual_iff :
    (a b : Event)
    → event_kind a ≢ kind_faulty
    → event_kind b ≢ kind_faulty
    → ((invalidates a b ≡ true) × (invalidates b a ≡ true))
      ↔ ((get_incarnation a ≡ get_incarnation b) × Contradicts (event_kind a) (event_kind b))
unfolding invalidates
invalidates-mutual_iff (join p) b na nb = ground arith
invalidates-mutual_iff a b na nb = ground arith

-- Only a report of a faulty node overrides itself.
pub invalidates_self : (e : Event) → (invalidates e e ≡ true) ↔ (event_kind e ≡ kind_faulty)
unfolding invalidates
invalidates_self (join p) = ground arith
invalidates_self e = ground arith
