-- ===== src/Proto/Event/Setters.antt =====
-- FromNode and SetSource of the payloads in internal/proto/event_*.go.
use eswim.Base.{◌≡◌, refl, subst, Bool, true, false, if◌then◌else◌, Option, none, some}
use eswim.Proto.Ip.{Ip, copy_ip}
use eswim.Proto.Ip.Equal.{IsWire}
use eswim.Proto.Node.{Node}
use eswim.Proto.Event.{
  Event, Join, Healthy, Suspect, Faulty, Left, Alive, Wrap, join, healthy, suspect, faulty, left,
  alive, wrap, event_kind, get_incarnation, get_subject, source_address_kind,
}

abbrev pub join_from_node : Node → Join → Join
join_from_node n p = record p { incarnation = n.incarnation; subject = copy_ip n.address }

abbrev pub healthy_from_node : Node → Healthy → Healthy
healthy_from_node n p = record p { subject = copy_ip n.address; incarnation = n.incarnation }

abbrev pub suspect_from_node : Node → Suspect → Suspect
suspect_from_node n p = record p { subject = copy_ip n.address; incarnation = n.incarnation }

abbrev pub faulty_from_node : Node → Faulty → Faulty
faulty_from_node n p = record p { incarnation = n.incarnation; subject = copy_ip n.address }

abbrev pub left_from_node : Node → Left → Left
left_from_node n p = record p { subject = copy_ip n.address; incarnation = n.incarnation }

abbrev pub alive_from_node : Node → Alive → Alive
alive_from_node n p = record p { subject = copy_ip n.address; incarnation = n.incarnation }

abbrev pub wrap_from_node : Node → Wrap → Wrap
wrap_from_node n p = record p { subject = copy_ip n.address; incarnation = n.incarnation }

unfoldable pub from_node : Node → Event → Event
from_node n (join p) = join (join_from_node n p)
from_node n (healthy p) = healthy (healthy_from_node n p)
from_node n (suspect p) = suspect (suspect_from_node n p)
from_node n (faulty p) = faulty (faulty_from_node n p)
from_node n (left p) = left (left_from_node n p)
from_node n (alive p) = alive (alive_from_node n p)
from_node n (wrap p) = wrap (wrap_from_node n p)

abbrev pub join_set_source : Ip → Join → Join
join_set_source ip p = record p { source = copy_ip ip }

abbrev pub healthy_set_source : Ip → Healthy → Healthy
healthy_set_source ip p = record p { subject = copy_ip ip }

abbrev pub suspect_set_source : Ip → Suspect → Suspect
suspect_set_source ip p = record p { source = copy_ip ip }

abbrev pub faulty_set_source : Ip → Faulty → Faulty
faulty_set_source ip p = record p { source = copy_ip ip }

-- `SetSource` of the payload of an event; none for a payload that has none.
unfoldable pub set_source : Ip → Event → Option Event
set_source ip (join p) = some (join (join_set_source ip p))
set_source ip (healthy p) = some (healthy (healthy_set_source ip p))
set_source ip (suspect p) = some (suspect (suspect_set_source ip p))
set_source ip (faulty p) = some (faulty (faulty_set_source ip p))
set_source ip (left p) = none
set_source ip (alive p) = none
set_source ip (wrap p) = none

abbrev is_healthy : Event → Bool
is_healthy (healthy p) = true
is_healthy _ = false

abbrev Told : Node → Ip → Event → Event → Type 0
Told n ip e f =
    (get_subject f ≡ (if is_healthy e then ip else n.address))
    × (source_address_kind f ≡ (if is_healthy e then source_address_kind e else ip.address_kind))
    × (get_incarnation f ≡ n.incarnation)
    × (event_kind f ≡ event_kind e)

abbrev Holds : (Event → Type 0) → Option Event → Type 0
Holds P none = Unit
Holds P (some g) = P g

held : (P : Event → Type 0) (f : Event) (o : Option Event) → o ≡ some f → Holds P o → P f
held P f none h k = absurd cc
held P f (some g) h k = let e : g ≡ f = cc in subst P e k

-- An event about a node whose source is set is about that node, in the node's incarnation, and has the kind
-- it had; but a Healthy is about the address that was to be its source, and its source is as before. The
-- addresses are such as a decoder builds.
set_source-from_node :
    (n : Node) (ip : Ip) (e f : Event)
    → IsWire n.address
    → IsWire ip
    → set_source ip (from_node n e) ≡ some f
    → Told n ip e f
unfolding copy_ip set_source from_node get_subject source_address_kind get_incarnation event_kind
set_source-from_node n ip (join p) f v w h =
    held (Told n ip (join p)) f (set_source ip (from_node n (join p))) h
      (v.padded, refl, refl, refl)
set_source-from_node n ip (healthy p) f v w h =
    held (Told n ip (healthy p)) f (set_source ip (from_node n (healthy p))) h
      (w.padded, refl, refl, refl)
set_source-from_node n ip (suspect p) f v w h =
    held (Told n ip (suspect p)) f (set_source ip (from_node n (suspect p))) h
      (v.padded, refl, refl, refl)
set_source-from_node n ip (faulty p) f v w h =
    held (Told n ip (faulty p)) f (set_source ip (from_node n (faulty p))) h
      (v.padded, refl, refl, refl)
set_source-from_node n ip (left p) f v w h = absurd cc
set_source-from_node n ip (alive p) f v w h = absurd cc
set_source-from_node n ip (wrap p) f v w h = absurd cc
