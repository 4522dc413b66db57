-- ===== src/Tests/Wire.antt =====
-- A Join on the wire, of a node with an IPv4 address.
use eswim.Base.{refl, [], ◌∷◌, arith}
use eswim.Proto.Ip.{Ip, copy_ip, copy, bytes, size, kind_size}
use eswim.Proto.Ip.Equal.{IsWire}
use eswim.Proto.Event.{Join}
use eswim.Proto.Event.JoinDecoder.{IsWireJoin}

abbrev pub here : Ip
here = record {
  address_kind = 0;
  address_bytes = 10 ∷ 0 ∷ 0 ∷ 1 ∷ 0 ∷ 0 ∷ 0 ∷ 0 ∷ 0 ∷ 0 ∷ 0 ∷ 0 ∷ 0 ∷ 0 ∷ 0 ∷ 0 ∷ [];
}

pub here-IsWire : IsWire here
unfolding copy_ip copy bytes size kind_size
here-IsWire = record { known_kind = omega arith; sized = refl; padded = refl }

abbrev pub joined : Join
joined = record { source = here; subject = here; incarnation = 515 }

pub joined-IsWire : IsWireJoin joined
joined-IsWire = record {
  source_wire = here-IsWire;
  subject_wire = here-IsWire;
  incarnation_fits = omega arith;
}
