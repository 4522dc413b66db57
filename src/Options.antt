-- ===== src/Options.antt =====
-- The options and the two servers of a process: options.go and server.go. Loggers are left out.
-- `MaxEventTransmission`, which nothing reads, is left out too, and with it the float computation of its
-- default. A duration is its nanoseconds.
pub mod Normal
use eswim.Base.{
  ℕ, suc, zero, ◌+◌, ◌/◌, ◌==◌, Bool, true, false, ◌&&◌, not, Option, none, some, List, [], ◌∷◌,
  ◌++◌, map, length, if◌then◌else◌,
}
use eswim.Base.Int.{ℤ, pos, negsuc, is_zero}
use eswim.Proto.Ip.{NodeHash, Ip, into_hash}
use eswim.Proto.Node.{Node}
use eswim.Core.Ascon.{Cipher, Ascon, new_ascon}
use eswim.Core.NodeList.{Reordering, NodeList, node_type_stable}
use eswim.Core.NodeManager.{all}
use Prim.Native.Nat.{bit_or}

-- A `*netip.Addr` of the options: nil, `IgnoreFamilyAddr`, or an address.
pub data FamilyAddr : Type 0 where
  unset ignored : FamilyAddr
  address : List ℕ → FamilyAddr

pub record Options : Type 0 where
  pub ipv4_address : FamilyAddr
  pub ipv6_address : FamilyAddr
  pub ipv4_multicast_address : List ℕ
  pub ipv6_multicast_address : List ℕ
  pub crypto_key : List ℕ
  pub insecure_disable_crypto : Bool
  pub indirect_pings : ℤ
  pub protocol_period : ℤ
  pub ping_timeout : ℤ
  pub suspect_periods : ℕ  -- uint16
  pub full_sync_protocol_rounds : ℤ
  pub udp_max_length : ℤ

-- Go's `/ 2`, which rounds towards zero.
unfoldable pub half : ℤ → ℤ
half (pos n) = pos (n / 2)
half (negsuc n) = elim ((n + 1) / 2) [ zero ↦ pos 0 | suc m ↦ negsuc m ]

-- `if x == 0 { x = d }`
unfoldable pub or_default : ℤ → ℤ → ℤ
or_default d x = if is_zero x then d else x

-- What `defip.FindDefaultIP` finds for a family, if anything.
unfoldable pub choose_address : Option (List ℕ) → FamilyAddr → FamilyAddr
choose_address (some ip) unset = address ip
choose_address none unset = ignored
choose_address found ignored = ignored
choose_address found (address a) = address a

-- `normalize` after its test of the key; the default addresses of the two families come from a
-- library.
unfoldable pub with_defaults : Option (List ℕ) → Option (List ℕ) → Options → Options
unfolding half choose_address or_default
with_defaults default4 default6 o =
    let period = or_default (pos 2000000000) o.protocol_period in
    record o {
      protocol_period = period;
      ping_timeout = or_default (half period) o.ping_timeout;
      udp_max_length = or_default (pos 1200) o.udp_max_length;
      indirect_pings = or_default (pos 2) o.indirect_pings;
      suspect_periods = if o.suspect_periods == 0 then 20 else o.suspect_periods;
      full_sync_protocol_rounds = or_default (pos 300) o.full_sync_protocol_rounds;
      ipv4_address = choose_address default4 o.ipv4_address;
      ipv6_address = choose_address default6 o.ipv6_address;
    }

-- `normalize`
unfoldable pub normalize : Option (List ℕ) → Option (List ℕ) → Options → Option Options
unfolding with_defaults
normalize default4 default6 o =
    if not o.insecure_disable_crypto && not (length o.crypto_key == 16)
    then none
    else some (with_defaults default4 default6 o)

-- What NewServer makes of the address of a family and the multicast address that goes with it.
unfoldable pub usable_address : List ℕ → FamilyAddr → FamilyAddr
usable_address multicast unset = ignored
usable_address multicast ignored = ignored
usable_address multicast (address a) = if length multicast == 0 then ignored else address a

abbrev pub started : FamilyAddr → Option (List ℕ)
started unset = none
started ignored = none
started (address a) = some a

-- The addresses at which NewServer starts a server of each family; it fails where `normalize` does.
unfoldable pub new_server :
    Option (List ℕ) → Option (List ℕ) → Options → Option (Option (List ℕ) × Option (List ℕ))
unfolding normalize usable_address
new_server default4 default6 o = elim (normalize default4 default6 o) [
  | none ↦ none
  | some n ↦ some (
    started (usable_address n.ipv4_multicast_address n.ipv4_address),
    started (usable_address n.ipv6_multicast_address n.ipv6_address),
  )
]

-- How newSwimServer starts to seal: the key decides alone.
unfoldable pub crypto_of : Cipher → Options → Option Ascon
crypto_of cipher o = new_ascon cipher o.crypto_key

-- `GetKnownNodes`; the filter is `NodeTypeStable | NodeTypeStable`.
unfoldable pub known_of : Reordering → Option NodeList → List NodeHash
known_of order none = []
known_of order (some n) =
    map (λ x. into_hash x.address) (all order (bit_or node_type_stable node_type_stable) n)

unfoldable pub get_known_nodes : Reordering → Option NodeList → Option NodeList → List NodeHash
unfolding known_of
get_known_nodes order v4 v6 = known_of order v4 ++ known_of order v6
