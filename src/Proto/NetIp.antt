-- ===== src/Proto/NetIp.antt =====
-- Addresses of Go's net and net/netip packages as the code uses them: IPFromAddr and IPFromNetIP of
-- internal/proto/base.go, and ConvertNetIP and IPList of internal/iputil/ip_list.go. A `net.IP` is its
-- bytes, none of them for nil; a `netip.Addr` is what `NodeHash` wraps.
use eswim.Base.{
  ℕ, ◌==◌, ◌≡◌, ◌∙◌, Bool, false, ◌&&◌, Option, none, some, List, [], ◌∷◌, ◌++◌, length, take, drop,
  replicate, take-length, subst, ap, sym, ℕ_discrete, bytes_equal, if◌then◌else◌, arith,
}
use eswim.Proto.Ip.{
  Ip, NodeHash, addr, address_ipv4, address_ipv6, zero_ip, copy, copy_ip, bytes, kind_size,
}
use eswim.Proto.Ip.Equal.{IsWire, kind_size-bytes}

-- What an IPv4 address is preceded by in sixteen bytes.
abbrev pub v4_in_v6_prefix : List ℕ
v4_in_v6_prefix = replicate 10 0 ++ (255 ∷ 255 ∷ [])

-- `net.IP.To4`
unfoldable pub to4 : List ℕ → Option (List ℕ)
to4 ip =
    if length ip == 4
    then some ip
    else if length ip == 16 && bytes_equal (take 12 ip) v4_in_v6_prefix
    then some (drop 12 ip)
    else none

-- `net.IP.To16`; nil is empty.
unfoldable pub to16 : List ℕ → List ℕ
to16 ip = if length ip == 4 then v4_in_v6_prefix ++ ip else if length ip == 16 then ip else []

-- `net.IP.Equal`: an IPv4 address and the same in sixteen bytes are equal.
unfoldable pub net_ip_equal : List ℕ → List ℕ → Bool
net_ip_equal ip x =
    if length ip == length x
    then bytes_equal ip x
    else if length ip == 4 && length x == 16
    then bytes_equal (take 12 x) v4_in_v6_prefix && bytes_equal ip (drop 12 x)
    else length ip == 16
      && (length x == 4 && (bytes_equal (take 12 ip) v4_in_v6_prefix && bytes_equal (drop 12 ip) x))

-- `IPFromNetIP`
unfoldable pub ip_from_net_ip : List ℕ → Ip
unfolding to4 to16 copy
ip_from_net_ip ip = elim (to4 ip) [
  | some v4 ↦ record zero_ip { address_bytes = copy (replicate 16 0) (take 4 v4) }
  | none ↦ record { address_kind = address_ipv6; address_bytes = copy (replicate 16 0) (to16 ip) }
]

-- `ConvertNetIP`; it panics at a slice that is neither an IPv4 address nor of sixteen bytes.
unfoldable pub convert_net_ip : List ℕ → Option NodeHash
unfolding to4
convert_net_ip ip = elim (to4 ip) [
  | some v4 ↦ some (addr (take 4 v4))
  | none ↦ if length ip == 16 then some (addr ip) else none
]

-- `IPFromAddr`, at an address that is not the zero value; As4 of any other than IPv4 would panic.
unfoldable pub ip_from_addr : List ℕ → Ip
unfolding copy
ip_from_addr a =
    if length a == 16
    then record { address_kind = address_ipv6; address_bytes = copy (replicate 16 0) a }
    else record { address_kind = address_ipv4; address_bytes = copy (replicate 16 0) a }

take-exact : (n : ℕ) (b : List ℕ) → length b ≡ n → take n b ≡ b
take-exact n b h = subst (λ n. take n b ≡ b) h (take-length b)

from_four :
    (b : List ℕ)
    → length b ≡ 4
    → ip_from_net_ip b
      ≡ record { address_kind = address_ipv4; address_bytes = copy (replicate 16 0) b }
unfolding ip_from_net_ip to4
from_four b h = let t = take-exact 4 b h in ground (arith, t, h)

from_sixteen :
    (b : List ℕ)
    → length b ≡ 16
    → bytes_equal (take 12 b) v4_in_v6_prefix ≡ false
    → ip_from_net_ip b
      ≡ record { address_kind = address_ipv6; address_bytes = copy (replicate 16 0) b }
unfolding ip_from_net_ip to4 to16
from_sixteen b h n = ground (arith, h, n)

-- The bytes of an address of the cluster, as `net.IP`, are read as that address again, unless they are
-- those of an IPv4 address in an IPv6 one.
ip_from_net_ip-bytes :
    (ip : Ip)
    → IsWire ip
    → (ip.address_kind ≡ address_ipv6 → bytes_equal (take 12 (bytes ip)) v4_in_v6_prefix ≡ false)
    → ip_from_net_ip (bytes ip) ≡ ip
unfolding copy_ip kind_size
ip_from_net_ip-bytes ip w n =
    let l = kind_size-bytes ip w.sized in
    elim (ℕ_discrete ip.address_kind 0) [
      | yes e ↦ from_four (bytes ip) (ground (arith, l, e)) ∙ retagged 0 (sym e)
      | no ne ↦
          let e : 1 ≡ ip.address_kind = ground (arith, w.known_kind, ne) in
          from_sixteen (bytes ip) (ground (arith, l, ne)) (n (sym e)) ∙ retagged 1 e
    ]
  where
    retagged :
        (kind : ℕ)
        → kind ≡ ip.address_kind
        → record { address_kind = kind; address_bytes = copy (replicate 16 0) (bytes ip) } ≡ ip
    retagged kind e =
        ap (λ k. record { address_kind = k; address_bytes = copy (replicate 16 0) (bytes ip) }) e
        ∙ w.padded
