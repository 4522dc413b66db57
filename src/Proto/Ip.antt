-- ===== src/Proto/Ip.antt =====
-- Addresses and node identities: internal/proto/base.go (AddressKind, IP, copyIP) and
-- internal/proto/node.go (NodeHash). Bytes and address kinds are uint8 values, kept as numbers.
pub mod Equal
use eswim.Base.{
  ℕ, ◌==◌, Bool, ◌&&◌, ◌||◌, List, [], ◌++◌, length, take, drop, replicate, if◌then◌else◌,
  bytes_equal, ℕ_discrete,
}

abbrev pub address_ipv4 : ℕ
address_ipv4 = 0

abbrev pub address_ipv6 : ℕ
address_ipv6 = 1

-- `AddressKind.Size`: every kind other than IPv4 takes sixteen bytes.
unfoldable pub kind_size : ℕ → ℕ
kind_size kind = if kind == address_ipv4 then 4 else 16

pub record Ip : Type 0 where
  pub address_kind : ℕ
  pub address_bytes : List ℕ

-- Go's zero value: kind 0 and sixteen zero bytes.
abbrev pub zero_ip : Ip
zero_ip = record { address_kind = 0; address_bytes = replicate 16 0 }

unfoldable pub size : Ip → ℕ
unfolding kind_size
size ip = kind_size ip.address_kind

unfoldable pub bytes : Ip → List ℕ
unfolding size
bytes ip = take (size ip) ip.address_bytes

-- `IP.Equal` at a pointer that is not nil.
unfoldable pub equal : Ip → Ip → Bool
equal i o = o.address_kind == i.address_kind && bytes_equal i.address_bytes o.address_bytes

-- Go's `copy(into, from)`: as many bytes as both hold; the result is the new content of `into`.
unfoldable pub copy : List ℕ → List ℕ → List ℕ
copy into from = take (length into) from ++ drop (length from) into

-- `copyIP(dst, src)`: `dst` is cleared first, so its old content is gone.
unfoldable pub copy_ip : Ip → Ip
unfolding copy bytes
copy_ip src = record {
  address_kind = src.address_kind;
  address_bytes = copy (replicate 16 0) (bytes src);
}

-- `fsmCopyIP`, with the payload of the machine.
unfoldable pub fsm_copy_ip : List ℕ → Ip → Ip
unfolding copy size
fsm_copy_ip payload into = record into {
  address_bytes = copy into.address_bytes (take (size into) payload);
}

-- `NodeHash` wraps a `netip.Addr`, which is its zero value or holds four or sixteen bytes.
pub data NodeHash : Type 0 where
  hash_zero : NodeHash
  addr : List ℕ → NodeHash

unfoldable pub NodeHash-discrete : Discrete NodeHash
NodeHash-discrete = hlevel ℕ_discrete

-- `netip.AddrFromSlice`: any other length gives the zero value.
unfoldable pub addr_from_slice : List ℕ → NodeHash
addr_from_slice slice = if length slice == 4 || length slice == 16 then addr slice else hash_zero

unfoldable pub into_hash : Ip → NodeHash
unfolding bytes addr_from_slice
into_hash ip = addr_from_slice (bytes ip)
