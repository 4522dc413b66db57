-- ===== src/Proto/Ip/Equal.antt =====
-- `IP.Equal` decides equality, and what a node's hash tells about its address.
use eswim.Base.{
  ℕ, ◌<◌, take, replicate, take-length, subst, ◌≤◌, ◌≡◌, true, ◌↔◌, length, arith, bytes_equal_iff,
  length-take,
}
use eswim.Proto.Ip.{fsm_copy_ip, copy_ip, Ip, equal, kind_size, size, bytes}

-- `IP.Equal` answers true exactly when both the kind and the sixteen bytes agree.
pub equal_iff : (i o : Ip) → (equal i o ≡ true) ↔ (i ≡ o)
unfolding equal
equal_iff i o = ground (arith, bytes_equal_iff i.address_bytes o.address_bytes)

-- The sixteen bytes that the array of an IP holds.
abbrev pub IsSized : Ip → Type 0
IsSized ip = length ip.address_bytes ≡ 16

pub size-le : (ip : Ip) → size ip ≤ 16
unfolding size
size-le ip = ground arith

pub length-bytes : (ip : Ip) → IsSized ip → length (bytes ip) ≡ size ip
unfolding bytes
length-bytes ip h = length-take (size ip) ip.address_bytes (unfold size kind_size in ground arith)

-- An address as a decoder builds it: one of the two kinds, and no bytes beyond the size of its kind.
pub record IsWire (ip : Ip) : Type 0 where
  pub known_kind : ip.address_kind < 2
  pub sized : length ip.address_bytes ≡ 16
  pub padded : copy_ip ip ≡ ip

pub kind_size-pos : (kind : ℕ) → 0 < kind_size kind
unfolding kind_size
kind_size-pos kind = ground arith

pub kind_size-bytes : (ip : Ip) → IsSized ip → length (bytes ip) ≡ kind_size ip.address_kind
unfolding size
kind_size-bytes ip h = length-bytes ip h

-- An address of a kind with no bytes yet.
abbrev pub blank : ℕ → Ip
blank kind = record { address_kind = kind; address_bytes = replicate 16 0 }

-- An address of the right kind that receives the bytes of a wire address becomes it.
pub fsm_copy_ip-bytes : (ip : Ip) → IsWire ip → fsm_copy_ip (bytes ip) (blank ip.address_kind) ≡ ip
unfolding fsm_copy_ip copy_ip
fsm_copy_ip-bytes ip w = rw (exact) w.padded
  where
    exact : take (kind_size ip.address_kind) (bytes ip) ≡ bytes ip
    exact =
        subst (λ n. take n (bytes ip) ≡ bytes ip) (length-bytes ip w.sized) (take-length (bytes ip))
