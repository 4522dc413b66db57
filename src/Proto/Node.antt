-- ===== src/Proto/Node.antt =====
-- A cluster member: internal/proto/node.go.
use eswim.Base.{ℕ, ◌+◌, Bool}
use eswim.Proto.Ip.{Ip, NodeHash, into_hash, size}

pub record Node : Type 0 where
  pub suspect : Bool
  pub incarnation : ℕ  -- uint16
  pub address : Ip

unfoldable pub hash : Node → NodeHash
hash n = into_hash n.address

unfoldable pub required_size : Node → ℕ
required_size n = 3 + size n.address
