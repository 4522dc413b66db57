-- ===== src/Proto/NodeDecoder.antt =====
-- The bytes of a Node and its decoder: internal/proto/node.go.
use eswim.Base.{
  ℕ, ◌+◌, ◌/◌, ◌%◌, ◌==◌, ◌≡◌, refl, ap, ◌∙◌, Bool, false, List, [], ◌∷◌, ◌++◌, length,
  length-append, if◌then◌else◌, arith,
}
use eswim.Fsm.{
  Fsm, Shape, Def, Signal, continue, done, pending, finished, new, reset, transition_satisfy_size,
  u16_of, step, feed, run, proceed,
}
use eswim.Fsm.Laws.{filling, run-filling_then, run-cons}
use eswim.Proto.Bytes.{u16_bytes, IsU16, u16_of-u16_bytes}
use eswim.Proto.Error.{Error}
use eswim.Proto.Ip.{address_ipv6, zero_ip, kind_size, bytes, fsm_copy_ip, size}
use eswim.Proto.Ip.Equal.{
  IsWire, blank, fsm_copy_ip-bytes, kind_size-bytes, kind_size-pos, length-bytes,
}
use eswim.Proto.Node.{Node, required_size}

pub data State : Type 0 where
  state_flags state_incarnation state_address : State

abbrev pub NodeMachine : Type 0
NodeMachine = Fsm Node State (Unit {0})

abbrev pub node_shape : Shape Node State (Unit {0})
node_shape = record {
  initial_size = 0;
  initial_state = state_flags;
  zero_value = record { suspect = false; incarnation = 0; address = zero_ip };
  reset_context = λ c. c;
}

-- The `switch state` of Feed: `b & 0x01` and `b&0x02 == 0x02`.
node_switch : State → NodeMachine → ℕ → NodeMachine × Signal Error
node_switch state_flags f b = (
  transition_satisfy_size state_incarnation 2 (record f {
    value = record (f.value) {
      suspect = b / 2 % 2 == 1;
      address = record (f.value.address) { address_kind = b % 2 };
    };
  }),
  continue,
)
node_switch state_incarnation f b = (
  transition_satisfy_size state_address (size f.value.address)
      (record f { value = record (f.value) { incarnation = u16_of f.payload } }),
  continue,
)
node_switch state_address f b = (
  record f { value = record (f.value) { address = fsm_copy_ip f.payload f.value.address } },
  done,
)

unfoldable pub node_decoder : Def Node State (Unit {0}) Error
unfolding node_switch
node_decoder = record { shape = node_shape; feed_fn = λ f b. node_switch f.state f b }

-- `Node.Encode`
abbrev pub node_flags : Node → ℕ
node_flags n =
    (if n.address.address_kind == address_ipv6 then 1 else 0) + (if n.suspect then 2 else 0)

abbrev pub node_bytes : Node → List ℕ
node_bytes n = node_flags n ∷ (u16_bytes n.incarnation ++ bytes n.address)

pub record IsWireNode (n : Node) : Type 0 where
  pub address_wire : IsWire n.address
  pub incarnation_fits : IsU16 n.incarnation

pub length-node_bytes : (n : Node) → IsWireNode n → length (node_bytes n) ≡ required_size n
unfolding required_size
length-node_bytes n w = grind (arith, length-append, length-bytes n.address w.address_wire.sized)

feed-flags :
    (b kind : ℕ) (s : Bool)
    → b % 2 ≡ kind
    → (b / 2 % 2 == 1) ≡ s
    → feed node_decoder (new node_shape tt) b ≡ (
      filling node_decoder
          (record { suspect = s; incarnation = 0; address = blank kind })
          2
          []
          state_incarnation
          tt
          b,
      pending,
    )
unfolding feed step node_decoder new transition_satisfy_size
feed-flags b kind s p q = rw (p, q)

module _ (n : Node) (w : IsWireNode n) (rest : List ℕ) where
  run_address :
      (cb : ℕ)
      → run node_decoder
          (filling node_decoder
            (record n { address = blank n.address.address_kind })
            (kind_size n.address.address_kind)
            []
            state_address
            tt
            cb)
          (bytes n.address ++ rest)
        ≡ finished n (new node_shape tt) rest
  unfolding node_decoder step new reset
  run_address cb =
      run-filling_then node_decoder _ _ _ _ (bytes n.address) rest
        (kind_size-bytes n.address w.address_wire.sized) (kind_size-pos _)
        (λ b. rw (fsm_copy_ip-bytes n.address w.address_wire))

  run_fields :
      (cb : ℕ)
      → run node_decoder
          (filling node_decoder
            (record n { incarnation = 0; address = blank n.address.address_kind })
            2
            []
            state_incarnation
            tt
            cb)
          (u16_bytes n.incarnation ++ (bytes n.address ++ rest))
        ≡ finished n (new node_shape tt) rest
  unfolding node_decoder step transition_satisfy_size size
  run_fields cb =
      run-filling_then node_decoder _ _ _ _ (u16_bytes n.incarnation) _ refl (omega arith)
        (λ b. rw (u16_of-u16_bytes n.incarnation w.incarnation_fits) (run_address b))

  flags_kind : node_flags n % 2 ≡ n.address.address_kind
  flags_kind = ground (arith, w.address_wire.known_kind)

  flags_suspect : (node_flags n / 2 % 2 == 1) ≡ n.suspect
  flags_suspect = ground (arith, w.address_wire.known_kind)

  -- The decoder gives a node back when its bytes are fed to it, and leaves what follows.
  pub run-node :
      run node_decoder (new node_shape tt) (node_bytes n ++ rest)
      ≡ finished n (new node_shape tt) rest
  run-node =
      run-cons node_decoder _ (node_flags n) _
      ∙ ap (λ r. proceed node_decoder r (u16_bytes n.incarnation ++ (bytes n.address ++ rest)))
          (feed-flags (node_flags n) n.address.address_kind n.suspect flags_kind flags_suspect)
      ∙ run_fields (node_flags n)
