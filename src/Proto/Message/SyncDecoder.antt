-- ===== src/Proto/Message/SyncDecoder.antt =====
-- The bytes of a Sync and its decoder: internal/proto/message_sync.go.
pub mod RoundTrip
use eswim.Base.{ℕ, ◌%◌, ◌==◌, List, [], ◌∷◌, ◌++◌, length, not, if◌then◌else◌}
use eswim.Base.Int.{pred_ℤ, is_zero}
use eswim.Fsm.{
  Fsm, Shape, Def, Signal, continue, done, raise, Fed, pending, value, failed, new, reset,
  transition, transition_size, feed,
}
use eswim.Fsm.Repeated.{all_bytes}
use eswim.Proto.Error.{Error}
use eswim.Proto.Node.{Node}
use eswim.Proto.NodeDecoder.{NodeMachine, node_shape, node_decoder, node_bytes}
use eswim.Proto.Message.{Sync}

pub data State : Type 0 where
  state_mode state_size state_nodes : State

pub record Context : Type 0 where
  pub node_machine : NodeMachine

abbrev pub SyncMachine : Type 0
SyncMachine = Fsm Sync State Context

unfoldable pub sync_shape : Shape Sync State Context
sync_shape = record {
  initial_size = 0;
  initial_state = state_mode;
  zero_value = record { mode = 0; nodes = [] };
  reset_context = λ c. record { node_machine = reset node_shape c.node_machine };
}

-- The Init of the context: `nodeDecoder.New()`.
unfoldable pub init_context : Context
init_context = record { node_machine = new node_shape tt }

-- `if f.Size == 0 { return fsm.Done }`
unfoldable pub unless_done : SyncMachine → SyncMachine × Signal Error
unless_done f = if is_zero f.size then (f, done) else (f, continue)

-- What becomes of the answer of the node decoder.
unfoldable pub after_node : SyncMachine → NodeMachine × Fed Node Error → SyncMachine × Signal Error
unfolding unless_done
after_node f (m, pending) = unless_done (record f { context = record { node_machine = m } })
after_node f (m, value n) = unless_done (record f {
  size = pred_ℤ f.size;
  value = record (f.value) { nodes = f.value.nodes ++ (n ∷ []) };
  context = record { node_machine = m };
})
after_node f (m, failed e) = (record f { context = record { node_machine = m } }, raise e)

-- The `switch state` of Feed.
sync_switch : State → SyncMachine → ℕ → SyncMachine × Signal Error
unfolding after_node
sync_switch state_mode f b =
    (transition state_size (record f { value = record (f.value) { mode = b } }), continue)
sync_switch state_size f b =
    let g = record f { value = record (f.value) { nodes = [] } } in
    if b == 0 then (g, done) else (transition_size state_nodes b g, continue)
sync_switch state_nodes f b = after_node f (feed node_decoder f.context.node_machine b)

unfoldable pub sync_decoder : Def Sync State Context Error
unfolding sync_switch sync_shape
sync_decoder = record { shape = sync_shape; feed_fn = λ f b. sync_switch f.state f b }

-- `Sync.Encode`; the mode and the count are uint8.
abbrev pub sync_bytes : Sync → List ℕ
sync_bytes m = m.mode ∷ ((length m.nodes % 256) ∷ all_bytes node_bytes m.nodes)
