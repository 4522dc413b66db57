-- ===== src/Proto/Message/SyncDecoder/RoundTrip.antt =====
-- The decoder of internal/proto/message_sync.go reads back what a Sync is written as.
use eswim.Base.{
  ℕ, zero, suc, ◌%◌, ◌<◌, ◌≡◌, refl, ap, ◌∙◌, false, List, [], ◌∷◌, ◌++◌, length, All, arith,
}
use eswim.Base.Int.{pos, pred_ℤ, is_zero}
use eswim.Fsm.{
  Fed, pending, value, finished, new, reset, transition, transition_size, answer, step, feed, run,
  proceed,
}
use eswim.Fsm.Laws.{run-cons}
use eswim.Fsm.Repeated.{all_bytes, taken, run-items}
use eswim.Proto.Error.{Error}
use eswim.Proto.Node.{Node}
use eswim.Proto.NodeDecoder.{
  NodeMachine, node_shape, node_decoder, node_bytes, IsWireNode, run-node,
}
use eswim.Proto.Message.{Sync}
use eswim.Proto.Message.SyncDecoder.{
  SyncMachine, state_size, state_nodes, sync_shape, init_context, sync_decoder, sync_bytes,
  after_node, unless_done,
}
use mathlib.Core.List.{append_assoc}

-- A count and nodes that the wire carries.
pub record IsWireSync (m : Sync) : Type 0 where
  pub mode_fits : m.mode < 256
  pub count_fits : length m.nodes < 256
  pub nodes_wire : All IsWireNode m.nodes

-- The decoder between two Syncs.
abbrev pub idle : SyncMachine
idle = new sync_shape init_context

module _ (m : Sync) where
  abbrev reading : List Node → ℕ → NodeMachine → ℕ → SyncMachine
  reading l n e cb = record {
    value = record m { nodes = l };
    size = pos n;
    payload = [];
    state = state_nodes;
    context = record { node_machine = e };
    current_byte = cb;
    must_satisfy_size = false;
  }

  abbrev ended : NodeMachine → SyncMachine
  ended e = new sync_shape (record { node_machine = e })

  -- In this state the decoder does as the node decoder says.
  feed-answered :
      (l : List Node) (n cb b : ℕ) (e : NodeMachine) {q : NodeMachine × Fed Node Error}
      → feed node_decoder e b ≡ q
      → let r = after_node (reading l n e b) q in
        feed sync_decoder (reading l n e cb) b ≡ answer sync_decoder r.0 r.1
  unfolding feed step sync_decoder
  feed-answered l n cb b e h =
      ap (λ q. let r = after_node (reading l n e b) q in answer sync_decoder r.0 r.1) h

  follows :
      (l : List Node) (n cb b : ℕ) (e e' : NodeMachine)
      → feed node_decoder e b ≡ (e', pending)
      → feed sync_decoder (reading l (suc n) e cb) b ≡ (reading l (suc n) e' b, pending)
  unfolding after_node unless_done is_zero
  follows l n cb b e e' h = feed-answered l (suc n) cb b e h

  takes :
      (l : List Node) (n cb b : ℕ) (e e' : NodeMachine) (x : Node)
      → feed node_decoder e b ≡ (e', value x)
      → feed sync_decoder (reading l (suc n) e cb) b
        ≡ taken reading (λ k. record m { nodes = k }) ended (l ++ (x ∷ [])) n e' b
  unfolding after_node unless_done is_zero pred_ℤ reset new sync_decoder sync_shape
  takes l zero cb b e e' x h = feed-answered l 1 cb b e h
  takes l (suc n) cb b e e' x h = feed-answered l (suc (suc n)) cb b e h

  abbrev count_machine : ℕ → SyncMachine
  count_machine cb = record {
    value = record m { nodes = [] };
    size = pos 0;
    payload = [];
    state = state_size;
    context = record { node_machine = new node_shape tt };
    current_byte = cb;
    must_satisfy_size = false;
  }

  feed-mode : feed sync_decoder idle m.mode ≡ (count_machine m.mode, pending)
  unfolding feed step sync_decoder transition transition_size new reset sync_shape init_context
  feed-mode = refl

  feed-count :
      (cb n : ℕ)
      → feed sync_decoder (count_machine cb) (suc n)
        ≡ (reading [] (suc n) (new node_shape tt) (suc n), pending)
  unfolding feed step sync_decoder transition_size
  feed-count cb n = ground arith

  run_nodes :
      (cb : ℕ) (l : List Node) (rest : List ℕ)
      → length l < 256
      → All IsWireNode l
      → run sync_decoder (count_machine cb) ((length l % 256) ∷ (all_bytes node_bytes l ++ rest))
        ≡ finished (record m { nodes = l }) idle rest
  unfolding feed step sync_decoder reset new sync_shape init_context
  run_nodes cb [] rest h ws = run-cons sync_decoder _ 0 rest
  run_nodes cb (x ∷ xs) rest h ws =
      let n : suc (length xs) % 256 ≡ suc (length xs) = omega arith in
      rw n (
        run-cons sync_decoder (count_machine cb) (suc (length xs)) _
        ∙ ap (λ r. proceed sync_decoder r (all_bytes node_bytes (x ∷ xs) ++ rest))
            (feed-count cb (length xs))
        ∙ ap
            (λ bs.
              run sync_decoder (reading [] (suc (length xs)) (new node_shape tt) (suc (length xs)))
                bs)
            (append_assoc (node_bytes x) (all_bytes node_bytes xs) rest)
        ∙ run-items node_decoder sync_decoder reading (λ l. record m { nodes = l }) ended (λ x. x)
            follows takes {I = Unit {0}} (λ i. new node_shape tt) (λ e. tt) node_bytes IsWireNode
            (λ i e bs v. run-node e v bs) x xs [] tt (suc (length xs)) rest ws.0 ws.1)

  -- The decoder gives a Sync back when its bytes are fed to it, leaves what follows, and is as
  -- before.
  pub run-sync :
      IsWireSync m
      → (rest : List ℕ) → run sync_decoder idle (sync_bytes m ++ rest) ≡ finished m idle rest
  run-sync w rest =
      run-cons sync_decoder idle m.mode _
      ∙ ap
          (λ r.
            proceed sync_decoder r
              ((length m.nodes % 256) ∷ (all_bytes node_bytes m.nodes ++ rest)))
          feed-mode
      ∙ run_nodes m.mode m.nodes rest w.count_fits w.nodes_wire
