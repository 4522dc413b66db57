-- ===== src/Tests/Detection.antt =====
-- A server of three members that probes one of them, which does not answer.
use eswim.Base.{
  ◌+◌, ◌≡◌, ◌≢◌, ◌<◌, refl, subst, sym, some, List, [], ◌∷◌, arith, ℕ_discrete, bytes_equal,
}
use eswim.Base.Assoc.{get, put, del}
use eswim.Proto.Ip.{
  hash_zero, NodeHash-discrete, bytes, size, kind_size, into_hash, addr_from_slice, equal,
}
use eswim.Proto.Node.{hash}
use eswim.Core.NodeList.{
  bootstrap, unsafe_add, insert_stable, insert_suspect, node_by_hash, new_node_list,
  expired_suspects, mark_suspect, take_and_delete,
}
use eswim.Core.NodeList.View.{absent, stable, view}
use eswim.Core.NodeManager.{next_ping, refill, prepare_ping_list}
use eswim.Core.RunLoop.{Settings, Happening, new_period, turn}
use eswim.Core.RunLoop.Period.{turns}
use eswim.Server.{process_expired_suspects, signal_suspect_node}
use eswim.Server.Loop.{Running, Tuning, loop_delegate, next_probe_subject}
use eswim.Server.Loop.Turns.{members}
use eswim.Server.Loop.Turns.Judged.{Unanswered}
use eswim.Server.Loop.Turns.Detection.{IsSilent, turns-detected}
use eswim.Tests.Members.{node_a, node_b, unchanged, unsorted, cluster-IsConsistent}
use eswim.Tests.Servers.{running, node_a-valid}

abbrev impatient : Tuning
impatient = record {
  sorter = unsorted;
  order = unchanged;
  shuffle = unchanged;
  indirect_pings = 2;
  suspect_periods = 1;
  ping_timeout = 1000000000;
}

abbrev settings : Settings
settings = record { udp_max_len = 508; sync_proto_rounds = 0 }

abbrev silence : List (Happening Running)
silence = []

probed_first : ((loop_delegate impatient).next_probe_subject running).1 ≡ some node_a
unfolding loop_delegate next_probe_subject next_ping refill node_by_hash bootstrap unsafe_add
    insert_stable insert_suspect get put NodeHash-discrete hash into_hash bytes size kind_size
    addr_from_slice ℕ_discrete equal bytes_equal new_node_list
probed_first = refl

abbrev later : Running
later = (turn (loop_delegate impatient) settings 77 silence new_period running).1

probed_next : ((loop_delegate impatient).next_probe_subject later).1 ≡ some node_b
unfolding loop_delegate next_probe_subject next_ping refill node_by_hash bootstrap unsafe_add
    insert_stable insert_suspect get put NodeHash-discrete hash into_hash bytes size kind_size
    addr_from_slice ℕ_discrete equal bytes_equal new_node_list turn process_expired_suspects
    expired_suspects signal_suspect_node mark_suspect take_and_delete del new_period
    prepare_ping_list
probed_next = refl

node_b-valid : hash node_b ≢ hash_zero
unfolding hash into_hash addr_from_slice bytes size kind_size
node_b-valid = λ e. cc

silent :
    IsSilent impatient settings
      (hash node_a)
      ((77, silence) ∷ (78, silence) ∷ [])
      (new_period, running)
silent = (
  tt,
  subst (Unanswered impatient settings (hash node_a) 77 silence new_period.id) (sym probed_first)
      (node_a-valid, λ e. refl),
  (
    tt,
    subst
        (Unanswered impatient settings (hash node_a) 78 silence
          (turn (loop_delegate impatient) settings 77 silence new_period running).0.id)
        (sym probed_next) (node_b-valid, λ e. refl),
    tt,
  ),
)

known_a : view (members running) (hash node_a) ≡ stable node_a
unfolding bootstrap unsafe_add insert_stable insert_suspect get put NodeHash-discrete hash into_hash
    bytes size kind_size addr_from_slice ℕ_discrete equal bytes_equal new_node_list
known_a = refl

early : new_period.id + 1 + 1 < 65535
unfolding new_period
early = omega arith

turns-detected_example :
    view
      (members
        (turns
          (loop_delegate impatient)
          settings
          ((77, silence) ∷ (78, silence) ∷ [])
          (new_period, running)).1)
      (hash node_a)
    ≡ absent
turns-detected_example =
    turns-detected impatient settings 77 silence ((78, silence) ∷ []) new_period running node_a
      node_a cluster-IsConsistent known_a probed_first silent (omega arith) (omega arith) early
