-- ===== src/Server/Signals.antt =====
-- SignalSuspectNode of swim_server.go: what a failed probe does to the members and to the queue.
use eswim.Base.{Bool, refl, ap, subst, ℕ, ◌≡◌, ◌∙◌, sym, false, Option, none, some, arith}
use eswim.Proto.Ip.{Ip, NodeHash}
use eswim.Proto.Node.{Node}
use eswim.Proto.Event.{suspect}
use eswim.Core.NodeList.{NodeList, node_by_hash, mark_suspect}
use eswim.Core.NodeList.View.{
  Member, absent, stable, suspected, IsConsistent, view, member_node, node_by_hash-view,
}
use eswim.Core.NodeList.Refinement.{Sets, suspected_by, mark_suspect-Sets}
use eswim.Core.GossipManager.{GossipManager, Sorter, add}
use eswim.Server.{Server, signal_suspect_node}

-- The queue of the node at `host` when it has begun to suspect a member, if that is one.
abbrev pub accused : Sorter → Ip → Option Node → GossipManager → GossipManager
accused sorter host none g = g
accused sorter host (some x) g =
    add sorter
      (suspect (record { source = host; subject = x.address; incarnation = x.incarnation })) g

module _ (sorter : Sorter) where
  accused-suspected_by :
      (host : Ip) (period : ℕ) (remote : Bool) (m : Member) (g : GossipManager)
      → accused sorter host (member_node (suspected_by period remote m)) g
        ≡ accused sorter host (member_node m) g
  accused-suspected_by host period remote absent g = refl
  accused-suspected_by host period remote (stable x) g = refl
  accused-suspected_by host period remote (suspected z) g = refl

  module _ (period : ℕ) (h : NodeHash) (s : Server) where
    abbrev marked : NodeList
    marked = mark_suspect period false h s.nodes.node_list

    signal_suspect_node-marked : (signal_suspect_node sorter period h s).nodes.node_list ≡ marked
    unfolding signal_suspect_node
    signal_suspect_node-marked = ground arith

    signal_suspect_node-accused :
        (signal_suspect_node sorter period h s).gossip
        ≡ accused sorter s.host_address (node_by_hash h marked) s.gossip
    unfolding signal_suspect_node
    signal_suspect_node-accused = ground arith

-- A probe that failed turns a stable member of a consistent list into a suspect that this node
-- found, leaves a suspect as it is, touches no other member, and adds a suspicion of the member
-- to the queue, with the incarnation that is known of it. For an unknown hash the queue stays as
-- it is.
pub signal_suspect_node-Sets :
    (sorter : Sorter) (period : ℕ) (h : NodeHash) (s : Server)
    → IsConsistent s.nodes.node_list
    → Sets s.nodes.node_list h
        (suspected_by period false (view s.nodes.node_list h))
        (signal_suspect_node sorter period h s).nodes.node_list
      × ((signal_suspect_node sorter period h s).gossip
          ≡ accused sorter s.host_address (member_node (view s.nodes.node_list h)) s.gossip)
signal_suspect_node-Sets sorter period h s c =
    let n = s.nodes.node_list in
    let sets = mark_suspect-Sets n c period false h in
    let now : view (marked sorter period h s) h ≡ suspected_by period false (view n h) =
      ground (arith, sets.changed h) in
    (
      subst (Sets n h (suspected_by period false (view n h)))
          (sym (signal_suspect_node-marked sorter period h s)) sets,
      signal_suspect_node-accused sorter period h s
          ∙ ap (λ m. accused sorter s.host_address m s.gossip)
              (node_by_hash-view h (marked sorter period h s) sets.consistent ∙ ap member_node now)
          ∙ accused-suspected_by sorter s.host_address period false (view n h) s.gossip,
    )
