-- ===== src/Tests/Joining.antt =====
-- A stream of two frames, and a server that joins.
use eswim.Base.{
  ℕ, ◌≡◌, refl, true, false, none, some, List, [], ◌∷◌, ◌++◌, take, drop, map, length, All, arith,
  ◌<◌, ◌≤◌, bytes_equal,
}
use eswim.Core.SyncManager.{set_bootstrap_source}
use eswim.Proto.NetIp.{net_ip_equal}
use eswim.Proto.Message.{bootstrap_response}
use eswim.Proto.Packet.{Packet}
use eswim.Proto.TcpPacket.{tcp_packet, tcp_bytes}
use eswim.Proto.TcpPacket.RoundTrip.{idle}
use eswim.Wire.TcpControlClient.{TcpControlClient, took, write_loop, write, got, loop}
use eswim.Wire.TcpControlClient.Stream.{
  Sending, frames, on_wire, IsSent, flatten, with_frames, loop-on_wire,
}
use eswim.Server.Bootstrapping.{
  over, awaiting, Bootstrapping, initial, Step, DatagramStep, ClientStep, accepts, Reach,
}
use eswim.Server.Bootstrapping.Reachable.{Accepts, HasJoined, Reach-Accepts}

abbrev client : TcpControlClient
client = record {
  decoder = idle;
  is_closed = false;
  message = [];
  is_hijacked = true;
  hijack_chan = [];
}

-- The first frame is written in three parts, the second in one.
abbrev sending : Sending
sending = (took 3 ∷ took 4 ∷ took 9 ∷ [], 7 ∷ 8 ∷ []) ∷ (took 99 ∷ [], 5 ∷ []) ∷ []

-- They are read in two parts.
abbrev parts : List (List ℕ)
parts =
    take 11 (tcp_bytes (tcp_packet (7 ∷ 8 ∷ [])) ++ tcp_bytes (tcp_packet (5 ∷ [])))
    ∷ drop 11 (tcp_bytes (tcp_packet (7 ∷ 8 ∷ [])) ++ tcp_bytes (tcp_packet (5 ∷ [])))
    ∷ []

sending-IsSent : All IsSent sending
unfolding write write_loop tcp_bytes tcp_packet
sending-IsSent = ((refl, ((λ e. cc), omega arith)), ((refl, ((λ e. cc), omega arith)), tt))

parts-on_wire : flatten parts ≡ on_wire sending
unfolding write write_loop tcp_bytes tcp_packet
parts-on_wire = refl

loop-on_wire_example : loop (map got parts) client ≡ with_frames (frames sending) client
loop-on_wire_example = loop-on_wire sending parts client sending-IsSent parts-on_wire refl

-- A response, from 10.0.0.2.
abbrev answer : Packet
answer = record {
  source = 10 ∷ 0 ∷ 0 ∷ 2 ∷ [];
  header = record { magic = 0; version = 1; op_code = 2; incarnation = 1 };
  message = some bootstrap_response;
}

-- The server that awaits its bootstrap.
abbrev waiting_server : Bootstrapping
waiting_server = record {
  phase = awaiting answer;
  bootstrap_response = [];
  bootstrap_response_received = true;
  in_flight = none;
  accept_bootstrap_from = answer.source;
  notifying = 0;
  bootstrap_completed = 0;
}

abbrev joined_server : Bootstrapping
joined_server = record waiting_server { phase = over answer; accept_bootstrap_from = [] }

waiting-Reach : Reach 0 waiting_server
unfolding initial
waiting-Reach =
    let r0 = Reach.step Reach.start (Step.drain_first refl) in
    let r1 = Reach.step r0 (Step.forget_response refl) in
    let r2 = Reach.datagram r1 (DatagramStep.swap answer refl refl) in
    let r3 = Reach.datagram r2 (DatagramStep.send refl (omega arith)) in
    let r4 = Reach.step r3 (Step.take refl refl refl) in
    let r5 = Reach.step r4 (Step.drain_second refl) in
    let r6 = Reach.step r5 (Step.acknowledge refl) in
    unfold set_bootstrap_source accepts in Reach.step r6 (Step.accept refl)

joined-Reach : Reach 1 joined_server
unfolding initial accepts net_ip_equal bytes_equal
joined-Reach =
    let r1 = Reach.client waiting-Reach (ClientStep.accept_bootstrap answer.source refl) in
    let r2 = Reach.client r1 (ClientStep.notify refl (omega arith)) in
    let r3 = Reach.step r2 (Step.complete refl refl) in Reach.step r3 (Step.drain_last refl)

Reach-Accepts_example :
    (length joined_server.bootstrap_response ≤ 2)
    × (Accepts (over answer) [] × (HasJoined (over answer) → 0 < 1))
Reach-Accepts_example = Reach-Accepts joined-Reach
