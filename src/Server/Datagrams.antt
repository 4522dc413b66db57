-- ===== src/Server/Datagrams.antt =====
-- The datagrams that a server receives: HandleUDPControlMessage, HandleMulticastMessage and
-- performIndirectPing of swim_server.go. What a handler makes the rest of the program do is a list of
-- effects; a message that is sent comes with the incarnation that its header carries. The
-- timer that ends an indirect ping is an operation of its own.
pub mod Relay
use eswim.Base.{
  ℕ, ◌+◌, ◌*◌, ◌%◌, ◌==◌, Bool, true, false, not, Option, none, some, List, [], ◌∷◌, ◌++◌,
  if◌then◌else◌, ℕ_discrete,
}
use eswim.Base.Assoc.{get, put, del}
use eswim.Proto.Ip.{Ip, bytes}
use eswim.Proto.NetIp.{ip_from_net_ip}
use eswim.Proto.Node.{Node}
use eswim.Proto.Message.{
  Message, bootstrap_request, bootstrap_response, bootstrap_ack, Ping, Pong, IndirectPing,
  IndirectPong, ping, pong, indirect_ping, indirect_pong, sync,
}
use eswim.Proto.Packet.{Packet}
use eswim.Core.Ascon.{Cipher, Ascon}
use eswim.Core.GossipManager.{Sorter}
use eswim.Server.{Server}
use eswim.Server.Messages.{receive_ping, receive_pong}
use eswim.Core.SyncManager.{crashed, unopened, unparsed, received}
use eswim.Server.Transport.{receive}

-- What the closure that performIndirectPing stores has of its surroundings.
pub record Callback : Type 0 where
  pub source : List ℕ
  pub cookie : ℕ
  pub period : ℕ

-- The fields of `swimServer` that the datagrams need beside those of `Server`.
pub record Host : Type 0 where
  pub server : Server
  pub bootstrap_response_received : Bool
  pub indirect_ping_callbacks : List (ℕ × Callback)

pub data Effect : Type 0 where
  dispatch_message : List ℕ → ℕ → Message → Effect
  receive_message : Packet → Effect
  deliver_bootstrap_response : Packet → Effect
  start_indirect_ping : IndirectPing → Packet → Effect
  perform_bootstrap : Node → Effect

-- `uint32(cookie) | uint32(period)<<16` of two uint16 values.
abbrev pub tag : ℕ → ℕ → ℕ
tag cookie period = cookie + period * 65536

-- `callback(msg)`, where LoadAndDelete has found one.
unfoldable pub call_back : ℕ → Option Callback → List Effect
call_back incarnation none = []
call_back incarnation (some c) =
    dispatch_message c.source incarnation
      (indirect_pong (record { cookie = c.cookie; period = c.period }))
    ∷ []

-- The Pong case.
unfoldable pub handle_pong : Sorter → Pong → Packet → Host → Host × List Effect
unfolding call_back
handle_pong sorter m p h =
    let s = receive_pong sorter m h.server in
    let key = tag m.cookie m.period in
    (
      record h {
        server = s;
        indirect_ping_callbacks = del ℕ_discrete key h.indirect_ping_callbacks;
      },
      call_back s.incarnation (get ℕ_discrete key h.indirect_ping_callbacks)
          ++ (receive_message p ∷ []),
    )

-- The `switch msg := pkt.Message.(type)`; `period` is what CurrentPeriod of the loop gives.
unfoldable pub handle_message : Sorter → ℕ → Packet → Option Message → Host → Host × List Effect
unfolding handle_pong
handle_message sorter period p (some bootstrap_response) h =
    if h.bootstrap_response_received
    then (h, [])
    else (record h { bootstrap_response_received = true }, deliver_bootstrap_response p ∷ [])
handle_message sorter period p (some (ping m)) h =
    let (s, answer) =
      receive_ping sorter period (ip_from_net_ip p.source) p.header.incarnation m h.server in
    (record h { server = s }, dispatch_message p.source h.server.incarnation (pong answer) ∷ [])
handle_message sorter period p (some (pong m)) h = handle_pong sorter m p h
handle_message sorter period p (some (indirect_pong m)) h = (h, receive_message p ∷ [])
handle_message sorter period p (some (indirect_ping m)) h = (h, start_indirect_ping m p ∷ [])
handle_message sorter period p (some bootstrap_ack) h = (
  h,
  perform_bootstrap (record {
    suspect = false;
    incarnation = p.header.incarnation;
    address = ip_from_net_ip p.source;
  })
      ∷ [],
)
handle_message sorter period p (some bootstrap_request) h = (h, [])
handle_message sorter period p (some (sync m)) h = (h, [])
handle_message sorter period p none h = (h, [])

module _ (cipher : Cipher) (a : Ascon) where
  -- `HandleUDPControlMessage`; `none` is a panic.
  unfoldable pub handle_udp_control_message :
      Sorter → ℕ → List ℕ → List ℕ → Host → Option (Host × List Effect)
  unfolding handle_message
  handle_udp_control_message sorter period source bytes h = elim (receive cipher a source bytes) [
    | crashed ↦ none
    | unopened ↦ some (h, [])
    | unparsed e ↦ some (h, [])
    | received p ↦ some (handle_message sorter period p p.message h)
  ]

  -- `HandleMulticastMessage`; `luck` is `rand.Intn(2)`.
  unfoldable pub handle_multicast_message : ℕ → List ℕ → List ℕ → Host → Option (List Effect)
  handle_multicast_message luck source bytes h = elim (receive cipher a source bytes) [
    | crashed ↦ none
    | unopened ↦ some []
    | unparsed e ↦ some []
    | received p ↦
        if not (p.header.op_code == 1)
        then some []
        else if luck == 0
        then some []
        else some (dispatch_message source h.server.incarnation bootstrap_response ∷ [])
  ]

-- `performIndirectPing` up to its timer; `random` is `rand.Int()`.
unfoldable pub perform_indirect_ping : ℕ → ℕ → IndirectPing → Packet → Host → Host × List Effect
perform_indirect_ping random period m p h =
    let cookie = random % 65536 in
    (
      record h {
        indirect_ping_callbacks =
            put ℕ_discrete (tag cookie period)
              (record { source = p.source; cookie = m.cookie; period = m.period })
              h.indirect_ping_callbacks;
      },
      dispatch_message (bytes m.address) h.server.incarnation (
            ping (record { cookie = cookie; period = period; target_incarnation = 0; events = [] }))
          ∷ [],
    )

-- What the timer does after five protocol periods.
unfoldable pub expire_indirect_ping : ℕ → ℕ → Host → Host
expire_indirect_ping random period h = record h {
  indirect_ping_callbacks = del ℕ_discrete (tag (random % 65536) period) h.indirect_ping_callbacks;
}
