-- ===== src/Core/RunLoop.antt =====
-- The protocol period: internal/core/runloop.go. What the loop asks of its delegate is a record of
-- operations on the delegate's state `S`; an operation that reads CurrentPeriod is given it. Timers
-- and the channel are the order in which messages and the ping timeout reach the loop, a list of
-- `Happening`. What adaptive pings measure is in Adaptive.
pub mod Period
pub mod Adaptive
use eswim.Base.{
  ℕ, ◌+◌, ◌-◌, ◌*◌, ◌%◌, ◌==◌, leb, ltb, Bool, true, false, ◌&&◌, not, Option, none, some, List, [],
  ◌∷◌, if◌then◌else◌, ite,
}
use eswim.Proto.Ip.{Ip, NodeHash, hash_zero, NodeHash-discrete}
use eswim.Proto.Node.{Node, hash}
use eswim.Proto.Event.{Event}
use eswim.Proto.Message.{
  Ping, Pong, IndirectPing, IndirectPong, Message, ping, pong, indirect_ping, indirect_pong,
  ping_size,
}

pub record Delegate (S : Type 0) : Type 1 where
  pub next_probe_subject : S → S × Option Node
  pub gossip_events : ℕ → S → S × List Event
  pub dispatch_message : Ip → Message → S → S
  pub signal_healthy_node : NodeHash → S → S
  pub signal_suspect_node : ℕ → NodeHash → S → S
  pub process_expired_suspects : ℕ → S → S
  pub ping_timeout_setting : S → ℕ  -- PingTimeout
  pub indirect_ping_members : NodeHash → S → List Node
  pub node_by_hash : NodeHash → S → Option Node
  pub perform_full_sync : S → S

-- `runLoopPeriod`, without its timers and its lock.
pub record RunLoopPeriod : Type 0 where
  pub id : ℕ  -- uint16
  pub acked : Bool
  pub node : NodeHash
  pub cookie : ℕ  -- uint16
  pub period_hash : ℕ  -- uint32

-- The constants of `runLoop`.
pub record Settings : Type 0 where
  pub udp_max_len : ℕ
  pub sync_proto_rounds : ℕ

-- The period of `NewRunLoop`.
unfoldable pub new_period : RunLoopPeriod
new_period = record { id = 1; acked = false; node = hash_zero; cookie = 0; period_hash = 0 }

-- `unsafeIncrementID`
unfoldable pub increment_id : RunLoopPeriod → RunLoopPeriod
increment_id r = if leb 65535 (r.id + 1) then record r { id = 0 } else record r { id = r.id + 1 }

-- `makeCookie` at the random number `random`: `uint32(cookie) | uint32(id) << 16` of two uint16
-- values is a sum.
unfoldable pub make_cookie : ℕ → RunLoopPeriod → RunLoopPeriod
make_cookie random r =
    let cookie = random % 65536 in record r { cookie = cookie; period_hash = cookie + r.id * 65536 }

-- `handleMessage`; other messages are logged and dropped.
unfoldable pub handle_message : Message → RunLoopPeriod → RunLoopPeriod
handle_message (pong m) r =
    if not (m.period == r.id)
    then r
    else if not (m.cookie == r.cookie)
    then r
    else record r { acked = true }
handle_message (indirect_pong m) r =
    if not (m.period == r.id)
    then r
    else if not (m.cookie == r.cookie)
    then r
    else record r { acked = true }
handle_message _ r = r

module _ {S : Type 0} (d : Delegate S) where
  -- `for _, v := range indirect`
  unfoldable pub dispatch_all : List Node → Message → S → S
  dispatch_all [] m s = s
  dispatch_all (v ∷ vs) m s = dispatch_all vs m (d.dispatch_message v.address m s)

  unfoldable pub ping_indirect : RunLoopPeriod → S → S
  unfolding dispatch_all
  ping_indirect r s = if r.acked then s else (elim (d.node_by_hash r.node s) [
    | none ↦ s
    | some n ↦
        dispatch_all (d.indirect_ping_members r.node s)
          (indirect_ping (record { cookie = r.cookie; period = r.id; address = n.address })) s
  ])

module _ {S : Type 0} (d : Delegate S) (settings : Settings) where
  -- `udpMaxLen - RequiredSize` may be negative in the source, where it stops at 0 here; no event fits
  -- into either.
  unfoldable pub start_period : ℕ → RunLoopPeriod → S → RunLoopPeriod × S
  unfolding make_cookie
  start_period random r s =
      let cleared = record r { acked = false; node = hash_zero } in
      let (s', probed) = d.next_probe_subject s in
      elim probed [
        | none ↦ (cleared, s')
        | some n ↦
            let r' = record (make_cookie random cleared) { node = hash n } in
            let sent : Ping = record {
              cookie = r'.cookie;
              period = r'.id;
              target_incarnation = n.incarnation;
              events = [];
            } in
            let (s'', events) = d.gossip_events (settings.udp_max_len - ping_size sent) s' in
            (r', d.dispatch_message n.address (ping (record sent { events = events })) s'')
      ]

  unfoldable pub synced : ℕ → S → S
  synced id s =
      if ltb 0 settings.sync_proto_rounds && id % settings.sync_proto_rounds == 0
      then d.perform_full_sync s
      else s

  unfoldable pub signalled : RunLoopPeriod → S → S
  signalled r s =
      ite (NodeHash-discrete r.node hash_zero) s
        (if r.acked then d.signal_healthy_node r.node s else d.signal_suspect_node r.id r.node s)

  unfoldable pub end_period : RunLoopPeriod → S → RunLoopPeriod × S
  unfolding signalled synced increment_id
  end_period r s =
      let s' = d.process_expired_suspects r.id (signalled r s) in
      let r' = increment_id (record r { node = hash_zero }) in (r', synced r'.id s')

-- What the `select` of `waitPeriod` can take while the period lasts; `changed` is what the rest of the
-- server does to the delegate's state meanwhile.
pub data Happening (S : Type 0) : Type 0 where
  ping_timeout : Happening S
  incoming : Message → Happening S
  changed : (S → S) → Happening S

module _ {S : Type 0} (d : Delegate S) where
  unfoldable pub wait_period : List (Happening S) → RunLoopPeriod → S → RunLoopPeriod × S
  unfolding handle_message ping_indirect
  wait_period [] r s = (r, s)
  wait_period (ping_timeout ∷ hs) r s =
      wait_period hs r (ite (NodeHash-discrete r.node hash_zero) s (ping_indirect d r s))
  wait_period (incoming m ∷ hs) r s = wait_period hs (handle_message m r) s
  wait_period (changed f ∷ hs) r s = wait_period hs r (f s)

module _ {S : Type 0} (d : Delegate S) (settings : Settings) where
  -- One turn of `loop`.
  unfoldable pub turn : ℕ → List (Happening S) → RunLoopPeriod → S → RunLoopPeriod × S
  unfolding start_period wait_period end_period
  turn random hs r s =
      let (r', s') = start_period d settings random r s in
      let (r'', s'') = wait_period d hs r' s' in end_period d settings r'' s''
