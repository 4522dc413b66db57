-- ===== src/Server/Datagrams/Relay.antt =====
-- What the datagram handlers of swim_server.go do with the messages of other servers: an indirect ping is
-- relayed once, and a sealed Ping is answered.
use eswim.Base.{
  ℕ, ◌%◌, ◌≡◌, ◌≢◌, refl, ◌∙◌, Option, none, some, List, [], ◌∷◌, length, ℕ_discrete, arith,
}
use eswim.Base.Assoc.{get, put, del, get-put, get-del}
use eswim.Proto.Bytes.{IsU16}
use eswim.Proto.NetIp.{ip_from_net_ip}
use eswim.Proto.Message.{Ping, Pong, IndirectPing, ping, pong, indirect_pong}
use eswim.Proto.Packet.{Packet, pkt}
use eswim.Proto.Packet.RoundTrip.{IsWireMessage}
use eswim.Core.Ascon.{Cipher, Ascon, new_ascon}
use eswim.Core.GossipManager.{Sorter}
use eswim.Server.{Server}
use eswim.Server.Messages.{receive_ping}
use eswim.Server.Transport.{enc_datagram, receive-enc_datagram}
use eswim.Server.Datagrams.{
  Callback, Host, dispatch_message, receive_message, tag, call_back, handle_pong, handle_message,
  handle_udp_control_message, perform_indirect_ping,
}

-- The callback that an indirect ping leaves behind.
abbrev pub waiting : ℕ → ℕ → Host → Option Callback
waiting cookie period h = get ℕ_discrete (tag cookie period) h.indirect_ping_callbacks

get-put_same :
    {V : Type 0} (j k : ℕ) (v : V) (m : List (ℕ × V))
    → j ≡ k
    → get ℕ_discrete j (put ℕ_discrete k v m) ≡ some v
get-put_same j k v m e = let g = get-put ℕ_discrete j k v m in ground (arith, g, e)

get-del_same :
    {V : Type 0} (k : ℕ) (m : List (ℕ × V)) → get ℕ_discrete k (del ℕ_discrete k m) ≡ none
get-del_same k m = let g = get-del ℕ_discrete k k m in ground (arith, g)

get-del_other :
    {V : Type 0} (j k : ℕ) (m : List (ℕ × V))
    → j ≢ k
    → get ℕ_discrete j (del ℕ_discrete k m) ≡ get ℕ_discrete j m
get-del_other j k m n = let g = get-del ℕ_discrete j k m in ground (arith, g, n)

-- A Pong with the cookie and the period of an indirect ping that was started before is passed to the
-- loop after an IndirectPong with the cookie and the period of the request has been sent to the server
-- that asked for the ping; the same Pong again is only passed to the loop.
pub perform_indirect_ping-relays :
    (sorter : Sorter) (random period : ℕ) (m : IndirectPing) (p q : Packet) (o : Pong) (h : Host)
    → o.cookie ≡ random % 65536
    → o.period ≡ period
    → let started = (perform_indirect_ping random period m p h).0 in
      let (h1, e1) = handle_pong sorter o q started in
      let (h2, e2) = handle_pong sorter o q h1 in
      (e1
        ≡ dispatch_message p.source h1.server.incarnation
            (indirect_pong (record { cookie = m.cookie; period = m.period }))
          ∷ receive_message q
          ∷ [])
      × (e2 ≡ receive_message q ∷ [])
unfolding perform_indirect_ping handle_pong call_back
perform_indirect_ping-relays sorter random period m p q o h c d =
    let key = tag o.cookie o.period in
    let left : Callback = record { source = p.source; cookie = m.cookie; period = m.period } in
    let stored = put ℕ_discrete (tag (random % 65536) period) left h.indirect_ping_callbacks in
    (
      rw (
          get-put_same key (tag (random % 65536) period) left h.indirect_ping_callbacks
            (omega (arith, c, d))),
      rw (get-del_same key stored),
    )

-- A Pong with another cookie or period, all of them uint16 values, leaves the indirect ping waiting.
perform_indirect_ping-waits :
    (sorter : Sorter) (random period : ℕ) (m : IndirectPing) (p q : Packet) (o : Pong) (h : Host)
    → IsU16 o.cookie
    → (o.cookie ≡ random % 65536 → o.period ≡ period → ⊥)
    → let started = (perform_indirect_ping random period m p h).0 in
      waiting (random % 65536) period (handle_pong sorter o q started).0
      ≡ some (record { source = p.source; cookie = m.cookie; period = m.period })
unfolding perform_indirect_ping handle_pong call_back
perform_indirect_ping-waits sorter random period m p q o h c n =
    let own = tag (random % 65536) period in
    let left : Callback = record { source = p.source; cookie = m.cookie; period = m.period } in
    get-del_other own (tag o.cookie o.period) (put ℕ_discrete own left h.indirect_ping_callbacks)
      (λ e. n (omega arith) (omega arith))
    ∙ get-put_same own own left h.indirect_ping_callbacks refl

module _ (cipher : Cipher) (key nonce : List ℕ) (a : Ascon) (made : new_ascon cipher key ≡ some a)
    (sized : length nonce ≡ 16) (incarnation : ℕ) (u : IsU16 incarnation) where
  -- A sealed Ping is handled by `receive_ping`.
  pub handle_udp_control_message-receive_ping :
      (sorter : Sorter) (period : ℕ) (source bytes : List ℕ) (m : Ping) (h : Host)
      → IsWireMessage (ping m)
      → enc_datagram cipher a (some nonce) incarnation (ping m) ≡ some bytes
      → let (s, answer) =
          receive_ping sorter period (ip_from_net_ip source) incarnation m h.server in
        handle_udp_control_message cipher a sorter period source bytes h
        ≡ some (
          record h { server = s },
          dispatch_message source h.server.incarnation (pong answer) ∷ [],
        )
  unfolding handle_udp_control_message handle_message pkt
  handle_udp_control_message-receive_ping sorter period source bytes m h w e =
      let r =
        receive-enc_datagram cipher key nonce a made sized incarnation (ping m) u w source bytes
          e in
      rw (r, handle_udp_control_message) refl
