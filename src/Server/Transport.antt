-- ===== src/Server/Transport.antt =====
-- What goes over the network sealed: EncTCPPkt of internal/proto/base.go, and EncodeTCPPacket,
-- DecodeTCPPacket and the first lines of DispatchMessage, HandleUDPControlMessage and
-- HandleMulticastMessage in swim_server.go.
use eswim.Base.{
  ℕ, ◌<◌, ◌≡◌, ◌≢◌, refl, ap, sym, subst, ◌∙◌, Option, none, some, List, [], ◌++◌, ◌⊎◌, inl, inr,
  length, length-append, arith,
}
use mathlib.Core.Option
use eswim.Fsm.{run, finished}
use eswim.Proto.Bytes.{IsU16}
use eswim.Proto.Error.{Error}
use eswim.Proto.Message.{Message}
use eswim.Proto.Packet.{Packet, pkt, enc_pkt, parse_packet, packet_size}
use eswim.Proto.Packet.RoundTrip.{IsWireMessage, parse_packet-enc_pkt}
use eswim.Proto.Packet.Size.{length-enc_pkt}
use eswim.Proto.TcpPacket.{TcpPacket, tcp_packet, tcp_decoder, tcp_bytes}
use eswim.Proto.TcpPacket.RoundTrip
use eswim.Proto.TcpPacket.RoundTrip.{run-tcp}
use eswim.Core.Ascon.{
  Cipher, Ascon, panicked, rejected, opened, disabled, keyed, new_ascon, seal, open_data,
  open_data-seal,
}
use eswim.Core.SyncManager.{Received, crashed, unopened, unparsed, received}
use mathlib.Core.List.{append-nil}

map-some :
    {A B : Type 0} (f : A → B) (o : Option A) (b : B)
    → Option.map f o ≡ some b
    → (x : A) × (o ≡ some x) × (f x ≡ b)
map-some f none b e = cc
map-some f (some x) b e = (x, refl, cc)

module _ (cipher : Cipher) where
  -- The bytes that DispatchMessage and DispatchMulticast send.
  unfoldable pub enc_datagram : Ascon → Option (List ℕ) → ℕ → Message → Option (List ℕ)
  enc_datagram a random incarnation m = seal cipher a random (enc_pkt incarnation m)

  -- `EncTCPPkt`, which is `EncodeTCPPacket`
  unfoldable pub enc_tcp_pkt : Ascon → Option (List ℕ) → ℕ → Message → Option TcpPacket
  enc_tcp_pkt a random incarnation m =
      Option.map tcp_packet (seal cipher a random (enc_pkt incarnation m))

  unfoldable pub with_source : List ℕ → Packet ⊎ Error → Received
  with_source source (inl p) = received (record p { source = source })
  with_source source (inr e) = unparsed e

  -- What the handlers make of the bytes that they are given.
  unfoldable pub receive : Ascon → List ℕ → List ℕ → Received
  unfolding with_source
  receive a source sealed = elim (open_data cipher a sealed) [
    | panicked ↦ crashed
    | rejected ↦ unopened
    | opened plain ↦ with_source source (parse_packet plain)
  ]

  -- `DecodeTCPPacket`
  unfoldable pub decode_tcp_packet : Ascon → List ℕ → TcpPacket → Received
  unfolding receive
  decode_tcp_packet a source p = receive a source p.payload

  module _ (key nonce : List ℕ) (a : Ascon) (made : new_ascon cipher key ≡ some a)
      (sized : length nonce ≡ 16) (incarnation : ℕ) (m : Message) (u : IsU16 incarnation)
      (w : IsWireMessage m) where
    parsed-pkt : parse_packet (enc_pkt incarnation m) ≡ inl (pkt incarnation m)
    parsed-pkt =
        ap parse_packet (sym (append-nil (enc_pkt incarnation m)))
        ∙ parse_packet-enc_pkt incarnation m [] u w

    -- A datagram that a server sends is received as the packet that was sent, by every server with
    -- its key.
    pub receive-enc_datagram :
        (source sealed : List ℕ)
        → enc_datagram a (some nonce) incarnation m ≡ some sealed
        → receive a source sealed ≡ received (record (pkt incarnation m) { source = source })
    unfolding enc_datagram receive with_source
    receive-enc_datagram source sealed e =
        rw
          (
            open_data-seal cipher key nonce (enc_pkt incarnation m) sealed a made sized e,
            receive,
            parsed-pkt,
          )
          refl

  seal-nonempty :
      (a : Ascon) (nonce plain sealed : List ℕ)
      → 0 < length nonce
      → 0 < length plain
      → seal cipher a (some nonce) plain ≡ some sealed
      → sealed ≢ []
  unfolding seal
  seal-nonempty disabled nonce plain sealed n p e z = absurd (ground (arith, e, z, p))
  seal-nonempty (keyed key) nonce plain sealed n p e z =
      let l = length-append nonce (cipher.seal key nonce plain) in
      absurd (ground (arith, e, z, n, l))

  module _ (key nonce : List ℕ) (a : Ascon) (made : new_ascon cipher key ≡ some a)
      (sized : length nonce ≡ 16) (incarnation : ℕ) (m : Message) (u : IsU16 incarnation)
      (w : IsWireMessage m) where
    -- A frame that a server makes for a message is decoded by every server with its key to the
    -- packet that was sent.
    pub decode_tcp_packet-encoded :
        (source : List ℕ) (p : TcpPacket)
        → enc_tcp_pkt a (some nonce) incarnation m ≡ some p
        → decode_tcp_packet a source p ≡ received (record (pkt incarnation m) { source = source })
    unfolding enc_tcp_pkt enc_datagram decode_tcp_packet tcp_packet
    decode_tcp_packet-encoded source p e =
        let (sealed, s, f) =
          map-some tcp_packet (seal cipher a (some nonce) (enc_pkt incarnation m)) p e in
        subst
          (λ q.
            decode_tcp_packet a source q
            ≡ received (record (pkt incarnation m) { source = source }))
          f (receive-enc_datagram key nonce a made sized incarnation m u w source sealed s)

    -- A frame that a server with a key writes for a message of the form of the wire, at an incarnation
    -- that is a uint16, with a payload below 4 GiB, is read from the stream at the other end, the rest of
    -- the stream is left, and a server with the same key decodes it to the packet that was sent. The nonce
    -- has sixteen bytes. A message has that form if its numbers fit their fields, its addresses are
    -- such as a decoder builds, a Ping has fewer than 256 events and a Sync fewer than 256 nodes, and
    -- the kind in a Pong is below 64, and 0 when no last state is known.
    pub decode_tcp_packet-enc_tcp_pkt :
        (source rest : List ℕ) (p : TcpPacket)
        → enc_tcp_pkt a (some nonce) incarnation m ≡ some p
        → length p.payload < 4294967296
        → (run tcp_decoder RoundTrip.idle (tcp_bytes p ++ rest) ≡ finished p RoundTrip.idle rest)
          × (decode_tcp_packet a source p
              ≡ received (record (pkt incarnation m) { source = source }))
    unfolding enc_tcp_pkt tcp_packet packet_size
    decode_tcp_packet-enc_tcp_pkt source rest p e short =
        let (sealed, s, f) =
          map-some tcp_packet (seal cipher a (some nonce) (enc_pkt incarnation m)) p e in
        (
          subst
              (λ q.
                run tcp_decoder RoundTrip.idle (tcp_bytes q ++ rest)
                ≡ finished q RoundTrip.idle rest)
              f
              (run-tcp sealed rest
                (seal-nonempty a nonce (enc_pkt incarnation m) sealed (omega arith) plain_pos s)
                (subst (λ q. length q.payload < 4294967296) (sym f) short)),
          decode_tcp_packet-encoded source p e,
        )
      where
        plain_pos : 0 < length (enc_pkt incarnation m)
        plain_pos = omega (arith, length-enc_pkt incarnation m w)
