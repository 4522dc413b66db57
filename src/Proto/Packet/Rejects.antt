-- ===== src/Proto/Packet/Rejects.antt =====
-- What ParsePacket of internal/proto/base.go does with bytes that are no packet.
use eswim.Base.{ℕ, ◌/◌, ◌%◌, ◌<◌, ◌≡◌, ◌≢◌, refl, ap, sym, ◌∙◌, List, [], ◌∷◌, ◌++◌, ◌⊎◌, inr}
use eswim.Fsm.{Run, pending, waiting, finished, stopped, new, reset, feed, run, proceed, u16_of}
use eswim.Fsm.Laws.{run-cons}
use eswim.Fsm.Prefix.{run-ne-stopped, run-part, run-current_byte}
use eswim.Proto.Bytes.{u16_bytes, IsU16}
use eswim.Proto.Error.{Error, could_not_parse_packet}
use eswim.Proto.Message.{Message}
use eswim.Proto.Header.RoundTrip
use eswim.Proto.Header.RoundTrip.{
  first, versioned, feed-first, feed-second, feed-magic, feed-foreign,
}
use mathlib.Core.List.{append-nil}
use eswim.Proto.Header.{HeaderMachine, header_decoder, protocol_magic}
use eswim.Proto.Packet.{
  Packet, packet_shape, init_context, packet_decoder, enc_pkt, pkt, PacketMachine, State, Context,
  parsed, parse_packet,
}
use eswim.Proto.Packet.RoundTrip.{IsWireMessage, run-pkt, heading, idle, heading-follows}

parsed-error :
    (r : Run Packet State Context Error) (e : Error)
    → ((x : Error) → r ≢ stopped x)
    → parsed r ≡ inr e
    → e ≡ could_not_parse_packet
unfolding parsed
parsed-error (waiting f) e n h = cc
parsed-error (finished p f rest) e n h = cc
parsed-error (stopped x) e n h = absurd (n x refl)

-- The errors that the decoders raise never come out of `ParsePacket`: the only one that it returns
-- is that it could not parse the bytes.
pub parse_packet-error :
    (l : List ℕ) (e : Error) → parse_packet l ≡ inr e → e ≡ could_not_parse_packet
unfolding parse_packet
parse_packet-error l e h = parsed-error _ e (run-ne-stopped packet_decoder l _) h

-- The bytes that `EncPkt` writes for a message of the form of the wire, at an incarnation that is a uint16,
-- are no packet without some of the last ones. A message has that form if its numbers fit their fields, its
-- addresses are such as a decoder builds, a Ping has fewer than 256 events and a Sync fewer than 256
-- nodes, and the kind in a Pong is below 64, and 0 when no last state is known.
pub parse_packet_truncated :
    (incarnation : ℕ) (m : Message) (l more : List ℕ)
    → IsU16 incarnation
    → IsWireMessage m
    → l ++ more ≡ enc_pkt incarnation m
    → more ≢ []
    → parse_packet l ≡ inr could_not_parse_packet
unfolding parse_packet parsed
parse_packet_truncated incarnation m l more w v h n =
    let whole : run packet_decoder (new packet_shape init_context) (l ++ more)
        ≡ finished (pkt incarnation m) idle [] =
      rw (h ∙ sym (append-nil (enc_pkt incarnation m))) (run-pkt incarnation w [] m v) in
    ap parsed (run-part packet_decoder l more _ idle (pkt incarnation m) n whole).1

abbrev start : PacketMachine
start = heading RoundTrip.idle 0

run-start : (l : List ℕ) → parse_packet l ≡ parsed (run packet_decoder start l)
unfolding parse_packet new reset packet_shape init_context
run-start l = refl

-- Where the decoder of the header starts again, so does `ParsePacket`.
restart :
    (h : HeaderMachine) (b cb : ℕ) (l : List ℕ)
    → feed header_decoder h b ≡ (RoundTrip.idle, pending)
    → parsed (run packet_decoder (heading h cb) (b ∷ l)) ≡ parse_packet l
unfolding parsed
restart h b cb l e =
    ap parsed (
      run-cons packet_decoder (heading h cb) b l
      ∙ ap (λ r. proceed packet_decoder r l) (heading-follows cb b h RoundTrip.idle e))
    ∙ run-current_byte packet_decoder l start b parsed (λ j k. refl)
    ∙ sym (run-start l)

one :
    (h h' : HeaderMachine) (b cb : ℕ) (l : List ℕ)
    → feed header_decoder h b ≡ (h', pending)
    → run packet_decoder (heading h cb) (b ∷ l) ≡ run packet_decoder (heading h' b) l
one h h' b cb l e =
    run-cons packet_decoder (heading h cb) b l
    ∙ ap (λ r. proceed packet_decoder r l) (heading-follows cb b h h' e)

-- Two bytes that are not the magic number are passed over.
parse_packet_foreign :
    (a b : ℕ) (l : List ℕ)
    → u16_of (a ∷ b ∷ []) ≢ protocol_magic
    → parse_packet (a ∷ b ∷ l) ≡ parse_packet l
parse_packet_foreign a b l h =
    run-start (a ∷ b ∷ l)
    ∙ ap parsed (one RoundTrip.idle (first a) a 0 (b ∷ l) (feed-first a))
    ∙ restart (first a) b a l (feed-second a b h)

-- So are the magic number and a byte of another version of the protocol or without a known
-- operation; the incarnation that may follow is not passed over.
parse_packet_version :
    (b : ℕ) (l : List ℕ)
    → (b / 16 % 16 ≢ 1) ⊎ ((b % 16 < 1) ⊎ (8 < b % 16))
    → parse_packet (u16_bytes protocol_magic ++ (b ∷ l)) ≡ parse_packet l
parse_packet_version b l h =
    run-start (u16_bytes protocol_magic ++ (b ∷ l))
    ∙ ap parsed (
        one RoundTrip.idle (first 202) 202 0 (254 ∷ b ∷ l) (feed-first 202)
        ∙ one (first 202) (versioned 254) 254 202 (b ∷ l) feed-magic)
    ∙ restart (versioned 254) b 254 l (feed-foreign 254 b h)
