-- ===== src/Tests/Packets.antt =====
-- Packets on the wire, plain and sealed by a toy cipher that puts a byte before the text.
use eswim.Base.{
  ℕ, ◌<◌, ◌==◌, ◌≡◌, refl, Option, none, some, List, [], ◌∷◌, ◌++◌, inl, inr, length, replicate,
  arith,
}
use eswim.Fsm.{run, finished}
use eswim.Proto.Error.{could_not_parse_packet}
use eswim.Proto.Event.{join}
use eswim.Proto.Writer.Encoders.{encode_packet}
use eswim.Proto.Writer.Fills.{encode_packet-enc_pkt}
use eswim.Proto.Message.{Message, Ping, ping, indirect_pong}
use eswim.Proto.Message.PingDecoder.RoundTrip.{IsWirePing}
use eswim.Proto.Packet.{pkt, op_code, enc_pkt, parsed, parse_packet}
use eswim.Proto.Packet.RoundTrip.{IsWireMessage, parse_packet-enc_pkt}
use eswim.Proto.Packet.Rejects.{parse_packet-error, parse_packet_truncated}
use eswim.Proto.TcpPacket.{TcpPacket, tcp_packet, tcp_decoder, tcp_bytes}
use eswim.Proto.TcpPacket.RoundTrip
use eswim.Core.Ascon.{Cipher, keyed, new_ascon, seal}
use eswim.Core.SyncManager.{received}
use eswim.Server.Transport.{enc_tcp_pkt, decode_tcp_packet, decode_tcp_packet-enc_tcp_pkt}
use eswim.Tests.Wire.{joined, joined-IsWire}

abbrev pub pinged : Ping
pinged = record { cookie = 513; period = 7; target_incarnation = 3; events = join joined ∷ [] }

pub pinged-IsWire : IsWirePing pinged
pinged-IsWire = record {
  cookie_fits = omega arith;
  period_fits = omega arith;
  target_fits = omega arith;
  count_fits = omega arith;
  events_wire = (joined-IsWire, tt);
}

abbrev answer : Message
answer = indirect_pong (record { cookie = 1; period = 2 })

answer-IsWire : IsWireMessage answer
answer-IsWire = record { cookie_fits = omega arith; period_fits = omega arith }

abbrev open_tagged : List ℕ → Option (List ℕ)
open_tagged [] = none
open_tagged (b ∷ text) = some text

abbrev pub toy : Cipher
toy = record {
  accepts = λ key. length key == 16;
  seal = λ key nonce plain. 1 ∷ plain;
  open_text = λ key nonce text. open_tagged text;
  open_text-seal = λ key nonce plain a n. refl;
}

abbrev pub key : List ℕ
key = replicate 16 5

abbrev pub some_nonce : List ℕ
some_nonce = replicate 16 9

pub key-made : new_ascon toy key ≡ some (keyed key)
unfolding new_ascon
key-made = refl

parse_packet-enc_pkt_example :
    parse_packet (enc_pkt 9 (ping pinged) ++ (1 ∷ [])) ≡ inl (pkt 9 (ping pinged))
parse_packet-enc_pkt_example =
    parse_packet-enc_pkt 9 (ping pinged) (1 ∷ []) (omega arith) pinged-IsWire

encode_packet-enc_pkt_example : encode_packet 9 (ping pinged) ≡ some (enc_pkt 9 (ping pinged))
encode_packet-enc_pkt_example = encode_packet-enc_pkt 9 (ping pinged) pinged-IsWire

nothing_parsed : parse_packet [] ≡ inr could_not_parse_packet
unfolding parse_packet parsed run
nothing_parsed = refl

parse_packet-error_example : could_not_parse_packet ≡ could_not_parse_packet
parse_packet-error_example = parse_packet-error [] could_not_parse_packet nothing_parsed

abbrev cut : List ℕ
cut = 202 ∷ 254 ∷ 23 ∷ 0 ∷ 9 ∷ 0 ∷ 1 ∷ 0 ∷ []

answer_bytes : cut ++ (2 ∷ []) ≡ enc_pkt 9 answer
unfolding enc_pkt pkt op_code
answer_bytes = refl

parse_packet_truncated_example : parse_packet cut ≡ inr could_not_parse_packet
parse_packet_truncated_example =
    parse_packet_truncated 9 answer cut (2 ∷ []) (omega arith) answer-IsWire answer_bytes (λ e. cc)

abbrev frame : TcpPacket
frame = tcp_packet (some_nonce ++ (1 ∷ enc_pkt 9 answer))

framed : enc_tcp_pkt toy (keyed key) (some some_nonce) 9 answer ≡ some frame
unfolding enc_tcp_pkt seal
framed = refl

frame_short : length frame.payload < 4294967296
unfolding enc_pkt pkt tcp_packet
frame_short = omega arith

decode_tcp_packet-enc_tcp_pkt_example :
    (run tcp_decoder RoundTrip.idle (tcp_bytes frame ++ (7 ∷ []))
      ≡ finished frame RoundTrip.idle (7 ∷ []))
    × (decode_tcp_packet toy (keyed key) (10 ∷ 0 ∷ 0 ∷ 2 ∷ []) frame
        ≡ received (record (pkt 9 answer) { source = 10 ∷ 0 ∷ 0 ∷ 2 ∷ [] }))
decode_tcp_packet-enc_tcp_pkt_example =
    decode_tcp_packet-enc_tcp_pkt toy key some_nonce (keyed key) key-made refl 9 answer
      (omega arith) answer-IsWire (10 ∷ 0 ∷ 0 ∷ 2 ∷ []) (7 ∷ []) frame framed frame_short
