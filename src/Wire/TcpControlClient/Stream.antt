-- ===== src/Wire/TcpControlClient/Stream.antt =====
-- The stream between two clients of internal/wire/tcp_control_client.go: what one writes, the other reads.
use eswim.Base.{
  ℕ, ◌<◌, ◌≤◌, ◌≡◌, ◌≢◌, refl, sym, ap, ◌∙◌, Bool, true, false, List, [], ◌∷◌, ◌++◌, map, take,
  drop, take-append-drop, length-drop, length, All, arith, if◌then◌else◌,
}
use mathlib.Core.List.{append_assoc, append-nil}
use eswim.Fsm.{Fed, pending, value, failed, finished, feed, run, proceed}
use eswim.Fsm.Laws.{run-cons}
use eswim.Proto.Error.{Error}
use eswim.Proto.TcpPacket.{TcpPacket, TcpMachine, tcp_decoder, tcp_bytes, tcp_packet}
use eswim.Proto.TcpPacket.RoundTrip.{idle, run-tcp}
use eswim.Wire.TcpControlClient.{
  TcpControlClient, Wrote, took, write_error, sent, write_loop, write, close, deliver, read_bytes,
  Read, got, loop,
}

-- A Write that returns nil has written all the bytes.
write_loop-sent :
    (rs : List Wrote) (bs : List ℕ) → (write_loop rs bs).1 ≡ sent → (write_loop rs bs).0 ≡ bs
unfolding write_loop
write_loop-sent [] [] h = refl
write_loop-sent (r ∷ rs) [] h = refl
write_loop-sent [] (b ∷ bs) h = cc
write_loop-sent (write_error ∷ rs) (b ∷ bs) h = cc
write_loop-sent (took n ∷ rs) (b ∷ bs) h =
    ap (λ l. take n (b ∷ bs) ++ l) (write_loop-sent rs (drop n (b ∷ bs)) h)
    ∙ take-append-drop n (b ∷ bs)

abbrev taken : Wrote → ℕ
taken (took n) = n
taken write_error = 0

-- A Write on a connection that takes at least one byte at a time returns nil, after at most as many
-- writes as there are bytes, and has written all of them.
write_loop-taken :
    (rs : List Wrote) (bs : List ℕ)
    → All (λ r. 0 < taken r) rs
    → length bs ≤ length rs
    → write_loop rs bs ≡ (bs, sent)
unfolding write_loop
write_loop-taken [] [] a h = refl
write_loop-taken (r ∷ rs) [] a h = refl
write_loop-taken [] (b ∷ bs) a h = absurd (omega arith)
write_loop-taken (write_error ∷ rs) (b ∷ bs) (p, a) h = absurd (omega arith)
write_loop-taken (took n ∷ rs) (b ∷ bs) (p, a) h =
    ap (λ r. (take n (b ∷ bs) ++ r.0, r.1))
      (write_loop-taken rs (drop n (b ∷ bs)) a (omega (arith, length-drop n (b ∷ bs))))
    ∙ ap (λ l. (l, sent)) (take-append-drop n (b ∷ bs))

abbrev pub flatten : List (List ℕ) → List ℕ
flatten [] = []
flatten (l ∷ ls) = l ++ flatten ls

-- What follows some bytes that are read.
abbrev then_read : TcpControlClient × Bool → List ℕ → TcpControlClient × Bool
then_read r ys = if r.1 then read_bytes ys r.0 else r

-- What the client does once a byte is decoded.
abbrev fed_byte :
    List ℕ → TcpControlClient → TcpMachine × Fed TcpPacket Error → TcpControlClient × Bool
fed_byte bs c r = elim (r.1) [
  | pending ↦ read_bytes bs (record c { decoder = r.0 })
  | value m ↦ read_bytes bs (deliver m (record c { decoder = r.0 }))
  | failed e ↦ (close (record c { decoder = r.0 }), false)
]

read_bytes-cons :
    (b : ℕ) (bs : List ℕ) (c : TcpControlClient)
    → read_bytes (b ∷ bs) c ≡ fed_byte bs c (feed tcp_decoder c.decoder b)
unfolding read_bytes
read_bytes-cons b bs c = refl

read_bytes-append :
    (xs ys : List ℕ) (c : TcpControlClient)
    → read_bytes (xs ++ ys) c ≡ then_read (read_bytes xs c) ys
read_bytes-append [] ys c = unfold read_bytes in refl
read_bytes-append (x ∷ xs) ys c =
    read_bytes-cons x (xs ++ ys) c
    ∙ go (feed tcp_decoder c.decoder x) (λ d. read_bytes-append xs ys d)
    ∙ ap (λ r. then_read r ys) (sym (read_bytes-cons x xs c))
  where
    go :
        (r : TcpMachine × Fed TcpPacket Error)
        → ((d : TcpControlClient) → read_bytes (xs ++ ys) d ≡ then_read (read_bytes xs d) ys)
        → fed_byte (xs ++ ys) c r ≡ then_read (fed_byte xs c r) ys
    go (f, pending) ih = ih _
    go (f, value m) ih = ih _
    go (f, failed e) ih = refl

-- A frame that the decoder takes is delivered, and the reading goes on behind it.
read_bytes-finished :
    (bs : List ℕ) (c : TcpControlClient) (m : TcpPacket) (k : TcpMachine) (rest : List ℕ)
    → run tcp_decoder c.decoder bs ≡ finished m k rest
    → read_bytes bs c ≡ read_bytes rest (deliver m (record c { decoder = k }))
read_bytes-finished [] c m k rest h = unfold run in cc
read_bytes-finished (b ∷ bs) c m k rest h =
    read_bytes-cons b bs c
    ∙ go (feed tcp_decoder c.decoder b)
        (λ f. read_bytes-finished bs (record c { decoder = f }) m k rest)
        (sym (run-cons tcp_decoder c.decoder b bs) ∙ h)
  where
    go :
        (r : TcpMachine × Fed TcpPacket Error)
        → ((f : TcpMachine)
            → run tcp_decoder f bs ≡ finished m k rest
            → read_bytes bs (record c { decoder = f })
              ≡ read_bytes rest (deliver m (record c { decoder = k })))
        → proceed tcp_decoder r bs ≡ finished m k rest
        → fed_byte bs c r ≡ read_bytes rest (deliver m (record c { decoder = k }))
    go (f, pending) ih p = ih f p
    go (f, value v) ih p = cc
    go (f, failed e) ih p = cc

loop-cons :
    (l : List ℕ) (rs : List Read) (c : TcpControlClient)
    → loop (got l ∷ rs) c
      ≡ (if (read_bytes l c).1 then loop rs (read_bytes l c).0 else (read_bytes l c).0)
unfolding loop
loop-cons l rs c = refl

-- What some reads do is what one read of all their bytes does.
loop-got :
    (ls : List (List ℕ)) (c : TcpControlClient)
    → loop (map got ls) c ≡ (read_bytes (flatten ls) c).0
loop-got [] c = unfold loop read_bytes in refl
loop-got (l ∷ ls) c =
    loop-cons l (map got ls) c
    ∙ go (read_bytes l c) (λ d. loop-got ls d)
    ∙ ap (λ r. r.0) (sym (read_bytes-append l (flatten ls) c))
  where
    go :
        (r : TcpControlClient × Bool)
        → ((d : TcpControlClient) → loop (map got ls) d ≡ (read_bytes (flatten ls) d).0)
        → (if r.1 then loop (map got ls) r.0 else r.0) ≡ (then_read r (flatten ls)).0
    go (c', true) ih = ih c'
    go (c', false) ih = refl

-- The frames of some payloads, each with what Write of the connection returned while it was written.
abbrev pub Sending : Type 0
Sending = List (List Wrote × List ℕ)

abbrev pub frames : Sending → List TcpPacket
frames ws = map (λ w. tcp_packet w.1) ws

-- All the bytes that the connection took.
abbrev pub on_wire : Sending → List ℕ
on_wire [] = []
on_wire ((rs, l) ∷ ws) = (write rs (tcp_packet l)).0 ++ on_wire ws

-- Write returned nil, and the payload is one that a frame can carry.
abbrev pub IsSent : List Wrote × List ℕ → Type 0
IsSent w = ((write w.0 (tcp_packet w.1)).1 ≡ sent) × ((w.1 ≢ []) × (length w.1 < 4294967296))

-- The client after some frames, between two frames.
abbrev pub with_frames : List TcpPacket → TcpControlClient → TcpControlClient
with_frames ms c =
    if c.is_hijacked
    then record c { hijack_chan = c.hijack_chan ++ ms }
    else record c { message = c.message ++ ms }

abbrev pub between : TcpControlClient → TcpControlClient
between c = record c { decoder = idle }

with_frames-cons :
    (m : TcpPacket) (ms : List TcpPacket) (c : TcpControlClient)
    → with_frames ms (between (deliver m (between c))) ≡ with_frames (m ∷ ms) (between c)
unfolding deliver
with_frames-cons m ms c = go c.is_hijacked refl
  where
    go :
        (h : Bool)
        → c.is_hijacked ≡ h
        → with_frames ms (between (deliver m (between c))) ≡ with_frames (m ∷ ms) (between c)
    go true e = rw (e, append_assoc c.hijack_chan (m ∷ []) ms) refl
    go false e = rw (e, append_assoc c.message (m ∷ []) ms) refl

deliver-between :
    (m : TcpPacket) (c : TcpControlClient) → deliver m (between c) ≡ between (deliver m (between c))
unfolding deliver
deliver-between m c = ground arith

with_frames-nil : (c : TcpControlClient) → with_frames [] c ≡ c
with_frames-nil c = go c.is_hijacked refl
  where
    go : (h : Bool) → c.is_hijacked ≡ h → with_frames [] c ≡ c
    go true e = rw (e, append-nil c.hijack_chan) refl
    go false e = rw (e, append-nil c.message) refl

read_bytes-on_wire :
    (ws : Sending) (c : TcpControlClient)
    → All IsSent ws
    → read_bytes (on_wire ws) (between c) ≡ (with_frames (frames ws) (between c), true)
read_bytes-on_wire [] c a =
    unfold read_bytes in ap (λ d. (d, true)) (sym (with_frames-nil (between c)))
read_bytes-on_wire ((rs, l) ∷ ws) c ((s, (n, short)), a) =
    ap (λ bs. read_bytes (bs ++ on_wire ws) (between c)) written
    ∙ read_bytes-finished (tcp_bytes (tcp_packet l) ++ on_wire ws) (between c) (tcp_packet l) idle
        (on_wire ws) (run-tcp l (on_wire ws) n short)
    ∙ ap (read_bytes (on_wire ws)) (deliver-between (tcp_packet l) c)
    ∙ read_bytes-on_wire ws (deliver (tcp_packet l) (between c)) a
    ∙ ap (λ d. (d, true)) (with_frames-cons (tcp_packet l) (frames ws) c)
  where
    written : (write rs (tcp_packet l)).0 ≡ tcp_bytes (tcp_packet l)
    written = unfold write in write_loop-sent rs (tcp_bytes (tcp_packet l)) (unfold write in s)

-- Frames that one client writes without an error arrive at the other, each once and in their order, at
-- its handler or, once it is hijacked, at the hijacker, and its decoder is ready for the next one:
-- whatever part of a frame each write takes, and wherever the reads cut the stream. The payloads
-- are not empty and below 4 GiB.
pub loop-on_wire :
    (ws : Sending) (reads : List (List ℕ)) (c : TcpControlClient)
    → All IsSent ws
    → flatten reads ≡ on_wire ws
    → c.decoder ≡ idle
    → loop (map got reads) c ≡ with_frames (frames ws) c
loop-on_wire ws reads c a e d =
    loop-got reads c
    ∙ ap (λ bs. (read_bytes bs c).0) e
    ∙ ap (λ k. (read_bytes (on_wire ws) (record c { decoder = k })).0) d
    ∙ ap (λ r. r.0) (read_bytes-on_wire ws c a)
    ∙ ap (λ k. with_frames (frames ws) (record c { decoder = k })) (sym d)
