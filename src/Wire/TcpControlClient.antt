-- ===== src/Wire/TcpControlClient.antt =====
-- A TCP connection: internal/wire/tcp_control_client.go. What Write and Read of the connection return
-- is given as a list, errors as one value each; a channel is the list of everything that has been sent on it. The buffer of
-- `loop`, which is as long as a read can be, and the mutexes are left out.
pub mod Stream
use eswim.Base.{
  ℕ, zero, suc, Bool, true, false, Option, none, some, List, [], ◌∷◌, ◌++◌, take, drop,
  if◌then◌else◌,
}
use eswim.Fsm.{Fed, pending, value, failed, feed}
use eswim.Proto.Error.{Error}
use eswim.Proto.TcpPacket.{TcpPacket, TcpMachine, tcp_decoder, tcp_bytes}

pub record TcpControlClient : Type 0 where
  pub decoder : TcpMachine
  pub is_closed : Bool
  pub message : List TcpPacket
  pub is_hijacked : Bool
  pub hijack_chan : List TcpPacket

-- `Hijack`; `none` is the panic.
unfoldable pub hijack : TcpControlClient → Option TcpControlClient
hijack c = if c.is_hijacked then none else some (record c { is_hijacked = true; hijack_chan = [] })

-- What Write of the connection returns: how many bytes it took, or an error.
pub data Wrote : Type 0 where
  took : ℕ → Wrote
  write_error : Wrote

-- How `Write` ends: it returns nil or an error, or it is still at it when the list of results ends.
pub data Writing : Type 0 where
  sent unsent writing : Writing

-- The loop of `Write`, on the bytes that are left: the bytes that the connection took, and how it ends.
unfoldable pub write_loop : List Wrote → List ℕ → List ℕ × Writing
write_loop rs [] = ([], sent)
write_loop [] (b ∷ bs) = ([], writing)
write_loop (write_error ∷ rs) (b ∷ bs) = ([], unsent)
write_loop (took n ∷ rs) (b ∷ bs) =
    let (written, end) = write_loop rs (drop n (b ∷ bs)) in (take n (b ∷ bs) ++ written, end)

-- `Write`
unfoldable pub write : List Wrote → TcpPacket → List ℕ × Writing
unfolding write_loop
write rs p = write_loop rs (tcp_bytes p)

-- `Close`, which closes the connection once.
unfoldable pub close : TcpControlClient → TcpControlClient
close c = if c.is_closed then c else record c { is_closed = true }

-- What `loop` does with a frame.
unfoldable pub deliver : TcpPacket → TcpControlClient → TcpControlClient
deliver m c =
    if c.is_hijacked
    then record c { hijack_chan = c.hijack_chan ++ (m ∷ []) }
    else record c { message = c.message ++ (m ∷ []) }

-- `for _, v := range buf[:n]`; `false` is the return.
unfoldable pub read_bytes : List ℕ → TcpControlClient → TcpControlClient × Bool
unfolding close deliver
read_bytes [] c = (c, true)
read_bytes (b ∷ bs) c =
    let (f, fed) = feed tcp_decoder c.decoder b in
    let c' = record c { decoder = f } in
    elim fed [
      | pending ↦ read_bytes bs c'
      | value m ↦ read_bytes bs (deliver m c')
      | failed e ↦ (close c', false)
    ]

-- What Read of the connection returns: some bytes, or an error, which may be that it is closed.
pub data Read : Type 0 where
  got : List ℕ → Read
  closed : Read
  read_error : Read

-- `loop`, up to its return or the end of the list.
unfoldable pub loop : List Read → TcpControlClient → TcpControlClient
unfolding read_bytes close
loop [] c = c
loop (got bs ∷ rs) c =
    let (c', go) = read_bytes bs c in let rest = loop rs c' in if go then rest else c'
loop (closed ∷ rs) c = if c.is_closed then c else close c
loop (read_error ∷ rs) c = close c
