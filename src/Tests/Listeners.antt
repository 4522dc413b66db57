-- ===== src/Tests/Listeners.antt =====
-- The three routines of internal/wire that listen, each after it was stopped.
use eswim.Base.{ℕ, ◌≤◌, ◌==◌, length, refl, Bool, true, false, some, List, [], ◌∷◌}
use eswim.Wire.UdpControlServer
use eswim.Wire.UdpControlServer.{UdpControlServer}
use eswim.Wire.UdpControlServer.Stopping.{Run-stopping}
use eswim.Wire.MulticastCommunicator
use eswim.Wire.MulticastCommunicator.{MulticastCommunicator, new_multicast_communicator}
use eswim.Wire.MulticastCommunicator.Stopping.{Run-closed}
use eswim.Wire.TcpControlServer
use eswim.Wire.TcpControlServer.{TcpControlServer, make_client, opened}
use eswim.Wire.TcpControlServer.Stopping.{Run-accepts}

-- A datagram.
abbrev datagram : List (List ℕ × List ℕ)
datagram = (1 ∷ [], 2 ∷ []) ∷ []

-- A UDP server that has read a datagram when it is stopped, and its listener is not closed yet.
abbrev reading : UdpControlServer
reading = record {
  phase = UdpControlServer.at_handle (1 ∷ []) (2 ∷ []);
  stopping = true;
  listener = some true;
  closing = true;
}

reading_on :
    UdpControlServer.Run reading datagram (record reading { phase = UdpControlServer.at_read_loop })
reading_on =
    UdpControlServer.Run.next datagram [] (UdpControlServer.Step.handle (1 ∷ []) (2 ∷ []) refl)
      UdpControlServer.Run.done

Run-stopping_example : length datagram ≤ 1
Run-stopping_example = Run-stopping refl reading_on

-- The addresses of a host, one of them.
abbrev own : List ℕ → Bool
own ip = length ip == 4

-- A multicast listener that has read a datagram when its socket is closed.
abbrev listening : MulticastCommunicator
listening = record {
  phase = MulticastCommunicator.at_handle (1 ∷ []) (2 ∷ []);
  stopping = true;
  current_listener = true;
  is_open = false;
  closing = false;
}

listening-reached : MulticastCommunicator.Reach own listening
unfolding new_multicast_communicator
listening-reached =
    MulticastCommunicator.Reach.step
      (MulticastCommunicator.Reach.step
        (MulticastCommunicator.Reach.step
          (MulticastCommunicator.Reach.step
            (MulticastCommunicator.Reach.step
              (MulticastCommunicator.Reach.step MulticastCommunicator.Reach.start
                (MulticastCommunicator.Step.go_on refl refl))
              (MulticastCommunicator.Step.listening refl))
            (MulticastCommunicator.Step.publish_listener refl))
          (MulticastCommunicator.Step.read (1 ∷ []) (2 ∷ []) refl refl))
        (MulticastCommunicator.Step.shutdown refl))
      (MulticastCommunicator.Step.close_listener refl refl)

leaving :
    MulticastCommunicator.Run own listening datagram
      (record listening { phase = MulticastCommunicator.at_read })
leaving =
    MulticastCommunicator.Run.next datagram []
      (MulticastCommunicator.Step.handle (1 ∷ []) (2 ∷ []) refl refl) MulticastCommunicator.Run.done

Run-closed_example : length datagram ≤ 1
Run-closed_example = Run-closed listening-reached refl refl leaving

-- A server of connections that has accepted one when it is stopped.
abbrev accepted : TcpControlServer
accepted = record opened { making = 1; closing = 1 }

accepted-reached : TcpControlServer.Run opened 1 0 accepted
accepted-reached = TcpControlServer.Run.next 1 0 0 0 (TcpControlServer.Step.start refl refl) (
    TcpControlServer.Run.next 0 0 0 0 (TcpControlServer.Step.go_on 0 refl refl refl) (
      TcpControlServer.Run.next 0 0 0 0 (TcpControlServer.Step.accept 0 refl refl refl) (
        TcpControlServer.Run.next 0 0 0 0 (TcpControlServer.Step.shutdown refl refl)
          TcpControlServer.Run.done)))

making_one :
    TcpControlServer.Run accepted 0 1 (record opened { testing = 1; closing = 1; clients = 1 })
unfolding make_client
making_one =
    TcpControlServer.Run.next 0 1 0 0 (TcpControlServer.Step.make 0 refl refl)
      TcpControlServer.Run.done

Run-accepts_example : 1 ≤ 1
Run-accepts_example = Run-accepts accepted-reached refl refl making_one
