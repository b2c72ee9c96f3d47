-- ===== src/Client/Receive.antt =====
-- src/client.rs: the receive loop of a connected session, over the polls of the socket.
use openiwan.Prelude.{
  ℕ, ◌==◌, ◌!=◌, ◌||◌, if◌then◌else◌, Bool, Option, none, some, List, [], ◌∷◌, ◌++◌, get_or,
}
use openiwan.Error.{Result, ok, err, stuck, io}
use openiwan.Protocol.Types.{packet_code, segment_routing}
use openiwan.Protocol.Packet.{DecodedPacket, decode_packet}
use openiwan.Crypto.Primitives.{Primitives}
use openiwan.Client.Session.{SessionInfo, SessionEnd, ConnectedSession, WorkerFailure}
use openiwan.Client.Inbound.{
  Io, Effect, Link, PacketAction, Outcome, process_standard_packet, process_sr_packet,
}

-- What the socket gives: a datagram, nothing within the timeout, or an error.
pub data Received : Type 0 where
  datagram : List ℕ → Received
  nothing failed : Received

-- One round: whether a shutdown was asked for, inside or outside, a worker's failure, and what the
-- socket gives.
pub record Poll : Type 0 where
  pub shutdown : Bool
  pub failure : Option WorkerFailure
  pub received : Received
  pub env : Io

abbrev pub end_of_failure : WorkerFailure → SessionEnd
end_of_failure WorkerFailure.heartbeat_timeout = SessionEnd.heartbeat_timeout
end_of_failure WorkerFailure.transport = SessionEnd.transport_failure

-- The match on the action: an I/O error ends the session, any other drops the datagram.
unfoldable pub end_of_action : Result PacketAction → Option SessionEnd
end_of_action (ok PacketAction.continue) = none
end_of_action (ok PacketAction.server_close) = some SessionEnd.server_close
end_of_action (err io) = some SessionEnd.transport_failure
end_of_action (err _) = none
end_of_action stuck = none

-- The link, what reached the device and the socket, and the end of the session, if it ends.
abbrev pub Round : Type 0
Round = Link × List Effect × Option SessionEnd

abbrev pub settle : Outcome → Round
settle o = (o.0, o.1, end_of_action o.2)

unfoldable pub other_session : SessionInfo → DecodedPacket → Bool
other_session info decoded =
    decoded.header.session_id != info.session_id || decoded.header.token != info.token

-- The rounds after a round, which run unless it ended the session.
abbrev pub then_round : Round → Round → Round
then_round (link, effects, none) rest = (rest.0, effects ++ rest.1, rest.2)
then_round (link, effects, some reason) rest = (link, effects, some reason)

module _ (p : Primitives) where
  unfoldable pub receive_standard : Io → ConnectedSession → List ℕ → Link → Round
  receive_standard env s bytes link = elim (decode_packet p bytes) [
    | ok decoded ↦
        if other_session s.info decoded
        then (link, [], none)
        else settle (process_standard_packet p env s decoded link)
    | err e ↦ (link, [], none)
    | stuck ↦ (link, [], none)
  ]

  unfoldable pub receive_datagram : Io → ConnectedSession → List ℕ → Link → Round
  receive_datagram env s bytes link =
      if get_or bytes 0 0 == packet_code segment_routing
      then settle (process_sr_packet p env s bytes link)
      else receive_standard env s bytes link

  unfoldable pub receive_from : Io → ConnectedSession → Received → Link → Round
  unfolding receive_datagram
  receive_from env s (datagram bytes) link = receive_datagram env s bytes link
  receive_from env s nothing link = (link, [], none)
  receive_from env s failed link = (link, [], some SessionEnd.transport_failure)

  unfoldable pub receive_unless : Option WorkerFailure → Poll → ConnectedSession → Link → Round
  unfolding receive_from
  receive_unless (some failure) poll s link = (link, [], some (end_of_failure failure))
  receive_unless none poll s link = receive_from poll.env s poll.received link

  unfoldable pub receive_step : Poll → ConnectedSession → Link → Round
  unfolding receive_unless
  receive_step poll s link =
      if poll.shutdown
      then (link, [], some SessionEnd.local_shutdown)
      else receive_unless poll.failure poll s link

  -- `none` at the end means that the polls ran out with the session still running.
  unfoldable pub receive_loop : List Poll → ConnectedSession → Link → Round
  receive_loop [] s link = (link, [], none)
  receive_loop (poll ∷ polls) s link =
      let first = receive_step poll s link in then_round first (receive_loop polls s first.0)
