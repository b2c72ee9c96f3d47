-- ===== src/Client/Invariant.antt =====
-- src/client.rs: what one datagram, and a whole run of the receive loop, keep of the reassembly
-- state, and what they let through to the device.
pub mod Datagram
use openiwan.Prelude.{
  Option-cases, ℕ, ◌≡◌, ◌!=◌, if◌then◌else◌, Bool-cases, inl, inr, refl, ap, sym, subst, Bool, true,
  false, ltb, Option, none, some, List, [], ◌∷◌, ◌++◌, All, All-append, append-nil, ◌∙◌, ◌==◌,
  get_or, arith,
}
use openiwan.Error.{
  Error, Result, ok, err, stuck, ◌>>=◌, ◌>>◌, >>=-eq-ok, ok-injective, Result-cases, bail,
}
use openiwan.Protocol.Types.{
  PacketType, data_packet, echo_request, echo_response, data_encrypted, data_dup,
  data_encrypted_dup, ip_fragment, data_ipv6, ip_fragment_ipv6, no_encryption, segment_routing,
  packet_code,
}
use openiwan.Protocol.Packet.{DecodedPacket, decode_packet}
use openiwan.Crypto.Primitives.{Primitives}
use openiwan.Crypto.Cipher.{DataCipher}
use openiwan.Fragment.Codec.{Fragment}
use openiwan.Fragment.Trim.{trim_ip_packet, trim_ip_packet_exact, ip_version}
use openiwan.Fragment.Traditional.{insert_in_context}
use openiwan.Fragment.Traditional.Invariant as Traditional
use openiwan.Fragment.Traditional.Invariant.{insert_in_context-Inv}
use openiwan.Config.{monitor_sr_id}
use openiwan.Fragment.Segmented.{insert}
use openiwan.Fragment.Segmented.Invariant.{insert-Inv}
use openiwan.Protocol.Packet.Echo.{decode_echo}
use openiwan.Fragment.Segmented.Groups as Segmented
use openiwan.Sr.Monitor.{SrMonitorBody}
use openiwan.Sr.Liveness.{SrMonitor, SrMonitorResponder, respond, accept_response}
use openiwan.Sr.Datagram.{
  SrDecoded, data_of, fragment_of, echo_request_of, echo_response_of, decode_datagram,
  insert_fragment, check_reassembled, expected_version,
}
use openiwan.Sr.Datagram.Acceptance.{decode_datagram-trim_ip_packet}
use openiwan.Client.Session.{
  SessionInfo, SrRuntime, ConnectedSession, sr_tuple, WorkerFailure, SessionEnd,
}
use openiwan.Client.Outbound.{validate_inner_packet, check_version}
use openiwan.Client.Inbound.{
  Io, Effect, wrote, sent, Link, Outcome, deliver, deliver_some, plain_packet, decrypted_packet,
  require_encryption, fragment_in, process_fragment, process_echo_response, reply_with,
  process_type, process_standard_packet, reply_to, accept_monitor, process_decoded, process_sr,
  process_sr_packet,
}
use openiwan.Client.Receive.{
  Received, datagram, nothing, failed, Poll, Round, settle, receive_standard, receive_datagram,
  receive_from, receive_unless, receive_step, then_round, receive_loop, other_session,
}
use openiwan.Client.Invariant.Datagram.{
  receive_datagram-Good, Good, Whole, WroteWhole, IsReassembling,
}

choice-Good :
    (b : Bool) (r q : Round)
    → Good r.0 r.1
    → Good q.0 q.1
    → Good (if b then r else q).0 (if b then r else q).1
choice-Good true r q hr hq = hr
choice-Good false r q hr hq = hq

then_round-Good :
    (r q : Round) → Good r.0 r.1 → Good q.0 q.1 → Good (then_round r q).0 (then_round r q).1
then_round-Good (link, effects, none) q hr hq = (hq.0, All-append WroteWhole _ _ hr.1 hq.1)
then_round-Good (link, effects, some reason) q hr hq = hr

module _ (p : Primitives) (s : ConnectedSession) where
  receive_from-Good :
      (env : Io) (r : Received) (link : Link)
      → IsReassembling link
      → Good (receive_from p env s r link).0 (receive_from p env s r link).1
  unfolding receive_from
  receive_from-Good env (datagram bytes) link v = receive_datagram-Good p env s link v bytes
  receive_from-Good env nothing link v = (v, tt)
  receive_from-Good env failed link v = (v, tt)

  receive_unless-Good :
      (f : Option WorkerFailure) (poll : Poll) (link : Link)
      → IsReassembling link
      → Good (receive_unless p f poll s link).0 (receive_unless p f poll s link).1
  unfolding receive_unless
  receive_unless-Good (some failure) poll link v = (v, tt)
  receive_unless-Good none poll link v = receive_from-Good poll.env poll.received link v

  receive_step-Good :
      (poll : Poll) (link : Link)
      → IsReassembling link
      → Good (receive_step p poll s link).0 (receive_step p poll s link).1
  unfolding receive_step
  receive_step-Good poll link v =
      choice-Good poll.shutdown (link, [], some SessionEnd.local_shutdown)
        (receive_unless p poll.failure poll s link) (v, tt)
        (receive_unless-Good poll.failure poll link v)

  -- Over any run of the receive loop, whatever the socket gives and however the device answers, every
  -- packet written to the device is one whole IP packet, and both reassemblers keep their invariants
  -- (their numbers of groups, the bytes they hold, one group for a key).
  pub receive_loop-IsReassembling :
      (polls : List Poll) (link : Link)
      → IsReassembling link
      → IsReassembling (receive_loop p polls s link).0
        × All WroteWhole (receive_loop p polls s link).1
  unfolding receive_loop
  receive_loop-IsReassembling [] link v = (v, tt)
  receive_loop-IsReassembling (poll ∷ polls) link v =
      let first = receive_step p poll s link in
      let now = receive_step-Good poll link v in
      then_round-Good first (receive_loop p polls s first.0) now
        (receive_loop-IsReassembling polls first.0 now.0)
