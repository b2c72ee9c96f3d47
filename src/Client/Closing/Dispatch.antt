-- ===== src/Client/Closing/Dispatch.antt =====
-- src/client.rs: what a datagram that is no close does not do.
use openiwan.Prelude.{
  ℕ, ◌≡◌, ◌≢◌, ◌!=◌, ltb, if◌then◌else◌, inl, inr, refl, Bool, true, false, Option, none, some,
  List, Option-cases,
}
use openiwan.Error.{Result, ok, err, stuck, io, ◌>>◌, Result-cases}
use openiwan.Protocol.Types.{
  PacketType, data_packet, echo_request, echo_response, close, data_encrypted, data_dup,
  data_encrypted_dup, ip_fragment, data_ipv6, ip_fragment_ipv6,
}
use openiwan.Protocol.Packet.{DecodedPacket}
use openiwan.Protocol.Packet.Echo.{decode_echo}
use openiwan.Crypto.Primitives.{Primitives}
use openiwan.Config.{monitor_sr_id}
use openiwan.Sr.Monitor.{SrMonitorBody}
use openiwan.Sr.Liveness.{SrMonitor, respond}
use openiwan.Sr.Datagram.{
  SrDecoded, data_of, fragment_of, echo_request_of, echo_response_of, decode_datagram,
}
use openiwan.Client.Session.{SessionInfo, SrRuntime, ConnectedSession, sr_tuple, SessionEnd}
use openiwan.Client.Inbound.{
  Io, Link, PacketAction, server_close, Outcome, deliver, deliver_some, fragment_in,
  process_fragment, process_echo_response, reply_with, process_type, reply_to, accept_monitor,
  process_decoded, process_sr,
}
use openiwan.Client.Receive.{end_of_action}

-- An outcome that does not close the session.
abbrev pub Open : Outcome → Type 0
Open o = o.2 ≢ ok server_close

continue-Open : (m : Result (Unit {0})) → (m >> ok PacketAction.continue) ≢ ok server_close
continue-Open (ok u) = λ e. cc
continue-Open (err x) = λ e. cc
continue-Open stuck = λ e. cc

choice-Open : (b : Bool) (o q : Outcome) → Open o → Open q → Open (if b then o else q)
choice-Open true o q ho hq = ho
choice-Open false o q ho hq = hq

module _ (env : Io) (link : Link) where
  deliver-Open : (r : Result (List ℕ)) → Open (deliver env link r)
  unfolding deliver
  deliver-Open (ok packet) = continue-Open _
  deliver-Open (err e) = λ q. cc
  deliver-Open stuck = λ q. cc

  deliver_some-Open :
      (check : List ℕ → Result (List ℕ)) (r : Result (Option (List ℕ)))
      → Open (deliver_some env link check r)
  unfolding deliver_some
  deliver_some-Open check (ok none) = λ q. cc
  deliver_some-Open check (ok (some raw)) = deliver-Open (check raw)
  deliver_some-Open check (err e) = λ q. cc
  deliver_some-Open check stuck = λ q. cc

  reply_with-Open : (r : Result (List ℕ)) → Open (reply_with env link r)
  unfolding reply_with
  reply_with-Open (ok bytes) = continue-Open _
  reply_with-Open (err e) = λ q. cc
  reply_with-Open stuck = λ q. cc

module _ (env : Io) (link : Link) where
  process_fragment-Open :
      (version : ℕ) (d : DecodedPacket) → Open (process_fragment env version d link)
  unfolding process_fragment
  process_fragment-Open version d = elim (Result-cases (fragment_in d)) [
    | inl (f, e) ↦ rw (process_fragment, e) (deliver_some-Open env _ _ _)
    | inr (inl (x, e)) ↦ rw (process_fragment, e) (λ q. cc)
    | inr (inr e) ↦ rw (process_fragment, e) (λ q. cc)
  ]

  process_echo_response-Open : (body : List ℕ) → Open (process_echo_response env body link)
  unfolding process_echo_response
  process_echo_response-Open body = elim (Result-cases (decode_echo body)) [
    | inl (r, e) ↦
        rw (process_echo_response, e)
          (choice-Open (ltb env.now_micros r.tick_micros) _ _ (λ q. cc) (λ q. cc))
    | inr (inl (x, e)) ↦ rw (process_echo_response, e) (λ q. cc)
    | inr (inr e) ↦ rw (process_echo_response, e) (λ q. cc)
  ]

  -- Of the packet types, only a close closes.
  pub process_type-close :
      (p : Primitives) (s : ConnectedSession) (d : DecodedPacket) (k : PacketType)
      → (process_type p k env s d link).2 ≡ ok server_close
      → k ≡ close
  unfolding process_type
  process_type-close p s d close e = refl
  process_type-close p s d data_packet e = absurd (deliver-Open env link _ e)
  process_type-close p s d data_dup e = absurd (deliver-Open env link _ e)
  process_type-close p s d data_ipv6 e = absurd (deliver-Open env link _ e)
  process_type-close p s d data_encrypted e = absurd (deliver-Open env link _ e)
  process_type-close p s d data_encrypted_dup e = absurd (deliver-Open env link _ e)
  process_type-close p s d ip_fragment e = absurd (process_fragment-Open 4 d e)
  process_type-close p s d ip_fragment_ipv6 e = absurd (process_fragment-Open 6 d e)
  process_type-close p s d echo_response e = absurd (process_echo_response-Open d.body e)
  process_type-close p s d echo_request e = absurd (reply_with-Open env link _ e)
  process_type-close p s d _ e = cc

  reply_to-Open :
      (info : SessionInfo) (runtime : SrRuntime) (request : SrMonitorBody)
      → Open (reply_to env info runtime request link)
  unfolding reply_to
  reply_to-Open info runtime request = elim (Option-cases (respond request link.responder).1) [
    | inl e ↦ rw (reply_to, e) (λ q. cc)
    | inr (body, e) ↦ rw (reply_to, e) (reply_with-Open env _ _)
  ]

  accept_monitor-Open :
      (response : SrMonitorBody) (m : Option SrMonitor) → Open (accept_monitor env response link m)
  unfolding accept_monitor
  accept_monitor-Open response none = λ q. cc
  accept_monitor-Open response (some m) =
      choice-Open (ltb env.now_micros response.tick_micros) _ _ (λ q. cc) (continue-Open _)

  process_decoded-Open :
      (info : SessionInfo) (runtime : SrRuntime) (d : SrDecoded)
      → Open (process_decoded env info runtime link d)
  unfolding process_decoded
  process_decoded-Open info runtime (data_of packet) = deliver-Open env link (ok packet)
  process_decoded-Open info runtime (fragment_of k f) = deliver_some-Open env _ _ _
  process_decoded-Open info runtime (echo_request_of request) =
      choice-Open (request.sr_id != monitor_sr_id runtime.config) _ _ (λ q. cc)
        (reply_to-Open info runtime request)
  process_decoded-Open info runtime (echo_response_of response) =
      accept_monitor-Open response link.monitor

  pub process_sr-Open :
      (p : Primitives) (s : ConnectedSession) (runtime : Option SrRuntime) (bytes : List ℕ)
      → Open (process_sr p env s runtime bytes link)
  unfolding process_sr
  process_sr-Open p s none bytes = λ q. cc
  process_sr-Open p s (some runtime) bytes =
      elim (Result-cases (
        decode_datagram p bytes runtime.config.links (sr_tuple s.info) s.cipher
          runtime.outer_cipher)) [
            | inl (d, e) ↦ rw (process_sr, e) (process_decoded-Open s.info runtime d)
            | inr (inl (x, e)) ↦ rw (process_sr, e) (λ q. cc)
            | inr (inr e) ↦ rw (process_sr, e) (λ q. cc)
          ]

pub end_of_action-close :
    (r : Result PacketAction) → end_of_action r ≡ some SessionEnd.server_close → r ≡ ok server_close
unfolding end_of_action
end_of_action-close (ok PacketAction.server_close) e = refl
end_of_action-close (ok PacketAction.continue) e = cc
end_of_action-close (err io) e = cc
end_of_action-close (err _) e = cc
end_of_action-close stuck e = cc
