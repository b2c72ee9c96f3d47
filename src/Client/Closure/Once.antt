-- ===== src/Client/Closure/Once.antt =====
-- src/client.rs: a session says once that it is over.
use openiwan.Prelude.{ℕ, ◌≡◌, inl, inr, refl, true, false, some, List, [], ◌∷◌, ◌++◌, All-append}
use openiwan.Prelude.Words.{Bytes, IsByte, IsU16, IsU32}
use openiwan.Error.{Result}
use openiwan.Protocol.Types.{close}
use openiwan.Protocol.Header.{PacketHeader, IsValid, encode}
use openiwan.Protocol.Header.RoundTrip.{encode-Bytes}
use openiwan.Protocol.Packet.{calculate_signature, encode_control, build_close, build_probe_close}
use openiwan.Crypto.Primitives.{Primitives, IsLawful}
use openiwan.Client.Session.{SessionInfo, SessionEnd, ConnectedSession, header}
use openiwan.Client.Inbound.{Io, Link}
use openiwan.Client.Receive.{receive_datagram}
use openiwan.Client.Closing.{receive_datagram_close}
use openiwan.Client.Closure.{Flags, send_close_once, close_session, close_probe, drop_session}

-- The ways to end a session.
pub data Ending : Type 0 where
  by_close by_probe by_drop : Ending

module _ (p : Primitives) (send : List ℕ → Result (Unit {0})) (info : SessionInfo) where
  -- What a sequence of endings sends, in order.
  unfoldable pub endings : List Ending → Flags → List (List ℕ)
  endings [] flags = []
  endings (by_close ∷ more) flags =
      let (after, out, _) = close_session p send info flags in out ++ endings more after
  endings (by_probe ∷ more) flags =
      let (after, out, _) = close_probe p send info flags in out ++ endings more after
  endings (by_drop ∷ more) flags =
      let (after, out, _) = drop_session p send info flags in out ++ endings more after

  silent_after :
      (more : List Ending) (flags : Flags) → flags.close_sent ≡ true → endings more flags ≡ []
  unfolding endings close_session close_probe drop_session send_close_once
  silent_after [] flags e = refl
  silent_after (by_close ∷ more) flags e =
      let after : Flags = record { running = false; close_sent = true } in
      rw e (silent_after more after refl)
  silent_after (by_probe ∷ more) flags e =
      let after : Flags = record { running = false; close_sent = true } in
      rw e (silent_after more after refl)
  silent_after (by_drop ∷ more) flags e =
      let after : Flags = record { running = false; close_sent = true } in
      rw e (silent_after more after refl)

  -- The bytes of the first ending.
  first_bytes : Ending → List ℕ
  first_bytes by_close = build_close p (header info close)
  first_bytes by_probe = build_probe_close (header info close)
  first_bytes by_drop = build_close p (header info close)

  only_first :
      (ending : Ending) (more : List Ending) (flags : Flags)
      → flags.close_sent ≡ false
      → endings (ending ∷ more) flags ≡ first_bytes ending ∷ []
  unfolding endings close_session close_probe drop_session send_close_once first_bytes
  only_first by_close more flags e =
      let after : Flags = record { running = false; close_sent = true } in
      rw (e, silent_after more after refl)
  only_first by_probe more flags e =
      let after : Flags = record { running = false; close_sent = true } in
      rw (e, silent_after more after refl)
  only_first by_drop more flags e =
      let after : Flags = record { running = false; close_sent = true } in
      rw (e, silent_after more after refl)

signed-Bytes : (p : Primitives) → IsLawful p → (h : PacketHeader) → Bytes (encode_control p h [])
unfolding encode_control calculate_signature
signed-Bytes p lawful h =
    All-append IsByte (encode h) (calculate_signature p h ++ []) (encode-Bytes h)
      (All-append IsByte (calculate_signature p h) [] (lawful.md5_block _).1 tt)

abbrev close_header : SessionInfo → PacketHeader
close_header info = record {
  packet_type = close;
  encryption = info.encryption;
  session_id = info.session_id;
  token = info.token;
}

module _ (p : Primitives) (lawful : IsLawful p) (send : List ℕ → Result (Unit {0})) (env : Io)
    (s : ConnectedSession) (link : Link) (id16 : IsU16 s.info.session_id)
    (token32 : IsU32 s.info.token) where
  ends_other :
      (ending : Ending)
      → (receive_datagram p env s (first_bytes p send s.info ending) link).2
        ≡ some SessionEnd.server_close
  unfolding first_bytes build_close build_probe_close header
  ends_other by_close =
      (receive_datagram_close p env s link _ lawful (signed-Bytes p lawful (close_header s.info))).1
        (close_header s.info, refl, refl, refl, valid, inr ([], refl))
    where
      valid : IsValid (close_header s.info)
      valid = record { session_id_range = id16; token_range = token32 }
  ends_other by_drop =
      (receive_datagram_close p env s link _ lawful (signed-Bytes p lawful (close_header s.info))).1
        (close_header s.info, refl, refl, refl, valid, inr ([], refl))
    where
      valid : IsValid (close_header s.info)
      valid = record { session_id_range = id16; token_range = token32 }
  ends_other by_probe =
      (receive_datagram_close p env s link _ lawful (encode-Bytes (close_header s.info))).1
        (close_header s.info, refl, refl, refl, valid, inl refl)
    where
      valid : IsValid (close_header s.info)
      valid = record { session_id_range = id16; token_range = token32 }

-- However a session is ended, and however often, by `close`, `close_probe` or `Drop`, it sends exactly
-- one datagram; and at the other end of the same session, under the laws of the digest, that datagram
-- ends the session as closed by the server.
pub endings-server_close :
    (p : Primitives)
    → IsLawful p
    → (send : List ℕ → Result (Unit {0})) (env : Io) (s : ConnectedSession) (link : Link)
      (ending : Ending) (more : List Ending) (flags : Flags)
    → flags.close_sent ≡ false
    → IsU16 s.info.session_id
    → IsU32 s.info.token
    → (d : List ℕ) × (endings p send s.info (ending ∷ more) flags ≡ d ∷ [])
      × ((receive_datagram p env s d link).2 ≡ some SessionEnd.server_close)
endings-server_close p lawful send env s link ending more flags fresh id16 token32 = (
  first_bytes p send s.info ending,
  only_first p send s.info ending more flags fresh,
  ends_other p lawful send env s link id16 token32 ending,
)
