-- ===== src/Client/Invariant/Datagram.antt =====
-- src/client.rs: what one datagram keeps of the reassembly state, and what it lets through to the
-- device.
use openiwan.Prelude.{
  Option-cases, ℕ, ◌≡◌, ◌!=◌, Bool-cases, inl, inr, refl, ap, sym, subst, ltb, Option, none, some,
  List, [], All, append-nil, ◌∙◌, ◌==◌, get_or,
}
use openiwan.Error.{Result, ok, err, stuck, ◌>>=◌, >>=-eq-ok, ok-injective, Result-cases, bail}
use openiwan.Protocol.Types.{
  PacketType, data_packet, echo_request, echo_response, data_encrypted, data_dup,
  data_encrypted_dup, ip_fragment, data_ipv6, ip_fragment_ipv6, no_encryption, segment_routing,
  packet_code,
}
use openiwan.Protocol.Packet.{DecodedPacket, decode_packet}
use openiwan.Crypto.Primitives.{Primitives}
use openiwan.Crypto.Cipher.{DataCipher}
use openiwan.Fragment.Trim.{trim_ip_packet, trim_ip_packet_exact, ip_version}
use openiwan.Fragment.Traditional.{insert_in_context}
use openiwan.Fragment.Traditional.Invariant as Traditional
use openiwan.Fragment.Traditional.Invariant.{insert_in_context-Inv}
use openiwan.Config.{monitor_sr_id}
use openiwan.Fragment.Segmented.{insert}
use openiwan.Fragment.Segmented.Invariant.{insert-Inv}
use openiwan.Protocol.Packet.Echo.{decode_echo}
use openiwan.Fragment.Segmented.Groups as Segmented
use openiwan.Sr.Monitor.{SrMonitorBody}
use openiwan.Sr.Liveness.{SrMonitor, respond}
use openiwan.Sr.Datagram.{
  SrDecoded, data_of, fragment_of, echo_request_of, echo_response_of, decode_datagram,
  insert_fragment, check_reassembled, expected_version,
}
use openiwan.Sr.Datagram.Acceptance.{decode_datagram-trim_ip_packet}
use openiwan.Client.Session.{SessionInfo, SrRuntime, ConnectedSession, sr_tuple}
use openiwan.Client.Outbound.{validate_inner_packet}
use openiwan.Client.Inbound.{
  Io, Effect, wrote, sent, Link, deliver, deliver_some, plain_packet, decrypted_packet,
  require_encryption, fragment_in, process_fragment, process_echo_response, reply_with,
  process_type, process_standard_packet, reply_to, accept_monitor, process_decoded, process_sr,
  process_sr_packet,
}
use openiwan.Client.Receive.{receive_standard, receive_datagram, other_session}

-- Trimming a whole packet changes nothing.
abbrev pub Whole : List ℕ → Type 0
Whole packet = trim_ip_packet packet ≡ ok packet

abbrev pub WroteWhole : Effect → Type 0
WroteWhole (wrote packet) = Whole packet
WroteWhole (sent _) = Unit

-- The invariants of the two reassemblers.
abbrev pub IsReassembling : Link → Type 0
IsReassembling link = Traditional.Inv link.traditional × Segmented.Inv link.segmented

abbrev pub Good : Link → List Effect → Type 0
Good link effects = IsReassembling link × All WroteWhole effects

trimmed-Whole : (raw packet : List ℕ) → trim_ip_packet raw ≡ ok packet → Whole packet
trimmed-Whole raw packet e =
    ap trim_ip_packet (sym (append-nil packet)) ∙ (trim_ip_packet_exact raw packet [] e).4

validated-Whole :
    (raw packet : List ℕ) (v : Option ℕ) → validate_inner_packet raw v ≡ ok packet → Whole packet
unfolding validate_inner_packet
validated-Whole raw packet none e =
    let (r, trimmed, same) = >>=-eq-ok (trim_ip_packet raw) _ e in
    subst Whole (ok-injective same) (trimmed-Whole raw r trimmed)
validated-Whole raw packet (some v) e =
    let (r, trimmed, rest) = >>=-eq-ok (trim_ip_packet raw) _ e in
    let (_, _, same) = >>=-eq-ok (bail (ip_version r != v) _) _ rest in
    subst Whole (ok-injective same) (trimmed-Whole raw r trimmed)

plain-Whole :
    (d : DecodedPacket) (v : Option ℕ) (packet : List ℕ)
    → plain_packet d v ≡ ok packet
    → Whole packet
unfolding plain_packet
plain-Whole d v packet e =
    let (_, _, rest) = >>=-eq-ok (require_encryption d.header no_encryption) _ e in
    validated-Whole d.body packet v rest

decrypted-Whole :
    (c : DataCipher) (d : DecodedPacket) (packet : List ℕ)
    → decrypted_packet c d ≡ ok packet
    → Whole packet
unfolding decrypted_packet
decrypted-Whole c d packet e =
    let (_, _, opened) = >>=-eq-ok (require_encryption d.header c.method) _ e in
    let (plain, _, rest) = >>=-eq-ok (c.decrypt d.body) _ opened in
    validated-Whole plain packet none rest

module _ (env : Io) (link : Link) (v : IsReassembling link) where
  deliver-Good :
      (r : Result (List ℕ))
      → ((packet : List ℕ) → r ≡ ok packet → Whole packet)
      → Good (deliver env link r).0 (deliver env link r).1
  unfolding deliver
  deliver-Good (ok packet) h = (v, (h packet refl, tt))
  deliver-Good (err e) h = (v, tt)
  deliver-Good stuck h = (v, tt)

  deliver_some-Good :
      (check : List ℕ → Result (List ℕ)) (r : Result (Option (List ℕ)))
      → ((raw packet : List ℕ) → r ≡ ok (some raw) → check raw ≡ ok packet → Whole packet)
      → Good (deliver_some env link check r).0 (deliver_some env link check r).1
  unfolding deliver_some
  deliver_some-Good check (ok none) h = (v, tt)
  deliver_some-Good check (ok (some raw)) h =
      deliver-Good (check raw) (λ packet e. h raw packet refl e)
  deliver_some-Good check (err e) h = (v, tt)
  deliver_some-Good check stuck h = (v, tt)

  reply_with-Good : (r : Result (List ℕ)) → Good (reply_with env link r).0 (reply_with env link r).1
  unfolding reply_with
  reply_with-Good (ok bytes) = (v, (tt, tt))
  reply_with-Good (err e) = (v, tt)
  reply_with-Good stuck = (v, tt)

process_fragment-Good :
    (env : Io) (version : ℕ) (d : DecodedPacket) (link : Link)
    → IsReassembling link
    → Good (process_fragment env version d link).0 (process_fragment env version d link).1
unfolding process_fragment
process_fragment-Good env version d link v = elim (Result-cases (fragment_in d)) [
  | inl (fragment, e) ↦
      let groups = (insert_in_context version fragment env.now link.traditional).0 in
      rw (process_fragment, e)
        (deliver_some-Good env (record link { traditional = groups })
          (insert_in_context-Inv version fragment env.now link.traditional v.0, v.1)
          (λ inner. validate_inner_packet inner (some version))
          (insert_in_context version fragment env.now link.traditional).1
          (λ raw packet _ checked. validated-Whole raw packet (some version) checked))
  | inr (inl (_, e)) ↦ rw (process_fragment, e) (v, tt)
  | inr (inr e) ↦ rw (process_fragment, e) (v, tt)
]

process_echo_response-Good :
    (env : Io) (body : List ℕ) (link : Link)
    → IsReassembling link
    → Good (process_echo_response env body link).0 (process_echo_response env body link).1
unfolding process_echo_response
process_echo_response-Good env body link v = elim (Result-cases (decode_echo body)) [
  | inl (r, e) ↦ elim (Bool-cases (ltb env.now_micros r.tick_micros)) [
    | inl future ↦ rw (process_echo_response, e, future) (v, tt)
    | inr past ↦ rw (process_echo_response, e, past) (v, tt)
  ]
  | inr (inl (_, e)) ↦ rw (process_echo_response, e) (v, tt)
  | inr (inr e) ↦ rw (process_echo_response, e) (v, tt)
]

module _ (p : Primitives) (env : Io) (s : ConnectedSession) (d : DecodedPacket) (link : Link)
    (v : IsReassembling link) where
  process_type-Good :
      (k : PacketType) → Good (process_type p k env s d link).0 (process_type p k env s d link).1
  unfolding process_type
  process_type-Good data_packet = deliver-Good env link v _ (plain-Whole d none)
  process_type-Good data_dup = deliver-Good env link v _ (plain-Whole d none)
  process_type-Good data_ipv6 = deliver-Good env link v _ (plain-Whole d (some 6))
  process_type-Good data_encrypted = deliver-Good env link v _ (decrypted-Whole s.cipher d)
  process_type-Good data_encrypted_dup = deliver-Good env link v _ (decrypted-Whole s.cipher d)
  process_type-Good ip_fragment = process_fragment-Good env 4 d link v
  process_type-Good ip_fragment_ipv6 = process_fragment-Good env 6 d link v
  process_type-Good echo_response = process_echo_response-Good env d.body link v
  process_type-Good echo_request = reply_with-Good env link v _
  process_type-Good _ = (v, tt)

reply_to-Good :
    (env : Io) (info : SessionInfo) (runtime : SrRuntime) (request : SrMonitorBody) (link : Link)
    → IsReassembling link
    → Good (reply_to env info runtime request link).0 (reply_to env info runtime request link).1
unfolding reply_to
reply_to-Good env info runtime request link v =
    elim (Option-cases (respond request link.responder).1) [
      | inl e ↦ rw (reply_to, e) (v, tt)
      | inr (body, e) ↦ rw (reply_to, e) (reply_with-Good env _ v _)
    ]

accept_monitor-Good :
    (env : Io) (response : SrMonitorBody) (link : Link) (m : Option SrMonitor)
    → IsReassembling link
    → Good (accept_monitor env response link m).0 (accept_monitor env response link m).1
unfolding accept_monitor
accept_monitor-Good env response link none v = (v, tt)
accept_monitor-Good env response link (some monitor) v =
    elim (Bool-cases (ltb env.now_micros response.tick_micros)) [
      | inl future ↦ rw (accept_monitor, future) (v, tt)
      | inr past ↦ rw (accept_monitor, past) (v, tt)
    ]

reassembled-Whole :
    (k : PacketType) (r : Option (List ℕ)) (packet : List ℕ)
    → check_reassembled k r ≡ ok (some packet)
    → Whole packet
unfolding check_reassembled
reassembled-Whole k none packet e = cc
reassembled-Whole k (some raw) packet e =
    let (r, trimmed, rest) = >>=-eq-ok (trim_ip_packet raw) _ e in
    let (_, _, same) = >>=-eq-ok (bail (ip_version r != expected_version k) _) _ rest in
    let same' : r ≡ packet = cc in subst Whole same' (trimmed-Whole raw r trimmed)

module _ (p : Primitives) (env : Io) (s : ConnectedSession) (link : Link)
    (v : IsReassembling link) where
  process_decoded-Good :
      (info : SessionInfo) (runtime : SrRuntime) (d : SrDecoded)
      → ((packet : List ℕ) → d ≡ data_of packet → Whole packet)
      → Good (process_decoded env info runtime link d).0 (process_decoded env info runtime link d).1
  unfolding process_decoded insert_fragment
  process_decoded-Good info runtime (data_of packet) h =
      deliver-Good env link v (ok packet) (λ x e. subst Whole (ok-injective e) (h packet refl))
  process_decoded-Good info runtime (fragment_of k f) h =
      let (after, result) = insert f env.now link.segmented in
      deliver_some-Good env (record link { segmented = after })
        (v.0, insert-Inv f env.now link.segmented v.1) (λ packet. ok packet)
        (result >>= check_reassembled k)
        (λ raw packet e same.
          let (r, _, checked) = >>=-eq-ok result _ e in
          subst Whole (ok-injective same) (reassembled-Whole k r raw checked))
  process_decoded-Good info runtime (echo_request_of request) h =
      elim (Bool-cases (request.sr_id != monitor_sr_id runtime.config)) [
        | inl wrong ↦ rw (process_decoded, wrong) (v, tt)
        | inr right ↦ rw (process_decoded, right) (reply_to-Good env info runtime request link v)
      ]
  process_decoded-Good info runtime (echo_response_of response) h =
      accept_monitor-Good env response link link.monitor v

  process_sr-Good :
      (runtime : Option SrRuntime) (bytes : List ℕ)
      → Good (process_sr p env s runtime bytes link).0 (process_sr p env s runtime bytes link).1
  unfolding process_sr
  process_sr-Good none bytes = (v, tt)
  process_sr-Good (some runtime) bytes =
      let result =
        decode_datagram p bytes runtime.config.links (sr_tuple s.info) s.cipher
          runtime.outer_cipher in
      elim (Result-cases result) [
        | inl (d, e) ↦
            rw (process_sr, e)
              (process_decoded-Good s.info runtime d (λ packet same.
                (decode_datagram-trim_ip_packet p (sr_tuple s.info) s.cipher runtime.outer_cipher
                  bytes runtime.config.links packet (e ∙ ap ok same)).0))
        | inr (inl (_, e)) ↦ rw (process_sr, e) (v, tt)
        | inr (inr e) ↦ rw (process_sr, e) (v, tt)
      ]

  receive_standard-Good :
      (bytes : List ℕ)
      → Good (receive_standard p env s bytes link).0 (receive_standard p env s bytes link).1
  unfolding receive_standard process_standard_packet
  receive_standard-Good bytes = elim (Result-cases (decode_packet p bytes)) [
    | inl (d, e) ↦ elim (Bool-cases (other_session s.info d)) [
      | inl other ↦ rw (receive_standard, e, other) (v, tt)
      | inr own ↦
          rw (receive_standard, e, own) (process_type-Good p env s d link v d.header.packet_type)
    ]
    | inr (inl (_, e)) ↦ rw (receive_standard, e) (v, tt)
    | inr (inr e) ↦ rw (receive_standard, e) (v, tt)
  ]

  pub receive_datagram-Good :
      (bytes : List ℕ)
      → Good (receive_datagram p env s bytes link).0 (receive_datagram p env s bytes link).1
  unfolding receive_datagram process_sr_packet
  receive_datagram-Good bytes =
      elim (Bool-cases (get_or bytes 0 0 == packet_code segment_routing)) [
        | inl sr ↦ rw (receive_datagram, sr) (process_sr-Good s.sr bytes)
        | inr standard ↦ rw (receive_datagram, standard) (receive_standard-Good bytes)
      ]
