-- ===== src/Client/Handshake/Agreement.antt =====
-- src/client.rs: what the client takes over from the server's answer to OPEN.
use openiwan.Prelude.{
  ◌∙◌, ℕ, ◌≤◌, ◌≡◌, ◌⊎◌, ◌&&◌, ◌!=◌, leb, inl, inr, refl, sym, ap, subst, Bool-cases, false, Option,
  none, some, List, [], ◌∷◌, length, All, arith,
}
use openiwan.Error.{
  Result, ok, err, stuck, >>=-eq-ok, ok-injective, bail, authentication_verify_mismatch,
}
use openiwan.Net.{IpAddr, SocketAddr}
use openiwan.Protocol.Types.{TlvType, auth_verify}
use openiwan.Protocol.Types as Types
use openiwan.Protocol.Packet.{DecodedPacket}
use openiwan.Protocol.Tlv.{Tlv, parse_all, first_u32, as_integer}
use openiwan.Client.Session.{SessionInfo}
use openiwan.Client.Rejection.{find_tlv}
use openiwan.Client.Handshake.{
  first_ipv4, check_nonce, mtu_of, is_unspecified, servers_or, apply_kind, apply_attributes,
  offered, parse_open_ack,
}

-- The session of the packet's header, with an MTU that is the requested one or in range, and at most
-- one name server, which is a real address.
pub record IsAgreed (packet : DecodedPacket) (peer : SocketAddr) (requested : ℕ)
    (info : SessionInfo) : Type 0 where
  pub same_peer : info.peer ≡ peer
  pub same_session : info.session_id ≡ packet.header.session_id
  pub same_token : info.token ≡ packet.header.token
  pub mtu_range : (info.mtu ≡ requested) ⊎ ((576 ≤ info.mtu) × (info.mtu ≤ 9_000))
  pub one_server : length info.dns_servers ≤ 1
  pub real_server : All (λ a. is_unspecified a ≡ false) info.dns_servers

mtu_of_range :
    (requested : ℕ) (r : Result ℕ)
    → (mtu_of requested r ≡ requested) ⊎ ((576 ≤ mtu_of requested r) × (mtu_of requested r ≤ 9_000))
unfolding mtu_of
mtu_of_range requested (err e) = inl refl
mtu_of_range requested stuck = inl refl
mtu_of_range requested (ok v) = elim (Bool-cases (leb 576 v && leb v 9_000)) [
  | inl inside ↦ inr (rw inside (ground arith, ground arith))
  | inr outside ↦ inl (rw outside)
]

servers_or_real :
    (old : List IpAddr) (r : Result IpAddr)
    → length old ≤ 1
    → All (λ a. is_unspecified a ≡ false) old
    → (length (servers_or old r) ≤ 1) × All (λ a. is_unspecified a ≡ false) (servers_or old r)
servers_or_real old (err e) n h = (n, h)
servers_or_real old stuck n h = (n, h)
servers_or_real old (ok a) n h = elim (Bool-cases (is_unspecified a)) [
  | inl unspecified ↦ rw unspecified (n, h)
  | inr specified ↦ rw specified (omega arith, (specified, tt))
]

module _ (packet : DecodedPacket) (peer : SocketAddr) (requested : ℕ) where
  apply_kind-IsAgreed :
      (k : TlvType) (t : Tlv) (info : SessionInfo)
      → IsAgreed packet peer requested info
      → IsAgreed packet peer requested (apply_kind k requested t info)
  unfolding apply_kind
  apply_kind-IsAgreed Types.mtu t info h = record {
    same_peer = h.same_peer;
    same_session = h.same_session;
    same_token = h.same_token;
    mtu_range = mtu_of_range requested (as_integer t);
    one_server = h.one_server;
    real_server = h.real_server;
  }
  apply_kind-IsAgreed Types.dns t info h =
      let (one, real) =
        servers_or_real info.dns_servers (first_ipv4 t) h.one_server h.real_server in
      record {
        same_peer = h.same_peer;
        same_session = h.same_session;
        same_token = h.same_token;
        mtu_range = h.mtu_range;
        one_server = one;
        real_server = real;
      }
  apply_kind-IsAgreed _ t info h = record {
    same_peer = h.same_peer;
    same_session = h.same_session;
    same_token = h.same_token;
    mtu_range = h.mtu_range;
    one_server = h.one_server;
    real_server = h.real_server;
  }

  apply_attributes-IsAgreed :
      (ts : List Tlv) (info : SessionInfo)
      → IsAgreed packet peer requested info
      → IsAgreed packet peer requested (apply_attributes requested ts info)
  unfolding apply_attributes
  apply_attributes-IsAgreed [] info h = h
  apply_attributes-IsAgreed (t ∷ ts) info h =
      apply_attributes-IsAgreed ts (apply_kind t.kind requested t info)
        (apply_kind-IsAgreed t.kind t info h)

check_nonce_same :
    (found : Option Tlv) (nonce : ℕ) (t : Tlv)
    → check_nonce found nonce ≡ ok tt
    → found ≡ some t
    → first_u32 t ≡ ok nonce
unfolding check_nonce
check_nonce_same none nonce t e q = cc
check_nonce_same (some a) nonce t e q =
    let (n, first, rest) =
      >>=-eq-ok (first_u32 a) (λ n. bail (n != nonce) authentication_verify_mismatch) e in
    let same : n ≡ nonce = ground arith in
    let which : a ≡ t = cc in
    subst (λ x. first_u32 x ≡ ok nonce) which (subst (λ x. first_u32 a ≡ ok x) same first)

-- A session that the client takes over from the answer to OPEN has the identifier and the token of
-- that packet's header, the client's MTU or one from 576 to 9000, and at most one name server, not
-- the unspecified address; and the first nonce in the answer, if it holds one, is the client's.
pub parse_open_ack-IsAgreed :
    (packet : DecodedPacket) (peer : SocketAddr) (nonce requested : ℕ) (info : SessionInfo)
    → parse_open_ack packet peer nonce requested ≡ ok info
    → IsAgreed packet peer requested info
      × ((ts : List Tlv) (t : Tlv)
          → parse_all packet.body ≡ ok ts
          → find_tlv ts auth_verify ≡ some t
          → first_u32 t ≡ ok nonce)
unfolding parse_open_ack
parse_open_ack-IsAgreed packet peer nonce requested info e =
    let (ts, parsed, rest) = >>=-eq-ok (parse_all packet.body) _ e in
    let (u, met, same) = >>=-eq-ok (check_nonce (find_tlv ts auth_verify) nonce) _ rest in
    let start : IsAgreed packet peer requested (offered packet peer requested) = record {
      same_peer = refl;
      same_session = refl;
      same_token = refl;
      mtu_range = inl refl;
      one_server = omega arith;
      real_server = tt;
    } in
    (
      subst (IsAgreed packet peer requested) (ok-injective same) (
          apply_attributes-IsAgreed packet peer requested ts (offered packet peer requested) start),
      λ ts' t parsed' found.
          let which : ts ≡ ts' = ok-injective (sym parsed ∙ parsed') in
          check_nonce_same (find_tlv ts auth_verify) nonce t met
            (ap (λ l. find_tlv l auth_verify) which ∙ found),
    )
