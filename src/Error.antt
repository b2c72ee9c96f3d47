-- ===== src/Error.antt =====
-- src/error.rs: the error values of the library, and results. Only the variants that the modelled
-- components raise are here; the formatted reasons of an invalid TLV are values of `TlvFault`.
use openiwan.Prelude.{ℕ, String, Bool, true, false, ◌≡◌, ◌≢◌, ◌⊎◌, inl, inr, refl, List}

pub data TlvFault : Type 0 where
  unknown_type : ℕ → TlvFault
  invalid_total_length : ℕ → TlvFault
  declared_length_exceeds : ℕ → ℕ → TlvFault
  trailing_bytes : TlvFault

-- The formatted messages of `InvalidConfig`, with the values that they show. Methods and addresses
-- stand as their codes.
pub data ConfigFault : Type 0 where
  encryption_mismatch : ℕ → ℕ → ConfigFault
  assignment_changed : ConfigFault
  invalid_name : String → List ℕ → ConfigFault
  unusable_server : ℕ → ConfigFault
  mtu_out_of_range : ℕ → ConfigFault
  unknown_mode : String → List ℕ → ConfigFault

-- `io` stands for every `std::io::Error`.
pub data Error : Type 0 where
  io : Error
  config_fault : ConfigFault → Error
  authentication_rejected : ℕ → List ℕ → Error
  timeout : String → Error
  invalid_config : String → Error
  packet_too_short : ℕ → ℕ → Error
  unknown_packet_type : ℕ → Error
  unknown_encryption_method : ℕ → Error
  invalid_signature : Error
  invalid_tlv : ℕ → TlvFault → Error
  tlv_too_large : String → ℕ → Error
  missing_tlv : String → Error
  invalid_tlv_value : String → Error
  crypto : String → Error
  authentication_verify_mismatch : Error
  invalid_ping_response : Error
  session_closed : Error
  invalid_fragment : String → Error
  fragment_too_large : Error
  invalid_segment_routing : String → Error
  segment_routing_peer_down : Error
  fragment_encryption_unsupported : Error

-- `stuck` is no Rust value: a modelled loop ran out of fuel.
pub data Result {ℓ} (A : Type ℓ) : Type ℓ where
  ok : A → Result A
  err : Error → Result A
  stuck : Result A

infixl 5 ◌>>=◌ ◌>>◌
abbrev pub ◌>>=◌ {ℓ κ} : {A : Type ℓ} {B : Type κ} → Result A → (A → Result B) → Result B
stuck >>= next = stuck
err why >>= next = err why
ok value >>= next = next value

abbrev pub ◌>>◌ {ℓ} : {B : Type ℓ} → Result (Unit {0}) → Result B → Result B
m >> k = m >>= λ _. k

-- `if failing { return Err(e) }`
abbrev pub bail : Bool → Error → Result (Unit {0})
bail true e = err e
bail false e = ok tt

-- `Result::map_err` by a constant.
abbrev pub map_err {ℓ} : {A : Type ℓ} → Result A → Error → Result A
map_err (ok a) e = ok a
map_err (err _) e = err e
map_err stuck e = stuck

pub map_err-eq-ok {ℓ} :
    {A : Type ℓ} (m : Result A) (e : Error) {a : A} → map_err m e ≡ ok a → m ≡ ok a
map_err-eq-ok (ok a) e h = h
map_err-eq-ok (err x) e h = cc
map_err-eq-ok stuck e h = cc

pub >>=-eq-ok {ℓ κ} :
    {M : Type ℓ} {N : Type κ} (first : Result M) (next : M → Result N) {result : N}
    → (first >>= next) ≡ ok result
    → (middle : M) × (first ≡ ok middle) × (next middle ≡ ok result)
>>=-eq-ok stuck next e = cc
>>=-eq-ok (err why) next e = cc
>>=-eq-ok (ok middle) next e = (middle, refl, e)

pub ok-injective {ℓ} : {A : Type ℓ} {a b : A} → ok a ≡ ok b → a ≡ b
ok-injective h = cc

pub >>=-ne-stuck {ℓ κ} :
    {A : Type ℓ} {B : Type κ} (m : Result A) (f : A → Result B)
    → m ≢ stuck
    → ((a : A) → m ≡ ok a → f a ≢ stuck)
    → (m >>= f) ≢ stuck
>>=-ne-stuck (ok a) f h k = k a refl
>>=-ne-stuck (err e) f h k = λ q. cc
>>=-ne-stuck stuck f h k = absurd (h refl)

pub Result-cases {ℓ} :
    {A : Type ℓ} (m : Result A)
    → ((a : A) × (m ≡ ok a)) ⊎ (((e : Error) × (m ≡ err e)) ⊎ (m ≡ stuck))
Result-cases (ok a) = inl (a, refl)
Result-cases (err e) = inr (inl (e, refl))
Result-cases stuck = inr (inr refl)
