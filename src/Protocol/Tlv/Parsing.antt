-- ===== src/Protocol/Tlv/Parsing.antt =====
-- src/protocol.rs: `Tlv::parse_all` on any input.
use openiwan.Prelude.{
  ℕ, zero, suc, ◌+◌, ◌-◌, ◌≤◌, ◌<◌, ltb, List, [], ◌∷◌, ◌++◌, length, get_or, drop, slice, take,
  ◌≡◌, ◌≢◌, refl, sym, ap, ap₂, subst, ◌∙◌, arith, length-append, length-drop, length-take,
  take-append-drop, append_assoc, append-nil, All, All-drop, All-take, inl, inr, Bool-cases,
}
use openiwan.Prelude.Words.{Bytes, IsByte}
use openiwan.Error.{>>=-ne-stuck, >>=-eq-ok, ok-injective, ok, stuck}
use openiwan.Protocol.Types.{tlv_code, tlv_type_try_from, tlv_code-tlv_type_try_from}
use openiwan.Protocol.Tlv.{Tlv, parse_one, parse_loop, parse_all}

-- The bytes of one attribute and of a list, as the encoder writes them.
abbrev pub bytes_of : Tlv → List ℕ
bytes_of t = tlv_code t.kind ∷ (length t.value + 2) ∷ t.value

abbrev pub bytes_of_all : List Tlv → List ℕ
bytes_of_all [] = []
bytes_of_all (t ∷ ts) = bytes_of t ++ bytes_of_all ts

-- The loop reads an attribute only while three bytes remain, so the last one has a value or
-- `slack` bytes behind it.
abbrev pub Readable : List Tlv → ℕ → Type 0
Readable [] slack = Unit {0}
Readable (t ∷ []) slack = 1 ≤ length t.value + slack
Readable (t ∷ u ∷ ts) slack = Readable (u ∷ ts) slack

-- A parsed attribute fits the wire: its value has at most 253 bytes.
abbrev pub Fits : Tlv → Type 0
Fits t = (length t.value ≤ 253) × Bytes t.value

parse_one_parts :
    (offset : ℕ) (rest : List ℕ) (t : Tlv) (len : ℕ)
    → parse_one offset rest ≡ ok (t, len)
    → (tlv_code t.kind ≡ get_or rest 0 0)
      × (len ≡ get_or rest 1 0)
      × (2 ≤ len)
      × (len ≤ length rest)
      × (t.value ≡ slice 2 len rest)
unfolding parse_one
parse_one_parts offset rest t len e =
    ground (arith, tlv_code-tlv_type_try_from (get_or rest 0 0) t.kind)

pub parse_one_sound :
    (offset : ℕ) (rest : List ℕ) (t : Tlv) (len : ℕ)
    → Bytes rest
    → parse_one offset rest ≡ ok (t, len)
    → (rest ≡ bytes_of t ++ drop len rest)
      × (len ≡ length t.value + 2)
      × (len ≤ length rest)
      × Fits t
parse_one_sound offset (b0 ∷ suc (suc n) ∷ rest) t len bytes e =
    let (code, declared, enough, within, value) = parse_one_parts offset _ t len e in
    let cut : suc (suc n) - 2 ≡ n = omega arith in
    let v : t.value ≡ take n rest =
      value
      ∙ ap (λ (k : ℕ). take (k - 2) (drop 2 (b0 ∷ suc (suc n) ∷ rest))) declared
      ∙ ap (λ (k : ℕ). take k rest) cut in
    let size : length t.value + 2 ≡ suc (suc n) =
      omega (arith, ap length v, length-take n rest, within, declared) in
    let dropped : drop len (b0 ∷ suc (suc n) ∷ rest) ≡ drop n rest =
      ap (λ (k : ℕ). drop k (b0 ∷ suc (suc n) ∷ rest)) declared in
    let tail = sym (take-append-drop n rest) ∙ ap₂ ◌++◌ (sym v) (sym dropped) in
    (
      ap₂ ◌∷◌ (sym code) (ap₂ ◌∷◌ (sym size) tail),
      declared ∙ sym size,
      within,
      (omega (arith, size, bytes.1.0), subst Bytes (sym v) (All-take IsByte n rest bytes.1.1)),
    )
parse_one_sound offset _ t len bytes e = ground (arith, parse_one_parts offset _ t len e)

-- The kinds of result of the loop's body.
parse_one-ne-stuck : (offset : ℕ) (rest : List ℕ) → parse_one offset rest ≢ stuck
unfolding parse_one tlv_type_try_from
parse_one-ne-stuck offset rest e = ground arith

-- Every round takes two bytes at least.
parse_loop-ne-stuck :
    (fuel offset : ℕ) (rest : List ℕ) (done : List Tlv)
    → length rest < fuel
    → parse_loop fuel offset rest done ≢ stuck
unfolding parse_loop
parse_loop-ne-stuck zero offset rest done h = absurd (omega arith)
parse_loop-ne-stuck (suc fuel) offset rest done h = elim (Bool-cases (ltb (length rest) 3)) [
  | inl short ↦ rw short (λ e. cc)
  | inr long ↦ rw long (
      >>=-ne-stuck (parse_one offset rest) _ (parse_one-ne-stuck offset rest) λ p e.
        parse_loop-ne-stuck fuel (offset + p.1) (drop p.1 rest) (done ++ (p.0 ∷ []))
          (omega (arith, length-drop p.1 rest, parse_one_parts offset rest p.0 p.1 e)))
]

-- `parse_all` ends on every input.
pub parse_all-ne-stuck : (input : List ℕ) → parse_all input ≢ stuck
unfolding parse_all
parse_all-ne-stuck input = parse_loop-ne-stuck (suc (length input)) 0 input [] (omega arith)

-- What a run of the parser over `rest` found: the attributes `new`, then a suffix of at most two
-- bytes.
pub record Parsed (rest : List ℕ) (new : List Tlv) : Type 0 where
  pub suffix : List ℕ
  pub shape : rest ≡ bytes_of_all new ++ suffix
  pub short : length suffix ≤ 2
  pub fits : All Fits new
  pub readable : Readable new (length suffix)

Readable-cons :
    (t : Tlv) (new : List Tlv) (suffix rest : List ℕ)
    → rest ≡ bytes_of_all (t ∷ new) ++ suffix
    → 3 ≤ length rest
    → Readable new (length suffix)
    → Readable (t ∷ new) (length suffix)
Readable-cons t [] suffix rest e long r =
    omega
      (arith, ap length e, length-append (bytes_of t ++ []) suffix, length-append (bytes_of t) [])
Readable-cons t (u ∷ new) suffix rest e long r = r

parse_loop_sound :
    (fuel offset : ℕ) (rest : List ℕ) (done ts : List Tlv)
    → Bytes rest
    → parse_loop fuel offset rest done ≡ ok ts
    → (new : List Tlv) × (ts ≡ done ++ new) × Parsed rest new
unfolding parse_loop
parse_loop_sound zero offset rest done ts bytes e = cc
parse_loop_sound (suc fuel) offset rest done ts bytes e = elim (Bool-cases (ltb (length rest) 3)) [
  | inl short ↦
      let same : done ≡ ts = ok-injective (rw short at e) in
      (
        [],
        sym same ∙ sym (append-nil done),
        record { suffix = rest; shape = refl; short = ground arith; fits = tt; readable = tt },
      )
  | inr long ↦
      let (p, one, more) = >>=-eq-ok (parse_one offset rest) _ (rw long at e) in
      let (shape, size, within, fit) = parse_one_sound offset rest p.0 p.1 bytes one in
      let (new, all, found) =
        parse_loop_sound fuel (offset + p.1) (drop p.1 rest) (done ++ (p.0 ∷ [])) ts
          (All-drop IsByte p.1 rest bytes) more in
      let whole =
        shape
        ∙ ap (◌++◌ (bytes_of p.0)) found.shape
        ∙ sym (append_assoc (bytes_of p.0) (bytes_of_all new) found.suffix) in
      let three : 3 ≤ length rest = ground arith in
      (
        p.0 ∷ new,
        all ∙ append_assoc done (p.0 ∷ []) new,
        record {
          suffix = found.suffix;
          shape = whole;
          short = found.short;
          fits = (fit, found.fits);
          readable = Readable-cons p.0 new found.suffix rest whole three found.readable;
        },
      )
]

pub parse_all_sound :
    (input : List ℕ) (ts : List Tlv) → Bytes input → parse_all input ≡ ok ts → Parsed input ts
unfolding parse_all
parse_all_sound input ts bytes e =
    let (new, same, found) = parse_loop_sound (suc (length input)) 0 input [] ts bytes e in
    rw same found
