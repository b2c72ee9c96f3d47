-- ===== src/Fragment/Codec/RoundTrip.antt =====
-- src/fragment.rs: the fragment encoder and parser against the wire form.
use openiwan.Prelude.{
  ℕ, ◌+◌, ◌-◌, ◌*◌, ◌/◌, ◌%◌, ◌^◌, ◌≤◌, ◌<◌, ◌!=◌, bool_to_ℕ, bit_and, Bool, true, false, ◌≡◌, ◌≢◌,
  ◌↔◌, refl, ap, ap₂, sym, ◌∙◌, arith, List, ◌++◌, length, take, drop, slice, length-append,
  take-append,
}
use openiwan.Prelude.Words.{IsU32, from_le, to_le, u32_to_be, from_le-to_le, from_be-u32}
use openiwan.Error.{ok}
use openiwan.Fragment.Codec.{
  Fragment, FragmentIdEndian, big, little, read_id, write_id, end_offset, fragment_at, parse, pack,
  wire, encode,
}
use openiwan.Fragment.Codec.Word.{mask_1, mask_13, mask_11, mask_second, mask_reserved, pack_value}

-- What the prefix can describe: 13 bits of offset, 1 to 2047 bytes, within 8192 bytes.
pub record FitsWire (f : Fragment) : Type 0 where
  pub some_payload : 1 ≤ length f.payload
  pub short_payload : length f.payload ≤ 2047
  pub offset_range : f.offset ≤ 0x1fff
  pub end_range : f.offset + length f.payload ≤ 8192

-- The encoder succeeds exactly on the fragments that fit the wire, and then writes the identifier
-- in its byte order, the packed word and the payload.
pub encode_exact :
    (endian : FragmentIdEndian) (f : Fragment) (out : List ℕ)
    → (encode endian f ≡ ok out) ↔ (FitsWire f × (out ≡ wire endian f))
unfolding encode end_offset
encode_exact endian f out = (λ e. ground arith, λ h. ground arith)

abbrev pub packed_of : List ℕ → ℕ
packed_of input = from_le (slice 4 8 input)

abbrev pub len_of : List ℕ → ℕ
len_of input = bit_and (packed_of input / 2 ^ 15) 0x07ff

-- The parser's checks.
pub record Checked (endian : FragmentIdEndian) (input : List ℕ) : Type 0 where
  pub whole_prefix : 8 ≤ length input
  pub no_reserved : bit_and (packed_of input) 0xfc00_0000 ≡ 0
  pub some_len : len_of input ≢ 0
  pub enough : len_of input ≤ length input - 8
  pub within : (fragment_at endian input).offset + length (fragment_at endian input).payload ≤ 8192

pub parse-Checked :
    (endian : FragmentIdEndian) (input : List ℕ) (f : Fragment)
    → (parse endian input ≡ ok f) ↔ (Checked endian input × (f ≡ fragment_at endian input))
unfolding parse end_offset
parse-Checked endian input f = (λ e. ground arith, λ h. ground arith)

-- Reading the wire form back.
module _ (endian : FragmentIdEndian) (f : Fragment) (rest : List ℕ) where
  id_slice : slice 0 4 (wire endian f ++ rest) ≡ write_id endian f.id
  unfolding wire write_id to_le u32_to_be
  id_slice = go endian
    where
      go : (e : FragmentIdEndian) → slice 0 4 (wire e f ++ rest) ≡ write_id e f.id
      go big = refl
      go little = refl

  packed_slice : slice 4 8 (wire endian f ++ rest) ≡ to_le 4 (pack f)
  unfolding wire write_id to_le u32_to_be
  packed_slice = go endian
    where
      go : (e : FragmentIdEndian) → slice 4 8 (wire e f ++ rest) ≡ to_le 4 (pack f)
      go big = refl
      go little = refl

  payload_slice : drop 8 (wire endian f ++ rest) ≡ f.payload ++ rest
  unfolding wire write_id to_le u32_to_be
  payload_slice = go endian
    where
      go : (e : FragmentIdEndian) → drop 8 (wire e f ++ rest) ≡ f.payload ++ rest
      go big = refl
      go little = refl

  length-wire : length (wire endian f ++ rest) ≡ 8 + length f.payload + length rest
  unfolding wire write_id to_le u32_to_be
  length-wire = go endian
    where
      go : (e : FragmentIdEndian) → length (wire e f ++ rest) ≡ 8 + length f.payload + length rest
      go big = omega (arith, length-append f.payload rest)
      go little = omega (arith, length-append f.payload rest)

read_id-write_id :
    (endian : FragmentIdEndian) (id : ℕ) → IsU32 id → read_id endian (write_id endian id) ≡ id
unfolding read_id write_id
read_id-write_id big id h = from_be-u32 id h
read_id-write_id little id h = from_le-to_le 4 id h

bool_bit : (b : Bool) (n : ℕ) → n ≡ bool_to_ℕ b → (n != 0) ≡ b
bool_bit true n h = ground arith
bool_bit false n h = ground arith

bool_to_ℕ-lt : (b : Bool) → bool_to_ℕ b < 2
bool_to_ℕ-lt true = omega arith
bool_to_ℕ-lt false = omega arith

pub bool_of_bit : (n : ℕ) → n < 2 → bool_to_ℕ (n != 0) ≡ n
bool_of_bit n h = ground arith

-- The fields of the packed word of a fragment that fits.
module _ (f : Fragment) (fits : FitsWire f) where
  pack_fields :
      (pack f < 2 ^ 26)
      × (pack f % 2 ≡ bool_to_ℕ f.end_of_packet)
      × (pack f / 2 % 2 ≡ bool_to_ℕ f.from_in)
      × (pack f / 2 ^ 2 % 2 ^ 13 ≡ f.offset)
      × (pack f / 2 ^ 15 % 2 ^ 11 ≡ length f.payload)
  pack_fields =
      let v = pack_value f (omega (arith, fits.offset_range)) (omega (arith, fits.short_payload)) in
      let o = fits.offset_range in
      let l = fits.short_payload in
      let e = bool_to_ℕ-lt f.end_of_packet in
      let d = bool_to_ℕ-lt f.from_in in
      (
        omega (arith, v, o, l, e, d),
        omega (arith, v, o, l, e, d),
        omega (arith, v, o, l, e, d),
        omega (arith, v, o, l, e, d),
        omega (arith, v, o, l, e, d),
      )

  module _ (endian : FragmentIdEndian) (rest : List ℕ) (id_range : IsU32 f.id) where
    abbrev input : List ℕ
    input = wire endian f ++ rest

    packed_is_pack : packed_of input ≡ pack f
    packed_is_pack =
        ap from_le (packed_slice endian f rest)
        ∙ from_le-to_le 4 (pack f) (omega (arith, pack_fields.0))

    len_is_length : len_of input ≡ length f.payload
    len_is_length =
        ap (λ (t : ℕ). bit_and (t / 2 ^ 15) 0x07ff) packed_is_pack
        ∙ mask_11 (pack f / 2 ^ 15)
        ∙ pack_fields.4

    payload_back : slice 8 (8 + len_of input) input ≡ f.payload
    payload_back =
        let cut : 8 + len_of input - 8 ≡ length f.payload = omega (arith, len_is_length) in
        ap₂ take cut (payload_slice endian f rest)
        ∙ take-append (length f.payload) f.payload rest refl

    fragment_at-wire : fragment_at endian input ≡ f
    unfolding fragment_at
    fragment_at-wire = λ i. record {
      id = (ap (read_id endian) (id_slice endian f rest) ∙ read_id-write_id endian f.id id_range) i;
      end_of_packet =
          (bool_bit f.end_of_packet (bit_and (packed_of input) 1)
              (ap (λ (t : ℕ). bit_and t 1) packed_is_pack ∙ mask_1 (pack f) ∙ pack_fields.1))
            i;
      from_in = (ap (λ (t : ℕ). bit_and t 2 != 0) packed_is_pack ∙ second) i;
      offset =
          (ap (λ (t : ℕ). bit_and (t / 2 ^ 2) 0x1fff) packed_is_pack
              ∙ mask_13 (pack f / 2 ^ 2)
              ∙ pack_fields.3)
            i;
      payload = payload_back i;
    }
      where
        second : (bit_and (pack f) 2 != 0) ≡ f.from_in
        second =
            ap (λ (t : ℕ). t != 0) (mask_second (pack f))
            ∙ ap (λ (t : ℕ). t * 2 != 0) pack_fields.2
            ∙ twice f.from_in
          where
            twice : (b : Bool) → (bool_to_ℕ b * 2 != 0) ≡ b
            twice true = refl
            twice false = refl

    wire-Checked : Checked endian input
    wire-Checked = record {
      whole_prefix = omega (arith, length-wire endian f rest);
      no_reserved =
          ap (λ (t : ℕ). bit_and t 0xfc00_0000) packed_is_pack
          ∙ mask_reserved (pack f) (omega (arith, pack_fields.0))
          ∙ omega (arith, pack_fields.0);
      some_len = λ z. omega (arith, z, len_is_length, fits.some_payload);
      enough = omega (arith, length-wire endian f rest, len_is_length);
      within = omega (
        arith,
        fits.end_range,
        ap (λ (g : Fragment). g.offset) fragment_at-wire,
        ap (λ (g : Fragment). length g.payload) fragment_at-wire,
      );
    }

    pub parse-wire : parse endian input ≡ ok f
    parse-wire = (parse-Checked endian input f).1 (wire-Checked, sym fragment_at-wire)
