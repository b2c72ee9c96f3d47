-- ===== src/Fragment/Codec/Exact.antt =====
-- src/fragment.rs: the fragment parser against the wire form.
use openiwan.Prelude.{
  ℕ, zero, suc, ◌+◌, ◌-◌, ◌*◌, ◌/◌, ◌%◌, ◌^◌, ◌≤◌, ◌<◌, ◌!=◌, bool_to_ℕ, ◌≡◌, ◌≢◌, ◌↔◌, refl, ap,
  ap₂, sym, ◌∙◌, arith, List, [], ◌∷◌, ◌++◌, length, take, drop, slice, length-take, length-drop,
  take-append-drop, take-drop_join, All-take, All-drop, subst,
}
use openiwan.Prelude.Words.{
  Bytes, IsByte, IsU32, from_le, to_le, field_back, from_le-lt, u32_to_be-from_be, from_be-IsU32,
}
use openiwan.Error.{ok}
use openiwan.Fragment.Codec.{
  Fragment, FragmentIdEndian, big, little, read_id, write_id, fragment_at, parse, pack, wire,
  encode,
}
use openiwan.Fragment.Codec.Word.{mask_1, mask_13, mask_11, mask_second, mask_reserved, pack_value}
use openiwan.Fragment.Codec.RoundTrip.{
  FitsWire, Checked, packed_of, len_of, bool_of_bit, parse-Checked, parse-wire, encode_exact,
}

write_id-read_id :
    (endian : FragmentIdEndian) (l : List ℕ)
    → length l ≡ 4
    → Bytes l
    → (write_id endian (read_id endian l) ≡ l) × IsU32 (read_id endian l)
unfolding write_id read_id
write_id-read_id big (a ∷ b ∷ c ∷ d ∷ []) h bytes = (
  u32_to_be-from_be a b c d bytes.0 bytes.1.0 bytes.1.1.0 bytes.1.1.1.0,
  from_be-IsU32 a b c d bytes.0 bytes.1.0 bytes.1.1.0 bytes.1.1.1.0,
)
write_id-read_id little l h bytes =
    let e : take 4 (drop 0 l) ≡ l = take_whole l 4 (omega (arith, h)) in
    (
      ap (λ (k : List ℕ). to_le 4 (from_le k)) (sym e)
          ∙ field_back 4 0 l bytes (omega (arith, h))
          ∙ e,
      omega (arith, from_le-lt l bytes, ap (λ (n : ℕ). 256 ^ n) h),
    )
  where
    take_whole : (l : List ℕ) (n : ℕ) → length l ≤ n → take n l ≡ l
    take_whole [] zero h = refl
    take_whole [] (suc n) h = refl
    take_whole (x ∷ l) zero h = absurd (omega arith)
    take_whole (x ∷ l) (suc n) h = ap (◌∷◌ x) (take_whole l n (omega arith))
write_id-read_id _ _ h bytes = absurd (omega arith)

module _ (endian : FragmentIdEndian) (input : List ℕ) (bytes : Bytes input)
    (c : Checked endian input) where
  abbrev found : Fragment
  found = fragment_at endian input

  word_range : packed_of input < 2 ^ 26
  word_range =
      let field = slice 4 8 input in
      let size : length field ≡ 4 =
        omega (arith, length-take 4 (drop 4 input), length-drop 4 input, c.whole_prefix) in
      let wide : packed_of input < 2 ^ 32 = omega (
        arith,
        from_le-lt field (All-take IsByte 4 (drop 4 input) (All-drop IsByte 4 input bytes)),
        ap (λ (n : ℕ). 256 ^ n) size,
      ) in
      omega (arith, c.no_reserved, mask_reserved (packed_of input) wide)

  found_fields :
      (found.offset ≡ packed_of input / 2 ^ 2 % 2 ^ 13)
      × (length found.payload ≡ packed_of input / 2 ^ 15 % 2 ^ 11)
      × (length found.payload ≡ len_of input)
      × (bool_to_ℕ found.end_of_packet ≡ packed_of input % 2)
      × (bool_to_ℕ found.from_in ≡ packed_of input / 2 % 2)
  unfolding fragment_at
  found_fields =
      let p = packed_of input in
      let n = len_of input in
      let size : length (take (8 + n - 8) (drop 8 input)) ≡ n = omega (
        arith,
        length-take (8 + n - 8) (drop 8 input),
        length-drop 8 input,
        c.enough,
        c.whole_prefix,
      ) in
      (
        mask_13 (p / 2 ^ 2),
        size ∙ mask_11 (p / 2 ^ 15),
        size,
        ap (λ (t : ℕ). bool_to_ℕ (t != 0)) (mask_1 p) ∙ bool_of_bit (p % 2) (omega arith),
        ap (λ (t : ℕ). bool_to_ℕ (t != 0)) (mask_second p) ∙ twice (p / 2 % 2) (omega arith),
      )
    where
      twice : (n : ℕ) → n < 2 → bool_to_ℕ (n * 2 != 0) ≡ n
      twice n h = ground arith

  pack-found : pack found ≡ packed_of input
  pack-found =
      let v = pack_value found (omega (arith, found_fields.0)) (omega (arith, found_fields.1)) in
      omega (arith, v, found_fields, word_range)

  found-FitsWire : FitsWire found
  found-FitsWire = record {
    some_payload = positive (len_of input) c.some_len found_fields.2;
    short_payload = omega (arith, found_fields.1);
    offset_range = omega (arith, found_fields.0);
    end_range = c.within;
  }
    where
      positive : (n : ℕ) → n ≢ 0 → length found.payload ≡ n → 1 ≤ length found.payload
      positive n ne e = omega (arith, ne, e)

  id_back : (write_id endian found.id ≡ slice 0 4 input) × IsU32 found.id
  unfolding fragment_at
  id_back =
      write_id-read_id endian (slice 0 4 input)
        (omega (arith, length-take 4 (drop 0 input), length-drop 0 input, c.whole_prefix))
        (All-take IsByte 4 (drop 0 input) (All-drop IsByte 0 input bytes))

  wire_parts :
      wire endian found ≡ slice 0 4 input ++ (slice 4 8 input ++ slice 8 (8 + len_of input) input)
  unfolding wire fragment_at
  wire_parts = ap₂ ◌++◌ (id_back.0) (
      ap (λ (l : List ℕ). l ++ slice 8 (8 + len_of input) input)
        (ap (to_le 4) pack-found ∙ field_back 4 4 input bytes (omega (arith, c.whole_prefix))))

  input_shape : input ≡ wire endian found ++ drop (8 + length found.payload) input
  input_shape =
      let n = 8 + len_of input - 8 in
      let size : 4 + (4 + n) ≡ 8 + length found.payload = omega (arith, found_fields.2) in
      let whole =
        wire_parts
        ∙ ap (◌++◌ (slice 0 4 input)) (take-drop_join 4 4 n input)
        ∙ take-drop_join 0 4 (4 + n) input
        ∙ ap (λ (k : ℕ). take k input) size in
      sym (take-append-drop (8 + length found.payload) input)
      ∙ ap (λ (l : List ℕ). l ++ drop (8 + length found.payload) input) (sym whole)

-- `parse` returns `f` exactly when the input begins with the wire form of `f`, `f` fits the wire
-- and its identifier is a 32-bit word; what follows the declared payload is ignored.
pub parse_exact :
    (endian : FragmentIdEndian) (input : List ℕ) (f : Fragment)
    → Bytes input
    → (parse endian input ≡ ok f)
      ↔ (FitsWire f × IsU32 f.id × (input ≡ wire endian f ++ drop (8 + length f.payload) input))
parse_exact endian input f bytes = (
  λ e.
      let (c, same) = (parse-Checked endian input f).0 e in
      subst
        (λ g.
          FitsWire g × IsU32 g.id × (input ≡ wire endian g ++ drop (8 + length g.payload) input))
        (sym same)
        (
          found-FitsWire endian input bytes c,
          (id_back endian input bytes c).1,
          input_shape endian input bytes c,
        ),
  λ h. ap (parse endian) h.2 ∙ parse-wire f h.0 endian (drop (8 + length f.payload) input) h.1,
)

-- A fragment with a 32-bit identifier that the encoder accepts is read back by the parser of the
-- same byte order, whatever follows it in the datagram.
pub parse-encode :
    (endian : FragmentIdEndian) (f : Fragment) (out rest : List ℕ)
    → IsU32 f.id
    → encode endian f ≡ ok out
    → parse endian (out ++ rest) ≡ ok f
parse-encode endian f out rest id_range e =
    let (fits, shape) = (encode_exact endian f out).0 e in
    ap (λ (l : List ℕ). parse endian (l ++ rest)) shape ∙ parse-wire f fits endian rest id_range
