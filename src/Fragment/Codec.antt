-- ===== src/Fragment/Codec.antt =====
-- src/fragment.rs: `Fragment`, its parser and encoder for both byte orders of the identifier. The
-- field `data` of the source is `payload` here.
pub mod Word
pub mod RoundTrip
pub mod Exact
use openiwan.Prelude.{
  ℕ, ◌+◌, ◌-◌, ◌*◌, ◌/◌, ◌^◌, ltb, ◌==◌, ◌!=◌, ◌||◌, if◌then◌else◌, bool_to_ℕ, bit_and, bit_or,
  Bool, List, [], ◌∷◌, ◌++◌, length, slice, String,
}
use openiwan.Prelude.Words.{from_be, from_le, u32_to_be, to_le}
use openiwan.Error.{Result, ok, err, ◌>>=◌, ◌>>◌, bail, invalid_fragment, fragment_too_large}

abbrev pub fragment_prefix_len : ℕ
fragment_prefix_len = 8

abbrev pub max_fragment_offset : ℕ
max_fragment_offset = 0x1fff

abbrev pub max_fragment_length : ℕ
max_fragment_length = 0x07ff

abbrev pub max_reassembled_packet : ℕ
max_reassembled_packet = 8192

pub record Fragment : Type 0 where
  pub id : ℕ
  pub end_of_packet : Bool
  pub from_in : Bool
  pub offset : ℕ
  pub payload : List ℕ

pub data FragmentIdEndian : Type 0 where
  big little : FragmentIdEndian

unfoldable pub read_id : FragmentIdEndian → List ℕ → ℕ
read_id big bytes = from_be bytes
read_id little bytes = from_le bytes

unfoldable pub write_id : FragmentIdEndian → ℕ → List ℕ
write_id big id = u32_to_be id
write_id little id = to_le 4 id

-- `usize::checked_add`, with 64-bit sizes.
unfoldable pub end_offset : Fragment → Result ℕ
end_offset f =
    if ltb (f.offset + length f.payload) (2 ^ 64)
    then ok (f.offset + length f.payload)
    else err fragment_too_large

-- The fragment that the checked prefix describes.
unfoldable pub fragment_at : FragmentIdEndian → List ℕ → Fragment
fragment_at endian input =
    let packed = from_le (slice 4 8 input) in
    record {
      id = read_id endian (slice 0 4 input);
      end_of_packet = bit_and packed 1 != 0;
      from_in = bit_and packed 2 != 0;
      offset = bit_and (packed / 2 ^ 2) max_fragment_offset;
      payload = slice 8 (8 + bit_and (packed / 2 ^ 15) max_fragment_length) input;
    }

unfoldable pub parse : FragmentIdEndian → List ℕ → Result Fragment
parse endian input = do
  bail (ltb (length input) fragment_prefix_len) (invalid_fragment "fewer than eight prefix bytes")
  let packed = from_le (slice 4 8 input)
  bail (bit_and packed 0xfc00_0000 != 0) (invalid_fragment "reserved bits are non-zero")
  let len = bit_and (packed / 2 ^ 15) max_fragment_length
  bail (len == 0) (invalid_fragment "zero payload length")
  bail (ltb (length input - fragment_prefix_len) len)
      (invalid_fragment "declared payload length exceeds datagram")
  end ← end_offset (fragment_at endian input)
  bail (ltb max_reassembled_packet end) fragment_too_large
  ok (fragment_at endian input)

unfoldable pub pack : Fragment → ℕ
pack f =
    bit_or
      (bit_or (bit_or (f.offset * 2 ^ 2) (length f.payload * 2 ^ 15)) (bool_to_ℕ f.end_of_packet))
      (bool_to_ℕ f.from_in * 2)

-- The bytes that the encoder writes once its checks have passed.
unfoldable pub wire : FragmentIdEndian → Fragment → List ℕ
wire endian f = write_id endian f.id ++ (to_le 4 (pack f) ++ f.payload)

unfoldable pub encode : FragmentIdEndian → Fragment → Result (List ℕ)
encode endian f = do
  bail (ltb max_fragment_offset f.offset) (invalid_fragment "offset exceeds 13-bit field")
  bail (ltb 65535 (length f.payload)) (invalid_fragment "payload exceeds 11-bit length field")
  bail (length f.payload == 0 || ltb max_fragment_length (length f.payload))
      (invalid_fragment "payload length is outside 1..=2047")
  end ← end_offset f
  bail (ltb max_reassembled_packet end) fragment_too_large
  ok (wire endian f)

unfoldable pub parse_traditional : List ℕ → Result Fragment
parse_traditional input = parse big input

unfoldable pub parse_sr : List ℕ → Result Fragment
parse_sr input = parse little input

unfoldable pub encode_traditional : Fragment → Result (List ℕ)
encode_traditional f = encode big f

unfoldable pub encode_sr : Fragment → Result (List ℕ)
encode_sr f = encode little f
