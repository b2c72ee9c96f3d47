-- ===== src/Sr/Header/Exact.antt =====
-- src/sr.rs: the outer header's parser and encoder against the wire form.
use openiwan.Prelude.{
  ℕ, zero, suc, ◌+◌, ◌*◌, ◌/◌, ◌%◌, ◌^◌, ◌≤◌, ◌<◌, bit_and, bit_or, false, ◌≡◌, ◌↔◌, refl, ap, ap₂,
  sym, ◌∙◌, List, [], ◌∷◌, ◌++◌, length, length-append, append_assoc, take, drop, any, All, arith,
  subst,
}
use openiwan.Prelude.Bits.{bit_or_low, bit_and_low_part}
use openiwan.Prelude.Words.{Bytes, from_be, u32_to_be, from_be-u32, u32_to_be-from_be, length-u32}
use openiwan.Error.{ok, ok-injective}
use openiwan.Protocol.Types.{segment_routing, packet_code}
use openiwan.Sr.Header.{
  SrEncryptionAlgorithm, no_outer, algorithm_code, algorithm_try_from, SrHeader, bad_link,
  validate_links, parse_links, parse, link_bytes, wire, encode,
}

abbrev pub IsLink : ℕ → Type 0
IsLink link = (1 ≤ link) × (link ≤ 0x00ff_ffff)

-- A header that the wire can carry.
pub record IsValid (h : SrHeader) : Type 0 where
  pub some_link : 1 ≤ length h.links
  pub few_links : length h.links ≤ 6
  pub links_range : All IsLink h.links
  pub next_range : h.next_id < length h.links
  pub padding_range : h.padding_length ≤ 31

pub any_bad : (links : List ℕ) → (any bad_link links ≡ false) ↔ All IsLink links
any_bad [] = (λ e. tt, λ a. refl)
any_bad (link ∷ links) = (
  λ e. (ground arith, (any_bad links).0 (ground arith)),
  λ a. ground (arith, (any_bad links).1 a.1),
)

encode_parts :
    (h : SrHeader) (out : List ℕ)
    → encode h ≡ ok out
    → (1 ≤ length h.links)
      × (length h.links ≤ 6)
      × (any bad_link h.links ≡ false)
      × (h.next_id < length h.links)
      × (h.padding_length ≤ 31)
      × (out ≡ wire h)
unfolding encode validate_links
encode_parts h out e = ground arith

encode_valid : (h : SrHeader) → IsValid h → encode h ≡ ok (wire h)
unfolding encode validate_links
encode_valid h v = ground (arith, (any_bad h.links).1 v.links_range)

-- The encoder succeeds exactly on valid headers, and writes the wire form.
pub encode_header_exact :
    (h : SrHeader) (out : List ℕ) → (encode h ≡ ok out) ↔ (IsValid h × (out ≡ wire h))
encode_header_exact h out = (
  λ e.
      let (some_link, few, good, next, padding, shape) = encode_parts h out e in
      (
        record {
          some_link = some_link;
          few_links = few;
          links_range = (any_bad h.links).0 good;
          next_range = next;
          padding_range = padding;
        },
        shape,
      ),
  λ p. encode_valid h p.0 ∙ ap ok (sym p.1),
)

parse_links-link_bytes :
    (links rest : List ℕ)
    → All IsLink links
    → parse_links (length links) (link_bytes links ++ rest) ≡ ok links
unfolding parse_links u32_to_be
parse_links-link_bytes [] rest a = refl
parse_links-link_bytes (link ∷ links) rest a =
    ground (arith, from_be-u32 link (omega arith), parse_links-link_bytes links rest a.1)

parse_links_step :
    (n : ℕ) (bytes links : List ℕ)
    → parse_links (suc n) bytes ≡ ok links
    → (more : List ℕ) × (bad_link (from_be (take 4 bytes)) ≡ false)
      × (parse_links n (drop 4 bytes) ≡ ok more)
      × (links ≡ from_be (take 4 bytes) ∷ more)
unfolding parse_links
parse_links_step n bytes links e = ground arith

parse_links_sound :
    (n : ℕ) (bytes links : List ℕ)
    → Bytes bytes
    → 4 * n ≤ length bytes
    → parse_links n bytes ≡ ok links
    → (rest : List ℕ) × (length links ≡ n) × All IsLink links × (bytes ≡ link_bytes links ++ rest)
parse_links_sound zero bytes links b h e =
    let none : [] ≡ links = unfold parse_links in ok-injective e in
    (
      bytes,
      sym (ap length none),
      subst (All IsLink) none tt,
      ap (λ (l : List ℕ). link_bytes l ++ bytes) none,
    )
parse_links_sound (suc n) (x0 ∷ x1 ∷ x2 ∷ x3 ∷ bytes) links b h e =
    let (more, good, found, shape) = parse_links_step n (x0 ∷ x1 ∷ x2 ∷ x3 ∷ bytes) links e in
    let (rest, size, range, tail) = parse_links_sound n bytes more b.1.1.1.1 (omega arith) found in
    let link = from_be (x0 ∷ x1 ∷ x2 ∷ x3 ∷ []) in
    let word = u32_to_be-from_be x0 x1 x2 x3 b.0 b.1.0 b.1.1.0 b.1.1.1.0 in
    (
      rest,
      omega (arith, ap length shape, size),
      subst (All IsLink) (sym shape) (ground arith, range),
      ap₂ ◌++◌ (sym word) tail
          ∙ sym (append_assoc (u32_to_be link) (link_bytes more) rest)
          ∙ ap (λ (l : List ℕ). link_bytes l ++ rest) (sym shape),
    )
parse_links_sound (suc n) _ links b h e = absurd (omega arith)

algorithm_code-lt : (a : SrEncryptionAlgorithm) → algorithm_code a < 2 ^ 3
unfolding algorithm_code
algorithm_code-lt no_outer = omega arith
algorithm_code-lt _ = omega arith

algorithm_back : (a : SrEncryptionAlgorithm) → algorithm_try_from (algorithm_code a) ≡ ok a
unfolding algorithm_try_from algorithm_code
algorithm_back no_outer = refl
algorithm_back _ = refl

algorithm_sound :
    (v : ℕ) (a : SrEncryptionAlgorithm) → algorithm_try_from v ≡ ok a → algorithm_code a ≡ v
unfolding algorithm_try_from algorithm_code
algorithm_sound v a e = ground arith

-- The flags byte: five bits of padding over three bits of algorithm.
flags_low : (p a : ℕ) → a < 2 ^ 3 → bit_and (bit_or (p * 8) a) 7 ≡ a
flags_low p a h = ap (λ (t : ℕ). bit_and t 7) (bit_or_low 3 p a h) ∙ bit_and_low_part 3 p a h

flags_high : (p a : ℕ) → a < 2 ^ 3 → bit_or (p * 8) a / 8 ≡ p
flags_high p a h = omega (arith, bit_or_low 3 p a h)

flags_back : (flags : ℕ) → bit_or (flags / 8 * 8) (bit_and flags 7) ≡ flags
flags_back flags =
    let e : flags ≡ flags / 8 * 8 + flags % 8 = omega arith in
    let low : bit_and flags 7 ≡ flags % 8 =
      ap (λ (t : ℕ). bit_and t 7) e ∙ bit_and_low_part 3 (flags / 8) (flags % 8) (omega arith) in
    ap (bit_or (flags / 8 * 8)) low ∙ bit_or_low 3 (flags / 8) (flags % 8) (omega arith) ∙ sym e

pub length-link_bytes : (links : List ℕ) → length (link_bytes links) ≡ 4 * length links
length-link_bytes [] = omega arith
length-link_bytes (link ∷ links) = omega (
  arith,
  length-append (u32_to_be link) (link_bytes links),
  length-u32 link,
  length-link_bytes links,
)

-- Parsing the wire form of a valid header, with anything behind it, gives the header back and the
-- length of its wire form.
pub parse-wire :
    (h : SrHeader) (rest : List ℕ)
    → IsValid h
    → parse (wire h ++ rest) ≡ ok (h, 4 + 4 * length h.links)
unfolding parse wire
parse-wire h rest v = ground (
  arith,
  flags_low h.padding_length (algorithm_code h.algorithm) (algorithm_code-lt h.algorithm),
  flags_high h.padding_length (algorithm_code h.algorithm) (algorithm_code-lt h.algorithm),
  algorithm_back h.algorithm,
  parse_links-link_bytes h.links rest v.links_range,
  length-append (link_bytes h.links) rest,
  length-link_bytes h.links,
)

parse_parts :
    (t next count flags : ℕ) (body : List ℕ) (h : SrHeader) (n : ℕ)
    → parse (t ∷ next ∷ count ∷ flags ∷ body) ≡ ok (h, n)
    → (t ≡ packet_code segment_routing)
      × (1 ≤ count)
      × (count ≤ 6)
      × (next < count)
      × (4 * count ≤ length body)
      × (algorithm_try_from (bit_and flags 7) ≡ ok h.algorithm)
      × (parse_links count body ≡ ok h.links)
      × (h.next_id ≡ next)
      × (h.padding_length ≡ flags / 8)
      × (n ≡ 4 + 4 * count)
unfolding parse
parse_parts t next count flags body h n e = ground arith

no_header : (input : List ℕ) (h : SrHeader) (n : ℕ) → length input < 4 → parse input ≡ ok (h, n) → ⊥
unfolding parse
no_header input h n short e = ground arith

abbrev pub Found : List ℕ → SrHeader → ℕ → Type 0
Found input h n =
    (rest : List ℕ) × IsValid h × (input ≡ wire h ++ rest) × (n ≡ 4 + 4 * length h.links)

parse_sound :
    (input : List ℕ) (h : SrHeader) (n : ℕ)
    → Bytes input
    → parse input ≡ ok (h, n)
    → Found input h n
unfolding wire
parse_sound (t ∷ next ∷ count ∷ flags ∷ body) h n bytes e =
    let (kind, some_link, few, within, enough, alg, found, next', padding, size) =
      parse_parts t next count flags body h n e in
    let (rest, count', range, tail) =
      parse_links_sound count body h.links bytes.1.1.1.1 enough found in
    let packed : flags ≡ bit_or (h.padding_length * 8) (algorithm_code h.algorithm) = sym (
      ap₂ bit_or (ap (λ (p : ℕ). p * 8) padding) (algorithm_sound _ h.algorithm alg)
      ∙ flags_back flags) in
    (
      rest,
      record {
        some_link = omega (arith, count', some_link);
        few_links = omega (arith, count', few);
        links_range = range;
        next_range = omega (arith, count', within, next');
        padding_range = omega (arith, padding, bytes.1.1.1.0);
      },
      ap₂ ◌∷◌ kind (ap₂ ◌∷◌ (sym next') (ap₂ ◌∷◌ (sym count') (ap₂ ◌∷◌ packed tail))),
      omega (arith, size, count'),
    )
parse_sound _ h n bytes e = absurd (no_header _ h n (omega arith) e)

-- `parse` returns the header `h` and the length `n` exactly when the input begins with the wire form
-- of `h`, of length `n`: 1 to 6 links of 1 to 0xffffff, an index into them, and five bits of
-- padding.
pub parse_header_exact :
    (input : List ℕ) (h : SrHeader) (n : ℕ)
    → Bytes input
    → (parse input ≡ ok (h, n)) ↔ Found input h n
parse_header_exact input h n bytes = (
  parse_sound input h n bytes,
  λ f. ap parse f.2 ∙ parse-wire h f.0 f.1 ∙ ap (λ (k : ℕ). ok (h, k)) (sym f.3),
)
