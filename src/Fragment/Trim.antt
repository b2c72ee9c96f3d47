-- ===== src/Fragment/Trim.antt =====
-- src/fragment.rs: `trim_ip_packet`, which removes padding by the length field of the inner packet.
use openiwan.Prelude.{
  ℕ, zero, suc, ◌+◌, ◌*◌, ◌/◌, ◌≤◌, ◌<◌, ltb, ◌==◌, ◌||◌, if◌then◌else◌, bit_and, ◌≡◌, refl, ap,
  sym, ◌∙◌, List, [], ◌∷◌, ◌++◌, length, get_or, take, length-append, length-take, take-append,
  arith,
}
use openiwan.Prelude.Words.{from_be}
use openiwan.Error.{Result, ok, err, ◌>>=◌, invalid_fragment}

-- The length that the header declares.
unfoldable pub ipv4_length : List ℕ → Result ℕ
ipv4_length packet =
    let header_length = bit_and (get_or packet 0 0) 0x0f * 4 in
    let total_length = from_be (get_or packet 2 0 ∷ get_or packet 3 0 ∷ []) in
    if ltb (length packet) 20
    then err (invalid_fragment "truncated IPv4 header")
    else if ltb header_length 20
    then err (invalid_fragment "invalid IPv4 header length")
    else if ltb total_length header_length
    then err (invalid_fragment "IPv4 total length is shorter than its header")
    else ok total_length

unfoldable pub ipv6_length : List ℕ → Result ℕ
ipv6_length packet =
    if ltb (length packet) 40
    then err (invalid_fragment "truncated IPv6 header")
    else ok (40 + from_be (get_or packet 4 0 ∷ get_or packet 5 0 ∷ []))

-- The high nibble of the first byte; emptiness is tested before.
unfoldable pub ip_version : List ℕ → ℕ
ip_version packet = get_or packet 0 0 / 16

unfoldable pub declared_length : List ℕ → Result ℕ
declared_length packet =
    if ip_version packet == 4
    then ipv4_length packet
    else if ip_version packet == 6
    then ipv6_length packet
    else err (invalid_fragment "unknown inner IP version")

unfoldable pub trim_ip_packet : List ℕ → Result (List ℕ)
trim_ip_packet packet =
    if length packet == 0 then err (invalid_fragment "empty inner IP packet") else do
      expected ← declared_length packet
      if expected == 0 || ltb (length packet) expected
          then err (invalid_fragment "inner IP length exceeds decrypted payload")
          else ok (take expected packet)

-- An IPv4 packet declares 20 bytes at least, an IPv6 packet 40.
declared_length_bounds : (packet : List ℕ) (n : ℕ) → declared_length packet ≡ ok n → 20 ≤ n
unfolding declared_length ipv4_length ipv6_length
declared_length_bounds packet n e = ground arith

-- Two packets with the same first six bytes, both long enough, declare the same length.
get_or-take : (n i : ℕ) (xs : List ℕ) → i < n → get_or (take n xs) i 0 ≡ get_or xs i 0
get_or-take zero i xs h = absurd (omega arith)
get_or-take (suc n) i [] h = refl
get_or-take (suc n) zero (x ∷ xs) h = refl
get_or-take (suc n) (suc i) (x ∷ xs) h = get_or-take n i xs (omega arith)

get_or-append : (xs ys : List ℕ) (i : ℕ) → i < length xs → get_or (xs ++ ys) i 0 ≡ get_or xs i 0
get_or-append [] ys i h = absurd (omega arith)
get_or-append (x ∷ xs) ys zero h = refl
get_or-append (x ∷ xs) ys (suc i) h = get_or-append xs ys i (omega arith)

-- The length is read from the first six bytes alone.
declared_length_same :
    (p q : List ℕ) (n : ℕ)
    → get_or p 0 0 ≡ get_or q 0 0
    → get_or p 2 0 ≡ get_or q 2 0
    → get_or p 3 0 ≡ get_or q 3 0
    → get_or p 4 0 ≡ get_or q 4 0
    → get_or p 5 0 ≡ get_or q 5 0
    → n ≤ length q
    → declared_length p ≡ ok n
    → declared_length q ≡ ok n
unfolding declared_length ipv4_length ipv6_length ip_version
declared_length_same p q n e0 e2 e3 e4 e5 h e = ground arith

trim_parts :
    (packet r : List ℕ)
    → trim_ip_packet packet ≡ ok r
    → (n : ℕ) × (declared_length packet ≡ ok n) × (n ≤ length packet) × (r ≡ take n packet)
unfolding trim_ip_packet
trim_parts packet r e = ground arith

trim_of :
    (packet : List ℕ) (n : ℕ)
    → declared_length packet ≡ ok n
    → 1 ≤ n
    → n ≤ length packet
    → trim_ip_packet packet ≡ ok (take n packet)
unfolding trim_ip_packet
trim_of packet n e h k = ground arith

-- What `trim_ip_packet` returns is a prefix of the packet of at least 20 bytes and of the same IP
-- version, and trimming it again with any `padding` behind it gives the same bytes.
pub trim_ip_packet_exact :
    (packet r padding : List ℕ)
    → trim_ip_packet packet ≡ ok r
    → (r ≡ take (length r) packet)
      × (length r ≤ length packet)
      × (20 ≤ length r)
      × (ip_version r ≡ ip_version packet)
      × (trim_ip_packet (r ++ padding) ≡ ok r)
unfolding ip_version
trim_ip_packet_exact packet r padding e =
    let (n, declared, within, shape) = trim_parts packet r e in
    let enough = declared_length_bounds packet n declared in
    let size : length r ≡ n = omega (arith, ap length shape, length-take n packet) in
    let byte : (i : ℕ) → i < 20 → get_or r i 0 ≡ get_or packet i 0 =
      λ i h. ap (λ (l : List ℕ). get_or l i 0) shape ∙ get_or-take n i packet (omega arith) in
    let padded : (i : ℕ) → i < 20 → get_or packet i 0 ≡ get_or (r ++ padding) i 0 =
      λ i h. sym (get_or-append r padding i (omega (arith, size)) ∙ byte i h) in
    (
      shape ∙ ap (λ (k : ℕ). take k packet) (sym size),
      omega (arith, size),
      omega (arith, size),
      ap (λ (b : ℕ). b / 16) (byte 0 (omega arith)),
      let long : n ≤ length (r ++ padding) = omega (arith, length-append r padding, size) in
          trim_of (r ++ padding) n
            (declared_length_same packet (r ++ padding) n (padded 0 (omega arith))
              (padded 2 (omega arith)) (padded 3 (omega arith)) (padded 4 (omega arith))
              (padded 5 (omega arith)) long declared)
            (omega arith) long
          ∙ ap ok (take-append n r padding size),
    )
