-- ===== src/Protocol/Tlv/RoundTrip.antt =====
-- src/protocol.rs: `Tlv::parse_all` and `Tlv::parse_complete` against the encoder.
use openiwan.Prelude.{
  ℕ, zero, suc, ◌+◌, ◌-◌, ◌≤◌, ◌<◌, ltb, ◌!=◌, List, [], ◌∷◌, ◌++◌, length, drop, take, ◌≡◌, ◌↔◌,
  refl, sym, ap, subst, ◌∙◌, arith, length-append, append_assoc, append-nil, All, false, le→ltb,
  take-append, drop-append, lt→ltb,
}
use openiwan.Prelude.Words.{Bytes}
use openiwan.Error.{>>=-eq-ok, ok-injective, ok, bail, invalid_tlv, trailing_bytes}
use openiwan.Protocol.Types.{tlv_type_try_from-tlv_code}
use openiwan.Protocol.Tlv.{
  Tlv, parse_one, parse_loop, parse_all, parse_complete, parsed_len, encode, encode_all,
}
use openiwan.Protocol.Tlv.Parsing.{bytes_of, bytes_of_all, Readable, Fits, Parsed, parse_all_sound}

parse_one-bytes_of :
    (offset : ℕ) (t : Tlv) (rest : List ℕ)
    → parse_one offset (bytes_of t ++ rest) ≡ ok (t, length t.value + 2)
unfolding parse_one
parse_one-bytes_of offset t rest =
    let cut : length t.value + 2 - 2 ≡ length t.value = omega arith in
    let value : take (length t.value + 2 - 2) (t.value ++ rest) ≡ t.value =
      ap (λ (k : ℕ). take k (t.value ++ rest)) cut ∙ take-append _ t.value rest refl in
    let enough : ltb (length t.value + 2) 2 ≡ false = le→ltb _ 2 (omega arith) in
    let within : ltb (suc (suc (length (t.value ++ rest)))) (length t.value + 2) ≡ false =
      le→ltb _ _ (omega (arith, length-append t.value rest)) in
    rw (tlv_type_try_from-tlv_code t.kind, enough, within, value)

drop-bytes_of : (t : Tlv) (rest : List ℕ) → drop (length t.value + 2) (bytes_of t ++ rest) ≡ rest
drop-bytes_of t rest = drop-append _ (bytes_of t) rest (omega arith)

enough_bytes :
    (t : Tlv) (ts : List Tlv) (suffix : List ℕ)
    → Readable (t ∷ ts) (length suffix)
    → 3 ≤ length (bytes_of t ++ (bytes_of_all ts ++ suffix))
enough_bytes t [] suffix r = omega (arith, length-append t.value suffix)
enough_bytes t (u ∷ ts) suffix r =
    omega (arith, length-append t.value (bytes_of_all (u ∷ ts) ++ suffix))

Readable-tail : (t : Tlv) (ts : List Tlv) (n : ℕ) → Readable (t ∷ ts) n → Readable ts n
Readable-tail t [] n r = tt
Readable-tail t (u ∷ ts) n r = r

parse_loop_step :
    (fuel offset : ℕ) (rest : List ℕ) (done : List Tlv) (t : Tlv) (len : ℕ)
    → 3 ≤ length rest
    → parse_one offset rest ≡ ok (t, len)
    → parse_loop (suc fuel) offset rest done
      ≡ parse_loop fuel (offset + len) (drop len rest) (done ++ (t ∷ []))
unfolding parse_loop
parse_loop_step fuel offset rest done t len long e = rw (le→ltb (length rest) 3 long, e)

parse_loop_stop :
    (fuel offset : ℕ) (rest : List ℕ) (done : List Tlv)
    → length rest < 3
    → parse_loop (suc fuel) offset rest done ≡ ok done
unfolding parse_loop
parse_loop_stop fuel offset rest done short = rw (lt→ltb (length rest) 3 short)

parse_loop-bytes_of_all :
    (ts : List Tlv) (fuel offset : ℕ) (suffix : List ℕ) (done : List Tlv)
    → length suffix ≤ 2
    → Readable ts (length suffix)
    → length (bytes_of_all ts ++ suffix) < fuel
    → parse_loop fuel offset (bytes_of_all ts ++ suffix) done ≡ ok (done ++ ts)
parse_loop-bytes_of_all ts zero offset suffix done short r h = absurd (omega arith)
parse_loop-bytes_of_all [] (suc fuel) offset suffix done short r h =
    parse_loop_stop fuel offset suffix done (omega arith) ∙ ap ok (sym (append-nil done))
parse_loop-bytes_of_all (t ∷ ts) (suc fuel) offset suffix done short r h =
    let rest = bytes_of_all ts ++ suffix in
    let regroup = append_assoc (bytes_of t) (bytes_of_all ts) suffix in
    let fewer : length rest < fuel =
      omega (arith, ap length regroup, length-append (bytes_of t) rest) in
    let step =
      parse_loop_step fuel offset (bytes_of t ++ rest) done t (length t.value + 2)
        (enough_bytes t ts suffix r) (parse_one-bytes_of offset t rest) in
    let next = offset + (length t.value + 2) in
    ap (λ (l : List ℕ). parse_loop (suc fuel) offset l done) regroup
    ∙ step
    ∙ ap (λ (l : List ℕ). parse_loop fuel next l (done ++ (t ∷ []))) (drop-bytes_of t rest)
    ∙ parse_loop-bytes_of_all ts fuel next suffix (done ++ (t ∷ [])) short
        (Readable-tail t ts (length suffix) r) fewer
    ∙ ap ok (append_assoc done (t ∷ []) ts)

parse_all-bytes_of_all :
    (ts : List Tlv) (suffix : List ℕ)
    → length suffix ≤ 2
    → Readable ts (length suffix)
    → parse_all (bytes_of_all ts ++ suffix) ≡ ok ts
unfolding parse_all
parse_all-bytes_of_all ts suffix short r =
    parse_loop-bytes_of_all ts (suc (length (bytes_of_all ts ++ suffix))) 0 suffix [] short r
      (omega arith)

-- `parse_all` returns `ts` exactly when the input is the encoding of `ts`, each value of at most
-- 253 bytes, followed by a suffix of at most two bytes, where the last attribute has a value or a
-- suffix behind it.
pub parse_all_exact :
    (input : List ℕ) (ts : List Tlv) → Bytes input → (parse_all input ≡ ok ts) ↔ Parsed input ts
parse_all_exact input ts bytes = (
  parse_all_sound input ts bytes,
  λ p. rw p.shape (parse_all-bytes_of_all ts p.suffix p.short p.readable),
)

length-bytes_of_all : (ts : List Tlv) → length (bytes_of_all ts) ≡ parsed_len ts
length-bytes_of_all [] = refl
length-bytes_of_all (t ∷ ts) =
    omega (arith, length-append t.value (bytes_of_all ts), length-bytes_of_all ts)

parse_complete_parts :
    (input : List ℕ) (ts : List Tlv)
    → parse_complete input ≡ ok ts
    → (parse_all input ≡ ok ts) × (parsed_len ts ≡ length input)
unfolding parse_complete
parse_complete_parts input ts e =
    let (found, all, rest) = >>=-eq-ok (parse_all input) _ e in
    let (u, checked, same) =
      >>=-eq-ok
        (bail (parsed_len found != length input) (invalid_tlv (parsed_len found) trailing_bytes)) _
        rest in
    let found_is_ts : found ≡ ts = ok-injective same in (all ∙ ap ok found_is_ts, ground arith)

parse_complete_whole :
    (input : List ℕ) (ts : List Tlv)
    → parse_all input ≡ ok ts
    → parsed_len ts ≡ length input
    → parse_complete input ≡ ok ts
unfolding parse_complete
parse_complete_whole input ts e h = rw (e, h) (ground arith)

no_suffix : (suffix : List ℕ) → length suffix ≡ 0 → suffix ≡ []
no_suffix [] h = refl
no_suffix (b ∷ bs) h = absurd (omega arith)

-- `parse_complete` returns `ts` exactly when the input is the encoding of `ts`, each value of at
-- most 253 bytes and the last one not empty.
pub parse_complete_exact :
    (input : List ℕ) (ts : List Tlv)
    → Bytes input
    → (parse_complete input ≡ ok ts) ↔ ((input ≡ bytes_of_all ts) × All Fits ts × Readable ts 0)
parse_complete_exact input ts bytes = (sound, complete)
  where
    sound : parse_complete input ≡ ok ts → (input ≡ bytes_of_all ts) × All Fits ts × Readable ts 0
    sound e =
        let (all, size) = parse_complete_parts input ts e in
        let p = parse_all_sound input ts bytes all in
        let empty : p.suffix ≡ [] = no_suffix p.suffix (
          omega (
            arith,
            size,
            ap length p.shape,
            length-append (bytes_of_all ts) p.suffix,
            length-bytes_of_all ts,
          )) in
        (
          p.shape ∙ ap (◌++◌ (bytes_of_all ts)) empty ∙ append-nil (bytes_of_all ts),
          p.fits,
          subst (λ l. Readable ts (length l)) empty p.readable,
        )

    complete :
        (input ≡ bytes_of_all ts) × All Fits ts × Readable ts 0 → parse_complete input ≡ ok ts
    complete (shape, fits, readable) =
        let whole = parse_all-bytes_of_all ts [] (omega arith) readable in
        let exact = shape ∙ sym (append-nil (bytes_of_all ts)) in
        parse_complete_whole input ts (ap parse_all exact ∙ whole)
          (omega (arith, ap length shape, length-bytes_of_all ts))

-- A value that `Tlv::encode` takes.
abbrev pub Short : Tlv → Type 0
Short t = length t.value ≤ 253

Short-encode : (t : Tlv) (out : List ℕ) → Short t → encode t out ≡ ok (out ++ bytes_of t)
unfolding encode
Short-encode t out h = rw (le→ltb 255 (length t.value + 2) (omega arith))

encode-Short : (t : Tlv) (out r : List ℕ) → encode t out ≡ ok r → Short t × (r ≡ out ++ bytes_of t)
unfolding encode
encode-Short t out r e = ground arith

-- `encode_all` appends the encodings in order and succeeds exactly when every value has at most
-- 253 bytes.
pub encode_all_exact :
    (ts : List Tlv) (out r : List ℕ)
    → (encode_all ts out ≡ ok r) ↔ ((r ≡ out ++ bytes_of_all ts) × All Short ts)
unfolding encode_all
encode_all_exact [] out r = (
  λ e. (sym (ok-injective e) ∙ sym (append-nil out), tt),
  λ h. ap ok (sym (append-nil out) ∙ sym h.0),
)
encode_all_exact (t ∷ ts) out r = (
  λ e.
      let (mid, one, more) = >>=-eq-ok (encode t out) (encode_all ts) e in
      let (short, shape) = encode-Short t out mid one in
      let (rest, shorts) = (encode_all_exact ts mid r).0 more in
      (
        rest
            ∙ ap (λ (l : List ℕ). l ++ bytes_of_all ts) shape
            ∙ append_assoc out (bytes_of t) (bytes_of_all ts),
        (short, shorts),
      ),
  λ h. rw (Short-encode t out h.1.0) (
      (encode_all_exact ts (out ++ bytes_of t) r).1
        (h.0 ∙ sym (append_assoc out (bytes_of t) (bytes_of_all ts)), h.1.1)),
)
