-- ===== src/Dns/Names.antt =====
-- src/dns/policy.rs: names and their normal form. Text is the list of its Unicode scalar values.
-- `len` counts UTF-8 bytes, which differ in number only for a character that no label may hold.
use openiwan.Prelude.{
  ℕ, ◌+◌, ◌-◌, ltb, leb, ◌==◌, ◌&&◌, ◌||◌, not, if◌then◌else◌, Bool, true, false, String, Option,
  none, some, List, [], ◌∷◌, map, length, take, drop, any,
}
use openiwan.Error.{Result, bail, config_fault, invalid_name}
use openiwan.Protocol.Packet.{bytes_eq}

abbrev pub dot : ℕ
dot = 46

-- `char::is_whitespace`
abbrev pub is_whitespace : ℕ → Bool
is_whitespace c =
    leb 9 c && leb c 13
    || c == 0x20
    || c == 0x85
    || c == 0xa0
    || c == 0x1680
    || leb 0x2000 c && leb c 0x200a
    || c == 0x2028
    || c == 0x2029
    || c == 0x202f
    || c == 0x205f
    || c == 0x3000

-- `trim_start_matches` and `trim_end_matches`.
unfoldable pub trim_start : (ℕ → Bool) → List ℕ → List ℕ
trim_start cut [] = []
trim_start cut (c ∷ cs) = if cut c then trim_start cut cs else c ∷ cs

abbrev pub is_empty {ℓ} : {A : Type ℓ} → List A → Bool
is_empty [] = true
is_empty (_ ∷ _) = false

unfoldable pub trim_end : (ℕ → Bool) → List ℕ → List ℕ
trim_end cut [] = []
trim_end cut (c ∷ cs) =
    let rest = trim_end cut cs in if cut c && is_empty rest then [] else c ∷ rest

abbrev pub is_dot : ℕ → Bool
is_dot c = c == dot

abbrev pub to_ascii_lowercase : ℕ → ℕ
to_ascii_lowercase c = if leb 65 c && leb c 90 then c + 32 else c

unfoldable pub normalize_name : List ℕ → List ℕ
unfolding trim_start trim_end
normalize_name value =
    map to_ascii_lowercase
      (trim_end is_dot (trim_end is_whitespace (trim_start is_whitespace value)))

-- `split('.')`
unfoldable pub split_dots : List ℕ → List (List ℕ)
split_dots [] = [] ∷ []
split_dots (c ∷ cs) =
    if is_dot c
    then [] ∷ split_dots cs
    else elim (split_dots cs) [ [] ↦ (c ∷ []) ∷ [] | label ∷ labels ↦ (c ∷ label) ∷ labels ]

abbrev pub is_label_char : ℕ → Bool
is_label_char c =
    leb 48 c && leb c 57 || leb 65 c && leb c 90 || leb 97 c && leb c 122 || c == 45 || c == 95

unfoldable pub bad_label : List ℕ → Bool
bad_label label = is_empty label || ltb 63 (length label) || any (λ c. not (is_label_char c)) label

unfoldable pub starts_with_dot : List ℕ → Bool
starts_with_dot [] = false
starts_with_dot (c ∷ _) = is_dot c

unfoldable pub ends_with_dot : List ℕ → Bool
ends_with_dot [] = false
ends_with_dot (c ∷ []) = is_dot c
ends_with_dot (_ ∷ (d ∷ cs)) = ends_with_dot (d ∷ cs)

unfoldable pub validate_name : List ℕ → String → Result (Unit {0})
unfolding split_dots bad_label starts_with_dot ends_with_dot
validate_name value label =
    bail
      (is_empty value
        || ltb 253 (length value)
        || starts_with_dot value
        || ends_with_dot value
        || any bad_label (split_dots value))
      (config_fault (invalid_name label value))

-- `str::ends_with` and `str::strip_suffix`.
unfoldable pub ends_with : List ℕ → List ℕ → Bool
ends_with text suffix =
    leb (length suffix) (length text) && bytes_eq (drop (length text - length suffix) text) suffix

unfoldable pub strip_suffix : List ℕ → List ℕ → Option (List ℕ)
unfolding ends_with
strip_suffix text suffix =
    if ends_with text suffix then some (take (length text - length suffix) text) else none
