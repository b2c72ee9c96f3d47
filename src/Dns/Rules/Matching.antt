-- ===== src/Dns/Rules/Matching.antt =====
-- src/dns/policy.rs: which names a domain rule matches.
use openiwan.Prelude.{
  ℕ, ◌-◌, ◌≤◌, ◌≡◌, ◌↔◌, inl, inr, refl, sym, ap, ap₂, ◌∙◌, leb, ◌||◌, true, false, Bool-cases,
  none, some, List, [], ◌∷◌, ◌++◌, length, take, drop, length-append, take-append, drop-append,
  take-append-drop, append_assoc, arith,
}
use openiwan.Protocol.Packet.{bytes_eq}
use openiwan.Protocol.Packet.Framing.{bytes_eq_iff}
use openiwan.Dns.Names.{
  dot, is_dot, normalize_name, ends_with, ends_with_dot, strip_suffix, split_dots,
}
use openiwan.Dns.Rules.{DomainRuleKind, DomainRule, dotted, matches_kind, matches}

ends_with_iff :
    (text tail : List ℕ)
    → (ends_with text tail ≡ true) ↔ ((front : List ℕ) × (text ≡ front ++ tail))
unfolding ends_with
ends_with_iff text tail = (
  λ e.
      let fits : length tail ≤ length text = ground arith in
      let same : drop (length text - length tail) text ≡ tail =
        (bytes_eq_iff _ tail).0 (ground arith) in
      (
        take (length text - length tail) text,
        sym (
            ap (◌++◌ (take (length text - length tail) text)) (sym same)
            ∙ take-append-drop (length text - length tail) text),
      ),
  λ (front, shape).
      let size : length text - length tail ≡ length front =
        omega (arith, ap length shape, length-append front tail) in
      let rest : drop (length text - length tail) text ≡ tail =
        ap₂ drop size shape ∙ drop-append (length front) front tail refl in
      let fits : leb (length tail) (length text) ≡ true =
        ground (arith, ap length shape, length-append front tail) in
      rw (fits, (bytes_eq_iff (drop (length text - length tail) text) tail).1 rest),
)

strip_front : (front tail : List ℕ) → strip_suffix (front ++ tail) tail ≡ some front
unfolding strip_suffix
strip_front front tail =
    let found = (ends_with_iff (front ++ tail) tail).1 (front, refl) in
    let size : length (front ++ tail) - length tail ≡ length front =
      omega (arith, length-append front tail) in
    let cut : take (length (front ++ tail) - length tail) (front ++ tail) ≡ front =
      ap (λ (n : ℕ). take n (front ++ tail)) size ∙ take-append (length front) front tail refl in
    rw (found, cut)

strip_none : (text tail : List ℕ) → ends_with text tail ≡ false → strip_suffix text tail ≡ none
unfolding strip_suffix
strip_none text tail e = rw e

ends_with_dot_iff :
    (cs : List ℕ) → (ends_with_dot cs ≡ true) ↔ ((front : List ℕ) × (cs ≡ front ++ (dot ∷ [])))
unfolding ends_with_dot
ends_with_dot_iff [] = (λ e. cc, last_absent)
  where
    last_absent : ((front : List ℕ) × ([] ≡ front ++ (dot ∷ []))) → false ≡ true
    last_absent ([], e) = cc
    last_absent (x ∷ front, e) = cc
ends_with_dot_iff (c ∷ []) = (λ e. ([], ground arith), alone)
  where
    alone : ((front : List ℕ) × ((c ∷ []) ≡ front ++ (dot ∷ []))) → is_dot c ≡ true
    alone ([], e) = let same : c ≡ dot = cc in rw same
    alone (x ∷ [], e) = cc
    alone (x ∷ (y ∷ front), e) = cc
ends_with_dot_iff (c ∷ (d ∷ cs)) =
    let (forth, back) = ends_with_dot_iff (d ∷ cs) in
    (λ e. let (front, shape) = forth e in (c ∷ front, ap (◌∷◌ c) shape), more back)
  where
    more :
        (((front : List ℕ) × ((d ∷ cs) ≡ front ++ (dot ∷ []))) → ends_with_dot (d ∷ cs) ≡ true)
        → ((front : List ℕ) × ((c ∷ (d ∷ cs)) ≡ front ++ (dot ∷ [])))
        → ends_with_dot (d ∷ cs) ≡ true
    more back ([], e) = cc
    more back (x ∷ front, e) = back (front, cc)

dotted_iff :
    (text tail : List ℕ)
    → (dotted (strip_suffix text tail) ≡ true) ↔ ((front : List ℕ) × (text ≡ front ++ (dot ∷ tail)))
dotted_iff text tail = (
  λ e. elim (Bool-cases (ends_with text tail)) [
    | inl found ↦
        let (front, shape) = (ends_with_iff text tail).0 found in
        let stripped = ap (λ (t : List ℕ). strip_suffix t tail) shape ∙ strip_front front tail in
        let (inner, point) = (ends_with_dot_iff front).0 (ap dotted (sym stripped) ∙ e) in
        (inner, shape ∙ ap (λ (l : List ℕ). l ++ tail) point ∙ append_assoc inner (dot ∷ []) tail)
    | inr absent ↦
        let clash : false ≡ true = ap dotted (sym (strip_none text tail absent)) ∙ e in cc
  ],
  λ (front, shape).
      let whole = shape ∙ sym (append_assoc front (dot ∷ []) tail) in
      ap (λ (t : List ℕ). dotted (strip_suffix t tail)) whole
      ∙ ap dotted (strip_front (front ++ (dot ∷ [])) tail)
      ∙ (ends_with_dot_iff (front ++ (dot ∷ []))).1 (front, refl),
)

-- The labels joined again.
join_dots : List (List ℕ) → List ℕ
join_dots [] = []
join_dots (label ∷ []) = label
join_dots (label ∷ (next ∷ labels)) = label ++ (dot ∷ join_dots (next ∷ labels))

split_cons :
    (cs : List ℕ) → (label : List ℕ) × (labels : List (List ℕ)) × (split_dots cs ≡ label ∷ labels)
unfolding split_dots
split_cons [] = ([], [], refl)
split_cons (c ∷ cs) =
    let (label, labels, shape) = split_cons cs in
    elim (Bool-cases (is_dot c)) [
      | inl here ↦ ([], split_dots cs, rw here)
      | inr other ↦ (c ∷ label, labels, rw (other, shape))
    ]

join_head :
    (c : ℕ) (label : List ℕ) (labels : List (List ℕ))
    → join_dots ((c ∷ label) ∷ labels) ≡ c ∷ join_dots (label ∷ labels)
unfolding join_dots
join_head c label [] = refl
join_head c label (next ∷ labels) = refl

join-split : (cs : List ℕ) → join_dots (split_dots cs) ≡ cs
unfolding join_dots split_dots
join-split [] = refl
join-split (c ∷ cs) =
    let (label, labels, shape) = split_cons cs in
    let back = ap join_dots (sym shape) ∙ join-split cs in
    elim (Bool-cases (is_dot c)) [
      | inl here ↦ let point : c ≡ dot = ground arith in rw (here, shape) (ap₂ ◌∷◌ (sym point) back)
      | inr other ↦ rw (other, shape) (join_head c label labels ∙ ap (◌∷◌ c) back)
    ]

split-append :
    (front rest : List ℕ) → split_dots (front ++ (dot ∷ rest)) ≡ split_dots front ++ split_dots rest
unfolding split_dots
split-append [] rest = refl
split-append (c ∷ front) rest =
    let (label, labels, shape) = split_cons front in
    let both : split_dots (front ++ (dot ∷ rest)) ≡ label ∷ (labels ++ split_dots rest) =
      split-append front rest ∙ ap (λ (l : List (List ℕ)). l ++ split_dots rest) shape in
    elim (Bool-cases (is_dot c)) [
      | inl here ↦ rw (here, both, shape)
      | inr other ↦ rw (other, both, shape)
    ]

join-append :
    (label : List ℕ) (labels : List (List ℕ)) (next : List ℕ) (more : List (List ℕ))
    → join_dots ((label ∷ labels) ++ (next ∷ more))
      ≡ join_dots (label ∷ labels) ++ (dot ∷ join_dots (next ∷ more))
unfolding join_dots
join-append label [] next more = refl
join-append label (l ∷ labels) next more =
    ap (λ (l : List ℕ). label ++ (dot ∷ l)) (join-append l labels next more)
    ∙ sym (append_assoc label (dot ∷ join_dots (l ∷ labels)) (dot ∷ join_dots (next ∷ more)))

-- What a rule of each kind matches: a name that ends in the rule's, a name whose last labels are the
-- labels of the rule's, that name alone.
abbrev pub Matched : DomainRuleKind → List ℕ → List ℕ → Type 0
Matched DomainRuleKind.suffix name candidate = (front : List ℕ) × (candidate ≡ front ++ name)
Matched DomainRuleKind.domain name candidate =
    (front : List (List ℕ)) × (split_dots candidate ≡ front ++ split_dots name)
Matched DomainRuleKind.exact name candidate = candidate ≡ name

labels_match :
    (name candidate : List ℕ)
    → (matches_kind DomainRuleKind.domain name candidate ≡ true)
      ↔ Matched DomainRuleKind.domain name candidate
unfolding matches_kind
labels_match name candidate = (
  λ e. elim (Bool-cases (bytes_eq candidate name)) [
    | inl same ↦ ([], ap split_dots ((bytes_eq_iff candidate name).0 same))
    | inr differ ↦
        let (front, shape) = (dotted_iff candidate name).0 (rw differ at e) in
        (split_dots front, ap split_dots shape ∙ split-append front name)
  ],
  λ (front, shape). from_labels front shape,
)
  where
    from_labels :
        (front : List (List ℕ))
        → split_dots candidate ≡ front ++ split_dots name
        → (bytes_eq candidate name || dotted (strip_suffix candidate name)) ≡ true
    from_labels [] shape =
        let same = sym (join-split candidate) ∙ ap join_dots shape ∙ join-split name in
        rw ((bytes_eq_iff candidate name).1 same)
    from_labels (label ∷ labels) shape =
        let (next, more, parts) = split_cons name in
        let whole : candidate ≡ join_dots (label ∷ labels) ++ (dot ∷ name) =
          sym (join-split candidate)
          ∙ ap join_dots (shape ∙ ap (λ (l : List (List ℕ)). (label ∷ labels) ++ l) parts)
          ∙ join-append label labels next more
          ∙ ap (λ (l : List ℕ). join_dots (label ∷ labels) ++ (dot ∷ l))
              (ap join_dots (sym parts) ∙ join-split name) in
        let found = (dotted_iff candidate name).1 (join_dots (label ∷ labels), whole) in
        elim (Bool-cases (bytes_eq candidate name)) [
          | inl same ↦ rw same
          | inr differ ↦ rw (differ, found)
        ]

kinds_match :
    (k : DomainRuleKind) (name candidate : List ℕ)
    → (matches_kind k name candidate ≡ true) ↔ Matched k name candidate
unfolding matches_kind
kinds_match DomainRuleKind.suffix name candidate = ends_with_iff candidate name
kinds_match DomainRuleKind.domain name candidate = labels_match name candidate
kinds_match DomainRuleKind.exact name candidate = bytes_eq_iff candidate name

-- A rule matches a name, in its normal form, exactly as its kind says: a suffix rule a name that ends
-- in the rule's; a domain rule a name whose last labels are the labels of the rule's name, so that
-- `notexample.com` is no match for `example.com`; an exact rule that name alone.
pub matches_exact :
    (rule : DomainRule) (candidate : List ℕ)
    → (matches rule candidate ≡ true) ↔ Matched rule.kind rule.domain (normalize_name candidate)
unfolding matches
matches_exact rule candidate = kinds_match rule.kind rule.domain (normalize_name candidate)
