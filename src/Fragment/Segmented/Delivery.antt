-- ===== src/Fragment/Segmented/Delivery.antt =====
-- src/fragment.rs: the packets that the segment-routing reassembler returns.
use openiwan.Prelude.{
  ℕ, ◌+◌, ◌≤◌, leb, ◌==◌, true, false, ◌≡◌, refl, ap, sym, ◌∙◌, ◌⊎◌, inl, inr, Bool-cases,
  Option-cases, subst, none, some, List, [], ◌∷◌, ◌++◌, length, length-append, append-nil,
  append_assoc, any, arith,
}
use Prim.Native.Nat.{max}
use openiwan.Error.{ok}
use openiwan.Fragment.Codec.{Fragment, end_offset}
use openiwan.Fragment.Segmented.{
  Group, Reassembler, find, remove_group, purge_expired, same_offset, overlaps, insert_sorted, scan,
  assemble, Outcome, finish, complete, grown, stored, add_to, new_group, insert_checked, insert,
}
use openiwan.Fragment.Segmented.Groups.{
  Layout, Inv, payload_bytes, insert_sorted-Layout, purge-Inv, found-GroupOk,
}

abbrev pub payloads : List Fragment → List ℕ
payloads [] = []
payloads (part ∷ parts) = part.payload ++ payloads parts

-- From offset `low` to `total` without a gap, the end mark on the last part and on no other.
abbrev pub Gapless : ℕ → List Fragment → ℕ → Type 0
Gapless low [] total = ⊥
Gapless low (part ∷ []) total =
    (part.offset ≡ low) × (part.end_of_packet ≡ true) × (low + length part.payload ≡ total)
Gapless low (part ∷ next ∷ parts) total =
    (part.offset ≡ low)
    × (part.end_of_packet ≡ false)
    × Gapless (low + length part.payload) (next ∷ parts) total

scan_step :
    (low : ℕ) (part : Fragment) (parts : List Fragment) (total : ℕ)
    → scan low (part ∷ parts) ≡ ok (some total)
    → (part.offset ≡ low)
      × (((part.end_of_packet ≡ true) × (low + length part.payload ≡ total))
          ⊎ ((part.end_of_packet ≡ false)
              × (scan (low + length part.payload) parts ≡ ok (some total))))
unfolding scan end_offset
scan_step low part parts total e = ground arith

no_end : (low : ℕ) {total : ℕ} → scan low [] ≡ ok (some total) → ⊥
unfolding scan
no_end low e = cc

scan-Gapless :
    (low : ℕ) (parts : List Fragment) (total from : ℕ)
    → Layout from parts
    → any (λ part. leb total part.offset) parts ≡ false
    → scan low parts ≡ ok (some total)
    → Gapless low parts total
scan-Gapless low [] total from l a e = absurd (no_end low e)
scan-Gapless low (part ∷ []) total from l a e =
    let (here, how) = scan_step low part [] total e in
    elim how [
      | inl (mark, end) ↦ (here, mark, end)
      | inr (mark, more) ↦ absurd (no_end (low + length part.payload) more)
    ]
scan-Gapless low (part ∷ next ∷ parts) total from l a e =
    let (here, how) = scan_step low part (next ∷ parts) total e in
    elim how [
      | inl (mark, end) ↦ absurd (ground arith)
      | inr (mark, more) ↦ (
        here,
        mark,
        scan-Gapless (low + length part.payload) (next ∷ parts) total
            (max (part.offset + length part.payload) (part.offset + 1)) l.2 (ground arith) more,
      )
    ]

Gapless-bytes :
    (low : ℕ) (parts : List Fragment) (total : ℕ)
    → Gapless low parts total
    → low + payload_bytes parts ≡ total
Gapless-bytes low [] total g = absurd g
Gapless-bytes low (part ∷ []) total g = omega arith
Gapless-bytes low (part ∷ next ∷ parts) total g =
    omega (arith, Gapless-bytes (low + length part.payload) (next ∷ parts) total g.2)

length-payloads : (parts : List Fragment) → length (payloads parts) ≡ payload_bytes parts
length-payloads [] = refl
length-payloads (part ∷ parts) =
    omega (arith, length-append part.payload (payloads parts), length-payloads parts)

empty : (xs : List ℕ) → length xs ≡ 0 → xs ≡ []
empty [] h = refl
empty (x ∷ xs) h = absurd (omega arith)

assemble-payloads :
    (total : ℕ) (packet : List ℕ) (parts : List Fragment)
    → length packet + payload_bytes parts ≡ total
    → assemble total packet parts ≡ packet ++ payloads parts
unfolding assemble
assemble-payloads total packet [] h = sym (append-nil packet)
assemble-payloads total packet (part ∷ parts) h = elim (Bool-cases (length packet == total)) [
  | inl full ↦ rw full (
      sym (
        ap (◌++◌ packet) (
          empty (payloads (part ∷ parts))
            (omega (arith, length-payloads (part ∷ parts), full_length full)))
        ∙ append-nil packet))
  | inr more ↦ rw more (
      assemble-payloads total (packet ++ part.payload) parts
        (omega (arith, length-append packet part.payload))
      ∙ append_assoc packet part.payload (payloads parts))
]
  where
    full_length : (length packet == total) ≡ true → length packet ≡ total
    full_length e = ground arith

finish_packet :
    (i : ℕ) (g : Group) (total : ℕ) (s : Reassembler) (packet : List ℕ)
    → (finish i g total s).1 ≡ ok (some packet)
    → (any (λ part. leb total part.offset) g.parts ≡ false)
      × (packet ≡ assemble total [] g.parts)
      × (length packet ≡ total)
      × ((finish i g total s).0 ≡ remove_group i s)
unfolding finish
finish_packet i g total s packet e = ground arith

complete_packet :
    (i : ℕ) (g : Group) (s : Reassembler) (packet : List ℕ)
    → (complete i g s).1 ≡ ok (some packet)
    → (total : ℕ) × (scan 0 g.parts ≡ ok (some total)) × (complete i g s ≡ finish i g total s)
unfolding complete
complete_packet i g s packet e = ground arith

-- The group that the fragment joins.
abbrev pub Joins : Fragment → ℕ → Reassembler → Group → Type 0
Joins f now s g =
    (find f.id s.groups ≡ some g) ⊎ ((find f.id s.groups ≡ none) × (g ≡ new_group f.id now))

packet_new :
    (f : Fragment) (now : ℕ) (s : Reassembler) (packet : List ℕ)
    → find f.id s.groups ≡ none
    → (insert_checked f now s).1 ≡ ok (some packet)
    → insert_checked f now s
      ≡ complete f.id (grown (new_group f.id now) f) (stored s (new_group f.id now) f)
unfolding insert_checked add_to
packet_new f now s packet absent = rw (absent, insert_checked) (λ e. ground arith)

packet_found :
    (f : Fragment) (now : ℕ) (s : Reassembler) (packet : List ℕ) (g : Group)
    → find f.id s.groups ≡ some g
    → (insert_checked f now s).1 ≡ ok (some packet)
    → (any (same_offset f) g.parts ≡ false)
      × (any (overlaps f) g.parts ≡ false)
      × (insert_checked f now s ≡ complete f.id (grown g f) (stored s g f))
unfolding insert_checked add_to
packet_found f now s packet g found = rw (found, insert_checked) (λ e. ground arith)

insert_checked_packet :
    (f : Fragment) (now : ℕ) (s : Reassembler) (packet : List ℕ)
    → (insert_checked f now s).1 ≡ ok (some packet)
    → (g : Group) × Joins f now s g
      × (any (same_offset f) g.parts ≡ false)
      × (any (overlaps f) g.parts ≡ false)
      × (insert_checked f now s ≡ complete f.id (grown g f) (stored s g f))
insert_checked_packet f now s packet e = elim (Option-cases (find f.id s.groups)) [
  | inl absent ↦
      (new_group f.id now, inr (absent, refl), refl, refl, packet_new f now s packet absent e)
  | inr (g, found) ↦
      let (differ, apart, step) = packet_found f now s packet g found e in
      (g, inl found, differ, apart, step)
]

insert_packet :
    (f : Fragment) (now : ℕ) (s : Reassembler) (packet : List ℕ)
    → (insert f now s).1 ≡ ok (some packet)
    → (f.offset + length f.payload ≤ 8192)
      × (insert f now s ≡ insert_checked f now (purge_expired now s))
unfolding insert end_offset
insert_packet f now s packet e = ground arith

Joins-Layout :
    (f : Fragment) (now : ℕ) (s : Reassembler) (g : Group)
    → Inv s
    → Joins f now s g
    → Layout 0 g.parts
Joins-Layout f now s g v (inl found) = (found-GroupOk f.id s.groups g found v.groups_ok).layout
Joins-Layout f now s g v (inr (absent, new)) = subst (λ (x : Group). Layout 0 x.parts) (sym new) tt

-- From a state that keeps the invariant, a packet that `insert` returns is the concatenation of
-- the payloads of the parts of its group, the new fragment among them, sorted by offset: they run
-- from 0 to the packet's length without a gap or an overlap, and the end mark stands on the last
-- part alone. The group is gone afterwards. The parts are those pending after the purge of expired
-- groups.
pub insert-delivers :
    (f : Fragment) (now : ℕ) (s : Reassembler) (packet : List ℕ)
    → Inv s
    → (insert f now s).1 ≡ ok (some packet)
    → (g : Group) × Joins f now (purge_expired now s) g
      × Gapless 0 (insert_sorted f g.parts) (length packet)
      × (packet ≡ payloads (insert_sorted f g.parts))
      × ((insert f now s).0 ≡ remove_group f.id (stored (purge_expired now s) g f))
insert-delivers f now s packet v e =
    let (fits, step) = insert_packet f now s packet e in
    let p = purge_expired now s in
    let e' = ap (λ (o : Outcome). o.1) (sym step) ∙ e in
    let (g, joins, differ, apart, stored_step) = insert_checked_packet f now p packet e' in
    let whole = step ∙ stored_step in
    let (total, found, last) =
      complete_packet f.id (grown g f) (stored p g f) packet
        (ap (λ (o : Outcome). o.1) (sym stored_step) ∙ e') in
    let (none_after, made, size, gone) =
      finish_packet f.id (grown g f) total (stored p g f) packet
        (ap (λ (o : Outcome). o.1) (sym last ∙ sym whole) ∙ e) in
    let layout =
      insert_sorted-Layout f 0 g.parts fits (omega arith) apart differ
        (Joins-Layout f now p g (purge-Inv now s v) joins) in
    let run = scan-Gapless 0 (insert_sorted f g.parts) total 0 layout none_after found in
    (
      g,
      joins,
      subst (λ (n : ℕ). Gapless 0 (insert_sorted f g.parts) n) (sym size) run,
      made
          ∙ assemble-payloads total [] (insert_sorted f g.parts)
              (Gapless-bytes 0 (insert_sorted f g.parts) total run),
      ap (λ (o : Outcome). o.0) (whole ∙ last) ∙ gone,
    )
