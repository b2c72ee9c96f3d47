-- ===== src/Fragment/Segmented/Invariant.antt =====
-- src/fragment.rs: the invariant through `SrFragmentReassembler::insert`.
use openiwan.Prelude.{
  ℕ, ◌+◌, ◌≤◌, false, ◌≡◌, refl, ap, sym, ◌∙◌, ◌⊎◌, inl, inr, Bool-cases, Option-cases, subst, none,
  some, length, any, arith,
}
use openiwan.Fragment.Codec.{Fragment, end_offset}
use openiwan.Fragment.Segmented.{
  Group, Reassembler, find, remove, remove_group, purge_expired, same_offset, overlaps, finish,
  complete, grown, stored, add_to, new_group, insert_checked, insert,
}
use openiwan.Fragment.Segmented.Groups.{
  group_bytes, GroupOk, Inv, insert_sorted-Layout, insert_sorted-bytes, find-remove_self,
  remove-Unique, remove-GroupOk, remove_found, remove_absent, found-GroupOk, remove_group-Inv,
  purge-Inv,
}

grown-GroupOk :
    (g : Group) (f : Fragment)
    → GroupOk g
    → f.offset + length f.payload ≤ 8192
    → any (overlaps f) g.parts ≡ false
    → any (same_offset f) g.parts ≡ false
    → GroupOk (grown g f)
grown-GroupOk g f k fits apart differ = record {
  counted = omega (arith, k.counted, insert_sorted-bytes f g.parts);
  layout = insert_sorted-Layout f 0 g.parts fits (omega arith) apart differ k.layout;
}

-- A group that may be stored for the identifier of `f`: the one of the map, or a new one.
record Storable (s : Reassembler) (g : Group) (f : Fragment) : Type 0 where
  named : g.id ≡ f.id
  shared : group_bytes (remove f.id s.groups) + g.buffered_bytes ≡ group_bytes s.groups
  room : length (remove f.id s.groups) ≤ 15
  good : GroupOk g
  differ : any (same_offset f) g.parts ≡ false
  fits : f.offset + length f.payload ≤ 8192
  within : s.buffered_bytes + length f.payload ≤ 262144

stored-Inv :
    (s : Reassembler) (g : Group) (f : Fragment)
    → Inv s
    → Storable s g f
    → any (overlaps f) g.parts ≡ false
    → Inv (stored s g f)
stored-Inv s g f v t apart = record {
  few = omega (arith, t.room);
  counted = omega (arith, t.shared, v.counted);
  limited = omega (arith, t.within);
  groups_ok =
      (grown-GroupOk g f t.good t.fits apart t.differ, remove-GroupOk f.id s.groups v.groups_ok);
  unique = (
    ap (λ (i : ℕ). find i (remove f.id s.groups)) t.named ∙ find-remove_self f.id s.groups v.unique,
    remove-Unique f.id s.groups v.unique,
  );
}

complete_state :
    (i : ℕ) (g : Group) (s : Reassembler)
    → ((complete i g s).0 ≡ s) ⊎ ((complete i g s).0 ≡ remove_group i s)
unfolding complete finish
complete_state i g s = ground arith

complete-Inv : (i : ℕ) (g : Group) (s : Reassembler) → Inv s → Inv (complete i g s).0
complete-Inv i g s v = elim (complete_state i g s) [
  | inl e ↦ subst Inv (sym e) v
  | inr e ↦ subst Inv (sym e) (remove_group-Inv i s v)
]

add_to-Inv :
    (s : Reassembler) (g : Group) (f : Fragment) → Inv s → Storable s g f → Inv (add_to s g f).0
unfolding add_to
add_to-Inv s g f v t = elim (Bool-cases (any (overlaps f) g.parts)) [
  | inl e ↦ rw e (remove_group-Inv f.id s v)
  | inr e ↦ rw e (complete-Inv f.id (grown g f) (stored s g f) (stored-Inv s g f v t e))
]

pub insert_checked_found :
    (f : Fragment) (now : ℕ) (s : Reassembler) (g : Group)
    → find f.id s.groups ≡ some g
    → ((insert_checked f now s).0 ≡ s)
      ⊎ ((insert_checked f now s ≡ add_to s g f)
          × (any (same_offset f) g.parts ≡ false)
          × (s.buffered_bytes + length f.payload ≤ 262144))
unfolding insert_checked
insert_checked_found f now s g e = rw (e, insert_checked) (ground arith)

pub insert_checked_absent :
    (f : Fragment) (now : ℕ) (s : Reassembler)
    → find f.id s.groups ≡ none
    → ((insert_checked f now s).0 ≡ s)
      ⊎ ((insert_checked f now s ≡ add_to s (new_group f.id now) f)
          × (length s.groups ≤ 15)
          × (s.buffered_bytes + length f.payload ≤ 262144))
unfolding insert_checked
insert_checked_absent f now s e = rw (e, insert_checked) (ground arith)

insert_checked-Inv :
    (f : Fragment) (now : ℕ) (s : Reassembler)
    → f.offset + length f.payload ≤ 8192
    → Inv s
    → Inv (insert_checked f now s).0
insert_checked-Inv f now s fits v = elim (Option-cases (find f.id s.groups)) [
  | inl e ↦ elim (insert_checked_absent f now s e) [
    | inl same ↦ subst Inv (sym same) v
    | inr (step, room, within) ↦
        let gone = remove_absent f.id s.groups e in
        subst (λ o. Inv o.0) (sym step)
          (add_to-Inv s (new_group f.id now) f v (record {
            named = refl;
            shared = omega (arith, ap group_bytes gone);
            room = omega (arith, ap length gone, room);
            good = record { counted = refl; layout = tt };
            differ = refl;
            fits = fits;
            within = within;
          }))
  ]
  | inr (g, e) ↦ elim (insert_checked_found f now s g e) [
    | inl same ↦ subst Inv (sym same) v
    | inr (step, differ, within) ↦
        let counts = remove_found f.id s.groups g e in
        subst (λ o. Inv o.0) (sym step)
          (add_to-Inv s g f v (record {
            named = counts.2;
            shared = counts.0;
            room = omega (arith, counts, v.few);
            good = found-GroupOk f.id s.groups g e v.groups_ok;
            differ = differ;
            fits = fits;
            within = within;
          }))
  ]
]

pub insert_cases :
    (f : Fragment) (now : ℕ) (s : Reassembler)
    → ((insert f now s).0 ≡ purge_expired now s)
      ⊎ ((insert f now s ≡ insert_checked f now (purge_expired now s))
          × (f.offset + length f.payload ≤ 8192))
unfolding insert end_offset
insert_cases f now s = ground arith

-- Every call from a state that keeps the invariant, whatever its outcome, leaves one that keeps
-- it: at most 16 groups with different identifiers, both byte counts equal to the bytes of the
-- parts and at most 262144, and the parts sorted, disjoint and within 8192 bytes.
pub insert-Inv : (f : Fragment) (now : ℕ) (s : Reassembler) → Inv s → Inv (insert f now s).0
insert-Inv f now s v =
    let w = purge-Inv now s v in
    elim (insert_cases f now s) [
      | inl e ↦ subst Inv (sym e) w
      | inr (e, fits) ↦
          subst (λ o. Inv o.0) (sym e) (insert_checked-Inv f now (purge_expired now s) fits w)
    ]
