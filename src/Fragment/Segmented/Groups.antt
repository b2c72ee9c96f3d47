-- ===== src/Fragment/Segmented/Groups.antt =====
-- src/fragment.rs: the invariant of the segment-routing reassembler, and the removal of groups.
use openiwan.Prelude.{
  ℕ, ◌+◌, ◌-◌, ◌≤◌, ltb, ◌==◌, false, ◌≡◌, refl, sym, inl, inr, Bool-cases, Option-cases, subst,
  none, some, List, [], ◌∷◌, length, All, any, arith,
}
use Prim.Native.Nat.{max}
use openiwan.Fragment.Codec.{Fragment}
use openiwan.Fragment.Segmented.{
  Group, Reassembler, find, remove, remove_group, expired_ids, remove_all, purge_expired,
  same_offset, overlaps, insert_sorted,
}

abbrev pub payload_bytes : List Fragment → ℕ
payload_bytes [] = 0
payload_bytes (part ∷ parts) = length part.payload + payload_bytes parts

abbrev pub group_bytes : List Group → ℕ
group_bytes [] = 0
group_bytes (g ∷ groups) = g.buffered_bytes + group_bytes groups

-- Parts from offset `low` on: each ends before the next begins, and at most at 8192.
abbrev pub Layout : ℕ → List Fragment → Type 0
Layout low [] = Unit {0}
Layout low (part ∷ parts) =
    (low ≤ part.offset)
    × (part.offset + length part.payload ≤ 8192)
    × Layout (max (part.offset + length part.payload) (part.offset + 1)) parts

pub record GroupOk (g : Group) : Type 0 where
  pub counted : g.buffered_bytes ≡ payload_bytes g.parts
  pub layout : Layout 0 g.parts

abbrev pub Unique : List Group → Type 0
Unique [] = Unit {0}
Unique (g ∷ groups) = (find g.id groups ≡ none) × Unique groups

pub record Inv (s : Reassembler) : Type 0 where
  pub few : length s.groups ≤ 16
  pub counted : s.buffered_bytes ≡ group_bytes s.groups
  pub limited : s.buffered_bytes ≤ 262144
  pub groups_ok : All GroupOk s.groups
  pub unique : Unique s.groups

pub insert_sorted-Layout :
    (f : Fragment) (low : ℕ) (parts : List Fragment)
    → f.offset + length f.payload ≤ 8192
    → low ≤ f.offset
    → any (overlaps f) parts ≡ false
    → any (same_offset f) parts ≡ false
    → Layout low parts
    → Layout low (insert_sorted f parts)
unfolding insert_sorted
insert_sorted-Layout f low [] fits above apart differ l = (above, fits, tt)
insert_sorted-Layout f low (part ∷ parts) fits above apart differ l =
    elim (Bool-cases (ltb f.offset part.offset)) [
      | inl before ↦ rw before (above, fits, (ground arith, l.1, l.2))
      | inr after ↦ rw after (
        l.0,
        l.1,
        insert_sorted-Layout f (max (part.offset + length part.payload) (part.offset + 1)) parts
            fits (ground arith) (ground arith) (ground arith) l.2,
      )
    ]

pub insert_sorted-bytes :
    (f : Fragment) (parts : List Fragment)
    → payload_bytes (insert_sorted f parts) ≡ length f.payload + payload_bytes parts
unfolding insert_sorted
insert_sorted-bytes f [] = refl
insert_sorted-bytes f (part ∷ parts) = ground (arith, insert_sorted-bytes f parts)

find-remove-none :
    (i j : ℕ) (groups : List Group) → find i groups ≡ none → find i (remove j groups) ≡ none
unfolding find remove
find-remove-none i j [] h = refl
find-remove-none i j (g ∷ groups) h = ground (arith, find-remove-none i j groups)

pub find-remove_self :
    (i : ℕ) (groups : List Group) → Unique groups → find i (remove i groups) ≡ none
unfolding find remove
find-remove_self i [] u = refl
find-remove_self i (g ∷ groups) u = ground (arith, find-remove_self i groups u.1)

pub remove-Unique : (i : ℕ) (groups : List Group) → Unique groups → Unique (remove i groups)
unfolding remove
remove-Unique i [] u = tt
remove-Unique i (g ∷ groups) u =
    ground (arith, remove-Unique i groups u.1, find-remove-none g.id i groups u.0)

pub remove-GroupOk :
    (i : ℕ) (groups : List Group) → All GroupOk groups → All GroupOk (remove i groups)
unfolding remove
remove-GroupOk i [] h = tt
remove-GroupOk i (g ∷ groups) h = elim (Bool-cases (g.id == i)) [
  | inl hit ↦ rw hit h.1
  | inr miss ↦ rw miss (h.0, remove-GroupOk i groups h.1)
]

-- A group that is found counts once, and has the identifier that was looked for.
pub remove_found :
    (i : ℕ) (groups : List Group) (g : Group)
    → find i groups ≡ some g
    → (group_bytes (remove i groups) + g.buffered_bytes ≡ group_bytes groups)
      × (length (remove i groups) + 1 ≡ length groups)
      × (g.id ≡ i)
unfolding find remove
remove_found i [] g h = cc
remove_found i (x ∷ groups) g h = ground (arith, remove_found i groups g)

pub remove_absent : (i : ℕ) (groups : List Group) → find i groups ≡ none → remove i groups ≡ groups
unfolding find remove
remove_absent i [] h = refl
remove_absent i (x ∷ groups) h = ground (arith, remove_absent i groups)

pub found-GroupOk :
    (i : ℕ) (groups : List Group) (g : Group)
    → find i groups ≡ some g
    → All GroupOk groups
    → GroupOk g
unfolding find
found-GroupOk i [] g h k = cc
found-GroupOk i (x ∷ groups) g h k = elim (Bool-cases (x.id == i)) [
  | inl hit ↦ let same : x ≡ g = ground arith in subst GroupOk same k.0
  | inr miss ↦ found-GroupOk i groups g (ground arith) k.1
]

remove_group-none : (i : ℕ) (s : Reassembler) → find i s.groups ≡ none → remove_group i s ≡ s
unfolding remove_group
remove_group-none i s e = rw (e, remove_group)

remove_group-some :
    (i : ℕ) (s : Reassembler) (g : Group)
    → find i s.groups ≡ some g
    → remove_group i s
      ≡ record { groups = remove i s.groups; buffered_bytes = s.buffered_bytes - g.buffered_bytes }
unfolding remove_group
remove_group-some i s g e = rw (e, remove_group)

pub remove_group-Inv : (i : ℕ) (s : Reassembler) → Inv s → Inv (remove_group i s)
remove_group-Inv i s v = elim (Option-cases (find i s.groups)) [
  | inl e ↦ subst Inv (sym (remove_group-none i s e)) v
  | inr (g, e) ↦ subst Inv (sym (remove_group-some i s g e)) (record {
    few = omega (arith, v.few, remove_found i s.groups g e);
    counted = omega (arith, v.counted, remove_found i s.groups g e);
    limited = omega (arith, v.limited);
    groups_ok = remove-GroupOk i s.groups v.groups_ok;
    unique = remove-Unique i s.groups v.unique;
  })
]

remove_all-Inv : (ids : List ℕ) (s : Reassembler) → Inv s → Inv (remove_all ids s)
unfolding remove_all
remove_all-Inv [] s v = v
remove_all-Inv (i ∷ ids) s v = remove_all-Inv ids (remove_group i s) (remove_group-Inv i s v)

pub purge-Inv : (now : ℕ) (s : Reassembler) → Inv s → Inv (purge_expired now s)
unfolding purge_expired
purge-Inv now s v = remove_all-Inv (expired_ids now s.groups) s v
