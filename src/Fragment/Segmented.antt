-- ===== src/Fragment/Segmented.antt =====
-- src/fragment.rs: `SrFragmentReassembler`, bounded and offset-aware. An `Instant` is a number of
-- nanoseconds; the hash map is a list of entries.
pub mod Groups
pub mod Invariant
pub mod Delivery
use openiwan.Prelude.{
  ℕ, ◌+◌, ◌-◌, ◌≤◌, ltb, leb, ◌==◌, ◌!=◌, ◌&&◌, ◌||◌, if◌then◌else◌, Bool, true, false, Option,
  none, some, List, [], ◌∷◌, ◌++◌, length, any, not,
}
use openiwan.Error.{Result, ok, err, stuck, ◌>>=◌, fragment_too_large, invalid_fragment}
use openiwan.Fragment.Codec.{Fragment, end_offset, max_reassembled_packet}

-- 2 s
abbrev pub sr_timeout : ℕ
sr_timeout = 2_000_000_000

abbrev pub sr_max_groups : ℕ
sr_max_groups = 16

abbrev pub sr_max_buffered_bytes : ℕ
sr_max_buffered_bytes = 262_144

-- A key of the map with its `SrFragmentGroup`.
pub record Group : Type 0 where
  pub id : ℕ
  pub created : ℕ
  pub parts : List Fragment
  pub buffered_bytes : ℕ

pub record Reassembler : Type 0 where
  pub groups : List Group
  pub buffered_bytes : ℕ

unfoldable pub find : ℕ → List Group → Option Group
find id [] = none
find id (g ∷ groups) = if g.id == id then some g else find id groups

unfoldable pub remove : ℕ → List Group → List Group
remove id [] = []
remove id (g ∷ groups) = if g.id == id then groups else g ∷ remove id groups

-- `if let Some(group) = self.groups.remove(&id) { self.buffered_bytes -= group.buffered_bytes }`
unfoldable pub remove_group : ℕ → Reassembler → Reassembler
remove_group id s = elim (find id s.groups) [
  | none ↦ s
  | some g ↦ record {
    groups = remove id s.groups;
    buffered_bytes = s.buffered_bytes - g.buffered_bytes;
  }
]

unfoldable pub clear : Reassembler → Reassembler
clear s = record { groups = []; buffered_bytes = 0 }

-- `now.checked_duration_since(created).is_some_and(|age| age > TIMEOUT)`
abbrev pub is_expired : ℕ → Group → Bool
is_expired now g = if ltb now g.created then false else ltb sr_timeout (now - g.created)

-- The identifiers are collected first, then removed one by one.
unfoldable pub expired_ids : ℕ → List Group → List ℕ
expired_ids now [] = []
expired_ids now (g ∷ groups) =
    if is_expired now g then g.id ∷ expired_ids now groups else expired_ids now groups

unfoldable pub remove_all : List ℕ → Reassembler → Reassembler
remove_all [] s = s
remove_all (id ∷ ids) s = remove_all ids (remove_group id s)

unfoldable pub purge_expired : ℕ → Reassembler → Reassembler
purge_expired now s = remove_all (expired_ids now s.groups) s

-- The new fragment meets an earlier part.
abbrev pub same_offset : Fragment → Fragment → Bool
same_offset f part = part.offset == f.offset

abbrev pub overlaps : Fragment → Fragment → Bool
overlaps f part =
    ltb f.offset (part.offset + length part.payload)
    && ltb part.offset (f.offset + length f.payload)

-- `parts.push(fragment); parts.sort_unstable_by_key(offset)`: the parts are sorted already and no
-- two offsets are equal, so this is an insertion.
unfoldable pub insert_sorted : Fragment → List Fragment → List Fragment
insert_sorted f [] = f ∷ []
insert_sorted f (part ∷ parts) =
    if ltb f.offset part.offset then f ∷ part ∷ parts else part ∷ insert_sorted f parts

-- The scan for a gapless run that ends in an end mark: `none` where the source returns
-- `Ok(None)` or leaves the loop with no length.
unfoldable pub scan : ℕ → List Fragment → Result (Option ℕ)
scan expected_offset [] = ok none
scan expected_offset (part ∷ parts) =
    let more : Result (Option ℕ) = (do
      end ← end_offset part
      if part.end_of_packet then ok (some end) else scan end parts) in
    if part.offset != expected_offset then ok none else more

-- `for part in group.parts { if packet.len() == total_length { break; } packet.extend(..) }`
unfoldable pub assemble : ℕ → List ℕ → List Fragment → List ℕ
assemble total_length packet [] = packet
assemble total_length packet (part ∷ parts) =
    let more = assemble total_length (packet ++ part.payload) parts in
    if length packet == total_length then packet else more

abbrev pub Outcome : Type 0
Outcome = Reassembler × Result (Option (List ℕ))

-- From the point where the length is known; `s` holds the group.
unfoldable pub finish : ℕ → Group → ℕ → Reassembler → Outcome
unfolding assemble remove_group
finish id g total_length s =
    if any (λ part. leb total_length part.offset) g.parts
    then (remove_group id s, err (invalid_fragment "data follows the EOP fragment"))
    else let packet = assemble total_length [] g.parts in
      if length packet != total_length
      then (remove_group id s, err (invalid_fragment "fragment coverage changed"))
      else (remove_group id s, ok (some packet))

-- From the point where the fragment is stored.
unfoldable pub complete : ℕ → Group → Reassembler → Outcome
complete id g s = elim (scan 0 g.parts) [
  | ok none ↦ (s, ok none)
  | ok (some total_length) ↦ finish id g total_length s
  | err e ↦ (s, err e)
  | stuck ↦ (s, stuck)
]

-- The group with the fragment added, and the state that holds it.
abbrev pub grown : Group → Fragment → Group
grown g f = record g {
  parts = insert_sorted f g.parts;
  buffered_bytes = g.buffered_bytes + length f.payload;
}

abbrev pub stored : Reassembler → Group → Fragment → Reassembler
stored s g f = record {
  groups = grown g f ∷ remove f.id s.groups;
  buffered_bytes = s.buffered_bytes + length f.payload;
}

-- `entry(id).or_insert_with(..)`, the overlap check and the rest.
unfoldable pub add_to : Reassembler → Group → Fragment → Outcome
add_to s g f =
    if any (overlaps f) g.parts
    then (remove_group f.id s, err (invalid_fragment "overlapping fragment offsets"))
    else complete f.id (grown g f) (stored s g f)

abbrev pub new_group : ℕ → ℕ → Group
new_group id now = record { id = id; created = now; parts = []; buffered_bytes = 0 }

unfoldable pub insert_checked : Fragment → ℕ → Reassembler → Outcome
insert_checked f now s = elim (find f.id s.groups) [
  | some g ↦
      if any (same_offset f) g.parts
      then (s, ok none)
      else if ltb sr_max_buffered_bytes (s.buffered_bytes + length f.payload)
      then (s, err fragment_too_large)
      else add_to s g f
  | none ↦
      if leb sr_max_groups (length s.groups)
      then (s, err fragment_too_large)
      else if ltb sr_max_buffered_bytes (s.buffered_bytes + length f.payload)
      then (s, err fragment_too_large)
      else add_to s (new_group f.id now) f
]

unfoldable pub insert : Fragment → ℕ → Reassembler → Outcome
insert f now s =
    let purged = purge_expired now s in
    elim (end_offset f) [
      | ok end ↦
          if ltb max_reassembled_packet end
          then (purged, err fragment_too_large)
          else insert_checked f now purged
      | err e ↦ (purged, err e)
      | stuck ↦ (purged, stuck)
    ]
