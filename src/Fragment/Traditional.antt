-- ===== src/Fragment/Traditional.antt =====
-- src/fragment.rs: `TraditionalFragmentReassembler`. An `Instant` is a number of nanoseconds. The
-- hash map is a list of entries whose order stands for the map's iteration order, which only the
-- choice among equally old entries depends on.
pub mod Invariant
pub mod Pairing
use openiwan.Prelude.{
  ℕ, ◌+◌, ◌-◌, ltb, leb, ◌==◌, ◌&&◌, if◌then◌else◌, Bool, true, false, Option, none, some, List, [],
  ◌∷◌, ◌++◌, length,
}
use openiwan.Error.{Result, ok, err, fragment_too_large}
use openiwan.Fragment.Codec.{Fragment, max_reassembled_packet}

-- 100 ms
abbrev pub traditional_timeout : ℕ
traditional_timeout = 100_000_000

abbrev pub traditional_max_groups : ℕ
traditional_max_groups = 256

-- A key `(context, fragment.id)` with its `TraditionalPending`.
pub record Pending : Type 0 where
  pub context : ℕ
  pub created : ℕ
  pub fragment : Fragment

abbrev pub has_key : ℕ → ℕ → Pending → Bool
has_key context id e = e.context == context && e.fragment.id == id

unfoldable pub find : ℕ → ℕ → List Pending → Option Pending
find context id [] = none
find context id (e ∷ groups) = if has_key context id e then some e else find context id groups

unfoldable pub remove : ℕ → ℕ → List Pending → List Pending
remove context id [] = []
remove context id (e ∷ groups) =
    if has_key context id e then groups else e ∷ remove context id groups

-- `now.checked_duration_since(created).is_none_or(|age| age <= TIMEOUT)`
abbrev pub is_fresh : ℕ → Pending → Bool
is_fresh now e = if ltb now e.created then true else leb (now - e.created) traditional_timeout

unfoldable pub purge_expired : ℕ → List Pending → List Pending
purge_expired now [] = []
purge_expired now (e ∷ groups) =
    if is_fresh now e then e ∷ purge_expired now groups else purge_expired now groups

-- `iter().min_by_key(created)`: the first of the oldest entries.
unfoldable pub oldest_from : Pending → List Pending → Pending
oldest_from best [] = best
oldest_from best (e ∷ groups) = oldest_from (if ltb e.created best.created then e else best) groups

unfoldable pub evict_oldest : List Pending → List Pending
unfolding oldest_from
evict_oldest [] = []
evict_oldest (e ∷ groups) =
    let oldest = oldest_from e groups in remove oldest.context oldest.fragment.id (e ∷ groups)

-- Both `end_of_packet` marks equal.
abbrev pub same_mark : Bool → Bool → Bool
same_mark true b = b
same_mark false true = false
same_mark false false = true

-- The payloads in order: the fragment with the end mark is the suffix.
unfoldable pub join : Fragment → Fragment → List ℕ
join first second =
    if first.end_of_packet then second.payload ++ first.payload else first.payload ++ second.payload

-- The map after the call, and its result.
abbrev pub Outcome : Type 0
Outcome = List Pending × Result (Option (List ℕ))

unfoldable pub meet : List Pending → Pending → Fragment → Outcome
meet groups arrived first =
    if same_mark first.end_of_packet arrived.fragment.end_of_packet
    then (arrived ∷ groups, ok none)
    else if ltb max_reassembled_packet (length (join first arrived.fragment))
    then (groups, err fragment_too_large)
    else (groups, ok (some (join first arrived.fragment)))

unfoldable pub wait : List Pending → Pending → Outcome
wait groups arrived =
    if leb traditional_max_groups (length groups)
    then (arrived ∷ evict_oldest groups, ok none)
    else (arrived ∷ groups, ok none)

unfoldable pub insert_in_context : ℕ → Fragment → ℕ → List Pending → Outcome
insert_in_context context fragment now groups =
    let kept = purge_expired now groups in
    let arrived : Pending = record { context = context; created = now; fragment = fragment } in
    if ltb max_reassembled_packet (length fragment.payload)
    then (kept, err fragment_too_large)
    else elim (find context fragment.id kept) [
      | some first ↦ meet (remove context fragment.id kept) arrived first.fragment
      | none ↦ wait kept arrived
    ]

unfoldable pub insert : Fragment → ℕ → List Pending → Outcome
unfolding insert_in_context
insert fragment now groups = insert_in_context 0 fragment now groups
