-- ===== src/Fragment/Traditional/Invariant.antt =====
-- src/fragment.rs: the invariant of the traditional reassembler.
use openiwan.Prelude.{
  ℕ, ◌+◌, ◌≤◌, ltb, leb, true, false, ◌≡◌, refl, sym, ◌⊎◌, inl, inr, Bool-cases, Option-cases,
  subst, none, some, List, [], ◌∷◌, length, All, arith,
}
use openiwan.Error.{ok}
use openiwan.Fragment.Codec.{Fragment}
use openiwan.Fragment.Traditional.{
  Pending, find, remove, purge_expired, oldest_from, evict_oldest, meet, wait, insert_in_context,
}

abbrev pub Unique : List Pending → Type 0
Unique [] = Unit {0}
Unique (e ∷ groups) = (find e.context e.fragment.id groups ≡ none) × Unique groups

abbrev pub Small : Pending → Type 0
Small e = length e.fragment.payload ≤ 8192

pub record Inv (groups : List Pending) : Type 0 where
  pub bounded : length groups ≤ 256
  pub unique : Unique groups
  pub small : All Small groups

find-remove-none :
    (c i c' i' : ℕ) (groups : List Pending)
    → find c i groups ≡ none
    → find c i (remove c' i' groups) ≡ none
unfolding find remove
find-remove-none c i c' i' [] h = refl
find-remove-none c i c' i' (e ∷ groups) h = ground (arith, find-remove-none c i c' i' groups)

find-purge_none :
    (c i now : ℕ) (groups : List Pending)
    → find c i groups ≡ none
    → find c i (purge_expired now groups) ≡ none
unfolding find purge_expired
find-purge_none c i now [] h = refl
find-purge_none c i now (e ∷ groups) h = ground (arith, find-purge_none c i now groups)

remove-Unique : (c i : ℕ) (groups : List Pending) → Unique groups → Unique (remove c i groups)
unfolding remove
remove-Unique c i [] u = tt
remove-Unique c i (e ∷ groups) u =
    ground
      (arith, remove-Unique c i groups u.1, find-remove-none e.context e.fragment.id c i groups u.0)

purge-Unique : (now : ℕ) (groups : List Pending) → Unique groups → Unique (purge_expired now groups)
unfolding purge_expired
purge-Unique now [] u = tt
purge-Unique now (e ∷ groups) u =
    ground
      (arith, purge-Unique now groups u.1, find-purge_none e.context e.fragment.id now groups u.0)

-- After a removal the key is gone.
pub find-remove_self :
    (c i : ℕ) (groups : List Pending) → Unique groups → find c i (remove c i groups) ≡ none
unfolding find remove
find-remove_self c i [] u = refl
find-remove_self c i (e ∷ groups) u = ground (arith, find-remove_self c i groups u.1)

length-remove-le : (c i : ℕ) (groups : List Pending) → length (remove c i groups) ≤ length groups
unfolding remove
length-remove-le c i [] = omega arith
length-remove-le c i (e ∷ groups) = ground (arith, length-remove-le c i groups)

length-remove_found :
    (c i : ℕ) (groups : List Pending) (e : Pending)
    → find c i groups ≡ some e
    → length (remove c i groups) + 1 ≡ length groups
unfolding find remove
length-remove_found c i [] e h = cc
length-remove_found c i (x ∷ groups) e h = ground (arith, length-remove_found c i groups e)

length-purge-le :
    (now : ℕ) (groups : List Pending) → length (purge_expired now groups) ≤ length groups
unfolding purge_expired
length-purge-le now [] = omega arith
length-purge-le now (e ∷ groups) = ground (arith, length-purge-le now groups)

remove-Small : (c i : ℕ) (groups : List Pending) → All Small groups → All Small (remove c i groups)
unfolding remove
remove-Small c i [] h = tt
remove-Small c i (e ∷ groups) h = ground (arith, remove-Small c i groups h.1)

purge-Small :
    (now : ℕ) (groups : List Pending) → All Small groups → All Small (purge_expired now groups)
unfolding purge_expired
purge-Small now [] h = tt
purge-Small now (e ∷ groups) h = ground (arith, purge-Small now groups h.1)

abbrev pub In : Pending → List Pending → Type 0
In o [] = ⊥
In o (e ∷ groups) = (o ≡ e) ⊎ In o groups

-- One round of the scan.
older :
    (best x : Pending) (groups : List Pending)
    → ltb x.created best.created ≡ true
    → oldest_from best (x ∷ groups) ≡ oldest_from x groups
unfolding oldest_from
older best x groups e = rw e

not_older :
    (best x : Pending) (groups : List Pending)
    → ltb x.created best.created ≡ false
    → oldest_from best (x ∷ groups) ≡ oldest_from best groups
unfolding oldest_from
not_older best x groups e = rw e

-- The oldest entry is one of the list, and none is older.
oldest-In :
    (best : Pending) (groups : List Pending)
    → (oldest_from best groups ≡ best) ⊎ In (oldest_from best groups) groups
oldest-In best [] = inl (unfold oldest_from in refl)
oldest-In best (x ∷ groups) = elim (Bool-cases (ltb x.created best.created)) [
  | inl e ↦
      subst (λ o. (o ≡ best) ⊎ In o (x ∷ groups)) (sym (older best x groups e))
        (inr (oldest-In x groups))
  | inr e ↦
      subst (λ o. (o ≡ best) ⊎ In o (x ∷ groups)) (sym (not_older best x groups e))
        (elim (oldest-In best groups) [ inl same ↦ inl same | inr m ↦ inr (inr m) ])
]

oldest_least :
    (best : Pending) (groups : List Pending)
    → ((oldest_from best groups).created ≤ best.created)
      × All (λ e. (oldest_from best groups).created ≤ e.created) groups
oldest_least best [] = (unfold oldest_from in omega arith, tt)
oldest_least best (x ∷ groups) = elim (Bool-cases (ltb x.created best.created)) [
  | inl e ↦
      let (low, rest) = oldest_least x groups in
      subst (Least (x ∷ groups)) (sym (older best x groups e)) (ground arith, (low, rest))
  | inr e ↦
      let (low, rest) = oldest_least best groups in
      subst (Least (x ∷ groups)) (sym (not_older best x groups e)) (low, (ground arith, rest))
]
  where
    Least : List Pending → Pending → Type 0
    Least gs o = (o.created ≤ best.created) × All (λ e. o.created ≤ e.created) gs

length-remove-In :
    (o : Pending) (groups : List Pending)
    → In o groups
    → length (remove o.context o.fragment.id groups) + 1 ≡ length groups
unfolding remove
length-remove-In o [] m = absurd m
length-remove-In o (e ∷ groups) (inl same) = ground arith
length-remove-In o (e ∷ groups) (inr m) = ground (arith, length-remove-In o groups m)

-- With an entry to evict, one of the oldest entries goes and no other.
pub evict_oldest_lem :
    (e : Pending) (groups : List Pending)
    → (o : Pending) × In o (e ∷ groups)
      × All (λ x. o.created ≤ x.created) (e ∷ groups)
      × (evict_oldest (e ∷ groups) ≡ remove o.context o.fragment.id (e ∷ groups))
      × (length (evict_oldest (e ∷ groups)) ≡ length groups)
unfolding evict_oldest
evict_oldest_lem e groups =
    let o = oldest_from e groups in
    let m : In o (e ∷ groups) = oldest-In e groups in
    (o, m, oldest_least e groups, refl, omega (arith, length-remove-In o (e ∷ groups) m))

evict-Inv :
    (groups : List Pending)
    → Inv groups
    → Unique (evict_oldest groups)
      × All Small (evict_oldest groups)
      × (256 ≤ length groups → length (evict_oldest groups) ≤ 255)
      × ((c i : ℕ) → find c i groups ≡ none → find c i (evict_oldest groups) ≡ none)
unfolding evict_oldest
evict-Inv [] v = (tt, tt, λ h. absurd (omega arith), λ c i h. h)
evict-Inv (e ∷ groups) v =
    let o = oldest_from e groups in
    (
      remove-Unique o.context o.fragment.id (e ∷ groups) v.unique,
      remove-Small o.context o.fragment.id (e ∷ groups) v.small,
      λ h. omega (arith, v.bounded, length-remove-In o (e ∷ groups) (oldest-In e groups)),
      λ c i h. find-remove-none c i o.context o.fragment.id (e ∷ groups) h,
    )

purge-Inv : (now : ℕ) (groups : List Pending) → Inv groups → Inv (purge_expired now groups)
purge-Inv now groups v = record {
  bounded = omega (arith, v.bounded, length-purge-le now groups);
  unique = purge-Unique now groups v.unique;
  small = purge-Small now groups v.small;
}

wait-Inv :
    (groups : List Pending) (a : Pending)
    → Inv groups
    → find a.context a.fragment.id groups ≡ none
    → Small a
    → Inv (wait groups a).0
unfolding wait
wait-Inv groups a v absent small = elim (Bool-cases (leb 256 (length groups))) [
  | inl full ↦
      let (unique, smalls, room, gone) = evict-Inv groups v in
      rw full (record {
        bounded = omega (arith, room (ground arith));
        unique = (gone a.context a.fragment.id absent, unique);
        small = (small, smalls);
      })
  | inr free ↦
      rw free
        (record { bounded = ground arith; unique = (absent, v.unique); small = (small, v.small) })
]

meet-Inv :
    (groups : List Pending) (a : Pending) (first : Fragment)
    → Inv groups
    → length groups ≤ 255
    → find a.context a.fragment.id groups ≡ none
    → Small a
    → Inv (meet groups a first).0
unfolding meet
meet-Inv groups a first v room absent small = ground arith

wait_returns :
    (groups : List Pending) (a : Pending) (packet : List ℕ)
    → (wait groups a).1 ≡ ok (some packet)
    → length packet ≤ 8192
unfolding wait
wait_returns groups a packet e = ground arith

meet_returns :
    (groups : List Pending) (a : Pending) (first : Fragment) (packet : List ℕ)
    → (meet groups a first).1 ≡ ok (some packet)
    → length packet ≤ 8192
unfolding meet
meet_returns groups a first packet e = ground arith

insert_in_context_lem :
    (context : ℕ) (fragment : Fragment) (now : ℕ) (groups : List Pending)
    → Inv groups
    → Inv (insert_in_context context fragment now groups).0
      × ((packet : List ℕ)
          → (insert_in_context context fragment now groups).1 ≡ ok (some packet)
          → length packet ≤ 8192)
unfolding insert_in_context
insert_in_context_lem context fragment now groups v =
    let kept = purge_expired now groups in
    let kept_v = purge-Inv now groups v in
    let a : Pending = record { context = context; created = now; fragment = fragment } in
    elim (Bool-cases (ltb 8192 (length fragment.payload))) [
      | inl long ↦ rw long (kept_v, λ packet e. cc)
      | inr short ↦ elim (Option-cases (find context fragment.id kept)) [
        | inl absent ↦
            rw (short, absent) (wait-Inv kept a kept_v absent (ground arith), wait_returns kept a)
        | inr (first, found) ↦
            let rest = remove context fragment.id kept in
            let rest_v : Inv rest = record {
              bounded = omega (arith, kept_v.bounded, length-remove-le context fragment.id kept);
              unique = remove-Unique context fragment.id kept kept_v.unique;
              small = remove-Small context fragment.id kept kept_v.small;
            } in
            rw (short, found)
              (
                meet-Inv rest a first.fragment rest_v
                    (omega (
                      arith,
                      kept_v.bounded,
                      length-remove_found context fragment.id kept first found,
                    ))
                    (find-remove_self context fragment.id kept kept_v.unique) (ground arith),
                meet_returns rest a first.fragment,
              )
      ]
    ]

-- Every call from a state that keeps the invariant, whatever its outcome, leaves one that keeps
-- it: at most 256 pending fragments, no two of one key, each of at most 8192 bytes.
pub insert_in_context-Inv :
    (context : ℕ) (fragment : Fragment) (now : ℕ) (groups : List Pending)
    → Inv groups
    → Inv (insert_in_context context fragment now groups).0
insert_in_context-Inv context fragment now groups v =
    (insert_in_context_lem context fragment now groups v).0

-- From a state that keeps the invariant, a packet that a call returns has at most 8192 bytes.
pub insert_in_context_bounded :
    (context : ℕ) (fragment : Fragment) (now : ℕ) (groups : List Pending) (packet : List ℕ)
    → Inv groups
    → (insert_in_context context fragment now groups).1 ≡ ok (some packet)
    → length packet ≤ 8192
insert_in_context_bounded context fragment now groups packet v e =
    (insert_in_context_lem context fragment now groups v).1 packet e
