-- ===== src/Fragment/Traditional/Pairing.antt =====
-- src/fragment.rs: two fragments of one packet in the traditional reassembler.
use openiwan.Prelude.{
  ℕ, ◌+◌, ◌≤◌, leb, if◌then◌else◌, not, ◌≡◌, ap, ◌∙◌, inl, inr, Bool-cases, none, some, List, ◌∷◌,
  ◌++◌, length, length-append, arith,
}
use openiwan.Error.{ok}
use openiwan.Fragment.Codec.{Fragment}
use openiwan.Fragment.Traditional.{
  Pending, find, remove, purge_expired, evict_oldest, meet, wait, join, Outcome, insert_in_context,
}

abbrev pending : ℕ → ℕ → Fragment → Pending
pending context t f = record { context = context; created = t; fragment = f }

wait_shape :
    (groups : List Pending) (a : Pending)
    → (others : List Pending) × (wait groups a ≡ (a ∷ others, ok none))
unfolding wait
wait_shape groups a = elim (Bool-cases (leb 256 (length groups))) [
  | inl full ↦ (evict_oldest groups, rw full)
  | inr free ↦ (groups, rw free)
]

-- A fragment with no partner waits at the front.
first_waits :
    (context t : ℕ) (f : Fragment) (groups : List Pending)
    → length f.payload ≤ 8192
    → find context f.id (purge_expired t groups) ≡ none
    → (others : List Pending) × (insert_in_context context f t groups
        ≡ (pending context t f ∷ others, ok none))
unfolding insert_in_context
first_waits context t f groups small absent =
    let (others, shape) = wait_shape (purge_expired t groups) (pending context t f) in
    (others, second shape)
  where
    second :
        {o : Outcome}
        → wait (purge_expired t groups) (pending context t f) ≡ o
        → insert_in_context context f t groups ≡ o
    second e = rw absent (ground arith)

partner_found :
    (context t now : ℕ) (f g : Fragment) (others : List Pending)
    → g.id ≡ f.id
    → now ≤ t + 100_000_000
    → (find context g.id (purge_expired now (pending context t f ∷ others))
        ≡ some (pending context t f))
      × (remove context g.id (purge_expired now (pending context t f ∷ others))
          ≡ purge_expired now others)
unfolding find remove purge_expired
partner_found context t now f g others same soon = ground arith

length-join : (f g : Fragment) → length (join f g) ≡ length f.payload + length g.payload
unfolding join
length-join f g =
    ground (arith, length-append f.payload g.payload, length-append g.payload f.payload)

meet_joins :
    (groups : List Pending) (a : Pending) (first : Fragment)
    → a.fragment.end_of_packet ≡ not first.end_of_packet
    → length (join first a.fragment) ≤ 8192
    → (meet groups a first).1 ≡ ok (some (join first a.fragment))
unfolding meet
meet_joins groups a first other small = ground arith

insert_meets :
    (context now : ℕ) (g : Fragment) (groups : List Pending) (first : Pending)
    → length g.payload ≤ 8192
    → find context g.id (purge_expired now groups) ≡ some first
    → insert_in_context context g now groups
      ≡ meet (remove context g.id (purge_expired now groups)) (pending context now g) first.fragment
unfolding insert_in_context
insert_meets context now g groups first small found = rw found (ground arith)

-- Two fragments of one context and identifier, one with the end mark and one without, that arrive
-- within 100 ms in either order: the first call waits and the second returns the payload of the
-- unmarked fragment followed by that of the marked one. At the first call no partner was pending,
-- and the two payloads have at most 8192 bytes together.
pub insert_in_context-pairs :
    (context t now : ℕ) (f g : Fragment) (groups : List Pending)
    → find context f.id (purge_expired t groups) ≡ none
    → g.id ≡ f.id
    → g.end_of_packet ≡ not f.end_of_packet
    → length f.payload + length g.payload ≤ 8192
    → now ≤ t + 100_000_000
    → ((insert_in_context context f t groups).1 ≡ ok none)
      × ((insert_in_context context g now (insert_in_context context f t groups).0).1
          ≡ ok (some (if f.end_of_packet then g.payload ++ f.payload else f.payload ++ g.payload)))
unfolding join
insert_in_context-pairs context t now f g groups absent same other small soon =
    let (others, shape) = first_waits context t f groups (omega (arith, small)) absent in
    let (found, rest) = partner_found context t now f g others same soon in
    (
      ap (λ (o : Outcome). o.1) shape,
      ap (λ (o : Outcome). (insert_in_context context g now o.0).1) shape
          ∙ second others found rest,
    )
  where
    second :
        (others : List Pending)
        → find context g.id (purge_expired now (pending context t f ∷ others))
          ≡ some (pending context t f)
        → remove context g.id (purge_expired now (pending context t f ∷ others))
          ≡ purge_expired now others
        → (insert_in_context context g now (pending context t f ∷ others)).1 ≡ ok (some (join f g))
    second others found rest =
        ap (λ (o : Outcome). o.1)
          (insert_meets context now g (pending context t f ∷ others) (pending context t f)
            (omega (arith, small)) found)
        ∙ meet_joins _ (pending context now g) f other (omega (arith, small, length-join f g))
