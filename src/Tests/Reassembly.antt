-- ===== src/Tests/Reassembly.antt =====
-- Runs of the two reassemblers of src/fragment.rs.
use openiwan.Prelude.{◌≡◌, refl, true, false, none, some, List, [], ◌∷◌, arith}
use openiwan.Error.{ok}
use openiwan.Fragment.Codec.{Fragment, end_offset}
use openiwan.Fragment.Segmented.{
  Group, Reassembler, purge_expired, insert_sorted, stored, remove_group,
}
use openiwan.Fragment.Segmented
use openiwan.Fragment.Segmented.Groups
use openiwan.Fragment.Segmented.Invariant.{insert-Inv}
use openiwan.Fragment.Segmented.Delivery.{payloads, Gapless, Joins, insert-delivers}
use openiwan.Fragment.Traditional.{Pending, insert_in_context, evict_oldest}
use openiwan.Fragment.Traditional
use openiwan.Fragment.Traditional.Invariant as TraditionalInvariant
use openiwan.Fragment.Traditional.Invariant.{
  insert_in_context-Inv, insert_in_context_bounded, evict_oldest_lem, In,
}
use openiwan.Fragment.Traditional.Pairing.{insert_in_context-pairs}

abbrev head : Fragment
head = record { id = 7; end_of_packet = false; from_in = false; offset = 0; payload = 1 ∷ 2 ∷ [] }

abbrev tail : Fragment
tail = record { id = 7; end_of_packet = true; from_in = false; offset = 2; payload = 3 ∷ [] }

abbrev half : Reassembler
half = record {
  groups = record { id = 7; created = 5; parts = head ∷ []; buffered_bytes = 2 } ∷ [];
  buffered_bytes = 2;
}

half-Inv : Groups.Inv half
unfolding Segmented.find
half-Inv = record {
  few = omega arith;
  counted = refl;
  limited = omega arith;
  groups_ok = (record { counted = refl; layout = (omega arith, omega arith, tt) }, tt);
  unique = (refl, tt);
}

insert-delivers_example :
    (g : Group) × Joins tail 9 (purge_expired 9 half) g
    × Gapless 0 (insert_sorted tail g.parts) 3
    × ((1 ∷ 2 ∷ 3 ∷ []) ≡ payloads (insert_sorted tail g.parts))
    × ((Segmented.insert tail 9 half).0 ≡ remove_group 7 (stored (purge_expired 9 half) g tail))
unfolding Segmented.insert purge_expired Segmented.expired_ids Segmented.remove_all
    Segmented.insert_checked Segmented.find Segmented.add_to Segmented.complete Segmented.scan
    Segmented.finish Segmented.assemble Segmented.remove_group Segmented.remove insert_sorted
    end_offset
insert-delivers_example = insert-delivers tail 9 half (1 ∷ 2 ∷ 3 ∷ []) half-Inv refl

insert-Inv_example : Groups.Inv (Segmented.insert tail 9 half).0
insert-Inv_example = insert-Inv tail 9 half half-Inv

insert_in_context-pairs_example :
    ((insert_in_context 1 tail 10 []).1 ≡ ok none)
    × ((insert_in_context 1 head 20 (insert_in_context 1 tail 10 []).0).1
        ≡ ok (some (1 ∷ 2 ∷ 3 ∷ [])))
unfolding Traditional.find Traditional.purge_expired
insert_in_context-pairs_example =
    insert_in_context-pairs 1 10 20 tail head [] refl refl refl (omega arith) (omega arith)

abbrev waiting : List Pending
waiting = record { context = 1; created = 10; fragment = tail } ∷ []

waiting-Inv : TraditionalInvariant.Inv waiting
unfolding Traditional.find
waiting-Inv = record { bounded = omega arith; unique = (refl, tt); small = (omega arith, tt) }

insert_in_context-Inv_example : TraditionalInvariant.Inv (insert_in_context 1 head 20 waiting).0
insert_in_context-Inv_example = insert_in_context-Inv 1 head 20 waiting waiting-Inv

abbrev later : Pending
later = record { context = 1; created = 12; fragment = head }
