-- ===== src/Fragment/Split.antt =====
-- src/fragment.rs: `fragment_sr_packet`, which splits a packet into two fragments.
use openiwan.Prelude.{
  ℕ, ◌*◌, ◌≤◌, ◌<◌, ltb, leb, ◌==◌, ◌||◌, true, false, ◌≡◌, ◌↔◌, List, ◌++◌, length, take, drop,
  length-take, length-drop, take-append-drop, arith,
}
use openiwan.Error.{Result, ok, ◌>>◌, bail, fragment_too_large}
use openiwan.Fragment.Codec.{Fragment, max_fragment_length, max_reassembled_packet}
use openiwan.Fragment.Codec.RoundTrip.{FitsWire}

-- The two fragments, in the order of the returned array.
unfoldable pub head_fragment : List ℕ → ℕ → ℕ → Fragment
head_fragment packet payload_mtu id = record {
  id = id;
  end_of_packet = false;
  from_in = false;
  offset = 0;
  payload = take payload_mtu packet;
}

unfoldable pub tail_fragment : List ℕ → ℕ → ℕ → Fragment
tail_fragment packet payload_mtu id = record {
  id = id;
  end_of_packet = true;
  from_in = false;
  offset = payload_mtu;
  payload = drop payload_mtu packet;
}

unfoldable pub fragment_sr_packet : List ℕ → ℕ → ℕ → Result (Fragment × Fragment)
fragment_sr_packet packet payload_mtu id = do
  bail
      (payload_mtu == 0
        || (ltb max_fragment_length payload_mtu
            || (leb (length packet) payload_mtu
                || (ltb (payload_mtu * 2) (length packet)
                    || ltb max_reassembled_packet (length packet)))))
      fragment_too_large
  bail (ltb 65535 payload_mtu) fragment_too_large
  ok (head_fragment packet payload_mtu id, tail_fragment packet payload_mtu id)

-- The splitter's condition on a packet and an MTU.
pub record Splits (packet : List ℕ) (payload_mtu : ℕ) : Type 0 where
  pub some_mtu : 1 ≤ payload_mtu
  pub short_mtu : payload_mtu ≤ 2047
  pub longer : payload_mtu < length packet
  pub within_two : length packet ≤ payload_mtu * 2

-- The splitter succeeds exactly when the MTU is 1 to 2047 and the packet is longer than one payload
-- and fits two; it returns the head at offset 0 and the tail at the MTU with the end mark.
pub fragment_sr_packet_exact :
    (packet : List ℕ) (payload_mtu id : ℕ) (a b : Fragment)
    → (fragment_sr_packet packet payload_mtu id ≡ ok (a, b)) ↔ (
        Splits packet payload_mtu
        × (a ≡ head_fragment packet payload_mtu id)
        × (b ≡ tail_fragment packet payload_mtu id))
unfolding fragment_sr_packet
fragment_sr_packet_exact packet payload_mtu id a b = (λ e. ground arith, λ h. ground arith)

-- For an MTU of 1 to 2047 and a packet longer than one payload and within two, the two fragments
-- of the split fit the wire, and carry the packet between them.
pub split-FitsWire :
    (packet : List ℕ) (payload_mtu id : ℕ)
    → Splits packet payload_mtu
    → FitsWire (head_fragment packet payload_mtu id)
      × FitsWire (tail_fragment packet payload_mtu id)
      × ((head_fragment packet payload_mtu id).payload
            ++ (tail_fragment packet payload_mtu id).payload
          ≡ packet)
unfolding head_fragment tail_fragment
split-FitsWire packet payload_mtu id s =
    let front = length-take payload_mtu packet in
    let back = length-drop payload_mtu packet in
    (
      omega (arith, front, back, s),
      omega (arith, front, back, s),
      take-append-drop payload_mtu packet,
    )
