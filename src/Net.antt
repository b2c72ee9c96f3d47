-- ===== src/Net.antt =====
-- The addresses of `std::net` that src/client.rs, src/config.rs and src/dns use. An address is its
-- number, in network order.
use openiwan.Prelude.{ℕ, ◌==◌, Bool, true, false, Option, none, some}

pub data IpAddr : Type 0 where
  v4 : ℕ → IpAddr
  v6 : ℕ → IpAddr

pub record SocketAddr : Type 0 where
  pub ip : IpAddr
  pub port : ℕ

-- `==` on addresses.
unfoldable pub same_address : IpAddr → IpAddr → Bool
same_address (v4 a) (v4 b) = a == b
same_address (v6 a) (v6 b) = a == b
same_address (v4 a) (v6 b) = false
same_address (v6 a) (v4 b) = false

unfoldable pub same_optional : Option IpAddr → Option IpAddr → Bool
unfolding same_address
same_optional none none = true
same_optional (some a) (some b) = same_address a b
same_optional none (some b) = false
same_optional (some a) none = false
