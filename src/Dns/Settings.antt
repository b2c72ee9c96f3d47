-- ===== src/Dns/Settings.antt =====
-- src/dns/policy.rs: the DNS settings, their layers and their validation. An IPv4 address is its number.
use openiwan.Prelude.{ℕ, ltb, ◌&&◌, Bool, true, false, Option, none, some, List, [], ◌∷◌, length}
use openiwan.Error.{Result, ok, ◌>>◌, bail, invalid_config}
use openiwan.Dns.Names.{is_empty, normalize_name, validate_name}
use openiwan.Dns.Rules.{DomainRule}

abbrev pub max_domain_rules : ℕ
max_domain_rules = 100_000

-- `use-application-dns.net`
abbrev pub default_doh_canary : List ℕ
default_doh_canary =
    b'u' ∷ b's' ∷ b'e' ∷ b'-' ∷ b'a' ∷ b'p' ∷ b'p' ∷ b'l' ∷ b'i' ∷ b'c' ∷ b'a' ∷ b't' ∷ b'i' ∷ b'o'
    ∷ b'n' ∷ b'-' ∷ b'd' ∷ b'n' ∷ b's' ∷ b'.' ∷ b'n' ∷ b'e' ∷ b't' ∷ []

pub data DnsServerMode : Type 0 where
  server custom disabled : DnsServerMode

pub data ServerListDnsMode : Type 0 where
  auto custom disabled : ServerListDnsMode

pub data SplitDnsMode : Type 0 where
  off tunnel_all managed custom : SplitDnsMode

pub data EncryptedDnsMode : Type 0 where
  inherit block allow : EncryptedDnsMode

pub record DnsDefaults : Type 0 where
  pub server_mode : ServerListDnsMode
  pub server_dns : List ℕ
  pub local_mode : DnsServerMode
  pub local_dns : List ℕ
  pub split_mode : SplitDnsMode
  pub custom_domains : List DomainRule
  pub managed_domain_filter : Bool
  pub managed_inclusive : List DomainRule
  pub managed_exclusive : List DomainRule
  pub block_encrypted_dns : Bool
  pub secure_dns_hosts : List (List ℕ)
  pub controller_service : Bool

abbrev pub default_defaults : DnsDefaults
default_defaults = record {
  server_mode = ServerListDnsMode.auto;
  server_dns = [];
  local_mode = DnsServerMode.server;
  local_dns = [];
  split_mode = SplitDnsMode.off;
  custom_domains = [];
  managed_domain_filter = false;
  managed_inclusive = [];
  managed_exclusive = [];
  block_encrypted_dns = false;
  secure_dns_hosts = [];
  controller_service = false;
}

pub record DnsOverrides : Type 0 where
  pub server_mode : Option DnsServerMode
  pub servers : Option (List ℕ)
  pub split_mode : Option SplitDnsMode
  pub split_domains : Option (List DomainRule)
  pub encrypted_dns : Option EncryptedDnsMode
  pub doh_hosts : Option (List (List ℕ))

abbrev pub no_overrides : DnsOverrides
no_overrides = record {
  server_mode = none;
  servers = none;
  split_mode = none;
  split_domains = none;
  encrypted_dns = none;
  doh_hosts = none;
}

-- `Option::or` and `Option::unwrap_or`.
abbrev pub or_else {ℓ} : {A : Type ℓ} → Option A → Option A → Option A
or_else none b = b
or_else (some a) b = some a

abbrev pub unwrap_or {ℓ} : {A : Type ℓ} → Option A → A → A
unwrap_or none d = d
unwrap_or (some a) d = a

unfoldable pub layered : DnsOverrides → DnsOverrides → DnsOverrides
layered lower higher = record {
  server_mode = or_else higher.server_mode lower.server_mode;
  servers = or_else higher.servers lower.servers;
  split_mode = or_else higher.split_mode lower.split_mode;
  split_domains = or_else higher.split_domains lower.split_domains;
  encrypted_dns = or_else higher.encrypted_dns lower.encrypted_dns;
  doh_hosts = or_else higher.doh_hosts lower.doh_hosts;
}

abbrev pub longer_than {ℓ} : {A : Type ℓ} → ℕ → Option (List A) → Bool
longer_than n none = false
longer_than n (some xs) = ltb n (length xs)

abbrev pub is_none_or_empty {ℓ} : {A : Type ℓ} → Option (List A) → Bool
is_none_or_empty none = true
is_none_or_empty (some xs) = is_empty xs

abbrev pub wants_custom : Option DnsServerMode → Bool
wants_custom (some DnsServerMode.custom) = true
wants_custom _ = false

abbrev pub wants_custom_split : Option SplitDnsMode → Bool
wants_custom_split (some SplitDnsMode.custom) = true
wants_custom_split _ = false

unfoldable pub validate_hosts : List (List ℕ) → Result (Unit {0})
validate_hosts [] = ok tt
validate_hosts (host ∷ hosts) = do
  validate_name (normalize_name host) "DoH hostname"
  validate_hosts hosts

unfoldable pub validate_doh : Option (List (List ℕ)) → Result (Unit {0})
unfolding validate_hosts
validate_doh none = ok tt
validate_doh (some hosts) = do
  bail (ltb max_domain_rules (length hosts)) (invalid_config "DoH host count exceeds 100000")
  validate_hosts hosts

unfoldable pub validate : DnsOverrides → Result (Unit {0})
unfolding validate_doh
validate o = do
  bail (longer_than 2 o.servers) (invalid_config "custom DNS accepts at most two IPv4 servers")
  bail (wants_custom o.server_mode && is_none_or_empty o.servers)
      (invalid_config "custom DNS mode requires at least one --dns-server")
  bail (wants_custom_split o.split_mode && is_none_or_empty o.split_domains)
      (invalid_config "custom split DNS requires at least one domain rule")
  bail (longer_than max_domain_rules o.split_domains)
      (invalid_config "split-DNS rule count exceeds 100000")
  validate_doh o.doh_hosts
