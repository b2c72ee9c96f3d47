-- ===== src/Dns/Policy.antt =====
-- src/dns/policy.rs: the policy that the settings resolve to, and what it decides. A set of what was
-- seen is a list; an IPv4 address is its number.
pub mod Dedup
pub mod Soundness
use openiwan.Prelude.{
  ℕ, ◌+◌, ◌-◌, ◌/◌, ◌^◌, ltb, leb, ◌==◌, ◌!=◌, ◌&&◌, ◌||◌, not, if◌then◌else◌, Bool, true, false,
  Option, none, some, List, [], ◌∷◌, ◌++◌, length, take, any,
}
use openiwan.Error.{Result, ok, err, ◌>>=◌, ◌>>◌, bail, invalid_config}
use openiwan.Net.{IpAddr, v4, v6}
use openiwan.Protocol.Packet.{bytes_eq}
use openiwan.Dns.Names.{is_empty, normalize_name, validate_name}
use openiwan.Dns.Rules.{DomainRuleKind, DomainRule, matches}
use openiwan.Dns.Settings.{
  max_domain_rules, default_doh_canary, DnsServerMode, ServerListDnsMode, SplitDnsMode,
  EncryptedDnsMode, DnsDefaults, default_defaults, DnsOverrides, no_overrides, or_else, unwrap_or,
  layered, longer_than, is_none_or_empty, wants_custom, wants_custom_split, validate_hosts,
  validate_doh, validate,
}

pub record EffectiveDnsPolicy : Type 0 where
  pub server_mode : DnsServerMode
  pub servers : List ℕ
  pub split_mode : SplitDnsMode
  pub inclusive : List DomainRule
  pub exclusive : List DomainRule
  pub block_encrypted_dns : Bool
  pub doh_hosts : List (List ℕ)

abbrev pub is_disabled : DnsServerMode → Bool
is_disabled DnsServerMode.disabled = true
is_disabled _ = false

abbrev pub is_off : SplitDnsMode → Bool
is_off SplitDnsMode.off = true
is_off _ = false

unfoldable pub dns_routing_enabled : EffectiveDnsPolicy → Bool
dns_routing_enabled policy =
    not (is_disabled policy.server_mode)
    && not (is_empty policy.servers)
    && not (is_off policy.split_mode)

unfoldable pub engine_enabled : EffectiveDnsPolicy → Bool
unfolding dns_routing_enabled
engine_enabled policy = policy.block_encrypted_dns || dns_routing_enabled policy

abbrev pub by_rules : List DomainRule → List DomainRule → List ℕ → Bool
by_rules inclusive exclusive name =
    if any (λ rule. matches rule name) exclusive
    then false
    else (is_empty inclusive || any (λ rule. matches rule name) inclusive)

unfoldable pub routes_by : SplitDnsMode → EffectiveDnsPolicy → List ℕ → Bool
routes_by SplitDnsMode.off policy name = true
routes_by SplitDnsMode.tunnel_all policy name = true
routes_by SplitDnsMode.managed policy name = by_rules policy.inclusive policy.exclusive name
routes_by SplitDnsMode.custom policy name = by_rules policy.inclusive policy.exclusive name

unfoldable pub routes_through_tunnel : EffectiveDnsPolicy → List ℕ → Bool
unfolding routes_by
routes_through_tunnel policy name = routes_by policy.split_mode policy name

unfoldable pub blocks_doh_host : EffectiveDnsPolicy → List ℕ → Bool
blocks_doh_host policy name =
    let normal = normalize_name name in
    policy.block_encrypted_dns && any (λ blocked. bytes_eq blocked normal) policy.doh_hosts

-- 224.0.0.0/4 is the multicast range.
unfoldable pub is_usable_server : ℕ → Bool
is_usable_server address =
    not (address == 0)
    && not (leb 224 (address / 2 ^ 24) && leb (address / 2 ^ 24) 239)
    && address != 0xffff_ffff

-- `filter(|value| seen.insert(value))`
unfoldable pub dedup_from {ℓ} : {A : Type ℓ} → (A → A → Bool) → List A → List A → List A
dedup_from same seen [] = []
dedup_from same seen (value ∷ values) =
    let known = any (same value) seen in
    let rest = dedup_from same (if known then seen else value ∷ seen) values in
    if known then rest else value ∷ rest

unfoldable pub dedup {ℓ} : {A : Type ℓ} → (A → A → Bool) → List A → List A
unfolding dedup_from
dedup same values = dedup_from same [] values

abbrev pub same_kind : DomainRuleKind → DomainRuleKind → Bool
same_kind DomainRuleKind.suffix DomainRuleKind.suffix = true
same_kind DomainRuleKind.domain DomainRuleKind.domain = true
same_kind DomainRuleKind.exact DomainRuleKind.exact = true
same_kind _ _ = false

abbrev pub same_rule : DomainRule → DomainRule → Bool
same_rule a b =
    same_kind a.kind b.kind
    && bytes_eq a.domain b.domain
    && (if a.explicit_prefix then b.explicit_prefix else not b.explicit_prefix)

unfoldable pub dedup_capped : List DomainRule → List DomainRule
unfolding dedup
dedup_capped values = take max_domain_rules (dedup same_rule values)

abbrev pub same_number : ℕ → ℕ → Bool
same_number a b = a == b

unfoldable pub validate_custom_servers : List ℕ → Result (Unit {0})
validate_custom_servers servers = do
  bail (is_empty servers || ltb 2 (length servers))
      (invalid_config "custom DNS requires one or two IPv4 servers")
  bail (any (λ server. not (is_usable_server server)) servers)
      (invalid_config "custom DNS server is not a usable unicast IPv4 address")

unfoldable pub usable_only : List ℕ → List ℕ
usable_only [] = []
usable_only (a ∷ addresses) =
    let rest = usable_only addresses in if is_usable_server a then a ∷ rest else rest

unfoldable pub usable_acks : List IpAddr → List ℕ
usable_acks [] = []
usable_acks (v4 a ∷ addresses) =
    let rest = usable_acks addresses in if is_usable_server a then a ∷ rest else rest
usable_acks (v6 a ∷ addresses) = usable_acks addresses

-- 1.1.1.1 and 114.114.114.114
abbrev pub controller_servers : List ℕ
controller_servers = 0x0101_0101 ∷ 0x7272_7272 ∷ []

unfoldable pub learnt_servers : DnsDefaults → List IpAddr → List ℕ
unfolding usable_acks dedup
learnt_servers defaults open_ack_dns =
    let open_ack = take 2 (dedup same_number (usable_acks open_ack_dns)) in
    if not (is_empty open_ack)
    then open_ack
    else if defaults.controller_service
    then controller_servers
    else []

unfoldable pub servers_by_list : ServerListDnsMode → DnsDefaults → List IpAddr → List ℕ
unfolding learnt_servers usable_only dedup
servers_by_list ServerListDnsMode.disabled defaults open_ack_dns = []
servers_by_list ServerListDnsMode.custom defaults open_ack_dns =
    let configured = take 2 (dedup same_number (usable_only defaults.server_dns)) in
    if not (is_empty configured) then configured else learnt_servers defaults open_ack_dns
servers_by_list ServerListDnsMode.auto defaults open_ack_dns = learnt_servers defaults open_ack_dns

unfoldable pub resolve_server_dns : DnsDefaults → List IpAddr → List ℕ
unfolding servers_by_list
resolve_server_dns defaults open_ack_dns =
    servers_by_list defaults.server_mode defaults open_ack_dns

abbrev pub effective_mode : DnsServerMode → ServerListDnsMode → DnsServerMode
effective_mode DnsServerMode.server ServerListDnsMode.disabled = DnsServerMode.disabled
effective_mode requested _ = requested

unfoldable pub servers_by_mode :
    DnsServerMode → DnsDefaults → DnsOverrides → List IpAddr → Result (List ℕ)
unfolding resolve_server_dns dedup
servers_by_mode DnsServerMode.disabled defaults overrides open_ack_dns = ok []
servers_by_mode DnsServerMode.custom defaults overrides open_ack_dns = do
  let servers = unwrap_or overrides.servers defaults.local_dns
  validate_custom_servers servers
  ok (dedup same_number servers)
servers_by_mode DnsServerMode.server defaults overrides open_ack_dns =
    ok (resolve_server_dns defaults open_ack_dns)

-- The inclusive and the exclusive rules.
unfoldable pub rules_by_mode :
    SplitDnsMode → DnsDefaults → List DomainRule → List DomainRule × List DomainRule
unfolding dedup_capped
rules_by_mode SplitDnsMode.off defaults local_domains = ([], [])
rules_by_mode SplitDnsMode.tunnel_all defaults local_domains = ([], [])
rules_by_mode SplitDnsMode.managed defaults local_domains =
    (dedup_capped defaults.managed_inclusive, dedup_capped defaults.managed_exclusive)
rules_by_mode SplitDnsMode.custom defaults local_domains = (
  dedup_capped (
      if defaults.managed_domain_filter
      then local_domains ++ defaults.managed_inclusive
      else local_domains),
  dedup_capped defaults.managed_exclusive,
)

abbrev pub blocks_by_mode : EncryptedDnsMode → Bool → Bool
blocks_by_mode EncryptedDnsMode.inherit inherited = inherited
blocks_by_mode EncryptedDnsMode.block inherited = true
blocks_by_mode EncryptedDnsMode.allow inherited = false

unfoldable pub normalize_from : List (List ℕ) → List (List ℕ) → Result (List (List ℕ))
normalize_from seen [] = ok []
normalize_from seen (name ∷ names) = do
  let value = normalize_name name
  validate_name value "DoH hostname"
  let known = any (bytes_eq value) seen
  rest ← normalize_from (if known then seen else value ∷ seen) names
  ok (if known then rest else value ∷ rest)

unfoldable pub normalize_names : List (List ℕ) → Result (List (List ℕ))
unfolding normalize_from
normalize_names names = normalize_from [] names

abbrev pub all_hosts : DnsDefaults → DnsOverrides → List (List ℕ)
all_hosts defaults overrides =
    defaults.secure_dns_hosts ++ (unwrap_or overrides.doh_hosts [] ++ (default_doh_canary ∷ []))

unfoldable pub resolve : DnsDefaults → DnsOverrides → List IpAddr → Result EffectiveDnsPolicy
unfolding validate servers_by_mode rules_by_mode normalize_names
resolve defaults overrides open_ack_dns = do
  validate overrides
  let server_mode =
      effective_mode (unwrap_or overrides.server_mode defaults.local_mode) defaults.server_mode
  servers ← servers_by_mode server_mode defaults overrides open_ack_dns
  let split_mode = unwrap_or overrides.split_mode defaults.split_mode
  let rules =
      rules_by_mode split_mode defaults (unwrap_or overrides.split_domains defaults.custom_domains)
  doh_hosts ← normalize_names (all_hosts defaults overrides)
  ok (record {
    server_mode = server_mode;
    servers = servers;
    split_mode = split_mode;
    inclusive = rules.0;
    exclusive = rules.1;
    block_encrypted_dns =
        blocks_by_mode (unwrap_or overrides.encrypted_dns EncryptedDnsMode.inherit)
          defaults.block_encrypted_dns;
    doh_hosts = doh_hosts;
  })

-- A panic of `expect` is an error.
unfoldable pub direct : List IpAddr → Result EffectiveDnsPolicy
unfolding resolve
direct open_ack_dns = resolve default_defaults no_overrides open_ack_dns
