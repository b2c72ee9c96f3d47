-- ===== src/Dns/Policy/Soundness.antt =====
-- src/dns/policy.rs: what every resolved policy keeps.
use openiwan.Prelude.{
  ℕ, ◌≤◌, ◌≡◌, inl, inr, refl, sym, subst, ltb, ◌||◌, not, if◌then◌else◌, Bool-cases, Bool, true,
  false, List, [], ◌∷◌, length, take, any, All, All-take, arith,
}
use openiwan.Error.{Result, ok, err, stuck, ◌>>=◌, >>=-eq-ok, ok-injective, bail}
use openiwan.Net.{IpAddr, v4, v6}
use openiwan.Protocol.Packet.{bytes_eq}
use openiwan.Dns.Names.{is_empty, normalize_name, validate_name}
use openiwan.Dns.Rules.{DomainRule}
use openiwan.Dns.Settings.{
  max_domain_rules, DnsServerMode, ServerListDnsMode, SplitDnsMode, DnsDefaults, DnsOverrides,
  unwrap_or, validate,
}
use openiwan.Dns.Policy.{
  EffectiveDnsPolicy, is_usable_server, dedup, same_rule, dedup_capped, same_number,
  validate_custom_servers, usable_only, usable_acks, controller_servers, learnt_servers,
  servers_by_list, resolve_server_dns, effective_mode, servers_by_mode, rules_by_mode,
  normalize_from, normalize_names, all_hosts, resolve,
}
use openiwan.Dns.Policy.Dedup.{
  Distinct, weaken-Fresh, dedup_from-Distinct, dedup_from-All, length-dedup_from, take-Distinct,
  length-take-le,
}

-- At most two servers, each a usable unicast address, none twice.
abbrev pub IsServers : List ℕ → Type 0
IsServers servers =
    (length servers ≤ 2)
    × All (λ a. is_usable_server a ≡ true) servers
    × Distinct same_number servers

usable_only-All : (xs : List ℕ) → All (λ a. is_usable_server a ≡ true) (usable_only xs)
unfolding usable_only
usable_only-All [] = tt
usable_only-All (a ∷ xs) = elim (Bool-cases (is_usable_server a)) [
  | inl usable ↦ rw usable (usable, usable_only-All xs)
  | inr other ↦ rw other (usable_only-All xs)
]

usable_acks-All : (xs : List IpAddr) → All (λ a. is_usable_server a ≡ true) (usable_acks xs)
unfolding usable_acks
usable_acks-All [] = tt
usable_acks-All (v6 a ∷ xs) = usable_acks-All xs
usable_acks-All (v4 a ∷ xs) = elim (Bool-cases (is_usable_server a)) [
  | inl usable ↦ rw usable (usable, usable_acks-All xs)
  | inr other ↦ rw other (usable_acks-All xs)
]

first_two-IsServers :
    (xs : List ℕ)
    → All (λ a. is_usable_server a ≡ true) xs
    → IsServers (take 2 (dedup same_number xs))
unfolding dedup
first_two-IsServers xs h = (
  length-take-le 2 (dedup same_number xs),
  All-take _ 2 (dedup same_number xs) (dedup_from-All same_number _ [] xs h),
  take-Distinct same_number 2 (dedup same_number xs) (dedup_from-Distinct same_number [] xs).1,
)

choice-IsServers :
    (b : Bool) (xs ys : List ℕ) → IsServers xs → IsServers ys → IsServers (if b then xs else ys)
choice-IsServers true xs ys hx hy = hx
choice-IsServers false xs ys hx hy = hy

learnt_servers-IsServers :
    (d : DnsDefaults) (acks : List IpAddr) → IsServers (learnt_servers d acks)
unfolding learnt_servers is_usable_server
learnt_servers-IsServers d acks =
    choice-IsServers _ _ _ (first_two-IsServers (usable_acks acks) (usable_acks-All acks)) (
      choice-IsServers d.controller_service controller_servers []
        (omega arith, (refl, (refl, tt)), ((refl, tt), (tt, tt))) (omega arith, tt, tt))

servers_by_list-IsServers :
    (m : ServerListDnsMode) (d : DnsDefaults) (acks : List IpAddr)
    → IsServers (servers_by_list m d acks)
unfolding servers_by_list
servers_by_list-IsServers ServerListDnsMode.disabled d acks = (omega arith, tt, tt)
servers_by_list-IsServers ServerListDnsMode.auto d acks = learnt_servers-IsServers d acks
servers_by_list-IsServers ServerListDnsMode.custom d acks =
    choice-IsServers _ _ _
      (first_two-IsServers (usable_only d.server_dns) (usable_only-All d.server_dns))
      (learnt_servers-IsServers d acks)

usable_iff :
    (xs : List ℕ)
    → any (λ a. not (is_usable_server a)) xs ≡ false
    → All (λ a. is_usable_server a ≡ true) xs
usable_iff [] e = tt
usable_iff (a ∷ xs) e = (ground arith, usable_iff xs (ground arith))

servers_by_mode-IsServers :
    (m : DnsServerMode) (d : DnsDefaults) (o : DnsOverrides) (acks : List IpAddr) (servers : List ℕ)
    → servers_by_mode m d o acks ≡ ok servers
    → IsServers servers × (m ≡ DnsServerMode.disabled → servers ≡ [])
unfolding servers_by_mode resolve_server_dns validate_custom_servers dedup
servers_by_mode-IsServers DnsServerMode.disabled d o acks servers e =
    (subst IsServers (ok-injective e) (omega arith, tt, tt), λ _. sym (ok-injective e))
servers_by_mode-IsServers DnsServerMode.server d o acks servers e =
    (subst IsServers (ok-injective e) (servers_by_list-IsServers d.server_mode d acks), λ q. cc)
servers_by_mode-IsServers DnsServerMode.custom d o acks servers e =
    let chosen = unwrap_or o.servers d.local_dns in
    let (_, checked, same) = >>=-eq-ok (validate_custom_servers chosen) _ e in
    let (_, sized, usable) =
      >>=-eq-ok (bail (is_empty chosen || ltb 2 (length chosen)) _) _ checked in
    let short : length chosen ≤ 2 = ground arith in
    let good : any (λ a. not (is_usable_server a)) chosen ≡ false = ground arith in
    (
      subst IsServers (ok-injective same) (
        omega (arith, short, length-dedup_from same_number [] chosen),
        dedup_from-All same_number _ [] chosen (usable_iff chosen good),
        (dedup_from-Distinct same_number [] chosen).1,
      ),
      λ q. cc,
    )

-- Rules of at most the maximal number, none twice.
abbrev pub IsRules : List DomainRule → Type 0
IsRules rules = (length rules ≤ 100_000) × Distinct same_rule rules

dedup_capped-IsRules : (rules : List DomainRule) → IsRules (dedup_capped rules)
unfolding dedup_capped dedup
dedup_capped-IsRules rules = (
  length-take-le max_domain_rules (dedup same_rule rules),
  take-Distinct same_rule max_domain_rules (dedup same_rule rules)
      (dedup_from-Distinct same_rule [] rules).1,
)

rules_by_mode-IsRules :
    (m : SplitDnsMode) (d : DnsDefaults) (own : List DomainRule)
    → IsRules (rules_by_mode m d own).0 × IsRules (rules_by_mode m d own).1
unfolding rules_by_mode
rules_by_mode-IsRules SplitDnsMode.off d own = ((omega arith, tt), (omega arith, tt))
rules_by_mode-IsRules SplitDnsMode.tunnel_all d own = ((omega arith, tt), (omega arith, tt))
rules_by_mode-IsRules SplitDnsMode.managed d own =
    (dedup_capped-IsRules d.managed_inclusive, dedup_capped-IsRules d.managed_exclusive)
rules_by_mode-IsRules SplitDnsMode.custom d own =
    (dedup_capped-IsRules _, dedup_capped-IsRules d.managed_exclusive)

abbrev pub IsHost : List ℕ → Type 0
IsHost host = validate_name host "DoH hostname" ≡ ok tt

abbrev IsHosts : List (List ℕ) → List (List ℕ) → Type 0
IsHosts seen hosts =
    All IsHost hosts × All (λ x. any (bytes_eq x) seen ≡ false) hosts × Distinct bytes_eq hosts

-- The rest of the loop, with the new name kept or not.
kept_host :
    (value : List ℕ) (known : Bool) (seen hosts : List (List ℕ)) (rest : Result (List (List ℕ)))
    → IsHost value
    → any (bytes_eq value) seen ≡ known
    → ((hs : List (List ℕ)) → rest ≡ ok hs → IsHosts (if known then seen else value ∷ seen) hs)
    → (rest >>= λ hs. ok (if known then hs else value ∷ hs)) ≡ ok hosts
    → IsHosts seen hosts
kept_host value known seen hosts (err x) valid e next q = cc
kept_host value known seen hosts stuck valid e next q = cc
kept_host value true seen hosts (ok hs) valid e next q =
    subst (IsHosts seen) (ok-injective q) (next hs refl)
kept_host value false seen hosts (ok hs) valid e next q =
    let (good, fresh, distinct) = next hs refl in
    let (unseen, differ) = weaken-Fresh bytes_eq value seen hs fresh in
    subst (IsHosts seen) (ok-injective q) ((valid, good), (e, unseen), (differ, distinct))

normalize_from-IsHosts :
    (names seen hosts : List (List ℕ)) → normalize_from seen names ≡ ok hosts → IsHosts seen hosts
unfolding normalize_from
normalize_from-IsHosts [] seen hosts e = subst (IsHosts seen) (ok-injective e) (tt, tt, tt)
normalize_from-IsHosts (name ∷ names) seen hosts e =
    let value = normalize_name name in
    let (_, valid, after) = >>=-eq-ok (validate_name value "DoH hostname") _ e in
    let known = any (bytes_eq value) seen in
    kept_host value known seen hosts (normalize_from (if known then seen else value ∷ seen) names)
      (valid_unit valid) refl
      (λ hs q. normalize_from-IsHosts names (if known then seen else value ∷ seen) hs q) after
  where
    valid_unit :
        {u : Unit {0}}
        → validate_name (normalize_name name) "DoH hostname" ≡ ok u
        → IsHost (normalize_name name)
    valid_unit h = h

-- What a policy keeps: sound servers, none when DNS is disabled, rules within their cap, and valid
-- host names, none twice.
pub record IsSound (policy : EffectiveDnsPolicy) : Type 0 where
  pub servers_sound : IsServers policy.servers
  pub none_disabled : policy.server_mode ≡ DnsServerMode.disabled → policy.servers ≡ []
  pub inclusive_sound : IsRules policy.inclusive
  pub exclusive_sound : IsRules policy.exclusive
  pub hosts_valid : All IsHost policy.doh_hosts
  pub hosts_distinct : Distinct bytes_eq policy.doh_hosts

-- Every policy that `resolve` returns, whatever the settings and the answer to OPEN, has at most two
-- servers, all usable unicast addresses and none twice, and none if DNS is disabled; at most 100000
-- rules of each sort, none twice; and valid host names to block, none twice.
pub resolve-IsSound :
    (defaults : DnsDefaults) (overrides : DnsOverrides) (open_ack_dns : List IpAddr)
    (policy : EffectiveDnsPolicy)
    → resolve defaults overrides open_ack_dns ≡ ok policy
    → IsSound policy
unfolding resolve normalize_names
resolve-IsSound defaults overrides open_ack_dns policy e =
    let mode =
      effective_mode (unwrap_or overrides.server_mode defaults.local_mode) defaults.server_mode in
    let (_, _, checked) = >>=-eq-ok (validate overrides) _ e in
    let (servers, chosen, more) =
      >>=-eq-ok (servers_by_mode mode defaults overrides open_ack_dns) _ checked in
    let (hosts, named, same) =
      >>=-eq-ok (normalize_from [] (all_hosts defaults overrides)) _ more in
    let (sound, empty) =
      servers_by_mode-IsServers mode defaults overrides open_ack_dns servers chosen in
    let (inclusive, exclusive) =
      rules_by_mode-IsRules (unwrap_or overrides.split_mode defaults.split_mode) defaults
        (unwrap_or overrides.split_domains defaults.custom_domains) in
    let (valid, _, distinct) =
      normalize_from-IsHosts (all_hosts defaults overrides) [] hosts named in
    subst IsSound (ok-injective same) (record {
      servers_sound = sound;
      none_disabled = empty;
      inclusive_sound = inclusive;
      exclusive_sound = exclusive;
      hosts_valid = valid;
      hosts_distinct = distinct;
    })
