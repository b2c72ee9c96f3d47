-- ===== src/Dns/Rules.antt =====
-- src/dns/policy.rs: `DomainRule`.
pub mod Matching
use openiwan.Prelude.{
  ℕ, ◌+◌, ◌-◌, ltb, leb, ◌==◌, ◌&&◌, ◌||◌, not, if◌then◌else◌, Bool, true, false, Option, none,
  some, List, [], ◌∷◌, ◌++◌, length,
}
use openiwan.Error.{Result, ok, err, ◌>>=◌, ◌>>◌, invalid_config}
use openiwan.Protocol.Packet.{bytes_eq}
use openiwan.Dns.Names.{normalize_name, validate_name, ends_with, ends_with_dot, strip_suffix}

pub data DomainRuleKind : Type 0 where
  suffix domain exact : DomainRuleKind

pub record DomainRule : Type 0 where
  pub kind : DomainRuleKind
  pub domain : List ℕ
  pub explicit_prefix : Bool

-- The kind, the rest of the name and whether a prefix stood before it.
unfoldable pub kind_of : ℕ → List ℕ → DomainRuleKind × List ℕ × Bool
kind_of first rest =
    if first == b'*'
    then (DomainRuleKind.suffix, rest, true)
    else if first == b'@'
    then (DomainRuleKind.domain, rest, true)
    else if first == b'^'
    then (DomainRuleKind.exact, rest, true)
    else (DomainRuleKind.suffix, first ∷ rest, false)

unfoldable pub rule_of : DomainRuleKind × List ℕ × Bool → Result DomainRule
rule_of (kind, name, explicit_prefix) = do
  validate_name name "DNS domain rule"
  ok (record { kind = kind; domain = name; explicit_prefix = explicit_prefix })

unfoldable pub parse_normalized : List ℕ → Result DomainRule
unfolding rule_of kind_of
parse_normalized [] = err (invalid_config "DNS domain rule must not be empty")
parse_normalized (c ∷ cs) = rule_of (kind_of c cs)

unfoldable pub parse : List ℕ → Result DomainRule
unfolding parse_normalized
parse value = parse_normalized (normalize_name value)

abbrev pub dotted : Option (List ℕ) → Bool
dotted none = false
dotted (some prefix) = ends_with_dot prefix

unfoldable pub matches_kind : DomainRuleKind → List ℕ → List ℕ → Bool
matches_kind DomainRuleKind.suffix name candidate = ends_with candidate name
matches_kind DomainRuleKind.domain name candidate =
    bytes_eq candidate name || dotted (strip_suffix candidate name)
matches_kind DomainRuleKind.exact name candidate = bytes_eq candidate name

unfoldable pub matches : DomainRule → List ℕ → Bool
unfolding matches_kind
matches rule candidate = matches_kind rule.kind rule.domain (normalize_name candidate)

unfoldable pub prefix_of : DomainRuleKind → Bool → List ℕ
prefix_of DomainRuleKind.suffix false = []
prefix_of DomainRuleKind.suffix true = b'*' ∷ []
prefix_of DomainRuleKind.domain _ = b'@' ∷ []
prefix_of DomainRuleKind.exact _ = b'^' ∷ []

-- `Display` for `DomainRule`.
unfoldable pub to_string : DomainRule → List ℕ
unfolding prefix_of
to_string rule = prefix_of rule.kind rule.explicit_prefix ++ rule.domain
