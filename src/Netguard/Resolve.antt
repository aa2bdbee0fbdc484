-- ===== src/Netguard/Resolve.antt =====
-- internal/netguard/netguard.go: the addresses behind a host. Lower case, the parser of addresses and
-- the resolver are arguments, and so is the test of each trusted network.
use pinchtab.Prelude.{
  Bool, true, false, ◌||◌, Option, none, some, List, [], ◌∷◌, ◌++◌, str_eq, ◌==◌, if◌then◌else◌,
}
use Prim.Native.String.{String}
use pinchtab.Prelude.Text.{is_empty, trim_space, trim_suffix, trim_prefix, has_suffix}
use pinchtab.Netguard.Addresses.{
  Ip, Addr, no_addr, v4, v6, GuardError, resolve_host, unparseable_remote_ip, unmap, is_loopback,
  addr_from_slice, validate_public_ip,
}

-- strings.ToLower, net.ParseIP and ResolveHostIPs
pub record Net : Type 0 where
  pub to_lower : String → String
  pub parse_ip : String → Option Ip
  pub resolve_host_ips : String → Option (List Ip)

-- NormalizeHost
unfoldable pub normalize_host : Net → String → String
unfolding trim_space
normalize_host net host = trim_suffix "." (net.to_lower (trim_space host))

abbrev pub addr_or_zero : Option Addr → Addr
addr_or_zero none = no_addr
addr_or_zero (some a) = unmap a

-- the address of a slice, unmapped
unfoldable pub unmapped : Ip → Addr
unfolding addr_from_slice
unmapped ip = addr_or_zero (addr_from_slice ip)

abbrev is_loopback_ip : Option Ip → Bool
unfolding unmapped
is_loopback_ip none = false
is_loopback_ip (some ip) = is_loopback (unmapped ip)

-- IsLocalHost
unfoldable pub is_local_host : Net → String → Bool
unfolding normalize_host is_loopback_ip unmapped
is_local_host net raw =
    let host = normalize_host net raw in
    if is_empty host
    then false
    else if str_eq host "localhost" || has_suffix ".localhost" host
    then true
    else is_loopback_ip (net.parse_ip host)

pub data Resolution : Type 0 where
  refused : GuardError → Resolution
  resolved : List Addr → Resolution

abbrev pub addr_eq : Addr → Addr → Bool
addr_eq no_addr no_addr = true
addr_eq (v4 m) (v4 n) = m == n
addr_eq (v6 m) (v6 n) = m == n
addr_eq a b = false

abbrev pub seen : Addr → List Addr → Bool
seen a [] = false
seen a (b ∷ addrs) = if addr_eq a b then true else seen a addrs

-- the end of the loop
abbrev finish : List Addr → Resolution
finish [] = refused resolve_host
finish addrs = resolved addrs

-- the loop over the resolver's answers: a refusal ends it, and an address is kept once
unfoldable pub collect : (Ip → Option GuardError) → List Addr → List Ip → Resolution
collect accept out [] = finish out
collect accept out (ip ∷ ips) =
    let rest = collect accept out ips in
    let more = collect accept (out ++ unmapped ip ∷ []) ips in
    elim (accept ip) [
      | some err ↦ refused err
      | none ↦ if seen (unmapped ip) out then rest else more
    ]

abbrev collect_resolved : (Ip → Option GuardError) → Option (List Ip) → Resolution
unfolding collect
collect_resolved accept none = refused resolve_host
collect_resolved accept (some ips) = collect accept [] ips

unfoldable pub resolve_parsed : Net → (Ip → Option GuardError) → String → Option Ip → Resolution
unfolding collect
resolve_parsed net accept host (some ip) = collect accept [] (ip ∷ [])
resolve_parsed net accept host none = collect_resolved accept (net.resolve_host_ips host)

-- what the two functions share; an address in place of a host is one answer
unfoldable pub resolve_with : Net → (Ip → Option GuardError) → String → Resolution
unfolding normalize_host resolve_parsed
resolve_with net accept raw =
    let host = normalize_host net raw in
    if is_empty host
    then refused resolve_host
    else resolve_parsed net accept host (net.parse_ip host)

-- ResolveAndValidatePublicIPs
unfoldable pub resolve_and_validate_public_ips : Net → String → Resolution
unfolding resolve_with validate_public_ip
resolve_and_validate_public_ips net host = resolve_with net validate_public_ip host

-- ipInCIDRs
unfoldable pub ip_in_cidrs : Ip → List (Ip → Bool) → Bool
ip_in_cidrs ip [] = false
ip_in_cidrs ip (cidr ∷ cidrs) = if cidr ip then true else ip_in_cidrs ip cidrs

unfoldable pub accept_trusted : List (Ip → Bool) → Ip → Option GuardError
unfolding validate_public_ip ip_in_cidrs
accept_trusted trusted ip = elim (validate_public_ip ip) [
  | none ↦ none
  | some err ↦ if ip_in_cidrs ip trusted then none else some err
]

-- ResolveAndValidateIPsWithTrustedCIDRs
unfoldable pub resolve_and_validate_ips_with_trusted_cidrs :
    Net → List (Ip → Bool) → String → Resolution
unfolding resolve_with accept_trusted
resolve_and_validate_ips_with_trusted_cidrs net trusted host =
    resolve_with net (accept_trusted trusted) host

-- NormalizeRemoteIP
unfoldable pub normalize_remote_ip : String → String
unfolding trim_space
normalize_remote_ip raw = trim_suffix "]" (trim_prefix "[" (trim_space raw))

abbrev validate_parsed : Option Ip → Option GuardError
unfolding validate_public_ip
validate_parsed none = some unparseable_remote_ip
validate_parsed (some ip) = validate_public_ip ip

-- ValidateRemoteIPAddress
unfoldable pub validate_remote_ip_address : Net → String → Option GuardError
unfolding normalize_remote_ip validate_parsed
validate_remote_ip_address net raw =
    let ip = normalize_remote_ip raw in
    if is_empty ip then none else validate_parsed (net.parse_ip ip)
