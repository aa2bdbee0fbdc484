-- ===== src/Netguard/Tests.antt =====
-- The guard at small concrete inputs.
use pinchtab.Prelude.{◌≡◌, refl, true, none, some, [], ◌∷◌, arith}
use pinchtab.Prelude.Text.{trim_space, trim_right, in_ranges, is_blank}
use pinchtab.Netguard.Addresses.{
  ip_v4, ip_v6, v4, private_internal_ip, addr_from_slice, validate_public_ip,
}
use pinchtab.Netguard.Ranges.{by_range, validate_public_ip-by_range}
use pinchtab.Netguard.Resolve.{
  Net, normalize_host, is_local_host, resolved, refused, unmapped, collect, resolve_parsed,
  resolve_with, resolve_and_validate_public_ips, normalize_remote_ip, validate_remote_ip_address,
}
use pinchtab.Netguard.Public.{Screened, resolve_and_validate_public_ips-Screened}

-- 8.8.8.8 twice, the second time mapped into IPv6
abbrev dns : Net
dns = record {
  to_lower = λ s. s;
  parse_ip = λ s. none;
  resolve_host_ips = λ s. some (ip_v4 134744072 ∷ ip_v6 281470816487432 ∷ []);
}

-- one address is 10.0.0.1
abbrev rebound : Net
rebound = record dns { resolve_host_ips = λ s. some (ip_v4 134744072 ∷ ip_v4 167772161 ∷ []) }

mapped_once : resolve_and_validate_public_ips dns "example.com." ≡ resolved (v4 134744072 ∷ [])
unfolding resolve_and_validate_public_ips resolve_with resolve_parsed collect unmapped
    validate_public_ip addr_from_slice normalize_host trim_space trim_right in_ranges is_blank
mapped_once = refl

rebound_refused :
    resolve_and_validate_public_ips rebound "example.com" ≡ refused private_internal_ip
unfolding resolve_and_validate_public_ips resolve_with resolve_parsed collect unmapped
    validate_public_ip addr_from_slice normalize_host trim_space trim_right in_ranges is_blank
rebound_refused = refl

local_name : is_local_host dns " app.localhost. " ≡ true
unfolding is_local_host normalize_host trim_space trim_right in_ranges is_blank
local_name = refl

empty_remote : validate_remote_ip_address dns "[]" ≡ none
unfolding validate_remote_ip_address normalize_remote_ip trim_space trim_right in_ranges is_blank
empty_remote = refl

resolve_and_validate_public_ips-Screened_example :
    Screened dns "example.com" (resolve_and_validate_public_ips dns "example.com")
unfolding normalize_host trim_space trim_right in_ranges is_blank
resolve_and_validate_public_ips-Screened_example =
    resolve_and_validate_public_ips-Screened dns "example.com" (omega arith, (omega arith, tt))

validate_public_ip-by_range_example :
    validate_public_ip (ip_v6 281470849024001) ≡ by_range (addr_from_slice (ip_v6 281470849024001))
validate_public_ip-by_range_example =
    validate_public_ip-by_range (ip_v6 281470849024001) (omega arith)
