-- ===== src/Netguard/Ranges.antt =====
-- internal/netguard/netguard.go: the addresses that ValidatePublicIP refuses, as ranges.
use pinchtab.Prelude.{
  ℕ, ◌<◌, ◌≡◌, refl, Bool, true, false, ◌&&◌, ◌||◌, Option, none, some, List, [], ◌∷◌, leb, ◌/◌,
  ◌%◌, ◌==◌, if◌then◌else◌, Bool-cases, inl, inr, arith,
}
use pinchtab.Prelude.Text.{in_ranges}
use pinchtab.Netguard.Addresses.{
  Ip, ip_v4, ip_v6, other_bytes, Addr, no_addr, v4, v6, GuardError, private_internal_ip,
  is_internal, in_blocked_prefixes, two_32, two_112, two_128, unmap, addr_from_slice,
  validate_public_ip,
}

-- 0.0.0.0, 10.0.0.0/8, 100.64.0.0/10, 127.0.0.0/8, 169.254.0.0/16, 172.16.0.0/12, 192.168.0.0/16,
-- 198.18.0.0/15 and 224.0.0.0/4
abbrev pub internal_v4 : List (ℕ × ℕ)
internal_v4 =
    (0, 0)
    ∷ (167772160, 184549375)
    ∷ (1681915904, 1686110207)
    ∷ (2130706432, 2147483647)
    ∷ (2851995648, 2852061183)
    ∷ (2886729728, 2887778303)
    ∷ (3232235520, 3232301055)
    ∷ (3323068416, 3323199487)
    ∷ (3758096384, 4026531839)
    ∷ []

-- IPv6, by the first 16 bits: fc00::/7, fe80::/10 and ff00::/8
abbrev pub internal_heads : List (ℕ × ℕ)
internal_heads = (64512, 65023) ∷ (65152, 65215) ∷ (65280, 65535) ∷ []

-- whether an address is internal; `::` and `::1` are
abbrev pub is_internal_range : Addr → Bool
unfolding in_ranges
is_internal_range no_addr = false
is_internal_range (v4 n) = in_ranges n internal_v4
is_internal_range (v6 n) = leb n 1 || in_ranges (n / two_112) internal_heads

abbrev within : ℕ → ℕ → ℕ → Bool
within low high n = leb low n && leb n high

-- Bits of an address, against a range.
module _ (n : ℕ) (h : n < two_32) where
  private_10 : (n / 16777216 == 10) ≡ (leb 167772160 n && leb n 184549375)
  private_10 = ground arith

  private_172 :
      (n / 16777216 == 172 && (n / 65536 % 256 / 16 == 1)) ≡ (leb 2886729728 n && leb n 2887778303)
  private_172 = ground arith

  private_192 :
      (n / 16777216 == 192 && (n / 65536 % 256 == 168)) ≡ (leb 3232235520 n && leb n 3232301055)
  private_192 = ground arith

  loopback_127 : (n / 16777216 == 127) ≡ (leb 2130706432 n && leb n 2147483647)
  loopback_127 = ground arith

  link_local_169 :
      (n / 16777216 == 169 && (n / 65536 % 256 == 254)) ≡ (leb 2851995648 n && leb n 2852061183)
  link_local_169 = ground arith

  link_local_224 :
      (n / 16777216 == 224 && (n / 65536 % 256 == 0) && (n / 256 % 256 == 0)) ≡ true
      → (n / 16777216 / 16 == 14) ≡ true
  link_local_224 e = ground (arith, e)

  multicast_224 : (n / 16777216 / 16 == 14) ≡ (leb 3758096384 n && leb n 4026531839)
  multicast_224 = ground arith

  unspecified_0 : (n == 0) ≡ (leb 0 n && leb n 0)
  unspecified_0 = ground arith

  blocked_100 : (n / 4194304 == 401) ≡ (leb 1681915904 n && leb n 1686110207)
  blocked_100 = ground arith

  blocked_198 : (n / 131072 == 25353) ≡ (leb 3323068416 n && leb n 3323199487)
  blocked_198 = ground arith

-- The tests in the order of the code and in the order of the ranges; a multicast to one link is a
-- multicast.
same_tests :
    (p10 p172 p192 lo ll lm mc un b100 b198 : Bool)
    → (lm ≡ true → mc ≡ true)
    → (if (p10 || p172 || p192) || lo || ll || lm || false || mc || un
        then some private_internal_ip
        else if b100 || b198
        then some private_internal_ip
        else none)
      ≡ (if un || (p10 || (b100 || (lo || (ll || (p172 || (p192 || (b198 || (mc || false))))))))
          then some private_internal_ip
          else none)
same_tests p10 p172 p192 lo ll lm mc un b100 b198 h = ground (arith, h)

-- The answer for an address, by its range.
abbrev pub by_range : Option Addr → Option GuardError
by_range none = some private_internal_ip
by_range (some a) = if is_internal_range (unmap a) then some private_internal_ip else none

v4-by_range :
    (n : ℕ)
    → n < two_32
    → (if is_internal (v4 n)
        then some private_internal_ip
        else if in_blocked_prefixes (v4 n)
        then some private_internal_ip
        else none)
      ≡ (if is_internal_range (v4 n) then some private_internal_ip else none)
unfolding in_ranges is_internal_range
v4-by_range n h =
    rw
      (
        private_10 n h,
        private_172 n h,
        private_192 n h,
        loopback_127 n h,
        link_local_169 n h,
        multicast_224 n h,
        unspecified_0 n h,
        blocked_100 n h,
        blocked_198 n h,
      )
      (same_tests (within 167772160 184549375 n) (within 2886729728 2887778303 n)
        (within 3232235520 3232301055 n) (within 2130706432 2147483647 n)
        (within 2851995648 2852061183 n)
        (n / 16777216 == 224 && (n / 65536 % 256 == 0) && (n / 256 % 256 == 0))
        (within 3758096384 4026531839 n) (within 0 0 n) (within 1681915904 1686110207 n)
        (within 3323068416 3323199487 n) (λ e. rw (multicast_224 n h) at (link_local_224 n h e)))

private_fc : (h : ℕ) → (h / 512 == 126) ≡ (leb 64512 h && leb h 65023)
private_fc h = ground arith

link_local_fe : (h : ℕ) → (h / 64 == 1018) ≡ (leb 65152 h && leb h 65215)
link_local_fe h = ground arith

multicast_ff : (h : ℕ) → (h / 256 == 255) ≡ (leb 65280 h && leb h 65535)
multicast_ff h = ground arith

loopback_1 : (n : ℕ) → ((n == 1) || (n == 0)) ≡ leb n 1
loopback_1 n = ground arith

same_tests_v6 :
    (fc lo fe lm im ff un : Bool)
    → (if fc || lo || fe || (ff && lm) || (ff && im) || ff || un
        then some private_internal_ip
        else if false
        then some private_internal_ip
        else none)
      ≡ (if (lo || un) || (fc || (fe || (ff || false))) then some private_internal_ip else none)
same_tests_v6 fc lo fe lm im ff un = ground arith

v6-by_range :
    (n : ℕ)
    → (if is_internal (v6 n)
        then some private_internal_ip
        else if in_blocked_prefixes (v6 n)
        then some private_internal_ip
        else none)
      ≡ (if is_internal_range (v6 n) then some private_internal_ip else none)
unfolding in_ranges is_internal_range
v6-by_range n =
    let h = n / two_112 in
    rw (private_fc h, link_local_fe h, multicast_ff h, ← loopback_1 n)
      (same_tests_v6 (within 64512 65023 h) (n == 1) (within 65152 65215 h) (h % 16 == 2)
        (h % 16 == 1) (within 65280 65535 h) (n == 0))

abbrev pub IsAddress : Ip → Type 0
IsAddress (ip_v4 n) = n < two_32
IsAddress (ip_v6 n) = n < two_128
IsAddress other_bytes = Unit

-- Of an address of its 32 or 128 bits, ValidatePublicIP refuses exactly what lies in one of the
-- internal ranges once an IPv4 address mapped into IPv6 is taken as such, and what is no address.
pub validate_public_ip-by_range :
    (ip : Ip) → IsAddress ip → validate_public_ip ip ≡ by_range (addr_from_slice ip)
unfolding validate_public_ip addr_from_slice
validate_public_ip-by_range (ip_v4 n) h = v4-by_range n h
validate_public_ip-by_range (ip_v6 n) h = elim (Bool-cases (n / two_32 == 65535)) [
  | inl mapped ↦ rw mapped (v4-by_range (n % two_32) (omega arith))
  | inr native ↦ rw native (v6-by_range n)
]
validate_public_ip-by_range other_bytes h = refl
