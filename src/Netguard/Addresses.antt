-- ===== src/Netguard/Addresses.antt =====
-- internal/netguard/netguard.go: ValidatePublicIP. An address is a number: 32 bits of IPv4, 128 bits
-- of IPv6 in the order of the network, or a slice of bytes of another length.
use pinchtab.Prelude.{ℕ, ◌/◌, ◌%◌, Bool, false, ◌&&◌, ◌||◌, Option, none, some, ◌==◌, if◌then◌else◌}

-- net.IP
pub data Ip : Type 0 where
  ip_v4 : ℕ → Ip
  ip_v6 : ℕ → Ip
  other_bytes : Ip

-- netip.Addr, with its zero value
pub data Addr : Type 0 where
  no_addr : Addr
  v4 : ℕ → Addr
  v6 : ℕ → Addr

pub data GuardError : Type 0 where
  resolve_host : GuardError
  private_internal_ip : GuardError
  unparseable_remote_ip : GuardError

-- 2^32, 2^112 and 2^128
abbrev pub two_32 : ℕ
two_32 = 4294967296

abbrev pub two_112 : ℕ
two_112 = 5192296858534827628530496329220096

abbrev pub two_128 : ℕ
two_128 = 340282366920938463463374607431768211456

-- netip.AddrFromSlice, and then Unmap: an IPv4 address mapped into IPv6, ::ffff:0:0/96
abbrev pub unmap : Addr → Addr
unmap no_addr = no_addr
unmap (v4 n) = v4 n
unmap (v6 n) = if n / two_32 == 65535 then v4 (n % two_32) else v6 n

unfoldable pub addr_from_slice : Ip → Option Addr
addr_from_slice (ip_v4 n) = some (v4 n)
addr_from_slice (ip_v6 n) = some (v6 n)
addr_from_slice other_bytes = none

-- the bytes of an IPv4 address, and the first 16 bits of an IPv6 address
abbrev byte_0 : ℕ → ℕ
byte_0 n = n / 16777216

abbrev byte_1 : ℕ → ℕ
byte_1 n = n / 65536 % 256

abbrev byte_2 : ℕ → ℕ
byte_2 n = n / 256 % 256

abbrev head : ℕ → ℕ
head n = n / two_112

-- 10/8, 172.16/12, 192.168/16 and fc00::/7
abbrev is_private : Addr → Bool
is_private (v4 n) =
    byte_0 n == 10
    || (byte_0 n == 172 && (byte_1 n / 16 == 1))
    || (byte_0 n == 192 && (byte_1 n == 168))
is_private no_addr = false
is_private (v6 n) = head n / 512 == 126

abbrev pub is_loopback : Addr → Bool
is_loopback (v4 n) = byte_0 n == 127
is_loopback no_addr = false
is_loopback (v6 n) = n == 1

-- 169.254/16 and fe80::/10
abbrev is_link_local_unicast : Addr → Bool
is_link_local_unicast (v4 n) = byte_0 n == 169 && (byte_1 n == 254)
is_link_local_unicast no_addr = false
is_link_local_unicast (v6 n) = head n / 64 == 1018

-- 224.0.0/24 and ff_2::/16
abbrev is_link_local_multicast : Addr → Bool
is_link_local_multicast (v4 n) = byte_0 n == 224 && (byte_1 n == 0) && (byte_2 n == 0)
is_link_local_multicast no_addr = false
is_link_local_multicast (v6 n) = head n / 256 == 255 && (head n % 16 == 2)

abbrev is_interface_local_multicast : Addr → Bool
is_interface_local_multicast (v4 n) = false
is_interface_local_multicast no_addr = false
is_interface_local_multicast (v6 n) = head n / 256 == 255 && (head n % 16 == 1)

abbrev is_multicast : Addr → Bool
is_multicast (v4 n) = byte_0 n / 16 == 14
is_multicast no_addr = false
is_multicast (v6 n) = head n / 256 == 255

abbrev is_unspecified : Addr → Bool
is_unspecified (v4 n) = n == 0
is_unspecified no_addr = false
is_unspecified (v6 n) = n == 0

-- the blocked prefixes 100.64.0.0/10 and 198.18.0.0/15
abbrev pub in_blocked_prefixes : Addr → Bool
in_blocked_prefixes (v4 n) = n / 4194304 == 401 || (n / 131072 == 25353)
in_blocked_prefixes no_addr = false
in_blocked_prefixes (v6 n) = false

abbrev pub is_internal : Addr → Bool
is_internal a =
    is_private a
    || is_loopback a
    || is_link_local_unicast a
    || is_link_local_multicast a
    || is_interface_local_multicast a
    || is_multicast a
    || is_unspecified a

abbrev pub validate_addr : Option Addr → Option GuardError
validate_addr none = some private_internal_ip
validate_addr (some a) =
    if is_internal (unmap a)
    then some private_internal_ip
    else if in_blocked_prefixes (unmap a)
    then some private_internal_ip
    else none

-- ValidatePublicIP; a nil address is a slice of no bytes
unfoldable pub validate_public_ip : Ip → Option GuardError
unfolding addr_from_slice
validate_public_ip ip = validate_addr (addr_from_slice ip)
