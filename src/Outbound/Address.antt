-- ===== src/Outbound/Address.antt =====
-- src/outbound.rs: `is_public_ip`, with the methods of the standard library's addresses that it
-- calls. A mask with a block of high bits is a division: `segment & 0xfe00 == 0xfc00` is
-- `segment / 512 == 126`.
pub mod Blocks
pub mod Embedded
use open_tf_mirror.Base.{
  ℕ, ◌+◌, ◌*◌, ◌/◌, ◌%◌, Bool, true, false, not, ◌&&◌, ◌||◌, ◌==◌, ltb, leb, if◌then◌else◌, Option,
  some, none,
}

pub record Ipv4Addr : Type 0 where
  pub first : ℕ
  pub second : ℕ
  pub third : ℕ
  pub fourth : ℕ

-- The eight segments of 16 bits.
pub record Ipv6Addr : Type 0 where
  pub s₀ : ℕ
  pub s₁ : ℕ
  pub s₂ : ℕ
  pub s₃ : ℕ
  pub s₄ : ℕ
  pub s₅ : ℕ
  pub s₆ : ℕ
  pub s₇ : ℕ

pub data IpAddr : Type 0 where
  v4 : Ipv4Addr → IpAddr
  v6 : Ipv6Addr → IpAddr

-- 10.0.0.0/8, 172.16.0.0/12 and 192.168.0.0/16
abbrev pub is_private : Ipv4Addr → Bool
is_private ip =
    ip.first == 10
    || (ip.first == 172 && (leb 16 ip.second && leb ip.second 31))
    || (ip.first == 192 && ip.second == 168)

abbrev pub is_loopback : Ipv4Addr → Bool
is_loopback ip = ip.first == 127

abbrev pub is_link_local : Ipv4Addr → Bool
is_link_local ip = ip.first == 169 && ip.second == 254

abbrev pub is_unspecified : Ipv4Addr → Bool
is_unspecified ip = ip.first == 0 && ip.second == 0 && ip.third == 0 && ip.fourth == 0

abbrev pub is_multicast : Ipv4Addr → Bool
is_multicast ip = leb 224 ip.first && leb ip.first 239

unfoldable pub is_public_v4 : Ipv4Addr → Bool
is_public_v4 ip =
    not (is_private ip)
    && not (is_loopback ip)
    && not (is_link_local ip)
    && not (is_unspecified ip)
    && not (is_multicast ip)
    && not (ip.first == 0)
    && ltb ip.first 224
    && not (ip.first == 100 && (leb 64 ip.second && leb ip.second 127))
    && not (ip.first == 192 && ip.second == 0)
    && not (ip.first == 192 && ip.second == 88 && ip.third == 99)
    && not (ip.first == 192 && ip.second == 0 && ip.third == 2)
    && not (ip.first == 198 && (ip.second == 18 || ip.second == 19))
    && not (ip.first == 198 && ip.second == 51 && ip.third == 100)
    && not (ip.first == 203 && ip.second == 0 && ip.third == 113)

-- `Ipv4Addr::new` of the bytes of two segments
abbrev pub embedded_v4 : ℕ → ℕ → Ipv4Addr
embedded_v4 high low = record {
  first = high / 256;
  second = high % 256;
  third = low / 256;
  fourth = low % 256;
}

-- `::a.b.c.d` and `::ffff:a.b.c.d`
abbrev pub to_ipv4 : Ipv6Addr → Option Ipv4Addr
to_ipv4 ip =
    if ip.s₀ == 0
      && ip.s₁ == 0
      && ip.s₂ == 0
      && ip.s₃ == 0
      && ip.s₄ == 0
      && (ip.s₅ == 0 || ip.s₅ == 0xffff)
    then some (embedded_v4 ip.s₆ ip.s₇)
    else none

abbrev pub is_nat64 : Ipv6Addr → Bool
is_nat64 ip =
    ip.s₀ == 0x64 && ip.s₁ == 0xff9b && ip.s₂ == 0 && ip.s₃ == 0 && ip.s₄ == 0 && ip.s₅ == 0

abbrev pub is_loopback_v6 : Ipv6Addr → Bool
is_loopback_v6 ip =
    ip.s₀ == 0
    && ip.s₁ == 0
    && ip.s₂ == 0
    && ip.s₃ == 0
    && ip.s₄ == 0
    && ip.s₅ == 0
    && ip.s₆ == 0
    && ip.s₇ == 1

abbrev pub is_unspecified_v6 : Ipv6Addr → Bool
is_unspecified_v6 ip =
    ip.s₀ == 0
    && ip.s₁ == 0
    && ip.s₂ == 0
    && ip.s₃ == 0
    && ip.s₄ == 0
    && ip.s₅ == 0
    && ip.s₆ == 0
    && ip.s₇ == 0

-- What is left when no IPv4 address is embedded.
unfoldable pub is_public_native : Ipv6Addr → Bool
is_public_native ip =
    not (is_loopback_v6 ip)
    && not (is_unspecified_v6 ip)
    && not (ip.s₀ / 256 == 0xff)
    && not (ip.s₀ / 512 == 126)
    && not (ip.s₀ / 64 == 1018)
    && not (ip.s₀ / 64 == 1019)
    && not (ip.s₀ == 0x2001 && ip.s₁ == 0x0db8)

unfoldable pub is_public_v6 : Ipv6Addr → Bool
is_public_v6 ip = elim (to_ipv4 ip) [
  | some ipv4 ↦ is_public_v4 ipv4
  | none ↦
      if is_nat64 ip
      then is_public_v4 (embedded_v4 ip.s₆ ip.s₇)
      else if ip.s₀ == 0x2002
      then is_public_v4 (embedded_v4 ip.s₁ ip.s₂)
      else is_public_native ip
]

unfoldable pub is_public_ip : IpAddr → Bool
is_public_ip (v4 ip) = is_public_v4 ip
is_public_ip (v6 ip) = is_public_v6 ip
