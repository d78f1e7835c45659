-- ===== src/Outbound/Address/Embedded.antt =====
-- src/outbound.rs: an IPv6 address that embeds an IPv4 address is as public as that one.
use open_tf_mirror.Base.{ℕ, ◌+◌, ◌*◌, ◌≡◌, arith}
use open_tf_mirror.Outbound.Address.{
  Ipv4Addr, Ipv6Addr, v4, v6, is_public_v6, is_public_ip, embedded_v4,
}
use open_tf_mirror.Outbound.Address.Blocks.{IsIpv4}

abbrev pub high : Ipv4Addr → ℕ
high ip = ip.first * 256 + ip.second

abbrev pub low : Ipv4Addr → ℕ
low ip = ip.third * 256 + ip.fourth

-- The four forms in which an IPv6 address carries an IPv4 address: `::a.b.c.d`, `::ffff:a.b.c.d`,
-- `64:ff9b::a.b.c.d` (NAT64) and `2002:aabb:ccdd::/48` (6to4).
pub data Embeds (ip : Ipv4Addr) : Ipv6Addr → Type 0 where
  compatible :
      Embeds ip
        (record { s₀ = 0; s₁ = 0; s₂ = 0; s₃ = 0; s₄ = 0; s₅ = 0; s₆ = high ip; s₇ = low ip })
  mapped :
      Embeds ip
        (record { s₀ = 0; s₁ = 0; s₂ = 0; s₃ = 0; s₄ = 0; s₅ = 0xffff; s₆ = high ip; s₇ = low ip })
  nat64 :
      Embeds ip (record {
        s₀ = 0x64;
        s₁ = 0xff9b;
        s₂ = 0;
        s₃ = 0;
        s₄ = 0;
        s₅ = 0;
        s₆ = high ip;
        s₇ = low ip;
      })
  six_to_four :
      (a b c d e : ℕ)
      → Embeds ip (record {
        s₀ = 0x2002;
        s₁ = high ip;
        s₂ = low ip;
        s₃ = a;
        s₄ = b;
        s₅ = c;
        s₆ = d;
        s₇ = e;
      })

embedded-high-low : (ip : Ipv4Addr) → IsIpv4 ip → embedded_v4 (high ip) (low ip) ≡ ip
embedded-high-low ip h = ground arith

-- In all four forms, `is_public_ip` answers for the IPv6 address what it answers for the IPv4 one.
pub is_public_ip-Embeds :
    (ip : Ipv4Addr) (outer : Ipv6Addr)
    → IsIpv4 ip
    → Embeds ip outer
    → is_public_ip (v6 outer) ≡ is_public_ip (v4 ip)
unfolding is_public_ip is_public_v6
is_public_ip-Embeds ip outer h compatible = rw (embedded-high-low ip h)
is_public_ip-Embeds ip outer h mapped = rw (embedded-high-low ip h)
is_public_ip-Embeds ip outer h nat64 = rw (embedded-high-low ip h)
is_public_ip-Embeds ip outer h (six_to_four a b c d e) = rw (embedded-high-low ip h)
