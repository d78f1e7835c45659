-- ===== src/Outbound/Address/Blocks.antt =====
-- src/outbound.rs: the public IPv4 addresses, against a table of address blocks.
use open_tf_mirror.Base.{
  ℕ, ◌+◌, ◌*◌, ◌-◌, ◌≤◌, ◌<◌, ◌≡◌, ◌↔◌, ◌⊎◌, Bool, true, false, not, ◌&&◌, ◌||◌, ◌==◌, ltb, leb,
  List, [], ◌∷◌, All, arith,
}
use open_tf_mirror.Outbound.Address.{Ipv4Addr, is_multicast, is_public_v4}

abbrev pub IsIpv4 : Ipv4Addr → Type 0
IsIpv4 ip = (ip.first < 256) × (ip.second < 256) × (ip.third < 256) × (ip.fourth < 256)

-- The address as a number of 32 bits.
abbrev pub value : Ipv4Addr → ℕ
value ip = ip.first * 16777216 + ip.second * 65536 + ip.third * 256 + ip.fourth

-- `a.b.c.0` with a prefix of some bits is the block of `size` addresses from its first.
abbrev block : ℕ → ℕ → ℕ → ℕ → ℕ × ℕ
block a b c size = (a * 16777216 + b * 65536 + c * 256, size)

-- 0/8, 10/8, 100.64/10, 127/8, 169.254/16, 172.16/12, 192.0/16, 192.88.99/24, 192.168/16,
-- 198.18/15, 198.51.100/24, 203.0.113/24 and 224/3.
abbrev pub reserved : List (ℕ × ℕ)
reserved =
    block 0 0 0 16777216
    ∷ block 10 0 0 16777216
    ∷ block 100 64 0 4194304
    ∷ block 127 0 0 16777216
    ∷ block 169 254 0 65536
    ∷ block 172 16 0 1048576
    ∷ block 192 0 0 65536
    ∷ block 192 88 99 256
    ∷ block 192 168 0 65536
    ∷ block 198 18 0 131072
    ∷ block 198 51 100 256
    ∷ block 203 0 113 256
    ∷ block 224 0 0 536870912
    ∷ []

-- The address lies outside a block.
abbrev pub IsOutside : ℕ → ℕ × ℕ → Type 0
IsOutside v (base, size) = (v < base) ⊎ (base + size ≤ v)

-- The conjunction of the code, taken apart.
peel :
    (a b c d e f g h i j k l m n o p : Bool)
    → (not (a || b || c)
        && not d
        && not e
        && not f
        && not g
        && not h
        && i
        && not j
        && not k
        && not l
        && not m
        && not n
        && not o
        && not p)
      ≡ true
    → (h ≡ false)
      × (a ≡ false)
      × (j ≡ false)
      × (d ≡ false)
      × (e ≡ false)
      × (b ≡ false)
      × (k ≡ false)
      × (l ≡ false)
      × (c ≡ false)
      × (n ≡ false)
      × (o ≡ false)
      × (p ≡ false)
      × (i ≡ true)
peel a b c d e f g h i j k l m n o p q = ground arith

below_multicast : (ip : Ipv4Addr) → ltb ip.first 224 ≡ true → is_multicast ip ≡ false
below_multicast ip h = ground arith

-- A test of leading octets fails exactly outside the block of that prefix.
module _ (ip : Ipv4Addr) (h : IsIpv4 ip) where
  prefix_8 : (a : ℕ) → ((ip.first == a) ≡ false) ↔ IsOutside (value ip) (block a 0 0 16777216)
  prefix_8 a = (λ e. ground arith, λ o. ground arith)

  prefix_16 :
      (a b : ℕ)
      → b < 256
      → ((ip.first == a && ip.second == b) ≡ false) ↔ IsOutside (value ip) (block a b 0 65536)
  prefix_16 a b k = (λ e. ground arith, λ o. ground arith)

  prefix_24 :
      (a b c : ℕ)
      → b < 256
      → c < 256
      → ((ip.first == a && ip.second == b && ip.third == c) ≡ false)
        ↔ IsOutside (value ip) (block a b c 256)
  prefix_24 a b c k l = (λ e. ground arith, λ o. ground arith)

  prefix_range :
      (a b c : ℕ)
      → c < 256
      → b ≤ c
      → ((ip.first == a && (leb b ip.second && leb ip.second c)) ≡ false)
        ↔ IsOutside (value ip) (block a b 0 ((c + 1 - b) * 65536))
  prefix_range a b c k l = (λ e. ground arith, λ o. ground arith)

  prefix_15 :
      ((ip.first == 198 && (ip.second == 18 || ip.second == 19)) ≡ false)
      ↔ IsOutside (value ip) (block 198 18 0 131072)
  prefix_15 = (λ e. ground arith, λ o. ground arith)

  prefix_3 : (ltb ip.first 224 ≡ true) ↔ IsOutside (value ip) (block 224 0 0 536870912)
  prefix_3 = (λ e. ground arith, λ o. ground arith)

  -- What the tests say together; those of broader blocks cover the rest.
  all_tests : (is_public_v4 ip ≡ true) ↔ (
      ((ip.first == 0) ≡ false)
      × ((ip.first == 10) ≡ false)
      × ((ip.first == 100 && (leb 64 ip.second && leb ip.second 127)) ≡ false)
      × ((ip.first == 127) ≡ false)
      × ((ip.first == 169 && ip.second == 254) ≡ false)
      × ((ip.first == 172 && (leb 16 ip.second && leb ip.second 31)) ≡ false)
      × ((ip.first == 192 && ip.second == 0) ≡ false)
      × ((ip.first == 192 && ip.second == 88 && ip.third == 99) ≡ false)
      × ((ip.first == 192 && ip.second == 168) ≡ false)
      × ((ip.first == 198 && (ip.second == 18 || ip.second == 19)) ≡ false)
      × ((ip.first == 198 && ip.second == 51 && ip.third == 100) ≡ false)
      × ((ip.first == 203 && ip.second == 0 && ip.third == 113) ≡ false)
      × (ltb ip.first 224 ≡ true))
  unfolding is_public_v4
  all_tests = (
    λ e. peel _ _ _ _ _ _ _ _ _ _ _ _ _ _ _ _ e,
    λ (a, b, c, d, e, f, g, i, j, k, l, m, n).
        rw (a, b, c, d, e, f, g, i, j, k, l, m, below_multicast ip n, n),
  )

  -- For every IPv4 address, `is_public_ip` holds exactly when the address lies outside all thirteen
  -- blocks of the table of private, shared, reserved and documentation addresses.
  pub is_public_v4_iff : (is_public_v4 ip ≡ true) ↔ All (IsOutside (value ip)) reserved
  is_public_v4_iff = (
    λ e.
        let (a, b, c, d, e, f, g, i, j, k, l, m, n) = all_tests.0 e in
        (
          (prefix_8 0).0 a,
          (
            (prefix_8 10).0 b,
            (
              (prefix_range 100 64 127 (omega arith) (omega arith)).0 c,
              (
                (prefix_8 127).0 d,
                (
                  (prefix_16 169 254 (omega arith)).0 e,
                  (
                    (prefix_range 172 16 31 (omega arith) (omega arith)).0 f,
                    (
                      (prefix_16 192 0 (omega arith)).0 g,
                      (
                        (prefix_24 192 88 99 (omega arith) (omega arith)).0 i,
                        (
                          (prefix_16 192 168 (omega arith)).0 j,
                          (
                            prefix_15.0 k,
                            (
                              (prefix_24 198 51 100 (omega arith) (omega arith)).0 l,
                              (
                                (prefix_24 203 0 113 (omega arith) (omega arith)).0 m,
                                (prefix_3.0 n, tt),
                              ),
                            ),
                          ),
                        ),
                      ),
                    ),
                  ),
                ),
              ),
            ),
          ),
        ),
    λ (a, (b, (c, (d, (e, (f, (g, (i, (j, (k, (l, (m, (n, _))))))))))))). all_tests.1 (
      (prefix_8 0).1 a,
      (prefix_8 10).1 b,
      (prefix_range 100 64 127 (omega arith) (omega arith)).1 c,
      (prefix_8 127).1 d,
      (prefix_16 169 254 (omega arith)).1 e,
      (prefix_range 172 16 31 (omega arith) (omega arith)).1 f,
      (prefix_16 192 0 (omega arith)).1 g,
      (prefix_24 192 88 99 (omega arith) (omega arith)).1 i,
      (prefix_16 192 168 (omega arith)).1 j,
      prefix_15.1 k,
      (prefix_24 198 51 100 (omega arith) (omega arith)).1 l,
      (prefix_24 203 0 113 (omega arith) (omega arith)).1 m,
      prefix_3.1 n,
    ),
  )
