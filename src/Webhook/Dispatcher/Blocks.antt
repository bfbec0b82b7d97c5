-- ===== src/Webhook/Dispatcher/Blocks.antt =====
-- The private blocks of IPv4 and IPv6 as prefixes of addresses, and that the tests of the guard find them.
use telegram_rest_gateway.Prelude.{
  ℕ, zero, suc, ◌+◌, ◌-◌, ◌/◌, ◌^◌, ◌≡◌, refl, ap, subst, Bool, true, false, ◌&&◌, List, [], ◌∷◌,
  ◌++◌, map, arith, leb, if◌then◌else◌, ◌==◌, nat_eq, Bytes, bytes_eq, length, get_or, drop, any,
}
use telegram_rest_gateway.Webhook.Dispatcher.{
  is_private_ipv4_octets, octet, all_zero, is_mapped, is_private_ipv6,
}

-- The address starts with the first bits of the prefix.
abbrev pub in_cidr : Bytes → Bytes × ℕ → Bool
in_cidr address ([], bits) = true
in_cidr [] (p ∷ ps, bits) = false
in_cidr (b ∷ bs) (p ∷ ps, bits) =
    if leb 8 bits
    then b == p && in_cidr bs (ps, bits - 8)
    else b / 2 ^ (8 - bits) == p / 2 ^ (8 - bits)

-- 127/8, 10/8, 0/8, 192.168/16, 172.16/12 and 169.254/16
abbrev pub private_ipv4 : List (Bytes × ℕ)
private_ipv4 =
    (127 ∷ [], 8)
    ∷ (10 ∷ [], 8)
    ∷ (0 ∷ [], 8)
    ∷ (192 ∷ 168 ∷ [], 16)
    ∷ (172 ∷ 16 ∷ [], 12)
    ∷ (169 ∷ 254 ∷ [], 16)
    ∷ []

abbrev pub zeros : ℕ → Bytes
zeros zero = []
zeros (suc n) = 0 ∷ zeros n

-- An IPv4 block as a block of IPv6 addresses, after 96 bits.
abbrev pub after : Bytes → Bytes × ℕ → Bytes × ℕ
after prefix (p, bits) = (prefix ++ p, 96 + bits)

-- ::, ::1, fc00::/7, fe80::/10, and the IPv4 blocks in ::ffff:0:0/96 and in ::/96
abbrev pub private_ipv6 : List (Bytes × ℕ)
private_ipv6 =
    (zeros 16, 128)
      ∷ (zeros 15 ++ 1 ∷ [], 128)
      ∷ (252 ∷ [], 7)
      ∷ (254 ∷ 128 ∷ [], 10)
      ∷ map (after (zeros 10 ++ 255 ∷ 255 ∷ [])) private_ipv4
    ++ map (after (zeros 12)) private_ipv4

-- The test of the guard on the first two octets finds exactly the private blocks.
pub ipv4_private :
    (o0 o1 o2 o3 : ℕ)
    → is_private_ipv4_octets o0 o1 ≡ any (in_cidr (o0 ∷ o1 ∷ o2 ∷ o3 ∷ [])) private_ipv4
unfolding is_private_ipv4_octets
ipv4_private o0 o1 o2 o3 = ground arith

-- The first bytes of an address, n of them.
tabulate : ℕ → Bytes → Bytes
tabulate zero b = []
tabulate (suc n) b = get_or b 0 0 ∷ tabulate n (drop 1 b)

tabulate-length : (n : ℕ) (b : Bytes) → length b ≡ n → tabulate n b ≡ b
unfolding tabulate
tabulate-length zero [] h = refl
tabulate-length zero (x ∷ b) h = ground (arith, h)
tabulate-length (suc n) [] h = ground (arith, h)
tabulate-length (suc n) (x ∷ b) h = ap (◌∷◌ x) (tabulate-length n b (omega (arith, h)))

ipv6_private_bytes :
    (a b c d e f g h i j k l m n o p : ℕ)
    → let buf = a ∷ b ∷ c ∷ d ∷ e ∷ f ∷ g ∷ h ∷ i ∷ j ∷ k ∷ l ∷ m ∷ n ∷ o ∷ p ∷ [] in
      is_private_ipv6 buf ≡ any (in_cidr buf) private_ipv6
unfolding is_private_ipv6 all_zero octet is_mapped is_private_ipv4_octets
ipv6_private_bytes a b c d e f g h i j k l m n o p = ground arith

-- The test of the guard on the 16 bytes finds exactly the private blocks.
pub ipv6_private :
    (buf : Bytes) → length buf ≡ 16 → is_private_ipv6 buf ≡ any (in_cidr buf) private_ipv6
unfolding tabulate
ipv6_private buf h =
    subst (λ b. is_private_ipv6 b ≡ any (in_cidr b) private_ipv6) (tabulate-length 16 buf h)
      (ipv6_private_bytes _ _ _ _ _ _ _ _ _ _ _ _ _ _ _ _)
