-- ===== src/Protocol/Addressing.antt =====
-- The virtual IPv6 plan of pkg/protocol/vaddr6.go: which addresses it gives, and that it gives
-- each to one member of one group.
use lanet.Base.{ℕ, ◌/◌, ◌%◌, ◌≤◌, ◌≡◌, true, [], ◌∷◌, arith, ok}
use lanet.Netip.{Addr, v6, Prefix, IsAddr, contains}
use lanet.Protocol.{ula_prefix, group_ipv6_prefix, member_ipv6}

-- The address of host `h` of subnet `n`, by its bytes.
abbrev pub member_addr : ℕ → ℕ → Addr
member_addr n h = v6 (
    0xfd
    ∷ 0
    ∷ 0x6c
    ∷ 0x61
    ∷ 0x6e
    ∷ 0x65
    ∷ (n / 256 % 256)
    ∷ (n % 256)
    ∷ 0
    ∷ 0
    ∷ 0
    ∷ 0
    ∷ 0
    ∷ 0
    ∷ (h / 256 % 256)
    ∷ (h % 256)
    ∷ [])

pub member_ipv6-eq-ok :
    (n h : ℕ) → n ≤ 0xffff → 2 ≤ h → h ≤ 254 → member_ipv6 n h ≡ ok (member_addr n h)
unfolding member_ipv6
member_ipv6-eq-ok n h a b c = ground arith

-- Two members with one IPv6 address have one subnet number and one host number.
pub member_ipv6-injective :
    (n h n' h' : ℕ) (a : Addr)
    → member_ipv6 n h ≡ ok a
    → member_ipv6 n' h' ≡ ok a
    → (n ≡ n') × (h ≡ h')
unfolding member_ipv6
member_ipv6-injective n h n' h' a p q = ground arith

-- Every address that `MemberIPv6` gives is valid, lies in the lanet /48, and lies in the /64 that
-- `GroupIPv6Prefix` gives the member's group.
pub member_ipv6-contains :
    (n h : ℕ) (p : Prefix) (a : Addr)
    → group_ipv6_prefix n ≡ ok p
    → member_ipv6 n h ≡ ok a
    → IsAddr a × (contains ula_prefix a ≡ true) × (contains p a ≡ true)
unfolding member_ipv6
member_ipv6-contains n h p a e f = ground arith

pub member_ipv6-IsAddr : (n h : ℕ) (a : Addr) → member_ipv6 n h ≡ ok a → IsAddr a
unfolding member_ipv6
member_ipv6-IsAddr n h a e = ground arith
