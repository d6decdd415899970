-- ===== src/Net/Masks.antt =====
-- The masks of src/proxy/ip_guard.rs on an octet, as divisions.
use Prim.Native.Nat.{bit_and}
use s.Common.{
  ℕ, zero, suc, ◌*◌, ◌/◌, ◌<◌, ◌≡◌, refl, Bool, true, false, arith, ◌==◌, ==_iff, if◌then◌else◌,
}

-- A test that every octet below a bound passes.
holds_on : (ℕ → Bool) → ℕ → Bool
holds_on test zero = true
holds_on test (suc bound) = if holds_on test bound then test bound else false

holds_on-lt :
    (test : ℕ → Bool) (octet bound : ℕ)
    → octet < bound
    → holds_on test bound ≡ true
    → test octet ≡ true
unfolding holds_on
holds_on-lt test octet zero below passed = absurd (omega arith)
holds_on-lt test octet (suc bound) below passed =
    ground (arith, passed, holds_on-lt test octet bound)

table_f0 : holds_on (λ x. bit_and x 0xf0 == x / 16 * 16) 256 ≡ true
unfolding holds_on
table_f0 = refl

table_c0 : holds_on (λ x. bit_and x 0xc0 == x / 64 * 64) 256 ≡ true
unfolding holds_on
table_c0 = refl

-- The upper four bits of an octet, and the upper two.
pub bit_and-f0 : (x : ℕ) → x < 256 → bit_and x 0xf0 ≡ x / 16 * 16
bit_and-f0 x h = (==_iff _ _).0 (holds_on-lt _ x 256 h table_f0)

pub bit_and-c0 : (x : ℕ) → x < 256 → bit_and x 0xc0 ≡ x / 64 * 64
bit_and-c0 x h = (==_iff _ _).0 (holds_on-lt _ x 256 h table_c0)
