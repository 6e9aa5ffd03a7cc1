-- ===== src/Base/Equal.antt =====
-- Equality of numbers as a test.
use Prim.Native.Nat.{ℕ}
use native.Mathlib.Omega.{arith}
use mathlib.Core.Path.{◌≡◌}
use mathlib.Core.Bool.{Bool, true}
use package.provider_upjet_unifi.Base.Tests.{==_iff}
use package.provider_upjet_unifi.Base.Tests

-- Both `==` of numbers and `==` of strings are used in some modules: this is the one of numbers.
abbrev pub same : ℕ → ℕ → Bool
same a b = Tests.◌==◌ a b

pub same_eq : (a b : ℕ) → same a b ≡ true → a ≡ b
same_eq a b h = (==_iff a b).0 h

pub same_refl : (a : ℕ) → same a a ≡ true
same_refl a = ground arith
