-- ===== src/Common/Text.antt =====
-- Byte strings: equality, and C strings in fixed buffers.
use Prim.Native.Nat.{◌≤◌}
use mathlib.Core.Path.{◌≡◌, refl}
use mathlib.Core.Logic.{◌↔◌, ◌≢◌}
use mathlib.Core.Bool.{Bool, true, false, ◌&&◌}
use mathlib.Core.List.{[], ◌∷◌}
use native.Mathlib.Omega.{arith}
use ocp_canopy_open_bmc.Common.Tests.{◌==◌, if◌then◌else◌}
use ocp_canopy_open_bmc.Common.Lists.{length, All}
use ocp_canopy_open_bmc.Common.Words.{Bytes}

-- `==` of two `std::string`s.
unfoldable pub same : Bytes → Bytes → Bool
same [] [] = true
same (x ∷ xs) (y ∷ ys) = x == y && same xs ys
same _ _ = false

pub same_iff : (a b : Bytes) → (same a b ≡ true) ↔ (a ≡ b)
unfolding same
same_iff (x ∷ a) (y ∷ b) = ground (arith, same_iff a b)
same_iff _ _ = ground arith

-- The C string that stands at the front of a buffer.
abbrev pub until_nul : Bytes → Bytes
until_nul [] = []
until_nul (b ∷ bs) = let rest = b ∷ until_nul bs in if b == 0 then [] else rest

-- A string without a NUL byte.
abbrev pub NoNul : Bytes → Type 0
NoNul bs = All (λ b. b ≢ 0) bs

pub until_nul-NoNul : (bs : Bytes) → NoNul (until_nul bs)
until_nul-NoNul [] = tt
until_nul-NoNul (b ∷ bs) = ground (arith, until_nul-NoNul bs)

pub length-until_nul : (bs : Bytes) → length (until_nul bs) ≤ length bs
length-until_nul [] = omega arith
length-until_nul (b ∷ bs) = ground (arith, length-until_nul bs)

pub until_nul-NoNul_self : (s : Bytes) → NoNul s → until_nul s ≡ s
until_nul-NoNul_self [] h = refl
until_nul-NoNul_self (b ∷ s) h = ground (arith, until_nul-NoNul_self s h.1)
