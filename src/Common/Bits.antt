-- ===== src/Common/Bits.antt =====
-- The response bit: what a bitwise or with 0x8000 does to a 16-bit word.
use Prim.Native.Nat.{ℕ, zero, suc, ◌+◌, ◌-◌, ◌%◌, ◌<◌, bit_or}
use mathlib.Core.Path.{◌≡◌, refl, subst}
use mathlib.Core.Logic.{inl, inr}
use mathlib.Core.Bool.{Bool, true, false}
use native.Mathlib.Decide.{dec_lt}
use native.Mathlib.Omega.{arith}
use ocp_canopy_open_bmc.Common.Tests.{◌==◌, ==_iff, if◌then◌else◌, Bool-cases}

-- Whether two functions give the same numbers at 0, 1, ..., n - 1.
agree : (ℕ → ℕ) → (ℕ → ℕ) → ℕ → Bool
agree f g zero = true
agree f g (suc n) = if f n == g n then agree f g n else false

agree-at : (f g : ℕ → ℕ) (n : ℕ) → agree f g n ≡ true → (x : ℕ) → x < n → f x ≡ g x
unfolding agree
agree-at f g zero same x below = absurd (omega arith)
agree-at f g (suc n) same x below = elim (Bool-cases (f n == g n)) [
  | inr differ ↦ cc (rw differ at same)
  | inl hit ↦ elim (dec_lt x n) [
    | yes before ↦ agree-at f g n (rw hit at same) x before
    | no last ↦
        subst (λ w. f w ≡ g w) {x = n} {y = x} (omega (arith, last, below))
          ((==_iff (f n) (g n)).0 hit)
  ]
]

abbrev marked : ℕ → ℕ
marked w = bit_or w 0x8000

clear_words : agree marked (λ w. w + 32768) 32768 ≡ true
unfolding agree
clear_words = refl

set_words : agree (λ w. marked (w + 32768)) (λ w. w + 32768) 32768 ≡ true
unfolding agree
set_words = refl

-- Setting bit 15 of a 16-bit word.
pub bit_or_top : (x : ℕ) → x < 65536 → bit_or x 0x8000 ≡ x % 32768 + 32768
bit_or_top x word = elim (dec_lt x 32768) [
  | yes clear ↦ omega (arith, agree-at marked (λ w. w + 32768) 32768 clear_words x clear)
  | no set ↦
      let y : ℕ = x - 32768 in
      let whole : y + 32768 ≡ x = omega (arith, set) in
      let here =
        agree-at (λ w. marked (w + 32768)) (λ w. w + 32768) 32768 set_words y
          (omega (arith, word)) in
      omega (arith, rw whole at here)
]
