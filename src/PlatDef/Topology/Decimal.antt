-- ===== src/PlatDef/Topology/Decimal.antt =====
-- Decimal numbers, as the kernel prints them in names, against `std::stoul` and `std::stoi`.
use native.Mathlib.Omega.{pow_step}
use ocp_canopy_open_bmc.Common.{
  ℕ, zero, suc, ◌+◌, ◌-◌, ◌*◌, ◌/◌, ◌%◌, ◌^◌, ◌≤◌, ◌<◌, ◌≡◌, refl, ap, ◌∙◌, true, false, ltb, leb,
  ◌==◌, ◌&&◌, ◌||◌, if◌then◌else◌, Bool-cases, inl, inr, ltb→lt, ltb→le, some, [], ◌∷◌, ◌++◌, arith,
  Bytes, All, All-append, length, length-append, pos,
}
use ocp_canopy_open_bmc.PlatDef.Topology.{
  is_digit, is_space, skip_space, digits_value, magnitude, sign, unsigned_of, stoul, int_of, stoi,
}

-- The digits of a number that has at most so many.
abbrev pub decimal : ℕ → ℕ → Bytes
decimal zero n = []
decimal (suc k) n =
    let front = decimal k (n / 10) in
    if ltb n 10 then (48 + n) ∷ [] else front ++ ((48 + n % 10) ∷ [])

abbrev IsDigit : ℕ → Type 0
IsDigit c = (48 ≤ c) × (c < 58)

-- What a row of digits is for the readers.
record Reads (bs : Bytes) (n : ℕ) : Type 0 where
  digits : All IsDigit bs
  some_digit : 0 < length bs
  value : digits_value 0 bs ≡ n

digits_value-snoc :
    (bs : Bytes) (acc d : ℕ)
    → All IsDigit bs
    → d < 10
    → digits_value acc (bs ++ ((48 + d) ∷ [])) ≡ digits_value acc bs * 10 + d
unfolding digits_value is_digit
digits_value-snoc [] acc d digits small = ground (arith, small)
digits_value-snoc (b ∷ bs) acc d digits small =
    ground (arith, digits_value-snoc bs (acc * 10 + (b - 48)) d digits.1 small, digits.0)

more_digits : (k n : ℕ) → 10 ≤ n → n < 10 ^ suc k → 0 < k
more_digits zero n large small = absurd (omega arith)
more_digits (suc k) n large small = omega arith

decimal-Reads : (k n : ℕ) → n < 10 ^ k → 0 < k → Reads (decimal k n) n
unfolding digits_value is_digit
decimal-Reads zero n small some_digit = absurd (omega arith)
decimal-Reads (suc k) n small some_digit = elim (Bool-cases (ltb n 10)) [
  | inl one ↦ rw one (record {
    digits = ((omega arith, omega (arith, ltb→lt n 10 one)), tt);
    some_digit = omega arith;
    value = ground (arith, ltb→lt n 10 one);
  })
  | inr more ↦
      let large = ltb→le n 10 more in
      let front = decimal k (n / 10) in
      let rest =
        decimal-Reads k (n / 10) (omega (arith, pow_step 10 k))
          (more_digits k n large (omega arith)) in
      let last : n % 10 < 10 = omega arith in
      rw more (record {
        digits =
            All-append IsDigit front ((48 + n % 10) ∷ []) rest.digits
              ((omega arith, omega (arith, last)), tt);
        some_digit = omega (arith, length-append front ((48 + n % 10) ∷ []));
        value =
            digits_value-snoc front 0 (n % 10) rest.digits last
            ∙ ap (λ v. v * 10 + n % 10) rest.value
            ∙ omega arith;
      })
]

-- Digits are neither space nor a sign.
digits-plain :
    (bs : Bytes)
    → All IsDigit bs
    → 0 < length bs
    → (sign (skip_space bs) ≡ (false, bs)) × (magnitude bs ≡ some (digits_value 0 bs))
unfolding sign skip_space is_space magnitude is_digit
digits-plain [] digits some_digit = absurd (omega arith)
digits-plain (b ∷ bs) digits some_digit =
    let not_space : (b == 32 || (leb 9 b && ltb b 14)) ≡ false = ground (arith, digits.0) in
    let not_minus : (b == 45) ≡ false = ground (arith, digits.0) in
    let not_plus : (b == 43) ≡ false = ground (arith, digits.0) in
    let digit : (leb 48 b && ltb b 58) ≡ true = ground (arith, digits.0) in
    rw (not_space, not_minus, not_plus, digit) (refl, refl)

-- A number of at most k digits that is printed in decimal is read back by `std::stoul`, if it has at
-- most 32 bits.
pub stoul-decimal : (k n : ℕ) → 0 < k → n < 10 ^ k → n < 2 ^ 32 → stoul (decimal k n) ≡ some n
unfolding stoul unsigned_of
stoul-decimal k n some_digit fits small =
    let reads = decimal-Reads k n fits some_digit in
    let (plain, says) = digits-plain (decimal k n) reads.digits reads.some_digit in
    let in_range : leb 4294967296 n ≡ false = ground (arith, small) in
    rw (plain, says, reads.value, in_range) refl

-- And by `std::stoi`, if it has at most 31 bits.
pub stoi-decimal : (k n : ℕ) → 0 < k → n < 10 ^ k → n < 2 ^ 31 → stoi (decimal k n) ≡ some (pos n)
unfolding stoi int_of
stoi-decimal k n some_digit fits small =
    let reads = decimal-Reads k n fits some_digit in
    let (plain, says) = digits-plain (decimal k n) reads.digits reads.some_digit in
    let in_range : leb 2147483648 n ≡ false = ground (arith, small) in
    rw (plain, says, reads.value, in_range) refl
