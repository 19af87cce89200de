-- ===== src/Base/Bits.antt =====
-- Laws of the bitwise operations at variables, from their recursion on binary digits.
use Prim.Native.Nat.{
  ℕ, zero, suc, ◌+◌, ◌*◌, ◌/◌, ◌%◌, ◌^◌, ◌≤◌, ◌<◌, min, bit_and, bit_xor, digits, bitwise, differ,
  bit_and-bitwise, bit_xor-bitwise,
}
use mathlib.Core.Path.{◌≡◌, refl, sym, ap, ◌∙◌}
use native.Mathlib.Nat.{pow-suc, le_refl}
use native.Mathlib.Omega.{arith}

module _ (z : ℕ → ℕ) (f : ℕ → ℕ → ℕ) where
  -- More fuel than digits changes nothing.
  digits_enough :
      (a b : ℕ) {fuel more : ℕ} → a ≤ fuel → a ≤ more → digits z f fuel a b ≡ digits z f more a b
  digits_enough zero b {fuel = zero} {more = zero} h k = refl
  digits_enough zero b {fuel = zero} {more = suc more} h k = refl
  digits_enough zero b {fuel = suc fuel} {more = zero} h k = refl
  digits_enough zero b {fuel = suc fuel} {more = suc more} h k = refl
  digits_enough (suc a) b {fuel = zero} h k = absurd (omega arith)
  digits_enough (suc a) b {fuel = suc fuel} {more = zero} h k = absurd (omega arith)
  digits_enough (suc a) b {fuel = suc fuel} {more = suc more} h k =
      let above = digits_enough (suc a / 2) (b / 2) {fuel = fuel} {more = more} in
      rw (above (omega arith) (omega arith))

  -- The digits above the last one are those of the halves.
  bitwise_half :
      (m n : ℕ)
      → bitwise z f (suc m) n ≡ f (suc m % 2) (n % 2) + 2 * bitwise z f (suc m / 2) (n / 2)
  bitwise_half m n =
      let above = digits_enough (suc m / 2) (n / 2) {fuel = m} {more = suc m / 2} in
      omega (arith, above (omega arith) (le_refl (suc m / 2)))

differ_bits : (x y : ℕ) → x < 2 → y < 2 → differ x y ≡ (x + y) % 2
differ_bits zero y h k = omega arith
differ_bits (suc zero) zero h k = refl
differ_bits (suc zero) (suc zero) h k = refl
differ_bits (suc zero) (suc (suc y)) h k = absurd (omega arith)
differ_bits (suc (suc x)) y h k = absurd (omega arith)

pub bit_xor_step : (a b : ℕ) → bit_xor a b ≡ bit_xor (a / 2) (b / 2) * 2 + (a % 2 + b % 2) % 2
bit_xor_step zero b = simp bit_xor-bitwise (omega arith)
bit_xor_step (suc a) b =
    simp bit_xor-bitwise (omega (arith, bitwise_half (λ y. y) differ a b))
    ∙ ap (λ t. bit_xor (suc a / 2) (b / 2) * 2 + t)
        (differ_bits (suc a % 2) (b % 2) (omega arith) (omega arith))

-- The last digit of a conjunction and the digits above it.
and_digits :
    (m n : ℕ) → bit_and (suc m) n ≡ bit_and (suc m / 2) (n / 2) * 2 + min (suc m % 2) (n % 2)
and_digits m n = simp bit_and-bitwise (omega (arith, bitwise_half (λ y. 0) min m n))

bit_and-le_fuel : (n a b : ℕ) → a ≤ n → bit_and a b ≤ b
bit_and-le_fuel n zero b h = omega (arith, bit_and-bitwise 0 b)
bit_and-le_fuel zero (suc a) b h = absurd (omega arith)
bit_and-le_fuel (suc n) (suc a) b h =
    omega (arith, and_digits a b, bit_and-le_fuel n (suc a / 2) (b / 2) (omega arith))

-- Masking never exceeds the mask.
pub bit_and-le : (a b : ℕ) → bit_and a b ≤ b
bit_and-le a b = bit_and-le_fuel a a b (le_refl _)

pub zero-bit_xor : (b : ℕ) → bit_xor 0 b ≡ b
zero-bit_xor b = bit_xor-bitwise 0 b

pub bit_xor-div_two : (a b : ℕ) → bit_xor a b / 2 ≡ bit_xor (a / 2) (b / 2)
bit_xor-div_two a b = omega (arith, bit_xor_step a b)

pub bit_xor-mod_two : (a b : ℕ) → bit_xor a b % 2 ≡ (a % 2 + b % 2) % 2
bit_xor-mod_two a b = omega (arith, bit_xor_step a b)

bit_xor_comm_fuel : (n a b : ℕ) → a + b ≤ n → bit_xor a b ≡ bit_xor b a
bit_xor_comm_fuel zero zero zero h = refl
bit_xor_comm_fuel zero zero (suc b) h = absurd (omega arith)
bit_xor_comm_fuel zero (suc a) b h = absurd (omega arith)
bit_xor_comm_fuel (suc n) zero zero h = refl
bit_xor_comm_fuel (suc n) zero (suc b) h = omega (
  arith,
  bit_xor_step 0 (suc b),
  bit_xor_step (suc b) 0,
  bit_xor_comm_fuel n 0 (suc b / 2) (omega arith),
)
bit_xor_comm_fuel (suc n) (suc a) b h = omega (
  arith,
  bit_xor_step (suc a) b,
  bit_xor_step b (suc a),
  bit_xor_comm_fuel n (suc a / 2) (b / 2) (omega arith),
)

pub bit_xor_comm : (a b : ℕ) → bit_xor a b ≡ bit_xor b a
bit_xor_comm a b = bit_xor_comm_fuel (a + b) a b (le_refl _)

-- One digit of associativity, from the digits above it.
bit_xor_assoc_digit :
    (a b c : ℕ)
    → bit_xor (bit_xor (a / 2) (b / 2)) (c / 2) ≡ bit_xor (a / 2) (bit_xor (b / 2) (c / 2))
    → bit_xor (bit_xor a b) c ≡ bit_xor a (bit_xor b c)
bit_xor_assoc_digit a b c e = omega (
  arith,
  bit_xor_step (bit_xor a b) c,
  bit_xor_step a (bit_xor b c),
  bit_xor-mod_two a b,
  bit_xor-mod_two b c,
  ap (λ t. bit_xor t (c / 2)) (bit_xor-div_two a b),
  ap (bit_xor (a / 2)) (bit_xor-div_two b c),
  e,
)

bit_xor_assoc_fuel :
    (n a b c : ℕ) → a + b + c ≤ n → bit_xor (bit_xor a b) c ≡ bit_xor a (bit_xor b c)
bit_xor_assoc_fuel n zero b c h =
    ap (λ t. bit_xor t c) (zero-bit_xor b) ∙ sym (zero-bit_xor (bit_xor b c))
bit_xor_assoc_fuel zero (suc a) b c h = absurd (omega arith)
bit_xor_assoc_fuel (suc n) (suc a) b c h =
    bit_xor_assoc_digit (suc a) b c (bit_xor_assoc_fuel n (suc a / 2) (b / 2) (c / 2) (omega arith))

pub bit_xor_assoc : (a b c : ℕ) → bit_xor (bit_xor a b) c ≡ bit_xor a (bit_xor b c)
bit_xor_assoc a b c = bit_xor_assoc_fuel (a + b + c) a b c (le_refl _)

bit_xor-self_fuel : (n a : ℕ) → a ≤ n → bit_xor a a ≡ 0
bit_xor-self_fuel n zero h = refl
bit_xor-self_fuel zero (suc a) h = absurd (omega arith)
bit_xor-self_fuel (suc n) (suc a) h =
    omega (arith, bit_xor_step (suc a) (suc a), bit_xor-self_fuel n (suc a / 2) (omega arith))

pub bit_xor_self : (a : ℕ) → bit_xor a a ≡ 0
bit_xor_self a = bit_xor-self_fuel a a (le_refl _)

pub bit_xor-zero : (a : ℕ) → bit_xor a 0 ≡ a
bit_xor-zero a = bit_xor_comm a 0 ∙ zero-bit_xor a

-- The same operand cancels.
pub bit_xor_cancel : (a b : ℕ) → bit_xor a (bit_xor a b) ≡ b
bit_xor_cancel a b =
    sym (bit_xor_assoc a a b) ∙ ap (λ t. bit_xor t b) (bit_xor_self a) ∙ zero-bit_xor b

pub bit_xor_injective : (a b c : ℕ) → bit_xor a b ≡ bit_xor a c → b ≡ c
bit_xor_injective a b c e = sym (bit_xor_cancel a b) ∙ ap (bit_xor a) e ∙ bit_xor_cancel a c

pub bit_xor-lt : (k a b : ℕ) → a < 2 ^ k → b < 2 ^ k → bit_xor a b < 2 ^ k
bit_xor-lt zero zero zero ha hb = omega arith
bit_xor-lt zero zero (suc b) ha hb = absurd (omega arith)
bit_xor-lt zero (suc a) b ha hb = absurd (omega arith)
bit_xor-lt (suc k) a b ha hb = omega (
  arith,
  bit_xor_step a b,
  pow-suc 2 k,
  bit_xor-lt k (a / 2) (b / 2) (omega (arith, pow-suc 2 k)) (omega (arith, pow-suc 2 k)),
)

pub mul-pow-suc : (q k : ℕ) → q * 2 ^ suc k ≡ 2 * (q * 2 ^ k)
mul-pow-suc q k = omega (arith, ap (λ (t : ℕ). q * t) (pow-suc 2 k))

-- The operation acts on the fields of two words separately.
pub bit_xor_fields :
    (k a b c d : ℕ)
    → b < 2 ^ k
    → d < 2 ^ k
    → bit_xor (a * 2 ^ k + b) (c * 2 ^ k + d) ≡ bit_xor a c * 2 ^ k + bit_xor b d
bit_xor_fields zero a zero c zero hb hd = ground arith
bit_xor_fields zero a (suc b) c d hb hd = absurd (omega arith)
bit_xor_fields zero a zero c (suc d) hb hd = absurd (omega arith)
bit_xor_fields (suc k) a b c d hb hd = ground (
  arith,
  bit_xor_step (a * 2 ^ suc k + b) (c * 2 ^ suc k + d),
  bit_xor_step b d,
  mul-pow-suc a k,
  mul-pow-suc c k,
  mul-pow-suc (bit_xor a c) k,
  pow-suc 2 k,
  bit_xor_fields k a (b / 2) c (d / 2) (omega (arith, pow-suc 2 k)) (omega (arith, pow-suc 2 k)),
)

-- A word is the pair of its high and its low byte.
pub bit_xor_bytes :
    (s b : ℕ) → bit_xor s b ≡ bit_xor (s / 256) (b / 256) * 256 + bit_xor (s % 256) (b % 256)
bit_xor_bytes s b =
    ap (λ t. bit_xor t b) (the_fields s)
    ∙ ap (bit_xor (s / 256 * 256 + s % 256)) (the_fields b)
    ∙ bit_xor_fields 8 (s / 256) (s % 256) (b / 256) (b % 256) (omega arith) (omega arith)
  where
    the_fields : (n : ℕ) → n ≡ n / 256 * 256 + n % 256
    the_fields n = omega arith

pub bit_xor-mod_byte : (s b : ℕ) → bit_xor s b % 256 ≡ bit_xor (s % 256) (b % 256)
bit_xor-mod_byte s b =
    omega (arith, bit_xor_bytes s b, bit_xor-lt 8 (s % 256) (b % 256) (omega arith) (omega arith))

pub bit_xor-div_byte : (s b : ℕ) → bit_xor s b / 256 ≡ bit_xor (s / 256) (b / 256)
bit_xor-div_byte s b =
    omega (arith, bit_xor_bytes s b, bit_xor-lt 8 (s % 256) (b % 256) (omega arith) (omega arith))

-- Disjoint fields add up.
pub bit_xor_concat : (h l : ℕ) → l < 256 → bit_xor (h * 256) l ≡ h * 256 + l
bit_xor_concat h l lt =
    ap (λ t. bit_xor t l) wide
    ∙ ap (bit_xor (h * 256 + 0)) low
    ∙ bit_xor_fields 8 h 0 0 l (omega arith) lt
    ∙ omega (arith, bit_xor-zero h, zero-bit_xor l)
  where
    wide : h * 256 ≡ h * 256 + 0
    wide = omega arith

    low : l ≡ 0 * 256 + l
    low = omega arith
