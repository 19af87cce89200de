-- ===== src/Hdlc/Fcs16/Bitwise.antt =====
-- The frame check sequence one bit at a time, as the standard defines it, and the table against it.
use hdlcd.Base.{
  ℕ, zero, suc, ◌*◌, ◌/◌, ◌%◌, ◌^◌, ◌<◌, bit_xor, ◌≡◌, refl, sym, ap, ◌∙◌, inl, inr, List, [], ◌∷◌,
  true, arith, ◌==◌, ==_iff, if◌then◌else◌, Bool-cases, all_below, all_below_sound, All,
}
use hdlcd.Base.Bits.{
  bit_xor_assoc, bit_xor-div_two, bit_xor-mod_two, bit_xor-div_byte, bit_xor-zero, bit_xor_concat,
  mul-pow-suc,
}
use hdlcd.Hdlc.Fcs16.{fcs_entry, fcs_step, pppfcs16}

-- One bit leaves the register; the polynomial x^16 + x^12 + x^5 + 1 is 0x8408 in this bit order.
pub shift_bit : ℕ → ℕ
shift_bit x = if x % 2 == 1 then bit_xor (x / 2) 0x8408 else x / 2

pub shift_bits : ℕ → ℕ → ℕ
shift_bits zero x = x
shift_bits (suc n) x = shift_bits n (shift_bit x)

pub bitwise_fcs16 : ℕ → List ℕ → ℕ
bitwise_fcs16 fcs [] = fcs
bitwise_fcs16 fcs (byte ∷ bytes) = bitwise_fcs16 (shift_bits 8 (bit_xor fcs byte)) bytes

fcs_entry_table : all_below 256 (λ i. fcs_entry i == shift_bits 8 i) ≡ true
unfolding all_below fcs_entry shift_bits shift_bit
fcs_entry_table = refl

-- Each entry of the table is eight shifts of its index.
pub fcs_entry_lem : (i : ℕ) → i < 256 → fcs_entry i ≡ shift_bits 8 i
fcs_entry_lem i h = (==_iff _ _).0 (all_below_sound 256 _ i fcs_entry_table h)

-- Bits above the lowest one pass through a shift.
shift_bit-bit_xor : (h l : ℕ) → shift_bit (bit_xor (2 * h) l) ≡ bit_xor h (shift_bit l)
unfolding shift_bit
shift_bit-bit_xor h l = elim (Bool-cases (l % 2 == 1)) [
  | inl odd ↦ rw (odd, low ∙ odd) (ap (λ t. bit_xor t 0x8408) half ∙ bit_xor_assoc h (l / 2) 0x8408)
  | inr even ↦ rw (even, low ∙ even) half
]
  where
    low : (bit_xor (2 * h) l % 2 == 1) ≡ (l % 2 == 1)
    low = ap (λ t. t == 1) (bit_xor-mod_two (2 * h) l ∙ omega arith)

    half : bit_xor (2 * h) l / 2 ≡ bit_xor h (l / 2)
    half = bit_xor-div_two (2 * h) l ∙ ap (λ t. bit_xor t (l / 2)) (omega arith)

shift_bits-bit_xor : (n h l : ℕ) → shift_bits n (bit_xor (h * 2 ^ n) l) ≡ bit_xor h (shift_bits n l)
unfolding shift_bits
shift_bits-bit_xor zero h l = ap (λ t. bit_xor t l) (omega arith)
shift_bits-bit_xor (suc n) h l =
    rw (mul-pow-suc h n, shift_bit-bit_xor (h * 2 ^ n) l) (shift_bits-bit_xor n h (shift_bit l))

-- One table step is eight shifts of the register with the byte put in.
pub fcs_step_lem : (fcs byte : ℕ) → byte < 256 → fcs_step fcs byte ≡ shift_bits 8 (bit_xor fcs byte)
unfolding fcs_step
fcs_step_lem fcs byte h =
    ap (bit_xor (fcs / 256)) (fcs_entry_lem (bit_xor fcs byte % 256) (omega arith))
    ∙ sym (shift_bits-bit_xor 8 (fcs / 256) (bit_xor fcs byte % 256))
    ∙ ap (shift_bits 8) together
  where
    upper : bit_xor fcs byte / 256 ≡ fcs / 256
    upper =
        bit_xor-div_byte fcs byte
        ∙ ap (bit_xor (fcs / 256)) (omega arith)
        ∙ bit_xor-zero (fcs / 256)

    together : bit_xor (fcs / 256 * 256) (bit_xor fcs byte % 256) ≡ bit_xor fcs byte
    together =
        bit_xor_concat (fcs / 256) (bit_xor fcs byte % 256) (omega arith) ∙ omega (arith, upper)

-- The table-driven sequence is the bit-at-a-time sequence of the standard, on every list of bytes
-- and from every start value.
pub pppfcs16-bitwise_fcs16 :
    (fcs : ℕ) (bytes : List ℕ)
    → All (λ b. b < 256) bytes
    → pppfcs16 fcs bytes ≡ bitwise_fcs16 fcs bytes
unfolding pppfcs16 bitwise_fcs16
pppfcs16-bitwise_fcs16 fcs [] h = refl
pppfcs16-bitwise_fcs16 fcs (byte ∷ bytes) h =
    rw (fcs_step_lem fcs byte h.0)
      (pppfcs16-bitwise_fcs16 (shift_bits 8 (bit_xor fcs byte)) bytes h.1)
