-- ===== src/Hdlc/Fcs16/Detection.antt =====
-- FCS16.cpp: what the frame check sequence detects, and the residue of a good frame.
use hdlcd.Base.{
  ℕ, zero, suc, ◌+◌, ◌*◌, ◌/◌, ◌%◌, ◌^◌, ◌<◌, bit_xor, ◌≡◌, refl, sym, ap, ap₂, ◌∙◌, ◌↔◌, List, [],
  ◌∷◌, ◌++◌, true, arith, ◌==◌, ==_iff, ltb, if◌then◌else◌, all_below, all_below_sound,
}
use hdlcd.Base.Bits.{
  bit_xor_comm, zero-bit_xor, bit_xor_cancel, bit_xor_injective, bit_xor-lt, bit_xor-mod_byte,
  bit_xor-div_byte,
}
use hdlcd.Hdlc.Fcs16.{fcs_entry, fcs_step, pppfcs16, ppp_good_fcs16}

-- The two bytes that a sender appends for the register `fcs`: its complement, low byte first.
unfoldable pub fcs_low : ℕ → ℕ
fcs_low fcs = bit_xor fcs 0xffff % 2 ^ 8

unfoldable pub fcs_high : ℕ → ℕ
fcs_high fcs = bit_xor fcs 0xffff / 2 ^ 8 % 2 ^ 8

fcs_entry_lt_table : all_below 256 (λ i. ltb (fcs_entry i) 65536) ≡ true
unfolding all_below fcs_entry
fcs_entry_lt_table = refl

fcs_entry-lt : (i : ℕ) → i < 256 → fcs_entry i < 65536
fcs_entry-lt i h =
    ground (arith, all_below_sound 256 (λ i. ltb (fcs_entry i) 65536) i fcs_entry_lt_table h)

-- The register keeps to 16 bits.
pub fcs_step-lt : (fcs byte : ℕ) → fcs < 65536 → fcs_step fcs byte < 65536
unfolding fcs_step
fcs_step-lt fcs byte h =
    bit_xor-lt 16 (fcs / 256) (fcs_entry (bit_xor fcs byte % 256)) (omega arith)
      (fcs_entry-lt (bit_xor fcs byte % 256) (omega arith))

pub pppfcs16-lt : (fcs : ℕ) (bytes : List ℕ) → fcs < 65536 → pppfcs16 fcs bytes < 65536
unfolding pppfcs16
pppfcs16-lt fcs [] h = h
pppfcs16-lt fcs (byte ∷ bytes) h = pppfcs16-lt (fcs_step fcs byte) bytes (fcs_step-lt fcs byte h)

pub pppfcs16-append :
    (fcs : ℕ) (xs ys : List ℕ) → pppfcs16 fcs (xs ++ ys) ≡ pppfcs16 (pppfcs16 fcs xs) ys
unfolding pppfcs16
pppfcs16-append fcs [] ys = refl
pppfcs16-append fcs (x ∷ xs) ys = pppfcs16-append (fcs_step fcs x) xs ys

-- After the low byte the register depends on its high half alone.
residue_table :
    all_below 256 (λ h. fcs_step (bit_xor h (fcs_entry 0xff)) (bit_xor h 0xff) == ppp_good_fcs16)
    ≡ true
unfolding all_below fcs_step fcs_entry
residue_table = refl

-- A register followed by its own two bytes always ends in the good value.
pub fcs_residue :
    (fcs : ℕ) → fcs < 65536 → pppfcs16 fcs (fcs_low fcs ∷ fcs_high fcs ∷ []) ≡ ppp_good_fcs16
unfolding pppfcs16 fcs_low fcs_high
fcs_residue fcs h =
    ap₂ fcs_step first high
    ∙ (==_iff _ _).0 (all_below_sound 256 _ (fcs / 256) residue_table (omega arith))
  where
    low : bit_xor fcs 0xffff % 256 ≡ bit_xor (fcs % 256) 0xff
    low = bit_xor-mod_byte fcs 0xffff

    index : bit_xor fcs (bit_xor fcs 0xffff % 256) % 256 ≡ 0xff
    index =
        bit_xor-mod_byte fcs (bit_xor fcs 0xffff % 256)
        ∙ ap (bit_xor (fcs % 256)) (omega (arith, low))
        ∙ bit_xor_cancel (fcs % 256) 0xff

    first : fcs_step fcs (bit_xor fcs 0xffff % 256) ≡ bit_xor (fcs / 256) (fcs_entry 0xff)
    first = unfold fcs_step in ap (λ t. bit_xor (fcs / 256) (fcs_entry t)) index

    high : bit_xor fcs 0xffff / 256 % 256 ≡ bit_xor (fcs / 256) 0xff
    high = omega (
      arith,
      bit_xor-div_byte fcs 0xffff,
      bit_xor-lt 8 (fcs / 256) 0xff (omega arith) (omega arith),
    )

-- Undoing shifts: the bit that went out shows in the highest bit.
unshift_bit : ℕ → ℕ
unshift_bit y = if ltb y 0x8000 then y * 2 else bit_xor y 0x8408 * 2 + 1

unshift_bits : ℕ → ℕ → ℕ
unshift_bits zero y = y
unshift_bits (suc n) y = unshift_bits n (unshift_bit y)

-- The table index, from the high byte of its entry.
index_of : ℕ → ℕ
index_of high = unshift_bits 8 (high * 256) % 256

index_of_table : all_below 256 (λ i. index_of (fcs_entry i / 256) == i) ≡ true
unfolding all_below fcs_entry index_of unshift_bits unshift_bit
index_of_table = refl

index_of-fcs_entry : (i : ℕ) → i < 256 → index_of (fcs_entry i / 256) ≡ i
index_of-fcs_entry i h = (==_iff _ _).0 (all_below_sound 256 _ i index_of_table h)

-- A step's result tells which entry it used.
index_of-fcs_step :
    (fcs byte : ℕ) → fcs < 65536 → index_of (fcs_step fcs byte / 256) ≡ bit_xor fcs byte % 256
unfolding fcs_step
index_of-fcs_step fcs byte h =
    ap index_of (
      bit_xor-div_byte (fcs / 256) (fcs_entry (bit_xor fcs byte % 256))
      ∙ ap (λ t. bit_xor t (fcs_entry (bit_xor fcs byte % 256) / 256)) (omega arith)
      ∙ zero-bit_xor _)
    ∙ index_of-fcs_entry (bit_xor fcs byte % 256) (omega arith)

-- Two steps that end alike used the same entry.
fcs_step_index :
    (a b x y : ℕ)
    → a < 65536
    → b < 65536
    → fcs_step a x / 256 ≡ fcs_step b y / 256
    → bit_xor a x % 256 ≡ bit_xor b y % 256
fcs_step_index a b x y ha hb e =
    sym (index_of-fcs_step a x ha) ∙ ap index_of e ∙ index_of-fcs_step b y hb

-- From one register, the byte can be told from the high half of the result.
fcs_step_byte :
    (fcs x y : ℕ)
    → fcs < 65536
    → x < 256
    → y < 256
    → fcs_step fcs x / 256 ≡ fcs_step fcs y / 256
    → x ≡ y
fcs_step_byte fcs x y h hx hy e = bit_xor_injective (fcs % 256) x y (
    omega (
      arith,
      fcs_step_index fcs fcs x y h h e,
      bit_xor-mod_byte fcs x,
      bit_xor-mod_byte fcs y,
      ap (bit_xor (fcs % 256)) (small x hx),
      ap (bit_xor (fcs % 256)) (small y hy),
    ))
  where
    small : (n : ℕ) → n < 256 → n % 256 ≡ n
    small n h = omega arith

-- A step with a given byte loses nothing of the register.
pub fcs_step_injective : (a b x : ℕ) → a < 65536 → b < 65536 → fcs_step a x ≡ fcs_step b x → a ≡ b
fcs_step_injective a b x ha hb e = omega (arith, low, high)
  where
    index : bit_xor a x % 256 ≡ bit_xor b x % 256
    index = fcs_step_index a b x x ha hb (ap (λ t. t / 256) e)

    low : a % 256 ≡ b % 256
    low = bit_xor_injective (x % 256) (a % 256) (b % 256) (
        bit_xor_comm (x % 256) (a % 256)
        ∙ sym (bit_xor-mod_byte a x)
        ∙ index
        ∙ bit_xor-mod_byte b x
        ∙ bit_xor_comm (b % 256) (x % 256))

    high : a / 256 ≡ b / 256
    high = bit_xor_injective (fcs_entry (bit_xor a x % 256)) (a / 256) (b / 256) (
        bit_xor_comm (fcs_entry (bit_xor a x % 256)) (a / 256)
        ∙ unfold fcs_step in
          e
          ∙ ap (λ t. bit_xor (b / 256) (fcs_entry t)) (sym index)
          ∙ bit_xor_comm (b / 256) (fcs_entry (bit_xor a x % 256)))

pub pppfcs16_injective :
    (a b : ℕ) (bytes : List ℕ) → a < 65536 → b < 65536 → pppfcs16 a bytes ≡ pppfcs16 b bytes → a ≡ b
unfolding pppfcs16
pppfcs16_injective a b [] ha hb e = e
pppfcs16_injective a b (x ∷ bytes) ha hb e = fcs_step_injective a b x ha hb (
    pppfcs16_injective (fcs_step a x) (fcs_step b x) bytes (fcs_step-lt a x ha) (fcs_step-lt b x hb)
      e)

-- Two bytes next to each other are determined by the register before and after them.
two_steps :
    (fcs a b x y : ℕ)
    → fcs < 65536
    → (a < 256) × (b < 256) × (x < 256) × (y < 256)
    → fcs_step (fcs_step fcs a) b ≡ fcs_step (fcs_step fcs x) y
    → (a ≡ x) × (b ≡ y)
two_steps fcs a b x y h (ha, hb, hx, hy) e = (first, second)
  where
    index : bit_xor (fcs_step fcs a) b % 256 ≡ bit_xor (fcs_step fcs x) y % 256
    index =
        fcs_step_index (fcs_step fcs a) (fcs_step fcs x) b y (fcs_step-lt fcs a h)
          (fcs_step-lt fcs x h) (ap (λ t. t / 256) e)

    high : fcs_step fcs a / 256 ≡ fcs_step fcs x / 256
    high = bit_xor_injective (fcs_entry (bit_xor (fcs_step fcs a) b % 256)) _ _ (
        bit_xor_comm (fcs_entry (bit_xor (fcs_step fcs a) b % 256)) _
        ∙ unfold fcs_step in
          e
          ∙ ap (λ t. bit_xor (fcs_step fcs x / 256) (fcs_entry t)) (sym index)
          ∙ bit_xor_comm _ (fcs_entry (bit_xor (fcs_step fcs a) b % 256)))

    first : a ≡ x
    first = fcs_step_byte fcs a x h ha hx high

    second : b ≡ y
    second =
        fcs_step_byte (fcs_step fcs a) b y (fcs_step-lt fcs a h) hb hy
          (ap (λ t. t / 256) (e ∙ ap (λ t. fcs_step (fcs_step fcs t) y) (sym first)))

-- Two messages that differ in at most two neighbouring bytes have different check sequences: equal
-- sequences from the same 16-bit start make the bytes equal.
pub pppfcs16_detects :
    (fcs : ℕ) (before after : List ℕ) (a b x y : ℕ)
    → fcs < 65536
    → (a < 256) × (b < 256) × (x < 256) × (y < 256)
    → pppfcs16 fcs (before ++ a ∷ b ∷ after) ≡ pppfcs16 fcs (before ++ x ∷ y ∷ after)
    → (a ≡ x) × (b ≡ y)
unfolding pppfcs16
pppfcs16_detects fcs before after a b x y h bytes e =
    two_steps (pppfcs16 fcs before) a b x y start bytes (
      pppfcs16_injective _ _ after (two_steps-lt a b) (two_steps-lt x y) (
        sym (pppfcs16-append fcs before (a ∷ b ∷ after))
        ∙ e
        ∙ pppfcs16-append fcs before (x ∷ y ∷ after)))
  where
    start : pppfcs16 fcs before < 65536
    start = pppfcs16-lt fcs before h

    two_steps-lt : (m n : ℕ) → fcs_step (fcs_step (pppfcs16 fcs before) m) n < 65536
    two_steps-lt m n = fcs_step-lt _ n (fcs_step-lt _ m start)

-- From a register below 65536 and after any bytes, the good value is reached by the two bytes that the
-- sender appends, and by no other two bytes.
pub pppfcs16_good_iff :
    (fcs lo hi : ℕ) (bytes : List ℕ)
    → fcs < 65536
    → lo < 256
    → hi < 256
    → (pppfcs16 fcs (bytes ++ lo ∷ hi ∷ []) ≡ ppp_good_fcs16)
      ↔ ((lo ≡ fcs_low (pppfcs16 fcs bytes)) × (hi ≡ fcs_high (pppfcs16 fcs bytes)))
pppfcs16_good_iff fcs lo hi bytes h hlo hhi = (
  λ e. pppfcs16_detects fcs bytes [] lo hi low high h (hlo, hhi, low-lt, high-lt) (e ∙ sym good),
  λ p.
      ap (λ t. pppfcs16 fcs (bytes ++ t ∷ hi ∷ [])) p.0
      ∙ ap (λ t. pppfcs16 fcs (bytes ++ low ∷ t ∷ [])) p.1
      ∙ good,
)
  where
    low : ℕ
    low = fcs_low (pppfcs16 fcs bytes)

    high : ℕ
    high = fcs_high (pppfcs16 fcs bytes)

    low-lt : low < 256
    low-lt = unfold fcs_low in omega arith

    high-lt : high < 256
    high-lt = unfold fcs_high in omega arith

    good : pppfcs16 fcs (bytes ++ low ∷ high ∷ []) ≡ ppp_good_fcs16
    good =
        pppfcs16-append fcs bytes (low ∷ high ∷ [])
        ∙ fcs_residue (pppfcs16 fcs bytes) (pppfcs16-lt fcs bytes h)
