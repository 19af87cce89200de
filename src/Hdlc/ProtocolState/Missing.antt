-- ===== src/Hdlc/ProtocolState/Missing.antt =====
-- ProtocolState.cpp: the loop that lists the sequence numbers of the I-frames that were lost.
use hdlcd.Base.{
  ℕ, zero, suc, ◌+◌, ◌-◌, ◌%◌, ◌<◌, ◌≡◌, refl, ap, Bool, true, false, ◌&&◌, List, [], ◌∷◌, Option,
  none, some, arith, ◌==◌, ==_iff, all_below, all_below_sound,
}
use hdlcd.Hdlc.ProtocolState.Receive.{missing}

-- `n` numbers in a row.
pub count_up : (from n : ℕ) → List ℕ
count_up from zero = []
count_up from (suc n) = from ∷ count_up (from + 1) n

same_list : List ℕ → List ℕ → Bool
same_list [] [] = true
same_list [] (y ∷ ys) = false
same_list (x ∷ xs) [] = false
same_list (x ∷ xs) (y ∷ ys) = (x == y) && same_list xs ys

same_list_sound : (xs ys : List ℕ) → same_list xs ys ≡ true → xs ≡ ys
unfolding same_list
same_list_sound [] [] h = refl
same_list_sound [] (y ∷ ys) h = absurd (cc h)
same_list_sound (x ∷ xs) [] h = absurd (cc h)
same_list_sound (x ∷ xs) (y ∷ ys) h = ground (arith, h, same_list_sound xs ys, ==_iff x y)

lists : Option (List ℕ) → List ℕ → Bool
lists none ys = false
lists (some xs) ys = same_list xs ys

lists_sound : (o : Option (List ℕ)) (ys : List ℕ) → lists o ys ≡ true → o ≡ some ys
unfolding lists
lists_sound none ys h = absurd (cc h)
lists_sound (some xs) ys h = ap some (same_list_sound xs ys h)

row : ℕ → Bool
row r = all_below 8 (λ s. lists (missing 8 r s) (count_up r ((s + 8 - r) % 8)))

rows : all_below 8 row ≡ true
unfolding all_below row lists same_list missing count_up
rows = refl

-- For numbers below 8, eight rounds end the loop, and it lists the numbers from the expected one to the last before the
-- received one, in order. They are not reduced modulo 8: the list goes on with 8 after 7.
pub missing-count_up :
    (r s : ℕ) → r < 8 → s < 8 → missing 8 r s ≡ some (count_up r ((s + 8 - r) % 8))
unfolding row
missing-count_up r s hr hs = lists_sound (missing 8 r s) (count_up r ((s + 8 - r) % 8)) (
    all_below_sound 8 (λ n. lists (missing 8 r n) (count_up r ((n + 8 - r) % 8))) s
      (all_below_sound 8 row r rows hr) hs)
