-- ===== src/Hdlc/FrameParser/Window.antt =====
-- FrameParser.cpp: the bytes between two delimiters, for `memchr` and for the loop that removes escape
-- sequences.
use mathlib.Core.Option
use hdlcd.Base.{
  ℕ, suc, ◌+◌, ◌≡◌, ◌≢◌, refl, ap, ◌∙◌, inl, inr, Bool, true, false, List, [], ◌∷◌, ◌++◌, none,
  some, arith, ◌==◌, Bool-cases, Option-cases, length, get_or, take, drop, All,
}
use hdlcd.Hdlc.FrameParser.{memchr, unescape_byte, prepend, unescape}

-- No byte is a delimiter.
abbrev pub NoFlag : List ℕ → Type 0
NoFlag = All (λ x. x ≢ 0x7e)

pub memchr-NoFlag : (xs : List ℕ) → NoFlag xs → memchr xs ≡ none
unfolding memchr
memchr-NoFlag [] h = refl
memchr-NoFlag (x ∷ xs) h = ground (arith, memchr-NoFlag xs h.1)

pub memchr-append : (xs ys : List ℕ) → NoFlag xs → memchr (xs ++ 0x7e ∷ ys) ≡ some (length xs)
unfolding memchr
memchr-append [] ys h = refl
memchr-append (x ∷ xs) ys h = ground (arith, memchr-append xs ys h.1)

-- What a list looks like to `memchr`: no delimiter, or a first one.
pub data Scan (xs : List ℕ) : Type 0 where
  clean : NoFlag xs → Scan xs
  found : (run rest : List ℕ) → NoFlag run → xs ≡ run ++ 0x7e ∷ rest → Scan xs

Scan-cons : (x : ℕ) (xs : List ℕ) → x ≢ 0x7e → Scan xs → Scan (x ∷ xs)
Scan-cons x xs ne (clean h) = clean (ne, h)
Scan-cons x xs ne (found run rest h e) = found (x ∷ run) rest (ne, h) (ap (λ t. x ∷ t) e)

pub scan : (xs : List ℕ) → Scan xs
scan [] = clean tt
scan (x ∷ xs) = elim (Bool-cases (x == 0x7e)) [
  | inl yes_flag ↦ found [] xs tt (ap (λ t. t ∷ xs) (ground arith))
  | inr no_flag ↦ Scan-cons x xs (ground arith) (scan xs)
]

suc_plus_one : (n : ℕ) → suc n + 1 ≡ suc (n + 1)
suc_plus_one n = omega arith

pub take-length-suc : (x : ℕ) (xs ys : List ℕ) → take (length xs + 1) (xs ++ x ∷ ys) ≡ xs ++ x ∷ []
take-length-suc x [] ys = refl
take-length-suc x (y ∷ xs) ys =
    rw (suc_plus_one (length xs)) (ap (λ t. y ∷ t) (take-length-suc x xs ys))

pub drop-length-suc : (x : ℕ) (xs ys : List ℕ) → drop (length xs + 1) (xs ++ x ∷ ys) ≡ ys
drop-length-suc x [] ys = refl
drop-length-suc x (y ∷ xs) ys = rw (suc_plus_one (length xs)) (drop-length-suc x xs ys)

-- The last of `x` and the bytes behind it.
abbrev pub last_byte : ℕ → List ℕ → ℕ
last_byte x [] = x
last_byte x (y ∷ ys) = last_byte y ys

pub last_byte-append :
    (x : ℕ) (ys zs : List ℕ) → last_byte x (ys ++ zs) ≡ last_byte (last_byte x ys) zs
last_byte-append x [] zs = refl
last_byte-append x (y ∷ ys) zs = last_byte-append y ys zs

-- The byte before a final delimiter, and the delimiter.
pub get_or-last_byte :
    (x z : ℕ) (ys : List ℕ) → get_or (x ∷ (ys ++ z ∷ [])) (length ys) 0 ≡ last_byte x ys
get_or-last_byte x z [] = refl
get_or-last_byte x z (y ∷ ys) = get_or-last_byte y z ys

pub get_or-final : (x z : ℕ) (ys : List ℕ) → get_or (x ∷ (ys ++ z ∷ [])) (length ys + 1) 0 ≡ z
get_or-final x z [] = refl
get_or-final x z (y ∷ ys) = rw (suc_plus_one (length ys)) (get_or-final y z ys)

-- A byte that is no escape character is kept.
pub unescape_plain :
    (x : ℕ) (rest : List ℕ)
    → x ≢ 0x7d
    → unescape (x ∷ rest) ≡ Option.map (prepend (x, false)) (unescape rest)
unfolding unescape
unescape_plain x [] ne = ground arith
unescape_plain x (y ∷ rest) ne = ground arith

pub unescape_escape :
    (y : ℕ) (rest : List ℕ)
    → unescape (0x7d ∷ y ∷ rest) ≡ Option.map (prepend (unescape_byte y)) (unescape rest)
unfolding unescape
unescape_escape y rest = refl

pub unescape_flag : unescape (0x7e ∷ []) ≡ some (0x7e ∷ [], false)
unfolding unescape
unescape_flag = refl

escapes : (x : ℕ) → (x == 0x7d) ≡ true → x ≡ 0x7d
escapes x h = ground arith

-- A window whose last byte is no escape character is read to its end, and the delimiter that
-- closes it stays where it is.
pub unescape_total :
    (x : ℕ) (body : List ℕ)
    → last_byte x body ≢ 0x7d
    → (out : List ℕ) × (invalid : Bool) × (unescape (x ∷ (body ++ 0x7e ∷ [])) ≡ some (out, invalid))
unescape_total x [] ne = (
  x ∷ 0x7e ∷ [],
  false,
  unescape_plain x _ ne ∙ ap (Option.map (prepend (x, false))) unescape_flag,
)
unescape_total x (y ∷ []) ne = elim (Bool-cases (x == 0x7d)) [
  | inl escape ↦
      let r = prepend (unescape_byte y) (0x7e ∷ [], false) in
      (
        r.0,
        r.1,
        rw (escapes x escape) (
            unescape_escape y (0x7e ∷ [])
            ∙ ap (Option.map (prepend (unescape_byte y))) unescape_flag),
      )
  | inr plain ↦ (
    x ∷ y ∷ 0x7e ∷ [],
    false,
    unescape_plain x _ (ground arith)
        ∙ ap (Option.map (prepend (x, false)))
            (unescape_plain y _ ne ∙ ap (Option.map (prepend (y, false))) unescape_flag),
  )
]
unescape_total x (y ∷ z ∷ rest) ne =
    let (out, invalid, e) = unescape_total z rest ne in
    let (out', invalid', e') = unescape_total y (z ∷ rest) ne in
    elim (Bool-cases (x == 0x7d)) [
      | inl escape ↦
          let r = prepend (unescape_byte y) (out, invalid) in
          (
            r.0,
            r.1,
            rw (escapes x escape)
                (unescape_escape y _ ∙ ap (Option.map (prepend (unescape_byte y))) e),
          )
      | inr plain ↦ (
        x ∷ out',
        invalid',
        unescape_plain x _ (ground arith) ∙ ap (Option.map (prepend (x, false))) e',
      )
    ]

-- The opening delimiter stays, too.
pub unescape_head :
    (x : ℕ) (rest : List ℕ) {out : List ℕ} {invalid : Bool}
    → x ≢ 0x7d
    → unescape (x ∷ rest) ≡ some (out, invalid)
    → (tail : List ℕ) × (out ≡ x ∷ tail)
unescape_head x rest ne e = elim (Option-cases (unescape rest)) [
  | inl stuck ↦ absurd (grind (arith, unescape_plain x rest ne))
  | inr (r, done) ↦ (r.0, ground (arith, unescape_plain x rest ne))
]
