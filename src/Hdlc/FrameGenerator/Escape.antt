-- ===== src/Hdlc/FrameGenerator/Escape.antt =====
-- FrameGenerator.cpp: what SerializeFrame and EscapeFrame put on the line, and the parser's loop over
-- escape sequences.
use mathlib.Core.Option
use hdlcd.Base.{
  ℕ, ◌*◌, ◌/◌, ◌%◌, ◌^◌, ◌≤◌, ◌≡◌, ◌≢◌, refl, ap, ◌∙◌, inl, inr, Bool, false, bit_xor, List, [],
  ◌∷◌, ◌++◌, append_assoc, some, arith, ◌==◌, ==_iff, Bool-cases, length, length-append, take,
  take-append, All-append,
}
use hdlcd.Hdlc.Fcs16.{pppfcs16, ppp_init_fcs16}
use hdlcd.Hdlc.FrameGenerator.{apply_fcs, escape_byte, escape_bytes, escape_frame}
use hdlcd.Hdlc.FrameParser.{unescape_byte, unescape, prepend}
use hdlcd.Hdlc.FrameParser.Window.{
  NoFlag, last_byte, last_byte-append, unescape_plain, unescape_escape,
}
use hdlcd.Hdlc.FrameParser.Close.{window}

escape_byte-NoFlag : (b : ℕ) → NoFlag (escape_byte b)
unfolding escape_byte
escape_byte-NoFlag b = ground arith

-- No delimiter stands inside what is escaped.
pub escape_bytes-NoFlag : (bs : List ℕ) → NoFlag (escape_bytes bs)
unfolding escape_bytes
escape_bytes-NoFlag [] = tt
escape_bytes-NoFlag (b ∷ bs) =
    All-append (λ x. x ≢ 0x7e) (escape_byte b) (escape_bytes bs) (escape_byte-NoFlag b)
      (escape_bytes-NoFlag bs)

-- Nor does an escape character stand at its end.
last_byte-escape_byte : (x b : ℕ) → last_byte x (escape_byte b) ≢ 0x7d
unfolding escape_byte
last_byte-escape_byte x b = ground arith

pub last_byte-escape_bytes : (x : ℕ) (bs : List ℕ) → x ≢ 0x7d → last_byte x (escape_bytes bs) ≢ 0x7d
unfolding escape_bytes
last_byte-escape_bytes x [] h = h
last_byte-escape_bytes x (b ∷ bs) h =
    rw (last_byte-append x (escape_byte b) (escape_bytes bs))
      (last_byte-escape_bytes (last_byte x (escape_byte b)) bs (last_byte-escape_byte x b))

length-escape_byte : (b : ℕ) → (1 ≤ length (escape_byte b)) × (length (escape_byte b) ≤ 2)
unfolding escape_byte
length-escape_byte b = ground arith

-- Escaping adds bytes, at most doubling the length.
pub length-escape_bytes :
    (bs : List ℕ)
    → (length bs ≤ length (escape_bytes bs)) × (length (escape_bytes bs) ≤ 2 * length bs)
unfolding escape_bytes
length-escape_bytes [] = omega arith
length-escape_bytes (b ∷ bs) = omega (
  arith,
  length-append (escape_byte b) (escape_bytes bs),
  length-escape_byte b,
  length-escape_bytes bs,
)

unescape-escape_byte :
    (b : ℕ) (rest : List ℕ)
    → unescape (escape_byte b ++ rest) ≡ Option.map (prepend (b, false)) (unescape rest)
unfolding escape_byte unescape_byte
unescape-escape_byte b rest = elim (Bool-cases (b == 0x7d)) [
  | inl escape ↦ rw ((==_iff b 0x7d).0 escape) (unescape_escape 0x5d rest)
  | inr other ↦ elim (Bool-cases (b == 0x7e)) [
    | inl flag ↦ rw ((==_iff b 0x7e).0 flag) (unescape_escape 0x5e rest)
    | inr plain ↦ rw (other, plain) (unescape_plain b rest (ground arith))
  ]
]

-- The loop reads back what was escaped, whatever follows it.
pub unescape-escape_bytes :
    (bs rest : List ℕ) {out : List ℕ} {invalid : Bool}
    → unescape rest ≡ some (out, invalid)
    → unescape (escape_bytes bs ++ rest) ≡ some (bs ++ out, invalid)
unfolding escape_bytes
unescape-escape_bytes [] rest e = e
unescape-escape_bytes (b ∷ bs) rest e =
    ap unescape (append_assoc (escape_byte b) (escape_bytes bs) rest)
    ∙ unescape-escape_byte b (escape_bytes bs ++ rest)
    ∙ ap (Option.map (prepend (b, false))) (unescape-escape_bytes bs rest e)

-- EscapeFrame keeps the delimiters and escapes what stands between them.
pub escape_frame-window : (body : List ℕ) → escape_frame (window body) ≡ window (escape_bytes body)
unfolding escape_frame
escape_frame-window body =
    ap (λ t. 0x7e ∷ (escape_bytes t ++ 0x7e ∷ []))
      (ap (λ n. take n (body ++ 0x7e ∷ [])) (omega (arith, length-append body (0x7e ∷ [])))
        ∙ take-append body (0x7e ∷ []))

-- The two bytes of the check sequence of a message.
abbrev pub trailer : List ℕ → List ℕ
trailer message =
    let fcs = bit_xor (pppfcs16 ppp_init_fcs16 message) 0xffff in
    fcs % 2 ^ 8 ∷ fcs / 2 ^ 8 % 2 ^ 8 ∷ []

-- A message with its check sequence between delimiters.
pub apply_fcs-window :
    (message : List ℕ)
    → apply_fcs (0x7e ∷ message) ++ 0x7e ∷ [] ≡ window (message ++ trailer message)
unfolding apply_fcs
apply_fcs-window message = refl
