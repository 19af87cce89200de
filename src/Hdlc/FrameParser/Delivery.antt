-- ===== src/Hdlc/FrameParser/Delivery.antt =====
-- FrameGenerator.cpp and FrameParser.cpp together: a sealed message on its way through the parser.
use mathlib.Core.Option
use hdlcd.Base.{
  ℕ, ◌+◌, ◌-◌, ◌≤◌, ◌≡◌, ap, ◌∙◌, Bool, true, false, not, List, [], ◌∷◌, ◌++◌, append_assoc, some,
  arith, ◌==◌, ltb, length, length-append, take, take-append,
}
use hdlcd.Hdlc.Fcs16.{pppfcs16, ppp_init_fcs16, ppp_good_fcs16}
use hdlcd.Hdlc.Fcs16.Detection.{fcs_low, fcs_high, fcs_residue, pppfcs16-append, pppfcs16-lt}
use hdlcd.Hdlc.Frame.{HdlcFrame}
use hdlcd.Hdlc.FrameGenerator.{escape_bytes, escape_frame}
use hdlcd.Hdlc.FrameGenerator.Escape.{
  escape_bytes-NoFlag, last_byte-escape_bytes, length-escape_bytes, unescape-escape_bytes,
  escape_frame-window, trailer,
}
use hdlcd.Hdlc.FrameParser.{
  reset, prepend, unescape, fcs_fails, finish_frame, read_frame, remove_escape_characters,
}
use hdlcd.Hdlc.FrameParser.Window.{NoFlag, unescape_plain, unescape_flag, last_byte}
use hdlcd.Hdlc.FrameParser.Close.{deserialize_frame-long, window, remove_window}
use hdlcd.Hdlc.FrameParser.Bytewise.{
  accept_bytes, state, accept_bytes-append, accept_clean_unseen, accept_flag_unseen,
  accept_clean_seen, accept_flag_seen,
}

-- Between the delimiters the good value comes out exactly because of the trailer.
good_window : (message : List ℕ) → fcs_fails (window (message ++ trailer message)) ≡ false
unfolding fcs_fails
good_window message = ap (λ t. not (t == ppp_good_fcs16)) residue
  where
    inner : List ℕ
    inner = message ++ trailer message

    contents : take (length (window inner) - 2) (inner ++ 0x7e ∷ []) ≡ inner
    contents =
        ap (λ n. take n (inner ++ 0x7e ∷ [])) (omega (arith, length-append inner (0x7e ∷ [])))
        ∙ take-append inner (0x7e ∷ [])

    residue :
        pppfcs16 ppp_init_fcs16 (take (length (window inner) - 2) (inner ++ 0x7e ∷ []))
        ≡ ppp_good_fcs16
    residue =
        ap (pppfcs16 ppp_init_fcs16) contents
        ∙ pppfcs16-append ppp_init_fcs16 message (trailer message)
        ∙ unfold fcs_low fcs_high in
          fcs_residue (pppfcs16 ppp_init_fcs16 message)
            (pppfcs16-lt ppp_init_fcs16 message (omega arith))

unescape_sent : (body : List ℕ) → unescape (window (escape_bytes body)) ≡ some (window body, false)
unescape_sent body =
    unescape_plain 0x7e _ (λ h. absurd (omega arith))
    ∙ ap (Option.map (prepend (0x7e, false))) (unescape-escape_bytes body (0x7e ∷ []) unescape_flag)

-- A body that a valid frame may have: its length with delimiters is at most the maximum.
abbrev pub IsBody : List ℕ → Type 0
IsBody message = (2 ≤ length message) × (length message ≤ 1020)

abbrev pub sealed : List ℕ → List ℕ
sealed message = window (message ++ trailer message)

pub length-sealed : (message : List ℕ) → length (sealed message) ≡ length message + 4
length-sealed message = omega (
  arith,
  length-append (message ++ trailer message) (0x7e ∷ []),
  length-append message (trailer message),
)

module _ {S : Type 0} (interpret : List ℕ → HdlcFrame → Bool → S → S) where
  -- What the owner gets from a good frame.
  abbrev pub delivered : List ℕ → S → S
  delivered message s = interpret (sealed message) (read_frame (sealed message)) false s

  finish_sealed :
      (message : List ℕ) (s : S)
      → IsBody message
      → finish_frame interpret (sealed message) false s ≡ some (true, delivered message s)
  unfolding finish_frame
  finish_sealed message s h = rw (
    long_enough,
    short_enough,
    good_window message,
    deserialize_frame-long (sealed message) (omega (arith, length-sealed message, h.0)),
  )
    where
      long_enough : ltb (length (sealed message)) 6 ≡ false
      long_enough = ground (arith, length-sealed message)

      short_enough : ltb 1024 (length (sealed message)) ≡ false
      short_enough = ground (arith, length-sealed message)

  -- The closing delimiter of an escaped good frame.
  remove_sealed :
      (message : List ℕ) (s : S)
      → IsBody message
      → remove_escape_characters interpret
          (window (escape_bytes (message ++ trailer message)))
          true
          s
        ≡ some (true, sealed message, delivered message s)
  remove_sealed message s h =
      remove_window interpret (escape_bytes inner) s
      ∙ rw (some_bytes, whole, unescape_sent inner, finish_sealed message s h)
    where
      inner : List ℕ
      inner = message ++ trailer message

      some_bytes : (length (escape_bytes inner) == 0) ≡ false
      some_bytes =
          ground (arith, length-escape_bytes inner, length-append message (trailer message))

      whole : (last_byte 0x7e (escape_bytes inner) == 0x7d) ≡ false
      whole = ground (arith, last_byte-escape_bytes 0x7e inner (λ e. absurd (omega arith)))

  -- The automaton delivers a good frame that is sent after bytes without delimiter.
  pub accept_sealed :
      (junk message : List ℕ) (s : S) (rest : List ℕ)
      → NoFlag junk
      → IsBody message
      → accept_bytes interpret reset s (junk ++ (escape_frame (sealed message) ++ rest))
        ≡ accept_bytes interpret reset (delivered message s) rest
  accept_sealed junk message s rest clean h =
      ap (λ t. accept_bytes interpret reset s (junk ++ (t ++ rest)))
        (escape_frame-window (message ++ trailer message))
      ∙ accept_bytes-append interpret reset s junk _
      ∙ rw (accept_clean_unseen interpret (0x7e ∷ []) s junk clean) (
          accept_flag_unseen interpret (0x7e ∷ []) s _
          ∙ ap (accept_bytes interpret (state (0x7e ∷ []) true) s)
              (append_assoc (escape_bytes inner) (0x7e ∷ []) rest)
          ∙ accept_bytes-append interpret (state (0x7e ∷ []) true) s (escape_bytes inner)
              (0x7e ∷ rest)
          ∙ rw
              (accept_clean_seen interpret (0x7e ∷ []) s (escape_bytes inner)
                (escape_bytes-NoFlag inner))
              (accept_flag_seen interpret (0x7e ∷ escape_bytes inner) s rest
                (remove_sealed message s h)))
    where
      inner : List ℕ
      inner = message ++ trailer message
