-- ===== src/Hdlc/FrameParser/Stream.antt =====
-- Streams of frames on the line, with bytes lost or garbled between them, in reads of any size.
use hdlcd.Base.{
  ℕ, ◌+◌, ◌<◌, ◌≡◌, refl, ◌∙◌, Bool, List, [], ◌∷◌, ◌++◌, append_assoc, some, arith, length,
  length-append, All,
}
use hdlcd.Hdlc.Frame.{HdlcFrame}
use hdlcd.Hdlc.FrameGenerator.{escape_bytes, escape_frame}
use hdlcd.Hdlc.FrameGenerator.Escape.{
  escape_bytes-NoFlag, length-escape_bytes, escape_frame-window, trailer,
}
use hdlcd.Hdlc.FrameParser.{reset}
use hdlcd.Hdlc.FrameParser.Window.{NoFlag}
use hdlcd.Hdlc.FrameParser.Close.{reset-IsOpen}
use hdlcd.Hdlc.FrameParser.Bytewise.{Fits, accept_bytes}
use hdlcd.Hdlc.FrameParser.Chunks.{joined, feed, feed_bytewise}
use hdlcd.Hdlc.FrameParser.Delivery.{IsBody, sealed, delivered, accept_sealed}

-- One frame on the line, behind bytes that hold no delimiter.
pub record Transmission : Type 0 where
  pub junk : List ℕ
  pub message : List ℕ

pub record IsTransmission (t : Transmission) : Type 0 where
  pub no_flag : NoFlag t.junk
  pub short : length t.junk < 2047
  pub body : IsBody t.message

abbrev pub line : List Transmission → List ℕ
line [] = []
line (t ∷ ts) = t.junk ++ (escape_frame (sealed t.message) ++ line ts)

Fits-build :
    (n : ℕ) (run rest : List ℕ)
    → NoFlag run
    → n + length run < 2048
    → Fits 1 rest
    → Fits n (run ++ 0x7e ∷ rest)
Fits-build n [] rest h room f = (omega arith, f)
Fits-build n (x ∷ run) rest h room f =
    ground (arith, Fits-build (n + 1) run rest h.1 (omega arith) f)

line-Fits : (ts : List Transmission) → All IsTransmission ts → Fits 1 (line ts)
line-Fits [] h = omega arith
line-Fits (t ∷ ts) h =
    let inner = t.message ++ trailer t.message in
    let rest : Fits 1 (escape_bytes inner ++ 0x7e ∷ line ts) =
      Fits-build 1 (escape_bytes inner) (line ts) (escape_bytes-NoFlag inner)
        (omega (
          arith,
          length-escape_bytes inner,
          length-append t.message (trailer t.message),
          h.0.body.1,
        ))
        (line-Fits ts h.1) in
    rw (escape_frame-window inner, append_assoc (escape_bytes inner) (0x7e ∷ []) (line ts))
      (Fits-build 1 t.junk (escape_bytes inner ++ 0x7e ∷ line ts) h.0.no_flag
        (omega (arith, h.0.short)) rest)

module _ {S : Type 0} (interpret : List ℕ → HdlcFrame → Bool → S → S) where
  -- The owner after all frames, in their order.
  abbrev pub deliver_all : List Transmission → S → S
  deliver_all [] s = s
  deliver_all (t ∷ ts) s = deliver_all ts (delivered interpret t.message s)

  accept_line :
      (ts : List Transmission) (s : S)
      → All IsTransmission ts
      → accept_bytes interpret reset s (line ts) ≡ some (reset, deliver_all ts s)
  unfolding accept_bytes
  accept_line [] s h = refl
  accept_line (t ∷ ts) s h =
      accept_sealed interpret t.junk t.message s (line ts) h.0.no_flag h.0.body
      ∙ accept_line ts (delivered interpret t.message s) h.1

  -- A parser that is fresh or has just taken a frame hands every frame of the line to its owner: once,
  -- in order, byte for byte and marked valid, whatever junk stands before each frame and however the
  -- bytes are cut into reads. The messages have 2 to 1020 bytes, the junk no delimiter and
  -- fewer than 2047 bytes.
  pub feed-line :
      (ts : List Transmission) (s : S) (chunks : List (List ℕ))
      → All IsTransmission ts
      → joined chunks ≡ line ts
      → feed interpret reset s chunks ≡ some (reset, deliver_all ts s)
  feed-line ts s chunks h e =
      feed_bytewise interpret reset s chunks reset-IsOpen (rw e (line-Fits ts h))
      ∙ rw e (accept_line ts s h)
