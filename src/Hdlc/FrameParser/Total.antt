-- ===== src/Hdlc/FrameParser/Total.antt =====
-- FrameParser.cpp: AddReceivedRawBytes, its loop and the invariant.
use hdlcd.Base.{
  ℕ, zero, suc, ◌≤◌, ◌≡◌, refl, Bool, List, [], ◌∷◌, some, arith, length, length-drop, drop,
}
use hdlcd.Hdlc.Frame.{HdlcFrame}
use hdlcd.Hdlc.FrameParser.{Parser, consume, add_received_raw_bytes}
use hdlcd.Hdlc.FrameParser.Close.{IsOpen}
use hdlcd.Hdlc.FrameParser.Chunk.{add_chunk_total}

module _ {S : Type 0} (interpret : List ℕ → HdlcFrame → Bool → S → S) where
  -- The loop, with any fuel that is no less than the number of bytes.
  consume_total :
      (fuel : ℕ) (p : Parser) (s : S) (bytes : List ℕ)
      → IsOpen p
      → length bytes ≤ fuel
      → (p' : Parser) × (s' : S) × (consume interpret fuel p s bytes ≡ some (p', s')) × IsOpen p'
  unfolding consume
  consume_total fuel p s [] o h = (p, s, refl, o)
  consume_total zero p s (x ∷ xs) o h = absurd (omega arith)
  consume_total (suc fuel) p s (x ∷ xs) o h =
      let t = add_chunk_total interpret p s (x ∷ xs) o (omega arith) in
      let (p', s', e, o') =
        consume_total fuel t.parser t.owner (drop t.consumed (x ∷ xs)) t.open_after
          (omega (arith, length-drop t.consumed (x ∷ xs), t.progress)) in
      (p', s', rw t.returns e, o')

  -- In a state that meets the invariant, any bytes at all are read to the end: no assertion fails,
  -- nothing is read outside the buffer, the loop ends, and the invariant holds afterwards.
  pub add_received_raw_bytes_total :
      (p : Parser) (s : S) (bytes : List ℕ)
      → IsOpen p
      → (p' : Parser) × (s' : S) × (add_received_raw_bytes interpret p s bytes ≡ some (p', s'))
        × IsOpen p'
  unfolding add_received_raw_bytes
  add_received_raw_bytes_total p s bytes o = consume_total (length bytes) p s bytes o (omega arith)
