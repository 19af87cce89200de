-- ===== src/Hdlc/ProtocolState/Acks.antt =====
-- ProtocolState.cpp, InterpretDeserializedFrame: what ACKs and NACKs do to the queue of payloads and
-- to the number of the next I-frame.
use hdlcd.Base.{
  ℕ, ◌+◌, ◌%◌, ◌<◌, ◌≡◌, refl, bit_and, Bool, true, not, ◌&&◌, ◌||◌, arith, ◌==◌, ==_iff, all_below,
  all_below_sound,
}
use hdlcd.Hdlc.Frame.{s_rr, s_rnr, s_rej, HdlcFrame, is_i_frame}
use hdlcd.Hdlc.ProtocolState.{Protocol}
use hdlcd.Hdlc.ProtocolState.Receive.{has_type, restart_flow, on_rej, check_ack}

-- Whether a frame acknowledges the I-frame that waits: it asks for the number after it.
abbrev pub takes_head : HdlcFrame → Protocol → Bool
takes_head f p =
    p.wait_for_ack
    && (f.r_seq == (p.s_seq_outgoing + 1) % 8
        && (is_i_frame f || ((has_type s_rr f && not p.peer_stopped_flow) || has_type s_rnr f)))

next_table : all_below 8 (λ n. bit_and (n + 1) 0x07 == (n + 1) % 8) ≡ true
unfolding all_below
next_table = refl

pub next_number : (n : ℕ) → n < 8 → bit_and (n + 1) 0x07 ≡ (n + 1) % 8
next_number n h =
    (==_iff (bit_and (n + 1) 0x07) ((n + 1) % 8)).0
      (all_below_sound 8 (λ n. bit_and (n + 1) 0x07 == (n + 1) % 8) n next_table h)

-- The same in the words of the code.
abbrev acknowledged : ℕ → HdlcFrame → Protocol → Bool
acknowledged next f p =
    p.wait_for_ack
    && (f.r_seq == next
        && (is_i_frame f || ((has_type s_rr f && not p.peer_stopped_flow) || has_type s_rnr f)))

masked_table : all_below 8 (λ r. bit_and (r + 0x07) 0x07 == (r + 7) % 8) ≡ true
unfolding all_below
masked_table = refl

pub masked : (r : ℕ) → r < 8 → bit_and (r + 0x07) 0x07 ≡ (r + 7) % 8
masked r h =
    (==_iff (bit_and (r + 0x07) 0x07) ((r + 7) % 8)).0
      (all_below_sound 8 (λ n. bit_and (n + 0x07) 0x07 == (n + 7) % 8) r masked_table h)

pub rej-number :
    (f : HdlcFrame) (p : Protocol)
    → f.frame_type ≡ s_rej
    → (check_ack f p).s_seq_outgoing ≡ bit_and (f.r_seq + 0x07) 0x07
unfolding check_ack on_rej restart_flow
rej-number f p t = ground (arith, t)
