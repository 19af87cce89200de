-- ===== src/Hdlc/ProtocolState/Repeat.antt =====
-- ProtocolState.cpp: what an REJ for the I-frame that is out leads to.
use hdlcd.Base.{
  ℕ, ◌+◌, ◌%◌, ◌<◌, ◌≤◌, ◌≡◌, sym, ap, subst, ◌∙◌, Bool, true, false, List, [], ◌∷◌, ◌++◌, some,
  arith, length,
}
use hdlcd.Hdlc.AliveState.{is_alive}
use hdlcd.Hdlc.Frame.{s_rej, HdlcFrame}
use hdlcd.Hdlc.FrameGenerator.{escape_frame}
use hdlcd.Hdlc.FrameParser
use hdlcd.Hdlc.FrameParser.Chunks.{joined, feed}
use hdlcd.Hdlc.ProtocolState.{BufferType, Action, transmit_hdlc_frame, Protocol, empty, front}
use hdlcd.Hdlc.ProtocolState.Transmit.{opportunity_for_transmission}
use hdlcd.Hdlc.ProtocolState.Receive.{restart_flow, on_rej, check_ack}
use hdlcd.Hdlc.ProtocolState.Acks.{rej-number, masked}
use hdlcd.Hdlc.ProtocolState.Outgoing.{IsTurn, head_frame, head_reaches_peer}

-- Nothing but the I-frame that is out is to be sent.
pub record IsRepeating (p : Protocol) : Type 0 where
  pub asked : p.awaits_next_hdlc_frame ≡ true
  pub no_probe : p.send_probe ≡ false
  pub alive : is_alive p.alive ≡ true
  pub no_srej : empty p.srejs ≡ true
  pub queued : empty p.wait_queue_reliable ≡ false

rej-IsTurn :
    (f : HdlcFrame) (p : Protocol)
    → f.frame_type ≡ s_rej
    → p.s_seq_outgoing ≡ f.r_seq
    → IsRepeating p
    → IsTurn (check_ack f p)
unfolding check_ack on_rej restart_flow
rej-IsTurn f p t out r = record {
  asked = ground (arith, t, r.asked);
  no_probe = ground (arith, t, r.no_probe);
  alive = ground (arith, t, r.alive);
  no_srej = ground (arith, t, r.no_srej);
  free = ground (arith, t, out, r.queued);
}

rej-queue :
    (f : HdlcFrame) (p : Protocol)
    → f.frame_type ≡ s_rej
    → ((check_ack f p).wait_queue_reliable ≡ p.wait_queue_reliable)
      × ((check_ack f p).r_seq_incoming ≡ p.r_seq_incoming)
unfolding check_ack on_rej restart_flow
rej-queue f p t = (ground (arith, t), ground (arith, t))

-- An REJ that asks for the I-frame which is out makes it be sent again, but with the number before the
-- requested one: if the port waits, the device is alive and no probe and no SREJ is due, the next
-- opportunity for transmission ends with handing the port one frame, and a fresh parser at the other end,
-- however the line is cut into reads, hands its owner one valid I-frame with the payload at the head of
-- the queue, where it stays, and with that number.
pub rej_renumbers :
    (requires : BufferType → Bool) (f : HdlcFrame) (p : Protocol) {S : Type 0}
    (interpret : List ℕ → HdlcFrame → Bool → S → S) (s : S) (cut : List ℕ → List (List ℕ))
    → f.frame_type ≡ s_rej
    → f.r_seq < 8
    → p.s_seq_outgoing ≡ f.r_seq
    → p.r_seq_incoming < 8
    → IsRepeating p
    → length (front [] p.wait_queue_reliable) ≤ 1018
    → ((bytes : List ℕ) → joined (cut bytes) ≡ bytes)
    → let q = opportunity_for_transmission requires (check_ack f p) in
      let again = record (head_frame p) { s_seq = (f.r_seq + 7) % 8 } in
      (before : List Action) × (raw : List ℕ) × (q.emitted
        ≡ before ++ transmit_hdlc_frame (escape_frame raw) ∷ [])
      × (q.wait_queue_reliable ≡ p.wait_queue_reliable)
      × (feed interpret FrameParser.reset s (cut (escape_frame raw))
          ≡ some (FrameParser.reset, interpret raw again false s))
rej_renumbers requires f p interpret s cut t fits out r_fits r short cuts =
    let q = check_ack f p in
    let (queue, incoming) = rej-queue f p t in
    let number : q.s_seq_outgoing ≡ (f.r_seq + 7) % 8 = rej-number f p t ∙ masked f.r_seq fits in
    let (before, raw, last, waits, arrives) =
      head_reaches_peer requires q interpret s cut (rej-IsTurn f p t out r) (omega (arith, number))
        (omega (arith, incoming, r_fits))
        (subst (λ l. length (front [] l) ≤ 1018) (sym queue) short) cuts in
    (
      before,
      raw,
      last,
      ap (λ w. w.3) waits ∙ queue,
      arrives
          ∙ ap
              (λ n.
                some
                  (FrameParser.reset, interpret raw (record (head_frame q) { s_seq = n }) false s))
              number
          ∙ ap
              (λ n. some (
                FrameParser.reset,
                interpret raw (record (head_frame q) { s_seq = (f.r_seq + 7) % 8; r_seq = n }) false
                    s,
              ))
              incoming
          ∙ ap
              (λ l. some (
                FrameParser.reset,
                interpret raw
                    (record (head_frame p) { s_seq = (f.r_seq + 7) % 8; payload = front [] l })
                    false s,
              ))
              queue,
    )
