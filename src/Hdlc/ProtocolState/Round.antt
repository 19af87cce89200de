-- ===== src/Hdlc/ProtocolState/Round.antt =====
-- ProtocolState.cpp at both ends of a line: an I-frame and the RR that acknowledges it.
use hdlcd.Base.{
  ℕ, ◌+◌, ◌%◌, ◌<◌, ◌≡◌, refl, sym, ap, ◌∙◌, bit_and, Bool, true, false, List, [], ◌∷◌, ◌++◌, some,
  arith,
}
use hdlcd.Hdlc.AliveState.{is_alive}
use hdlcd.Hdlc.Frame.{HdlcFrame, has_payload}
use hdlcd.Hdlc.FrameGenerator.{control_field, escape_frame}
use hdlcd.Hdlc.FrameParser
use hdlcd.Hdlc.FrameParser.Chunks.{joined, feed}
use hdlcd.Hdlc.FrameParser.Delivery.{sealed}
use hdlcd.Hdlc.FrameParser.RoundTrip.{IsSendable, sent_message, deserialize-serialize}
use hdlcd.Hdlc.ProtocolState.{
  BufferType, Action, transmit_hdlc_frame, Protocol, pop_front, prepare_s_frame_rr,
}
use hdlcd.Hdlc.ProtocolState.Receive.{interpret_deserialized_frame}
use hdlcd.Hdlc.ProtocolState.Transmit.{transmit}
use hdlcd.Hdlc.ProtocolState.Outgoing.{head_frame, one_frame, transmit-emitted}
use hdlcd.Hdlc.ProtocolState.Answer.{
  turn, answering, taken, taken-turn, interpret-taken, acked, opportunity_for_transmission-answer,
  transmit-turn,
}
use hdlcd.Hdlc.ProtocolState.Acks.{next_number}
use hdlcd.Hdlc.ProtocolState.Held.{Held, held, interpret_deserialized_frame-held}

rr-IsSendable : (p : Protocol) → p.r_seq_incoming < 8 → IsSendable (prepare_s_frame_rr p)
unfolding control_field
rr-IsSendable p fits = record {
  control = _;
  append = false;
  supported = refl;
  no_cmdr = λ e. absurd (cc e);
  s_fits = omega arith;
  r_fits = fits;
  s_used = refl;
  r_used = refl;
  flag = refl;
  no_payload = λ e. refl;
  short = omega arith;
}

-- What the object at the other end makes of the I-frame: it hands the port an RR.
answers :
    (requires : BufferType → Bool) (raw : List ℕ) (f : HdlcFrame) (p q : Protocol) (n : ℕ)
    (bytes : List ℕ)
    → interpret_deserialized_frame requires raw f false p
      ≡ transmit requires (prepare_s_frame_rr q) bytes (acked requires q)
    → turn q ≡ answering true true n
    → (before : List Action) × ((interpret_deserialized_frame requires raw f false p).emitted
        ≡ before ++ transmit_hdlc_frame (escape_frame bytes) ∷ [])
      × ((interpret_deserialized_frame requires raw f false p).r_seq_incoming ≡ n)
answers requires raw f p q n bytes e t =
    let rr = prepare_s_frame_rr q in
    let (before, last) = transmit-emitted requires rr bytes (acked requires q) in
    (
      before,
      ap (λ r. r.emitted) e ∙ last,
      ap (λ r. r.r_seq_incoming) e
          ∙ ap (λ c. c.r_seq) (transmit-turn requires rr bytes (acked requires q))
          ∙ ap (λ c. c.r_seq) t,
    )

-- While an object `a` has the head of its queue out, with a payload and a number below 8, and the peer
-- has not stopped the flow: if a started object `b` at the other end, which expects this number, may
-- send, has no probe, no SREJ and no payload for an I-frame to send and knows of no stopped flow, gets
-- this I-frame, then the last that it does is to hand its port one frame. A fresh parser at the side of
-- `a`, however that frame is cut into reads, makes `a` take the head off its queue and go on with the
-- number that `b` now expects, the next one modulo 8.
pub head_is_acknowledged :
    (requires_a requires_b : BufferType → Bool) (a b : Protocol) (raw : List ℕ)
    (cut : List ℕ → List (List ℕ))
    → a.started ≡ true
    → a.wait_for_ack ≡ true
    → a.peer_stopped_flow ≡ false
    → a.s_seq_outgoing < 8
    → has_payload (head_frame a) ≡ true
    → b.started ≡ true
    → turn b ≡ answering (is_alive b.alive) b.peer_requires_ack a.s_seq_outgoing
    → ((bytes : List ℕ) → joined (cut bytes) ≡ bytes)
    → let b' = interpret_deserialized_frame requires_b raw (head_frame a) false b in
      (before : List Action) × (answer : List ℕ) × (a' : Protocol) × (b'.emitted
        ≡ before ++ transmit_hdlc_frame (escape_frame answer) ∷ [])
      × (feed
            (interpret_deserialized_frame requires_a)
            FrameParser.reset
            a
            (cut (escape_frame answer))
          ≡ some (FrameParser.reset, a'))
      × (a'.wait_queue_reliable ≡ pop_front a.wait_queue_reliable)
      × (a'.s_seq_outgoing ≡ (a.s_seq_outgoing + 1) % 8)
      × (b'.r_seq_incoming ≡ a'.s_seq_outgoing)
head_is_acknowledged requires_a requires_b a b raw cut on_a out flows fits has on_b turn_b cuts =
    let f = head_frame a in
    let q = taken requires_b raw f b in
    let n = bit_and (a.s_seq_outgoing + 1) 0x07 in
    let t : turn q ≡ answering true true n =
      taken-turn requires_b raw f b (is_alive b.alive) b.peer_requires_ack refl has turn_b in
    let number : q.r_seq_incoming ≡ n = ap (λ c. c.r_seq) t in
    let h = rr-IsSendable q (omega (arith, number, next_number a.s_seq_outgoing fits)) in
    let rr = prepare_s_frame_rr q in
    let answer = sealed (sent_message rr h) in
    let (before, last, expects) =
      answers requires_b raw f b q n answer
        (interpret-taken requires_b raw f b on_b (ap (λ c. c.asked) t)
          ∙ opportunity_for_transmission-answer requires_b q n t (deserialize-serialize rr h).0)
        t in
    let a' = interpret_deserialized_frame requires_a answer rr false a in
    let got : held a' ≡ (rr.r_seq, pop_front a.wait_queue_reliable) =
      interpret_deserialized_frame-held requires_a answer rr a on_a refl refl number out flows in
    (
      before,
      answer,
      a',
      last,
      one_frame (interpret_deserialized_frame requires_a) a rr h (cut (escape_frame answer))
          (cuts (escape_frame answer)),
      ap (λ (x : Held). x.1) got,
      ap (λ (x : Held). x.0) got ∙ number ∙ next_number a.s_seq_outgoing fits,
      expects ∙ sym number ∙ sym (ap (λ (x : Held). x.0) got),
    )
