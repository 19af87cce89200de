-- ===== src/Hdlc/ProtocolState/Answer.antt =====
-- ProtocolState.cpp: the RR with which an object answers an I-frame.
use hdlcd.Base.{
  if_on, if_off, ℕ, ◌+◌, ◌≡◌, refl, ap, ◌∙◌, bit_and, Bool, true, false, not, List, [], some, arith,
  ◌==◌, if◌then◌else◌,
}
use hdlcd.Hdlc.AliveState.{is_alive, on_frame_received}
use hdlcd.Hdlc.Frame.{HdlcFrame, empty_frame, is_i_frame, has_payload, i}
use hdlcd.Hdlc.Frame.Dissect.{dissect}
use hdlcd.Hdlc.FrameGenerator.{serialize_frame}
use hdlcd.Hdlc.ProtocolState.{
  BufferType, buffer_type_payload, buffer_type_raw, buffer_type_dissected, Protocol,
  deliver_required, prepare_s_frame_rr,
}
use hdlcd.Hdlc.ProtocolState.Transmit.{
  choose_probe, choose_srej, choose_rr, choose_ui, query_payload, choose_i, choose_alive, transmit,
  send_chosen, opportunity_for_transmission,
}
use hdlcd.Hdlc.ProtocolState.Receive.{
  note_missing, accept_i_frame, accept_payload, check_ack, on_i_or_rr, pop_reliable, note_alive,
  interpret_valid, interpret_deserialized_frame,
}

-- The members that decide what is sent next.
pub record Turn : Type 0 where
  pub asked : Bool
  pub probe : Bool
  pub alive : Bool
  pub srejs : List ℕ
  pub queue : List (List ℕ)
  pub due : Bool
  pub stopped : Bool
  pub stopped_new : Bool
  pub r_seq : ℕ

abbrev pub turn : Protocol → Turn
turn p = record {
  asked = p.awaits_next_hdlc_frame;
  probe = p.send_probe;
  alive = is_alive p.alive;
  srejs = p.srejs;
  queue = p.wait_queue_reliable;
  due = p.peer_requires_ack;
  stopped = p.peer_stopped_flow;
  stopped_new = p.peer_stopped_flow_new;
  r_seq = p.r_seq_incoming;
}

-- Nothing but an ACK is to be sent.
abbrev pub answering : (alive due : Bool) → ℕ → Turn
answering alive due r_seq = record {
  asked = true;
  probe = false;
  alive = alive;
  srejs = [];
  queue = [];
  due = due;
  stopped = false;
  stopped_new = false;
  r_seq = r_seq;
}

turn-if :
    (b : Bool) (t : Turn) (x y : Protocol) → turn x ≡ t → turn y ≡ t → turn (if b then x else y) ≡ t
turn-if true t x y hx hy = hx
turn-if false t x y hx hy = hy

note_alive-turn : (p : Protocol) → turn (note_alive p) ≡ record (turn p) { alive = true }
unfolding note_alive on_frame_received
note_alive-turn p =
    turn-if (on_frame_received p.alive).1 (record (turn p) { alive = true }) _ _ refl refl

-- An I-frame with the expected number.
accept_i_frame-turn :
    (f : HdlcFrame) (p : Protocol)
    → (p.r_seq_incoming == f.s_seq) ≡ true
    → turn (accept_i_frame f p) ≡ record (turn p) { due = true; r_seq = bit_and (f.s_seq + 1) 0x07 }
unfolding accept_i_frame note_missing
accept_i_frame-turn f p e =
    ap
      (λ q.
        turn (record q { r_seq_incoming = bit_and (f.s_seq + 1) 0x07; peer_requires_ack = true }))
      (if_off (not (p.r_seq_incoming == f.s_seq)) _ p (ap not e))

-- With an empty queue an I-frame acknowledges nothing that counts.
check_ack-turn :
    (f : HdlcFrame) (p : Protocol) (alive due : Bool) (r_seq : ℕ)
    → f.frame_type ≡ i
    → turn p ≡ answering alive due r_seq
    → turn (check_ack f p) ≡ answering alive due r_seq
unfolding check_ack on_i_or_rr pop_reliable
check_ack-turn f p alive due r_seq t e = ground (arith, t, e)

module _ (requires : BufferType → Bool) where
  deliver_required-turn :
      (type : BufferType) (bytes : List ℕ) (reliable invalid was_sent : Bool) (p : Protocol)
      → turn (deliver_required requires type bytes reliable invalid was_sent p) ≡ turn p
  unfolding deliver_required
  deliver_required-turn type bytes reliable invalid was_sent p =
      turn-if (requires type) (turn p) _ _ refl refl

  accept_payload-turn :
      (f : HdlcFrame) (p : Protocol)
      → f.frame_type ≡ i
      → has_payload f ≡ true
      → (p.r_seq_incoming == f.s_seq) ≡ true
      → turn (accept_payload requires f p)
        ≡ record (turn p) { due = true; r_seq = bit_and (f.s_seq + 1) 0x07 }
  unfolding accept_payload
  accept_payload-turn f p t has e =
      let q =
        deliver_required requires buffer_type_payload f.payload (is_i_frame f) false false p in
      let same : turn q ≡ turn p =
        deliver_required-turn buffer_type_payload f.payload (is_i_frame f) false false p in
      ap turn (if_on (has_payload f) _ p has)
      ∙ ap turn (if_on (is_i_frame f) (accept_i_frame f q) q (ground (arith, t)))
      ∙ accept_i_frame-turn f q (ap (λ c. c.r_seq == f.s_seq) same ∙ e)
      ∙ ap (λ (c : Turn). record c { due = true; r_seq = bit_and (f.s_seq + 1) 0x07 }) same

  -- The object once it has taken the frame.
  abbrev pub taken : List ℕ → HdlcFrame → Protocol → Protocol
  taken raw f p = check_ack f (
      accept_payload requires f (
        note_alive (
          deliver_required requires buffer_type_dissected (dissect f) false false false
            (deliver_required requires buffer_type_raw raw false false false p))))

  pub taken-turn :
      (raw : List ℕ) (f : HdlcFrame) (p : Protocol) (alive due : Bool)
      → f.frame_type ≡ i
      → has_payload f ≡ true
      → turn p ≡ answering alive due f.s_seq
      → turn (taken raw f p) ≡ answering true true (bit_and (f.s_seq + 1) 0x07)
  taken-turn raw f p alive due t has e =
      let given = deliver_required requires buffer_type_raw raw false false false p in
      let told =
        deliver_required requires buffer_type_dissected (dissect f) false false false given in
      let heard : turn (note_alive told) ≡ answering true due f.s_seq =
        note_alive-turn told
        ∙ ap (λ (c : Turn). record c { alive = true })
            (deliver_required-turn buffer_type_dissected (dissect f) false false false given
              ∙ deliver_required-turn buffer_type_raw raw false false false p
              ∙ e) in
      let expected : ((note_alive told).r_seq_incoming == f.s_seq) ≡ true =
        ground (arith, ap (λ c. c.r_seq) heard) in
      check_ack-turn f (accept_payload requires f (note_alive told)) true true
        (bit_and (f.s_seq + 1) 0x07) t
        (accept_payload-turn f (note_alive told) t has expected
          ∙ ap (λ (c : Turn). record c { due = true; r_seq = bit_and (f.s_seq + 1) 0x07 }) heard)

  pub interpret-taken :
      (raw : List ℕ) (f : HdlcFrame) (p : Protocol)
      → p.started ≡ true
      → (taken raw f p).awaits_next_hdlc_frame ≡ true
      → interpret_deserialized_frame requires raw f false p
        ≡ opportunity_for_transmission requires (taken raw f p)
  unfolding interpret_deserialized_frame interpret_valid
  interpret-taken raw f p on asked =
      if_off (not p.started) _ _ (ap not on)
      ∙ if_on (taken raw f p).awaits_next_hdlc_frame _ _ asked

  -- The object once the RR is chosen.
  abbrev pub acked : Protocol → Protocol
  acked p = record p { peer_requires_ack = false }

  choose_alive-answer :
      (p : Protocol) (r_seq : ℕ)
      → turn p ≡ answering true true r_seq
      → choose_alive requires (p, empty_frame) ≡ (acked p, prepare_s_frame_rr p)
  unfolding choose_alive choose_srej choose_i choose_rr choose_ui query_payload
  choose_alive-answer p r_seq e = ground (arith, e)

  choose_probe-answer :
      (p : Protocol) (r_seq : ℕ)
      → turn p ≡ answering true true r_seq
      → choose_probe p ≡ (p, empty_frame)
  unfolding choose_probe
  choose_probe-answer p r_seq e = if_off p.send_probe _ _ (ap (λ c. c.probe) e)

  send_chosen-answer :
      (q p : Protocol) {bytes : List ℕ}
      → serialize_frame (prepare_s_frame_rr p) ≡ some bytes
      → send_chosen requires (q, prepare_s_frame_rr p)
        ≡ transmit requires (prepare_s_frame_rr p) bytes q
  unfolding send_chosen
  send_chosen-answer q p e = rw e refl

  pub opportunity_for_transmission-answer :
      (p : Protocol) (r_seq : ℕ) {bytes : List ℕ}
      → turn p ≡ answering true true r_seq
      → serialize_frame (prepare_s_frame_rr p) ≡ some bytes
      → opportunity_for_transmission requires p
        ≡ transmit requires (prepare_s_frame_rr p) bytes (acked p)
  unfolding opportunity_for_transmission
  opportunity_for_transmission-answer p r_seq e sent =
      if_off (not p.awaits_next_hdlc_frame) _ _ (ap (λ c. not c.asked) e)
      ∙ ap (λ c. send_chosen requires (choose_alive requires c)) (choose_probe-answer p r_seq e)
      ∙ ap (send_chosen requires) (choose_alive-answer p r_seq e)
      ∙ send_chosen-answer (acked p) p sent

  pub transmit-turn :
      (f : HdlcFrame) (bytes : List ℕ) (p : Protocol)
      → turn (transmit requires f bytes p) ≡ record (turn p) { asked = false }
  unfolding transmit
  transmit-turn f bytes p =
      let r = record p { awaits_next_hdlc_frame = false } in
      let raw = deliver_required requires buffer_type_raw bytes (is_i_frame f) false true r in
      deliver_required-turn buffer_type_dissected (dissect f) (is_i_frame f) false true raw
      ∙ deliver_required-turn buffer_type_raw bytes (is_i_frame f) false true r
