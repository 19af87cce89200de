-- ===== src/Hdlc/ProtocolState/Outgoing.antt =====
-- ProtocolState.cpp, OpportunityForTransmission, with FrameGenerator.cpp and FrameParser.cpp: the way of
-- a payload from the queue to the parser at the other end of the line.
use hdlcd.Base.{
  if_on, if_off, ℕ, ◌<◌, ◌≤◌, ◌≡◌, refl, sym, ap, ◌∙◌, Bool, true, false, not, List, [], ◌∷◌, ◌++◌,
  append-nil, Option, some, arith, if◌then◌else◌, length,
}
use hdlcd.Hdlc.Frame.{i, HdlcFrame, empty_frame, is_i_frame}
use hdlcd.Hdlc.Frame.Dissect.{dissect}
use hdlcd.Hdlc.FrameGenerator.{control_field, serialize_frame, escape_frame}
use hdlcd.Hdlc.FrameParser
use hdlcd.Hdlc.FrameParser.Chunks.{joined, feed}
use hdlcd.Hdlc.FrameParser.RoundTrip.{
  IsSendable, sent_message, sent_message-IsBody, deserialize-serialize, read-serialize,
}
use hdlcd.Hdlc.FrameParser.Delivery.{sealed}
use hdlcd.Hdlc.FrameParser.Stream.{feed-line}
use hdlcd.Hdlc.AliveState.{is_alive}
use hdlcd.Hdlc.ProtocolState.{
  BufferType, buffer_type_payload, buffer_type_raw, buffer_type_dissected, Action,
  transmit_hdlc_frame, TimerHandler, send_again, Protocol, empty, front, demand, deliver_required,
  prepare_i_frame,
}
use hdlcd.Hdlc.ProtocolState.Transmit.{
  choose_probe, choose_srej, choose_rr, choose_ui, query_payload, may_send_i, choose_i,
  choose_alive, transmit, send_chosen, opportunity_for_transmission,
}

-- The frame for the head of the queue.
abbrev pub head_frame : Protocol → HdlcFrame
head_frame p = record empty_frame {
  address = 0x30;
  frame_type = i;
  s_seq = p.s_seq_outgoing;
  r_seq = p.r_seq_incoming;
  payload = front [] p.wait_queue_reliable;
}

-- Nothing goes before the head of the queue.
pub record IsTurn (p : Protocol) : Type 0 where
  pub asked : p.awaits_next_hdlc_frame ≡ true
  pub no_probe : p.send_probe ≡ false
  pub alive : is_alive p.alive ≡ true
  pub no_srej : empty p.srejs ≡ true
  pub free : may_send_i p ≡ true

-- What the deliveries to the clients leave alone.
abbrev pub Waits : Type 0
Waits = Bool × Bool × Option TimerHandler × List (List ℕ)

abbrev pub waits : Protocol → Waits
waits q = (q.awaits_next_hdlc_frame, q.wait_for_ack, q.timer, q.wait_queue_reliable)

waits-if :
    (b : Bool) (w : Waits) (x y : Protocol)
    → waits x ≡ w
    → waits y ≡ w
    → waits (if b then x else y) ≡ w
waits-if true w x y hx hy = hx
waits-if false w x y hx hy = hy

module _ (requires : BufferType → Bool) where
  -- The object once the head is chosen.
  abbrev head_chosen : Protocol → Protocol
  head_chosen p = record ((prepare_i_frame requires p).0) {
    wait_for_ack = true;
    peer_requires_ack = false;
    timer = some send_again;
  }

  choose_i-head :
      (p : Protocol) → IsTurn p → choose_i requires (p, empty_frame) ≡ (head_chosen p, head_frame p)
  unfolding choose_i prepare_i_frame
  choose_i-head p t = if_on (may_send_i p) _ _ t.free

  choose_srej-none : (p : Protocol) → IsTurn p → choose_srej (p, empty_frame) ≡ (p, empty_frame)
  unfolding choose_srej
  choose_srej-none p t = if_off (not (empty p.srejs)) _ _ (ap not t.no_srej)

  later_stages :
      (q p : Protocol) → query_payload (choose_ui (choose_rr (q, head_frame p))) ≡ (q, head_frame p)
  unfolding query_payload choose_ui choose_rr
  later_stages q p = refl

  choose_alive-head :
      (p : Protocol)
      → IsTurn p
      → choose_alive requires (p, empty_frame) ≡ (head_chosen p, head_frame p)
  unfolding choose_alive
  choose_alive-head p t =
      if_on (is_alive p.alive) _ _ t.alive
      ∙ ap (λ c. query_payload (choose_ui (choose_rr (choose_i requires c)))) (choose_srej-none p t)
      ∙ ap (λ c. query_payload (choose_ui (choose_rr c))) (choose_i-head p t)
      ∙ later_stages (head_chosen p) p

  choose_probe-none : (p : Protocol) → IsTurn p → choose_probe p ≡ (p, empty_frame)
  unfolding choose_probe
  choose_probe-none p t = if_off p.send_probe _ _ t.no_probe

  send_chosen-some :
      (q p : Protocol) {bytes : List ℕ}
      → serialize_frame (head_frame p) ≡ some bytes
      → send_chosen requires (q, head_frame p) ≡ transmit requires (head_frame p) bytes q
  unfolding send_chosen
  send_chosen-some q p e = rw e refl

  opportunity_for_transmission-head :
      (p : Protocol) {bytes : List ℕ}
      → IsTurn p
      → serialize_frame (head_frame p) ≡ some bytes
      → opportunity_for_transmission requires p
        ≡ transmit requires (head_frame p) bytes (head_chosen p)
  unfolding opportunity_for_transmission
  opportunity_for_transmission-head p t e =
      if_off (not p.awaits_next_hdlc_frame) _ _ (ap not t.asked)
      ∙ ap (λ c. send_chosen requires (choose_alive requires c)) (choose_probe-none p t)
      ∙ ap (send_chosen requires) (choose_alive-head p t)
      ∙ send_chosen-some (head_chosen p) p e

  deliver_required-waits :
      (type : BufferType) (bytes : List ℕ) (reliable invalid was_sent : Bool) (p : Protocol)
      → waits (deliver_required requires type bytes reliable invalid was_sent p) ≡ waits p
  unfolding deliver_required
  deliver_required-waits type bytes reliable invalid was_sent p =
      waits-if (requires type) (waits p) _ _ refl refl

  transmit-waits :
      (f : HdlcFrame) (bytes : List ℕ) (q : Protocol)
      → waits (transmit requires f bytes q)
        ≡ (false, q.wait_for_ack, q.timer, q.wait_queue_reliable)
  unfolding transmit
  transmit-waits f bytes q =
      let r = record q { awaits_next_hdlc_frame = false } in
      let raw = deliver_required requires buffer_type_raw bytes (is_i_frame f) false true r in
      deliver_required-waits buffer_type_dissected (dissect f) (is_i_frame f) false true raw
      ∙ deliver_required-waits buffer_type_raw bytes (is_i_frame f) false true r

  head_chosen-queue : (p : Protocol) → (head_chosen p).wait_queue_reliable ≡ p.wait_queue_reliable
  unfolding prepare_i_frame
  head_chosen-queue p =
      ap (λ w. w.3)
        (deliver_required-waits buffer_type_payload (front [] p.wait_queue_reliable) true false true
          (demand (not (empty p.wait_queue_reliable)) p))

  pub transmit-emitted :
      (f : HdlcFrame) (bytes : List ℕ) (q : Protocol)
      → (before : List Action) × ((transmit requires f bytes q).emitted
          ≡ before ++ transmit_hdlc_frame (escape_frame bytes) ∷ [])
  unfolding transmit
  transmit-emitted f bytes q = (_, refl)

pub head_frame-IsSendable :
    (p : Protocol)
    → p.s_seq_outgoing < 8
    → p.r_seq_incoming < 8
    → length (front [] p.wait_queue_reliable) ≤ 1018
    → IsSendable (head_frame p)
unfolding control_field
head_frame-IsSendable p hs hr short = record {
  control = _;
  append = true;
  supported = refl;
  no_cmdr = λ e. absurd (cc e);
  s_fits = hs;
  r_fits = hr;
  s_used = refl;
  r_used = refl;
  flag = refl;
  no_payload = λ e. absurd (cc e);
  short = short;
}

-- One frame on the line, for a fresh parser.
pub one_frame :
    {S : Type 0} (interpret : List ℕ → HdlcFrame → Bool → S → S) (s : S) (f : HdlcFrame)
    (h : IsSendable f) (chunks : List (List ℕ))
    → joined chunks ≡ escape_frame (sealed (sent_message f h))
    → feed interpret FrameParser.reset s chunks
      ≡ some (FrameParser.reset, interpret (sealed (sent_message f h)) f false s)
one_frame interpret s f h chunks e =
    let raw = sealed (sent_message f h) in
    feed-line interpret (record { junk = []; message = sent_message f h } ∷ []) s chunks
      (record { no_flag = tt; short = omega arith; body = sent_message-IsBody f h }, tt)
      (e ∙ sym (append-nil (escape_frame raw)))
    ∙ ap (λ g. some (FrameParser.reset, interpret raw g false s)) (read-serialize f h)

-- When it is the turn of the head of the queue (the port waits, the device is alive, no probe and no
-- SREJ is due, no I-frame is out and the peer has not stopped the flow), the payload has at most 1018
-- bytes and the sequence numbers are below 8, the next opportunity for transmission ends with handing the port one frame. The object then waits for the ACK and for the
-- port with the timer set, and the payload is still in the queue. A fresh parser at the other end hands
-- its owner one valid I-frame with this payload and the sequence numbers of the object, however the
-- line is cut into reads.
pub head_reaches_peer :
    (requires : BufferType → Bool) (p : Protocol) {S : Type 0}
    (interpret : List ℕ → HdlcFrame → Bool → S → S) (s : S) (cut : List ℕ → List (List ℕ))
    → IsTurn p
    → p.s_seq_outgoing < 8
    → p.r_seq_incoming < 8
    → length (front [] p.wait_queue_reliable) ≤ 1018
    → ((bytes : List ℕ) → joined (cut bytes) ≡ bytes)
    → (before : List Action) × (raw : List ℕ) × ((opportunity_for_transmission requires p).emitted
        ≡ before ++ transmit_hdlc_frame (escape_frame raw) ∷ [])
      × (waits (opportunity_for_transmission requires p)
          ≡ (false, true, some send_again, p.wait_queue_reliable))
      × (feed interpret FrameParser.reset s (cut (escape_frame raw))
          ≡ some (FrameParser.reset, interpret raw (head_frame p) false s))
head_reaches_peer requires p interpret s cut turn hs hr short cuts =
    let f = head_frame p in
    let h = head_frame-IsSendable p hs hr short in
    let raw = sealed (sent_message f h) in
    let chosen = head_chosen requires p in
    let sent = opportunity_for_transmission-head requires p turn (deserialize-serialize f h).0 in
    let (before, last) = transmit-emitted requires f raw chosen in
    (
      before,
      raw,
      ap (λ q. q.emitted) sent ∙ last,
      ap waits sent
          ∙ transmit-waits requires f raw chosen
          ∙ ap (λ q. (false, true, some send_again, q)) (head_chosen-queue requires p),
      one_frame interpret s f h (cut (escape_frame raw)) (cuts (escape_frame raw)),
    )
