-- ===== src/Hdlc/ProtocolState/Held.antt =====
-- ProtocolState.cpp: the ACK of the I-frame that is out.
use hdlcd.Base.{
  if_off, ℕ, ◌+◌, ◌≡◌, refl, sym, ap, ◌∙◌, bit_and, Bool, true, false, not, List, arith,
  if◌then◌else◌,
}
use hdlcd.Hdlc.AliveState.{on_frame_received}
use hdlcd.Hdlc.Frame.{HdlcFrame, has_payload, s_rr}
use hdlcd.Hdlc.Frame.Dissect.{dissect}
use hdlcd.Hdlc.ProtocolState.{
  BufferType, buffer_type_raw, buffer_type_dissected, Protocol, pop_front, deliver_required,
}
use hdlcd.Hdlc.ProtocolState.Receive.{
  accept_payload, check_ack, on_i_or_rr, restart_flow, pop_reliable, note_alive, interpret_valid,
  interpret_deserialized_frame,
}
use hdlcd.Hdlc.ProtocolState.Untouched.{Untouched, opportunity_for_transmission-untouched}

abbrev pub Held : Type 0
Held = ℕ × List (List ℕ)

abbrev pub held : Protocol → Held
held p = (p.s_seq_outgoing, p.wait_queue_reliable)

held-if :
    (b : Bool) (w : Held) (x y : Protocol) → held x ≡ w → held y ≡ w → held (if b then x else y) ≡ w
held-if true w x y hx hy = hx
held-if false w x y hx hy = hy

-- An RR with the next number, outside an RNR condition.
rr-held :
    (f : HdlcFrame) (p : Protocol)
    → f.frame_type ≡ s_rr
    → f.r_seq ≡ bit_and (p.s_seq_outgoing + 1) 0x07
    → p.wait_for_ack ≡ true
    → p.peer_stopped_flow ≡ false
    → held (check_ack f p) ≡ (f.r_seq, pop_front p.wait_queue_reliable)
unfolding check_ack on_i_or_rr restart_flow pop_reliable
rr-held f p t next out flows = ground (arith, t, next, out, flows)

-- What such an RR reads.
abbrev Out : Type 0
Out = ℕ × List (List ℕ) × Bool × Bool

abbrev out : Protocol → Out
out p = (p.s_seq_outgoing, p.wait_queue_reliable, p.wait_for_ack, p.peer_stopped_flow)

out-if :
    (b : Bool) (w : Out) (x y : Protocol) → out x ≡ w → out y ≡ w → out (if b then x else y) ≡ w
out-if true w x y hx hy = hx
out-if false w x y hx hy = hy

note_alive-out : (p : Protocol) → out (note_alive p) ≡ out p
unfolding note_alive on_frame_received
note_alive-out p = out-if (on_frame_received p.alive).1 (out p) _ _ refl refl

module _ (requires : BufferType → Bool) where
  deliver_required-out :
      (type : BufferType) (bytes : List ℕ) (reliable invalid was_sent : Bool) (p : Protocol)
      → out (deliver_required requires type bytes reliable invalid was_sent p) ≡ out p
  unfolding deliver_required
  deliver_required-out type bytes reliable invalid was_sent p =
      out-if (requires type) (out p) _ _ refl refl

  interpret_valid-held :
      (f : HdlcFrame) (p : Protocol)
      → has_payload f ≡ false
      → held (interpret_valid requires f p) ≡ held (check_ack f (note_alive p))
  unfolding interpret_valid accept_payload
  interpret_valid-held f p none_there =
      let q = check_ack f (accept_payload requires f (note_alive p)) in
      held-if q.awaits_next_hdlc_frame (held q) _ q
        (ap (λ (u : Untouched). (u.2, u.3)) (opportunity_for_transmission-untouched requires q))
        refl
      ∙ ap (λ r. held (check_ack f r)) (if_off (has_payload f) _ (note_alive p) none_there)

  -- The RR that acknowledges the I-frame which is out.
  pub interpret_deserialized_frame-held :
      (raw : List ℕ) (f : HdlcFrame) (p : Protocol)
      → p.started ≡ true
      → has_payload f ≡ false
      → f.frame_type ≡ s_rr
      → f.r_seq ≡ bit_and (p.s_seq_outgoing + 1) 0x07
      → p.wait_for_ack ≡ true
      → p.peer_stopped_flow ≡ false
      → held (interpret_deserialized_frame requires raw f false p)
        ≡ (f.r_seq, pop_front p.wait_queue_reliable)
  unfolding interpret_deserialized_frame
  interpret_deserialized_frame-held raw f p on none_there t next waits flows =
      let given = deliver_required requires buffer_type_raw raw false false false p in
      let told =
        deliver_required requires buffer_type_dissected (dissect f) false false false given in
      let same : out (note_alive told) ≡ out p =
        note_alive-out told
        ∙ deliver_required-out buffer_type_dissected (dissect f) false false false given
        ∙ deliver_required-out buffer_type_raw raw false false false p in
      ap held (if_off (not p.started) _ (interpret_valid requires f told) (ap not on))
      ∙ interpret_valid-held f told none_there
      ∙ rr-held f (note_alive told) t
          (next ∙ ap (λ n. bit_and (n + 1) 0x07) (sym (ap (λ (o : Out). o.0) same)))
          (ap (λ (o : Out). o.2) same ∙ waits) (ap (λ (o : Out). o.3) same ∙ flows)
      ∙ ap (λ (o : Out). (f.r_seq, pop_front o.1)) same
