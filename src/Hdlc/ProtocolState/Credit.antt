-- ===== src/Hdlc/ProtocolState/Credit.antt =====
-- ProtocolState.cpp, InterpretDeserializedFrame: what a received frame adds to the frames handed over.
use hdlcd.Base.{
  ℕ, ◌≤◌, ◌≡◌, refl, ap, subst, ◌∙◌, Bool, false, not, List, Option, none, some, arith, ◌==◌,
  if◌then◌else◌,
}
use native.Mathlib.Nat.{le_refl}
use hdlcd.Hdlc.AliveState
use hdlcd.Hdlc.AliveState.{Callback}
use hdlcd.Hdlc.Frame.{HdlcFrame, is_i_frame, has_payload}
use hdlcd.Hdlc.Frame.Dissect.{dissect}
use hdlcd.Hdlc.ProtocolState.{
  BufferType, buffer_type_raw, buffer_type_dissected, buffer_type_payload,
  propagate_serial_port_state, Protocol, deliver_required,
}
use hdlcd.Hdlc.ProtocolState.Receive.{
  missing, noted, note_missing, accept_i_frame, restart_flow, pop_reliable, on_i_or_rr, on_rnr,
  on_rej, on_srej, check_ack, accept_payload, note_alive, interpret_valid,
  interpret_deserialized_frame,
}
use hdlcd.Hdlc.ProtocolState.Ledger.{
  ledger, credit_of, credit, emit-ledger, ledger-if, credit-if, deliver_required-ledger,
  opportunity_for_transmission-credit,
}

check_ack-ledger : (f : HdlcFrame) (p : Protocol) → ledger (check_ack f p) ≡ ledger p
unfolding check_ack on_i_or_rr on_rnr on_rej on_srej restart_flow pop_reliable
check_ack-ledger f p = ground arith

noted-ledger : (o : Option (List ℕ)) (p : Protocol) → ledger (noted o p) ≡ ledger p
unfolding noted
noted-ledger none p = refl
noted-ledger (some its) p = refl

accept_i_frame-ledger : (f : HdlcFrame) (p : Protocol) → ledger (accept_i_frame f p) ≡ ledger p
unfolding accept_i_frame note_missing
accept_i_frame-ledger f p =
    ledger-if (not (p.r_seq_incoming == f.s_seq)) _ _ _
      (noted-ledger (missing 8 p.r_seq_incoming f.s_seq) p) refl

note_alive-ledger : (p : Protocol) → ledger (note_alive p) ≡ ledger p
unfolding note_alive
note_alive-ledger p =
    let q = record p { alive = (AliveState.on_frame_received p.alive).0 } in
    ledger-if (AliveState.on_frame_received p.alive).1 (ledger p) _ _
      (emit-ledger propagate_serial_port_state q refl) refl

module _ (requires : BufferType → Bool) where
  accept_payload-ledger :
      (f : HdlcFrame) (p : Protocol) → ledger (accept_payload requires f p) ≡ ledger p
  unfolding accept_payload
  accept_payload-ledger f p =
      let q =
        deliver_required requires buffer_type_payload f.payload (is_i_frame f) false false p in
      let same =
        deliver_required-ledger requires buffer_type_payload f.payload (is_i_frame f) false false
          p in
      ledger-if (has_payload f) (ledger p) _ p
        (ledger-if (is_i_frame f) (ledger p) (accept_i_frame f q) q
          (accept_i_frame-ledger f q ∙ same) same)
        refl

  interpret_valid-credit :
      (f : HdlcFrame) (p : Protocol) → credit (interpret_valid requires f p) ≤ credit p
  unfolding interpret_valid
  interpret_valid-credit f p =
      let q = check_ack f (accept_payload requires f (note_alive p)) in
      let same : ledger q ≡ ledger p =
        check_ack-ledger f (accept_payload requires f (note_alive p))
        ∙ accept_payload-ledger f (note_alive p)
        ∙ note_alive-ledger p in
      subst (λ n. credit (interpret_valid requires f p) ≤ n) (ap credit_of same)
        (credit-if q.awaits_next_hdlc_frame (credit q) _ q
          (λ _. opportunity_for_transmission-credit requires q) (λ _. le_refl (credit q)))

  pub interpret_deserialized_frame-credit :
      (bytes : List ℕ) (f : HdlcFrame) (invalid : Bool) (p : Protocol)
      → credit (interpret_deserialized_frame requires bytes f invalid p) ≤ credit p
  unfolding interpret_deserialized_frame
  interpret_deserialized_frame-credit bytes f invalid p =
      let q = deliver_required requires buffer_type_raw bytes false invalid false p in
      let r = deliver_required requires buffer_type_dissected (dissect f) false invalid false q in
      let same : ledger r ≡ ledger p =
        deliver_required-ledger requires buffer_type_dissected (dissect f) false invalid false q
        ∙ deliver_required-ledger requires buffer_type_raw bytes false invalid false p in
      let whole = λ (n : ℕ). credit (if invalid then r else interpret_valid requires f r) ≤ n in
      credit-if (not p.started) (credit p) p _ (λ _. le_refl (credit p))
        (λ _. subst whole (ap credit_of same) (
          credit-if invalid (credit r) r _ (λ _. le_refl (credit r))
            (λ _. interpret_valid-credit f r)))
