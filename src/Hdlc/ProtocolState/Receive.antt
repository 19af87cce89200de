-- ===== src/Hdlc/ProtocolState/Receive.antt =====
-- ProtocolState.cpp, InterpretDeserializedFrame: what a received frame does to the object.
use hdlcd.Base.{
  ℕ, zero, suc, ◌+◌, ◌%◌, ◌^◌, bit_and, Bool, true, false, not, ◌||◌, ◌&&◌, List, [], ◌∷◌, Option,
  none, some, ◌==◌, if◌then◌else◌,
}
use hdlcd.Hdlc.Frame.{
  FrameType, type_code, s_rr, s_rnr, s_rej, s_srej, HdlcFrame, is_i_frame, is_s_frame, has_payload,
}
use hdlcd.Hdlc.Frame.Dissect.{dissect}
use hdlcd.Hdlc.AliveState.{on_frame_received}
use hdlcd.Hdlc.ProtocolState.{
  BufferType, buffer_type_payload, buffer_type_raw, buffer_type_dissected,
  propagate_serial_port_state, Protocol, empty, pop_front, demand, emit, deliver_required,
}
use hdlcd.Hdlc.ProtocolState.Transmit.{opportunity_for_transmission}

abbrev pub has_type : FrameType → HdlcFrame → Bool
has_type t f = type_code f.frame_type == type_code t

-- The loop that lists the missing sequence numbers: from `it`, an unsigned char, up to the received
-- one. `none` where the fuel runs out.
unfoldable pub missing : ℕ → (it s_seq : ℕ) → Option (List ℕ)
missing zero it s_seq = none
missing (suc fuel) it s_seq =
    let rest = missing fuel ((it + 1) % 2 ^ 8) s_seq in
    if bit_and it 0x07 == s_seq
    then some []
    else (elim rest [ none ↦ none | some its ↦ some (it ∷ its) ])

unfoldable pub noted : Option (List ℕ) → Protocol → Protocol
noted none p = demand false p
noted (some its) p = record p { srejs = its }

-- There are eight sequence numbers, so the loop ends within eight rounds.
unfoldable pub note_missing : HdlcFrame → Protocol → Protocol
unfolding missing noted
note_missing f p =
    if not (p.r_seq_incoming == f.s_seq) then noted (missing 8 p.r_seq_incoming f.s_seq) p else p

unfoldable pub accept_i_frame : HdlcFrame → Protocol → Protocol
unfolding note_missing
accept_i_frame f p =
    let q = note_missing f p in
    record q { r_seq_incoming = bit_and (f.s_seq + 1) 0x07; peer_requires_ack = true }

-- RR, REJ and SREJ end an RNR condition.
unfoldable pub restart_flow : Protocol → Protocol
restart_flow p =
    if p.peer_stopped_flow
    then record p { peer_stopped_flow = false; wait_for_ack = false; timer = none }
    else p

-- `m_WaitQueueReliable.pop_front()`.
unfoldable pub pop_reliable : Protocol → Protocol
pop_reliable p = record (demand (not (empty p.wait_queue_reliable)) p) {
  wait_queue_reliable = pop_front p.wait_queue_reliable;
}

abbrev pub acknowledges : HdlcFrame → Protocol → Bool
acknowledges f p = f.r_seq == bit_and (p.s_seq_outgoing + 1) 0x07

unfoldable pub on_i_or_rr : HdlcFrame → Protocol → Protocol
unfolding restart_flow pop_reliable
on_i_or_rr f p =
    let q = if has_type s_rr f then restart_flow p else p in
    let r =
      if q.wait_for_ack && acknowledges f q
      then pop_reliable (record q { wait_for_ack = false; timer = none })
      else q in
    record r { s_seq_outgoing = f.r_seq }

unfoldable pub on_rnr : HdlcFrame → Protocol → Protocol
unfolding pop_reliable
on_rnr f p =
    let q =
      if not p.peer_stopped_flow
      then record p {
        peer_stopped_flow = true;
        peer_stopped_flow_new = true;
        peer_stopped_flow_queried = false;
      }
      else p in
    let r =
      if q.wait_for_ack
      then (let s = record q { wait_for_ack = false; timer = none } in
          if acknowledges f s then pop_reliable s else s)
      else q in
    record r { s_seq_outgoing = f.r_seq }

unfoldable pub on_rej : HdlcFrame → Protocol → Protocol
unfolding restart_flow
on_rej f p =
    let q = restart_flow p in
    let r =
      if f.r_seq == q.s_seq_outgoing then record q { wait_for_ack = false; timer = none } else q in
    record r { s_seq_outgoing = bit_and (f.r_seq + 0x07) 0x07 }

unfoldable pub on_srej : HdlcFrame → Protocol → Protocol
unfolding restart_flow
on_srej f p =
    let q = restart_flow (demand (has_type s_srej f) p) in
    if q.wait_for_ack && f.r_seq == q.s_seq_outgoing
    then record q { wait_for_ack = false; timer = none }
    else q

-- The checks of ACKs and NACKs.
unfoldable pub check_ack : HdlcFrame → Protocol → Protocol
unfolding on_i_or_rr on_rnr on_rej on_srej
check_ack f p =
    if is_i_frame f || is_s_frame f
    then if is_i_frame f || has_type s_rr f
      then on_i_or_rr f p
      else if has_type s_rnr f
      then on_rnr f p
      else if has_type s_rej f
      then on_rej f p
      else on_srej f p
    else p

-- OnFrameReceived of AliveState, and the news that the device answers.
unfoldable pub note_alive : Protocol → Protocol
unfolding on_frame_received
note_alive p =
    let (alive, changed) = on_frame_received p.alive in
    if changed
    then emit propagate_serial_port_state (record p { alive = alive })
    else record p { alive = alive }

module _ (requires : BufferType → Bool) where
  -- The payload goes to the clients, and an I-frame moves the receive window.
  unfoldable pub accept_payload : HdlcFrame → Protocol → Protocol
  unfolding deliver_required accept_i_frame
  accept_payload f p =
      if has_payload f
      then (let q =
            deliver_required requires buffer_type_payload f.payload (is_i_frame f) false false p in
          if is_i_frame f then accept_i_frame f q else q)
      else p

  -- A valid frame, from `A valid frame was received` on.
  unfoldable pub interpret_valid : HdlcFrame → Protocol → Protocol
  unfolding accept_payload check_ack opportunity_for_transmission note_alive
  interpret_valid f p =
      let q = check_ack f (accept_payload f (note_alive p)) in
      if q.awaits_next_hdlc_frame then opportunity_for_transmission requires q else q

  unfoldable pub interpret_deserialized_frame : List ℕ → HdlcFrame → Bool → Protocol → Protocol
  unfolding deliver_required interpret_valid
  interpret_deserialized_frame bytes f invalid p =
      if not p.started
      then p
      else let q =
          deliver_required requires buffer_type_dissected (dissect f) false invalid false
            (deliver_required requires buffer_type_raw bytes false invalid false p) in
        if invalid then q else interpret_valid f q
