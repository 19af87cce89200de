-- ===== src/Hdlc/ProtocolState/Transmit.antt =====
-- ProtocolState.cpp, OpportunityForTransmission: the frame that is sent next. Each stage has the frame
-- chosen so far and acts where none is chosen.
use hdlcd.Base.{ℕ, Bool, true, false, not, ◌||◌, ◌&&◌, List, none, some, if◌then◌else◌}
use hdlcd.Hdlc.Frame.{HdlcFrame, empty_frame, is_empty, is_i_frame, pf_bits}
use hdlcd.Hdlc.Frame.Dissect.{dissect}
use hdlcd.Hdlc.FrameGenerator.{serialize_frame, escape_frame}
use hdlcd.Hdlc.AliveState.{is_alive}
use hdlcd.Hdlc.ProtocolState.{
  BufferType, buffer_type_raw, buffer_type_dissected, transmit_hdlc_frame, query_for_payload,
  send_again, query_peer, Protocol, empty, pop_front, demand, emit, deliver_required,
  prepare_i_frame, prepare_s_frame_rr, prepare_s_frame_srej, prepare_u_frame_ui,
  prepare_u_frame_test,
}

-- The frame under construction with the object, between two stages.
abbrev pub Choice : Type 0
Choice = Protocol × HdlcFrame

unfoldable pub choose_probe : Protocol → Choice
choose_probe p =
    if p.send_probe
    then (record p { send_probe = false }, prepare_u_frame_test)
    else (p, empty_frame)

-- The caller has checked that no frame is chosen yet.
unfoldable pub choose_srej : Choice → Choice
unfolding prepare_s_frame_srej
choose_srej (p, f) = if not (empty p.srejs) then prepare_s_frame_srej p else (p, f)

-- A due RR, or the start of the periodical query: a new RNR condition only arms the timer.
unfoldable pub choose_rr : Choice → Choice
choose_rr (p, f) =
    if is_empty f && (p.peer_requires_ack || p.peer_stopped_flow_new)
    then if p.peer_stopped_flow_new
      then (record p { peer_stopped_flow_new = false; timer = some query_peer }, f)
      else if p.peer_stopped_flow && not p.peer_stopped_flow_queried
      then (
        record p {
          peer_requires_ack = false;
          peer_stopped_flow_queried = true;
          timer = some query_peer;
        },
        record (prepare_s_frame_rr p) { pf = pf_bits true },
      )
      else (record p { peer_requires_ack = false }, prepare_s_frame_rr p)
    else (p, f)

unfoldable pub choose_ui : Choice → Choice
unfolding prepare_u_frame_ui
choose_ui (p, f) =
    if is_empty f && not (empty p.wait_queue_unreliable)
    then (let (q, g) = prepare_u_frame_ui p in
        (record q { wait_queue_unreliable = pop_front q.wait_queue_unreliable }, g))
    else (p, f)

abbrev pub query_reliable : Protocol → Bool
query_reliable p =
    empty p.wait_queue_unreliable && (empty p.wait_queue_reliable && not p.peer_stopped_flow)

abbrev pub query_unreliable : Protocol → Bool
query_unreliable p =
    empty p.wait_queue_unreliable && (empty p.wait_queue_reliable || p.peer_stopped_flow)

-- With nothing to send the queues are to be filled. QueryForPayload may call SendPayload, which is
-- the next operation then: nothing follows the call here.
unfoldable pub query_payload : Choice → Choice
query_payload (p, f) =
    if is_empty f
    then if query_reliable p || query_unreliable p
      then (emit (query_for_payload (query_reliable p) (query_unreliable p)) p, f)
      else (p, f)
    else (p, f)

-- Whether an I-frame is sent now, unless another frame is chosen.
abbrev pub may_send_i : Protocol → Bool
may_send_i p = not (empty p.wait_queue_reliable) && (not p.wait_for_ack && not p.peer_stopped_flow)

module _ (requires : BufferType → Bool) where
  -- An I-frame for the head of the queue, unless one is on its way or the peer stopped the flow.
  unfoldable pub choose_i : Choice → Choice
  unfolding prepare_i_frame
  choose_i (p, f) =
      if is_empty f && may_send_i p
      then (let (q, g) = prepare_i_frame requires p in
          (record q { wait_for_ack = true; peer_requires_ack = false; timer = some send_again }, g))
      else (p, f)

  unfoldable pub choose_alive : Choice → Choice
  unfolding choose_srej choose_i choose_rr choose_ui query_payload
  choose_alive (p, f) =
      if is_empty f && is_alive p.alive
      then query_payload (choose_ui (choose_rr (choose_i (choose_srej (p, f)))))
      else (p, f)

  -- The serialised frame goes to the clients that have interest and to the port.
  unfoldable pub transmit : HdlcFrame → List ℕ → Protocol → Protocol
  unfolding deliver_required
  transmit f bytes p = emit (transmit_hdlc_frame (escape_frame bytes)) (
      deliver_required requires buffer_type_dissected (dissect f) (is_i_frame f) false true (
        deliver_required requires buffer_type_raw bytes (is_i_frame f) false true
          (record p { awaits_next_hdlc_frame = false })))

  unfoldable pub send_chosen : Choice → Protocol
  unfolding transmit
  send_chosen (p, f) =
      if not (is_empty f)
      then (elim (serialize_frame f) [ none ↦ demand false p | some bytes ↦ transmit f bytes p ])
      else p

  unfoldable pub opportunity_for_transmission : Protocol → Protocol
  unfolding choose_probe choose_alive send_chosen
  opportunity_for_transmission p =
      if not p.awaits_next_hdlc_frame then p else send_chosen (choose_alive (choose_probe p))
