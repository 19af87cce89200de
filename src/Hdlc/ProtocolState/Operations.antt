-- ===== src/Hdlc/ProtocolState/Operations.antt =====
-- ProtocolState.cpp: the operations that the owner calls and the handlers of the timers.
use hdlcd.Base.{
  ℕ, Bool, true, false, not, ◌||◌, ◌&&◌, List, [], ◌∷◌, ◌++◌, Option, none, some, if◌then◌else◌,
}
use hdlcd.Hdlc.AliveState
use hdlcd.Hdlc.AliveState.{Callback}
use hdlcd.Hdlc.FrameParser
use hdlcd.Hdlc.ProtocolState.{
  BufferType, change_baud_rate, propagate_serial_port_state, TimerHandler, send_again, query_peer,
  Protocol, empty, demand, emit,
}
use hdlcd.Hdlc.ProtocolState.Transmit.{opportunity_for_transmission}
use hdlcd.Hdlc.ProtocolState.Receive.{interpret_deserialized_frame}

-- The private Reset. The wait queues stay.
unfoldable pub reset : Protocol → Protocol
unfolding AliveState.stop
reset p = record p {
  alive = AliveState.stop p.alive;
  timer = none;
  started = false;
  awaits_next_hdlc_frame = true;
  s_seq_outgoing = 0;
  r_seq_incoming = 0;
  send_probe = false;
  peer_stopped_flow = false;
  peer_stopped_flow_new = false;
  peer_stopped_flow_queried = false;
  peer_requires_ack = false;
  wait_for_ack = false;
  srejs = [];
  parser = FrameParser.reset;
}

-- The constructor; the SerialPortHandler is given.
unfoldable pub initial : Protocol
unfolding AliveState.stop AliveState.initial
initial = record {
  started = false;
  awaits_next_hdlc_frame = true;
  s_seq_outgoing = 0;
  r_seq_incoming = 0;
  send_probe = false;
  peer_stopped_flow = false;
  peer_stopped_flow_new = false;
  peer_stopped_flow_queried = false;
  peer_requires_ack = false;
  wait_for_ack = false;
  srejs = [];
  attached = true;
  parser = FrameParser.reset;
  wait_queue_reliable = [];
  wait_queue_unreliable = [];
  alive = AliveState.stop AliveState.initial;
  timer = none;
  emitted = [];
  failed = false;
}

unfoldable pub stop : Protocol → Protocol
unfolding reset
stop p = if p.started then emit propagate_serial_port_state (reset p) else p

unfoldable pub shutdown : Protocol → Protocol
unfolding reset
shutdown p = if p.started then record (reset p) { attached = false } else p

-- The state timer of AliveState, which calls nothing.
unfoldable pub alive_state_timer_expired : Protocol → Protocol
unfolding AliveState.state_timer_expired
alive_state_timer_expired p = elim (AliveState.state_timer_expired p.alive) [
  | none ↦ demand false p
  | some a ↦ record p { alive = a }
]

module _ (requires : BufferType → Bool) where
  -- The callbacks that the constructor registers with AliveState.
  unfoldable pub on_callback : Callback → Protocol → Protocol
  unfolding opportunity_for_transmission
  on_callback Callback.send_probe p =
      let q = record p { send_probe = true } in
      if q.attached then opportunity_for_transmission requires q else q
  on_callback Callback.change_baud_rate p =
      if p.attached then emit propagate_serial_port_state (emit change_baud_rate p) else p

  unfoldable pub on_callbacks : List Callback → Protocol → Protocol
  unfolding on_callback
  on_callbacks [] p = p
  on_callbacks (c ∷ cs) p = on_callbacks cs (on_callback c p)

  unfoldable pub start : Protocol → Protocol
  unfolding reset on_callbacks opportunity_for_transmission AliveState.start
  start p =
      let q = reset p in
      let (alive, calls) = AliveState.start q.alive in
      opportunity_for_transmission requires
        (on_callbacks calls (record q { started = true; alive = alive }))

  -- SendPayload after the payload is queued.
  unfoldable pub payload_queued : Protocol → Protocol
  unfolding opportunity_for_transmission
  payload_queued p =
      let send_reliable_frames =
        (p.started || not p.peer_stopped_flow) || not (empty p.wait_queue_reliable) in
      let send_unreliable_frames = p.started || not (empty p.wait_queue_unreliable) in
      if p.awaits_next_hdlc_frame && (send_reliable_frames || send_unreliable_frames)
      then opportunity_for_transmission requires p
      else p

  unfoldable pub send_payload : List ℕ → Bool → Protocol → Protocol
  unfolding payload_queued
  send_payload payload reliable p = payload_queued (
      if reliable
      then record p { wait_queue_reliable = p.wait_queue_reliable ++ payload ∷ [] }
      else record p { wait_queue_unreliable = p.wait_queue_unreliable ++ payload ∷ [] })

  unfoldable pub trigger_next_hdlc_frame : Protocol → Protocol
  unfolding opportunity_for_transmission
  trigger_next_hdlc_frame p =
      if not p.started
      then p
      else opportunity_for_transmission requires (record p { awaits_next_hdlc_frame = true })

  -- The parser is a member and its owner is this object: while it reads, its own fields stand in
  -- `parser'` and nothing reads `p.parser`.
  unfoldable pub add_received_raw_bytes : List ℕ → Protocol → Protocol
  unfolding FrameParser.add_received_raw_bytes interpret_deserialized_frame
  add_received_raw_bytes bytes p =
      if not p.started
      then p
      else (elim (FrameParser.add_received_raw_bytes (interpret_deserialized_frame requires)
          p.parser p bytes) [
            | none ↦ demand false p
            | some (parser', q) ↦ record q { parser = parser' }
          ])

  -- The handlers of `m_Timer`. An expired timer waits for nothing any more.
  unfoldable pub run_handler : Option TimerHandler → Protocol → Protocol
  unfolding opportunity_for_transmission
  run_handler none p = p
  run_handler (some send_again) p =
      opportunity_for_transmission requires (record p { timer = none; wait_for_ack = false })
  run_handler (some query_peer) p =
      if p.peer_stopped_flow
      then opportunity_for_transmission requires
          (record p { timer = none; peer_requires_ack = true; peer_stopped_flow_queried = false })
      else record p { timer = none }

  unfoldable pub timer_expired : Protocol → Protocol
  unfolding run_handler
  timer_expired p = run_handler p.timer p

  -- The probe timer of AliveState with the callbacks that it leads to.
  unfoldable pub alive_probe_timer_expired : Protocol → Protocol
  unfolding AliveState.probe_timer_expired on_callbacks
  alive_probe_timer_expired p =
      let (a, calls) = AliveState.probe_timer_expired p.alive in
      on_callbacks calls (record p { alive = a })
