-- ===== src/Hdlc/ProtocolState/Pacing.antt =====
-- ProtocolState.cpp: frames handed to the port, against its calls of TriggerNextHDLCFrame.
use hdlcd.Base.{
  ℕ, ◌+◌, ◌≤◌, ◌≡◌, refl, ap, ◌∙◌, Bool, true, false, not, ◌&&◌, ◌||◌, List, [], ◌∷◌, ◌++◌, Option,
  none, some, arith,
}
use native.Mathlib.Nat.{le_refl}
use hdlcd.Hdlc.AliveState
use hdlcd.Hdlc.AliveState.{Callback}
use hdlcd.Hdlc.FrameParser
use hdlcd.Hdlc.FrameParser.Owner.{add_received_raw_bytes-keeps}
use hdlcd.Hdlc.ProtocolState.{
  BufferType, change_baud_rate, propagate_serial_port_state, Protocol, empty, emit, demand,
  TimerHandler, send_again, query_peer,
}
use hdlcd.Hdlc.ProtocolState.Transmit.{opportunity_for_transmission}
use hdlcd.Hdlc.ProtocolState.Receive.{interpret_deserialized_frame}
use hdlcd.Hdlc.ProtocolState.Operations.{
  reset, initial, stop, shutdown, on_callback, on_callbacks, start, payload_queued, send_payload,
  trigger_next_hdlc_frame, add_received_raw_bytes, run_handler, timer_expired,
  alive_state_timer_expired, alive_probe_timer_expired,
}
use hdlcd.Hdlc.ProtocolState.Reachable.{
  Step, start_step, stop_step, shutdown_step, send_payload_step, trigger_step, receive_step,
  timer_step, state_timer_step, probe_timer_step, IsReachable, fresh_object, after,
}
use hdlcd.Hdlc.ProtocolState.Ledger.{
  transmits, ledger, credit_of, credit, emit-ledger, credit-if, opportunity_for_transmission-credit,
}
use hdlcd.Hdlc.ProtocolState.Credit.{interpret_deserialized_frame-credit}

module _ (requires : BufferType → Bool) where
  on_callback-credit : (c : Callback) (p : Protocol) → credit (on_callback requires c p) ≤ credit p
  unfolding on_callback
  on_callback-credit Callback.send_probe p =
      let q = record p { send_probe = true } in
      credit-if q.attached (credit p) _ q (λ _. opportunity_for_transmission-credit requires q)
        (λ _. le_refl (credit p))
  on_callback-credit Callback.change_baud_rate p =
      let q = emit change_baud_rate p in
      let same : ledger (emit propagate_serial_port_state q) ≡ ledger p =
        emit-ledger propagate_serial_port_state q refl ∙ emit-ledger change_baud_rate p refl in
      credit-if p.attached (credit p) _ p (λ _. omega (arith, ap credit_of same))
        (λ _. le_refl (credit p))

  on_callbacks-credit :
      (cs : List Callback) (p : Protocol) → credit (on_callbacks requires cs p) ≤ credit p
  unfolding on_callbacks
  on_callbacks-credit [] p = le_refl (credit p)
  on_callbacks-credit (c ∷ cs) p =
      omega (arith, on_callbacks-credit cs (on_callback requires c p), on_callback-credit c p)

  -- The port's wait is renewed once at most.
  renewed : (p : Protocol) → transmits p.emitted + 1 ≤ credit p + 1
  renewed p = omega arith

  pub start-renews : (p : Protocol) → credit (start requires p) ≤ transmits p.emitted + 1
  unfolding start reset
  start-renews p =
      let calls = (AliveState.start (reset p).alive).1 in
      let fresh = record (reset p) {
        started = true;
        alive = (AliveState.start (reset p).alive).0;
      } in
      omega (
        arith,
        opportunity_for_transmission-credit requires (on_callbacks requires calls fresh),
        on_callbacks-credit calls fresh,
      )

  start-credit : (p : Protocol) → credit (start requires p) ≤ credit p + 1
  start-credit p = omega (arith, start-renews p, renewed p)

  payload_queued-credit : (p : Protocol) → credit (payload_queued requires p) ≤ credit p
  unfolding payload_queued
  payload_queued-credit p =
      credit-if
        (p.awaits_next_hdlc_frame
          && (((p.started || not p.peer_stopped_flow) || not (empty p.wait_queue_reliable))
              || (p.started || not (empty p.wait_queue_unreliable))))
        (credit p) (opportunity_for_transmission requires p) p
        (λ _. opportunity_for_transmission-credit requires p) (λ _. le_refl (credit p))

  pub send_payload-credit :
      (bytes : List ℕ) (reliable : Bool) (p : Protocol)
      → credit (send_payload requires bytes reliable p) ≤ credit p
  unfolding send_payload
  send_payload-credit bytes true p =
      payload_queued-credit (record p { wait_queue_reliable = p.wait_queue_reliable ++ bytes ∷ [] })
  send_payload-credit bytes false p =
      payload_queued-credit
        (record p { wait_queue_unreliable = p.wait_queue_unreliable ++ bytes ∷ [] })

  pub trigger-renews :
      (p : Protocol)
      → p.started ≡ true
      → credit (trigger_next_hdlc_frame requires p) ≤ transmits p.emitted + 1
  unfolding trigger_next_hdlc_frame
  trigger-renews p on =
      let q = record p { awaits_next_hdlc_frame = true } in
      credit-if (not p.started) (transmits p.emitted + 1) p _
        (λ off. absurd (ground (arith, on, off)))
        (λ _. opportunity_for_transmission-credit requires q)

  trigger-credit : (p : Protocol) → credit (trigger_next_hdlc_frame requires p) ≤ credit p + 1
  unfolding trigger_next_hdlc_frame
  trigger-credit p =
      let q = record p { awaits_next_hdlc_frame = true } in
      credit-if (not p.started) (credit p + 1) p _ (λ _. omega arith)
        (λ _. omega (arith, opportunity_for_transmission-credit requires q, renewed p))

  received-credit :
      (p : Protocol) (bytes : List ℕ) (o : Option (FrameParser.Parser × Protocol))
      → FrameParser.add_received_raw_bytes (interpret_deserialized_frame requires) p.parser p bytes
        ≡ o
      → credit
          (elim o [ none ↦ demand false p | some (parser', q) ↦ record q { parser = parser' } ])
        ≤ credit p
  received-credit p bytes none e = le_refl (credit p)
  received-credit p bytes (some (parser', q)) e =
      add_received_raw_bytes-keeps (interpret_deserialized_frame requires)
        (λ t. credit t ≤ credit p)
        (λ raw f bad t n k.
          omega (arith, interpret_deserialized_frame-credit requires raw f bad t, k))
        p.parser p bytes e (le_refl (credit p))

  pub receive-credit :
      (bytes : List ℕ) (p : Protocol) → credit (add_received_raw_bytes requires bytes p) ≤ credit p
  unfolding add_received_raw_bytes
  receive-credit bytes p =
      credit-if (not p.started) (credit p) p _ (λ _. le_refl (credit p))
        (λ _. received-credit p bytes _ refl)

  run_handler-credit :
      (o : Option TimerHandler) (p : Protocol) → credit (run_handler requires o p) ≤ credit p
  unfolding run_handler
  run_handler-credit none p = le_refl (credit p)
  run_handler-credit (some send_again) p =
      opportunity_for_transmission-credit requires (record p { timer = none; wait_for_ack = false })
  run_handler-credit (some query_peer) p =
      let q = record p {
        timer = none;
        peer_requires_ack = true;
        peer_stopped_flow_queried = false;
      } in
      credit-if p.peer_stopped_flow (credit p) (opportunity_for_transmission requires q)
        (record p { timer = none }) (λ _. opportunity_for_transmission-credit requires q)
        (λ _. le_refl (credit p))

module _ (requires : BufferType → Bool) where
  pub timer-credit : (p : Protocol) → credit (timer_expired requires p) ≤ credit p
  unfolding timer_expired
  timer-credit p = run_handler-credit requires p.timer p

  pub probe_timer-credit : (p : Protocol) → credit (alive_probe_timer_expired requires p) ≤ credit p
  unfolding alive_probe_timer_expired
  probe_timer-credit p =
      on_callbacks-credit requires (AliveState.probe_timer_expired p.alive).1
        (record p { alive = (AliveState.probe_timer_expired p.alive).0 })

stop-credit : (p : Protocol) → credit (stop p) ≤ credit p + 1
unfolding stop reset
stop-credit p =
    credit-if p.started (credit p + 1) _ p
      (λ _. omega (
        arith,
        renewed (λ _. true) p,
        ap credit_of (emit-ledger propagate_serial_port_state (reset p) refl),
      ))
      (λ _. omega arith)

shutdown-credit : (p : Protocol) → credit (shutdown p) ≤ credit p + 1
unfolding shutdown reset
shutdown-credit p =
    credit-if p.started (credit p + 1) _ p (λ _. renewed (λ _. true) p) (λ _. omega arith)

pub state_timer-credit : (p : Protocol) → credit (alive_state_timer_expired p) ≤ credit p
unfolding alive_state_timer_expired
state_timer-credit p = either_way (AliveState.state_timer_expired p.alive)
  where
    either_way :
        (o : Option AliveState.Alive)
        → credit (elim o [ none ↦ demand false p | some a ↦ record p { alive = a } ]) ≤ credit p
    either_way none = le_refl (credit p)
    either_way (some a) = le_refl (credit p)

-- Whether a step lets the port ask for a frame: TriggerNextHDLCFrame does, and the three operations
-- that reset the object.
pub grants : {p q : Protocol} → Step p q → ℕ
grants (start_step requires p port) = 1
grants (stop_step p) = 1
grants (shutdown_step p) = 1
grants (send_payload_step requires bytes reliable p) = 0
grants (trigger_step requires p) = 1
grants (receive_step requires bytes p) = 0
grants (timer_step requires p) = 0
grants (state_timer_step p) = 0
grants (probe_timer_step requires p) = 0

pub all_grants : {p : Protocol} → IsReachable p → ℕ
all_grants fresh_object = 1
all_grants (after r step) = all_grants r + grants step

Step-credit : {p q : Protocol} (t : Step p q) → credit q ≤ credit p + grants t
unfolding grants
Step-credit (start_step requires p port) = start-credit requires p
Step-credit (stop_step p) = stop-credit p
Step-credit (shutdown_step p) = shutdown-credit p
Step-credit (send_payload_step requires bytes reliable p) =
    omega (arith, send_payload-credit requires bytes reliable p)
Step-credit (trigger_step requires p) = trigger-credit requires p
Step-credit (receive_step requires bytes p) = omega (arith, receive-credit requires bytes p)
Step-credit (timer_step requires p) = omega (arith, timer-credit requires p)
Step-credit (state_timer_step p) = omega (arith, state_timer-credit p)
Step-credit (probe_timer_step requires p) = omega (arith, probe_timer-credit requires p)

reachable-credit : (p : Protocol) (r : IsReachable p) → credit p ≤ all_grants r
unfolding all_grants initial
reachable-credit _ fresh_object = omega arith
reachable-credit _ (after {p = p} r step) = omega (arith, reachable-credit p r, Step-credit step)

-- In every history the port is handed at most one frame for each time it could ask for one: the
-- construction of the object, TriggerNextHDLCFrame, Start, Stop and Shutdown. No timer, no received
-- byte and no queued payload makes the object send a frame beyond that.
pub frames_are_asked_for : (p : Protocol) (r : IsReachable p) → transmits p.emitted ≤ all_grants r
frames_are_asked_for p r = omega (arith, reachable-credit p r)
