-- ===== src/Hdlc/ProtocolState/Reachable.antt =====
-- ProtocolState.cpp: the states that the operations and the timers can reach, in any order.
use hdlcd.Base.{ℕ, ◌<◌, ◌≡◌, Bool, true, false, List}
use hdlcd.Hdlc.ProtocolState.{BufferType, Protocol, empty}
use hdlcd.Hdlc.ProtocolState.Operations.{
  initial, stop, shutdown, start, send_payload, trigger_next_hdlc_frame, add_received_raw_bytes,
  timer_expired, alive_state_timer_expired, alive_probe_timer_expired,
}
use hdlcd.Hdlc.ProtocolState.Kept.{
  initial-IsSound, stop-IsSound, shutdown-IsSound, start-IsSound, send_payload-IsSound,
  trigger_next_hdlc_frame-IsSound, add_received_raw_bytes-IsSound,
}
use hdlcd.Hdlc.ProtocolState.Timers.{
  timer_expired-IsSound, alive_state_timer_expired-IsSound, alive_probe_timer_expired-IsSound,
}
use hdlcd.Hdlc.ProtocolState.Sound.{IsSound}

-- One call or one expired timer. The clients' interest may change from step to step, and Start is
-- called only while there is a port.
pub data Step : Protocol → Protocol → Type 0 where
  start_step :
      (requires : BufferType → Bool) (p : Protocol) → p.attached ≡ true → Step p (start requires p)
  stop_step : (p : Protocol) → Step p (stop p)
  shutdown_step : (p : Protocol) → Step p (shutdown p)
  send_payload_step :
      (requires : BufferType → Bool) (bytes : List ℕ) (reliable : Bool) (p : Protocol)
      → Step p (send_payload requires bytes reliable p)
  trigger_step :
      (requires : BufferType → Bool) (p : Protocol) → Step p (trigger_next_hdlc_frame requires p)
  receive_step :
      (requires : BufferType → Bool) (bytes : List ℕ) (p : Protocol)
      → Step p (add_received_raw_bytes requires bytes p)
  timer_step : (requires : BufferType → Bool) (p : Protocol) → Step p (timer_expired requires p)
  state_timer_step : (p : Protocol) → Step p (alive_state_timer_expired p)
  probe_timer_step :
      (requires : BufferType → Bool) (p : Protocol) → Step p (alive_probe_timer_expired requires p)

pub data IsReachable : Protocol → Type 0 where
  fresh_object : IsReachable initial
  after : {p q : Protocol} → IsReachable p → Step p q → IsReachable q

pub Step-IsSound : {p q : Protocol} → Step p q → IsSound p → IsSound q
Step-IsSound (start_step requires p port) s = start-IsSound requires p s.ok port
Step-IsSound (stop_step p) s = stop-IsSound p s
Step-IsSound (shutdown_step p) s = shutdown-IsSound p s
Step-IsSound (send_payload_step requires bytes reliable p) s =
    send_payload-IsSound requires bytes reliable p s
Step-IsSound (trigger_step requires p) s = trigger_next_hdlc_frame-IsSound requires p s
Step-IsSound (receive_step requires bytes p) s = add_received_raw_bytes-IsSound requires bytes p s
Step-IsSound (timer_step requires p) s = timer_expired-IsSound requires p s
Step-IsSound (state_timer_step p) s = alive_state_timer_expired-IsSound p s
Step-IsSound (probe_timer_step requires p) s = alive_probe_timer_expired-IsSound requires p s

pub IsReachable-IsSound : (p : Protocol) → IsReachable p → IsSound p
IsReachable-IsSound _ fresh_object = initial-IsSound
IsReachable-IsSound _ (after {p = p} r step) = Step-IsSound step (IsReachable-IsSound p r)

-- Whatever is called, received and expires, in any order, but Start only while there is a port (Shutdown
-- of a started object takes it away, and Start would call through the missing port then): no assertion
-- fails, no queue is popped or read while it is empty, nothing is called through the missing port, every
-- loop ends and every chosen frame can be serialised. While the object is started its sequence numbers are below 8, an
-- I-frame that waits for its ACK is still in the queue, and the port is there.
pub reachable_never_fails :
    (p : Protocol)
    → IsReachable p
    → (p.failed ≡ false)
      × (p.started ≡ true
          → (p.s_seq_outgoing < 8)
            × (p.r_seq_incoming < 8)
            × (p.wait_for_ack ≡ true → empty p.wait_queue_reliable ≡ false)
            × (p.attached ≡ true))
reachable_never_fails p r =
    let s = IsReachable-IsSound p r in
    (s.ok, λ on. let l = s.running on in (l.s_fits, l.r_fits, l.queued, l.port))
