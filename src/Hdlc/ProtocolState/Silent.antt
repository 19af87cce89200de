-- ===== src/Hdlc/ProtocolState/Silent.antt =====
-- ProtocolState.cpp: an object that is not started.
use hdlcd.Base.{
  if_off, if_not_on, ℕ, ◌≡◌, refl, ap, ◌∙◌, Bool, true, false, List, [], ◌∷◌, ◌++◌, if◌then◌else◌,
}
use hdlcd.Hdlc.AliveState
use hdlcd.Hdlc.ProtocolState.{BufferType, Protocol}
use hdlcd.Hdlc.ProtocolState.Operations.{
  stop, shutdown, payload_queued, send_payload, trigger_next_hdlc_frame, add_received_raw_bytes,
  run_handler, timer_expired, on_callbacks, alive_state_timer_expired, alive_probe_timer_expired,
}
use hdlcd.Hdlc.ProtocolState.Kept.{start-started}
use hdlcd.Hdlc.ProtocolState.Timers.{state_timer_expired-Ticks, probe_timer_expired-keeps}
use hdlcd.Hdlc.ProtocolState.Sound.{IsResting, IsSound, opportunity_for_transmission-resting}
use hdlcd.Hdlc.ProtocolState.Transmit.{opportunity_for_transmission}
use hdlcd.Hdlc.ProtocolState.Reachable.{
  Step, start_step, stop_step, shutdown_step, send_payload_step, trigger_step, receive_step,
  timer_step, state_timer_step, probe_timer_step, IsReachable, IsReachable-IsSound,
}

if_same {ℓ} : {A : Type ℓ} (b : Bool) (x y : A) → x ≡ y → (if b then x else y) ≡ y
if_same true x y e = e
if_same false x y e = refl

pub payload_queued-resting :
    (requires : BufferType → Bool) (p : Protocol) → IsResting p → payload_queued requires p ≡ p
unfolding payload_queued
payload_queued-resting requires p r =
    if_same _ (opportunity_for_transmission requires p) p
      (opportunity_for_transmission-resting requires p r)

pub stop_off : (p : Protocol) → p.started ≡ false → stop p ≡ p
unfolding stop
stop_off p off = if_off p.started _ _ off

pub shutdown_off : (p : Protocol) → p.started ≡ false → shutdown p ≡ p
unfolding shutdown
shutdown_off p off = if_off p.started _ _ off

pub trigger_off :
    (requires : BufferType → Bool) (p : Protocol)
    → p.started ≡ false
    → trigger_next_hdlc_frame requires p ≡ p
unfolding trigger_next_hdlc_frame
trigger_off requires p off = if_not_on p.started _ _ off

pub receive_off :
    (requires : BufferType → Bool) (bytes : List ℕ) (p : Protocol)
    → p.started ≡ false
    → add_received_raw_bytes requires bytes p ≡ p
unfolding add_received_raw_bytes
receive_off requires bytes p off = if_not_on p.started _ _ off

queued-silent :
    (requires : BufferType → Bool) (p q : Protocol)
    → IsResting q
    → q.emitted ≡ p.emitted
    → (payload_queued requires q).emitted ≡ p.emitted
queued-silent requires p q r e = ap (λ t. t.emitted) (payload_queued-resting requires q r) ∙ e

send_payload-silent :
    (requires : BufferType → Bool) (bytes : List ℕ) (reliable : Bool) (p : Protocol)
    → IsResting p
    → (send_payload requires bytes reliable p).emitted ≡ p.emitted
unfolding send_payload
send_payload-silent requires bytes true p r =
    queued-silent requires p
      (record p { wait_queue_reliable = p.wait_queue_reliable ++ bytes ∷ [] })
      (record {
        no_probe = r.no_probe;
        searching = r.searching;
        no_probe_timer = r.no_probe_timer;
        no_timer = r.no_timer;
      })
      refl
send_payload-silent requires bytes false p r =
    queued-silent requires p
      (record p { wait_queue_unreliable = p.wait_queue_unreliable ++ bytes ∷ [] })
      (record {
        no_probe = r.no_probe;
        searching = r.searching;
        no_probe_timer = r.no_probe_timer;
        no_timer = r.no_timer;
      })
      refl

pub timer_expired-silent :
    (requires : BufferType → Bool) (p : Protocol) → IsResting p → timer_expired requires p ≡ p
unfolding timer_expired run_handler
timer_expired-silent requires p r = ap (λ o. run_handler requires o p) r.no_timer

state_timer-silent : (p : Protocol) → IsSound p → (alive_state_timer_expired p).emitted ≡ p.emitted
unfolding alive_state_timer_expired
state_timer-silent p s =
    let (b, e, c, stays, same) = state_timer_expired-Ticks p.alive s.consistent in
    rw (alive_state_timer_expired, e) refl

probe_timer-silent :
    (requires : BufferType → Bool) (p : Protocol)
    → IsResting p
    → (alive_probe_timer_expired requires p).emitted ≡ p.emitted
unfolding alive_probe_timer_expired on_callbacks
probe_timer-silent requires p r =
    let (same_state, same_flag, same_timer, quiet_calls) = probe_timer_expired-keeps p.alive in
    ap
      (λ cs.
        (on_callbacks requires cs
          (record p { alive = (AliveState.probe_timer_expired p.alive).0 })).emitted)
      (quiet_calls r.no_probe_timer)

pub Step-silent :
    {p q : Protocol}
    → Step p q
    → IsSound p
    → p.started ≡ false
    → q.started ≡ false
    → q.emitted ≡ p.emitted
Step-silent (start_step requires p port) s off off' = absurd (cc (off', start-started requires p))
Step-silent (stop_step p) s off off' = ap (λ t. t.emitted) (stop_off p off)
Step-silent (shutdown_step p) s off off' = ap (λ t. t.emitted) (shutdown_off p off)
Step-silent (send_payload_step requires bytes reliable p) s off off' =
    send_payload-silent requires bytes reliable p (s.resting off)
Step-silent (trigger_step requires p) s off off' = ap (λ t. t.emitted) (trigger_off requires p off)
Step-silent (receive_step requires bytes p) s off off' =
    ap (λ t. t.emitted) (receive_off requires bytes p off)
Step-silent (timer_step requires p) s off off' =
    ap (λ t. t.emitted) (timer_expired-silent requires p (s.resting off))
Step-silent (state_timer_step p) s off off' = state_timer-silent p s
Step-silent (probe_timer_step requires p) s off off' = probe_timer-silent requires p (s.resting off)

-- In a reachable state that is not started, whatever is called, received or expires without starting
-- the object calls nothing on the port: no frame is sent, and no client gets anything.
pub stopped_is_silent :
    (p q : Protocol)
    → IsReachable p
    → Step p q
    → p.started ≡ false
    → q.started ≡ false
    → q.emitted ≡ p.emitted
stopped_is_silent p q r step off off' = Step-silent step (IsReachable-IsSound p r) off off'
