-- ===== src/Hdlc/ProtocolState/Working.antt =====
-- ProtocolState.cpp: the calls that neither start nor stop the object.
use hdlcd.Base.{
  if_off, ℕ, ◌≡◌, refl, sym, ap, ◌∙◌, inl, inr, Bool, true, false, not, List, [], ◌∷◌, ◌++◌, Option,
  none, some, Bool-cases,
}
use hdlcd.Hdlc.AliveState
use hdlcd.Hdlc.FrameParser.Owner.{add_received_raw_bytes-keeps}
use hdlcd.Hdlc.FrameParser.Total.{add_received_raw_bytes_total}
use hdlcd.Hdlc.ProtocolState.{BufferType, Protocol, TimerHandler, send_again, query_peer}
use hdlcd.Hdlc.ProtocolState.Receive.{interpret_deserialized_frame}
use hdlcd.Hdlc.ProtocolState.Operations.{
  payload_queued, send_payload, trigger_next_hdlc_frame, add_received_raw_bytes, run_handler,
  timer_expired, alive_state_timer_expired, alive_probe_timer_expired, on_callbacks,
}
use hdlcd.Hdlc.ProtocolState.Safe.{IsSafe, stay, and_then, same_core, either}
use hdlcd.Hdlc.ProtocolState.Sending.{opportunity_for_transmission-IsSafe}
use hdlcd.Hdlc.ProtocolState.Sound.{IsSound, IsUp, IsSound-IsUp, interpret_deserialized_frame-IsUp}
use hdlcd.Hdlc.ProtocolState.Kept.{on_callbacks-IsSafe}
use hdlcd.Hdlc.ProtocolState.Timers.{state_timer_expired-Ticks, probe_timer_expired-keeps}
use hdlcd.Hdlc.ProtocolState.Silent.{
  payload_queued-resting, trigger_off, receive_off, timer_expired-silent, Step-silent,
}
use hdlcd.Hdlc.ProtocolState.Reachable.{
  Step, Step-IsSound, send_payload_step, trigger_step, receive_step, timer_step, state_timer_step,
  probe_timer_step,
}

-- What such a call leaves alone.
pub record IsWork (p q : Protocol) : Type 0 where
  pub sound : IsSound q
  pub same_started : q.started ≡ p.started
  pub same_attached : q.attached ≡ p.attached
  pub silent : p.started ≡ false → q.emitted ≡ p.emitted

-- A started object has its port before and after.
working :
    {p q : Protocol}
    → Step p q
    → IsSound p
    → (p.started ≡ true → q.started ≡ true)
    → (p.started ≡ false → (q.started ≡ p.started) × (q.attached ≡ p.attached))
    → IsWork p q
working {p} {q} step s on_stays off_stays =
    let t = Step-IsSound step s in
    elim (Bool-cases p.started) [
      | inl on ↦ record {
        sound = t;
        same_started = on_stays on ∙ sym on;
        same_attached = (t.running (on_stays on)).port ∙ sym (s.running on).port;
        silent = λ off. absurd (cc (on, off));
      }
      | inr off ↦ record {
        sound = t;
        same_started = (off_stays off).0;
        same_attached = (off_stays off).1;
        silent = λ _. Step-silent step s off ((off_stays off).0 ∙ off);
      }
    ]

-- An object that a call leaves as it is.
unchanged : {p q : Protocol} → q ≡ p → (q.started ≡ p.started) × (q.attached ≡ p.attached)
unchanged e = (ap (λ t. t.started) e, ap (λ t. t.attached) e)

module _ (requires : BufferType → Bool) where
  payload_queued-IsSafe : (p : Protocol) → IsSafe p (payload_queued requires p)
  unfolding payload_queued
  payload_queued-IsSafe p =
      either _ (λ _. opportunity_for_transmission-IsSafe requires p) (λ _. stay p)

  send_payload-started :
      (bytes : List ℕ) (reliable : Bool) (p : Protocol)
      → (send_payload requires bytes reliable p).started ≡ p.started
  unfolding send_payload
  send_payload-started bytes true p =
      (payload_queued-IsSafe
        (record p { wait_queue_reliable = p.wait_queue_reliable ++ bytes ∷ [] })).keeps_started
  send_payload-started bytes false p =
      (payload_queued-IsSafe
        (record p { wait_queue_unreliable = p.wait_queue_unreliable ++ bytes ∷ [] })).keeps_started

  send_payload-off :
      (bytes : List ℕ) (reliable : Bool) (p : Protocol)
      → IsSound p
      → p.started ≡ false
      → (send_payload requires bytes reliable p).attached ≡ p.attached
  unfolding send_payload
  send_payload-off bytes true p s off =
      let r = s.resting off in
      ap (λ t. t.attached)
        (payload_queued-resting requires
          (record p { wait_queue_reliable = p.wait_queue_reliable ++ bytes ∷ [] })
          (record {
            no_probe = r.no_probe;
            searching = r.searching;
            no_probe_timer = r.no_probe_timer;
            no_timer = r.no_timer;
          }))
  send_payload-off bytes false p s off =
      let r = s.resting off in
      ap (λ t. t.attached)
        (payload_queued-resting requires
          (record p { wait_queue_unreliable = p.wait_queue_unreliable ++ bytes ∷ [] })
          (record {
            no_probe = r.no_probe;
            searching = r.searching;
            no_probe_timer = r.no_probe_timer;
            no_timer = r.no_timer;
          }))

  pub send_payload-IsWork :
      (bytes : List ℕ) (reliable : Bool) (p : Protocol)
      → IsSound p
      → IsWork p (send_payload requires bytes reliable p)
  send_payload-IsWork bytes reliable p s =
      working (send_payload_step requires bytes reliable p) s
        (λ on. send_payload-started bytes reliable p ∙ on)
        (λ off. (send_payload-started bytes reliable p, send_payload-off bytes reliable p s off))

  trigger-on :
      (p : Protocol) → p.started ≡ true → (trigger_next_hdlc_frame requires p).started ≡ true
  unfolding trigger_next_hdlc_frame
  trigger-on p on =
      let q = record p { awaits_next_hdlc_frame = true } in
      ap (λ t. t.started) (if_off (not p.started) p _ (ap not on))
      ∙ (opportunity_for_transmission-IsSafe requires q).keeps_started
      ∙ on

  pub trigger-IsWork : (p : Protocol) → IsSound p → IsWork p (trigger_next_hdlc_frame requires p)
  trigger-IsWork p s =
      working (trigger_step requires p) s (trigger-on p)
        (λ off. unchanged (trigger_off requires p off))

  receive-on :
      (bytes : List ℕ) (p : Protocol)
      → IsSound p
      → p.started ≡ true
      → (add_received_raw_bytes requires bytes p).started ≡ true
  unfolding add_received_raw_bytes
  receive-on bytes p s on =
      let (parser', q, e, o) =
        add_received_raw_bytes_total (interpret_deserialized_frame requires) p.parser p bytes
          s.parser_open in
      let up =
        add_received_raw_bytes-keeps (interpret_deserialized_frame requires) IsUp
          (λ raw f bad r n u. interpret_deserialized_frame-IsUp requires raw f bad r n u) p.parser p
          bytes e (IsSound-IsUp p s on) in
      ap (λ t. t.started) (if_off (not p.started) p _ (ap not on)) ∙ (rw e up.on)

  pub receive-IsWork :
      (bytes : List ℕ) (p : Protocol)
      → IsSound p
      → IsWork p (add_received_raw_bytes requires bytes p)
  receive-IsWork bytes p s =
      working (receive_step requires bytes p) s (receive-on bytes p s)
        (λ off. unchanged (receive_off requires bytes p off))

  run_handler-started :
      (o : Option TimerHandler) (p : Protocol) → (run_handler requires o p).started ≡ p.started
  unfolding run_handler
  run_handler-started none p = refl
  run_handler-started (some send_again) p =
      (opportunity_for_transmission-IsSafe requires
        (record p { timer = none; wait_for_ack = false })).keeps_started
  run_handler-started (some query_peer) p =
      let q = record p {
        timer = none;
        peer_requires_ack = true;
        peer_stopped_flow_queried = false;
      } in
      (either {p = p} p.peer_stopped_flow
        (λ _.
          and_then (same_core {p = p} {q = q} refl (λ l. l.queued))
            (opportunity_for_transmission-IsSafe requires q))
        (λ _. same_core {p = p} {q = record p { timer = none }} refl (λ l. l.queued))).keeps_started

  pub timer-IsWork : (p : Protocol) → IsSound p → IsWork p (timer_expired requires p)
  unfolding timer_expired
  timer-IsWork p s =
      working (timer_step requires p) s (λ on. run_handler-started p.timer p ∙ on)
        (λ off. unchanged (timer_expired-silent requires p (s.resting off)))

  probe-started : (p : Protocol) → (alive_probe_timer_expired requires p).started ≡ p.started
  unfolding alive_probe_timer_expired
  probe-started p =
      (on_callbacks-IsSafe requires (AliveState.probe_timer_expired p.alive).1
        (record p { alive = (AliveState.probe_timer_expired p.alive).0 })).keeps_started

  probe-off :
      (p : Protocol)
      → IsSound p
      → p.started ≡ false
      → (alive_probe_timer_expired requires p).attached ≡ p.attached
  unfolding alive_probe_timer_expired on_callbacks
  probe-off p s off =
      let (same_state, same_flag, same_timer, quiet_calls) = probe_timer_expired-keeps p.alive in
      ap
        (λ cs.
          (on_callbacks requires cs
            (record p { alive = (AliveState.probe_timer_expired p.alive).0 })).attached)
        (quiet_calls (s.resting off).no_probe_timer)

  pub probe_timer-IsWork :
      (p : Protocol) → IsSound p → IsWork p (alive_probe_timer_expired requires p)
  probe_timer-IsWork p s =
      working (probe_timer_step requires p) s (λ on. probe-started p ∙ on)
        (λ off. (probe-started p, probe-off p s off))

state_timer-kept :
    (p : Protocol)
    → IsSound p
    → ((alive_state_timer_expired p).started ≡ p.started)
      × ((alive_state_timer_expired p).attached ≡ p.attached)
unfolding alive_state_timer_expired
state_timer-kept p s =
    let (b, e, c, stays, same) = state_timer_expired-Ticks p.alive s.consistent in
    rw (alive_state_timer_expired, e) (refl, refl)

pub state_timer-IsWork : (p : Protocol) → IsSound p → IsWork p (alive_state_timer_expired p)
state_timer-IsWork p s =
    working (state_timer_step p) s (λ on. (state_timer-kept p s).0 ∙ on) (λ _. state_timer-kept p s)
