-- ===== src/Hdlc/ProtocolState/Timers.antt =====
-- ProtocolState.cpp: the handlers of the timers and the invariant.
use hdlcd.Base.{
  ◌≡◌, refl, sym, subst, ◌∙◌, inl, inr, Bool, true, false, [], Option, none, some, arith,
  if◌then◌else◌, Bool-cases,
}
use hdlcd.Hdlc.AliveState
use hdlcd.Hdlc.AliveState.{Callback}
use hdlcd.Hdlc.AliveState.Silence.{IsConsistent}
use hdlcd.Hdlc.ProtocolState.{BufferType, Protocol, TimerHandler, send_again, query_peer}
use hdlcd.Hdlc.ProtocolState.Operations.{
  on_callbacks, run_handler, timer_expired, alive_state_timer_expired, alive_probe_timer_expired,
}
use hdlcd.Hdlc.ProtocolState.Safe.{and_then, same_core, either}
use hdlcd.Hdlc.ProtocolState.Sending.{opportunity_for_transmission-IsSafe}
use hdlcd.Hdlc.ProtocolState.Kept.{on_callbacks-IsSafe}
use hdlcd.Hdlc.ProtocolState.Sound.{IsSound, IsSound-step}

with_alive :
    (p : Protocol) (a : AliveState.Alive)
    → IsSound p
    → IsConsistent a
    → (p.started ≡ false → (a.state ≡ AliveState.probing) × (a.probe_timer ≡ false))
    → IsSound (record p { alive = a })
with_alive p a s c r = record {
  ok = s.ok;
  running = λ on. record {
    ok = s.ok;
    s_fits = (s.running on).s_fits;
    r_fits = (s.running on).r_fits;
    queued = (s.running on).queued;
    port = (s.running on).port;
  };
  resting = λ off. record {
    no_probe = (s.resting off).no_probe;
    searching = (r off).0;
    no_probe_timer = (r off).1;
    no_timer = (s.resting off).no_timer;
  };
  consistent = c;
  parser_open = s.parser_open;
}

-- What an expiry of the state timer does to AliveState: its assertion holds, and PROBING stays.
abbrev pub Ticks : AliveState.Alive → Option AliveState.Alive → Type 0
Ticks a o =
    (b : AliveState.Alive) × (o ≡ some b)
    × IsConsistent b
    × (a.state ≡ AliveState.probing → b.state ≡ AliveState.probing)
    × (b.probe_timer ≡ a.probe_timer)

state_timeout_in-Ticks :
    (t : AliveState.State) (a : AliveState.Alive)
    → a.state ≡ t
    → IsConsistent a
    → Ticks a (AliveState.state_timeout_in t a)
unfolding AliveState.state_timeout_in
state_timeout_in-Ticks AliveState.probing a e c = (a, refl, c, λ h. h, refl)
state_timeout_in-Ticks AliveState.found a e c = elim (Bool-cases a.frame_was_received) [
  | inl f ↦ (record a { frame_was_received = false }, rw f refl, inl refl, λ h. h, refl)
  | inr f ↦
      (record a { state = AliveState.reprobing }, rw f refl, inl f, λ h. absurd (cc (h, e)), refl)
]
state_timeout_in-Ticks AliveState.reprobing a e (inl f) =
    (record a { state = AliveState.probing }, rw f refl, inl f, λ _. refl, refl)
state_timeout_in-Ticks AliveState.reprobing a e (inr f) = absurd (cc (e, f))

pub state_timer_expired-Ticks :
    (a : AliveState.Alive) → IsConsistent a → Ticks a (AliveState.state_timer_expired a)
unfolding AliveState.state_timer_expired AliveState.on_state_timeout
state_timer_expired-Ticks a c =
    Ticks-if a.state_timer (state_timeout_in-Ticks a.state a refl c) (a, refl, c, (λ h. h), refl)
  where
    Ticks-if :
        (t : Bool) {x y : Option AliveState.Alive}
        → Ticks a x
        → Ticks a y
        → Ticks a (if t then x else y)
    Ticks-if true hx hy = hx
    Ticks-if false hx hy = hy

pub alive_state_timer_expired-IsSound :
    (p : Protocol) → IsSound p → IsSound (alive_state_timer_expired p)
unfolding alive_state_timer_expired
alive_state_timer_expired-IsSound p s =
    let (b, e, c, stays, same) = state_timer_expired-Ticks p.alive s.consistent in
    rw (alive_state_timer_expired, e)
      (with_alive p b s c
        (λ off. (stays (s.resting off).searching, same ∙ (s.resting off).no_probe_timer)))

-- The probe timer counts at most.
pub probe_timer_expired-keeps :
    (a : AliveState.Alive)
    → ((AliveState.probe_timer_expired a).0.state ≡ a.state)
      × ((AliveState.probe_timer_expired a).0.frame_was_received ≡ a.frame_was_received)
      × ((AliveState.probe_timer_expired a).0.probe_timer ≡ a.probe_timer)
      × (a.probe_timer ≡ false → (AliveState.probe_timer_expired a).1 ≡ [])
unfolding AliveState.probe_timer_expired AliveState.on_probe_timeout AliveState.probe_timeout_in
probe_timer_expired-keeps a = ground arith

module _ (requires : BufferType → Bool) where
  -- Only a started object has armed its timer.
  armed-started :
      (p : Protocol) {h : TimerHandler} → IsSound p → p.timer ≡ some h → p.started ≡ true
  armed-started p s e = elim (Bool-cases p.started) [
    | inl on ↦ on
    | inr off ↦ absurd (cc (e, (s.resting off).no_timer))
  ]

  run_handler-IsSound :
      (o : Option TimerHandler) (p : Protocol)
      → p.timer ≡ o
      → IsSound p
      → IsSound (run_handler requires o p)
  unfolding run_handler
  run_handler-IsSound none p e s = s
  run_handler-IsSound (some send_again) p e s =
      let q = record p { timer = none; wait_for_ack = false } in
      IsSound-step s (armed-started p s e) (
        and_then (same_core {p = p} {q = q} refl (λ _ w. absurd (cc w)))
          (opportunity_for_transmission-IsSafe requires q))
  run_handler-IsSound (some query_peer) p e s =
      let q = record p {
        timer = none;
        peer_requires_ack = true;
        peer_stopped_flow_queried = false;
      } in
      IsSound-step s (armed-started p s e) (
        either p.peer_stopped_flow
          (λ _.
            and_then (same_core {p = p} {q = q} refl (λ l. l.queued))
              (opportunity_for_transmission-IsSafe requires q))
          (λ _. same_core refl (λ l. l.queued)))

  pub timer_expired-IsSound : (p : Protocol) → IsSound p → IsSound (timer_expired requires p)
  unfolding timer_expired
  timer_expired-IsSound p s = run_handler-IsSound p.timer p refl s

  pub alive_probe_timer_expired-IsSound :
      (p : Protocol) → IsSound p → IsSound (alive_probe_timer_expired requires p)
  unfolding alive_probe_timer_expired on_callbacks
  alive_probe_timer_expired-IsSound p s =
      let (same_state, same_flag, same_timer, quiet_calls) = probe_timer_expired-keeps p.alive in
      let q = record p { alive = (AliveState.probe_timer_expired p.alive).0 } in
      let t =
        with_alive p (AliveState.probe_timer_expired p.alive).0 s
          (elim s.consistent [ inl f ↦ inl (same_flag ∙ f) | inr f ↦ inr (same_state ∙ f) ])
          (λ off. (
            same_state ∙ (s.resting off).searching,
            same_timer ∙ (s.resting off).no_probe_timer,
          )) in
      elim (Bool-cases p.started) [
        | inl on ↦
            IsSound-step t on
              (on_callbacks-IsSafe requires (AliveState.probe_timer_expired p.alive).1 q)
        | inr off ↦
            subst (λ cs. IsSound (on_callbacks requires cs q))
              (sym (quiet_calls (s.resting off).no_probe_timer)) t
      ]
