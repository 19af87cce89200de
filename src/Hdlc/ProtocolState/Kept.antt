-- ===== src/Hdlc/ProtocolState/Kept.antt =====
-- ProtocolState.cpp: the operations and the invariant.
use hdlcd.Base.{
  ℕ, ◌≡◌, refl, sym, ap, subst, ◌∙◌, inl, inr, Bool, true, false, not, List, [], ◌∷◌, ◌++◌, none,
  arith, if◌then◌else◌, Bool-cases,
}
use hdlcd.Hdlc.AliveState
use hdlcd.Hdlc.AliveState.{Callback}
use hdlcd.Hdlc.AliveState.Silence.{IsConsistent}
use hdlcd.Hdlc.FrameParser
use hdlcd.Hdlc.FrameParser.Close.{IsOpen, reset-IsOpen}
use hdlcd.Hdlc.FrameParser.Owner.{add_received_raw_bytes-keeps}
use hdlcd.Hdlc.FrameParser.Total.{add_received_raw_bytes_total}
use hdlcd.Hdlc.ProtocolState.{
  BufferType, propagate_serial_port_state, change_baud_rate, Protocol, empty, emit,
}
use hdlcd.Hdlc.ProtocolState.Transmit.{opportunity_for_transmission}
use hdlcd.Hdlc.ProtocolState.Receive.{interpret_deserialized_frame}
use hdlcd.Hdlc.ProtocolState.Operations.{
  reset, initial, stop, shutdown, on_callback, on_callbacks, start, payload_queued, send_payload,
  trigger_next_hdlc_frame, add_received_raw_bytes,
}
use hdlcd.Hdlc.ProtocolState.Safe.{IsSafe, stay, and_then, same_core, either, emit-IsSafe}
use hdlcd.Hdlc.ProtocolState.Sending.{opportunity_for_transmission-IsSafe}
use hdlcd.Hdlc.ProtocolState.Sound.{
  IsSound, IsUp, IsUp-IsSound, IsSound-IsUp, IsSound-step, interpret_deserialized_frame-IsUp,
  opportunity_for_transmission-resting,
}

pub initial-IsSound : IsSound initial
unfolding initial AliveState.stop AliveState.initial AliveState.reset
initial-IsSound = record {
  ok = refl;
  running = λ on. absurd (cc on);
  resting =
      λ _. record { no_probe = refl; searching = refl; no_probe_timer = refl; no_timer = refl };
  consistent = inl refl;
  parser_open = reset-IsOpen;
}

-- After Reset, whatever happened to the members that Reset leaves alone.
cleared-IsSound :
    (p q : Protocol)
    → q.failed ≡ false
    → q.started ≡ false
    → q.send_probe ≡ false
    → q.alive ≡ AliveState.stop p.alive
    → q.timer ≡ none
    → q.parser ≡ FrameParser.reset
    → IsSound q
unfolding AliveState.stop AliveState.reset
cleared-IsSound p q ok off no_probe alive no_timer parser = record {
  ok = ok;
  running = λ on. absurd (cc (on, off));
  resting = λ _. record {
    no_probe = no_probe;
    searching = ap (λ a. a.state) alive;
    no_probe_timer = ap (λ a. a.probe_timer) alive;
    no_timer = no_timer;
  };
  consistent = inl (ap (λ a. a.frame_was_received) alive);
  parser_open = subst IsOpen (sym parser) reset-IsOpen;
}

IsSound-if :
    (b : Bool) {p q : Protocol}
    → (b ≡ true → IsSound p)
    → (b ≡ false → IsSound q)
    → IsSound (if b then p else q)
IsSound-if true x y = x refl
IsSound-if false x y = y refl

pub stop-IsSound : (p : Protocol) → IsSound p → IsSound (stop p)
unfolding stop reset
stop-IsSound p s =
    IsSound-if p.started
      (λ on.
        cleared-IsSound p (emit propagate_serial_port_state (reset p))
          (ground (arith, s.ok, (s.running on).port)) refl refl refl refl refl)
      (λ _. s)

pub shutdown-IsSound : (p : Protocol) → IsSound p → IsSound (shutdown p)
unfolding shutdown reset
shutdown-IsSound p s =
    IsSound-if p.started
      (λ on.
        cleared-IsSound p (record (reset p) { attached = false }) s.ok refl refl refl refl refl)
      (λ _. s)

-- The object that Start has reset, with the timers of AliveState armed.
abbrev fresh : Protocol → Protocol
fresh p = record (reset p) { started = true; alive = (AliveState.start (reset p).alive).0 }

fresh-IsSound : (p : Protocol) → p.failed ≡ false → p.attached ≡ true → IsSound (fresh p)
unfolding reset AliveState.start
fresh-IsSound p ok port = record {
  ok = ok;
  running = λ _. record {
    ok = ok;
    s_fits = omega arith;
    r_fits = omega arith;
    queued = λ w. absurd (cc w);
    port = port;
  };
  resting = λ off. absurd (cc off);
  consistent = inl refl;
  parser_open = reset-IsOpen;
}

-- A change of members that the invariant of an object at rest does not read.
quiet :
    (p q : Protocol)
    → IsSound p
    → IsSafe p q
    → q.failed ≡ p.failed
    → q.send_probe ≡ p.send_probe
    → (p.started ≡ false → q.timer ≡ none)
    → IsSound q
quiet p q s t same_failed same_probe n = elim (Bool-cases p.started) [
  | inl on ↦ IsSound-step s on t
  | inr off ↦ record {
    ok = same_failed ∙ s.ok;
    running = λ on. absurd (cc (on, off, t.keeps_started));
    resting = λ _. record {
      no_probe = same_probe ∙ (s.resting off).no_probe;
      searching = ap (λ a. a.state) t.keeps_alive ∙ (s.resting off).searching;
      no_probe_timer = ap (λ a. a.probe_timer) t.keeps_alive ∙ (s.resting off).no_probe_timer;
      no_timer = n off;
    };
    consistent = subst IsConsistent (sym t.keeps_alive) s.consistent;
    parser_open = subst IsOpen (sym t.keeps_parser) s.parser_open;
  }
]

with_parser :
    (q : Protocol) (parser' : FrameParser.Parser)
    → IsUp q
    → IsOpen parser'
    → IsSound (record q { parser = parser' })
with_parser q parser' u o =
    IsUp-IsSound (record q { parser = parser' })
      (record {
        on = u.on;
        live = record {
          ok = u.live.ok;
          s_fits = u.live.s_fits;
          r_fits = u.live.r_fits;
          queued = u.live.queued;
          port = u.live.port;
        };
        consistent = u.consistent;
      })
      o

module _ (requires : BufferType → Bool) where
  on_callback-IsSafe : (c : Callback) (p : Protocol) → IsSafe p (on_callback requires c p)
  unfolding on_callback
  on_callback-IsSafe Callback.send_probe p =
      let q = record p { send_probe = true } in
      and_then (same_core {p = p} {q = q} refl (λ l. l.queued))
        (either q.attached (λ _. opportunity_for_transmission-IsSafe requires q) (λ _. stay q))
  on_callback-IsSafe Callback.change_baud_rate p =
      either p.attached
        (λ _.
          and_then (emit-IsSafe change_baud_rate p)
            (emit-IsSafe propagate_serial_port_state (emit change_baud_rate p)))
        (λ _. stay p)

  pub on_callbacks-IsSafe :
      (cs : List Callback) (p : Protocol) → IsSafe p (on_callbacks requires cs p)
  unfolding on_callbacks
  on_callbacks-IsSafe [] p = stay p
  on_callbacks-IsSafe (c ∷ cs) p =
      and_then (on_callback-IsSafe c p) (on_callbacks-IsSafe cs (on_callback requires c p))

  start-IsSafe : (p : Protocol) → IsSafe (fresh p) (start requires p)
  unfolding start
  start-IsSafe p =
      and_then (on_callbacks-IsSafe (AliveState.start (reset p).alive).1 (fresh p))
        (opportunity_for_transmission-IsSafe requires _)

  pub start-started : (p : Protocol) → (start requires p).started ≡ true
  start-started p = (start-IsSafe p).keeps_started

  pub start-IsSound :
      (p : Protocol) → p.failed ≡ false → p.attached ≡ true → IsSound (start requires p)
  start-IsSound p ok port = IsSound-step (fresh-IsSound p ok port) refl (start-IsSafe p)

  -- An opportunity for transmission comes at any time.
  opportunity_for_transmission-IsSound :
      (p : Protocol) → IsSound p → IsSound (opportunity_for_transmission requires p)
  opportunity_for_transmission-IsSound p s = elim (Bool-cases p.started) [
    | inl on ↦ IsSound-step s on (opportunity_for_transmission-IsSafe requires p)
    | inr off ↦ rw (opportunity_for_transmission-resting requires p (s.resting off)) s
  ]

  payload_queued-IsSound : (p : Protocol) → IsSound p → IsSound (payload_queued requires p)
  unfolding payload_queued
  payload_queued-IsSound p s = IsSound-if _ (λ _. opportunity_for_transmission-IsSound p s) (λ _. s)

  append-nonempty : (xs : List (List ℕ)) (x : List ℕ) → empty (xs ++ x ∷ []) ≡ false
  append-nonempty [] x = refl
  append-nonempty (y ∷ ys) x = refl

  pub send_payload-IsSound :
      (bytes : List ℕ) (reliable : Bool) (p : Protocol)
      → IsSound p
      → IsSound (send_payload requires bytes reliable p)
  unfolding send_payload
  send_payload-IsSound bytes true p s = payload_queued-IsSound _ (
      quiet p (record p { wait_queue_reliable = p.wait_queue_reliable ++ bytes ∷ [] }) s
        (same_core refl (λ _ _. append-nonempty p.wait_queue_reliable bytes)) refl refl
        (λ off. (s.resting off).no_timer))
  send_payload-IsSound bytes false p s = payload_queued-IsSound _ (
      quiet p (record p { wait_queue_unreliable = p.wait_queue_unreliable ++ bytes ∷ [] }) s
        (same_core refl (λ l. l.queued)) refl refl (λ off. (s.resting off).no_timer))

  pub trigger_next_hdlc_frame-IsSound :
      (p : Protocol) → IsSound p → IsSound (trigger_next_hdlc_frame requires p)
  unfolding trigger_next_hdlc_frame
  trigger_next_hdlc_frame-IsSound p s =
      IsSound-if (not p.started) (λ _. s)
        (λ _.
          opportunity_for_transmission-IsSound (record p { awaits_next_hdlc_frame = true })
            (quiet p (record p { awaits_next_hdlc_frame = true }) s (same_core refl (λ l. l.queued))
              refl refl (λ off. (s.resting off).no_timer)))

  pub add_received_raw_bytes-IsSound :
      (bytes : List ℕ) (p : Protocol)
      → IsSound p
      → IsSound (add_received_raw_bytes requires bytes p)
  unfolding add_received_raw_bytes
  add_received_raw_bytes-IsSound bytes p s =
      IsSound-if (not p.started) (λ _. s)
        (λ on.
          let (parser', q, e, o) =
            add_received_raw_bytes_total (interpret_deserialized_frame requires) p.parser p bytes
              s.parser_open in
          let up =
            add_received_raw_bytes-keeps (interpret_deserialized_frame requires) IsUp
              (λ raw f bad r n u. interpret_deserialized_frame-IsUp requires raw f bad r n u)
              p.parser p bytes e (IsSound-IsUp p s (ground (arith, on))) in
          rw e (with_parser q parser' up o))
