-- ===== src/Hdlc/ProtocolState/Sound.antt =====
-- ProtocolState.cpp: the invariant of the object, started or not, and the operations.
use hdlcd.Base.{
  ℕ, ◌≡◌, refl, sym, subst, ◌∙◌, inr, Bool, true, false, not, List, none, arith, if◌then◌else◌,
}
use hdlcd.Hdlc.AliveState.{probing, on_frame_received}
use hdlcd.Hdlc.AliveState.Silence.{IsConsistent}
use hdlcd.Hdlc.Frame.{HdlcFrame}
use hdlcd.Hdlc.Frame.Dissect.{dissect}
use hdlcd.Hdlc.FrameParser.Close.{IsOpen}
use hdlcd.Hdlc.FrameParser.Owner.{IsNumbered}
use hdlcd.Hdlc.ProtocolState.{
  BufferType, buffer_type_raw, buffer_type_dissected, propagate_serial_port_state, Protocol,
  deliver_required,
}
use hdlcd.Hdlc.ProtocolState.Transmit.{
  opportunity_for_transmission, choose_probe, choose_alive, send_chosen,
}
use hdlcd.Hdlc.ProtocolState.Receive.{
  check_ack, accept_payload, note_alive, interpret_valid, interpret_deserialized_frame,
}
use hdlcd.Hdlc.ProtocolState.Safe.{
  IsLive, IsSafe, stay, and_then, either, emit-IsSafe, deliver_required-IsSafe,
}
use hdlcd.Hdlc.ProtocolState.Sending.{opportunity_for_transmission-IsSafe}
use hdlcd.Hdlc.ProtocolState.Receiving.{check_ack-IsSafe, accept_payload-IsSafe}

-- Nothing is due, so nothing calls the port.
pub record IsResting (p : Protocol) : Type 0 where
  pub no_probe : p.send_probe ≡ false
  pub searching : p.alive.state ≡ probing
  pub no_probe_timer : p.alive.probe_timer ≡ false
  pub no_timer : p.timer ≡ none

pub record IsSound (p : Protocol) : Type 0 where
  pub ok : p.failed ≡ false
  pub running : p.started ≡ true → IsLive p
  pub resting : p.started ≡ false → IsResting p
  pub consistent : IsConsistent p.alive
  pub parser_open : IsOpen p.parser

-- A started object, apart from its parser.
pub record IsUp (p : Protocol) : Type 0 where
  pub on : p.started ≡ true
  pub live : IsLive p
  pub consistent : IsConsistent p.alive

pub IsUp-step : {p q : Protocol} → IsSafe p q → IsUp p → IsUp q
IsUp-step s u = record {
  on = s.keeps_started ∙ u.on;
  live = s.keeps_live u.live;
  consistent = subst IsConsistent (sym s.keeps_alive) u.consistent;
}

pub IsUp-IsSound : (p : Protocol) → IsUp p → IsOpen p.parser → IsSound p
IsUp-IsSound p u o = record {
  ok = u.live.ok;
  running = λ _. u.live;
  resting = λ off. absurd (cc (off, u.on));
  consistent = u.consistent;
  parser_open = o;
}

pub IsSound-IsUp : (p : Protocol) → IsSound p → p.started ≡ true → IsUp p
IsSound-IsUp p s on = record { on = on; live = s.running on; consistent = s.consistent }

-- A safe step of a started object.
pub IsSound-step : {p q : Protocol} → IsSound p → p.started ≡ true → IsSafe p q → IsSound q
IsSound-step s on t =
    IsUp-IsSound _ (IsUp-step t (IsSound-IsUp _ s on))
      (subst IsOpen (sym t.keeps_parser) s.parser_open)

IsUp-if : (b : Bool) {p q : Protocol} → IsUp p → IsUp q → IsUp (if b then p else q)
IsUp-if true x y = x
IsUp-if false x y = y

note_alive-IsUp : (p : Protocol) → IsUp p → IsUp (note_alive p)
unfolding note_alive on_frame_received
note_alive-IsUp p u =
    IsUp-if _ (IsUp-step (emit-IsSafe propagate_serial_port_state heard) heard_up) heard_up
  where
    heard : Protocol
    heard = record p { alive = (on_frame_received p.alive).0 }

    heard_up : IsUp heard
    heard_up = record {
      on = u.on;
      live = record {
        ok = u.live.ok;
        s_fits = u.live.s_fits;
        r_fits = u.live.r_fits;
        queued = u.live.queued;
        port = u.live.port;
      };
      consistent = inr refl;
    }

module _ (requires : BufferType → Bool) where
  interpret_valid-IsUp :
      (f : HdlcFrame) (p : Protocol) → IsNumbered f → IsUp p → IsUp (interpret_valid requires f p)
  unfolding interpret_valid
  interpret_valid-IsUp f p n u =
      let q = note_alive p in
      let r = accept_payload requires f q in
      let s = check_ack f r in
      IsUp-step
        (and_then (accept_payload-IsSafe requires f q n) (
          and_then (check_ack-IsSafe f r n) (
            either s.awaits_next_hdlc_frame (λ _. opportunity_for_transmission-IsSafe requires s)
              (λ _. stay s))))
        (note_alive-IsUp p u)

  -- A frame with numbers below 8 leaves a started object in order.
  pub interpret_deserialized_frame-IsUp :
      (bytes : List ℕ) (f : HdlcFrame) (invalid : Bool) (p : Protocol)
      → IsNumbered f
      → IsUp p
      → IsUp (interpret_deserialized_frame requires bytes f invalid p)
  unfolding interpret_deserialized_frame
  interpret_deserialized_frame-IsUp bytes f invalid p n u =
      let q = deliver_required requires buffer_type_raw bytes false invalid false p in
      let r = deliver_required requires buffer_type_dissected (dissect f) false invalid false q in
      let up =
        IsUp-step
          (and_then (deliver_required-IsSafe requires buffer_type_raw bytes false invalid false p) (
            deliver_required-IsSafe requires buffer_type_dissected (dissect f) false invalid false
              q))
          u in
      IsUp-if (not p.started) u (IsUp-if invalid up (interpret_valid-IsUp f r n up))

  -- An object at rest has nothing to send.
  pub opportunity_for_transmission-resting :
      (p : Protocol) → IsResting p → opportunity_for_transmission requires p ≡ p
  unfolding opportunity_for_transmission choose_probe choose_alive send_chosen
  opportunity_for_transmission-resting p r = ground (arith, r.no_probe, r.searching)
