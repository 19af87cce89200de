-- ===== src/Hdlc/ProtocolState/Untouched.antt =====
-- ProtocolState.cpp: an opportunity for transmission asks for no other baud rate, neither advances the
-- number of the next I-frame nor takes a payload off its queue, and keeps the port.
use hdlcd.Base.{
  ℕ, suc, ◌+◌, ◌≡◌, refl, ap, ◌∙◌, Bool, true, false, not, ◌&&◌, ◌||◌, List, [], ◌∷◌, ◌++◌, Option,
  none, some, arith, if◌then◌else◌,
}
use hdlcd.Hdlc.AliveState.{is_alive}
use hdlcd.Hdlc.Frame.{HdlcFrame, is_empty, is_i_frame}
use hdlcd.Hdlc.Frame.Dissect.{dissect}
use hdlcd.Hdlc.FrameGenerator.{serialize_frame, escape_frame}
use hdlcd.Hdlc.ProtocolState.{
  BufferType, buffer_type_raw, buffer_type_dissected, buffer_type_payload, Action,
  deliver_buffer_to_clients, change_baud_rate, propagate_serial_port_state, transmit_hdlc_frame,
  query_for_payload, Protocol, empty, front, demand, emit, deliver_required, prepare_i_frame,
  prepare_s_frame_srej, prepare_u_frame_ui,
}
use hdlcd.Hdlc.ProtocolState.Transmit.{
  Choice, choose_probe, choose_srej, choose_rr, choose_ui, query_reliable, query_unreliable,
  query_payload, choose_i, choose_alive, transmit, send_chosen, opportunity_for_transmission,
}

-- How often the port was told to change its baud rate.
abbrev pub changes : List Action → ℕ
changes [] = 0
changes (deliver_buffer_to_clients type bytes reliable invalid was_sent ∷ calls) = changes calls
changes (change_baud_rate ∷ calls) = suc (changes calls)
changes (propagate_serial_port_state ∷ calls) = changes calls
changes (transmit_hdlc_frame bytes ∷ calls) = changes calls
changes (query_for_payload reliable unreliable ∷ calls) = changes calls

-- The members that it leaves alone.
abbrev pub Untouched : Type 0
Untouched = Bool × ℕ × ℕ × List (List ℕ)

abbrev pub untouched : Protocol → Untouched
untouched p = (p.attached, changes p.emitted, p.s_seq_outgoing, p.wait_queue_reliable)

pub changes-append :
    (calls : List Action) (a : Action)
    → changes (calls ++ a ∷ []) ≡ changes calls + changes (a ∷ [])
changes-append [] a = omega arith
changes-append (deliver_buffer_to_clients type bytes reliable invalid was_sent ∷ calls) a =
    changes-append calls a
changes-append (change_baud_rate ∷ calls) a = omega (arith, changes-append calls a)
changes-append (propagate_serial_port_state ∷ calls) a = changes-append calls a
changes-append (transmit_hdlc_frame bytes ∷ calls) a = changes-append calls a
changes-append (query_for_payload reliable unreliable ∷ calls) a = changes-append calls a

pub emit-untouched :
    (a : Action) (p : Protocol) → changes (a ∷ []) ≡ 0 → untouched (emit a p) ≡ untouched p
emit-untouched a p h =
    ap (λ n. (p.attached, n, p.s_seq_outgoing, p.wait_queue_reliable))
      (omega (arith, changes-append p.emitted a, h))

pub untouched-if :
    (b : Bool) (w : Untouched) (x y : Protocol)
    → untouched x ≡ w
    → untouched y ≡ w
    → untouched (if b then x else y) ≡ w
untouched-if true w x y hx hy = hx
untouched-if false w x y hx hy = hy

choice-if :
    (b : Bool) (w : Untouched) (x y : Choice)
    → untouched x.0 ≡ w
    → untouched y.0 ≡ w
    → untouched (if b then x else y).0 ≡ w
choice-if true w x y hx hy = hx
choice-if false w x y hx hy = hy

choose_probe-untouched : (p : Protocol) → untouched (choose_probe p).0 ≡ untouched p
unfolding choose_probe
choose_probe-untouched p = choice-if p.send_probe _ _ _ refl refl

choose_srej-untouched : (c : Choice) → untouched (choose_srej c).0 ≡ untouched c.0
unfolding choose_srej prepare_s_frame_srej
choose_srej-untouched (p, f) = choice-if (not (empty p.srejs)) _ _ _ refl refl

choose_rr-untouched : (c : Choice) → untouched (choose_rr c).0 ≡ untouched c.0
unfolding choose_rr
choose_rr-untouched (p, f) =
    choice-if (is_empty f && (p.peer_requires_ack || p.peer_stopped_flow_new)) _ _ _
      (choice-if p.peer_stopped_flow_new _ _ _ refl
        (choice-if (p.peer_stopped_flow && not p.peer_stopped_flow_queried) _ _ _ refl refl))
      refl

choose_ui-untouched : (c : Choice) → untouched (choose_ui c).0 ≡ untouched c.0
unfolding choose_ui prepare_u_frame_ui
choose_ui-untouched (p, f) =
    choice-if (is_empty f && not (empty p.wait_queue_unreliable)) _ _ _
      (emit-untouched
        (deliver_buffer_to_clients buffer_type_payload (front [] p.wait_queue_unreliable) false
          false true)
        (demand (not (empty p.wait_queue_unreliable)) p) refl)
      refl

query_payload-untouched : (c : Choice) → untouched (query_payload c).0 ≡ untouched c.0
unfolding query_payload
query_payload-untouched (p, f) =
    choice-if (is_empty f) _ _ _
      (choice-if (query_reliable p || query_unreliable p) _ _ _
        (emit-untouched (query_for_payload (query_reliable p) (query_unreliable p)) p refl) refl)
      refl

module _ (requires : BufferType → Bool) where
  pub deliver_required-untouched :
      (type : BufferType) (bytes : List ℕ) (reliable invalid was_sent : Bool) (p : Protocol)
      → untouched (deliver_required requires type bytes reliable invalid was_sent p) ≡ untouched p
  unfolding deliver_required
  deliver_required-untouched type bytes reliable invalid was_sent p =
      untouched-if (requires type) _ _ _
        (emit-untouched (deliver_buffer_to_clients type bytes reliable invalid was_sent) p refl)
        refl

  choose_i-untouched : (c : Choice) → untouched (choose_i requires c).0 ≡ untouched c.0
  unfolding choose_i prepare_i_frame
  choose_i-untouched (p, f) =
      choice-if _ _ _ _
        (deliver_required-untouched buffer_type_payload (front [] p.wait_queue_reliable) true false
          true (demand (not (empty p.wait_queue_reliable)) p))
        refl

  choose_alive-untouched : (c : Choice) → untouched (choose_alive requires c).0 ≡ untouched c.0
  unfolding choose_alive
  choose_alive-untouched (p, f) =
      let a = choose_srej (p, f) in
      let b = choose_i requires a in
      let c = choose_rr b in
      let d = choose_ui c in
      choice-if (is_empty f && is_alive p.alive) (untouched p) (query_payload d) (p, f)
        (query_payload-untouched d
          ∙ choose_ui-untouched c
          ∙ choose_rr-untouched b
          ∙ choose_i-untouched a
          ∙ choose_srej-untouched (p, f))
        refl

  transmit-untouched :
      (f : HdlcFrame) (bytes : List ℕ) (p : Protocol)
      → untouched (transmit requires f bytes p) ≡ untouched p
  unfolding transmit
  transmit-untouched f bytes p =
      let q = record p { awaits_next_hdlc_frame = false } in
      let raw = deliver_required requires buffer_type_raw bytes (is_i_frame f) false true q in
      let text =
        deliver_required requires buffer_type_dissected (dissect f) (is_i_frame f) false true raw in
      emit-untouched (transmit_hdlc_frame (escape_frame bytes)) text refl
      ∙ deliver_required-untouched buffer_type_dissected (dissect f) (is_i_frame f) false true raw
      ∙ deliver_required-untouched buffer_type_raw bytes (is_i_frame f) false true q

  serialized-untouched :
      (p : Protocol) (f : HdlcFrame) (o : Option (List ℕ))
      → untouched (elim o [ none ↦ demand false p | some bytes ↦ transmit requires f bytes p ])
        ≡ untouched p
  serialized-untouched p f none = refl
  serialized-untouched p f (some bytes) = transmit-untouched f bytes p

  send_chosen-untouched : (c : Choice) → untouched (send_chosen requires c) ≡ untouched c.0
  unfolding send_chosen
  send_chosen-untouched (p, f) =
      untouched-if (not (is_empty f)) _ _ _ (serialized-untouched p f (serialize_frame f)) refl

  pub opportunity_for_transmission-untouched :
      (p : Protocol) → untouched (opportunity_for_transmission requires p) ≡ untouched p
  unfolding opportunity_for_transmission
  opportunity_for_transmission-untouched p =
      let c = choose_probe p in
      untouched-if (not p.awaits_next_hdlc_frame) _ _ _ refl (
        send_chosen-untouched (choose_alive requires c)
        ∙ choose_alive-untouched c
        ∙ choose_probe-untouched p)
