-- ===== src/Hdlc/ProtocolState/Ledger.antt =====
-- ProtocolState.cpp: the frames handed to the port, and whether the port waits for one.
use hdlcd.Base.{
  ℕ, suc, ◌+◌, ◌≤◌, ◌≡◌, refl, ap, subst, ◌∙◌, Bool, true, false, not, ◌&&◌, ◌||◌, List, [], ◌∷◌,
  ◌++◌, Option, none, some, arith, if◌then◌else◌,
}
use native.Mathlib.Nat.{le_refl}
use hdlcd.Hdlc.AliveState.{is_alive}
use hdlcd.Hdlc.Frame.{HdlcFrame, is_empty, is_i_frame}
use hdlcd.Hdlc.Frame.Dissect.{dissect}
use hdlcd.Hdlc.FrameGenerator.{serialize_frame, escape_frame}
use hdlcd.Hdlc.ProtocolState.{
  BufferType, buffer_type_raw, buffer_type_dissected, buffer_type_payload, Action,
  deliver_buffer_to_clients, change_baud_rate, propagate_serial_port_state, transmit_hdlc_frame,
  query_for_payload, Protocol, empty, front, demand, emit, deliver_required, prepare_i_frame,
  prepare_s_frame_srej, prepare_u_frame_ui,
}
use hdlcd.Hdlc.ProtocolState.Transmit.{
  Choice, choose_probe, choose_srej, choose_rr, choose_ui, query_reliable, query_unreliable,
  query_payload, choose_i, choose_alive, transmit, send_chosen, opportunity_for_transmission,
}

-- How many frames were handed to the port.
abbrev pub transmits : List Action → ℕ
transmits [] = 0
transmits (deliver_buffer_to_clients type bytes reliable invalid was_sent ∷ calls) = transmits calls
transmits (change_baud_rate ∷ calls) = transmits calls
transmits (propagate_serial_port_state ∷ calls) = transmits calls
transmits (transmit_hdlc_frame bytes ∷ calls) = suc (transmits calls)
transmits (query_for_payload reliable unreliable ∷ calls) = transmits calls

abbrev pub Ledger : Type 0
Ledger = Bool × ℕ

abbrev pub ledger : Protocol → Ledger
ledger p = (p.awaits_next_hdlc_frame, transmits p.emitted)

-- Frames that were handed over and the one that the port waits for.
abbrev pub credit_of : Ledger → ℕ
credit_of (waits, sent) = sent + (if waits then 1 else 0)

abbrev pub credit : Protocol → ℕ
credit p = credit_of (ledger p)

transmits-append :
    (calls : List Action) (a : Action)
    → transmits (calls ++ a ∷ []) ≡ transmits calls + transmits (a ∷ [])
transmits-append [] a = omega arith
transmits-append (deliver_buffer_to_clients type bytes reliable invalid was_sent ∷ calls) a =
    transmits-append calls a
transmits-append (change_baud_rate ∷ calls) a = transmits-append calls a
transmits-append (propagate_serial_port_state ∷ calls) a = transmits-append calls a
transmits-append (transmit_hdlc_frame bytes ∷ calls) a = omega (arith, transmits-append calls a)
transmits-append (query_for_payload reliable unreliable ∷ calls) a = transmits-append calls a

pub emit-ledger :
    (a : Action) (p : Protocol) → transmits (a ∷ []) ≡ 0 → ledger (emit a p) ≡ ledger p
emit-ledger a p h =
    ap (λ n. (p.awaits_next_hdlc_frame, n)) (omega (arith, transmits-append p.emitted a, h))

pub ledger-if :
    (b : Bool) (w : Ledger) (x y : Protocol)
    → ledger x ≡ w
    → ledger y ≡ w
    → ledger (if b then x else y) ≡ w
ledger-if true w x y hx hy = hx
ledger-if false w x y hx hy = hy

pub credit-if :
    (b : Bool) (n : ℕ) (x y : Protocol)
    → (b ≡ true → credit x ≤ n)
    → (b ≡ false → credit y ≤ n)
    → credit (if b then x else y) ≤ n
credit-if true n x y hx hy = hx refl
credit-if false n x y hx hy = hy refl

choice-if :
    (b : Bool) (w : Ledger) (x y : Choice)
    → ledger x.0 ≡ w
    → ledger y.0 ≡ w
    → ledger (if b then x else y).0 ≡ w
choice-if true w x y hx hy = hx
choice-if false w x y hx hy = hy

choose_probe-ledger : (p : Protocol) → ledger (choose_probe p).0 ≡ ledger p
unfolding choose_probe
choose_probe-ledger p = choice-if p.send_probe _ _ _ refl refl

choose_srej-ledger : (c : Choice) → ledger (choose_srej c).0 ≡ ledger c.0
unfolding choose_srej prepare_s_frame_srej
choose_srej-ledger (p, f) = choice-if (not (empty p.srejs)) _ _ _ refl refl

choose_rr-ledger : (c : Choice) → ledger (choose_rr c).0 ≡ ledger c.0
unfolding choose_rr
choose_rr-ledger (p, f) =
    choice-if (is_empty f && (p.peer_requires_ack || p.peer_stopped_flow_new)) _ _ _
      (choice-if p.peer_stopped_flow_new _ _ _ refl
        (choice-if (p.peer_stopped_flow && not p.peer_stopped_flow_queried) _ _ _ refl refl))
      refl

choose_ui-ledger : (c : Choice) → ledger (choose_ui c).0 ≡ ledger c.0
unfolding choose_ui prepare_u_frame_ui
choose_ui-ledger (p, f) =
    choice-if (is_empty f && not (empty p.wait_queue_unreliable)) _ _ _
      (emit-ledger
        (deliver_buffer_to_clients buffer_type_payload (front [] p.wait_queue_unreliable) false
          false true)
        (demand (not (empty p.wait_queue_unreliable)) p) refl)
      refl

query_payload-ledger : (c : Choice) → ledger (query_payload c).0 ≡ ledger c.0
unfolding query_payload
query_payload-ledger (p, f) =
    choice-if (is_empty f) _ _ _
      (choice-if (query_reliable p || query_unreliable p) _ _ _
        (emit-ledger (query_for_payload (query_reliable p) (query_unreliable p)) p refl) refl)
      refl

module _ (requires : BufferType → Bool) where
  pub deliver_required-ledger :
      (type : BufferType) (bytes : List ℕ) (reliable invalid was_sent : Bool) (p : Protocol)
      → ledger (deliver_required requires type bytes reliable invalid was_sent p) ≡ ledger p
  unfolding deliver_required
  deliver_required-ledger type bytes reliable invalid was_sent p =
      ledger-if (requires type) _ _ _
        (emit-ledger (deliver_buffer_to_clients type bytes reliable invalid was_sent) p refl) refl

  choose_i-ledger : (c : Choice) → ledger (choose_i requires c).0 ≡ ledger c.0
  unfolding choose_i prepare_i_frame
  choose_i-ledger (p, f) =
      choice-if _ _ _ _
        (deliver_required-ledger buffer_type_payload (front [] p.wait_queue_reliable) true false
          true (demand (not (empty p.wait_queue_reliable)) p))
        refl

  choose_alive-ledger : (c : Choice) → ledger (choose_alive requires c).0 ≡ ledger c.0
  unfolding choose_alive
  choose_alive-ledger (p, f) =
      let a = choose_srej (p, f) in
      let b = choose_i requires a in
      let c = choose_rr b in
      let d = choose_ui c in
      choice-if (is_empty f && is_alive p.alive) (ledger p) (query_payload d) (p, f)
        (query_payload-ledger d
          ∙ choose_ui-ledger c
          ∙ choose_rr-ledger b
          ∙ choose_i-ledger a
          ∙ choose_srej-ledger (p, f))
        refl

  pub transmit-ledger :
      (f : HdlcFrame) (bytes : List ℕ) (p : Protocol)
      → ledger (transmit requires f bytes p) ≡ (false, transmits p.emitted + 1)
  unfolding transmit
  transmit-ledger f bytes p =
      let q = record p { awaits_next_hdlc_frame = false } in
      let raw = deliver_required requires buffer_type_raw bytes (is_i_frame f) false true q in
      let text =
        deliver_required requires buffer_type_dissected (dissect f) (is_i_frame f) false true raw in
      let same : ledger text ≡ ledger q =
        deliver_required-ledger buffer_type_dissected (dissect f) (is_i_frame f) false true raw
        ∙ deliver_required-ledger buffer_type_raw bytes (is_i_frame f) false true q in
      ap (λ n. (text.awaits_next_hdlc_frame, n))
        (transmits-append text.emitted (transmit_hdlc_frame (escape_frame bytes)))
      ∙ ap (λ (l : Ledger). (l.0, l.1 + 1)) same

  -- A frame is sent at the cost of the port's wait for one.
  serialized-credit :
      (p : Protocol) (f : HdlcFrame) (o : Option (List ℕ))
      → p.awaits_next_hdlc_frame ≡ true
      → credit (elim o [ none ↦ demand false p | some bytes ↦ transmit requires f bytes p ])
        ≤ credit p
  serialized-credit p f none waits = le_refl (credit p)
  serialized-credit p f (some bytes) waits =
      ground (arith, ap credit_of (transmit-ledger f bytes p), waits)

  send_chosen-credit :
      (p : Protocol) (f : HdlcFrame)
      → p.awaits_next_hdlc_frame ≡ true
      → credit (send_chosen requires (p, f)) ≤ credit p
  unfolding send_chosen
  send_chosen-credit p f waits =
      credit-if (not (is_empty f)) (credit p) _ p
        (λ _. serialized-credit p f (serialize_frame f) waits) (λ _. le_refl (credit p))

  pub opportunity_for_transmission-credit :
      (p : Protocol) → credit (opportunity_for_transmission requires p) ≤ credit p
  unfolding opportunity_for_transmission
  opportunity_for_transmission-credit p =
      let c = choose_alive requires (choose_probe p) in
      let same : ledger c.0 ≡ ledger p =
        choose_alive-ledger (choose_probe p) ∙ choose_probe-ledger p in
      credit-if (not p.awaits_next_hdlc_frame) (credit p) p (send_chosen requires c)
        (λ _. le_refl (credit p))
        (λ asked.
          subst (λ n. credit (send_chosen requires c) ≤ n) (ap credit_of same)
            (send_chosen-credit c.0 c.1
              (ap (λ (l : Ledger). l.0) same ∙ is_asked p.awaits_next_hdlc_frame asked)))
    where
      is_asked : (b : Bool) → not b ≡ false → b ≡ true
      is_asked true h = refl
      is_asked false h = absurd (cc h)
