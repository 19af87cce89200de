-- ===== src/Hdlc/ProtocolState/Sending.antt =====
-- ProtocolState.cpp, OpportunityForTransmission: its stages and the invariant of a started object.
use hdlcd.Base.{
  ℕ, ◌≡◌, ◌≢◌, refl, sym, subst, Bool, true, false, List, [], not, arith, if◌then◌else◌, none, some,
  ◌⊎◌, inl, inr, ◌&&◌, ◌||◌, Option-cases,
}
use hdlcd.Hdlc.AliveState.{is_alive}
use hdlcd.Hdlc.Frame.{HdlcFrame, empty_frame, is_empty, is_i_frame}
use hdlcd.Hdlc.Frame.Dissect.{dissect}
use hdlcd.Hdlc.FrameGenerator.{control_field, serialize_frame}
use hdlcd.Hdlc.ProtocolState.{
  BufferType, Protocol, empty, demand, deliver_required, buffer_type_payload, buffer_type_raw,
  buffer_type_dissected, deliver_buffer_to_clients, query_for_payload, front, prepare_i_frame,
  prepare_s_frame_srej, prepare_u_frame_ui,
}
use hdlcd.Hdlc.ProtocolState.Safe.{
  IsSafe, stay, and_then, same_core, either, emit-IsSafe, demand-IsSafe, deliver_required-IsSafe,
}
use hdlcd.Hdlc.ProtocolState.Transmit.{
  Choice, query_reliable, query_unreliable, may_send_i, choose_probe, choose_srej, choose_rr,
  choose_ui, query_payload, choose_i, choose_alive, transmit, send_chosen,
  opportunity_for_transmission,
}

-- A chosen frame has a type that the generator knows.
abbrev IsKnown : HdlcFrame → Type 0
IsKnown f = (is_empty f ≡ true) ⊎ (control_field f.frame_type f.s_seq f.r_seq ≢ none)

-- A stage keeps the invariant and chooses frames that can be serialised.
record IsStage (c d : Choice) : Type 0 where
  pub safe : IsSafe c.0 d.0
  pub known : IsKnown c.1 → IsKnown d.1

next : {c d e : Choice} → IsStage c d → IsStage d e → IsStage c e
next a b = record { safe = and_then a.safe b.safe; known = λ k. b.known (a.known k) }

on_test :
    (b : Bool) {c d e : Choice}
    → (b ≡ true → IsStage c d)
    → (b ≡ false → IsStage c e)
    → IsStage c (if b then d else e)
on_test true x y = x refl
on_test false x y = y refl

pass : (c : Choice) → IsStage c c
pass c = record { safe = stay c.0; known = λ k. k }

chosen : {c d : Choice} → IsSafe c.0 d.0 → IsKnown d.1 → IsStage c d
chosen s k = record { safe = s; known = λ _. k }

silent : {c d : Choice} → IsSafe c.0 d.0 → d.1 ≡ c.1 → IsStage c d
silent s e = record { safe = s; known = λ k. subst IsKnown (sym e) k }

choose_probe-IsStage : (p : Protocol) → IsStage (p, empty_frame) (choose_probe p)
unfolding choose_probe control_field
choose_probe-IsStage p =
    on_test p.send_probe (λ _. chosen (same_core refl (λ l. l.queued)) (inr (ground arith)))
      (λ _. pass (p, empty_frame))

choose_srej-IsStage : (c : Choice) → IsStage c (choose_srej c)
unfolding choose_srej prepare_s_frame_srej control_field
choose_srej-IsStage (p, f) =
    on_test (not (empty p.srejs))
      (λ h.
        chosen
          (and_then (demand-IsSafe (not (empty p.srejs)) p (λ _. h))
            (same_core refl (λ l. l.queued)))
          (inr (ground arith)))
      (λ _. pass (p, f))

choose_rr-IsStage : (c : Choice) → IsStage c (choose_rr c)
unfolding choose_rr control_field
choose_rr-IsStage (p, f) =
    on_test (is_empty f && (p.peer_requires_ack || p.peer_stopped_flow_new))
      (λ _.
        on_test p.peer_stopped_flow_new (λ _. silent (same_core refl (λ l. l.queued)) refl)
          (λ _.
            on_test (p.peer_stopped_flow && not p.peer_stopped_flow_queried)
              (λ _. chosen (same_core refl (λ l. l.queued)) (inr (ground arith)))
              (λ _. chosen (same_core refl (λ l. l.queued)) (inr (ground arith)))))
      (λ _. pass (p, f))

choose_ui-IsStage : (c : Choice) → IsStage c (choose_ui c)
unfolding choose_ui prepare_u_frame_ui control_field
choose_ui-IsStage (p, f) =
    on_test (is_empty f && not (empty p.wait_queue_unreliable))
      (λ h.
        chosen
          (and_then
            (and_then
              (demand-IsSafe (not (empty p.wait_queue_unreliable)) p (λ _. ground (arith, h)))
              (emit-IsSafe
                (deliver_buffer_to_clients buffer_type_payload (front [] p.wait_queue_unreliable)
                  false false true)
                (demand (not (empty p.wait_queue_unreliable)) p)))
            (same_core refl (λ l. l.queued)))
          (inr (ground arith)))
      (λ _. pass (p, f))

query_payload-IsStage : (c : Choice) → IsStage c (query_payload c)
unfolding query_payload
query_payload-IsStage (p, f) =
    on_test (is_empty f)
      (λ _.
        on_test (query_reliable p || query_unreliable p)
          (λ _.
            silent (emit-IsSafe (query_for_payload (query_reliable p) (query_unreliable p)) p) refl)
          (λ _. pass (p, f)))
      (λ _. pass (p, f))

choose_i-IsStage : (requires : BufferType → Bool) (c : Choice) → IsStage c (choose_i requires c)
unfolding choose_i prepare_i_frame control_field
choose_i-IsStage requires (p, f) =
    on_test (is_empty f && may_send_i p)
      (λ h.
        chosen
          (and_then
            (and_then (demand-IsSafe (not (empty p.wait_queue_reliable)) p (λ _. ground (arith, h)))
              (deliver_required-IsSafe requires buffer_type_payload (front [] p.wait_queue_reliable)
                true false true (demand (not (empty p.wait_queue_reliable)) p)))
            (same_core refl (λ _ _. ground (arith, h))))
          (inr (ground arith)))
      (λ _. pass (p, f))

choose_alive-IsStage :
    (requires : BufferType → Bool) (c : Choice) → IsStage c (choose_alive requires c)
unfolding choose_alive
choose_alive-IsStage requires (p, f) =
    on_test (is_empty f && is_alive p.alive)
      (λ _. next (choose_srej-IsStage (p, f)) (
        next (choose_i-IsStage requires (choose_srej (p, f)))
          (next (choose_rr-IsStage _) (next (choose_ui-IsStage _) (query_payload-IsStage _)))))
      (λ _. pass (p, f))

serialize_frame-some :
    (f : HdlcFrame)
    → control_field f.frame_type f.s_seq f.r_seq ≢ none
    → (bytes : List ℕ) × (serialize_frame f ≡ some bytes)
unfolding serialize_frame
serialize_frame-some f h = elim (Option-cases (control_field f.frame_type f.s_seq f.r_seq)) [
  | inl e ↦ absurd (h e)
  | inr (c, e) ↦ rw (e, serialize_frame) (_, refl)
]

transmit-IsSafe :
    (requires : BufferType → Bool) (f : HdlcFrame) (bytes : List ℕ) (p : Protocol)
    → IsSafe p (transmit requires f bytes p)
unfolding transmit
transmit-IsSafe requires f bytes p =
    and_then (same_core {q = record p { awaits_next_hdlc_frame = false }} refl (λ l. l.queued)) (
      and_then
        (deliver_required-IsSafe requires buffer_type_raw bytes (is_i_frame f) false true
          (record p { awaits_next_hdlc_frame = false }))
        (and_then
          (deliver_required-IsSafe requires buffer_type_dissected (dissect f) (is_i_frame f) false
            true
            (deliver_required requires buffer_type_raw bytes (is_i_frame f) false true
              (record p { awaits_next_hdlc_frame = false })))
          (emit-IsSafe _ _)))

send_chosen-IsSafe :
    (requires : BufferType → Bool) (p : Protocol) (f : HdlcFrame)
    → IsKnown f
    → IsSafe p (send_chosen requires (p, f))
unfolding send_chosen
send_chosen-IsSafe requires p f (inl e) =
    either (not (is_empty f)) (λ h. absurd (ground (arith, e, h))) (λ _. stay p)
send_chosen-IsSafe requires p f (inr k) =
    either (not (is_empty f))
      (λ _. let (bytes, e) = serialize_frame-some f k in rw e (transmit-IsSafe requires f bytes p))
      (λ _. stay p)

-- The invariant of a started object outlives any opportunity for transmission.
pub opportunity_for_transmission-IsSafe :
    (requires : BufferType → Bool) (p : Protocol)
    → IsSafe p (opportunity_for_transmission requires p)
unfolding opportunity_for_transmission
opportunity_for_transmission-IsSafe requires p =
    let s = next (choose_probe-IsStage p) (choose_alive-IsStage requires (choose_probe p)) in
    either (not p.awaits_next_hdlc_frame) (λ _. stay p)
      (λ _. and_then s.safe (send_chosen-IsSafe requires _ _ (s.known (inl refl))))
