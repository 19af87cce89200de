-- ===== src/Hdlc/ProtocolState/Receiving.antt =====
-- ProtocolState.cpp, InterpretDeserializedFrame: its parts and the invariant of a started object.
use hdlcd.Base.{
  ℕ, ◌+◌, ◌<◌, ◌≡◌, ◌≢◌, refl, Bool, true, false, List, not, arith, if◌then◌else◌, Option, none,
  some, ◌&&◌, ◌||◌, ◌==◌, bit_and,
}
use hdlcd.Base.Bits.{bit_and-le}
use hdlcd.Hdlc.Frame.{HdlcFrame, s_rr, s_rnr, s_rej, s_srej, is_i_frame, is_s_frame, has_payload}
use hdlcd.Hdlc.FrameParser.Owner.{IsNumbered}
use hdlcd.Hdlc.ProtocolState.{BufferType, buffer_type_payload, Protocol, demand, deliver_required}
use hdlcd.Hdlc.ProtocolState.Safe.{
  IsLive, IsSafe, stay, and_then, same_core, either, demand-IsSafe, deliver_required-IsSafe,
}
use hdlcd.Hdlc.ProtocolState.Receive.{
  has_type, missing, noted, note_missing, accept_i_frame, restart_flow, pop_reliable, acknowledges,
  on_i_or_rr, on_rnr, on_rej, on_srej, check_ack, accept_payload,
}
use hdlcd.Hdlc.ProtocolState.Missing.{missing-count_up}

set_numbers :
    (p : Protocol) (s r : ℕ)
    → (IsLive p → s < 8)
    → (IsLive p → r < 8)
    → IsSafe p (record p { s_seq_outgoing = s; r_seq_incoming = r })
set_numbers p s r hs hr = record {
  keeps_started = refl;
  keeps_alive = refl;
  keeps_parser = refl;
  keeps_live =
      λ l. record { ok = l.ok; s_fits = hs l; r_fits = hr l; queued = l.queued; port = l.port };
}

noted-IsSafe : (o : Option (List ℕ)) (p : Protocol) → (IsLive p → o ≢ none) → IsSafe p (noted o p)
unfolding noted
noted-IsSafe none p h = demand-IsSafe false p (λ l. absurd (h l refl))
noted-IsSafe (some its) p h = same_core refl (λ l. l.queued)

note_missing-IsSafe : (f : HdlcFrame) (p : Protocol) → IsNumbered f → IsSafe p (note_missing f p)
unfolding note_missing
note_missing-IsSafe f p n =
    either (not (p.r_seq_incoming == f.s_seq))
      (λ _.
        noted-IsSafe (missing 8 p.r_seq_incoming f.s_seq) p
          (λ l e. absurd (cc (e, missing-count_up p.r_seq_incoming f.s_seq l.r_fits n.s_fits))))
      (λ _. stay p)

accept_i_frame-IsSafe :
    (f : HdlcFrame) (p : Protocol) → IsNumbered f → IsSafe p (accept_i_frame f p)
unfolding accept_i_frame
accept_i_frame-IsSafe f p n = and_then (note_missing-IsSafe f p n) (
    and_then
      (set_numbers (note_missing f p) (note_missing f p).s_seq_outgoing (bit_and (f.s_seq + 1) 0x07)
        (λ l. l.s_fits) (λ _. omega (arith, bit_and-le (f.s_seq + 1) 0x07)))
      (same_core refl (λ l. l.queued)))

restart_flow-IsSafe : (p : Protocol) → IsSafe p (restart_flow p)
unfolding restart_flow
restart_flow-IsSafe p =
    either p.peer_stopped_flow (λ _. same_core refl (λ _ w. absurd (cc w))) (λ _. stay p)

-- The I-frame that waits for its ACK is the head of the queue.
pop-IsSafe :
    (p : Protocol)
    → p.wait_for_ack ≡ true
    → IsSafe p (pop_reliable (record p { wait_for_ack = false; timer = none }))
unfolding pop_reliable
pop-IsSafe p w = record {
  keeps_started = refl;
  keeps_alive = refl;
  keeps_parser = refl;
  keeps_live = λ l. record {
    ok = ground (arith, l.ok, l.queued w);
    s_fits = l.s_fits;
    r_fits = l.r_fits;
    queued = λ f. absurd (cc f);
    port = l.port;
  };
}

no_wait-IsSafe : (p : Protocol) → IsSafe p (record p { wait_for_ack = false; timer = none })
no_wait-IsSafe p = same_core refl (λ _ w. absurd (cc w))

set_s_seq : (p : Protocol) (s : ℕ) → s < 8 → IsSafe p (record p { s_seq_outgoing = s })
set_s_seq p s h = set_numbers p s p.r_seq_incoming (λ _. h) (λ l. l.r_fits)

on_i_or_rr-IsSafe : (f : HdlcFrame) (p : Protocol) → IsNumbered f → IsSafe p (on_i_or_rr f p)
unfolding on_i_or_rr
on_i_or_rr-IsSafe f p n =
    let q = if has_type s_rr f then restart_flow p else p in
    and_then (either (has_type s_rr f) (λ _. restart_flow-IsSafe p) (λ _. stay p)) (
      and_then
        (either (q.wait_for_ack && acknowledges f q) (λ h. pop-IsSafe q (ground (arith, h)))
          (λ _. stay q))
        (set_s_seq _ f.r_seq n.r_fits))

on_rnr-IsSafe : (f : HdlcFrame) (p : Protocol) → IsNumbered f → IsSafe p (on_rnr f p)
unfolding on_rnr
on_rnr-IsSafe f p n =
    let q =
      if not p.peer_stopped_flow
      then record p {
        peer_stopped_flow = true;
        peer_stopped_flow_new = true;
        peer_stopped_flow_queried = false;
      }
      else p in
    and_then (either (not p.peer_stopped_flow) (λ _. same_core refl (λ l. l.queued)) (λ _. stay p))
      (and_then
        (either q.wait_for_ack
          (λ w. either (acknowledges f q) (λ _. pop-IsSafe q w) (λ _. no_wait-IsSafe q))
          (λ _. stay q))
        (set_s_seq _ f.r_seq n.r_fits))

on_rej-IsSafe : (f : HdlcFrame) (p : Protocol) → IsSafe p (on_rej f p)
unfolding on_rej
on_rej-IsSafe f p =
    let q = restart_flow p in
    and_then (restart_flow-IsSafe p) (
      and_then (either (f.r_seq == q.s_seq_outgoing) (λ _. no_wait-IsSafe q) (λ _. stay q)) (
        set_s_seq _ (bit_and (f.r_seq + 0x07) 0x07)
          (omega (arith, bit_and-le (f.r_seq + 0x07) 0x07))))

on_srej-IsSafe : (f : HdlcFrame) (p : Protocol) → has_type s_srej f ≡ true → IsSafe p (on_srej f p)
unfolding on_srej
on_srej-IsSafe f p h =
    let d = demand (has_type s_srej f) p in
    let q = restart_flow d in
    and_then (demand-IsSafe (has_type s_srej f) p (λ _. h)) (
      and_then (restart_flow-IsSafe d) (
        either (q.wait_for_ack && f.r_seq == q.s_seq_outgoing) (λ _. no_wait-IsSafe q)
          (λ _. stay q)))

-- An S-frame that is none of the other three is an SREJ.
last_s_type :
    (f : HdlcFrame)
    → (is_i_frame f || is_s_frame f) ≡ true
    → (is_i_frame f || has_type s_rr f) ≡ false
    → has_type s_rnr f ≡ false
    → has_type s_rej f ≡ false
    → has_type s_srej f ≡ true
last_s_type f a b c d = ground arith

pub check_ack-IsSafe : (f : HdlcFrame) (p : Protocol) → IsNumbered f → IsSafe p (check_ack f p)
unfolding check_ack
check_ack-IsSafe f p n =
    either (is_i_frame f || is_s_frame f)
      (λ a.
        either (is_i_frame f || has_type s_rr f) (λ _. on_i_or_rr-IsSafe f p n)
          (λ b.
            either (has_type s_rnr f) (λ _. on_rnr-IsSafe f p n)
              (λ c.
                either (has_type s_rej f) (λ _. on_rej-IsSafe f p)
                  (λ d. on_srej-IsSafe f p (last_s_type f a b c d)))))
      (λ _. stay p)

pub accept_payload-IsSafe :
    (requires : BufferType → Bool) (f : HdlcFrame) (p : Protocol)
    → IsNumbered f
    → IsSafe p (accept_payload requires f p)
unfolding accept_payload
accept_payload-IsSafe requires f p n =
    let q = deliver_required requires buffer_type_payload f.payload (is_i_frame f) false false p in
    either (has_payload f)
      (λ _.
        and_then
          (deliver_required-IsSafe requires buffer_type_payload f.payload (is_i_frame f) false false
            p)
          (either (is_i_frame f) (λ _. accept_i_frame-IsSafe f q n) (λ _. stay q)))
      (λ _. stay p)
