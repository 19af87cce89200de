-- ===== src/LinkTests.antt =====
-- Runs of the model of src/SerialPort/HDLC/ProtocolState.cpp at concrete inputs.
use hdlcd.Base.{
  ◌≤◌, ℕ, ◌+◌, ◌-◌, ◌%◌, ◌<◌, ◌≡◌, refl, Bool, true, false, [], ◌∷◌, some, arith, List, ◌++◌,
  append-nil, ap, ◌∙◌, take, drop, take-append-drop,
}
use hdlcd.Hdlc.AliveState.{found}
use hdlcd.Hdlc.FrameGenerator.{escape_frame}
use hdlcd.Hdlc.FrameParser
use hdlcd.Hdlc.FrameParser.Chunks.{joined, feed}
use hdlcd.Hdlc.ProtocolState.Transmit.{opportunity_for_transmission}
use hdlcd.Hdlc.ProtocolState.Round.{head_is_acknowledged}
use hdlcd.Hdlc.ProtocolState.Receive.{interpret_deserialized_frame}
use hdlcd.Hdlc.ProtocolState.Outgoing.{IsTurn, waits, head_frame, head_reaches_peer}
use hdlcd.Hdlc.Frame.{s_rr, s_rej, HdlcFrame}
use hdlcd.Hdlc.ProtocolState.{BufferType, Action, transmit_hdlc_frame, send_again, Protocol, empty}
use hdlcd.Hdlc.ProtocolState.Receive.{missing, check_ack}
use hdlcd.Hdlc.ProtocolState.Operations.{initial, start, send_payload, add_received_raw_bytes}
use hdlcd.Hdlc.ProtocolState.Missing.{count_up, missing-count_up}
use hdlcd.Hdlc.ProtocolState.Repeat.{rej_renumbers}
use hdlcd.Hdlc.ProtocolState.Reachable.{
  start_step, send_payload_step, receive_step, fresh_object, after, IsReachable,
  reachable_never_fails,
}
use hdlcd.Hdlc.ProtocolState.Ledger.{transmits}
use hdlcd.Hdlc.ProtocolState.Pacing.{all_grants, frames_are_asked_for}
use hdlcd.Hdlc.ProtocolState.Silent.{stopped_is_silent}

-- Clients that want every kind of buffer.
abbrev all_buffers : BufferType → Bool
all_buffers type = true

-- Started, with a payload in the queue, and half a frame received.
abbrev busy : Protocol
busy =
    add_received_raw_bytes all_buffers (0x7e ∷ 0x30 ∷ [])
      (send_payload all_buffers (1 ∷ 2 ∷ []) true (start all_buffers initial))

busy-IsReachable : IsReachable busy
unfolding initial
busy-IsReachable =
    after
      (after (after fresh_object (start_step all_buffers initial refl))
        (send_payload_step all_buffers (1 ∷ 2 ∷ []) true (start all_buffers initial)))
      (receive_step all_buffers (0x7e ∷ 0x30 ∷ [])
        (send_payload all_buffers (1 ∷ 2 ∷ []) true (start all_buffers initial)))

reachable_never_fails_example :
    (busy.failed ≡ false)
    × (busy.started ≡ true
        → (busy.s_seq_outgoing < 8)
          × (busy.r_seq_incoming < 8)
          × (busy.wait_for_ack ≡ true → empty busy.wait_queue_reliable ≡ false)
          × (busy.attached ≡ true))
reachable_never_fails_example = reachable_never_fails busy busy-IsReachable

stopped_is_silent_example :
    (send_payload all_buffers (1 ∷ []) true initial).emitted ≡ initial.emitted
unfolding initial send_payload
stopped_is_silent_example =
    stopped_is_silent initial (send_payload all_buffers (1 ∷ []) true initial) fresh_object
      (send_payload_step all_buffers (1 ∷ []) true initial) refl refl

missing-count_up_example : missing 8 6 2 ≡ some (count_up 6 ((2 + 8 - 6) % 8))
missing-count_up_example = missing-count_up 6 2 (omega arith) (omega arith)

-- An I-frame with number 3 is out.
abbrev waiting : Protocol
waiting = record initial {
  started = true;
  wait_for_ack = true;
  s_seq_outgoing = 3;
  wait_queue_reliable = (1 ∷ []) ∷ (2 ∷ []) ∷ [];
}

abbrev rr_four : HdlcFrame
rr_four = record { address = 0x30; frame_type = s_rr; pf = 0; r_seq = 4; s_seq = 0; payload = [] }

abbrev rej_three : HdlcFrame
rej_three = record {
  address = 0x30;
  frame_type = s_rej;
  pf = 0;
  r_seq = 3;
  s_seq = 0;
  payload = [];
}

-- The device answers, and nothing is out.
abbrev ready : Protocol
ready = record initial {
  started = true;
  alive = record {
    state = found;
    frame_was_received = true;
    probe_counter = 0;
    state_timer = true;
    probe_timer = true;
  };
  s_seq_outgoing = 3;
  wait_queue_reliable = (0x7e ∷ 1 ∷ []) ∷ (2 ∷ []) ∷ [];
}

ready-IsTurn : IsTurn ready
unfolding initial
ready-IsTurn = record { asked = refl; no_probe = refl; alive = refl; no_srej = refl; free = refl }

abbrev keep_payload : List ℕ → HdlcFrame → Bool → List (List ℕ) → List (List ℕ)
keep_payload raw f bad payloads = f.payload ∷ payloads

abbrev cut_two : List ℕ → List (List ℕ)
cut_two bytes = take 2 bytes ∷ drop 2 bytes ∷ []

joined-cut_two : (bytes : List ℕ) → joined (cut_two bytes) ≡ bytes
joined-cut_two bytes =
    ap (λ rest. take 2 bytes ++ rest) (append-nil (drop 2 bytes)) ∙ take-append-drop 2 bytes

head_reaches_peer_example :
    (before : List Action) × (raw : List ℕ) × ((opportunity_for_transmission all_buffers
        ready).emitted
      ≡ before ++ transmit_hdlc_frame (escape_frame raw) ∷ [])
    × (waits (opportunity_for_transmission all_buffers ready)
        ≡ (false, true, some send_again, ready.wait_queue_reliable))
    × (feed keep_payload FrameParser.reset [] (cut_two (escape_frame raw))
        ≡ some (FrameParser.reset, keep_payload raw (head_frame ready) false []))
unfolding initial
head_reaches_peer_example =
    head_reaches_peer all_buffers ready keep_payload [] cut_two ready-IsTurn (omega arith)
      (omega arith) (omega arith) joined-cut_two

-- The head of the queue is out, and the other end expects its number.
abbrev sending : Protocol
sending = record ready { wait_for_ack = true }

rej_renumbers_example :
    let q = opportunity_for_transmission all_buffers (check_ack rej_three sending) in
    let again = record (head_frame sending) { s_seq = (3 + 7) % 8 } in
    (before : List Action) × (raw : List ℕ) × (q.emitted
      ≡ before ++ transmit_hdlc_frame (escape_frame raw) ∷ [])
    × (q.wait_queue_reliable ≡ sending.wait_queue_reliable)
    × (feed keep_payload FrameParser.reset [] (cut_two (escape_frame raw))
        ≡ some (FrameParser.reset, keep_payload raw again false []))
unfolding initial
rej_renumbers_example =
    rej_renumbers all_buffers rej_three sending keep_payload [] cut_two refl (omega arith) refl
      (omega arith)
      (record { asked = refl; no_probe = refl; alive = refl; no_srej = refl; queued = refl })
      (omega arith) joined-cut_two

abbrev listening : Protocol
listening = record initial { started = true; r_seq_incoming = 3 }

head_is_acknowledged_example :
    let b' =
      interpret_deserialized_frame all_buffers (1 ∷ []) (head_frame sending) false listening in
    (before : List Action) × (answer : List ℕ) × (a' : Protocol) × (b'.emitted
      ≡ before ++ transmit_hdlc_frame (escape_frame answer) ∷ [])
    × (feed
          (interpret_deserialized_frame all_buffers)
          FrameParser.reset
          sending
          (cut_two (escape_frame answer))
        ≡ some (FrameParser.reset, a'))
    × (a'.wait_queue_reliable ≡ (2 ∷ []) ∷ [])
    × (a'.s_seq_outgoing ≡ 4)
    × (b'.r_seq_incoming ≡ a'.s_seq_outgoing)
unfolding initial
head_is_acknowledged_example =
    head_is_acknowledged all_buffers all_buffers sending listening (1 ∷ []) cut_two refl refl refl
      (omega arith) refl refl refl joined-cut_two

frames_are_asked_for_example : transmits busy.emitted ≤ all_grants busy-IsReachable
frames_are_asked_for_example = frames_are_asked_for busy busy-IsReachable
