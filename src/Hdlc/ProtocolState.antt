-- ===== src/Hdlc/ProtocolState.antt =====
-- src/SerialPort/HDLC/ProtocolState.cpp: one end of the HDLC link. The calls on ISerialPortHandler are
-- recorded in order; what it asks with RequiresBufferType is an argument of each operation.
pub mod Transmit
pub mod Receive
pub mod Operations
pub mod Safe
pub mod Sending
pub mod Missing
pub mod Receiving
pub mod Sound
pub mod Kept
pub mod Timers
pub mod Reachable
pub mod Silent
pub mod Acks
pub mod Outgoing
pub mod Ledger
pub mod Credit
pub mod Pacing
pub mod Answer
pub mod Untouched
pub mod Held
pub mod Rates
pub mod Repeat
pub mod FirstProbe
pub mod Round
pub mod Working
use hdlcd.Base.{
  ℕ, Bool, true, false, not, ◌||◌, List, [], ◌∷◌, ◌++◌, Option, none, some, if◌then◌else◌,
}
use hdlcd.Hdlc.Frame.{i, s_rr, s_srej, u_ui, u_test, HdlcFrame, empty_frame, pf_bits}
use hdlcd.Hdlc.AliveState.{Alive}
use hdlcd.Hdlc.FrameParser.{Parser}

-- E_BUFFER_TYPE without its two bookkeeping values.
pub data BufferType : Type 0 where
  buffer_type_raw buffer_type_dissected buffer_type_payload buffer_type_port_status : BufferType

-- The calls on ISerialPortHandler with an effect.
pub data Action : Type 0 where
  deliver_buffer_to_clients :
      (type : BufferType) (payload : List ℕ) (reliable invalid was_sent : Bool) → Action
  change_baud_rate : Action
  propagate_serial_port_state : Action
  transmit_hdlc_frame : (bytes : List ℕ) → Action
  query_for_payload : (reliable unreliable : Bool) → Action

-- What `m_Timer` runs when it expires: the handler that the I-frame or the RNR condition sets.
pub data TimerHandler : Type 0 where
  send_again query_peer : TimerHandler

-- `attached` tells whether `m_SerialPortHandler` is set, `timer` what `m_Timer` waits for. `failed` is
-- set for ever by a failed assertion, by `front` or `pop_front` of an empty queue, by a call through
-- the empty pointer and by a loop that does not end. `m_bAliveReceivedSometing` is never used and has
-- no field.
pub record Protocol : Type 0 where
  pub started : Bool
  pub awaits_next_hdlc_frame : Bool
  pub s_seq_outgoing : ℕ
  pub r_seq_incoming : ℕ
  pub send_probe : Bool
  pub peer_stopped_flow : Bool
  pub peer_stopped_flow_new : Bool
  pub peer_stopped_flow_queried : Bool
  pub peer_requires_ack : Bool
  pub wait_for_ack : Bool
  pub srejs : List ℕ
  pub attached : Bool
  pub parser : Parser
  pub wait_queue_reliable : List (List ℕ)
  pub wait_queue_unreliable : List (List ℕ)
  pub alive : Alive
  pub timer : Option TimerHandler
  pub emitted : List Action
  pub failed : Bool

abbrev pub empty {ℓ} : {A : Type ℓ} → List A → Bool
empty [] = true
empty (x ∷ xs) = false

abbrev pub front {ℓ} : {A : Type ℓ} → A → List A → A
front d [] = d
front d (x ∷ xs) = x

abbrev pub pop_front {ℓ} : {A : Type ℓ} → List A → List A
pop_front [] = []
pop_front (x ∷ xs) = xs

-- What must hold for the program to go on.
abbrev pub demand : Bool → Protocol → Protocol
demand ok p = record p { failed = p.failed || not ok }

-- A call through `m_SerialPortHandler`.
abbrev pub emit : Action → Protocol → Protocol
emit action p = record p { emitted = p.emitted ++ action ∷ []; failed = p.failed || not p.attached }

module _ (requires : BufferType → Bool) where
  -- RequiresBufferType and, where some client has interest, DeliverBufferToClients.
  unfoldable pub deliver_required :
      BufferType → List ℕ → (reliable invalid was_sent : Bool) → Protocol → Protocol
  deliver_required type bytes reliable invalid was_sent p =
      if requires type
      then emit (deliver_buffer_to_clients type bytes reliable invalid was_sent) p
      else demand p.attached p

  unfoldable pub prepare_i_frame : Protocol → Protocol × HdlcFrame
  unfolding deliver_required
  prepare_i_frame p = (
    deliver_required buffer_type_payload (front [] p.wait_queue_reliable) true false true
        (demand (not (empty p.wait_queue_reliable)) p),
    record empty_frame {
      address = 0x30;
      frame_type = i;
      pf = pf_bits false;
      s_seq = p.s_seq_outgoing;
      r_seq = p.r_seq_incoming;
      payload = front [] p.wait_queue_reliable;
    },
  )

abbrev pub prepare_s_frame_rr : Protocol → HdlcFrame
prepare_s_frame_rr p = record empty_frame {
  address = 0x30;
  frame_type = s_rr;
  pf = pf_bits false;
  r_seq = p.r_seq_incoming;
}

unfoldable pub prepare_s_frame_srej : Protocol → Protocol × HdlcFrame
prepare_s_frame_srej p = (
  record (demand (not (empty p.srejs)) p) { srejs = pop_front p.srejs },
  record empty_frame {
    address = 0x30;
    frame_type = s_srej;
    pf = pf_bits false;
    r_seq = front 0 p.srejs;
  },
)

-- The payload is delivered whether or not a client requires it.
unfoldable pub prepare_u_frame_ui : Protocol → Protocol × HdlcFrame
prepare_u_frame_ui p = (
  emit
      (deliver_buffer_to_clients buffer_type_payload (front [] p.wait_queue_unreliable) false false
        true)
      (demand (not (empty p.wait_queue_unreliable)) p),
  record empty_frame {
    address = 0x30;
    frame_type = u_ui;
    pf = pf_bits false;
    payload = front [] p.wait_queue_unreliable;
  },
)

abbrev pub prepare_u_frame_test : HdlcFrame
prepare_u_frame_test = record empty_frame {
  address = 0x30;
  frame_type = u_test;
  pf = pf_bits false;
}
