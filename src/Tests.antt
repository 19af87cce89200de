-- ===== src/Tests.antt =====
-- Runs of the models of src/SerialPort/HDLC at concrete inputs.
use hdlcd.Base.{
  append-nil, ap, ◌∙◌, take, drop, take-append-drop, ℕ, ◌≡◌, refl, ◌↔◌, Bool, true, false, List, [],
  ◌∷◌, ◌++◌, some, arith, All,
}
use hdlcd.Hdlc.Fcs16.{pppfcs16, ppp_init_fcs16, ppp_good_fcs16}
use hdlcd.Hdlc.Fcs16.Bitwise.{bitwise_fcs16, pppfcs16-bitwise_fcs16}
use hdlcd.Hdlc.Fcs16.Detection.{fcs_low, fcs_high, pppfcs16_detects, pppfcs16_good_iff}
use hdlcd.Hdlc.Frame.{i, s_rr, u_cmdr, u_snrm, HdlcFrame}
use hdlcd.Hdlc.FrameGenerator.{control_field, serialize_frame}
use hdlcd.Hdlc.FrameParser
use hdlcd.Hdlc.FrameParser.{Parser, deserialize_frame}
use hdlcd.Hdlc.FrameParser.Close.{IsOpen, reset-IsOpen}
use hdlcd.Hdlc.FrameParser.Total.{add_received_raw_bytes_total}
use hdlcd.Hdlc.FrameParser.Bytewise.{Fits, accept_bytes}
use hdlcd.Hdlc.FrameParser.Chunks.{joined, feed, feed_bytewise}
use hdlcd.Hdlc.FrameParser.Delivery.{sealed}
use hdlcd.Hdlc.FrameParser.Owner.{IsNumbered, Holds, deserialize_frame-IsNumbered}
use hdlcd.Hdlc.FrameParser.Stream.{Transmission, IsTransmission, line, deliver_all, feed-line}
use hdlcd.Hdlc.FrameParser.RoundTrip.{
  IsSendable, sent_message, deserialize-serialize, cmdr_read_as_snrm, SentFrame, IsSentFrame,
  on_line, owner_gets, frames_round_trip,
}
use hdlcd.Hdlc.AliveState
use hdlcd.Hdlc.AliveState.Silence.{
  frame, state_timeout, probe_timeout, Event, run, periods_since_frame, recent, run-is_alive,
}
use hdlcd.Hdlc.AliveState.Probing.{expire, count_probes, count_changes, expire_four}

-- An owner that records what it is handed.
abbrev Log : Type 0
Log = List (List ℕ × HdlcFrame × Bool)

abbrev note : List ℕ → HdlcFrame → Bool → Log → Log
note bytes f bad log = log ++ (bytes, f, bad) ∷ []

abbrev rr_three : HdlcFrame
rr_three = record { address = 0x30; frame_type = s_rr; pf = 0; r_seq = 3; s_seq = 0; payload = [] }

-- A payload with the delimiter and the escape character.
abbrev i_two : HdlcFrame
i_two = record {
  address = 0x30;
  frame_type = i;
  pf = 0x10;
  r_seq = 5;
  s_seq = 2;
  payload = 0x7e ∷ 0x7d ∷ 0x01 ∷ [];
}

rr_three-IsSendable : IsSendable rr_three
unfolding control_field
rr_three-IsSendable = record {
  control = 0x61;
  append = false;
  supported = refl;
  no_cmdr = λ e. absurd (cc e);
  s_fits = omega arith;
  r_fits = omega arith;
  s_used = refl;
  r_used = refl;
  flag = refl;
  no_payload = λ _. refl;
  short = omega arith;
}

i_two-IsSendable : IsSendable i_two
unfolding control_field
i_two-IsSendable = record {
  control = 0xa4;
  append = true;
  supported = refl;
  no_cmdr = λ e. absurd (cc e);
  s_fits = omega arith;
  r_fits = omega arith;
  s_used = refl;
  r_used = refl;
  flag = refl;
  no_payload = λ e. absurd (cc e);
  short = omega arith;
}

abbrev two_frames : List SentFrame
two_frames =
    record { junk = 1 ∷ 2 ∷ []; frame = rr_three } ∷ record { junk = []; frame = i_two } ∷ []

two_frames-IsSentFrame : All IsSentFrame two_frames
two_frames-IsSentFrame = (
  record {
    no_flag = (λ e. absurd (omega (arith, e)), (λ e. absurd (omega (arith, e)), tt));
    short = omega arith;
    sendable = rr_three-IsSendable;
  },
  (record { no_flag = tt; short = omega arith; sendable = i_two-IsSendable }, tt),
)

-- A line that is cut after its third byte.
abbrev cut_three : List ℕ → List (List ℕ)
cut_three bytes = take 3 bytes ∷ drop 3 bytes ∷ []

joined-cut_three : (bytes : List ℕ) → joined (cut_three bytes) ≡ bytes
joined-cut_three bytes =
    ap (λ rest. take 3 bytes ++ rest) (append-nil (drop 3 bytes)) ∙ take-append-drop 3 bytes

frames_round_trip_example :
    (bytes : List ℕ) × (on_line two_frames ≡ some bytes)
    × (feed note FrameParser.reset [] (cut_three bytes)
        ≡ some (FrameParser.reset, owner_gets note two_frames []))
frames_round_trip_example =
    frames_round_trip note two_frames [] cut_three two_frames-IsSentFrame joined-cut_three

deserialize-serialize_example :
    (serialize_frame i_two ≡ some (sealed (sent_message i_two i_two-IsSendable)))
    × (deserialize_frame (sealed (sent_message i_two i_two-IsSendable)) ≡ some i_two)
deserialize-serialize_example = deserialize-serialize i_two i_two-IsSendable

-- Half a frame, a delimiter in the middle and an escape character.
abbrev noise : List ℕ
noise = 0x00 ∷ 0x7e ∷ 0x30 ∷ 0x7d ∷ 0x7e ∷ 0x7e ∷ 0x41 ∷ []

noise-Fits : Fits 1 noise
noise-Fits = (
  omega arith,
  (
    omega arith,
    (omega arith, (omega arith, (omega arith, (omega arith, (omega arith, omega arith))))),
  ),
)

add_received_raw_bytes_total_example :
    (p' : Parser) × (s' : Log) × (FrameParser.add_received_raw_bytes note FrameParser.reset [] noise
      ≡ some (p', s'))
    × IsOpen p'
add_received_raw_bytes_total_example =
    add_received_raw_bytes_total note FrameParser.reset [] noise reset-IsOpen

feed_bytewise_example :
    feed note FrameParser.reset []
      ((0x00 ∷ 0x7e ∷ 0x30 ∷ []) ∷ (0x7d ∷ 0x7e ∷ 0x7e ∷ 0x41 ∷ []) ∷ [])
    ≡ accept_bytes note FrameParser.reset [] noise
feed_bytewise_example =
    feed_bytewise note FrameParser.reset []
      ((0x00 ∷ 0x7e ∷ 0x30 ∷ []) ∷ (0x7d ∷ 0x7e ∷ 0x7e ∷ 0x41 ∷ []) ∷ []) reset-IsOpen noise-Fits

abbrev one_message : List Transmission
one_message = record { junk = 0x11 ∷ []; message = 0x30 ∷ 0x7e ∷ 0x55 ∷ [] } ∷ []

one_message-IsTransmission : All IsTransmission one_message
one_message-IsTransmission = (
  record {
    no_flag = (λ e. absurd (omega (arith, e)), tt);
    short = omega arith;
    body = (omega arith, omega arith);
  },
  tt,
)

feed-line_example :
    feed note FrameParser.reset [] (line one_message ∷ [])
    ≡ some (FrameParser.reset, deliver_all note one_message [])
feed-line_example =
    feed-line note one_message [] (line one_message ∷ []) one_message-IsTransmission
      (append-nil (line one_message))

deserialize_frame-IsNumbered_example : Holds IsNumbered (deserialize_frame noise)
deserialize_frame-IsNumbered_example = deserialize_frame-IsNumbered noise

abbrev cmdr : HdlcFrame
cmdr = record { address = 0x30; frame_type = u_cmdr; pf = 0; r_seq = 0; s_seq = 0; payload = [] }

cmdr_read_as_snrm_example :
    (bytes : List ℕ) × (serialize_frame cmdr ≡ some bytes)
    × (g : HdlcFrame) × (deserialize_frame bytes ≡ some g)
    × (g.frame_type ≡ u_snrm)
cmdr_read_as_snrm_example = cmdr_read_as_snrm cmdr refl

pppfcs16-bitwise_fcs16_example :
    pppfcs16 ppp_init_fcs16 (0x30 ∷ 0xff ∷ []) ≡ bitwise_fcs16 ppp_init_fcs16 (0x30 ∷ 0xff ∷ [])
pppfcs16-bitwise_fcs16_example =
    pppfcs16-bitwise_fcs16 ppp_init_fcs16 (0x30 ∷ 0xff ∷ []) (omega arith, (omega arith, tt))

abbrev byte_one : ℕ
byte_one = 0x12

abbrev byte_two : ℕ
byte_two = 0x34

pppfcs16_detects_example : (byte_one ≡ byte_one) × (byte_two ≡ byte_two)
pppfcs16_detects_example =
    pppfcs16_detects ppp_init_fcs16 (0x30 ∷ []) (0x99 ∷ []) byte_one byte_two byte_one byte_two
      (omega arith) (omega arith, omega arith, omega arith, omega arith) refl

pppfcs16_good_iff_example :
    (pppfcs16 ppp_init_fcs16 ((0x30 ∷ 0x61 ∷ []) ++ 0xaa ∷ 0xbb ∷ []) ≡ ppp_good_fcs16) ↔ (
      (0xaa ≡ fcs_low (pppfcs16 ppp_init_fcs16 (0x30 ∷ 0x61 ∷ [])))
      × (0xbb ≡ fcs_high (pppfcs16 ppp_init_fcs16 (0x30 ∷ 0x61 ∷ []))))
pppfcs16_good_iff_example =
    pppfcs16_good_iff ppp_init_fcs16 0xaa 0xbb (0x30 ∷ 0x61 ∷ []) (omega arith) (omega arith)
      (omega arith)

abbrev history : List Event
history = state_timeout ∷ probe_timeout ∷ frame ∷ state_timeout ∷ []

run-is_alive_example :
    (b : AliveState.Alive) × (run AliveState.initial history ≡ some b)
    × (AliveState.is_alive b ≡ recent (periods_since_frame history))
run-is_alive_example = run-is_alive AliveState.initial history

abbrev searching : AliveState.Alive
searching = record {
  state = AliveState.probing;
  frame_was_received = false;
  probe_counter = 2;
  state_timer = true;
  probe_timer = true;
}

expire_four_example :
    ((expire 4 searching).0 ≡ searching)
    × (count_probes (expire 4 searching).1 ≡ 4)
    × (count_changes (expire 4 searching).1 ≡ 1)
expire_four_example = expire_four searching refl refl (omega arith)
