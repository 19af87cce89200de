-- ===== src/Hdlc/FrameParser/RoundTrip.antt =====
-- FrameGenerator.cpp and FrameParser.cpp: frames put on the line and read from it.
use hdlcd.Base.{
  ℕ, ◌-◌, ◌≤◌, ◌<◌, ◌≡◌, ◌≢◌, refl, sym, ap, ◌∙◌, Bool, true, false, List, [], ◌∷◌, ◌++◌,
  append_assoc, Option, none, some, arith, if◌then◌else◌, length, take, take-append, All, ◌>>=◌,
}
use hdlcd.Hdlc.Frame.{FrameType, i, u_ui, u_cmdr, u_snrm, HdlcFrame, pf_bits, is_pf}
use hdlcd.Hdlc.FrameGenerator.{control_field, control_with_pf, serialize_frame, escape_frame}
use hdlcd.Hdlc.FrameGenerator.Escape.{trailer, apply_fcs-window}
use hdlcd.Hdlc.FrameParser.{reset, deserialize_header, read_frame, deserialize_frame}
use hdlcd.Hdlc.FrameParser.Close.{deserialize_frame-long}
use hdlcd.Hdlc.FrameParser.Window.{NoFlag}
use hdlcd.Hdlc.FrameParser.Chunks.{joined, feed}
use hdlcd.Hdlc.FrameParser.Delivery.{IsBody, sealed, length-sealed}
use hdlcd.Hdlc.FrameParser.Stream.{Transmission, IsTransmission, line, deliver_all, feed-line}
use hdlcd.Hdlc.FrameParser.Header.{used_s_seq, used_r_seq, takes_payload, deserialize-control_field}

-- What stands on the line between the delimiter and the check sequence.
abbrev message_of : HdlcFrame → ℕ → Bool → List ℕ
message_of f control append =
    f.address ∷ control_with_pf (is_pf f) control ∷ (if append then f.payload else [])

serialize_frame-sealed :
    (f : HdlcFrame) (control : ℕ) (append : Bool)
    → control_field f.frame_type f.s_seq f.r_seq ≡ some (control, append)
    → serialize_frame f ≡ some (sealed (message_of f control append))
unfolding serialize_frame
serialize_frame-sealed f control append e =
    rw (e, serialize_frame) (ap some (apply_fcs-window (message_of f control append)))

read_frame-sealed :
    (address control : ℕ) (body : List ℕ)
    → read_frame (sealed (address ∷ control ∷ body)) ≡ (
        if (deserialize_header address control).1
        then record ((deserialize_header address control).0) { payload = body }
        else (deserialize_header address control).0)
unfolding read_frame
read_frame-sealed address control body = rw contents
  where
    tail : List ℕ
    tail = trailer (address ∷ control ∷ body)

    contents :
        take (length (sealed (address ∷ control ∷ body)) - 6) ((body ++ tail) ++ 0x7e ∷ []) ≡ body
    contents =
        ap (λ n. take n ((body ++ tail) ++ 0x7e ∷ []))
          (omega (arith, length-sealed (address ∷ control ∷ body)))
        ∙ ap (take (length body)) (append_assoc body tail (0x7e ∷ []))
        ∙ take-append body (tail ++ 0x7e ∷ [])

-- A frame that the generator can send, in the form in which it is read back: the fields that its
-- type does not carry are empty. FRMR/CMDR is left out.
pub record IsSendable (f : HdlcFrame) : Type 0 where
  pub control : ℕ
  pub append : Bool
  pub supported : control_field f.frame_type f.s_seq f.r_seq ≡ some (control, append)
  pub no_cmdr : f.frame_type ≢ u_cmdr
  pub s_fits : f.s_seq < 8
  pub r_fits : f.r_seq < 8
  pub s_used : used_s_seq f.frame_type f.s_seq ≡ f.s_seq
  pub r_used : used_r_seq f.frame_type f.r_seq ≡ f.r_seq
  pub flag : f.pf ≡ pf_bits (is_pf f)
  pub no_payload : append ≡ false → f.payload ≡ []
  pub short : length f.payload ≤ 1018

-- A type whose payload is sent is one whose payload is read.
append-takes_payload :
    (t : FrameType) (s r control : ℕ) (append : Bool)
    → control_field t s r ≡ some (control, append)
    → append ≡ true
    → takes_payload t ≡ true
unfolding control_field
append-takes_payload i s r control append e h = refl
append-takes_payload u_ui s r control append e h = refl
append-takes_payload _ s r control append e h = ground arith

restore :
    (f : HdlcFrame) (takes append : Bool)
    → f.pf ≡ pf_bits (is_pf f)
    → (append ≡ false → f.payload ≡ [])
    → (append ≡ true → takes ≡ true)
    → (if takes
        then record f { pf = pf_bits (is_pf f); payload = if append then f.payload else [] }
        else record f { pf = pf_bits (is_pf f); payload = [] })
      ≡ f
restore f true true flag none_sent both = ground arith
restore f true false flag none_sent both = ground (arith, none_sent refl)
restore f false true flag none_sent both = absurd (cc (both refl))
restore f false false flag none_sent both = ground (arith, none_sent refl)

abbrev pub sent_message : (f : HdlcFrame) → IsSendable f → List ℕ
sent_message f s = message_of f s.control s.append

pub sent_message-IsBody : (f : HdlcFrame) (s : IsSendable f) → IsBody (sent_message f s)
sent_message-IsBody f s = ground (arith, s.short)

-- The frame in the sealed message.
pub read-serialize : (f : HdlcFrame) (s : IsSendable f) → read_frame (sealed (sent_message f s)) ≡ f
read-serialize f s =
    read_frame-sealed f.address (control_with_pf (is_pf f) s.control)
      (if s.append then f.payload else [])
    ∙ rw
        (deserialize-control_field f.frame_type (is_pf f) f.address f.s_seq f.r_seq s.control
          s.append s.no_cmdr s.s_fits s.r_fits s.s_used s.r_used s.supported)
        (restore f (takes_payload f.frame_type) s.append s.flag s.no_payload
          (append-takes_payload f.frame_type f.s_seq f.r_seq s.control s.append s.supported))

sealed_reads :
    (message : List ℕ)
    → IsBody message
    → deserialize_frame (sealed message) ≡ some (read_frame (sealed message))
sealed_reads message h =
    deserialize_frame-long (sealed message) (omega (arith, length-sealed message, h.0))

-- A sendable frame is serialised as its sealed message, and reading these bytes gives the frame
-- itself.
pub deserialize-serialize :
    (f : HdlcFrame) (s : IsSendable f)
    → (serialize_frame f ≡ some (sealed (sent_message f s)))
      × (deserialize_frame (sealed (sent_message f s)) ≡ some f)
deserialize-serialize f s = (
  serialize_frame-sealed f s.control s.append s.supported,
  sealed_reads (sent_message f s) (sent_message-IsBody f s) ∙ ap some (read-serialize f s),
)

snrm_header :
    (pf : Bool) (address : ℕ)
    → ((deserialize_header address (control_with_pf pf 0x83)).0.frame_type ≡ u_snrm)
      × ((deserialize_header address (control_with_pf pf 0x83)).1 ≡ false)
unfolding deserialize_header control_with_pf
snrm_header true address = (refl, refl)
snrm_header false address = (refl, refl)

-- A frame of type FRMR/CMDR is serialised, and its bytes are read as a frame of type SNRM.
pub cmdr_read_as_snrm :
    (f : HdlcFrame)
    → f.frame_type ≡ u_cmdr
    → (bytes : List ℕ) × (serialize_frame f ≡ some bytes)
      × (g : HdlcFrame) × (deserialize_frame bytes ≡ some g)
      × (g.frame_type ≡ u_snrm)
unfolding control_field
cmdr_read_as_snrm f e = (
  sealed (message_of f 0x83 false),
  serialize_frame-sealed f 0x83 false (rw e refl),
  read_frame (sealed (message_of f 0x83 false)),
  sealed_reads (message_of f 0x83 false) (omega arith, omega arith),
  ap (λ h. h.frame_type) (read_frame-sealed f.address (control_with_pf (is_pf f) 0x83) [])
      ∙ rw (snrm_header (is_pf f) f.address).1 (snrm_header (is_pf f) f.address).0,
)

-- A frame to be sent, and the bytes that precede it on the line.
pub record SentFrame : Type 0 where
  pub junk : List ℕ
  pub frame : HdlcFrame

pub record IsSentFrame (t : SentFrame) : Type 0 where
  pub no_flag : NoFlag t.junk
  pub short : length t.junk < 2047
  pub sendable : IsSendable t.frame

-- What the generator puts on the line, frame by frame; `none` if one of them cannot be serialised.
pub on_line : List SentFrame → Option (List ℕ)
on_line [] = some []
on_line (t ∷ ts) = serialize_frame t.frame >>= λ bytes.
    on_line ts >>= λ rest. some (t.junk ++ (escape_frame bytes ++ rest))

abbrev transmissions : (ts : List SentFrame) → All IsSentFrame ts → List Transmission
transmissions [] h = []
transmissions (t ∷ ts) h =
    record { junk = t.junk; message = sent_message t.frame h.0.sendable } ∷ transmissions ts h.1

transmissions-IsTransmission :
    (ts : List SentFrame) (h : All IsSentFrame ts) → All IsTransmission (transmissions ts h)
transmissions-IsTransmission [] h = tt
transmissions-IsTransmission (t ∷ ts) h = (
  record {
    no_flag = h.0.no_flag;
    short = h.0.short;
    body = sent_message-IsBody t.frame h.0.sendable;
  },
  transmissions-IsTransmission ts h.1,
)

on_line-line :
    (ts : List SentFrame) (h : All IsSentFrame ts) → on_line ts ≡ some (line (transmissions ts h))
unfolding on_line
on_line-line [] h = refl
on_line-line (t ∷ ts) h = rw ((deserialize-serialize t.frame h.0.sendable).0, on_line-line ts h.1)

module _ {S : Type 0} (interpret : List ℕ → HdlcFrame → Bool → S → S) where
  -- The owner is handed each frame, with its serialised bytes, as valid.
  pub owner_gets : List SentFrame → S → S
  owner_gets [] s = s
  owner_gets (t ∷ ts) s = elim (serialize_frame t.frame) [
    | none ↦ owner_gets ts s
    | some bytes ↦ owner_gets ts (interpret bytes t.frame false s)
  ]

  owner_gets-cons :
      (t : SentFrame) (ts : List SentFrame) (s : S) {bytes : List ℕ}
      → serialize_frame t.frame ≡ some bytes
      → owner_gets (t ∷ ts) s ≡ owner_gets ts (interpret bytes t.frame false s)
  unfolding owner_gets
  owner_gets-cons t ts s e = rw (e, owner_gets)

  owner_gets-deliver_all :
      (ts : List SentFrame) (h : All IsSentFrame ts) (s : S)
      → deliver_all interpret (transmissions ts h) s ≡ owner_gets ts s
  unfolding owner_gets
  owner_gets-deliver_all [] h s = refl
  owner_gets-deliver_all (t ∷ ts) h s =
      let sent = (deserialize-serialize t.frame h.0.sendable).0 in
      let read = read-serialize t.frame h.0.sendable in
      let raw = sealed (sent_message t.frame h.0.sendable) in
      ap (λ f. deliver_all interpret (transmissions ts h.1) (interpret raw f false s)) read
      ∙ owner_gets-deliver_all ts h.1 (interpret raw t.frame false s)
      ∙ sym (owner_gets-cons t ts s sent)

  -- Every list of sendable frames can be put on the line, and a fresh parser hands its owner exactly
  -- these frames: each once, in order, marked valid and with its serialised bytes, whatever bytes
  -- without delimiter (fewer than 2047) stand before each frame and however the line is cut into
  -- reads.
  pub frames_round_trip :
      (ts : List SentFrame) (s : S) (cut : List ℕ → List (List ℕ))
      → All IsSentFrame ts
      → ((bytes : List ℕ) → joined (cut bytes) ≡ bytes)
      → (bytes : List ℕ) × (on_line ts ≡ some bytes)
        × (feed interpret reset s (cut bytes) ≡ some (reset, owner_gets ts s))
  frames_round_trip ts s cut h cuts =
      let bytes = line (transmissions ts h) in
      (
        bytes,
        on_line-line ts h,
        feed-line interpret (transmissions ts h) s (cut bytes) (transmissions-IsTransmission ts h)
              (cuts bytes)
            ∙ ap (λ t. some (reset, t)) (owner_gets-deliver_all ts h s),
      )
