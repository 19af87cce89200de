-- ===== src/Hdlc/FrameGenerator.antt =====
-- src/SerialPort/HDLC/FrameGenerator.cpp: a frame as bytes with its check sequence, and the escaping
-- of these bytes for the line. The calls of `reserve` only set a capacity and have no model.
pub mod Escape
use hdlcd.Base.{
  ℕ, ◌+◌, ◌-◌, ◌*◌, ◌/◌, ◌%◌, ◌^◌, bit_and, bit_or, bit_xor, Bool, true, false, List, [], ◌∷◌, ◌++◌,
  Option, none, some, ◌==◌, if◌then◌else◌, length, take, drop,
}
use hdlcd.Hdlc.Fcs16.{pppfcs16, ppp_init_fcs16}
use hdlcd.Hdlc.Frame.{
  FrameType, unset, i, s_rr, s_rnr, s_rej, s_srej, u_ui, u_sim, u_sarm, u_up, u_sabm, u_disc, u_ua,
  u_snrm, u_cmdr, u_test, u_xid, HdlcFrame, is_pf,
}

-- The `switch` of SerializeFrame: the control field with PF = 0, and whether the payload is
-- appended. `none` is a failed assertion.
unfoldable pub control_field : FrameType → (s_seq r_seq : ℕ) → Option (ℕ × Bool)
control_field i s r = some (bit_or (bit_and s 0x07 * 2 ^ 1) (bit_and r 0x07 * 2 ^ 5), true)
control_field s_rr s r = some (bit_or 0x01 (bit_and r 0x07 * 2 ^ 5), false)
control_field s_rnr s r = some (bit_or 0x05 (bit_and r 0x07 * 2 ^ 5), false)
control_field s_rej s r = some (bit_or 0x09 (bit_and r 0x07 * 2 ^ 5), false)
control_field s_srej s r = some (bit_or 0x0d (bit_and r 0x07 * 2 ^ 5), false)
control_field u_ui s r = some (0x03, true)
control_field u_sabm s r = some (0x2f, false)
control_field u_disc s r = some (0x43, false)
control_field u_ua s r = some (0x63, false)
control_field u_cmdr s r = some (0x83, false)
control_field u_test s r = some (0xe3, false)
control_field u_sim s r = none
control_field u_sarm s r = none
control_field u_up s r = none
control_field u_snrm s r = none
control_field u_xid s r = none
control_field unset s r = none

-- `l_ControlField |= 0x10`.
unfoldable pub control_with_pf : Bool → ℕ → ℕ
control_with_pf pf control = if pf then bit_or control 0x10 else control

unfoldable pub apply_fcs : List ℕ → List ℕ
apply_fcs frame =
    let trialfcs = bit_xor (pppfcs16 ppp_init_fcs16 (drop 1 frame)) 0xffff in
    frame ++ trialfcs % 2 ^ 8 ∷ trialfcs / 2 ^ 8 % 2 ^ 8 ∷ []

unfoldable pub serialize_frame : HdlcFrame → Option (List ℕ)
serialize_frame f = elim (control_field f.frame_type f.s_seq f.r_seq) [
  | none ↦ none
  | some (control, append_payload) ↦
      let body = if append_payload then f.payload else [] in
      some (apply_fcs (0x7e ∷ f.address ∷ control_with_pf (is_pf f) control ∷ body) ++ 0x7e ∷ [])
]

-- One byte in the loop of EscapeFrame.
unfoldable pub escape_byte : ℕ → List ℕ
escape_byte byte =
    if byte == 0x7d then 0x7d ∷ 0x5d ∷ [] else if byte == 0x7e then 0x7d ∷ 0x5e ∷ [] else byte ∷ []

unfoldable pub escape_bytes : List ℕ → List ℕ
escape_bytes [] = []
escape_bytes (byte ∷ bytes) = escape_byte byte ++ escape_bytes bytes

-- The loop runs from the second byte to the last but one; the delimiters are written afresh.
unfoldable pub escape_frame : List ℕ → List ℕ
escape_frame frame = 0x7e ∷ (escape_bytes (take (length frame - 2) (drop 1 frame)) ++ 0x7e ∷ [])
