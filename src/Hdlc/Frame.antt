-- ===== src/Hdlc/Frame.antt =====
-- src/SerialPort/HDLC/HdlcFrame.h: the frame with its accessors. Setters are record updates.
pub mod Dissect
use hdlcd.Base.{ℕ, bit_and, Bool, true, false, not, ◌&&◌, List, [], ◌∷◌, ◌==◌, leb, if◌then◌else◌}

-- E_HDLC_FRAMETYPE, in the order of the source.
pub data FrameType : Type 0 where
  unset : FrameType
  i : FrameType
  s_rr s_rnr s_rej s_srej : FrameType
  u_ui u_sim u_sarm u_up u_sabm u_disc u_ua u_snrm u_cmdr u_test u_xid : FrameType

-- The value that the enumeration gives to each type, which the accessors compare.
abbrev pub type_code : FrameType → ℕ
type_code unset = 0
type_code i = 1
type_code s_rr = 2
type_code s_rnr = 3
type_code s_rej = 4
type_code s_srej = 5
type_code u_ui = 6
type_code u_sim = 7
type_code u_sarm = 8
type_code u_up = 9
type_code u_sabm = 10
type_code u_disc = 11
type_code u_ua = 12
type_code u_snrm = 13
type_code u_cmdr = 14
type_code u_test = 15
type_code u_xid = 16

pub record HdlcFrame : Type 0 where
  pub address : ℕ
  pub frame_type : FrameType
  pub pf : ℕ
  pub r_seq : ℕ
  pub s_seq : ℕ
  pub payload : List ℕ

-- The constructor. It leaves `m_Address` indeterminate; 0 stands for that value here, and every
-- caller sets the address before it is read.
abbrev pub empty_frame : HdlcFrame
empty_frame = record { address = 0; frame_type = unset; pf = 0; r_seq = 0; s_seq = 0; payload = [] }

-- SetPF and IsPF.
abbrev pub pf_bits : Bool → ℕ
pf_bits a_pf = if a_pf then 0x10 else 0

abbrev pub is_pf : HdlcFrame → Bool
is_pf f = not (bit_and f.pf 0x10 == 0)

abbrev pub is_empty : HdlcFrame → Bool
is_empty f = type_code f.frame_type == 0

abbrev pub is_i_frame : HdlcFrame → Bool
is_i_frame f = type_code f.frame_type == 1

abbrev pub is_s_frame : HdlcFrame → Bool
is_s_frame f = leb 2 (type_code f.frame_type) && leb (type_code f.frame_type) 5

abbrev pub is_u_frame : HdlcFrame → Bool
is_u_frame f = leb 6 (type_code f.frame_type) && leb (type_code f.frame_type) 16

abbrev pub has_payload : HdlcFrame → Bool
has_payload f = payload_present f.payload
  where
    payload_present : List ℕ → Bool
    payload_present [] = false
    payload_present (x ∷ xs) = true
