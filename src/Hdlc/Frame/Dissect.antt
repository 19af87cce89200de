-- ===== src/Hdlc/Frame/Dissect.antt =====
-- src/SerialPort/HDLC/HdlcFrame.cpp: Dissect, the text that describes a frame, as its bytes.
use Prim.Native.Char.{code}
use Prim.Native.String.{String}
use hdlcd.Base.{
  ℕ, zero, suc, ◌+◌, ◌-◌, ◌/◌, ◌%◌, Bool, true, false, List, [], ◌∷◌, ◌++◌, ◌==◌, ltb,
  if◌then◌else◌, length,
}
use hdlcd.Hdlc.Frame.{
  FrameType, s_rr, s_rnr, s_rej, s_srej, u_ui, u_sim, u_sarm, u_up, u_sabm, u_disc, u_ua, u_snrm,
  u_cmdr, u_test, u_xid, HdlcFrame, is_pf, is_i_frame, is_s_frame, is_u_frame,
}

-- The bytes of an ASCII text.
abbrev pub codes : String → List ℕ
codes String.[] = []
codes (String.◌∷◌ c s) = code c ∷ codes s

unfoldable pub digit : ℕ → ℕ
digit d = if ltb d 10 then b'0' + d else b'a' + (d - 10)

-- An unsigned number in a base, most significant digit first. Every number has at most as many
-- digits as its value plus one.
unfoldable pub digits_onto : (base fuel n : ℕ) → List ℕ → List ℕ
unfolding digit
digits_onto base zero n rest = rest
digits_onto base (suc fuel) n rest =
    let out = digit (n % base) ∷ rest in
    let more = digits_onto base fuel (n / base) out in if n / base == 0 then out else more

-- `std::dec` and `std::hex`.
unfoldable pub show_dec : ℕ → List ℕ
unfolding digits_onto
show_dec n = digits_onto 10 (n + 1) n []

unfoldable pub show_hex : ℕ → List ℕ
unfolding digits_onto
show_hex n = digits_onto 16 (n + 1) n []

-- `std::hex << std::setw(2) << std::setfill('0')`.
unfoldable pub show_hex_two : ℕ → List ℕ
unfolding show_hex
show_hex_two n = let out = show_hex n in if ltb (length out) 2 then b'0' ∷ out else out

abbrev pub show_bool : Bool → List ℕ
show_bool true = codes "1"
show_bool false = codes "0"

-- The two `switch` statements over the type: its name, and whether a payload is shown.
abbrev pub s_name : FrameType → List ℕ
s_name s_rr = codes "RR"
s_name s_rnr = codes "RNR"
s_name s_rej = codes "REJ"
s_name s_srej = codes "SREJ"
s_name _ = []

abbrev pub u_name : FrameType → List ℕ × Bool
u_name u_ui = (codes "UI", true)
u_name u_sim = (codes "SIM", false)
u_name u_sarm = (codes "SARM", false)
u_name u_up = (codes "UP", false)
u_name u_sabm = (codes "SABM", false)
u_name u_disc = (codes "DISC", false)
u_name u_ua = (codes "UA", false)
u_name u_snrm = (codes "SNRM", false)
u_name u_cmdr = (codes "FRMR/CMDR", true)
u_name u_test = (codes "TEST", true)
u_name u_xid = (codes "XID", true)
u_name _ = ([], false)

abbrev pub intro : HdlcFrame → List ℕ
intro f = codes "HDLC frame, Addr=0x" ++ (show_hex f.address ++ codes ", ")

-- The text in front of the payload, and whether the payload is shown.
unfoldable pub dissect_header : HdlcFrame → List ℕ × Bool
unfolding show_dec show_hex
dissect_header f =
    if is_i_frame f
    then (
      intro f
          ++ (codes "I-Frame, PF="
              ++ (show_bool (is_pf f)
                  ++ (codes ", SSeq="
                      ++ (show_dec f.s_seq ++ (codes ", RSeq=" ++ show_dec f.r_seq))))),
      true,
    )
    else if is_s_frame f
    then (
      intro f
          ++ (codes "S-Frame: "
              ++ (s_name f.frame_type
                  ++ (codes ", PF="
                      ++ (show_bool (is_pf f) ++ (codes ", RSeq=" ++ show_dec f.r_seq))))),
      false,
    )
    else if is_u_frame f
    then (let (name, shown) = u_name f.frame_type in
        (intro f ++ (codes "U-Frame: " ++ (name ++ (codes ", PF=" ++ show_bool (is_pf f)))), shown))
    else (codes "Unparseable HDLC frame", false)

unfoldable pub dissect_payload : List ℕ → List ℕ
unfolding show_hex_two
dissect_payload [] = []
dissect_payload (x ∷ xs) = b' ' ∷ (show_hex_two x ++ dissect_payload xs)

unfoldable pub dissect : HdlcFrame → List ℕ
unfolding dissect_header dissect_payload show_dec
dissect f =
    let (text, shown) = dissect_header f in
    if shown
    then text
      ++ (codes ", with "
          ++ (show_dec (length f.payload)
              ++ (codes " bytes payload:" ++ dissect_payload f.payload)))
    else text
