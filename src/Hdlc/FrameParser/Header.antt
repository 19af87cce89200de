-- ===== src/Hdlc/FrameParser/Header.antt =====
-- FrameGenerator.cpp and FrameParser.cpp: the control field there and back.
use mathlib.Core.Bool.{xor}
use hdlcd.Base.{
  ℕ, ◌<◌, ◌≡◌, ◌≢◌, refl, sym, ap, ◌∙◌, Bool, true, false, not, ◌&&◌, [], none, some, arith, ◌==◌,
  leb, if◌then◌else◌, all_below, all_below_sound,
}
use hdlcd.Hdlc.Frame.{
  FrameType, unset, i, s_rr, s_rnr, s_rej, s_srej, u_ui, u_sim, u_sarm, u_up, u_sabm, u_disc, u_ua,
  u_snrm, u_cmdr, u_test, u_xid, HdlcFrame, type_code, pf_bits,
}
use hdlcd.Hdlc.FrameGenerator.{control_field, control_with_pf}
use hdlcd.Hdlc.FrameParser.{deserialize_header}

type_of : ℕ → FrameType
type_of n =
    if n == 1
    then i
    else if n == 2
    then s_rr
    else if n == 3
    then s_rnr
    else if n == 4
    then s_rej
    else if n == 5
    then s_srej
    else if n == 6
    then u_ui
    else if n == 7
    then u_sim
    else if n == 8
    then u_sarm
    else if n == 9
    then u_up
    else if n == 10
    then u_sabm
    else if n == 11
    then u_disc
    else if n == 12
    then u_ua
    else if n == 13
    then u_snrm
    else if n == 14
    then u_cmdr
    else if n == 15
    then u_test
    else if n == 16
    then u_xid
    else unset

type_of-type_code : (t : FrameType) → type_of (type_code t) ≡ t
unfolding type_of
type_of-type_code unset = refl
type_of-type_code _ = refl

-- The enumeration gives different types different values.
pub type_code_injective : (t u : FrameType) → type_code t ≡ type_code u → t ≡ u
type_code_injective t u e = sym (type_of-type_code t) ∙ ap type_of e ∙ type_of-type_code u

-- Only an I-frame carries a send sequence number, and no U-frame a receive sequence number.
abbrev pub used_s_seq : FrameType → ℕ → ℕ
used_s_seq i s = s
used_s_seq _ s = 0

abbrev pub used_r_seq : FrameType → ℕ → ℕ
used_r_seq t r = if leb (type_code t) 5 then r else 0

-- The types whose payload the parser takes from the line.
abbrev pub takes_payload : FrameType → Bool
takes_payload i = true
takes_payload u_ui = true
takes_payload u_cmdr = true
takes_payload u_test = true
takes_payload u_xid = true
takes_payload _ = false

-- What the parser reads from a control byte, against what it should read.
same_header : FrameType → Bool → (s r : ℕ) → HdlcFrame × Bool → Bool
same_header t pf s r (h, takes) =
    (type_code h.frame_type == type_code t)
    && (h.pf == pf_bits pf)
    && (h.s_seq == s)
    && (h.r_seq == r)
    && not (xor takes (takes_payload t))

decodes : FrameType → Bool → ℕ → ℕ → Bool
unfolding same_header
decodes t pf s r = elim (control_field t (used_s_seq t s) (used_r_seq t r)) [
  | none ↦ true
  | some (control, append) ↦
      same_header t pf (used_s_seq t s) (used_r_seq t r)
        (deserialize_header 0 (control_with_pf pf control))
]

decodes_table :
    (t : FrameType) (pf : Bool)
    → t ≢ u_cmdr
    → all_below 8 (λ s. all_below 8 (λ r. decodes t pf s r)) ≡ true
unfolding all_below decodes control_field control_with_pf deserialize_header xor
decodes_table u_cmdr pf ne = absurd (ne refl)
decodes_table _ true ne = refl
decodes_table _ false ne = refl

decodes_all :
    (t : FrameType) (pf : Bool) (s r : ℕ) → t ≢ u_cmdr → s < 8 → r < 8 → decodes t pf s r ≡ true
decodes_all t pf s r ne hs hr =
    all_below_sound 8 (λ r. decodes t pf s r) r
      (all_below_sound 8 (λ s. all_below 8 (λ r. decodes t pf s r)) s (decodes_table t pf ne) hs) hr

deserialize_header-address :
    (address control : ℕ)
    → deserialize_header address control ≡ (
      record ((deserialize_header 0 control).0) { address = address },
      (deserialize_header 0 control).1,
    )
unfolding deserialize_header
deserialize_header-address address control = ground arith

deserialize_header-payload :
    (address control : ℕ) → (deserialize_header address control).0.payload ≡ []
unfolding deserialize_header
deserialize_header-payload address control = ground arith

-- What `same_header` says of the frame that was read.
same_header_sound :
    (t : FrameType) (pf : Bool) (s r : ℕ) (h : HdlcFrame) (takes : Bool)
    → same_header t pf s r (h, takes) ≡ true
    → (h.frame_type ≡ t)
      × (h.pf ≡ pf_bits pf)
      × (h.s_seq ≡ s)
      × (h.r_seq ≡ r)
      × (takes ≡ takes_payload t)
unfolding same_header xor
same_header_sound t pf s r h takes e = (
  type_code_injective h.frame_type t (ground arith),
  ground arith,
  ground arith,
  ground arith,
  ground arith,
)

decodes-some :
    (t : FrameType) (pf : Bool) (s r control : ℕ) (append : Bool)
    → used_s_seq t s ≡ s
    → used_r_seq t r ≡ r
    → control_field t s r ≡ some (control, append)
    → decodes t pf s r ≡ same_header t pf s r (deserialize_header 0 (control_with_pf pf control))
unfolding decodes
decodes-some t pf s r control append us ur e = rw (us, ur, e, decodes) (rw (us, ur))

-- The frame that the control field of `t` decodes to.
abbrev header : FrameType → Bool → (address s r : ℕ) → HdlcFrame
header t pf address s r = record {
  address = address;
  frame_type = t;
  pf = pf_bits pf;
  r_seq = r;
  s_seq = s;
  payload = [];
}

-- Every control field but that of FRMR/CMDR is read back as it was meant.
pub deserialize-control_field :
    (t : FrameType) (pf : Bool) (address s r control : ℕ) (append : Bool)
    → t ≢ u_cmdr
    → s < 8
    → r < 8
    → used_s_seq t s ≡ s
    → used_r_seq t r ≡ r
    → control_field t s r ≡ some (control, append)
    → deserialize_header address (control_with_pf pf control)
      ≡ (header t pf address s r, takes_payload t)
deserialize-control_field t pf address s r control append ne hs hr us ur e =
    deserialize_header-address address c ∙ ground (arith, facts, deserialize_header-payload 0 c)
  where
    c : ℕ
    c = control_with_pf pf control

    h : HdlcFrame × Bool
    h = deserialize_header 0 c

    checked : same_header t pf s r (deserialize_header 0 c) ≡ true
    checked = sym (decodes-some t pf s r control append us ur e) ∙ decodes_all t pf s r ne hs hr

    facts :
        (h.0.frame_type ≡ t)
        × (h.0.pf ≡ pf_bits pf)
        × (h.0.s_seq ≡ s)
        × (h.0.r_seq ≡ r)
        × (h.1 ≡ takes_payload t)
    facts = same_header_sound t pf s r h.0 h.1 checked
