-- ===== src/Hdlc/FrameParser.antt =====
-- src/SerialPort/HDLC/FrameParser.cpp: frames out of the bytes that the serial port delivers.
-- The owner (`m_ProtocolState`) is a state of type `S` with its method InterpretDeserializedFrame.
-- `none` is a failed assertion or a read past the end of the buffer; `reserve` has no model.
pub mod Window
pub mod Close
pub mod Chunk
pub mod Total
pub mod Bytewise
pub mod Chunks
pub mod Delivery
pub mod Stream
pub mod Header
pub mod RoundTrip
pub mod Owner
use hdlcd.Base.{
  ℕ, zero, suc, ◌+◌, ◌-◌, ◌*◌, ◌/◌, ◌^◌, bit_and, bit_or, Bool, true, false, not, ◌||◌, List, [],
  ◌∷◌, ◌++◌, Option, none, some, ◌==◌, ltb, leb, if◌then◌else◌, length, get_or, take, drop, ◌>>=◌,
  ◌>>◌, guard,
}
use mathlib.Core.Option
use hdlcd.Hdlc.Fcs16.{pppfcs16, ppp_init_fcs16, ppp_good_fcs16}
use hdlcd.Hdlc.Frame.{
  FrameType, unset, i, s_rr, s_rnr, s_rej, s_srej, u_ui, u_sim, u_sarm, u_up, u_sabm, u_disc, u_ua,
  u_snrm, u_cmdr, u_test, u_xid, HdlcFrame, empty_frame, pf_bits,
}

abbrev pub max_length : ℕ
max_length = 1024

pub record Parser : Type 0 where
  pub buffer : List ℕ
  pub start_token_seen : Bool

-- Reset, which the constructor calls.
abbrev pub reset : Parser
reset = record { buffer = 0x7e ∷ []; start_token_seen = false }

-- The position of the first delimiter, as `memchr` finds it.
unfoldable pub memchr : List ℕ → Option ℕ
memchr [] = none
memchr (x ∷ xs) =
    if x == 0x7e then some 0 else (elim (memchr xs) [ none ↦ none | some n ↦ some (suc n) ])

-- The `switch` over the type bits of a U-frame, and whether the payload is appended.
unfoldable pub u_frame_type : ℕ → FrameType × Bool
u_frame_type code =
    if code == 0b00000
    then (u_ui, true)
    else if code == 0b00001
    then (u_sim, false)
    else if code == 0b00011
    then (u_sarm, false)
    else if code == 0b00100
    then (u_up, false)
    else if code == 0b00111
    then (u_sabm, false)
    else if code == 0b01000
    then (u_disc, false)
    else if code == 0b01100
    then (u_ua, false)
    else if code == 0b10000
    then (u_snrm, false)
    else if code == 0b10001
    then (u_cmdr, true)
    else if code == 0b11100
    then (u_test, true)
    else if code == 0b11101
    then (u_xid, true)
    else (unset, false)

unfoldable pub s_frame_type : ℕ → FrameType
s_frame_type code =
    if code == 0x00
    then s_rr
    else if code == 0x01
    then s_rnr
    else if code == 0x02
    then s_rej
    else s_srej

-- DeserializeFrame up to the payload: the header fields, and whether the payload is appended.
unfoldable pub deserialize_header : (address control : ℕ) → HdlcFrame × Bool
unfolding u_frame_type s_frame_type
deserialize_header address c =
    let start = record empty_frame {
      address = address;
      pf = pf_bits (not (bit_and c 0x10 / 2 ^ 4 == 0));
    } in
    if bit_and c 0x01 == 0
    then (
      record start {
        frame_type = i;
        s_seq = bit_and c 0x0e / 2 ^ 1;
        r_seq = bit_and c 0xe0 / 2 ^ 5;
      },
      true,
    )
    else if bit_and c 0x02 == 0x00
    then (
      record start {
        r_seq = bit_and c 0xe0 / 2 ^ 5;
        frame_type = s_frame_type (bit_and c 0x0c / 2 ^ 2);
      },
      false,
    )
    else let (type, append) =
        u_frame_type (bit_or (bit_and c 0x0c / 2 ^ 2) (bit_and c 0xe0 / 2 ^ 3)) in
      (record start { frame_type = type }, append)

-- The frame in a buffer that is long enough.
unfoldable pub read_frame : List ℕ → HdlcFrame
read_frame buffer =
    let (frame, append_payload) = deserialize_header (get_or buffer 1 0) (get_or buffer 2 0) in
    if append_payload
    then record frame { payload = take (length buffer - 6) (drop 3 buffer) }
    else frame

-- DeserializeFrame: the address and the control field are read, and a payload is what remains besides six
-- bytes. `none` is a read past the end or a payload of negative length.
unfoldable pub deserialize_frame : List ℕ → Option HdlcFrame
unfolding read_frame
deserialize_frame buffer = do
  guard (leb 3 (length buffer))
  guard
      (not (deserialize_header (get_or buffer 1 0) (get_or buffer 2 0)).1 || leb 6 (length buffer))
  some (read_frame buffer)

-- The character after an escape character: what it stands for, and whether it is invalid.
unfoldable pub unescape_byte : ℕ → ℕ × Bool
unescape_byte byte =
    if byte == 0x5e then (0x7e, false) else if byte == 0x5d then (0x7d, false) else (byte, true)

abbrev pub prepend : ℕ × Bool → List ℕ × Bool → List ℕ × Bool
prepend (byte, bad) (bytes, invalid) = (byte ∷ bytes, bad || invalid)

-- The loop that removes escape sequences: the new buffer, and whether some sequence was invalid.
-- An escape character at the end makes the loop read past the buffer, `none`.
unfoldable pub unescape : List ℕ → Option (List ℕ × Bool)
unfolding unescape_byte
unescape [] = some ([], false)
unescape (x ∷ []) = if x == 0x7d then none else some (x ∷ [], false)
unescape (x ∷ y ∷ rest) =
    let escaped = Option.map (prepend (unescape_byte y)) (unescape rest) in
    let plain = Option.map (prepend (x, false)) (unescape (y ∷ rest)) in
    if x == 0x7d then escaped else plain

abbrev pub back : List ℕ → ℕ
back buffer = get_or buffer (length buffer - 1) 0

-- `m_Buffer.resize(1)`; a missing first byte would be filled with 0.
abbrev pub resize_one : List ℕ → List ℕ
resize_one [] = 0 ∷ []
resize_one (x ∷ xs) = x ∷ []

-- Whether the check sequence over all bytes between the delimiters fails.
unfoldable pub fcs_fails : List ℕ → Bool
fcs_fails buffer =
    not (pppfcs16 ppp_init_fcs16 (take (length buffer - 2) (drop 1 buffer)) == ppp_good_fcs16)

module _ {S : Type 0} (interpret : List ℕ → HdlcFrame → Bool → S → S) where
  -- RemoveEscapeCharacters, once the escape sequences are gone: too short or too long frames are
  -- junk; all others are handed to the owner. The result is whether the frame was valid.
  unfoldable pub finish_frame : List ℕ → Bool → S → Option (Bool × S)
  unfolding deserialize_frame
  finish_frame buffer invalid s =
      if ltb (length buffer) 6 || ltb max_length (length buffer)
      then some (false, s)
      else let bad = if invalid then true else fcs_fails buffer in
        Option.map (λ frame. (not bad, interpret buffer frame bad s)) (deserialize_frame buffer)

  abbrev pub finish_with : S → List ℕ × Bool → Option (Bool × List ℕ × S)
  finish_with s (buffer, invalid) =
      Option.map (λ (valid, s'). (valid, buffer, s')) (finish_frame buffer invalid s)

  -- RemoveEscapeCharacters: whether the frame was valid, the buffer it leaves, and the owner.
  unfoldable pub remove_escape_characters : List ℕ → Bool → S → Option (Bool × List ℕ × S)
  unfolding finish_frame
  remove_escape_characters buffer start_token_seen s = do
    guard (get_or buffer 0 0 == 0x7e)
    guard (back buffer == 0x7e)
    guard (leb 2 (length buffer))
    guard start_token_seen
    if length buffer == 2
        then some (false, buffer, s)
        else if get_or buffer (length buffer - 2) 0 == 0x7d
        then finish_with s (buffer, true)
        else unescape buffer >>= finish_with s

  -- AddChunk: how many bytes it consumed, the parser and the owner.
  unfoldable pub add_chunk : Parser → S → List ℕ → Option (ℕ × Parser × S)
  add_chunk p s bytes = elim (memchr bytes) [
    | none ↦
        if not p.start_token_seen
        then some (length bytes, p, s)
        else if ltb (2 * max_length) (length p.buffer + length bytes)
        then some
            (length bytes, record { buffer = resize_one p.buffer; start_token_seen = false }, s)
        else some (length bytes, record p { buffer = p.buffer ++ bytes }, s)
    | some index ↦
        if not p.start_token_seen
        then some (index + 1, record p { start_token_seen = true }, s)
        else if leb (length p.buffer + (index + 1)) (2 * max_length)
        then Option.map
            (λ (valid, buffer, s').
              (index + 1, record { buffer = resize_one buffer; start_token_seen = not valid }, s'))
            (remove_escape_characters (p.buffer ++ take (index + 1) bytes) p.start_token_seen s)
        else some (index + 1, record p { buffer = resize_one p.buffer }, s)
  ]

  -- The loop of AddReceivedRawBytes; `none` also where the fuel runs out.
  unfoldable pub consume : ℕ → Parser → S → List ℕ → Option (Parser × S)
  consume fuel p s [] = some (p, s)
  consume zero p s (x ∷ xs) = none
  consume (suc fuel) p s (x ∷ xs) = do
    (consumed, p', s') ← add_chunk p s (x ∷ xs)
    consume fuel p' s' (drop consumed (x ∷ xs))

  -- AddReceivedRawBytes. Every chunk takes at least one byte, so the length is fuel enough.
  unfoldable pub add_received_raw_bytes : Parser → S → List ℕ → Option (Parser × S)
  unfolding consume add_chunk remove_escape_characters
  add_received_raw_bytes p s bytes = consume (length bytes) p s bytes
