-- ===== src/Client/Session.antt =====
-- HdlcdServerHandler.cpp: the session header, and what a session of its kind is sent.
use hdlcd.Base.{
  ℕ, ◌<◌, ◌≡◌, ◌⊎◌, refl, ap, ◌∙◌, inl, inr, Bool, true, false, not, ◌||◌, ◌&&◌, ◌==◌, ◌/◌, ◌%◌,
  ==_iff, all_below_sound, ltb, List, [], ◌∷◌, Option, none, some, arith, if◌then◌else◌, Bool-cases,
  all_below,
}
use hdlcd.Lock.{same_bool}
use hdlcd.Hdlc.ProtocolState.{
  BufferType, buffer_type_raw, buffer_type_dissected, buffer_type_payload, buffer_type_port_status,
}
use hdlcd.Client.{
  shutdown_frame_endpoint, close_frame_endpoint, deregister_handler, buffer_type_value, same_type,
  SessionHeader, get_port, send_data, Client, demand, call,
}
use hdlcd.Client.Sound.{IsSound, retyped-IsSound}
use hdlcd.Client.Operations.{
  deliver_buffer_to_client, session_type, Answer, Message, port_state, port_buffer, obtained,
  updated_by, with_port, update_serial_port_state, close_endpoint, on_frame, open_session, attach,
  stop, bit_is_set,
}

abbrev pub flag : ℕ → ℕ → Bool
flag sap place = sap / place % 2 == 1

-- The specifiers that the daemon knows: five kinds of session and three flags.
abbrev pub is_known : ℕ → Bool
is_known sap = ltb (sap / 16) 5 && not (flag sap 8)

-- The kind of buffer of the session whose specifier has this upper half.
abbrev pub kind : ℕ → BufferType
kind half =
    if half == 1
    then buffer_type_port_status
    else if half == 3
    then buffer_type_raw
    else if half == 4
    then buffer_type_dissected
    else buffer_type_payload

-- Whether a session of this specifier is sent such a buffer.
abbrev pub wants : ℕ → BufferType → (invalid was_sent : Bool) → Bool
wants sap type invalid was_sent =
    same_type type (some (kind (sap / 16)))
    && ((if was_sent then flag sap 2 else flag sap 1) && (not invalid || flag sap 4))

abbrev value : Option BufferType → ℕ
value none = 4
value (some type) = buffer_type_value type

value-injective : (o p : Option BufferType) → value o ≡ value p → o ≡ p
value-injective o p e = ground arith

abbrev expected : ℕ → Option BufferType
expected sap = if ltb (sap / 16) 5 then some (kind (sap / 16)) else none

-- The reading of a specifier, against the one by division.
abbrev agrees : ℕ → Bool
agrees sap =
    (value (session_type sap) == value (expected sap))
    && ((same_bool (bit_is_set sap 0x08) (flag sap 8)
          && same_bool (bit_is_set sap 0x04) (flag sap 4))
        && (same_bool (bit_is_set sap 0x02) (flag sap 2)
            && same_bool (bit_is_set sap 0x01) (flag sap 1)))

agrees_table : all_below 256 agrees ≡ true
unfolding all_below session_type
agrees_table = refl

same_bool_sound : (a b : Bool) → same_bool a b ≡ true → a ≡ b
same_bool_sound a b e = ground arith

and_true : (a b : Bool) → (a && b) ≡ true → (a ≡ true) × (b ≡ true)
and_true a b e = ground arith

negated : (b : Bool) → not b ≡ true → b ≡ false
negated b e = ground arith

all_agree :
    (sap : ℕ)
    → sap < 256
    → (session_type sap ≡ expected sap)
      × (bit_is_set sap 0x08 ≡ flag sap 8)
      × (bit_is_set sap 0x04 ≡ flag sap 4)
      × (bit_is_set sap 0x02 ≡ flag sap 2)
      × (bit_is_set sap 0x01 ≡ flag sap 1)
all_agree sap small =
    let (types, flags) = and_true _ _ (all_below_sound 256 agrees sap agrees_table small) in
    let (high, low) = and_true _ _ flags in
    let (reserved, invalid) = and_true _ _ high in
    let (sent, rcvd) = and_true _ _ low in
    (
      value-injective _ _ ((==_iff (value (session_type sap)) (value (expected sap))).0 types),
      same_bool_sound _ _ reserved,
      same_bool_sound _ _ invalid,
      same_bool_sound _ _ sent,
      same_bool_sound _ _ rcvd,
    )

-- The members that say what the client is sent.
abbrev interest : Client → Option BufferType × Bool × Bool × Bool
interest c = (c.buffer_type, c.deliver_sent, c.deliver_rcvd, c.deliver_invalid_data)

update-interest :
    (alive : Bool) (n : ℕ) (c : Client) → interest (update_serial_port_state alive n c) ≡ interest c
unfolding update_serial_port_state
update-interest alive n c = ground arith

deliver-interest :
    (type : BufferType) (payload : List ℕ) (reliable invalid was_sent : Bool) (c : Client)
    → interest (deliver_buffer_to_client type payload reliable invalid was_sent c) ≡ interest c
unfolding deliver_buffer_to_client
deliver-interest type payload reliable invalid was_sent c = ground arith

updated_by-interest :
    (messages : List Message) (c : Client) → interest (updated_by messages c) ≡ interest c
unfolding updated_by
updated_by-interest [] c = refl
updated_by-interest (port_state alive n ∷ messages) c =
    updated_by-interest messages (update_serial_port_state alive n c) ∙ update-interest alive n c
updated_by-interest (port_buffer type payload reliable invalid was_sent ∷ messages) c =
    updated_by-interest messages (deliver_buffer_to_client type payload reliable invalid was_sent c)
    ∙ deliver-interest type payload reliable invalid was_sent c

obtained-interest :
    (messages : List Message) (alive : Bool) (n : ℕ) (c : Client)
    → interest (attach (obtained messages alive n) c) ≡ interest c
unfolding attach
obtained-interest messages alive n c =
    update-interest alive n (with_port (updated_by messages c)) ∙ updated_by-interest messages c

-- What a client of these members is sent.
delivers :
    (type : BufferType) (payload : List ℕ) (reliable invalid was_sent : Bool) (c : Client)
    → (deliver_buffer_to_client type payload reliable invalid was_sent c).calls ≡ (
        if same_type type c.buffer_type
          && ((if was_sent then c.deliver_sent else c.deliver_rcvd)
              && (not invalid || c.deliver_invalid_data))
        then send_data payload reliable invalid was_sent ∷ c.calls
        else c.calls)
unfolding deliver_buffer_to_client
delivers type payload reliable invalid was_sent c = ground arith

abbrev pub session_header : ℕ → List ℕ → SessionHeader
session_header sap name = record { service_access_point_specifier = sap; serial_port_name = name }

-- The client that calls GetSerialPortHandler.
abbrev opened : ℕ → List ℕ → Client → Client
opened sap name c =
    call (get_port name) (record (demand (c.frame_endpoint && not c.packet_endpoint) c) {
      buffer_type = some (kind (sap / 16));
      deliver_invalid_data = flag sap 4;
      deliver_sent = flag sap 2;
      deliver_rcvd = flag sap 1;
      packet_endpoint = true;
      frame_endpoint = false;
    })

known_reads :
    (sap : ℕ)
    → sap < 256
    → is_known sap ≡ true
    → (session_type sap ≡ some (kind (sap / 16))) × (bit_is_set sap 0x08 ≡ false)
known_reads sap small known =
    let (types, reserved, _, _, _) = all_agree sap small in
    let (half, clear) = and_true _ _ known in
    (types ∙ ap (λ b. if b then some (kind (sap / 16)) else none) half, reserved ∙ negated _ clear)

known_opens :
    (sap : ℕ) (name : List ℕ) (answer : Answer) (c : Client)
    → sap < 256
    → is_known sap ≡ true
    → on_frame (some (session_header sap name)) answer c ≡ attach answer (opened sap name c)
unfolding on_frame open_session
known_opens sap name answer c small known =
    let (type, clear) = known_reads sap small known in
    let (_, _, invalid, sent, rcvd) = all_agree sap small in
    rw (type, clear, invalid, sent, rcvd) refl

-- Once OnFrame has read a session header with a known specifier and got a port, the client is sent a
-- buffer of its kind, once, if it was sent to the device and the flag 2 is set or was received and the
-- flag 1 is set, and an invalid one only if the flag 4 is set too. It is sent no other buffer.
pub session_is_filtered :
    (sap : ℕ) (name : List ℕ) (messages : List Message) (alive : Bool) (n : ℕ) (c : Client)
    (type : BufferType) (payload : List ℕ) (reliable invalid was_sent : Bool)
    → sap < 256
    → is_known sap ≡ true
    → let d = on_frame (some (session_header sap name)) (obtained messages alive n) c in
      (deliver_buffer_to_client type payload reliable invalid was_sent d).calls ≡ (
        if wants sap type invalid was_sent
        then send_data payload reliable invalid was_sent ∷ d.calls
        else d.calls)
session_is_filtered sap name messages alive n c type payload reliable invalid was_sent small known =
    let opens = known_opens sap name (obtained messages alive n) c small known in
    let e = attach (obtained messages alive n) (opened sap name c) in
    let told = obtained-interest messages alive n (opened sap name c) in
    rw opens (
      delivers type payload reliable invalid was_sent e
      ∙ ap
          (λ i.
            if same_type type i.0 && ((if was_sent then i.1 else i.2) && (not invalid || i.3))
            then send_data payload reliable invalid was_sent ∷ e.calls
            else e.calls)
          told)

reserved_if : (a b : Bool) → a ≡ true → (a && not b) ≡ false → b ≡ true
reserved_if a b e f = ground arith

unknown_reads :
    (sap : ℕ)
    → sap < 256
    → is_known sap ≡ false
    → (session_type sap ≡ none) ⊎ (bit_is_set sap 0x08 ≡ true)
unknown_reads sap small unknown =
    let (types, reserved, _, _, _) = all_agree sap small in
    elim (Bool-cases (ltb (sap / 16) 5)) [
      | inl half ↦ inr (reserved ∙ reserved_if (ltb (sap / 16) 5) (flag sap 8) half unknown)
      | inr half ↦ inl (types ∙ ap (λ b. if b then some (kind (sap / 16)) else none) half)
    ]

abbrev IsClosedAfter : Client → Client → Type 0
IsClosedAfter c d =
    (d.calls ≡ deregister_handler ∷ close_frame_endpoint ∷ shutdown_frame_endpoint ∷ c.calls)
    × (d.registered ≡ false)
    × (d.frame_endpoint ≡ false)
    × (d.packet_endpoint ≡ false)

stop-closes : (c : Client) → c.frame_endpoint ≡ true → IsSound c → IsClosedAfter c (stop c)
unfolding stop close_endpoint
stop-closes c f s = ground arith

open_session-closes :
    (sap : ℕ) (name : List ℕ) (answer : Answer) (o : Option BufferType) (c : Client)
    → (o ≡ none) ⊎ (bit_is_set sap 0x08 ≡ true)
    → c.frame_endpoint ≡ true
    → IsSound c
    → IsClosedAfter c (open_session sap name answer o c)
unfolding open_session
open_session-closes sap name answer none c _ f s = stop-closes c f s
open_session-closes sap name answer (some type) c (inl e) f s = absurd (cc e)
open_session-closes sap name answer (some type) c (inr e) f s =
    rw e (stop-closes (record c { buffer_type = some type }) f (retyped-IsSound c (some type) s))

-- A session header with any other specifier is rejected: the client closes its connection, leaves the
-- collection and asks for no port.
pub unknown_session_is_closed :
    (sap : ℕ) (name : List ℕ) (answer : Answer) (c : Client)
    → sap < 256
    → is_known sap ≡ false
    → c.frame_endpoint ≡ true
    → IsSound c
    → let d = on_frame (some (session_header sap name)) answer c in
      (d.calls ≡ deregister_handler ∷ close_frame_endpoint ∷ shutdown_frame_endpoint ∷ c.calls)
      × (d.registered ≡ false)
      × (d.frame_endpoint ≡ false)
      × (d.packet_endpoint ≡ false)
unfolding on_frame
unknown_session_is_closed sap name answer c small unknown f s =
    open_session-closes sap name answer (session_type sap)
      (demand (c.frame_endpoint && not c.packet_endpoint) c) (unknown_reads sap small unknown) f
      (ground arith)
