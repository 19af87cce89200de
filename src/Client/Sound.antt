-- ===== src/Client/Sound.antt =====
-- HdlcdServerHandler.cpp: the invariant of a client that has been started, and the operations.
use hdlcd.Base.{
  ℕ, ◌≡◌, refl, inl, inr, Bool, true, false, not, ◌||◌, ◌&&◌, List, [], ◌∷◌, Option, none, some,
  arith, Bool-cases,
}
use hdlcd.Hdlc.ProtocolState.{BufferType}
use hdlcd.Lock.{acquire_lock, release_lock, update_lock_state, update_alive_state}
use hdlcd.Client.{
  Packet, Ctrl, SessionHeader, Call, register_handler, deregister_handler, get_port, Client,
  new_client, demand, call,
}
use hdlcd.Client.Operations.{
  deliver_buffer_to_client, update_serial_port_state, query_for_payload, start, stop, session_type,
  bit_is_set, Answer, obtained, refused, Message, port_state, port_buffer, updated_by, attach,
  open_session, on_frame, on_data_received, on_ctrl_received, close_endpoint, query_pending,
  set_lock,
}

-- Whether the collection lists the client, by its calls of Register and Deregister.
abbrev pub listed : List Call → Bool
listed [] = false
listed (register_handler ∷ calls) = true
listed (deregister_handler ∷ calls) = false
listed (_ ∷ calls) = listed calls

pub record IsSound (c : Client) : Type 0 where
  pub ok : c.failed ≡ false
  pub in_program : c.collection ≡ true
  pub frame : c.frame_endpoint ≡ (c.registered && not c.packet_endpoint)
  pub packet :
      c.packet_endpoint ≡ true
      → (c.registered ≡ true) × (c.serial_port_handler ≡ true) × (c.guard_attached ≡ true)
  pub unlocked :
      c.frame_endpoint ≡ true
      → (c.lock_guard.locked_by_self ≡ false) × (c.lock_guard.locked_by_others ≡ false)
  pub idle : c.awaits_packet ≡ true → c.pending ≡ none
  pub in_list : listed c.calls ≡ c.registered

pub start-IsSound : IsSound (start new_client)
unfolding start new_client
start-IsSound = record {
  ok = refl;
  in_program = refl;
  frame = refl;
  packet = λ p. absurd (cc p);
  unlocked = λ _. (refl, refl);
  idle = λ _. refl;
  in_list = refl;
}

pub deliver_buffer_to_client-IsSound :
    (type : BufferType) (payload : List ℕ) (reliable invalid was_sent : Bool) (c : Client)
    → c.packet_endpoint ≡ true
    → IsSound c
    → IsSound (deliver_buffer_to_client type payload reliable invalid was_sent c)
unfolding deliver_buffer_to_client
deliver_buffer_to_client-IsSound type payload reliable invalid was_sent c p s = ground arith

pub update-IsSound :
    (alive : Bool) (n : ℕ) (c : Client)
    → c.packet_endpoint ≡ true
    → IsSound c
    → IsSound (update_serial_port_state alive n c)
unfolding update_serial_port_state update_lock_state update_alive_state
update-IsSound alive n c p s = ground arith

pub stop-IsSound : (c : Client) → IsSound c → IsSound (stop c)
unfolding stop close_endpoint
stop-IsSound c s = ground arith

pub query_for_payload-IsSound :
    (query_reliable query_unreliable : Bool) (c : Client)
    → (query_reliable || query_unreliable) ≡ true
    → (c.registered ≡ true → c.packet_endpoint ≡ true)
    → IsSound c
    → IsSound (query_for_payload query_reliable query_unreliable c)
unfolding query_for_payload query_pending
query_for_payload-IsSound query_reliable query_unreliable c q p s = ground arith

pub on_data_received-IsSound :
    (packet : Packet) (c : Client)
    → c.packet_endpoint ≡ true
    → c.pending ≡ none
    → IsSound c
    → IsSound (on_data_received packet c).0
unfolding on_data_received
on_data_received-IsSound packet c p e s = ground arith

pub on_ctrl_received-IsSound :
    (ctrl : Ctrl) (c : Client)
    → c.packet_endpoint ≡ true
    → IsSound c
    → IsSound (on_ctrl_received ctrl c)
unfolding on_ctrl_received set_lock acquire_lock release_lock
on_ctrl_received-IsSound ctrl c p s = ground arith

-- While GetSerialPortHandler runs: the packet endpoint stands and the port is not known yet.
pub record IsOpening (c : Client) : Type 0 where
  pub ok : c.failed ≡ false
  pub in_program : c.collection ≡ true
  pub frame : c.frame_endpoint ≡ false
  pub packet : c.packet_endpoint ≡ true
  pub in_use : c.registered ≡ true
  pub self_unlocked : c.lock_guard.locked_by_self ≡ false
  pub others_unlocked : c.lock_guard.locked_by_others ≡ false
  pub idle : c.awaits_packet ≡ true → c.pending ≡ none
  pub in_list : listed c.calls ≡ c.registered

-- A port whose protocol runs is not locked: the calls that add the client to it report no holder.
abbrev pub AreUnlocked : List Message → Type 0
AreUnlocked [] = Unit
AreUnlocked (port_state alive lock_holders ∷ messages) = (lock_holders ≡ 0) × AreUnlocked messages
AreUnlocked (port_buffer type payload reliable invalid was_sent ∷ messages) = AreUnlocked messages

abbrev pub IsUnlocked : Answer → Type 0
IsUnlocked (obtained updates alive lock_holders) = AreUnlocked updates
IsUnlocked refused = Unit

update-IsOpening :
    (alive : Bool) (c : Client) → IsOpening c → IsOpening (update_serial_port_state alive 0 c)
unfolding update_serial_port_state update_lock_state update_alive_state
update-IsOpening alive c s = ground arith

deliver-IsOpening :
    (type : BufferType) (payload : List ℕ) (reliable invalid was_sent : Bool) (c : Client)
    → IsOpening c
    → IsOpening (deliver_buffer_to_client type payload reliable invalid was_sent c)
unfolding deliver_buffer_to_client
deliver-IsOpening type payload reliable invalid was_sent c s = ground arith

updated_by-IsOpening :
    (messages : List Message) (c : Client)
    → AreUnlocked messages
    → IsOpening c
    → IsOpening (updated_by messages c)
unfolding updated_by
updated_by-IsOpening [] c _ s = s
updated_by-IsOpening (port_state alive lock_holders ∷ messages) c (e, u) s =
    updated_by-IsOpening messages (update_serial_port_state alive lock_holders c) u
      (rw e (update-IsOpening alive c s))
updated_by-IsOpening (port_buffer type payload reliable invalid was_sent ∷ messages) c u s =
    updated_by-IsOpening messages
      (deliver_buffer_to_client type payload reliable invalid was_sent c) u
      (deliver-IsOpening type payload reliable invalid was_sent c s)

close-IsSound : (c : Client) → IsOpening c → IsSound (stop c)
unfolding stop close_endpoint
close-IsSound c s = ground arith

attached-IsSound :
    (c : Client) (alive : Bool) (n : ℕ) → IsOpening c → IsSound (attach (obtained [] alive n) c)
unfolding attach updated_by update_serial_port_state update_lock_state update_alive_state
attached-IsSound c alive n s = ground arith

attach-IsSound :
    (answer : Answer) (c : Client) → IsUnlocked answer → IsOpening c → IsSound (attach answer c)
unfolding attach updated_by
attach-IsSound refused c u s = close-IsSound c s
attach-IsSound (obtained updates alive n) c u s =
    attached-IsSound (updated_by updates c) alive n (updated_by-IsOpening updates c u s)

-- The client before the session header is read.
opened-IsOpening :
    (c : Client) (type : BufferType) (sap : ℕ) (name : List ℕ)
    → c.frame_endpoint ≡ true
    → IsSound c
    → IsOpening (
        call (get_port name) (record c {
          buffer_type = some type;
          deliver_invalid_data = bit_is_set sap 0x04;
          deliver_sent = bit_is_set sap 0x02;
          deliver_rcvd = bit_is_set sap 0x01;
          packet_endpoint = true;
          frame_endpoint = false;
        }))
opened-IsOpening c type sap name f s = ground arith

pub retyped-IsSound :
    (c : Client) (o : Option BufferType) → IsSound c → IsSound (record c { buffer_type = o })
retyped-IsSound c o s = ground arith

open_session-IsSound :
    (sap : ℕ) (name : List ℕ) (answer : Answer) (o : Option BufferType) (c : Client)
    → IsUnlocked answer
    → c.frame_endpoint ≡ true
    → IsSound c
    → IsSound (open_session sap name answer o c)
unfolding open_session
open_session-IsSound sap name answer none c u f s = stop-IsSound c s
open_session-IsSound sap name answer (some type) c u f s = elim (Bool-cases (bit_is_set sap 0x08)) [
  | inl reserved ↦
      rw reserved
        (stop-IsSound (record c { buffer_type = some type }) (retyped-IsSound c (some type) s))
  | inr fine ↦ rw fine (attach-IsSound answer _ u (opened-IsOpening c type sap name f s))
]

pub on_frame-IsSound :
    (header : SessionHeader) (answer : Answer) (c : Client)
    → IsUnlocked answer
    → c.frame_endpoint ≡ true
    → IsSound c
    → IsSound (on_frame (some header) answer c)
unfolding on_frame
on_frame-IsSound header answer c u f s =
    let sap = header.service_access_point_specifier in
    open_session-IsSound sap header.serial_port_name answer (session_type sap)
      (demand (c.frame_endpoint && not c.packet_endpoint) c) u f (ground arith)
