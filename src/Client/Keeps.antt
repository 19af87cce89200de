-- ===== src/Client/Keeps.antt =====
-- HdlcdServerHandler.cpp, OnFrame: what each of its steps keeps, the whole keeps.
use hdlcd.Base.{
  ℕ, inl, inr, Bool, true, false, not, ◌&&◌, List, [], ◌∷◌, Option, none, some, Bool-cases,
}
use hdlcd.Hdlc.ProtocolState.{BufferType}
use hdlcd.Client.{
  Client, SessionHeader, demand, call, get_port, call_packet_endpoint, start_packet_endpoint,
}
use hdlcd.Client.Operations.{
  Message, port_state, port_buffer, deliver_buffer_to_client, update_serial_port_state, stop,
  updated_by, attach, obtained, refused, Answer, open_session, on_frame, session_type, bit_is_set,
  with_port,
}

-- The members that a session header sets.
abbrev pub opening : ℕ → Client → Client
opening sap c = record c {
  deliver_invalid_data = bit_is_set sap 0x04;
  deliver_sent = bit_is_set sap 0x02;
  deliver_rcvd = bit_is_set sap 0x01;
  packet_endpoint = true;
  frame_endpoint = false;
}

pub record IsKept (P : Client → Type 0) : Type 0 where
  pub by_demand : (ok : Bool) (c : Client) → P c → P (demand ok c)
  pub by_type : (type : Option BufferType) (c : Client) → P c → P (record c { buffer_type = type })
  pub by_opening :
      (sap : ℕ) (name : List ℕ) (c : Client) → P c → P (call (get_port name) (opening sap c))
  pub by_port : (c : Client) → P c → P (with_port c)
  pub by_start : (c : Client) → P c → P (call_packet_endpoint start_packet_endpoint c)
  pub by_update : (alive : Bool) (n : ℕ) (c : Client) → P c → P (update_serial_port_state alive n c)
  pub by_deliver :
      (type : BufferType) (payload : List ℕ) (reliable invalid was_sent : Bool) (c : Client)
      → P c
      → P (deliver_buffer_to_client type payload reliable invalid was_sent c)
  pub by_stop : (c : Client) → P c → P (stop c)

module _ (P : Client → Type 0) (k : IsKept P) where
  updated_by-keeps : (messages : List Message) (c : Client) → P c → P (updated_by messages c)
  unfolding updated_by
  updated_by-keeps [] c p = p
  updated_by-keeps (port_state alive n ∷ messages) c p =
      updated_by-keeps messages (update_serial_port_state alive n c) (k.by_update alive n c p)
  updated_by-keeps (port_buffer type payload reliable invalid was_sent ∷ messages) c p =
      updated_by-keeps messages (deliver_buffer_to_client type payload reliable invalid was_sent c)
        (k.by_deliver type payload reliable invalid was_sent c p)

  attach-keeps : (answer : Answer) (c : Client) → P c → P (attach answer c)
  unfolding attach
  attach-keeps refused c p = k.by_stop c p
  attach-keeps (obtained messages alive n) c p =
      let d = updated_by messages c in
      k.by_start (update_serial_port_state alive n (with_port d))
        (k.by_update alive n (with_port d) (k.by_port d (updated_by-keeps messages c p)))

  open_session-keeps :
      (sap : ℕ) (name : List ℕ) (answer : Answer) (o : Option BufferType) (c : Client)
      → P c
      → P (open_session sap name answer o c)
  unfolding open_session
  open_session-keeps sap name answer none c p = k.by_stop c p
  open_session-keeps sap name answer (some type) c p =
      let d = record c { buffer_type = some type } in
      elim (Bool-cases (bit_is_set sap 0x08)) [
        | inl reserved ↦ rw reserved (k.by_stop d (k.by_type (some type) c p))
        | inr fine ↦ rw fine (
            attach-keeps answer (call (get_port name) (opening sap d))
              (k.by_opening sap name d (k.by_type (some type) c p)))
      ]

  pub on_frame-keeps :
      (header : SessionHeader) (answer : Answer) (c : Client)
      → P c
      → P (on_frame (some header) answer c)
  unfolding on_frame
  on_frame-keeps header answer c p =
      let sap = header.service_access_point_specifier in
      let ok = c.frame_endpoint && not c.packet_endpoint in
      open_session-keeps sap header.serial_port_name answer (session_type sap) (demand ok c)
        (k.by_demand ok c p)
