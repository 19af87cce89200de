-- ===== src/ClientTests.antt =====
-- Runs of the model of src/HdlcdServer/HdlcdServerHandler.cpp.
use hdlcd.Base.{◌≡◌, refl, true, false, [], ◌∷◌, ◌++◌, some, none, arith, if◌then◌else◌, ◌&&◌, not}
use hdlcd.Hdlc.ProtocolState.{buffer_type_payload, buffer_type_raw}
use hdlcd.Client.{
  Packet, SessionHeader, new_client, send_data, send_port_status, shutdown_frame_endpoint,
  close_frame_endpoint, deregister_handler,
}
use hdlcd.Client.Operations.{
  start, on_frame, open_session, session_type, attach, updated_by, on_data_received, obtained,
  Answer, port_state, port_buffer, refused, deliver_buffer_to_client, update_serial_port_state,
}
use hdlcd.Lock.{update_lock_state, update_alive_state}
use hdlcd.Client.Sound.{listed, start-IsSound}
use hdlcd.Client.Session.{wants, session_header, session_is_filtered, unknown_session_is_closed}
use hdlcd.Client.Status.{told, state_for, same_state}
use hdlcd.Client.Flow.{handed_over, waiting}
use hdlcd.Client.Reachable.{
  Session, new_session, IsReachableSession, connected, then_step, header_step, data_step, greeted,
  arrived, queried,
}
use hdlcd.Client.Guarantees.{
  client_never_fails, packets_pass_in_order, status_is_sent_on_change, query_moves_on,
}

-- A session of the kind of payload that wants what was received, and valid only.
abbrev greeting : SessionHeader
greeting = session_header 0x01 (0x74 ∷ 0x74 ∷ [])

abbrev first_packet : Packet
first_packet = record { payload = 1 ∷ 2 ∷ []; reliable = true }

abbrev second_packet : Packet
second_packet = record { payload = 3 ∷ []; reliable = false }

-- The port is new and shows its first probe.
abbrev answer : Answer
answer =
    obtained (port_buffer buffer_type_raw (0x7e ∷ []) false false true ∷ port_state false 0 ∷ [])
      true 0

abbrev greeted_session : Session
greeted_session = greeted greeting answer new_session

-- One packet is handed over at once, the second one waits.
abbrev busy_session : Session
busy_session = arrived second_packet (arrived first_packet greeted_session)

greeted_session-IsReachableSession : IsReachableSession greeted_session
unfolding start new_client
greeted_session-IsReachableSession =
    then_step connected (header_step greeting answer new_session (refl, tt) refl)

busy_session-IsReachableSession : IsReachableSession busy_session
unfolding start new_client on_frame open_session session_type attach updated_by
    deliver_buffer_to_client update_serial_port_state update_lock_state update_alive_state
    on_data_received
busy_session-IsReachableSession =
    then_step
      (then_step greeted_session-IsReachableSession
        (data_step first_packet greeted_session refl refl))
      (data_step second_packet (arrived first_packet greeted_session) refl refl)

session_is_filtered_example :
    let d = on_frame (some (session_header 0x01 [])) (obtained [] true 0) (start new_client) in
    (deliver_buffer_to_client buffer_type_payload (7 ∷ []) true false false d).calls ≡ (
      if wants 0x01 buffer_type_payload false false
      then send_data (7 ∷ []) true false false ∷ d.calls
      else d.calls)
session_is_filtered_example =
    session_is_filtered 0x01 [] [] true 0 (start new_client) buffer_type_payload (7 ∷ []) true false
      false (omega arith) refl

started-frame : (start new_client).frame_endpoint ≡ true
unfolding start new_client
started-frame = refl

busy_session-registered : busy_session.client.registered ≡ true
unfolding start new_client on_frame open_session session_type attach updated_by
    deliver_buffer_to_client update_serial_port_state update_lock_state update_alive_state
    on_data_received
busy_session-registered = refl

unknown_session_is_closed_example :
    let d = on_frame (some (session_header 0x59 [])) refused (start new_client) in
    (d.calls
      ≡ deregister_handler
        ∷ close_frame_endpoint
        ∷ shutdown_frame_endpoint
        ∷ (start new_client).calls)
    × (d.registered ≡ false)
    × (d.frame_endpoint ≡ false)
    × (d.packet_endpoint ≡ false)
unknown_session_is_closed_example =
    unknown_session_is_closed 0x59 [] refused (start new_client) (omega arith) refl started-frame
      start-IsSound

client_never_fails_example :
    let c = busy_session.client in
    (c.failed ≡ false)
    × (listed c.calls ≡ c.registered)
    × (c.frame_endpoint ≡ (c.registered && not c.packet_endpoint))
    × (c.packet_endpoint ≡ true → c.registered ≡ true)
client_never_fails_example = client_never_fails busy_session busy_session-IsReachableSession

-- A session that is to read raw payload only sends a packet.
abbrev reading_session : Session
reading_session = greeted (session_header 0x21 (0x74 ∷ [])) answer new_session

abbrev writing_session : Session
writing_session = arrived first_packet reading_session

writing_session-IsReachableSession : IsReachableSession writing_session
unfolding start new_client on_frame open_session session_type attach updated_by
    deliver_buffer_to_client update_serial_port_state update_lock_state update_alive_state
writing_session-IsReachableSession =
    then_step
      (then_step connected
        (header_step (session_header 0x21 (0x74 ∷ [])) answer new_session (refl, tt) refl))
      (data_step first_packet reading_session refl refl)

packets_pass_in_order_example :
    (handed_over writing_session.client.calls ++ waiting writing_session.client.pending
      ≡ first_packet ∷ [])
    × (writing_session.receiving ≡ true → writing_session.client.pending ≡ none)
packets_pass_in_order_example =
    packets_pass_in_order writing_session writing_session-IsReachableSession

status_is_sent_on_change_example :
    let now = state_for busy_session.client false 1 in
    (update_serial_port_state false 1 busy_session.client).calls ≡ (
      if same_state now (told busy_session.client.calls)
      then busy_session.client.calls
      else send_port_status now.0 now.1 now.2 ∷ busy_session.client.calls)
status_is_sent_on_change_example =
    status_is_sent_on_change busy_session false 1 busy_session-IsReachableSession

query_moves_on_example :
    let t = queried true true busy_session in
    (t.receiving ≡ true)
    × (handed_over t.client.calls
        ≡ handed_over busy_session.client.calls ++ waiting busy_session.client.pending)
    × (busy_session.client.pending ≡ none
        → let u = arrived first_packet t in
          (u.receiving ≡ true)
          × (handed_over u.client.calls ≡ busy_session.received ++ first_packet ∷ []))
query_moves_on_example =
    query_moves_on busy_session first_packet busy_session-IsReachableSession busy_session-registered
