-- ===== src/SerialTests.antt =====
-- Runs of the models of src/SerialPort/SerialPortHandler.cpp.
use hdlcd.Base.{
  ◌<◌, Bool, ◌≡◌, ◌↔◌, ◌==◌, ◌+◌, refl, true, false, [], ◌∷◌, none, some, arith, length,
}
use hdlcd.Hdlc.ProtocolState.{buffer_type_payload, Protocol}
use hdlcd.Serial.{Entry, Handler, cancel_port, close_port, deregister_port, stop_client, live}
use hdlcd.Serial.{get_baud_rate, new_handler, subscribe, subscribe_all}
use hdlcd.Serial.Operations.{
  for_each_client, propagate_in, propagate_state, deliver_to_clients, change_baud_rate, do_write,
  do_read, transmit_frame, query_clients, perform, perform_all, drive_protocol, drive, add_client,
  open_serial_port, start_handler, suspend_port, on_written, cancel_and_close,
}
use hdlcd.Hdlc.ProtocolState.{
  deliver_required, prepare_i_frame, prepare_s_frame_srej, prepare_u_frame_ui,
}
use hdlcd.Hdlc.ProtocolState.Transmit.{
  choose_probe, choose_srej, choose_rr, choose_ui, query_payload, choose_i, choose_alive, transmit,
  send_chosen, opportunity_for_transmission,
}
use hdlcd.Hdlc.ProtocolState.Operations.{
  reset, initial, stop, on_callback, on_callbacks, start, trigger_next_hdlc_frame,
}
use hdlcd.Hdlc.AliveState
use hdlcd.Hdlc.FrameGenerator.{
  control_field, control_with_pf, apply_fcs, serialize_frame, escape_byte, escape_bytes,
  escape_frame,
}
use hdlcd.Hdlc.Fcs16.{fcstab, fcs_entry, fcs_step, pppfcs16}
use hdlcd.Lock.{suspend_serial_port}
use hdlcd.Hdlc.Frame.Dissect.{
  digit, digits_onto, show_dec, show_hex, show_hex_two, dissect_header, dissect_payload, dissect,
}
use hdlcd.Serial.Operations.{
  done, requires_buffer_type, stop_handler, resume_port, is_running, call_each,
}
use hdlcd.Serial.Counting.{count}
use hdlcd.Serial.Reachable.{
  first_start, IsReachableHandler, first_client, and_then, write_step, suspend_step,
  port_never_fails, one_frame_at_a_time, reachable-Fits,
}
use hdlcd.Serial.Subscribers.{subscribers_are_counted}
use hdlcd.Serial.Writing.{HasWritten, wire, write_parts, frame_is_written}
use hdlcd.Serial.Searching.{baud_rate, other_rate, probe_expiries, rates_are_searched}
use hdlcd.Hdlc.AliveState.{probing}
use hdlcd.Serial.Ending.{stop_is_final, stop_while_locked_throws}
use hdlcd.Serial.Leftover.{locked_write_is_left_over}
use hdlcd.Serial.Tuning.{port_rate}

abbrev entry : Entry
entry = record { client = 1; type = buffer_type_payload; expired = false }

-- A port that has been opened for its first client and writes the first frame.
abbrev port : Handler
port = first_start true entry

port-IsReachableHandler : IsReachableHandler port
port-IsReachableHandler = first_client true entry

-- The frame is written, and a client takes a lock.
abbrev quiet_port : Handler
quiet_port = on_written (done 6) port

abbrev locked_port : Handler
locked_port = suspend_port quiet_port

port-facts :
    (port.writing ≡ true)
    × (port.registered ≡ true)
    × (port.collection ≡ true)
    × (port.nbr_of_locks ≡ 0)
    × (port.send_buffer_offset ≡ 0)
    × (length port.send_buffer ≡ 6)
    × (length port.clients ≡ 1)
    × (port.port_open ≡ true)
    × (port_rate port.calls ≡ some (baud_rate port))
unfolding get_baud_rate new_handler subscribe subscribe_all for_each_client propagate_in
    propagate_state deliver_to_clients change_baud_rate do_write do_read transmit_frame
    query_clients perform perform_all drive_protocol drive add_client open_serial_port start_handler
    suspend_port on_written cancel_and_close deliver_required prepare_i_frame prepare_s_frame_srej
    prepare_u_frame_ui choose_probe choose_srej choose_rr choose_ui query_payload choose_i
    choose_alive transmit send_chosen opportunity_for_transmission reset initial stop on_callback
    on_callbacks start trigger_next_hdlc_frame AliveState.reset AliveState.initial AliveState.start
    AliveState.stop AliveState.probe_timeout_in AliveState.on_probe_timeout control_field
    control_with_pf apply_fcs serialize_frame escape_byte escape_bytes escape_frame fcstab fcs_entry
    fcs_step pppfcs16 suspend_serial_port digit digits_onto show_dec show_hex show_hex_two
    dissect_header dissect_payload dissect
port-facts = (refl, refl, refl, refl, refl, refl, refl, refl, refl)

quiet_port-facts : (quiet_port.writing ≡ false) × (quiet_port.nbr_of_locks ≡ 0)
unfolding get_baud_rate new_handler subscribe subscribe_all for_each_client propagate_in
    propagate_state deliver_to_clients change_baud_rate do_write do_read transmit_frame
    query_clients perform perform_all drive_protocol drive add_client open_serial_port start_handler
    suspend_port on_written cancel_and_close deliver_required prepare_i_frame prepare_s_frame_srej
    prepare_u_frame_ui choose_probe choose_srej choose_rr choose_ui query_payload choose_i
    choose_alive transmit send_chosen opportunity_for_transmission reset initial stop on_callback
    on_callbacks start trigger_next_hdlc_frame AliveState.reset AliveState.initial AliveState.start
    AliveState.stop AliveState.probe_timeout_in AliveState.on_probe_timeout control_field
    control_with_pf apply_fcs serialize_frame escape_byte escape_bytes escape_frame fcstab fcs_entry
    fcs_step pppfcs16 suspend_serial_port digit digits_onto show_dec show_hex show_hex_two
    dissect_header dissect_payload dissect
quiet_port-facts = (refl, refl)

locked_port-facts :
    (locked_port.registered ≡ true)
    × (locked_port.collection ≡ true)
    × (locked_port.nbr_of_locks ≡ 1)
unfolding get_baud_rate new_handler subscribe subscribe_all for_each_client propagate_in
    propagate_state deliver_to_clients change_baud_rate do_write do_read transmit_frame
    query_clients perform perform_all drive_protocol drive add_client open_serial_port start_handler
    suspend_port on_written cancel_and_close deliver_required prepare_i_frame prepare_s_frame_srej
    prepare_u_frame_ui choose_probe choose_srej choose_rr choose_ui query_payload choose_i
    choose_alive transmit send_chosen opportunity_for_transmission reset initial stop on_callback
    on_callbacks start trigger_next_hdlc_frame AliveState.reset AliveState.initial AliveState.start
    AliveState.stop AliveState.probe_timeout_in AliveState.on_probe_timeout control_field
    control_with_pf apply_fcs serialize_frame escape_byte escape_bytes escape_frame fcstab fcs_entry
    fcs_step pppfcs16 suspend_serial_port digit digits_onto show_dec show_hex show_hex_two
    dissect_header dissect_payload dissect
locked_port-facts = (refl, refl, refl)

locked_port-IsReachableHandler : IsReachableHandler locked_port
locked_port-IsReachableHandler =
    and_then (and_then port-IsReachableHandler (write_step (done 6) port port-facts.0))
      (suspend_step quiet_port (λ _. omega (arith, quiet_port-facts.1)) (λ _. quiet_port-facts.0))

port_never_fails_example :
    (locked_port.failed ≡ false)
    × (locked_port.registered ≡ true
        → (locked_port.port_open ≡ (locked_port.nbr_of_locks == 0))
          × (is_running locked_port.protocol ≡ (locked_port.nbr_of_locks == 0)))
    × (locked_port.registered ≡ false → is_running locked_port.protocol ≡ false)
port_never_fails_example = port_never_fails locked_port locked_port-IsReachableHandler

abbrev port_protocol : Protocol
port_protocol = (reachable-Fits port port-IsReachableHandler).0

one_frame_at_a_time_example :
    (port.writing ≡ true → (port_protocol.awaits_next_hdlc_frame ≡ false) × (port.nbr_of_locks ≡ 0))
    × (port.writing ≡ false → port.send_buffer_offset ≡ 0)
one_frame_at_a_time_example =
    one_frame_at_a_time port port_protocol port-IsReachableHandler
      (reachable-Fits port port-IsReachableHandler).1.has port-facts.1

subscribers_are_counted_example :
    (port.subscribers buffer_type_payload ≡ count buffer_type_payload port.clients)
    × ((requires_buffer_type port buffer_type_payload ≡ true)
        ↔ (0 < count buffer_type_payload port.clients))
subscribers_are_counted_example =
    subscribers_are_counted port buffer_type_payload port-IsReachableHandler
      (omega (arith, port-facts.6))

frame_is_written_example :
    let h = transmit_frame (0x7e ∷ 1 ∷ 2 ∷ 3 ∷ 4 ∷ 0x7e ∷ []) new_handler in
    (wire (2 ∷ 4 ∷ []) h ≡ 0x7e ∷ 1 ∷ 2 ∷ 3 ∷ 4 ∷ 0x7e ∷ [])
    × ((k : Handler) × HasWritten h k
        × (write_parts (2 ∷ 4 ∷ []) h ≡ drive (trigger_next_hdlc_frame (requires_buffer_type k)) k))
    × (h.failed ≡ new_handler.failed)
unfolding new_handler
frame_is_written_example =
    frame_is_written (2 ∷ 4 ∷ []) (0x7e ∷ 1 ∷ 2 ∷ 3 ∷ 4 ∷ 0x7e ∷ []) new_handler refl refl
      (omega arith) (omega arith, (omega arith, tt)) refl

stop_is_final_example :
    let k = stop_handler port in
    (k.registered ≡ false)
    × (k.port_open ≡ false)
    × (k.calls
        ≡ call_each
            (λ client. stop_client client)
            (live port.clients)
            (deregister_port ∷ close_port ∷ cancel_port ∷ port.calls))
    × (stop_handler k ≡ k)
    × (suspend_port k ≡ k)
    × ((opens : Bool) → resume_port opens k ≡ k)
stop_is_final_example =
    stop_is_final port port_protocol port-facts.1 port-facts.7
      (reachable-Fits port port-IsReachableHandler).1.has port-facts.2

stop_while_locked_throws_example :
    let k = stop_handler locked_port in
    (k.failed ≡ true) × (k.registered ≡ false) × (k.calls ≡ cancel_port ∷ locked_port.calls)
stop_while_locked_throws_example =
    stop_while_locked_throws locked_port locked_port-IsReachableHandler locked_port-facts.0
      (omega (arith, locked_port-facts.2))

-- A port that has been locked while it wrote.
abbrev half_written : Handler
half_written = record new_handler {
  protocol = some initial;
  send_buffer = 1 ∷ 2 ∷ 3 ∷ [];
  nbr_of_locks = 1;
  writing = true;
}

locked_write_is_left_over_example :
    let k = on_written (done 2) half_written in
    (k.send_buffer_offset ≡ half_written.send_buffer_offset + 2)
    × (k.failed ≡ half_written.failed)
    × ((resume_port true k).failed ≡ true)
unfolding new_handler initial
locked_write_is_left_over_example =
    locked_write_is_left_over 2 half_written initial refl refl refl refl (omega arith) (omega arith)

-- The protocol of the port once it has started.
abbrev probing_protocol : Protocol
probing_protocol = elim port.protocol [ none ↦ initial | some p ↦ p ]

probing_protocol-facts :
    (port.protocol ≡ some probing_protocol)
    × (probing_protocol.alive.state ≡ probing)
    × (probing_protocol.alive.probe_timer ≡ true)
    × (probing_protocol.alive.probe_counter ≡ 0)
unfolding get_baud_rate new_handler subscribe subscribe_all for_each_client propagate_in
    propagate_state deliver_to_clients change_baud_rate do_write do_read transmit_frame
    query_clients perform perform_all drive_protocol drive add_client open_serial_port start_handler
    suspend_port on_written cancel_and_close deliver_required prepare_i_frame prepare_s_frame_srej
    prepare_u_frame_ui choose_probe choose_srej choose_rr choose_ui query_payload choose_i
    choose_alive transmit send_chosen opportunity_for_transmission reset initial stop on_callback
    on_callbacks start trigger_next_hdlc_frame AliveState.reset AliveState.initial AliveState.start
    AliveState.stop AliveState.probe_timeout_in AliveState.on_probe_timeout control_field
    control_with_pf apply_fcs serialize_frame escape_byte escape_bytes escape_frame fcstab fcs_entry
    fcs_step pppfcs16 suspend_serial_port digit digits_onto show_dec show_hex show_hex_two
    dissect_header dissect_payload dissect
probing_protocol-facts = (refl, refl, refl, refl)

rates_are_searched_example :
    (port_rate (probe_expiries 4 port).calls ≡ some (other_rate (baud_rate port)))
    × (port_rate (probe_expiries 8 port).calls ≡ some (baud_rate port))
    × (baud_rate (probe_expiries 4 port) ≡ other_rate (baud_rate port))
    × (baud_rate (probe_expiries 8 port) ≡ baud_rate port)
    × ((probe_expiries 8 port).failed ≡ false)
rates_are_searched_example =
    rates_are_searched port probing_protocol port-IsReachableHandler port-facts.1
      probing_protocol-facts.0 probing_protocol-facts.1 probing_protocol-facts.2
      (omega (arith, probing_protocol-facts.3)) port-facts.8
