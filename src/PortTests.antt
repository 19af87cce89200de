-- ===== src/PortTests.antt =====
-- Runs of the model of src/SerialPort/SerialPortHandlerCollection.cpp.
use hdlcd.Base.{ℕ, List, ◌≡◌, refl, true, false, [], ◌∷◌, some, none}
use hdlcd.Hdlc.ProtocolState.{buffer_type_payload, buffer_type_raw}
use hdlcd.Serial.{Entry}
use hdlcd.Serial.Operations.{start_handler, open_serial_port}
use hdlcd.Ports.{
  Ports, new_ports, same_name, find_slot, locked_slot, put_slot, get_from, get_serial_port_handler,
}
use hdlcd.Ports.Sharing.{
  IsSharedAt, port_is_shared, get_step, no_ports, one_more, failed_port_is_forgotten,
}

abbrev first_entry : Entry
first_entry = record { client = 1; type = buffer_type_payload; expired = false }

abbrev second_entry : Entry
second_entry = record { client = 2; type = buffer_type_raw; expired = false }

abbrev tty : List ℕ
tty = 0x74 ∷ 0x74 ∷ 0x79 ∷ []

abbrev other_tty : List ℕ
other_tty = 0x74 ∷ 0x74 ∷ []

abbrev one_port : Ports
one_port = (get_serial_port_handler true tty first_entry new_ports).0

first-number : (get_serial_port_handler true tty first_entry new_ports).1 ≡ some 0
unfolding get_serial_port_handler get_from start_handler open_serial_port
first-number = refl

port_is_shared_example :
    IsSharedAt tty second_entry 0 one_port (get_serial_port_handler false tty second_entry one_port)
port_is_shared_example =
    port_is_shared true false tty first_entry second_entry new_ports 0 first-number

other-missing : locked_slot (find_slot other_tty one_port.slots) ≡ none
unfolding get_serial_port_handler get_from find_slot put_slot same_name start_handler
    open_serial_port
other-missing = refl

failed_port_is_forgotten_example :
    ((get_serial_port_handler false other_tty second_entry one_port).1 ≡ none)
    × (find_slot other_tty (get_serial_port_handler false other_tty second_entry one_port).0.slots
        ≡ none)
failed_port_is_forgotten_example =
    failed_port_is_forgotten other_tty second_entry one_port
      (one_more no_ports (get_step true tty first_entry new_ports)) other-missing
