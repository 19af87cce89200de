-- ===== src/Ports.antt =====
-- src/SerialPort/SerialPortHandlerCollection.{h,cpp}: the serial ports in use, by their names.
pub mod Lookup
pub mod Sharing
use hdlcd.Base.{
  ℕ, ◌+◌, Bool, true, false, ◌&&◌, ◌==◌, List, [], ◌∷◌, Option, none, some, if◌then◌else◌,
}
use hdlcd.Serial.{Entry, Handler, new_handler}
use hdlcd.Serial.Operations.{add_client, start_handler}

unfoldable pub same_name : List ℕ → List ℕ → Bool
same_name [] [] = true
same_name [] (y ∷ ys) = false
same_name (x ∷ xs) [] = false
same_name (x ∷ xs) (y ∷ ys) = (x == y) && same_name xs ys

-- An element of the map: the weak pointer to the stopper of a handler. The number stands for the
-- address of the handler; `held` tells whether the weak pointer can be locked.
pub record Slot : Type 0 where
  pub name : List ℕ
  pub number : ℕ
  pub handler : Handler
  pub held : Bool

pub record Ports : Type 0 where
  pub slots : List Slot
  pub next_number : ℕ

abbrev pub new_ports : Ports
new_ports = record { slots = []; next_number = 0 }

-- The map: what operator[] finds, and what an assignment to it leaves.
unfoldable pub find_slot : List ℕ → List Slot → Option Slot
find_slot name [] = none
find_slot name (s ∷ slots) =
    let rest = find_slot name slots in if same_name name s.name then some s else rest

unfoldable pub put_slot : Slot → List Slot → List Slot
put_slot slot [] = slot ∷ []
put_slot slot (s ∷ slots) =
    let rest = put_slot slot slots in if same_name slot.name s.name then slot ∷ slots else s ∷ rest

-- DeregisterSerialPortHandler
unfoldable pub deregister_port_handler : ℕ → List Slot → List Slot
deregister_port_handler number [] = []
deregister_port_handler number (s ∷ slots) =
    let rest = deregister_port_handler number slots in
    if s.held && (s.number == number) then slots else s ∷ rest

-- A weak pointer that cannot be locked is as good as none.
abbrev pub locked_slot : Option Slot → Option Slot
locked_slot none = none
locked_slot (some s) = if s.held then some s else none

-- GetSerialPortHandler by what the map holds. A handler that cannot be started deregisters itself.
unfoldable pub get_from : (opens : Bool) → List ℕ → Entry → Ports → Option Slot → Ports × Option ℕ
unfolding put_slot deregister_port_handler add_client start_handler new_handler
get_from opens name e ports (some s) = (
  record ports { slots = put_slot (record s { handler = add_client e s.handler }) ports.slots },
  some s.number,
)
get_from opens name e ports none =
    let (handler, started) = start_handler opens (add_client e new_handler) in
    let slot : Slot = record {
      name = name;
      number = ports.next_number;
      handler = handler;
      held = true;
    } in
    let slots = put_slot slot ports.slots in
    let next_number = ports.next_number + 1 in
    if started
    then (record { slots = slots; next_number = next_number }, some ports.next_number)
    else (
      record { slots = deregister_port_handler ports.next_number slots; next_number = next_number },
      none,
    )

unfoldable pub get_serial_port_handler : (opens : Bool) → List ℕ → Entry → Ports → Ports × Option ℕ
unfolding get_from find_slot
get_serial_port_handler opens name e ports =
    get_from opens name e ports (locked_slot (find_slot name ports.slots))
