-- ===== src/Ports/Sharing.antt =====
-- SerialPortHandlerCollection.cpp: clients that name the same port share its handler.
use hdlcd.Base.{
  ℕ, ◌+◌, ◌≡◌, refl, sym, ap, subst, ◌∙◌, Bool, true, false, List, ◌∷◌, ◌++◌, Option, none, some,
  if◌then◌else◌, arith,
}
use hdlcd.Serial.{Entry, new_handler}
use hdlcd.Serial.Operations.{add_client, start_handler}
use hdlcd.Ports.{
  Slot, Ports, new_ports, find_slot, put_slot, deregister_port_handler, locked_slot, get_from,
  get_serial_port_handler,
}
use hdlcd.Ports.Lookup.{
  on_true, find_slot-put_slot, slot_of, found-name, AreKeyed, forgotten, AreKeyed-put_slot,
  AreKeyed-deregister, AreKeyed-weaken, find_slot-old, expired_slot-AreKeyed,
}

-- What the map holds after a call that returned a handler.
abbrev Holds : List ℕ → ℕ → List Slot → Type 0
Holds name number slots =
    (s : Slot) × (find_slot name slots ≡ some s) × (s.held ≡ true) × (s.number ≡ number)

number_of : (m n : ℕ) → some m ≡ some n → m ≡ n
number_of m n e = ap (λ o. elim o [ none ↦ m | some x ↦ x ]) e

held-if :
    (b : Bool) (t s : Slot)
    → b ≡ t.held
    → (if b then some t else none) ≡ some s
    → (some t ≡ some s) × (s.held ≡ true)
held-if true t s same e = (e, sym (ap (λ x. x.held) (slot_of t s e)) ∙ sym same)
held-if false t s same e = absurd (cc e)

locked-found :
    (o : Option Slot) (s : Slot) → locked_slot o ≡ some s → (o ≡ some s) × (s.held ≡ true)
locked-found none s e = absurd (cc e)
locked-found (some t) s e = held-if t.held t s refl e

get_from-Holds :
    (opens : Bool) (name : List ℕ) (e : Entry) (ports : Ports) (o : Option Slot) (number : ℕ)
    → locked_slot (find_slot name ports.slots) ≡ o
    → (get_from opens name e ports o).1 ≡ some number
    → Holds name number (get_from opens name e ports o).0.slots
unfolding get_from
get_from-Holds opens name e ports (some s) number found got =
    let (here, held) = locked-found (find_slot name ports.slots) s found in
    let slot = record s { handler = add_client e s.handler } in
    (
      slot,
      ap (λ n. find_slot n (put_slot slot ports.slots)) (found-name name ports.slots s here)
          ∙ find_slot-put_slot slot ports.slots,
      held,
      number_of s.number number got,
    )
get_from-Holds true name e ports none number found got =
    let slot : Slot = record {
      name = name;
      number = ports.next_number;
      handler = (start_handler true (add_client e new_handler)).0;
      held = true;
    } in
    (slot, find_slot-put_slot slot ports.slots, refl, number_of ports.next_number number got)
get_from-Holds false name e ports none number found got = absurd (cc got)

-- What a call does while the map holds the port.
abbrev pub IsSharedAt : List ℕ → Entry → ℕ → Ports → Ports × Option ℕ → Type 0
IsSharedAt name e number ports (after, result) =
    (result ≡ some number)
    × (after.next_number ≡ ports.next_number)
    × ((s : Slot) × (find_slot name ports.slots ≡ some s)
        × (find_slot name after.slots ≡ some (record s { handler = add_client e s.handler })))

get-IsSharedAt :
    (opens : Bool) (name : List ℕ) (e : Entry) (ports : Ports) (number : ℕ)
    → Holds name number ports.slots
    → IsSharedAt name e number ports (get_serial_port_handler opens name e ports)
unfolding get_serial_port_handler get_from
get-IsSharedAt opens name e ports number (s, here, held, same) =
    let live : locked_slot (find_slot name ports.slots) ≡ some s =
      ap locked_slot here ∙ on_true s.held (some s) none held in
    let slot = record s { handler = add_client e s.handler } in
    (
      ap (λ o. (get_from opens name e ports o).1) live ∙ ap some same,
      ap (λ o. (get_from opens name e ports o).0.next_number) live,
      (
        s,
        here,
        ap (λ o. find_slot name (get_from opens name e ports o).0.slots) live
            ∙ ap (λ n. find_slot n (put_slot slot ports.slots)) (found-name name ports.slots s here)
            ∙ find_slot-put_slot slot ports.slots,
      ),
    )

-- A client that asks for a serial port by a name that another client has just been given is given the
-- same handler, whether or not a new one could be started: none is created, and the client is added to
-- the handler in the map.
pub port_is_shared :
    (opens opens' : Bool) (name : List ℕ) (e e' : Entry) (ports : Ports) (number : ℕ)
    → let first = get_serial_port_handler opens name e ports in
      first.1 ≡ some number
      → IsSharedAt name e' number first.0 (get_serial_port_handler opens' name e' first.0)
unfolding get_serial_port_handler
port_is_shared opens opens' name e e' ports number got =
    get-IsSharedAt opens' name e' (get_serial_port_handler opens name e ports).0 number
      (get_from-Holds opens name e ports (locked_slot (find_slot name ports.slots)) number refl got)

-- A call of a client, a handler that deregisters, or a weak pointer that expires.
pub data PortsStep : Ports → Ports → Type 0 where
  get_step :
      (opens : Bool) (name : List ℕ) (e : Entry) (ports : Ports)
      → PortsStep ports (get_serial_port_handler opens name e ports).0
  deregister_step :
      (number : ℕ) (ports : Ports)
      → PortsStep ports (record ports { slots = deregister_port_handler number ports.slots })
  expire_step :
      (before after : List Slot) (s : Slot) (ports : Ports)
      → ports.slots ≡ before ++ s ∷ after
      → PortsStep ports (record ports { slots = before ++ record s { held = false } ∷ after })

pub data AreReachablePorts : Ports → Type 0 where
  no_ports : AreReachablePorts new_ports
  one_more : {p q : Ports} → AreReachablePorts p → PortsStep p q → AreReachablePorts q

abbrev HasKeys : Ports → Type 0
HasKeys ports = AreKeyed ports.next_number ports.slots

get_from-HasKeys :
    (opens : Bool) (name : List ℕ) (e : Entry) (ports : Ports) (o : Option Slot)
    → locked_slot (find_slot name ports.slots) ≡ o
    → HasKeys ports
    → HasKeys (get_from opens name e ports o).0
unfolding get_from
get_from-HasKeys opens name e ports (some s) found k =
    let (here, held) = locked-found (find_slot name ports.slots) s found in
    AreKeyed-put_slot ports.next_number (record s { handler = add_client e s.handler }) ports.slots
      (find_slot-old name ports.slots ports.next_number s k here) k
get_from-HasKeys true name e ports none found k =
    let slot : Slot = record {
      name = name;
      number = ports.next_number;
      handler = (start_handler true (add_client e new_handler)).0;
      held = true;
    } in
    AreKeyed-put_slot (ports.next_number + 1) slot ports.slots (omega arith)
      (AreKeyed-weaken ports.slots ports.next_number k)
get_from-HasKeys false name e ports none found k =
    let slot : Slot = record {
      name = name;
      number = ports.next_number;
      handler = (start_handler false (add_client e new_handler)).0;
      held = true;
    } in
    AreKeyed-deregister (ports.next_number + 1) ports.next_number (put_slot slot ports.slots) (
      AreKeyed-put_slot (ports.next_number + 1) slot ports.slots (omega arith)
        (AreKeyed-weaken ports.slots ports.next_number k))

PortsStep-HasKeys : {p q : Ports} → PortsStep p q → HasKeys p → HasKeys q
unfolding get_serial_port_handler
PortsStep-HasKeys (get_step opens name e ports) k =
    get_from-HasKeys opens name e ports (locked_slot (find_slot name ports.slots)) refl k
PortsStep-HasKeys (deregister_step number ports) k =
    AreKeyed-deregister ports.next_number number ports.slots k
PortsStep-HasKeys (expire_step before after s ports same) k =
    expired_slot-AreKeyed ports.next_number before after s
      (subst (AreKeyed ports.next_number) same k)

reachable-HasKeys : (ports : Ports) → AreReachablePorts ports → HasKeys ports
reachable-HasKeys _ no_ports = tt
reachable-HasKeys _ (one_more {p = p} r step) = PortsStep-HasKeys step (reachable-HasKeys p r)

-- Whatever calls have been made before: if the map has no live handler of a name and the port cannot be
-- opened, the client is given nothing and the map is left without that name.
pub failed_port_is_forgotten :
    (name : List ℕ) (e : Entry) (ports : Ports)
    → AreReachablePorts ports
    → locked_slot (find_slot name ports.slots) ≡ none
    → let (after, result) = get_serial_port_handler false name e ports in
      (result ≡ none) × (find_slot name after.slots ≡ none)
unfolding get_serial_port_handler get_from
failed_port_is_forgotten name e ports reachable missing =
    let slot : Slot = record {
      name = name;
      number = ports.next_number;
      handler = (start_handler false (add_client e new_handler)).0;
      held = true;
    } in
    (
      ap (λ o. (get_from false name e ports o).1) missing,
      ap (λ o. find_slot name (get_from false name e ports o).0.slots) missing
          ∙ forgotten slot ports.slots refl (reachable-HasKeys ports reachable),
    )
