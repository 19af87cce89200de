-- ===== src/Serial/Counting.antt =====
-- SerialPortHandler.cpp, ForEachHdlcdServerHandler and RequiresBufferType: the count, and the calls of the protocol.
use hdlcd.Base.{
  ℕ, ◌+◌, ◌%◌, ◌^◌, ◌≡◌, Bool, true, false, not, ◌&&◌, ◌==◌, List, [], ◌∷◌, ◌++◌, Option, none,
  some, arith, if◌then◌else◌,
}
use hdlcd.Hdlc.ProtocolState
use hdlcd.Hdlc.ProtocolState.{
  Protocol, BufferType, Action, deliver_buffer_to_clients, propagate_serial_port_state,
  transmit_hdlc_frame, query_for_payload,
}
use hdlcd.Client.{buffer_type_value}
use hdlcd.Serial.{Entry, PortCall, Handler, subscribe, subscribe_all, live, some_expired}
use hdlcd.Serial.Operations.{
  for_each_client, propagate_in, propagate_state, deliver_to_clients, change_baud_rate, do_write,
  transmit_frame, query_clients, perform, perform_all, drive_protocol, drive,
}
use hdlcd.Serial.Fit.{returned}

-- The entries of a type.
abbrev pub count : BufferType → List Entry → ℕ
count type [] = 0
count type (e ∷ es) =
    (if buffer_type_value type == buffer_type_value e.type then 1 else 0) + count type es

abbrev pub IsCounted : Handler → Type 0
IsCounted h = (type : BufferType) → h.subscribers type ≡ count type h.clients % 2 ^ 64

pub count-append :
    (type : BufferType) (es fs : List Entry) → count type (es ++ fs) ≡ count type es + count type fs
count-append type [] fs = omega arith
count-append type (e ∷ es) fs = omega (arith, count-append type es fs)

pub subscribe-count :
    (type other : BufferType) (subscribers : BufferType → ℕ) (n : ℕ)
    → subscribers other ≡ n % 2 ^ 64
    → subscribe type subscribers other
      ≡ (n + (if buffer_type_value other == buffer_type_value type then 1 else 0)) % 2 ^ 64
unfolding subscribe
subscribe-count type other subscribers n e = ground (arith, e)

pub subscribe_all-count :
    (es : List Entry) (other : BufferType) (subscribers : BufferType → ℕ) (n : ℕ)
    → subscribers other ≡ n % 2 ^ 64
    → subscribe_all es subscribers other ≡ (n + count other es) % 2 ^ 64
unfolding subscribe_all
subscribe_all-count [] other subscribers n e = omega (arith, e)
subscribe_all-count (e ∷ es) other subscribers n h = omega (
  arith,
  subscribe_all-count es other (subscribe e.type subscribers) _
      (subscribe-count e.type other subscribers n h),
)

pub if-IsCounted :
    (b : Bool) (x y : Handler) → IsCounted x → IsCounted y → IsCounted (if b then x else y)
if-IsCounted true x y hx hy = hx
if-IsCounted false x y hx hy = hy

pub for_each_client-IsCounted :
    (f : ℕ → PortCall) (h : Handler) → IsCounted h → IsCounted (for_each_client f h)
unfolding for_each_client
for_each_client-IsCounted f h c =
    if-IsCounted (not h.cyclic_call_guard && some_expired h.clients) _ _
      (λ type. omega (arith, subscribe_all-count (live h.clients) type (λ type. 0) 0 (omega arith)))
      c

propagate_in-IsCounted :
    (o : Option Protocol) (h : Handler) → IsCounted h → IsCounted (propagate_in o h)
unfolding propagate_in
propagate_in-IsCounted none h c = for_each_client-IsCounted _ _ c
propagate_in-IsCounted (some p) h c = for_each_client-IsCounted _ h c

pub propagate_state-IsCounted : (h : Handler) → IsCounted h → IsCounted (propagate_state h)
unfolding propagate_state
propagate_state-IsCounted h c = propagate_in-IsCounted h.protocol h c

perform-IsCounted : (a : Action) (h : Handler) → IsCounted h → IsCounted (perform a h)
unfolding perform deliver_to_clients change_baud_rate transmit_frame do_write query_clients
perform-IsCounted (deliver_buffer_to_clients type payload reliable invalid was_sent) h c =
    for_each_client-IsCounted _ h c
perform-IsCounted ProtocolState.change_baud_rate h c = if-IsCounted h.registered _ h c c
perform-IsCounted propagate_serial_port_state h c = propagate_state-IsCounted h c
perform-IsCounted (transmit_hdlc_frame bytes) h c = c
perform-IsCounted (query_for_payload reliable unreliable) h c = for_each_client-IsCounted _ h c

perform_all-IsCounted :
    (actions : List Action) (h : Handler) → IsCounted h → IsCounted (perform_all actions h)
unfolding perform_all
perform_all-IsCounted [] h c = c
perform_all-IsCounted (a ∷ actions) h c =
    perform_all-IsCounted actions (perform a h) (perform-IsCounted a h c)

drive_protocol-IsCounted :
    (operation : Protocol → Protocol) (o : Option Protocol) (h : Handler)
    → IsCounted h
    → IsCounted (drive_protocol operation o h)
unfolding drive_protocol
drive_protocol-IsCounted operation none h c = c
drive_protocol-IsCounted operation (some p) h c =
    let q = operation (record p { emitted = [] }) in
    perform_all-IsCounted q.emitted (returned h q) c

pub drive-IsCounted :
    (operation : Protocol → Protocol) (h : Handler) → IsCounted h → IsCounted (drive operation h)
unfolding drive
drive-IsCounted operation h c = drive_protocol-IsCounted operation h.protocol h c
