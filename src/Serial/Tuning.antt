-- ===== src/Serial/Tuning.antt =====
-- SerialPortHandler.cpp: the baud rate that the port has been set to.
use hdlcd.Base.{
  ℕ, ◌≡◌, refl, ◌∙◌, Bool, true, false, not, ◌&&◌, ◌||◌, List, [], ◌∷◌, Option, none, some,
  if◌then◌else◌,
}
use hdlcd.Hdlc.AliveState.{is_alive}
use hdlcd.Hdlc.ProtocolState
use hdlcd.Hdlc.ProtocolState.{
  Protocol, Action, deliver_buffer_to_clients, propagate_serial_port_state, transmit_hdlc_frame,
  query_for_payload, empty,
}
use hdlcd.Hdlc.ProtocolState.Operations.{alive_probe_timer_expired}
use hdlcd.Serial.{
  get_baud_rate, PortCall, set_baud_rate, update_client, deliver_to_client, query_client, Entry,
  Handler, demand, live, some_expired,
}
use hdlcd.Serial.Operations.{
  call_each, for_each_client, propagate_in, propagate_state, deliver_to_clients, change_baud_rate,
  do_write, transmit_frame, query_clients, perform, perform_all, requires_buffer_type, drive,
  drive_protocol, on_alive_probe_timer,
}

-- The rate of the last set_option.
abbrev pub port_rate : List PortCall → Option ℕ
port_rate [] = none
port_rate (set_baud_rate rate ∷ calls) = some rate
port_rate (other ∷ calls) = port_rate calls

-- The port has the rate of GetBaudRate.
abbrev pub IsTuned : Handler → Type 0
IsTuned h = port_rate h.calls ≡ some (get_baud_rate h.current_baudrate_index)

-- A call of a client is no set_option.
abbrev IsQuiet : (ℕ → PortCall) → Type 0
IsQuiet f = (client : ℕ) (calls : List PortCall) → port_rate (f client ∷ calls) ≡ port_rate calls

call_each-port_rate :
    (f : ℕ → PortCall) (q : IsQuiet f) (es : List Entry) (calls : List PortCall)
    → port_rate (call_each f es calls) ≡ port_rate calls
call_each-port_rate f q [] calls = refl
call_each-port_rate f q (e ∷ es) calls =
    call_each-port_rate f q es (f e.client ∷ calls) ∙ q e.client calls

IsTuned-if : (b : Bool) (x y : Handler) → IsTuned x → IsTuned y → IsTuned (if b then x else y)
IsTuned-if true x y hx hy = hx
IsTuned-if false x y hx hy = hy

for_each_client-IsTuned :
    (f : ℕ → PortCall) (q : IsQuiet f) (h : Handler) → IsTuned h → IsTuned (for_each_client f h)
unfolding for_each_client
for_each_client-IsTuned f q h t =
    let told = call_each-port_rate f q (live h.clients) h.calls ∙ t in
    IsTuned-if (not h.cyclic_call_guard && some_expired h.clients) _ _ told told

propagate_in-IsTuned : (o : Option Protocol) (h : Handler) → IsTuned h → IsTuned (propagate_in o h)
unfolding propagate_in
propagate_in-IsTuned none h t =
    for_each_client-IsTuned (λ client. update_client client false h.nbr_of_locks) (λ _ _. refl)
      (demand (empty (live h.clients)) h) t
propagate_in-IsTuned (some p) h t =
    for_each_client-IsTuned (λ client. update_client client (is_alive p.alive) h.nbr_of_locks)
      (λ _ _. refl) h t

change_baud_rate-IsTuned : (h : Handler) → IsTuned h → IsTuned (change_baud_rate h)
unfolding change_baud_rate
change_baud_rate-IsTuned h t = IsTuned-if h.registered _ h refl t

perform-IsTuned : (a : Action) (h : Handler) → IsTuned h → IsTuned (perform a h)
unfolding perform deliver_to_clients query_clients propagate_state transmit_frame do_write
perform-IsTuned (deliver_buffer_to_clients type payload reliable invalid was_sent) h t =
    for_each_client-IsTuned
      (λ client. deliver_to_client client type payload reliable invalid was_sent) (λ _ _. refl) h t
perform-IsTuned ProtocolState.change_baud_rate h t = change_baud_rate-IsTuned h t
perform-IsTuned propagate_serial_port_state h t = propagate_in-IsTuned h.protocol h t
perform-IsTuned (transmit_hdlc_frame bytes) h t = t
perform-IsTuned (query_for_payload reliable unreliable) h t =
    for_each_client-IsTuned (λ client. query_client client reliable unreliable) (λ _ _. refl) h t

perform_all-IsTuned :
    (actions : List Action) (h : Handler) → IsTuned h → IsTuned (perform_all actions h)
unfolding perform_all
perform_all-IsTuned [] h t = t
perform_all-IsTuned (a ∷ actions) h t =
    perform_all-IsTuned actions (perform a h) (perform-IsTuned a h t)

-- Whatever the protocol is asked to do, the port follows GetBaudRate.
pub drive-IsTuned :
    (operation : Protocol → Protocol) (h : Handler) → IsTuned h → IsTuned (drive operation h)
unfolding drive drive_protocol
drive-IsTuned operation h t = driven h.protocol
  where
    driven : (o : Option Protocol) → IsTuned (drive_protocol operation o h)
    driven none = t
    driven (some p) =
        let q = operation (record p { emitted = [] }) in
        perform_all-IsTuned q.emitted
          (record h { protocol = some q; failed = h.failed || q.failed }) t

pub probe_timer-IsTuned : (h : Handler) → IsTuned h → IsTuned (on_alive_probe_timer h)
unfolding on_alive_probe_timer
probe_timer-IsTuned h t = drive-IsTuned (alive_probe_timer_expired (requires_buffer_type h)) h t
