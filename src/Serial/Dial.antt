-- ===== src/Serial/Dial.antt =====
-- SerialPortHandler.cpp: what the calls of the protocol do to the baud rate.
use hdlcd.Base.{
  ℕ, zero, suc, ◌+◌, ◌≡◌, refl, ap, subst, ◌∙◌, Bool, true, false, not, ◌&&◌, List, [], ◌∷◌, Option,
  none, some, arith, if◌then◌else◌,
}
use hdlcd.Hdlc.AliveState
use hdlcd.Hdlc.AliveState.{probing, Alive, is_alive, Callback}
use hdlcd.Hdlc.AliveState.Probing.{count_changes}
use hdlcd.Hdlc.ProtocolState
use hdlcd.Hdlc.ProtocolState.{
  Protocol, Action, deliver_buffer_to_clients, propagate_serial_port_state, transmit_hdlc_frame,
  query_for_payload, empty,
}
use hdlcd.Hdlc.ProtocolState.Operations.{alive_probe_timer_expired}
use hdlcd.Hdlc.ProtocolState.Untouched.{changes}
use hdlcd.Hdlc.ProtocolState.Rates.{alive_probe_timer_expired-rates}
use hdlcd.Serial.{
  toggle_baud_rate, PortCall, update_client, deliver_to_client, query_client, Handler, demand, live,
  some_expired,
}
use hdlcd.Serial.Operations.{
  for_each_client, propagate_state, propagate_in, deliver_to_clients, change_baud_rate, do_write,
  transmit_frame, query_clients, perform, perform_all, on_alive_probe_timer, requires_buffer_type,
}
use hdlcd.Serial.Fit.{cleared, returned, drive_as}

-- The members that decide the baud rate.
abbrev Dial : Type 0
Dial = Bool × ℕ × Option Protocol

abbrev dial : Handler → Dial
dial h = (h.registered, h.current_baudrate_index, h.protocol)

abbrev pub toggles : ℕ → ℕ → ℕ
toggles zero index = index
toggles (suc n) index = toggles n (toggle_baud_rate index)

pub toggles-add : (m n index : ℕ) → toggles n (toggles m index) ≡ toggles (m + n) index
toggles-add zero n index = let e : n ≡ 0 + n = omega arith in ap (λ m. toggles m index) e
toggles-add (suc m) n index =
    let e : suc (m + n) ≡ suc m + n = omega arith in
    toggles-add m n (toggle_baud_rate index) ∙ ap (λ k. toggles k index) e

dial-if :
    (b : Bool) (d : Dial) (x y : Handler) → dial x ≡ d → dial y ≡ d → dial (if b then x else y) ≡ d
dial-if true d x y hx hy = hx
dial-if false d x y hx hy = hy

for_each_client-dial : (f : ℕ → PortCall) (h : Handler) → dial (for_each_client f h) ≡ dial h
unfolding for_each_client
for_each_client-dial f h =
    dial-if (not h.cyclic_call_guard && some_expired h.clients) (dial h) _ _ refl refl

propagate_in-dial : (o : Option Protocol) (h : Handler) → dial (propagate_in o h) ≡ dial h
unfolding propagate_in
propagate_in-dial none h =
    for_each_client-dial (λ client. update_client client false h.nbr_of_locks)
      (demand (empty (live h.clients)) h)
propagate_in-dial (some p) h =
    for_each_client-dial (λ client. update_client client (is_alive p.alive) h.nbr_of_locks) h

change_baud_rate-dial :
    (h : Handler)
    → h.registered ≡ true
    → dial (change_baud_rate h)
      ≡ (h.registered, toggle_baud_rate h.current_baudrate_index, h.protocol)
unfolding change_baud_rate
change_baud_rate-dial h on = ground (arith, on)

-- One call of the protocol.
perform-dial :
    (a : Action) (h : Handler)
    → h.registered ≡ true
    → dial (perform a h)
      ≡ (h.registered, toggles (changes (a ∷ [])) h.current_baudrate_index, h.protocol)
unfolding perform deliver_to_clients query_clients propagate_state transmit_frame do_write
perform-dial (deliver_buffer_to_clients type payload reliable invalid was_sent) h on =
    for_each_client-dial (λ client. deliver_to_client client type payload reliable invalid was_sent)
      h
perform-dial ProtocolState.change_baud_rate h on = change_baud_rate-dial h on
perform-dial propagate_serial_port_state h on = propagate_in-dial h.protocol h
perform-dial (transmit_hdlc_frame bytes) h on = refl
perform-dial (query_for_payload reliable unreliable) h on =
    for_each_client-dial (λ client. query_client client reliable unreliable) h

changes_parts :
    (a : Action) (actions : List Action)
    → changes (a ∷ []) + changes actions ≡ changes (a ∷ actions)
changes_parts (deliver_buffer_to_clients type payload reliable invalid was_sent) actions =
    omega arith
changes_parts ProtocolState.change_baud_rate actions = omega arith
changes_parts propagate_serial_port_state actions = omega arith
changes_parts (transmit_hdlc_frame bytes) actions = omega arith
changes_parts (query_for_payload reliable unreliable) actions = omega arith

perform_all-dial :
    (actions : List Action) (h : Handler)
    → h.registered ≡ true
    → dial (perform_all actions h)
      ≡ (h.registered, toggles (changes actions) h.current_baudrate_index, h.protocol)
unfolding perform_all
perform_all-dial [] h on = refl
perform_all-dial (a ∷ actions) h on =
    let e = perform-dial a h on in
    let index = h.current_baudrate_index in
    perform_all-dial actions (perform a h) (ap (λ (d : Dial). d.0) e ∙ on)
    ∙ ap (λ (d : Dial). (d.0, toggles (changes actions) d.1, d.2)) e
    ∙ ap (λ n. (h.registered, n, h.protocol))
        (toggles-add (changes (a ∷ [])) (changes actions) index
          ∙ ap (λ n. toggles n index) (changes_parts a actions))

-- A registered handler, its protocol and what AliveState does next.
pub record IsSearching (h : Handler) (index : ℕ) (a : Alive) : Type 0 where
  pub on : h.registered ≡ true
  pub rate : h.current_baudrate_index ≡ index
  pub p : Protocol
  pub has : h.protocol ≡ some p
  pub attached : p.attached ≡ true
  pub alive : p.alive ≡ a

none_before : (n : ℕ) → 0 + n ≡ n
none_before n = omega arith

pub probe-IsSearching :
    (h : Handler) (index : ℕ) (a : Alive)
    → IsSearching h index a
    → let (b, calls) = AliveState.probe_timer_expired a in
      IsSearching (on_alive_probe_timer h) (toggles (count_changes calls) index) b
unfolding on_alive_probe_timer
probe-IsSearching h index a s =
    let (b, calls) = AliveState.probe_timer_expired s.p.alive in
    let requires = requires_buffer_type h in
    let q = alive_probe_timer_expired requires (cleared s.p) in
    let (e, same) = alive_probe_timer_expired-rates requires (cleared s.p) s.attached in
    let d : dial (on_alive_probe_timer h) ≡ (true, toggles (count_changes calls) index, some q) =
      ap dial (drive_as (alive_probe_timer_expired requires) h s.p s.has)
      ∙ perform_all-dial q.emitted (returned h q) s.on
      ∙ ap (λ b. (b, toggles (changes q.emitted) h.current_baudrate_index, some q)) s.on
      ∙ ap (λ i. (true, toggles (changes q.emitted) i, some q)) s.rate
      ∙ ap (λ (r : Bool × ℕ). (true, toggles r.1 index, some q)) e
      ∙ ap (λ m. (true, toggles m index, some q)) (none_before (count_changes calls)) in
    subst
      (λ c.
        (let (b, calls) = AliveState.probe_timer_expired c in
          IsSearching (on_alive_probe_timer h) (toggles (count_changes calls) index) b))
      s.alive
      (record {
        on = ap (λ (x : Dial). x.0) d;
        rate = ap (λ (x : Dial). x.1) d;
        p = q;
        has = ap (λ (x : Dial). x.2) d;
        attached = ap (λ (r : Bool × ℕ). r.0) e;
        alive = same;
      })
