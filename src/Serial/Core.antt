-- ===== src/Serial/Core.antt =====
-- SerialPortHandler.cpp: what the calls of the protocol do to the handler.
use hdlcd.Base.{
  ℕ, ◌+◌, ◌≤◌, ◌≡◌, refl, sym, ap, ◌∙◌, Bool, true, false, not, ◌||◌, ◌&&◌, ◌==◌, List, [], ◌∷◌,
  Option, some, suc, arith, if◌then◌else◌,
}
use hdlcd.Hdlc.ProtocolState
use hdlcd.Hdlc.ProtocolState.{
  Protocol, BufferType, Action, deliver_buffer_to_clients, propagate_serial_port_state,
  transmit_hdlc_frame, query_for_payload,
}
use hdlcd.Hdlc.ProtocolState.Ledger.{transmits}
use hdlcd.Hdlc.AliveState.{is_alive}
use hdlcd.Serial.{PortCall, update_client, deliver_to_client, query_client, Handler, some_expired}
use hdlcd.Serial.Operations.{
  for_each_client, propagate_state, propagate_in, deliver_to_clients, change_baud_rate, do_write,
  transmit_frame, query_clients, perform, perform_all,
}

-- The members that decide whether a call is allowed.
pub record Core : Type 0 where
  pub registered : Bool
  pub port_open : Bool
  pub protocol : Option Protocol
  pub writing : Bool
  pub send_buffer_offset : ℕ
  pub nbr_of_locks : ℕ
  pub failed : Bool

abbrev pub core : Handler → Core
core h = record {
  registered = h.registered;
  port_open = h.port_open;
  protocol = h.protocol;
  writing = h.writing;
  send_buffer_offset = h.send_buffer_offset;
  nbr_of_locks = h.nbr_of_locks;
  failed = h.failed;
}

core-if :
    (b : Bool) (c : Core) (x y : Handler) → core x ≡ c → core y ≡ c → core (if b then x else y) ≡ c
core-if true c x y hx hy = hx
core-if false c x y hx hy = hy

pub for_each_client-core : (f : ℕ → PortCall) (h : Handler) → core (for_each_client f h) ≡ core h
unfolding for_each_client
for_each_client-core f h =
    core-if (not h.cyclic_call_guard && some_expired h.clients) (core h) _ _ refl refl

-- A handler whose port can be used.
pub record IsUsable (h : Handler) : Type 0 where
  pub ok : h.failed ≡ false
  pub has : (p : Protocol) × (h.protocol ≡ some p)
  pub opened : h.port_open ≡ true
  pub unlocked : h.nbr_of_locks ≡ 0

pub propagate_state-core :
    (h : Handler) (p : Protocol) → h.protocol ≡ some p → core (propagate_state h) ≡ core h
unfolding propagate_state propagate_in
propagate_state-core h p e =
    ap (λ o. core (propagate_in o h)) e
    ∙ for_each_client-core (λ client. update_client client (is_alive p.alive) h.nbr_of_locks) h

change_baud_rate-core : (h : Handler) → IsUsable h → core (change_baud_rate h) ≡ core h
unfolding change_baud_rate
change_baud_rate-core h u = ground (arith, u.ok, u.opened)

transmit_frame-core :
    (bytes : List ℕ) (h : Handler)
    → IsUsable h
    → h.send_buffer_offset ≡ 0
    → core (transmit_frame bytes h) ≡ record (core h) { writing = true }
unfolding transmit_frame do_write
transmit_frame-core bytes h u e = ground (arith, u.ok, u.unlocked, e)

-- The core after some actions.
abbrev pub sent : ℕ → Core → Core
sent n c = record c { writing = c.writing || not (n == 0) }

core-IsUsable :
    (h k : Handler) (w : Bool) → core k ≡ record (core h) { writing = w } → IsUsable h → IsUsable k
core-IsUsable h k w e u = record {
  ok = ap (λ c. c.failed) e ∙ u.ok;
  has = (u.has.0, ap (λ c. c.protocol) e ∙ u.has.1);
  opened = ap (λ c. c.port_open) e ∙ u.opened;
  unlocked = ap (λ c. c.nbr_of_locks) e ∙ u.unlocked;
}

quiet_action-core :
    (a : Action) (h : Handler) → IsUsable h → transmits (a ∷ []) ≡ 0 → core (perform a h) ≡ core h
unfolding perform deliver_to_clients query_clients
quiet_action-core (deliver_buffer_to_clients type payload reliable invalid was_sent) h u e =
    for_each_client-core (λ client. deliver_to_client client type payload reliable invalid was_sent)
      h
quiet_action-core ProtocolState.change_baud_rate h u e = change_baud_rate-core h u
quiet_action-core propagate_serial_port_state h u e = propagate_state-core h u.has.0 u.has.1
quiet_action-core (transmit_hdlc_frame bytes) h u e = absurd (omega (arith, e))
quiet_action-core (query_for_payload reliable unreliable) h u e =
    for_each_client-core (λ client. query_client client reliable unreliable) h

transmits_parts :
    (a : Action) (actions : List Action)
    → transmits (a ∷ actions) ≡ transmits (a ∷ []) + transmits actions
transmits_parts (deliver_buffer_to_clients type payload reliable invalid was_sent) actions =
    omega arith
transmits_parts ProtocolState.change_baud_rate actions = omega arith
transmits_parts propagate_serial_port_state actions = omega arith
transmits_parts (transmit_hdlc_frame bytes) actions = omega arith
transmits_parts (query_for_payload reliable unreliable) actions = omega arith

pub quiet_actions-core :
    (actions : List Action) (h : Handler)
    → IsUsable h
    → transmits actions ≡ 0
    → core (perform_all actions h) ≡ core h
unfolding perform_all
quiet_actions-core [] h u e = refl
quiet_actions-core (a ∷ actions) h u e =
    let parts = transmits_parts a actions in
    let same = quiet_action-core a h u (omega (arith, parts, e)) in
    quiet_actions-core actions (perform a h) (core-IsUsable h (perform a h) h.writing same u)
      (omega (arith, parts, e))
    ∙ same

sent_one : (c : Core) → record c { writing = true } ≡ sent 1 c
sent_one c = ground arith

sent_none : (c : Core) → c ≡ sent 0 c
sent_none c = ground arith

-- Actions of which one at most is a frame.
pub actions-core :
    (actions : List Action) (h : Handler)
    → IsUsable h
    → transmits actions ≤ 1
    → (transmits actions ≡ 1 → h.send_buffer_offset ≡ 0)
    → core (perform_all actions h) ≡ sent (transmits actions) (core h)
unfolding perform_all
actions-core [] h u le z = sent_none (core h)
actions-core (transmit_hdlc_frame bytes ∷ actions) h u le z =
    let offset = z (omega (arith, le)) in
    let one = transmit_frame-core bytes h u offset in
    let none_left : transmits actions ≡ 0 = omega (arith, le) in
    quiet_actions-core actions (perform (transmit_hdlc_frame bytes) h)
      (core-IsUsable h (perform (transmit_hdlc_frame bytes) h) true one u) none_left
    ∙ one
    ∙ sent_one (core h)
    ∙ ap (λ n. sent (suc n) (core h)) (sym none_left)
actions-core (a ∷ actions) h u le z =
    let parts = transmits_parts a actions in
    let same = quiet_action-core a h u refl in
    actions-core actions (perform a h) (core-IsUsable h (perform a h) h.writing same u)
      (omega (arith, le, parts))
      (λ one. ap (λ c. c.send_buffer_offset) same ∙ z (omega (arith, one, parts)))
    ∙ ap (λ c. sent (transmits actions) c) same
    ∙ ap (λ n. sent n (core h)) (omega (arith, parts))
