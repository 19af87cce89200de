-- ===== src/Serial/Reachable.antt =====
-- SerialPortHandler.cpp: the states of a port that has been started for its first client.
use hdlcd.Base.{
  ℕ, ◌+◌, ◌<◌, ◌^◌, ◌≡◌, refl, sym, ap, ◌∙◌, inl, inr, Bool, Bool-cases, true, false, List, ◌++◌,
  ◌∷◌, none, some, ◌==◌,
}
use hdlcd.Hdlc.ProtocolState.{Protocol}
use hdlcd.Hdlc.ProtocolState.Operations.{initial}
use hdlcd.Hdlc.ProtocolState.Kept.{initial-IsSound}
use hdlcd.Serial.{Entry, Handler, new_handler}
use hdlcd.Serial.Operations.{
  add_client, deliver_payload_to_hdlc, stop_handler, start_handler, suspend_port, resume_port,
  Outcome, on_read, on_written, on_timer, on_alive_state_timer, on_alive_probe_timer, is_running,
}
use hdlcd.Serial.Fit.{Fits}
use hdlcd.Serial.Stopping.{stop_handler-Fits, open_serial_port-Fits}
use hdlcd.Serial.Locking.{suspend_port-Fits, resume_port-Fits}
use hdlcd.Serial.Working.{
  add_client-Fits, deliver_payload_to_hdlc-Fits, on_timer-Fits, on_alive_state_timer-Fits,
  on_alive_probe_timer-Fits, on_read-Fits, on_written-Fits,
}

-- GetSerialPortHandler adds the first client and starts the handler.
abbrev pub first_start : (opens : Bool) → Entry → Handler
first_start opens e = (start_handler opens (add_client e new_handler)).0

-- One call from a client or one callback. A lock is taken while no write is pending, is given back by
-- one who holds it, and Stop is called while there is no lock.
pub data HandlerStep : Handler → Handler → Type 0 where
  add_step : (e : Entry) (h : Handler) → HandlerStep h (add_client e h)
  expire_step :
      (before after : List Entry) (e : Entry) (h : Handler)
      → h.clients ≡ before ++ e ∷ after
      → HandlerStep h (record h { clients = before ++ record e { expired = true } ∷ after })
  payload_step :
      (payload : List ℕ) (reliable : Bool) (h : Handler)
      → HandlerStep h (deliver_payload_to_hdlc payload reliable h)
  suspend_step :
      (h : Handler)
      → (h.registered ≡ true → h.nbr_of_locks + 1 < 2 ^ 64)
      → (h.registered ≡ true → h.writing ≡ false)
      → HandlerStep h (suspend_port h)
  resume_step :
      (opens : Bool) (h : Handler)
      → (h.registered ≡ true → 0 < h.nbr_of_locks)
      → HandlerStep h (resume_port opens h)
  stop_step :
      (h : Handler) → (h.registered ≡ true → h.nbr_of_locks ≡ 0) → HandlerStep h (stop_handler h)
  read_step :
      (outcome : Outcome (List ℕ)) (h : Handler) → 0 < h.reading → HandlerStep h (on_read outcome h)
  write_step :
      (outcome : Outcome ℕ) (h : Handler) → h.writing ≡ true → HandlerStep h (on_written outcome h)
  timer_step : (h : Handler) → HandlerStep h (on_timer h)
  state_timer_step : (h : Handler) → HandlerStep h (on_alive_state_timer h)
  probe_timer_step : (h : Handler) → HandlerStep h (on_alive_probe_timer h)

pub data IsReachableHandler : Handler → Type 0 where
  first_client : (opens : Bool) (e : Entry) → IsReachableHandler (first_start opens e)
  and_then : {h k : Handler} → IsReachableHandler h → HandlerStep h k → IsReachableHandler k

first_start-Fits : (opens : Bool) (e : Entry) → Fits (first_start opens e)
unfolding start_handler add_client new_handler initial
first_start-Fits opens e =
    open_serial_port-Fits opens (record (add_client e new_handler) { protocol = some initial })
      initial refl refl refl initial-IsSound refl refl refl refl

HandlerStep-Fits : {h k : Handler} → HandlerStep h k → Fits h → Fits k
HandlerStep-Fits (add_step e h) fits = add_client-Fits e h fits
HandlerStep-Fits (expire_step before after e h listed) fits = fits
HandlerStep-Fits (payload_step payload reliable h) fits =
    deliver_payload_to_hdlc-Fits payload reliable h fits
HandlerStep-Fits (suspend_step h room waits) fits = suspend_port-Fits h room waits fits
HandlerStep-Fits (resume_step opens h some_lock) fits = resume_port-Fits opens h some_lock fits
HandlerStep-Fits (stop_step h unlocked) fits = stop_handler-Fits h unlocked fits
HandlerStep-Fits (read_step outcome h pending) fits = on_read-Fits outcome h fits
HandlerStep-Fits (write_step outcome h pending) fits = on_written-Fits outcome h pending fits
HandlerStep-Fits (timer_step h) fits = on_timer-Fits h fits
HandlerStep-Fits (state_timer_step h) fits = on_alive_state_timer-Fits h fits
HandlerStep-Fits (probe_timer_step h) fits = on_alive_probe_timer-Fits h fits

pub reachable-Fits : (h : Handler) → IsReachableHandler h → Fits h
reachable-Fits _ (first_client opens e) = first_start-Fits opens e
reachable-Fits _ (and_then {h = h} r step) = HandlerStep-Fits step (reachable-Fits h r)

-- In every history of a port in which it is not locked while a write is pending, not stopped while it
-- is locked, and unlocked only by a holder: no assertion of the handler or of its protocol fails,
-- nothing is called through an empty pointer, and neither cancel nor set_option is called while the port
-- is closed. (A read or a write may be started on it then, which ends with an error code.) While the
-- handler is registered its port is open and its protocol runs exactly if there is no lock; afterwards
-- the protocol does not run.
pub port_never_fails :
    (h : Handler)
    → IsReachableHandler h
    → (h.failed ≡ false)
      × (h.registered ≡ true
          → (h.port_open ≡ (h.nbr_of_locks == 0)) × (is_running h.protocol ≡ (h.nbr_of_locks == 0)))
      × (h.registered ≡ false → is_running h.protocol ≡ false)
port_never_fails h r =
    let (p, f) = reachable-Fits h r in
    (
      f.ok,
      λ there. (f.opened there, ap is_running f.has ∙ f.started there),
      λ away. ap is_running f.has ∙ f.gone away,
    )

pub some_injective : (p q : Protocol) → some p ≡ some q → p ≡ q
some_injective p q e = ap (λ o. elim o [ none ↦ p | some x ↦ x ]) e

-- In every history of `port_never_fails`, while a registered handler has a write pending its protocol
-- holds back the next frame and there is no lock, and while it has none the offset of its send buffer
-- is 0.
pub one_frame_at_a_time :
    (h : Handler) (p : Protocol)
    → IsReachableHandler h
    → h.protocol ≡ some p
    → h.registered ≡ true
    → (h.writing ≡ true → (p.awaits_next_hdlc_frame ≡ false) × (h.nbr_of_locks ≡ 0))
      × (h.writing ≡ false → h.send_buffer_offset ≡ 0)
one_frame_at_a_time h p r has there =
    let (q, f) = reachable-Fits h r in
    let same : q ≡ p = some_injective q p (sym f.has ∙ has) in
    (
      λ writes. (
        elim (Bool-cases p.awaits_next_hdlc_frame) [
          | inl awaits ↦
              absurd (cc (f.free there (ap (λ t. t.awaits_next_hdlc_frame) same ∙ awaits), writes))
          | inr held ↦ held
        ],
        f.busy there writes,
      ),
      f.idle there,
    )
