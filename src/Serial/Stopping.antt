-- ===== src/Serial/Stopping.antt =====
-- SerialPortHandler.cpp: opening and stopping the port keep the invariant.
use hdlcd.Base.{
  if_on, ◌<◌, ◌^◌, ◌≡◌, refl, sym, subst, ◌∙◌, Bool, true, false, some, arith, if◌then◌else◌,
}
use hdlcd.Hdlc.ProtocolState.{Protocol}
use hdlcd.Hdlc.ProtocolState.Operations.{reset, start, shutdown}
use hdlcd.Hdlc.ProtocolState.Pacing.{start-renews}
use hdlcd.Hdlc.ProtocolState.Sound.{IsSound}
use hdlcd.Hdlc.ProtocolState.Kept.{start-IsSound, start-started, shutdown-IsSound}
use hdlcd.Serial.{
  Handler, cancel_port, close_port, stop_client, deregister_port, call, open_port, set_baud_rate,
  get_baud_rate,
}
use hdlcd.Serial.Operations.{
  drive, propagate_state, do_read, requires_buffer_type, give_up, cancel_and_close, stop_handler,
  open_serial_port,
}
use hdlcd.Serial.Core.{core, for_each_client-core, propagate_state-core}
use hdlcd.Serial.Fit.{
  IsFitting, IsFit, Fits, cleared, cleared-IsSound, returned, drive_on, drive_off,
}

-- The same core is as fit.
pub core-Fits : (h k : Handler) → core k ≡ core h → Fits h → Fits k
core-Fits h k e (p, f) = (p, subst (λ c. IsFitting c p) (sym e) f)

pub propagate_state-Fits : (h : Handler) → Fits h → Fits (propagate_state h)
propagate_state-Fits h (p, f) =
    core-Fits h (propagate_state h) (propagate_state-core h p f.has) (p, f)

pub Fits-if :
    (b : Bool) (x y : Handler)
    → (b ≡ true → Fits x)
    → (b ≡ false → Fits y)
    → Fits (if b then x else y)
Fits-if true x y hx hy = hx refl
Fits-if false x y hx hy = hy refl

pub do_read-core : (h : Handler) → core (do_read h) ≡ core h
unfolding do_read
do_read-core h = refl

protocol-if :
    (b : Bool) (x y z : Protocol)
    → (b ≡ true → (x.started ≡ false) × (x.emitted ≡ z.emitted))
    → (b ≡ false → (y.started ≡ false) × (y.emitted ≡ z.emitted))
    → let r = if b then x else y in (r.started ≡ false) × (r.emitted ≡ z.emitted)
protocol-if true x y z hx hy = hx refl
protocol-if false x y z hx hy = hy refl

pub shutdown-quiet :
    (p : Protocol) → ((shutdown p).started ≡ false) × ((shutdown p).emitted ≡ p.emitted)
unfolding shutdown reset
shutdown-quiet p =
    protocol-if p.started (record (reset p) { attached = false }) p p (λ _. (refl, refl))
      (λ off. (off, refl))

pub down-IsFitting :
    (h : Handler) (p q : Protocol)
    → h.registered ≡ false
    → h.failed ≡ false
    → h.nbr_of_locks < 2 ^ 64
    → IsSound q
    → q.started ≡ false
    → IsFit (returned h q) q
down-IsFitting h p q away ok few sound off = record {
  ok = ground (arith, ok, sound.ok);
  has = refl;
  sound = sound;
  gone = λ _. off;
  attached = λ there. absurd (cc (there, away));
  started = λ there. absurd (cc (there, away));
  opened = λ there. absurd (cc (there, away));
  free = λ there. absurd (cc (there, away));
  busy = λ there. absurd (cc (there, away));
  few = few;
  idle = λ there. absurd (cc (there, away));
}

core-deregister : (b : Bool) (h : Handler) → core (if b then call deregister_port h else h) ≡ core h
core-deregister true h = refl
core-deregister false h = refl

-- A handler that has been unregistered gives up.
pub give_up-Fits :
    (h : Handler) (p : Protocol)
    → h.registered ≡ false
    → h.failed ≡ false
    → h.nbr_of_locks < 2 ^ 64
    → h.protocol ≡ some p
    → IsSound p
    → Fits (give_up h)
unfolding give_up
give_up-Fits h p away ok few has sound =
    let q = shutdown (cleared p) in
    let (off, silent) = shutdown-quiet (cleared p) in
    let down = drive_off shutdown h p has silent in
    let fit : IsFit (drive shutdown h) q =
      subst (λ k. IsFit k q) (sym down)
        (down-IsFitting h p q away ok few (shutdown-IsSound (cleared p) (cleared-IsSound p sound))
          off) in
    let d = drive shutdown h in
    core-Fits d (give_up h)
      (for_each_client-core (λ client. stop_client client)
          (if d.collection then call deregister_port d else d)
        ∙ core-deregister d.collection d)
      (q, fit)

-- The port that has been cancelled and closed.
abbrev pub closing : Handler → Handler
closing h = record (call close_port (call cancel_port h)) { port_open = false }

-- Stop, while the port is open.
pub open-Fits :
    (h : Handler) (p : Protocol)
    → h.failed ≡ false
    → h.protocol ≡ some p
    → IsSound p
    → h.nbr_of_locks < 2 ^ 64
    → (h.registered ≡ true → h.port_open ≡ true)
    → (h.registered ≡ false → Fits h)
    → Fits (stop_handler h)
unfolding stop_handler cancel_and_close
open-Fits h p ok has sound few opened away =
    let gone = record h { registered = false } in
    Fits-if h.registered (cancel_and_close give_up gone) h
      (λ there.
        subst Fits (sym (if_on h.port_open (give_up (closing gone)) _ (opened there)))
          (give_up-Fits (closing gone) p refl ok few has sound))
      away

pub stop_handler-Fits :
    (h : Handler) → (h.registered ≡ true → h.nbr_of_locks ≡ 0) → Fits h → Fits (stop_handler h)
stop_handler-Fits h unlocked (p, f) =
    open-Fits h p f.ok f.has f.sound f.few (λ there. ground (arith, f.opened there, unlocked there))
      (λ _. (p, f))

-- OpenSerialPort, while no write is pending.
pub open_serial_port-Fits :
    (opens : Bool) (h : Handler) (p : Protocol)
    → h.registered ≡ true
    → h.failed ≡ false
    → h.protocol ≡ some p
    → IsSound p
    → p.attached ≡ true
    → h.nbr_of_locks ≡ 0
    → h.writing ≡ false
    → h.send_buffer_offset ≡ 0
    → Fits (open_serial_port opens h).0
unfolding open_serial_port
open_serial_port-Fits false h p there ok has sound port unlocked waits offset =
    give_up-Fits (record h { registered = false }) p refl ok (omega (arith, unlocked)) has sound
open_serial_port-Fits true h p there ok has sound port unlocked waits offset =
    let opened =
      call (set_baud_rate (get_baud_rate h.current_baudrate_index))
        (call open_port (record h { port_open = true })) in
    let requires = requires_buffer_type h in
    let q = start requires (cleared p) in
    let up = start-IsSound requires (cleared p) sound.ok port in
    let on = start-started requires (cleared p) in
    let fit : IsFit (drive (start requires) opened) q =
      drive_on (start requires) opened p ok has there refl unlocked (λ _. offset) up on
        (up.running on).port (start-renews requires (cleared p)) (λ _. waits) in
    propagate_state-Fits (do_read (drive (start requires) opened)) (
      core-Fits (drive (start requires) opened) (do_read (drive (start requires) opened))
        (do_read-core (drive (start requires) opened)) (q, fit))
