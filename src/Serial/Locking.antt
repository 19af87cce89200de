-- ===== src/Serial/Locking.antt =====
-- SerialPortHandler.cpp: locking and unlocking the port keep the invariant.
use hdlcd.Base.{
  if_on, ℕ, ◌+◌, ◌-◌, ◌<◌, ◌%◌, ◌^◌, ◌≡◌, refl, sym, ap, subst, ◌∙◌, inl, inr, Bool, true, false,
  not, ◌==◌, [], ◌∷◌, ◌++◌, arith, if◌then◌else◌, Bool-cases,
}
use hdlcd.Lock.{suspend_serial_port, resume_serial_port}
use hdlcd.Hdlc.ProtocolState.{Protocol, propagate_serial_port_state, emit}
use hdlcd.Hdlc.ProtocolState.Operations.{reset, stop}
use hdlcd.Hdlc.ProtocolState.Kept.{stop-IsSound}
use hdlcd.Serial.{Handler}
use hdlcd.Serial.Operations.{
  perform, perform_all, drive, propagate_state, cancel_and_close, open_serial_port, suspend_port,
  resume_port,
}
use hdlcd.Serial.Core.{Core, core, propagate_state-core}
use hdlcd.Serial.Fit.{IsFitting, IsFit, Fits, cleared, cleared-IsSound, returned, drive_as}
use hdlcd.Serial.Stopping.{closing, propagate_state-Fits, Fits-if, open_serial_port-Fits}

stop-emits :
    (p : Protocol)
    → p.started ≡ true
    → ((stop p).started ≡ false)
      × ((stop p).attached ≡ p.attached)
      × ((stop p).emitted ≡ p.emitted ++ propagate_serial_port_state ∷ [])
unfolding stop reset
stop-emits p on =
    stopped p.started (emit propagate_serial_port_state (reset p)) p on (refl, refl, refl)
  where
    stopped :
        (b : Bool) (x y : Protocol)
        → b ≡ true
        → (x.started ≡ false)
          × (x.attached ≡ p.attached)
          × (x.emitted ≡ p.emitted ++ propagate_serial_port_state ∷ [])
        → let r = if b then x else y in
          (r.started ≡ false)
          × (r.attached ≡ p.attached)
          × (r.emitted ≡ p.emitted ++ propagate_serial_port_state ∷ [])
    stopped true x y e h = h
    stopped false x y e h = absurd (cc e)

abbrev shut : Core → Core
shut c = record c { port_open = false }

-- The first lock stops the protocol and closes the port.
close-Fits :
    (h : Handler) (p : Protocol)
    → IsFit h p
    → h.registered ≡ true
    → h.nbr_of_locks ≡ 0
    → h.writing ≡ false
    → Fits (cancel_and_close propagate_state (drive stop (record h { nbr_of_locks = 1 })))
unfolding cancel_and_close perform_all perform
close-Fits h p f there unlocked waits =
    let on : p.started ≡ true = ground (arith, f.started there, unlocked) in
    let q = stop (cleared p) in
    let (off, same_port, says) = stop-emits (cleared p) on in
    let locked = record h { nbr_of_locks = 1 } in
    let e : core (drive stop locked) ≡ core (returned locked q) =
      ap core (
        drive_as stop locked p f.has ∙ ap (λ actions. perform_all actions (returned locked q)) says)
      ∙ propagate_state-core (returned locked q) q refl in
    let sound = stop-IsSound (cleared p) (cleared-IsSound p f.sound) in
    let d = drive stop locked in
    let was_open : d.port_open ≡ true =
      ap (λ c. c.port_open) e ∙ ground (arith, f.opened there, unlocked) in
    subst Fits (sym (if_on d.port_open (propagate_state (closing d)) _ was_open)) (
      propagate_state-Fits (closing d) (
        q,
        subst (λ c. IsFitting (shut c) q) (sym e)
            (record {
              ok = ground (arith, f.ok, sound.ok);
              has = refl;
              sound = sound;
              gone = λ _. off;
              attached = λ _. same_port ∙ f.attached there;
              started = λ _. off;
              opened = λ _. refl;
              free = λ _ _. waits;
              busy = λ _ w. absurd (cc (w, waits));
              few = omega arith;
              idle = λ _ _. f.idle there waits;
            }),
      ))

-- One lock more or less, with some left.
recounted :
    (h : Handler) (p : Protocol) (next : ℕ)
    → IsFit h p
    → h.registered ≡ true
    → h.writing ≡ false
    → 0 < h.nbr_of_locks
    → 0 < next
    → next < 2 ^ 64
    → IsFit (record h { nbr_of_locks = next }) p
recounted h p next f there waits some_before some_after few = record {
  ok = f.ok;
  has = f.has;
  sound = f.sound;
  gone = f.gone;
  attached = f.attached;
  started = λ _. f.started there ∙ ground (arith, some_before, some_after);
  opened = λ _. f.opened there ∙ ground (arith, some_before, some_after);
  free = λ _ _. waits;
  busy = λ _ w. absurd (cc (w, waits));
  few = few;
  idle = f.idle;
}

told-Fits :
    (b : Bool) (x y : Handler)
    → (b ≡ true → Fits x)
    → (b ≡ false → Fits y)
    → Fits (if b then x else propagate_state y)
told-Fits true x y hx hy = hx refl
told-Fits false x y hx hy = propagate_state-Fits y (hy refl)

suspended-Fits :
    (h : Handler) (p : Protocol) (next : ℕ)
    → IsFit h p
    → h.registered ≡ true
    → h.writing ≡ false
    → next ≡ h.nbr_of_locks + 1
    → next < 2 ^ 64
    → let locked = record h { nbr_of_locks = next } in
      Fits (
        if next == 1
        then cancel_and_close propagate_state (drive stop locked)
        else propagate_state locked)
suspended-Fits h p next f there waits e few =
    let locked = record h { nbr_of_locks = next } in
    told-Fits (next == 1) (cancel_and_close propagate_state (drive stop locked)) locked
      (λ first.
        subst
          (λ n.
            Fits (cancel_and_close propagate_state (drive stop (record h { nbr_of_locks = n }))))
          (ground (arith, first)) (close-Fits h p f there (ground (arith, first, e)) waits))
      (λ later.
        (p, recounted h p next f there waits (ground (arith, later, e)) (omega (arith, e)) few))

resumed-Fits :
    (opens : Bool) (h : Handler) (p : Protocol) (next : ℕ)
    → IsFit h p
    → h.registered ≡ true
    → h.nbr_of_locks ≡ next + 1
    → let unlocked = record h { nbr_of_locks = next } in
      Fits (if next == 0 then (open_serial_port opens unlocked).0 else propagate_state unlocked)
resumed-Fits opens h p next f there e =
    let unlocked = record h { nbr_of_locks = next } in
    let waits : h.writing ≡ false = elim (Bool-cases h.writing) [
      | inl w ↦ absurd (omega (arith, f.busy there w, e))
      | inr w ↦ w
    ] in
    Fits-if (next == 0) (open_serial_port opens unlocked).0 (propagate_state unlocked)
      (λ last.
        open_serial_port-Fits opens unlocked p there f.ok f.has f.sound (f.attached there)
          (ground (arith, last)) waits (f.idle there waits))
      (λ more. propagate_state-Fits unlocked (
        p,
        recounted h p next f there waits (omega (arith, e)) (ground (arith, more))
            (omega (arith, e, f.few)),
      ))

not_off : (b : Bool) → not b ≡ false → b ≡ true
not_off b e = ground arith

-- SuspendSerialPort, while no write is pending.
pub suspend_port-Fits :
    (h : Handler)
    → (h.registered ≡ true → h.nbr_of_locks + 1 < 2 ^ 64)
    → (h.registered ≡ true → h.writing ≡ false)
    → Fits h
    → Fits (suspend_port h)
unfolding suspend_port suspend_serial_port
suspend_port-Fits h room waits (p, f) =
    let next = (h.nbr_of_locks + 1) % 2 ^ 64 in
    let locked = record h { nbr_of_locks = next } in
    Fits-if (not h.registered) h
      (if next == 1
        then cancel_and_close propagate_state (drive stop locked)
        else propagate_state locked)
      (λ _. (p, f))
      (λ there.
        let on = not_off h.registered there in
        suspended-Fits h p next f on (waits on) (omega (arith, room on)) (omega arith))

-- ResumeSerialPort, while there is a lock.
pub resume_port-Fits :
    (opens : Bool) (h : Handler)
    → (h.registered ≡ true → 0 < h.nbr_of_locks)
    → Fits h
    → Fits (resume_port opens h)
unfolding resume_port resume_serial_port
resume_port-Fits opens h some_lock (p, f) =
    let next = (h.nbr_of_locks + (2 ^ 64 - 1)) % 2 ^ 64 in
    let unlocked = record h { nbr_of_locks = next } in
    Fits-if (not h.registered) h
      (if next == 0 then (open_serial_port opens unlocked).0 else propagate_state unlocked)
      (λ _. (p, f))
      (λ there.
        let on = not_off h.registered there in
        resumed-Fits opens h p next f on (omega (arith, some_lock on, f.few)))
