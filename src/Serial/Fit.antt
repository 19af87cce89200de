-- ===== src/Serial/Fit.antt =====
-- SerialPortHandler.cpp: the invariant of a handler, and the calls of its protocol.
use hdlcd.Base.{
  ℕ, ◌≤◌, ◌<◌, ◌^◌, ◌≡◌, refl, sym, ap, subst, ◌∙◌, inl, inr, Bool, true, false, not, ◌||◌, ◌==◌,
  [], some, arith, Bool-cases,
}
use hdlcd.Hdlc.ProtocolState.{Protocol}
use hdlcd.Hdlc.ProtocolState.Ledger.{transmits, credit}
use hdlcd.Hdlc.ProtocolState.Sound.{IsSound}
use hdlcd.Hdlc.ProtocolState.Working.{IsWork}
use hdlcd.Serial.{Handler}
use hdlcd.Serial.Operations.{perform_all, drive, drive_protocol}
use hdlcd.Serial.Core.{Core, core, sent, IsUsable, actions-core}

-- A registered handler has its port open and its protocol started exactly while it is not locked, and
-- its protocol holds back the next frame while a write is pending.
pub record IsFitting (c : Core) (p : Protocol) : Type 0 where
  pub ok : c.failed ≡ false
  pub has : c.protocol ≡ some p
  pub sound : IsSound p
  pub gone : c.registered ≡ false → p.started ≡ false
  pub attached : c.registered ≡ true → p.attached ≡ true
  pub started : c.registered ≡ true → p.started ≡ (c.nbr_of_locks == 0)
  pub opened : c.registered ≡ true → c.port_open ≡ (c.nbr_of_locks == 0)
  pub free : c.registered ≡ true → p.awaits_next_hdlc_frame ≡ true → c.writing ≡ false
  pub busy : c.registered ≡ true → c.writing ≡ true → c.nbr_of_locks ≡ 0
  pub few : c.nbr_of_locks < 2 ^ 64
  pub idle : c.registered ≡ true → c.writing ≡ false → c.send_buffer_offset ≡ 0

abbrev pub IsFit : Handler → Protocol → Type 0
IsFit h p = IsFitting (core h) p

abbrev pub Fits : Handler → Type 0
Fits h = (p : Protocol) × IsFit h p

-- The log is emptied before the protocol is called.
abbrev pub cleared : Protocol → Protocol
cleared p = record p { emitted = [] }

pub cleared-IsSound : (p : Protocol) → IsSound p → IsSound (cleared p)
cleared-IsSound p s = record {
  ok = s.ok;
  running = λ on.
      let l = s.running on in
      record { ok = l.ok; s_fits = l.s_fits; r_fits = l.r_fits; queued = l.queued; port = l.port };
  resting = λ off.
      let r = s.resting off in
      record {
        no_probe = r.no_probe;
        searching = r.searching;
        no_probe_timer = r.no_probe_timer;
        no_timer = r.no_timer;
      };
  consistent = s.consistent;
  parser_open = s.parser_open;
}

-- The handler once the protocol has returned, before its calls are carried out.
abbrev pub returned : Handler → Protocol → Handler
returned h q = record h { protocol = some q; failed = h.failed || q.failed }

pub drive_as :
    (operation : Protocol → Protocol) (h : Handler) (p : Protocol)
    → h.protocol ≡ some p
    → drive operation h ≡ (let q = operation (cleared p) in perform_all q.emitted (returned h q))
unfolding drive drive_protocol
drive_as operation h p e = ap (λ o. drive_protocol operation o h) e

credit_parts :
    (q : Protocol) → credit q ≤ 1 → q.awaits_next_hdlc_frame ≡ true → transmits q.emitted ≡ 0
credit_parts q le e = ground (arith, le, e)

credit_if : (q : Protocol) → q.awaits_next_hdlc_frame ≡ true → 1 ≤ credit q
credit_if q e = ground (arith, e)

not_writing : (writing : Bool) (n : ℕ) → n ≡ 0 → writing ≡ false → (writing || not (n == 0)) ≡ false
not_writing writing n e w = ground (arith, e, w)

was_writing :
    (writing : Bool) (n : ℕ) → (writing || not (n == 0)) ≡ false → (writing ≡ false) × (n ≡ 0)
was_writing writing n e = ground (arith, e)

-- A call of a started protocol, which may send a frame if no write is pending.
pub drive_on :
    (operation : Protocol → Protocol) (h : Handler) (p : Protocol)
    → h.failed ≡ false
    → h.protocol ≡ some p
    → h.registered ≡ true
    → h.port_open ≡ true
    → h.nbr_of_locks ≡ 0
    → (h.writing ≡ false → h.send_buffer_offset ≡ 0)
    → let q = operation (cleared p) in
      IsSound q
      → q.started ≡ true
      → q.attached ≡ true
      → credit q ≤ 1
      → (1 ≤ credit q → h.writing ≡ false)
      → IsFit (drive operation h) q
drive_on operation h p ok has on opened unlocked idle sound started attached le quiet =
    let q = operation (cleared p) in
    let usable : IsUsable (returned h q) = record {
      ok = ground (arith, ok, sound.ok);
      has = (q, refl);
      opened = opened;
      unlocked = unlocked;
    } in
    let n = transmits q.emitted in
    let e : core (drive operation h) ≡ sent n (core (returned h q)) =
      ap core (drive_as operation h p has)
      ∙ actions-core q.emitted (returned h q) usable (omega (arith, le))
          (λ one. idle (quiet (omega (arith, one)))) in
    subst (λ c. IsFitting c q) (sym e)
      (record {
        ok = usable.ok;
        has = refl;
        sound = sound;
        gone = λ off. absurd (cc (off, on));
        attached = λ _. attached;
        started = λ _. ground (arith, started, unlocked);
        opened = λ _. ground (arith, opened, unlocked);
        free = λ _ w. not_writing h.writing n (credit_parts q le w) (quiet (credit_if q w));
        busy = λ _ _. unlocked;
        few = omega (arith, unlocked);
        idle = λ _ w. idle (was_writing h.writing n w).0;
      })

-- A call of a protocol that is not started and says nothing.
pub drive_off :
    (operation : Protocol → Protocol) (h : Handler) (p : Protocol)
    → h.protocol ≡ some p
    → (operation (cleared p)).emitted ≡ []
    → drive operation h ≡ returned h (operation (cleared p))
unfolding perform_all
drive_off operation h p has silent =
    let q = operation (cleared p) in
    drive_as operation h p has ∙ ap (λ actions. perform_all actions (returned h q)) silent

zero_of : (n : ℕ) → (n == 0) ≡ true → n ≡ 0
zero_of n e = ground (arith, e)

credit_le : (p : Protocol) → credit (cleared p) ≤ 1
credit_le p = ground arith

waits_if : (p : Protocol) → 1 ≤ credit (cleared p) → p.awaits_next_hdlc_frame ≡ true
waits_if p le = ground (arith, le)

-- What a call that neither starts nor stops the protocol does to a fit handler.
pub drive_work :
    (operation : Protocol → Protocol) (h : Handler) (p : Protocol)
    → IsFit h p
    → IsWork (cleared p) (operation (cleared p))
    → credit (operation (cleared p)) ≤ credit (cleared p)
    → IsFit (drive operation h) (operation (cleared p))
drive_work operation h p f w le =
    let q = operation (cleared p) in
    elim (Bool-cases p.started) [
      | inl on ↦ elim (Bool-cases h.registered) [
        | inl there ↦
            let unlocked = zero_of h.nbr_of_locks (sym (f.started there) ∙ on) in
            drive_on operation h p f.ok f.has there (f.opened there ∙ sym (f.started there) ∙ on)
              unlocked (f.idle there) w.sound (w.same_started ∙ on)
              (w.same_attached ∙ f.attached there) (omega (arith, le, credit_le (cleared p)))
              (λ some_credit. f.free there (waits_if p (omega (arith, some_credit, le))))
        | inr away ↦ absurd (cc (on, f.gone away))
      ]
      | inr off ↦
          subst (λ k. IsFit k q) (sym (drive_off operation h p f.has (w.silent off)))
            (record {
              ok = ground (arith, f.ok, w.sound.ok);
              has = refl;
              sound = w.sound;
              gone = λ away. w.same_started ∙ off;
              attached = λ there. w.same_attached ∙ f.attached there;
              started = λ there. w.same_started ∙ f.started there;
              opened = f.opened;
              free =
                  λ there awaits. f.free there (waits_if p (omega (arith, le, credit_if q awaits)));
              busy = f.busy;
              few = f.few;
              idle = f.idle;
            })
    ]
