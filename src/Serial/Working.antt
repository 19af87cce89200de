-- ===== src/Serial/Working.antt =====
-- SerialPortHandler.cpp: what clients, timers and the port's callbacks do keeps the invariant.
use hdlcd.Base.{
  ℕ, ◌+◌, ◌-◌, ◌≤◌, ◌≡◌, refl, sym, subst, ◌∙◌, inl, inr, Bool, true, false, not, ◌==◌, List, [],
  ◌∷◌, ◌++◌, arith, if◌then◌else◌, Bool-cases, length,
}
use hdlcd.Lock.{get_serial_port_state}
use hdlcd.Hdlc.ProtocolState.{Protocol}
use hdlcd.Hdlc.ProtocolState.Operations.{
  send_payload, trigger_next_hdlc_frame, add_received_raw_bytes, timer_expired,
  alive_state_timer_expired, alive_probe_timer_expired,
}
use hdlcd.Hdlc.ProtocolState.Ledger.{credit}
use hdlcd.Hdlc.ProtocolState.Pacing.{
  trigger-renews, send_payload-credit, receive-credit, timer-credit, state_timer-credit,
  probe_timer-credit,
}
use hdlcd.Hdlc.ProtocolState.Working.{
  IsWork, send_payload-IsWork, trigger-IsWork, receive-IsWork, timer-IsWork, probe_timer-IsWork,
  state_timer-IsWork,
}
use hdlcd.Serial.{Entry, Handler, subscribe}
use hdlcd.Serial.Operations.{
  drive, propagate_state, requires_buffer_type, is_running, add_client, deliver_payload_to_hdlc,
  do_read, do_write, stop_handler, Outcome, error_code, done, on_read, on_written, on_timer,
  on_alive_state_timer, on_alive_probe_timer,
}
use hdlcd.Serial.Fit.{IsFit, Fits, cleared, cleared-IsSound, drive_on, drive_off, drive_work}
use hdlcd.Serial.Stopping.{
  core-Fits, propagate_state-Fits, Fits-if, do_read-core, stop_handler-Fits, open-Fits,
  down-IsFitting,
}

pub add_client-Fits : (e : Entry) (h : Handler) → Fits h → Fits (add_client e h)
unfolding add_client
add_client-Fits e h fits =
    let added = record h {
      subscribers = subscribe e.type h.subscribers;
      clients = h.clients ++ e ∷ [];
    } in
    Fits-if (is_running h.protocol) (propagate_state added) added
      (λ _. propagate_state-Fits added fits) (λ _. fits)

-- A call of the protocol without a new grant.
working-Fits :
    (operation : Protocol → Protocol) (h : Handler) (p : Protocol)
    → IsFit h p
    → IsWork (cleared p) (operation (cleared p))
    → credit (operation (cleared p)) ≤ credit (cleared p)
    → Fits (drive operation h)
working-Fits operation h p f w le = (operation (cleared p), drive_work operation h p f w le)

pub deliver_payload_to_hdlc-Fits :
    (payload : List ℕ) (reliable : Bool) (h : Handler)
    → Fits h
    → Fits (deliver_payload_to_hdlc payload reliable h)
unfolding deliver_payload_to_hdlc
deliver_payload_to_hdlc-Fits payload reliable h (p, f) =
    let requires = requires_buffer_type h in
    working-Fits (send_payload requires payload reliable) h p f
      (send_payload-IsWork requires payload reliable (cleared p) (cleared-IsSound p f.sound))
      (send_payload-credit requires payload reliable (cleared p))

pub on_timer-Fits : (h : Handler) → Fits h → Fits (on_timer h)
unfolding on_timer
on_timer-Fits h (p, f) =
    let requires = requires_buffer_type h in
    working-Fits (timer_expired requires) h p f
      (timer-IsWork requires (cleared p) (cleared-IsSound p f.sound))
      (timer-credit requires (cleared p))

pub on_alive_state_timer-Fits : (h : Handler) → Fits h → Fits (on_alive_state_timer h)
unfolding on_alive_state_timer
on_alive_state_timer-Fits h (p, f) =
    working-Fits alive_state_timer_expired h p f
      (state_timer-IsWork (cleared p) (cleared-IsSound p f.sound)) (state_timer-credit (cleared p))

pub on_alive_probe_timer-Fits : (h : Handler) → Fits h → Fits (on_alive_probe_timer h)
unfolding on_alive_probe_timer
on_alive_probe_timer-Fits h (p, f) =
    let requires = requires_buffer_type h in
    working-Fits (alive_probe_timer_expired requires) h p f
      (probe_timer-IsWork requires (cleared p) (cleared-IsSound p f.sound))
      (probe_timer-credit requires (cleared p))

unlocked_if : (n : ℕ) → not (get_serial_port_state n) ≡ true → n ≡ 0
unlocked_if n e = ground (arith, e)

pub on_read-Fits : (outcome : Outcome (List ℕ)) (h : Handler) → Fits h → Fits (on_read outcome h)
unfolding on_read
on_read-Fits (done bytes) h (p, f) =
    let requires = requires_buffer_type h in
    let read = record h { reading = h.reading - 1 } in
    let handled = drive (add_received_raw_bytes requires bytes) read in
    let fits : Fits handled =
      working-Fits (add_received_raw_bytes requires bytes) read p f
        (receive-IsWork requires bytes (cleared p) (cleared-IsSound p f.sound))
        (receive-credit requires bytes (cleared p)) in
    Fits-if (not (get_serial_port_state handled.nbr_of_locks)) (do_read handled) handled
      (λ _. core-Fits handled (do_read handled) (do_read-core handled) fits) (λ _. fits)
on_read-Fits error_code h (p, f) =
    let read = record h { reading = h.reading - 1 } in
    Fits-if (not (get_serial_port_state h.nbr_of_locks)) (stop_handler read) read
      (λ free. stop_handler-Fits read (λ _. unlocked_if h.nbr_of_locks free) (p, f)) (λ _. (p, f))

-- The last part of a frame has been written.
triggered-Fits :
    (h : Handler) (p : Protocol)
    → IsFit h p
    → (h.registered ≡ true → h.writing ≡ true)
    → let complete = record h { writing = false; send_buffer_offset = 0 } in
      Fits (drive (trigger_next_hdlc_frame (requires_buffer_type h)) complete)
triggered-Fits h p f writes =
    let complete = record h { writing = false; send_buffer_offset = 0 } in
    let requires = requires_buffer_type h in
    let operation = trigger_next_hdlc_frame requires in
    let q = operation (cleared p) in
    let w = trigger-IsWork requires (cleared p) (cleared-IsSound p f.sound) in
    elim (Bool-cases h.registered) [
      | inl there ↦
          let unlocked = f.busy there (writes there) in
          let on : p.started ≡ true = f.started there ∙ ground (arith, unlocked) in
          (
            q,
            drive_on operation complete p f.ok f.has there
                (f.opened there ∙ ground (arith, unlocked)) unlocked (λ _. refl) w.sound
                (w.same_started ∙ on) (w.same_attached ∙ f.attached there)
                (trigger-renews requires (cleared p) on) (λ _. refl),
          )
      | inr away ↦
          let off = f.gone away in
          (
            q,
            subst (λ k. IsFit k q) (sym (drive_off operation complete p f.has (w.silent off)))
                (down-IsFitting complete p q away f.ok f.few w.sound (w.same_started ∙ off)),
          )
    ]

-- Once a handler is unregistered its write may end in any way.
away-Fits :
    (h : Handler) (p : Protocol) (writing : Bool) (offset : ℕ)
    → IsFit h p
    → h.registered ≡ false
    → Fits (record h { writing = writing; send_buffer_offset = offset })
away-Fits h p writing offset f away = (
  p,
  record {
    ok = f.ok;
    has = f.has;
    sound = f.sound;
    gone = f.gone;
    attached = f.attached;
    started = f.started;
    opened = f.opened;
    free = λ there. absurd (cc (there, away));
    busy = λ there. absurd (cc (there, away));
    few = f.few;
    idle = λ there. absurd (cc (there, away));
  },
)

-- While a write is pending, a locked handler is not registered.
locked_away :
    (h : Handler) (p : Protocol)
    → IsFit h p
    → h.writing ≡ true
    → not (get_serial_port_state h.nbr_of_locks) ≡ false
    → h.registered ≡ false
locked_away h p f writes locked = elim (Bool-cases h.registered) [
  | inl there ↦ absurd (ground (arith, f.busy there writes, locked))
  | inr away ↦ away
]

-- The rest of a frame is to be written.
partial-Fits :
    (h : Handler) (p : Protocol) (offset : ℕ)
    → IsFit h p
    → h.writing ≡ true
    → Fits (record h { writing = true; send_buffer_offset = offset })
partial-Fits h p offset f writes = (
  p,
  record {
    ok = f.ok;
    has = f.has;
    sound = f.sound;
    gone = f.gone;
    attached = f.attached;
    started = f.started;
    opened = f.opened;
    free = λ there awaits. absurd (cc (f.free there awaits, writes));
    busy = λ there _. f.busy there writes;
    few = f.few;
    idle = λ there w. absurd (cc w);
  },
)

pub on_written-Fits :
    (outcome : Outcome ℕ) (h : Handler) → h.writing ≡ true → Fits h → Fits (on_written outcome h)
unfolding on_written do_write
on_written-Fits (done bytes_sent) h writes (p, f) =
    let offset = h.send_buffer_offset + bytes_sent in
    let written = record h { writing = false; send_buffer_offset = offset } in
    let complete = record written { send_buffer_offset = 0 } in
    let operation = trigger_next_hdlc_frame (requires_buffer_type h) in
    let unlocked = not (get_serial_port_state h.nbr_of_locks) in
    Fits-if (offset == length h.send_buffer)
      (if unlocked then drive operation complete else complete)
      (if unlocked then do_write written else written)
      (λ _.
        Fits-if unlocked (drive operation complete) complete
          (λ _. triggered-Fits h p f (λ _. writes))
          (λ locked. away-Fits h p false 0 f (locked_away h p f writes locked)))
      (λ _.
        Fits-if unlocked (do_write written) written (λ _. partial-Fits h p offset f writes)
          (λ locked. away-Fits h p false offset f (locked_away h p f writes locked)))
on_written-Fits error_code h writes (p, f) =
    let written = record h { writing = false } in
    let unlocked = not (get_serial_port_state h.nbr_of_locks) in
    Fits-if unlocked (stop_handler written) written
      (λ free.
        open-Fits written p f.ok f.has f.sound f.few
          (λ there. f.opened there ∙ ground (arith, free))
          (λ away. away-Fits h p false h.send_buffer_offset f away))
      (λ locked. away-Fits h p false h.send_buffer_offset f (locked_away h p f writes locked))
