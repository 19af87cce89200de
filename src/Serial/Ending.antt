-- ===== src/Serial/Ending.antt =====
-- SerialPortHandler.cpp: Stop, and what it meets on a port that is locked.
use hdlcd.Base.{
  if_on, if_off, if_not_on, ℕ, ◌<◌, ◌≡◌, refl, ap, ◌∙◌, Bool, true, false, not, ◌||◌, ◌&&◌, List,
  ◌∷◌, some, arith, if◌then◌else◌,
}
use hdlcd.Hdlc.ProtocolState.{Protocol}
use hdlcd.Hdlc.ProtocolState.Operations.{shutdown}
use hdlcd.Serial.{
  Handler, PortCall, cancel_port, close_port, deregister_port, stop_client, call, live,
  some_expired,
}
use hdlcd.Serial.Operations.{
  call_each, for_each_client, drive, give_up, cancel_and_close, stop_handler, suspend_port,
  resume_port,
}
use hdlcd.Serial.Fit.{cleared, returned, drive_off}
use hdlcd.Serial.Stopping.{shutdown-quiet, closing}
use hdlcd.Serial.Reachable.{IsReachableHandler, reachable-Fits}

-- What a sweep of the list leaves alone.
abbrev visible : Handler → Bool × Bool × List PortCall × Bool
visible h = (h.registered, h.port_open, h.calls, h.failed)

for_each_client-visible :
    (f : ℕ → PortCall) (h : Handler)
    → visible (for_each_client f h)
      ≡ (h.registered, h.port_open, call_each f (live h.clients) h.calls, h.failed)
unfolding for_each_client
for_each_client-visible f h =
    visible-if (not h.cyclic_call_guard && some_expired h.clients) _ _ _ refl refl
  where
    visible-if :
        (b : Bool) (x y : Handler) (v : Bool × Bool × List PortCall × Bool)
        → visible x ≡ v
        → visible y ≡ v
        → visible (if b then x else y) ≡ v
    visible-if true x y v hx hy = hx
    visible-if false x y v hx hy = hy

-- Giving up: the collection forgets the port, and every client is stopped.
give_up-visible :
    (h : Handler) (p : Protocol)
    → h.protocol ≡ some p
    → h.collection ≡ true
    → visible (give_up h) ≡ (
      h.registered,
      h.port_open,
      call_each (λ client. stop_client client) (live h.clients) (deregister_port ∷ h.calls),
      h.failed || (shutdown (cleared p)).failed,
    )
unfolding give_up
give_up-visible h p has listed =
    let q = shutdown (cleared p) in
    let down : drive shutdown h ≡ returned h q =
      drive_off shutdown h p has (shutdown-quiet (cleared p)).1 in
    ap
      (λ d. visible (
        for_each_client (λ client. stop_client client)
          (if d.collection then call deregister_port d else d)))
      down
    ∙ ap (λ d. visible (for_each_client (λ client. stop_client client) d))
        (if_on h.collection (call deregister_port (returned h q)) (returned h q) listed)
    ∙ for_each_client-visible (λ client. stop_client client) (call deregister_port (returned h q))

-- Stop of a registered port that is open.
stop_handler-open :
    (h : Handler)
    → h.registered ≡ true
    → h.port_open ≡ true
    → stop_handler h ≡ give_up (closing (record h { registered = false }))
unfolding stop_handler cancel_and_close
stop_handler-open h there opened = if_on h.registered _ h there ∙ if_on h.port_open _ _ opened

unregistered_stop : (k : Handler) → k.registered ≡ false → stop_handler k ≡ k
unfolding stop_handler
unregistered_stop k away = if_off k.registered _ k away

unregistered_suspend : (k : Handler) → k.registered ≡ false → suspend_port k ≡ k
unfolding suspend_port
unregistered_suspend k away = if_not_on k.registered k _ away

unregistered_resume : (opens : Bool) (k : Handler) → k.registered ≡ false → resume_port opens k ≡ k
unfolding resume_port
unregistered_resume opens k away = if_not_on k.registered k _ away

-- Stop of a registered port that is open cancels and closes it, makes the collection forget it and then
-- stops every client that is still there, in this order and once; Stop, SuspendSerialPort and
-- ResumeSerialPort change nothing any more.
pub stop_is_final :
    (h : Handler) (p : Protocol)
    → h.registered ≡ true
    → h.port_open ≡ true
    → h.protocol ≡ some p
    → h.collection ≡ true
    → let k = stop_handler h in
      (k.registered ≡ false)
      × (k.port_open ≡ false)
      × (k.calls
          ≡ call_each
              (λ client. stop_client client)
              (live h.clients)
              (deregister_port ∷ close_port ∷ cancel_port ∷ h.calls))
      × (stop_handler k ≡ k)
      × (suspend_port k ≡ k)
      × ((opens : Bool) → resume_port opens k ≡ k)
stop_is_final h p there opened has listed =
    let k = stop_handler h in
    let v =
      ap visible (stop_handler-open h there opened)
      ∙ give_up-visible (closing (record h { registered = false })) p has listed in
    let away : k.registered ≡ false = ap (λ t. t.0) v in
    (
      away,
      ap (λ t. t.1) v,
      ap (λ t. t.2) v,
      unregistered_stop k away,
      unregistered_suspend k away,
      λ opens. unregistered_resume opens k away,
    )

-- In every history of `port_never_fails`, a Stop of a registered port that is locked calls cancel on the
-- closed port, which throws: the port is not registered any more, but the collection still has it and no
-- client is stopped.
pub stop_while_locked_throws :
    (h : Handler)
    → IsReachableHandler h
    → h.registered ≡ true
    → 0 < h.nbr_of_locks
    → let k = stop_handler h in
      (k.failed ≡ true) × (k.registered ≡ false) × (k.calls ≡ cancel_port ∷ h.calls)
unfolding stop_handler cancel_and_close
stop_while_locked_throws h r there locked =
    let (p, f) = reachable-Fits h r in
    let closed : h.port_open ≡ false = f.opened there ∙ ground (arith, locked) in
    let e =
      ap visible (if_on h.registered _ h there) ∙ ap visible (if_off h.port_open _ _ closed) in
    (ap (λ t. t.3) e ∙ ground arith, ap (λ t. t.0) e, ap (λ t. t.2) e)
