-- ===== src/Hdlc/ProtocolState/Rates.antt =====
-- ProtocolState.cpp: the calls of ChangeBaudRate. Only the callback of AliveState makes one.
use hdlcd.Base.{ℕ, ◌+◌, ◌≡◌, refl, ap, ◌∙◌, Bool, true, false, List, [], ◌∷◌, arith, if◌then◌else◌}
use hdlcd.Hdlc.AliveState
use hdlcd.Hdlc.AliveState.{is_alive, Callback}
use hdlcd.Hdlc.AliveState.Probing.{count_changes}
use hdlcd.Hdlc.ProtocolState.{
  BufferType, change_baud_rate, propagate_serial_port_state, Protocol, emit,
}
use hdlcd.Hdlc.ProtocolState.Operations.{on_callback, on_callbacks, alive_probe_timer_expired}
use hdlcd.Hdlc.ProtocolState.Kept.{on_callbacks-IsSafe}
use hdlcd.Hdlc.ProtocolState.Untouched.{
  Untouched, untouched, changes, changes-append, emit-untouched,
  opportunity_for_transmission-untouched,
}

abbrev Rates : Type 0
Rates = Bool × ℕ

abbrev rates_of : Untouched → Rates
rates_of u = (u.0, u.1)

abbrev pub rates : Protocol → Rates
rates p = rates_of (untouched p)

rates-if :
    (b : Bool) (w : Rates) (x y : Protocol)
    → rates x ≡ w
    → rates y ≡ w
    → rates (if b then x else y) ≡ w
rates-if true w x y hx hy = hx
rates-if false w x y hx hy = hy

module _ (requires : BufferType → Bool) where
  send_probe-rates : (p : Protocol) → rates (on_callback requires Callback.send_probe p) ≡ rates p
  unfolding on_callback
  send_probe-rates p =
      rates-if p.attached _ _ _
        (ap rates_of
          (opportunity_for_transmission-untouched requires (record p { send_probe = true })))
        refl

  change_baud_rate-rates :
      (p : Protocol) (n : ℕ)
      → rates p ≡ (true, n)
      → rates (on_callback requires Callback.change_baud_rate p) ≡ (true, n + 1)
  unfolding on_callback
  change_baud_rate-rates p n e =
      let told = emit change_baud_rate p in
      if_on p.attached _ _ (ap (λ (r : Rates). r.0) e)
      ∙ ap rates_of (emit-untouched propagate_serial_port_state told refl)
      ∙ ap (λ m. (p.attached, m)) (changes-append p.emitted change_baud_rate)
      ∙ ap (λ (r : Rates). (r.0, r.1 + 1)) e
    where
      if_on : (b : Bool) (x y : Protocol) → b ≡ true → rates (if b then x else y) ≡ rates x
      if_on true x y on = refl
      if_on false x y on = absurd (cc on)

  pub on_callbacks-rates :
      (cs : List Callback) (p : Protocol) (n : ℕ)
      → rates p ≡ (true, n)
      → rates (on_callbacks requires cs p) ≡ (true, n + count_changes cs)
  unfolding on_callbacks
  on_callbacks-rates [] p n e = e ∙ ap (λ m. (true, m)) (omega arith)
  on_callbacks-rates (Callback.send_probe ∷ cs) p n e =
      on_callbacks-rates cs (on_callback requires Callback.send_probe p) n (send_probe-rates p ∙ e)
  on_callbacks-rates (Callback.change_baud_rate ∷ cs) p n e =
      on_callbacks-rates cs (on_callback requires Callback.change_baud_rate p) (n + 1)
        (change_baud_rate-rates p n e)
      ∙ ap (λ m. (true, m)) (omega arith)

  -- The probe timer expires: what the callbacks ask for reaches the port.
  pub alive_probe_timer_expired-rates :
      (p : Protocol)
      → p.attached ≡ true
      → let (a, calls) = AliveState.probe_timer_expired p.alive in
        (rates (alive_probe_timer_expired requires p)
          ≡ (true, changes p.emitted + count_changes calls))
        × ((alive_probe_timer_expired requires p).alive ≡ a)
  unfolding alive_probe_timer_expired
  alive_probe_timer_expired-rates p on =
      let (a, calls) = AliveState.probe_timer_expired p.alive in
      let q = record p { alive = a } in
      (
        on_callbacks-rates calls q (changes p.emitted) (ap (λ b. (b, changes p.emitted)) on),
        (on_callbacks-IsSafe requires calls q).keeps_alive,
      )
