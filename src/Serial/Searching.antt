-- ===== src/Serial/Searching.antt =====
-- SerialPortHandler.cpp: the baud rate while the device does not answer.
use hdlcd.Base.{
  ℕ, zero, suc, ◌+◌, ◌<◌, ◌≡◌, refl, sym, ap, subst, ◌∙◌, true, false, ◌==◌, List, [], ◌∷◌, ◌++◌,
  some, arith, if◌then◌else◌,
}
use hdlcd.Hdlc.AliveState
use hdlcd.Hdlc.AliveState.{probing, Alive, is_alive, Callback}
use hdlcd.Hdlc.AliveState.Probing.{expire, count_changes, expire_four}
use hdlcd.Hdlc.ProtocolState.{Protocol}
use hdlcd.Serial.{get_baud_rate, toggle_baud_rate, Handler}
use hdlcd.Serial.Operations.{on_alive_probe_timer}
use hdlcd.Serial.Reachable.{
  some_injective, IsReachableHandler, and_then, probe_timer_step, reachable-Fits, port_never_fails,
}
use hdlcd.Serial.Tuning.{IsTuned, port_rate, probe_timer-IsTuned}
use hdlcd.Serial.Dial.{toggles, toggles-add, IsSearching, probe-IsSearching}

-- The probe timer expires a number of times, and nothing else happens.
abbrev pub probe_expiries : ℕ → Handler → Handler
probe_expiries zero h = h
probe_expiries (suc n) h = probe_expiries n (on_alive_probe_timer h)

count_changes-append :
    (calls later : List Callback)
    → count_changes calls + count_changes later ≡ count_changes (calls ++ later)
count_changes-append [] later = omega arith
count_changes-append (Callback.send_probe ∷ calls) later = count_changes-append calls later
count_changes-append (Callback.change_baud_rate ∷ calls) later =
    omega (arith, count_changes-append calls later)

probe_expiries-IsSearching :
    (n : ℕ) (h : Handler) (index : ℕ) (a : Alive)
    → IsSearching h index a
    → IsSearching (probe_expiries n h) (toggles (count_changes (expire n a).1) index) (expire n a).0
unfolding expire
probe_expiries-IsSearching zero h index a s = s
probe_expiries-IsSearching (suc n) h index a s =
    let (b, calls) = AliveState.probe_timer_expired a in
    let later = (expire n b).1 in
    subst (λ i. IsSearching (probe_expiries (suc n) h) i (expire n b).0)
      (toggles-add (count_changes calls) (count_changes later) index
        ∙ ap (λ m. toggles m index) (count_changes-append calls later))
      (probe_expiries-IsSearching n (on_alive_probe_timer h) (toggles (count_changes calls) index) b
        (probe-IsSearching h index a s))

probe_expiries-IsReachableHandler :
    (n : ℕ) (h : Handler) → IsReachableHandler h → IsReachableHandler (probe_expiries n h)
probe_expiries-IsReachableHandler zero h r = r
probe_expiries-IsReachableHandler (suc n) h r =
    probe_expiries-IsReachableHandler n (on_alive_probe_timer h) (and_then r (probe_timer_step h))

-- Four expiries while the device does not answer.
four-IsSearching :
    (h : Handler) (index : ℕ) (a : Alive)
    → a.state ≡ probing
    → a.probe_timer ≡ true
    → a.probe_counter < 4
    → IsSearching h index a
    → IsSearching (probe_expiries 4 h) (toggle_baud_rate index) a
four-IsSearching h index a state armed few s =
    let (same, probes, once) = expire_four a state armed few in
    subst (λ n. IsSearching (probe_expiries 4 h) (toggles n index) a) once
      (subst
        (λ b. IsSearching (probe_expiries 4 h) (toggles (count_changes (expire 4 a).1) index) b)
        same (probe_expiries-IsSearching 4 h index a s))

abbrev pub baud_rate : Handler → ℕ
baud_rate h = get_baud_rate h.current_baudrate_index

abbrev pub other_rate : ℕ → ℕ
other_rate rate = if rate == 9600 then 115200 else 9600

get_baud_rate-toggle :
    (index : ℕ) → get_baud_rate (toggle_baud_rate index) ≡ other_rate (get_baud_rate index)
unfolding get_baud_rate toggle_baud_rate
get_baud_rate-toggle index = ground arith

other_rate-other_rate :
    (index : ℕ) → other_rate (other_rate (get_baud_rate index)) ≡ get_baud_rate index
unfolding get_baud_rate
other_rate-other_rate index = ground arith

probe_expiries-IsTuned : (n : ℕ) (h : Handler) → IsTuned h → IsTuned (probe_expiries n h)
probe_expiries-IsTuned zero h t = t
probe_expiries-IsTuned (suc n) h t =
    probe_expiries-IsTuned n (on_alive_probe_timer h) (probe_timer-IsTuned h t)

-- In every history of `port_never_fails`, while a registered handler's protocol probes with its probe
-- timer armed and a probe counter below 4, and the last set_option has set the port to the rate of
-- GetBaudRate: after any four expiries of that timer in a row the last set_option has set the port to the
-- other of the two baud rates, 9600 and 115200, after any eight to the first one again. GetBaudRate
-- agrees with the port both times, and nothing fails meanwhile.
pub rates_are_searched :
    (h : Handler) (p : Protocol)
    → IsReachableHandler h
    → h.registered ≡ true
    → h.protocol ≡ some p
    → p.alive.state ≡ probing
    → p.alive.probe_timer ≡ true
    → p.alive.probe_counter < 4
    → port_rate h.calls ≡ some (baud_rate h)
    → (port_rate (probe_expiries 4 h).calls ≡ some (other_rate (baud_rate h)))
      × (port_rate (probe_expiries 8 h).calls ≡ some (baud_rate h))
      × (baud_rate (probe_expiries 4 h) ≡ other_rate (baud_rate h))
      × (baud_rate (probe_expiries 8 h) ≡ baud_rate h)
      × ((probe_expiries 8 h).failed ≡ false)
rates_are_searched h p r on has state armed few tuned =
    let (q, f) = reachable-Fits h r in
    let index = h.current_baudrate_index in
    let s : IsSearching h index p.alive = record {
      on = on;
      rate = refl;
      p = p;
      has = has;
      attached = ap (λ t. t.attached) (some_injective p q (sym has ∙ f.has)) ∙ f.attached on;
      alive = refl;
    } in
    let four = four-IsSearching h index p.alive state armed few s in
    let eight =
      four-IsSearching (probe_expiries 4 h) (toggle_baud_rate index) p.alive state armed few four in
    let turn = get_baud_rate-toggle index in
    let after_four = ap get_baud_rate four.rate ∙ turn in
    let after_eight =
      ap get_baud_rate eight.rate
      ∙ get_baud_rate-toggle (toggle_baud_rate index)
      ∙ ap other_rate turn
      ∙ other_rate-other_rate index in
    (
      probe_expiries-IsTuned 4 h tuned ∙ ap some after_four,
      probe_expiries-IsTuned 8 h tuned ∙ ap some after_eight,
      after_four,
      after_eight,
      (port_never_fails (probe_expiries 8 h) (probe_expiries-IsReachableHandler 8 h r)).0,
    )
