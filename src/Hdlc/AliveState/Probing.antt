-- ===== src/Hdlc/AliveState/Probing.antt =====
-- AliveState.cpp: the search for the baud rate while the device does not answer.
use hdlcd.Base.{ℕ, zero, suc, ◌<◌, ◌≡◌, refl, Bool, true, List, [], ◌∷◌, ◌++◌, arith, subst}
use hdlcd.Hdlc.AliveState.{
  probing, Callback, send_probe, change_baud_rate, Alive, probe_timer_expired,
}

-- The callbacks of `n` expiries of the probe timer, in order, and the state after them.
unfoldable pub expire : ℕ → Alive → Alive × List Callback
expire zero a = (a, [])
expire (suc n) a =
    let (a', calls) = probe_timer_expired a in
    let (a'', later) = expire n a' in (a'', calls ++ later)

abbrev pub count_probes : List Callback → ℕ
count_probes [] = 0
count_probes (send_probe ∷ calls) = suc (count_probes calls)
count_probes (change_baud_rate ∷ calls) = count_probes calls

abbrev pub count_changes : List Callback → ℕ
count_changes [] = 0
count_changes (send_probe ∷ calls) = count_changes calls
count_changes (change_baud_rate ∷ calls) = suc (count_changes calls)

abbrev FourProbes : Alive → Type 0
FourProbes a =
    ((expire 4 a).0 ≡ a) × (count_probes (expire 4 a).1 ≡ 4) × (count_changes (expire 4 a).1 ≡ 1)

abbrev probing_at : ℕ → Bool → Bool → Alive
probing_at counter received timer = record {
  state = probing;
  frame_was_received = received;
  probe_counter = counter;
  state_timer = timer;
  probe_timer = true;
}

probing_at-FourProbes :
    (counter : ℕ) (received timer : Bool)
    → counter < 4
    → FourProbes (probing_at counter received timer)
unfolding expire probe_timer_expired
probing_at-FourProbes zero received timer h = (refl, refl, refl)
probing_at-FourProbes (suc zero) received timer h = (refl, refl, refl)
probing_at-FourProbes (suc (suc zero)) received timer h = (refl, refl, refl)
probing_at-FourProbes (suc (suc (suc zero))) received timer h = (refl, refl, refl)
probing_at-FourProbes (suc (suc (suc (suc counter)))) received timer h = absurd (omega arith)

-- While probing with a probe counter below 4, any four expiries of the armed probe timer in a row send four probes, change the
-- baud rate once and leave the object as it was.
pub expire_four :
    (a : Alive)
    → a.state ≡ probing
    → a.probe_timer ≡ true
    → a.probe_counter < 4
    → ((expire 4 a).0 ≡ a) × (count_probes (expire 4 a).1 ≡ 4) × (count_changes (expire 4 a).1 ≡ 1)
expire_four a s armed h =
    subst FourProbes {y = a} (ground arith)
      (probing_at-FourProbes a.probe_counter a.frame_was_received a.state_timer h)
