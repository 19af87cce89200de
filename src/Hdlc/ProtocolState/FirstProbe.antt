-- ===== src/Hdlc/ProtocolState/FirstProbe.antt =====
-- ProtocolState.cpp, Start: the first probe.
use hdlcd.Base.{if_on, if_off, ◌+◌, ◌≡◌, refl, ap, ◌∙◌, Bool, true, false, not, [], ◌∷◌, arith}
use hdlcd.Hdlc.AliveState
use hdlcd.Hdlc.AliveState.{send_probe}
use hdlcd.Hdlc.FrameGenerator.{control_field}
use hdlcd.Hdlc.FrameParser.Delivery.{sealed}
use hdlcd.Hdlc.FrameParser.RoundTrip.{IsSendable, sent_message, deserialize-serialize}
use hdlcd.Hdlc.ProtocolState.{BufferType, Protocol, prepare_u_frame_test}
use hdlcd.Hdlc.ProtocolState.Transmit.{
  choose_probe, choose_alive, transmit, send_chosen, opportunity_for_transmission,
}
use hdlcd.Hdlc.ProtocolState.Operations.{reset, on_callback, on_callbacks, start}
use hdlcd.Hdlc.ProtocolState.Ledger.{Ledger, ledger, transmits, transmit-ledger}

test-IsSendable : IsSendable prepare_u_frame_test
unfolding control_field
test-IsSendable = record {
  control = _;
  append = false;
  supported = refl;
  no_cmdr = λ e. absurd (cc e);
  s_fits = omega arith;
  r_fits = omega arith;
  s_used = refl;
  r_used = refl;
  flag = refl;
  no_payload = λ e. refl;
  short = omega arith;
}

-- What Start has reset, with the timers of AliveState armed.
abbrev begun : Protocol → Protocol
begun p = record (reset p) { started = true; alive = (AliveState.start (reset p).alive).0 }

module _ (requires : BufferType → Bool) where
  -- The object once the TEST frame is chosen.
  abbrev probed : Protocol → Protocol
  probed p =
      transmit requires prepare_u_frame_test
        (sealed (sent_message prepare_u_frame_test test-IsSendable))
        (record p { send_probe = false })

  probe_is_sent :
      (p : Protocol)
      → p.awaits_next_hdlc_frame ≡ true
      → opportunity_for_transmission requires (record p { send_probe = true }) ≡ probed p
  unfolding opportunity_for_transmission choose_probe choose_alive send_chosen
  probe_is_sent p waits =
      if_off (not p.awaits_next_hdlc_frame) _ _ (ap not waits)
      ∙ rw (deserialize-serialize prepare_u_frame_test test-IsSendable).0 refl

  nothing_more :
      (p : Protocol)
      → p.awaits_next_hdlc_frame ≡ false
      → opportunity_for_transmission requires p ≡ p
  unfolding opportunity_for_transmission
  nothing_more p busy = if_on (not p.awaits_next_hdlc_frame) _ _ (ap not busy)

  -- Start of an object that has its port hands it one frame.
  pub start-transmits :
      (p : Protocol)
      → p.attached ≡ true
      → transmits (start requires p).emitted ≡ transmits p.emitted + 1
  unfolding start reset on_callbacks on_callback AliveState.start
  start-transmits p port =
      let b = begun p in
      let l : ledger (probed b) ≡ (false, transmits p.emitted + 1) =
        transmit-ledger requires prepare_u_frame_test
          (sealed (sent_message prepare_u_frame_test test-IsSendable))
          (record b { send_probe = false }) in
      let sent : on_callbacks requires (send_probe ∷ []) b ≡ probed b =
        if_on p.attached _ _ port ∙ probe_is_sent b refl in
      ap (λ q. transmits (opportunity_for_transmission requires q).emitted) sent
      ∙ ap (λ q. transmits q.emitted) (nothing_more (probed b) (ap (λ (x : Ledger). x.0) l))
      ∙ ap (λ (x : Ledger). x.1) l
