-- ===== src/Client/Guarantees.antt =====
-- HdlcdServerHandler.cpp: what a client keeps to, whatever calls it.
use hdlcd.Base.{
  ℕ, ◌≡◌, refl, sym, ap, ◌∙◌, inl, inr, Bool, true, false, not, ◌&&◌, [], ◌∷◌, ◌++◌, Option, none,
  some, arith, if◌then◌else◌, append-nil, ◌==◌, ◌||◌, Bool-cases,
}
use hdlcd.Client.{Packet, send_port_status, Client, demand}
use hdlcd.Client.Operations.{
  update_serial_port_state, query_for_payload, query_pending, on_data_received,
}
use hdlcd.Client.Sound.{listed}
use hdlcd.Client.Status.{told, state_for, same_state, update-calls}
use hdlcd.Client.Flow.{handed_over, waiting}
use hdlcd.Client.Reachable.{
  Session, triggers, queried, arrived, IsReachableSession, reachable-IsServed,
}

-- Whatever a started client is called with, in any order that its endpoints and its port allow: no
-- assertion fails and nothing is called through a missing pointer. The client is in the list of the
-- collection exactly while it is registered; it then has one of its two endpoints, and none afterwards.
pub client_never_fails :
    (s : Session)
    → IsReachableSession s
    → let c = s.client in
      (c.failed ≡ false)
      × (listed c.calls ≡ c.registered)
      × (c.frame_endpoint ≡ (c.registered && not c.packet_endpoint))
      × (c.packet_endpoint ≡ true → c.registered ≡ true)
client_never_fails s r =
    let sound = (reachable-IsServed s r).sound in
    (sound.ok, sound.in_list, sound.frame, λ p. (sound.packet p).0)

-- In every reachable session the packets given to DeliverPayloadToHDLC, followed by the one that waits
-- if there is one, are the packets received, in their order; and while one waits the endpoint does not
-- receive. This holds for every kind of session, also for those that only read and those for the port
-- status only.
pub packets_pass_in_order :
    (s : Session)
    → IsReachableSession s
    → (handed_over s.client.calls ++ waiting s.client.pending ≡ s.received)
      × (s.receiving ≡ true → s.client.pending ≡ none)
packets_pass_in_order s r = let i = reachable-IsServed s r in (i.passed_on, i.stalled)

-- In every reachable session UpdateSerialPortState sends the new state, that is whether the port is
-- alive, locked by others and locked by the client itself, exactly if it is not the state sent last.
pub status_is_sent_on_change :
    (s : Session) (alive : Bool) (lock_holders : ℕ)
    → IsReachableSession s
    → let now = state_for s.client alive lock_holders in
      (update_serial_port_state alive lock_holders s.client).calls ≡ (
        if same_state now (told s.client.calls)
        then s.client.calls
        else send_port_status now.0 now.1 now.2 ∷ s.client.calls)
status_is_sent_on_change s alive lock_holders r =
    update-calls alive lock_holders s.client (reachable-IsServed s r).told_last

-- What a query for both kinds does to a client.
abbrev HasMovedOn : Option Packet → Client → Client → Type 0
HasMovedOn o c d =
    (handed_over d.calls ≡ handed_over c.calls ++ waiting o)
    × (o ≡ none → d.awaits_packet ≡ true)
    × ((triggers d.calls == triggers c.calls) ≡ false)

query_pending_both : (o : Option Packet) (c : Client) → HasMovedOn o c (query_pending true true o c)
unfolding query_pending
query_pending_both none c = (sym (append-nil (handed_over c.calls)), λ _. refl, ground arith)
query_pending_both (some packet) c = elim (Bool-cases packet.reliable) [
  | inl e ↦ rw e (refl, λ e'. absurd (cc e'), ground arith)
  | inr e ↦ rw e (refl, λ e'. absurd (cc e'), ground arith)
]

if_registered :
    (registered : Bool) (o : Option Packet) (c d e : Client)
    → registered ≡ true
    → HasMovedOn o c e
    → HasMovedOn o c (if not registered then d else e)
if_registered true o c d e on m = m
if_registered false o c d e on m = absurd (cc on)

query_both :
    (c : Client) → c.registered ≡ true → HasMovedOn c.pending c (query_for_payload true true c)
unfolding query_for_payload
query_both c on =
    let d = demand true c in
    if_registered c.registered c.pending c d (query_pending true true c.pending d) on
      (query_pending_both c.pending d)

-- The next packet when one is awaited.
data_now :
    (next : Packet) (c : Client)
    → c.awaits_packet ≡ true
    → ((on_data_received next c).1 ≡ true)
      × (handed_over (on_data_received next c).0.calls ≡ handed_over c.calls ++ next ∷ [])
unfolding on_data_received
data_now next c e = rw e (refl, refl)

triggered : (receiving same : Bool) → same ≡ false → (receiving || not same) ≡ true
triggered receiving same e = ground arith

-- In every reachable session a registered client that is asked for payload of both kinds hands over the
-- packet that waits and receives again; if none waits, the next packet that arrives is handed over at
-- once and the endpoint goes on receiving.
pub query_moves_on :
    (s : Session) (next : Packet)
    → IsReachableSession s
    → s.client.registered ≡ true
    → let t = queried true true s in
      (t.receiving ≡ true)
      × (handed_over t.client.calls ≡ handed_over s.client.calls ++ waiting s.client.pending)
      × (s.client.pending ≡ none
          → let u = arrived next t in
            (u.receiving ≡ true) × (handed_over u.client.calls ≡ s.received ++ next ∷ []))
query_moves_on s next r on =
    let c = s.client in
    let (given, awaits, changed) = query_both c on in
    (
      triggered s.receiving _ changed,
      given,
      λ e.
          let (goes_on, passed) = data_now next (query_for_payload true true c) (awaits e) in
          (goes_on, passed ∙ ap (λ l. l ++ next ∷ []) (given ∙ (reachable-IsServed s r).passed_on)),
    )
