-- ===== src/Client/Reachable.antt =====
-- HdlcdServerHandler.cpp: the states of a client, and the data packets that it passes on.
use hdlcd.Base.{
  ℕ, ◌≡◌, refl, sym, ap, ◌∙◌, inl, inr, Bool, true, false, not, ◌||◌, ◌==◌, List, [], ◌∷◌, ◌++◌,
  none, some, arith, suc,
}
use hdlcd.Hdlc.ProtocolState.{BufferType}
use hdlcd.Client.{Packet, Ctrl, SessionHeader, Call, trigger_next_data_packet, Client, new_client}
use hdlcd.Client.Operations.{
  deliver_buffer_to_client, update_serial_port_state, query_for_payload, start, stop, Answer,
  on_frame, on_data_received, on_ctrl_received, set_lock, on_closed,
}
use hdlcd.Client.Keeps.{on_frame-keeps}
use hdlcd.Client.Status.{
  IsTold, IsTold-IsKept, update-IsTold, stop-IsTold, deliver_buffer_to_client-IsTold,
  query_for_payload-IsTold, on_data_received-IsTold, on_ctrl_received-IsTold,
}
use hdlcd.Client.Flow.{
  waiting, taken, flow, flow-IsKept, update-flow, deliver-flow, stop-flow, ctrl-flow, query-taken,
  data-taken, query-pending, data-pending, data-frame, query-frame, stop-frame,
}
use hdlcd.Client.Sound.{
  IsSound, IsUnlocked, start-IsSound, deliver_buffer_to_client-IsSound, update-IsSound,
  stop-IsSound, query_for_payload-IsSound, on_data_received-IsSound, on_ctrl_received-IsSound,
  on_frame-IsSound,
}

-- A client with what its packet endpoint does: whether it receives, and the packets so far. The
-- endpoint receives from its start on, stalls when OnDataReceived returns false and goes on when
-- TriggerNextDataPacket is called.
pub record Session : Type 0 where
  pub client : Client
  pub receiving : Bool
  pub received : List Packet

-- How often the client has called TriggerNextDataPacket.
abbrev pub triggers : List Call → ℕ
triggers [] = 0
triggers (trigger_next_data_packet ∷ calls) = suc (triggers calls)
triggers (other ∷ calls) = triggers calls

-- The endpoint goes on when the query triggers it.
abbrev pub queried : Bool → Bool → Session → Session
queried query_reliable query_unreliable s =
    let d = query_for_payload query_reliable query_unreliable s.client in
    record s {
      client = d;
      receiving = s.receiving || not (triggers d.calls == triggers s.client.calls);
    }

abbrev pub arrived : Packet → Session → Session
arrived packet s =
    let (d, goes_on) = on_data_received packet s.client in
    record { client = d; receiving = goes_on; received = s.received ++ packet ∷ [] }

abbrev pub served : (Client → Client) → Session → Session
served f s = record s { client = f s.client }

abbrev pub greeted : SessionHeader → Answer → Session → Session
greeted header answer s =
    let d = on_frame (some header) answer s.client in
    record s { client = d; receiving = d.packet_endpoint }

-- One call on a client that has been started. Its endpoints call it while they are there; the port
-- calls a client that has its packet endpoint, or one that has been stopped, and then only to query.
pub data SessionStep : Session → Session → Type 0 where
  header_step :
      (header : SessionHeader) (answer : Answer) (s : Session)
      → IsUnlocked answer
      → s.client.frame_endpoint ≡ true
      → SessionStep s (greeted header answer s)
  data_step :
      (packet : Packet) (s : Session)
      → s.client.packet_endpoint ≡ true
      → s.receiving ≡ true
      → SessionStep s (arrived packet s)
  ctrl_step :
      (ctrl : Ctrl) (s : Session)
      → s.client.packet_endpoint ≡ true
      → SessionStep s (served (on_ctrl_received ctrl) s)
  query_step :
      (query_reliable query_unreliable : Bool) (s : Session)
      → (query_reliable || query_unreliable) ≡ true
      → (s.client.registered ≡ true → s.client.packet_endpoint ≡ true)
      → SessionStep s (queried query_reliable query_unreliable s)
  update_step :
      (alive : Bool) (lock_holders : ℕ) (s : Session)
      → s.client.packet_endpoint ≡ true
      → SessionStep s (served (update_serial_port_state alive lock_holders) s)
  deliver_step :
      (type : BufferType) (payload : List ℕ) (reliable invalid was_sent : Bool) (s : Session)
      → s.client.packet_endpoint ≡ true
      → SessionStep s (served (deliver_buffer_to_client type payload reliable invalid was_sent) s)
  close_step : (s : Session) → SessionStep s (served on_closed s)
  stop_step : (s : Session) → SessionStep s (served stop s)

abbrev pub new_session : Session
new_session = record { client = start new_client; receiving = false; received = [] }

pub data IsReachableSession : Session → Type 0 where
  connected : IsReachableSession new_session
  then_step : {s t : Session} → IsReachableSession s → SessionStep s t → IsReachableSession t

-- What the members and the endpoint's state have in common.
pub record IsServed (s : Session) : Type 0 where
  pub sound : IsSound s.client
  pub told_last : IsTold s.client
  pub stalled : s.receiving ≡ true → s.client.pending ≡ none
  pub unopened : s.client.frame_endpoint ≡ true → s.client.pending ≡ none
  pub passed_on : taken s.client ≡ s.received

new_session-IsServed : IsServed new_session
unfolding start new_client
new_session-IsServed = record {
  sound = start-IsSound;
  told_last = refl;
  stalled = λ _. refl;
  unopened = λ _. refl;
  passed_on = refl;
}

-- An operation that passes no packet on.
apart :
    (f : Client → Client) (s : Session)
    → IsSound (f s.client)
    → IsTold (f s.client)
    → flow (f s.client) ≡ flow s.client
    → ((f s.client).frame_endpoint ≡ true → s.client.frame_endpoint ≡ true)
    → IsServed s
    → IsServed (served f s)
apart f s sound told_last same closed i = record {
  sound = sound;
  told_last = told_last;
  stalled = λ on. ap (λ w. w.1) same ∙ i.stalled on;
  unopened = λ on. ap (λ w. w.1) same ∙ i.unopened (closed on);
  passed_on = ap (λ w. w.0 ++ waiting w.1) same ∙ i.passed_on;
}

header-IsServed :
    (header : SessionHeader) (answer : Answer) (s : Session)
    → IsUnlocked answer
    → s.client.frame_endpoint ≡ true
    → IsServed s
    → IsServed (greeted header answer s)
header-IsServed header answer s u f i =
    let same : flow (on_frame (some header) answer s.client) ≡ flow s.client =
      on_frame-keeps (λ d. flow d ≡ flow s.client) (flow-IsKept (flow s.client)) header answer
        s.client refl in
    record {
      sound = on_frame-IsSound header answer s.client u f i.sound;
      told_last = on_frame-keeps IsTold IsTold-IsKept header answer s.client i.told_last;
      stalled = λ _. ap (λ w. w.1) same ∙ i.unopened f;
      unopened = λ _. ap (λ w. w.1) same ∙ i.unopened f;
      passed_on = ap (λ w. w.0 ++ waiting w.1) same ∙ i.passed_on;
    }

data-IsServed :
    (packet : Packet) (s : Session)
    → s.client.packet_endpoint ≡ true
    → s.receiving ≡ true
    → IsServed s
    → IsServed (arrived packet s)
data-IsServed packet s p r i =
    let free = i.stalled r in
    let sound = on_data_received-IsSound packet s.client p free i.sound in
    record {
      sound = sound;
      told_last = on_data_received-IsTold packet s.client i.told_last;
      stalled = data-pending packet s.client;
      unopened = λ f. absurd (ground (arith, data-frame packet s.client, i.sound));
      passed_on = data-taken packet s.client free ∙ ap (λ l. l ++ packet ∷ []) i.passed_on;
    }

untriggered :
    (receiving : Bool) (calls more : List Call)
    → more ≡ calls
    → (receiving || not (triggers more == triggers calls)) ≡ true
    → receiving ≡ true
untriggered receiving calls more e on = ground (arith, ap triggers e)

query-IsServed :
    (query_reliable query_unreliable : Bool) (s : Session)
    → (query_reliable || query_unreliable) ≡ true
    → (s.client.registered ≡ true → s.client.packet_endpoint ≡ true)
    → IsServed s
    → IsServed (queried query_reliable query_unreliable s)
query-IsServed query_reliable query_unreliable s q listed_by i =
    let c = s.client in
    let d = query_for_payload query_reliable query_unreliable c in
    record {
      sound = query_for_payload-IsSound query_reliable query_unreliable c q listed_by i.sound;
      told_last = query_for_payload-IsTold query_reliable query_unreliable c i.told_last;
      stalled = elim (query-pending query_reliable query_unreliable c) [
        | inl free ↦ λ _. free
        | inr same ↦ λ on. same.1 ∙ i.stalled (untriggered s.receiving c.calls d.calls same.0 on)
      ];
      unopened = elim (query-pending query_reliable query_unreliable c) [
        | inl free ↦ λ _. free
        | inr same ↦
            λ f. same.1 ∙ i.unopened (sym (query-frame query_reliable query_unreliable c) ∙ f)
      ];
      passed_on = query-taken query_reliable query_unreliable c ∙ i.passed_on;
    }

ctrl-frame :
    (ctrl : Ctrl) (c : Client) → (on_ctrl_received ctrl c).frame_endpoint ≡ c.frame_endpoint
unfolding on_ctrl_received set_lock
ctrl-frame ctrl c = ground arith

update-frame :
    (alive : Bool) (n : ℕ) (c : Client)
    → (update_serial_port_state alive n c).frame_endpoint ≡ c.frame_endpoint
unfolding update_serial_port_state
update-frame alive n c = ground arith

deliver-frame :
    (type : BufferType) (payload : List ℕ) (reliable invalid was_sent : Bool) (c : Client)
    → (deliver_buffer_to_client type payload reliable invalid was_sent c).frame_endpoint
      ≡ c.frame_endpoint
unfolding deliver_buffer_to_client
deliver-frame type payload reliable invalid was_sent c = ground arith

stop-IsServed : (s : Session) → IsServed s → IsServed (served stop s)
stop-IsServed s i =
    apart stop s (stop-IsSound s.client i.sound) (stop-IsTold s.client i.told_last)
      (stop-flow s.client) (stop-frame s.client) i

SessionStep-IsServed : {s t : Session} → SessionStep s t → IsServed s → IsServed t
unfolding on_closed
SessionStep-IsServed (header_step header answer s u f) i = header-IsServed header answer s u f i
SessionStep-IsServed (data_step packet s p r) i = data-IsServed packet s p r i
SessionStep-IsServed (ctrl_step ctrl s p) i =
    apart (on_ctrl_received ctrl) s (on_ctrl_received-IsSound ctrl s.client p i.sound)
      (on_ctrl_received-IsTold ctrl s.client i.told_last) (ctrl-flow ctrl s.client)
      (λ f. sym (ctrl-frame ctrl s.client) ∙ f) i
SessionStep-IsServed (query_step query_reliable query_unreliable s q l) i =
    query-IsServed query_reliable query_unreliable s q l i
SessionStep-IsServed (update_step alive n s p) i =
    apart (update_serial_port_state alive n) s (update-IsSound alive n s.client p i.sound)
      (update-IsTold alive n s.client i.told_last) (update-flow alive n s.client)
      (λ f. sym (update-frame alive n s.client) ∙ f) i
SessionStep-IsServed (deliver_step type payload reliable invalid was_sent s p) i =
    apart (deliver_buffer_to_client type payload reliable invalid was_sent) s
      (deliver_buffer_to_client-IsSound type payload reliable invalid was_sent s.client p i.sound)
      (deliver_buffer_to_client-IsTold type payload reliable invalid was_sent s.client i.told_last)
      (deliver-flow type payload reliable invalid was_sent s.client)
      (λ f. sym (deliver-frame type payload reliable invalid was_sent s.client) ∙ f) i
SessionStep-IsServed (close_step s) i = stop-IsServed s i
SessionStep-IsServed (stop_step s) i = stop-IsServed s i

pub reachable-IsServed : (s : Session) → IsReachableSession s → IsServed s
reachable-IsServed _ connected = new_session-IsServed
reachable-IsServed _ (then_step {s = s} r step) = SessionStep-IsServed step (reachable-IsServed s r)
