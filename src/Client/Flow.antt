-- ===== src/Client/Flow.antt =====
-- HdlcdServerHandler.cpp: the data packets that a client passes on.
use hdlcd.Base.{
  ℕ, ◌≡◌, refl, ap, ◌∙◌, ◌⊎◌, inl, inr, Bool, true, false, not, ◌||◌, List, [], ◌∷◌, ◌++◌, Option,
  none, some, arith, if◌then◌else◌, Bool-cases, append-nil,
}
use hdlcd.Hdlc.ProtocolState.{BufferType}
use hdlcd.Client.{Packet, Ctrl, Call, deliver_payload, Client, demand}
use hdlcd.Client.Keeps.{IsKept}
use hdlcd.Client.Operations.{
  deliver_buffer_to_client, update_serial_port_state, query_for_payload, query_pending, suits, stop,
  close_endpoint, on_data_received, on_ctrl_received, set_lock,
}

-- The packets handed to DeliverPayloadToHDLC, the oldest first.
abbrev pub handed_over : List Call → List Packet
handed_over [] = []
handed_over (deliver_payload packet ∷ calls) = handed_over calls ++ packet ∷ []
handed_over (_ ∷ calls) = handed_over calls

abbrev pub waiting : Option Packet → List Packet
waiting none = []
waiting (some packet) = packet ∷ []

-- What has been received, in the order of the calls.
abbrev pub taken : Client → List Packet
taken c = handed_over c.calls ++ waiting c.pending

abbrev pub flow : Client → List Packet × Option Packet
flow c = (handed_over c.calls, c.pending)

pub update-flow :
    (alive : Bool) (n : ℕ) (c : Client) → flow (update_serial_port_state alive n c) ≡ flow c
unfolding update_serial_port_state
update-flow alive n c = ground arith

pub deliver-flow :
    (type : BufferType) (payload : List ℕ) (reliable invalid was_sent : Bool) (c : Client)
    → flow (deliver_buffer_to_client type payload reliable invalid was_sent c) ≡ flow c
unfolding deliver_buffer_to_client
deliver-flow type payload reliable invalid was_sent c = ground arith

pub stop-flow : (c : Client) → flow (stop c) ≡ flow c
unfolding stop close_endpoint
stop-flow c = ground arith

pub ctrl-flow : (ctrl : Ctrl) (c : Client) → flow (on_ctrl_received ctrl c) ≡ flow c
unfolding on_ctrl_received set_lock
ctrl-flow ctrl c = ground arith

abbrev pub flow-IsKept : (f : List Packet × Option Packet) → IsKept (λ c. flow c ≡ f)
flow-IsKept f = record {
  by_demand = λ ok c e. e;
  by_type = λ type c e. e;
  by_opening = λ sap name c e. e;
  by_port = λ c e. e;
  by_start = λ c e. e;
  by_update = λ alive n c e. update-flow alive n c ∙ e;
  by_deliver = λ type payload reliable invalid was_sent c e.
      deliver-flow type payload reliable invalid was_sent c ∙ e;
  by_stop = λ c e. stop-flow c ∙ e;
}

query_pending-taken :
    (query_reliable query_unreliable : Bool) (o : Option Packet) (c : Client)
    → c.pending ≡ o
    → taken (query_pending query_reliable query_unreliable o c) ≡ handed_over c.calls ++ waiting o
unfolding query_pending
query_pending-taken query_reliable query_unreliable none c e =
    ap (λ o. handed_over c.calls ++ waiting o) e
query_pending-taken query_reliable query_unreliable (some packet) c e =
    elim (Bool-cases (suits query_reliable query_unreliable packet)) [
      | inl fits ↦ rw fits (append-nil (handed_over c.calls ++ packet ∷ []))
      | inr differs ↦ rw differs (ap (λ o. handed_over c.calls ++ waiting o) e)
    ]

query-taken-if :
    (on : Bool) (c d : Client) → taken d ≡ taken c → taken (if not on then c else d) ≡ taken c
query-taken-if true c d e = e
query-taken-if false c d e = refl

pub query-taken :
    (query_reliable query_unreliable : Bool) (c : Client)
    → taken (query_for_payload query_reliable query_unreliable c) ≡ taken c
unfolding query_for_payload
query-taken query_reliable query_unreliable c =
    let d = demand (query_reliable || query_unreliable) c in
    query-taken-if c.registered d (query_pending query_reliable query_unreliable c.pending d)
      (query_pending-taken query_reliable query_unreliable c.pending d refl)

pub data-taken :
    (packet : Packet) (c : Client)
    → c.pending ≡ none
    → taken (on_data_received packet c).0 ≡ taken c ++ packet ∷ []
unfolding on_data_received
data-taken packet c e =
    let before : taken c ≡ handed_over c.calls =
      ap (λ o. handed_over c.calls ++ waiting o) e ∙ append-nil (handed_over c.calls) in
    rw before (elim (Bool-cases c.awaits_packet) [
      | inl now ↦ rw now (append-nil (handed_over c.calls ++ packet ∷ []))
      | inr later ↦ rw later refl
    ])

-- A query that calls something leaves nothing behind.
pub query-pending :
    (query_reliable query_unreliable : Bool) (c : Client)
    → let d = query_for_payload query_reliable query_unreliable c in
      (d.pending ≡ none) ⊎ ((d.calls ≡ c.calls) × (d.pending ≡ c.pending))
unfolding query_for_payload query_pending
query-pending query_reliable query_unreliable c = ground arith

pub query-frame :
    (query_reliable query_unreliable : Bool) (c : Client)
    → (query_for_payload query_reliable query_unreliable c).frame_endpoint ≡ c.frame_endpoint
unfolding query_for_payload query_pending
query-frame query_reliable query_unreliable c = ground arith

pub data-pending :
    (packet : Packet) (c : Client)
    → (on_data_received packet c).1 ≡ true
    → (on_data_received packet c).0.pending ≡ none
unfolding on_data_received
data-pending packet c e = ground arith

pub data-frame :
    (packet : Packet) (c : Client) → (on_data_received packet c).0.frame_endpoint ≡ c.frame_endpoint
unfolding on_data_received
data-frame packet c = ground arith

pub stop-frame : (c : Client) → (stop c).frame_endpoint ≡ true → c.frame_endpoint ≡ true
unfolding stop close_endpoint
stop-frame c e = ground arith
