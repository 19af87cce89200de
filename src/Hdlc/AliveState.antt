-- ===== src/Hdlc/AliveState.antt =====
-- src/SerialPort/HDLC/AliveState.cpp: whether the device at the serial port answers. The two
-- callbacks are recorded in the order of the calls; all members are written before they are called.
-- A timer is armed or not. Cancelling it keeps its handler from running.
pub mod Silence
pub mod Probing
use hdlcd.Base.{
  ℕ, ◌+◌, bit_and, Bool, true, false, not, ◌||◌, List, [], ◌∷◌, Option, none, some, ◌==◌,
  if◌then◌else◌,
}

-- E_ALIVESTATE.
pub data State : Type 0 where
  probing found reprobing : State

-- m_SendProbeCallback and m_ChangeBaudrateCallback.
pub data Callback : Type 0 where
  send_probe change_baud_rate : Callback

pub record Alive : Type 0 where
  pub state : State
  pub frame_was_received : Bool
  pub probe_counter : ℕ
  pub state_timer : Bool
  pub probe_timer : Bool

-- Reset touches no timer.
unfoldable pub reset : Alive → Alive
reset a = record a { state = probing; frame_was_received = false; probe_counter = 0 }

-- The constructor.
unfoldable pub initial : Alive
initial = record {
  state = probing;
  frame_was_received = false;
  probe_counter = 0;
  state_timer = false;
  probe_timer = false;
}

-- Start: cancels both timers, arms them again and sends the first probe.
unfoldable pub start : Alive → Alive × List Callback
start a = (
  record a {
    probe_counter = 0;
    state = probing;
    frame_was_received = false;
    state_timer = true;
    probe_timer = true;
  },
  send_probe ∷ [],
)

unfoldable pub stop : Alive → Alive
unfolding reset
stop a = reset (record a { state_timer = false; probe_timer = false })

-- OnFrameReceived: whether the internal state changed.
unfoldable pub on_frame_received : Alive → Alive × Bool
on_frame_received a = (record a { frame_was_received = true; state = found }, was_probing a.state)
  where
    was_probing : State → Bool
    was_probing probing = true
    was_probing found = false
    was_probing reprobing = false

abbrev pub is_alive_state : State → Bool
is_alive_state probing = false
is_alive_state found = true
is_alive_state reprobing = true

abbrev pub is_alive : Alive → Bool
is_alive a = is_alive_state a.state

-- OnStateTimeout by the current state; `none` is the assertion that must not fail.
unfoldable pub state_timeout_in : State → Alive → Option Alive
state_timeout_in found a = some (
    if a.frame_was_received
    then record a { frame_was_received = false }
    else record a { state = reprobing })
state_timeout_in reprobing a =
    if not a.frame_was_received then some (record a { state = probing }) else none
state_timeout_in probing a = some a

unfoldable pub on_state_timeout : Alive → Option Alive
unfolding state_timeout_in
on_state_timeout a = state_timeout_in a.state a

-- OnProbeTimeout by the current state.
unfoldable pub probe_timeout_in : State → Alive → Alive × List Callback
probe_timeout_in probing a =
    let counter = bit_and (a.probe_counter + 1) 0x03 in
    (
      record a { probe_counter = counter },
      if counter == 0 then change_baud_rate ∷ send_probe ∷ [] else send_probe ∷ [],
    )
probe_timeout_in reprobing a = (a, send_probe ∷ [])
probe_timeout_in found a = (a, [])

unfoldable pub on_probe_timeout : Alive → Alive × List Callback
unfolding probe_timeout_in
on_probe_timeout a = probe_timeout_in a.state a

-- The handler of the state timer arms it again.
unfoldable pub state_timer_expired : Alive → Option Alive
unfolding on_state_timeout
state_timer_expired a = if a.state_timer then on_state_timeout a else some a

unfoldable pub probe_timer_expired : Alive → Alive × List Callback
unfolding on_probe_timeout
probe_timer_expired a = if a.probe_timer then on_probe_timeout a else (a, [])
