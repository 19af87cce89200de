-- ===== src/Hdlc/AliveState/Silence.antt =====
-- AliveState.cpp: the periods of the state timer since the last frame, and IsAlive.
use mathlib.Core.Option
use hdlcd.Base.{
  ℕ, suc, ◌≤◌, ◌≡◌, refl, Bool, true, false, List, [], ◌∷◌, Option, none, some, arith, ltb, ◌⊎◌,
  inl, inr,
}
use hdlcd.Hdlc.AliveState.{
  probing, found, reprobing, Alive, start, on_frame_received, is_alive, state_timer_expired,
  probe_timer_expired,
}

-- A set flag belongs to the state FOUND, so the assertion in OnStateTimeout holds.
abbrev pub IsConsistent : Alive → Type 0
IsConsistent a = (a.frame_was_received ≡ false) ⊎ (a.state ≡ found)

pub data Event : Type 0 where
  frame state_timeout probe_timeout : Event

-- `none` where the assertion fails.
unfoldable pub step : Event → Alive → Option Alive
step frame a = some (on_frame_received a).0
step state_timeout a = state_timer_expired a
step probe_timeout a = some (probe_timer_expired a).0

-- The state after a history, newest event first, from a call of Start.
unfoldable pub run : Alive → List Event → Option Alive
unfolding step
run a [] = some (start a).0
run a (e ∷ es) = Option.bind (run a es) (step e)

-- How many periods of the state timer have passed since the last frame, if there was one.
pub periods_since_frame : List Event → Option ℕ
periods_since_frame [] = none
periods_since_frame (frame ∷ es) = some 0
periods_since_frame (state_timeout ∷ es) = Option.map suc (periods_since_frame es)
periods_since_frame (probe_timeout ∷ es) = periods_since_frame es

abbrev pub recent : Option ℕ → Bool
recent none = false
recent (some n) = ltb n 3

-- The state that belongs to a number of silent periods.
abbrev Tracks : Option ℕ → Alive → Type 0
Tracks none a = (a.state ≡ probing) × (a.frame_was_received ≡ false)
Tracks (some n) a =
    ((n ≡ 0) × (a.state ≡ found) × (a.frame_was_received ≡ true))
    ⊎ ((n ≡ 1) × (a.state ≡ found) × (a.frame_was_received ≡ false))
    ⊎ ((n ≡ 2) × (a.state ≡ reprobing) × (a.frame_was_received ≡ false))
    ⊎ ((3 ≤ n) × (a.state ≡ probing) × (a.frame_was_received ≡ false))

-- A passing period, where the timer is armed.
timeout-Tracks :
    (o : Option ℕ) (a : Alive)
    → a.state_timer ≡ true
    → Tracks o a
    → (b : Alive) × (state_timer_expired a ≡ some b)
      × (b.state_timer ≡ true)
      × Tracks (Option.map suc o) b
unfolding state_timer_expired
timeout-Tracks none a armed t = (a, ground arith, armed, t)
timeout-Tracks (some n) a armed (inl t) =
    (record a { frame_was_received = false }, ground arith, armed, inr (inl (ground arith)))
timeout-Tracks (some n) a armed (inr (inl t)) =
    (record a { state = reprobing }, ground arith, armed, inr (inr (inl (ground arith))))
timeout-Tracks (some n) a armed (inr (inr (inl t))) =
    (record a { state = probing }, ground arith, armed, inr (inr (inr (ground arith))))
timeout-Tracks (some n) a armed (inr (inr (inr t))) =
    (a, ground arith, armed, inr (inr (inr (ground arith))))

probe-Tracks :
    (o : Option ℕ) (a : Alive)
    → a.state_timer ≡ true
    → Tracks o a
    → ((probe_timer_expired a).0.state_timer ≡ true) × Tracks o (probe_timer_expired a).0
unfolding probe_timer_expired
probe-Tracks none a armed t = ground arith
probe-Tracks (some n) a armed t = ground arith

step-Tracks :
    (e : Event) (es : List Event) (a : Alive)
    → a.state_timer ≡ true
    → Tracks (periods_since_frame es) a
    → (b : Alive) × (step e a ≡ some b)
      × (b.state_timer ≡ true)
      × Tracks (periods_since_frame (e ∷ es)) b
unfolding periods_since_frame step on_frame_received
step-Tracks frame es a armed t = ((on_frame_received a).0, refl, armed, inl (refl, refl, refl))
step-Tracks state_timeout es a armed t = timeout-Tracks (periods_since_frame es) a armed t
step-Tracks probe_timeout es a armed t =
    let (armed', t') = probe-Tracks (periods_since_frame es) a armed t in
    ((probe_timer_expired a).0, refl, armed', t')

run-Tracks :
    (a : Alive) (es : List Event)
    → (b : Alive) × (run a es ≡ some b) × (b.state_timer ≡ true) × Tracks (periods_since_frame es) b
unfolding run periods_since_frame start Option.bind
run-Tracks a [] = ((start a).0, refl, refl, (refl, refl))
run-Tracks a (e ∷ es) =
    let (b, ran, armed, t) = run-Tracks a es in
    let (c, stepped, armed', t') = step-Tracks e es b armed t in (c, rw ran stepped, armed', t')

Tracks-recent : (o : Option ℕ) (a : Alive) → Tracks o a → is_alive a ≡ recent o
Tracks-recent none a t = ground arith
Tracks-recent (some n) a t = ground arith

-- After any history from a call of Start, in which no assertion fails, the device counts as alive
-- exactly if a frame came in and fewer than three periods of the state timer have passed since the
-- last one.
pub run-is_alive :
    (a : Alive) (es : List Event)
    → (b : Alive) × (run a es ≡ some b) × (is_alive b ≡ recent (periods_since_frame es))
run-is_alive a es =
    let (b, ran, armed, t) = run-Tracks a es in (b, ran, Tracks-recent (periods_since_frame es) b t)
