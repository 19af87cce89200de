-- ===== src/Lock/Holders.antt =====
-- SerialPortLock.cpp and LockGuard.cpp: the counter of a port and the guards of its clients.
use hdlcd.Base.{
  ℕ, ◌+◌, ◌^◌, ◌<◌, ◌≤◌, ◌≡◌, refl, List, [], ◌∷◌, ◌++◌, arith, ltb, if◌then◌else◌, length,
  length-append,
}
use hdlcd.Lock.{
  suspend_serial_port, resume_serial_port, get_serial_port_state, LockGuard, no_lock, acquire_lock,
  release_lock, destroy_guard, update_lock_state, is_locked,
}

-- The guards that hold a lock.
abbrev pub holds : LockGuard → ℕ
holds g = if g.locked_by_self then 1 else 0

abbrev pub holders : List LockGuard → ℕ
holders [] = 0
holders (g ∷ gs) = holds g + holders gs

-- The guards of the connected clients, and the counter.
pub record Port : Type 0 where
  pub guards : List LockGuard
  pub nbr_of_locks : ℕ

abbrev pub port : List LockGuard → ℕ → Port
port gs n = record { guards = gs; nbr_of_locks = n }

pub data LockStep : Port → Port → Type 0 where
  client_joins :
      (gs : List LockGuard) (n : ℕ)
      → length gs + 1 < 2 ^ 64
      → LockStep (port gs n) (port (no_lock ∷ gs) n)
  client_leaves :
      (before after : List LockGuard) (g : LockGuard) (n : ℕ)
      → LockStep (port (before ++ g ∷ after) n) (port (before ++ after) (destroy_guard g n))
  client_acquires :
      (before after : List LockGuard) (g : LockGuard) (n : ℕ)
      → LockStep
          (port (before ++ g ∷ after) n)
          (port (before ++ (acquire_lock g n).0 ∷ after) (acquire_lock g n).1)
  client_releases :
      (before after : List LockGuard) (g : LockGuard) (n : ℕ)
      → LockStep
          (port (before ++ g ∷ after) n)
          (port (before ++ (release_lock g n).0 ∷ after) (release_lock g n).1)
  client_updated :
      (before after : List LockGuard) (g : LockGuard) (n : ℕ)
      → LockStep
          (port (before ++ g ∷ after) n)
          (port (before ++ (update_lock_state n g).0 ∷ after) n)

pub data IsReachablePort : Port → Type 0 where
  no_clients : IsReachablePort (port [] 0)
  next : {p q : Port} → IsReachablePort p → LockStep p q → IsReachablePort q

holders-append : (xs ys : List LockGuard) → holders (xs ++ ys) ≡ holders xs + holders ys
holders-append [] ys = omega arith
holders-append (x ∷ xs) ys = omega (arith, holders-append xs ys)

holders-le : (gs : List LockGuard) → holders gs ≤ length gs
holders-le [] = omega arith
holders-le (g ∷ gs) = ground (arith, holders-le gs)

-- The counter is right, and there are fewer than 2 ^ 64 guards.
abbrev IsCounted : Port → Type 0
IsCounted p = (p.nbr_of_locks ≡ holders p.guards) × (length p.guards < 2 ^ 64)

acquire_lock-holds :
    (g : LockGuard) (n others : ℕ)
    → n ≡ holds g + others
    → others + 1 < 2 ^ 64
    → (acquire_lock g n).1 ≡ holds (acquire_lock g n).0 + others
unfolding acquire_lock suspend_serial_port
acquire_lock-holds g n others e h = ground (arith, e, h)

release_lock-holds :
    (g : LockGuard) (n others : ℕ)
    → n ≡ holds g + others
    → others + 1 < 2 ^ 64
    → (release_lock g n).1 ≡ holds (release_lock g n).0 + others
unfolding release_lock resume_serial_port
release_lock-holds g n others e h = ground (arith, e, h)

destroy_guard-holds :
    (g : LockGuard) (n others : ℕ)
    → n ≡ holds g + others
    → others + 1 < 2 ^ 64
    → destroy_guard g n ≡ others
unfolding destroy_guard resume_serial_port
destroy_guard-holds g n others e h = ground (arith, e, h)

update_lock_state-holds : (n : ℕ) (g : LockGuard) → holds (update_lock_state n g).0 ≡ holds g
unfolding update_lock_state
update_lock_state-holds n g = ground arith

-- One guard apart from the others.
holders-middle :
    (before after : List LockGuard) (g : LockGuard)
    → holders (before ++ g ∷ after) ≡ holds g + holders (before ++ after)
holders-middle before after g =
    omega (arith, holders-append before (g ∷ after), holders-append before after)

length-middle :
    (before after : List LockGuard) (g : LockGuard)
    → length (before ++ g ∷ after) ≡ length (before ++ after) + 1
length-middle before after g =
    omega (arith, length-append before (g ∷ after), length-append before after)

-- A guard in the middle is replaced.
replaced :
    (before after : List LockGuard) (g g' : LockGuard) (n n' : ℕ)
    → (n ≡ holds g + holders (before ++ after)
        → holders (before ++ after) + 1 < 2 ^ 64
        → n' ≡ holds g' + holders (before ++ after))
    → IsCounted (port (before ++ g ∷ after) n)
    → IsCounted (port (before ++ g' ∷ after) n')
replaced before after g g' n n' change c =
    let few : holders (before ++ after) + 1 < 2 ^ 64 =
      omega (arith, holders-le (before ++ after), length-middle before after g, c.1) in
    (
      omega (
        arith,
        change (omega (arith, holders-middle before after g, c.0)) few,
        holders-middle before after g',
      ),
      omega (arith, length-middle before after g, length-middle before after g', c.1),
    )

LockStep-IsCounted : {p q : Port} → LockStep p q → IsCounted p → IsCounted q
LockStep-IsCounted (client_joins gs n room) c = (omega (arith, c.0), omega (arith, room))
LockStep-IsCounted (client_leaves before after g n) c =
    let few : holders (before ++ after) + 1 < 2 ^ 64 =
      omega (arith, holders-le (before ++ after), length-middle before after g, c.1) in
    (
      destroy_guard-holds g n (holders (before ++ after))
          (omega (arith, holders-middle before after g, c.0)) few,
      omega (arith, length-middle before after g, c.1),
    )
LockStep-IsCounted (client_acquires before after g n) c =
    replaced before after g (acquire_lock g n).0 n (acquire_lock g n).1
      (λ e few. acquire_lock-holds g n (holders (before ++ after)) e few) c
LockStep-IsCounted (client_releases before after g n) c =
    replaced before after g (release_lock g n).0 n (release_lock g n).1
      (λ e few. release_lock-holds g n (holders (before ++ after)) e few) c
LockStep-IsCounted (client_updated before after g n) c =
    replaced before after g (update_lock_state n g).0 n n
      (λ e few. omega (arith, e, update_lock_state-holds n g)) c

reachable-IsCounted : (p : Port) → IsReachablePort p → IsCounted p
reachable-IsCounted _ no_clients = (refl, omega arith)
reachable-IsCounted _ (next {p = p} r step) = LockStep-IsCounted step (reachable-IsCounted p r)

-- Whatever clients join, leave, lock, unlock and are updated, in any order, with fewer than 2 ^ 64 at
-- a time: the counter of the port is the number of guards that hold a lock.
pub locks_are_counted : (p : Port) → IsReachablePort p → p.nbr_of_locks ≡ holders p.guards
locks_are_counted p r = (reachable-IsCounted p r).0

-- In a reachable state, a client that is updated with the counter sees the port as locked by others exactly if another
-- client holds a lock, and as locked exactly if the port is suspended.
pub update_tells_locks :
    (before after : List LockGuard) (g : LockGuard) (n : ℕ)
    → IsReachablePort (port (before ++ g ∷ after) n)
    → ((update_lock_state n g).0.locked_by_others ≡ ltb 0 (holders (before ++ after)))
      × (is_locked (update_lock_state n g).0 ≡ get_serial_port_state n)
unfolding update_lock_state
update_tells_locks before after g n r =
    let e = (reachable-IsCounted (port (before ++ g ∷ after) n) r).0 in
    told g n (holders (before ++ after)) (omega (arith, e, holders-middle before after g))
  where
    told :
        (g : LockGuard) (n others : ℕ)
        → n ≡ holds g + others
        → ((update_lock_state n g).0.locked_by_others ≡ ltb 0 others)
          × (is_locked (update_lock_state n g).0 ≡ get_serial_port_state n)
    told g n others e = ground (arith, e)
