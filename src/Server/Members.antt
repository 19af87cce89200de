-- ===== src/Server/Members.antt =====
-- HdlcdServerHandlerCollection.cpp: the connected clients, and the loop of Shutdown.
use hdlcd.Base.{
  if_on, suc, ℕ, ◌<◌, ◌≡◌, ◌≢◌, refl, ap, ◌∙◌, inl, inr, Bool, true, false, not, ◌&&◌, ◌==◌, List,
  [], ◌∷◌, ◌++◌, map, some, if◌then◌else◌, ◌>>=◌, length, arith, Bool-cases, ==_iff,
}
use hdlcd.Client.{Client}
use hdlcd.Client.Operations.{stop, close_endpoint}
use hdlcd.Client.Sound.{listed, IsSound, stop-IsSound}
use hdlcd.Client.Reachable.{Session, SessionStep, IsReachableSession, reachable-IsServed}
use hdlcd.Server.{
  Member, Server, new_server, deregister_member, on_accept, deregisters, stop_named, stop_all,
}

-- A client in the list: it got there by registering, and has not deregistered.
abbrev pub IsMember : ℕ → Member → Type 0
IsMember bound m =
    (m.number < bound) × IsReachableSession m.session × (m.session.client.registered ≡ true)

abbrev pub Excludes : ℕ → List Member → Type 0
Excludes number [] = Unit
Excludes number (m ∷ members) = (m.number ≢ number) × Excludes number members

-- The clients are different objects.
abbrev pub AreMembers : ℕ → List Member → Type 0
AreMembers bound [] = Unit
AreMembers bound (m ∷ members) =
    IsMember bound m × Excludes m.number members × AreMembers bound members

-- One client is accepted, or one connected client makes a step and leaves the list if it deregisters.
abbrev pub after_step : Member → Session → List Member → List Member → List Member
after_step m session before after =
    let stepped = record m { session = session } in
    if listed session.client.calls
    then before ++ stepped ∷ after
    else deregister_member m.number (before ++ stepped ∷ after)

pub data ServerStep : Server → Server → Type 0 where
  accept_step : (error : Bool) (server : Server) → ServerStep server (on_accept error server)
  member_step :
      (before after : List Member) (m : Member) (session : Session) (server : Server)
      → server.members ≡ before ++ m ∷ after
      → SessionStep m.session session
      → ServerStep server (record server { members = after_step m session before after })

pub data IsReachableServer : Server → Type 0 where
  no_members : IsReachableServer new_server
  next_step : {s t : Server} → IsReachableServer s → ServerStep s t → IsReachableServer t

pub kept : (b : Bool) (x y : List Member) → b ≡ false → (if b then x else y) ≡ y
kept true x y e = absurd (cc e)
kept false x y e = refl

gone : (b : Bool) (x y : List Member) → b ≡ true → (if b then x else y) ≡ x
gone true x y e = refl
gone false x y e = absurd (cc e)

pub not_same : (a b : ℕ) → a ≢ b → (a == b) ≡ false
not_same a b e = elim (Bool-cases (a == b)) [
  | inl same ↦ absurd (e ((==_iff a b).0 same))
  | inr other ↦ other
]

Excludes-deregister :
    (number : ℕ) (members : List Member)
    → Excludes number members
    → deregister_member number members ≡ members
unfolding deregister_member
Excludes-deregister number [] e = refl
Excludes-deregister number (m ∷ members) (differs, e) =
    kept (m.number == number) _ _ (not_same m.number number differs)
    ∙ ap (λ l. m ∷ l) (Excludes-deregister number members e)

-- A client that deregisters is the only one that goes.
pub removed :
    (m : Member) (session : Session) (members : List Member)
    → Excludes m.number members
    → deregister_member m.number (record m { session = session } ∷ members) ≡ members
unfolding deregister_member
removed m session members e =
    gone (m.number == m.number) _ _ ((==_iff m.number m.number).1 refl)
    ∙ Excludes-deregister m.number members e

pub deregister-Excludes :
    (k number : ℕ) (members : List Member)
    → Excludes k members
    → Excludes k (deregister_member number members)
unfolding deregister_member
deregister-Excludes k number [] e = tt
deregister-Excludes k number (m ∷ members) (differs, e) =
    let rest = deregister-Excludes k number members e in
    elim (Bool-cases (m.number == number)) [
      | inl same ↦ rw same rest
      | inr other ↦ rw other (differs, rest)
    ]

-- The clients of the list, stopped.
abbrev pub all_stopped : List Member → List Client
all_stopped members = map (λ m. stop m.session.client) members

stop-registered : (c : Client) → (stop c).registered ≡ false
unfolding stop close_endpoint
stop-registered c = ground arith

pub stop-closes :
    (c : Client)
    → IsSound c
    → ((stop c).registered ≡ false)
      × ((stop c).frame_endpoint ≡ false)
      × ((stop c).packet_endpoint ≡ false)
unfolding stop close_endpoint
stop-closes c s = ground arith

member_stops :
    (m : Member) (bound : ℕ)
    → IsMember bound m
    → (listed m.session.client.calls && not (listed (stop m.session.client).calls)) ≡ true
member_stops m bound (small, reachable, on) =
    let c = m.session.client in
    let s = (reachable-IsServed m.session reachable).sound in
    both (listed c.calls) (listed (stop c).calls) (s.in_list ∙ on)
      ((stop-IsSound c s).in_list ∙ stop-registered c)
  where
    both : (a b : Bool) → a ≡ true → b ≡ false → (a && not b) ≡ true
    both a b ha hb = rw (ha, hb) refl

-- A member leaves the list when it is stopped.
pub leaves :
    (m : Member) (bound : ℕ) (x y : List Member)
    → IsMember bound m
    → (if deregisters m then x else y) ≡ x
leaves m bound x y is_member = if_on (deregisters m) x y (member_stops m bound is_member)

-- One round of the loop.
pub round :
    (others : ℕ → List ℕ) (fuel bound : ℕ) (m : Member) (members : List Member)
    → IsMember bound m
    → Excludes m.number members
    → stop_all others (suc fuel) (m ∷ members) ≡ (
        let (clients, left) = stop_named (others m.number) members in
        stop_all others fuel left >>= λ later. some (stop m.session.client ∷ (clients ++ later)))
unfolding stop_all
round others fuel bound m members is_member differs =
    let next = λ (t : List Client × List Member).
      stop_all others fuel t.1 >>= λ later. some (stop m.session.client ∷ (t.0 ++ later)) in
    ap next (if_on (deregisters m) _ _ (member_stops m bound is_member))
    ∙ ap (λ l. next (stop_named (others m.number) l))
        (removed m (record m.session { client = stop m.session.client }) members differs)

-- The end of a client stops nobody else.
abbrev pub nobody : ℕ → List ℕ
nobody number = []

stop_named-nobody : (members : List Member) → stop_named [] members ≡ ([], members)
unfolding stop_named
stop_named-nobody [] = refl
stop_named-nobody (m ∷ members) =
    ap (λ (t : List Client × List Member). (t.0, m ∷ t.1)) (stop_named-nobody members)

pub stop_all-stopped :
    (bound : ℕ) (members : List Member)
    → AreMembers bound members
    → stop_all nobody (length members) members ≡ some (all_stopped members)
unfolding stop_all
stop_all-stopped bound [] e = refl
stop_all-stopped bound (m ∷ members) (is_member, differs, e) =
    let c = stop m.session.client in
    round nobody (length members) bound m members is_member differs
    ∙ ap
        (λ (t : List Client × List Member).
          stop_all nobody (length members) t.1 >>= λ later. some (c ∷ (t.0 ++ later)))
        (stop_named-nobody members)
    ∙ ap (λ o. o >>= λ later. some (c ∷ later)) (stop_all-stopped bound members e)
