-- ===== src/Server/Shutdown.antt =====
-- HdlcdServerHandlerCollection.cpp: the list of clients in every state, and the end of Shutdown.
use hdlcd.Base.{
  ◌>>=◌, ap, ℕ, ◌+◌, ◌≡◌, ◌≢◌, refl, sym, subst, ◌∙◌, Bool, true, false, ◌==◌, List, [], ◌∷◌, ◌++◌,
  some, if◌then◌else◌, arith,
}
use hdlcd.Client.{Client, new_client}
use hdlcd.Client.Operations.{start}
use hdlcd.Client.Sound.{listed}
use hdlcd.Client.Reachable.{
  Session, new_session, SessionStep, connected, then_step, reachable-IsServed,
}
use hdlcd.Server.{
  shutdown_server, Member, Server, new_server, register_member, deregister_member, on_accept,
}
use hdlcd.Server.Members.{
  IsMember, Excludes, AreMembers, after_step, ServerStep, accept_step, member_step,
  IsReachableServer, no_members, next_step, kept, not_same, removed, deregister-Excludes, nobody,
  all_stopped, stop-closes, stop_all-stopped,
}

IsMember-weaken : (m : Member) (bound : ℕ) → IsMember bound m → IsMember (bound + 1) m
IsMember-weaken m bound (small, reachable, on) = (omega (arith, small), reachable, on)

AreMembers-weaken :
    (members : List Member) (bound : ℕ) → AreMembers bound members → AreMembers (bound + 1) members
AreMembers-weaken [] bound e = tt
AreMembers-weaken (m ∷ members) bound (is_member, differs, e) =
    (IsMember-weaken m bound is_member, differs, AreMembers-weaken members bound e)

Excludes-append :
    (number : ℕ) (members : List Member) (m : Member)
    → Excludes number members
    → m.number ≢ number
    → Excludes number (members ++ m ∷ [])
Excludes-append number [] m e other = (other, tt)
Excludes-append number (n ∷ members) m (differs, e) other =
    (differs, Excludes-append number members m e other)

-- A client with a new number.
AreMembers-append :
    (members : List Member) (bound : ℕ) (m : Member)
    → m.number ≡ bound
    → IsMember (bound + 1) m
    → AreMembers bound members
    → AreMembers (bound + 1) (members ++ m ∷ [])
AreMembers-append [] bound m new is_member e = (is_member, tt, tt)
AreMembers-append (n ∷ members) bound m new is_member (first, differs, e) = (
  IsMember-weaken n bound first,
  Excludes-append n.number members m differs (λ same. absurd (omega (arith, same, new, first.0))),
  AreMembers-append members bound m new is_member e,
)

Excludes-replace :
    (number : ℕ) (before after : List Member) (m : Member) (session : Session)
    → Excludes number (before ++ m ∷ after)
    → Excludes number (before ++ record m { session = session } ∷ after)
Excludes-replace number [] after m session e = e
Excludes-replace number (n ∷ before) after m session (differs, e) =
    (differs, Excludes-replace number before after m session e)

the_member :
    (before after : List Member) (m : Member) (bound : ℕ)
    → AreMembers bound (before ++ m ∷ after)
    → IsMember bound m
the_member [] after m bound e = e.0
the_member (n ∷ before) after m bound e = the_member before after m bound e.2

AreMembers-replace :
    (before after : List Member) (m : Member) (session : Session) (bound : ℕ)
    → IsMember bound (record m { session = session })
    → AreMembers bound (before ++ m ∷ after)
    → AreMembers bound (before ++ record m { session = session } ∷ after)
AreMembers-replace [] after m session bound is_member (first, differs, e) = (is_member, differs, e)
AreMembers-replace (n ∷ before) after m session bound is_member (first, differs, e) = (
  first,
  Excludes-replace n.number before after m session differs,
  AreMembers-replace before after m session bound is_member e,
)

excluded_middle :
    (before after : List Member) (m : Member) (number : ℕ)
    → Excludes number (before ++ m ∷ after)
    → m.number ≢ number
excluded_middle [] after m number e = e.0
excluded_middle (n ∷ before) after m number e = excluded_middle before after m number e.1

AreMembers-remove :
    (before after : List Member) (m : Member) (session : Session) (bound : ℕ)
    → AreMembers bound (before ++ m ∷ after)
    → AreMembers bound
        (deregister_member m.number (before ++ record m { session = session } ∷ after))
unfolding deregister_member
AreMembers-remove [] after m session bound (first, differs, e) =
    subst (AreMembers bound) (sym (removed m session after differs)) e
AreMembers-remove (n ∷ before) after m session bound (first, differs, e) =
    let other =
      not_same n.number m.number
        (λ same. excluded_middle before after m n.number differs (sym same)) in
    subst (AreMembers bound) (sym (kept (n.number == m.number) _ _ other)) (
      first,
      deregister-Excludes n.number m.number (before ++ record m { session = session } ∷ after)
          (Excludes-replace n.number before after m session differs),
      AreMembers-remove before after m session bound e,
    )

abbrev IsListed : Server → Type 0
IsListed s = AreMembers s.next_number s.members × (s.failed ≡ false) × (s.ports ≡ true)

stepped-AreMembers :
    (before after : List Member) (m : Member) (session : Session) (bound : ℕ)
    → SessionStep m.session session
    → AreMembers bound (before ++ m ∷ after)
    → AreMembers bound (after_step m session before after)
stepped-AreMembers before after m session bound step e =
    let (small, reachable, on) = the_member before after m bound e in
    let r = then_step reachable step in
    let stepped = record m { session = session } in
    either_list (listed session.client.calls) (before ++ stepped ∷ after)
      (deregister_member m.number (before ++ stepped ∷ after))
      (λ there.
        AreMembers-replace before after m session bound
          (small, r, sym (reachable-IsServed session r).sound.in_list ∙ there) e)
      (AreMembers-remove before after m session bound e)
  where
    either_list :
        (b : Bool) (x y : List Member)
        → (b ≡ true → AreMembers bound x)
        → AreMembers bound y
        → AreMembers bound (if b then x else y)
    either_list true x y hx hy = hx refl
    either_list false x y hx hy = hy

ServerStep-IsListed : {s t : Server} → ServerStep s t → IsListed s → IsListed t
unfolding on_accept register_member start new_client
ServerStep-IsListed (accept_step true server) l = l
ServerStep-IsListed (accept_step false server) (e, ok, ports) = (
  AreMembers-append server.members server.next_number
      (record { number = server.next_number; session = new_session }) refl
      (omega arith, connected, refl) e,
  ground (arith, ok, ports),
  ports,
)
ServerStep-IsListed (member_step before after m session server same step) (e, ok, ports) = (
  stepped-AreMembers before after m session server.next_number step
      (subst (AreMembers server.next_number) same e),
  ok,
  ports,
)

pub reachable-IsListed : (s : Server) → IsReachableServer s → IsListed s
unfolding new_server
reachable-IsListed _ no_members = (tt, refl, refl)
reachable-IsListed _ (next_step {s = s} r step) = ServerStep-IsListed step (reachable-IsListed s r)

-- What a stopped client has left: it is not registered and has no endpoint.
abbrev pub AreClosed : List Client → Type 0
AreClosed [] = Unit
AreClosed (c ∷ clients) =
    ((c.registered ≡ false) × (c.frame_endpoint ≡ false) × (c.packet_endpoint ≡ false))
    × AreClosed clients

pub stopped-AreClosed :
    (bound : ℕ) (members : List Member) → AreMembers bound members → AreClosed (all_stopped members)
stopped-AreClosed bound [] e = tt
stopped-AreClosed bound (m ∷ members) ((small, reachable, on), differs, e) =
    let s = (reachable-IsServed m.session reachable).sound in
    (stop-closes m.session.client s, stopped-AreClosed bound members e)

-- Whatever the clients and the acceptor have done, Shutdown returns if the end of a client stops no other: its loop ends with an empty list
-- after as many rounds as there are clients in it, and stops each of them once, in their order; each is
-- then unregistered and has no endpoint.
pub shutdown_ends :
    (s : Server)
    → IsReachableServer s
    → (shutdown_server nobody s
        ≡ some (record s { accepting = false; ports = false; members = [] }, all_stopped s.members))
      × AreClosed (all_stopped s.members)
unfolding shutdown_server
shutdown_ends s r =
    let e = (reachable-IsListed s r).0 in
    (
      ap
          (λ o. o >>= λ clients.
            some (record s { accepting = false; ports = false; members = [] }, clients))
          (stop_all-stopped s.next_number s.members e),
      stopped-AreClosed s.next_number s.members e,
    )
