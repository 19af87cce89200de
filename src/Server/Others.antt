-- ===== src/Server/Others.antt =====
-- HdlcdServerHandlerCollection.cpp: Shutdown while the end of a client stops others.
use mathlib.Core.List.{Perm, perm_middle}
use mathlib.Core.List.Perm
use hdlcd.Base.{
  ◌>>=◌, ap, ℕ, suc, zero, ◌≤◌, ◌≡◌, refl, ◌∙◌, inl, inr, Bool-cases, false, List, [], ◌∷◌, ◌++◌,
  some, arith, length,
}
use hdlcd.Client.{Client}
use hdlcd.Client.Operations.{stop}
use hdlcd.Server.{Member, Server, contains, stop_named, stop_all, shutdown_server}
use hdlcd.Server.Members.{Excludes, AreMembers, IsReachableServer, all_stopped, leaves, round}
use hdlcd.Server.Shutdown.{AreClosed, stopped-AreClosed, reachable-IsListed}

-- What the clients with some numbers leave behind when they are stopped.
record Leaves (bound : ℕ) (members : List Member) (t : List Client × List Member) : Type 0 where
  pub left : AreMembers bound t.1
  pub each : Perm (t.0 ++ all_stopped t.1) (all_stopped members)
  pub fewer : length t.1 ≤ length members
  pub excludes : (number : ℕ) → Excludes number members → Excludes number t.1

stop_named-Leaves :
    (numbers : List ℕ) (bound : ℕ) (members : List Member)
    → AreMembers bound members
    → Leaves bound members (stop_named numbers members)
unfolding stop_named
stop_named-Leaves numbers bound [] e = record {
  left = tt;
  each = Perm.refl [];
  fewer = omega arith;
  excludes = λ number x. x;
}
stop_named-Leaves numbers bound (m ∷ members) (is_member, differs, e) =
    let (clients, left) = stop_named numbers members in
    let l = stop_named-Leaves numbers bound members e in
    let c = stop m.session.client in
    elim (Bool-cases (contains m.number numbers)) [
      | inl named ↦
          rw (named, leaves m bound left _ is_member)
            (record {
              left = l.left;
              each = Perm.cons c l.each;
              fewer = omega (arith, l.fewer);
              excludes = λ number x. l.excludes number x.1;
            })
      | inr other ↦ rw other (record {
        left = (is_member, l.excludes m.number differs, l.left);
        each = Perm.trans (perm_middle clients (all_stopped left)) (Perm.cons c l.each);
        fewer = omega (arith, l.fewer);
        excludes = λ number x. (x.0, l.excludes number x.1);
      })
    ]

stop_all-others :
    (others : ℕ → List ℕ) (fuel bound : ℕ) (members : List Member)
    → AreMembers bound members
    → length members ≤ fuel
    → (clients : List Client) × (stop_all others fuel members ≡ some clients)
      × Perm clients (all_stopped members)
unfolding stop_all
stop_all-others others fuel bound [] e enough = ([], refl, Perm.refl [])
stop_all-others others zero bound (m ∷ members) e enough = absurd (omega (arith, enough))
stop_all-others others (suc fuel) bound (m ∷ members) (is_member, differs, e) enough =
    let c = stop m.session.client in
    let (clients, left) = stop_named (others m.number) members in
    let l = stop_named-Leaves (others m.number) bound members e in
    let (later, ends, perm) =
      stop_all-others others fuel bound left l.left (omega (arith, l.fewer, enough)) in
    (
      c ∷ (clients ++ later),
      round others fuel bound m members is_member differs
          ∙ ap (λ o. o >>= λ later. some (c ∷ (clients ++ later))) ends,
      Perm.cons c (Perm.trans (Perm.append_left clients perm) l.each),
    )

-- Whatever the clients and the acceptor have done, and whichever clients the end of a client stops
-- besides, because its port does not open again: Shutdown returns with an empty list after as many rounds
-- as there are clients at most, and each client has been stopped once, in some order; each is then
-- unregistered and has no endpoint.
pub shutdown_ends_anyway :
    (others : ℕ → List ℕ) (s : Server)
    → IsReachableServer s
    → (clients : List Client) × (shutdown_server others s
        ≡ some (record s { accepting = false; ports = false; members = [] }, clients))
      × Perm clients (all_stopped s.members)
      × AreClosed (all_stopped s.members)
unfolding shutdown_server
shutdown_ends_anyway others s r =
    let e = (reachable-IsListed s r).0 in
    let (clients, ends, perm) =
      stop_all-others others (length s.members) s.next_number s.members e (omega arith) in
    (
      clients,
      ap
          (λ o. o >>= λ clients.
            some (record s { accepting = false; ports = false; members = [] }, clients))
          ends,
      perm,
      stopped-AreClosed s.next_number s.members e,
    )
