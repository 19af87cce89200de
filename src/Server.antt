-- ===== src/Server.antt =====
-- src/HdlcdServer/HdlcdServerHandlerCollection.{h,cpp}: the clients that are connected. What a client
-- calls on the collection, Register and Deregister, is read off its log.
pub mod Members
pub mod Shutdown
pub mod Others
use hdlcd.Base.{
  ℕ, zero, suc, ◌+◌, Bool, true, false, not, ◌||◌, ◌&&◌, ◌==◌, List, [], ◌∷◌, ◌++◌, Option, none,
  some, if◌then◌else◌, ◌>>=◌, length,
}
use hdlcd.Client.{Client, new_client}
use hdlcd.Client.Operations.{start, stop}
use hdlcd.Client.Sound.{listed}
use hdlcd.Client.Reachable.{Session, new_session}

-- A client in the list, with what its endpoint does. The number stands for the address of the object.
pub record Member : Type 0 where
  pub number : ℕ
  pub session : Session

-- `ports` tells whether the collection of serial ports is set. `failed` is a failed assertion.
pub record Server : Type 0 where
  pub accepting : Bool
  pub ports : Bool
  pub members : List Member
  pub next_number : ℕ
  pub failed : Bool

unfoldable pub new_server : Server
new_server = record {
  accepting = true;
  ports = true;
  members = [];
  next_number = 0;
  failed = false;
}

unfoldable pub register_member : Member → List Member → List Member
register_member m members = members ++ m ∷ []

-- list::remove
unfoldable pub deregister_member : ℕ → List Member → List Member
deregister_member number [] = []
deregister_member number (m ∷ members) =
    let rest = deregister_member number members in if m.number == number then rest else m ∷ rest

-- A client that has been accepted is started, registers itself, and the next one is waited for.
unfoldable pub on_accept : (error : Bool) → Server → Server
unfolding register_member
on_accept true server = server
on_accept false server =
    let m : Member = record { number = server.next_number; session = new_session } in
    record server {
      members =
          if listed m.session.client.calls
          then register_member m server.members
          else server.members;
      next_number = server.next_number + 1;
      failed = server.failed || not server.ports;
    }

abbrev pub contains : ℕ → List ℕ → Bool
contains number [] = false
contains number (n ∷ numbers) = number == n || contains number numbers

-- Stop of one client, which leaves the list if it deregisters.
abbrev pub stopped : Member → Member
stopped m = record m { session = record m.session { client = stop m.session.client } }

abbrev pub deregisters : Member → Bool
deregisters m = listed m.session.client.calls && not (listed (stop m.session.client).calls)

-- Stop of the clients of the list with these numbers: the clients, and the list that is left.
unfoldable pub stop_named : List ℕ → List Member → List Client × List Member
unfolding stop
stop_named numbers [] = ([], [])
stop_named numbers (m ∷ members) =
    let (clients, left) = stop_named numbers members in
    if contains m.number numbers
    then (stop m.session.client ∷ clients, if deregisters m then left else stopped m ∷ left)
    else (clients, m ∷ left)

-- Stop of the first client until the list is empty, with the clients that have been stopped; `none` is
-- a loop that is still running. `others` tells which clients the end of a client stops besides: it gives
-- back its lock, and a port that then does not open again stops its clients.
unfoldable pub stop_all : (others : ℕ → List ℕ) → ℕ → List Member → Option (List Client)
unfolding deregister_member stop stop_named
stop_all others fuel [] = some []
stop_all others zero (m ∷ members) = none
stop_all others (suc fuel) (m ∷ members) =
    let (clients, left) =
      if deregisters m
      then stop_named (others m.number) (deregister_member m.number (stopped m ∷ members))
      else ([], stopped m ∷ members) in
    let rest = stop_all others fuel left in
    rest >>= λ later. some (stop m.session.client ∷ (clients ++ later))

-- Shutdown: no client is accepted any more, the loop, and the pointer to the ports is reset. The loop
-- is given as many rounds as there are clients.
unfoldable pub shutdown_server : (others : ℕ → List ℕ) → Server → Option (Server × List Client)
unfolding stop_all
shutdown_server others server =
    stop_all others (length server.members) server.members >>= λ clients.
    some (record server { accepting = false; ports = false; members = [] }, clients)
