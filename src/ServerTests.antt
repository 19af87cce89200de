-- ===== src/ServerTests.antt =====
-- Runs of the model of src/HdlcdServer/HdlcdServerHandlerCollection.cpp.
use mathlib.Core.List.{Perm}
use hdlcd.Client.{Client}
use hdlcd.Server.Others.{shutdown_ends_anyway}
use hdlcd.Base.{ℕ, List, ◌∷◌, ◌≡◌, true, false, [], some}
use hdlcd.Server.{Server, new_server, on_accept, shutdown_server}
use hdlcd.Server.Members.{
  nobody, all_stopped, accept_step, IsReachableServer, no_members, next_step,
}
use hdlcd.Server.Shutdown.{AreClosed, shutdown_ends}

-- Two clients have been accepted, and one attempt has failed.
abbrev two_members : Server
two_members = on_accept false (on_accept true (on_accept false new_server))

two_members-IsReachableServer : IsReachableServer two_members
two_members-IsReachableServer =
    next_step
      (next_step (next_step no_members (accept_step false new_server))
        (accept_step true (on_accept false new_server)))
      (accept_step false (on_accept true (on_accept false new_server)))

shutdown_ends_example :
    (shutdown_server nobody two_members
      ≡ some (
        record two_members { accepting = false; ports = false; members = [] },
        all_stopped two_members.members,
      ))
    × AreClosed (all_stopped two_members.members)
shutdown_ends_example = shutdown_ends two_members two_members-IsReachableServer

-- The end of the first client stops the second one.
abbrev second_too : ℕ → List ℕ
second_too number = 1 ∷ []

shutdown_ends_anyway_example :
    (clients : List Client) × (shutdown_server second_too two_members
      ≡ some (record two_members { accepting = false; ports = false; members = [] }, clients))
    × Perm clients (all_stopped two_members.members)
    × AreClosed (all_stopped two_members.members)
shutdown_ends_anyway_example =
    shutdown_ends_anyway second_too two_members two_members-IsReachableServer
