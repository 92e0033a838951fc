-- ===== src/Tests/Commanding.antt =====
-- A client's commands at concrete inputs.
use hut_karish.Prelude.{◌≡◌, true, false, ◌∷◌, some, if◌then◌else◌}
use hut_karish.Kernel.State.{init}
use hut_karish.Kernel.Clients.{Client, subscribe_of}
use hut_karish.Kernel.Run.{command, run}
use hut_karish.Kernel.Stop.{says}
use hut_karish.Flow.Session.{session}
use hut_karish.Flow.Commanding.{works, life, life-session}
use hut_karish.Tests.Kernel.{working}
use hut_karish.Tests.NetLink.{client}
use hut_karish.Tests.Flow.{traffic}

-- There is no memory for the unsubscription.
life-session_example :
    life working client Client.daemon 42 (true, true) (false, true) traffic init ≡ (
      if works client (true, true)
      then run working
          (if works client (false, true)
            then session Client.daemon 42 42 traffic
            else command (says 42 (subscribe_of Client.daemon)) ∷ traffic)
          init
      else some init)
life-session_example =
    life-session working client Client.daemon 42 (true, true) (false, true) traffic init
