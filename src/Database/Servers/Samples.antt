-- ===== src/Database/Servers/Samples.antt =====
-- Two servers, one of which goes silent.
use agent_server_platform.Base.{none, some, List, [], ◌∷◌, All, string_eq}
use agent_server_platform.Database.Servers.{Server}
use agent_server_platform.Database.Servers.Presence.{
  registering, reporting, sweeping, calls, IsPresence, Call, calls-IsPresence,
}

abbrev history : List Call
history =
    registering 1 "s" none 4 none
    ∷ registering 2 "r" (some "node") 2 none
    ∷ reporting 30 "s" "running" 1 none
    ∷ sweeping 40 20
    ∷ []

abbrev registry : List Server
registry = calls (registering 1 "s" none 4 none ∷ registering 25 "r" none 2 none ∷ []) []

calls-IsPresence_example : All IsPresence (calls history [])
calls-IsPresence_example = calls-IsPresence history [] tt
