-- ===== src/Pages/History/Roles.antt =====
-- Whose answer a reply is: `build_message_history` of src/pages/scenario_dashboard/export_html.py.
use agent_server_platform.Base.{
  String, ◌≡◌, ◌≢◌, refl, Bool, true, not, ◌||◌, some, List, [], ◌∷◌, ◌++◌, ◌==◌, string_eq, all,
}
use agent_server_platform.Base.Dict.{Dict, lookup, lookup-insert}
use agent_server_platform.Database.Messages.{MessageType, Message}
use agent_server_platform.Pages.History.{
  or_text, role_in, task_in, noted, note_role, task_roles, message_entry, dispatch_entry,
  reply_entry,
}
use native.Mathlib.Omega.{arith}

-- The message is no dispatch of the task, or names no role, or names this one.
abbrev pub agreeing : String → String → MessageType → (task_id role : String) → Bool
agreeing k r MessageType.reply j named = true
agreeing k r MessageType.dispatch j named = not (j == k) || (named == "") || (named == r)

abbrev pub agrees : String → String → Message → Bool
agrees k r m = agreeing k r m.message_type (task_in m.content) (or_text (role_in m.content) "")

task_roles-append :
    (xs ys : List Message) (roles : Dict String String)
    → task_roles (xs ++ ys) roles ≡ task_roles ys (task_roles xs roles)
unfolding task_roles
task_roles-append [] ys roles = refl
task_roles-append (x ∷ xs) ys roles = task_roles-append xs ys (note_role x roles)

noted-agreeing :
    (k r : String) (t : MessageType) (j named : String) (roles : Dict String String)
    → agreeing k r t j named ≡ true
    → lookup k roles ≡ some r
    → lookup k (noted t j named roles) ≡ some r
unfolding noted
noted-agreeing k r MessageType.reply j named roles ok known = known
noted-agreeing k r MessageType.dispatch j named roles ok known =
    ground (arith, lookup-insert k j named roles)

noted-own :
    (k r : String) (roles : Dict String String)
    → k ≢ ""
    → r ≢ ""
    → lookup k (noted MessageType.dispatch k r roles) ≡ some r
unfolding noted
noted-own k r roles has_id has_role = ground (arith, lookup-insert k k r roles)

task_roles-agreeing :
    (k r : String) (ms : List Message) (roles : Dict String String)
    → all (agrees k r) ms ≡ true
    → lookup k roles ≡ some r
    → lookup k (task_roles ms roles) ≡ some r
unfolding task_roles all
task_roles-agreeing k r [] roles ok known = known
task_roles-agreeing k r (m ∷ ms) roles ok known =
    task_roles-agreeing k r ms (note_role m roles) (ground arith) (
      noted-agreeing k r m.message_type (task_in m.content) (or_text (role_in m.content) "") roles
        (ground arith) known)

note_role-own :
    (d : Message) (r : String) (roles : Dict String String)
    → d.message_type ≡ MessageType.dispatch
    → role_in d.content ≡ some r
    → task_in d.content ≢ ""
    → r ≢ ""
    → lookup (task_in d.content) (note_role d roles) ≡ some r
unfolding note_role
note_role-own d r roles is_dispatch role has_id has_role =
    rw (is_dispatch, role) (noted-own (task_in d.content) r roles has_id has_role)

task_roles-own :
    (before after : List Message) (d : Message) (r : String)
    → d.message_type ≡ MessageType.dispatch
    → role_in d.content ≡ some r
    → task_in d.content ≢ ""
    → r ≢ ""
    → all (agrees (task_in d.content) r) after ≡ true
    → lookup (task_in d.content) (task_roles (before ++ d ∷ after) []) ≡ some r
unfolding task_roles
task_roles-own before after d r is_dispatch role has_id has_role ok =
    let roles = task_roles before [] in
    let own =
      task_roles-agreeing (task_in d.content) r after (note_role d roles) ok
        (note_role-own d r roles is_dispatch role has_id has_role) in
    rw (task_roles-append before (d ∷ after) []) own

message_entry-receiver :
    (roles : Dict String String) (d : Message) (r : String)
    → d.message_type ≡ MessageType.dispatch
    → role_in d.content ≡ some r
    → (message_entry roles d).receiver ≡ r
unfolding message_entry dispatch_entry
message_entry-receiver roles d r is_dispatch role = rw (is_dispatch, role) refl

message_entry-sender :
    (roles : Dict String String) (m : Message) (k r : String)
    → m.message_type ≡ MessageType.reply
    → task_in m.content ≡ k
    → lookup k roles ≡ some r
    → (message_entry roles m).sender ≡ r
unfolding message_entry reply_entry
message_entry-sender roles m k r is_reply answers known = rw (is_reply, answers, known) refl

-- Take a dispatch among the messages of a scenario, newest first, that names its task and a role, and
-- let no older dispatch of the task name another role. Then the history names that role both as the
-- receiver of the dispatch and as the sender of every reply of the task, wherever the reply stands.
pub message_entry-reply_sender :
    (before after : List Message) (d m : Message) (r : String)
    → d.message_type ≡ MessageType.dispatch
    → role_in d.content ≡ some r
    → task_in d.content ≢ ""
    → r ≢ ""
    → all (agrees (task_in d.content) r) after ≡ true
    → m.message_type ≡ MessageType.reply
    → task_in m.content ≡ task_in d.content
    → ((message_entry (task_roles (before ++ d ∷ after) []) d).receiver ≡ r)
      × ((message_entry (task_roles (before ++ d ∷ after) []) m).sender ≡ r)
message_entry-reply_sender before after d m r is_dispatch role has_id has_role ok is_reply answers =
    let roles = task_roles (before ++ d ∷ after) [] in
    (
      message_entry-receiver roles d r is_dispatch role,
      message_entry-sender roles m (task_in d.content) r is_reply answers
          (task_roles-own before after d r is_dispatch role has_id has_role ok),
    )
