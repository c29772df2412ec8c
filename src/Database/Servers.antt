-- ===== src/Database/Servers.antt =====
-- src/database/models/execution_server.py and src/database/repositories/execution_server_repository.py:
-- the registry of execution servers. `env_info` is the text of its JSON.
pub mod Presence
mod Samples
use agent_server_platform.Base.{
  ℕ, String, Bool, true, false, not, ◌&&◌, Option, none, some, List, [], ◌∷◌, ◌++◌, map, ◌==◌,
  string_eq, if◌then◌else◌, ltb, length, select, head?,
}

pub record Server : Type 0 where
  pub server_id : String
  pub name : String
  pub status : String
  pub total_quota : ℕ
  pub running_count : ℕ
  pub env_info : String
  pub last_heartbeat : ℕ
  pub connected : Bool
  pub updated_at : ℕ

-- The arguments of `upsert`.
pub record Registration : Type 0 where
  pub server_id : String
  pub name : Option String
  pub status : String
  pub total_quota : ℕ
  pub running_count : ℕ
  pub env_info : Option String
  pub connected : Bool
  pub last_heartbeat : Option ℕ

-- `last_heartbeat or datetime.now()`, `name or server_id`
abbrev pub heartbeat_at : Option ℕ → ℕ → ℕ
heartbeat_at none now = now
heartbeat_at (some at) now = at

abbrev pub label_of : Option String → String → String
label_of none server_id = server_id
label_of (some name) server_id = if name == "" then server_id else name

abbrev pub env_text : Option String → String
env_text none = "{}"
env_text (some t) = t

abbrev pub registered_row : ℕ → Registration → Server
registered_row now r = record {
  server_id = r.server_id;
  name = label_of r.name r.server_id;
  status = r.status;
  total_quota = r.total_quota;
  running_count = r.running_count;
  env_info = env_text r.env_info;
  last_heartbeat = heartbeat_at r.last_heartbeat now;
  connected = r.connected;
  updated_at = now;
}

-- `INSERT OR REPLACE`: the row with the key goes, the new one comes last.
unfoldable pub upsert : ℕ → Registration → List Server → List Server
upsert now r rows = select (λ s. not (s.server_id == r.server_id)) rows ++ registered_row now r ∷ []

abbrev pub with_status : ℕ → String → ℕ → Bool → Option String → Option ℕ → Server → Server
with_status now status running_count connected env_info last_heartbeat s = record s {
  status = status;
  running_count = running_count;
  connected = connected;
  env_info = elim env_info [ none ↦ s.env_info | some t ↦ t ];
  last_heartbeat = heartbeat_at last_heartbeat now;
  updated_at = now;
}

unfoldable pub update_status :
    ℕ → String → String → ℕ → Bool → Option String → Option ℕ → List Server → List Server
update_status now server_id status running_count connected env_info last_heartbeat rows =
    map
      (λ s.
        if s.server_id == server_id
        then with_status now status running_count connected env_info last_heartbeat s
        else s)
      rows

abbrev pub offline : ℕ → Server → Server
offline now s = record s {
  status = "offline";
  connected = false;
  running_count = 0;
  updated_at = now;
}

unfoldable pub mark_offline : ℕ → String → List Server → List Server
mark_offline now server_id rows =
    map (λ s. if s.server_id == server_id then offline now s else s) rows

unfoldable pub mark_all_offline : ℕ → List Server → List Server
mark_all_offline now rows = map (offline now) rows

-- `connected = ? AND last_heartbeat < ?`
abbrev pub is_stale : ℕ → Server → Bool
is_stale stale_before s = s.connected && ltb s.last_heartbeat stale_before

-- The rows after it, and `cursor.rowcount`.
unfoldable pub mark_stale_offline : ℕ → ℕ → List Server → List Server × ℕ
mark_stale_offline now stale_before rows = (
  map (λ s. if is_stale stale_before s then offline now s else s) rows,
  length (select (is_stale stale_before) rows),
)

unfoldable pub find_by_server_id : String → List Server → Option Server
find_by_server_id server_id rows = head? (select (λ s. s.server_id == server_id) rows)
