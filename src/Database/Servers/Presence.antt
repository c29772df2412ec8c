-- ===== src/Database/Servers/Presence.antt =====
-- What the registry says of the presence of servers, under the calls of src/core/ws_server.py.
use agent_server_platform.Base.{
  ℕ, String, ◌≡◌, refl, ◌⊎◌, inl, inr, true, not, Option, some, List, [], ◌∷◌, ◌++◌, map, ap, arith,
  ◌==◌, string_eq, select, All, All-weaken, All-select, Bool-cases,
}
use agent_server_platform.Database.Servers.{
  Server, upsert, update_status, offline, mark_offline, mark_all_offline, is_stale,
  mark_stale_offline,
}

-- What the WebSocket dispatcher does to the registry: a server registers or reports, its socket
-- closes, the dispatcher boots or sweeps.
pub data Call : Type 0 where
  registering :
      (now : ℕ) (server_id : String) (name : Option String) (total_quota : ℕ)
      (env_info : Option String)
      → Call
  reporting :
      (now : ℕ) (server_id status : String) (running_count : ℕ) (env_info : Option String) → Call
  closing : (now : ℕ) (server_id : String) → Call
  booting : (now : ℕ) → Call
  sweeping : (now stale_before : ℕ) → Call

abbrev pub call : Call → List Server → List Server
call (registering now server_id name total_quota env_info) rows =
    upsert now
      (record {
        server_id = server_id;
        name = name;
        status = "idle";
        total_quota = total_quota;
        running_count = 0;
        env_info = env_info;
        connected = true;
        last_heartbeat = some now;
      })
      rows
call (reporting now server_id status running_count env_info) rows =
    update_status now server_id status running_count true env_info (some now) rows
call (closing now server_id) rows = mark_offline now server_id rows
call (booting now) rows = mark_all_offline now rows
call (sweeping now stale_before) rows = (mark_stale_offline now stale_before rows).0

abbrev pub calls : List Call → List Server → List Server
calls [] rows = rows
calls (c ∷ cs) rows = calls cs (call c rows)

-- A server is connected, or it is offline and runs nothing.
abbrev pub IsPresence : Server → Type 0
IsPresence s = (s.connected ≡ true) ⊎ ((s.status ≡ "offline") × (s.running_count ≡ 0))

All-map :
    (P : Server → Type 0) (f : Server → Server) (rows : List Server)
    → ((s : Server) → P s → P (f s))
    → All P rows
    → All P (map f rows)
All-map P f [] h all_hold = tt
All-map P f (s ∷ rows) h all_hold = (h s all_hold.0, All-map P f rows h all_hold.1)

All-join : (P : Server → Type 0) (xs ys : List Server) → All P xs → All P ys → All P (xs ++ ys)
All-join P [] ys hx hy = hy
All-join P (x ∷ xs) ys hx hy = (hx.0, All-join P xs ys hx.1 hy)

call-IsPresence :
    (c : Call) (rows : List Server) → All IsPresence rows → All IsPresence (call c rows)
unfolding upsert update_status mark_offline mark_all_offline mark_stale_offline
call-IsPresence (registering now server_id name total_quota env_info) rows h =
    All-join IsPresence (select (λ s. not (s.server_id == server_id)) rows) _
      (All-weaken _ (λ s p. p.0)
        (All-select IsPresence (λ s. not (s.server_id == server_id)) rows h))
      (inl refl, tt)
call-IsPresence (reporting now server_id status running_count env_info) rows h =
    All-map IsPresence _ rows (λ s p. ground (arith, p)) h
call-IsPresence (closing now server_id) rows h =
    All-map IsPresence _ rows (λ s p. ground (arith, p)) h
call-IsPresence (booting now) rows h = All-map IsPresence _ rows (λ s p. inr (refl, refl)) h
call-IsPresence (sweeping now stale_before) rows h =
    All-map IsPresence _ rows (λ s p. ground (arith, p)) h

-- In a registry whose rows are each of a connected server or offline and running nothing, they stay
-- so whatever servers register, report and leave, and whenever the dispatcher boots or sweeps.
pub calls-IsPresence :
    (cs : List Call) (rows : List Server) → All IsPresence rows → All IsPresence (calls cs rows)
calls-IsPresence [] rows h = h
calls-IsPresence (c ∷ cs) rows h = calls-IsPresence cs (call c rows) (call-IsPresence c rows h)

-- After a sweep no server is stale: a second one with the same bound marks none and changes no row.
pub mark_stale_offline_twice :
    (now later stale_before : ℕ) (rows : List Server)
    → let swept = (mark_stale_offline now stale_before rows).0 in
      ((mark_stale_offline later stale_before swept).0 ≡ swept)
      × ((mark_stale_offline later stale_before swept).1 ≡ 0)
unfolding mark_stale_offline select
mark_stale_offline_twice now later stale_before [] = (refl, refl)
mark_stale_offline_twice now later stale_before (s ∷ rows) =
    let (same, none_left) = mark_stale_offline_twice now later stale_before rows in
    elim (Bool-cases (is_stale stale_before s)) [
      | inl e ↦ rw e (ap (◌∷◌ (offline now s)) same, none_left)
      | inr e ↦ ground (arith, e, same, none_left)
    ]
