-- ===== src/Agents/Samples.antt =====
-- Runs of the output queues.
use agent_server_platform.Base.{◌≡◌, refl, some}
use agent_server_platform.Agents.{new_output, put_nowait, emit_message, get_message, pop}

-- A queue of one message drops the second.
second_dropped : (get_message (emit_message "b" (emit_message "a" (new_output 1)))).1 ≡ some "a"
unfolding get_message emit_message put_nowait pop
second_dropped = refl
