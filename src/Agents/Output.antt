-- ===== src/Agents/Output.antt =====
-- The bounds of the queues of `SystemMessageOutput`, whatever calls are made.
use agent_server_platform.Base.{
  ℕ, suc, ◌≤◌, String, ◌≡◌, List, [], ◌∷◌, arith, length, length-append,
}
use agent_server_platform.Database.Messages.{Result}
use agent_server_platform.Agents.{
  SystemMessageOutput, put_nowait, emit_message, set_result, pop, get_message, get_result,
  reset_output,
}

-- One call on the output.
pub data Call : Type 0 where
  emit : String → Call
  result : Result → Call
  read_message read_result clear : Call

unfoldable pub apply : Call → SystemMessageOutput → SystemMessageOutput
unfolding get_message get_result
apply (emit m) out = emit_message m out
apply (result r) out = set_result r out
apply read_message out = (get_message out).0
apply read_result out = (get_result out).0
apply clear out = reset_output out

unfoldable pub apply_all : List Call → SystemMessageOutput → SystemMessageOutput
apply_all [] out = out
apply_all (c ∷ cs) out = apply_all cs (apply c out)

-- At most `n + 1` messages and one result wait.
abbrev pub IsBounded : ℕ → SystemMessageOutput → Type 0
IsBounded n out =
    (out.maxsize ≡ suc n) × (length out.message_queue ≤ suc n) × (length out.result_queue ≤ 1)

length-put_nowait :
    {A : Type 0} (n : ℕ) (x : A) (q : List A)
    → length q ≤ suc n
    → length (put_nowait (suc n) x q) ≤ suc n
unfolding put_nowait
length-put_nowait n x q h = ground (arith, length-append q (x ∷ []))

length-pop : {A : Type 0} (n : ℕ) (q : List A) → length q ≤ n → length (pop q).0 ≤ n
unfolding pop
length-pop n [] h = h
length-pop n (x ∷ xs) h = omega (arith, h)

apply-IsBounded :
    (n : ℕ) (c : Call) (out : SystemMessageOutput) → IsBounded n out → IsBounded n (apply c out)
unfolding apply emit_message set_result reset_output get_message get_result
apply-IsBounded n (emit m) out h = (h.0, rw h.0 (length-put_nowait n m out.message_queue h.1), h.2)
apply-IsBounded n (result r) out h = (h.0, h.1, length-put_nowait 0 r out.result_queue h.2)
apply-IsBounded n read_message out h = (h.0, length-pop (suc n) out.message_queue h.1, h.2)
apply-IsBounded n read_result out h = (h.0, h.1, length-pop 1 out.result_queue h.2)
apply-IsBounded n clear out h = (h.0, omega arith, omega arith)

-- Whatever calls are made on the output of a run, in whatever order, at most as many messages wait as
-- its bound, and at most one result; the bound stays.
pub apply_all-IsBounded :
    (n : ℕ) (cs : List Call) (out : SystemMessageOutput)
    → IsBounded n out
    → IsBounded n (apply_all cs out)
unfolding apply_all
apply_all-IsBounded n [] out h = h
apply_all-IsBounded n (c ∷ cs) out h =
    apply_all-IsBounded n cs (apply c out) (apply-IsBounded n c out h)
