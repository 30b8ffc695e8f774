-- ===== src/Binding/Callbacks/Heads.antt =====
-- lhttp_parser.c: when `onHeadersComplete` answers 0 to llhttp.
use lhttp_parser.Prelude.{ℕ, ◌%◌, ◌==◌, ◌≡◌, refl, ap, Bool, false, List, some, ◌↔◌}
use lhttp_parser.Binding.Callbacks.{
  Event, headers_complete, Head, Outcome, absent, error, returned, nil, other, integer, Reply, code,
  raised, fault, Lua, reply, handle, callback_name, arguments,
}

-- The Lua function is there, and returns nil or an integer whose low 32 bits are 0.
abbrev pub AnswersZero : Outcome → Type 0
AnswersZero absent = ⊥
AnswersZero error = ⊥
AnswersZero (returned nil) = Unit
AnswersZero (returned (integer n)) = n % 4294967296 ≡ 0
AnswersZero (returned other) = ⊥

is_zero : Reply → Bool
is_zero (code n) = n == 0
is_zero raised = false
is_zero fault = false

reply-AnswersZero :
    (h : Head) (o : Outcome) → (reply (headers_complete h) o ≡ code 0) ↔ AnswersZero o
unfolding reply is_zero
reply-AnswersZero h absent = (λ e. cc, λ w. absurd w)
reply-AnswersZero h error = (λ e. cc, λ w. absurd w)
reply-AnswersZero h (returned nil) = (λ e. tt, λ w. refl)
reply-AnswersZero h (returned (integer n)) = (λ e. cc, λ w. ap code w)
reply-AnswersZero h (returned other) = (λ e. cc, λ w. absurd w)

-- For every Lua program, thread and head, after any events: `onHeadersComplete` answers 0 to llhttp
-- exactly if the callback table has the function and the function returns nil or an integer whose
-- low 32 bits are 0; so it never answers 0 where the function is left out.
pub handle-headers_complete_iff :
    (lua : Lua) (past : List Event) (thread ref : ℕ) (h : Head)
    → ((handle lua past (record { thread = some thread; ref = some ref }) (headers_complete h)).0
        ≡ code 0)
      ↔ AnswersZero (
          (lua past thread ref
            (callback_name (headers_complete h))
            (arguments (headers_complete h))).outcome)
unfolding handle
handle-headers_complete_iff lua past thread ref h = reply-AnswersZero h (
    (lua past thread ref (callback_name (headers_complete h))
      (arguments (headers_complete h))).outcome)
