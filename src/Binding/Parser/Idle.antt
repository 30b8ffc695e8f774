-- ===== src/Binding/Parser/Idle.antt =====
-- lhttp_parser.c: between the calls of a program no thread is kept, and no callback meets a null
-- pointer.
use lhttp_parser.Prelude.{
  ℕ, ◌+◌, ◌-◌, ◌≤◌, ◌<◌, ◌≡◌, refl, ap, ◌∙◌, Bool, true, false, List, [], ◌∷◌, Option, none, some,
  inl, inr, arith, ◌==◌, leb, if◌then◌else◌, All, Bytes, length, take, drop, Bool-cases,
}
use lhttp_parser.Binding.Callbacks.{
  Event, Reply, code, raised, fault, Context, Lua, Outcome, absent, error, returned, nil, other,
  integer, handle, reply, callback_name, arguments, is_headers_complete, pcall_result,
  optinteger_reply, hpe_user, hpe_ok, hpe_paused,
}
use lhttp_parser.Binding.Execute.Range.{
  Fits, start_offset, end_offset, end_offset-le, execute_range-range_for,
}
use lhttp_parser.Binding.Execute.{pos, negsuc, optinteger, execute_range, Integer}
use lhttp_parser.Binding.Parser.{
  Run, finished, invoke, Llhttp, Userdata, Driven, ended, thrown, broken, Called, returns, rejects,
  raises, crashes, Method, execute, finish, reset, pause, resume, resume_after_upgrade, read,
  is_parsed, drive, with_thread, execute_result, finish_result, execute_part, lhttp_parser_execute,
  lhttp_parser_finish, call, state_after, run_calls,
}

-- A Lua function that `onHeadersComplete` can read: it returns no other value than an integer or nil.
abbrev pub Readable : Outcome → Type 0
Readable absent = Unit
Readable error = Unit
Readable (returned nil) = Unit
Readable (returned (integer n)) = Unit
Readable (returned other) = ⊥

-- No Lua function calls `execute` or `finish` of the parser that is running, or returns a value that
-- cannot be read.
abbrev pub WellBehaved : Lua → Type 0
WellBehaved lua =
    (past : List Event) (thread ref : ℕ) (event : Event)
    → let a = lua past thread ref (callback_name event) (arguments event) in
      (a.reenters ≡ false) × Readable a.outcome

-- The arguments of a call of `execute` fit, and the end does not lie before the start.
abbrev pub InOrder : Method → Type 0
InOrder (execute address chunk i j) =
    (length chunk < 9223372036854775808)
    × Fits (optinteger i (pos 1))
    × Fits (optinteger j (negsuc 0))
    × (start_offset (optinteger i (pos 1)) (length chunk)
        ≤ end_offset (optinteger j (negsuc 0)) (length chunk))
InOrder finish = Unit
InOrder reset = Unit
InOrder pause = Unit
InOrder resume = Unit
InOrder resume_after_upgrade = Unit
InOrder (read r) = Unit

-- `execute` with its arguments in order: the range that they stand for lies in the chunk.
pub execute_range-InOrder :
    (address : ℕ) (chunk : Bytes) (i j : Option Integer)
    → InOrder (execute address chunk i j)
    → let start = start_offset (optinteger i (pos 1)) (length chunk) in
      let end = end_offset (optinteger j (negsuc 0)) (length chunk) in
      (execute_range (length chunk) i j ≡ some (start, end - start))
      × (start + (end - start) ≤ length chunk)
execute_range-InOrder address chunk i j (short, hi, hj, le) =
    let within = end_offset-le (optinteger j (negsuc 0)) (length chunk) in
    (execute_range-range_for (length chunk) i j short hi hj ∙ ground arith, ground arith)

-- A reply with a code.
abbrev IsCode : Reply → Type 0
IsCode (code n) = Unit
IsCode raised = ⊥
IsCode fault = ⊥

reply-IsCode : (event : Event) (o : Outcome) → Readable o → IsCode (reply event o)
unfolding reply
reply-IsCode event o r = go (is_headers_complete event) o r
  where
    go :
        (b : Bool) (o : Outcome)
        → Readable o
        → IsCode (
            if b
            then (if pcall_result o 1 == 1 then optinteger_reply o else code hpe_user)
            else code (pcall_result o 0))
    go false o r = tt
    go true absent r = tt
    go true error r = tt
    go true (returned nil) r = tt
    go true (returned (integer n)) r = tt
    go true (returned other) r = absurd r

-- The context of a parser, and what it has released.
abbrev pub Holds : {P : Type 0} → Option ℕ → ℕ → List ℕ → Userdata P → Type 0
Holds thread ref freed st =
    (st.context.thread ≡ thread) × (st.context.ref ≡ some ref) × (st.released ≡ freed)

-- A call of a method does not crash or raise, and leaves no thread.
abbrev pub IsIdle : {P : Type 0} → ℕ → List ℕ → Called P → Type 0
IsIdle ref freed (returns r st) = Holds none ref freed st
IsIdle ref freed (rejects st) = Holds none ref freed st
IsIdle ref freed (raises st) = ⊥
IsIdle ref freed crashes = ⊥

handle-IsCode :
    (lua : Lua) (behaved : WellBehaved lua) (t ref : ℕ) (past : List Event) (ctx : Context)
    (event : Event)
    → ctx.thread ≡ some t
    → ctx.ref ≡ some ref
    → IsCode ((handle lua past ctx event).0) × ((handle lua past ctx event).1 ≡ ctx)
unfolding handle
handle-IsCode lua behaved t ref past ctx event e r =
    let w = behaved past t ref event in rw (e, r) (rw (w.0) (reply-IsCode event _ w.1, refl))

module _ {P : Type 0} (lua : Lua) (behaved : WellBehaved lua) (t ref : ℕ) (freed : List ℕ) where
  abbrev Ends : Driven P → Type 0
  Ends (ended st err) = Holds (some t) ref freed st
  Ends (thrown st) = ⊥
  Ends broken = ⊥

  -- Behind a reply with a code, the run goes on with it.
  reply-Ends :
      (next : ℕ → Driven P) (st : Userdata P) (r : Reply)
      → IsCode r
      → ((n : ℕ) → Ends (next n))
      → Ends (elim r [ code n ↦ next n | raised ↦ thrown st | fault ↦ broken ])
  reply-Ends next st (code n) w k = k n
  reply-Ends next st raised w k = absurd w
  reply-Ends next st fault w k = absurd w

  drive-Ends :
      (run : Run P) (st : Userdata P) → Holds (some t) ref freed st → Ends (drive lua st run)
  unfolding drive
  drive-Ends (finished p err) st h = h
  drive-Ends (invoke p event k) st h =
      let w = handle-IsCode lua behaved t ref st.past st.context event h.0 h.1 in
      let same = w.1 in
      reply-Ends _ _ _ w.0
        (λ n. drive-Ends (k n) _ (ap (λ c. c.thread) same ∙ h.0, ap (λ c. c.ref) same ∙ h.1, h.2))

module _ {P : Type 0} (llhttp : Llhttp P) (lua : Lua) (behaved : WellBehaved lua) (ref : ℕ)
    (freed : List ℕ) where
  execute_result-IsIdle :
      (t chunk len : ℕ) (d : Driven P)
      → Ends lua behaved t ref freed d
      → IsIdle ref freed (execute_result llhttp chunk len d)
  execute_result-IsIdle t chunk len (ended st err) h = elim (Bool-cases (is_parsed err)) [
    | inl good ↦ rw good (refl, h.1, h.2)
    | inr bad ↦ rw bad (refl, h.1, h.2)
  ]
  execute_result-IsIdle t chunk len (thrown st) h = absurd h
  execute_result-IsIdle t chunk len broken h = absurd h

  finish_result-IsIdle :
      (t : ℕ) (d : Driven P)
      → Ends lua behaved t ref freed d
      → IsIdle ref freed (finish_result llhttp d)
  finish_result-IsIdle t (ended st err) h = elim (Bool-cases (err == hpe_ok)) [
    | inl good ↦ rw good (refl, h.1, h.2)
    | inr bad ↦ rw bad (elim (Bool-cases (err == hpe_paused)) [
      | inl paused ↦ rw paused (refl, h.1, h.2)
      | inr bad_end ↦ rw bad_end (refl, h.1, h.2)
    ])
  ]
  finish_result-IsIdle t (thrown st) h = absurd h
  finish_result-IsIdle t broken h = absurd h

  execute_part-IsIdle :
      (st : Userdata P) (t chunk : ℕ) (s : Bytes)
      → Holds none ref freed st
      → IsIdle ref freed (execute_part llhttp lua st t chunk (some s))
  execute_part-IsIdle st t chunk [] h = (refl, h.1, h.2)
  execute_part-IsIdle st t chunk (c ∷ s) h = execute_result-IsIdle t chunk (length (c ∷ s)) _ (
      drive-Ends lua behaved t ref freed (llhttp.llhttp_execute st.parser chunk (c ∷ s))
        (with_thread st (some t)) (refl, h.1, h.2))

  call-IsIdle :
      (st : Userdata P) (t : ℕ) (m : Method)
      → InOrder m
      → Holds none ref freed st
      → IsIdle ref freed (call llhttp lua st t m)
  unfolding call lhttp_parser_execute lhttp_parser_finish
  call-IsIdle st t (execute address chunk i j) w h =
      let start = start_offset (optinteger i (pos 1)) (length chunk) in
      let end = end_offset (optinteger j (negsuc 0)) (length chunk) in
      let range = execute_range-InOrder address chunk i j w in
      let inside : leb (start + (end - start)) (length chunk) ≡ true = ground (arith, range.1) in
      rw (IsIdle, range.0)
        (rw inside
          (execute_part-IsIdle st t (address + start) (take (end - start) (drop start chunk)) h))
  call-IsIdle st t finish w h = finish_result-IsIdle t _ (
      drive-Ends lua behaved t ref freed (llhttp.llhttp_finish st.parser) (with_thread st (some t))
        (refl, h.1, h.2))
  call-IsIdle st t reset w h = h
  call-IsIdle st t pause w h = h
  call-IsIdle st t resume w h = h
  call-IsIdle st t resume_after_upgrade w h = h
  call-IsIdle st t (read r) w h = h

  after-IsIdle :
      (c : Called P) (run : Userdata P → Option (Userdata P)) (Good : Option (Userdata P) → Type 0)
      → IsIdle ref freed c
      → ((st : Userdata P) → Holds none ref freed st → Good (run st))
      → Good (elim (state_after llhttp lua c) [ none ↦ none | some st' ↦ run st' ])
  after-IsIdle (returns r st) run Good h k = k st h
  after-IsIdle (rejects st) run Good h k = k st h
  after-IsIdle (raises st) run Good h k = absurd h
  after-IsIdle crashes run Good h k = absurd h

  -- A program has ended without a crash.
  abbrev pub EndsIdle : Option (Userdata P) → Type 0
  EndsIdle none = ⊥
  EndsIdle (some st) = Holds none ref freed st

  -- For every llhttp, every Lua program whose callbacks do not call `execute` or `finish` of the
  -- running parser and answer with readable values, and every sequence of methods in any threads,
  -- with the arguments of `execute` in order: from a state without a thread the sequence ends, no
  -- call crashes, no callback meets a null thread, and behind it no thread is kept, and the
  -- reference of the callback table is the same and is not released.
  pub run_calls-EndsIdle :
      (ms : List (ℕ × Method)) (st : Userdata P)
      → All (λ m. InOrder (m.1)) ms
      → Holds none ref freed st
      → EndsIdle (run_calls llhttp lua ms st)
  unfolding run_calls
  run_calls-EndsIdle [] st ws h = h
  run_calls-EndsIdle ((t, m) ∷ ms) st (w, ws) h =
      after-IsIdle (call llhttp lua st t m) (run_calls llhttp lua ms) EndsIdle
        (call-IsIdle st t m w h) (λ st' h'. run_calls-EndsIdle ms st' ws h')
