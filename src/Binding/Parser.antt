-- ===== src/Binding/Parser.antt =====
-- lhttp_parser.c: `new`, the methods of a parser, and `__gc`, over the functions of llhttp that they
-- call.
pub mod Idle
pub mod Lifetime
use lhttp_parser.Prelude.{
  ℕ, ◌+◌, ◌-◌, ◌%◌, Bool, true, false, not, ◌&&◌, List, [], ◌∷◌, ◌++◌, Option, none, some, ◌==◌,
  leb, if◌then◌else◌, Bytes, codes, length, take, drop,
}
use lhttp_parser.Binding.Callbacks.{
  MessageType, both, request, response, Event, Reply, code, raised, fault, Context, Lua, handle,
  hpe_ok, hpe_strict, hpe_paused, hpe_paused_upgrade,
}
use lhttp_parser.Query.Container.Lookup.{same_text}
use lhttp_parser.Binding.Execute.{Integer, execute_range, size_limit}
use lhttp_parser.Binding.Methods.{Readers, Reading, Pushed, read_parser}

-- A run of llhttp on a parser `P`: it ends with an error code, or it invokes a callback and goes on
-- with the code that it returns.
pub data Run (P : Type 0) : Type 0 where
  finished : P → ℕ → Run P
  invoke : P → Event → (ℕ → Run P) → Run P

-- The functions of llhttp. `llhttp_execute` is given the address of the data, and
-- `llhttp_get_error_pos` is an address, 0 for a null pointer: of a parser that was paused between two
-- runs it is the one that an earlier run has left.
pub record Llhttp (P : Type 0) : Type 0 where
  pub llhttp_init : MessageType → P
  pub llhttp_execute : P → ℕ → Bytes → Run P
  pub llhttp_finish : P → Run P
  pub llhttp_reset : P → P
  pub llhttp_pause : P → P
  pub llhttp_resume : P → P
  pub llhttp_resume_after_upgrade : P → P
  pub llhttp_clear_error_reason : P → P
  pub llhttp_get_error_pos : P → ℕ
  pub readers : Readers P

-- The userdata, and the references of the registry that are released.
pub record Userdata (P : Type 0) : Type 0 where
  pub parser : P
  pub context : Context
  pub past : List Event
  pub released : List ℕ

-- How a run ends: with a code, by a Lua error, or with the use of a null pointer.
pub data Driven (P : Type 0) : Type 0 where
  ended : Userdata P → ℕ → Driven P
  thrown : Userdata P → Driven P
  broken : Driven P

-- What a method returns: the bytes that are parsed and a code, nil and a code, 0, the parser, or the
-- values that it has read.
pub data Returned : Type 0 where
  parsed : ℕ → ℕ → Returned
  failed : ℕ → Returned
  zero_value itself : Returned
  values : List Pushed → Returned

pub data Called (P : Type 0) : Type 0 where
  returns : Returned → Userdata P → Called P
  -- An argument is rejected, or a callback has raised an error.
  rejects raises : Userdata P → Called P
  crashes : Called P

pub data Method : Type 0 where
  -- The chunk stands at the address.
  execute : (address : ℕ) → Bytes → Option Integer → Option Integer → Method
  finish reset pause resume resume_after_upgrade : Method
  read : Reading → Method

-- The codes with which `execute` returns the number of bytes.
abbrev pub is_parsed : ℕ → Bool
is_parsed err =
    if err == hpe_ok
    then true
    else if err == hpe_paused
    then true
    else if err == hpe_paused_upgrade
    then true
    else err == hpe_strict

module _ {P : Type 0} (lua : Lua) where
  -- The run in its context; its callbacks are handled in order.
  unfoldable pub drive : Userdata P → Run P → Driven P
  unfolding handle
  drive st (finished p err) = ended (record st { parser = p }) err
  drive st (invoke p event k) =
      let (r, context) = handle lua st.past st.context event in
      let st' = record st { parser = p; context = context; past = st.past ++ (event ∷ []) } in
      elim r [ code n ↦ drive st' (k n) | raised ↦ thrown st' | fault ↦ broken ]

abbrev pub with_thread : {P : Type 0} → Userdata P → Option ℕ → Userdata P
with_thread st thread = record st { context = record st.context { thread = thread } }

-- The part of the chunk that llhttp reads; `none` where it lies outside.
abbrev pub part : Bytes → ℕ → ℕ → Option Bytes
part chunk offset len =
    if leb (offset + len) (length chunk) then some (take len (drop offset chunk)) else none

-- The type that the first argument of `new` names; `none` where it is rejected.
abbrev pub named_type : Option Bytes → Option MessageType
named_type none = some both
named_type (some type) =
    if same_text type (codes "request")
    then some request
    else if same_text type (codes "response")
    then some response
    else if same_text type (codes "both")
    then some both
    else none

-- `size_t n = p - q`, which wraps around where `p` lies before `q`.
abbrev pub pointer_difference : (p q : ℕ) → ℕ
pointer_difference p q = (p + (size_limit - q % size_limit)) % size_limit

module _ {P : Type 0} (llhttp : Llhttp P) where
  -- `new`, where the second argument is a table that gets the reference `ref`.
  abbrev pub new_parser : Option Bytes → ℕ → Option (Userdata P)
  new_parser type ref = elim (named_type type) [
    | none ↦ none
    | some t ↦ some (record {
      parser = llhttp.llhttp_init t;
      context = record { thread = none; ref = some ref };
      past = [];
      released = [];
    })
  ]

  -- `execute` behind a run on `len` bytes at `chunk`; `pos - chunk` is stored in a `size_t`.
  abbrev pub execute_result : (chunk len : ℕ) → Driven P → Called P
  execute_result chunk len (ended st err) =
      if is_parsed err
      then returns
          (parsed
            (if err == hpe_ok
              then len
              else pointer_difference (llhttp.llhttp_get_error_pos st.parser) chunk)
            err)
          (with_thread st none)
      else returns (failed err) (with_thread st none)
  execute_result chunk len (thrown st) = raises st
  execute_result chunk len broken = crashes

  -- `finish` behind its run.
  abbrev pub finish_result : Driven P → Called P
  finish_result (ended st err) =
      if err == hpe_ok
      then returns zero_value (with_thread st none)
      else if err == hpe_paused
      then returns zero_value (with_thread st none)
      else returns (failed err) (with_thread st none)
  finish_result (thrown st) = raises st
  finish_result broken = crashes

  -- A method that sets the state of the parser and returns it.
  abbrev pub with_parser : Userdata P → P → Called P
  with_parser st p = returns itself (record st { parser = p })

  module _ (lua : Lua) where
    -- `execute` on the part that the arguments stand for, which begins at `chunk`.
    abbrev pub execute_part : Userdata P → ℕ → (chunk : ℕ) → Option Bytes → Called P
    execute_part st thread chunk none = crashes
    execute_part st thread chunk (some []) = returns (parsed 0 hpe_ok) (with_thread st none)
    execute_part st thread chunk (some (c ∷ s)) =
        execute_result chunk (length (c ∷ s))
          (drive lua (with_thread st (some thread)) (llhttp.llhttp_execute st.parser chunk (c ∷ s)))

    unfoldable pub lhttp_parser_execute :
        Userdata P → ℕ → (address : ℕ) → Bytes → Option Integer → Option Integer → Called P
    unfolding drive
    lhttp_parser_execute st thread address chunk i j = elim (execute_range (length chunk) i j) [
      | none ↦ rejects st
      | some (offset, len) ↦ execute_part st thread (address + offset) (part chunk offset len)
    ]

    unfoldable pub lhttp_parser_finish : Userdata P → ℕ → Called P
    unfolding drive
    lhttp_parser_finish st thread =
        finish_result (drive lua (with_thread st (some thread)) (llhttp.llhttp_finish st.parser))

    -- A method that is called in a thread.
    unfoldable pub call : Userdata P → ℕ → Method → Called P
    unfolding lhttp_parser_execute lhttp_parser_finish read_parser
    call st thread (execute address chunk i j) = lhttp_parser_execute st thread address chunk i j
    call st thread finish = lhttp_parser_finish st thread
    call st thread reset = with_parser st (llhttp.llhttp_reset st.parser)
    call st thread pause = with_parser st (llhttp.llhttp_pause st.parser)
    call st thread resume =
        with_parser st (llhttp.llhttp_clear_error_reason (llhttp.llhttp_resume st.parser))
    call st thread resume_after_upgrade =
        with_parser st
          (llhttp.llhttp_clear_error_reason (llhttp.llhttp_resume_after_upgrade st.parser))
    call st thread (read r) =
        let (vs, p) = read_parser llhttp.readers st.parser r in
        returns (values vs) (record st { parser = p })

    -- The state behind a call; `none` behind a crash.
    abbrev pub state_after : Called P → Option (Userdata P)
    state_after (returns r st) = some st
    state_after (rejects st) = some st
    state_after (raises st) = some st
    state_after crashes = none

    -- The methods that a program calls, each in a thread.
    unfoldable pub run_calls : List (ℕ × Method) → Userdata P → Option (Userdata P)
    unfolding call
    run_calls [] st = some st
    run_calls ((thread, m) ∷ ms) st = elim (state_after (call st thread m)) [
      | none ↦ none
      | some st' ↦ run_calls ms st'
    ]

-- `__gc`
unfoldable pub lhttp_parser_gc : {P : Type 0} → Userdata P → Userdata P
lhttp_parser_gc st = elim st.context.ref [
  | none ↦ st
  | some ref ↦ record st {
    context = record st.context { ref = none };
    released = st.released ++ (ref ∷ []);
  }
]
