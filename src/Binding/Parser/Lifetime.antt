-- ===== src/Binding/Parser/Lifetime.antt =====
-- lhttp_parser.c: the reference of the callback table, from `new` to `__gc`.
use mathlib.Core.Path.{subst}
use lhttp_parser.Prelude.{ℕ, ◌≡◌, refl, List, [], ◌∷◌, Option, none, some, All, Bytes}
use lhttp_parser.Binding.Callbacks.{MessageType, Lua}
use lhttp_parser.Binding.Parser.{
  Llhttp, Userdata, Method, new_parser, named_type, run_calls, lhttp_parser_gc,
}
use lhttp_parser.Binding.Parser.Idle.{WellBehaved, InOrder, Holds, EndsIdle, run_calls-EndsIdle}

-- Behind two runs of `__gc`, the reference is released, once.
abbrev pub IsReleasedOnce : {P : Type 0} → ℕ → Option (Userdata P) → Type 0
IsReleasedOnce ref none = ⊥
IsReleasedOnce ref (some st) = (lhttp_parser_gc (lhttp_parser_gc st)).released ≡ ref ∷ []

gc_twice :
    {P : Type 0} (ref : ℕ) (st : Userdata P)
    → Holds none ref [] st
    → (lhttp_parser_gc (lhttp_parser_gc st)).released ≡ ref ∷ []
unfolding lhttp_parser_gc
gc_twice ref st h = rw (h.1, h.2) refl

abbrev HoldsIf : {P : Type 0} → ℕ → Option (Userdata P) → Type 0
HoldsIf ref none = Unit
HoldsIf ref (some st) = Holds none ref [] st

new_parser-Holds :
    {P : Type 0} (llhttp : Llhttp P) (type : Option Bytes) (ref : ℕ) (st : Userdata P)
    → new_parser llhttp type ref ≡ some st
    → Holds none ref [] st
new_parser-Holds llhttp type ref st e = go (named_type type) e
  where
    go :
        (t : Option MessageType)
        → (elim t [
          | none ↦ none
          | some t ↦ some (record {
            parser = llhttp.llhttp_init t;
            context = record { thread = none; ref = some ref };
            past = [];
            released = [];
          })
        ])
          ≡ some st
        → Holds none ref [] st
    go none h = cc
    go (some t) h = subst (HoldsIf ref) h (refl, refl, refl)

module _ {P : Type 0} (llhttp : Llhttp P) (lua : Lua) (behaved : WellBehaved lua) (ref : ℕ) where
  released : (o : Option (Userdata P)) → EndsIdle llhttp lua behaved ref [] o → IsReleasedOnce ref o
  released none h = absurd h
  released (some st) h = gc_twice ref st h

  -- For every llhttp, every type that `new` accepts, every Lua program whose callbacks do not call
  -- `execute` or `finish` of the running parser and answer with readable values, and every sequence
  -- of methods with the arguments of `execute` in order: the sequence ends, and `__gc` behind it
  -- releases the reference that `new` has made, and a second `__gc` does not release it again.
  pub lhttp_parser_gc-IsReleasedOnce :
      (type : Option Bytes) (ms : List (ℕ × Method)) (st : Userdata P)
      → new_parser llhttp type ref ≡ some st
      → All (λ m. InOrder (m.1)) ms
      → IsReleasedOnce ref (run_calls llhttp lua ms st)
  lhttp_parser_gc-IsReleasedOnce type ms st made ws = released (run_calls llhttp lua ms st) (
      run_calls-EndsIdle llhttp lua behaved ref [] ms st ws
        (new_parser-Holds llhttp type ref st made))
