-- ===== src/Binding/Tests.antt =====
-- lhttp_url.c, lhttp_parser.c: runs of the Lua bindings on small inputs.
use lhttp_parser.Prelude.{
  ℕ, ◌+◌, ◌≤◌, ◌≡◌, ◌↔◌, ◌⊎◌, inr, refl, Bool, true, false, List, [], ◌∷◌, none, some, arith, codes,
  if◌then◌else◌, Bytes, length, All, Memory, memory,
}
use lhttp_parser.Binding.Callbacks.Heads.{AnswersZero, handle-headers_complete_iff}
use lhttp_parser.Binding.Callbacks.{
  url, headers_complete, Head, request, Lua, absent, returned, nil, code, handle, callback_name,
  arguments,
}
use lhttp_parser.Binding.Codec.Laws.{encode_url_iff, decode_url-encode_url}
use lhttp_parser.Binding.Codec.{encode_url, decode_url}
use lhttp_parser.Binding.Execute.Range.{execute_range-in_chunk_iff}
use lhttp_parser.Binding.Execute.{pos, negsuc, execute_range, posrelat_i, getendpos, check_range}
use lhttp_parser.Binding.Methods.{Readers, Reading}
use lhttp_parser.Binding.Parser.Idle.{EndsIdle, run_calls-EndsIdle, Readable, InOrder, WellBehaved}
use lhttp_parser.Binding.Parser.Lifetime.{IsReleasedOnce, lhttp_parser_gc-IsReleasedOnce}
use lhttp_parser.Binding.Parser.{
  finished, invoke, Llhttp, Userdata, Method, execute, finish, pause, read, run_calls,
}
use lhttp_parser.Binding.Query.Table.{entry_of}
use lhttp_parser.Binding.Query.Whole.{entry_in, query_pairs, parse_query-values_of}
use lhttp_parser.Binding.Query.{
  Entry, Tables, Options, none_or_nil, default_flags, argument_flags, parse_query,
}
use lhttp_parser.Binding.Url.Target.{parse_url-target, target_parts, OneSlash, PathByte, QueryByte}
use lhttp_parser.Binding.Url.{parse_url}
use lhttp_parser.Url.Automaton.{is_invalid, char_class_table}
use lhttp_parser.Query.Chars.{is_alnum, char_flags}
use lhttp_parser.Query.Codec.Laws.{spaces}
use lhttp_parser.Query.Codec.{encode, encode_needed}
use lhttp_parser.Query.Container.Lookup.{same_text, values_of}
use lhttp_parser.Query.Data.{Kv}

abbrev always : ℕ → Bool
always n = true

abbrev zeros : Memory
zeros i = 0

abbrev text : Bytes
text = codes "a b&c"

encode_url_example :
    (encode_url always zeros zeros text ≡ encode text)
    ↔ ((spaces text ≡ 0) ⊎ (encode_needed text ≤ 2047))
encode_url_example = encode_url_iff always zeros zeros text refl

decode_url_example : decode_url always zeros zeros (encode_url always zeros zeros text) ≡ text
unfolding is_alnum char_flags
decode_url_example =
    decode_url-encode_url always zeros zeros zeros zeros text
      (omega arith, (omega arith, (omega arith, (omega arith, (omega arith, tt))))) refl refl
      (inr (unfold encode_needed in omega arith))

-- Tables as functions.
abbrev tables : Tables (Bytes → Entry)
tables = record {
  new_table = λ key. Entry.nil;
  rawget = λ t key. t key;
  rawset = λ t key entry key'. if same_text key key' then entry else t key';
  rawget-new_table = λ key. refl;
  rawget-rawset = λ t key entry key'. refl;
}

abbrev pair : Bytes → Bytes → Kv
pair k v = record { key = k; value = v; is_encoded = false }

abbrev two_values : List Kv
two_values = pair (codes "a") (codes "1") ∷ pair [] (codes "2") ∷ pair (codes "a") [] ∷ []

abbrev options : Options
options = record {
  decode = some false;
  merge_duplicates = none;
  keep_empty = none;
  lowercase_keys = some true;
  trim_values = none;
  strict = none;
}

abbrev input : Bytes
input = codes "a=1&a=%41"

parse_query_example :
    entry_in tables (parse_query tables always 96 40 input none_or_nil) (codes "a")
    ≡ some (entry_of (values_of (codes "a") (query_pairs default_flags input)))
unfolding argument_flags
parse_query_example =
    parse_query-values_of tables always 96 40 input none_or_nil (codes "a") refl refl refl refl refl
      refl refl refl (omega arith)

path_bytes : All PathByte (codes "/a")
unfolding is_invalid char_class_table
path_bytes = ((refl, refl), ((refl, refl), tt))

query_bytes : All QueryByte (codes "b=1")
unfolding is_invalid char_class_table
query_bytes = ((cc, refl), ((cc, refl), ((cc, refl), tt)))

one_slash : OneSlash (codes "a")
one_slash = cc

parse_url_example :
    parse_url (memory (codes "/a?b=1")) 6 false ≡ some (target_parts (codes "/a") (codes "b=1"))
parse_url_example =
    parse_url-target (codes "a") (codes "b=1") (omega arith) path_bytes one_slash query_bytes
      (omega arith)

-- `execute(chunk, 3, -2)` on ten bytes.

wrapped : execute_range 10 (some (pos 3)) (some (pos 1)) ≡ some (2, 18446744073709551615)
unfolding execute_range posrelat_i getendpos check_range
wrapped = refl

-- `execute(chunk, 3, 1)` on ten bytes: the length has wrapped around.
in_chunk_example : (2 + 18446744073709551615 ≤ 10) ↔ (2 ≤ 1)
in_chunk_example =
    execute_range-in_chunk_iff 10 (some (pos 3)) (some (pos 1)) (omega arith) (omega arith)
      (omega arith) wrapped

-- A callback table with `onHeadersComplete` alone, which returns nil.
abbrev lua : Lua
lua past thread ref name arguments = record {
  outcome = if same_text name (codes "onHeadersComplete") then returned nil else absent;
  reenters = false;
}

abbrev head : Head
head = record {
  message_type = request;
  method_name = codes "GET";
  status_code = 0;
  http_major = 1;
  http_minor = 1;
  should_keep_alive = true;
  message_needs_eof = false;
  upgrade = false;
  flags = 1;
}

headers_complete_example :
    ((handle lua [] (record { thread = some 1; ref = some 5 }) (headers_complete head)).0 ≡ code 0)
    ↔ AnswersZero (
        (lua [] 1 5
          (callback_name (headers_complete head))
          (arguments (headers_complete head))).outcome)
headers_complete_example = handle-headers_complete_iff lua [] 1 5 head

abbrev readers : Readers ℕ
readers = record {
  http_major = λ p. 1;
  http_minor = λ p. 1;
  status_code = λ p. 0;
  method = λ p. 1;
  upgrade = λ p. 0;
  llhttp_method_name = λ n. codes "GET";
  llhttp_get_errno = λ p. 0;
  llhttp_errno_name = λ n. codes "HPE_OK";
  llhttp_get_error_reason = λ p. none;
  llhttp_should_keep_alive = λ p. true;
}

-- A parser that is the position it has reached, invokes two callbacks, and stops at the code of the second.
abbrev llhttp : Llhttp ℕ
llhttp = record {
  llhttp_init = λ type. 0;
  llhttp_execute = λ p at s.
      invoke p (url s)
        (λ n. invoke p (headers_complete head) (λ err. finished (at + length s) err));
  llhttp_finish = λ p. finished p 0;
  llhttp_reset = λ p. 0;
  llhttp_pause = λ p. p;
  llhttp_resume = λ p. p;
  llhttp_resume_after_upgrade = λ p. p;
  llhttp_clear_error_reason = λ p. p;
  llhttp_get_error_pos = λ p. p;
  readers = readers;
}

nil_or_absent-Readable : (b : Bool) → Readable (if b then returned nil else absent)
nil_or_absent-Readable true = tt
nil_or_absent-Readable false = tt

lua-WellBehaved : WellBehaved lua
lua-WellBehaved past thread ref event =
    (refl, nil_or_absent-Readable (same_text (callback_name event) (codes "onHeadersComplete")))

abbrev created : Userdata ℕ
created = record {
  parser = 0;
  context = record { thread = none; ref = some 5 };
  past = [];
  released = [];
}

abbrev methods : List (ℕ × Method)
methods =
    (1, execute 4096 (codes "GET /") none none)
    ∷ (2, pause)
    ∷ (1, execute 4096 (codes "GET /") (some (pos 2)) (some (negsuc 1)))
    ∷ (2, read Reading.http_errno)
    ∷ (1, finish)
    ∷ []

methods-InOrder : All (λ m. InOrder (m.1)) methods
methods-InOrder = (
  (omega arith, omega arith, omega arith, omega arith),
  (tt, ((omega arith, omega arith, omega arith, omega arith), (tt, (tt, tt)))),
)

run_calls_example : EndsIdle llhttp lua lua-WellBehaved 5 [] (run_calls llhttp lua methods created)
run_calls_example =
    run_calls-EndsIdle llhttp lua lua-WellBehaved 5 [] methods created methods-InOrder
      (refl, refl, refl)

released_example : IsReleasedOnce 5 (run_calls llhttp lua methods created)
released_example =
    lhttp_parser_gc-IsReleasedOnce llhttp lua lua-WellBehaved 5 none methods created refl
      methods-InOrder
