-- ===== src/Binding/Callbacks.antt =====
-- lhttp_parser.c: the callbacks that llhttp invokes, and the Lua functions that they call. What a
-- Lua function does is a parameter.
pub mod Heads
use lhttp_parser.Prelude.{
  ℕ, ◌%◌, Bool, true, false, not, List, [], ◌∷◌, ◌++◌, Option, none, some, ◌==◌, if◌then◌else◌,
  Bytes, codes, bit_and,
}

-- `llhttp_errno_t`, the values that the binding names.
abbrev pub hpe_ok : ℕ
hpe_ok = 0

abbrev pub hpe_internal : ℕ
hpe_internal = 1

abbrev pub hpe_strict : ℕ
hpe_strict = 2

abbrev pub hpe_paused : ℕ
hpe_paused = 21

abbrev pub hpe_paused_upgrade : ℕ
hpe_paused_upgrade = 22

abbrev pub hpe_user : ℕ
hpe_user = 24

-- The flags of a message in `llhttp_t`.
abbrev pub f_connection_keep_alive : ℕ
f_connection_keep_alive = 1

abbrev pub f_connection_close : ℕ
f_connection_close = 2

abbrev pub f_connection_upgrade : ℕ
f_connection_upgrade = 4

abbrev pub f_chunked : ℕ
f_chunked = 8

abbrev pub f_upgrade : ℕ
f_upgrade = 16

abbrev pub f_content_length : ℕ
f_content_length = 32

abbrev pub f_skipbody : ℕ
f_skipbody = 64

abbrev pub f_trailing : ℕ
f_trailing = 128

abbrev pub f_transfer_encoding : ℕ
f_transfer_encoding = 512

-- `enum llhttp_type`
pub data MessageType : Type 0 where
  both request response : MessageType

-- What `onHeadersComplete` is told: fields of `llhttp_t` and results of llhttp's functions on it.
pub record Head : Type 0 where
  pub message_type : MessageType
  pub method_name : Bytes
  pub status_code : ℕ
  pub http_major : ℕ
  pub http_minor : ℕ
  pub should_keep_alive : Bool
  pub message_needs_eof : Bool
  pub upgrade : Bool
  pub flags : ℕ

-- A callback of `llhttp_settings_t`, with what it is given.
pub data Event : Type 0 where
  message_begin message_complete chunk_complete on_reset : Event
  url header_field header_value body : Bytes → Event
  status : ℕ → Bytes → Event
  headers_complete : Head → Event
  chunk_header : ℕ → Event

-- A Lua value that is pushed as an argument, or as a field of one.
pub data FieldValue : Type 0 where
  text : Bytes → FieldValue
  number : ℕ → FieldValue
  boolean : Bool → FieldValue

pub data Value : Type 0 where
  plain : FieldValue → Value
  table : List (Bytes × FieldValue) → Value

-- `lua_pushboolean(L, p->flags & flag)`
abbrev pub flag_field : Head → ℕ → FieldValue
flag_field h flag = boolean (not (bit_and h.flags flag == 0))

-- `METHOD` and `STATUS`
abbrev pub start_fields : Head → MessageType → List (Bytes × FieldValue)
start_fields h both = []
start_fields h request = (codes "method", text h.method_name) ∷ []
start_fields h response = (codes "status_code", number h.status_code) ∷ []

-- The fields of the table that `onHeadersComplete` is called with, in the order in which they are set.
unfoldable pub head_fields : Head → List (Bytes × FieldValue)
head_fields h =
    start_fields h h.message_type
    ++ ((codes "http_major", number h.http_major)
        ∷ (codes "http_minor", number h.http_minor)
        ∷ (codes "should_keep_alive", boolean h.should_keep_alive)
        ∷ (codes "message_needs_eof", boolean h.message_needs_eof)
        ∷ (codes "upgrade", boolean h.upgrade)
        ∷ (codes "CONNECTION_KEEP_ALIVE", flag_field h f_connection_keep_alive)
        ∷ (codes "CONNECTION_CLOSE", flag_field h f_connection_close)
        ∷ (codes "CONNECTION_UPGRADE", flag_field h f_connection_upgrade)
        ∷ (codes "CHUNKED", flag_field h f_chunked)
        ∷ (codes "UPGRADE", flag_field h f_upgrade)
        ∷ (codes "SKIPBODY", flag_field h f_skipbody)
        ∷ (codes "TRAILING", flag_field h f_trailing)
        ∷ (codes "CONTENT_LENGTH", flag_field h f_content_length)
        ∷ (codes "TRANSFER_ENCODING", flag_field h f_transfer_encoding)
        ∷ [])

-- The key in the callback table.
unfoldable pub callback_name : Event → Bytes
callback_name message_begin = codes "onMessageBegin"
callback_name message_complete = codes "onMessageComplete"
callback_name chunk_complete = codes "onChunkComplete"
callback_name on_reset = codes "onReset"
callback_name (url at) = codes "onUrl"
callback_name (header_field at) = codes "onHeaderField"
callback_name (header_value at) = codes "onHeaderValue"
callback_name (body at) = codes "onBody"
callback_name (status code at) = codes "onStatus"
callback_name (headers_complete h) = codes "onHeadersComplete"
callback_name (chunk_header length) = codes "onChunkHeader"

-- What is pushed for the Lua function.
unfoldable pub arguments : Event → List Value
unfolding head_fields
arguments message_begin = []
arguments message_complete = []
arguments chunk_complete = []
arguments on_reset = []
arguments (url at) = plain (text at) ∷ []
arguments (header_field at) = plain (text at) ∷ []
arguments (header_value at) = plain (text at) ∷ []
arguments (body at) = plain (text at) ∷ []
arguments (status code at) = plain (number code) ∷ plain (text at) ∷ []
arguments (headers_complete h) = table (head_fields h) ∷ []
arguments (chunk_header length) = plain (number length) ∷ []

-- The first result of a Lua function, as `luaL_optinteger` reads it; an integer is its 64 bits.
pub data Result : Type 0 where
  nil other : Result
  integer : ℕ → Result

-- The callback table has no function, the call of it raises an error, or it returns.
pub data Outcome : Type 0 where
  absent error : Outcome
  returned : Result → Outcome

-- What a call of Lua does: its outcome, and whether it has called `execute` or `finish` of the same
-- parser.
pub record Answer : Type 0 where
  pub outcome : Outcome
  pub reenters : Bool

-- What a callback does: it returns a code, the 32 bits of an `int`; it leaves llhttp by a Lua error;
-- or it uses a null or missing pointer.
pub data Reply : Type 0 where
  code : ℕ → Reply
  raised fault : Reply

-- The return value of `lhttp_parser_pcall_callback` behind its first check.
abbrev pub pcall_result : Outcome → ℕ → ℕ
pcall_result absent nresult = 0
pcall_result error nresult = hpe_user
pcall_result (returned value) nresult = nresult

-- `luaL_optinteger` of the result on the stack; without a result there is none.
abbrev pub optinteger_reply : Outcome → Reply
optinteger_reply absent = fault
optinteger_reply error = fault
optinteger_reply (returned nil) = code 0
optinteger_reply (returned (integer n)) = code (n % 4294967296)
optinteger_reply (returned other) = raised

abbrev pub is_headers_complete : Event → Bool
is_headers_complete (headers_complete h) = true
is_headers_complete event = false

-- What a callback returns for the outcome of its Lua function.
unfoldable pub reply : Event → Outcome → Reply
reply event outcome =
    if is_headers_complete event
    then (if pcall_result outcome 1 == 1 then optinteger_reply outcome else code hpe_user)
    else code (pcall_result outcome 0)

-- `parser_ctx`: the Lua thread that is running, and the reference of the callback table.
pub record Context : Type 0 where
  pub thread : Option ℕ
  pub ref : Option ℕ

abbrev pub has_arguments : List Value → Bool
has_arguments [] = false
has_arguments (v ∷ vs) = true

-- `lua env past thread ref name arguments`: what the function under `name` in the table `ref` does,
-- when it is called in the thread, after the events `past`.
abbrev pub Lua : Type 0
Lua = List Event → ℕ → ℕ → Bytes → List Value → Answer

-- The context behind a call of Lua: `execute` and `finish` leave a null thread.
abbrev pub context_after : Context → Answer → Context
context_after ctx a = if a.reenters then record ctx { thread = none } else ctx

-- A callback in a context; with a null thread, one that pushes an argument uses the null pointer.
unfoldable pub handle : Lua → List Event → Context → Event → Reply × Context
unfolding callback_name arguments reply
handle lua past ctx event = elim ctx.thread [
  | none ↦ (if has_arguments (arguments event) then fault else code hpe_internal, ctx)
  | some thread ↦ elim ctx.ref [
    | none ↦ (fault, ctx)
    | some ref ↦
        let a = lua past thread ref (callback_name event) (arguments event) in
        (reply event a.outcome, context_after ctx a)
  ]
]
