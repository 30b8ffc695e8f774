-- ===== src/Url/Automaton.antt =====
-- llurl.c: the states and character classes of the table-driven automaton, and its two tables.
use lhttp_parser.Prelude.{ℕ, Bool, true, false, List, [], ◌∷◌, get_or}

pub data State : Type 0 where
  dead start schema schema_slash schema_slash_slash server_start server server_with_at : State
  path query_or_fragment query fragment : State

pub data CharClass : Type 0 where
  invalid alpha digit slash colon question hash at dot dash plus percent : CharClass
  ampersand equals semicolon dollar exclamation asterisk comma lparen rparen : CharClass
  apostrophe underscore tilde lbracket rbracket pipe lbrace rbrace : CharClass

-- Eight entries to a row, as in the source.
unfoldable pub char_class_list : List CharClass
char_class_list =
    invalid ∷ invalid ∷ invalid ∷ invalid ∷ invalid ∷ invalid ∷ invalid ∷ invalid ∷ invalid
    ∷ invalid ∷ invalid ∷ invalid ∷ invalid ∷ invalid ∷ invalid ∷ invalid ∷ invalid ∷ invalid
    ∷ invalid ∷ invalid ∷ invalid ∷ invalid ∷ invalid ∷ invalid ∷ invalid ∷ invalid ∷ invalid
    ∷ invalid ∷ invalid ∷ invalid ∷ invalid ∷ invalid ∷ invalid ∷ exclamation ∷ invalid ∷ hash
    ∷ dollar ∷ percent ∷ ampersand ∷ apostrophe ∷ lparen ∷ rparen ∷ asterisk ∷ plus ∷ comma ∷ dash
    ∷ dot ∷ slash ∷ digit ∷ digit ∷ digit ∷ digit ∷ digit ∷ digit ∷ digit ∷ digit ∷ digit ∷ digit
    ∷ colon ∷ semicolon ∷ invalid ∷ equals ∷ invalid ∷ question ∷ at ∷ alpha ∷ alpha ∷ alpha ∷ alpha
    ∷ alpha ∷ alpha ∷ alpha ∷ alpha ∷ alpha ∷ alpha ∷ alpha ∷ alpha ∷ alpha ∷ alpha ∷ alpha ∷ alpha
    ∷ alpha ∷ alpha ∷ alpha ∷ alpha ∷ alpha ∷ alpha ∷ alpha ∷ alpha ∷ alpha ∷ alpha ∷ lbracket
    ∷ invalid ∷ rbracket ∷ invalid ∷ underscore ∷ invalid ∷ alpha ∷ alpha ∷ alpha ∷ alpha ∷ alpha
    ∷ alpha ∷ alpha ∷ alpha ∷ alpha ∷ alpha ∷ alpha ∷ alpha ∷ alpha ∷ alpha ∷ alpha ∷ alpha ∷ alpha
    ∷ alpha ∷ alpha ∷ alpha ∷ alpha ∷ alpha ∷ alpha ∷ alpha ∷ alpha ∷ alpha ∷ lbrace ∷ pipe ∷ rbrace
    ∷ tilde ∷ invalid ∷ invalid ∷ invalid ∷ invalid ∷ invalid ∷ invalid ∷ invalid ∷ invalid
    ∷ invalid ∷ invalid ∷ invalid ∷ invalid ∷ invalid ∷ invalid ∷ invalid ∷ invalid ∷ invalid
    ∷ invalid ∷ invalid ∷ invalid ∷ invalid ∷ invalid ∷ invalid ∷ invalid ∷ invalid ∷ invalid
    ∷ invalid ∷ invalid ∷ invalid ∷ invalid ∷ invalid ∷ invalid ∷ invalid ∷ invalid ∷ invalid
    ∷ invalid ∷ invalid ∷ invalid ∷ invalid ∷ invalid ∷ invalid ∷ invalid ∷ invalid ∷ invalid
    ∷ invalid ∷ invalid ∷ invalid ∷ invalid ∷ invalid ∷ invalid ∷ invalid ∷ invalid ∷ invalid
    ∷ invalid ∷ invalid ∷ invalid ∷ invalid ∷ invalid ∷ invalid ∷ invalid ∷ invalid ∷ invalid
    ∷ invalid ∷ invalid ∷ invalid ∷ invalid ∷ invalid ∷ invalid ∷ invalid ∷ invalid ∷ invalid
    ∷ invalid ∷ invalid ∷ invalid ∷ invalid ∷ invalid ∷ invalid ∷ invalid ∷ invalid ∷ invalid
    ∷ invalid ∷ invalid ∷ invalid ∷ invalid ∷ invalid ∷ invalid ∷ invalid ∷ invalid ∷ invalid
    ∷ invalid ∷ invalid ∷ invalid ∷ invalid ∷ invalid ∷ invalid ∷ invalid ∷ invalid ∷ invalid
    ∷ invalid ∷ invalid ∷ invalid ∷ invalid ∷ invalid ∷ invalid ∷ invalid ∷ invalid ∷ invalid
    ∷ invalid ∷ invalid ∷ invalid ∷ invalid ∷ invalid ∷ invalid ∷ invalid ∷ invalid ∷ invalid
    ∷ invalid ∷ invalid ∷ invalid ∷ invalid ∷ invalid ∷ invalid ∷ invalid ∷ invalid ∷ invalid
    ∷ invalid ∷ invalid ∷ invalid ∷ invalid ∷ []

-- `char_class_table[c]`; `invalid` outside of the table, which no `unsigned char` reaches.
unfoldable pub char_class_table : ℕ → CharClass
unfolding char_class_list
char_class_table c = get_or char_class_list c invalid

-- `class == cc_invalid`
abbrev is_invalid_class : CharClass → Bool
is_invalid_class invalid = true
is_invalid_class _ = false

unfoldable pub is_invalid : ℕ → Bool
unfolding char_class_table
is_invalid c = is_invalid_class (char_class_table c)

-- An entry of `url_state_table`: the next state, or `STAY`.
pub data Cell : Type 0 where
  stay : Cell
  next : State → Cell

row_start : CharClass → Cell
row_start alpha = next schema
row_start slash = next path
row_start asterisk = next path
row_start _ = next dead

row_schema : CharClass → Cell
row_schema alpha = stay
row_schema digit = stay
row_schema dot = stay
row_schema dash = stay
row_schema plus = stay
row_schema colon = next schema_slash
row_schema _ = next dead

row_schema_slash : CharClass → Cell
row_schema_slash slash = next schema_slash_slash
row_schema_slash _ = next dead

row_schema_slash_slash : CharClass → Cell
row_schema_slash_slash slash = next server_start
row_schema_slash_slash _ = next dead

row_server : CharClass → Cell
row_server invalid = next dead
row_server slash = next path
row_server question = next query_or_fragment
row_server hash = next dead
row_server at = next server_with_at
row_server _ = stay

row_server_with_at : CharClass → Cell
row_server_with_at invalid = next dead
row_server_with_at slash = next path
row_server_with_at question = next query_or_fragment
row_server_with_at hash = next dead
row_server_with_at at = next dead
row_server_with_at _ = stay

row_path : CharClass → Cell
row_path invalid = next dead
row_path question = next query_or_fragment
row_path hash = next query_or_fragment
row_path _ = stay

row_query_or_fragment : CharClass → Cell
row_query_or_fragment question = next query
row_query_or_fragment hash = next fragment
row_query_or_fragment _ = next dead

row_query : CharClass → Cell
row_query invalid = next dead
row_query hash = next fragment
row_query _ = stay

row_fragment : CharClass → Cell
row_fragment invalid = next dead
row_fragment _ = stay

-- `url_state_table[state][class]`
unfoldable pub url_state_table : State → CharClass → Cell
unfolding row_start row_schema row_schema_slash row_schema_slash_slash row_server row_server_with_at
    row_path row_query_or_fragment row_query row_fragment
url_state_table start = row_start
url_state_table schema = row_schema
url_state_table schema_slash = row_schema_slash
url_state_table schema_slash_slash = row_schema_slash_slash
url_state_table server = row_server
url_state_table server_with_at = row_server_with_at
url_state_table path = row_path
url_state_table query_or_fragment = row_query_or_fragment
url_state_table query = row_query
url_state_table fragment = row_fragment
url_state_table dead = λ _. next dead
url_state_table server_start = λ _. next dead
