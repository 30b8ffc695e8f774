-- ===== src/Binding/Query/Table.antt =====
-- lhttp_url.c: the table that `query_to_lua_table` builds has the values of each key.
use lhttp_parser.Prelude.{
  ◌≡◌, ◌<◌, refl, sym, ap, ◌∙◌, false, List, [], ◌∷◌, ◌++◌, append_assoc, append-nil, inl, inr,
  arith, Bytes, length, Bool-cases,
}
use lhttp_parser.Binding.Query.{
  Entry, nil, text, array, Tables, with_value, add_pairs, query_to_lua_table,
}
use lhttp_parser.Query.Container.Lookup.{same_text, same_text-eq, values_of}
use lhttp_parser.Query.Data.{Kv}
use lhttp_parser.Query.Parse.{is_nil}

-- What a table holds for the values of a key: nothing, the value, or an array of them.
abbrev pub entry_of : List Bytes → Entry
entry_of [] = nil
entry_of (v ∷ []) = text v
entry_of (v ∷ w ∷ vs) = array (v ∷ w ∷ vs)

with_value-entry_of :
    (vs : List Bytes) (v : Bytes) → with_value (entry_of vs) v ≡ entry_of (vs ++ (v ∷ []))
with_value-entry_of [] v = refl
with_value-entry_of (u ∷ []) v = refl
with_value-entry_of (u ∷ w ∷ vs) v = refl

not_nil : (s : Bytes) → 0 < length s → is_nil s ≡ false
not_nil [] h = absurd (omega arith)
not_nil (c ∷ s) h = refl

module _ {T : Type 0} (tables : Tables T) (key : Bytes) (pos : 0 < length key) where
  add_pairs-entry_of :
      (t : T) (vs : List Bytes) (kvs : List Kv)
      → tables.rawget t key ≡ entry_of vs
      → tables.rawget (add_pairs tables t kvs) key ≡ entry_of (vs ++ values_of key kvs)
  unfolding add_pairs
  add_pairs-entry_of t vs [] h = h ∙ ap entry_of (sym (append-nil vs))
  add_pairs-entry_of t vs (kv ∷ kvs) h = elim (Bool-cases (same_text kv.key key)) [
    | inl same ↦
        let e = same_text-eq kv.key key same in
        let named : is_nil kv.key ≡ false = (rw e (not_nil key pos)) in
        rw (named, same)
          (add_pairs-entry_of
              (tables.rawset t kv.key (with_value (tables.rawget t kv.key) kv.value))
              (vs ++ (kv.value ∷ [])) kvs
              (tables.rawget-rawset t kv.key _ key
                ∙ rw same (
                    ap (λ k. with_value (tables.rawget t k) kv.value) e
                    ∙ ap (λ entry. with_value entry kv.value) h
                    ∙ with_value-entry_of vs kv.value))
            ∙ ap entry_of (append_assoc vs (kv.value ∷ []) (values_of key kvs)))
    | inr other ↦ rw other (elim (Bool-cases (is_nil kv.key)) [
      | inl unnamed ↦ rw unnamed (add_pairs-entry_of t vs kvs h)
      | inr named ↦
          rw named (add_pairs-entry_of _ vs kvs (tables.rawget-rawset t kv.key _ key ∙ rw other h))
    ])
  ]

-- For all tables of Lua, every list of pairs and every key of at least one byte: the table that `query_to_lua_table`
-- builds has nil under the key if no pair has it, the value if one pair has it, and else the array
-- of the values of all pairs that have it, in order.
pub query_to_lua_table-values_of :
    {T : Type 0} (tables : Tables T) (kvs : List Kv) (key : Bytes)
    → 0 < length key
    → tables.rawget (query_to_lua_table tables kvs) key ≡ entry_of (values_of key kvs)
unfolding query_to_lua_table
query_to_lua_table-values_of tables kvs key pos =
    add_pairs-entry_of tables key pos tables.new_table [] kvs (tables.rawget-new_table key)
