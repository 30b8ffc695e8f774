-- ===== src/Query/Memory/Store.antt =====
-- llquery.c: `llquery_parse_ex`, as far as it allocates and frees.
pub mod Keeps
use lhttp_parser.Prelude.{
  ℕ, zero, suc, ◌+◌, Bool, true, false, not, ◌&&◌, List, [], ◌∷◌, ◌++◌, ◌==◌, leb, ltb,
  if◌then◌else◌, Bytes, length,
}
use lhttp_parser.Query.Data.{
  auto_decode, keep_empty, strict, has_option, Error, ok, empty_string, buffer_too_small,
  memory_error, too_many_pairs, Kv,
}
use lhttp_parser.Query.Memory.{Pointer, null, at, M, pure, ◌>>=◌, ◌>>◌, alloc}
use lhttp_parser.Query.Memory.Structure.{Slot, Structure, free_string, llquery_reset}
use lhttp_parser.Query.Parse.{skip_separators, next_pair, is_nil, stored_pair, estimate_string_size}
use lhttp_parser.Query.Strings.{has_encoded_chars, decode_in_place}

-- What the loop leaves: the structure, the unread rest, and whether all allocations succeeded.
pub record Stored : Type 0 where
  pub structure : Structure
  pub rest : Bytes
  pub allocated : Bool

-- How storing a pair ends: an allocation failed, the pair is left out, or it is stored.
pub data Outcome : Type 0 where
  failed skipped stored : Structure → Outcome

module _ (grants : ℕ → ℕ → Bool) where
  -- `pool_alloc_string`, on the pool, its size and the bytes of it that are used; the result is the
  -- string and the bytes that are used then.
  unfoldable pub pool_alloc : Pointer → ℕ → ℕ → ℕ → M (Pointer × ℕ)
  pool_alloc null pool_size used size = alloc grants size >>= λ p. pure (p, used)
  pool_alloc (at b start) pool_size used size =
      if leb (used + size) pool_size
      then pure (at b (start + used), used + size)
      else alloc grants size >>= λ p. pure (p, used)

  abbrev pub alloc_string : Structure → ℕ → M (Pointer × ℕ)
  alloc_string q size = pool_alloc q.string_pool q.string_pool_size q.string_pool_used size

  abbrev pub with_used : Structure → ℕ → Structure
  with_used q used = record q { string_pool_used = used }

  -- Behind the two allocations.
  abbrev pub keep_pair : Bool → Structure → Pointer → Pointer → M Outcome
  keep_pair drop q k v =
      if drop
      then (do free_string q k; free_string q v; pure (skipped q))
      else pure (stored (record q { slots = q.slots ++ (record { key = k; value = v } ∷ []) }))

  -- Behind the second allocation; its failure frees the key.
  abbrev pub value_given : Bool → Structure → Pointer → Pointer → M Outcome
  value_given drop q k null = do free_string q k; pure (failed q)
  value_given drop q k (at b offset) = keep_pair drop q k (at b offset)

  unfoldable pub store_value : Bool → Structure → Pointer → Bytes → M Outcome
  store_value drop q k value =
      alloc_string q (length value + 1) >>= λ (v, used). value_given drop (with_used q used) k v

  -- Behind the first allocation.
  abbrev pub key_given : Bool → Structure → Pointer → Bytes → M Outcome
  key_given drop q null value = pure (failed q)
  key_given drop q (at b offset) value = store_value drop q (at b offset) value

  -- The two strings of a pair; `drop` says that its value is empty and not kept.
  unfoldable pub store_pair : Bool → Structure → Bytes → Bytes → M Outcome
  store_pair drop q key value =
      alloc_string q (length key + 1) >>= λ (k, used). key_given drop (with_used q used) k value

  -- What a round does behind a pair.
  abbrev pub next_round :
      Bytes → (Structure → M Stored) → (Structure → M Stored) → Outcome → M Stored
  next_round after over on (failed q) =
      pure (record { structure = q; rest = after; allocated = false })
  next_round after over on (skipped q) = over q
  next_round after over on (stored q) = on q

  module _ (flags : ℕ) (encoded : Bool) where
    -- Whether a pair is left out for its empty value.
    abbrev pub is_dropped : Bytes → Bytes → Bool
    is_dropped key value =
        not (has_option flags keep_empty) && is_nil (stored_pair flags encoded key value).value

    -- The main loop; `room` is `max_kv_count - kv_index`, and the fuel bounds the rounds.
    unfoldable pub store_loop : ℕ → ℕ → Structure → Bytes → M Stored
    store_loop zero room q rest = pure (record { structure = q; rest = rest; allocated = true })
    store_loop (suc fuel) zero q rest =
        pure (record { structure = q; rest = rest; allocated = true })
    store_loop (suc fuel) (suc room) q rest =
        let (key, value, after) = next_pair rest in
        let over = λ (q' : Structure). store_loop fuel (suc room) q' after in
        let on = λ (q' : Structure). store_loop fuel room q' after in
        if is_nil (skip_separators rest)
        then pure (record { structure = q; rest = []; allocated = true })
        else if is_nil key
        then over q
        else store_pair (is_dropped key value) q key value >>= λ o. next_round after over on o
