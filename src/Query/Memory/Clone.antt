-- ===== src/Query/Memory/Clone.antt =====
-- llquery.c: `llquery_clone`, as far as it allocates and frees.
pub mod Pairs
pub mod Copies
use lhttp_parser.Prelude.{
  ℕ, suc, ◌+◌, ◌*◌, Bool, true, false, not, ◌&&◌, List, [], ◌∷◌, Option, none, some, ◌==◌, ltb,
  if◌then◌else◌, length,
}
use lhttp_parser.Query.Memory.{Pointer, null, at, M, pure, ◌>>=◌, ◌>>◌, alloc}
use lhttp_parser.Query.Memory.Session.{nulls}
use lhttp_parser.Query.Memory.Structure.{Slot, Structure, llquery_init_ex, llquery_free}

module _ (grants : ℕ → ℕ → Bool) where
  -- Behind the copies of the later pairs.
  abbrev pub with_copied : Slot → Bool × List Slot → M (Bool × List Slot)
  with_copied s (all_copied, ss) = pure (all_copied, s ∷ ss)

  -- Behind the allocation of a value; the pairs that are not reached hold null.
  abbrev pub value_copied : Pointer → ℕ → M (Bool × List Slot) → Pointer → M (Bool × List Slot)
  value_copied k later rest null = pure (false, record { key = k; value = null } ∷ nulls later)
  value_copied k later rest (at b offset) =
      rest >>= λ r. with_copied (record { key = k; value = at b offset }) r

  -- Behind the allocation of a key.
  abbrev pub key_copied : ℕ → ℕ → M (Bool × List Slot) → Pointer → M (Bool × List Slot)
  key_copied value_len later rest null = pure (false, nulls (suc later))
  key_copied value_len later rest (at b offset) =
      alloc grants (value_len + 1) >>= λ v. value_copied (at b offset) later rest v

  -- The loop over the pairs, on the lengths of their keys and values.
  unfoldable pub copy_pairs : List (ℕ × ℕ) → M (Bool × List Slot)
  copy_pairs [] = pure (true, [])
  copy_pairs ((key_len, value_len) ∷ lens) =
      let rest = copy_pairs lens in
      alloc grants (key_len + 1) >>= λ k. key_copied value_len (length lens) rest k

  -- Behind the allocation of the buffer.
  abbrev pub buffer_copied : Structure → Pointer → M (Option Structure)
  buffer_copied q null = llquery_free q >> pure none
  buffer_copied q (at b offset) =
      pure (some (record q { decode_buffer = at b offset; decode_buffer_owned = true }))

  -- Behind the loop; `buffer_size` is 0 where the source has no buffer.
  abbrev pub pairs_copied : ℕ → Structure → Bool × List Slot → M (Option Structure)
  pairs_copied buffer_size q (false, ss) = llquery_free (record q { slots = ss }) >> pure none
  pairs_copied buffer_size q (true, ss) =
      if ltb 0 buffer_size
      then (alloc grants buffer_size >>= λ p. buffer_copied (record q { slots = ss }) p)
      else pure (some (record q { slots = ss }))

  abbrev pub clone_into : List (ℕ × ℕ) → ℕ → Option Structure → M (Option Structure)
  clone_into lens buffer_size none = pure none
  clone_into lens buffer_size (some q) = copy_pairs lens >>= λ r. pairs_copied buffer_size q r

  -- `llquery_clone` of a source with these pairs, buffer and room; `none` stands for
  -- `LQE_MEMORY_ERROR`, behind which the structure is zero.
  unfoldable pub llquery_clone : ℕ → ℕ → ℕ → List (ℕ × ℕ) → ℕ → M (Option Structure)
  unfolding copy_pairs
  llquery_clone internal_size kv_size max lens buffer_size =
      llquery_init_ex grants internal_size kv_size max >>= λ o. clone_into lens buffer_size o
