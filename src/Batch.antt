-- ===== src/Batch.antt =====
-- lua/addToBatch.lua, lua/lockBatch.lua and lua/updateLastProcessed.lua: a batch of rows with its
-- metadata, and the lock under which it is closed. A script runs in one piece.
use account_service.Common.{
  ℕ, ◌+◌, ◌≡◌, refl, ap, ◌∙◌, String, Option, none, some, List, ◌==◌, string_eq, ==_refl, Bool,
  true, false, if◌then◌else◌, ltb, inl, inr, Option-cases,
}
use account_service.Js.{Outcome, resolved, rejected, error, Outcome-cases}

-- The commands of Redis that the scripts call.
pub record Store : Type 1 where
  pub State : Type 0
  pub get : State → String → Option String
  pub set : State → String → String → State
  pub setex : State → String → ℕ → String → State
  pub hget : State → String → String → Option String
  pub hsetnx : State → String → String → String → State
  pub hgetall : State → String → List (String × String)
  -- refused where the first key does not exist
  pub rename : State → String → String → Outcome State

-- Their documented behaviour, as far as the theorems need it: the keys of strings and of hashes are
-- apart.
pub record IsStore (R : Store) : Type 0 where
  pub get-set :
      (s : R.State) (k v j : String)
      → R.get (R.set s k v) j ≡ (if j == k then some v else R.get s j)
  pub get-hsetnx : (s : R.State) (k f v j : String) → R.get (R.hsetnx s k f v) j ≡ R.get s j
  pub hget-set : (s : R.State) (k v j f : String) → R.hget (R.set s k v) j f ≡ R.hget s j f
  pub hget-hsetnx_fresh :
      (s : R.State) (k f v : String) → R.hget s k f ≡ none → R.hget (R.hsetnx s k f v) k f ≡ some v
  pub hsetnx_taken :
      (s : R.State) (k f v old : String) → R.hget s k f ≡ some old → R.hsetnx s k f v ≡ s

-- The metadata as JSON: `cjson` is not in the repository.
pub record Metadata : Type 0 where
  -- `cjson.decode(raw)['rowCount']`
  pub row_count : String → Outcome (Option ℕ)
  -- the text with `rowCount` replaced
  pub with_row_count : String → ℕ → String
  -- `tonumber(cjson.decode(raw)['lockTimestamp'])`
  pub lock_timestamp : String → Outcome ℕ
  pub with_lock_timestamp : String → ℕ → Outcome String

-- What `addToBatch` returns: -1, or the count.
pub data Added : Type 0 where
  no_row_count : Added
  count : ℕ → Added

-- What `lockBatch` returns: 1 and -1 with the rows and the metadata, -2 and 0 without.
pub data Locked : Type 0 where
  locked lock_expired : List (String × String) → String → Locked
  still_locked no_batch : Locked

module _ (R : Store) (M : Metadata) where
  unfoldable pub add_counted :
      String
      → String
      → String
      → String
      → String
      → Outcome (Option ℕ)
      → R.State
      → Outcome Added × R.State
  add_counted metadata_key data_key raw id row (rejected e) s = (rejected e, s)
  add_counted metadata_key data_key raw id row (resolved none) s = (resolved no_row_count, s)
  add_counted metadata_key data_key raw id row (resolved (some rows)) s = (
    resolved (count (rows + 1)),
    R.hsetnx (R.set s metadata_key (M.with_row_count raw (rows + 1))) data_key id row,
  )

  unfoldable pub add_to_batch :
      String → String → String → String → String → R.State → Outcome Added × R.State
  unfolding add_counted
  add_to_batch metadata_key data_key new_metadata id row s = elim (R.get s metadata_key) [
    | some raw ↦ add_counted metadata_key data_key raw id row (M.row_count raw) s
    | none ↦ (resolved (count 1), R.hsetnx (R.set s metadata_key new_metadata) data_key id row)
  ]

  -- `timePassed > timestampInterval`
  unfoldable pub refuse_lock :
      String → ℕ → ℕ → String → Outcome ℕ → R.State → Outcome Locked × R.State
  refuse_lock locked_data_key now interval raw (rejected e) s = (rejected e, s)
  refuse_lock locked_data_key now interval raw (resolved since) s = (
    resolved (
        if ltb (since + interval) now
        then lock_expired (R.hgetall s locked_data_key) raw
        else still_locked),
    s,
  )

  unfoldable pub stamp_lock : String → String → ℕ → R.State → Outcome Locked × R.State
  stamp_lock locked_metadata_key locked_data_key now s = elim (R.get s locked_metadata_key) [
    | none ↦ (rejected (error "bad argument #1 to 'decode' (string expected, got boolean)"), s)
    | some raw ↦ elim (M.with_lock_timestamp raw now) [
      | rejected e ↦ (rejected e, s)
      | resolved stamped ↦
          let t = R.set s locked_metadata_key stamped in
          (resolved (locked (R.hgetall t locked_data_key) stamped), t)
    ]
  ]

  -- A refused `RENAME` ends the script, and what was written before it stays.
  unfoldable pub move_batch :
      String → String → String → String → ℕ → R.State → Outcome Locked × R.State
  unfolding stamp_lock
  move_batch metadata_key data_key locked_metadata_key locked_data_key now s =
      elim (R.rename s metadata_key locked_metadata_key) [
        | rejected e ↦ (rejected e, s)
        | resolved t ↦ elim (R.rename t data_key locked_data_key) [
          | rejected e ↦ (rejected e, t)
          | resolved u ↦ stamp_lock locked_metadata_key locked_data_key now u
        ]
      ]

  unfoldable pub lock_batch :
      String → String → String → String → ℕ → ℕ → R.State → Outcome Locked × R.State
  unfolding refuse_lock move_batch
  lock_batch metadata_key data_key locked_metadata_key locked_data_key now interval s =
      elim (R.get s metadata_key) [
        | none ↦ (resolved no_batch, s)
        | some raw ↦ elim (R.get s locked_metadata_key) [
          | some held ↦ refuse_lock locked_data_key now interval held (M.lock_timestamp held) s
          | none ↦ move_batch metadata_key data_key locked_metadata_key locked_data_key now s
        ]
      ]

-- A missing key is `false` in Lua, and differs from every text.
unfoldable pub update_last_processed : (R : Store) → String → String → ℕ → R.State → Bool × R.State
update_last_processed R key msa_id seconds s = elim (R.get s key) [
  | none ↦ (true, R.setex s key seconds msa_id)
  | some last ↦ if last == msa_id then (false, s) else (true, R.setex s key seconds msa_id)
]

module _ (R : Store) (M : Metadata) (L : IsStore R) where
  -- A batch is locked at most once: while a lock stands, `lockBatch` changes nothing, whatever it
  -- returns; and without a batch it does not look at the lock.
  pub lock_batch-held :
      (metadata_key data_key locked_metadata_key locked_data_key : String) (now interval : ℕ)
      (s : R.State) (held : String)
      → R.get s locked_metadata_key ≡ some held
      → (lock_batch R M metadata_key data_key locked_metadata_key locked_data_key now interval s).1
        ≡ s
  unfolding lock_batch refuse_lock
  lock_batch-held metadata_key data_key locked_metadata_key locked_data_key now interval s held e =
      elim (Option-cases (R.get s metadata_key)) [
        | inl empty ↦ rw (empty, lock_batch) refl
        | inr (raw, there) ↦ elim (Outcome-cases (M.lock_timestamp held)) [
          | inl (since, q) ↦ rw (there, lock_batch) (rw (e, lock_batch) (rw (q, refuse_lock) refl))
          | inr (t, q) ↦ rw (there, lock_batch) (rw (e, lock_batch) (rw (q, refuse_lock) refl))
        ]
      ]

  -- The count that `addToBatch` returns is not the number of rows: for an id that the batch has
  -- already, the count grows and the row stays the first one.
  pub add_to_batch_again :
      (metadata_key data_key new_metadata id row old raw : String) (rows : ℕ) (s : R.State)
      → R.get s metadata_key ≡ some raw
      → M.row_count raw ≡ resolved (some rows)
      → R.hget s data_key id ≡ some old
      → let (answer, after) = add_to_batch R M metadata_key data_key new_metadata id row s in
        (answer ≡ resolved (count (rows + 1)))
        × (after ≡ R.set s metadata_key (M.with_row_count raw (rows + 1)))
        × (R.hget after data_key id ≡ some old)
  unfolding add_to_batch add_counted
  add_to_batch_again metadata_key data_key new_metadata id row old raw rows s e counted there =
      let t = R.set s metadata_key (M.with_row_count raw (rows + 1)) in
      let kept : R.hget t data_key id ≡ some old =
        L.hget-set s metadata_key _ data_key id ∙ there in
      let same = L.hsetnx_taken t data_key id row old kept in
      rw (e, add_to_batch)
        (rw (counted, add_counted) (refl, same, ap (λ u. R.hget u data_key id) same ∙ kept))

  -- The first row of a batch: the metadata and the row are as given, and the count is 1, whatever the
  -- metadata says.
  pub add_to_batch_new :
      (metadata_key data_key new_metadata id row : String) (s : R.State)
      → R.get s metadata_key ≡ none
      → R.hget s data_key id ≡ none
      → let (answer, after) = add_to_batch R M metadata_key data_key new_metadata id row s in
        (answer ≡ resolved (count 1))
        × (R.get after metadata_key ≡ some new_metadata)
        × (R.hget after data_key id ≡ some row)
  unfolding add_to_batch
  add_to_batch_new metadata_key data_key new_metadata id row s e free =
      let t = R.set s metadata_key new_metadata in
      rw (e, add_to_batch)
        (
          refl,
          L.get-hsetnx t data_key id row metadata_key
              ∙ L.get-set s metadata_key new_metadata metadata_key
              ∙ rw (==_refl metadata_key),
          L.hget-hsetnx_fresh t data_key id row
              (L.hget-set s metadata_key new_metadata data_key id ∙ free),
        )
