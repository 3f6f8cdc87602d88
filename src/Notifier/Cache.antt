-- ===== src/Notifier/Cache.antt =====
-- Which keys of Redis a block leaves alone.
use text.Mathlib.Text.{starts_with}
use text.Mathlib.TextPositions.{starts_with-append}
use account_service.Common.{
  ℕ, ◌+◌, ◌*◌, Option-cases, ◌≡◌, ◌≢◌, refl, ap, inl, inr, String, List, [], ◌∷◌, arith, string_eq,
}
use account_service.Js.{Outcome, resolved, rejected}
use account_service.Decimal.{to_string}
use account_service.Redis.{Keyspace, IsKeyspace}
use account_service.Redis.WatchList.{WatchList}
use account_service.Scanner.{BlockHash}
use account_service.Notifier.{
  Notifier, Chain, epoch_capacity_key, last_seen_block_number_key, seconds_per_block,
  milliseconds_per_second, number_or_zero, set_epoch_capacity, base_last_seen,
  process_current_block, process_found, found_in_block,
}

pub last_seen_block_number_key-ne :
    (epoch : ℕ) → last_seen_block_number_key ≢ epoch_capacity_key epoch
last_seen_block_number_key-ne epoch e = cc (
  ap (λ s. starts_with s "epochCapacity:") e,
  starts_with-append "epochCapacity:" (to_string epoch),
)

pub base_last_seen-eq :
    (K : Keyspace) (H : WatchList) (chain : Chain) (s t : K.State)
    → K.get s last_seen_block_number_key ≡ K.get t last_seen_block_number_key
    → base_last_seen K H chain s ≡ base_last_seen K H chain t
unfolding base_last_seen
base_last_seen-eq K H chain s t e = rw (e, base_last_seen) refl

module _ (K : Keyspace) (H : WatchList) (chain : Chain) (L : IsKeyspace K) (j : String)
    (other : (e : ℕ) → j ≢ epoch_capacity_key e) where
  set_epoch_capacity-get :
      (epoch_length : Outcome ℕ) (epoch withdrawn : ℕ) (cache : K.State)
      → K.get (set_epoch_capacity K H epoch_length epoch withdrawn cache) j ≡ K.get cache j
  unfolding set_epoch_capacity
  set_epoch_capacity-get epoch_length epoch withdrawn cache =
      elim (Option-cases (number_or_zero (K.get cache (epoch_capacity_key epoch)))) [
        | inl e ↦ rw (e, set_epoch_capacity)
        | inr (saved, e) ↦ rw (e, set_epoch_capacity) (query epoch_length saved)
      ]
    where
      query :
          (r : Outcome ℕ) (saved : ℕ)
          → K.get
              (elim r [
                | rejected e ↦ cache
                | resolved blocks ↦
                    K.setex cache
                      (epoch_capacity_key epoch)
                      (blocks * seconds_per_block * milliseconds_per_second)
                      (to_string (saved + withdrawn))
              ])
              j
            ≡ K.get cache j
      query (rejected e) saved = refl
      query (resolved blocks) saved =
          L.get-setex_other cache (epoch_capacity_key epoch) _ _ j (other epoch)

  process_found-get :
      (hash : BlockHash) (indices : List (String × ℕ)) (w : Notifier K H)
      → K.get (process_found K H chain hash indices w).1.cache j ≡ K.get w.cache j
  unfolding process_found
  process_found-get hash indices w = grind (arith, set_epoch_capacity-get)

  found_in_block-get :
      (hash : BlockHash) (indices : List (String × ℕ)) (w : Notifier K H)
      → K.get (found_in_block K H chain hash indices w).1.cache j ≡ K.get w.cache j
  unfolding found_in_block
  found_in_block-get hash [] w = refl
  found_in_block-get hash (pair ∷ indices) w = process_found-get hash (pair ∷ indices) w

  -- A block changes keys of used capacity only.
  pub process_current_block-get :
      (hash : BlockHash) (n : ℕ) (w : Notifier K H)
      → K.get (process_current_block K H chain hash n w).1.cache j ≡ K.get w.cache j
  unfolding process_current_block
  process_current_block-get hash n w = grind (arith, found_in_block-get)
