-- ===== src/Notifier/Capacity.antt =====
-- The capacity that the service has used in an epoch, as the notifier adds it up and the publisher
-- reads it.
use text.Mathlib.TextLemmas.{append_cancel_left}
use account_service.Common.{
  ℕ, ◌+◌, ◌*◌, ◌<◌, ◌≡◌, ◌≢◌, refl, ap, ◌∙◌, String, Option, some, List, [], ◌∷◌, arith, ==_refl,
  ==_ne, ◌==◌, string_eq, if◌then◌else◌,
}
use account_service.Js.{resolved}
use account_service.Decimal.{to_string, read-to_string, to_string-injective}
use account_service.Redis.{Keyspace, IsKeyspace}
use account_service.Redis.WatchList.{WatchList}
use account_service.Notifier.{
  epoch_capacity_key, number_or_zero, set_epoch_capacity, seconds_per_block,
  milliseconds_per_second,
}

-- Different epochs have different keys.
pub epoch_capacity_key-injective : (m n : ℕ) → epoch_capacity_key m ≡ epoch_capacity_key n → m ≡ n
epoch_capacity_key-injective m n e =
    to_string-injective m n (append_cancel_left "epochCapacity:" _ _ e)

pub sum : List ℕ → ℕ
sum [] = 0
sum (n ∷ ns) = n + sum ns

module _ (K : Keyspace) (H : WatchList) where
  -- The capacity of an epoch that the publisher reads.
  abbrev pub used_in : K.State → ℕ → Option ℕ
  used_in cache epoch = number_or_zero (K.get cache (epoch_capacity_key epoch))

  -- The blocks of one epoch, one after the other.
  abbrev pub set_all : ℕ → ℕ → List ℕ → K.State → K.State
  set_all blocks epoch [] cache = cache
  set_all blocks epoch (withdrawn ∷ rest) cache =
      set_all blocks epoch rest (set_epoch_capacity K H (resolved blocks) epoch withdrawn cache)

  module _ (L : IsKeyspace K) where
    set_epoch_capacity-get :
        (blocks epoch withdrawn saved : ℕ) (cache : K.State) (j : String)
        → 0 < blocks
        → used_in cache epoch ≡ some saved
        → K.get (set_epoch_capacity K H (resolved blocks) epoch withdrawn cache) j ≡ (
            if j == epoch_capacity_key epoch
            then some (to_string (saved + withdrawn))
            else K.get cache j)
    unfolding set_epoch_capacity
    set_epoch_capacity-get blocks epoch withdrawn saved cache j pos e =
        rw (e, set_epoch_capacity)
          (L.get-setex cache (epoch_capacity_key epoch)
            (blocks * seconds_per_block * milliseconds_per_second) (to_string (saved + withdrawn)) j
            (omega arith))

    set_epoch_capacity-used :
        (blocks epoch withdrawn saved : ℕ) (cache : K.State)
        → 0 < blocks
        → used_in cache epoch ≡ some saved
        → used_in (set_epoch_capacity K H (resolved blocks) epoch withdrawn cache) epoch
          ≡ some (saved + withdrawn)
    set_epoch_capacity-used blocks epoch withdrawn saved cache pos e =
        rw
          (
            set_epoch_capacity-get blocks epoch withdrawn saved cache (epoch_capacity_key epoch) pos
                e,
            ==_refl (epoch_capacity_key epoch),
          )
          (read-to_string (saved + withdrawn))

    -- Over the blocks of an epoch, whose length the chain answers and is not 0, the capacity that is
    -- read back is what was saved before and all that was withdrawn since; the other epochs' is as
    -- before.
    pub set_all-used :
        (blocks epoch saved : ℕ) (withdrawals : List ℕ) (cache : K.State)
        → 0 < blocks
        → used_in cache epoch ≡ some saved
        → (used_in (set_all blocks epoch withdrawals cache) epoch ≡ some (saved + sum withdrawals))
          × ((other : ℕ)
              → other ≢ epoch
              → used_in (set_all blocks epoch withdrawals cache) other ≡ used_in cache other)
    unfolding sum
    set_all-used blocks epoch saved [] cache pos e =
        (e ∙ ap (λ (n : ℕ). some n) (omega arith), λ other ne. refl)
    set_all-used blocks epoch saved (withdrawn ∷ rest) cache pos e =
        let next = set_epoch_capacity K H (resolved blocks) epoch withdrawn cache in
        let (mine, others) =
          set_all-used blocks epoch (saved + withdrawn) rest next pos
            (set_epoch_capacity-used blocks epoch withdrawn saved cache pos e) in
        (
          mine ∙ ap (λ (n : ℕ). some n) (omega arith),
          λ other ne. others other ne ∙ ap number_or_zero (kept other ne),
        )
      where
        kept :
            (other : ℕ)
            → other ≢ epoch
            → K.get
                (set_epoch_capacity K H (resolved blocks) epoch withdrawn cache)
                (epoch_capacity_key other)
              ≡ K.get cache (epoch_capacity_key other)
        kept other ne =
            set_epoch_capacity-get blocks epoch withdrawn saved cache (epoch_capacity_key other) pos
              e
            ∙ rw (
                ==_ne (epoch_capacity_key other) (epoch_capacity_key epoch)
                  (λ p. ne (epoch_capacity_key-injective other epoch p)))
