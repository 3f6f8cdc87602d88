-- ===== src/Worker/Keys.antt =====
-- The keys of Redis that the publisher and the notifier share: neither disturbs what the other keeps
-- there.
use text.Mathlib.Text.{starts_with}
use text.Mathlib.TextPositions.{starts_with-append}
use text.Mathlib.TextLemmas.{append_inj, append_assoc}
use account_service.Common.{ℕ, ◌≡◌, ◌≢◌, refl, sym, ap, ◌∙◌, inl, inr, String, ◌<>◌, arith}
use account_service.Js.{Throwable, Outcome, resolved, rejected}
use account_service.Decimal.{to_string}
use account_service.Redis.{Keyspace, IsKeyspace}
use account_service.Redis.WatchList.{WatchList}
use account_service.Scheduler.{Scheduler}
use account_service.Types.{TransactionData}
use account_service.Nonce.{Index, get_nonce_key, get_next_nonce, nonce_key_expire_seconds}
use account_service.Nonce.Search.{key_of, suffix, get_next_nonce-Taken}
use account_service.Nonce.Unique.{KeepsLocks, locked_by-KeepsLocks}
use account_service.Notifier.{
  epoch_capacity_key, last_seen_block_number_key, base_last_seen, Chain, set_last_seen_block_number,
}
use account_service.Notifier.Cache.{base_last_seen-eq, process_current_block-get}
use account_service.Scanner.{BlockHash}
use account_service.Publisher.{World}
use account_service.Publisher.Submit.{check_capacity-Same}
use account_service.Publisher.Nonces.{process-cache}
use account_service.Worker.{
  Worker, publisher, notifier, after_job, after_check, after_block, after_record,
}

chain-ne-epoch : (s t : String) → "chain:nonce" <> s ≢ "epochCapacity:" <> t
chain-ne-epoch s t e = cc (
    ap (λ u. starts_with u "c")
      (append_inj {s₁ = "c"} {s₂ = "e"} {t₁ = "hain:nonce" <> s} {t₂ = "pochCapacity:" <> t}
        (sym (append_assoc "c" "hain:nonce" s) ∙ e ∙ append_assoc "e" "pochCapacity:" t) refl).0)

key_of-epoch_capacity_key : (suffix : String) (epoch : ℕ) → key_of suffix ≢ epoch_capacity_key epoch
unfolding get_nonce_key
key_of-epoch_capacity_key suffix epoch = chain-ne-epoch (":" <> suffix) (to_string epoch)

key_of-last_seen : (suffix : String) → key_of suffix ≢ last_seen_block_number_key
unfolding get_nonce_key
key_of-last_seen suffix e = cc (e, starts_with-append "chain:nonce" (":" <> suffix))

module _ (K : Keyspace) where
  pub get_next_nonce-rejected :
      (t : Throwable) (s : K.State) → get_next_nonce K (rejected t) s ≡ (rejected t, s)
  unfolding get_next_nonce
  get_next_nonce-rejected t s = refl

  module _ (L : IsKeyspace K) where
    -- Taking a nonce changes no key but those of nonces.
    pub get_next_nonce-get :
        (chain_nonce : Outcome Index) (s : K.State) (key : String)
        → ((suffix : String) → key ≢ key_of suffix)
        → K.get (get_next_nonce K chain_nonce s).1 key ≡ K.get s key
    get_next_nonce-get (rejected t) s key other = rw (get_next_nonce-rejected t s) refl
    get_next_nonce-get (resolved n) s key other = elim (get_next_nonce-Taken K n L s) [
      | inl (k, less, before, free, e) ↦ rw e (
          L.get-setex_other s (key_of (suffix n k)) nonce_key_expire_seconds "1" key
            (other (suffix n k)))
      | inr (all, e) ↦ rw e refl
    ]

    -- Nor does it take a lock away.
    pub get_next_nonce-KeepsLocks :
        (chain_nonce : Outcome Index) (s : K.State)
        → KeepsLocks K s (get_next_nonce K chain_nonce s).1
    get_next_nonce-KeepsLocks (rejected t) s nonce l = rw (get_next_nonce-rejected t s) l
    get_next_nonce-KeepsLocks (resolved n) s nonce l = elim (get_next_nonce-Taken K n L s) [
      | inl (k, less, before, free, e) ↦ rw e (locked_by-KeepsLocks K L s (suffix n k) nonce l)
      | inr (all, e) ↦ rw e l
    ]

module _ (K : Keyspace) (L : IsKeyspace K) (H : WatchList) (S : Scheduler) (w : Worker K H S) where
  after_job-get :
      (world : World) (job_id : String) (d : TransactionData) (key : String)
      → ((suffix : String) → key ≢ key_of suffix)
      → K.get (after_job K H S world job_id d w).cache key ≡ K.get w.cache key
  after_job-get world job_id d key other =
      elim (process-cache K H S world job_id d (publisher K H S w)) [
        | inl e ↦ rw e refl
        | inr e ↦ rw e (get_next_nonce-get K L world.chain_nonce w.cache key other)
      ]

  pub after_job-epoch :
      (world : World) (job_id : String) (d : TransactionData) (epoch : ℕ)
      → K.get (after_job K H S world job_id d w).cache (epoch_capacity_key epoch)
        ≡ K.get w.cache (epoch_capacity_key epoch)
  after_job-epoch world job_id d epoch =
      after_job-get world job_id d (epoch_capacity_key epoch)
        (λ n e. key_of-epoch_capacity_key n epoch (sym e))

  -- The publisher and the notifier share Redis without disturbing each other: a job, whatever comes
  -- of it, changes neither the capacity that is saved for an epoch nor the last seen block; and a
  -- block, whatever comes of it, and its record leave each key of a nonce as it was.
  pub services-apart :
      (world : World) (job_id : String) (d : TransactionData) (chain : Chain) (hash : BlockHash)
      (number epoch : ℕ) (nonce : String)
      → (K.get (after_job K H S world job_id d w).cache (epoch_capacity_key epoch)
          ≡ K.get w.cache (epoch_capacity_key epoch))
        × (base_last_seen K H chain (after_job K H S world job_id d w).cache
            ≡ base_last_seen K H chain w.cache)
        × (K.get (after_block K H S chain hash number w).cache (key_of nonce)
            ≡ K.get w.cache (key_of nonce))
        × (K.get (after_record K H S chain number w).cache (key_of nonce)
            ≡ K.get w.cache (key_of nonce))
  unfolding base_last_seen set_last_seen_block_number
  services-apart world job_id d chain hash number epoch nonce = (
    after_job-epoch world job_id d epoch,
    base_last_seen-eq K H chain (after_job K H S world job_id d w).cache w.cache (
        after_job-get world job_id d last_seen_block_number_key
          (λ n e. key_of-last_seen n (sym e))),
    process_current_block-get K H chain L (key_of nonce) (key_of-epoch_capacity_key nonce) hash
        number (notifier K H S w),
    ground (
      arith,
      L.get-set w.cache last_seen_block_number_key (to_string number) (key_of nonce),
      key_of-last_seen nonce,
    ),
  )

  -- No step of the worker takes a lock away.
  pub after_job-KeepsLocks :
      (world : World) (job_id : String) (d : TransactionData)
      → KeepsLocks K w.cache (after_job K H S world job_id d w).cache
  after_job-KeepsLocks world job_id d =
      elim (process-cache K H S world job_id d (publisher K H S w)) [
        | inl e ↦ rw e (λ n l. l)
        | inr e ↦ rw e (get_next_nonce-KeepsLocks K L world.chain_nonce w.cache)
      ]

  pub after_check-cache : (world : World) → (after_check K H S world w).cache ≡ w.cache
  after_check-cache world = (check_capacity-Same K H S world (publisher K H S w)).2

  pub after_block-KeepsLocks :
      (chain : Chain) (hash : BlockHash) (number : ℕ)
      → KeepsLocks K w.cache (after_block K H S chain hash number w).cache
  after_block-KeepsLocks chain hash number nonce (v, locked) = (
    v,
    process_current_block-get K H chain L (key_of nonce) (key_of-epoch_capacity_key nonce) hash
          number (notifier K H S w)
        ∙ locked,
  )

  pub after_record-KeepsLocks :
      (chain : Chain) (number : ℕ) → KeepsLocks K w.cache (after_record K H S chain number w).cache
  unfolding set_last_seen_block_number
  after_record-KeepsLocks chain number nonce (v, locked) = (
    v,
    ground (
      arith,
      L.get-set w.cache last_seen_block_number_key (to_string number) (key_of nonce),
      key_of-last_seen nonce,
    ),
  )
