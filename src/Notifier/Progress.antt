-- ===== src/Notifier/Progress.antt =====
-- Where a scan of the notifier begins, and what it records.
use native.Mathlib.Decide.{dec_lt}
use account_service.Common.{
  ℕ, ◌≤◌, ◌≡◌, refl, sym, ◌∙◌, ap, ◌⊎◌, inl, inr, List, [], ◌∷◌, In, max, arith, ==_refl, string_eq,
}
use account_service.Js.{resolved}
use account_service.Decimal.{to_string, read-to_string}
use account_service.Redis.{Keyspace, IsKeyspace}
use account_service.Redis.WatchList.{WatchList}
use account_service.Types.{TxStatus}
use account_service.Scanner.{BlockHash}
use account_service.Scanner.Loop.{base_check_scan_parameters-state}
use account_service.Scanner.Scan.{KeepsSeen}
use account_service.Notifier.{
  Notifier, Chain, last_seen_block_number_key, scan_parameters, min_birth, base_last_seen,
  after_births, get_last_seen_block_number, set_last_seen_block_number, check_scan_parameters,
  methods,
}
use account_service.Notifier.Cache.{last_seen_block_number_key-ne, process_current_block-get}

min_birth-le :
    (v status : TxStatus) (pending : List TxStatus)
    → In v (status ∷ pending)
    → min_birth status pending ≤ v.birth
unfolding min_birth
min_birth-le v status [] (inl e) = ground arith
min_birth-le v status [] (inr i) = absurd i
min_birth-le v status (next ∷ rest) (inl e) = ground arith
min_birth-le v status (next ∷ rest) (inr i) = omega (arith, min_birth-le v next rest i)

resolved-injective : {m n : ℕ} → resolved m ≡ resolved n → m ≡ n
resolved-injective e = cc

min_birth-In :
    (status : TxStatus) (pending : List TxStatus)
    → (v : TxStatus) × In v (status ∷ pending) × (min_birth status pending ≡ v.birth)
unfolding min_birth
min_birth-In status [] = (status, inl refl, refl)
min_birth-In status (next ∷ rest) =
    let (v, i, e) = min_birth-In next rest in
    elim (dec_lt status.birth (min_birth next rest)) [
      | yes first ↦ (status, inl refl, omega arith)
      | no later ↦ (v, inr i, omega (arith, e))
    ]

module _ (K : Keyspace) (H : WatchList) (chain : Chain) where
  -- The number behind which a scan begins: the recorded one where nothing is watched; otherwise the
  -- birth of a watched transaction, the least of all, or the recorded one if that is greater.
  pub get_last_seen_block_number-births :
      (w : Notifier K H) (n : ℕ)
      → (get_last_seen_block_number K H chain w).0 ≡ resolved n
      → let base = base_last_seen K H chain w.cache in
        let pending = H.hvals w.watch_list in
        ((pending ≡ []) × (n ≡ base))
        ⊎ ((v : TxStatus) × In v pending
            × ((u : TxStatus) → In u pending → v.birth ≤ u.birth)
            × (n ≡ max base v.birth))
  unfolding get_last_seen_block_number
  get_last_seen_block_number-births w n e = births (H.hvals w.watch_list) n e
    where
      births :
          (pending : List TxStatus) (k : ℕ)
          → resolved (after_births K H chain (base_last_seen K H chain w.cache) pending)
            ≡ resolved k
          → ((pending ≡ []) × (k ≡ base_last_seen K H chain w.cache))
            ⊎ ((v : TxStatus) × In v pending
                × ((u : TxStatus) → In u pending → v.birth ≤ u.birth)
                × (k ≡ max (base_last_seen K H chain w.cache) v.birth))
      births [] k q = inl (refl, sym (resolved-injective q))
      births (status ∷ pending) k q =
          let (v, i, least) = min_birth-In status pending in
          inr (
            v,
            i,
            λ u j. omega (arith, least, min_birth-le u status pending j),
            sym (resolved-injective q) ∙ ap (max (base_last_seen K H chain w.cache)) least,
          )

  module _ (L : IsKeyspace K) where
    pub check_scan_parameters-state :
        (n : ℕ) (h : BlockHash) (w : Notifier K H) → (check_scan_parameters K H chain n h w).1 ≡ w
    unfolding check_scan_parameters
    check_scan_parameters-state n h w = ground (
      arith,
      base_check_scan_parameters-state (scan_parameters K H chain) chain.latest_finalized n h w,
    )

    -- Of the notifier's methods only `setLastSeenBlockNumber` changes the number that is read back,
    -- and it is read back as it was set.
    pub methods-KeepsSeen : KeepsSeen (methods K H chain) (λ w. base_last_seen K H chain w.cache)
    unfolding base_last_seen check_scan_parameters set_last_seen_block_number
    methods-KeepsSeen = record {
      check = λ n h w.
          ap (λ (x : Notifier K H). base_last_seen K H chain x.cache)
            (check_scan_parameters-state n h w);
      process = λ n h w. rw (
        process_current_block-get K H chain L last_seen_block_number_key
            last_seen_block_number_key-ne h n w,
        base_last_seen,
      );
      record_done = λ n w e. rw (
        L.get-set w.cache last_seen_block_number_key (to_string n) last_seen_block_number_key,
        ==_refl last_seen_block_number_key,
        read-to_string n,
        base_last_seen,
      );
      record_failed = λ n w t e. cc;
      hash = λ n w. refl;
    }
