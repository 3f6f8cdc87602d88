-- ===== src/Notifier/Interrupted.antt =====
-- `processCurrentBlock` with what jobs write to the watch list while it awaits: the statuses were
-- read at its beginning, and the commands that remove some of them are executed at its end.
use account_service.Common.{
  ℕ, ◌≡◌, refl, ap, ◌∙◌, inl, inr, String, List, ◌++◌, map, arith, string_eq,
}
use account_service.Js.{resolved, Outcome-cases}
use account_service.Js.Action.{Action, lift, gets, modify, ◌>>=◌, ◌>>◌}
use account_service.Redis.{Keyspace}
use account_service.Redis.WatchList.{WatchList, IsWatchList}
use account_service.Scanner.{BlockHash}
use account_service.Notifier.{
  Notifier, Chain, extrinsic_indices, expired, exec, found_in_block, process_current_block,
}
use account_service.Notifier.Watch.{found_in_block_lem, IsKeyed, left_now, hget-cleaned}

module _ (K : Keyspace) (H : WatchList) (chain : Chain) where
  -- What other clients do to the watch list.
  abbrev written : (H.State → H.State) → Action (Notifier K H) (Unit {0})
  written writes = modify (λ w. record w { watch_list = writes w.watch_list })

  -- `first` is written while the block is read, and `second` while it is reported.
  unfoldable pub interrupted_block :
      (H.State → H.State) → (H.State → H.State) → BlockHash → ℕ → Action (Notifier K H) (Unit {0})
  interrupted_block first second hash number = do
    pending ← gets (λ w. H.hvals w.watch_list)
    written first
    hashes ← lift (chain.get_block hash)
    found ← found_in_block K H chain hash (extrinsic_indices pending 0 hashes)
    written second
    modify (λ w. record w { watch_list = exec K H (found ++ expired number pending) w.watch_list })

  -- Without writes in between it is the method of the service.
  interrupted_block-alone :
      (hash : BlockHash) (number : ℕ) (w : Notifier K H)
      → interrupted_block (λ s. s) (λ s. s) hash number w
        ≡ process_current_block K H chain hash number w
  unfolding interrupted_block process_current_block
  interrupted_block-alone hash number w = refl

  interrupted_block-shape :
      (first second : H.State → H.State) (hash : BlockHash) (number : ℕ) (w w' : Notifier K H)
      (hashes : List String)
      → chain.get_block hash ≡ resolved hashes
      → interrupted_block first second hash number w ≡ (resolved tt, w')
      → let pending = H.hvals w.watch_list in
        w'.watch_list
        ≡ exec K H
            (map (λ pair. pair.0) (extrinsic_indices pending 0 hashes) ++ expired number pending)
            (second (first w.watch_list))
  unfolding interrupted_block
  interrupted_block-shape first second hash number w w' hashes e p =
      let indices = extrinsic_indices (H.hvals w.watch_list) 0 hashes in
      let (kept, found) =
        found_in_block_lem K H chain hash indices (record w { watch_list = first w.watch_list }) in
      elim (Outcome-cases
        (found_in_block K H chain hash indices (record w { watch_list = first w.watch_list })).0) [
          | inl (ks, q) ↦ ground (arith, found ks q)
          | inr (t, q) ↦ ground arith
        ]

  module _ (L : IsWatchList H) where
    -- Where each status stood under its own hash when the block began: whatever is written to the
    -- watch list while the block is read and reported, a block that is processed takes away the
    -- entries whose status at the beginning was in the block or at its death, and leaves every other
    -- entry as it was written: a transaction that a job begins to watch meanwhile is not lost.
    -- Without such writes the method is the one of the service.
    pub interrupted_block-hget :
        (first second : H.State → H.State) (hash : BlockHash) (number : ℕ) (w w' : Notifier K H)
        (hashes : List String) (k : String)
        → IsKeyed K H chain L w.watch_list
        → chain.get_block hash ≡ resolved hashes
        → interrupted_block first second hash number w ≡ (resolved tt, w')
        → (H.hget w'.watch_list k
            ≡ left_now hashes number k
                (H.hget w.watch_list k)
                (H.hget (second (first w.watch_list)) k))
          × (interrupted_block (λ s. s) (λ s. s) hash number w
              ≡ process_current_block K H chain hash number w)
    interrupted_block-hget first second hash number w w' hashes k keyed e p = (
      ap (λ s. H.hget s k) (interrupted_block-shape first second hash number w w' hashes e p)
          ∙ hget-cleaned K H chain L w.watch_list (second (first w.watch_list)) number hashes k
              keyed,
      interrupted_block-alone hash number w,
    )
