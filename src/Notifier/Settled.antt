-- ===== src/Notifier/Settled.antt =====
-- What a scan of the notifier does to the watch list, over all the blocks that it takes.
use account_service.Common.{
  ℕ, ◌≡◌, ◌⊎◌, inl, inr, refl, sym, ap, ◌∙◌, ◌↔◌, String, Bool, true, false, ◌||◌, Option, none,
  some, List, leb, arith,
}
use account_service.Js.{Throwable, resolved, rejected, resolved-injective, Outcome-cases}
use account_service.Redis.{Keyspace, IsKeyspace}
use account_service.Redis.WatchList.{WatchList, IsWatchList}
use account_service.Types.{TxStatus}
use account_service.Scanner.{BlockHash, scan_block, scan_loop}
use account_service.Scanner.Scan.{scan_block-steps}
use account_service.Scanner.Loop.{Follows, here, block, scan_loop-Follows}
use account_service.Notifier.{
  Notifier, Chain, methods, check_scan_parameters, process_current_block,
  set_last_seen_block_number,
}
use account_service.Js.Action.{continue}
use account_service.Notifier.Failure.{process_current_block-rejected}
use account_service.Notifier.Progress.{check_scan_parameters-state}
use account_service.Notifier.Watch.{
  elem, left, IsKeyed, process_current_block-hget, process_current_block-read,
}

module _ (K : Keyspace) (H : WatchList) (chain : Chain) (M : IsKeyspace K) (L : IsWatchList H) where
  -- A block that the scan has taken was processed, and the watch list is as that left it.
  scan_block-processed :
      (n : ℕ) (h next : BlockHash) (w w' : Notifier K H)
      → scan_block (methods K H chain) n h w ≡ (resolved next, w')
      → let out = process_current_block K H chain h n w in
        (out.0 ≡ resolved tt) × (w'.watch_list ≡ out.1.watch_list)
  unfolding set_last_seen_block_number
  scan_block-processed n h next w w' e =
      let (done, after) = scan_block-steps (methods K H chain) n h next w w' e in
      let same = check_scan_parameters-state K H chain M n h w in
      (rw same at done, ap (λ (x : Notifier K H). x.watch_list) after ∙ rw same refl)

  -- Block `n`, of hash `h`, spares the status `v` under `k`: it does not hold the transaction, and is
  -- before the death of the status.
  abbrev pub Spares : ℕ → BlockHash → String → TxStatus → Type 0
  Spares n h k v =
      (hashes : List String) × (chain.get_block h ≡ resolved hashes)
      × ((elem k hashes || leb v.death n) ≡ false)

  -- Every block of the path spares the status.
  abbrev pub Outlasts :
      {n j : ℕ} {h h' : BlockHash} {w w' : Notifier K H}
      → Follows (methods K H chain) n h w j h' w'
      → String
      → TxStatus
      → Type 0
  Outlasts here k v = Unit
  Outlasts {n} {h = h} (block q path) k v = Spares n h k v × Outlasts path k v

  left-some_iff :
      (hashes : List String) (n : ℕ) (k : String) (o : Option TxStatus) (v : TxStatus)
      → (left hashes n k o ≡ some v) ↔ ((o ≡ some v) × ((elem k hashes || leb v.death n) ≡ false))
  left-some_iff hashes n k none v = ground arith
  left-some_iff hashes n k (some u) v = ground arith

  processed-hget_iff :
      (n : ℕ) (h : BlockHash) (w : Notifier K H) (s : H.State)
      → (process_current_block K H chain h n w).0 ≡ resolved tt
      → s ≡ (process_current_block K H chain h n w).1.watch_list
      → IsKeyed K H chain L w.watch_list
      → (k : String) (v : TxStatus)
      → (H.hget s k ≡ some v) ↔ ((H.hget w.watch_list k ≡ some v) × Spares n h k v)
  processed-hget_iff n h w s done after keyed k v =
      let out = process_current_block K H chain h n w in
      let e : out ≡ (resolved tt, out.1) = ap (λ o. (o, out.1)) done in
      let (hashes, read) = process_current_block-read K H chain h n w out.1 e in
      let step =
        ap (λ t. H.hget t k) after
        ∙ process_current_block-hget K H chain L h n w out.1 hashes k keyed read e in
      let rule = left-some_iff hashes n k (H.hget w.watch_list k) v in
      (
        λ there. let (before, safe) = rule.0 (sym step ∙ there) in (before, (hashes, read, safe)),
        λ (before, (others, same, safe)).
            let same_hashes : others ≡ hashes = resolved-injective (sym same ∙ read) in
            step ∙ rule.1 (before, rw same_hashes at safe),
      )

  -- What a scan that has taken the blocks from `n` to `j` has done to the watch list, from one whose
  -- statuses stood under their own hashes: a status is watched afterwards if, and only if, it was
  -- before and each of the blocks spares it; and the statuses still stand under their own hashes.
  pub Follows-hget_iff :
      {n j : ℕ} {h h' : BlockHash} {w w' : Notifier K H}
      → (path : Follows (methods K H chain) n h w j h' w') → IsKeyed K H chain L w.watch_list
      → ((k : String) (v : TxStatus)
          → (H.hget w'.watch_list k ≡ some v)
            ↔ ((H.hget w.watch_list k ≡ some v) × Outlasts path k v))
        × IsKeyed K H chain L w'.watch_list
  Follows-hget_iff here keyed = (λ k v. (λ e. (e, tt), λ both. both.0), keyed)
  Follows-hget_iff {n} {h = h} {w = w} (block {next = next} {w₁ = w₁} q path) keyed =
      let (done, after) = scan_block-processed n h next w w₁ q in
      let spared = processed-hget_iff n h w w₁.watch_list done after keyed in
      let (later, keyed') =
        Follows-hget_iff path (λ k v there. keyed k v ((spared k v).0 there).0) in
      (
        λ k v. (
          λ there.
              let (kept, lasts) = (later k v).0 there in
              let (before, safe) = (spared k v).0 kept in (before, (safe, lasts)),
          λ (before, (safe, lasts)). (later k v).1 ((spared k v).1 (before, safe), lasts),
        ),
        keyed',
      )

  -- A block at which the scan ended either left the watch list as it was, or was processed in full,
  -- and the scan ended behind it.
  scan_block-ended :
      (n : ℕ) (h : BlockHash) (w w' : Notifier K H) (t : Throwable)
      → scan_block (methods K H chain) n h w ≡ (rejected t, w')
      → (w'.watch_list ≡ w.watch_list)
        ⊎ (((process_current_block K H chain h n w).0 ≡ resolved tt)
            × (w'.watch_list ≡ (process_current_block K H chain h n w).1.watch_list))
  unfolding scan_block set_last_seen_block_number
  scan_block-ended n h w w' t e =
      let same = check_scan_parameters-state K H chain M n h w in
      let ended = sym (ap (λ o. o.1.watch_list) e) in
      elim (Outcome-cases (check_scan_parameters K H chain n h w).0) [
        | inr (t', q) ↦ inl (ended ∙ rw (q, continue, same) refl)
        | inl (done, q) ↦ elim (Outcome-cases (process_current_block K H chain h n w).0) [
          | inr (t', r) ↦ inl (
              ended
              ∙ rw (q, continue, same, r)
                  (process_current_block-rejected K H chain h n w _ t'
                    (ap (λ o. (o, (process_current_block K H chain h n w).1)) r)))
          | inl (u, r) ↦ inr (r, ended ∙ rw (q, continue, same, r) refl)
        ]
      ]

  -- The scan has taken blocks, from `n` on, and has ended with the rejection `t` of the block `stop`;
  -- where `last` holds, that block was processed all the same. A status is watched in `w'` if, and
  -- only if, it was in `w` and each block that was processed spares it.
  pub record Settled (n : ℕ) (h : BlockHash) (w w' : Notifier K H) (t : Throwable) : Type 0 where
    pub stop : ℕ
    pub stop_hash : BlockHash
    pub stopped : Notifier K H
    pub path : Follows (methods K H chain) n h w stop stop_hash stopped
    pub ended : scan_block (methods K H chain) stop stop_hash stopped ≡ (rejected t, w')
    pub last : Bool
    pub processed :
        (last ≡ false) ⊎ ((process_current_block K H chain stop_hash stop stopped).0 ≡ resolved tt)
    pub watched :
        (k : String) (v : TxStatus)
        → (H.hget w'.watch_list k ≡ some v) ↔ (
            (H.hget w.watch_list k ≡ some v)
            × (Outlasts path k v × ((last ≡ false) ⊎ Spares stop stop_hash k v)))

  -- For a loop that ends within its fuel, with whatever error, and a watch list whose statuses stand
  -- under their own hashes: the loop took blocks one after the other and ended with the rejection of
  -- the next, which may have been processed all the same; and a status is watched afterwards if, and
  -- only if, it was before and each block that was processed, that one included, neither holds its
  -- transaction nor has reached its death.
  pub scan_loop-Settled :
      (fuel n : ℕ) (h : BlockHash) (w w' : Notifier K H) (t : Throwable)
      → IsKeyed K H chain L w.watch_list
      → scan_loop (methods K H chain) fuel n h w ≡ some (t, w')
      → Settled n h w w' t
  scan_loop-Settled fuel n h w w' t keyed e =
      let (j, h', w₁, path, ended) = scan_loop-Follows (methods K H chain) fuel n h w w' t e in
      let (kept, keyed₁) = Follows-hget_iff path keyed in
      elim (scan_block-ended j h' w₁ w' t ended) [
        | inl same ↦ record {
          stop = j;
          stop_hash = h';
          stopped = w₁;
          path = path;
          ended = ended;
          last = false;
          processed = inl refl;
          watched = λ k v. (
            λ there.
                let (before, lasts) = (kept k v).0 (sym (ap (λ s. H.hget s k) same) ∙ there) in
                (before, (lasts, inl refl)),
            λ (before, (lasts, _)). ap (λ s. H.hget s k) same ∙ (kept k v).1 (before, lasts),
          );
        }
        | inr (done, after) ↦
            let spared = processed-hget_iff j h' w₁ w'.watch_list done after keyed₁ in
            record {
              stop = j;
              stop_hash = h';
              stopped = w₁;
              path = path;
              ended = ended;
              last = true;
              processed = inr done;
              watched = λ k v. (
                λ there.
                    let (mid, safe) = (spared k v).0 there in
                    let (before, lasts) = (kept k v).0 mid in (before, (lasts, inr safe)),
                λ (before, (lasts, safe)). (spared k v).1 (
                  (kept k v).1 (before, lasts),
                  elim safe [ inl wrong ↦ ground arith | inr s ↦ s ],
                ),
              );
            }
      ]
