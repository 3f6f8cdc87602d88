-- ===== src/Notifier/Watch.antt =====
-- Which transactions are still watched after a block.
use account_service.Common.{
  ℕ, ◌+◌, ◌≡◌, refl, sym, ap, ◌∙◌, inl, inr, String, Bool, true, false, ◌&&◌, ◌||◌, Option, none,
  some, List, [], ◌∷◌, ◌++◌, map, any, In, ◌==◌, string_eq, leb, ◌≢◌, subst, if◌then◌else◌, arith,
}
use account_service.Js.{resolved, Outcome-cases}
use account_service.Redis.{Keyspace}
use account_service.Redis.WatchList.{WatchList, IsWatchList}
use account_service.Types.{TxStatus}
use account_service.Scanner.{BlockHash}
use account_service.Notifier.{
  Notifier, Chain, extrinsic_indices, expired, exec, process_found, found_in_block,
  process_current_block,
}

none≢some : {o : Option TxStatus} {u : TxStatus} → o ≡ none → o ≡ some u → ⊥
none≢some e e' = cc

abbrev pub elem : String → List String → Bool
elem k hashes = any (λ hash. k == hash) hashes

-- What is left of one entry: nothing if the block holds the transaction or is past its death.
abbrev pub left : List String → ℕ → String → Option TxStatus → Option TxStatus
left hashes number k none = none
left hashes number k (some v) = if elem k hashes || leb v.death number then none else some v

-- The same, where the entry is by now another one: what was read decides, and what is there is left.
abbrev pub left_now : List String → ℕ → String → Option TxStatus → Option TxStatus → Option TxStatus
left_now hashes number k none now = now
left_now hashes number k (some v) now = if elem k hashes || leb v.death number then none else now

left_now-left :
    (hashes : List String) (number : ℕ) (k : String) (o : Option TxStatus)
    → left_now hashes number k o o ≡ left hashes number k o
left_now-left hashes number k none = refl
left_now-left hashes number k (some v) = refl

module _ (K : Keyspace) (H : WatchList) (chain : Chain) where
  process_found_lem :
      (hash : BlockHash) (indices : List (String × ℕ)) (w : Notifier K H)
      → let out = process_found K H chain hash indices w in
        (out.1.watch_list ≡ w.watch_list)
        × ((ks : List String) → out.0 ≡ resolved ks → ks ≡ map (λ pair. pair.0) indices)
  unfolding process_found
  process_found_lem hash indices w = (ground arith, λ ks e. ground arith)

  pub found_in_block_lem :
      (hash : BlockHash) (indices : List (String × ℕ)) (w : Notifier K H)
      → let out = found_in_block K H chain hash indices w in
        (out.1.watch_list ≡ w.watch_list)
        × ((ks : List String) → out.0 ≡ resolved ks → ks ≡ map (λ pair. pair.0) indices)
  unfolding found_in_block
  found_in_block_lem hash [] w = (refl, λ ks e. ground arith)
  found_in_block_lem hash (pair ∷ indices) w = process_found_lem hash (pair ∷ indices) w

  -- A block that was processed leaves this watch list.
  process_current_block_shape :
      (hash : BlockHash) (number : ℕ) (w w' : Notifier K H) (hashes : List String)
      → chain.get_block hash ≡ resolved hashes
      → process_current_block K H chain hash number w ≡ (resolved tt, w')
      → let pending = H.hvals w.watch_list in
        w'.watch_list
        ≡ exec K H
            (map (λ pair. pair.0) (extrinsic_indices pending 0 hashes) ++ expired number pending)
            w.watch_list
  unfolding process_current_block
  process_current_block_shape hash number w w' hashes e p =
      let indices = extrinsic_indices (H.hvals w.watch_list) 0 hashes in
      let (kept, found) = found_in_block_lem hash indices w in
      elim (Outcome-cases (found_in_block K H chain hash indices w).0) [
        | inl (ks, q) ↦ ground (arith, found ks q)
        | inr (t, q) ↦ ground arith
      ]

  -- A block that was processed could be read.
  pub process_current_block-read :
      (hash : BlockHash) (number : ℕ) (w w' : Notifier K H)
      → process_current_block K H chain hash number w ≡ (resolved tt, w')
      → (hashes : List String) × (chain.get_block hash ≡ resolved hashes)
  unfolding process_current_block
  process_current_block-read hash number w w' p = elim (Outcome-cases (chain.get_block hash)) [
    | inl (hashes, q) ↦ (hashes, q)
    | inr (t, q) ↦ ground arith
  ]

  module _ (L : IsWatchList H) where
    -- Every status is stored under its own hash, as the publisher does.
    abbrev pub IsKeyed : H.State → Type 0
    IsKeyed s = (k : String) (v : TxStatus) → H.hget s k ≡ some v → v.tx_hash ≡ k

    hget-exec :
        (ks : List String) (s : H.State) (j : String)
        → H.hget (exec K H ks s) j ≡ (if elem j ks then none else H.hget s j)
    unfolding exec
    hget-exec [] s j = refl
    hget-exec (k ∷ ks) s j = ground (arith, hget-exec ks (H.hdel s k) j, L.hget-hdel s k j)

    elem-append : (j : String) (xs ys : List String) → elem j (xs ++ ys) ≡ (elem j xs || elem j ys)
    elem-append j [] ys = refl
    elem-append j (x ∷ xs) ys = ground (arith, elem-append j xs ys)

    abbrev watched : String → List TxStatus → Bool
    watched j pending = any (λ status. status.tx_hash == j) pending

    elem-extrinsic_indices :
        (j : String) (pending : List TxStatus) (i : ℕ) (hashes : List String)
        → elem j (map (λ pair. pair.0) (extrinsic_indices pending i hashes))
          ≡ (elem j hashes && watched j pending)
    unfolding extrinsic_indices
    elem-extrinsic_indices j pending i [] = refl
    elem-extrinsic_indices j pending i (h ∷ hashes) =
        ground (arith, elem-extrinsic_indices j pending (i + 1) hashes)

    elem-expired :
        (j : String) (death number : ℕ) (pending : List TxStatus)
        → ((u : TxStatus) → In u pending → u.tx_hash ≡ j → u.death ≡ death)
        → elem j (expired number pending) ≡ (watched j pending && leb death number)
    unfolding expired
    elem-expired j death number [] same = refl
    elem-expired j death number (u ∷ pending) same =
        let rest = elem-expired j death number pending (λ x i. same x (inr i)) in
        ground (arith, same u (inl refl))

    watched-In :
        (j : String) (v : TxStatus) (pending : List TxStatus)
        → v.tx_hash ≡ j
        → In v pending
        → watched j pending ≡ true
    watched-In j v [] hv i = absurd i
    watched-In j v (u ∷ pending) hv (inl e) = ground arith
    watched-In j v (u ∷ pending) hv (inr i) = ground (arith, watched-In j v pending hv i)

    watched-none :
        (j : String) (pending : List TxStatus)
        → ((u : TxStatus) → In u pending → u.tx_hash ≢ j)
        → watched j pending ≡ false
    watched-none j [] h = refl
    watched-none j (u ∷ pending) h =
        ground (arith, h u (inl refl), watched-none j pending (λ x i. h x (inr i)))

    -- The commands on the watch list `t` that were read from `s`.
    pub hget-cleaned :
        (s t : H.State) (number : ℕ) (hashes : List String) (k : String)
        → IsKeyed s
        → H.hget
            (exec K H
              (map (λ pair. pair.0) (extrinsic_indices (H.hvals s) 0 hashes)
                ++ expired number (H.hvals s))
              t)
            k
          ≡ left_now hashes number k (H.hget s k) (H.hget t k)
    hget-cleaned s t number hashes k keyed =
        let pending = H.hvals s in
        let found = map (λ pair. pair.0) (extrinsic_indices pending 0 hashes) in
        hget-exec (found ++ expired number pending) t k
        ∙ rw
            (
              elem-append k found (expired number pending),
              elem-extrinsic_indices k pending 0 hashes,
            )
            (split (H.hget s k) refl)
      where
        keys : (u : TxStatus) → In u (H.hvals s) → u.tx_hash ≡ k → H.hget s k ≡ some u
        keys u i e =
            let (j, at) = (L.hvals-hget s u).0 i in
            subst (λ (x : String). H.hget s x ≡ some u) (sym (keyed j u at) ∙ e) at

        split :
            (o : Option TxStatus)
            → H.hget s k ≡ o
            → (if (elem k hashes && watched k (H.hvals s)) || elem k (expired number (H.hvals s))
                then none
                else H.hget t k)
              ≡ left_now hashes number k o (H.hget t k)
        split none e =
            let absent = λ (u : TxStatus) (i : In u (H.hvals s)) (h : u.tx_hash ≡ k).
              none≢some e (keys u i h) in
            ground (
              arith,
              watched-none k (H.hvals s) absent,
              elem-expired k 0 number (H.hvals s) (λ u i h. absurd (absent u i h)),
            )
        split (some v) e = ground (
          arith,
          watched-In k v (H.hvals s) (keyed k v e) ((L.hvals-hget s v).1 (k, e)),
          elem-expired k v.death number (H.hvals s) (λ u i h. same u i h e),
        )
          where
            same :
                (u : TxStatus)
                → In u (H.hvals s)
                → u.tx_hash ≡ k
                → H.hget s k ≡ some v
                → u.death ≡ v.death
            same u i h e = cc (keys u i h)

    -- Where each status is stored under its own hash: after a block that was processed, a status is
    -- gone if, and only if, its transaction stands in the block or the block is at or past its death;
    -- the others are as before.
    pub process_current_block-hget :
        (hash : BlockHash) (number : ℕ) (w w' : Notifier K H) (hashes : List String) (k : String)
        → IsKeyed w.watch_list
        → chain.get_block hash ≡ resolved hashes
        → process_current_block K H chain hash number w ≡ (resolved tt, w')
        → H.hget w'.watch_list k ≡ left hashes number k (H.hget w.watch_list k)
    process_current_block-hget hash number w w' hashes k keyed e p =
        ap (λ s. H.hget s k) (process_current_block_shape hash number w w' hashes e p)
        ∙ hget-cleaned w.watch_list w.watch_list number hashes k keyed
        ∙ left_now-left hashes number k (H.hget w.watch_list k)
