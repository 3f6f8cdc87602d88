-- ===== src/Notifier/Reported.antt =====
-- What a scan has told the webhook when it ends: every post is about a transaction that was watched
-- when it began, and that one of its blocks holds.
use account_service.Common.{
  ℕ, ◌≡◌, refl, ap, subst, ◌⊎◌, inl, inr, String, true, some, List, [], ◌∷◌, All, In, string_eq,
}
use account_service.Js.{Throwable, resolved, Outcome-cases}
use account_service.Js.Action.{continue}
use account_service.Redis.{Keyspace, IsKeyspace}
use account_service.Redis.WatchList.{WatchList, IsWatchList}
use account_service.Types.{TxStatus}
use account_service.Scanner.{BlockHash, scan_block, scan_loop}
use account_service.Scanner.Loop.{Follows, here, block, scan_loop-Follows}
use account_service.Notifier.{
  Notifier, Chain, methods, process_current_block, set_last_seen_block_number,
  check_scan_parameters,
}
use account_service.Notifier.Send.{Post}
use account_service.Notifier.Sound.{process_current_block-All}
use account_service.Notifier.Watch.{elem, IsKeyed}
use account_service.Notifier.Progress.{check_scan_parameters-state}
use account_service.Notifier.Settled.{Follows-hget_iff}

among : {b h : BlockHash} (blocks : List BlockHash) → In b (h ∷ []) → In b (h ∷ blocks)
among blocks (inl e) = inl e
among blocks (inr i) = absurd i

-- What is in the list, and all else that satisfies `Q`.
All-In :
    (Q : Post → Type 0) (posts : List Post) → ((post : Post) → In post posts → Q post) → All Q posts
All-In Q [] ok = tt
All-In Q (post ∷ posts) ok = (ok post (inl refl), All-In Q posts (λ p i. ok p (inr i)))

module _ (K : Keyspace) (H : WatchList) (chain : Chain) (M : IsKeyspace K) (L : IsWatchList H) where
  -- A block of a scan posts what its processing posts, or nothing.
  scan_block-posts :
      (n : ℕ) (h : BlockHash) (w : Notifier K H)
      → let after = (scan_block (methods K H chain) n h w).1 in
        (after.posts ≡ w.posts) ⊎ (after.posts ≡ (process_current_block K H chain h n w).1.posts)
  unfolding scan_block set_last_seen_block_number
  scan_block-posts n h w =
      let same = check_scan_parameters-state K H chain M n h w in
      elim (Outcome-cases (check_scan_parameters K H chain n h w).0) [
        | inr (t, q) ↦ inl (rw (q, continue, same) refl)
        | inl (done, q) ↦ elim (Outcome-cases (process_current_block K H chain h n w).0) [
          | inr (t, r) ↦ inr (rw (q, continue, same, r) refl)
          | inl (u, r) ↦ inr (rw (q, continue, same, r) refl)
        ]
      ]

  -- The blocks that the path has taken, and the one to which it has come.
  abbrev pub visited :
      {n j : ℕ} {h h' : BlockHash} {w w' : Notifier K H}
      → Follows (methods K H chain) n h w j h' w'
      → List BlockHash
  visited {h} here = h ∷ []
  visited {h} (block q path) = h ∷ visited path

  visited-last :
      {n j : ℕ} {h h' : BlockHash} {w w' : Notifier K H}
      → (path : Follows (methods K H chain) n h w j h' w') → In h' (visited path)
  visited-last here = inl refl
  visited-last (block q path) = inr (visited-last path)

  -- What may be posted of a status that is watched in `w`, if one of the blocks holds it.
  abbrev Allows : (Post → Type 0) → List BlockHash → Notifier K H → Type 0
  Allows P blocks w =
      (b : BlockHash) (hashes : List String) (k : String) (v : TxStatus)
      → In b blocks
      → chain.get_block b ≡ resolved hashes
      → elem k hashes ≡ true
      → H.hget w.watch_list k ≡ some v
      → (post : Post) → post.response.reference_id ≡ v.reference_id
      → P post

  scan_block-All :
      (P : Post → Type 0) (n : ℕ) (h : BlockHash) (w : Notifier K H)
      → Allows P (h ∷ []) w
      → All P w.posts
      → All P (scan_block (methods K H chain) n h w).1.posts
  scan_block-All P n h w ok all = elim (scan_block-posts n h w) [
    | inl same ↦ rw same all
    | inr told ↦
        rw told (
          process_current_block-All K H chain P h n w (λ hashes k v. ok h hashes k v (inl refl))
            all)
  ]

  Follows-All :
      (P : Post → Type 0) {n j : ℕ} {h h' : BlockHash} {w w' : Notifier K H}
      (path : Follows (methods K H chain) n h w j h' w')
      → IsKeyed K H chain L w.watch_list
      → Allows P (visited path) w
      → All P w.posts
      → All P w'.posts × Allows P (h' ∷ []) w'
  Follows-All P here keyed ok all = (all, ok)
  Follows-All P {n} {h = h} {w = w} (block {next = next} {w₁ = w₁} q path) keyed ok all =
      let (kept, keyed₁) = Follows-hget_iff K H chain M L (block q here) keyed in
      let told : All P w₁.posts =
        rw (← ap (λ r. r.1) q) (
          scan_block-All P n h w (λ b hashes k v i. ok b hashes k v (among (visited path) i))
            all) in
      Follows-All P path keyed₁
        (λ b hashes k v i read there at. ok b hashes k v (inr i) read there ((kept k v).0 at).0)
        told

  -- The post is about a transaction that was watched in `w`, and that one of the blocks holds.
  pub record IsReport (w : Notifier K H) (blocks : List BlockHash) (post : Post) : Type 0 where
    pub tx_hash : String
    pub status : TxStatus
    pub watched : H.hget w.watch_list tx_hash ≡ some status
    pub reference : post.response.reference_id ≡ status.reference_id
    pub at : BlockHash
    pub visited_at : In at blocks
    pub hashes : List String
    pub block_read : chain.get_block at ≡ resolved hashes
    pub held : elem tx_hash hashes ≡ true

  -- The webhook is told of nothing else: for a loop that ends within its fuel, with whatever error, and
  -- a watch list whose statuses stand under their own hashes, each post that stands there afterwards
  -- stood there before, or has the reference of a status that was watched when the loop began, and
  -- whose transaction is in one of the blocks that the loop visited, the last one included.
  pub scan_loop-AllReports :
      (fuel n : ℕ) (h : BlockHash) (w w' : Notifier K H) (t : Throwable)
      → IsKeyed K H chain L w.watch_list
      → scan_loop (methods K H chain) fuel n h w ≡ some (t, w')
      → (j : ℕ) × (h' : BlockHash) × (w₁ : Notifier K H) × (path : Follows
          (methods K H chain)
          n
          h
          w
          j
          h'
          w₁)
        × All (λ post. In post w.posts ⊎ IsReport w (visited path) post) w'.posts
  scan_loop-AllReports fuel n h w w' t keyed e =
      let (j, h', w₁, path, ended) = scan_loop-Follows (methods K H chain) fuel n h w w' t e in
      let Q = λ (post : Post). In post w.posts ⊎ IsReport w (visited path) post in
      let ok : Allows Q (visited path) w = λ b hashes k v i read there at post same. inr (record {
        tx_hash = k;
        status = v;
        watched = at;
        reference = same;
        at = b;
        visited_at = i;
        hashes = hashes;
        block_read = read;
        held = there;
      }) in
      let (told, more) = Follows-All Q path keyed ok (All-In Q w.posts (λ post i. inl i)) in
      (
        j,
        h',
        w₁,
        path,
        subst (λ (x : Notifier K H). All Q x.posts) (ap (λ r. r.1) ended)
            (scan_block-All Q j h' w₁ more told),
      )
