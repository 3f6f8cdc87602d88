-- ===== src/Scanner/Scan.antt =====
-- A call of `scan`: what it leaves in the flag, what it lets through, and which block is recorded.
use account_service.Common.{
  ℕ, ◌+◌, ◌≡◌, refl, ap, sym, ◌∙◌, ◌⊎◌, inl, inr, Bool, true, false, Option, none, some, arith,
  if◌then◌else◌, Bool-cases,
}
use account_service.Js.{
  Throwable, Outcome, resolved, rejected, error, http_exception, delayed_error, end_of_chain_error,
  null_scan_error,
}
use account_service.Js.Action.{Action, bind-resolved, continue, ◌>>◌}
use account_service.Scanner.{
  BlockHash, Methods, Scanner, Exit, returned, threw, scan_block, scan_loop, scan_body,
  exit_outcome, scan, caught,
}
use account_service.Scanner.Loop.{Follows, here, block, scan_loop-Follows}

-- The end of the chain, or nothing to look for.
abbrev pub is_quiet : Throwable → Bool
is_quiet (end_of_chain_error m) = true
is_quiet (null_scan_error m) = true
is_quiet (error m) = false
is_quiet (http_exception m status) = false
is_quiet delayed_error = false

caught-is_quiet : (e : Throwable) → caught e ≡ (if is_quiet e then resolved tt else rejected e)
unfolding caught
caught-is_quiet (error m) = refl
caught-is_quiet _ = refl

-- For a call that ends within its fuel: if it finds the flag set it changes nothing. Otherwise it
-- leaves the flag clear, however it ends, and is resolved unless its body threw an error other than
-- the end of the chain or an empty watch list, which it passes on.
pub scan_cases :
    {W : Type 0} (m : Methods W) (fuel : ℕ) (s s' : Scanner W) (r : Outcome (Unit {0}))
    → scan m fuel s ≡ some (r, s')
    → ((s.scan_in_progress ≡ true) × (r ≡ resolved tt) × (s' ≡ s))
      ⊎ ((s.scan_in_progress ≡ false)
          × (s'.scan_in_progress ≡ false)
          × (((r ≡ resolved tt) × (scan_body m fuel s.world ≡ some (returned, s'.world)))
              ⊎ ((e : Throwable) × (scan_body m fuel s.world ≡ some (threw e, s'.world))
                  × (r ≡ (if is_quiet e then resolved tt else rejected e)))))
unfolding scan exit_outcome
scan_cases {W} m fuel s s' r p = elim (Bool-cases s.scan_in_progress) [
  | inl busy ↦ inl (ground arith)
  | inr free ↦
      let (cleared, exit) = ended (scan_body m fuel s.world) refl (rw (free, scan) at p) in
      inr (free, cleared, exit)
]
  where
    ended :
        (out : Option (Exit × W))
        → scan_body m fuel s.world ≡ out
        → ◌≡◌ {A = Option (Outcome (Unit {0}) × Scanner W)}
            (elim out [
              | none ↦ none
              | some (exit, w) ↦
                  some (exit_outcome exit, record { scan_in_progress = false; world = w })
            ])
            (some (r, s'))
        → (s'.scan_in_progress ≡ false)
          × (((r ≡ resolved tt) × (scan_body m fuel s.world ≡ some (returned, s'.world)))
              ⊎ ((e : Throwable) × (scan_body m fuel s.world ≡ some (threw e, s'.world))
                  × (r ≡ (if is_quiet e then resolved tt else rejected e))))
    ended none e q = cc
    ended (some (returned, w)) e q = (ground arith, inl (ground arith, ground arith))
    ended (some (threw t, w)) e q =
        (ground arith, inr (t, ground arith, ground (arith, caught-is_quiet t)))

-- What the methods do to the number of the last block that was recorded.
pub record KeepsSeen {W : Type 0} (m : Methods W) (seen : W → ℕ) : Type 0 where
  pub check : (n : ℕ) (h : BlockHash) (w : W) → seen (m.check_scan_parameters n h w).1 ≡ seen w
  pub process : (n : ℕ) (h : BlockHash) (w : W) → seen (m.process_current_block h n w).1 ≡ seen w
  pub record_done :
      (n : ℕ) (w : W)
      → (m.set_last_seen_block_number n w).0 ≡ resolved tt
      → seen (m.set_last_seen_block_number n w).1 ≡ n
  pub record_failed :
      (n : ℕ) (w : W) (e : Throwable)
      → (m.set_last_seen_block_number n w).0 ≡ rejected e
      → seen (m.set_last_seen_block_number n w).1 ≡ seen w
  pub hash : (n : ℕ) (w : W) → seen (m.get_block_hash n w).1 ≡ seen w

-- A block that was done was processed, and then recorded.
pub scan_block-steps :
    {W : Type 0} (m : Methods W) (n : ℕ) (h next : BlockHash) (w w' : W)
    → scan_block m n h w ≡ (resolved next, w')
    → let w₁ = (m.check_scan_parameters n h w).1 in
      let w₂ = (m.process_current_block h n w₁).1 in
      ((m.process_current_block h n w₁).0 ≡ resolved tt)
      × (w' ≡ (m.get_block_hash (n + 1) (m.set_last_seen_block_number n w₂).1).1)
unfolding scan_block
scan_block-steps m n h next w w' e =
    let (a₁, e₁, q₁) = bind-resolved (m.check_scan_parameters n h) _ w (ap (λ r. r.0) e) in
    let (a₂, e₂, q₂) = bind-resolved (m.process_current_block h n) _ _ q₁ in
    let (a₃, e₃, q₃) = bind-resolved (m.set_last_seen_block_number n) _ _ q₂ in
    (e₂, ap (λ r. r.1) (sym e) ∙ rw (e₁, e₂, e₃, continue) refl)

module _ {W : Type 0} (m : Methods W) (seen : W → ℕ) (K : KeepsSeen m seen) where
  -- The block was processed before it was recorded.
  abbrev pub Recorded : ℕ → BlockHash → W → W → Type 0
  Recorded n h w w' =
      let w₁ = (m.check_scan_parameters n h w).1 in
      ((m.process_current_block h n w₁).0 ≡ resolved tt) × (seen w' ≡ n)

  continue-seen :
      (n : ℕ) (w : W) (r : Outcome (Unit {0}))
      → (m.set_last_seen_block_number n w).0 ≡ r
      → (seen (continue r (λ u. m.get_block_hash (n + 1)) (m.set_last_seen_block_number n w).1).1
          ≡ seen w)
        ⊎ (seen (continue r (λ u. m.get_block_hash (n + 1)) (m.set_last_seen_block_number n w).1).1
            ≡ n)
  continue-seen n w (resolved tt) e = inr (K.hash (n + 1) _ ∙ K.record_done n w e)
  continue-seen n w (rejected x) e = inl (K.record_failed n w x e)

  scan_block-seen :
      (n : ℕ) (h : BlockHash) (w : W)
      → (seen (scan_block m n h w).1 ≡ seen w) ⊎ Recorded n h w (scan_block m n h w).1
  unfolding scan_block
  scan_block-seen n h w = checked (m.check_scan_parameters n h w).0
    where
      w₁ : W
      w₁ = (m.check_scan_parameters n h w).1

      w₂ : W
      w₂ = (m.process_current_block h n w₁).1

      rest : Action W BlockHash
      rest = m.set_last_seen_block_number n >> m.get_block_hash (n + 1)

      processed :
          (r : Outcome (Unit {0}))
          → (m.process_current_block h n w₁).0 ≡ r
          → (seen (continue r (λ u. rest) w₂).1 ≡ seen w)
            ⊎ (((m.process_current_block h n w₁).0 ≡ resolved tt)
                × (seen (continue r (λ u. rest) w₂).1 ≡ n))
      processed (rejected e) q = inl (K.process n h w₁ ∙ K.check n h w)
      processed (resolved tt) q = elim (continue-seen n w₂ _ refl) [
        | inl same ↦ inl (same ∙ K.process n h w₁ ∙ K.check n h w)
        | inr done ↦ inr (q, done)
      ]

      checked :
          (r : Outcome (Unit {0}))
          → (seen (continue r (λ u. m.process_current_block h n >> rest) w₁).1 ≡ seen w)
            ⊎ Recorded n h w (continue r (λ u. m.process_current_block h n >> rest) w₁).1
      checked (rejected e) = inl (K.check n h w)
      checked (resolved tt) = processed (m.process_current_block h n w₁).0 refl

  scan_block-recorded :
      (n : ℕ) (h next : BlockHash) (w : W)
      → (scan_block m n h w).0 ≡ resolved next
      → seen (scan_block m n h w).1 ≡ n
  unfolding scan_block
  scan_block-recorded n h next w q =
      let (a₁, e₁, q₁) = bind-resolved (m.check_scan_parameters n h) _ w q in
      let (a₂, e₂, q₂) = bind-resolved (m.process_current_block h n) _ _ q₁ in
      let (a₃, e₃, q₃) = bind-resolved (m.set_last_seen_block_number n) _ _ q₂ in
      rw (e₁, e₂, e₃, continue) (K.hash (n + 1) _ ∙ K.record_done n _ e₃)

  Follows-seen :
      {n k : ℕ} {h h' : BlockHash} {w w' : W}
      → Follows m n h w k h' w'
      → seen w + 1 ≡ n
      → seen w' + 1 ≡ k
  Follows-seen here e = e
  Follows-seen {n} {h = h} {w = w} (block {next = next} q path) e = Follows-seen path (
      ap (λ k. k + 1)
        (ap (λ r. seen r.1) (sym q) ∙ scan_block-recorded n h next w (ap (λ r. r.0) q)))

  -- A loop that begins behind the last recorded block and ends, has taken the blocks from there on
  -- in order, each after the one before it was recorded; of the block `k` at which it stopped,
  -- nothing is recorded, or it was processed before.
  pub scan_loop-seen :
      (fuel n : ℕ) (h : BlockHash) (w w' : W) (e : Throwable)
      → seen w + 1 ≡ n
      → scan_loop m fuel n h w ≡ some (e, w')
      → (k : ℕ) × (h' : BlockHash) × (w₁ : W) × Follows m n h w k h' w₁
        × (seen w₁ + 1 ≡ k)
        × ((seen w' + 1 ≡ k) ⊎ Recorded k h' w₁ w')
  scan_loop-seen fuel n h w w' e start p =
      let (k, h', w₁, path, last) = scan_loop-Follows m fuel n h w w' e p in
      let before = Follows-seen path start in (k, h', w₁, path, before, stopped k h' w₁ last before)
    where
      stopped :
          (k : ℕ) (h' : BlockHash) (w₁ : W)
          → scan_block m k h' w₁ ≡ (rejected e, w')
          → seen w₁ + 1 ≡ k
          → (seen w' + 1 ≡ k) ⊎ Recorded k h' w₁ w'
      stopped k h' w₁ last before = elim (scan_block-seen k h' w₁) [
        | inl same ↦ inl (ap (λ n. n + 1) (ap (λ r. seen r.1) (sym last) ∙ same) ∙ before)
        | inr (done, now) ↦ inr (done, ap (λ r. seen r.1) (sym last) ∙ now)
      ]
