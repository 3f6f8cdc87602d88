-- ===== src/Scanner/Loop.antt =====
-- The loop over the blocks: the order in which it takes them, and why it ends.
use native.Mathlib.Decide.{dec_lt}
use account_service.Common.{
  ℕ, zero, suc, ◌+◌, ◌≤◌, ◌<◌, ◌≡◌, ap, sym, ◌∙◌, ◌↔◌, inl, inr, true, false, Option, some, arith,
}
use account_service.Js.{Throwable, Outcome, resolved, rejected, Outcome-cases}
use account_service.Js.Action.{Action, continue, bind-resolved, lift}
use account_service.Scanner.{
  BlockHash, ScanParameters, Methods, is_set, base_check_scan_parameters, scan_block, scan_loop,
}

module _ {W : Type 0} (m : Methods W) where
  -- From block `n` the loop has come to block `k`, one block after the other.
  pub data Follows : ℕ → BlockHash → W → ℕ → BlockHash → W → Type 0 where
    here : {n : ℕ} {h : BlockHash} {w : W} → Follows n h w n h w
    block :
        {n k : ℕ} {h next h' : BlockHash} {w w₁ w' : W}
        → scan_block m n h w ≡ (resolved next, w₁)
        → Follows (n + 1) next w₁ k h' w'
        → Follows n h w k h' w'

  scan_loop-resolved :
      (fuel n : ℕ) (h next : BlockHash) (w : W)
      → (scan_block m n h w).0 ≡ resolved next
      → scan_loop m (suc fuel) n h w ≡ scan_loop m fuel (n + 1) next (scan_block m n h w).1
  unfolding scan_loop
  scan_loop-resolved fuel n h next w q = rw (q, scan_loop)

  scan_loop-rejected :
      (fuel n : ℕ) (h : BlockHash) (w : W) (e : Throwable)
      → (scan_block m n h w).0 ≡ rejected e
      → scan_loop m (suc fuel) n h w ≡ some (e, (scan_block m n h w).1)
  unfolding scan_loop
  scan_loop-rejected fuel n h w e q = rw (q, scan_loop)

  no_fuel {ℓ} :
      {C : Type ℓ} (n : ℕ) (h : BlockHash) (w : W) (out : Throwable × W)
      → scan_loop m zero n h w ≡ some out
      → C
  unfolding scan_loop
  no_fuel n h w out p = cc

  -- When the loop ends, it ends at a block that was rejected, and has done all blocks before it, one
  -- after the other from its first, each with the state that the one before it left.
  pub scan_loop-Follows :
      (fuel n : ℕ) (h : BlockHash) (w w' : W) (e : Throwable)
      → scan_loop m fuel n h w ≡ some (e, w')
      → (k : ℕ) × (h' : BlockHash) × (w₁ : W) × Follows n h w k h' w₁
        × (scan_block m k h' w₁ ≡ (rejected e, w'))
  scan_loop-Follows zero n h w w' e p = no_fuel n h w (e, w') p
  scan_loop-Follows (suc fuel) n h w w' e p = elim (Outcome-cases (scan_block m n h w).0) [
    | inl (next, q) ↦
        let w₂ = (scan_block m n h w).1 in
        let (k, h', w₁, path, last) =
          scan_loop-Follows fuel (n + 1) next w₂ w' e
            (sym (scan_loop-resolved fuel n h next w q) ∙ p) in
        (k, h', w₁, block (ap (λ r. (r, w₂)) q) path, last)
    | inr (e', q) ↦
        (n, h, w, here, rejected_here e' q (sym (scan_loop-rejected fuel n h w e' q) ∙ p))
  ]
    where
      rejected_here :
          (e' : Throwable)
          → (scan_block m n h w).0 ≡ rejected e'
          → ◌≡◌ {A = Option (Throwable × W)} (some (e', (scan_block m n h w).1)) (some (e, w'))
          → scan_block m n h w ≡ (rejected e, w')
      rejected_here e' q same = ground arith

  -- The last step of a block that was done asked for the hash of the next one.
  scan_block-hash :
      (n : ℕ) (h next : BlockHash) (w : W)
      → (scan_block m n h w).0 ≡ resolved next
      → (w₁ : W) × ((m.get_block_hash (n + 1) w₁).0 ≡ resolved next)
  unfolding scan_block
  scan_block-hash n h next w q =
      let (_, _, q₁) = bind-resolved (m.check_scan_parameters n h) _ w q in
      let (_, _, q₂) = bind-resolved (m.process_current_block h n) _ _ q₁ in
      let (_, _, q₃) = bind-resolved (m.set_last_seen_block_number n) _ _ q₂ in (_, q₃)

  scan_block-check_rejected :
      (n : ℕ) (h : BlockHash) (w : W) (e : Throwable)
      → (m.check_scan_parameters n h w).0 ≡ rejected e
      → scan_block m n h w ≡ (rejected e, (m.check_scan_parameters n h w).1)
  unfolding scan_block
  scan_block-check_rejected n h w e q = rw (q, continue)

  -- Enough fuel: if no block from `limit` on passes the check, with the hash that the chain answers
  -- for it, then as many rounds as there are blocks up to `limit` end the loop.
  pub scan_loop-ends :
      (Answers : ℕ → BlockHash → Type 0) (limit : ℕ)
      → ((k : ℕ) (h : BlockHash) (w : W) → (m.get_block_hash k w).0 ≡ resolved h → Answers k h)
      → ((k : ℕ) (h : BlockHash) (w : W)
          → limit ≤ k
          → Answers k h
          → (e : Throwable) × ((m.check_scan_parameters k h w).0 ≡ rejected e))
      → (fuel n : ℕ) (h : BlockHash) (w : W) → Answers n h
      → 0 < fuel
      → limit < n + fuel
      → (out : Throwable × W) × (scan_loop m fuel n h w ≡ some out)
  scan_loop-ends Answers limit answers ends zero n h w a some_fuel bound = absurd (omega arith)
  scan_loop-ends Answers limit answers ends (suc fuel) n h w a some_fuel bound =
      elim (Outcome-cases (scan_block m n h w).0) [
        | inr (e, q) ↦ (_, scan_loop-rejected fuel n h w e q)
        | inl (next, q) ↦
            let (w₁, hash) = scan_block-hash n h next w q in
            let below : n < limit = done_below next q in
            let (out, p) =
              scan_loop-ends Answers limit answers ends fuel (n + 1) next (scan_block m n h w).1
                (answers (n + 1) next w₁ hash) (omega arith) (omega arith) in
            (out, scan_loop-resolved fuel n h next w q ∙ p)
      ]
    where
      late : (next : BlockHash) → (scan_block m n h w).0 ≡ resolved next → limit ≤ n → ⊥
      late next q above =
          let (e, r) = ends n h w above a in cc (q, scan_block-check_rejected n h w e r)

      done_below : (next : BlockHash) → (scan_block m n h w).0 ≡ resolved next → n < limit
      done_below next q = elim (dec_lt n limit) [
        | yes below ↦ below
        | no above ↦ absurd (late next q (omega arith))
      ]

-- With `onlyFinalized` set, the check passes a block if, and only if, its hash is not empty and its
-- number is not above the latest finalized one; without it, if and only if its hash is not empty.
pub base_check_scan_parameters_iff :
    {W : Type 0} (params : ScanParameters) (latest_finalized : Action W ℕ) (n last : ℕ)
    (h : BlockHash) (w w' : W)
    → latest_finalized w ≡ (resolved last, w')
    → ((base_check_scan_parameters params latest_finalized n h w).0 ≡ resolved tt)
      ↔ ((h.is_empty ≡ false) × (is_set params.only_finalized ≡ true → n ≤ last))
unfolding base_check_scan_parameters
base_check_scan_parameters_iff params latest_finalized n last h w w' e = ground arith

-- The check writes nothing, if the query of the finalized block does not.
pub base_check_scan_parameters-state :
    {W : Type 0} (params : ScanParameters) (answer : Outcome ℕ) (n : ℕ) (h : BlockHash) (w : W)
    → (base_check_scan_parameters params (lift answer) n h w).1 ≡ w
unfolding base_check_scan_parameters
base_check_scan_parameters-state params answer n h w = ground arith
