-- ===== src/Nonce/Unique.antt =====
-- Calls of `getNextNonce` with one answer of the chain return different nonces.
use account_service.Common.{
  ℕ, zero, suc, ◌+◌, ◌<◌, ◌≡◌, ◌≢◌, refl, sym, ap, ◌∙◌, inl, inr, String, arith, ==_refl, ==_ne,
  string_eq, ◌==◌, Bool-cases, ltb, ltb→lt, ℕ_discrete,
}
use account_service.Js.{resolved}
use account_service.Redis.{Keyspace, IsKeyspace}
use account_service.Nonce.{
  get_next_nonce, number_of_nonce_keys_to_check, nonce_key_expire_seconds, Index,
}
use account_service.Nonce.Search.{
  key_of, key_of-injective, suffix, IsLocked, IsFree, AllLocked, locked_by, Taken,
  get_next_nonce-Taken,
}

module _ (K : Keyspace) where
  -- What other clients and the passing of time may do before no key has expired.
  abbrev pub KeepsLocks : K.State → K.State → Type 0
  KeepsLocks s t = (suffix : String) → IsLocked K s suffix → IsLocked K t suffix

  AllLocked-from :
      (c : Index) (s : K.State) (i count j : ℕ)
      → AllLocked K c s i count
      → j < count
      → IsLocked K s (suffix c (i + j))
  AllLocked-from c s i zero j all h = absurd (omega arith)
  AllLocked-from c s i (suc count) zero all h =
      let shift : i ≡ i + 0 = omega arith in rw shift at all.0
  AllLocked-from c s i (suc count) (suc j) all h =
      let shift : suc i + j ≡ i + suc j = omega arith in
      rw shift at (AllLocked-from c s (suc i) count j all.1 (omega arith))

  pub AllLocked-at :
      (c : Index) (s : K.State) (count j : ℕ)
      → AllLocked K c s 0 count
      → j < count
      → IsLocked K s (suffix c j)
  AllLocked-at c s count j all h =
      let shift : 0 + j ≡ j = omega arith in rw shift at (AllLocked-from c s 0 count j all h)

  pub free-locked : (s : K.State) (a b : String) → a ≡ b → IsFree K s a → IsLocked K s b → ⊥
  free-locked s a b e free (v, locked) = cc (ap key_of e)

  module _ (L : IsKeyspace K) where
    pub locked_by_self : (s : K.State) (a : String) → IsLocked K (locked_by K s a) a
    locked_by_self s a = (
      "1",
      L.get-setex s (key_of a) nonce_key_expire_seconds "1" (key_of a) (omega arith)
          ∙ rw (==_refl (key_of a)),
    )

    pub locked_by-other :
        (s : K.State) (a other : String)
        → a ≢ other
        → K.get (locked_by K s a) (key_of other) ≡ K.get s (key_of other)
    locked_by-other s a other ne =
        L.get-setex s (key_of a) nonce_key_expire_seconds "1" (key_of other) (omega arith)
        ∙ rw (==_ne (key_of other) (key_of a) (λ e. ne (sym (key_of-injective other a e))))

    pub locked_by-KeepsLocks : (s : K.State) (a : String) → KeepsLocks s (locked_by K s a)
    locked_by-KeepsLocks s a other (v, locked) =
        let got =
          L.get-setex s (key_of a) nonce_key_expire_seconds "1" (key_of other) (omega arith) in
        elim (Bool-cases (key_of other == key_of a)) [
          | inl same ↦ ("1", got ∙ rw same)
          | inr differ ↦ (v, got ∙ rw differ locked)
        ]

    -- While the chain gives one answer, and no key has expired in between, two calls return different
    -- nonces, unless one of them found all its 50 keys there.
    pub get_next_nonce_fresh :
        (s t : K.State) (c : Index) (a b : ℕ)
        → (get_next_nonce K (resolved c) s).0 ≡ resolved a
        → KeepsLocks (get_next_nonce K (resolved c) s).1 t
        → (get_next_nonce K (resolved c) t).0 ≡ resolved b
        → a < c.number + number_of_nonce_keys_to_check
        → b < c.number + number_of_nonce_keys_to_check
        → a ≢ b
    get_next_nonce_fresh s t c a b first kept second in_range in_range' same =
        fresh (get_next_nonce-Taken K c L s) (get_next_nonce-Taken K c L t)
      where
        fresh :
            Taken K c L s (get_next_nonce K (resolved c) s)
            → Taken K c L t (get_next_nonce K (resolved c) t)
            → ⊥
        fresh (inl (k, _, _, _, e)) (inl (j, _, _, free, e')) =
            let positions : j ≡ k = ground arith in
            free-locked t (suffix c j) (suffix c k) (ap (suffix c) positions) free
              (kept (suffix c k) (rw e (locked_by_self s (suffix c k))))
        fresh (inr (_, e)) taken = ground arith
        fresh (inl taken) (inr (_, e)) = ground arith

    -- The next call, when the first `j` of the 50 keys are there and the one behind is not.
    pub get_next_nonce-first_free :
        (s : K.State) (c : Index) (j : ℕ)
        → j < number_of_nonce_keys_to_check
        → AllLocked K c s 0 j
        → IsFree K s (suffix c j)
        → get_next_nonce K (resolved c) s ≡ (resolved (c.number + j), locked_by K s (suffix c j))
    get_next_nonce-first_free s c j h before free = only (get_next_nonce-Taken K c L s)
      where
        only :
            Taken K c L s (get_next_nonce K (resolved c) s)
            → get_next_nonce K (resolved c) s
              ≡ (resolved (c.number + j), locked_by K s (suffix c j))
        only (inr (all, e)) = absurd (free-locked s _ _ refl free (AllLocked-at c s _ j all h))
        only (inl (k, less, before', free', e)) = elim (ℕ_discrete k j) [
          | yes same ↦
              e ∙ ap (λ (i : ℕ). (resolved (c.number + i), locked_by K s (suffix c i))) same
          | no differ ↦ elim (Bool-cases (ltb k j)) [
            | inl below ↦
                absurd
                  (free-locked s _ _ refl free' (AllLocked-at c s j k before (ltb→lt k j below)))
            | inr above ↦
                absurd (free-locked s _ _ refl free (AllLocked-at c s k j before' (ground arith)))
          ]
        ]
