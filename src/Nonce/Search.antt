-- ===== src/Nonce/Search.antt =====
-- What one call of `get_next_nonce` returns and writes.
use mathlib.Core.Path.{ap₂}
use native.Mathlib.Nat.{add-zero}
use text.Mathlib.TextLemmas.{append_cancel_left}
use account_service.Common.{
  ℕ, zero, suc, ◌+◌, ◌<◌, ◌≡◌, refl, sym, ap, ◌∙◌, ◌⊎◌, inl, inr, String, Option, none, some, ◌==◌,
  nat_eq, ltb, length, arith, Option-cases, Bool-cases, true, if◌then◌else◌,
}
use account_service.Js.{Outcome, resolved}
use account_service.Decimal.{to_string-injective}
use account_service.Redis.{Keyspace, IsKeyspace}
use account_service.Nonce.{
  number_of_nonce_keys_to_check, nonce_key_expire_seconds, get_nonce_key, possible_keys_loop,
  get_next_possible_keys, Index, Primitive, number_value, text_value, plus, increment_nonce_loop,
  increment_nonce, next_of_index, get_next_nonce,
}

abbrev pub key_of : String → String
key_of suffix = get_nonce_key suffix

-- The suffix of the key at position `i` of the window.
abbrev pub suffix : Index → ℕ → String
suffix c i = plus c.primitive i

-- Different suffixes have different keys.
pub key_of-injective : (a b : String) → key_of a ≡ key_of b → a ≡ b
unfolding get_nonce_key
key_of-injective a b e = append_cancel_left ":" _ _ (append_cancel_left "chain:nonce" _ _ e)

plus-injective : (p : Primitive) (i j : ℕ) → plus p i ≡ plus p j → i ≡ j
unfolding plus
plus-injective (number_value n) i j e = omega (arith, to_string-injective (n + i) (n + j) e)
plus-injective (text_value text) i j e = to_string-injective i j (append_cancel_left text _ _ e)

-- One answer of the chain gives different keys at different positions.
pub suffix-injective : (c : Index) (i j : ℕ) → suffix c i ≡ suffix c j → i ≡ j
suffix-injective c i j = plus-injective c.primitive i j

length-possible_keys_loop :
    (rounds i : ℕ) (nonce : Index) → length (possible_keys_loop rounds i nonce) ≡ rounds
unfolding possible_keys_loop
length-possible_keys_loop zero i nonce = refl
length-possible_keys_loop (suc rounds) i nonce =
    omega (arith, length-possible_keys_loop rounds (i + 1) nonce)

none_left :
    (rounds i keys_size : ℕ)
    → keys_size + 1 ≡ i + suc rounds
    → ltb keys_size (i + 1) ≡ true
    → rounds ≡ 0
none_left rounds i keys_size size last = ground arith

module _ (K : Keyspace) where
  -- The call, from what its script answers.
  get_next_nonce-loop :
      (s : K.State) (nonce : Index) (out : K.State × Option ℕ)
      → increment_nonce_loop K s number_of_nonce_keys_to_check nonce_key_expire_seconds 1
          (possible_keys_loop number_of_nonce_keys_to_check 0 nonce)
        ≡ out
      → get_next_nonce K (resolved nonce) s ≡ (resolved (next_of_index K nonce out.1), out.0)
  unfolding get_next_nonce increment_nonce get_next_possible_keys
  get_next_nonce-loop s nonce out e =
      rw (length-possible_keys_loop number_of_nonce_keys_to_check 0 nonce, e)

  -- The key with this suffix has been written, and has not expired.
  abbrev pub IsLocked : K.State → String → Type 0
  IsLocked s suffix = (v : String) × (K.get s (key_of suffix) ≡ some v)

  abbrev pub IsFree : K.State → String → Type 0
  IsFree s suffix = K.get s (key_of suffix) ≡ none

  abbrev pub locked_by : K.State → String → K.State
  locked_by s suffix = K.setex s (key_of suffix) nonce_key_expire_seconds "1"

  module _ (c : Index) where
    -- The `count` positions from `i` on are locked.
    abbrev pub AllLocked : K.State → ℕ → ℕ → Type 0
    AllLocked s i zero = Unit
    AllLocked s i (suc count) = IsLocked s (suffix c i) × AllLocked s (suc i) count

    -- Of the `rounds` positions from `n` on, the first free one is taken; or all are locked.
    abbrev Searched : K.State → ℕ → ℕ → ℕ → K.State × Option ℕ → Type 0
    Searched s n rounds i out =
        ((k : ℕ) × (k < rounds)
          × AllLocked s n k
          × IsFree s (suffix c (n + k))
          × (out ≡ (locked_by s (suffix c (n + k)), some (i + k))))
        ⊎ (AllLocked s n rounds × (out ≡ (s, none)))

    Searched-shift :
        (s : K.State) (n rounds i : ℕ) (out : K.State × Option ℕ)
        → IsLocked s (suffix c n)
        → Searched s (suc n) rounds (i + 1) out
        → Searched s n (suc rounds) i out
    Searched-shift s n rounds i out l (inl (k, less, before, free, e)) =
        let shift : suc n + k ≡ n + suc k = omega arith in
        inl (
          suc k,
          omega arith,
          (l, before),
          rw shift at free,
          e
              ∙ ap (λ (m : ℕ). (locked_by s (suffix c m), some (i + 1 + k))) shift
              ∙ ap (λ (m : ℕ). (locked_by s (suffix c (n + suc k)), some m)) (omega arith),
        )
    Searched-shift s n rounds i out l (inr (all, e)) = inr ((l, all), e)

    module _ (L : IsKeyspace K) where
      -- One round of the loop: the key at `n` is tried, and `rest` is what the later rounds do.
      abbrev round : K.State → ℕ → ℕ → ℕ → K.State × Option ℕ → K.State × Option ℕ
      round s n i keys_size rest =
          if K.exists s (key_of (suffix c n)) == 0
          then (locked_by s (suffix c n), some i)
          else if ltb keys_size (i + 1)
          then (s, none)
          else rest

      round_free :
          (s : K.State) (n i keys_size : ℕ) (rest : K.State × Option ℕ)
          → IsFree s (suffix c n)
          → round s n i keys_size rest ≡ (locked_by s (suffix c n), some i)
      round_free s n i keys_size rest free = ground (arith, L.exists-get s (key_of (suffix c n)))

      round_locked :
          (s : K.State) (n i keys_size : ℕ) (rest : K.State × Option ℕ)
          → IsLocked s (suffix c n)
          → round s n i keys_size rest ≡ (if ltb keys_size (i + 1) then (s, none) else rest)
      round_locked s n i keys_size rest (v, e) =
          ground (arith, L.exists-get s (key_of (suffix c n)))

      round-Searched :
          (s : K.State) (n rounds i keys_size : ℕ) (rest : K.State × Option ℕ)
          → keys_size + 1 ≡ i + suc rounds
          → Searched s (suc n) rounds (i + 1) rest
          → Searched s n (suc rounds) i (round s n i keys_size rest)
      round-Searched s n rounds i keys_size rest size later =
          elim (Option-cases (K.get s (key_of (suffix c n)))) [
            | inl free ↦ inl (
              0,
              omega arith,
              tt,
              rw add-zero free,
              round_free s n i keys_size rest free
                  ∙ ap₂ (λ (m k : ℕ). (locked_by s (suffix c m), some k)) (sym (add-zero n))
                      (sym (add-zero i)),
            )
            | inr l ↦
                rw (round_locked s n i keys_size rest l)
                  (elim (Bool-cases (ltb keys_size (i + 1))) [
                    | inl last ↦
                        rw (none_left rounds i keys_size size last, last) (inr ((l, tt), refl))
                    | inr more ↦ rw more (Searched-shift s n rounds i rest l later)
                  ])
          ]

      loop-Searched :
          (rounds : ℕ) (s : K.State) (n i keys_size : ℕ)
          → i ≡ n + 1
          → keys_size ≡ n + rounds
          → Searched s n rounds i (
              increment_nonce_loop K s keys_size nonce_key_expire_seconds i
                (possible_keys_loop rounds n c))
      unfolding increment_nonce_loop possible_keys_loop
      loop-Searched zero s n i keys_size ei es = inr (tt, refl)
      loop-Searched (suc rounds) s n i keys_size ei es =
          let next : n + 1 ≡ suc n = omega arith in
          round-Searched s n rounds i keys_size _ (omega arith)
            (rw next (loop-Searched rounds s (suc n) (i + 1) keys_size (omega arith) (omega arith)))

      -- What a call returns, and the keys that it leaves.
      abbrev pub Taken : K.State → Outcome ℕ × K.State → Type 0
      Taken s out =
          ((k : ℕ) × (k < number_of_nonce_keys_to_check)
            × AllLocked s 0 k
            × IsFree s (suffix c k)
            × (out ≡ (resolved (c.number + k), locked_by s (suffix c k))))
          ⊎ (AllLocked s 0 number_of_nonce_keys_to_check
              × (out ≡ (resolved (c.number + number_of_nonce_keys_to_check), s)))

      -- A call tries the 50 keys that `+` makes of the chain's answer and 0 to 49, in this order. The
      -- first that stands free is written, and its position is added to the number that was
      -- answered; if all 50 are there, 50 is added and nothing is written.
      pub get_next_nonce-Taken : (s : K.State) → Taken s (get_next_nonce K (resolved c) s)
      unfolding next_of_index
      get_next_nonce-Taken s =
          elim (loop-Searched number_of_nonce_keys_to_check s 0 1 number_of_nonce_keys_to_check
            (omega arith) refl) [
              | inl (k, less, before, free, e) ↦
                  let zero_left : 0 + k ≡ k = omega arith in
                  inl (
                    k,
                    less,
                    before,
                    rw zero_left at free,
                    get_next_nonce-loop s c _ e
                        ∙ rw zero_left
                            (ap (λ (m : ℕ). (resolved m, locked_by s (suffix c k))) (omega arith)),
                  )
              | inr (all, e) ↦ inr (all, get_next_nonce-loop s c _ e)
            ]
