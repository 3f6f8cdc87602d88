-- ===== src/Nonce/Repeats.antt =====
-- The keys of libs/common/src/services/nonce.service.ts for an answer of the chain that is a text for
-- `+`: the nonces of two answers do not exclude each other.
use text.Mathlib.TextLemmas.{append_cancel_left, append_cancel_right, append_inj, length-append}
use Prim.Native.String.{count}
use account_service.Common.{ℕ, ◌+◌, ◌≡◌, ◌≢◌, refl, sym, ap, ◌∙◌, String, ◌<>◌, arith}
use account_service.Js.{resolved}
use account_service.Decimal.{to_string, to_string-injective}
use account_service.Redis.{Keyspace, IsKeyspace}
use account_service.Nonce.{get_next_nonce, Index, text_value, plus}
use account_service.Nonce.Search.{suffix, IsFree, locked_by}
use account_service.Nonce.Unique.{
  KeepsLocks, locked_by_self, locked_by-other, locked_by-KeepsLocks, get_next_nonce-first_free,
}

-- polkadot's integer for this number: its text is what `+` takes.
abbrev pub index_of : ℕ → Index
index_of n = record { number = n; primitive = text_value (to_string n) }

-- A position of the next answer is no other position of this one.
one-ne-zero : (a b : String) → a <> to_string 1 ≢ b <> to_string 0
unfolding to_string
one-ne-zero a b e =
    let sum : count a + 1 ≡ count b + 1 =
      sym (length-append a "1") ∙ ap count e ∙ length-append b "0" in
    let (start, end) = append_inj {s₁ = a} {s₂ = b} {t₁ = "1"} {t₂ = "0"} e (omega (arith, sum)) in
    omega (arith, to_string-injective 1 0 end)

zero-ne-zero : (n : ℕ) → suffix (index_of n) 0 ≢ suffix (index_of (n + 1)) 0
unfolding plus
zero-ne-zero n e =
    let same = to_string-injective n (n + 1) (append_cancel_right _ _ (to_string 0) e) in
    omega (arith, same)

zero-ne-one : (n : ℕ) → suffix (index_of n) 0 ≢ suffix (index_of n) 1
unfolding plus
zero-ne-one n e =
    let same = to_string-injective 0 1 (append_cancel_left (to_string n) _ _ e) in
    omega (arith, same)

one-ne-next : (n : ℕ) → suffix (index_of n) 1 ≢ suffix (index_of (n + 1)) 0
unfolding plus
one-ne-next n = one-ne-zero (to_string n) (to_string (n + 1))

module _ (K : Keyspace) (L : IsKeyspace K) where
  -- A nonce is handed out twice though no key has expired: from a state in which the two keys of an
  -- answer `n` and the first of the answer `n + 1` are free, two calls with the answer `n` and then
  -- one with the answer `n + 1`, all in a row, return `n`, `n + 1` and again `n + 1`, and each call
  -- keeps the keys that were there.
  pub get_next_nonce-repeats :
      (s : K.State) (n : ℕ)
      → IsFree K s (suffix (index_of n) 0)
      → IsFree K s (suffix (index_of n) 1)
      → IsFree K s (suffix (index_of (n + 1)) 0)
      → let (first, t) = get_next_nonce K (resolved (index_of n)) s in
        let (second, u) = get_next_nonce K (resolved (index_of n)) t in
        let (third, v) = get_next_nonce K (resolved (index_of (n + 1))) u in
        (first ≡ resolved n)
        × (second ≡ resolved (n + 1))
        × (third ≡ resolved (n + 1))
        × KeepsLocks K s t
        × KeepsLocks K t u
        × KeepsLocks K u v
  get_next_nonce-repeats s n free₀ free₁ free₂ =
      let c = index_of n in
      let d = index_of (n + 1) in
      let t = locked_by K s (suffix c 0) in
      let u = locked_by K t (suffix c 1) in
      let one = get_next_nonce-first_free K L s c 0 (omega arith) tt free₀ in
      let still₁ : IsFree K t (suffix c 1) =
        locked_by-other K L s (suffix c 0) (suffix c 1) (zero-ne-one n) ∙ free₁ in
      let two =
        get_next_nonce-first_free K L t c 1 (omega arith) (locked_by_self K L s (suffix c 0), tt)
          still₁ in
      let still₂ : IsFree K u (suffix d 0) =
        locked_by-other K L t (suffix c 1) (suffix d 0) (one-ne-next n)
        ∙ locked_by-other K L s (suffix c 0) (suffix d 0) (zero-ne-zero n)
        ∙ free₂ in
      let three = get_next_nonce-first_free K L u d 0 (omega arith) tt still₂ in
      rw one (
        rw two (
          rw three (
            ap resolved (omega arith),
            refl,
            ap resolved (omega arith),
            locked_by-KeepsLocks K L s (suffix c 0),
            locked_by-KeepsLocks K L t (suffix c 1),
            locked_by-KeepsLocks K L u (suffix d 0),
          )))
