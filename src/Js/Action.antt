-- ===== src/Js/Action.antt =====
-- An `async` method: it reads and changes a state, and is resolved or rejected. What was written
-- before a rejection stays written.
use account_service.Common.{◌≡◌, refl}
use account_service.Js.{Throwable, Outcome, resolved, rejected}

abbrev pub Action {ℓ} : Type ℓ → Type ℓ → Type ℓ
Action W A = W → Outcome A × W

module _ {ℓ} {W A : Type ℓ} where
  abbrev pub pure : A → Action W A
  pure a w = (resolved a, w)

  abbrev pub throw : Throwable → Action W A
  throw e w = (rejected e, w)

  abbrev pub lift : Outcome A → Action W A
  lift r w = (r, w)

  -- A read of the state.
  abbrev pub gets : (W → A) → Action W A
  gets f w = (resolved (f w), w)

module _ {ℓ} {W A B : Type ℓ} where
  abbrev pub continue : Outcome A → (A → Action W B) → Action W B
  continue (resolved a) f w = f a w
  continue (rejected e) f w = (rejected e, w)

  infixl 5 ◌>>=◌ ◌>>◌
  abbrev pub ◌>>=◌ : Action W A → (A → Action W B) → Action W B
  ◌>>=◌ m f w = continue (m w).0 f (m w).1

  abbrev pub ◌>>◌ : Action W A → Action W B → Action W B
  m >> n = m >>= λ _. n

-- A write.
abbrev pub modify : {W : Type 0} → (W → W) → Action W (Unit {0})
modify f w = (resolved tt, f w)

-- A resolved sequence: its parts were resolved.
pub bind-resolved {ℓ} :
    {W A B : Type ℓ} (m : Action W A) (f : A → Action W B) (w : W) {b : B}
    → ((m >>= f) w).0 ≡ resolved b
    → (a : A) × ((m w).0 ≡ resolved a) × ((f a (m w).1).0 ≡ resolved b)
bind-resolved {A} {B} m f w {b} h = go (m w).0 refl
  where
    go :
        (r : Outcome A)
        → (m w).0 ≡ r
        → (a : A) × ((m w).0 ≡ resolved a) × ((f a (m w).1).0 ≡ resolved b)
    go (resolved a) e = (a, e, rw (e, continue) at h)
    go (rejected x) e = cc (rw (e, continue) at h)
