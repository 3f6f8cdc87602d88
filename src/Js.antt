-- ===== src/Js.antt =====
-- The outcome of a JavaScript call: a promise that is resolved, or one that is rejected.
pub mod Action
use account_service.Common.{ℕ, ◌≡◌, refl, String, ◌⊎◌, inl, inr, Option, none, some}

-- What the code throws, the classes that a handler tells apart by `instanceof` included.
pub data Throwable : Type 0 where
  -- `new Error(message)`, and whatever a library throws
  error : String → Throwable
  -- @nestjs/common `HttpException`: a message and a status
  http_exception : String → ℕ → Throwable
  -- bullmq `DelayedError`
  delayed_error : Throwable
  -- libs/common/src/utils/blockchain-scanner.service.ts
  end_of_chain_error : String → Throwable
  null_scan_error : String → Throwable

pub data Outcome {ℓ} (A : Type ℓ) : Type ℓ where
  resolved : A → Outcome A
  rejected : Throwable → Outcome A

infixl 5 ◌>>=◌ ◌>>◌
abbrev pub ◌>>=◌ {ℓ κ} : {A : Type ℓ} {B : Type κ} → Outcome A → (A → Outcome B) → Outcome B
resolved a >>= f = f a
rejected e >>= f = rejected e

abbrev pub ◌>>◌ {ℓ} : {B : Type ℓ} → Outcome (Unit {0}) → Outcome B → Outcome B
m >> k = m >>= λ _. k

-- `try { return await m } catch (e) { handler(e) }`
abbrev pub catch {ℓ} : {A : Type ℓ} → Outcome A → (Throwable → Outcome A) → Outcome A
catch (resolved a) handler = resolved a
catch (rejected e) handler = handler e

-- `error?.message`; the default message of `DelayedError` is bullmq's.
abbrev pub message : Throwable → Option String
message (error m) = some m
message (http_exception m status) = some m
message delayed_error = none
message (end_of_chain_error m) = some m
message (null_scan_error m) = some m

-- A call that was resolved, with a property of its result.
abbrev pub Resolves {ℓ κ} : {A : Type ℓ} → Outcome A → (A → Type κ) → Type (ℓ ⊔ κ)
Resolves {A} m P = (a : A) × (m ≡ resolved a) × P a

pub Outcome-cases {ℓ} :
    {A : Type ℓ} (m : Outcome A)
    → ((a : A) × (m ≡ resolved a)) ⊎ ((e : Throwable) × (m ≡ rejected e))
Outcome-cases (resolved a) = inl (a, refl)
Outcome-cases (rejected e) = inr (e, refl)

pub resolved-injective {ℓ} :
    {A : Type ℓ} {a b : A} → Path (Outcome A) (resolved a) (resolved b) → a ≡ b
resolved-injective e = cc
