-- ===== src/Scanner/Overlap.antt =====
-- Calls of `scan` that overlap, as the interval timer makes them: each `await` lets another call in.
-- The flag is tested before `checkInitialScanParameters` is awaited, and set after it.
use account_service.Common.{
  ℕ, zero, suc, ◌+◌, ◌≡◌, refl, Bool, true, false, List, [], ◌∷◌, ◌++◌, arith, ap, ◌∙◌, subst,
}

-- Where a call that was let in stands.
pub data Phase : Type 0 where
  -- it awaits `checkInitialScanParameters`; the flag is not set yet
  checking : Phase
  -- it reads and processes blocks
  scanning : Phase

pub record Calls : Type 0 where
  pub scan_in_progress : Bool
  pub running : List Phase

-- A step of one of the calls, up to its next `await` that matters.
pub data Step : Calls → Calls → Type 0 where
  -- the flag is set: the call returns at once
  skip :
      (running : List Phase)
      → Step
          (record { scan_in_progress = true; running = running })
          (record { scan_in_progress = true; running = running })
  -- the flag is clear: the call goes on to the initial check
  enter :
      (running : List Phase)
      → Step
          (record { scan_in_progress = false; running = running })
          (record { scan_in_progress = false; running = checking ∷ running })
  -- the initial check was passed
  begin :
      (flag : Bool) (before after : List Phase)
      → Step
          (record { scan_in_progress = flag; running = before ++ (checking ∷ after) })
          (record { scan_in_progress = true; running = before ++ (scanning ∷ after) })
  -- the call ends, in either phase; `finally` clears the flag
  finish :
      (flag : Bool) (phase : Phase) (before after : List Phase)
      → Step
          (record { scan_in_progress = flag; running = before ++ (phase ∷ after) })
          (record { scan_in_progress = false; running = before ++ after })

pub data Reaches (s : Calls) : Calls → Type 0 where
  here : Reaches s s
  next : {t u : Calls} → Reaches s t → Step t u → Reaches s u

abbrev pub idle : Calls
idle = record { scan_in_progress = false; running = [] }

-- `count` calls in one phase.
abbrev pub in_phase : Phase → ℕ → List Phase
in_phase phase zero = []
in_phase phase (suc count) = phase ∷ in_phase phase count

enter_many :
    (count : ℕ)
    → Reaches idle (record { scan_in_progress = false; running = in_phase checking count })
enter_many zero = here
enter_many (suc count) = next (enter_many count) (enter (in_phase checking count))

abbrev mixed : ℕ → ℕ → List Phase
mixed zero waiting = in_phase checking waiting
mixed (suc started) waiting = scanning ∷ mixed started waiting

mixed-split :
    (started waiting : ℕ)
    → mixed started (suc waiting)
      ≡ in_phase scanning started ++ (checking ∷ in_phase checking waiting)
mixed-split zero waiting = refl
mixed-split (suc started) waiting = ap (◌∷◌ scanning) (mixed-split started waiting)

mixed-next :
    (started waiting : ℕ)
    → in_phase scanning started ++ (scanning ∷ in_phase checking waiting)
      ≡ mixed (suc started) waiting
mixed-next zero waiting = refl
mixed-next (suc started) waiting = ap (◌∷◌ scanning) (mixed-next started waiting)

mixed-zero : (started : ℕ) → mixed started zero ≡ in_phase scanning started
mixed-zero zero = refl
mixed-zero (suc started) = ap (◌∷◌ scanning) (mixed-zero started)

abbrev at : Bool → List Phase → Calls
at flag running = record { scan_in_progress = flag; running = running }

begin_many :
    (waiting started : ℕ) (flag : Bool)
    → Reaches idle (at flag (mixed started waiting))
    → (flag' : Bool) × Reaches idle (at flag' (in_phase scanning (waiting + started)))
begin_many zero started flag r = (
  flag,
  subst (λ xs. Reaches idle (at flag xs))
      (mixed-zero started ∙ ap (in_phase scanning) (omega arith)) r,
)
begin_many (suc waiting) started flag r =
    let split = subst (λ xs. Reaches idle (at flag xs)) (mixed-split started waiting) r in
    let stepped = next split (begin flag (in_phase scanning started) (in_phase checking waiting)) in
    let joined = subst (λ xs. Reaches idle (at true xs)) (mixed-next started waiting) stepped in
    let (flag', done) = begin_many waiting (suc started) true joined in
    (flag', subst (λ k. Reaches idle (at flag' (in_phase scanning k))) (omega arith) done)

-- The flag does not keep scans apart: any number of calls can be scanning at once, and the flag can
-- be clear while they do.
pub scans_overlap :
    (count : ℕ)
    → Reaches idle (record { scan_in_progress = false; running = in_phase scanning count })
scans_overlap count =
    let (flag, r) = begin_many (suc count) zero false (enter_many (suc count)) in
    let total : suc count + zero ≡ suc count = omega arith in
    next (subst (λ k. Reaches idle (at flag (in_phase scanning k))) total r)
      (finish flag scanning [] (in_phase scanning count))
