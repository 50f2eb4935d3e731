-- ===== src/Application/Exec.antt =====
-- A service method runs over the world of its process: it ends with a value, with an `AppError`, or by
-- a panic, and what it changed before it ended stays changed.
use deploy_mcp.Prelude.{String, ◌≡◌, refl, Bool, true, false, Result, ok, err, if◌then◌else◌, arith}
use deploy_mcp.Error.{AppError}

-- How a call ends other than by its value: `?` on an error, or a panic.
pub data Stop : Type 0 where
  error : AppError → Stop
  panicked : String → Stop

abbrev pub App : Type 0 → Type 0 → Type 0
App W A = W → Result Stop A × W

module _ {W A : Type 0} where
  unfoldable pub pure : A → App W A
  pure a w = (ok a, w)

  unfoldable pub raise : AppError → App W A
  raise e w = (err (error e), w)

  unfoldable pub panic : String → App W A
  panic message w = (err (panicked message), w)

  -- `?` on a result.
  unfoldable pub lift : Result AppError A → App W A
  unfolding pure raise
  lift (ok a) = pure a
  lift (err e) = raise e

module _ {W A B : Type 0} where
  abbrev pub continue : Result Stop A → (A → App W B) → App W B
  continue (ok a) f w = f a w
  continue (err e) f w = (err e, w)

  infixl 10 ◌>>=◌ ◌>>◌
  unfoldable pub ◌>>=◌ : App W A → (A → App W B) → App W B
  unfolding pure raise panic lift
  ◌>>=◌ m f w = let (r, w') = m w in continue r f w'

  abbrev pub ◌>>◌ : App W A → App W B → App W B
  m >> n = m >>= λ _. n

-- What holds where a call ends: `Done` of its value, or `Stopped` where it has none.
abbrev pub Ends : {W A : Type 0} → (A → W → Type 0) → (W → Type 0) → Result Stop A × W → Type 0
Ends Done Stopped (ok a, w) = Done a w
Ends Done Stopped (err e, w) = Stopped w

-- From a world in `Pre` the call ends in `Done` or in `Stopped`.
pub record Triple {W A : Type 0} (Pre : W → Type 0) (m : App W A) (Done : A → W → Type 0)
    (Stopped : W → Type 0) : Type 0 where
  pub at : (w : W) → Pre w → Ends Done Stopped (m w)

module _ {W A : Type 0} {Pre Stopped : W → Type 0} {Done : A → W → Type 0} where
  pub Triple-pure : (a : A) → ((w : W) → Pre w → Done a w) → Triple Pre (pure a) Done Stopped
  unfolding pure
  Triple-pure a h = record { at = h }

  pub Triple-raise :
      (e : AppError) → ((w : W) → Pre w → Stopped w) → Triple Pre (raise e) Done Stopped
  unfolding raise
  Triple-raise e h = record { at = h }

  pub Triple-panic :
      (message : String) → ((w : W) → Pre w → Stopped w) → Triple Pre (panic message) Done Stopped
  unfolding panic
  Triple-panic message h = record { at = h }

  pub Triple-if :
      (b : Bool) (m n : App W A)
      → (b ≡ true → Triple Pre m Done Stopped)
      → (b ≡ false → Triple Pre n Done Stopped)
      → Triple Pre (if b then m else n) Done Stopped
  Triple-if true m n hm hn = hm refl
  Triple-if false m n hm hn = hn refl

module _ {W A B : Type 0} {Stopped : W → Type 0} {Mid : A → W → Type 0}
    {Done : B → W → Type 0} where
  continue-Ends :
      (f : A → App W B) (r : Result Stop A) (w : W)
      → Ends Mid Stopped (r, w)
      → ((a : A) → Triple (Mid a) (f a) Done Stopped)
      → Ends Done Stopped (continue r f w)
  continue-Ends f (ok a) w h hf = (hf a).at w h
  continue-Ends f (err e) w h hf = h

  pub Triple-bind :
      {Pre : W → Type 0} (m : App W A) (f : A → App W B)
      → Triple Pre m Mid Stopped
      → ((a : A) → Triple (Mid a) (f a) Done Stopped)
      → Triple Pre (m >>= f) Done Stopped
  unfolding ◌>>=◌
  Triple-bind m f hm hf = record { at = λ w h. continue-Ends f (m w).0 (m w).1 (hm.at w h) hf }

-- A part of the precondition that does not depend on the world.
pub Triple-given :
    {W A P : Type 0} {Pre Stopped : W → Type 0} {Done : A → W → Type 0} (m : App W A)
    → (P → Triple Pre m Done Stopped)
    → Triple (λ w. P × Pre w) m Done Stopped
Triple-given m h = record { at = λ w p. (h p.0).at w p.1 }

pub Ends-map :
    {W A : Type 0} {Done Done' : A → W → Type 0} {Stopped Stopped' : W → Type 0}
    (r : Result Stop A × W)
    → ((a : A) (w : W) → Done a w → Done' a w)
    → ((w : W) → Stopped w → Stopped' w)
    → Ends Done Stopped r
    → Ends Done' Stopped' r
Ends-map (ok a, w) f g h = f a w h
Ends-map (err e, w) f g h = g w h

-- A weaker postcondition.
pub Triple-map :
    {W A : Type 0} {Pre Stopped : W → Type 0} {Done Done' : A → W → Type 0} {m : App W A}
    → Triple Pre m Done Stopped
    → ((a : A) (w : W) → Done a w → Done' a w)
    → Triple Pre m Done' Stopped
Triple-map {m = m} h weaker = record { at = λ w p. Ends-map (m w) weaker (λ w' s. s) (h.at w p) }

pub Triple-lift :
    {W A : Type 0} {Pre Stopped : W → Type 0} (r : Result AppError A)
    → ((w : W) → Pre w → Stopped w)
    → Triple Pre (lift r) (λ a w. (r ≡ ok a) × Pre w) Stopped
unfolding lift pure raise
Triple-lift (ok a) h = record { at = λ w p. (refl, p) }
Triple-lift (err e) h = record { at = h }

module _ {W A B : Type 0} (f : A → B) where
  continue-pure :
      (r : Result Stop A) (w : W) {b : B}
      → (continue r (λ a. pure (f a)) w).0 ≡ ok b
      → (a : A) × (r ≡ ok a) × (f a ≡ b) × ((continue r (λ a. pure (f a)) w).1 ≡ w)
  unfolding pure
  continue-pure (ok a) w h = (a, refl, ground arith, refl)
  continue-pure (err e) w h = cc

  -- A last step that only computes: what the call before it gave, and the world that it left.
  pub bind-pure :
      (m : App W A) (w : W) {b : B}
      → ((m >>= λ a. pure (f a)) w).0 ≡ ok b
      → (a : A) × ((m w).0 ≡ ok a) × (f a ≡ b) × (((m >>= λ a. pure (f a)) w).1 ≡ (m w).1)
  unfolding ◌>>=◌
  bind-pure m w h = continue-pure (m w).0 (m w).1 h

module _ {W A B : Type 0} (f : A → App W B) where
  continue-ok :
      (r : Result Stop A) (w : W) {b : B}
      → (continue r f w).0 ≡ ok b
      → (a : A) × (r ≡ ok a) × ((f a w).0 ≡ ok b) × (continue r f w ≡ f a w)
  continue-ok (ok a) w h = (a, refl, h, refl)
  continue-ok (err e) w h = cc

  -- The steps of a bind that succeeds: what the first one gave, and the second one as the whole.
  pub bind-ok :
      (m : App W A) (w : W) {b : B}
      → ((m >>= f) w).0 ≡ ok b
      → (a : A) × ((m w).0 ≡ ok a) × ((f a (m w).1).0 ≡ ok b) × ((m >>= f) w ≡ f a (m w).1)
  unfolding ◌>>=◌
  bind-ok m w h = continue-ok (m w).0 (m w).1 h
