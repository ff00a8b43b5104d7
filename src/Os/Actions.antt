-- ===== src/Os/Actions.antt =====
-- Code that acts on a state, and may fault.
use shp.Base.{Exec, done, Option, if◌then◌else◌}
use shp.Base
use shp.ErrorCodes.{ErrorCode, is_ok}

abbrev pub Io : Type 0 → Type 0 → Type 0
Io W A = W → Exec (A × W)

module _ {W : Type 0} where
  abbrev pub pure : {A : Type 0} → A → Io W A
  pure a w = done (a, w)

  infixl 5 ◌>>=◌ ◌>>◌
  abbrev pub ◌>>=◌ : {A B : Type 0} → Io W A → (A → Io W B) → Io W B
  ◌>>=◌ m f w = Base.◌>>=◌ (m w) (λ r. f r.0 r.1)

  abbrev pub ◌>>◌ : {A B : Type 0} → Io W A → Io W B → Io W B
  m >> k = m >>= λ _. k

  -- A system call.
  abbrev pub call : {A : Type 0} → (W → A × W) → Io W A
  call f w = done (f w)

  -- Code that does not look at the state.
  abbrev pub lift : {A : Type 0} → Exec A → Io W A
  lift e w = Base.◌>>=◌ e (λ a. done (a, w))

  -- `if (result == RESULT_OK) { result = ...; }`
  abbrev pub when_ok : ErrorCode → Io W ErrorCode → Io W ErrorCode
  when_ok result next = if is_ok result then next else pure result
