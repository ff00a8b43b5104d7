-- ===== src/Os/Ends.antt =====
-- Code that comes to an end without undefined behaviour, from every state.
use shp.Base.{◌≡◌, done}
use shp.Os.Actions.{Io}

abbrev pub Ends : {W A : Type 0} → Io W A → Type 0
Ends {W} {A} m = (w : W) → (r : A × W) × (m w ≡ done r)
