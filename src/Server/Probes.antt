-- ===== src/Server/Probes.antt =====
-- What the older server's table holds after any number of registrations, and what is lost.
use shp.Base.{
  ℕ, suc, ◌+◌, ◌≡◌, ◌⊎◌, refl, ap, ◌∙◌, pos, false, Bool-cases, ==_iff, inl, inr, Option, none,
  some, List, [], ◌∷◌, ◌==◌, if◌then◌else◌, length, arith,
}
use shp.Server.{ProbeClass, CoreClass, assign, held, new_core, register_probe}

-- A registration: an id, a name and a time.
pub record Registration : Type 0 where
  pub id : ℕ
  pub name : List ℕ
  pub time : ℕ

abbrev pub probe_of : Registration → ProbeClass
probe_of r = record { id = r.id; name = r.name; time = r.time; jitter = pos 0; payload = [] }

-- The table after some registrations, the last one first.
unfoldable pub run : List Registration → CoreClass
run [] = new_core
run (r ∷ rs) = (register_probe r.id r.name r.time (run rs)).1

-- The last registration with an id.
abbrev pub last_of : ℕ → List Registration → Option ProbeClass
last_of k [] = none
last_of k (r ∷ rs) = if k == r.id then some (probe_of r) else last_of k rs

module _ {ℓ} {A : Type ℓ} where
  held-assign_same : (k : ℕ) (v : A) (m : List (ℕ × A)) → held k (assign k v m) ≡ some v
  unfolding held assign
  held-assign_same k v [] = ground arith
  held-assign_same k v ((j, w) ∷ m) = elim (Bool-cases (k == j)) [
    | inl same ↦ rw (same, same)
    | inr other ↦ rw (other, other) (held-assign_same k v m)
  ]

  held-assign_other :
      (k j : ℕ) (v : A) (m : List (ℕ × A)) → (k == j) ≡ false → held k (assign j v m) ≡ held k m
  unfolding held assign
  held-assign_other k j v [] e = rw e
  held-assign_other k j v ((i, w) ∷ m) e = elim (Bool-cases (j == i)) [
    | inl same ↦ let off : (k == i) ≡ false = ground arith in rw (same, off)
    | inr other ↦ rw other (ap (λ r. if k == i then some w else r) (held-assign_other k j v m e))
  ]

  length-assign :
      (k : ℕ) (v : A) (m : List (ℕ × A))
      → ((held k m ≡ none) × (length (assign k v m) ≡ suc (length m)))
        ⊎ ((old : A) × (held k m ≡ some old) × (length (assign k v m) ≡ length m))
  unfolding held assign
  length-assign k v [] = inl (refl, refl)
  length-assign k v ((j, w) ∷ m) = elim (Bool-cases (k == j)) [
    | inl same ↦ inr (w, rw same, rw same)
    | inr other ↦ elim (length-assign k v m) [
      | inl (missing, size) ↦ inl (rw other missing, rw other (ap suc size))
      | inr (old, there, size) ↦ inr (old, rw other there, rw other (ap suc size))
    ]
  ]

held-register_probe :
    (r : Registration) (c : CoreClass) (k : ℕ)
    → held k (register_probe r.id r.name r.time c).1.probes
      ≡ (if k == r.id then some (probe_of r) else held k c.probes)
unfolding register_probe
held-register_probe r c k = elim (Bool-cases (k == r.id)) [
  | inl same ↦
      let here : k ≡ r.id = (==_iff k r.id).0 same in
      rw (same, here) (held-assign_same r.id (probe_of r) c.probes)
  | inr other ↦ rw other (held-assign_other k r.id (probe_of r) c.probes other)
]

-- A probe more in the table, or an object more that is lost.
size-register_probe :
    (r : Registration) (c : CoreClass)
    → length (register_probe r.id r.name r.time c).1.probes
        + length (register_probe r.id r.name r.time c).1.lost
      ≡ suc (length c.probes + length c.lost)
unfolding register_probe
size-register_probe r c = elim (length-assign r.id (probe_of r) c.probes) [
  | inl (missing, size) ↦ rw (register_probe, missing, size) (omega arith)
  | inr (old, there, size) ↦ rw (register_probe, there, size) (omega arith)
]

-- After any registrations the table holds, under each id, the last probe that was registered with it,
-- and every registration is either in the table or its object is lost: a registration with an id that is
-- there already replaces the object and never deletes the old one.
pub run-last_of :
    (rs : List Registration)
    → ((k : ℕ) → held k (run rs).probes ≡ last_of k rs)
      × (length (run rs).probes + length (run rs).lost ≡ length rs)
unfolding run new_core held
run-last_of [] = (λ k. refl, refl)
run-last_of (r ∷ rs) =
    let (holds, size) = run-last_of rs in
    (
      λ k.
          held-register_probe r (run rs) k
          ∙ ap (λ old. if k == r.id then some (probe_of r) else old) (holds k),
      size-register_probe r (run rs) ∙ ap suc size,
    )
