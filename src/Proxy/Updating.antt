-- ===== src/Proxy/Updating.antt =====
-- Which version the proxy answers with.
use shp.Base.{
  ℕ, ◌+◌, ◌%◌, ◌<◌, ◌≤◌, ◌≡◌, ◌⊎◌, inl, inr, refl, sym, ap, ap₂, subst, ◌∙◌, true, false,
  Bool-cases, Option, none, some, List, [], ◌∷◌, ◌++◌, length, replicate, ltb, done, arith,
  length-map, ◌-◌,
}
use shp.Memory.{IsU32, u32_mod, cells, le32, read_at}
use shp.Memory.Words.{length-le32, from_le32-le32}
use shp.Message.{
  Message, MessageId, message_id_code, FieldId, field_code, new_message, block,
  add_field_to_message,
}
use shp.Message.Fields.{Field, Represents, new_message-Represents}
use shp.Message.Build.{field_of, sizes, add_known, new_message-stamp}
use shp.Message.Get.{AreFields, Finds, value_of, get_field_from_message-value_of}
use shp.Proxy.Version.{
  Directory, strstr, gz, file_version, highest, get_update_file, version_of, version_answer,
}

-- A version that no file of the list is above.
abbrev pub AboveAll : ℕ → List (List ℕ) → Type 0
AboveAll v [] = Unit {0}
AboveAll v (name ∷ names) = ((strstr name gz ≡ false) ⊎ (file_version name ≤ v)) × AboveAll v names

-- A version that some file of the list has.
abbrev pub IsListed : ℕ → List (List ℕ) → Type 0
IsListed v [] = ⊥
IsListed v (name ∷ names) = ((strstr name gz ≡ true) × (file_version name ≡ v)) ⊎ IsListed v names

-- The highest version: not below the one to start from, nor below that of any file, and one of these.
abbrev pub IsHighest : ℕ → List (List ℕ) → ℕ → Type 0
IsHighest found names v = (found ≤ v) × AboveAll v names × ((v ≡ found) ⊎ IsListed v names)

highest-IsHighest :
    (found : ℕ) (names : List (List ℕ)) → IsHighest found names (highest found names)
unfolding highest
highest-IsHighest found [] = (omega arith, tt, inl refl)
highest-IsHighest found (name ∷ names) = elim (Bool-cases (strstr name gz)) [
  | inr skipped ↦
      let (above, all, from) = highest-IsHighest found names in
      let same : highest found (name ∷ names) ≡ highest found names = rw skipped in
      subst (IsHighest found (name ∷ names)) (sym same)
        (above, (inl skipped, all), elim from [ inl old ↦ inl old | inr listed ↦ inr (inr listed) ])
  | inl update ↦ elim (Bool-cases (ltb found (file_version name))) [
    | inl newer ↦
        let (above, all, from) = highest-IsHighest (file_version name) names in
        let up : found < file_version name = ground arith in
        let same : highest found (name ∷ names) ≡ highest (file_version name) names =
          rw (update, newer) in
        subst (IsHighest found (name ∷ names)) (sym same) (
          omega arith,
          (inr above, all),
          elim from [ inl old ↦ inr (inl (update, sym old)) | inr listed ↦ inr (inr listed) ],
        )
    | inr older ↦
        let (above, all, from) = highest-IsHighest found names in
        let up : file_version name ≤ found = ground arith in
        let same : highest found (name ∷ names) ≡ highest found names = rw (update, older) in
        subst (IsHighest found (name ∷ names)) (sym same) (
          above,
          (inr (omega arith), all),
          elim from [ inl old ↦ inl old | inr listed ↦ inr (inr listed) ],
        )
  ]
]

-- A directory that cannot be read has no files.
abbrev pub names_of : Option (List (List ℕ)) → List (List ℕ)
names_of none = []
names_of (some names) = names

-- The version that the proxy chooses is not below the client's, nor below that of any file with `.gz`
-- in its name, and it is the client's or that of such a file.
pub get_update_file-IsHighest :
    (d : Directory) (version : ℕ)
    → IsHighest version (names_of d.entries) (get_update_file d version)
unfolding get_update_file
get_update_file-IsHighest d version = on_entries d.entries
  where
    on_entries :
        (entries : Option (List (List ℕ)))
        → IsHighest version
            (names_of entries)
            (get_update_file (record d { entries = entries }) version)
    on_entries none = (omega arith, tt, inl refl)
    on_entries (some names) = highest-IsHighest version names

-- The id of such an answer, and no field, or the bytes of the file of a newer version.
abbrev pub Answers : Directory → ℕ → List ℕ → Message → Type 0
Answers d version bytes answer =
    (answer.message_id ≡ message_id_code MessageId.send_version_result)
    × (((get_update_file d version ≡ version) × Represents answer [])
        ⊎ ((version < get_update_file d version)
            × Represents answer (field_of FieldId.update_data (cells bytes) ∷ [])))

module _ (d : Directory) (m : Message) (fs : List Field) (r : Represents m fs)
    (wf : AreFields fs) where
  version_of-le32 :
      (version : ℕ)
      → IsU32 version
      → value_of (field_code FieldId.version) fs ≡ some (cells (le32 version))
      → version_of m ≡ done version
  unfolding version_of
  version_of-le32 version word there =
      let (place, found, reads, size) : Finds m FieldId.version (some (cells (le32 version))) =
        subst (Finds m FieldId.version) there
          (get_field_from_message-value_of m fs FieldId.version r wf) in
      let four : read_at (block m.raw_payload) place.offset 4 ≡ some (cells (le32 version)) =
        subst (λ n. read_at (block m.raw_payload) place.offset n ≡ some (cells (le32 version)))
          (size ∙ length-le32 version) reads in
      rw (found, four, from_le32-le32 version word)

  version_of_missing : value_of (field_code FieldId.version) fs ≡ none → version_of m ≡ done 0
  unfolding version_of
  version_of_missing there =
      let missing : Finds m FieldId.version none =
        subst (Finds m FieldId.version) there
          (get_field_from_message-value_of m fs FieldId.version r wf) in
      rw missing

  no_rest : (bytes : List ℕ) → length bytes - length bytes ≡ 0
  no_rest bytes = omega arith

  answers :
      (version : ℕ) (bytes : List ℕ)
      → version_of m ≡ done version
      → d.file (get_update_file d version) ≡ some (length bytes, bytes)
      → length bytes + 8 < u32_mod
      → (answer : Message) × (version_answer d m ≡ done answer) × Answers d version bytes answer
  unfolding version_answer sizes
  answers version bytes asks held small =
      elim (Bool-cases (ltb version (get_update_file d version))) [
        | inr newest ↦
            let (above, all, from) = get_update_file-IsHighest d version in
            (
              new_message MessageId.send_version_result,
              rw (asks, newest),
              (
                ap (λ p. p.0) (new_message-stamp MessageId.send_version_result),
                inl (ground arith, new_message-Represents MessageId.send_version_result),
              ),
            )
        | inl newer ↦
            let whole : length (cells bytes) ≡ length bytes = length-map some bytes in
            let (m1, e1, r1, s1) =
              add_known (new_message MessageId.send_version_result) [] FieldId.update_data
                (cells bytes) [] (new_message-Represents MessageId.send_version_result)
                (omega arith) in
            let sized : length bytes % u32_mod ≡ length (cells bytes) = omega (arith, whole) in
            let e1' =
              ap₂
                (λ k n.
                  add_field_to_message FieldId.update_data (cells bytes ++ replicate k none) n
                    (new_message MessageId.send_version_result))
                (no_rest bytes) sized
              ∙ e1 in
            (
              m1,
              rw (asks, newer, held, e1'),
              (
                ap (λ p. p.0) (s1 ∙ new_message-stamp MessageId.send_version_result),
                inr (ground arith, r1),
              ),
            )
      ]

  -- On a message with a version, where the file of the chosen version can be read whole, the answer
  -- has the id of such an answer. It has no field where no file is newer than the version, and the
  -- content of the chosen file where one is.
  pub version_answer-Answers :
      (version : ℕ) (bytes : List ℕ)
      → IsU32 version
      → value_of (field_code FieldId.version) fs ≡ some (cells (le32 version))
      → d.file (get_update_file d version) ≡ some (length bytes, bytes)
      → length bytes + 8 < u32_mod
      → (answer : Message) × (version_answer d m ≡ done answer) × Answers d version bytes answer
  version_answer-Answers version bytes word there =
      answers version bytes (version_of-le32 version word there)

  -- A message without a version is answered as one with version zero: with the newest file of all.
  pub version_answer_missing :
      (bytes : List ℕ)
      → value_of (field_code FieldId.version) fs ≡ none
      → d.file (get_update_file d 0) ≡ some (length bytes, bytes)
      → length bytes + 8 < u32_mod
      → (answer : Message) × (version_answer d m ≡ done answer) × Answers d 0 bytes answer
  version_answer_missing bytes there = answers 0 bytes (version_of_missing there)
