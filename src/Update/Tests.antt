-- ===== src/Update/Tests.antt =====
-- The theorem at a concrete input.
use shp.Base.{
  ℕ, ◌≡◌, refl, Bool, true, ◌&&◌, ◌==◌, ltb, negsuc, if◌then◌else◌, pos, List, [], ◌∷◌, ◌++◌,
  length, take, drop, done, some, arith,
}
use shp.Memory.{cells}
use shp.Update.{Files, Zlib, Ended, process_update}
use shp.Update.Unpacking.{Unpacks, IsRoomy, process_update_unpacks}

abbrev program : List ℕ
program = 127 ∷ 69 ∷ 76 ∷ 70 ∷ []

-- Unpacks an input that starts like a file of gzip to the same four bytes, fails on any other, and has
-- no progress to make without room.
abbrev four_bytes : Zlib
four_bytes = record {
  Stream = Bool × List ℕ;
  inflate_init = λ source. some (length source == 2, program);
  inflate = λ n s. ((if s.0 && ltb 0 n then pos 0 else negsuc 4, take n s.1), (s.0, drop n s.1));
}

four_bytes-Unpacks : Unpacks four_bytes
four_bytes-Unpacks = record {
  IsComplete = λ s. s.0 ≡ true;
  output = λ s. s.1;
  writes = λ n s complete room. refl;
  leaves = λ n s complete room. refl;
  stays = λ n s complete room. complete;
  succeeds = λ n s complete room. ground (arith, complete);
}

abbrev one_file : Files (List ℕ)
one_file = record {
  open_new = λ w. (true, []);
  write = λ buffer w. (length buffer, w ++ buffer);
  close_new = λ w. w;
}

one_file-IsRoomy : IsRoomy one_file
one_file-IsRoomy = record {
  content = λ w. w;
  writes_all = λ buffer w. refl;
  appends = λ buffer w. refl;
  opens = λ w. (refl, refl);
  closes = λ w. refl;
}

process_update_unpacks_example :
    (w' : List ℕ) × (process_update one_file four_bytes 1 (cells (31 ∷ 139 ∷ [])) (1 ∷ [])
      ≡ done (Ended.exited, w'))
    × (w' ≡ program)
unfolding one_file-IsRoomy four_bytes-Unpacks
process_update_unpacks_example =
    process_update_unpacks one_file four_bytes one_file-IsRoomy four_bytes-Unpacks 1
      (cells (31 ∷ 139 ∷ [])) (true, program) (1 ∷ []) refl refl (omega arith)
