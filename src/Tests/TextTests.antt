-- ===== src/Tests/TextTests.antt =====
-- The theorems on the patch of a file and on the edit distance, on small inputs.
use velix.Prelude.{ℕ, ◌≤◌, none, true, codes}
use velix.Distance.{edit_distance}
use velix.Distance.Scripts.{Script, edit_distance-least}
use velix.Patch.{TempFile, patch_file}
use velix.Patch.Unique.{Promise, patch_file-Promise}

edit_distance-least_example :
    Script (codes "Main.cpp") (codes "man.hpp") (edit_distance (codes "Main.cpp") (codes "man.hpp"))
    × ((n : ℕ)
        → Script (codes "Main.cpp") (codes "man.hpp") n
        → edit_distance (codes "Main.cpp") (codes "man.hpp") ≤ n)
edit_distance-least_example = edit_distance-least (codes "Main.cpp") (codes "man.hpp")

-- A file that takes a hundred bytes.
abbrev temp_file : TempFile
temp_file = record {
  name = codes "a.tmp";
  create_directories = none;
  opens = true;
  takes = true;
  kept = 100;
  rename = none;
}

patch_file-Promise_example :
    Promise temp_file
      (codes "one")
      (codes "two")
      (codes "is one.")
      (patch_file temp_file (codes "one") (codes "two") (codes "is one."))
patch_file-Promise_example =
    patch_file-Promise temp_file (codes "one") (codes "two") (codes "is one.")
