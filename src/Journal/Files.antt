-- ===== src/Journal/Files.antt =====
-- The two files of core/runs/run_journal.cpp as bytes: what std::getline reads of one, what an append
-- writes, and how an append can end. A write that fails leaves a part of its bytes in the file.
use anolis.Base.{
  ℕ, Bool, true, false, not, Option, none, some, List, [], ◌∷◌, ◌++◌, if◌then◌else◌, eqb, take,
  Text, is_none,
}

abbrev pub add_to_first : ℕ → List Text → List Text
add_to_first x [] = (x ∷ []) ∷ []
add_to_first x (l ∷ ls) = (x ∷ l) ∷ ls

-- The lines of a file, the last one also where no newline ends it.
unfoldable pub lines : Text → List Text
lines [] = []
lines (x ∷ s) = if eqb x 10 then [] ∷ lines s else add_to_first x (lines s)

-- The last byte is there and is no newline.
unfoldable pub ends_without_newline : Text → Bool
ends_without_newline [] = false
ends_without_newline (x ∷ []) = not (eqb x 10)
ends_without_newline (x ∷ y ∷ s) = ends_without_newline (y ∷ s)

-- A file that is not there reads as an empty one.
abbrev pub contents : Option Text → Text
contents none = []
contents (some s) = s

-- The bytes of one append: a newline after a torn line, the record and its newline.
unfoldable pub appended : Text → Text → Text
unfolding ends_without_newline
appended file line = (if ends_without_newline file then 10 ∷ [] else []) ++ (line ++ 10 ∷ [])

pub data WriteEnd : Type 0 where
  written cannot_open not_synced directory_not_synced : WriteEnd
  cut_off : ℕ → WriteEnd

-- The file after it, whether the line is in it as the writer knows, and whether it is synced as well.
pub record Append : Type 0 where
  pub file : Option Text
  pub is_written : Bool
  pub is_synced : Bool

unfoldable pub append_line : Option Text → Text → WriteEnd → Append
unfolding appended
append_line file line cannot_open = record { file = file; is_written = false; is_synced = false }
append_line file line (cut_off n) = record {
  file = some (contents file ++ take n (appended (contents file) line));
  is_written = false;
  is_synced = false;
}
append_line file line written = record {
  file = some (contents file ++ appended (contents file) line);
  is_written = true;
  is_synced = true;
}
append_line file line not_synced = record {
  file = some (contents file ++ appended (contents file) line);
  is_written = true;
  is_synced = false;
}
append_line file line directory_not_synced = record {
  file = some (contents file ++ appended (contents file) line);
  is_written = true;
  is_synced = not (is_none file);
}
