-- ===== src/Mode/Names.antt =====
-- The names of the modes: mode_to_string and string_to_mode.
use anolis.Base.{◌≡◌, ◌↔◌, refl, some, arith, Text, codes, text_eq_iff}
use anolis.Mode.{RuntimeMode, manual, auto, idle, fault, mode_to_string, string_to_mode}

string_to_mode-mode_to_string : (m : RuntimeMode) → string_to_mode (mode_to_string m) ≡ some m
unfolding string_to_mode mode_to_string
string_to_mode-mode_to_string manual = refl
string_to_mode-mode_to_string auto = refl
string_to_mode-mode_to_string idle = refl
string_to_mode-mode_to_string fault = refl

string_to_mode_strict :
    (str : Text) (m : RuntimeMode) → string_to_mode str ≡ some m → str ≡ mode_to_string m
unfolding string_to_mode mode_to_string
string_to_mode_strict str m e = ground (
  arith,
  text_eq_iff str (codes "MANUAL"),
  text_eq_iff str (codes "AUTO"),
  text_eq_iff str (codes "IDLE"),
  text_eq_iff str (codes "FAULT"),
)

-- string_to_mode reads exactly the four names that mode_to_string writes, each as its mode.
pub string_to_mode_exact :
    (str : Text) (m : RuntimeMode) → (string_to_mode str ≡ some m) ↔ (str ≡ mode_to_string m)
string_to_mode_exact str m =
    (string_to_mode_strict str m, λ e. rw e (string_to_mode-mode_to_string m))
