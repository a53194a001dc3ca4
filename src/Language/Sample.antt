-- ===== src/Language/Sample.antt =====
-- A language for the examples: ASCII lower case, decimal numbers.
use headtower.Prelude.{
  ℕ, ◌+◌, false, Text, Num, nan, ratio, is_digits, decimal, if◌then◌else◌, leb, ◌&&◌, map, show,
}
use headtower.Language.{Language}

unfoldable pub lower_unit : ℕ → ℕ
lower_unit c = if leb b'A' c && leb c b'Z' then c + 32 else c

unfoldable pub read_number : Text → Num
read_number s = if is_digits s then ratio false (decimal s) 1 else nan

unfoldable pub sample : Language
unfolding lower_unit read_number
sample = record {
  lower = map lower_unit;
  number = read_number;
  show_double = show;
  show_inherited = λ name. name;
}
