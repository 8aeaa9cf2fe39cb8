-- ===== src/OutputDir.antt =====
-- server/src/lib/outputDir.ts: the output directory of a static service.
pub mod Inside
mod Tests
use sitey.Prelude.{
  ℕ, ltb, leb, Bool, true, false, not, ◌&&◌, ◌||◌, ◌==◌, [], ◌∷◌, any, length, if◌then◌else◌,
}
use sitey.Text.{Text, codes, text_eq, starts_with, split}

abbrev pub output_dir_max_length : ℕ
output_dir_max_length = 200

-- `/["\\{}\x00-\x1f\x7f]/`
unfoldable pub is_refused_char : ℕ → Bool
is_refused_char c = c == b'"' || c == b'\\' || c == b'{' || c == b'}' || leb c 31 || c == 127

-- isValidOutputDir
unfoldable pub is_valid_output_dir : Text → Bool
is_valid_output_dir [] = true
is_valid_output_dir (c ∷ s) =
    if any is_refused_char (c ∷ s)
    then false
    else if starts_with (c ∷ s) (codes "/")
    then false
    else not (any (λ part. text_eq part (codes "..")) (split b'/' (c ∷ s)))

-- what outputDirSchema accepts
unfoldable pub is_output_dir : Text → Bool
is_output_dir dir = leb (length dir) output_dir_max_length && is_valid_output_dir dir
