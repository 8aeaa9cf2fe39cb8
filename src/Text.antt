-- ===== src/Text.antt =====
-- The operations of JavaScript's `String` that the program calls. A text is the list of its UTF-16
-- code units, which is what `s[i]`, `slice`, `split` and the regular expressions count.
-- `toLowerCase` is written out for the letters A-Z and for the Kelvin sign (U+212A, whose lower case
-- is "k"); other characters stay as they are. All tests that the program makes on a lower-cased text
-- are about ASCII, and no other character has a lower case that is all ASCII.
pub mod Trim
pub mod Ends
pub mod Split
pub mod Equal
use Prim.Native.Char.{code}
use Prim.Native.String.{String}
use mathlib.Core.List.{reverse}
use sitey.Prelude.{
  ℕ, ◌+◌, Bool, true, false, not, ◌&&◌, ◌||◌, Option, none, some, List, [], ◌∷◌, ◌++◌, map, ltb,
  leb, ◌==◌, if◌then◌else◌, is_empty, all, any,
}

abbrev pub Text : Type 0
Text = List ℕ

-- A literal of the source, all of which are ASCII.
abbrev pub codes : String → Text
codes String.[] = []
codes (String.◌∷◌ c s) = code c ∷ codes s

-- `s === t`
abbrev pub text_eq : Text → Text → Bool
text_eq [] [] = true
text_eq [] (d ∷ t) = false
text_eq (c ∷ s) [] = false
text_eq (c ∷ s) (d ∷ t) = c == d && text_eq s t

-- `s.startsWith(prefix)`
abbrev pub starts_with : Text → Text → Bool
starts_with s [] = true
starts_with [] (p ∷ prefix) = false
starts_with (c ∷ s) (p ∷ prefix) = c == p && starts_with s prefix

-- `s.endsWith(suffix)`
abbrev pub ends_with : Text → Text → Bool
ends_with s suffix = starts_with (reverse s) (reverse suffix)

-- `s.includes(c)` for one character
abbrev pub includes : Text → ℕ → Bool
includes s c = any (λ d. d == c) s

-- The last character of a text satisfies `p`; false for "".
abbrev pub last_is : (ℕ → Bool) → Text → Bool
last_is p [] = false
last_is p (c ∷ []) = p c
last_is p (c ∷ d ∷ s) = last_is p (d ∷ s)

-- `\s` and what `trim` removes: WhiteSpace and LineTerminator of ECMAScript
unfoldable pub is_space : ℕ → Bool
is_space c =
    (leb 9 c && leb c 13)
    || c == 32
    || c == 0xa0
    || c == 0x1680
    || (leb 0x2000 c && leb c 0x200a)
    || c == 0x2028
    || c == 0x2029
    || c == 0x202f
    || c == 0x205f
    || c == 0x3000
    || c == 0xfeff

-- `s.trimStart()`
pub trim_start : Text → Text
trim_start [] = []
trim_start (c ∷ s) = if is_space c then trim_start s else c ∷ s

-- `s.trimEnd()`
pub trim_end : Text → Text
trim_end [] = []
trim_end (c ∷ s) = let rest = trim_end s in if is_empty rest && is_space c then [] else c ∷ rest

-- `s.trim()`
unfoldable pub trim : Text → Text
unfolding trim_start trim_end is_space
trim s = trim_end (trim_start s)

unfoldable pub is_upper : ℕ → Bool
is_upper c = leb b'A' c && leb c b'Z'

unfoldable pub is_lower : ℕ → Bool
is_lower c = leb b'a' c && leb c b'z'

unfoldable pub is_digit : ℕ → Bool
is_digit c = leb b'0' c && leb c b'9'

unfoldable pub lower : ℕ → ℕ
unfolding is_upper
lower c = if is_upper c then c + 32 else if c == 0x212a then b'k' else c

-- `s.toLowerCase()`
abbrev pub to_lower_case : Text → Text
to_lower_case s = map lower s

-- `s.slice(0, s.indexOf(c))`, and all of `s` where `indexOf` is -1
unfoldable pub before : ℕ → Text → Text
before c [] = []
before c (d ∷ s) = if d == c then [] else d ∷ before c s

-- `s.slice(s.indexOf(c))`, and "" where `indexOf` is -1
unfoldable pub from_first : ℕ → Text → Text
from_first c [] = []
from_first c (d ∷ s) = if d == c then d ∷ s else from_first c s

-- `s.slice(n)`
abbrev pub slice : ℕ → Text → Text
slice ℕ.zero s = s
slice (ℕ.suc n) [] = []
slice (ℕ.suc n) (c ∷ s) = slice n s

abbrev extend : ℕ → List Text → List Text
extend c [] = (c ∷ []) ∷ []
extend c (w ∷ ws) = (c ∷ w) ∷ ws

-- `s.split(c)` for one character
unfoldable pub split : ℕ → Text → List Text
split c [] = [] ∷ []
split c (d ∷ s) = let rest = split c s in if d == c then [] ∷ rest else extend d rest

-- `parts.join(sep)`
unfoldable pub join : Text → List Text → Text
join sep [] = []
join sep (w ∷ []) = w
join sep (w ∷ v ∷ ws) = w ++ (sep ++ join sep (v ∷ ws))

-- `s.replace(/\.$/, "")`
unfoldable pub drop_final_dot : Text → Text
drop_final_dot [] = []
drop_final_dot (c ∷ []) = if c == b'.' then [] else c ∷ []
drop_final_dot (c ∷ d ∷ s) = c ∷ drop_final_dot (d ∷ s)

-- the text without its last character
unfoldable pub drop_last : Text → Text
drop_last [] = []
drop_last (c ∷ []) = []
drop_last (c ∷ d ∷ s) = c ∷ drop_last (d ∷ s)

-- `s.slice(1, -1)`
abbrev pub inner : Text → Text
inner s = drop_last (slice 1 s)
