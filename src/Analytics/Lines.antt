-- ===== src/Analytics/Lines.antt =====
-- The lines of a log, and the requests that they hold.
use sitey.Prelude.{
  ◌≡◌, refl, ap, ◌==◌, Option, none, some, List, [], ◌∷◌, ◌++◌, Bool-cases, Option-cases, inl, inr,
  arith, append_assoc, ◌⊎◌,
}
use sitey.Text.Split.{Lacks}
use sitey.Analytics.{Request, Bytes}
use sitey.Analytics.Ingest.{Commit, flushed, saved, split_line, push_parsed}

-- What the lines are in a file: each is followed by a newline.
abbrev pub join_lines : List Bytes → Bytes
join_lines [] = []
join_lines (line ∷ lines) = line ++ b'\n' ∷ join_lines lines

pub join_lines-snoc :
    (lines : List Bytes) (line : Bytes)
    → join_lines (lines ++ line ∷ []) ≡ join_lines lines ++ (line ++ b'\n' ∷ [])
join_lines-snoc [] line = refl
join_lines-snoc (l ∷ lines) line = simp (join_lines-snoc lines line, append_assoc)

-- the requests that lines hold
abbrev pub parsed : (Bytes → Option Request) → List Bytes → List Request
parsed parse_line [] = []
parsed parse_line (line ∷ lines) = push_parsed [] (parse_line line) ++ parsed parse_line lines

pub parsed-snoc :
    (parse_line : Bytes → Option Request) (lines : List Bytes) (line : Bytes)
    → parsed parse_line (lines ++ line ∷ [])
      ≡ push_parsed (parsed parse_line lines) (parse_line line)
parsed-snoc parse_line [] line = elim (Option-cases (parse_line line)) [
  | inl e ↦ rw e refl
  | inr (r, e) ↦ rw e refl
]
parsed-snoc parse_line (l ∷ lines) line =
    let rest = parsed-snoc parse_line lines line in
    elim (Option-cases (parse_line line)) [
      | inl e ↦ simp (rest, e)
      | inr (r, e) ↦ simp (rest, e, append_assoc)
    ]

pub join_lines-append :
    (xs ys : List Bytes) → join_lines (xs ++ ys) ≡ join_lines xs ++ join_lines ys
join_lines-append [] ys = refl
join_lines-append (x ∷ xs) ys = simp (join_lines-append xs ys, append_assoc)

pub parsed-append :
    (parse_line : Bytes → Option Request) (xs ys : List Bytes)
    → parsed parse_line (xs ++ ys) ≡ parsed parse_line xs ++ parsed parse_line ys
parsed-append parse_line [] ys = refl
parsed-append parse_line (x ∷ xs) ys = simp (parsed-append parse_line xs ys, append_assoc)

-- the requests that have been flushed
abbrev pub flushed_rows : List Commit → List Request
flushed_rows [] = []
flushed_rows (flushed batch ∷ commits) = batch ++ flushed_rows commits
flushed_rows (saved identity offset ∷ commits) = flushed_rows commits

pub flushed_rows-append :
    (xs ys : List Commit) → flushed_rows (xs ++ ys) ≡ flushed_rows xs ++ flushed_rows ys
flushed_rows-append [] ys = refl
flushed_rows-append (flushed batch ∷ xs) ys = simp (flushed_rows-append xs ys, append_assoc)
flushed_rows-append (saved identity offset ∷ xs) ys = flushed_rows-append xs ys

-- There is no newline, or the first one ends a line.
pub split_line_cases :
    (s : Bytes)
    → ((split_line s ≡ none) × Lacks b'\n' s)
      ⊎ ((line : Bytes) × (rest : Bytes) × (split_line s ≡ some (line, rest))
          × (s ≡ line ++ b'\n' ∷ rest)
          × Lacks b'\n' line)
unfolding split_line
split_line_cases [] = inl (refl, tt)
split_line_cases (c ∷ s) = elim (Bool-cases (c == b'\n')) [
  | inl e ↦ let same : c ≡ b'\n' = ground arith in inr ([], s, rw e refl, ap (λ d. d ∷ s) same, tt)
  | inr e ↦ elim (split_line_cases s) [
    | inl (k, lacks) ↦ inl (rw (e, k) refl, (e, lacks))
    | inr (line, rest, k, at_s, lacks) ↦
        inr (c ∷ line, rest, rw (e, k) refl, ap (λ t. c ∷ t) at_s, (e, lacks))
  ]
]
