-- ===== src/OutputDir/Inside.antt =====
-- Where an output directory lies.
use sitey.Prelude.{
  ℕ, ◌≡◌, refl, sym, ap, ◌∙◌, true, false, not, ◌||◌, ◌==◌, List, [], ◌∷◌, ◌++◌, append-nil,
  append_assoc, any, any-false, All, Bool-cases, inl, inr, arith, if◌then◌else◌,
}
use sitey.Text.{Text, codes, text_eq, starts_with, split}
use sitey.OutputDir.{is_refused_char, is_valid_output_dir, is_output_dir}

-- the parts of a path without the last
abbrev pub parent : List Text → List Text
parent [] = []
parent (p ∷ []) = []
parent (p ∷ q ∷ parts) = p ∷ parent (q ∷ parts)

-- from a directory to what one part of a path names
abbrev pub enter : List Text → Text → List Text
enter at part =
    if text_eq part (codes "..")
    then parent at
    else if text_eq part [] || text_eq part (codes ".")
    then at
    else at ++ part ∷ []

-- Where the parts of a path lead from a directory, as a file system reads them.
abbrev pub walk : List Text → List Text → List Text
walk at [] = at
walk at (part ∷ parts) = walk (enter at part) parts

walk-append : (xs ys at : List Text) → walk at (xs ++ ys) ≡ walk (walk at xs) ys
walk-append [] ys at = refl
walk-append (x ∷ xs) ys at = walk-append xs ys (enter at x)

split_first : (c : ℕ) (s : Text) → (w : Text) × (ws : List Text) × (split c s ≡ w ∷ ws)
unfolding split
split_first c [] = ([], [], refl)
split_first c (d ∷ s) =
    let (w, ws, k) = split_first c s in
    elim (Bool-cases (d == c)) [
      | inl e ↦ ([], split c s, rw e refl)
      | inr e ↦ (d ∷ w, ws, rw (e, k) refl)
    ]

split_at : (c : ℕ) (s t : Text) → split c (s ++ c ∷ t) ≡ split c s ++ split c t
unfolding split
split_at c [] t = ground arith
split_at c (d ∷ s) t =
    let rest = split_at c s t in
    let (w, ws, k) = split_first c s in
    elim (Bool-cases (d == c)) [ inl e ↦ rw (e, rest) refl | inr e ↦ rw (e, rest, k) refl ]

-- Without `..` a path leads below the directory where it starts.
walk-below :
    (at parts : List Text)
    → All (λ part. text_eq part (codes "..") ≡ false) parts
    → (below : List Text) × (walk at parts ≡ at ++ below)
walk-below at [] h = ([], sym (append-nil at))
walk-below at (part ∷ parts) h = elim (Bool-cases (text_eq part [] || text_eq part (codes "."))) [
  | inl e ↦ let (below, k) = walk-below at parts h.1 in (below, rw (h.0, e) k)
  | inr e ↦
      let (below, k) = walk-below (at ++ part ∷ []) parts h.1 in
      (part ∷ below, rw (h.0, e) (k ∙ append_assoc at (part ∷ []) below))
]

valid-parts :
    (dir : Text)
    → is_valid_output_dir dir ≡ true
    → All (λ c. is_refused_char c ≡ false) dir
      × All (λ part. text_eq part (codes "..") ≡ false) (split b'/' dir)
unfolding is_valid_output_dir split
valid-parts [] h = (tt, (refl, tt))
valid-parts (c ∷ s) h = elim (Bool-cases (any is_refused_char (c ∷ s))) [
  | inl e ↦ let h' : false ≡ true = rw e at h in absurd (ground arith)
  | inr e ↦ elim (Bool-cases (starts_with (c ∷ s) (codes "/"))) [
    | inl k ↦ let h' : false ≡ true = rw (e, k) at h in absurd (ground arith)
    | inr k ↦
        let h' : not (any (λ part. text_eq part (codes "..")) (split b'/' (c ∷ s))) ≡ true =
          rw (e, k) at h in
        (
          any-false is_refused_char (c ∷ s) e,
          any-false (λ part. text_eq part (codes "..")) (split b'/' (c ∷ s)) (ground arith),
        )
  ]
]

-- Whatever the path of the repository is, an output directory that the schema accepts leads from it to a directory
-- at or below it, and has no character that would end the quoted token of the Caddyfile or be expanded there.
pub is_output_dir-below :
    (repo dir : Text)
    → is_output_dir dir ≡ true
    → (below : List Text) × (walk [] (split b'/' (repo ++ b'/' ∷ dir))
        ≡ walk [] (split b'/' repo) ++ below)
      × All (λ c. is_refused_char c ≡ false) dir
unfolding is_output_dir
is_output_dir-below repo dir h =
    let (plain, inside) = valid-parts dir (ground arith) in
    let (below, k) = walk-below (walk [] (split b'/' repo)) (split b'/' dir) inside in
    (
      below,
      ap (walk []) (split_at b'/' repo dir)
          ∙ (walk-append (split b'/' repo) (split b'/' dir) [] ∙ k),
      plain,
    )
