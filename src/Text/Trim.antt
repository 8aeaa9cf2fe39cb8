-- ===== src/Text/Trim.antt =====
-- Trimming.
use sitey.Prelude.{
  ℕ, ◌≡◌, refl, false, inl, inr, [], ◌∷◌, Bool-cases, All, if◌then◌else◌, is_empty, ◌&&◌,
}
use sitey.Text.{Text, is_space, trim_start, trim_end, trim}

-- The first character, if there is one, satisfies `P`.
abbrev pub HeadIs : (ℕ → Type 0) → Text → Type 0
HeadIs P [] = Unit
HeadIs P (c ∷ s) = P c

abbrev pub LastIs : (ℕ → Type 0) → Text → Type 0
LastIs P [] = Unit
LastIs P (c ∷ []) = P c
LastIs P (c ∷ d ∷ s) = LastIs P (d ∷ s)

abbrev pub Solid : ℕ → Type 0
Solid c = is_space c ≡ false

-- A text that `trim` leaves alone.
abbrev pub IsTrimmed : Text → Type 0
IsTrimmed s = HeadIs Solid s × LastIs Solid s

pub trim_start_of_HeadIs : (s : Text) → HeadIs Solid s → trim_start s ≡ s
unfolding trim_start
trim_start_of_HeadIs [] h = refl
trim_start_of_HeadIs (c ∷ s) h = rw h

pub trim_end_of_LastIs : (s : Text) → LastIs Solid s → trim_end s ≡ s
unfolding trim_end
trim_end_of_LastIs [] h = refl
trim_end_of_LastIs (c ∷ []) h = rw h
trim_end_of_LastIs (c ∷ d ∷ s) h = rw (trim_end_of_LastIs (d ∷ s) h)

pub trim_of_IsTrimmed : (s : Text) → IsTrimmed s → trim s ≡ s
unfolding trim
trim_of_IsTrimmed s h = rw (trim_start_of_HeadIs s h.0) (trim_end_of_LastIs s h.1)

trim_start-HeadIs : (s : Text) → HeadIs Solid (trim_start s)
unfolding trim_start
trim_start-HeadIs [] = tt
trim_start-HeadIs (c ∷ s) = elim (Bool-cases (is_space c)) [
  | inl e ↦ rw e (trim_start-HeadIs s)
  | inr e ↦ rw e e
]

All-LastIs : (P : ℕ → Type 0) (s : Text) → All P s → LastIs P s
All-LastIs P [] h = tt
All-LastIs P (c ∷ []) h = h.0
All-LastIs P (c ∷ d ∷ s) h = All-LastIs P (d ∷ s) h.1

All-HeadIs : (P : ℕ → Type 0) (s : Text) → All P s → HeadIs P s
All-HeadIs P [] h = tt
All-HeadIs P (c ∷ s) h = h.0

keep_solid : (c : ℕ) (rest : Text) → (if is_empty rest && false then [] else c ∷ rest) ≡ c ∷ rest
keep_solid c [] = refl
keep_solid c (d ∷ rest) = refl

trim_end-cons : (c : ℕ) (s : Text) → Solid c → trim_end (c ∷ s) ≡ c ∷ trim_end s
unfolding trim_end
trim_end-cons c s h = rw h (keep_solid c (trim_end s))

trim_end-HeadIs : (s : Text) → HeadIs Solid s → HeadIs Solid (trim_end s)
trim_end-HeadIs [] h = unfold trim_end in tt
trim_end-HeadIs (c ∷ s) h = rw (trim_end-cons c s h) h

keep_last :
    (c : ℕ) (s : Text)
    → LastIs Solid s
    → LastIs Solid (if is_empty s && is_space c then [] else c ∷ s)
keep_last c [] h = elim (Bool-cases (is_space c)) [ inl e ↦ rw e tt | inr e ↦ rw e e ]
keep_last c (d ∷ s) h = h

trim_end-LastIs : (s : Text) → LastIs Solid (trim_end s)
unfolding trim_end
trim_end-LastIs [] = tt
trim_end-LastIs (c ∷ s) = keep_last c (trim_end s) (trim_end-LastIs s)

-- What `trim` returns has no white space at either end.
pub trim-IsTrimmed : (s : Text) → IsTrimmed (trim s)
trim-IsTrimmed s =
    unfold trim in
    (trim_end-HeadIs (trim_start s) (trim_start-HeadIs s), trim_end-LastIs (trim_start s))

-- A text without white space is trimmed.
pub All-IsTrimmed : (s : Text) → All Solid s → IsTrimmed s
All-IsTrimmed s h = (All-HeadIs Solid s h, All-LastIs Solid s h)
