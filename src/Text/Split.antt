-- ===== src/Text/Split.antt =====
-- Splitting at a character and joining.
use sitey.Prelude.{
  ℕ, ◌≡◌, refl, ap, ◌∙◌, false, inl, inr, List, [], ◌∷◌, ◌++◌, arith, ◌==◌, Bool-cases, All,
  All-append,
}
use sitey.Text.{Text, split, join, extend, before, from_first}

-- The character `c` does not occur in the text.
abbrev pub Lacks : ℕ → Text → Type 0
Lacks c s = All (λ d. (d == c) ≡ false) s

module _ (c : ℕ) where
  pub before_of_Lacks : (w : Text) → Lacks c w → before c w ≡ w
  unfolding before
  before_of_Lacks [] h = refl
  before_of_Lacks (d ∷ w) h = rw (h.0, before_of_Lacks w h.1)

  pub from_first_of_Lacks : (w : Text) → Lacks c w → from_first c w ≡ []
  unfolding from_first
  from_first_of_Lacks [] h = refl
  from_first_of_Lacks (d ∷ w) h = rw h.0 (from_first_of_Lacks w h.1)

  pub before-append : (w s : Text) → Lacks c w → before c (w ++ c ∷ s) ≡ w
  unfolding before
  before-append [] s h = ground arith
  before-append (d ∷ w) s h = rw (h.0, before-append w s h.1)

  pub from_first-append : (w s : Text) → Lacks c w → from_first c (w ++ c ∷ s) ≡ c ∷ s
  unfolding from_first
  from_first-append [] s h = ground arith
  from_first-append (d ∷ w) s h = rw h.0 (from_first-append w s h.1)

  pub before-Lacks : (s : Text) → Lacks c (before c s)
  unfolding before
  before-Lacks [] = tt
  before-Lacks (d ∷ s) = elim (Bool-cases (d == c)) [
    | inl e ↦ rw e tt
    | inr e ↦ rw e (e, before-Lacks s)
  ]

  pub before-append-from_first : (s : Text) → before c s ++ from_first c s ≡ s
  unfolding before from_first
  before-append-from_first [] = refl
  before-append-from_first (d ∷ s) = ground (arith, before-append-from_first s)

  pub split_of_Lacks : (w : Text) → Lacks c w → split c w ≡ w ∷ []
  unfolding split
  split_of_Lacks [] h = refl
  split_of_Lacks (d ∷ w) h = rw (h.0, split_of_Lacks w h.1)

  pub split-append : (w s : Text) → Lacks c w → split c (w ++ c ∷ s) ≡ w ∷ split c s
  unfolding split
  split-append [] s h = ground arith
  split-append (d ∷ w) s h = rw (h.0, split-append w s h.1)

  -- Texts without the separator survive joining and splitting.
  pub split-join :
      (w : Text) (ws : List Text)
      → All (Lacks c) (w ∷ ws)
      → split c (join (c ∷ []) (w ∷ ws)) ≡ w ∷ ws
  unfolding join
  split-join w [] h = split_of_Lacks w h.0
  split-join w (v ∷ ws) h =
      split-append w (join (c ∷ []) (v ∷ ws)) h.0 ∙ ap (λ r. w ∷ r) (split-join v ws h.1)

  extend-All :
      (d : ℕ) (ws : List Text) → (d == c) ≡ false → All (Lacks c) ws → All (Lacks c) (extend d ws)
  extend-All d [] e h = ((e, tt), tt)
  extend-All d (w ∷ ws) e h = ((e, h.0), h.1)

  pub split-Lacks : (s : Text) → All (Lacks c) (split c s)
  unfolding split
  split-Lacks [] = (tt, tt)
  split-Lacks (d ∷ s) = elim (Bool-cases (d == c)) [
    | inl e ↦ rw e (tt, split-Lacks s)
    | inr e ↦ rw e (extend-All d (split c s) e (split-Lacks s))
  ]

join-extend : (sep : Text) (d : ℕ) (ws : List Text) → join sep (extend d ws) ≡ d ∷ join sep ws
unfolding join
join-extend sep d [] = refl
join-extend sep d (w ∷ []) = refl
join-extend sep d (w ∷ v ∷ ws) = refl

pub split_cons : (c : ℕ) (s : Text) → (w : Text) × (ws : List Text) × (split c s ≡ w ∷ ws)
unfolding split
split_cons c [] = ([], [], refl)
split_cons c (d ∷ s) = elim (Bool-cases (d == c)) [
  | inl e ↦ ([], split c s, rw e refl)
  | inr e ↦ let (w, ws, q) = split_cons c s in (d ∷ w, ws, rw (e, q) refl)
]

join-nil : (c : ℕ) (s : Text) → join (c ∷ []) ([] ∷ split c s) ≡ c ∷ join (c ∷ []) (split c s)
join-nil c s = let (w, ws, q) = split_cons c s in rw q (unfold join in refl)

-- Joining what was split gives the text back.
pub join-split : (c : ℕ) (s : Text) → join (c ∷ []) (split c s) ≡ s
unfolding split
join-split c [] = unfold join in refl
join-split c (d ∷ s) = elim (Bool-cases (d == c)) [
  | inl e ↦ rw e (join-nil c s ∙ rw (join-split c s) (ground arith))
  | inr e ↦ rw e (join-extend (c ∷ []) d (split c s) ∙ ap (λ t. d ∷ t) (join-split c s))
]

-- What holds of the parts and of the separator holds of the joined text.
pub join-All {κ} :
    (P : ℕ → Type κ) (sep : Text) (ws : List Text)
    → All P sep
    → All (All P) ws
    → All P (join sep ws)
unfolding join
join-All P sep [] hs h = tt
join-All P sep (w ∷ []) hs h = h.0
join-All P sep (w ∷ v ∷ ws) hs h =
    All-append P w (sep ++ join sep (v ∷ ws)) h.0
      (All-append P sep (join sep (v ∷ ws)) hs (join-All P sep (v ∷ ws) hs h.1))
