-- ===== src/Text/Ends.antt =====
-- The first and the last characters of joined texts.
use sitey.Prelude.{ℕ, ◌≡◌, refl, Bool, true, [], ◌∷◌, ◌++◌, arith, All}
use sitey.Text.{Text, last_is, drop_last, slice}
use sitey.Text.Trim.{LastIs}

module _ (p : ℕ → Bool) where
  pub last_is-cons : (c : ℕ) (s : Text) → last_is p s ≡ true → last_is p (c ∷ s) ≡ true
  last_is-cons c [] h = ground arith
  last_is-cons c (d ∷ s) h = h

  pub last_is-append : (s t : Text) → last_is p t ≡ true → last_is p (s ++ t) ≡ true
  last_is-append [] t h = h
  last_is-append (c ∷ s) t h = last_is-cons c (s ++ t) (last_is-append s t h)

module _ (P : ℕ → Type 0) where
  LastIs-cons : (c d : ℕ) (s : Text) → LastIs P (d ∷ s) → LastIs P (c ∷ d ∷ s)
  LastIs-cons c d s h = h

  pub LastIs-append : (s : Text) (c : ℕ) (t : Text) → LastIs P (c ∷ t) → LastIs P (s ++ c ∷ t)
  LastIs-append [] c t h = h
  LastIs-append (d ∷ []) c t h = h
  LastIs-append (d ∷ e ∷ s) c t h = LastIs-append (e ∷ s) c t h

  pub LastIs-of_cons : (c : ℕ) (s : Text) → P c → LastIs P s → LastIs P (c ∷ s)
  LastIs-of_cons c [] p h = p
  LastIs-of_cons c (d ∷ s) p h = h

  pub All-slice : (n : ℕ) (s : Text) → All P s → All P (slice n s)
  All-slice ℕ.zero s h = h
  All-slice (ℕ.suc n) [] h = tt
  All-slice (ℕ.suc n) (c ∷ s) h = All-slice n s h.1

pub drop_last-append : (s : Text) (c : ℕ) → drop_last (s ++ c ∷ []) ≡ s
unfolding drop_last
drop_last-append [] c = refl
drop_last-append (d ∷ []) c = refl
drop_last-append (d ∷ e ∷ s) c = rw (drop_last-append (e ∷ s) c) refl
