-- ===== src/Text/Equal.antt =====
-- Comparing texts.
use sitey.Prelude.{◌≡◌, refl, true, false, ◌↔◌, ◌≢◌, inl, inr, [], ◌∷◌, ◌++◌, arith, Bool-cases}
use sitey.Text.{Text, text_eq, starts_with}

pub text_eq→eq : (s t : Text) → text_eq s t ≡ true → s ≡ t
text_eq→eq [] [] h = refl
text_eq→eq [] (d ∷ t) h = ground arith
text_eq→eq (c ∷ s) [] h = ground arith
text_eq→eq (c ∷ s) (d ∷ t) h = ground (arith, text_eq→eq s t)

pub text_eq_self : (s : Text) → text_eq s s ≡ true
text_eq_self [] = refl
text_eq_self (c ∷ s) = ground (arith, text_eq_self s)

-- The test decides equality.
pub text_eq_iff : (s t : Text) → (text_eq s t ≡ true) ↔ (s ≡ t)
text_eq_iff s t = (text_eq→eq s t, (λ e. rw e (text_eq_self t)))

pub text_eq-false : (s t : Text) → s ≢ t → text_eq s t ≡ false
text_eq-false s t ne = elim (Bool-cases (text_eq s t)) [
  | inl e ↦ absurd (ne (text_eq→eq s t e))
  | inr e ↦ e
]

pub starts_with-append : (p s : Text) → starts_with (p ++ s) p ≡ true
starts_with-append [] s = refl
starts_with-append (c ∷ p) s = ground (arith, starts_with-append p s)

pub starts_with-nil : (s : Text) → starts_with s [] ≡ true
starts_with-nil [] = refl
starts_with-nil (c ∷ s) = refl

pub starts_with_sound : (s p : Text) → starts_with s p ≡ true → (r : Text) × (s ≡ p ++ r)
starts_with_sound s [] h = (s, refl)
starts_with_sound [] (d ∷ p) h = absurd (ground arith)
starts_with_sound (c ∷ s) (d ∷ p) h =
    let (r, e) = starts_with_sound s p (ground arith) in (r, ground (arith, e))
