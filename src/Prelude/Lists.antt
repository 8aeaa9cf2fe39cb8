-- ===== src/Prelude/Lists.antt =====
-- Lists: lengths in native numbers, Boolean tests over a list, and the predicate `All`.
use Prim.Native.Nat.{ℕ, suc, ◌+◌}
use mathlib.Core.Path.{◌≡◌, refl}
use mathlib.Core.Logic.{◌↔◌, inl, inr}
use mathlib.Core.Bool.{Bool, true, false, ◌&&◌, ◌||◌}
use mathlib.Core.Option.{Option, none, some}
use mathlib.Core.List.{List, [], ◌∷◌, ◌++◌}
use native.Mathlib.Omega.{arith}
use sitey.Prelude.Tests.{if◌then◌else◌, Bool-cases}
use mathlib.Core.Logic.{Lift}
use mathlib.Core.Path.{subst}
use mathlib.Core.Logic.{◌⊎◌}
use mathlib.Core.Path.{sym}

module _ {ℓ} {A : Type ℓ} where
  abbrev pub length : List A → ℕ
  length [] = 0
  length (x ∷ xs) = suc (length xs)

  abbrev pub is_empty : List A → Bool
  is_empty [] = true
  is_empty (x ∷ xs) = false

  pub length-append : (xs ys : List A) → length (xs ++ ys) ≡ length xs + length ys
  length-append [] ys = omega arith
  length-append (x ∷ xs) ys = omega (arith, length-append xs ys)

module _ {ℓ} {A : Type ℓ} (p : A → Bool) where
  abbrev pub all : List A → Bool
  all [] = true
  all (x ∷ xs) = p x && all xs

  abbrev pub any : List A → Bool
  any [] = false
  any (x ∷ xs) = p x || any xs

  -- `xs.find(p)`
  abbrev pub find : List A → Option A
  find [] = none
  find (x ∷ xs) = if p x then some x else find xs

  -- `xs.filter(p)`
  abbrev pub keep : List A → List A
  keep [] = []
  keep (x ∷ xs) = let rest = keep xs in if p x then x ∷ rest else rest

module _ {ℓ κ} {A : Type ℓ} (P : A → Type κ) where
  abbrev pub All : List A → Type κ
  All [] = Unit
  All (x ∷ xs) = P x × All xs

  pub All-append : (xs ys : List A) → All xs → All ys → All (xs ++ ys)
  All-append [] ys h k = k
  All-append (x ∷ xs) ys h k = (h.0, All-append xs ys h.1 k)

  pub append-All : (xs ys : List A) → All (xs ++ ys) → All xs × All ys
  append-All [] ys h = (tt, h)
  append-All (x ∷ xs) ys h = let (a, b) = append-All xs ys h.1 in ((h.0, a), b)

  pub All-keep : (p : A → Bool) (xs : List A) → All xs → All (keep p xs)
  All-keep p [] h = tt
  All-keep p (x ∷ xs) h = elim (Bool-cases (p x)) [
    | inl e ↦ rw e (h.0, All-keep p xs h.1)
    | inr e ↦ rw e (All-keep p xs h.1)
  ]

module _ {ℓ} {A : Type ℓ} where
  -- What `all` tests holds of every element.
  pub all_iff : (p : A → Bool) (xs : List A) → (all p xs ≡ true) ↔ All (λ x. p x ≡ true) xs
  all_iff p [] = ((λ _. tt), (λ _. refl))
  all_iff p (x ∷ xs) =
      ((λ h. (ground arith, (all_iff p xs).0 (ground arith))), (λ h. rw h.0 ((all_iff p xs).1 h.1)))

  pub keep-append : (p : A → Bool) (xs ys : List A) → keep p (xs ++ ys) ≡ keep p xs ++ keep p ys
  keep-append p [] ys = refl
  keep-append p (x ∷ xs) ys = ground (arith, keep-append p xs ys)

  pub keep_of_All : (p : A → Bool) (xs : List A) → All (λ x. p x ≡ true) xs → keep p xs ≡ xs
  keep_of_All p [] h = refl
  keep_of_All p (x ∷ xs) h = rw (h.0, keep_of_All p xs h.1)

  pub find-some : (p : A → Bool) (xs : List A) (a : A) → find p xs ≡ some a → p a ≡ true
  find-some p (x ∷ xs) a h = ground (arith, find-some p xs a)
  find-some p [] a h = ground arith

  pub All-map {κ μ} :
      (P : A → Type κ) (Q : A → Type μ) (xs : List A) → ((x : A) → P x → Q x) → All P xs → All Q xs
  All-map P Q [] f h = tt
  All-map P Q (x ∷ xs) f h = (f x h.0, All-map P Q xs f h.1)

  pub any_none : (p : A → Bool) (xs : List A) → All (λ x. p x ≡ false) xs → any p xs ≡ false
  any_none p [] h = refl
  any_none p (x ∷ xs) h = rw h.0 (any_none p xs h.1)

  pub any-false : (p : A → Bool) (xs : List A) → any p xs ≡ false → All (λ x. p x ≡ false) xs
  any-false p [] h = tt
  any-false p (x ∷ xs) h = (ground arith, any-false p xs (ground arith))

  pub find-none : (p : A → Bool) (xs : List A) → find p xs ≡ none → All (λ x. p x ≡ false) xs
  find-none p [] h = tt
  find-none p (x ∷ xs) h = elim (Bool-cases (p x)) [
    | inl e ↦ absurd (ground arith)
    | inr e ↦ (e, find-none p xs (rw e at h))
  ]

  -- `a` is an element of the list.
  abbrev pub In : A → List A → Type ℓ
  In a [] = Lift ⊥
  In a (x ∷ xs) = (a ≡ x) ⊎ In a xs

  pub find-In : (p : A → Bool) (xs : List A) (a : A) → find p xs ≡ some a → In a xs
  find-In p [] a h = absurd (ground arith)
  find-In p (x ∷ xs) a h = elim (Bool-cases (p x)) [
    | inl e ↦ inl (ground arith)
    | inr e ↦ inr (find-In p xs a (rw e at h))
  ]

  pub All-In {κ} : (P : A → Type κ) (xs : List A) (a : A) → All P xs → In a xs → P a
  All-In P [] a h i = absurd i.lower
  All-In P (x ∷ xs) a h (inl e) = subst P (sym e) h.0
  All-In P (x ∷ xs) a h (inr i) = All-In P xs a h.1 i

module _ {ℓ} {A : Type ℓ} (R : A → A → Type 0) where
  -- Every element is related to every later one.
  abbrev pub Pairwise : List A → Type 0
  Pairwise [] = Unit
  Pairwise (x ∷ xs) = All (R x) xs × Pairwise xs

  pub Pairwise-append :
      (xs : List A) (y : A) → Pairwise xs → All (λ x. R x y) xs → Pairwise (xs ++ y ∷ [])
  Pairwise-append [] y h k = (tt, tt)
  Pairwise-append (x ∷ xs) y h k =
      (All-append (R x) xs (y ∷ []) h.0 (k.0, tt), Pairwise-append xs y h.1 k.1)

module _ {ℓ κ} {A : Type ℓ} (P : A → Type κ) where
  pub All-of_keep :
      (p : A → Bool) (xs : List A) → All P (keep p xs) → All (λ x. p x ≡ true → P x) xs
  All-of_keep p [] h = tt
  All-of_keep p (x ∷ xs) h = elim (Bool-cases (p x)) [
    | inl e ↦ let k = rw e at h in ((λ _. k.0), All-of_keep p xs k.1)
    | inr e ↦ ((λ t. absurd (ground arith)), All-of_keep p xs (rw e at h))
  ]

module _ {ℓ} {A : Type ℓ} where
  pub In-append : (xs : List A) (a : A) → In a (xs ++ a ∷ [])
  In-append [] a = inl refl
  In-append (x ∷ xs) a = inr (In-append xs a)

  pub In-append_left : (xs ys : List A) (a : A) → In a xs → In a (xs ++ ys)
  In-append_left [] ys a i = absurd i.lower
  In-append_left (x ∷ xs) ys a (inl e) = inl e
  In-append_left (x ∷ xs) ys a (inr i) = inr (In-append_left xs ys a i)

  -- The elements of `keep p xs` are those of `xs` that pass the test.
  pub In-keep : (p : A → Bool) (xs : List A) (a : A) → In a (keep p xs) → In a xs × (p a ≡ true)
  In-keep p [] a i = absurd i.lower
  In-keep p (x ∷ xs) a i = elim (Bool-cases (p x)) [
    | inr e ↦ let (k, t) = In-keep p xs a (rw e at i) in (inr k, t)
    | inl e ↦
        let i' : In a (x ∷ keep p xs) = rw e at i in
        elim i' [ inl k ↦ (inl k, rw k e) | inr k ↦ let (j, t) = In-keep p xs a k in (inr j, t) ]
  ]

  pub keep-In : (p : A → Bool) (xs : List A) (a : A) → In a xs → p a ≡ true → In a (keep p xs)
  keep-In p [] a i t = absurd i.lower
  keep-In p (x ∷ xs) a (inl k) t = let e : p x ≡ true = rw (← k) t in rw e (inl k)
  keep-In p (x ∷ xs) a (inr i) t = elim (Bool-cases (p x)) [
    | inl e ↦ rw e (inr (keep-In p xs a i t))
    | inr e ↦ rw e (keep-In p xs a i t)
  ]

  pub find-exists :
      (p : A → Bool) (xs : List A) (a : A)
      → In a xs
      → p a ≡ true
      → (b : A) × (find p xs ≡ some b) × In b xs × (p b ≡ true)
  find-exists p [] a i t = absurd i.lower
  find-exists p (x ∷ xs) a i t = elim (Bool-cases (p x)) [
    | inl e ↦ (x, rw e refl, inl refl, e)
    | inr e ↦ elim i [
      | inl k ↦ let t' : p x ≡ true = rw (← k) t in cc
      | inr j ↦ let (b, f, k, u) = find-exists p xs a j t in (b, rw e f, inr k, u)
    ]
  ]

  pub All-of_In {κ} : (P : A → Type κ) (xs : List A) → ((x : A) → In x xs → P x) → All P xs
  All-of_In P [] f = tt
  All-of_In P (x ∷ xs) f = (f x (inl refl), All-of_In P xs (λ y i. f y (inr i)))

  pub any-true : (p : A → Bool) (xs : List A) → any p xs ≡ true → (a : A) × In a xs × (p a ≡ true)
  any-true p [] h = absurd (ground arith)
  any-true p (x ∷ xs) h = elim (Bool-cases (p x)) [
    | inl e ↦ (x, inl refl, e)
    | inr e ↦ let (a, i, t) = any-true p xs (rw e at h) in (a, inr i, t)
  ]

  pub In-append_right : (xs ys : List A) (a : A) → In a ys → In a (xs ++ ys)
  In-append_right [] ys a i = i
  In-append_right (x ∷ xs) ys a i = inr (In-append_right xs ys a i)

  pub append-In : (xs ys : List A) (a : A) → In a (xs ++ ys) → In a xs ⊎ In a ys
  append-In [] ys a i = inr i
  append-In (x ∷ xs) ys a (inl e) = inl (inl e)
  append-In (x ∷ xs) ys a (inr i) = elim (append-In xs ys a i) [
    | inl j ↦ inl (inr j)
    | inr j ↦ inr j
  ]
