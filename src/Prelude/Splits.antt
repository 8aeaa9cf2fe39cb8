-- ===== src/Prelude/Splits.antt =====
-- Lists split in two.
use Prim.Native.Nat.{ℕ, suc}
use mathlib.Core.Path.{◌≡◌, refl, ap}
use mathlib.Core.List.{List, [], ◌∷◌, ◌++◌}
use native.Mathlib.Omega.{arith}
use sitey.Prelude.Lists.{length}

module _ {ℓ} {A : Type ℓ} where
  abbrev pub take : ℕ → List A → List A
  take ℕ.zero xs = []
  take (suc n) [] = []
  take (suc n) (x ∷ xs) = x ∷ take n xs

  abbrev pub drop : ℕ → List A → List A
  drop ℕ.zero xs = xs
  drop (suc n) [] = []
  drop (suc n) (x ∷ xs) = drop n xs

  -- Of two ways to split a list, those whose first parts have one length have one second part.
  pub append-cancel : (xs ys zs ws : List A) → length xs ≡ length ys → xs ++ zs ≡ ys ++ ws → zs ≡ ws
  append-cancel [] [] zs ws n e = e
  append-cancel [] (y ∷ ys) zs ws n e = absurd (omega (arith, n))
  append-cancel (x ∷ xs) [] zs ws n e = absurd (omega (arith, n))
  append-cancel (x ∷ xs) (y ∷ ys) zs ws n e =
      append-cancel xs ys zs ws (omega (arith, n)) (ap tail_of e)
    where
      tail_of : List A → List A
      tail_of [] = []
      tail_of (_ ∷ t) = t

  pub length-zero : (xs : List A) → length xs ≡ 0 → xs ≡ []
  length-zero [] e = refl
  length-zero (x ∷ xs) e = absurd (omega (arith, e))
