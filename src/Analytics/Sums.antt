-- ===== src/Analytics/Sums.antt =====
-- Sums over requests, and what a table holds at a key.
use sitey.Prelude.{
  ℕ, ◌+◌, ◌≡◌, refl, ap, ◌∙◌, Bool, true, false, not, List, [], ◌∷◌, ◌++◌, if◌then◌else◌,
  Bool-cases, inl, inr, arith, keep, sym, ◌≤◌, ltb,
}
use sitey.Analytics.{Request}
use sitey.Analytics.Store.{Counter, Period, upsert, same_period, same_service}

-- A sum over the requests that a test picks.
abbrev pub sum_of : (Request → ℕ) → (Request → Bool) → List Request → ℕ
sum_of weight p [] = 0
sum_of weight p (r ∷ rows) = (if p r then weight r else 0) + sum_of weight p rows

pub sum_of-append :
    (weight : Request → ℕ) (p : Request → Bool) (xs ys : List Request)
    → sum_of weight p (xs ++ ys) ≡ sum_of weight p xs + sum_of weight p ys
sum_of-append weight p [] ys = omega arith
sum_of-append weight p (r ∷ xs) ys = omega (arith, sum_of-append weight p xs ys)

module _ {K V : Type 0} (same : K → K → Bool) where
  -- what a table holds at a key, 0 where it has no row
  abbrev pub held : (V → ℕ) → K → List (K × V) → ℕ
  held field k [] = 0
  held field k ((j, v) ∷ table) =
      let rest = held field k table in if same j k then field v else rest

  module _ (sound : (a b : K) → same a b ≡ true → a ≡ b) (self : (a : K) → same a a ≡ true) where
    pub upsert-held :
        (field : V → ℕ) (k q : K) (fresh : V) (update : V → V) (amount : ℕ)
        → field fresh ≡ amount
        → ((v : V) → field (update v) ≡ field v + amount)
        → (table : List (K × V))
        → held field q (upsert same k fresh update table)
          ≡ held field q table + (if same k q then amount else 0)
    unfolding upsert
    upsert-held field k q fresh update amount at_fresh at_update [] = elim (Bool-cases (same k q)) [
      | inl e ↦ rw e (omega (arith, at_fresh))
      | inr e ↦ rw e refl
    ]
    upsert-held field k q fresh update amount at_fresh at_update ((j, v) ∷ table) =
        let rest = upsert-held field k q fresh update amount at_fresh at_update table in
        elim (Bool-cases (same j k)) [
          | inl e ↦
              let at_k : same j q ≡ same k q = ap (λ x. same x q) (sound j k e) in
              elim (Bool-cases (same k q)) [
                | inl o ↦ rw (e, at_k, o) (at_update v)
                | inr o ↦ rw (e, at_k, o) (omega arith)
              ]
          | inr e ↦ elim (Bool-cases (same j q)) [
            | inl o ↦ elim (Bool-cases (same k q)) [
              | inl n ↦
                  let same_k : j ≡ k = sound j q o ∙ sym (sound k q n) in
                  let yes_same : same j k ≡ true = rw same_k (self k) in absurd (cc)
              | inr n ↦ rw (e, o, n) (omega arith)
            ]
            | inr o ↦ rw (e, o) rest
          ]
        ]

pub sound_service : (a b : ℕ) → same_service a b ≡ true → a ≡ b
sound_service a b e = ground arith

pub self_service : (a : ℕ) → same_service a a ≡ true
self_service a = ground arith

pub sound_period : (a b : Period) → same_period a b ≡ true → a ≡ b
sound_period (a, b) (c, d) e =
    let one : a ≡ c = ground arith in let two : b ≡ d = ground arith in cc

pub self_period : (a : Period) → same_period a a ≡ true
self_period (a, b) = ground arith

-- A prune keeps the rows of every day from its cutoff on.
pub keep-held :
    (field : Counter → ℕ) (cutoff s d : ℕ)
    → cutoff ≤ d
    → (table : List (Period × Counter))
    → held same_period field (s, d) (keep (λ (x : Period × Counter). not (ltb x.0.1 cutoff)) table)
      ≡ held same_period field (s, d) table
keep-held field cutoff s d k [] = refl
keep-held field cutoff s d k (((a, b), v) ∷ table) =
    let rest = keep-held field cutoff s d k table in
    elim (Bool-cases (ltb b cutoff)) [
      | inl e ↦ let other : same_period (a, b) (s, d) ≡ false = ground arith in rw (e, other) rest
      | inr e ↦ elim (Bool-cases (same_period (a, b) (s, d))) [
        | inl o ↦ rw (e, o) refl
        | inr o ↦ rw (e, o) rest
      ]
    ]
