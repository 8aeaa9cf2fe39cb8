-- ===== src/Queue/Select.antt =====
-- Taking the first job whose service is idle out of the waiting jobs.
use sitey.Prelude.{
  ◌≡◌, refl, sym, ap, ◌∙◌, Bool, true, false, not, some, List, [], ◌∷◌, ◌++◌, arith, Bool-cases,
  All, All-append, All-map, inl, inr, find, keep, keep-append, keep_of_All,
}
use sitey.Text.{Text, text_eq}
use sitey.Text.Equal.{text_eq_iff, text_eq_self}
use sitey.Queue.{Job}

-- A list around the element that `find` returns.
pub record Around {ℓ} {A : Type ℓ} (p : A → Bool) (xs : List A) (a : A) : Type ℓ where
  pub pre : List A
  pub post : List A
  pub whole : xs ≡ pre ++ a ∷ post
  pub rejected : All (λ x. p x ≡ false) pre
  pub accepted : p a ≡ true

pub find-Around {ℓ} :
    {A : Type ℓ} (p : A → Bool) (xs : List A) (a : A) → find p xs ≡ some a → Around p xs a
find-Around p [] a h = absurd (ground arith)
find-Around p (x ∷ xs) a h = elim (Bool-cases (p x)) [
  | inl e ↦
      let same : x ≡ a = ground arith in
      record {
        pre = [];
        post = xs;
        whole = ap (λ y. y ∷ xs) same;
        rejected = tt;
        accepted = ap p (sym same) ∙ e;
      }
  | inr e ↦ further e (find-Around p xs a (rw e at h))
]
  where
    further : p x ≡ false → Around p xs a → Around p (x ∷ xs) a
    further e r = record {
      pre = x ∷ r.pre;
      post = r.post;
      whole = ap (λ ys. x ∷ ys) r.whole;
      rejected = (e, r.rejected);
      accepted = r.accepted;
    }

-- No job of the list has the identifier of `j`.
abbrev pub Fresh : Job → List Job → Type 0
Fresh j js = All (λ k. text_eq k.id j.id ≡ false) js

abbrev pub DistinctIds : List Job → Type 0
DistinctIds [] = Unit
DistinctIds (j ∷ js) = Fresh j js × DistinctIds js

text_eq_comm : (s t : Text) → text_eq s t ≡ false → text_eq t s ≡ false
text_eq_comm s t h = ground (arith, text_eq_iff s t, text_eq_iff t s)

pub Fresh-split : (j : Job) (xs ys : List Job) → Fresh j (xs ++ ys) → Fresh j xs × Fresh j ys
Fresh-split j [] ys h = (tt, h)
Fresh-split j (x ∷ xs) ys h = let (a, b) = Fresh-split j xs ys h.1 in ((h.0, a), b)

DistinctIds-middle :
    (p : Job) (pre post : List Job)
    → DistinctIds (pre ++ p ∷ post)
    → Fresh p pre × Fresh p post × DistinctIds (pre ++ post)
DistinctIds-middle p [] post h = (tt, h.0, h.1)
DistinctIds-middle p (x ∷ pre) post h =
    let (a, b, c) = DistinctIds-middle p pre post h.1 in
    let (near, far) = Fresh-split x pre (p ∷ post) h.0 in
    ((text_eq_comm p.id x.id far.0, a), b, (All-append _ pre post near far.1, c))

pub DistinctIds-snoc :
    (js : List Job) (j : Job) → DistinctIds js → Fresh j js → DistinctIds (js ++ j ∷ [])
DistinctIds-snoc [] j h f = (tt, tt)
DistinctIds-snoc (x ∷ js) j h f =
    (All-append _ js (j ∷ []) h.0 (text_eq_comm x.id j.id f.0, tt), DistinctIds-snoc js j h.1 f.1)

kept : (p : Job) (js : List Job) → Fresh p js → keep (λ (j : Job). not (text_eq j.id p.id)) js ≡ js
kept p js h =
    keep_of_All (λ (j : Job). not (text_eq j.id p.id)) js (All-map _ _ js (λ j e. rw e refl) h)

-- Removing by identifier takes out one job and leaves the order of the others.
pub remove-middle :
    (p : Job) (pre post : List Job)
    → DistinctIds (pre ++ p ∷ post)
    → (keep (λ (j : Job). not (text_eq j.id p.id)) (pre ++ p ∷ post) ≡ pre ++ post)
      × DistinctIds (pre ++ post)
remove-middle p pre post h =
    let (a, b, c) = DistinctIds-middle p pre post h in
    (
      keep-append (λ (j : Job). not (text_eq j.id p.id)) pre (p ∷ post)
          ∙ rw (text_eq_self p.id, kept p pre a, kept p post b) refl,
      c,
    )
