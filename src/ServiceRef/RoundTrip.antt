-- ===== src/ServiceRef/RoundTrip.antt =====
-- Names and ids are told apart, and an id is read back.
use sitey.Prelude.{
  ℕ, suc, ◌≡◌, ◌≤◌, refl, ap, ◌∙◌, Bool, true, false, [], ◌∷◌, ◌++◌, arith, Bool-cases, inl, inr,
  All, All-map, All-append, all_iff, ltb, all, is_empty, ◌*◌, ◌<◌, ◌+◌, ◌/◌, ◌%◌, ◌-◌, not, ◌&&◌,
  leb, length,
}
use sitey.Text.{Text, is_digit, is_lower, trim, codes, is_space, starts_with, slice}
use sitey.Text.Trim.{trim_of_IsTrimmed, All-IsTrimmed}
use sitey.ServiceRef.{
  format_service_ref, is_id_like, is_number, number_from, parse_service_ref, bare_ref,
  first_is_digit, is_service_name, by_id, by_name, is_service_char,
}
use sitey.SiteBlocks.Bodies.{decimal, digits}

service_char-Solid : (c : ℕ) → is_service_char c ≡ true → is_space c ≡ false
unfolding is_service_char is_lower is_digit is_space
service_char-Solid c h = ground arith

name-trim : (s : Text) → all is_service_char s ≡ true → trim s ≡ s
name-trim s h =
    trim_of_IsTrimmed s
      (All-IsTrimmed s (All-map _ _ s service_char-Solid ((all_iff is_service_char s).0 h)))

number-first : (s : Text) → is_number s ≡ true → first_is_digit s ≡ true
unfolding is_number
number-first [] h = absurd (ground arith)
number-first (c ∷ s) h = ground arith

-- what is not like an id is no reference by id
bare_ref-not_number : (s : Text) → is_id_like s ≡ false → is_number (bare_ref s) ≡ false
unfolding is_id_like bare_ref
bare_ref-not_number s h = elim (Bool-cases (starts_with s (codes "service-"))) [
  | inr e ↦ rw e (ground arith)
  | inl e ↦ elim (Bool-cases (is_number (slice 8 s))) [
    | inr k ↦ rw e k
    | inl k ↦ let first = number-first (slice 8 s) k in absurd (ground arith)
  ]
]

last_two : (a b c d : Bool) → (a && b && c && d) ≡ true → (c ≡ true) × (d ≡ true)
last_two a b c d h = (ground arith, ground arith)

-- a name that the schema accepts
parse_service_ref-name :
    (name : Text) → is_service_name name ≡ true → parse_service_ref name ≡ by_name name
unfolding parse_service_ref is_service_name
parse_service_ref-name name h =
    let (chars, other) =
      last_two (not (is_empty name)) (leb (length name) 40) (all is_service_char name)
        (not (is_id_like name)) h in
    let plain : is_id_like name ≡ false = ground arith in
    rw (name-trim name chars, bare_ref-not_number name plain) refl

number_from-append :
    (n : ℕ) (s : Text) (c : ℕ) → number_from n (s ++ c ∷ []) ≡ number_from n s * 10 + (c - 48)
unfolding number_from
number_from-append n [] c = refl
number_from-append n (d ∷ s) c = number_from-append (n * 10 + (d - 48)) s c

digits-number : (fuel n : ℕ) → n ≤ fuel → number_from 0 (digits fuel n) ≡ n
unfolding number_from
digits-number ℕ.zero n h = omega arith
digits-number (suc fuel) n h = elim (Bool-cases (ltb n 10)) [
  | inl e ↦ rw e (omega arith)
  | inr e ↦
      let big : 10 ≤ n = ground arith in
      let front = digits-number fuel (n / 10) (omega arith) in
      rw e (number_from-append 0 (digits fuel (n / 10)) (48 + n % 10) ∙ omega (arith, front))
]

digit-is_digit : (d : ℕ) → d < 10 → is_digit (48 + d) ≡ true
unfolding is_digit
digit-is_digit d h = ground arith

digits-All : (fuel n : ℕ) → n ≤ fuel → All (λ c. is_digit c ≡ true) (digits fuel n)
digits-All ℕ.zero n h = (digit-is_digit n (omega arith), tt)
digits-All (suc fuel) n h = elim (Bool-cases (ltb n 10)) [
  | inl e ↦ rw e (digit-is_digit n (ground arith), tt)
  | inr e ↦
      let big : 10 ≤ n = ground arith in
      rw e (
        All-append (λ c. is_digit c ≡ true) (digits fuel (n / 10)) _
          (digits-All fuel (n / 10) (omega arith)) (digit-is_digit (n % 10) (omega arith), tt))
]

digits-not_empty : (fuel n : ℕ) → is_empty (digits fuel n) ≡ false
digits-not_empty ℕ.zero n = refl
digits-not_empty (suc fuel) n = elim (Bool-cases (ltb n 10)) [
  | inl e ↦ rw e refl
  | inr e ↦ rw e (append-not_empty (digits fuel (n / 10)) (48 + n % 10))
]
  where
    append-not_empty : (s : Text) (c : ℕ) → is_empty (s ++ c ∷ []) ≡ false
    append-not_empty [] c = refl
    append-not_empty (d ∷ s) c = refl

digit-is_service_char : (c : ℕ) → is_digit c ≡ true → is_service_char c ≡ true
unfolding is_service_char
digit-is_service_char c h = ground arith

digits-all_service_chars : (n : ℕ) → all is_service_char (digits n n) ≡ true
digits-all_service_chars n =
    (all_iff is_service_char (digits n n)).1
      (All-map _ _ (digits n n) digit-is_service_char (digits-All n n (omega arith)))

digits-is_number : (n : ℕ) → is_number (digits n n) ≡ true
unfolding is_number
digits-is_number n =
    rw (digits-not_empty n n, (all_iff is_digit (digits n n)).1 (digits-All n n (omega arith))) refl

written-trim : (id : ℕ) → trim (codes "service-" ++ digits id id) ≡ codes "service-" ++ digits id id
written-trim id =
    name-trim (codes "service-" ++ digits id id) (prefix-chars (digits-all_service_chars id))
  where
    prefix-chars :
        all is_service_char (digits id id) ≡ true
        → all is_service_char (codes "service-" ++ digits id id) ≡ true
    prefix-chars h = unfold is_service_char is_lower is_digit in h

written-bare : (s : Text) → bare_ref (codes "service-" ++ s) ≡ s
unfolding bare_ref
written-bare s = refl

-- what is printed for an id
parse_service_ref_printed : (id : ℕ) → parse_service_ref (format_service_ref id) ≡ by_id id
unfolding parse_service_ref format_service_ref decimal
parse_service_ref_printed id =
    rw (written-trim id, written-bare (digits id id), digits-is_number id)
      (ap by_id (digits-number id id (omega arith)))

-- The reference that formatServiceRef prints for an id is read back as that id, and a name that the schema
-- accepts is a reference to the service of that name, never one by id.
pub parse_service_ref-format :
    (id : ℕ) (name : Text)
    → is_service_name name ≡ true
    → (parse_service_ref (format_service_ref id) ≡ by_id id)
      × (parse_service_ref name ≡ by_name name)
parse_service_ref-format id name h = (parse_service_ref_printed id, parse_service_ref-name name h)
