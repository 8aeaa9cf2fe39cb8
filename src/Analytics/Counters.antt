-- ===== src/Analytics/Counters.antt =====
-- What the counters hold.
use sitey.Prelude.{ℕ, ◌+◌, ◌≡◌, refl, Bool, List, [], ◌∷◌, ◌++◌, if◌then◌else◌, arith, ◌≤◌}
use sitey.Analytics.{Request}
use sitey.Analytics.Store.{
  Counter, Total, Period, Db, empty_db, same_period, same_service, flush_row, flush, run_prune,
  error_of, daily_cutoff, Change, count_total, run, flushes, prunes, first_count, first_total,
  count_in,
}
use sitey.Analytics.Sums.{
  sum_of-append, upsert-held, sound_service, self_service, sound_period, self_period, keep-held,
  sum_of, held,
}

-- all requests that are ever flushed
abbrev pub all_rows : List Change → List Request
all_rows [] = []
all_rows (flushes rows ∷ changes) = rows ++ all_rows changes
all_rows (prunes now ∷ changes) = all_rows changes

-- Every prune is at a time with `P`.
abbrev pub EachPrune : (ℕ → Type 0) → List Change → Type 0
EachPrune P [] = Unit
EachPrune P (flushes rows ∷ changes) = EachPrune P changes
EachPrune P (prunes now ∷ changes) = P now × EachPrune P changes

EachPrune-trivial : (changes : List Change) → EachPrune (λ now. Unit) changes
EachPrune-trivial [] = tt
EachPrune-trivial (flushes rows ∷ changes) = EachPrune-trivial changes
EachPrune-trivial (prunes now ∷ changes) = (tt, EachPrune-trivial changes)

-- what is counted, in the rows of the tables and of a request
pub data Field : Type 0 where
  requests errors bytes : Field

abbrev pub count_field : Field → Counter → ℕ
count_field requests c = c.requests
count_field errors c = c.errors
count_field bytes c = c.bytes

abbrev pub total_field : Field → Total → ℕ
total_field requests t = t.requests
total_field errors t = t.errors
total_field bytes t = t.bytes

abbrev pub amount : Field → Request → ℕ
amount requests r = 1
amount errors r = error_of r.status
amount bytes r = r.bytes

first_count_field :
    (f : Field) (r : Request) → count_field f (first_count (error_of r.status) r.bytes) ≡ amount f r
first_count_field requests r = refl
first_count_field errors r = refl
first_count_field bytes r = refl

count_field_adds :
    (f : Field) (r : Request) (c : Counter)
    → count_field f (count_in (error_of r.status) r.bytes c) ≡ count_field f c + amount f r
count_field_adds requests r c = refl
count_field_adds errors r c = refl
count_field_adds bytes r c = refl

first_total_field :
    (f : Field) (r : Request)
    → total_field f (first_total (error_of r.status) r.bytes r.ts) ≡ amount f r
first_total_field requests r = refl
first_total_field errors r = refl
first_total_field bytes r = refl

total_field_adds :
    (f : Field) (r : Request) (t : Total)
    → total_field f (count_total (error_of r.status) r.bytes r.ts t) ≡ total_field f t + amount f r
total_field_adds requests r t = refl
total_field_adds errors r t = refl
total_field_adds bytes r t = refl

-- The numbers of a row are those of the requests that a test picks.
abbrev pub IsTally : (Request → Bool) → List Request → (Field → ℕ) → Type 0
IsTally p rows row = (field : Field) → row field ≡ sum_of (amount field) p rows

module _ (day_of week_of : ℕ → ℕ) where
  -- What every row adds to and no prune takes from is in the end the sum over all rows.
  module _ (number : Db → ℕ) (weight : Request → ℕ) (p : Request → Bool) (Spares : ℕ → Type 0)
      (at_row : (db : Db) (r : Request)
        → number (flush_row day_of week_of db r) ≡ number db + (if p r then weight r else 0))
      (at_prune : (now : ℕ) (db : Db)
        → Spares now
        → number (run_prune day_of week_of now db) ≡ number db) where
    flush-sum :
        (rows : List Request) (db : Db)
        → number (flush day_of week_of db rows) ≡ number db + sum_of weight p rows
    unfolding flush
    flush-sum [] db = omega arith
    flush-sum (r ∷ rows) db =
        omega (arith, at_row db r, flush-sum rows (flush_row day_of week_of db r))

    run-sum :
        (changes : List Change) (db : Db)
        → EachPrune Spares changes
        → number (run day_of week_of changes db) ≡ number db + sum_of weight p (all_rows changes)
    unfolding run
    run-sum [] db each = omega arith
    run-sum (flushes rows ∷ changes) db each = omega (
      arith,
      run-sum changes (flush day_of week_of db rows) each,
      flush-sum rows db,
      sum_of-append weight p rows (all_rows changes),
    )
    run-sum (prunes now ∷ changes) db each =
        omega
          (arith, run-sum changes (run_prune day_of week_of now db) each.1, at_prune now db each.0)

  total-sum :
      (field : Total → ℕ) (weight : Request → ℕ) (s : ℕ)
      → ((r : Request) → field (first_total (error_of r.status) r.bytes r.ts) ≡ weight r)
      → ((r : Request) (t : Total)
          → field (count_total (error_of r.status) r.bytes r.ts t) ≡ field t + weight r)
      → (changes : List Change)
      → held same_service field s (run day_of week_of changes empty_db).total
        ≡ sum_of weight (λ (r : Request). same_service r.service_id s) (all_rows changes)
  unfolding flush_row run_prune
  total-sum field weight s at_fresh at_update changes =
      let sum =
        run-sum (λ (db : Db). held same_service field s db.total) weight
          (λ (r : Request). same_service r.service_id s) (λ now. Unit {0})
          (λ db r.
            upsert-held same_service sound_service self_service field r.service_id s _ _ (weight r)
              (at_fresh r) (at_update r) db.total)
          (λ now db k. refl) changes empty_db (EachPrune-trivial changes) in
      omega (arith, sum)

  weekly-sum :
      (field : Counter → ℕ) (weight : Request → ℕ) (q : Period)
      → ((r : Request) → field (first_count (error_of r.status) r.bytes) ≡ weight r)
      → ((r : Request) (c : Counter)
          → field (count_in (error_of r.status) r.bytes c) ≡ field c + weight r)
      → (changes : List Change)
      → held same_period field q (run day_of week_of changes empty_db).weekly
        ≡ sum_of weight
            (λ (r : Request). same_period (r.service_id, week_of r.ts) q)
            (all_rows changes)
  unfolding flush_row run_prune
  weekly-sum field weight q at_fresh at_update changes =
      let sum =
        run-sum (λ (db : Db). held same_period field q db.weekly) weight
          (λ (r : Request). same_period (r.service_id, week_of r.ts) q) (λ now. Unit {0})
          (λ db r.
            upsert-held same_period sound_period self_period field (r.service_id, week_of r.ts) q _
              _ (weight r) (at_fresh r) (at_update r) db.weekly)
          (λ now db k. refl) changes empty_db (EachPrune-trivial changes) in
      omega (arith, sum)

  daily-sum :
      (field : Counter → ℕ) (weight : Request → ℕ) (s d : ℕ)
      → ((r : Request) → field (first_count (error_of r.status) r.bytes) ≡ weight r)
      → ((r : Request) (c : Counter)
          → field (count_in (error_of r.status) r.bytes c) ≡ field c + weight r)
      → (changes : List Change) → EachPrune (λ now. daily_cutoff day_of week_of now ≤ d) changes
      → held same_period field (s, d) (run day_of week_of changes empty_db).daily
        ≡ sum_of weight
            (λ (r : Request). same_period (r.service_id, day_of r.ts) (s, d))
            (all_rows changes)
  unfolding flush_row run_prune
  daily-sum field weight s d at_fresh at_update changes each =
      let sum =
        run-sum (λ (db : Db). held same_period field (s, d) db.daily) weight
          (λ (r : Request). same_period (r.service_id, day_of r.ts) (s, d))
          (λ now. daily_cutoff day_of week_of now ≤ d)
          (λ db r.
            upsert-held same_period sound_period self_period field (r.service_id, day_of r.ts)
              (s, d) _ _ (weight r) (at_fresh r) (at_update r) db.daily)
          (λ now db k. keep-held field (daily_cutoff day_of week_of now) s d k db.daily) changes
          empty_db each in
      omega (arith, sum)

  -- However batches and prunes follow each other from empty tables on: the lifetime row of every service, the
  -- weekly row of every service and week, and the daily row of every service and day that no prune's cutoff has
  -- passed, hold the number of all requests of theirs that were ever flushed, of those with a status of 500 or
  -- more, and of their bytes. Where there is no row, the numbers are 0.
  pub run-IsTally :
      (changes : List Change) (s w d : ℕ)
      → EachPrune (λ now. daily_cutoff day_of week_of now ≤ d) changes
      → IsTally
          (λ (r : Request). same_service r.service_id s)
          (all_rows changes)
          (λ field.
            held same_service (total_field field) s (run day_of week_of changes empty_db).total)
        × IsTally
            (λ (r : Request). same_period (r.service_id, week_of r.ts) (s, w))
            (all_rows changes)
            (λ field.
              held same_period
                (count_field field)
                (s, w)
                (run day_of week_of changes empty_db).weekly)
        × IsTally
            (λ (r : Request). same_period (r.service_id, day_of r.ts) (s, d))
            (all_rows changes)
            (λ field.
              held same_period
                (count_field field)
                (s, d)
                (run day_of week_of changes empty_db).daily)
  run-IsTally changes s w d each = (
    (λ field.
        total-sum (total_field field) (amount field) s (first_total_field field)
          (total_field_adds field) changes),
    (λ field.
        weekly-sum (count_field field) (amount field) (s, w) (first_count_field field)
          (count_field_adds field) changes),
    (λ field.
        daily-sum (count_field field) (amount field) s d (first_count_field field)
          (count_field_adds field) changes each),
  )
