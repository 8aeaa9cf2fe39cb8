-- ===== src/Analytics/Store.antt =====
-- The tables of the analytics database: flush of server/src/services/analytics/ingest.ts with its statements, and
-- runPrune of server/src/services/analytics/prune.ts. The day and the week of a time are given.
use sitey.Prelude.{
  ℕ, ◌+◌, ◌-◌, ◌*◌, min, max, Bool, not, ◌&&◌, ◌==◌, ltb, leb, List, [], ◌∷◌, ◌++◌, if◌then◌else◌,
  keep,
}
use sitey.Analytics.{Request}

-- a row of `daily` or `weekly`, without its key
pub record Counter : Type 0 where
  pub requests : ℕ
  pub errors : ℕ
  pub bytes : ℕ

-- a row of `total`, without its key
pub record Total : Type 0 where
  pub requests : ℕ
  pub errors : ℕ
  pub bytes : ℕ
  pub first_seen : ℕ
  pub last_seen : ℕ

-- The key of `daily` and `weekly`: a service and a day or week.
abbrev pub Period : Type 0
Period = ℕ × ℕ

abbrev pub same_period : Period → Period → Bool
same_period (a, b) (c, d) = a == c && b == d

abbrev pub same_service : ℕ → ℕ → Bool
same_service a b = a == b

pub record Db : Type 0 where
  pub request : List Request
  pub daily : List (Period × Counter)
  pub weekly : List (Period × Counter)
  pub total : List (ℕ × Total)

abbrev pub empty_db : Db
empty_db = record { request = []; daily = []; weekly = []; total = [] }

-- `INSERT ... ON CONFLICT(key) DO UPDATE`
module _ {K V : Type 0} (same : K → K → Bool) where
  unfoldable pub upsert : K → V → (V → V) → List (K × V) → List (K × V)
  upsert k fresh update [] = (k, fresh) ∷ []
  upsert k fresh update ((j, v) ∷ table) =
      let rest = upsert k fresh update table in
      if same j k then (j, update v) ∷ table else (j, v) ∷ rest

abbrev pub error_of : ℕ → ℕ
error_of status = if leb 500 status then 1 else 0

abbrev pub first_count : ℕ → ℕ → Counter
first_count error bytes = record { requests = 1; errors = error; bytes = bytes }

abbrev pub first_total : ℕ → ℕ → ℕ → Total
first_total error bytes ts = record {
  requests = 1;
  errors = error;
  bytes = bytes;
  first_seen = ts;
  last_seen = ts;
}

abbrev pub count_in : ℕ → ℕ → Counter → Counter
count_in error bytes c = record {
  requests = c.requests + 1;
  errors = c.errors + error;
  bytes = c.bytes + bytes;
}

abbrev pub count_total : ℕ → ℕ → ℕ → Total → Total
count_total error bytes ts t = record {
  requests = t.requests + 1;
  errors = t.errors + error;
  bytes = t.bytes + bytes;
  first_seen = min t.first_seen ts;
  last_seen = max t.last_seen ts;
}

-- What the process does to the tables: batches are flushed, and once a day they are pruned.
pub data Change : Type 0 where
  flushes : List Request → Change
  prunes : ℕ → Change

module _ (day_of week_of : ℕ → ℕ) where
  -- the statements for one row
  unfoldable pub flush_row : Db → Request → Db
  flush_row db r =
      let error = error_of r.status in
      let fresh = first_count error r.bytes in
      record {
        request = db.request ++ r ∷ [];
        daily =
            upsert same_period (r.service_id, day_of r.ts) fresh (count_in error r.bytes) db.daily;
        weekly =
            upsert same_period (r.service_id, week_of r.ts) fresh (count_in error r.bytes)
              db.weekly;
        total =
            upsert same_service r.service_id (first_total error r.bytes r.ts)
              (count_total error r.bytes r.ts) db.total;
      }

  unfoldable pub flush : Db → List Request → Db
  flush db [] = db
  flush db (r ∷ rows) = flush (flush_row db r) rows

  abbrev pub request_cutoff : ℕ → ℕ
  request_cutoff now = now - 7 * 86400

  abbrev pub daily_cutoff : ℕ → ℕ
  daily_cutoff now = day_of (now - 90 * 86400)

  -- runPrune at the time `now`
  unfoldable pub run_prune : ℕ → Db → Db
  run_prune now db = record {
    request = keep (λ (r : Request). not (ltb r.ts (request_cutoff now))) db.request;
    daily = keep (λ (d : Period × Counter). not (ltb d.0.1 (daily_cutoff now))) db.daily;
    weekly = db.weekly;
    total = db.total;
  }

  unfoldable pub run : List Change → Db → Db
  run [] db = db
  run (flushes rows ∷ changes) db = run changes (flush db rows)
  run (prunes now ∷ changes) db = run changes (run_prune now db)
