-- ===== src/Analytics/Tests.antt =====
-- A log of two lines and the start of a third, read two bytes at a time, then rolled; and its counters.
use sitey.Prelude.{
  ℕ, suc, refl, ◌≡◌, ◌≤◌, min, ltb, Bool-cases, inl, inr, arith, Option, some, none, true,
  if◌then◌else◌, length, List, ◌/◌, [], ◌++◌, ◌∷◌, ap, ◌∙◌, length-append, drop, take,
}
use sitey.Text.{codes}
use sitey.Analytics.{Bytes, Identity, Request}
use sitey.Analytics.Counters.{IsTally, all_rows, run-IsTally, total_field, count_field}
use sitey.Analytics.Drained.{IsReader}
use sitey.Analytics.Ingest.{
  Drain, drain_open_fd, drain_from, drain_loop, flushed, take_lines, line_loop, saved, split_line,
}
use sitey.Analytics.Crashed.{IsResumed, last_saved, drain_open_fd-IsResumed}
use sitey.Analytics.Lines.{parsed}
use sitey.Analytics.Poll.{Handle, poll}
use sitey.Analytics.Resumed.{IsFinished, IsFullReader, drain_open_fd-IsFinished}
use sitey.Analytics.Rolled.{HasFollowed, IsFile, poll-HasFollowed}
use sitey.Analytics.Store.{
  Change, same_service, Total, flushes, same_period, prunes, run, empty_db, flush, flush_row,
  upsert, run_prune,
}
use sitey.Analytics.Sums.{held}

-- the bytes of a file from an offset on, two at most
abbrev reads : Bytes → ℕ → ℕ → Option Bytes
reads file offset want =
    if ltb offset (length file) then some (take (min want 2) (drop offset file)) else none

take-drop :
    (n : ℕ) (xs : Bytes) → n ≤ length xs → (xs ≡ take n xs ++ drop n xs) × (length (take n xs) ≡ n)
take-drop ℕ.zero xs h = (refl, refl)
take-drop (suc n) [] h = absurd (omega (arith, h))
take-drop (suc n) (x ∷ xs) h =
    let (e, k) = take-drop n xs (omega (arith, h)) in (ap (λ t. x ∷ t) e, omega (arith, k))

take-bound : (n : ℕ) (xs : Bytes) → (length (take n xs) ≤ n) × (xs ≡ take n xs ++ drop n xs)
take-bound ℕ.zero xs = (omega arith, refl)
take-bound (suc n) [] = (omega arith, refl)
take-bound (suc n) (x ∷ xs) = let (k, e) = take-bound n xs in (omega (arith, k), ap (λ t. x ∷ t) e)

take-some :
    (n : ℕ) (xs : Bytes)
    → 1 ≤ n
    → 1 ≤ length xs
    → (c : ℕ) × (bytes : Bytes) × (take n xs ≡ c ∷ bytes)
take-some ℕ.zero xs h k = absurd (omega (arith, h))
take-some (suc n) [] h k = absurd (omega (arith, k))
take-some (suc n) (x ∷ xs) h k = (x, take n xs, refl)

reads-IsReader : (file : Bytes) → IsReader file (reads file)
reads-IsReader file offset want bytes h = elim (Bool-cases (ltb offset (length file))) [
  | inr e ↦ absurd (ground arith)
  | inl e ↦
      let got : take (min want 2) (drop offset file) ≡ bytes = ground arith in
      let (at_file, at_offset) = take-drop offset file (ground arith) in
      let (bound, ahead) = take-bound (min want 2) (drop offset file) in
      (
        take offset file,
        drop (min want 2) (drop offset file),
        at_file
            ∙ (ap (λ t. take offset file ++ t) ahead
                ∙ ap (λ t. take offset file ++ (t ++ drop (min want 2) (drop offset file))) got),
        at_offset,
        omega (arith, bound, ap length got),
      )
]

reads-IsFullReader : (file : Bytes) → IsFullReader file (reads file)
reads-IsFullReader file offset want some_wanted inside =
    let (at_file, at_offset) = take-drop offset file (omega (arith, inside)) in
    let (c, bytes, e) = take-some (min want 2) (drop offset file) (omega (arith, some_wanted)) (
      omega (
        arith,
        some_wanted,
        inside,
        ap length at_file,
        at_offset,
        length-append (take offset file) (drop offset file),
      )) in
    let more : ltb offset (length file) ≡ true = ground arith in (c, bytes, rw more (ap some e))

-- an empty line holds no request
abbrev parse_line : Bytes → Option Request
parse_line [] = none
parse_line (c ∷ line) = some (record {
  ts = 100;
  service_id = c;
  host = [];
  path = line;
  status = 503;
  method = none;
  content_type = none;
  bytes = 7;
})

abbrev log : Bytes
log = codes "a1\nb\nc"

abbrev rolled_log : Bytes
rolled_log = codes "a2\n\nd"

abbrev first : Identity
first = record { dev = 1; ino = 10 }

abbrev second : Identity
second = record { dev = 1; ino = 11 }

drain_open_fd-IsFinished_example :
    IsFinished parse_line
      (some first)
      log
      []
      (drain_open_fd parse_line (some first) (some 6) (reads log) 0 [])
drain_open_fd-IsFinished_example =
    drain_open_fd-IsFinished parse_line (some first) log [] [] log (reads log) 6
      (reads-IsReader log) refl tt (omega arith)

runs : Unit {0}
unfolding drain_open_fd drain_from drain_loop take_lines line_loop split_line run flush flush_row
    upsert run_prune
runs = tt

log_drained : drain_open_fd parse_line (some first) (some 6) (reads log) 0 [] ≡ record {
  offset = 6;
  partial = codes "c";
  batch = parsed parse_line (codes "a1" ∷ codes "b" ∷ []);
  commits = flushed (parsed parse_line (codes "a1" ∷ codes "b" ∷ [])) ∷ saved first 5 ∷ [];
}
unfolding runs
log_drained = refl

abbrev two_lines : List Request
two_lines = parsed parse_line (codes "a1" ∷ codes "b" ∷ [])

-- cut off after the flush, with the offset not saved yet
log_cut :
    (drain_open_fd parse_line (some first) (some 6) (reads log) 0 []).commits
    ≡ (flushed two_lines ∷ []) ++ saved first 5 ∷ []
log_cut = ap (λ (d : Drain). d.commits) log_drained

drain_open_fd-IsResumed_example :
    IsResumed parse_line log []
      (flushed two_lines ∷ [])
      (drain_open_fd parse_line
        (some first)
        (some (length log))
        (reads log)
        (last_saved 0 (flushed two_lines ∷ []))
        []).commits
drain_open_fd-IsResumed_example =
    drain_open_fd-IsResumed parse_line first first log [] [] log (reads log) (reads log) 6
      (flushed two_lines ∷ []) (saved first 5 ∷ []) (reads-IsReader log) refl tt (omega arith)
      log_cut (reads-IsReader log) (reads-IsFullReader log)

abbrev handle : Identity → Bytes → Handle
handle identity file = record { identity = identity; size = some (length file); read = reads file }

handle-IsFile : (identity : Identity) (file : Bytes) → IsFile (handle identity file) file
handle-IsFile identity file = record {
  sized = refl;
  reader = reads-IsReader file;
  full = reads-IsFullReader file;
}

-- the old file is given the end of its last line after it has been drained
poll-HasFollowed_example : HasFollowed parse_line log (codes "4\n") rolled_log [] second (
    poll parse_line
      (handle first log)
      (some (handle second rolled_log))
      (record { open_identity = some first; offset = 0; partial = [] }))
poll-HasFollowed_example =
    poll-HasFollowed parse_line log (codes "4\n") rolled_log [] [] log (handle first log)
      (handle second rolled_log) first (handle-IsFile first log) (handle-IsFile second rolled_log)
      refl tt refl

-- days of a thousand seconds, and weeks of seven of them
abbrev day_of : ℕ → ℕ
day_of ts = ts / 1000

abbrev week_of : ℕ → ℕ
week_of ts = ts / 7000

abbrev changes : List Change
changes =
    flushes (parsed parse_line (codes "a1" ∷ codes "b" ∷ []))
    ∷ prunes 9000000
    ∷ flushes (parsed parse_line (codes "a2" ∷ []))
    ∷ []

two_of_a :
    held same_service (λ (t : Total). t.requests) b'a' (run day_of week_of changes empty_db).total
    ≡ 2
unfolding runs
two_of_a = refl

-- the prune is so late that only days from 1224 on are kept
run-IsTally_example :
    IsTally
      (λ (r : Request). same_service r.service_id b'a')
      (all_rows changes)
      (λ field.
        held same_service (total_field field) b'a' (run day_of week_of changes empty_db).total)
    × IsTally
        (λ (r : Request). same_period (r.service_id, week_of r.ts) (b'a', 0))
        (all_rows changes)
        (λ field.
          held same_period
            (count_field field)
            (b'a', 0)
            (run day_of week_of changes empty_db).weekly)
    × IsTally
        (λ (r : Request). same_period (r.service_id, day_of r.ts) (b'a', 1224))
        (all_rows changes)
        (λ field.
          held same_period
            (count_field field)
            (b'a', 1224)
            (run day_of week_of changes empty_db).daily)
run-IsTally_example = run-IsTally day_of week_of changes b'a' 0 1224 (omega arith, tt)
