-- ===== src/Analytics/Crashed.antt =====
-- A drain that is cut off between two of its commits, and the one that takes it up again.
use sitey.Prelude.{
  ℕ, ◌+◌, ◌-◌, ◌≤◌, ◌≡◌, refl, sym, ap, ◌∙◌, subst, suc, Option, some, List, [], ◌∷◌, ◌++◌, length,
  All, Bool-cases, Option-cases, inl, inr, ◌⊎◌, arith, leb, ltb, min, append_assoc, append-nil,
}
use sitey.Text.Split.{Lacks}
use sitey.Analytics.{Request, Bytes, Identity}
use sitey.Analytics.Consumed.{Restart, IsSafe}
use sitey.Analytics.Drained.{IsReader}
use sitey.Analytics.Ingest.{
  Commit, flushed, saved, Lines, Drain, line_loop, after_line, batch_size, split_line, push_parsed,
  take_lines, drain_loop, read_chunk, finish_drain, drain_from, drain_open_fd,
}
use sitey.Analytics.Lines.{join_lines, flushed_rows, parsed}
use sitey.Analytics.Resumed.{
  IsFullReader, IsFinished, drain_open_fd-IsFinished, drain_open_fd-resumed,
}

-- Every flush is followed by a save.
abbrev pub IsPaired : List Commit → Type 0
IsPaired [] = Unit {0}
IsPaired (flushed batch ∷ saved identity offset ∷ commits) = IsPaired commits
IsPaired (flushed batch ∷ _) = ⊥
IsPaired (saved identity offset ∷ commits) = ⊥

IsPaired-append : (xs ys : List Commit) → IsPaired xs → IsPaired ys → IsPaired (xs ++ ys)
IsPaired-append [] ys h k = k
IsPaired-append (flushed batch ∷ []) ys h k = absurd h
IsPaired-append (flushed batch ∷ flushed more ∷ xs) ys h k = absurd h
IsPaired-append (flushed batch ∷ saved identity offset ∷ xs) ys h k = IsPaired-append xs ys h k
IsPaired-append (saved identity offset ∷ xs) ys h k = absurd h

module _ (parse_line : Bytes → Option Request) (identity : Identity) where
  after_line-IsPaired :
      (offset : ℕ) (rest : Bytes) (batch : List Request) (commits : List Commit)
      → IsPaired commits
      → IsPaired (after_line parse_line (some identity) offset rest batch commits).2
  after_line-IsPaired offset rest batch commits h =
      elim (Bool-cases (leb batch_size (length batch))) [
        | inl e ↦ rw e (IsPaired-append commits _ h tt)
        | inr e ↦ rw e h
      ]

  line_loop-IsPaired :
      (fuel offset : ℕ) (l : Lines)
      → IsPaired l.2
      → IsPaired (line_loop parse_line (some identity) fuel offset l).2
  unfolding line_loop
  line_loop-IsPaired ℕ.zero offset (partial, batch, commits) h = h
  line_loop-IsPaired (suc fuel) offset (partial, batch, commits) h =
      elim (Option-cases (split_line partial)) [
        | inl e ↦ rw e h
        | inr ((line, rest), e) ↦
            let batch' = push_parsed batch (parse_line line) in
            rw e (
              line_loop-IsPaired fuel offset
                (after_line parse_line (some identity) offset rest batch' commits)
                (after_line-IsPaired offset rest batch' commits h))
      ]

  drain_loop-IsPaired :
      (read : ℕ → ℕ → Option Bytes) (size fuel offset : ℕ) (l : Lines)
      → IsPaired l.2
      → IsPaired (drain_loop parse_line (some identity) read size fuel offset l).commits
  unfolding drain_loop take_lines
  drain_loop-IsPaired read size ℕ.zero offset (partial, batch, commits) h = h
  drain_loop-IsPaired read size (suc fuel) offset (partial, batch, commits) h =
      elim (Bool-cases (ltb offset size)) [
        | inr e ↦ rw e h
        | inl e ↦ elim (Option-cases (read offset (min read_chunk (size - offset)))) [
          | inl k ↦ rw (e, k) h
          | inr ([], k) ↦ rw (e, k) h
          | inr (c ∷ bytes, k) ↦
              rw (e, k)
                (drain_loop-IsPaired read size fuel (offset + length (c ∷ bytes)) _
                  (line_loop-IsPaired _ _ _ h))
        ]
      ]

  finish_drain-IsPaired :
      (offset : ℕ) (partial : Bytes) (batch : List Request) (commits : List Commit)
      → IsPaired commits
      → IsPaired (finish_drain parse_line (some identity) offset partial batch commits).commits
  finish_drain-IsPaired offset partial [] commits h = h
  finish_drain-IsPaired offset partial (r ∷ batch) commits h = IsPaired-append commits _ h tt

  drain_from-IsPaired :
      (read : ℕ → ℕ → Option Bytes) (size offset : ℕ) (partial : Bytes)
      → IsPaired (drain_from parse_line (some identity) read size offset partial).commits
  unfolding drain_from
  drain_from-IsPaired read size offset partial =
      let d : Drain =
        drain_loop parse_line (some identity) read size (size - offset) offset (partial, [], []) in
      finish_drain-IsPaired d.offset d.partial d.batch d.commits
        (drain_loop-IsPaired read size (size - offset) offset (partial, [], []) tt)

  drain_open_fd-IsPaired :
      (read : ℕ → ℕ → Option Bytes) (size offset : ℕ) (partial : Bytes)
      → IsPaired (drain_open_fd parse_line (some identity) (some size) read offset partial).commits
  unfolding drain_open_fd
  drain_open_fd-IsPaired read size offset partial = elim (Bool-cases (ltb size offset)) [
    | inl e ↦ rw e (drain_from-IsPaired read size 0 [])
    | inr e ↦ rw e (drain_from-IsPaired read size offset partial)
  ]

-- the offset that is saved after the commits, when `offset` was before them
abbrev pub last_saved : ℕ → List Commit → ℕ
last_saved offset [] = offset
last_saved offset (flushed batch ∷ commits) = last_saved offset commits
last_saved offset (saved identity end ∷ commits) = last_saved end commits

-- What has been flushed since the last save: nothing, or one batch, in the last commit.
abbrev pub IsLastBatch : List Request → List Commit → Type 0
IsLastBatch repeated commits =
    (repeated ≡ []) ⊎ ((before : List Commit) × (commits ≡ before ++ flushed repeated ∷ []))

-- Where the commits can be taken up again after a crash, and what has been flushed beyond that.
abbrev pub Cut : (Bytes → Option Request) → Bytes → Bytes → ℕ → List Request → List Commit → Type 0
Cut parse_line file start offset rows commits =
    (base : List Request) × (repeated : List Request) × (rows ++ flushed_rows commits
      ≡ base ++ repeated)
    × Restart parse_line file start (last_saved offset commits) base
    × IsLastBatch repeated commits

IsLastBatch-append :
    (first commits : List Commit) (repeated : List Request)
    → IsLastBatch repeated commits
    → IsLastBatch repeated (first ++ commits)
IsLastBatch-append first commits repeated (inl e) = inl e
IsLastBatch-append first commits repeated (inr (before, e)) =
    inr (first ++ before, ap (λ c. first ++ c) e ∙ sym (append_assoc first before _))

crash_point :
    (parse_line : Bytes → Option Request) (file start : Bytes) (offset : ℕ) (rows : List Request)
    (before after : List Commit)
    → Restart parse_line file start offset rows
    → IsSafe parse_line file start rows (before ++ after)
    → IsPaired (before ++ after)
    → Cut parse_line file start offset rows before
crash_point parse_line file start offset rows [] after r safe paired = (rows, [], refl, r, inl refl)
crash_point parse_line file start offset rows (flushed batch ∷ []) after r safe paired =
    (rows, batch, ap (λ b. rows ++ b) (append-nil batch), r, inr ([], refl))
crash_point parse_line file start offset rows (flushed batch ∷ flushed more ∷ before) after r safe
      paired =
    absurd paired
crash_point parse_line file start offset rows (saved identity end ∷ before) after r safe paired =
    absurd paired
crash_point parse_line file start offset rows (flushed batch ∷ saved identity end ∷ before) after r
      safe paired =
    let (base, repeated, at_rows, restart, last) =
      crash_point parse_line file start end (rows ++ batch) before after safe.0 safe.1 paired in
    (
      base,
      repeated,
      sym (append_assoc rows batch (flushed_rows before)) ∙ at_rows,
      restart,
      IsLastBatch-append (flushed batch ∷ saved identity end ∷ []) before repeated last,
    )

-- What is in the tables after a drain was cut off and another has taken it up again.
abbrev pub IsResumed : (Bytes → Option Request) → Bytes → Bytes → List Commit → List Commit → Type 0
IsResumed parse_line file start before again =
    (lines : List Bytes) × (rest : Bytes) × (base : List Request) × (repeated : List Request)
    × (file ≡ start ++ (join_lines lines ++ rest))
    × All (Lacks b'\n') lines
    × Lacks b'\n' rest
    × (flushed_rows before ≡ base ++ repeated)
    × IsLastBatch repeated before
    × (base ++ flushed_rows again ≡ parsed parse_line lines)

module _ (parse_line : Bytes → Option Request) (identity other : Identity) (file : Bytes) where
  -- A drain of a file, whose reads may fail anywhere, is cut off by a crash after any of its commits. Another drain
  -- of that file, whose reads all answer something, goes on from the offset that was saved last, which is the one
  -- before the drain that was cut off if that had saved none. Then what the first one had flushed up to that offset
  -- and what the second one flushes are together the requests of all lines of the file from the first one's start
  -- on, each once and in their order. Flushed beyond that offset before the crash, and so flushed twice, is at most
  -- one batch: if the last commit before the crash was its flush, and its offset was still to be saved.
  pub drain_open_fd-IsResumed :
      (start partial ahead : Bytes) (read again : ℕ → ℕ → Option Bytes) (size : ℕ)
      (before after : List Commit)
      → IsReader file read
      → file ≡ start ++ (partial ++ ahead)
      → Lacks b'\n' partial
      → length start + length partial ≤ size
      → (drain_open_fd parse_line
          (some identity)
          (some size)
          read
          (length start + length partial)
          partial).commits
        ≡ before ++ after
      → IsReader file again
      → IsFullReader file again
      → IsResumed parse_line file start before
          (drain_open_fd parse_line
            (some other)
            (some (length file))
            again
            (last_saved (length start) before)
            []).commits
  unfolding IsFinished
  drain_open_fd-IsResumed start partial ahead read again size before after reader at_file lacks
        bound cut reader' full =
      let (c, none_left) =
        drain_open_fd-IsFinished parse_line (some identity) file start partial ahead read size
          reader at_file lacks bound in
      let begin : Restart parse_line file start (length start) [] = record {
        lines = [];
        ahead = partial ++ ahead;
        layout = at_file;
        are_lines = tt;
        at_offset = omega arith;
        at_rows = refl;
      } in
      let paired =
        drain_open_fd-IsPaired parse_line identity read size (length start + length partial)
          partial in
      let (base, repeated, at_rows, restart, last) =
        crash_point parse_line file start (length start) [] before after begin
          (subst (IsSafe parse_line file start []) cut c.safe) (subst IsPaired cut paired) in
      let (lines, rest, layout, are_lines, left, all_rows) =
        drain_open_fd-resumed parse_line (some other) file start (last_saved (length start) before)
          base again restart reader' full in
      (lines, rest, base, repeated, layout, are_lines, left, at_rows, last, all_rows)
