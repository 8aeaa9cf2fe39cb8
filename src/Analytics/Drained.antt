-- ===== src/Analytics/Drained.antt =====
-- What a drain commits.
use sitey.Prelude.{
  ℕ, ◌+◌, ◌-◌, ◌≤◌, ◌≡◌, refl, sym, ap, ◌∙◌, append-cancel, subst, leb, suc, Option, some, List, [],
  ◌∷◌, ◌++◌, length, Bool-cases, Option-cases, inl, inr, arith, append_assoc, length-append, ltb,
  min,
}
use sitey.Text.Split.{Lacks}
use sitey.Analytics.{Request, Bytes, Identity}
use sitey.Analytics.Consumed.{Consumed, flush_batch-Consumed, push_line-Consumed}
use sitey.Analytics.Ingest.{
  Commit, push_parsed, Lines, line_loop, after_line, batch_size, Drain, drain_loop, take_lines,
  read_chunk,
}
use sitey.Analytics.Lines.{split_line_cases, join_lines}

-- a reader of the file: what it answers stands there from the offset on
abbrev pub IsReader : Bytes → (ℕ → ℕ → Option Bytes) → Type 0
IsReader file read =
    (offset want : ℕ) (bytes : Bytes)
    → read offset want ≡ some bytes
    → (before : Bytes) × (after : Bytes) × (file ≡ before ++ (bytes ++ after))
      × (length before ≡ offset)
      × (length bytes ≤ want)

module _ (parse_line : Bytes → Option Request) (identity : Option Identity)
    (file start : Bytes) where
  abbrev pub AreConsumed : ℕ → Lines → Type 0
  AreConsumed offset (partial, batch, commits) =
      Consumed parse_line file start offset partial batch commits

  after_line-Consumed :
      (offset : ℕ) (rest : Bytes) (batch : List Request) (commits : List Commit)
      → Consumed parse_line file start offset rest batch commits
      → AreConsumed offset (after_line parse_line identity offset rest batch commits)
  after_line-Consumed offset rest batch commits c =
      elim (Bool-cases (leb batch_size (length batch))) [
        | inl e ↦
            rw e (flush_batch-Consumed parse_line identity file start offset rest batch commits c)
        | inr e ↦ rw e c
      ]

  after_line-rest :
      (offset : ℕ) (rest : Bytes) (batch : List Request) (commits : List Commit)
      → (after_line parse_line identity offset rest batch commits).0 ≡ rest
  after_line-rest offset rest batch commits = elim (Bool-cases (leb batch_size (length batch))) [
    | inl e ↦ rw e refl
    | inr e ↦ rw e refl
  ]

  line_loop-Consumed :
      (fuel offset : ℕ) (l : Lines)
      → AreConsumed offset l
      → length l.0 ≤ fuel
      → AreConsumed offset (line_loop parse_line identity fuel offset l)
        × Lacks b'\n' (line_loop parse_line identity fuel offset l).0
  unfolding line_loop
  line_loop-Consumed ℕ.zero offset ([], batch, commits) c enough = (c, tt)
  line_loop-Consumed ℕ.zero offset (b ∷ partial, batch, commits) c enough =
      absurd (omega (arith, enough))
  line_loop-Consumed (suc fuel) offset (partial, batch, commits) c enough =
      elim (split_line_cases partial) [
        | inl (e, lacks) ↦ rw e (c, lacks)
        | inr (line, rest, e, at_partial, lacks) ↦
            let whole : Consumed parse_line file start offset (line ++ b'\n' ∷ rest) batch commits =
              subst (λ p. Consumed parse_line file start offset p batch commits) at_partial c in
            let batch' = push_parsed batch (parse_line line) in
            let taken =
              push_line-Consumed parse_line file start offset line rest batch commits lacks whole in
            rw e (
              line_loop-Consumed fuel offset
                (after_line parse_line identity offset rest batch' commits)
                (after_line-Consumed offset rest batch' commits taken)
                (omega (
                  arith,
                  enough,
                  ap length at_partial,
                  length-append line (b'\n' ∷ rest),
                  ap length (after_line-rest offset rest batch' commits),
                )))
      ]

  -- What is read belongs to what lay ahead.
  read-Consumed :
      (offset : ℕ) (partial : Bytes) (batch : List Request) (commits : List Commit)
      (before bytes after : Bytes)
      → Consumed parse_line file start offset partial batch commits
      → file ≡ before ++ (bytes ++ after)
      → length before ≡ offset
      → Consumed parse_line file start (offset + length bytes) (partial ++ bytes) batch commits
  read-Consumed offset partial batch commits before bytes after c at_file at_before =
      let taken = start ++ (join_lines c.lines ++ partial) in
      let layout' : taken ++ c.ahead ≡ start ++ (join_lines c.lines ++ (partial ++ c.ahead)) =
        simp (append_assoc) in
      let one_length : length taken ≡ length before = omega (
        arith,
        c.at_offset,
        at_before,
        length-append start (join_lines c.lines ++ partial),
        length-append (join_lines c.lines) partial,
      ) in
      let same_ahead =
        append-cancel taken before c.ahead (bytes ++ after) one_length
          (layout' ∙ (sym c.layout ∙ at_file)) in
      let new_layout : start ++ (join_lines c.lines ++ (partial ++ (bytes ++ after)))
          ≡ start ++ (join_lines c.lines ++ ((partial ++ bytes) ++ after)) =
        simp (append_assoc) in
      record {
        lines = c.lines;
        ahead = after;
        layout =
            c.layout
            ∙ (ap (λ t. start ++ (join_lines c.lines ++ (partial ++ t))) same_ahead ∙ new_layout);
        are_lines = c.are_lines;
        at_offset = omega (arith, c.at_offset, at_before, length-append partial bytes);
        at_rows = c.at_rows;
        safe = c.safe;
      }

  -- the state of a drain between two reads
  abbrev pub IsDrained : Drain → Type 0
  IsDrained d =
      Consumed parse_line file start d.offset d.partial d.batch d.commits × Lacks b'\n' d.partial

  pub drain_loop-IsDrained :
      (read : ℕ → ℕ → Option Bytes)
      → IsReader file read
      → (size fuel offset : ℕ) (l : Lines) → AreConsumed offset l
      → Lacks b'\n' l.0
      → IsDrained (drain_loop parse_line identity read size fuel offset l)
  unfolding drain_loop take_lines
  drain_loop-IsDrained read reader size ℕ.zero offset (partial, batch, commits) c lacks = (c, lacks)
  drain_loop-IsDrained read reader size (suc fuel) offset (partial, batch, commits) c lacks =
      elim (Bool-cases (ltb offset size)) [
        | inr e ↦ rw e (c, lacks)
        | inl e ↦ elim (Option-cases (read offset (min read_chunk (size - offset)))) [
          | inl r ↦ rw (e, r) (c, lacks)
          | inr ([], r) ↦ rw (e, r) (c, lacks)
          | inr (b ∷ bytes, r) ↦
              let (before, after, at_file, at_before, short) = reader offset _ (b ∷ bytes) r in
              let appended =
                read-Consumed offset partial batch commits before (b ∷ bytes) after c at_file
                  at_before in
              let (taken, none_left) =
                line_loop-Consumed (length (partial ++ b ∷ bytes)) (offset + length (b ∷ bytes))
                  (partial ++ b ∷ bytes, batch, commits) appended (omega arith) in
              rw (e, r)
                (drain_loop-IsDrained read reader size fuel (offset + length (b ∷ bytes)) _ taken
                  none_left)
        ]
      ]
