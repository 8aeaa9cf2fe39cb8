-- ===== src/Analytics/Resumed.antt =====
-- Drains that read everything, and drains that are taken up again.
use sitey.Prelude.{
  ℕ, ◌+◌, ◌-◌, ◌≤◌, ◌≡◌, refl, sym, ap, ◌∙◌, subst, suc, Option, some, List, [], ◌∷◌, ◌++◌, length,
  All, Bool-cases, inl, inr, arith, append_assoc, append-nil, All-append, length-append, ltb, min,
  ◌<◌, false, length-zero,
}
use sitey.Text.Split.{Lacks}
use sitey.Analytics.{Request, Bytes, Identity}
use sitey.Analytics.Consumed.{Consumed, flush_batch-Consumed, Restart}
use sitey.Analytics.Drained.{IsReader, drain_loop-IsDrained}
use sitey.Analytics.Ingest.{
  Commit, Lines, Drain, drain_loop, read_chunk, drain_open_fd, finish_drain, drain_from,
}
use sitey.Analytics.Lines.{join_lines, flushed_rows, parsed, join_lines-append, parsed-append}

-- a reader that answers something of the file wherever there is something left
abbrev pub IsFullReader : Bytes → (ℕ → ℕ → Option Bytes) → Type 0
IsFullReader file read =
    (offset want : ℕ)
    → 1 ≤ want
    → offset + want ≤ length file
    → (c : ℕ) × (bytes : Bytes) × (read offset want ≡ some (c ∷ bytes))

module _ (parse_line : Bytes → Option Request) (identity : Option Identity) (file : Bytes) where
  drain_loop-offset :
      (read : ℕ → ℕ → Option Bytes)
      → IsReader file read
      → IsFullReader file read
      → (fuel offset : ℕ) (l : Lines) → offset ≤ length file
      → length file - offset ≤ fuel
      → (drain_loop parse_line identity read (length file) fuel offset l).offset ≡ length file
  unfolding drain_loop
  drain_loop-offset read reader full ℕ.zero offset (partial, batch, commits) bound enough =
      omega (arith, bound, enough)
  drain_loop-offset read reader full (suc fuel) offset (partial, batch, commits) bound enough =
      elim (Bool-cases (ltb offset (length file))) [
        | inr e ↦ rw e (ground arith)
        | inl e ↦
            let want = min read_chunk (length file - offset) in
            let more : offset < length file = ground arith in
            let (c, bytes, r) = full offset want (omega (arith, more)) (omega (arith, more)) in
            let (before, after, at_file, at_before, short) = reader offset want (c ∷ bytes) r in
            rw (e, r)
              (drain_loop-offset read reader full fuel (offset + length (c ∷ bytes)) _
                (omega (arith, short, bound, more)) (omega (arith, enough, more)))
      ]

  -- What a finished drain has done: its last batch is flushed as well.
  unfoldable pub IsFinished : Bytes → Drain → Type 0
  IsFinished start d =
      Consumed parse_line file start d.offset d.partial [] d.commits × Lacks b'\n' d.partial

  finish_drain-IsFinished :
      (start : Bytes) (offset : ℕ) (partial : Bytes) (batch : List Request) (commits : List Commit)
      → Consumed parse_line file start offset partial batch commits
      → Lacks b'\n' partial
      → IsFinished start (finish_drain parse_line identity offset partial batch commits)
  unfolding IsFinished
  finish_drain-IsFinished start offset partial [] commits c lacks = (c, lacks)
  finish_drain-IsFinished start offset partial (r ∷ batch) commits c lacks = (
    flush_batch-Consumed parse_line identity file start offset partial (r ∷ batch) commits c,
    lacks,
  )

  finish_drain-offset :
      (offset : ℕ) (partial : Bytes) (batch : List Request) (commits : List Commit)
      → (finish_drain parse_line identity offset partial batch commits).offset ≡ offset
  finish_drain-offset offset partial [] commits = refl
  finish_drain-offset offset partial (r ∷ batch) commits = refl

  -- Whatever its reads answer, and wherever they fail, a drain from a position between two lines ends at such a
  -- position: it has flushed exactly the requests of the lines it has passed, in their order, and every offset
  -- it has saved is the end of a line, up to which exactly the requests before it had been flushed by then.
  pub drain_open_fd-IsFinished :
      (start partial ahead : Bytes) (read : ℕ → ℕ → Option Bytes) (size : ℕ)
      → IsReader file read
      → file ≡ start ++ (partial ++ ahead)
      → Lacks b'\n' partial
      → length start + length partial ≤ size
      → IsFinished start (
          drain_open_fd parse_line identity
            (some size)
            read
            (length start + length partial)
            partial)
  unfolding drain_open_fd drain_from
  drain_open_fd-IsFinished start partial ahead read size reader at_file lacks bound =
      let c : Consumed parse_line file start (length start + length partial) partial [] [] =
        record {
          lines = [];
          ahead = ahead;
          layout = at_file;
          are_lines = tt;
          at_offset = omega arith;
          at_rows = refl;
          safe = tt;
        } in
      let (drained, none_left) =
        drain_loop-IsDrained parse_line identity file start read reader size
          (size - (length start + length partial)) (length start + length partial) (partial, [], [])
          c lacks in
      let kept : ltb size (length start + length partial) ≡ false = ground arith in
      rw kept (finish_drain-IsFinished start _ _ _ _ drained none_left)

  -- Where every read answers something, the drain gets to the end of the file.
  drain_open_fd-offset :
      (read : ℕ → ℕ → Option Bytes) (offset : ℕ) (partial : Bytes)
      → IsReader file read
      → IsFullReader file read
      → offset ≤ length file
      → (drain_open_fd parse_line identity (some (length file)) read offset partial).offset
        ≡ length file
  unfolding drain_open_fd drain_from
  drain_open_fd-offset read offset partial reader full bound =
      let kept : ltb (length file) offset ≡ false = ground arith in
      rw kept (
        finish_drain-offset _ _ _ _
        ∙ drain_loop-offset read reader full (length file - offset) offset (partial, [], []) bound
            (omega arith))

  -- The requests of all lines from `start` are flushed, and `partial` is what is left.
  unfoldable pub IsAll : Bytes → Drain → Type 0
  IsAll start d =
      (lines : List Bytes) × (file ≡ start ++ (join_lines lines ++ d.partial))
      × All (Lacks b'\n') lines
      × Lacks b'\n' d.partial
      × (flushed_rows d.commits ≡ parsed parse_line lines)
      × (d.offset ≡ length file)

  finished-IsAll :
      (start : Bytes) (d : Drain) → IsFinished start d → d.offset ≡ length file → IsAll start d
  unfolding IsFinished IsAll
  finished-IsAll start d (c, lacks) at_end =
      let none_ahead : c.ahead ≡ [] = length-zero c.ahead (
        omega (
          arith,
          c.at_offset,
          at_end,
          ap length c.layout,
          length-append start (join_lines c.lines ++ (d.partial ++ c.ahead)),
          length-append (join_lines c.lines) (d.partial ++ c.ahead),
          length-append d.partial c.ahead,
        )) in
      let layout : start ++ (join_lines c.lines ++ (d.partial ++ c.ahead))
          ≡ start ++ (join_lines c.lines ++ d.partial) =
        simp (none_ahead, append-nil) in
      (
        c.lines,
        c.layout ∙ layout,
        c.are_lines,
        lacks,
        sym (append-nil (flushed_rows d.commits)) ∙ c.at_rows,
        at_end,
      )

  -- A drain whose reads all answer something flushes the requests of all lines that lie ahead.
  pub drain_open_fd-IsAll :
      (start partial ahead : Bytes) (read : ℕ → ℕ → Option Bytes)
      → IsReader file read
      → IsFullReader file read
      → file ≡ start ++ (partial ++ ahead)
      → Lacks b'\n' partial
      → IsAll start (
          drain_open_fd parse_line identity
            (some (length file))
            read
            (length start + length partial)
            partial)
  drain_open_fd-IsAll start partial ahead read reader full at_file lacks =
      let bound : length start + length partial ≤ length file = omega (
        arith,
        ap length at_file,
        length-append start (partial ++ ahead),
        length-append partial ahead,
      ) in
      finished-IsAll start _
        (drain_open_fd-IsFinished start partial ahead read (length file) reader at_file lacks bound)
        (drain_open_fd-offset read (length start + length partial) partial reader full bound)

  rows-parsed :
      (rows more : List Request) (xs ys : List Bytes)
      → rows ≡ parsed parse_line xs
      → more ≡ parsed parse_line ys
      → rows ++ more ≡ parsed parse_line (xs ++ ys)
  rows-parsed rows more xs ys e k = rw (e, k) (sym (parsed-append parse_line xs ys))

  -- What was flushed before a restart and what all lines after it hold.
  resumed_lines :
      (start : Bytes) (offset : ℕ) (rows : List Request) (d : Drain)
      → (r : Restart parse_line file start offset rows) → IsAll (start ++ join_lines r.lines) d
      → (lines : List Bytes) × (rest : Bytes) × (file ≡ start ++ (join_lines lines ++ rest))
        × All (Lacks b'\n') lines
        × Lacks b'\n' rest
        × (rows ++ flushed_rows d.commits ≡ parsed parse_line lines)
  unfolding IsAll
  resumed_lines start offset rows d r (lines, layout, are_lines, lacks, flushed_all, at_end) =
      let joined : (start ++ join_lines r.lines) ++ (join_lines lines ++ d.partial)
          ≡ start ++ (join_lines (r.lines ++ lines) ++ d.partial) =
        simp (join_lines-append r.lines lines, append_assoc) in
      (
        r.lines ++ lines,
        d.partial,
        layout ∙ joined,
        All-append (Lacks b'\n') r.lines lines r.are_lines are_lines,
        lacks,
        rows-parsed rows (flushed_rows d.commits) r.lines lines r.at_rows flushed_all,
      )

  -- A drain that is taken up again from an offset saved before, after which every read answers something: the
  -- requests before that offset and what it flushes are together those of all lines of the file, in their order.
  pub drain_open_fd-resumed :
      (start : Bytes) (offset : ℕ) (rows : List Request) (read : ℕ → ℕ → Option Bytes)
      → Restart parse_line file start offset rows
      → IsReader file read
      → IsFullReader file read
      → (lines : List Bytes) × (rest : Bytes) × (file ≡ start ++ (join_lines lines ++ rest))
        × All (Lacks b'\n') lines
        × Lacks b'\n' rest
        × (rows
              ++ flushed_rows
                  (drain_open_fd parse_line identity (some (length file)) read offset []).commits
            ≡ parsed parse_line lines)
  drain_open_fd-resumed start offset rows read r reader full =
      let base = start ++ join_lines r.lines in
      let at_base : length base + 0 ≡ offset =
        omega (arith, r.at_offset, length-append start (join_lines r.lines)) in
      let at_file : file ≡ base ++ ([] ++ r.ahead) =
        r.layout ∙ sym (append_assoc start (join_lines r.lines) r.ahead) in
      let end : ℕ → Drain = λ n. drain_open_fd parse_line identity (some (length file)) read n [] in
      resumed_lines start offset rows (end offset) r (
        subst (λ n. IsAll base (end n)) at_base
          (drain_open_fd-IsAll base [] r.ahead read reader full at_file tt))
