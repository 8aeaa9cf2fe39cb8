-- ===== src/Analytics/Consumed.antt =====
-- The state of a drain in the middle of its file.
use sitey.Prelude.{
  ℕ, ◌+◌, ◌-◌, ◌≡◌, refl, sym, ap, ◌∙◌, Option, none, some, List, [], ◌∷◌, ◌++◌, length, All, arith,
  append_assoc, append-nil, All-append, length-append, subst,
}
use sitey.Text.Split.{Lacks}
use sitey.Analytics.{Request, Bytes, Identity}
use sitey.Analytics.Ingest.{Commit, flushed, saved, push_parsed, flush_batch}
use sitey.Analytics.Lines.{
  flushed_rows, join_lines, join_lines-snoc, flushed_rows-append, parsed, parsed-snoc,
}

-- Where a drain can be taken up again: the file up to `offset` is what was there before and then the given
-- lines, whose requests are `rows`.
pub record Restart (parse_line : Bytes → Option Request) (file start : Bytes) (offset : ℕ)
    (rows : List Request) : Type 0 where
  pub lines : List Bytes
  pub ahead : Bytes
  pub layout : file ≡ start ++ (join_lines lines ++ ahead)
  pub are_lines : All (Lacks b'\n') lines
  pub at_offset : offset ≡ length start + length (join_lines lines)
  pub at_rows : rows ≡ parsed parse_line lines

-- Every saved offset is one where the drain can be taken up again with what has been flushed by then; `rows` is
-- what had been flushed before.
abbrev pub IsSafe : (Bytes → Option Request) → Bytes → Bytes → List Request → List Commit → Type 0
IsSafe parse_line file start rows [] = Unit
IsSafe parse_line file start rows (flushed batch ∷ commits) =
    IsSafe parse_line file start (rows ++ batch) commits
IsSafe parse_line file start rows (saved identity offset ∷ commits) =
    Restart parse_line file start offset rows × IsSafe parse_line file start rows commits

IsSafe-append :
    (parse_line : Bytes → Option Request) (file start : Bytes) (rows : List Request)
    (xs ys : List Commit)
    → IsSafe parse_line file start rows xs
    → IsSafe parse_line file start (rows ++ flushed_rows xs) ys
    → IsSafe parse_line file start rows (xs ++ ys)
IsSafe-append parse_line file start rows [] ys h k =
    subst (λ r. IsSafe parse_line file start r ys) (append-nil rows) k
IsSafe-append parse_line file start rows (flushed batch ∷ xs) ys h k =
    IsSafe-append parse_line file start (rows ++ batch) xs ys h (
      subst (λ r. IsSafe parse_line file start r ys)
        (sym (append_assoc rows batch (flushed_rows xs))) k)
IsSafe-append parse_line file start rows (saved identity offset ∷ xs) ys h k =
    (h.0, IsSafe-append parse_line file start rows xs ys h.1 k)

-- The state of a drain in the middle of its file: the lines taken so far are flushed or in the batch.
pub record Consumed (parse_line : Bytes → Option Request) (file start : Bytes) (offset : ℕ)
    (partial : Bytes) (batch : List Request) (commits : List Commit) : Type 0 where
  pub lines : List Bytes
  pub ahead : Bytes
  pub layout : file ≡ start ++ (join_lines lines ++ (partial ++ ahead))
  pub are_lines : All (Lacks b'\n') lines
  pub at_offset : offset ≡ length start + (length (join_lines lines) + length partial)
  pub at_rows : flushed_rows commits ++ batch ≡ parsed parse_line lines
  pub safe : IsSafe parse_line file start [] commits

-- A batch is flushed, and what is committed with it is safe after it.
flushed-Consumed :
    (parse_line : Bytes → Option Request) (file start : Bytes) (offset : ℕ) (partial : Bytes)
    (batch : List Request) (commits more : List Commit)
    → Consumed parse_line file start offset partial batch commits
    → flushed_rows more ≡ []
    → IsSafe parse_line file start (flushed_rows commits ++ batch) more
    → Consumed parse_line file start offset partial [] (commits ++ flushed batch ∷ more)
flushed-Consumed parse_line file start offset partial batch commits more c none_more safe = record {
  lines = c.lines;
  ahead = c.ahead;
  layout = c.layout;
  are_lines = c.are_lines;
  at_offset = c.at_offset;
  at_rows =
      let all_rows : flushed_rows (commits ++ flushed batch ∷ more) ++ []
          ≡ flushed_rows commits ++ batch =
        simp (flushed_rows-append commits (flushed batch ∷ more), none_more, append-nil) in
      all_rows ∙ c.at_rows;
  safe = IsSafe-append parse_line file start [] commits (flushed batch ∷ more) c.safe safe;
}

-- After a flush the offset is saved where the lines taken end.
pub flush_batch-Consumed :
    (parse_line : Bytes → Option Request) (identity : Option Identity) (file start : Bytes)
    (offset : ℕ) (partial : Bytes) (batch : List Request) (commits : List Commit)
    → Consumed parse_line file start offset partial batch commits
    → Consumed parse_line file start offset partial []
        (commits ++ flush_batch parse_line identity offset partial batch)
flush_batch-Consumed parse_line none file start offset partial batch commits c =
    flushed-Consumed parse_line file start offset partial batch commits [] c refl tt
flush_batch-Consumed parse_line (some identity) file start offset partial batch commits c =
    flushed-Consumed parse_line file start offset partial batch commits
      (saved identity (offset - length partial) ∷ []) c refl (ended, tt)
  where
    ended : Restart parse_line file start (offset - length partial) (flushed_rows commits ++ batch)
    ended = record {
      lines = c.lines;
      ahead = partial ++ c.ahead;
      layout = c.layout;
      are_lines = c.are_lines;
      at_offset = omega (arith, c.at_offset);
      at_rows = c.at_rows;
    }

append-push_parsed :
    (xs ys : List Request) (r : Option Request) → xs ++ push_parsed ys r ≡ push_parsed (xs ++ ys) r
append-push_parsed xs ys none = refl
append-push_parsed xs ys (some r) = sym (append_assoc xs ys (r ∷ []))

-- A line is taken from what has been read.
pub push_line-Consumed :
    (parse_line : Bytes → Option Request) (file start : Bytes) (offset : ℕ) (line rest : Bytes)
    (batch : List Request) (commits : List Commit)
    → Lacks b'\n' line
    → Consumed parse_line file start offset (line ++ b'\n' ∷ rest) batch commits
    → Consumed parse_line file start offset rest (push_parsed batch (parse_line line)) commits
push_line-Consumed parse_line file start offset line rest batch commits lacks c = record {
  lines = c.lines ++ line ∷ [];
  ahead = c.ahead;
  layout = c.layout ∙ simp (join_lines-snoc c.lines line, append_assoc);
  are_lines = All-append (Lacks b'\n') c.lines (line ∷ []) c.are_lines (lacks, tt);
  at_offset =
      let grown = ap length (join_lines-snoc c.lines line) in
      omega (
        arith,
        c.at_offset,
        grown,
        length-append (join_lines c.lines) (line ++ b'\n' ∷ []),
        length-append line (b'\n' ∷ []),
        length-append line (b'\n' ∷ rest),
      );
  at_rows =
      append-push_parsed (flushed_rows commits) batch (parse_line line)
      ∙ ap (λ r. push_parsed r (parse_line line)) c.at_rows
      ∙ sym (parsed-snoc parse_line c.lines line);
  safe = c.safe;
}
