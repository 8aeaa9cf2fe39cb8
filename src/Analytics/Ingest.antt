-- ===== src/Analytics/Ingest.antt =====
-- drainOpenFd of server/src/services/analytics/ingest.ts. A drain answers the transactions that it commits, in
-- their order, so that what a crash leaves behind is a part of them from the start.
use sitey.Prelude.{
  ℕ, suc, ◌+◌, ◌-◌, min, ◌==◌, ltb, leb, Option, none, some, List, [], ◌∷◌, ◌++◌, length,
  if◌then◌else◌,
}
use sitey.Analytics.{Request, Bytes, Identity}

abbrev pub read_chunk : ℕ
read_chunk = 65536

abbrev pub batch_size : ℕ
batch_size = 500

-- A transaction: a batch is flushed, or an offset is saved with the file's identity.
pub data Commit : Type 0 where
  flushed : List Request → Commit
  saved : Identity → ℕ → Commit

abbrev pub with_byte : ℕ → Option (Bytes × Bytes) → Option (Bytes × Bytes)
with_byte c none = none
with_byte c (some (line, rest)) = some (c ∷ line, rest)

-- the bytes before the first newline and those after it
unfoldable pub split_line : Bytes → Option (Bytes × Bytes)
split_line [] = none
split_line (c ∷ s) =
    let rest = with_byte c (split_line s) in if c == b'\n' then some ([], s) else rest

abbrev pub push_parsed : List Request → Option Request → List Request
push_parsed batch none = batch
push_parsed batch (some r) = batch ++ r ∷ []

-- persistTailState
abbrev pub persist_tail_state : Option Identity → ℕ → Bytes → List Commit
persist_tail_state none offset partial = []
persist_tail_state (some identity) offset partial = saved identity (offset - length partial) ∷ []

-- The variables of a drain, and what it has committed.
pub record Drain : Type 0 where
  pub offset : ℕ
  pub partial : Bytes
  pub batch : List Request
  pub commits : List Commit

abbrev pub drain_of : ℕ → Bytes → List Request → List Commit → Drain
drain_of offset partial batch commits = record {
  offset = offset;
  partial = partial;
  batch = batch;
  commits = commits;
}

-- what is left of the bytes, the batch and the commits after a line
abbrev pub Lines : Type 0
Lines = Bytes × List Request × List Commit

module _ (parse_line : Bytes → Option Request) (identity : Option Identity) where
  abbrev pub flush_batch : ℕ → Bytes → List Request → List Commit
  flush_batch offset partial batch = flushed batch ∷ persist_tail_state identity offset partial

  abbrev pub after_line : ℕ → Bytes → List Request → List Commit → Lines
  after_line offset rest batch commits =
      if leb batch_size (length batch)
      then (rest, [], commits ++ flush_batch offset rest batch)
      else (rest, batch, commits)

  abbrev pub next_line :
      (Lines → Lines) → ℕ → List Request → List Commit → Bytes → Option (Bytes × Bytes) → Lines
  next_line continue offset batch commits partial none = (partial, batch, commits)
  next_line continue offset batch commits partial (some (line, rest)) =
      continue (after_line offset rest (push_parsed batch (parse_line line)) commits)

  -- the loop over the lines that have been read; a line takes at least one byte, so their count is fuel enough
  unfoldable pub line_loop : ℕ → ℕ → Lines → Lines
  line_loop ℕ.zero offset (partial, batch, commits) = (partial, batch, commits)
  line_loop (suc fuel) offset (partial, batch, commits) =
      let continue : Lines → Lines = λ l. line_loop fuel offset l in
      next_line continue offset batch commits partial (split_line partial)

  -- all the complete lines of what has been read
  unfoldable pub take_lines : ℕ → Bytes → List Request → List Commit → Lines
  take_lines offset partial batch commits =
      line_loop (length partial) offset (partial, batch, commits)

  -- what a read of the file answers: it throws (`none`), or these are the bytes
  abbrev pub after_read :
      (ℕ → Lines → Drain) → ℕ → Bytes → List Request → List Commit → Option Bytes → Drain
  after_read continue offset partial batch commits none = drain_of offset partial batch commits
  after_read continue offset partial batch commits (some []) = drain_of offset partial batch commits
  after_read continue offset partial batch commits (some (c ∷ bytes)) =
      let end = offset + length (c ∷ bytes) in
      continue end (take_lines end (partial ++ c ∷ bytes) batch commits)

  -- the loop up to `size`; every read moves the offset, so `size - offset` is fuel enough
  unfoldable pub drain_loop : (ℕ → ℕ → Option Bytes) → ℕ → ℕ → ℕ → Lines → Drain
  drain_loop read size ℕ.zero offset (partial, batch, commits) =
      drain_of offset partial batch commits
  drain_loop read size (suc fuel) offset (partial, batch, commits) =
      let continue : ℕ → Lines → Drain = λ end l. drain_loop read size fuel end l in
      if ltb offset size
      then after_read continue offset partial batch commits
          (read offset (min read_chunk (size - offset)))
      else drain_of offset partial batch commits

  -- the last batch
  abbrev pub finish_drain : ℕ → Bytes → List Request → List Commit → Drain
  finish_drain offset partial [] commits = drain_of offset partial [] commits
  finish_drain offset partial (r ∷ batch) commits =
      drain_of offset partial (r ∷ batch) (commits ++ flush_batch offset partial (r ∷ batch))

  -- the drain from an offset, after the size has been told
  unfoldable pub drain_from : (ℕ → ℕ → Option Bytes) → ℕ → ℕ → Bytes → Drain
  drain_from read size offset partial =
      let d = drain_loop read size (size - offset) offset (partial, [], []) in
      finish_drain d.offset d.partial d.batch d.commits

  -- drainOpenFd, given the size of the open file, which `fstatSync` may fail to tell, and its reads
  unfoldable pub drain_open_fd : Option ℕ → (ℕ → ℕ → Option Bytes) → ℕ → Bytes → Drain
  drain_open_fd none read offset partial = drain_of offset partial [] []
  drain_open_fd (some size) read offset partial =
      if ltb size offset then drain_from read size 0 [] else drain_from read size offset partial
