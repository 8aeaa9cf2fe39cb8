-- ===== src/Analytics/Rolled.antt =====
-- What a poll does with a log that was rolled.
use sitey.Prelude.{
  false, subst, ℕ, ◌+◌, ◌≡◌, refl, sym, ap, ◌∙◌, Option, none, some, List, [], ◌++◌, length, All,
  append-nil, append_assoc,
}
use sitey.Text.Split.{Lacks}
use sitey.Analytics.{Request, Bytes, Identity}
use sitey.Analytics.Drained.{IsReader}
use sitey.Analytics.Ingest.{Commit, persist_tail_state}
use sitey.Analytics.Lines.{flushed_rows, join_lines, parsed, flushed_rows-append}
use sitey.Analytics.Poll.{
  Handle, Tail, Polled, same_identity, poll, follow_roll, drain_tail, and_then, save_trailing,
}
use sitey.Analytics.Resumed.{IsFullReader, IsAll, drain_open_fd-IsAll}

-- The bytes of an open file, all of which can be read.
pub record IsFile (handle : Handle) (file : Bytes) : Type 0 where
  pub sized : handle.size ≡ some (length file)
  pub reader : IsReader file handle.read
  pub full : IsFullReader file handle.read

module _ (parse_line : Bytes → Option Request) where
  -- what a drain answers that has flushed all lines from `start`
  abbrev pub IsPolled : Bytes → Bytes → Identity → Polled → Type 0
  IsPolled file start identity (tail, commits) =
      (lines : List Bytes) × (file ≡ start ++ (join_lines lines ++ tail.partial))
      × All (Lacks b'\n') lines
      × Lacks b'\n' tail.partial
      × (flushed_rows commits ≡ parsed parse_line lines)
      × (tail.offset ≡ length file)
      × (tail.open_identity ≡ some identity)

  drain_tail-IsPolled :
      (file start partial ahead : Bytes) (handle : Handle) (identity : Identity)
      → IsFile handle file
      → file ≡ start ++ (partial ++ ahead)
      → Lacks b'\n' partial
      → IsPolled file start identity
          (drain_tail parse_line handle (some identity) (length start + length partial) partial)
  unfolding drain_tail IsAll
  drain_tail-IsPolled file start partial ahead handle identity f at_file lacks =
      let (lines, layout, are_lines, none_left, flushed_all, at_end) =
        drain_open_fd-IsAll parse_line (some identity) file start partial ahead handle.read f.reader
          f.full at_file lacks in
      let sized = f.sized in
      rw sized (lines, layout, are_lines, none_left, flushed_all, at_end, refl)

  follow_roll-rolled :
      (file : Handle) (tail : Tail) (commits : List Commit)
      → same_identity file.identity tail.open_identity ≡ false
      → follow_roll parse_line (some file) (tail, commits)
        ≡ and_then parse_line commits (drain_tail parse_line file (some file.identity) 0 [])
  unfolding follow_roll
  follow_roll-rolled file tail commits other = rw other refl

  persist-flushed_rows :
      (identity : Option Identity) (offset : ℕ) (partial : Bytes)
      → flushed_rows (persist_tail_state identity offset partial) ≡ []
  persist-flushed_rows none offset partial = refl
  persist-flushed_rows (some identity) offset partial = refl

  -- What a poll has done that went from one file to another.
  abbrev pub HasFollowed : Bytes → Bytes → Bytes → Bytes → Identity → Polled → Type 0
  HasFollowed old late new start identity (tail, commits) =
      (old_lines : List Bytes) × (new_lines : List Bytes) × (old_rest : Bytes) × (old
        ≡ start ++ (join_lines old_lines ++ old_rest))
      × (old ++ late ≡ start ++ (join_lines old_lines ++ (old_rest ++ late)))
      × All (Lacks b'\n') old_lines
      × Lacks b'\n' old_rest
      × (new ≡ join_lines new_lines ++ tail.partial)
      × All (Lacks b'\n') new_lines
      × Lacks b'\n' tail.partial
      × (flushed_rows commits ≡ parsed parse_line old_lines ++ parsed parse_line new_lines)
      × (tail.offset ≡ length new)
      × (tail.open_identity ≡ some identity)

  both-HasFollowed :
      (old late new start : Bytes) (one other : Identity) (left tail : Tail)
      (commits more : List Commit)
      → IsPolled old start one (left, commits)
      → IsPolled new [] other (tail, more)
      → HasFollowed old late new start other
          (save_trailing (and_then parse_line commits (tail, more)))
  both-HasFollowed old late new start one other left tail commits more
        (lines, layout, are_lines, lacks, rows, at_end, of_one)
        (lines', layout', are_lines', lacks', rows', at_end', of_other) =
      let with_late : old ++ late ≡ start ++ (join_lines lines ++ (left.partial ++ late)) =
        ap (λ o. o ++ late) layout ∙ simp (append_assoc) in
      let saved_only = persist-flushed_rows tail.open_identity tail.offset tail.partial in
      let last = persist_tail_state tail.open_identity tail.offset tail.partial in
      let all_rows : flushed_rows ((commits ++ more) ++ last)
          ≡ (flushed_rows commits ++ flushed_rows more) ++ [] =
        rw
          (flushed_rows-append (commits ++ more) last, flushed_rows-append commits more, saved_only)
          refl in
      (
        lines,
        lines',
        left.partial,
        layout,
        with_late,
        are_lines,
        lacks,
        layout',
        are_lines',
        lacks',
        all_rows ∙ simp (rows, rows', append-nil),
        at_end',
        of_other,
      )

  followed :
      (old late new start : Bytes) (file : Handle) (one : Identity) (left : Tail)
      (commits : List Commit)
      → IsPolled old start one (left, commits)
      → IsPolled new [] file.identity (drain_tail parse_line file (some file.identity) 0 [])
      → same_identity file.identity (some one) ≡ false
      → HasFollowed old late new start file.identity
          (save_trailing (follow_roll parse_line (some file) (left, commits)))
  followed old late new start file one left commits p q other =
      let of_one : left.open_identity ≡ some one = p.6 in
      let rolled =
        follow_roll-rolled file left commits
          (ap (λ i. same_identity file.identity i) of_one ∙ other) in
      subst (λ x. HasFollowed old late new start file.identity (save_trailing x)) (sym rolled)
        (both-HasFollowed old late new start one file.identity left _ commits _ p q)

  -- A poll drains its open file, which then holds `old`, and finds another file at the path. If every read answers
  -- something and no flush throws, it flushes exactly the requests of the complete lines that were left in `old` and
  -- of those of the new file, in their order, and it goes on at the end of the new file. What `old` held of an
  -- unfinished last line, and whatever `late` is written to that file after it was drained, is not flushed, and the
  -- position of the poll is in the old file no more.
  pub poll-HasFollowed :
      (old late new start partial ahead : Bytes) (own at_path : Handle) (identity : Identity)
      → IsFile own old
      → IsFile at_path new
      → old ≡ start ++ (partial ++ ahead)
      → Lacks b'\n' partial
      → same_identity at_path.identity (some identity) ≡ false
      → HasFollowed old late new start at_path.identity (
          poll parse_line own (some at_path) (record {
            open_identity = some identity;
            offset = length start + length partial;
            partial = partial;
          }))
  unfolding poll
  poll-HasFollowed old late new start partial ahead own at_path identity f g at_file lacks other =
      followed old late new start at_path identity _ _
        (drain_tail-IsPolled old start partial ahead own identity f at_file lacks)
        (drain_tail-IsPolled new [] [] new at_path at_path.identity g refl tt) other
