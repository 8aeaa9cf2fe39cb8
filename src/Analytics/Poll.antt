-- ===== src/Analytics/Poll.antt =====
-- poll and init of server/src/services/analytics/ingest.ts.
use sitey.Prelude.{ℕ, Bool, false, ◌&&◌, ◌==◌, Option, none, some, List, [], ◌++◌, if◌then◌else◌}
use sitey.Analytics.{Request, Bytes, Identity}
use sitey.Analytics.Ingest.{Commit, Drain, drain_open_fd, persist_tail_state}

-- An open file as the platform tells of it at the time it is drained: who it is, its size and its reads, either of
-- which may fail. What is written to it later is not told, as in the source, which asks for the size once.
pub record Handle : Type 0 where
  pub identity : Identity
  pub size : Option ℕ
  pub read : ℕ → ℕ → Option Bytes

-- The tail position: `openIdentity` with `openFd`, `offset` and `partial`.
pub record Tail : Type 0 where
  pub open_identity : Option Identity
  pub offset : ℕ
  pub partial : Bytes

-- a position and what has been committed on the way to it
abbrev pub Polled : Type 0
Polled = Tail × List Commit

abbrev pub same_identity : Identity → Option Identity → Bool
same_identity i none = false
same_identity i (some j) = i.ino == j.ino && i.dev == j.dev

-- openPath
abbrev pub open_path : Handle → ℕ → Tail
open_path file start = record { open_identity = some file.identity; offset = start; partial = [] }

-- the last lines of `poll`
abbrev pub save_trailing : Polled → Polled
save_trailing (tail, commits) =
    (tail, commits ++ persist_tail_state tail.open_identity tail.offset tail.partial)

module _ (parse_line : Bytes → Option Request) where
  abbrev pub drained_tail : Option Identity → Drain → Polled
  drained_tail identity d =
      (record { open_identity = identity; offset = d.offset; partial = d.partial }, d.commits)

  -- drainOpenFd on the open file, if there is one
  unfoldable pub drain_tail : Handle → Option Identity → ℕ → Bytes → Polled
  drain_tail file none offset partial =
      (record { open_identity = none; offset = offset; partial = partial }, [])
  drain_tail file (some identity) offset partial =
      drained_tail (some identity)
        (drain_open_fd parse_line (some identity) file.size file.read offset partial)

  abbrev pub and_then : List Commit → Polled → Polled
  and_then commits (tail, more) = (tail, commits ++ more)

  -- after the first drain: another file may stand at the path by then
  unfoldable pub follow_roll : Option Handle → Polled → Polled
  follow_roll none (tail, commits) = (tail, commits)
  follow_roll (some file) (tail, commits) =
      if same_identity file.identity tail.open_identity
      then (tail, commits)
      else and_then commits (drain_tail file (some file.identity) 0 [])

  -- poll: `own` is the file that is open, and `at_path` the one at the path, if there is one
  unfoldable pub poll : Handle → Option Handle → Tail → Polled
  poll own at_path tail =
      save_trailing
        (follow_roll at_path (drain_tail own tail.open_identity tail.offset tail.partial))

-- init: the saved position, and the file at the path
unfoldable pub init : Option (Identity × ℕ) → Option Handle → Tail → Tail
init saved none tail = tail
init none (some file) tail = open_path file 0
init (some (identity, offset)) (some file) tail =
    if same_identity identity (some file.identity) then open_path file offset else open_path file 0
