-- ===== src/Queue.antt =====
-- server/src/lib/queue.ts: the in-memory deployment queue. `processNext` is asynchronous: it starts a
-- job and suspends until the job ends. `active` holds the jobs whose call of `processNext` is suspended
-- in `await pending.run()`; `finish` is what such a call does when the job ends, by success or by an
-- error, which the source only logs.
pub mod Select
pub mod Steps
pub mod Invariant
pub mod Reachable
mod Tests
use sitey.Prelude.{
  ℕ, Bool, not, Option, none, some, List, [], ◌∷◌, ◌++◌, ◌==◌, any, find, keep, length,
}
use sitey.Text.{Text, text_eq}

pub record Job : Type 0 where
  pub id : Text
  pub service_id : ℕ
  pub deployment_id : Text

pub record DeploymentQueue : Type 0 where
  pub waiting : List Job
  pub running : List ℕ
  pub active : List Job

abbrev pub empty_queue : DeploymentQueue
empty_queue = record { waiting = []; running = []; active = [] }

-- `this.running.has(n)`
abbrev pub has : List ℕ → ℕ → Bool
has running n = any (λ m. m == n) running

unfoldable pub start : DeploymentQueue → Option Job → DeploymentQueue × Option Job
start q none = (q, none)
start q (some pending) = (
  record q {
    waiting = keep (λ (j : Job). not (text_eq j.id pending.id)) q.waiting;
    running = pending.service_id ∷ q.running;
    active = pending ∷ q.active;
  },
  some pending,
)

-- The queue, and the job that this call starts.
unfoldable pub process_next : DeploymentQueue → DeploymentQueue × Option Job
process_next q = start q (find (λ (j : Job). not (has q.running j.service_id)) q.waiting)

unfoldable pub enqueue : DeploymentQueue → Job → DeploymentQueue × Option Job
enqueue q job = process_next (record q { waiting = q.waiting ++ job ∷ [] })

-- the `finally` block of processNext; the call that ends is the one of the job's service, which has no
-- other
unfoldable pub finish : DeploymentQueue → Job → DeploymentQueue × Option Job
finish q job = process_next (record q {
  running = keep (λ n. not (n == job.service_id)) q.running;
  active = keep (λ (j : Job). not (j.service_id == job.service_id)) q.active;
})

unfoldable pub is_running : DeploymentQueue → ℕ → Bool
is_running q n = has q.running n

-- The jobs of one service.
abbrev pub jobs_of : ℕ → List Job → List Job
jobs_of n = keep (λ (j : Job). j.service_id == n)

unfoldable pub queued_for : DeploymentQueue → ℕ → ℕ
queued_for q n = length (jobs_of n q.waiting)
