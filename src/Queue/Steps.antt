-- ===== src/Queue/Steps.antt =====
-- The runs of the queue: jobs come in and end in any order.
use sitey.Prelude.{Option, none, some, List, [], ◌∷◌, ◌++◌, In}
use sitey.Queue.{Job, DeploymentQueue, empty_queue, enqueue, finish}
use sitey.Queue.Select.{Fresh}

-- The queue with the history of its jobs: those that were enqueued and those that were started.
pub record Run : Type 0 where
  pub queue : DeploymentQueue
  pub enqueued : List Job
  pub started : List Job

abbrev pub initial : Run
initial = record { queue = empty_queue; enqueued = []; started = [] }

abbrev pub job_list : Option Job → List Job
job_list none = []
job_list (some j) = j ∷ []

unfoldable pub enqueue_step : Run → Job → Run
enqueue_step r j = record {
  queue = (enqueue r.queue j).0;
  enqueued = r.enqueued ++ j ∷ [];
  started = r.started ++ job_list (enqueue r.queue j).1;
}

unfoldable pub finish_step : Run → Job → Run
finish_step r j = record {
  queue = (finish r.queue j).0;
  enqueued = r.enqueued;
  started = r.started ++ job_list (finish r.queue j).1;
}

-- A job comes in with an identifier that no waiting job has (`nanoid` makes it), or an active job ends.
pub data Step (r : Run) : Run → Type 0 where
  arrives : (j : Job) → Fresh j r.queue.waiting → Step r (enqueue_step r j)
  ends : (j : Job) → In j r.queue.active → Step r (finish_step r j)

pub data Reach : Run → Type 0 where
  begin : Reach initial
  next : {r s : Run} → Reach r → Step r s → Reach s
