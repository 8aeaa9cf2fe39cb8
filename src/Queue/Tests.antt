-- ===== src/Queue/Tests.antt =====
-- Two services, three jobs: the second job of service 1 waits until the first ends.
use sitey.Prelude.{◌≡◌, refl, [], ◌∷◌, ◌++◌, inl, true, inr}
use sitey.Text.{codes}
use sitey.Queue.{Job, start, process_next, enqueue, finish, jobs_of, is_running}
use sitey.Queue.Invariant.{Distinct, services}
use sitey.Queue.Reachable.{Reach-one_job_per_service, Reach-fifo}
use sitey.Queue.Steps.{Run, initial, enqueue_step, finish_step, Reach, begin, next, arrives, ends}
use sitey.Prelude.{All}

abbrev first : Job
first = record { id = codes "a"; service_id = 1; deployment_id = codes "d1" }

abbrev second : Job
second = record { id = codes "b"; service_id = 1; deployment_id = codes "d2" }

abbrev other : Job
other = record { id = codes "c"; service_id = 2; deployment_id = codes "d3" }

abbrev three_in : Run
three_in = enqueue_step (enqueue_step (enqueue_step initial first) second) other

runs : Unit {0}
unfolding enqueue_step finish_step enqueue finish process_next start is_running
runs = tt

three_in_queue :
    (three_in.queue.waiting ≡ second ∷ [])
    × (three_in.queue.running ≡ 2 ∷ 1 ∷ [])
    × (three_in.started ≡ first ∷ other ∷ [])
unfolding runs
three_in_queue = (refl, refl, refl)

three_in-Reach : Reach three_in
unfolding runs
three_in-Reach =
    next (next (next begin (arrives first tt)) (arrives second tt)) (arrives other (refl, tt))

abbrev first_ended : Run
first_ended = finish_step three_in first

first_ended_queue :
    (first_ended.queue.waiting ≡ []) × (first_ended.started ≡ first ∷ other ∷ second ∷ [])
unfolding runs
first_ended_queue = (refl, refl)

Reach-one_job_per_service_example :
    Distinct (services three_in.queue.active)
    × (three_in.queue.running ≡ services three_in.queue.active)
Reach-one_job_per_service_example = Reach-one_job_per_service three_in-Reach

Reach-fifo_example :
    (jobs_of 1 (three_in.started ++ three_in.queue.waiting) ≡ jobs_of 1 three_in.enqueued)
    × All (λ (j : Job). is_running three_in.queue j.service_id ≡ true) three_in.queue.waiting
Reach-fifo_example = Reach-fifo 1 three_in-Reach

abbrev all_ended : Run
all_ended = finish_step (finish_step first_ended second) other

all_ended-Reach : Reach all_ended
unfolding runs
all_ended-Reach =
    next (next (next three_in-Reach (ends first (inr (inl refl)))) (ends second (inl refl)))
      (ends other (inl refl))

all_ended_quiet : all_ended.queue.active ≡ []
unfolding runs
all_ended_quiet = refl
