-- ===== src/Queue/Reachable.antt =====
-- Every run of the queue keeps the invariant.
use sitey.Prelude.{
  ℕ, ◌≡◌, refl, sym, ap, ◌∙◌, true, false, not, List, [], ◌∷◌, ◌++◌, ◌==◌, arith, Bool-cases, All,
  All-append, All-map, inl, inr, keep, keep-append, append_assoc, append-nil, ◌⊎◌, subst, ==_iff,
}
use sitey.Queue.{Job, jobs_of, has, enqueue, finish, is_running}
use sitey.Queue.Invariant.{services, Distinct, IsSound, process_next-IsSound}
use sitey.Queue.Select.{Fresh, DistinctIds-snoc}
use sitey.Queue.Steps.{Run, enqueue_step, finish_step, Step, arrives, ends, Reach, begin, next}

arrives-IsSound :
    (r : Run) (j : Job) → IsSound r → Fresh j r.queue.waiting → IsSound (enqueue_step r j)
unfolding enqueue_step enqueue
arrives-IsSound r j h f =
    process_next-IsSound _ (r.enqueued ++ j ∷ []) r.started j.service_id (record {
      lockstep = h.lockstep;
      one_each = h.one_each;
      busy =
          All-append _ r.queue.waiting (j ∷ []) (All-map _ _ r.queue.waiting (λ k e. inl e) h.busy)
            (inr refl, tt);
      ids = DistinctIds-snoc r.queue.waiting j h.ids f;
      order = λ n.
          ap (jobs_of n) (sym (append_assoc r.started r.queue.waiting (j ∷ [])))
          ∙ keep-append (λ (k : Job). k.service_id == n) (r.started ++ r.queue.waiting) (j ∷ [])
          ∙ ap (λ js. js ++ jobs_of n (j ∷ [])) (h.order n)
          ∙ sym (keep-append (λ (k : Job). k.service_id == n) r.enqueued (j ∷ []));
    })

without : ℕ → List ℕ → List ℕ
without s = keep (λ n. not (n == s))

has-without : (s n : ℕ) (ns : List ℕ) → (n == s) ≡ false → has (without s ns) n ≡ has ns n
unfolding without
has-without s n [] e = refl
has-without s n (m ∷ ns) e = ground (arith, has-without s n ns e)

has-without_le : (s n : ℕ) (ns : List ℕ) → has ns n ≡ false → has (without s ns) n ≡ false
unfolding without
has-without_le s n [] e = refl
has-without_le s n (m ∷ ns) e = ground (arith, has-without_le s n ns)

without-Distinct : (s : ℕ) (ns : List ℕ) → Distinct ns → Distinct (without s ns)
unfolding without
without-Distinct s [] h = tt
without-Distinct s (n ∷ ns) h = elim (Bool-cases (n == s)) [
  | inl e ↦ rw e (without-Distinct s ns h.1)
  | inr e ↦ rw e (has-without_le s n ns h.0, without-Distinct s ns h.1)
]

services-without :
    (s : ℕ) (js : List Job)
    → without s (services js) ≡ services (keep (λ (j : Job). not (j.service_id == s)) js)
unfolding without
services-without s [] = refl
services-without s (j ∷ js) = elim (Bool-cases (j.service_id == s)) [
  | inl e ↦ rw e (services-without s js)
  | inr e ↦ rw (e, services-without s js) refl
]

busy_or_freed :
    (s : ℕ) (running : List ℕ) (j : Job)
    → has running j.service_id ≡ true
    → (has (without s running) j.service_id ≡ true) ⊎ (j.service_id ≡ s)
busy_or_freed s running j h = elim (Bool-cases (j.service_id == s)) [
  | inl e ↦ inr ((==_iff j.service_id s).0 e)
  | inr e ↦ inl (has-without s j.service_id running e ∙ h)
]

ends-IsSound : (r : Run) (j : Job) → IsSound r → IsSound (finish_step r j)
unfolding finish_step finish without
ends-IsSound r j h = process_next-IsSound _ r.enqueued r.started j.service_id (record {
  lockstep = ap (without j.service_id) h.lockstep ∙ services-without j.service_id r.queue.active;
  one_each = without-Distinct j.service_id r.queue.running h.one_each;
  busy = All-map _ _ r.queue.waiting (busy_or_freed j.service_id r.queue.running) h.busy;
  ids = h.ids;
  order = h.order;
})

Step-IsSound : {r s : Run} → Step r s → IsSound r → IsSound s
Step-IsSound (arrives j f) h = arrives-IsSound _ j h f
Step-IsSound (ends j i) h = ends-IsSound _ j h

-- Whatever jobs come in and in whatever order they end, the invariant of the queue holds.
pub Reach-IsSound : {r : Run} → Reach r → IsSound r
Reach-IsSound begin = record {
  lockstep = refl;
  one_each = tt;
  busy = tt;
  ids = tt;
  order = λ n. refl;
}
Reach-IsSound (next reached step) = Step-IsSound step (Reach-IsSound reached)

-- In every reachable state of the deployment queue no two active jobs belong to one service, and the
-- running services are those of the active jobs.
pub Reach-one_job_per_service :
    {r : Run}
    → Reach r
    → Distinct (services r.queue.active) × (r.queue.running ≡ services r.queue.active)
Reach-one_job_per_service reached =
    let h = Reach-IsSound reached in (subst Distinct h.lockstep h.one_each, h.lockstep)

-- In every reachable state, of each service the started jobs followed by the waiting ones are the jobs
-- that were enqueued, in their order: none is lost, repeated or overtaken. And the service of every waiting job
-- is running: no job waits for an idle service.
pub Reach-fifo :
    {r : Run} (n : ℕ)
    → Reach r
    → (jobs_of n (r.started ++ r.queue.waiting) ≡ jobs_of n r.enqueued)
      × All (λ (j : Job). is_running r.queue j.service_id ≡ true) r.queue.waiting
unfolding is_running
Reach-fifo n reached = let sound = Reach-IsSound reached in (sound.order n, sound.busy)

nothing_waits :
    (ns : List ℕ) (js : List Job)
    → ns ≡ []
    → All (λ (j : Job). has ns j.service_id ≡ true) js
    → js ≡ []
nothing_waits ns [] e h = refl
nothing_waits ns (j ∷ js) e h = absurd (cc (rw e at h.0))

-- When no job is active in a reachable state, every job that was enqueued has been started.
Reach-drained :
    {r : Run} (n : ℕ) → Reach r → r.queue.active ≡ [] → jobs_of n r.started ≡ jobs_of n r.enqueued
Reach-drained {r} n reached quiet =
    let h = Reach-IsSound reached in
    let none_waits =
      nothing_waits r.queue.running r.queue.waiting (h.lockstep ∙ ap services quiet) h.busy in
    ap (jobs_of n) (sym (ap (λ js. r.started ++ js) none_waits ∙ append-nil r.started)) ∙ h.order n
