-- ===== src/Queue/Invariant.antt =====
-- The invariant of the queue.
use sitey.Prelude.{
  ℕ, ◌≡◌, refl, sym, ap, ◌∙◌, Bool, true, false, not, Option, none, some, List, [], ◌∷◌, ◌++◌, ◌==◌,
  arith, Bool-cases, Option-cases, All, All-map, inl, inr, find, find-none, keep, keep-append,
  append_assoc, append-nil, map, ◌⊎◌, ==_iff,
}
use sitey.Text.{text_eq}
use sitey.Queue.{Job, DeploymentQueue, jobs_of, has, start, process_next}
use sitey.Queue.Select.{find-Around, DistinctIds, remove-middle}
use sitey.Queue.Steps.{Run, job_list}

abbrev pub services : List Job → List ℕ
services js = map (λ (j : Job). j.service_id) js

-- No service occurs twice.
abbrev pub Distinct : List ℕ → Type 0
Distinct [] = Unit
Distinct (n ∷ ns) = (has ns n ≡ false) × Distinct ns

-- What holds of the queue between two steps, with its history.
pub record IsSound (r : Run) : Type 0 where
  -- the running services are those of the active jobs
  pub lockstep : r.queue.running ≡ services r.queue.active
  -- a service has at most one active job
  pub one_each : Distinct r.queue.running
  -- a job waits only while a job of its service is active
  pub busy : All (λ (j : Job). has r.queue.running j.service_id ≡ true) r.queue.waiting
  pub ids : DistinctIds r.queue.waiting
  -- of each service, the jobs were started in the order in which they came, and none was lost or repeated
  pub order : (n : ℕ) → jobs_of n (r.started ++ r.queue.waiting) ≡ jobs_of n r.enqueued

-- The invariant before `process_next`, when one service may have become idle.
pub record IsPending (q : DeploymentQueue) (enqueued started : List Job) (idle : ℕ) : Type 0 where
  pub lockstep : q.running ≡ services q.active
  pub one_each : Distinct q.running
  pub busy :
      All (λ (j : Job). (has q.running j.service_id ≡ true) ⊎ (j.service_id ≡ idle)) q.waiting
  pub ids : DistinctIds q.waiting
  pub order : (n : ℕ) → jobs_of n (started ++ q.waiting) ≡ jobs_of n enqueued

abbrev after : DeploymentQueue → List Job → List Job → Option Job → Run
after q enqueued started o = record {
  queue = (start q o).0;
  enqueued = enqueued;
  started = started ++ job_list (start q o).1;
}

none-IsSound :
    (q : DeploymentQueue) (enqueued started : List Job) (idle : ℕ)
    → IsPending q enqueued started idle
    → find (λ (j : Job). not (has q.running j.service_id)) q.waiting ≡ none
    → IsSound (after q enqueued started none)
unfolding start
none-IsSound q enqueued started idle p h = record {
  lockstep = p.lockstep;
  one_each = p.one_each;
  busy =
      All-map _ _ q.waiting (λ j e. ground (arith, e))
        (find-none (λ (j : Job). not (has q.running j.service_id)) q.waiting h);
  ids = p.ids;
  order = λ n. ap (jobs_of n) (rw append-nil refl) ∙ p.order n;
}

-- A job that is started comes after no waiting job of its own service.
idle-jobs_of :
    (running : List ℕ) (n : ℕ) (pre : List Job)
    → has running n ≡ false
    → All (λ (j : Job). not (has running j.service_id) ≡ false) pre
    → jobs_of n pre ≡ []
idle-jobs_of running n [] e h = refl
idle-jobs_of running n (j ∷ pre) e h =
    let other : (j.service_id == n) ≡ false = differs (Bool-cases (j.service_id == n)) in
    rw other (idle-jobs_of running n pre e h.1)
  where
    differs :
        ((j.service_id == n) ≡ true) ⊎ ((j.service_id == n) ≡ false) → (j.service_id == n) ≡ false
    differs (inr f) = f
    differs (inl t) = absurd (clash ((==_iff j.service_id n).0 t))
      where
        clash : j.service_id ≡ n → ⊥
        clash same = cc (h.0, e, ap (has running) same)

start-order :
    (n : ℕ) (p : Job) (running : List ℕ) (started pre post : List Job)
    → has running p.service_id ≡ false
    → All (λ (j : Job). not (has running j.service_id) ≡ false) pre
    → jobs_of n ((started ++ p ∷ []) ++ (pre ++ post)) ≡ jobs_of n (started ++ (pre ++ p ∷ post))
start-order n p running started pre post idle before = elim (Bool-cases (p.service_id == n)) [
  | inl e ↦
      let n_idle : has running n ≡ false =
        ap (has running) (sym ((==_iff p.service_id n).0 e)) ∙ idle in
      simp (keep-append, e, idle-jobs_of running n pre n_idle before, append_assoc)
  | inr e ↦ simp (keep-append, e, append_assoc)
]

still_busy :
    (p : Job) (running : List ℕ) (idle : ℕ) (js : List Job)
    → p.service_id ≡ idle
    → All (λ (j : Job). (has running j.service_id ≡ true) ⊎ (j.service_id ≡ idle)) js
    → All (λ (j : Job). has (p.service_id ∷ running) j.service_id ≡ true) js
still_busy p running idle js same h = All-map _ _ js one h
  where
    one :
        (j : Job)
        → (has running j.service_id ≡ true) ⊎ (j.service_id ≡ idle)
        → has (p.service_id ∷ running) j.service_id ≡ true
    one j (inl e) = ground (arith, e)
    one j (inr e) = rw ((==_iff p.service_id j.service_id).1 (same ∙ sym e)) refl

All-split {ℓ κ} :
    {A : Type ℓ} (P : A → Type κ) (xs : List A) (a : A) (ys : List A)
    → All P (xs ++ a ∷ ys)
    → P a × All P (xs ++ ys)
All-split P [] a ys h = h
All-split P (x ∷ xs) a ys h = let (p, rest) = All-split P xs a ys h.1 in (p, (h.0, rest))

some-IsSound :
    (q : DeploymentQueue) (enqueued started : List Job) (idle : ℕ) (p : Job)
    → IsPending q enqueued started idle
    → find (λ (j : Job). not (has q.running j.service_id)) q.waiting ≡ some p
    → IsSound (after q enqueued started (some p))
unfolding start
some-IsSound q enqueued started idle p h found =
    let r = find-Around (λ (j : Job). not (has q.running j.service_id)) q.waiting p found in
    let p_idle : has q.running p.service_id ≡ false =
      negated (has q.running p.service_id) r.accepted in
    let (removed, distinct) = remove-middle p r.pre r.post (rw r.whole at h.ids) in
    let (p_case, rest) = All-split _ r.pre p r.post (rw r.whole at h.busy) in
    let same : p.service_id ≡ idle = only_idle p_idle p_case in
    let kept = ap (keep (λ (j : Job). not (text_eq j.id p.id))) r.whole ∙ removed in
    record {
      lockstep = ap (λ ns. p.service_id ∷ ns) h.lockstep;
      one_each = (p_idle, h.one_each);
      busy = rw kept (still_busy p q.running idle (r.pre ++ r.post) same rest);
      ids = rw kept distinct;
      order = λ n.
          ap (λ js. jobs_of n ((started ++ p ∷ []) ++ js)) kept
          ∙ start-order n p q.running started r.pre r.post p_idle r.rejected
          ∙ ap (λ js. jobs_of n (started ++ js)) (sym r.whole)
          ∙ h.order n;
    }
  where
    negated : (b : Bool) → not b ≡ true → b ≡ false
    negated b e = ground arith

    only_idle :
        has q.running p.service_id ≡ false
        → (has q.running p.service_id ≡ true) ⊎ (p.service_id ≡ idle)
        → p.service_id ≡ idle
    only_idle e (inl t) = absurd (cc (e, t))
    only_idle e (inr s) = s

-- `process_next` restores the invariant when at most one service has become idle.
pub process_next-IsSound :
    (q : DeploymentQueue) (enqueued started : List Job) (idle : ℕ)
    → IsPending q enqueued started idle
    → IsSound (record {
      queue = (process_next q).0;
      enqueued = enqueued;
      started = started ++ job_list (process_next q).1;
    })
unfolding process_next
process_next-IsSound q enqueued started idle h =
    elim (Option-cases (find (λ (j : Job). not (has q.running j.service_id)) q.waiting)) [
      | inl e ↦ rw e (none-IsSound q enqueued started idle h e)
      | inr (p, e) ↦ rw e (some-IsSound q enqueued started idle p h e)
    ]
