-- ===== src/PrintJobs/Queue.antt =====
-- What the calls on the print queue keep of its jobs.
use opticutter.Prelude.{
  ℕ, ◌≤◌, ◌<◌, ◌≡◌, inl, inr, refl, subst, Bool, true, false, Option, none, some, List, [], ◌∷◌,
  ◌++◌, All, All-append, ◌==◌, Bool-cases, arith,
}
use mathlib.Core.Option.{some-injective}
use opticutter.Prelude.Text.{Text}
use opticutter.PrintJobs.{
  PrintJobStatus, pending, sent, PrintAgent, PrintJob, is_open, new_job, expire, requeue, sweep_job,
  sweep, claim_job, claimable, claim_one, is_result, ack_job, ack_rows, ack,
}

abbrev is_some {ℓ} : {A : Type ℓ} → Option A → Bool
is_some none = false
is_some (some a) = true

-- a job waits for no agent, a sent one has its agent, and a reported one has its time
pub record IsJob (j : PrintJob) : Type 0 where
  pub unclaimed : j.status ≡ pending → j.agent_id ≡ none
  pub claimed :
      j.status ≡ sent → (is_some j.agent_id ≡ true) × (is_some j.sent_at ≡ true) × (0 < j.attempts)
  pub reported : is_some j.done_at ≡ is_result j.status

sweep_job-IsJob : (timeout now : ℕ) (j : PrintJob) → IsJob j → IsJob (sweep_job timeout now j)
unfolding sweep_job expire requeue
sweep_job-IsJob timeout now j h = record {
  unclaimed = ground (arith, h.unclaimed);
  claimed = ground (arith, h.claimed);
  reported = ground (arith, h.reported);
}

claim_job-IsJob :
    (now : ℕ) (agent : PrintAgent) (j : PrintJob)
    → claimable agent j ≡ true
    → IsJob j
    → IsJob (claim_job now agent j)
unfolding claim_job
claim_job-IsJob now agent j e h = record {
  unclaimed = λ f. absurd (ground (arith, f));
  claimed = λ f. (refl, refl, omega arith);
  reported = ground (arith, h.reported, e);
}

ack_job-IsJob :
    (cut : Text → Text) (now : ℕ) (status : PrintJobStatus) (reported : Option Text) (j : PrintJob)
    → is_result status ≡ true
    → IsJob j
    → IsJob (ack_job cut now status reported j)
unfolding ack_job
ack_job-IsJob cut now status reported j e h = record {
  unclaimed = ground (arith, e, h.unclaimed);
  claimed = ground (arith, e, h.claimed);
  reported = ground (arith, e, h.reported);
}

sweep-IsJob :
    (timeout now : ℕ) (jobs : List PrintJob) → All IsJob jobs → All IsJob (sweep timeout now jobs)
unfolding sweep
sweep-IsJob timeout now [] h = tt
sweep-IsJob timeout now (j ∷ js) h =
    (sweep_job-IsJob timeout now j h.0, sweep-IsJob timeout now js h.1)

claim_one-IsJob :
    (now : ℕ) (agent : PrintAgent) (jobs : List PrintJob)
    → All IsJob jobs
    → All IsJob (claim_one now agent jobs).0
unfolding claim_one
claim_one-IsJob now agent [] h = tt
claim_one-IsJob now agent (j ∷ js) h = elim (Bool-cases (claimable agent j)) [
  | inl e ↦ rw (e, claim_one) (claim_job-IsJob now agent j e h.0, h.1)
  | inr e ↦ rw (e, claim_one) (h.0, claim_one-IsJob now agent js h.1)
]

module _ (cut : Text → Text) (now : ℕ) (agent : PrintAgent) (job_id : ℕ) (status : PrintJobStatus)
    (reported : Option Text) where
  ack_rows-IsJob :
      (jobs : List PrintJob)
      → is_result status ≡ true
      → All IsJob jobs
      → All IsJob (ack_rows cut now agent job_id status reported jobs).0
  unfolding ack_rows
  ack_rows-IsJob [] e h = tt
  ack_rows-IsJob (j ∷ js) e h = elim (Bool-cases (j.id == job_id)) [
    | inr f ↦ rw (f, ack_rows) (h.0, ack_rows-IsJob js e h.1)
    | inl f ↦ elim (Bool-cases (j.branch_id == agent.branch_id)) [
      | inl g ↦ rw (f, ack_rows, g) (ack_job-IsJob cut now status reported j e h.0, h.1)
      | inr g ↦ rw (f, ack_rows, g) h
    ]
  ]

  ack-IsJob :
      (jobs : List PrintJob)
      → All IsJob jobs
      → All IsJob (ack cut now agent job_id status reported jobs).0
  unfolding ack
  ack-IsJob jobs h = elim (Bool-cases (is_result status)) [
    | inl e ↦ rw (e, ack) (ack_rows-IsJob jobs e h)
    | inr e ↦ rw (e, ack) h
  ]

-- Every table that the calls lead to.
pub data Reachable : List PrintJob → Type 0 where
  empty : Reachable []
  enqueued :
      (id branch_id order_id now ttl : ℕ) (jobs : List PrintJob)
      → Reachable jobs
      → Reachable (jobs ++ new_job id branch_id order_id now ttl ∷ [])
  swept :
      (timeout now : ℕ) (jobs : List PrintJob) → Reachable jobs → Reachable (sweep timeout now jobs)
  taken :
      (now : ℕ) (agent : PrintAgent) (jobs : List PrintJob)
      → Reachable jobs
      → Reachable (claim_one now agent jobs).0
  acked :
      (cut : Text → Text) (now : ℕ) (agent : PrintAgent) (job_id : ℕ) (status : PrintJobStatus)
      (reported : Option Text) (jobs : List PrintJob)
      → Reachable jobs
      → Reachable (ack cut now agent job_id status reported jobs).0

new_job-IsJob : (id branch_id order_id now ttl : ℕ) → IsJob (new_job id branch_id order_id now ttl)
unfolding new_job
new_job-IsJob id branch_id order_id now ttl = record {
  unclaimed = λ e. refl;
  claimed = λ e. absurd (ground (arith, e));
  reported = refl;
}

-- In every table that the calls lead to, a pending job has no agent, a sent one has its agent, its
-- time and an attempt, and a job has a time of its result just when its status is `done` or `error`.
pub Reachable-IsJob : (jobs : List PrintJob) → Reachable jobs → All IsJob jobs
Reachable-IsJob _ empty = tt
Reachable-IsJob _ (enqueued id branch_id order_id now ttl jobs r) =
    All-append IsJob jobs (new_job id branch_id order_id now ttl ∷ []) (Reachable-IsJob jobs r)
      (new_job-IsJob id branch_id order_id now ttl, tt)
Reachable-IsJob _ (swept timeout now jobs r) = sweep-IsJob timeout now jobs (Reachable-IsJob jobs r)
Reachable-IsJob _ (taken now agent jobs r) = claim_one-IsJob now agent jobs (Reachable-IsJob jobs r)
Reachable-IsJob _ (acked cut now agent job_id status reported jobs r) =
    ack-IsJob cut now agent job_id status reported jobs (Reachable-IsJob jobs r)

-- an open job has not reached its end
abbrev pub IsFresh : ℕ → PrintJob → Type 0
IsFresh now j = is_open j.status ≡ true → now ≤ j.expires_at

sweep-IsFresh :
    (timeout now : ℕ) (jobs : List PrintJob) → All (IsFresh now) (sweep timeout now jobs)
unfolding sweep sweep_job expire requeue
sweep-IsFresh timeout now [] = tt
sweep-IsFresh timeout now (j ∷ js) = (ground arith, sweep-IsFresh timeout now js)

-- What the agent of a branch is given.
pub record IsClaimed (now : ℕ) (agent : PrintAgent) (j : PrintJob) : Type 0 where
  pub branch : j.branch_id ≡ agent.branch_id
  pub status : j.status ≡ sent
  pub agent_id : j.agent_id ≡ some agent.id
  pub fresh : now ≤ j.expires_at

claim_fresh :
    (swept_at now : ℕ) (agent : PrintAgent) (jobs : List PrintJob) {j : PrintJob}
    → All (IsFresh swept_at) jobs
    → (claim_one now agent jobs).1 ≡ some j
    → IsClaimed swept_at agent j
unfolding claim_one claim_job
claim_fresh swept_at now agent [] h e = absurd (ground (arith, e))
claim_fresh swept_at now agent (i ∷ is) {j} h e = elim (Bool-cases (claimable agent i)) [
  | inr f ↦ claim_fresh swept_at now agent is h.1 (rw (f, claim_one) at e)
  | inl f ↦
      let same : claim_job now agent i ≡ j = some-injective _ _ (rw (f, claim_one) at e) in
      subst (IsClaimed swept_at agent) same (record {
        branch = ground (arith, f);
        status = refl;
        agent_id = refl;
        fresh = ground (arith, f, h.0);
      })
]

-- A job claimed after a sweep is of the agent's branch, is now sent to that agent, and had not
-- expired at the sweep.
pub claim_one-sweep :
    (timeout swept_at now : ℕ) (agent : PrintAgent) (jobs : List PrintJob) {j : PrintJob}
    → (claim_one now agent (sweep timeout swept_at jobs)).1 ≡ some j
    → IsClaimed swept_at agent j
claim_one-sweep timeout swept_at now agent jobs e =
    claim_fresh swept_at now agent (sweep timeout swept_at jobs)
      (sweep-IsFresh timeout swept_at jobs) e
