-- ===== src/PrintJobs/Closed.antt =====
-- A job that is done, failed or expired stays as it is.
use opticutter.Prelude.{
  ℕ, ◌≡◌, inl, inr, refl, false, Option, List, [], ◌∷◌, ◌++◌, ◌==◌, Bool-cases, arith,
}
use opticutter.Prelude.Text.{Text}
use opticutter.PrintJobs.{
  PrintJobStatus, PrintAgent, PrintJob, is_open, new_job, expire, requeue, sweep_job, sweep,
  claimable, claim_one, is_result, ack_job, ack_rows, ack,
}

-- Row by row: a job that was closed is the same job.
abbrev pub Kept : List PrintJob → List PrintJob → Type 0
Kept [] later = Unit
Kept (j ∷ js) [] = ⊥
Kept (j ∷ js) (l ∷ later) = (is_open j.status ≡ false → l ≡ j) × Kept js later

Kept-append : (jobs more : List PrintJob) → Kept jobs (jobs ++ more)
Kept-append [] more = tt
Kept-append (j ∷ js) more = ((λ e. refl), Kept-append js more)

Kept-refl : (jobs : List PrintJob) → Kept jobs jobs
Kept-refl [] = tt
Kept-refl (j ∷ js) = ((λ e. refl), Kept-refl js)

sweep_job_closed :
    (timeout now : ℕ) (j : PrintJob) → is_open j.status ≡ false → sweep_job timeout now j ≡ j
unfolding sweep_job expire requeue
sweep_job_closed timeout now j e = ground (arith, e)

sweep-Kept : (timeout now : ℕ) (jobs : List PrintJob) → Kept jobs (sweep timeout now jobs)
unfolding sweep
sweep-Kept timeout now [] = tt
sweep-Kept timeout now (j ∷ js) = (sweep_job_closed timeout now j, sweep-Kept timeout now js)

claim_one-Kept :
    (now : ℕ) (agent : PrintAgent) (jobs : List PrintJob) → Kept jobs (claim_one now agent jobs).0
unfolding claim_one
claim_one-Kept now agent [] = tt
claim_one-Kept now agent (j ∷ js) = elim (Bool-cases (claimable agent j)) [
  | inl e ↦ rw (e, claim_one) ((λ f. absurd (ground (arith, e, f))), Kept-refl js)
  | inr e ↦ rw (e, claim_one) ((λ f. refl), claim_one-Kept now agent js)
]

module _ (cut : Text → Text) (now : ℕ) (agent : PrintAgent) (job_id : ℕ) (status : PrintJobStatus)
    (reported : Option Text) where
  ack_job_closed : (j : PrintJob) → is_open j.status ≡ false → ack_job cut now status reported j ≡ j
  unfolding ack_job
  ack_job_closed j e = ground (arith, e)

  ack_rows-Kept :
      (jobs : List PrintJob) → Kept jobs (ack_rows cut now agent job_id status reported jobs).0
  unfolding ack_rows
  ack_rows-Kept [] = tt
  ack_rows-Kept (j ∷ js) = elim (Bool-cases (j.id == job_id)) [
    | inr f ↦ rw (f, ack_rows) ((λ e. refl), ack_rows-Kept js)
    | inl f ↦ elim (Bool-cases (j.branch_id == agent.branch_id)) [
      | inl g ↦ rw (f, ack_rows, g) (ack_job_closed j, Kept-refl js)
      | inr g ↦ rw (f, ack_rows, g) (Kept-refl (j ∷ js))
    ]
  ]

  ack-Kept : (jobs : List PrintJob) → Kept jobs (ack cut now agent job_id status reported jobs).0
  unfolding ack
  ack-Kept jobs = elim (Bool-cases (is_result status)) [
    | inl e ↦ rw (e, ack) (ack_rows-Kept jobs)
    | inr e ↦ rw (e, ack) (Kept-refl jobs)
  ]

-- One call on the queue.
pub data Step : List PrintJob → List PrintJob → Type 0 where
  enqueue :
      (id branch_id order_id now ttl : ℕ) (jobs : List PrintJob)
      → Step jobs (jobs ++ new_job id branch_id order_id now ttl ∷ [])
  sweeping : (timeout now : ℕ) (jobs : List PrintJob) → Step jobs (sweep timeout now jobs)
  claim :
      (now : ℕ) (agent : PrintAgent) (jobs : List PrintJob) → Step jobs (claim_one now agent jobs).0
  acknowledge :
      (cut : Text → Text) (now : ℕ) (agent : PrintAgent) (job_id : ℕ) (status : PrintJobStatus)
      (reported : Option Text) (jobs : List PrintJob)
      → Step jobs (ack cut now agent job_id status reported jobs).0

-- No call removes a row or changes a job that is done, failed or expired.
pub Step-Kept : (jobs later : List PrintJob) → Step jobs later → Kept jobs later
Step-Kept jobs _ (enqueue id branch_id order_id now ttl _) = Kept-append jobs _
Step-Kept jobs _ (sweeping timeout now _) = sweep-Kept timeout now jobs
Step-Kept jobs _ (claim now agent _) = claim_one-Kept now agent jobs
Step-Kept jobs _ (acknowledge cut now agent job_id status reported _) =
    ack-Kept cut now agent job_id status reported jobs
