-- ===== src/PrintJobs.antt =====
-- The print queue: src/modules/print_jobs/service.py and model.py. The table is a list in the order of
-- the ids, which is the order of creation; instants are numbers. Spool files are not modelled.
pub mod Queue
pub mod Closed
mod Tests
use opticutter.Prelude.{
  ℕ, suc, ◌+◌, ◌-◌, Bool, true, false, not, ◌&&◌, ◌||◌, Option, none, some, List, [], ◌∷◌, ◌++◌,
  map, ltb, ◌==◌, if◌then◌else◌, Result, ok, err, validation_error, entity_not_found,
}
use opticutter.Prelude.Text.{Text}

pub data PrintJobStatus : Type 0 where
  pending sent done error expired : PrintJobStatus

pub record PrintAgent : Type 0 where
  pub id : ℕ
  pub branch_id : ℕ

pub record PrintJob : Type 0 where
  pub id : ℕ
  pub branch_id : ℕ
  pub agent_id : Option ℕ
  pub order_id : ℕ
  pub status : PrintJobStatus
  pub attempts : ℕ
  pub error_message : Option Text
  pub sent_at : Option ℕ
  pub done_at : Option ℕ
  pub expires_at : ℕ

abbrev pub is_pending : PrintJobStatus → Bool
is_pending pending = true
is_pending _ = false

abbrev pub is_sent : PrintJobStatus → Bool
is_sent sent = true
is_sent _ = false

-- status in PRINT_JOB_OPEN_STATUSES
abbrev pub is_open : PrintJobStatus → Bool
is_open pending = true
is_open sent = true
is_open _ = false

-- the row that `_spool_and_create` adds
unfoldable pub new_job : ℕ → ℕ → ℕ → ℕ → ℕ → PrintJob
new_job id branch_id order_id now ttl = record {
  id = id;
  branch_id = branch_id;
  agent_id = none;
  order_id = order_id;
  status = pending;
  attempts = 0;
  error_message = none;
  sent_at = none;
  done_at = none;
  expires_at = now + ttl;
}

-- the first bulk update of `_sweep`
unfoldable pub expire : ℕ → PrintJob → PrintJob
expire now j = if is_open j.status && ltb j.expires_at now then record j { status = expired } else j

-- `sent_at < now - timeout`; a null `sent_at` compares false
abbrev pub is_stale : ℕ → ℕ → Option ℕ → Bool
is_stale timeout now none = false
is_stale timeout now (some at) = ltb (at + timeout) now

-- the second bulk update of `_sweep`
unfoldable pub requeue : ℕ → ℕ → PrintJob → PrintJob
requeue timeout now j =
    if is_sent j.status && is_stale timeout now j.sent_at
    then record j { status = pending; agent_id = none }
    else j

unfoldable pub sweep_job : ℕ → ℕ → PrintJob → PrintJob
unfolding expire requeue
sweep_job timeout now j = requeue timeout now (expire now j)

unfoldable pub sweep : ℕ → ℕ → List PrintJob → List PrintJob
sweep timeout now [] = []
sweep timeout now (j ∷ js) = sweep_job timeout now j ∷ sweep timeout now js

unfoldable pub claim_job : ℕ → PrintAgent → PrintJob → PrintJob
claim_job now agent j = record j {
  status = sent;
  sent_at = some now;
  agent_id = some agent.id;
  attempts = j.attempts + 1;
}

abbrev pub claimable : PrintAgent → PrintJob → Bool
claimable agent j = j.branch_id == agent.branch_id && is_pending j.status

-- `_claim_one`: the jobs after it, and the job claimed
unfoldable pub claim_one : ℕ → PrintAgent → List PrintJob → List PrintJob × Option PrintJob
unfolding claim_job
claim_one now agent [] = ([], none)
claim_one now agent (j ∷ js) =
    let (later, claimed) = claim_one now agent js in
    if claimable agent j
    then (claim_job now agent j ∷ js, some (claim_job now agent j))
    else (j ∷ later, claimed)

-- status in ('done', 'error')
abbrev pub is_result : PrintJobStatus → Bool
is_result done = true
is_result error = true
is_result _ = false

-- `error[:512] if status == 'error' and error else None`; `cut` takes the first 512 characters
abbrev pub message : (Text → Text) → PrintJobStatus → Option Text → Option Text
message cut error (some (c ∷ cs)) = some (cut (c ∷ cs))
message cut _ _ = none

unfoldable pub ack_job : (Text → Text) → ℕ → PrintJobStatus → Option Text → PrintJob → PrintJob
ack_job cut now status reported j =
    if is_sent j.status
    then record j {
      status = status;
      done_at = some now;
      error_message = message cut status reported;
    }
    else j

-- the row with the id, if the agent's branch owns it, after the acknowledgement
unfoldable pub ack_rows :
    (Text → Text)
    → ℕ
    → PrintAgent
    → ℕ
    → PrintJobStatus
    → Option Text
    → List PrintJob
    → List PrintJob × Result PrintJob
unfolding ack_job
ack_rows cut now agent job_id status reported [] = ([], err entity_not_found)
ack_rows cut now agent job_id status reported (j ∷ js) =
    let (later, result) = ack_rows cut now agent job_id status reported js in
    if j.id == job_id
    then (if j.branch_id == agent.branch_id
        then (ack_job cut now status reported j ∷ js, ok (ack_job cut now status reported j))
        else (j ∷ js, err entity_not_found))
    else (j ∷ later, result)

unfoldable pub ack :
    (Text → Text)
    → ℕ
    → PrintAgent
    → ℕ
    → PrintJobStatus
    → Option Text
    → List PrintJob
    → List PrintJob × Result PrintJob
unfolding ack_rows
ack cut now agent job_id status reported jobs =
    if is_result status
    then ack_rows cut now agent job_id status reported jobs
    else (jobs, err validation_error)
