-- ===== src/PrintJobs/Tests.antt =====
-- A branch with one agent and one job.
use opticutter.Prelude.{◌≡◌, refl, none, some, List, [], ◌∷◌, All}
use opticutter.Prelude.Text.{Text}
use opticutter.PrintJobs.{
  PrintAgent, PrintJob, done, new_job, expire, requeue, sweep_job, sweep, claim_job, claim_one, ack,
}
use opticutter.PrintJobs.Queue.{
  IsJob, empty, enqueued, taken, Reachable-IsJob, IsClaimed, claim_one-sweep,
}
use opticutter.PrintJobs.Closed.{Kept, acknowledge, Step-Kept}

abbrev agent : PrintAgent
agent = record { id = 3; branch_id = 1 }

abbrev job : PrintJob
job = new_job 7 1 20 10 60

abbrev jobs : List PrintJob
jobs = job ∷ []

abbrev claimed : List PrintJob
claimed = (claim_one 12 agent jobs).0

Reachable-IsJob_example : All IsJob claimed
Reachable-IsJob_example =
    Reachable-IsJob claimed (taken 12 agent jobs (enqueued 7 1 20 10 60 [] empty))

job_claimed : (claim_one 12 agent (sweep 30 11 jobs)).1 ≡ some (claim_job 12 agent job)
unfolding sweep sweep_job expire requeue claim_one claim_job new_job
job_claimed = refl

claim_one-sweep_example : IsClaimed 11 agent (claim_job 12 agent job)
claim_one-sweep_example = claim_one-sweep 30 11 12 agent jobs job_claimed

abbrev whole : Text → Text
whole s = s

abbrev finished : List PrintJob
finished = (ack whole 14 agent 7 done none claimed).0

Step-Kept_example : Kept claimed finished
Step-Kept_example = Step-Kept claimed finished (acknowledge whole 14 agent 7 done none claimed)
