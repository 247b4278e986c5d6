-- ===== src/Dist/Heartbeat/Response.antt =====
-- How many jobs a worker gets.
use distbuild.Common.{ℕ, ◌≤◌, ◌≡◌, All, length, Dict, ok, err, Outcome, returns, panics, blocks}
use distbuild.Build.{BuildId}
use distbuild.Api.{JobSpec}
use distbuild.Scheduler.{Scheduler}
use distbuild.Dist.Heartbeat.{Answer}

-- At most `n` entries, each under the identifier of its job.
pub Fitting : ℕ → Dict BuildId JobSpec → Type 0
Fitting n jobs = (length jobs ≤ n) × All (λ (e : BuildId × JobSpec). e.1.id ≡ e.0) jobs

Fits : ℕ → Outcome Answer → Type 0
Fits n panics = Unit {0}
Fits n blocks = Unit {0}
Fits n (returns (err e, s)) = Unit {0}
Fits n (returns (ok jobs, s)) = Fitting n jobs
