-- ===== src/Client/Listened.antt =====
-- What the listener hears, and in which order.
use mathlib.Core.List.{append-nil, append_assoc}
use distbuild.Common.{
  ◌≡◌, refl, sym, ap, ◌∙◌, none, some, Option-cases, List, [], ◌∷◌, ◌++◌, All, ok, returns, inl,
  inr, arith,
}
use distbuild.Api.{JobResult, StatusUpdate}
use distbuild.Client.{
  Heard, job_failed, job_finished, job_stderr, job_stdout, Next, update, end_of_file, call,
  first_call, job_done, on_update, listen_build, build_result, after_update, listen_all,
}

-- The three calls for a job.
abbrev pub calls_for : JobResult → List Heard
calls_for job = elim job.error [
  | none ↦ job_finished job.id ∷ job_stderr job.id job.stderr ∷ job_stdout job.id job.stdout ∷ []
  | some e ↦
      job_failed job.id job.exit_code e
      ∷ job_stderr job.id job.stderr
      ∷ job_stdout job.id job.stdout
      ∷ []
]

-- The jobs of updates, none of which is a failure without a job.
abbrev pub calls_of : List StatusUpdate → List Heard
calls_of [] = []
calls_of (u ∷ us) = elim u.job_finished [
  | none ↦ calls_of us
  | some job ↦ calls_for job ++ calls_of us
]

abbrev pub NoFailure : StatusUpdate → Type 0
NoFailure u = (u.job_finished ≡ none → u.build_failed ≡ none)

abbrev pub messages : List StatusUpdate → List Next
messages [] = end_of_file ∷ []
messages (u ∷ us) = update u ∷ messages us

calls_for-first :
    (job : JobResult)
    → first_call (λ h. none) job job.error
        ∷ job_stderr job.id job.stderr
        ∷ job_stdout job.id job.stdout
        ∷ []
      ≡ calls_for job
unfolding first_call
calls_for-first job = elim (Option-cases job.error) [
  | inl good ↦ rw (good, first_call) refl
  | inr (e, bad) ↦ rw (bad, first_call) refl
]

job_done-calls :
    (job : JobResult) (heard : List Heard)
    → job_done (λ h. none) job heard ≡ (heard ++ calls_for job, ok tt)
unfolding job_done call
job_done-calls job heard =
    let a = first_call (λ h. none) job job.error in
    let b = job_stderr job.id job.stderr in
    let c = job_stdout job.id job.stdout in
    ap (λ hs. (hs, ok tt))
      (append_assoc (heard ++ a ∷ []) (b ∷ []) (c ∷ [])
        ∙ append_assoc heard (a ∷ []) (b ∷ c ∷ [])
        ∙ ap (◌++◌ heard) (calls_for-first job))

listen_update :
    (u : StatusUpdate) (heard : List Heard) (rest : List StatusUpdate)
    → NoFailure u
    → (now : List Heard) × (listen_build (λ h. none) (update u) heard ≡ (heard ++ now, ok tt))
      × (calls_of (u ∷ rest) ≡ now ++ calls_of rest)
unfolding listen_build on_update
listen_update u heard rest none_failed = elim (Option-cases u.job_finished) [
  | inl quiet ↦
      ([], ground (arith, quiet, none_failed quiet, append-nil heard), ground (arith, quiet))
  | inr (job, done) ↦
      (calls_for job, ground (arith, done, job_done-calls job heard), ground (arith, done))
]

listen_from :
    (us : List StatusUpdate) (heard : List Heard)
    → All NoFailure us
    → listen_all (λ h. none) (messages us) heard ≡ returns (heard ++ calls_of us, none)
unfolding listen_all listen_build after_update build_result
listen_from [] heard ok_all = ap (λ hs. returns (hs, none)) (sym (append-nil heard))
listen_from (u ∷ us) heard (fine, more) =
    let (now, e, split) = listen_update u heard us fine in
    ap (after_update (λ h. none) (listen_all (λ h. none) (messages us))) e
    ∙ listen_from us (heard ++ now) more
    ∙ ap (λ hs. returns (hs, none))
        (append_assoc heard now (calls_of us) ∙ ap (◌++◌ heard) (sym split))

-- When the stream ends after updates of which none is a failure without a job, and the listener
-- accepts every call, the build succeeds and the listener has heard, for each finished job and in the
-- order of the updates, whether it failed, its standard error and its standard output.
pub listen_all-calls :
    (us : List StatusUpdate)
    → All NoFailure us
    → listen_all (λ h. none) (messages us) [] ≡ returns (calls_of us, none)
listen_all-calls us fine = listen_from us [] fine
