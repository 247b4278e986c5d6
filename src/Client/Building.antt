-- ===== src/Client/Building.antt =====
-- pkg/client/build.go: `Client.Build` from the start of the build to the end of the stream.
use distbuild.Common.{
  ℕ, zero, suc, ◌≡◌, refl, ap, subst, ◌∙◌, Option, none, some, List, [], ◌∷◌, ◌++◌, length, lookup,
  Result, ok, err, Outcome, returns, blocks, ◌andthen◌, All,
}
use distbuild.Build.{Text, BuildId, id_discrete, Graph}
use distbuild.Api.{BuildStarted, StatusUpdate}
use distbuild.Api.Rpc.{ClientError}
use distbuild.Client.{
  Heard, Next, ListenError, listen_all, File, UploadError, regular, start_uploads,
}
use distbuild.Client.Uploads.{start_uploads-started}
use distbuild.Dist.Build.{started}
use distbuild.Client.Listened.{calls_of, NoFailure, messages, listen_all-calls}

pub data BuildError : Type 0 where
  not_started not_signalled : ClientError → BuildError
  bad_file : UploadError → BuildError
  not_uploaded : Text → BuildError
  not_heard : ListenError → BuildError

-- What the goroutine of an upload sends on the channel: after an error it goes on and sends nil too.
sent_by : Option Text → List (Option Text)
sent_by none = none ∷ []
sent_by (some e) = some e ∷ none ∷ []

-- The channel, for the order in which the uploads end.
pub sent_by_all : List (Option Text) → List (Option Text)
sent_by_all [] = []
sent_by_all (o ∷ os) = sent_by o ++ sent_by_all os

-- The loop that receives as many values as files are missing; it waits where none comes.
pub collect : ℕ → List (Option Text) → Outcome (Result Text (Unit {0}))
collect zero values = returns (ok tt)
collect (suc n) [] = blocks
collect (suc n) (none ∷ values) = collect n values
collect (suc n) (some e ∷ values) = returns (err e)

-- What `Build` meets: the reply to its start, the disk, the uploads in the order in which they end,
-- the reply to its signal, the listener's errors, and what the reader of the stream gives.
pub record Session : Type 0 where
  pub start : Result ClientError BuildStarted
  pub disk : Text → File
  pub uploads : List (Option Text)
  pub signal : Result ClientError (Unit {0})
  pub listener : Heard → Option Text
  pub stream : List Next

abbrev pub Built : Type 0
Built = Outcome (List Heard × Result BuildError (Unit {0}))

listened : List Heard × Option ListenError → Built
listened (heard, none) = returns (heard, ok tt)
listened (heard, some e) = returns (heard, err (not_heard e))

signalled : Session → Result ClientError (Unit {0}) → Built
signalled s (err e) = returns ([], err (not_signalled e))
signalled s (ok _) = listen_all s.listener s.stream [] andthen listened

uploaded : Session → Result Text (Unit {0}) → Built
uploaded s (err e) = returns ([], err (not_uploaded e))
uploaded s (ok _) = signalled s s.signal

upload : Session → Graph → BuildStarted → Result UploadError (List BuildId) → Built
upload s g rsp (err e) = returns ([], err (bad_file e))
upload s g rsp (ok ids) =
    collect (length rsp.missing_files) (sent_by_all s.uploads) andthen uploaded s

begun : Session → Graph → Result ClientError BuildStarted → Built
begun s g (err e) = returns ([], err (not_started e))
begun s g (ok rsp) = upload s g rsp (start_uploads s.disk g rsp.missing_files)

-- `Client.Build`
pub build : Session → Graph → Built
build s g = begun s g s.start

-- The first upload that fails.
unfoldable pub first_failure : List (Option Text) → Option Text
first_failure [] = none
first_failure (none ∷ os) = first_failure os
first_failure (some e ∷ os) = some e

abbrev as_result : Option Text → Result Text (Unit {0})
as_result none = ok tt
as_result (some e) = err e

collect-sent :
    (os : List (Option Text))
    → collect (length os) (sent_by_all os) ≡ returns (as_result (first_failure os))
unfolding collect sent_by_all sent_by first_failure
collect-sent [] = refl
collect-sent (none ∷ os) = collect-sent os
collect-sent (some e ∷ os) = refl

-- The end of a build whose files are on the disk: the first upload that fails, or the signal that
-- fails, or what the stream says.
abbrev pub ending : Option Text → Result ClientError (Unit {0}) → List Heard → Built
ending (some e) signal heard = returns ([], err (not_uploaded e))
ending none (err e) heard = returns ([], err (not_signalled e))
ending none (ok _) heard = returns (heard, ok tt)

collected :
    (s : Session) (us : List StatusUpdate)
    → All NoFailure us
    → s.stream ≡ messages us
    → s.listener ≡ (λ h. none)
    → (failure : Option Text)
    → (returns (as_result failure) andthen uploaded s) ≡ ending failure s.signal (calls_of us)
unfolding uploaded signalled listened
collected s us fine stream accepts (some e) = refl
collected s us fine stream accepts none =
    elim s.signal as (λ r. signalled s r ≡ ending none r (calls_of us)) [
      | err e ↦ refl
      | ok x ↦
          ap (λ f. listen_all f s.stream [] andthen listened) accepts
          ∙ ap (λ ns. listen_all (λ h. none) ns [] andthen listened) stream
          ∙ ap (λ o. o andthen listened) (listen_all-calls us fine)
    ]

-- A build that the coordinator has started, of a graph whose source files are all regular files on
-- the client's disk, where each upload ends once: the first upload to fail is the error of the build,
-- and else the signal's. Without either the listener hears what the updates of the stream say, in
-- order, and the build succeeds at the end of the stream. This is for updates without a failure that
-- comes without a job, and a listener that accepts every call.
pub build_ends :
    (s : Session) (g : Graph) (id : BuildId) (us : List StatusUpdate)
    → s.start ≡ ok (started id g)
    → ((file : BuildId) (path : Text)
        → lookup id_discrete g.source_files file ≡ some path
        → s.disk path ≡ regular)
    → length s.uploads ≡ length (started id g).missing_files
    → s.stream ≡ messages us
    → s.listener ≡ (λ h. none)
    → All NoFailure us
    → build s g ≡ ending (first_failure s.uploads) s.signal (calls_of us)
unfolding build begun upload
build_ends s g id us begins on_disk each stream accepts fine =
    let rsp = started id g in
    let enough : collect (length rsp.missing_files) (sent_by_all s.uploads)
        ≡ returns (as_result (first_failure s.uploads)) =
      subst (λ n. collect n (sent_by_all s.uploads) ≡ returns (as_result (first_failure s.uploads)))
        each (collect-sent s.uploads) in
    ap (λ r. begun s g r) begins
    ∙ ap (λ r. upload s g rsp r) (start_uploads-started s.disk g id on_disk)
    ∙ ap (λ o. o andthen uploaded s) enough
    ∙ collected s us fine stream accepts (first_failure s.uploads)
