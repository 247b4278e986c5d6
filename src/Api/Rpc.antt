-- ===== src/Api/Rpc.antt =====
-- pkg/api/request.go, build_handler.go and build_client.go: a call of the build service over HTTP.
pub mod Signals
pub mod Starts
pub mod Heartbeats
pub mod Tests
use distbuild.Common.{
  ℕ, ◌≡◌, Bool, true, false, Option, none, some, List, [], ◌∷◌, ◌++◌, ◌==◌, if◌then◌else◌, Result,
  ok, err, Outcome, returns, panics, blocks, ◌andthen◌,
}
use distbuild.Build.{BuildId, Graph, Text}
use distbuild.Build.Id.{unmarshal_text, to_string}
use distbuild.Api.Messages.{BuildRequest, BuildStarted, BuildFailed, StatusUpdate, SignalRequest}
use distbuild.Api.Status.{
  Frame, other, Sending, StatusWriter, new_status_writer, updated, WriterCall, write_all, Body,
  DecodeError, decode_next, as_started,
}

-- `api.Service`, as a handler calls it: the error is its text.
pub record Service : Type 1 where
  pub State : Type 0
  pub start_build :
      BuildRequest
      → StatusWriter
      → State
      → Outcome ((State × StatusWriter) × Result Text (Unit {0}))
  pub signal_build : BuildId → SignalRequest → State → Outcome (State × Result Text (Unit {0}))

pub record Response : Type 0 where
  pub status : ℕ
  pub body : Body

-- `http.Error` after what is written already.
abbrev pub http_error : ℕ → List Frame → Response
http_error code fs = record {
  status = code;
  body = record { frames = fs ++ other ∷ []; breaks = false };
}

abbrev pub streamed : List Frame → Response
streamed fs = record { status = 200; body = record { frames = fs; breaks = false } }

abbrev failure : Text → StatusUpdate
failure e = record {
  job_finished = none;
  build_failed = some (record { error = e });
  build_finished = none;
}

-- The JSON text `null` sets the pointer that it is decoded into to nil.
pub data SignalBody : Type 0 where
  malformed null_body : SignalBody
  signal : SignalRequest → SignalBody

module _ (S : Service) where
  -- The end of `startBuildHandler`: what others write to the stream, and the wait for `done`.
  unfoldable pub await_done :
      List WriterCall → StatusWriter → S.State → Outcome (S.State × Response)
  await_done others w s =
      write_all others w andthen λ w'. if w'.done then returns (s, streamed w'.frames) else blocks

  -- An error of the service is one more update where the stream has begun, and a status else.
  unfoldable pub start_failed :
      Sending → Text → StatusWriter → S.State → Outcome (S.State × Response)
  start_failed how e w s =
      if w.start_msg_send
      then (updated how (failure e) w andthen λ (w', _). returns (s, streamed w'.frames))
      else returns (s, http_error 500 w.frames)

  -- `startBuildHandler`; `none` is a body that cannot be decoded.
  unfoldable pub start_build_handler :
      Option Graph → Sending → List WriterCall → S.State → Outcome (S.State × Response)
  unfolding await_done start_failed
  start_build_handler none how others s = returns (s, http_error 400 [])
  start_build_handler (some g) how others s =
      S.start_build (record { graph = g }) new_status_writer s andthen λ ((s', w), r). elim r [
        | err e ↦ start_failed how e w s'
        | ok _ ↦ await_done others w s'
      ]

  answer_signal : S.State × Result Text (Unit {0}) → Outcome (S.State × Response)
  answer_signal (s, err e) = returns (s, http_error 500 [])
  answer_signal (s, ok _) = returns (s, streamed [])

  read_signal : BuildId → SignalBody → S.State → Outcome (S.State × Response)
  read_signal id malformed s = returns (s, http_error 400 [])
  read_signal id null_body s = panics
  read_signal id (signal req) s = S.signal_build id req s andthen answer_signal

  -- `signalBuildHandler`; `query` is the parameter `build_id`, empty where it is missing.
  unfoldable pub signal_build_handler : Text → SignalBody → S.State → Outcome (S.State × Response)
  unfolding answer_signal read_signal
  signal_build_handler [] body s = returns (s, http_error 400 [])
  signal_build_handler (c ∷ query) body s = elim (unmarshal_text (c ∷ query)) [
    | err e ↦ returns (s, http_error 400 [])
    | ok id ↦ read_signal id body s
  ]

-- How `doRequest` fails; an attempt is the failure that it meets, if any.
pub data RequestError : Type 0 where
  not_encoded not_created not_sent : RequestError

pub data ClientError : Type 0 where
  request_failed : RequestError → ClientError
  error_unreadable undecodable : ClientError
  unexpected_status : ℕ → ClientError

-- A status other than OK: the body is read for the error's text.
refused : Response → ClientError
refused r = if r.body.breaks then error_unreadable else unexpected_status r.status

unfoldable pub with_reader :
    Result DecodeError BuildStarted × Body → Result ClientError (BuildStarted × Body)
with_reader (err e, body) = err undecodable
with_reader (ok rsp, body) = ok (rsp, body)

-- What `BuildClient.StartBuild` makes of a response: the first message, and a reader of the others.
unfoldable pub read_started : Response → Result ClientError (BuildStarted × Body)
unfolding refused with_reader decode_next
read_started r =
    if r.status == 200 then with_reader (decode_next as_started r.body) else err (refused r)

-- What `BuildClient.SignalBuild` makes of one.
unfoldable pub read_signalled : Response → Result ClientError (Unit {0})
unfolding refused
read_signalled r = if r.status == 200 then ok tt else err (refused r)

module _ (S : Service) {A : Type 0} where
  abbrev pub read_with :
      (Response → Result ClientError A)
      → S.State × Response
      → Outcome (S.State × Result ClientError A)
  read_with read (s, r) = returns (s, read r)

  -- A request that is sent reaches its handler, whose response comes back.
  unfoldable pub over_http :
      Option RequestError
      → (S.State → Outcome (S.State × Response))
      → (Response → Result ClientError A)
      → S.State
      → Outcome (S.State × Result ClientError A)
  over_http (some e) handler read s = returns (s, err (request_failed e))
  over_http none handler read s = handler s andthen read_with read

module _ (S : Service) where
  -- `BuildClient.StartBuild` against the handler, and `BuildClient.SignalBuild`.
  unfoldable pub start_build_call :
      Option RequestError
      → Graph
      → Sending
      → List WriterCall
      → S.State
      → Outcome (S.State × Result ClientError (BuildStarted × Body))
  unfolding over_http
  start_build_call attempt g how others =
      over_http S attempt (start_build_handler S (some g) how others) read_started

  unfoldable pub signal_build_call :
      Option RequestError
      → BuildId
      → SignalRequest
      → S.State
      → Outcome (S.State × Result ClientError (Unit {0}))
  unfolding over_http
  signal_build_call attempt id req =
      over_http S attempt (signal_build_handler S (to_string id) (signal req)) read_signalled
