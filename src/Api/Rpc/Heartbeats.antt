-- ===== src/Api/Rpc/Heartbeats.antt =====
-- pkg/api/heartbeat_handler.go and heartbeat_client.go: a heartbeat over HTTP.
use distbuild.Common.{
  ℕ, ◌≡◌, refl, Bool, true, Option, none, some, ◌==◌, if◌then◌else◌, Result, ok, err, Outcome,
  returns, panics, blocks, ◌andthen◌,
}
use distbuild.Build.{Text}
use distbuild.Api.Messages.{HeartbeatRequest, HeartbeatResponse}
use distbuild.Api.Rpc.{
  RequestError, ClientError, request_failed, error_unreadable, undecodable, unexpected_status,
}

-- `api.HeartbeatService`: a response, which may be nil, or the text of an error.
pub record HeartbeatService : Type 1 where
  pub State : Type 0
  pub beat : HeartbeatRequest → State → Outcome (State × Result Text (Option HeartbeatResponse))

-- The body of a response: a message, the text of an error, or a connection that breaks.
pub data Content : Type 0 where
  answer : HeartbeatResponse → Content
  text breaks : Content

pub record Reply : Type 0 where
  pub status : ℕ
  pub content : Content

abbrev reply : ℕ → Content → Reply
reply code c = record { status = code; content = c }

module _ (S : HeartbeatService) where
  -- `encodes` says that the encoder takes the response. A nil response is dereferenced.
  answer_beat : Bool → S.State × Result Text (Option HeartbeatResponse) → Outcome (S.State × Reply)
  answer_beat encodes (s, err e) = returns (s, reply 500 text)
  answer_beat encodes (s, ok none) = panics
  answer_beat encodes (s, ok (some rsp)) =
      returns (s, if encodes then reply 200 (answer rsp) else reply 400 text)

  -- The handler of "/heartbeat"; `none` is a body that cannot be decoded.
  pub heartbeat_handler : Option HeartbeatRequest → Bool → S.State → Outcome (S.State × Reply)
  heartbeat_handler none encodes s = returns (s, reply 400 text)
  heartbeat_handler (some req) encodes s = S.beat req s andthen answer_beat encodes

error_of : Reply → ClientError
error_of r = elim r.content [
  | breaks ↦ error_unreadable
  | text ↦ unexpected_status r.status
  | answer rsp ↦ unexpected_status r.status
]

decoded : Content → Result ClientError HeartbeatResponse
decoded (answer rsp) = ok rsp
decoded text = err undecodable
decoded breaks = err undecodable

-- What `HeartbeatClient.Heartbeat` makes of a response.
pub read_heartbeat : Reply → Result ClientError HeartbeatResponse
read_heartbeat r = if r.status == 200 then decoded r.content else err (error_of r)

module _ (S : HeartbeatService) where
  read_reply : S.State × Reply → Outcome (S.State × Result ClientError HeartbeatResponse)
  read_reply (s, r) = returns (s, read_heartbeat r)

  -- `HeartbeatClient.Heartbeat` against the handler.
  pub heartbeat_call :
      Option RequestError
      → HeartbeatRequest
      → Bool
      → S.State
      → Outcome (S.State × Result ClientError HeartbeatResponse)
  heartbeat_call (some e) req encodes s = returns (s, err (request_failed e))
  heartbeat_call none req encodes s = heartbeat_handler S (some req) encodes s andthen read_reply

  -- What the worker gets for what the service answers.
  abbrev pub delivered :
      S.State × Result Text (Option HeartbeatResponse)
      → Outcome (S.State × Result ClientError HeartbeatResponse)
  delivered (s, err e) = returns (s, err (unexpected_status 500))
  delivered (s, ok none) = panics
  delivered (s, ok (some rsp)) = returns (s, ok rsp)

  delivered_lem :
      (o : Outcome (S.State × Result Text (Option HeartbeatResponse)))
      → ((o andthen answer_beat S true) andthen read_reply) ≡ (o andthen delivered)
  unfolding answer_beat read_reply read_heartbeat decoded error_of
  delivered_lem panics = refl
  delivered_lem blocks = refl
  delivered_lem (returns (s, err e)) = refl
  delivered_lem (returns (s, ok none)) = refl
  delivered_lem (returns (s, ok (some rsp))) = refl

  -- A heartbeat that arrives, and whose answer can be encoded, does what the call of the service would
  -- do, to the same state. Its response comes back as it is, its error as the status 500, and where it
  -- gives neither the handler panics.
  pub heartbeat_over_http :
      (req : HeartbeatRequest) (s : S.State)
      → heartbeat_call none req true s ≡ (S.beat req s andthen delivered)
  unfolding heartbeat_call heartbeat_handler
  heartbeat_over_http req s = delivered_lem (S.beat req s)
