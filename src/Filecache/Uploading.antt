-- ===== src/Filecache/Uploading.antt =====
-- pkg/filecache/client.go: `Upload`, whose request reaches the handler.
use distbuild.Common.{
  ℕ, ◌≡◌, ◌==◌, if◌then◌else◌, Bool, Option, none, some, List, Result, ok, err, Outcome, returns,
  ◌andthen◌, Outcome-cases, Bool-cases, refl, ◌∙◌, inl, inr, arith,
}
use distbuild.Build.{BuildId}
use distbuild.Build.Id.{IsId, marshal_text, to_string}
use distbuild.Build.Id.Text.{unmarshal_text-marshal_text}
use distbuild.Artifact.{OsError}
use distbuild.Filecache.{
  Files, Response, uploaded, remove_failed, create_failed, close_failed, copy_failed, handle_put,
}
use distbuild.Filecache.Serving.{
  Reply, bad_request, not_allowed, content, get_failed, stored, put, Calls, put_reply, by_method,
  serve, serve_reads,
}

-- Why a request does not reach the handler.
pub data RequestFault : Type 0 where
  not_created not_sent : RequestFault

pub data UploadFailure : Type 0 where
  file_not_opened : OsError → UploadFailure
  request_failed : RequestFault → UploadFailure
  error_unreadable : UploadFailure
  unexpected_status : ℕ → UploadFailure

-- The status of the answer to an upload.
unfoldable pub put_status : Response → ℕ
put_status uploaded = 200
put_status (remove_failed e) = 500
put_status (create_failed e) = 500
put_status (close_failed e) = 500
put_status (copy_failed e) = 500

-- A `PUT` is not answered by `content` or `get_failed`.
unfoldable pub reply_status : Reply → ℕ
unfolding put_status
reply_status bad_request = 400
reply_status (content body) = 200
reply_status (get_failed e) = 500
reply_status not_allowed = 405
reply_status (stored r) = put_status r

-- From the response on; `breaks` says that the text of an error cannot be read.
unfoldable pub read_reply : Bool → Reply → Result UploadFailure (Unit {0})
unfolding reply_status
read_reply breaks r =
    if reply_status r == 200
    then ok tt
    else if breaks
    then err error_unreadable
    else err (unexpected_status (reply_status r))

-- How the calls of an upload end on the side of the client.
pub record Attempt : Type 0 where
  pub open_file : Option OsError
  pub request : Option RequestFault
  pub breaks : Bool

answered : Bool → Files × Reply → Outcome (Files × Result UploadFailure (Unit {0}))
answered breaks (c, r) = returns (c, read_reply breaks r)

send_request :
    Attempt → BuildId → List ℕ → Calls → Files → Outcome (Files × Result UploadFailure (Unit {0}))
send_request a id body calls c = elim a.request [
  | some e ↦ returns (c, err (request_failed e))
  | none ↦ serve (to_string id) (put body) calls c andthen answered a.breaks
]

pub upload :
    Attempt → BuildId → List ℕ → Calls → Files → Outcome (Files × Result UploadFailure (Unit {0}))
upload a id body calls c = elim a.open_file [
  | some e ↦ returns (c, err (file_not_opened e))
  | none ↦ send_request a id body calls c
]

stored_at_200 : (r : Response) → put_status r ≡ 200 → r ≡ uploaded
unfolding put_status
stored_at_200 uploaded h = refl
stored_at_200 (remove_failed e) h = absurd (omega arith)
stored_at_200 (create_failed e) h = absurd (omega arith)
stored_at_200 (close_failed e) h = absurd (omega arith)
stored_at_200 (copy_failed e) h = absurd (omega arith)

-- An upload that succeeds is one that the handler has stored.
pub upload-stored :
    (a : Attempt) (id : BuildId) (body : List ℕ) (calls : Calls) (c d : Files)
    → IsId id
    → upload a id body calls c ≡ returns (d, ok tt)
    → serve (marshal_text id) (put body) calls c ≡ returns (d, stored uploaded)
unfolding upload send_request answered read_reply reply_status by_method put_reply marshal_text
upload-stored a id body calls c d h e =
    let reads =
      serve_reads (to_string id) id (put body) calls c (unmarshal_text-marshal_text id h) in
    elim (Outcome-cases (handle_put 2 id body calls.writes c)) [
      | inl p ↦ absurd (ground (arith, e, reads, p))
      | inr (inl p) ↦ absurd (ground (arith, e, reads, p))
      | inr (inr ((d', r), p)) ↦ elim (Bool-cases (put_status r == 200)) [
        | inr bad ↦ absurd (ground (arith, e, reads, p, bad))
        | inl good ↦
            let same : r ≡ uploaded = stored_at_200 r (ground (arith, good)) in
            let there : d' ≡ d = ground (arith, e, reads, p, good) in
            reads ∙ ground (arith, p, same, there)
      ]
    ]

-- And one that it has stored succeeds.
pub stored-upload :
    (a : Attempt) (id : BuildId) (body : List ℕ) (calls : Calls) (c d : Files)
    → a.open_file ≡ none
    → a.request ≡ none
    → serve (marshal_text id) (put body) calls c ≡ returns (d, stored uploaded)
    → upload a id body calls c ≡ returns (d, ok tt)
unfolding upload send_request answered read_reply reply_status put_status marshal_text
stored-upload a id body calls c d opens sends e = ground (arith, opens, sends, e)
