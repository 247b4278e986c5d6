-- ===== src/Worker/Jobs/Transfer.antt =====
-- A source file on its way: the client of pkg/filecache uploads it to the coordinator, and the worker
-- downloads it from there.
use distbuild.Common.{
  ℕ, ◌≡◌, refl, subst, ◌∙◌, Option, none, some, List, Result, ok, err, Outcome, returns, ◌andthen◌,
  Outcome-cases, inl, inr, arith,
}
use distbuild.Build.{BuildId}
use distbuild.Build.Id.{IsId, marshal_text}
use distbuild.Build.Id.Text.{unmarshal_text-marshal_text}
use distbuild.Artifact
use distbuild.Filecache.{
  Files, System, FileError, Response, uploaded, remove_failed, create_failed, close_failed,
  copy_failed, fill, write,
}
use distbuild.Filecache.Stored.{Keeps, fill-Keeps}
use distbuild.Filecache.Serving.{
  Reply, bad_request, not_allowed, content, get_failed, stored, not_in_cache, not_opened,
  not_copied, Method, Calls, by_method, serve, serve_reads, handle_get_found_or_not, got_back,
}
use distbuild.Filecache.Uploading.{RequestFault, Attempt, upload, upload-stored}
use distbuild.Worker.Jobs.{
  FileReply, unreachable, refused, received, FileFailure, no_reply, bad_status, store_body,
  download_file,
}
use distbuild.Worker.Jobs

-- What the worker gets for the coordinator's answer. Where the copy broke off the status may have been
-- sent already, so `broken` stands for what comes then.
unfoldable pub file_reply : FileReply → Reply → FileReply
file_reply broken (content body) = received body
file_reply broken (get_failed (not_copied e)) = broken
file_reply broken (get_failed (not_in_cache e)) = refused
file_reply broken (get_failed (not_opened e)) = refused
file_reply broken bad_request = refused
file_reply broken not_allowed = refused
file_reply broken (stored r) = refused

-- The worker's request reaches the coordinator, whose cache is `c`; `w` is the cache of the worker.
unfoldable pub download_over_http :
    Option RequestFault
    → FileReply
    → BuildId
    → Calls
    → System
    → Files
    → Files
    → Outcome (Files × Files × Result FileFailure (Unit {0}))
download_over_http (some e) broken id calls sys c w =
    download_file id sys unreachable w andthen λ (w', r). returns (c, w', r)
download_over_http none broken id calls sys c w =
    serve (marshal_text id) Method.get calls c andthen λ (c', reply).
    download_file id sys (file_reply broken reply) w andthen λ (w', r). returns (c', w', r)

stored-found :
    (id : BuildId) (body : List ℕ) (r : Files × Response) (w : Files)
    → Keeps id body r
    → Jobs.stored r ≡ (w, ok tt)
    → (Artifact.get id none w).1 ≡ ok (some body)
unfolding Jobs.stored Keeps
stored-found id body (d, uploaded) w k e =
    let same : d ≡ w = cc in subst (λ d. (Artifact.get id none d).1 ≡ ok (some body)) same k
stored-found id body (d, remove_failed y) w k e = absurd (cc)
stored-found id body (d, create_failed y) w k e = absurd (cc)
stored-found id body (d, close_failed y) w k e = absurd (cc)
stored-found id body (d, copy_failed y) w k e = absurd (cc)

store_body-found :
    (id : BuildId) (body : List ℕ) (sys : System) (r : Files × Result FileError (Unit {0}))
    (w : Files)
    → store_body id body sys r ≡ (w, ok tt)
    → (Artifact.get id none w).1 ≡ ok (some body)
unfolding store_body
store_body-found id body sys (c, err x) w e = absurd (cc)
store_body-found id body sys (c, ok x) w e =
    stored-found id body (fill id body sys c) w (fill-Keeps id body sys c) e

-- A download that succeeds has stored the body of its reply.
download_file-found :
    (id : BuildId) (sys : System) (body : List ℕ) (w w' : Files)
    → download_file id sys (received body) w ≡ returns (w', ok tt)
    → (Artifact.get id none w').1 ≡ ok (some body)
unfolding download_file
download_file-found id sys body w w' e = elim (Outcome-cases (write id sys w)) [
  | inl p ↦ absurd (ground arith)
  | inr (inl p) ↦ absurd (ground arith)
  | inr (inr (r, p)) ↦ store_body-found id body sys r w' (ground arith)
]

download_file_fails :
    (id : BuildId) (sys : System) (w : Files)
    → (download_file id sys unreachable w ≡ returns (w, err no_reply))
      × (download_file id sys refused w ≡ returns (w, err bad_status))
unfolding download_file
download_file_fails id sys w = (refl, refl)

-- The client's upload of a file to the coordinator succeeds, and so does the download of that file by a
-- worker: then the worker's cache gives the bytes that the client sent, whatever either cache held
-- under that identifier before. This is where no call of the worker shares the flight of
-- another, and the coordinator's copy does not break off.
pub download-upload :
    (id : BuildId) (body : List ℕ) (a : Attempt) (calls calls' : Calls)
    (attempt : Option RequestFault) (broken : FileReply) (sys : System) (c d e w w' : Files)
    → IsId id
    → upload a id body calls c ≡ returns (d, ok tt)
    → calls'.reads.stat ≡ none
    → calls'.reads.copy ≡ none
    → download_over_http attempt broken id calls' sys d w ≡ returns (e, w', ok tt)
    → (Artifact.get id none w').1 ≡ ok (some body)
unfolding download_over_http file_reply by_method
download-upload id body a calls calls' (some fault) broken sys c d e w w' h up there whole down =
    absurd (ground (arith, (download_file_fails id sys w).0))
download-upload id body a calls calls' none broken sys c d e w w' h up there whole down =
    let reads =
      serve_reads (marshal_text id) id Method.get calls' d (unmarshal_text-marshal_text id h) in
    let stored_there = got_back id body calls c d h (upload-stored a id body calls c d h up) in
    elim (handle_get_found_or_not id body calls'.reads d stored_there there whole) [
      | inr (x, p) ↦ absurd (ground (arith, reads, p, down, (download_file_fails id sys w).1))
      | inl p ↦ elim (Outcome-cases (download_file id sys (received body) w)) [
        | inl q ↦ absurd (ground (arith, reads, p, down, q))
        | inr (inl q) ↦ absurd (ground (arith, reads, p, down, q))
        | inr (inr ((v, r), q)) ↦
            let same_v : v ≡ w' = ground (arith, reads, p, down, q) in
            let same_r : r ≡ ok tt = ground (arith, reads, p, down, q) in
            download_file-found id sys body w w' (q ∙ ground (arith, same_v, same_r))
      ]
    ]
