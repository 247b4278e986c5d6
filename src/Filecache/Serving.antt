-- ===== src/Filecache/Serving.antt =====
-- pkg/filecache/handler.go: the requests for a file, and which method serves them.
use distbuild.Common.{
  ◌⊎◌, inl, inr, Option-cases, ℕ, ◌≡◌, sym, ap, ◌∙◌, Option, none, some, List, [], ◌∷◌, Result, ok,
  err, Outcome, returns, panics, blocks, ◌andthen◌, arith,
}
use distbuild.Build.{BuildId, Text}
use distbuild.Build.Id.{IsId, marshal_text, unmarshal_text}
use distbuild.Build.Id.Text.{unmarshal_text-marshal_text, unmarshal_text_sound}
use distbuild.Artifact
use distbuild.Artifact.{OsError, read_unlock}
use distbuild.Filecache.{
  FileError, Files, Directory, System, get_file, converted, convert, Response, uploaded, handle_put,
}
use distbuild.Filecache.Stored.{get-handle_put}

-- How the system calls of `handleGet` end: `os.Stat` in the cache, `os.Open`, and the copy.
pub record GetSystem : Type 0 where
  pub stat : Option OsError
  pub open_file : Option OsError
  pub copy : Option OsError

pub data GetError : Type 0 where
  not_in_cache : FileError → GetError
  not_opened not_copied : OsError → GetError

send_file : GetSystem → List ℕ → Result GetError (List ℕ)
send_file sys body = elim sys.copy [ some e ↦ err (not_copied e) | none ↦ ok body ]

-- The number stands for the error that there is no file.
open_and_send : GetSystem → Directory → Result GetError (List ℕ)
open_and_send sys none = err (not_opened 2)
open_and_send sys (some body) = elim sys.open_file [
  | some e ↦ err (not_opened e)
  | none ↦ send_file sys body
]

unlock_after :
    BuildId → GetSystem → Files × Result FileError Directory → Files × Result GetError (List ℕ)
unlock_after id sys (c, err e) = (c, err (not_in_cache e))
unlock_after id sys (c, ok d) = (read_unlock id c, open_and_send sys d)

-- The function that `flight.Do` calls: the body that it writes to the response.
pub in_flight : BuildId → GetSystem → Files → Files × Result GetError (List ℕ)
in_flight id sys c = unlock_after id sys (get_file id sys.stat c)

-- A response: the status 200 with a body, or an error.
pub data Reply : Type 0 where
  bad_request not_allowed : Reply
  content : List ℕ → Reply
  get_failed : GetError → Reply
  stored : Response → Reply

lead : Result GetError (List ℕ) → Reply
lead (err e) = get_failed e
lead (ok body) = content body

-- A request that finds another one of its file in flight shares the error, and writes no body.
pub follow : Result GetError (List ℕ) → Reply
follow (err e) = get_failed e
follow (ok body) = content []

-- `handleGet`, and what the requests get that come while it runs.
pub handle_get : BuildId → GetSystem → Files → Files × Reply × Reply
handle_get id sys c = let (c', r) = in_flight id sys c in (c', lead r, follow r)

pub data Method : Type 0 where
  get other : Method
  put : List ℕ → Method

-- How the system calls of a request end.
pub record Calls : Type 0 where
  pub reads : GetSystem
  pub writes : System

unfoldable pub put_reply : Files × Response → Outcome (Files × Reply)
put_reply (c, r) = returns (c, stored r)

unfoldable pub by_method : Method → BuildId → Calls → Files → Outcome (Files × Reply)
by_method get id calls c = let (c', r, shared) = handle_get id calls.reads c in returns (c', r)
by_method (put body) id calls c = handle_put 2 id body calls.writes c andthen put_reply
by_method other id calls c = returns (c, not_allowed)

-- The handler of "/file"; `query` is the parameter `id`, empty where it is missing.
pub serve : Text → Method → Calls → Files → Outcome (Files × Reply)
serve [] method calls c = returns (c, bad_request)
serve (b ∷ query) method calls c = elim (unmarshal_text (b ∷ query)) [
  | err e ↦ returns (c, bad_request)
  | ok id ↦ by_method method id calls c
]

pub serve_reads :
    (query : Text) (id : BuildId) (method : Method) (calls : Calls) (c : Files)
    → unmarshal_text query ≡ ok id
    → serve query method calls c ≡ by_method method id calls c
unfolding serve
serve_reads [] id method calls c h =
    let (_, text, _) = unmarshal_text_sound [] h in absurd (omega (arith, text.sized))
serve_reads (b ∷ query) id method calls c h = ground (arith, h)

abbrev works : GetSystem
works = record { stat = none; open_file = none; copy = none }

put_uploaded :
    (o : Outcome (Files × Response)) (d : Files)
    → (o andthen put_reply) ≡ returns (d, stored uploaded)
    → o ≡ returns (d, uploaded)
unfolding put_reply
put_uploaded panics d h = absurd (cc)
put_uploaded blocks d h = absurd (cc)
put_uploaded (returns (c, r)) d h = ground arith

handle_get_found :
    (id : BuildId) (body : List ℕ) (c : Files)
    → (Artifact.get id none c).1 ≡ ok (some body)
    → ((handle_get id works c).1 ≡ content body) × ((handle_get id works c).2 ≡ content [])
unfolding get_file converted convert handle_get in_flight unlock_after open_and_send send_file lead
    follow
handle_get_found id body c h = ground (arith, h)

pub got_back :
    (id : BuildId) (body : List ℕ) (calls : Calls) (c d : Files)
    → IsId id
    → serve (marshal_text id) (put body) calls c ≡ returns (d, stored uploaded)
    → (Artifact.get id none d).1 ≡ ok (some body)
unfolding by_method
got_back id body calls c d h e = get-handle_put 2 id body calls.writes c d (
    put_uploaded (handle_put 2 id body calls.writes c) d (
      sym (serve_reads (marshal_text id) id (put body) calls c (unmarshal_text-marshal_text id h))
      ∙ e))

-- The answer where the copy does not break off.
pub handle_get_found_or_not :
    (id : BuildId) (body : List ℕ) (reads : GetSystem) (c : Files)
    → (Artifact.get id none c).1 ≡ ok (some body)
    → reads.stat ≡ none
    → reads.copy ≡ none
    → ((handle_get id reads c).1 ≡ content body)
      ⊎ ((e : OsError) × ((handle_get id reads c).1 ≡ get_failed (not_opened e)))
unfolding get_file converted convert handle_get in_flight unlock_after open_and_send send_file lead
    follow
handle_get_found_or_not id body reads c h there whole = elim (Option-cases reads.open_file) [
  | inl opens ↦ inl (ground (arith, h, there, whole, opens))
  | inr (e, fails) ↦ inr (e, ground (arith, h, there, fails))
]

-- A file that was stored over HTTP is got over HTTP: when the answer to the upload is that it is
-- stored, the next request for it gets the bytes that were sent. A request that comes while that
-- one runs gets an empty body with the same status.
pub get-put_over_http :
    (id : BuildId) (body : List ℕ) (calls : Calls) (c d : Files)
    → IsId id
    → serve (marshal_text id) (put body) calls c ≡ returns (d, stored uploaded)
    → (e : Files) × (serve (marshal_text id) get (record calls { reads = works }) d
        ≡ returns (e, content body))
      × ((handle_get id works d).2 ≡ content [])
unfolding by_method
get-put_over_http id body calls c d h e =
    let q = unmarshal_text-marshal_text id h in
    let (got, shared) = handle_get_found id body d (got_back id body calls c d h e) in
    (
      (handle_get id works d).0,
      serve_reads (marshal_text id) id get (record calls { reads = works }) d q
          ∙ ap (λ r. returns ((handle_get id works d).0, r)) got,
      shared,
    )
