-- ===== src/Filecache/Tests.antt =====
-- An upload over a file that is there.
use distbuild.Common.{
  arith, ◌≡◌, ◌≢◌, refl, none, some, [], ◌∷◌, ok, returns, blocks, lookup, insert, delete, ap, ◌∙◌,
  ◌andthen◌,
}
use distbuild.Build.{id_discrete}
use distbuild.Build.Id.{marshal_text}
use distbuild.Build.Id.Text.{unmarshal_text-marshal_text}
use distbuild.Build.Id.Tests.{id_of, id_of_one-IsId}
use distbuild.Artifact.{removed, new_cache, create, commit, write_unlock, mkdir}
use distbuild.Artifact.Holders.Readers.{create_ok, commit_ok}
use distbuild.Filecache.{
  Files, System, uploaded, write, open_file, opened, fill, close_writer, closed, convert,
  after_close, handle_put,
}
use distbuild.Filecache.Upload.{handle_put_ends}
use distbuild.Filecache.Serving.{
  Calls, Method, Reply, content, put_reply, by_method, serve, serve_reads, handle_get,
  get-put_over_http,
}

abbrev pub sys : System
sys = record {
  stat = none;
  mkdir_all = none;
  removal = removed;
  rename = none;
  create_file = none;
  copy = none;
  close = none;
}

abbrev old_file : Files
unfolding new_cache
old_file = new_cache ((id_of 1, some (b'a' ∷ [])) ∷ [])

handle_put_ends_example : handle_put 2 (id_of 1) (b'b' ∷ []) sys old_file ≢ blocks
handle_put_ends_example = handle_put_ends 0 (id_of 1) (b'b' ∷ []) sys old_file

abbrev pub no_file : Files
unfolding new_cache
no_file = new_cache []

-- The cache before the commit and after it.
abbrev staged_file : Files
staged_file = record no_file {
  writing = (id_of 1, tt) ∷ [];
  staged = (id_of 1, some (b'b' ∷ [])) ∷ [];
}

abbrev pub stored : Files
stored = record no_file { committed = (id_of 1, some (b'b' ∷ [])) ∷ [] }

created :
    create (id_of 1) none none none no_file
    ≡ (record no_file { writing = (id_of 1, tt) ∷ []; staged = (id_of 1, none) ∷ [] }, ok tt)
unfolding new_cache mkdir lookup insert id_discrete
created = create_ok (id_of 1) none no_file refl refl refl

committed : commit (id_of 1) none staged_file ≡ (stored, ok tt)
unfolding new_cache write_unlock lookup insert delete id_discrete
committed = commit_ok (id_of 1) (some (b'b' ∷ [])) staged_file refl refl

handle_put-stored : handle_put 2 (id_of 1) (b'b' ∷ []) sys no_file ≡ returns (stored, uploaded)
unfolding handle_put write open_file opened fill close_writer closed convert after_close insert
    id_discrete
handle_put-stored = ground (arith, created, committed)

abbrev pub calls : Calls
calls = record { reads = record { stat = none; open_file = none; copy = none }; writes = sys }

pub put_stored :
    serve (marshal_text (id_of 1)) (Method.put (b'b' ∷ [])) calls no_file
    ≡ returns (stored, Reply.stored uploaded)
unfolding by_method put_reply
put_stored =
    serve_reads (marshal_text (id_of 1)) (id_of 1) (Method.put (b'b' ∷ [])) calls no_file
      (unmarshal_text-marshal_text (id_of 1) id_of_one-IsId)
    ∙ ap (λ o. o andthen put_reply) handle_put-stored

get-put_over_http_example :
    (e : Files) × (serve (marshal_text (id_of 1)) Method.get calls stored
      ≡ returns (e, content (b'b' ∷ [])))
    × ((handle_get (id_of 1) calls.reads stored).2 ≡ content [])
get-put_over_http_example =
    get-put_over_http (id_of 1) (b'b' ∷ []) calls no_file stored id_of_one-IsId put_stored

-- The two halves of a download into an empty cache.
abbrev pub created_file : Files
created_file = record no_file { writing = (id_of 1, tt) ∷ []; staged = (id_of 1, some []) ∷ [] }

pub write-no_file : write (id_of 1) sys no_file ≡ returns (created_file, ok tt)
unfolding write open_file insert id_discrete
write-no_file = ground (arith, created)

pub fill-created_file : fill (id_of 1) (b'b' ∷ []) sys created_file ≡ (stored, uploaded)
unfolding fill close_writer closed convert after_close insert id_discrete
fill-created_file = ground (arith, committed)
