-- ===== src/Artifact/Serving.antt =====
-- pkg/artifact/handler.go: a directory of the cache sent as a tar stream.
use distbuild.Common.{
  none, true, is_some, Option-cases, ℕ, suc, ◌≡◌, ◌⊎◌, inl, inr, refl, sym, ap, subst, ◌∙◌, Option,
  some, [], ◌∷◌, lookup, Result, ok, err, arith,
}
use distbuild.Build.{BuildId, Text, id_discrete}
use distbuild.Build.Id.{IsId, marshal_text, unmarshal_text}
use distbuild.Build.Id.Text.{unmarshal_text-marshal_text, unmarshal_text_sound}
use distbuild.Tarstream.{Node, Sent, send}
use distbuild.Artifact.{
  OsError, Error, not_found, exists, write_locked, read_locked, os, Cache, read_unlock, get,
  read_lock, stat_committed,
}
use distbuild.Artifact.Locks.{tally, Unchanged, ReadLocked, unlock_reading, read_unlock_rest}
use distbuild.Artifact.Outcomes.{get_outcome}

-- The statuses 400, 404 and 500, or a stream, whose writer may have failed.
pub data Served : Type 0 where
  bad_request not_there : Served
  failed : Error → Served
  streamed : Sent → Served

-- `Get`, the stream, and the deferred `unlock`.
answer : BuildId → Cache Node × Result Error Node → Cache Node × Served
answer id (c, err not_found) = (c, not_there)
answer id (c, err exists) = (c, failed exists)
answer id (c, err write_locked) = (c, failed write_locked)
answer id (c, err read_locked) = (c, failed read_locked)
answer id (c, err (os e)) = (c, failed (os e))
answer id (c, ok tree) = (read_unlock id c, streamed (send (some tree)))

-- The handler of "/artifact"; `query` is the parameter `id`, empty where it is missing.
pub serve : Text → Option OsError → Cache Node → Cache Node × Served
serve [] stat c = (c, bad_request)
serve (b ∷ query) stat c = elim (unmarshal_text (b ∷ query)) [
  | err e ↦ (c, bad_request)
  | ok id ↦ answer id (get id stat c)
]

serve_reads :
    (query : Text) (id : BuildId) (stat : Option OsError) (c : Cache Node)
    → unmarshal_text query ≡ ok id
    → serve query stat c ≡ answer id (get id stat c)
unfolding serve
serve_reads [] id stat c h =
    let (_, text, _) = unmarshal_text_sound [] h in absurd (omega (arith, text.sized))
serve_reads (b ∷ query) id stat c h = ground (arith, h)

-- What an identifier is answered: an error while it is written, an error of `os.Stat`, "not found", or
-- the stream of its directory.
pub data Answer (id : BuildId) (stat : Option OsError) (c : Cache Node) (s : Served) : Type 0 where
  is_written :
      is_some (lookup id_discrete c.writing id) ≡ true
      → s ≡ failed write_locked
      → Answer id stat c s
  is_refused :
      (e : OsError)
      → lookup id_discrete c.writing id ≡ none
      → stat ≡ some e
      → s ≡ failed (os e)
      → Answer id stat c s
  is_absent :
      lookup id_discrete c.writing id ≡ none
      → stat ≡ none
      → lookup id_discrete c.committed id ≡ none
      → s ≡ not_there
      → Answer id stat c s
  is_there :
      (tree : Node)
      → lookup id_discrete c.writing id ≡ none
      → stat ≡ none
      → lookup id_discrete c.committed id ≡ some tree
      → s ≡ streamed (send (some tree))
      → Answer id stat c s

-- The response, whatever the locks of others.
answer_lem :
    (id : BuildId) (stat : Option OsError) (c : Cache Node)
    → Answer id stat c (answer id (get id stat c)).1
unfolding answer get read_lock stat_committed
answer_lem id stat c = elim (Option-cases (lookup id_discrete c.writing id)) [
  | inr (w, busy) ↦ is_written (ground (arith, busy)) (ground (arith, busy))
  | inl free ↦ elim (Option-cases stat) [
    | inr (e, fails) ↦ is_refused e free fails (ground (arith, free, fails))
    | inl goes ↦ elim (Option-cases (lookup id_discrete c.committed id)) [
      | inl absent ↦ is_absent free goes absent (ground (arith, free, goes, absent))
      | inr (tree, at) ↦ is_there tree free goes at (ground (arith, free, goes, at))
    ]
  ]
]

refused :
    (id : BuildId) (c c' : Cache Node) (e : Error)
    → Unchanged c c'
    → Unchanged c (answer id (c', err e)).0
unfolding answer
refused id c c' not_found same = same
refused id c c' exists same = same
refused id c c' write_locked same = same
refused id c c' read_locked same = same
refused id c c' (os e) same = same

-- A reader that comes and goes.
unlocked :
    (id : BuildId) (n : ℕ) (c c' : Cache Node)
    → lookup id_discrete c.reading id ≡ tally n
    → ReadLocked id n c c'
    → Unchanged c (read_unlock id c')
unlocked id n c c' e l =
    let held : lookup id_discrete c'.reading id ≡ tally (suc n) = ground (arith, l.reading id) in
    let (writing, committed, _) = read_unlock_rest id c' in
    record {
      reading = λ k. ground (arith, unlock_reading id c' n held k, l.reading k, e);
      writing = λ k. ap (λ m. lookup id_discrete m k) writing ∙ l.writing k;
      committed = committed ∙ l.committed;
    }

kept :
    (id : BuildId) (stat : Option OsError) (c : Cache Node) (n : ℕ)
    → lookup id_discrete c.reading id ≡ tally n
    → Unchanged c (answer id (get id stat c)).0
unfolding answer
kept id stat c n e = elim (get_outcome id stat c n e) [
  | inl (tree, c', gets, at, locked) ↦
      subst (λ r. Unchanged c (answer id r).0) (sym gets) (unlocked id n c c' e locked)
  | inr (x, c', gets, same) ↦
      subst (λ r. Unchanged c (answer id r).0) (sym gets) (refused id c c' x same)
]

-- A request for an artifact by the text of its identifier leaves the locks and the directories of the
-- cache as they were, the read lock having been given back. It streams the committed directory of
-- that identifier where there is one that no one writes and `os.Stat` works, answers "not found"
-- where there is none, and an error while it is written or where `os.Stat` fails otherwise.
pub serve_answers :
    (id : BuildId) (stat : Option OsError) (c : Cache Node) (n : ℕ)
    → IsId id
    → lookup id_discrete c.reading id ≡ tally n
    → Unchanged c (serve (marshal_text id) stat c).0
      × Answer id stat c (serve (marshal_text id) stat c).1
serve_answers id stat c n h e =
    subst (λ r. Unchanged c r.0 × Answer id stat c r.1)
      (sym (serve_reads (marshal_text id) id stat c (unmarshal_text-marshal_text id h)))
      (kept id stat c n e, answer_lem id stat c)
