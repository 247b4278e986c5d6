-- ===== src/Artifact/Tests.antt =====
-- An artifact that is asked for.
use distbuild.Common.{refl, none, [], ◌∷◌, lookup}
use distbuild.Build.Id.{marshal_text}
use distbuild.Build.Id.Tests.{id_of, id_of_one-IsId}
use distbuild.Tarstream.{Node, dir, end}
use distbuild.Artifact.{Cache, new_cache}
use distbuild.Artifact.Locks.{Unchanged}
use distbuild.Artifact.Serving.{Answer, serve, serve_answers}

-- Artifact 1 is an empty directory.
abbrev at_rest : Cache Node
unfolding new_cache
at_rest = new_cache ((id_of 1, dir end) ∷ [])

serve_answers_example :
    Unchanged at_rest (serve (marshal_text (id_of 1)) none at_rest).0
    × Answer (id_of 1) none at_rest (serve (marshal_text (id_of 1)) none at_rest).1
unfolding new_cache lookup
serve_answers_example = serve_answers (id_of 1) none at_rest 0 id_of_one-IsId refl
