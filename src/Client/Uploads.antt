-- ===== src/Client/Uploads.antt =====
-- The client and the coordinator agree on the files to be uploaded.
use distbuild.Common.{◌≡◌, refl, some, List, [], ◌∷◌, map, Memᴰ, Dict, lookup, ok, arith}
use distbuild.Build.{Text, BuildId, id_discrete, Graph}
use distbuild.Dist.Build.{started}
use distbuild.Client.{File, regular, file_error, found_at, upload_next, start_uploads}

lookup-key :
    (m : Dict BuildId Text) (id : BuildId)
    → Memᴰ id (map (λ (f : BuildId × Text). f.0) m)
    → (path : Text) × (lookup id_discrete m id ≡ some path)
unfolding lookup
lookup-key [] id h = elim h [ ]
lookup-key ((j, path) ∷ m) id (Memᴰ.head same) = (path, ground (arith, same))
lookup-key ((j, path) ∷ m) id (Memᴰ.tail h) = elim (id_discrete j id) [
  | yes same ↦ (path, ground (arith, same))
  | no other ↦ let (path', e) = lookup-key m id h in (path', ground (arith, e, other))
]

uploads_all :
    (disk : Text → File) (g : Graph) (ids : List BuildId)
    → ((id : BuildId) (path : Text)
        → lookup id_discrete g.source_files id ≡ some path
        → disk path ≡ regular)
    → ((id : BuildId) → Memᴰ id ids → Memᴰ id (map (λ (f : BuildId × Text). f.0) g.source_files))
    → start_uploads disk g ids ≡ ok ids
unfolding start_uploads file_error found_at upload_next
uploads_all disk g [] on_disk known = refl
uploads_all disk g (id ∷ ids) on_disk known =
    let (path, e) = lookup-key g.source_files id (known id (Memᴰ.head refl)) in
    ground
      (arith, e, on_disk id path e, uploads_all disk g ids on_disk (λ id m. known id (Memᴰ.tail m)))

-- When every source file of the graph is a regular file on the client's disk, the client uploads
-- exactly the files that the coordinator's first message asks for.
pub start_uploads-started :
    (disk : Text → File) (g : Graph) (build : BuildId)
    → ((id : BuildId) (path : Text)
        → lookup id_discrete g.source_files id ≡ some path
        → disk path ≡ regular)
    → start_uploads disk g (started build g).missing_files ≡ ok (started build g).missing_files
unfolding started
start_uploads-started disk g build on_disk =
    uploads_all disk g (map (λ (f : BuildId × Text). f.0) g.source_files) on_disk (λ id m. m)
