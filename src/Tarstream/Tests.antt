-- ===== src/Tarstream/Tests.antt =====
-- Runs of pkg/tarstream/stream.go, and the theorems at concrete trees.
use distbuild.Common.{
  ℕ, ◌-◌, ◌*◌, ◌/◌, ◌%◌, ◌≡◌, refl, Bool, false, none, some, [], ◌∷◌, ite, ok, err, ◌↔◌, ℕ_discrete,
}
use distbuild.Tarstream.{
  dir_header, Entries, dir, file, end, entry, file_header, write_too_long, missed_writing,
  walk_failed, open_failed, write_header, copy, open_and_copy, close, send_root, send, Location,
  location_discrete, directory, regular, FileSystem, update, step, join, exists, mkdir, write_file,
  parent_error, receive_member, receive, send_node, whole, eof, Writer,
}
use distbuild.Tarstream.Sending.{AllReadable, send_succeeds, list_entries}
use distbuild.Tarstream.Inside.{Within, receive_inside}
use distbuild.Build.Defs.{Text, text_discrete}

abbrev bin : Text
bin = b'b' ∷ b'i' ∷ b'n' ∷ []

abbrev log : Text
log = b'l' ∷ b'o' ∷ b'g' ∷ []

abbrev up : Text
up = b'.' ∷ b'.' ∷ []

-- bin/log with two bytes, and an empty log beside it.
abbrev tree : Entries
tree =
    entry bin (dir (entry log (file 493 2 (some (7 ∷ 8 ∷ []))) end))
      (entry log (file 438 0 (some [])) end)

-- The machine that receives has the directory `at`, which is empty.
abbrev at : Location
at = log ∷ []

abbrev machine : FileSystem
machine q =
    ite (location_discrete at q) (some directory)
      (ite (location_discrete [] q) (some directory) none)

-- The umask 022 takes the bits 2 and 16 of a mode.
abbrev under_022 : ℕ → ℕ
under_022 mode = mode - mode / 16 % 2 * 16 - mode / 2 % 2 * 2

abbrev allow : Location → Bool
allow p = false

sends_all : send (some (dir tree)) ≡ (
  record {
    members =
        dir_header (bin ∷ [])
        ∷ record (file_header (bin ∷ log ∷ []) 493 2) { body = 7 ∷ 8 ∷ [] }
        ∷ file_header (log ∷ []) 438 0
        ∷ [];
    missing = 0;
  },
  ok tt,
)
unfolding send send_root send_node write_header open_and_copy copy close
sends_all = refl

-- A file that shrank is found out at the next header or at the end, one that grew at once.
shrunk : (send (some (dir (entry log (file 420 3 (some (7 ∷ []))) end)))).1 ≡ err missed_writing
unfolding send send_root send_node write_header open_and_copy copy close
shrunk = refl

grown : (send (some (dir (entry log (file 420 0 (some (7 ∷ []))) end)))).1 ≡ err write_too_long
unfolding send send_root send_node write_header open_and_copy copy close
grown = refl

gone :
    ((send none).1 ≡ err walk_failed)
    × ((send (some (dir (entry log (file 420 0 none) end)))).1 ≡ err open_failed)
unfolding send send_root send_node write_header open_and_copy copy close
gone = (refl, refl)

-- A name that goes up writes outside the directory.
escapes :
    (receive allow under_022 at
        (whole (record (file_header (up ∷ bin ∷ []) 420 1) { body = 7 ∷ [] }) eof)
        machine).0
      (bin ∷ [])
    ≡ some (regular 420 (7 ∷ []))
unfolding receive receive_member write_file parent_error join step update location_discrete
    text_discrete ℕ_discrete
escapes = refl

-- A second copy of a file over a longer one leaves the tail of the old one, and its mode.
not_truncated :
    (receive allow under_022 at
        (whole
          (record (file_header (bin ∷ []) 420 2) { body = 7 ∷ 8 ∷ [] })
          (whole (record (file_header (bin ∷ []) 493 1) { body = 9 ∷ [] }) eof))
        machine).0
      (bin ∷ log ∷ [])
    ≡ some (regular 420 (9 ∷ 8 ∷ []))
unfolding receive receive_member write_file parent_error join step update location_discrete
    text_discrete ℕ_discrete
not_truncated = refl

-- A directory that is there is an error.
twice :
    (receive allow under_022 at
      (whole (dir_header (bin ∷ [])) (whole (dir_header (bin ∷ [])) eof))
      machine).1
    ≡ err exists
unfolding receive receive_member mkdir parent_error join step update location_discrete text_discrete
    ℕ_discrete
twice = refl

send_succeeds_example : ((w : Writer) × (send (some (dir tree)) ≡ (w, ok tt))) ↔ (
    AllReadable tree
    × (send (some (dir tree)) ≡ (record { members = list_entries [] tree; missing = 0 }, ok tt)))
send_succeeds_example = send_succeeds tree

outside : ¬ Within at []
outside ([], e) = cc
outside (x ∷ xs, e) = cc

receive_inside_example :
    (receive allow under_022 at (whole (dir_header (bin ∷ [])) eof) machine).0 [] ≡ machine []
receive_inside_example =
    receive_inside allow under_022 at [] (whole (dir_header (bin ∷ [])) eof) machine ((cc, tt), tt)
      outside
