-- ===== src/Tarstream/Sending.antt =====
-- What `Send` of pkg/tarstream/stream.go writes, and when it fails.
use distbuild.Common.{
  ◌≡◌, refl, sym, ap, ◌∙◌, ◌↔◌, Option, none, some, List, [], ◌∷◌, ◌++◌, length, ok, err, arith,
}
use mathlib.Core.List.{append_assoc, append-nil}
use distbuild.Build.Defs.{Text}
use distbuild.Tarstream.{
  Name, Node, Entries, dir, file, unreadable, end, entry, Member, Writer, Sent, ◌next◌,
  write_header, fill, copy, open_and_copy, close, dir_header, file_header, send_node, send_entries,
  send_root, send,
}

abbrev pub content : Option Text → Text
content none = []
content (some bytes) = bytes

-- The members of an archive of a tree: each directory before what it holds.
unfoldable mutual
  pub list_node : Name → Node → List Member
  list_node name (dir es) = dir_header name ∷ list_entries name es
  list_node name (file mode size opened) =
      record (file_header name mode size) { body = content opened } ∷ []
  list_node name unreadable = []

  pub list_entries : Name → Entries → List Member
  list_entries name end = []
  list_entries name (entry c node es) = list_node (name ++ c ∷ []) node ++ list_entries name es

-- Every directory can be read, and every file has just the bytes that it announces.
unfoldable mutual
  pub Readable : Node → Type 0
  Readable (dir es) = AllReadable es
  Readable (file mode size opened) = (bytes : Text) × (opened ≡ some bytes) × (length bytes ≡ size)
  Readable unreadable = ⊥

  pub AllReadable : Entries → Type 0
  AllReadable end = Unit
  AllReadable (entry c node es) = Readable node × AllReadable es

fill-snoc :
    (bytes : Text) (ms : List Member) (m : Member)
    → fill bytes (ms ++ m ∷ []) ≡ ms ++ record m { body = bytes } ∷ []
fill-snoc bytes [] m = refl
fill-snoc bytes (n ∷ []) m = refl
fill-snoc bytes (n ∷ k ∷ ms) m = ap (λ rest. n ∷ rest) (fill-snoc bytes (k ∷ ms) m)

next-eq-ok :
    (s : Sent) (k : Writer → Sent) {w : Writer}
    → (s next k) ≡ (w, ok tt)
    → (v : Writer) × (s ≡ (v, ok tt)) × (k v ≡ (w, ok tt))
next-eq-ok (v, err e) k h = absurd (cc)
next-eq-ok (v, ok tt) k h = (v, refl, h)

abbrev written : List Member → Sent
written ms = (record { members = ms; missing = 0 }, ok tt)

mutual
  unfolding send_node list_node Readable write_header open_and_copy copy

  send_node_writes :
      (name : Name) (n : Node) (ms : List Member)
      → Readable n
      → send_node name n (record { members = ms; missing = 0 }) ≡ written (ms ++ list_node name n)
  send_node_writes name (dir es) ms h =
      send_entries_writes name es (ms ++ dir_header name ∷ []) h
      ∙ ap written (append_assoc ms (dir_header name ∷ []) (list_entries name es))
  send_node_writes name (file mode size opened) ms (bytes, opens, fits) =
      ground (arith, opens, fits, fill-snoc bytes ms (file_header name mode size))
  send_node_writes name unreadable ms h = absurd h

  send_entries_writes :
      (name : Name) (es : Entries) (ms : List Member)
      → AllReadable es
      → send_entries name es (record { members = ms; missing = 0 })
        ≡ written (ms ++ list_entries name es)
  send_entries_writes name end ms h = ap written (sym (append-nil ms))
  send_entries_writes name (entry c node es) ms (h, hs) =
      let first = list_node (name ++ c ∷ []) node in
      ap (λ s. s next λ w. send_entries name es w) (send_node_writes (name ++ c ∷ []) node ms h)
      ∙ send_entries_writes name es (ms ++ first) hs
      ∙ ap written (append_assoc ms first (list_entries name es))

write_header-ok :
    (m : Member) (w v : Writer)
    → write_header m w ≡ (v, ok tt)
    → (w.missing ≡ 0) × (v.missing ≡ m.size)
unfolding write_header
write_header-ok m w v h = ground arith

open_and_copy-ok :
    (opened : Option Text) (w v : Writer)
    → open_and_copy opened w ≡ (v, ok tt)
    → v.missing ≡ 0
    → (bytes : Text) × (opened ≡ some bytes) × (length bytes ≡ w.missing)
unfolding open_and_copy copy
open_and_copy-ok none w v h full = absurd (cc)
open_and_copy-ok (some bytes) w v h full = (bytes, refl, ground arith)

mutual
  unfolding send_node list_node Readable

  send_node-Readable :
      (name : Name) (n : Node) (w v : Writer)
      → send_node name n w ≡ (v, ok tt)
      → v.missing ≡ 0
      → Readable n × (w.missing ≡ 0)
  send_node-Readable name (dir es) w v h full =
      let (u, first, second) = next-eq-ok (write_header (dir_header name) w) _ h in
      let (readable, _) = send_entries-AllReadable name es u v second full in
      (readable, (write_header-ok (dir_header name) w u first).0)
  send_node-Readable name (file mode size opened) w v h full =
      let (u, first, second) = next-eq-ok (write_header (file_header name mode size) w) _ h in
      let (empty, announced) = write_header-ok (file_header name mode size) w u first in
      let (bytes, opens, fits) = open_and_copy-ok opened u v second full in
      ((bytes, opens, fits ∙ announced), empty)
  send_node-Readable name unreadable w v h full = absurd (cc)

  send_entries-AllReadable :
      (name : Name) (es : Entries) (w v : Writer)
      → send_entries name es w ≡ (v, ok tt)
      → v.missing ≡ 0
      → AllReadable es × (w.missing ≡ 0)
  send_entries-AllReadable name end w v h full = (tt, ground (arith, h))
  send_entries-AllReadable name (entry c node es) w v h full =
      let (u, first, second) = next-eq-ok (send_node (name ++ c ∷ []) node w) _ h in
      let (rest, between) = send_entries-AllReadable name es u v second full in
      let (here, before) = send_node-Readable (name ++ c ∷ []) node w u first between in
      ((here, rest), before)

-- `Send` of a readable directory writes a whole archive of it.
pub send_writes :
    (es : Entries) → AllReadable es → send (some (dir es)) ≡ written (list_entries [] es)
unfolding send send_root close
send_writes es h = ap (λ s. s next λ w. close w) (send_entries_writes [] es [] h)

close-ok : (w v : Writer) → close w ≡ (v, ok tt) → w.missing ≡ 0
unfolding close
close-ok w v h = ground arith

-- `Send` of a directory succeeds exactly when everything below it can be read and every file has as
-- many bytes as it announces, and then the archive holds each directory before what it holds.
pub send_succeeds :
    (es : Entries)
    → ((w : Writer) × (send (some (dir es)) ≡ (w, ok tt)))
      ↔ (AllReadable es × (send (some (dir es)) ≡ written (list_entries [] es)))
unfolding send send_root
send_succeeds es = (
  λ (w, h).
      let (u, first, second) =
        next-eq-ok (send_entries [] es (record { members = []; missing = 0 })) _ h in
      let (readable, _) = send_entries-AllReadable [] es _ u first (close-ok u w second) in
      (readable, send_writes es readable),
  λ (readable, e). (record { members = list_entries [] es; missing = 0 }, e),
)
