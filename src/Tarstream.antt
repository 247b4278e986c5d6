-- ===== src/Tarstream.antt =====
-- pkg/tarstream/stream.go: a directory sent as a tar stream, and the stream made files again.
-- A `Name` is the text between the slashes, outermost first, as archive/tar carries it.
pub mod Sending
pub mod Paths
pub mod RoundTrip
pub mod Inside
pub mod Tests
use distbuild.Common.{
  ℕ, zero, suc, ◌-◌, Bool, true, false, Option, none, some, List, [], ◌∷◌, ◌++◌, ltb, ◌==◌, ite,
  length, if◌then◌else◌, Result, ok, err,
}
use distbuild.Build.Defs.{Text, text_discrete}

abbrev pub Name : Type 0
Name = List Text

-- What the walk meets, a directory's entries in the order of the walk. A file has its mode, the
-- size that it announces, and what opening and reading it gives.
mutual
  pub data Node : Type 0 where
    dir : Entries → Node
    file : ℕ → ℕ → Option Text → Node
    unreadable : Node

  pub data Entries : Type 0 where
    end : Entries
    entry : Text → Node → Entries → Entries

-- A member of the archive: its header and what is written of its body.
pub record Member : Type 0 where
  pub is_dir : Bool
  pub name : Name
  pub mode : ℕ
  pub size : ℕ
  pub body : Text

-- The tar writer: what is written, and how much of the last body is missing.
pub record Writer : Type 0 where
  pub members : List Member
  pub missing : ℕ

pub data SendError : Type 0 where
  walk_failed open_failed write_too_long missed_writing : SendError

abbrev pub Sent : Type 0
Sent = Writer × Result SendError (Unit {0})

infixl 5 ◌next◌
abbrev pub ◌next◌ : Sent → (Writer → Sent) → Sent
(w, err e) next k = (w, err e)
(w, ok _) next k = k w

-- A header is refused as long as the body before it is not whole.
pub write_header : Member → Writer → Sent
write_header m w =
    if w.missing == 0
    then (record { members = w.members ++ m ∷ []; missing = m.size }, ok tt)
    else (w, err missed_writing)

abbrev pub take : ℕ → Text → Text
take zero bytes = []
take (suc n) [] = []
take (suc n) (b ∷ bytes) = b ∷ take n bytes

abbrev pub drop : ℕ → Text → Text
drop zero bytes = bytes
drop (suc n) [] = []
drop (suc n) (b ∷ bytes) = drop n bytes

-- The last member gets its body.
abbrev pub fill : Text → List Member → List Member
fill bytes [] = []
fill bytes (m ∷ []) = record m { body = bytes } ∷ []
fill bytes (m ∷ n ∷ ms) = m ∷ fill bytes (n ∷ ms)

-- `io.Copy(tw, f)`: what goes beyond the announced size is refused.
pub copy : Text → Writer → Sent
copy bytes w =
    if ltb w.missing (length bytes)
    then (
      record { members = fill (take w.missing bytes) w.members; missing = 0 },
      err write_too_long,
    )
    else (record { members = fill bytes w.members; missing = w.missing - length bytes }, ok tt)

pub open_and_copy : Option Text → Writer → Sent
open_and_copy none w = (w, err open_failed)
open_and_copy (some bytes) w = copy bytes w

pub close : Writer → Sent
close w = if w.missing == 0 then (w, ok tt) else (w, err missed_writing)

abbrev pub dir_header : Name → Member
dir_header name = record { is_dir = true; name = name; mode = 0; size = 0; body = [] }

abbrev pub file_header : Name → ℕ → ℕ → Member
file_header name mode size = record {
  is_dir = false;
  name = name;
  mode = mode;
  size = size;
  body = [];
}

-- `filepath.Walk` with the function that `Send` gives it; `name` is `rel`.
unfoldable mutual
  pub send_node : Name → Node → Writer → Sent
  send_node name (dir es) w = write_header (dir_header name) w next λ w'. send_entries name es w'
  send_node name (file mode size opened) w =
      write_header (file_header name mode size) w next λ w'. open_and_copy opened w'
  send_node name unreadable w = (w, err walk_failed)

  pub send_entries : Name → Entries → Writer → Sent
  send_entries name end w = (w, ok tt)
  send_entries name (entry c node es) w =
      send_node (name ++ c ∷ []) node w next λ w'. send_entries name es w'

-- The walk's start, whose `rel` is ".", is not sent; `none` is a path that is not there.
pub send_root : Option Node → Writer → Sent
send_root none w = (w, err walk_failed)
send_root (some (dir es)) w = send_entries [] es w
send_root (some (file mode size opened)) w = (w, ok tt)
send_root (some unreadable) w = (w, err walk_failed)

pub send : Option Node → Sent
send root = send_root root (record { members = []; missing = 0 }) next λ w. close w

-- A path of the receiving machine, the innermost name first.
abbrev pub Location : Type 0
Location = List Text

pub location_discrete : Discrete Location
location_discrete = hlevel text_discrete

pub data Item : Type 0 where
  directory : Item
  regular : ℕ → Text → Item

abbrev pub FileSystem : Type 0
FileSystem = Location → Option Item

pub update : FileSystem → Location → Item → FileSystem
update fs p item q = ite (location_discrete p q) (some item) (fs q)

abbrev parent : Location → Location
parent [] = []
parent (c ∷ p) = p

-- One name of `filepath.Join`, which cleans the path.
pub step : Location → Text → Location
step p c = ite (text_discrete c []) p (
    ite (text_discrete c (b'.' ∷ [])) p
      (ite (text_discrete c (b'.' ∷ b'.' ∷ [])) (parent p) (c ∷ p)))

-- `filepath.Join(dir, h.Name)`
pub join : Location → Name → Location
join p [] = p
join p (c ∷ name) = join (step p c) name

pub data ReceiveError : Type 0 where
  exists not_found not_directory is_directory refused broken_stream : ReceiveError

abbrev pub Received : Type 0
Received = FileSystem × Result ReceiveError (Unit {0})

-- The error that keeps `p` from being made: what its parent is.
pub parent_error : FileSystem → Location → Option ReceiveError
parent_error fs [] = some exists
parent_error fs (c ∷ p) = elim (fs p) [
  | none ↦ some not_found
  | some item ↦ elim item [ directory ↦ none | regular _ _ ↦ some not_directory ]
]

-- The stream as the tar reader gives it: whole members, one that is cut off, the end, or an error.
pub data Stream : Type 0 where
  eof broken : Stream
  whole : Member → Stream → Stream
  cut : Member → Stream

-- `forbids` is what the operating system refuses for other reasons, such as permissions.
module _ (forbids : Location → Bool) where
  pub mkdir : Location → FileSystem → Received
  mkdir p fs = elim (fs p) [
    | some _ ↦ (fs, err exists)
    | none ↦ elim (parent_error fs p) [
      | some e ↦ (fs, err e)
      | none ↦ if forbids p then (fs, err refused) else (update fs p directory, ok tt)
    ]
  ]

  -- `masked` is what the system makes of the mode of a new file, the umask of the process included.
  module _ (masked : ℕ → ℕ) where
    -- `os.OpenFile` without O_TRUNC and the copy: an old file keeps its mode and what lies beyond.
    pub write_file : Location → ℕ → Text → FileSystem → Received
    write_file p mode body fs = elim (fs p) [
      | some item ↦ elim item [
        | directory ↦ (fs, err is_directory)
        | regular m old ↦
            if forbids p
            then (fs, err refused)
            else (update fs p (regular m (body ++ drop (length body) old)), ok tt)
      ]
      | none ↦ elim (parent_error fs p) [
        | some e ↦ (fs, err e)
        | none ↦
            if forbids p
            then (fs, err refused)
            else (update fs p (regular (masked mode) body), ok tt)
      ]
    ]

    -- The body of the loop of `Receive`.
    pub receive_member : Location → Member → FileSystem → Received
    receive_member at m fs =
        if m.is_dir then mkdir (join at m.name) fs else write_file (join at m.name) m.mode m.body fs

    pub receive : Location → Stream → FileSystem → Received
    receive at eof fs = (fs, ok tt)
    receive at broken fs = (fs, err broken_stream)
    receive at (cut m) fs =
        let (fs', r) = receive_member at m fs in
        elim r [ err e ↦ (fs', err e) | ok _ ↦ (fs', err broken_stream) ]
    receive at (whole m rest) fs =
        let (fs', r) = receive_member at m fs in
        elim r [ err e ↦ (fs', err e) | ok _ ↦ receive at rest fs' ]

-- The stream that reads back what a writer has written and closed.
pub to_stream : List Member → Stream
to_stream [] = eof
to_stream (m ∷ ms) = whole m (to_stream ms)
