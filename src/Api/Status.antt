-- ===== src/Api/Status.antt =====
-- pkg/api/status_writer.go and status_reader.go: the stream of messages of a build.
pub mod Protocol
pub mod Reading
pub mod Tests
use distbuild.Common.{
  Bool, true, false, Option, none, some, List, [], ◌∷◌, ◌++◌, replicate, if◌then◌else◌, Result, ok,
  err, Outcome, returns, panics, ◌andthen◌, is_some,
}
use distbuild.Build.{BuildId}
use distbuild.Api.Messages.{BuildStarted, StatusUpdate}

-- A message in the body of the response. `other` is anything else, such as the text of an error.
pub data Frame : Type 0 where
  begun : BuildStarted → Frame
  changed : StatusUpdate → Frame
  other : Frame

-- How the encoder and the flush end. After a failed flush the message is written all the same.
pub data Sending : Type 0 where
  sends write_fails flush_fails : Sending

pub data StatusError : Type 0 where
  already_started not_started write_failed flush_failed : StatusError

-- `streamStatusWriter`; `done` says that the channel is closed, `frames` is what is written.
pub record StatusWriter : Type 0 where
  pub start_msg_send : Bool
  pub done : Bool
  pub frames : List Frame

abbrev pub Status : Type 0
Status = StatusWriter × Result StatusError (Unit {0})

unfoldable pub new_status_writer : StatusWriter
new_status_writer = record { start_msg_send = false; done = false; frames = [] }

unfoldable pub send : Sending → Frame → StatusWriter → Status
send sends f w = (record w { frames = w.frames ++ f ∷ [] }, ok tt)
send write_fails f w = (w, err write_failed)
send flush_fails f w = (record w { frames = w.frames ++ f ∷ [] }, err flush_failed)

-- `Started`: the flag is set before the message is sent.
unfoldable pub started : Sending → BuildStarted → StatusWriter → Status
unfolding send
started how rsp w =
    if w.start_msg_send
    then (w, err already_started)
    else send how (begun rsp) (record w { start_msg_send = true })

-- `close(s.done)`
unfoldable pub close_done : StatusWriter → Outcome Status
close_done w = if w.done then panics else returns (record w { done = true }, ok tt)

-- `Updated`
unfoldable pub updated : Sending → StatusUpdate → StatusWriter → Outcome Status
unfolding send close_done
updated how update w =
    let (w', r) = send how (changed update) w in
    if w.start_msg_send
    then elim r [
      | err e ↦ returns (w', err e)
      | ok _ ↦ if is_some update.build_finished then close_done w' else returns (w', ok tt)
    ]
    else returns (w, err not_started)

-- The calls of one writer, each under its lock.
pub data WriterCall : Type 0 where
  start : Sending → BuildStarted → WriterCall
  change : Sending → StatusUpdate → WriterCall

unfoldable pub write_one : WriterCall → StatusWriter → Outcome Status
unfolding started updated
write_one (start how rsp) w = returns (started how rsp w)
write_one (change how update) w = updated how update w

unfoldable pub write_all : List WriterCall → StatusWriter → Outcome StatusWriter
write_all [] w = returns w
write_all (c ∷ cs) w = write_one c w andthen λ (w', _). write_all cs w'

-- The body of a response as the client reads it: its frames, and whether the connection breaks then.
pub record Body : Type 0 where
  pub frames : List Frame
  pub breaks : Bool

pub data DecodeError : Type 0 where
  eof decode_failed : DecodeError

-- The JSON decoder leaves out the fields that it does not know: each message passes for the other, as
-- one without content.
unfoldable pub as_update : Frame → Option StatusUpdate
as_update (changed u) = some u
as_update (begun rsp) =
    some (record { job_finished = none; build_failed = none; build_finished = none })
as_update other = none

unfoldable pub as_started : Frame → Option BuildStarted
as_started (begun rsp) = some rsp
as_started (changed u) = some (record { id = replicate 20 0; missing_files = [] })
as_started other = none

-- One value off the body, by the decoder given.
unfoldable pub decode_next : {A : Type 0} → (Frame → Option A) → Body → Result DecodeError A × Body
decode_next decode b = elim b.frames [
  | [] ↦ (if b.breaks then err decode_failed else err eof, b)
  | f ∷ fs ↦ elim (decode f) [
    | none ↦ (err decode_failed, b)
    | some a ↦ (ok a, record b { frames = fs })
  ]
]

-- `streamStatusReader.Next`
unfoldable pub next : Body → Result DecodeError StatusUpdate × Body
unfolding decode_next
next b = decode_next as_update b
