-- ===== src/Api/Status/Tests.antt =====
-- Streams of pkg/api/status_writer.go.
use distbuild.Common.{
  ◌≡◌, refl, true, false, none, some, List, [], ◌∷◌, ok, returns, panics, replicate, All,
}
use distbuild.Api.Messages.{BuildStarted, StatusUpdate}
use distbuild.Api.Status.{
  begun, changed, sends, write_fails, flush_fails, StatusWriter, new_status_writer, send, started,
  updated, close_done, WriterCall, start, change, write_one, write_all, next, as_update,
  decode_next,
}
use distbuild.Api.Status.Protocol.{InOrder, StartArrives, write_all-InOrder}

abbrev hello : BuildStarted
hello = record { id = replicate 20 0; missing_files = [] }

abbrev news : StatusUpdate
news = record { job_finished = none; build_failed = none; build_finished = none }

abbrev end_of_build : StatusUpdate
end_of_build = record news { build_finished = some tt }

-- An update before the start is refused, as is a second start.
abbrev calls : List WriterCall
calls =
    change sends news
    ∷ start sends hello
    ∷ start sends hello
    ∷ change flush_fails end_of_build
    ∷ change sends end_of_build
    ∷ []

abbrev written : StatusWriter
written = record {
  start_msg_send = true;
  done = true;
  frames = begun hello ∷ changed end_of_build ∷ changed end_of_build ∷ [];
}

writes : write_all calls new_status_writer ≡ returns written
unfolding write_all write_one started updated send close_done new_status_writer
writes = refl

-- A second update that ends the build closes a closed channel.
closes_twice : write_all (change sends end_of_build ∷ []) written ≡ panics
unfolding write_all write_one updated send close_done
closes_twice = refl

-- A start that is lost in the encoder sets the flag: the next update comes first on the stream.
start_lost :
    write_all (start write_fails hello ∷ change sends news ∷ []) new_status_writer
    ≡ returns (record { start_msg_send = true; done = false; frames = changed news ∷ [] })
unfolding write_all write_one started updated send close_done new_status_writer
start_lost = refl

-- The reader takes a start for an update without content.
start_as_update : (next (record { frames = begun hello ∷ []; breaks = false })).0 ≡ ok news
unfolding next as_update decode_next
start_as_update = refl

arrive : All StartArrives calls
arrive = (tt, ((λ e. absurd (cc)), ((λ e. absurd (cc)), (tt, (tt, tt)))))

write_all-InOrder_example : InOrder written.frames
write_all-InOrder_example = write_all-InOrder calls written arrive writes
