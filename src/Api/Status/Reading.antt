-- ===== src/Api/Status/Reading.antt =====
-- What the reader of pkg/api/status_reader.go makes of what the writer has written.
use distbuild.Common.{
  ◌≡◌, refl, sym, ap, ◌∙◌, true, false, none, some, List, [], ◌∷◌, ◌++◌, map, All, ok, err, Outcome,
  returns, ◌andthen◌, arith,
}
use mathlib.Core.List.{append_assoc, append-nil}
use distbuild.Api.Messages.{StatusUpdate}
use distbuild.Api.Status.{
  changed, sends, StatusWriter, Status, updated, WriterCall, change, write_one, write_all, Body,
  eof, as_update, decode_next, next,
}

-- The calls of `Next` give these updates, and then the end of the stream.
abbrev pub Reads : Body → List StatusUpdate → Type 0
Reads b [] = next b ≡ (err eof, b)
Reads b (u ∷ us) = (rest : Body) × (next b ≡ (ok u, rest)) × Reads rest us

pub Reads-changed :
    (us : List StatusUpdate) → Reads (record { frames = map changed us; breaks = false }) us
unfolding next as_update decode_next
Reads-changed [] = refl
Reads-changed (u ∷ us) =
    (record { frames = map changed us; breaks = false }, refl, Reads-changed us)

abbrev pub changes : List StatusUpdate → List WriterCall
changes us = map (λ u. change sends u) us

updated-plain :
    (u : StatusUpdate) (w : StatusWriter)
    → w.start_msg_send ≡ true
    → u.build_finished ≡ none
    → updated sends u w ≡ returns (record w { frames = w.frames ++ changed u ∷ [] }, ok tt)
unfolding updated
updated-plain u w going plain = ground (arith, going, plain)

-- Updates that do not finish the build are appended, and nothing else changes.
pub write_all-changes :
    (us : List StatusUpdate) (rest : List WriterCall) (w : StatusWriter)
    → w.start_msg_send ≡ true
    → All (λ u. u.build_finished ≡ none) us
    → write_all (changes us ++ rest) w
      ≡ write_all rest (record w { frames = w.frames ++ map changed us })
unfolding write_all write_one
write_all-changes [] rest w going plain =
    ap (λ fs. write_all rest (record w { frames = fs })) (sym (append-nil w.frames))
write_all-changes (u ∷ us) rest w going (p, plain) =
    ap (λ (o : Outcome Status). o andthen λ (w', r). write_all (changes us ++ rest) w')
      (updated-plain u w going p)
    ∙ write_all-changes us rest (record w { frames = w.frames ++ changed u ∷ [] }) going plain
    ∙ ap (λ fs. write_all rest (record w { frames = fs }))
        (append_assoc w.frames (changed u ∷ []) (map changed us))

-- The update that finishes the build closes the channel.
pub write_all-finish :
    (u : StatusUpdate) (w : StatusWriter)
    → w.start_msg_send ≡ true
    → w.done ≡ false
    → u.build_finished ≡ some tt
    → write_all (changes (u ∷ [])) w
      ≡ returns (record w { frames = w.frames ++ changed u ∷ []; done = true })
unfolding write_all write_one updated
write_all-finish u w going still_open last = ground (arith, going, still_open, last)
