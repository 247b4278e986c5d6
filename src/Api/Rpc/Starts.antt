-- ===== src/Api/Rpc/Starts.antt =====
-- A build that its service has started, as the client of pkg/api/build_client.go sees it.
use distbuild.Common.{
  ◌≡◌, sym, ap, ◌∙◌, true, false, none, some, List, [], ◌∷◌, ◌++◌, map, All, ok, returns, arith,
}
use mathlib.Core.List.{map-append, append_assoc}
use distbuild.Build.{Graph}
use distbuild.Api.Messages.{BuildStarted, StatusUpdate}
use distbuild.Api.Status.{
  begun, changed, Sending, sends, change, StatusWriter, new_status_writer, write_all, as_started,
  decode_next,
}
use distbuild.Api.Status.Reading.{changes, write_all-changes, write_all-finish}
use distbuild.Api.Rpc.{
  Service, start_build_handler, await_done, with_reader, read_started, over_http, start_build_call,
}

write_all-until :
    (us : List StatusUpdate) (last : StatusUpdate) (w : StatusWriter)
    → w.start_msg_send ≡ true
    → w.done ≡ false
    → All (λ u. u.build_finished ≡ none) us
    → last.build_finished ≡ some tt
    → write_all (changes (us ++ last ∷ [])) w
      ≡ returns (record w { frames = w.frames ++ map changed (us ++ last ∷ []); done = true })
write_all-until us last w going still_open plain finish =
    ap (λ cs. write_all cs w) (map-append (λ u. change sends u) us (last ∷ []))
    ∙ write_all-changes us (changes (last ∷ [])) w going plain
    ∙ write_all-finish last (record w { frames = w.frames ++ map changed us }) going still_open
        finish
    ∙ ap (λ fs. returns (record w { frames = fs; done = true }))
        (append_assoc w.frames (map changed us) (changed last ∷ [])
          ∙ ap (λ fs. w.frames ++ fs) (sym (map-append changed us (last ∷ []))))

module _ (S : Service) where
  pub start_build_call-started :
      (g : Graph) (how : Sending) (us : List StatusUpdate) (last : StatusUpdate) (s t : S.State)
      (w : StatusWriter) (rsp : BuildStarted)
      → S.start_build (record { graph = g }) new_status_writer s ≡ returns ((t, w), ok tt)
      → w.start_msg_send ≡ true
      → w.done ≡ false
      → w.frames ≡ begun rsp ∷ []
      → All (λ u. u.build_finished ≡ none) us
      → last.build_finished ≡ some tt
      → start_build_call S none g how (changes (us ++ last ∷ [])) s
        ≡ returns (t, ok (rsp, record { frames = map changed (us ++ last ∷ []); breaks = false }))
  unfolding start_build_call over_http start_build_handler await_done read_started with_reader
      decode_next as_started
  start_build_call-started g how us last s t w rsp begins going still_open only plain finish =
      ground (arith, begins, only, write_all-until us last w going still_open plain finish)
