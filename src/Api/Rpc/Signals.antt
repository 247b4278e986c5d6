-- ===== src/Api/Rpc/Signals.antt =====
-- A signal over HTTP is a call of the service: pkg/api/build_client.go and build_handler.go.
use distbuild.Common.{
  ◌≡◌, refl, ap, ◌∙◌, [], ◌∷◌, Result, ok, err, Outcome, returns, panics, blocks, ◌andthen◌, none,
  arith,
}
use distbuild.Build.{BuildId, Text}
use distbuild.Build.Id.{IsId, marshal_text, unmarshal_text, to_string}
use distbuild.Build.Id.Text.{unmarshal_text-marshal_text, unmarshal_text_sound}
use distbuild.Api.Messages.{SignalRequest}
use distbuild.Api.Rpc.{
  Service, SignalBody, signal, answer_signal, read_signal, signal_build_handler, ClientError,
  unexpected_status, refused, read_signalled, read_with, over_http, signal_build_call,
}

-- An error of the service is the status 500 to the client.
abbrev pub as_status : {A : Type 0} → Result Text A → Result ClientError A
as_status (ok a) = ok a
as_status (err e) = err (unexpected_status 500)

abbrev pub with_status :
    {State A : Type 0} → State × Result Text A → Outcome (State × Result ClientError A)
with_status (s, r) = returns (s, as_status r)

module _ (S : Service) where
  handler_reads :
      (query : Text) (id : BuildId) (body : SignalBody) (s : S.State)
      → unmarshal_text query ≡ ok id
      → signal_build_handler S query body s ≡ read_signal S id body s
  unfolding signal_build_handler
  handler_reads [] id body s h =
      let (_, text, _) = unmarshal_text_sound [] h in absurd (omega (arith, text.sized))
  handler_reads (c ∷ query) id body s h = ground (arith, h)

  answered :
      (o : Outcome (S.State × Result Text (Unit {0})))
      → ((o andthen answer_signal S) andthen read_with S read_signalled) ≡ (o andthen with_status)
  unfolding answer_signal read_signalled refused
  answered panics = refl
  answered blocks = refl
  answered (returns (s, ok x)) = refl
  answered (returns (s, err e)) = refl

  -- The client's signal, sent to the handler, does what the call of the service would do, to the same
  -- state: it waits or panics where that does, succeeds where it succeeds, and an error comes back as
  -- the status 500. This is for an identifier of twenty bytes and a request that arrives.
  pub signal_over_http :
      (id : BuildId) (req : SignalRequest) (s : S.State)
      → IsId id
      → signal_build_call S none id req s ≡ (S.signal_build id req s andthen with_status)
  unfolding signal_build_call over_http read_signal marshal_text
  signal_over_http id req s h =
      ap (λ o. o andthen read_with S read_signalled)
        (handler_reads (to_string id) id (signal req) s (unmarshal_text-marshal_text id h))
      ∙ answered (S.signal_build id req s)
