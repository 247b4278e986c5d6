-- ===== src/Api/Status/Protocol.antt =====
-- The order of the messages of pkg/api/status_writer.go.
use distbuild.Common.{
  sym, ap, subst, ◌∙◌, Bool-cases, ◌≡◌, ◌≢◌, refl, true, false, List, [], ◌∷◌, ◌++◌, All,
  All-append, Result, returns, andthen-eq-returns, inl, inr, arith,
}
use distbuild.Api.Messages.{BuildStarted, StatusUpdate}
use distbuild.Api.Status.{
  Frame, begun, changed, other, Sending, sends, write_fails, flush_fails, StatusError, StatusWriter,
  new_status_writer, started, updated, WriterCall, start, change, write_one, write_all,
}

abbrev pub IsUpdate : Frame → Type 0
IsUpdate (begun rsp) = ⊥
IsUpdate (changed u) = Unit
IsUpdate other = ⊥

-- Nothing yet, or one "started" message and updates behind it.
abbrev pub InOrder : List Frame → Type 0
InOrder [] = Unit
InOrder (begun rsp ∷ fs) = All IsUpdate fs
InOrder (changed u ∷ fs) = ⊥
InOrder (other ∷ fs) = ⊥

-- The "started" message is not lost.
abbrev pub StartArrives : WriterCall → Type 0
StartArrives (start how rsp) = how ≢ write_fails
StartArrives (change how u) = Unit

record Orderly (w : StatusWriter) : Type 0 where
  order : InOrder w.frames
  before : w.start_msg_send ≡ false → w.frames ≡ []
  after : w.start_msg_send ≡ true → w.frames ≢ []

InOrder-snoc :
    (fs : List Frame) (u : StatusUpdate) → fs ≢ [] → InOrder fs → InOrder (fs ++ changed u ∷ [])
InOrder-snoc [] u ne h = absurd (ne refl)
InOrder-snoc (begun rsp ∷ fs) u ne h = All-append IsUpdate fs (changed u ∷ []) h (tt, tt)
InOrder-snoc (changed v ∷ fs) u ne h = absurd h
InOrder-snoc (other ∷ fs) u ne h = absurd h

snoc-ne-nil : (fs : List Frame) (f : Frame) → fs ++ f ∷ [] ≢ []
snoc-ne-nil [] f e = cc
snoc-ne-nil (g ∷ fs) f e = cc

-- How a call changes the writer.
data Effect (w v : StatusWriter) : Type 0 where
  unchanged : v.start_msg_send ≡ w.start_msg_send → v.frames ≡ w.frames → Effect w v
  begins :
      (rsp : BuildStarted)
      → w.start_msg_send ≡ false
      → v.start_msg_send ≡ true
      → v.frames ≡ w.frames ++ begun rsp ∷ []
      → Effect w v
  grows :
      (u : StatusUpdate)
      → w.start_msg_send ≡ true
      → v.start_msg_send ≡ true
      → v.frames ≡ w.frames ++ changed u ∷ []
      → Effect w v

started-Effect :
    (how : Sending) (rsp : BuildStarted) (w : StatusWriter)
    → how ≢ write_fails
    → Effect w (started how rsp w).0
unfolding started
started-Effect how rsp w arrives = elim (Bool-cases w.start_msg_send) [
  | inl again ↦ unchanged (ground arith) (ground arith)
  | inr first ↦
      elim how as (λ h. h ≢ write_fails → Effect w (started h rsp w).0) [
        | sends ↦ λ a. begins rsp first (ground arith) (ground arith)
        | write_fails ↦ λ a. absurd (a refl)
        | flush_fails ↦ λ a. begins rsp first (ground arith) (ground arith)
      ]
        arrives
]

updated-Effect :
    (how : Sending) (u : StatusUpdate) (w v : StatusWriter) (r : Result StatusError (Unit {0}))
    → updated how u w ≡ returns (v, r)
    → Effect w v
unfolding updated
updated-Effect how u w v r h = elim (Bool-cases w.start_msg_send) [
  | inr none_yet ↦ unchanged (ground arith) (ground arith)
  | inl going ↦
      elim how as (λ k. updated k u w ≡ returns (v, r) → Effect w v) [
        | sends ↦ λ e. grows u going (ground arith) (ground arith)
        | write_fails ↦ λ e. unchanged (ground arith) (ground arith)
        | flush_fails ↦ λ e. grows u going (ground arith) (ground arith)
      ]
        h
]

write_one-Effect :
    (c : WriterCall) (w v : StatusWriter) (r : Result StatusError (Unit {0}))
    → StartArrives c
    → write_one c w ≡ returns (v, r)
    → Effect w v
unfolding write_one
write_one-Effect (start how rsp) w v r arrives h =
    subst (λ x. Effect w x) (ground arith) (started-Effect how rsp w arrives)
write_one-Effect (change how u) w v r arrives h = updated-Effect how u w v r h

Effect-Orderly : (w v : StatusWriter) → Effect w v → Orderly w → Orderly v
Effect-Orderly w v (unchanged a b) o = record {
  order = subst InOrder (sym b) o.order;
  before = λ e. b ∙ o.before (sym a ∙ e);
  after = λ e empty. o.after (sym a ∙ e) (sym b ∙ empty);
}
Effect-Orderly w v (begins rsp a b c) o =
    let only : v.frames ≡ begun rsp ∷ [] = c ∙ ap (λ l. l ++ begun rsp ∷ []) (o.before a) in
    record {
      order = subst InOrder (sym only) tt;
      before = λ e. absurd (cc);
      after = λ e empty. snoc-ne-nil w.frames (begun rsp) (sym c ∙ empty);
    }
Effect-Orderly w v (grows u a b c) o = record {
  order = subst InOrder (sym c) (InOrder-snoc w.frames u (o.after a) o.order);
  before = λ e. absurd (cc);
  after = λ e empty. snoc-ne-nil w.frames (changed u) (sym c ∙ empty);
}

write_all-Orderly :
    (cs : List WriterCall) (w v : StatusWriter)
    → All StartArrives cs
    → write_all cs w ≡ returns v
    → Orderly w
    → Orderly v
unfolding write_all
write_all-Orderly [] w v arrive h o = subst Orderly (ground arith) o
write_all-Orderly (c ∷ cs) w v (arrives, arrive) h o =
    let ((x, r), rest, first) = andthen-eq-returns (write_one c w) _ h in
    write_all-Orderly cs x v arrive rest
      (Effect-Orderly w x (write_one-Effect c w x r arrives first) o)

-- Whatever calls of `Started` and `Updated` a new writer gets, in whatever order and however they end,
-- the body holds nothing or one "started" message and then updates only; this is where no "started"
-- message is lost in the encoder.
pub write_all-InOrder :
    (cs : List WriterCall) (w : StatusWriter)
    → All StartArrives cs
    → write_all cs new_status_writer ≡ returns w
    → InOrder w.frames
unfolding new_status_writer
write_all-InOrder cs w arrive h =
    (write_all-Orderly cs new_status_writer w arrive h
      (record { order = tt; before = λ e. refl; after = λ e. absurd (cc) })).order
