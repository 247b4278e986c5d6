-- ===== src/Dist/Reports/Turns.antt =====
-- What one turn of a goroutine keeps of the count and of the stream.
use distbuild.Common.{
  All, ℕ, ◌+◌, ◌≤◌, ◌<◌, ◌≡◌, refl, sym, ap, subst, ◌∙◌, ◌⊎◌, inl, inr, Bool, true, false, Option,
  none, some, List, [], ◌∷◌, ◌++◌, length, lt_of_get_elem?, get_elem?, set, Dict, arith, ok, err,
  Outcome, returns, panics, blocks, ◌andthen◌, Bool-cases, ◌==◌,
}
use distbuild.Build.{BuildId, Text}
use distbuild.Api.{JobResult}
use distbuild.Api.Status.{
  Frame, changed, Sending, sends, write_fails, flush_fails, write_failed, flush_failed, updated,
  close_done,
}
use distbuild.Filecache.{System}
use distbuild.Dist.Reports.{
  Phase, waiting, counted, cancelled, decided, sent, failed, gone, Reports, sources_of,
  remove_source_files, update_for, Turn, proceed, cancel, decide, report, after_send, advance,
  stop_waiting, take_turn, take_turns, context_done,
}
use distbuild.Dist.Reports.Counting.{
  weight, tally, tally-append, has_added, is_counted, has_won, won_tried, won_sent, is_finish,
}
use distbuild.Dist.Reports.Balance.{
  Balanced, counts, same_length, keep-Balanced, add-Balanced, win-Balanced, lose-Balanced, alone,
}

-- The stream says that the build has finished only when it has, and its channel is closed no earlier.
pub record Fine (r : Reports) : Type 0 where
  pub balanced : Balanced r
  pub began : r.writer.start_msg_send ≡ true
  pub shut : weight r.writer.done ≤ tally won_sent r.phases
  pub finishes : tally is_finish r.writer.frames ≤ tally won_tried r.phases

pub finish_grows :
    (fs : List Frame) (job : JobResult) (last : Bool)
    → tally is_finish (fs ++ changed (update_for job last) ∷ []) ≡ tally is_finish fs + weight last
unfolding tally is_finish
finish_grows fs job false =
    omega (arith, tally-append is_finish fs (changed (update_for job false) ∷ []))
finish_grows fs job true =
    omega (arith, tally-append is_finish fs (changed (update_for job true) ∷ []))

-- A turn returns, in a fine state with as many goroutines.
unfoldable pub Keeps : ℕ → Outcome Reports → Type 0
Keeps n panics = ⊥
Keeps n blocks = ⊥
Keeps n (returns r) = Fine r × (length r.phases ≡ n)

module _ (results : ℕ → Option JobResult) (r : Reports) (i : ℕ) (v : Fine r) where
  -- A move that leaves the writer alone.
  quiet :
      (r' : Reports) (p q : Phase)
      → get_elem? r.phases i ≡ some p
      → r'.phases ≡ set r.phases i q
      → r'.writer ≡ r.writer
      → won_tried p ≡ won_tried q
      → won_sent p ≡ won_sent q
      → Balanced r'
      → Fine r' × (length r'.phases ≡ length r.phases)
  quiet r' p q at moves same a b balanced = (
    record {
      balanced = balanced;
      began = ground (arith, v.began);
      shut = ground (arith, v.shut, counts r r' i p q at moves won_sent);
      finishes = ground (arith, v.finishes, counts r r' i p q at moves won_tried);
    },
    same_length r r' i p q at moves,
  )

  decide-Keeps :
      (job : JobResult)
      → results i ≡ some job
      → get_elem? r.phases i ≡ some counted
      → Keeps (length r.phases) (decide results i r)
  unfolding decide Keeps won_tried won_sent
  decide-Keeps job has at = elim (Bool-cases (r.finished_job_count == length r.phases)) [
    | inl all ↦
        let r' = record r { phases = set r.phases i (decided true); finished_job_count = 0 } in
        let e : decide results i r ≡ returns r' = ground (arith, has, all) in
        subst (Keeps (length r.phases)) (sym e) (
          quiet r' counted (decided true) at refl refl refl refl (
            win-Balanced r r' i counted (decided true) at refl refl refl (ground (arith, all)) refl
              v.balanced))
    | inr less ↦
        let r' = record r { phases = set r.phases i (decided false) } in
        let e : decide results i r ≡ returns r' = ground (arith, has, less) in
        subst (Keeps (length r.phases)) (sym e) (
          quiet r' counted (decided false) at refl refl refl refl (
            lose-Balanced r r' i counted (decided false) at refl refl refl
              (λ x. absurd (ground (arith, less))) refl v.balanced))
  ]

  -- An update has been tried.
  tried :
      (r' : Reports) (last : Bool) (q : Phase)
      → get_elem? r.phases i ≡ some (decided last)
      → (q ≡ sent last) ⊎ (q ≡ failed last)
      → r'.phases ≡ set r.phases i q
      → r'.finished_job_count ≡ r.finished_job_count
      → r'.writer.start_msg_send ≡ true
      → weight r'.writer.done ≤ tally won_sent r.phases + weight (won_sent q)
      → tally is_finish r'.writer.frames ≤ tally is_finish r.writer.frames + weight last
      → Fine r' × (length r'.phases ≡ length r.phases)
  unfolding has_added has_won is_counted won_tried won_sent
  tried r' last q at kind moves same began shut finishes =
      let won : has_won q ≡ last = ground arith in
      (
        record {
          balanced =
              keep-Balanced r r' i (decided last) q at moves (ground arith) (sym won) (ground arith)
                same v.balanced;
          began = began;
          shut = ground (arith, counts r r' i (decided last) q at moves won_sent);
          finishes = ground (arith, v.finishes, counts r r' i (decided last) q at moves won_tried);
        },
        same_length r r' i (decided last) q at moves,
      )

  report-Keeps :
      (job : JobResult) (last : Bool) (how : Sending)
      → results i ≡ some job
      → get_elem? r.phases i ≡ some (decided last)
      → Keeps (length r.phases) (report results i last how r)
  unfolding report after_send updated close_done Keeps won_sent
  report-Keeps job last write_fails has at =
      let r' = after_send i last r (r.writer, err write_failed) in
      let e : report results i last write_fails r ≡ returns r' = ground (arith, has, v.began) in
      subst (Keeps (length r.phases)) (sym e) (
        tried r' last (failed last) at (inr refl) refl refl v.began (ground (arith, v.shut))
          (omega arith))
  report-Keeps job last flush_fails has at =
      let w = record r.writer { frames = r.writer.frames ++ changed (update_for job last) ∷ [] } in
      let r' = after_send i last r (w, err flush_failed) in
      let e : report results i last flush_fails r ≡ returns r' = ground (arith, has, v.began) in
      subst (Keeps (length r.phases)) (sym e) (
        tried r' last (failed last) at (inr refl) refl refl v.began (ground (arith, v.shut))
          (omega (arith, finish_grows r.writer.frames job last)))
  report-Keeps job false sends has at =
      let w = record r.writer { frames = r.writer.frames ++ changed (update_for job false) ∷ [] } in
      let r' = after_send i false r (w, ok tt) in
      let e : report results i false sends r ≡ returns r' = ground (arith, has, v.began) in
      subst (Keeps (length r.phases)) (sym e) (
        tried r' false (sent false) at (inl refl) refl refl v.began (ground (arith, v.shut))
          (omega (arith, finish_grows r.writer.frames job false)))
  report-Keeps job true sends has at =
      let (none_tried, none_sent) = alone r i at v.balanced in
      let w = record r.writer {
        frames = r.writer.frames ++ changed (update_for job true) ∷ [];
        done = true;
      } in
      let r' = after_send i true r (w, ok tt) in
      let still_open : r.writer.done ≡ false = ground (arith, v.shut) in
      let e : report results i true sends r ≡ returns r' =
        ground (arith, has, v.began, still_open) in
      subst (Keeps (length r.phases)) (sym e) (
        tried r' true (sent true) at (inl refl) refl refl v.began (ground arith)
          (omega (arith, finish_grows r.writer.frames job true)))

pub Keeps-returns :
    (n : ℕ) (o : Outcome Reports)
    → Keeps n o
    → (r : Reports) × (o ≡ returns r) × Fine r × (length r.phases ≡ n)
unfolding Keeps
Keeps-returns n panics k = absurd k
Keeps-returns n blocks k = absurd k
Keeps-returns n (returns r) (v, size) = (r, refl, v, size)

-- A goroutine that goes on has a job with a result.
abbrev pub IsPossible : ℕ → (ℕ → Option JobResult) → Turn → Type 0
IsPossible n results (proceed i how sys) = i < n → (job : JobResult) × (results i ≡ some job)
IsPossible n results (cancel i) = Unit

module _ (sources : List (Dict BuildId Text)) (results : ℕ → Option JobResult) (n : ℕ) where
  advance-Keeps :
      (i : ℕ) (how : Sending) (sys : BuildId → System) (r : Reports) (o : Option Phase)
      → (i < n → (job : JobResult) × (results i ≡ some job))
      → get_elem? r.phases i ≡ o
      → Fine r
      → length r.phases ≡ n
      → Keeps n (advance sources results i how sys o r)
  unfolding advance Keeps has_added has_won is_counted won_tried won_sent
  advance-Keeps i how sys r none has at v size = (v, size)
  advance-Keeps i how sys r (some waiting) has at v size =
      let r' = record r {
        phases = set r.phases i counted;
        finished_job_count = r.finished_job_count + 1;
      } in
      let (fine, same) =
        quiet results r i v r' waiting counted at refl refl refl refl
          (add-Balanced r r' i waiting counted at refl refl refl refl v.balanced) in
      (fine, same ∙ size)
  advance-Keeps i how sys r (some counted) has at v size =
      let (job, given) = has (subst (λ k. i < k) size (lt_of_get_elem? r.phases i at)) in
      subst (λ k. Keeps k (decide results i r)) size (decide-Keeps results r i v job given at)
  advance-Keeps i how sys r (some (decided last)) has at v size =
      let (job, given) = has (subst (λ k. i < k) size (lt_of_get_elem? r.phases i at)) in
      subst (λ k. Keeps k (report results i last how r)) size
        (report-Keeps results r i v job last how given at)
  advance-Keeps i how sys r (some (sent last)) has at v size =
      let files' = (remove_source_files sys (sources_of (get_elem? sources i)) r.files).0 in
      let r' = record r { phases = set r.phases i (gone last); files = files' } in
      let (fine, same) =
        quiet results r i v r' (sent last) (gone last) at refl refl refl refl
          (keep-Balanced r r' i (sent last) (gone last) at refl refl refl refl refl v.balanced) in
      (fine, same ∙ size)
  advance-Keeps i how sys r (some cancelled) has at v size = (v, size)
  advance-Keeps i how sys r (some (failed last)) has at v size = (v, size)
  advance-Keeps i how sys r (some (gone last)) has at v size = (v, size)

  stop_waiting-Keeps :
      (i : ℕ) (r : Reports) (o : Option Phase)
      → get_elem? r.phases i ≡ o
      → Fine r
      → length r.phases ≡ n
      → Fine (stop_waiting i o r) × (length (stop_waiting i o r).phases ≡ n)
  unfolding stop_waiting has_added has_won is_counted won_tried won_sent
  stop_waiting-Keeps i r none at v size = (v, size)
  stop_waiting-Keeps i r (some waiting) at v size =
      let r' = record r { phases = set r.phases i cancelled; errs = r.errs ++ context_done ∷ [] } in
      let (fine, same) =
        quiet results r i v r' waiting cancelled at refl refl refl refl
          (keep-Balanced r r' i waiting cancelled at refl refl refl refl refl v.balanced) in
      (fine, same ∙ size)
  stop_waiting-Keeps i r (some counted) at v size = (v, size)
  stop_waiting-Keeps i r (some (decided last)) at v size = (v, size)
  stop_waiting-Keeps i r (some (sent last)) at v size = (v, size)
  stop_waiting-Keeps i r (some cancelled) at v size = (v, size)
  stop_waiting-Keeps i r (some (failed last)) at v size = (v, size)
  stop_waiting-Keeps i r (some (gone last)) at v size = (v, size)

  pub take_turn-Keeps :
      (t : Turn) (r : Reports)
      → IsPossible n results t
      → Fine r
      → length r.phases ≡ n
      → Keeps n (take_turn sources results t r)
  unfolding take_turn Keeps
  take_turn-Keeps (proceed i how sys) r has v size =
      advance-Keeps i how sys r (get_elem? r.phases i) has refl v size
  take_turn-Keeps (cancel i) r has v size =
      stop_waiting-Keeps i r (get_elem? r.phases i) refl v size

  pub take_turns-Keeps :
      (ts : List Turn) (r : Reports)
      → All (IsPossible n results) ts
      → Fine r
      → length r.phases ≡ n
      → Keeps n (take_turns sources results ts r)
  unfolding take_turns Keeps
  take_turns-Keeps [] r has v size = (v, size)
  take_turns-Keeps (t ∷ ts) r (now, later) v size =
      let (r', p, v', size') =
        Keeps-returns n (take_turn sources results t r) (take_turn-Keeps t r now v size) in
      subst (Keeps n) (sym (ap (λ o. o andthen λ r'. take_turns sources results ts r') p))
        (take_turns-Keeps ts r' later v' size')
