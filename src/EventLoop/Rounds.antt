-- ===== src/EventLoop/Rounds.antt =====
-- src/main.rs: what holds between the rounds of the loop.
use uclip_daemon.Base.{
  ℕ, ◌+◌, ◌*◌, ◌^◌, ◌≤◌, ◌<◌, ◌≡◌, refl, sym, ap, subst, ◌∙◌, List, [], ◌∷◌, ◌++◌, map, append-nil,
  length, arith, All, inl, inr,
}
use uclip_daemon.Config.{max_history, max_mimes_per_selection}
use uclip_daemon.History.Content.{BlobOrder}
use uclip_daemon.History.State.{SystemTime, ClipState, ClipboardEntry}
use uclip_daemon.History.State.Valid.{IsValid}
use uclip_daemon.App.{AppState}
use uclip_daemon.App.Steady.{dispatch_all-IsSteady}
use uclip_daemon.Io.{ReadOutcome, nothing_read, read_all, drain_pending_reads}
use uclip_daemon.Io.Stored.{length-read_all}
use uclip_daemon.Io.Keeps.{pending_reads-drain_pending_reads}
use uclip_daemon.Daemon.Types.{summary}
use uclip_daemon.EventLoop.{LoopState}
use uclip_daemon.EventLoop.Run.{
  Round, dispatched, store_round, serve_round, run_round, run_event_loop, end_state, event_count,
  run_event_loop-keeps, round_after_cases,
}
use uclip_daemon.EventLoop.Behind.{IsSuffix, Lags, caught_up, skipped, IsBehind}
use uclip_daemon.EventLoop.Listed.{on_outcomes-IsBehind}
use uclip_daemon.EventLoop.Storing.{store_all-IsBehind}
use uclip_daemon.EventLoop.Frames.{IsReport, read_all-reports, on_outcomes-OnlyEntries}
use uclip_daemon.EventLoop.Requests.{handle_restores-OnlyRequests}

-- The history is valid, and the snapshot ends in the summaries of its entries.
pub record IsListed (l : LoopState) : Type 0 where
  pub valid : IsValid l.app.clipboard
  pub listed : IsSuffix (map summary l.app.clipboard.entries) l.snapshot
  pub bounded : length l.snapshot ≤ max_history

Lags-reports :
    (n : ℕ) (all : List ClipboardEntry) (os : List ReadOutcome) → All IsReport os → Lags n all os []
Lags-reports n all [] h = caught_up
Lags-reports n all (o ∷ os) h = skipped h.0 (Lags-reports n all os h.1)

none_waits : {n : ℕ} {all es : List ClipboardEntry} → Lags n all [] es → es ≡ []
none_waits caught_up = refl

pub caught_up-IsListed : (l : LoopState) → IsBehind l.app.clipboard l.snapshot [] → IsListed l
caught_up-IsListed l h = record {
  valid = h.valid;
  listed =
      subst (λ (es : List ClipboardEntry). IsSuffix (map summary es) l.snapshot)
        (sym (
          h.split
          ∙ ap (λ (es : List ClipboardEntry). h.seen ++ es) (none_waits h.lags)
          ∙ append-nil h.seen))
        h.listed;
  bounded = h.bounded;
}

pub listed-IsBehind : (l : LoopState) → IsListed l → IsBehind l.app.clipboard l.snapshot []
listed-IsBehind l h = record {
  valid = h.valid;
  seen = l.app.clipboard.entries;
  unseen = [];
  split = sym (append-nil l.app.clipboard.entries);
  listed = h.listed;
  bounded = h.bounded;
  lags = caught_up;
}

-- The ids that may be given, up to the reads that are queued.
abbrev pub reserved : AppState → ℕ
reserved s = s.clipboard.next_id + length s.pending_reads

pub drained-IsBehind :
    (it : BlobOrder) (at : ℕ → SystemTime) (l : LoopState)
    → IsListed l
    → reserved l.app < 2 ^ 64
    → let (s, os) = drain_pending_reads it at l.app in
      IsBehind s.clipboard l.snapshot os × (s.clipboard.next_id ≤ reserved l.app)
unfolding drain_pending_reads
drained-IsBehind it at l h room =
    let drained = read_all l.app.pending_reads nothing_read in
    let few : length drained.order ≤ length l.app.pending_reads =
      omega (arith, length-read_all l.app.pending_reads nothing_read) in
    let (behind, bound) =
      store_all-IsBehind it l.snapshot at drained.order drained.grouped
        (record l.app { pending_reads = [] }, drained.outcomes) (omega arith)
        (record {
          valid = h.valid;
          seen = l.app.clipboard.entries;
          unseen = [];
          split = sym (append-nil l.app.clipboard.entries);
          listed = h.listed;
          bounded = h.bounded;
          lags =
              Lags-reports _ _ drained.outcomes
                (read_all-reports l.app.pending_reads nothing_read tt);
        }) in
    (behind, omega arith)

store_round-IsListed :
    (r : Round) (l : LoopState)
    → IsListed l
    → reserved l.app < 2 ^ 64
    → IsListed (store_round r l) × (reserved (store_round r l).app ≤ reserved l.app)
unfolding store_round
store_round-IsListed r l h room =
    let (behind, bound) = drained-IsBehind r.order r.stored_at l h room in
    let read = record l { app = (drain_pending_reads r.order r.stored_at l.app).0 } in
    let outcomes = (drain_pending_reads r.order r.stored_at l.app).1 in
    let frame = on_outcomes-OnlyEntries r.clock 0 read outcomes in
    let emptied : length (store_round r l).app.pending_reads ≡ 0 =
      ap length (frame.same_reads ∙ pending_reads-drain_pending_reads r.order r.stored_at l.app) in
    (
      caught_up-IsListed (store_round r l) (on_outcomes-IsBehind r.clock 0 read outcomes behind),
      omega (arith, bound, frame.same_counter, emptied),
    )

-- What `IsListed` and `reserved` read is the same.
pub IsListed-same :
    {l l' : LoopState}
    → l'.app.clipboard ≡ l.app.clipboard
    → l'.snapshot ≡ l.snapshot
    → IsListed l
    → IsListed l'
IsListed-same {l} {l'} c n h = record {
  valid = subst IsValid (sym c) h.valid;
  listed = rw (c, n) h.listed;
  bounded = rw n h.bounded;
}

dispatched-reserved :
    (r : Round) (l : LoopState)
    → reserved (dispatched r l).app ≤ reserved l.app + max_mimes_per_selection * length r.events
unfolding dispatched
dispatched-reserved r l =
    let h = dispatch_all-IsSteady r.order l.app r.events in
    omega (arith, h.few_reads, ap (λ (c : ClipState). c.next_id) h.same_history)

dispatched-IsListed : (r : Round) (l : LoopState) → IsListed l → IsListed (dispatched r l)
unfolding dispatched
dispatched-IsListed r l h =
    IsListed-same (dispatch_all-IsSteady r.order l.app r.events).same_history refl h

serve_round-IsListed :
    (r : Round) (l : LoopState)
    → IsListed l
    → reserved l.app < 2 ^ 64
    → IsListed (serve_round r l) × (reserved (serve_round r l).app ≤ reserved l.app)
unfolding serve_round
serve_round-IsListed r l h room =
    let (listed, bound) = store_round-IsListed r l h room in
    let frame = handle_restores-OnlyRequests r.order r.restore_env (store_round r l) r.pending in
    (
      IsListed-same frame.same_history frame.same_snapshot listed,
      omega (
        arith,
        bound,
        ap (λ (c : ClipState). c.next_id) frame.same_history,
        ap length frame.same_reads,
      ),
    )

run_round-IsListed :
    (r : Round) (l : LoopState)
    → IsListed l
    → reserved l.app + max_mimes_per_selection * length r.events < 2 ^ 64
    → let l' = end_state (run_round r l) in
      IsListed l' × (reserved l'.app ≤ reserved l.app + max_mimes_per_selection * length r.events)
unfolding run_round
run_round-IsListed r l h room =
    let d = dispatched-IsListed r l h in
    let few = dispatched-reserved r l in
    elim (round_after_cases r.dispatch_fails r (dispatched r l)) [
      | inl e ↦ rw e (d, few)
      | inr e ↦
          let (listed, bound) = serve_round-IsListed r (dispatched r l) d (omega arith) in
          rw e (listed, omega (arith, bound, few))
    ]

-- Whatever the compositor, the system and the clients do in whatever rounds, the history of the
-- thread stays valid, and the snapshot that the connections read ends in the summaries of exactly
-- the stored entries, in their order, and has at most `max_history` rows; so each entry that can be
-- restored is listed. It holds when the loop ends by an error as well. The ids given so far, the
-- queued reads and the reads that the events can queue have to fit in 64 bits together.
pub run_event_loop-IsListed :
    (rs : List Round) (l : LoopState)
    → IsListed l
    → reserved l.app + max_mimes_per_selection * event_count rs < 2 ^ 64
    → IsListed (end_state (run_event_loop rs l))
run_event_loop-IsListed rs l h room =
    run_event_loop-keeps
      (λ (rs : List Round). λ (l : LoopState).
        IsListed l × (reserved l.app + max_mimes_per_selection * event_count rs < 2 ^ 64))
      IsListed (λ rs l h. h.0)
      (λ r rs l (h, room).
        let (listed, bound) = run_round-IsListed r l h (omega arith) in
        (listed, omega (arith, bound)))
      rs l (h, room)
