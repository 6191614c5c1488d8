-- ===== src/EventLoop/Frames.antt =====
-- src/main.rs: what handling the outcomes of a round leaves alone.
use uclip_daemon.Base.{
  ℕ, ◌+◌, ◌≡◌, refl, sym, ap, ◌∙◌, append-nil, append_assoc, String, List, [], ◌∷◌, ◌++◌, true,
  false, arith, All, All-append, Bool-cases, Option-cases, inl, inr,
}
use uclip_daemon.Text.{Bytes}
use uclip_daemon.History.State
use uclip_daemon.History.State.{ClipState, ClipboardEntry, SystemTime, get_entry, preview}
use uclip_daemon.App.{PendingRead}
use uclip_daemon.Io.{
  ReadOutcome, stored, ignored_duplicate, truncated, read_error, Drained, BoundedRead, read, failed,
  note_truncated, group_read, take_read, read_bounded, read_all,
}
use uclip_daemon.Io.Keeps.{Keeps}
use uclip_daemon.Daemon.Types.{EntrySummary, summary, ServerEvent, entry_added, selection_cleared}
use uclip_daemon.Daemon.Snapshot.{push_summary}
use uclip_daemon.EventLoop.{
  LoopState, EchoFlag, is_echo, prune, publish_entry, drop_echo, on_entry, on_stored, on_outcome,
  on_outcomes,
}
use uclip_daemon.EventLoop.Behind.{is_stored}

-- Reading stores nothing yet.
abbrev pub IsReport : ReadOutcome → Type 0
IsReport o = is_stored o ≡ false

outcomes-group_read :
    (o : ℕ) (m : String) (buf : Bytes) (d : Drained) → (group_read o m buf d).outcomes ≡ d.outcomes
unfolding group_read
outcomes-group_read o m buf d = ground arith

take_read-reports :
    (o : ℕ) (m : String) (r : BoundedRead) (d : Drained)
    → All IsReport d.outcomes
    → All IsReport (take_read o m r d).outcomes
unfolding take_read note_truncated
take_read-reports o m (read buf true) d h =
    rw (outcomes-group_read o m buf (note_truncated true m d))
      (All-append IsReport d.outcomes (truncated m _ ∷ []) h (refl, tt))
take_read-reports o m (read buf false) d h = rw (outcomes-group_read o m buf d) h
take_read-reports o m (failed e) d h =
    All-append IsReport d.outcomes (read_error m e ∷ []) h (refl, tt)

pub read_all-reports :
    (reads : List PendingRead) (d : Drained)
    → All IsReport d.outcomes
    → All IsReport (read_all reads d).outcomes
unfolding read_all
read_all-reports [] d h = h
read_all-reports (r ∷ reads) d h =
    read_all-reports reads _ (take_read-reports r.offer_id r.mime_type (read_bounded r.fd) d h)

-- What a subscriber keeps that applies each event to its rows, as the daemon does to the snapshot.
abbrev pub replay_event : List EntrySummary → ServerEvent → List EntrySummary
replay_event rows (entry_added s) = push_summary rows s
replay_event rows selection_cleared = rows

unfoldable pub replay : List EntrySummary → List ServerEvent → List EntrySummary
replay rows [] = rows
replay rows (e ∷ events) = replay (replay_event rows e) events

-- What was broadcast in between turns the snapshot of `l` into that of `l'`.
pub record IsFollowed (l l' : LoopState) : Type 0 where
  pub events : List ServerEvent
  pub broadcasts : l'.broadcast ≡ l.broadcast ++ events
  pub follows : l'.snapshot ≡ replay l.snapshot events

replay-append :
    (rows : List EntrySummary) (xs ys : List ServerEvent)
    → replay rows (xs ++ ys) ≡ replay (replay rows xs) ys
unfolding replay
replay-append rows [] ys = refl
replay-append rows (x ∷ xs) ys = replay-append (replay_event rows x) xs ys

pub IsFollowed-same :
    {l l' : LoopState} → l'.broadcast ≡ l.broadcast → l'.snapshot ≡ l.snapshot → IsFollowed l l'
unfolding replay
IsFollowed-same {l} b s = record {
  events = [];
  broadcasts = b ∙ sym (append-nil l.broadcast);
  follows = s;
}

pub IsFollowed-trans : {s t u : LoopState} → IsFollowed s t → IsFollowed t u → IsFollowed s u
IsFollowed-trans {s} h k = record {
  events = h.events ++ k.events;
  broadcasts =
      k.broadcasts
      ∙ ap (λ (z : List ServerEvent). z ++ k.events) h.broadcasts
      ∙ append_assoc s.broadcast h.events k.events;
  follows =
      k.follows
      ∙ ap (λ (rows : List EntrySummary). replay rows k.events) h.follows
      ∙ sym (replay-append s.snapshot h.events k.events);
}

-- Handling the outcomes of a round changes nothing of the thread's state but the entries, and
-- answers no request; what it broadcasts is what changes the snapshot.
pub record OnlyEntries (l l' : LoopState) : Type 0 where
  pub kept : Keeps l.app l'.app
  pub same_reads : l'.app.pending_reads ≡ l.app.pending_reads
  pub same_counter : l'.app.clipboard.next_id ≡ l.app.clipboard.next_id
  pub same_replies : l'.replies ≡ l.replies
  pub followed : IsFollowed l l'

OnlyEntries-trans : {s t u : LoopState} → OnlyEntries s t → OnlyEntries t u → OnlyEntries s u
OnlyEntries-trans h k = record {
  kept = (k.kept.0 ∙ h.kept.0, k.kept.1 ∙ h.kept.1, k.kept.2 ∙ h.kept.2);
  same_reads = k.same_reads ∙ h.same_reads;
  same_counter = k.same_counter ∙ h.same_counter;
  same_replies = k.same_replies ∙ h.same_replies;
  followed = IsFollowed-trans h.followed k.followed;
}

OnlyEntries-refl : (l : LoopState) → OnlyEntries l l
OnlyEntries-refl l = record {
  kept = (refl, refl, refl);
  same_reads = refl;
  same_counter = refl;
  same_replies = refl;
  followed = IsFollowed-same refl refl;
}

OnlyEntries-drop_echo : (l : LoopState) (id : ℕ) → OnlyEntries l (drop_echo l id)
unfolding drop_echo State.remove
OnlyEntries-drop_echo l id = record {
  kept = (refl, refl, refl);
  same_reads = refl;
  same_counter = refl;
  same_replies = refl;
  followed = IsFollowed-same refl refl;
}

OnlyEntries-publish_entry : (l : LoopState) (e : ClipboardEntry) → OnlyEntries l (publish_entry l e)
unfolding publish_entry replay
OnlyEntries-publish_entry l e = record {
  kept = (refl, refl, refl);
  same_reads = refl;
  same_counter = refl;
  same_replies = refl;
  followed = record { events = entry_added (summary e) ∷ []; broadcasts = refl; follows = refl };
}

on_entry-OnlyEntries :
    (now : ℕ) (l : LoopState) (id : ℕ) (e : ClipboardEntry) → OnlyEntries l (on_entry now l id e)
unfolding on_entry
on_entry-OnlyEntries now l id e = elim (Bool-cases (is_echo now l.expect_echo (preview e))) [
  | inl h ↦ rw (h, on_entry) (OnlyEntries-drop_echo l id)
  | inr h ↦ rw (h, on_entry) (OnlyEntries-publish_entry l e)
]

with_flag : (l : LoopState) (flag : EchoFlag) → OnlyEntries l (record l { expect_echo = flag })
with_flag l flag = record {
  kept = (refl, refl, refl);
  same_reads = refl;
  same_counter = refl;
  same_replies = refl;
  followed = IsFollowed-same refl refl;
}

on_stored-OnlyEntries :
    (checked now : ℕ) (l : LoopState) (id : ℕ) → OnlyEntries l (on_stored checked now l id)
unfolding on_stored
on_stored-OnlyEntries checked now l id = elim (Option-cases (get_entry l.app.clipboard id)) [
  | inl h ↦ rw (h, on_stored) (with_flag l (prune checked l.expect_echo))
  | inr (e, h) ↦
      rw (h, on_stored)
        (OnlyEntries-trans (with_flag l (prune checked l.expect_echo))
          (on_entry-OnlyEntries now (record l { expect_echo = prune checked l.expect_echo }) id e))
]

pub on_outcome-OnlyEntries :
    (checked now : ℕ) (l : LoopState) (o : ReadOutcome) → OnlyEntries l (on_outcome checked now l o)
unfolding on_outcome
on_outcome-OnlyEntries checked now l (stored id m) = on_stored-OnlyEntries checked now l id
on_outcome-OnlyEntries checked now l (ignored_duplicate m) = OnlyEntries-refl l
on_outcome-OnlyEntries checked now l (truncated m n) = OnlyEntries-refl l
on_outcome-OnlyEntries checked now l (read_error m e) = OnlyEntries-refl l

pub on_outcomes-OnlyEntries :
    (clock : ℕ → ℕ × ℕ) (round : ℕ) (l : LoopState) (os : List ReadOutcome)
    → OnlyEntries l (on_outcomes clock round l os)
unfolding on_outcomes
on_outcomes-OnlyEntries clock round l [] = OnlyEntries-refl l
on_outcomes-OnlyEntries clock round l (o ∷ os) =
    OnlyEntries-trans (on_outcome-OnlyEntries (clock round).0 (clock round).1 l o) (
      on_outcomes-OnlyEntries clock (round + 1) (on_outcome (clock round).0 (clock round).1 l o) os)
