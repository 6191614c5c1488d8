-- ===== src/EventLoop/Published.antt =====
-- src/main.rs: what an outcome lists in the snapshot and sends to the subscribers.
use uclip_daemon.Base.{ℕ, ◌≡◌, refl, [], ◌∷◌, ◌++◌, Option, none, some, inl, inr, Bool-cases}
use uclip_daemon.History.State
use uclip_daemon.History.State.{ClipboardEntry, get_entry, preview}
use uclip_daemon.Io.{ReadOutcome, stored, ignored_duplicate, truncated, read_error}
use uclip_daemon.Daemon.Types.{EntrySummary, entry_added}
use uclip_daemon.Daemon.Snapshot.{push_summary}
use uclip_daemon.EventLoop.{
  LoopState, is_echo, prune, publish_entry, drop_echo, on_entry, on_stored, on_outcome,
  published_of, published,
}

-- At most one row is listed and sent.
abbrev pub IsPublished : LoopState → LoopState → Option EntrySummary → Type 0
IsPublished l l' none = (l'.broadcast ≡ l.broadcast) × (l'.snapshot ≡ l.snapshot)
IsPublished l l' (some e) =
    (l'.broadcast ≡ l.broadcast ++ entry_added e ∷ []) × (l'.snapshot ≡ push_summary l.snapshot e)

on_entry-IsPublished :
    (now : ℕ) (l : LoopState) (id : ℕ) (e : ClipboardEntry)
    → IsPublished l (on_entry now l id e) (published_of now l.expect_echo (some e))
unfolding on_entry published_of drop_echo publish_entry State.remove
on_entry-IsPublished now l id e = elim (Bool-cases (is_echo now l.expect_echo (preview e))) [
  | inl h ↦ rw h (refl, refl)
  | inr h ↦ rw h (refl, refl)
]

on_stored-IsPublished :
    (checked now : ℕ) (l : LoopState) (id : ℕ) (o : Option ClipboardEntry)
    → get_entry l.app.clipboard id ≡ o
    → IsPublished l (on_stored checked now l id) (published_of now (prune checked l.expect_echo) o)
unfolding published_of on_stored
on_stored-IsPublished checked now l id none h = rw (on_stored, h) (refl, refl)
on_stored-IsPublished checked now l id (some e) h =
    rw (on_stored, h)
      (on_entry-IsPublished now (record l { expect_echo = prune checked l.expect_echo }) id e)

pub on_outcome-IsPublished :
    (checked now : ℕ) (l : LoopState) (o : ReadOutcome)
    → IsPublished l (on_outcome checked now l o) (published checked now l o)
unfolding on_outcome published
on_outcome-IsPublished checked now l (stored id mime) =
    on_stored-IsPublished checked now l id (get_entry l.app.clipboard id) refl
on_outcome-IsPublished checked now l (ignored_duplicate label) = (refl, refl)
on_outcome-IsPublished checked now l (truncated mime size) = (refl, refl)
on_outcome-IsPublished checked now l (read_error mime e) = (refl, refl)
