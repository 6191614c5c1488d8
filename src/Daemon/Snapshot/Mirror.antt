-- ===== src/Daemon/Snapshot/Mirror.antt =====
-- src/daemon/snapshot.rs: the snapshot beside the history.
use uclip_daemon.Base.{
  ℕ, ◌≡◌, List, [], ◌∷◌, ◌++◌, map, map-append, map-drop, length-map, trim_front, trim_front-drop,
}
use uclip_daemon.Config.{max_history}
use uclip_daemon.History.Content.{ClipboardContent}
use uclip_daemon.History.State.{SystemTime, ClipboardEntry, ClipState, push_entry}
use uclip_daemon.History.State.Reads.{new_entry}
use uclip_daemon.Daemon.Types.{EntrySummary, summary}
use uclip_daemon.Daemon.Snapshot.{push_summary}

abbrev pub IsMirror : List EntrySummary → ClipState → Type 0
IsMirror snap s = snap ≡ map summary s.entries

map-trim_front :
    (max : ℕ) (es : List ClipboardEntry)
    → map summary (trim_front max es) ≡ trim_front max (map summary es)
map-trim_front max es = rw (
  trim_front-drop max es,
  trim_front-drop max (map summary es),
  length-map summary es,
  map-drop summary,
)

-- Pushing the summary of a stored copy evicts from the snapshot what the history evicts.
pub push_summary-IsMirror :
    (snap : List EntrySummary) (s : ClipState) (content : ClipboardContent) (now : SystemTime)
    → IsMirror snap s
    → IsMirror (push_summary snap (summary (new_entry s content now))) (push_entry s content now).0
unfolding push_summary push_entry
push_summary-IsMirror snap s content now h =
    rw (h, map-trim_front max_history (s.entries ++ new_entry s content now ∷ []), map-append)
