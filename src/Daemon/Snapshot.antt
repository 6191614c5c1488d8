-- ===== src/Daemon/Snapshot.antt =====
-- src/daemon/snapshot.rs: the summaries that clients page through.
pub mod Paging
pub mod Mirror
use uclip_daemon.Base.{ℕ, List, [], ◌∷◌, ◌++◌, take, drop, length, trim_front}
use uclip_daemon.Config.{max_history}
use uclip_daemon.Daemon.Types.{EntrySummary, clamp_limit}

unfoldable pub push_summary : List EntrySummary → EntrySummary → List EntrySummary
push_summary snap summary = trim_front max_history (snap ++ summary ∷ [])

unfoldable pub list_snapshot : List EntrySummary → ℕ → ℕ → ℕ × List EntrySummary
list_snapshot snap offset limit = (length snap, take (clamp_limit limit) (drop offset snap))
