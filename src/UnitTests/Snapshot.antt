-- ===== src/UnitTests/Snapshot.antt =====
-- src/daemon/snapshot.rs: its tests.
use uclip_daemon.Base.{
  All, trim_front, ℕ, zero, suc, ◌+◌, ◌≡◌, refl, List, [], ◌∷◌, ◌++◌, map, Bool, true, ◌&&◌,
  is_empty, length, leb,
}
use uclip_daemon.Base.Eq.{nat_eq, ◌==◌, list_beq}
use uclip_daemon.Base.Order.{codes}
use uclip_daemon.Text.{decimal}
use uclip_daemon.Config.{max_history}
use uclip_daemon.History.Content.{head}
use uclip_daemon.Daemon.Types.{clamp_limit, EntrySummary, text, max_list_limit}
use uclip_daemon.Daemon.Snapshot.{list_snapshot, push_summary}
use uclip_daemon.UnitTests.{expect}

abbrev summary : ℕ → EntrySummary
summary id = record {
  id = id;
  timestamp_millis = 0;
  kind = text;
  primary_mime = "text/plain";
  preview = codes "item " ++ decimal id;
  has_text = true;
}

-- The summaries with the ids 1 to `n`.
abbrev vec_n : ℕ → List EntrySummary
vec_n zero = []
vec_n (suc n) = vec_n n ++ summary (suc n) ∷ []

abbrev ids : List EntrySummary → List ℕ
ids = map (λ e. e.id)

unfoldable list_pagination_returns_slice_and_total : Bool
list_pagination_returns_slice_and_total =
    let (total, entries) = list_snapshot (vec_n 5) 2 2 in
    total == 5 && list_beq (ids entries) (3 ∷ 4 ∷ [])

unfoldable limit_is_clamped_to_max : Bool
limit_is_clamped_to_max =
    let (total, entries) = list_snapshot (vec_n 5) 0 10000 in
    total == 5 && (leb (length entries) max_list_limit && length entries == 5)

unfoldable offset_past_end_returns_empty_with_total : Bool
offset_past_end_returns_empty_with_total =
    let (total, entries) = list_snapshot (vec_n 3) 99 10 in total == 3 && is_empty entries

unfoldable empty_snapshot_lists_empty : Bool
empty_snapshot_lists_empty =
    let (total, entries) = list_snapshot [] 0 50 in total == 0 && is_empty entries

unfoldable push_summary_evicts_oldest_over_max_history : Bool
push_summary_evicts_oldest_over_max_history =
    let snap = vec_n (max_history + 2) in
    let steady = push_summary (vec_n max_history) (summary (max_history + 1)) in
    let steady = push_summary steady (summary (max_history + 2)) in
    length steady == max_history
    && (expect (head steady) (λ (e : EntrySummary). e.id == 3) && length snap == max_history + 2)

-- They pass.
tests_pass :
    All
      (λ (b : Bool). b ≡ true)
      (list_pagination_returns_slice_and_total ∷ limit_is_clamped_to_max
        ∷ offset_past_end_returns_empty_with_total ∷ empty_snapshot_lists_empty
        ∷ push_summary_evicts_oldest_over_max_history ∷ [])
unfolding list_pagination_returns_slice_and_total limit_is_clamped_to_max
    offset_past_end_returns_empty_with_total empty_snapshot_lists_empty
    push_summary_evicts_oldest_over_max_history list_snapshot clamp_limit push_summary trim_front
tests_pass = (refl, (refl, (refl, (refl, (refl, tt)))))
