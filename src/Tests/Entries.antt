-- ===== src/Tests/Entries.antt =====
-- The theorems on the history, the snapshot and the echo of a restore, at concrete histories.

use uclip_daemon.Base.{
  ℕ, zero, suc, ◌+◌, ◌*◌, ◌≡◌, ◌≤◌, ◌<◌, refl, ap, List, [], ◌∷◌, true, false, none, some, length,
  drop, eqb, map, All, arith, if◌then◌else◌,
}
use uclip_daemon.Base.Eq.{string_eq, nat_eq, list_beq_iff}
use uclip_daemon.HashMap.Laws.{is_some}
use uclip_daemon.Config.{max_history}
use uclip_daemon.History.Content.{Blobs, from_blobs, from_split, split_blobs}
use uclip_daemon.History.State
use uclip_daemon.History.State.{
  SystemTime, ClipboardEntry, ClipState, len, latest, get_entry, remove, is_repeat, push_entry,
  add_grouped, preview,
}
use uclip_daemon.History.State.Valid.{IsValid, Increasing, new-IsValid, add_grouped-IsValid}
use uclip_daemon.History.State.Reads.{new_entry, evicts, get_entry-add_grouped, remove_lem}
use uclip_daemon.History.State.Window.{add_all, add_all_unbounded, Tracks, add_all-Tracks}
use uclip_daemon.Daemon.Types.{EntrySummary, summary}
use uclip_daemon.Daemon.Snapshot.Paging.{pages, pages_lem}
use uclip_daemon.App
use uclip_daemon.EventLoop.{LoopState, EchoFlag, is_echo, prune}
use uclip_daemon.EventLoop.Echo.{after_stored, echoes, on_stored_echo, echo_breaks_mirror}
use uclip_daemon.Tests.{in_order, noon, caption_blobs, caption, caption_lem}

-- `n` entries from the id `first`.
rows : ℕ → ℕ → List ClipboardEntry
rows zero first = []
rows (suc n) first = record { id = first; timestamp = noon; content = caption } ∷ rows n (suc first)

rows-above : (n first k : ℕ) → k < first → All (λ (e : ClipboardEntry). k < e.id) (rows n first)
unfolding rows
rows-above zero first k h = tt
rows-above (suc n) first k h = (h, rows-above n (suc first) k (omega arith))

rows-below : (n first k : ℕ) → first + n ≤ k → All (λ (e : ClipboardEntry). e.id < k) (rows n first)
unfolding rows
rows-below zero first k h = tt
rows-below (suc n) first k h = (omega arith, rows-below n (suc first) k (omega arith))

rows-Increasing : (n first : ℕ) → Increasing (rows n first)
unfolding rows
rows-Increasing zero first = tt
rows-Increasing (suc n) first =
    (rows-above n (suc first) first (omega arith), rows-Increasing n (suc first))

length-rows : (n first : ℕ) → length (rows n first) ≡ n
unfolding rows
length-rows zero first = refl
length-rows (suc n) first = ap suc (length-rows n (suc first))

abbrev history : ℕ → ClipState
history n = record { entries = rows n 1; next_id = suc n }

history-IsValid : (n : ℕ) → n ≤ max_history → IsValid (history n)
history-IsValid n h = record {
  increasing = rows-Increasing n 1;
  below = rows-below n 1 (suc n) (omega arith);
  bounded = omega (arith, length-rows n 1);
}

two-IsValid : IsValid (history 2)
two-IsValid = history-IsValid 2 (omega arith)

full-IsValid : IsValid (history 1000)
full-IsValid = history-IsValid 1000 (omega arith)

add_grouped-IsValid_example : IsValid (add_grouped in_order (history 2) caption_blobs noon).0
add_grouped-IsValid_example =
    add_grouped-IsValid (history 2) two-IsValid in_order caption_blobs noon (omega arith)

remove_lem_example :
    ((remove (history 2) 1).1 ≡ is_some (get_entry (history 2) 1))
    × (suc (len (remove (history 2) 1).0)
        ≡ (if is_some (get_entry (history 2) 1) then len (history 2) else suc (len (history 2))))
    × ((j : ℕ)
        → get_entry (remove (history 2) 1).0 j
          ≡ (if eqb 1 j then none else get_entry (history 2) j))
    × ((remove (history 2) 1).0.next_id ≡ 3)
remove_lem_example = remove_lem (history 2) two-IsValid 1

not_repeated : is_repeat (latest State.new) caption ≡ false
unfolding latest is_repeat
not_repeated = refl

get_entry-add_grouped_example :
    ((add_grouped in_order State.new caption_blobs noon).1 ≡ some 1)
    × (latest (add_grouped in_order State.new caption_blobs noon).0
        ≡ some (new_entry State.new caption noon))
    × ((j : ℕ)
        → get_entry (add_grouped in_order State.new caption_blobs noon).0 j ≡ (
            if eqb 1 j
            then some (new_entry State.new caption noon)
            else if evicts State.new j
            then none
            else get_entry State.new j))
get_entry-add_grouped_example =
    get_entry-add_grouped State.new new-IsValid in_order caption_blobs noon caption caption_lem
      not_repeated

nothing_stored : (add_grouped in_order State.new [] noon).1 ≡ none
unfolding add_grouped from_blobs from_split split_blobs
nothing_stored = refl

abbrev copies : List (Blobs × SystemTime)
copies = (caption_blobs, noon) ∷ (caption_blobs, noon) ∷ []

add_all-Tracks_example :
    Tracks (add_all in_order State.new copies) (add_all_unbounded in_order State.new copies)
add_all-Tracks_example =
    add_all-Tracks in_order copies State.new State.new (record { window = refl; counter = refl })

abbrev listed : List EntrySummary
listed = map summary (rows 5 1)

listed_reached : length listed ≤ 1 + 2 * 2
unfolding rows
listed_reached = omega arith

pages_lem_example : pages 2 listed 1 2 ≡ drop 1 listed
pages_lem_example = pages_lem 2 listed 1 2 (omega arith) listed_reached

-- The loop with `n` entries in its history and its snapshot.
abbrev loop : ℕ → EchoFlag → LoopState
loop n flag = record {
  app = record App.new { clipboard = history n };
  snapshot = map summary (rows n 1);
  broadcast = [];
  expect_echo = flag;
  replies = [];
}

unarmed :
    (n : ℕ) (v : IsValid (history n)) → echoes (loop n none) (history n) v caption noon 5 7 ≡ false
unfolding is_echo prune
unarmed n v = refl

abbrev armed : ℕ → EchoFlag
armed n = some (5, preview (new_entry (history n) caption noon))

armed-echoes :
    (n : ℕ) (v : IsValid (history n))
    → echoes (loop n (armed n)) (history n) v caption noon 5 7 ≡ true
unfolding is_echo prune
armed-echoes n v =
    (list_beq_iff (preview (new_entry (history n) caption noon))
        (preview (new_entry (history n) caption noon))).1
      refl

two_left : length (rows 2 1) < max_history
unfolding rows
two_left = omega arith

on_stored_echo_example :
    ((after_stored
        (loop 2 (armed 2))
        (history 2)
        two-IsValid
        caption
        noon
        5
        7).app.clipboard.entries
      ≡ rows 2 1)
    × ((after_stored (loop 2 (armed 2)) (history 2) two-IsValid caption noon 5 7).snapshot
        ≡ map summary (rows 2 1))
    × ((after_stored (loop 2 (armed 2)) (history 2) two-IsValid caption noon 5 7).broadcast ≡ [])
    × ((after_stored (loop 2 (armed 2)) (history 2) two-IsValid caption noon 5 7).expect_echo
        ≡ none)
on_stored_echo_example =
    on_stored_echo (loop 2 (armed 2)) (history 2) two-IsValid caption noon 5 7
      (armed-echoes 2 two-IsValid) two_left

abbrev full_loop : LoopState
full_loop = after_stored (loop 1000 (armed 1000)) (history 1000) full-IsValid caption noon 5 7

echo_breaks_mirror_example :
    (oldest : ClipboardEntry) × (rest : List ClipboardEntry) × (rows 1000 1 ≡ oldest ∷ rest)
    × (full_loop.snapshot ≡ summary oldest ∷ map summary rest)
    × (full_loop.app.clipboard.entries ≡ rest)
    × (get_entry full_loop.app.clipboard oldest.id ≡ none)
echo_breaks_mirror_example =
    echo_breaks_mirror (loop 1000 (armed 1000)) (history 1000) full-IsValid caption noon 5 7
      (armed-echoes 1000 full-IsValid) (length-rows 1000 1) refl
