-- ===== src/EventLoop/Echo.antt =====
-- src/main.rs: stored copies and the echo of a restore, as the history, the snapshot and the
-- subscribers see them.
use uclip_daemon.Base.{
  ℕ, zero, suc, ◌+◌, ◌-◌, ◌^◌, ◌%◌, ◌≤◌, ◌<◌, ◌≡◌, ◌≢◌, refl, ap, ◌∙◌, ◌↔◌, List, [], ◌∷◌, ◌++◌,
  map, Bool, true, false, not, none, some, eqb, find, retain, drop, length, length-append,
  trim_front-drop, arith, All, eqb_refl,
}
use uclip_daemon.Base.Eq.{nat_eq, list_beq_iff}
use uclip_daemon.Config.{max_history}
use uclip_daemon.Text.{Chars}
use uclip_daemon.History.Content.{ClipboardContent}
use uclip_daemon.History.State
use uclip_daemon.History.State.{
  SystemTime, ClipState, ClipboardEntry, get_entry, preview, push_entry,
}
use uclip_daemon.History.State.Valid.{IsValid, Increasing}
use uclip_daemon.History.State.Reads.{find_under, with_id, new_entry, get_entry-push_entry}
use uclip_daemon.Daemon.Types.{summary, entry_added}
use uclip_daemon.Daemon.Snapshot.Mirror.{IsMirror, push_summary-IsMirror}
use uclip_daemon.EventLoop.{
  EchoFlag, echo_window, is_echo, prune, LoopState, with_clipboard, publish_entry, drop_echo,
  on_entry, on_stored,
}

-- The flag is armed, within its window, for this preview.
abbrev pub Expects : ℕ → EchoFlag → Chars → Type 0
Expects now flag p = (at : ℕ) × (flag ≡ some (at, p)) × (now - at < echo_window)

-- The test for an echo holds exactly for the expected preview within the window.
pub is_echo_iff :
    (now : ℕ) (flag : EchoFlag) (p : Chars) → (is_echo now flag p ≡ true) ↔ Expects now flag p
unfolding is_echo
is_echo_iff now none p = (λ h. cc, λ h. absurd (none_ne_some h.1))
  where
    none_ne_some : {a : ℕ × Chars} → ◌≢◌ {A = EchoFlag} none (some a)
    none_ne_some h = cc
is_echo_iff now (some (at, expected)) p = (
  λ h. (at, ground (arith, list_beq_iff expected p), ground arith),
  λ h. ground (arith, list_beq_iff expected p),
)

-- The id of a copy is above all others, so that dropping it leaves the others.
without_last :
    (n : ℕ) (es : List ClipboardEntry) (e : ClipboardEntry)
    → All (λ (f : ClipboardEntry). f.id < n) es
    → e.id ≡ n
    → retain (λ (f : ClipboardEntry). not (eqb f.id n)) (es ++ e ∷ []) ≡ es
without_last n [] e h k = ground arith
without_last n (f ∷ es) e h k = ground (arith, without_last n es e h.1 k)

drop_then_remove :
    (k n : ℕ) (es : List ClipboardEntry) (e : ClipboardEntry)
    → All (λ (f : ClipboardEntry). f.id < n) es
    → e.id ≡ n
    → k ≤ length es
    → retain (λ (f : ClipboardEntry). not (eqb f.id n)) (drop k (es ++ e ∷ [])) ≡ drop k es
drop_then_remove zero n es e h q le = without_last n es e h q
drop_then_remove (suc k) n [] e h q le = absurd (omega arith)
drop_then_remove (suc k) n (f ∷ es) e h q le = drop_then_remove k n es e h.1 q (omega arith)

oldest_first :
    (es : List ClipboardEntry)
    → Increasing es
    → length es ≡ max_history
    → (oldest : ClipboardEntry) × (rest : List ClipboardEntry) × (es ≡ oldest ∷ rest)
      × (drop 1 es ≡ rest)
      × (find (with_id oldest.id) rest ≡ none)
oldest_first [] inc h = absurd (omega arith)
oldest_first (x ∷ es) inc h = (x, es, refl, refl, find_under x.id x.id es inc.0 (omega arith))

module _ (l : LoopState) (s : ClipState) (valid : IsValid s) (c : ClipboardContent)
    (at : SystemTime) (checked now : ℕ) where
  abbrev pub entry : ClipboardEntry
  entry = new_entry s c at

  -- The loop just after the copy was stored.
  abbrev pub stored_loop : LoopState
  stored_loop = with_clipboard l (push_entry s c at).0

  abbrev pub after_stored : LoopState
  after_stored = on_stored checked now stored_loop s.next_id

  abbrev pub echoes : Bool
  echoes = is_echo now (prune checked l.expect_echo) (preview entry)

  abbrev pruned_loop : LoopState
  pruned_loop = record stored_loop { expect_echo = prune checked l.expect_echo }

  found : get_entry (push_entry s c at).0 s.next_id ≡ some entry
  found = get_entry-push_entry s valid c at s.next_id ∙ rw (eqb_refl s.next_id) refl

  after_stored-on_entry : after_stored ≡ on_entry now pruned_loop s.next_id entry
  unfolding on_stored
  after_stored-on_entry = rw (found, on_stored)

  -- In a valid history, a stored copy that is no echo is appended to the snapshot and announced once; a snapshot that
  -- mirrored the history before the copy mirrors it after.
  pub on_stored-IsMirror :
      echoes ≡ false
      → IsMirror l.snapshot s
      → (after_stored.app.clipboard ≡ (push_entry s c at).0)
        × IsMirror after_stored.snapshot after_stored.app.clipboard
        × (after_stored.broadcast ≡ l.broadcast ++ entry_added (summary entry) ∷ [])
  on_stored-IsMirror quiet mirror =
      let published : after_stored ≡ publish_entry pruned_loop entry =
        after_stored-on_entry ∙ (unfold on_entry in rw quiet refl) in
      rw published
        (unfold publish_entry in (refl, push_summary-IsMirror l.snapshot s c at mirror, refl))

  abbrev echo_dropped : LoopState
  echo_dropped = record pruned_loop {
    app = record pruned_loop.app {
      clipboard = record {
        entries = drop (suc (length s.entries) - max_history) s.entries;
        next_id = (push_entry s c at).0.next_id;
      };
    };
    expect_echo = none;
  }

  push_then_remove : (State.remove (push_entry s c at).0 s.next_id).0 ≡ record {
    entries = drop (suc (length s.entries) - max_history) s.entries;
    next_id = (push_entry s c at).0.next_id;
  }
  unfolding State.remove push_entry
  push_then_remove =
      let evicted : ℕ = length (s.entries ++ entry ∷ []) - max_history in
      let one_more : length (s.entries ++ entry ∷ []) ≡ suc (length s.entries) =
        omega (arith, length-append s.entries (entry ∷ [])) in
      ap
        (λ (es : List ClipboardEntry).
          let r : ClipState = record { entries = es; next_id = (s.next_id + 1) % 2 ^ 64 } in r)
        (ap (retain (λ (f : ClipboardEntry). not (eqb f.id s.next_id)))
            (trim_front-drop max_history (s.entries ++ entry ∷ []))
          ∙ drop_then_remove evicted s.next_id s.entries entry valid.below refl
              (omega (arith, one_more, valid.bounded))
          ∙ ap (λ (n : ℕ). drop (n - max_history) s.entries) one_more)

  after_echo : echoes ≡ true → after_stored ≡ echo_dropped
  after_echo echo =
      after_stored-on_entry
      ∙ (unfold on_entry drop_echo in
          rw echo (
            ap
              (λ (h : ClipState). record pruned_loop {
                app = record pruned_loop.app { clipboard = h };
                expect_echo = none;
              })
              push_then_remove))

  -- An echo in a valid history that is not full leaves no trace: the entries, the snapshot and what was
  -- broadcast are as before the copy, and the flag is cleared.
  pub on_stored_echo :
      echoes ≡ true
      → length s.entries < max_history
      → (after_stored.app.clipboard.entries ≡ s.entries)
        × (after_stored.snapshot ≡ l.snapshot)
        × (after_stored.broadcast ≡ l.broadcast)
        × (after_stored.expect_echo ≡ none)
  on_stored_echo echo room =
      let none_dropped : suc (length s.entries) - max_history ≡ 0 = omega arith in
      rw (after_echo echo) (ap (λ (n : ℕ). drop n s.entries) none_dropped, refl, refl, refl)

  -- An echo in a full and valid history, which the snapshot mirrors, drops the oldest entry from
  -- the history only: the snapshot goes on
  -- to list it, though it can no longer be found.
  pub echo_breaks_mirror :
      echoes ≡ true
      → length s.entries ≡ max_history
      → IsMirror l.snapshot s
      → (oldest : ClipboardEntry) × (rest : List ClipboardEntry) × (s.entries ≡ oldest ∷ rest)
        × (after_stored.snapshot ≡ summary oldest ∷ map summary rest)
        × (after_stored.app.clipboard.entries ≡ rest)
        × (get_entry after_stored.app.clipboard oldest.id ≡ none)
  echo_breaks_mirror echo full mirror =
      let (oldest, rest, split, tail, gone) = oldest_first s.entries valid.increasing full in
      let one_dropped : suc (length s.entries) - max_history ≡ 1 = omega arith in
      let left : drop (suc (length s.entries) - max_history) s.entries ≡ rest =
        ap (λ (n : ℕ). drop n s.entries) one_dropped ∙ tail in
      (
        oldest,
        rest,
        split,
        rw (after_echo echo) (mirror ∙ ap (map summary) split),
        rw (after_echo echo) left,
        unfold get_entry in rw (after_echo echo) (ap (find (with_id oldest.id)) left ∙ gone),
      )
