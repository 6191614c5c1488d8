-- ===== src/EventLoop/Listed.antt =====
-- src/main.rs: handling the outcomes of a round, one after another, brings the snapshot up to date.
use uclip_daemon.Base.{
  ℕ, ◌+◌, ◌≤◌, ◌<◌, ◌≡◌, refl, sym, ap, subst, ◌∙◌, List, [], ◌∷◌, ◌++◌, map, map-append,
  append_assoc, false, not, none, some, String, eqb, find, retain, length, length-append,
  length-map, length-trim_front, arith, All, All-retain, Bool-cases, inl, inr,
}
use uclip_daemon.Config.{max_history}
use uclip_daemon.History.State
use uclip_daemon.History.State.{ClipState, ClipboardEntry, get_entry, preview}
use uclip_daemon.History.State.Valid.{IsValid, Increasing, remove-IsValid}
use uclip_daemon.History.State.Reads.{with_id}
use uclip_daemon.Io.{ReadOutcome, stored, ignored_duplicate, truncated, read_error}
use uclip_daemon.Daemon.Types.{summary}
use uclip_daemon.Daemon.Snapshot.{push_summary}
use uclip_daemon.EventLoop.{
  LoopState, is_echo, prune, on_entry, on_stored, on_outcome, on_outcomes, publish_entry, drop_echo,
}
use uclip_daemon.EventLoop.Behind.{
  IsSuffix, IsSuffix-push, is_stored, IsWithout, Lags, skipped, gone, waits, Lags-weaken, IsBehind,
}

find_without : (id : ℕ) (es : List ClipboardEntry) → IsWithout id es → find (with_id id) es ≡ none
find_without id [] h = refl
find_without id (e ∷ es) h = ground (arith, find_without id es h.1, h.0)

pub IsWithout-older :
    (n : ℕ) (es : List ClipboardEntry) → All (λ (f : ClipboardEntry). n < f.id) es → IsWithout n es
IsWithout-older n [] h = tt
IsWithout-older n (f ∷ es) h = ((λ same. omega arith), IsWithout-older n es h.1)

retain_without :
    (id : ℕ) (es : List ClipboardEntry)
    → IsWithout id es
    → retain (λ (f : ClipboardEntry). not (eqb f.id id)) es ≡ es
retain_without id [] h = refl
retain_without id (f ∷ es) h = ground (arith, retain_without id es h.1, h.0)

module _ (e : ClipboardEntry) (es : List ClipboardEntry) where
  above_seen :
      (n : ℕ) (seen : List ClipboardEntry)
      → All (λ (f : ClipboardEntry). n < f.id) (seen ++ e ∷ es)
      → n < e.id
  above_seen n [] h = h.0
  above_seen n (f ∷ seen) h = above_seen n seen h.1

  seen-IsWithout : (seen : List ClipboardEntry) → Increasing (seen ++ e ∷ es) → IsWithout e.id seen
  seen-IsWithout [] h = tt
  seen-IsWithout (f ∷ seen) h =
      ((λ same. omega (arith, above_seen f.id seen h.0)), seen-IsWithout seen h.1)

  rest-IsWithout : (seen : List ClipboardEntry) → Increasing (seen ++ e ∷ es) → IsWithout e.id es
  rest-IsWithout [] h = IsWithout-older e.id es h.0
  rest-IsWithout (f ∷ seen) h = rest-IsWithout seen h.1

  find_next :
      (seen : List ClipboardEntry)
      → IsWithout e.id seen
      → find (with_id e.id) (seen ++ e ∷ es) ≡ some e
  find_next [] h = ground arith
  find_next (f ∷ seen) h = ground (arith, find_next seen h.1, h.0)

  retain_others :
      (seen : List ClipboardEntry)
      → IsWithout e.id seen
      → IsWithout e.id es
      → retain (λ (f : ClipboardEntry). not (eqb f.id e.id)) (seen ++ e ∷ es) ≡ seen ++ es
  retain_others [] h k = ground (arith, retain_without e.id es k)
  retain_others (f ∷ seen) h k = ground (arith, retain_others seen h.1 k, h.0)

module _ (checked now : ℕ) (l : LoopState) (o : ReadOutcome) (os : List ReadOutcome) where
  abbrev after : LoopState
  after = on_outcome checked now l o

  abbrev StillBehind : Type 0
  StillBehind = IsBehind after.app.clipboard after.snapshot os

module _ (checked now : ℕ) (l : LoopState) (os : List ReadOutcome) (m : String)
    (valid : IsValid l.app.clipboard) (seen : List ClipboardEntry)
    (listed : IsSuffix (map summary seen) l.snapshot)
    (bounded : length l.snapshot ≤ max_history) where
  abbrev pruned : LoopState
  pruned = record l { expect_echo = prune checked l.expect_echo }

  -- An entry that is gone is passed over.
  passed_over :
      (id : ℕ) (unseen : List ClipboardEntry)
      → l.app.clipboard.entries ≡ seen ++ unseen
      → IsWithout id l.app.clipboard.entries
      → Lags l.app.clipboard.next_id l.app.clipboard.entries os unseen
      → StillBehind checked now l (stored id m) os
  unfolding on_outcome on_stored get_entry
  passed_over id unseen split without lags =
      let missing : get_entry l.app.clipboard id ≡ none = find_without id _ without in
      let same : on_stored checked now l id ≡ pruned = rw (missing, on_stored) refl in
      rw same (record {
        valid = valid;
        seen = seen;
        unseen = unseen;
        split = split;
        listed = listed;
        bounded = bounded;
        lags = lags;
      })

  module _ (e : ClipboardEntry) (es : List ClipboardEntry)
      (split : l.app.clipboard.entries ≡ seen ++ e ∷ es)
      (lags : Lags l.app.clipboard.next_id l.app.clipboard.entries os es) where
    ordered : Increasing (seen ++ e ∷ es)
    ordered = subst Increasing split valid.increasing

    found : get_entry l.app.clipboard e.id ≡ some e
    unfolding get_entry
    found = ap (find (with_id e.id)) split ∙ find_next e es seen (seen-IsWithout e es seen ordered)

    on_stored-on_entry : on_stored checked now l e.id ≡ on_entry now pruned e.id e
    unfolding on_stored
    on_stored-on_entry = rw (found, on_stored) refl

    -- The next entry is pushed.
    pushed : IsBehind l.app.clipboard (push_summary l.snapshot (summary e)) os
    unfolding push_summary
    pushed =
        let few : length (seen ++ e ∷ es) ≤ max_history =
          subst (λ (xs : List ClipboardEntry). length xs ≤ max_history) split valid.bounded in
        record {
          valid = valid;
          seen = seen ++ e ∷ [];
          unseen = es;
          split = split ∙ sym (append_assoc seen (e ∷ []) es);
          listed = rw (map-append summary seen (e ∷ [])) (
              IsSuffix-push max_history (summary e) (map summary seen) l.snapshot
                (omega (arith, length-append seen (e ∷ es), length-map summary seen)) listed);
          bounded = omega (arith, length-trim_front max_history (l.snapshot ++ summary e ∷ []));
          lags = lags;
        }

    -- The next entry is an echo, and is removed.
    removed : IsBehind (State.remove l.app.clipboard e.id).0 l.snapshot os
    unfolding State.remove
    removed = record {
      valid = unfold State.remove in remove-IsValid l.app.clipboard valid e.id;
      seen = seen;
      unseen = es;
      split =
          ap (retain (λ (f : ClipboardEntry). not (eqb f.id e.id))) split
          ∙ retain_others e es seen (seen-IsWithout e es seen ordered)
              (rest-IsWithout e es seen ordered);
      listed = listed;
      bounded = bounded;
      lags =
          Lags-weaken l.app.clipboard.next_id l.app.clipboard.next_id (omega arith)
            l.app.clipboard.entries _ (λ id old. All-retain _ _ l.app.clipboard.entries) lags;
    }

    caught : StillBehind checked now l (stored e.id m) os
    unfolding on_outcome on_entry
    caught = elim (Bool-cases (is_echo now pruned.expect_echo (preview e))) [
      | inl echo ↦ rw (on_stored-on_entry, on_entry, echo) (unfold drop_echo in removed)
      | inr quiet ↦ rw (on_stored-on_entry, on_entry, quiet) (unfold publish_entry in pushed)
    ]

on_outcome-other :
    (checked now : ℕ) (l : LoopState) (o : ReadOutcome)
    → is_stored o ≡ false
    → on_outcome checked now l o ≡ l
unfolding on_outcome
on_outcome-other checked now l (stored id m) h = cc
on_outcome-other checked now l (ignored_duplicate m) h = refl
on_outcome-other checked now l (truncated m n) h = refl
on_outcome-other checked now l (read_error m e) h = refl

pub on_outcome-IsBehind :
    (checked now : ℕ) (l : LoopState) (o : ReadOutcome) (os : List ReadOutcome)
    → IsBehind l.app.clipboard l.snapshot (o ∷ os)
    → StillBehind checked now l o os
on_outcome-IsBehind checked now l o os h = by_lags h.valid h.seen h.split h.listed h.bounded h.lags
  where
    by_lags :
        {o : ReadOutcome} {os : List ReadOutcome} {unseen : List ClipboardEntry}
        → IsValid l.app.clipboard
        → (seen : List ClipboardEntry) → l.app.clipboard.entries ≡ seen ++ unseen
        → IsSuffix (map summary seen) l.snapshot
        → length l.snapshot ≤ max_history
        → Lags l.app.clipboard.next_id l.app.clipboard.entries (o ∷ os) unseen
        → StillBehind checked now l o os
    by_lags {unseen} valid seen split listed bounded (skipped {o} other r) =
        rw (on_outcome-other checked now l o other) (record {
          valid = valid;
          seen = seen;
          unseen = unseen;
          split = split;
          listed = listed;
          bounded = bounded;
          lags = r;
        })
    by_lags valid seen split listed bounded (gone {id} {m} {os} {es} old without r) =
        passed_over checked now l os m valid seen listed bounded id es split without r
    by_lags valid seen split listed bounded (waits {m} {os} {es} e same r) =
        subst (λ (k : ℕ). StillBehind checked now l (stored k m) os) same
          (caught checked now l os m valid seen listed bounded e es split r)

pub on_outcomes-IsBehind :
    (clock : ℕ → ℕ × ℕ) (round : ℕ) (l : LoopState) (os : List ReadOutcome)
    → IsBehind l.app.clipboard l.snapshot os
    → let l' = on_outcomes clock round l os in IsBehind l'.app.clipboard l'.snapshot []
unfolding on_outcomes
on_outcomes-IsBehind clock round l [] h = h
on_outcomes-IsBehind clock round l (o ∷ os) h =
    on_outcomes-IsBehind clock (round + 1) (on_outcome (clock round).0 (clock round).1 l o) os
      (on_outcome-IsBehind (clock round).0 (clock round).1 l o os h)
