-- ===== src/EventLoop/Requests.antt =====
-- src/main.rs: what the restores of a round leave alone.
use uclip_daemon.Base.{ℕ, ◌≡◌, refl, ap, ◌∙◌, List, [], ◌∷◌, Option, inl, inr}
use uclip_daemon.History.Content.{BlobOrder}
use uclip_daemon.History.State.{ClipboardEntry, get_entry}
use uclip_daemon.App.{AppState, Proxy, RestoreResult, ok, err, restore_entry}
use uclip_daemon.App.Restore.{restore_entry_cases}
use uclip_daemon.App.Ownership.{IsOwned, restore_entry-IsOwned}
use uclip_daemon.EventLoop.{
  LoopState, PendingRestore, answer_restore, handle_restore, handle_restores,
}

-- A restore changes neither the history nor the snapshot, and broadcasts nothing.
pub record OnlyRequests (l l' : LoopState) : Type 0 where
  pub same_history : l'.app.clipboard ≡ l.app.clipboard
  pub same_reads : l'.app.pending_reads ≡ l.app.pending_reads
  pub same_manager : l'.app.manager ≡ l.app.manager
  pub same_snapshot : l'.snapshot ≡ l.snapshot
  pub same_broadcast : l'.broadcast ≡ l.broadcast

restored_history :
    (it : BlobOrder) (s : AppState) (source : Proxy) (id : ℕ)
    → let t = (restore_entry it s source id).0 in
      (t.clipboard ≡ s.clipboard) × (t.pending_reads ≡ s.pending_reads) × (t.manager ≡ s.manager)
restored_history it s source id = elim (restore_entry_cases it s source id) [
  | inl e ↦ (
    ap (λ (t : AppState). t.clipboard) e,
    ap (λ (t : AppState). t.pending_reads) e,
    ap (λ (t : AppState). t.manager) e,
  )
  | inr (device, contents, e) ↦ (
    ap (λ (t : AppState). t.clipboard) e,
    ap (λ (t : AppState). t.pending_reads) e,
    ap (λ (t : AppState). t.manager) e,
  )
]

answer_restore-OnlyRequests :
    (now : ℕ) (l : LoopState) (o : Option ClipboardEntry) (p : PendingRestore)
    (r : AppState × RestoreResult)
    → r.0.clipboard ≡ l.app.clipboard
    → r.0.pending_reads ≡ l.app.pending_reads
    → r.0.manager ≡ l.app.manager
    → OnlyRequests l (answer_restore now l o p r)
unfolding answer_restore
answer_restore-OnlyRequests now l o p (s, ok) h k m = record {
  same_history = h;
  same_reads = k;
  same_manager = m;
  same_snapshot = refl;
  same_broadcast = refl;
}
answer_restore-OnlyRequests now l o p (s, err e) h k m = record {
  same_history = h;
  same_reads = k;
  same_manager = m;
  same_snapshot = refl;
  same_broadcast = refl;
}

pub handle_restore-OnlyRequests :
    (it : BlobOrder) (now : ℕ) (source : Proxy) (l : LoopState) (p : PendingRestore)
    → OnlyRequests l (handle_restore it now source l p)
unfolding handle_restore
handle_restore-OnlyRequests it now source l p =
    let (h, k, m) = restored_history it l.app source p.entry_id in
    answer_restore-OnlyRequests now l _ p (restore_entry it l.app source p.entry_id) h k m

pub handle_restores-OnlyRequests :
    (it : BlobOrder) (env : ℕ → ℕ × Proxy) (l : LoopState) (ps : List PendingRestore)
    → OnlyRequests l (handle_restores it env l ps)
unfolding handle_restores
handle_restores-OnlyRequests it env l [] = record {
  same_history = refl;
  same_reads = refl;
  same_manager = refl;
  same_snapshot = refl;
  same_broadcast = refl;
}
handle_restores-OnlyRequests it env l (p ∷ ps) =
    let h = handle_restore-OnlyRequests it (env p.reply).0 (env p.reply).1 l p in
    let k =
      handle_restores-OnlyRequests it env (handle_restore it (env p.reply).0 (env p.reply).1 l p)
        ps in
    record {
      same_history = k.same_history ∙ h.same_history;
      same_reads = k.same_reads ∙ h.same_reads;
      same_manager = k.same_manager ∙ h.same_manager;
      same_snapshot = k.same_snapshot ∙ h.same_snapshot;
      same_broadcast = k.same_broadcast ∙ h.same_broadcast;
    }

answer_restore-app :
    (now : ℕ) (l : LoopState) (o : Option ClipboardEntry) (p : PendingRestore)
    (r : AppState × RestoreResult)
    → (answer_restore now l o p r).app ≡ r.0
unfolding answer_restore
answer_restore-app now l o p (s, ok) = refl
answer_restore-app now l o p (s, err e) = refl

handle_restore-IsOwned :
    (it : BlobOrder) (now : ℕ) (source : Proxy) (l : LoopState) (p : PendingRestore)
    → IsOwned l.app
    → IsOwned (handle_restore it now source l p).app
unfolding handle_restore
handle_restore-IsOwned it now source l p h =
    rw
      (answer_restore-app now l (get_entry l.app.clipboard p.entry_id) p
        (restore_entry it l.app source p.entry_id))
      (restore_entry-IsOwned it l.app source p.entry_id h)

pub handle_restores-IsOwned :
    (it : BlobOrder) (env : ℕ → ℕ × Proxy) (l : LoopState) (ps : List PendingRestore)
    → IsOwned l.app
    → IsOwned (handle_restores it env l ps).app
unfolding handle_restores
handle_restores-IsOwned it env l [] h = h
handle_restores-IsOwned it env l (p ∷ ps) h =
    handle_restores-IsOwned it env (handle_restore it (env p.reply).0 (env p.reply).1 l p) ps
      (handle_restore-IsOwned it (env p.reply).0 (env p.reply).1 l p h)
