-- ===== src/EventLoop/Restores.antt =====
-- src/main.rs: `handle_restore`, one request and many.
use uclip_daemon.Base.{
  ℕ, ◌≡◌, refl, sym, ap, ◌∙◌, ◌⊎◌, inl, inr, List, [], ◌∷◌, ◌++◌, append-nil, append_assoc, map,
  map-append, Option, some, arith, Option-cases,
}
use uclip_daemon.Error.{ClipboardError}
use uclip_daemon.History.Content.{BlobOrder}
use uclip_daemon.History.State.{ClipboardEntry, get_entry, preview}
use uclip_daemon.App.{AppState, Proxy, RestoreResult, ok, err, restore_entry}
use uclip_daemon.App.Restore.{restore_entry_error}
use uclip_daemon.Daemon.Types.{DaemonResponse, restored, response_of_error}
use uclip_daemon.EventLoop.{
  PendingRestore, LoopState, armed, answer_restore, handle_restore, handle_restores,
}

restore_entry_had :
    (it : BlobOrder) (s : AppState) (source : Proxy) (id : ℕ)
    → (restore_entry it s source id).1 ≡ ok
    → (entry : ClipboardEntry) × (get_entry s.clipboard id ≡ some entry)
unfolding restore_entry
restore_entry_had it s source id h = elim (Option-cases (get_entry s.clipboard id)) [
  | inl e ↦ absurd (ground arith)
  | inr found ↦ found
]

module _ (now : ℕ) (l : LoopState) (p : PendingRestore) where
  abbrev before : Option ClipboardEntry
  before = get_entry l.app.clipboard p.entry_id

  by_result :
      (r : AppState × RestoreResult)
      → (r.1 ≡ ok → (entry : ClipboardEntry) × (before ≡ some entry))
      → ((e : ClipboardError) → r.1 ≡ err e → r.0 ≡ l.app)
      → ((r.1 ≡ ok)
          × ((entry : ClipboardEntry) × (before ≡ some entry)
              × (answer_restore now l before p r ≡ record l {
                app = r.0;
                expect_echo = some (now, preview entry);
                replies = l.replies ++ (p.reply, restored p.entry_id) ∷ [];
              })))
        ⊎ ((e : ClipboardError) × (r.1 ≡ err e)
            × (answer_restore now l before p r
                ≡ record l { replies = l.replies ++ (p.reply, response_of_error e) ∷ [] }))
  unfolding answer_restore armed
  by_result (app, ok) had same =
      let (entry, found) = had refl in
      inl (
        refl,
        (
          entry,
          found,
          ap
              (λ (o : Option ClipboardEntry).
                let r : LoopState = record l {
                  app = app;
                  expect_echo = armed now o l.expect_echo;
                  replies = l.replies ++ (p.reply, restored p.entry_id) ∷ [];
                } in
                r)
              found,
        ),
      )
  by_result (app, err e) had same = inr (
    e,
    refl,
    ap
        (λ (a : AppState).
          let r : LoopState = record l {
            app = a;
            replies = l.replies ++ (p.reply, response_of_error e) ∷ [];
          } in
          r)
        (same e refl),
  )

-- The answer of one request says what `restore_entry` returned: success arms the flag with the
-- preview of the entry, and a failure leaves the whole state but the answer as it was.
pub handle_restore_lem :
    (it : BlobOrder) (now : ℕ) (source : Proxy) (l : LoopState) (p : PendingRestore)
    → (((restore_entry it l.app source p.entry_id).1 ≡ ok)
        × ((entry : ClipboardEntry) × (get_entry l.app.clipboard p.entry_id ≡ some entry)
            × (handle_restore it now source l p ≡ record l {
              app = (restore_entry it l.app source p.entry_id).0;
              expect_echo = some (now, preview entry);
              replies = l.replies ++ (p.reply, restored p.entry_id) ∷ [];
            })))
      ⊎ ((e : ClipboardError) × ((restore_entry it l.app source p.entry_id).1 ≡ err e)
          × (handle_restore it now source l p
              ≡ record l { replies = l.replies ++ (p.reply, response_of_error e) ∷ [] }))
unfolding handle_restore
handle_restore_lem it now source l p =
    by_result now l p (restore_entry it l.app source p.entry_id)
      (restore_entry_had it l.app source p.entry_id)
      (λ e h. (restore_entry_error it l.app source p.entry_id e h).0)

abbrev answered : LoopState → List ℕ
answered l = map (λ (r : ℕ × DaemonResponse). r.0) l.replies

answered-handle_restore :
    (it : BlobOrder) (now : ℕ) (source : Proxy) (l : LoopState) (p : PendingRestore)
    → answered (handle_restore it now source l p) ≡ answered l ++ p.reply ∷ []
answered-handle_restore it now source l p = elim (handle_restore_lem it now source l p) [
  | inl (_, (entry, _, e)) ↦
      ap answered e
      ∙ map-append (λ (r : ℕ × DaemonResponse). r.0) l.replies ((p.reply, restored p.entry_id) ∷ [])
  | inr (x, _, e) ↦
      ap answered e
      ∙ map-append (λ (r : ℕ × DaemonResponse). r.0) l.replies ((p.reply, response_of_error x) ∷ [])
]

-- The channels of the requests are answered in the order of the requests, each once.
pub handle_restores-replies :
    (it : BlobOrder) (env : ℕ → ℕ × Proxy) (l : LoopState) (pending : List PendingRestore)
    → map (λ (r : ℕ × DaemonResponse). r.0) (handle_restores it env l pending).replies
      ≡ map (λ (r : ℕ × DaemonResponse). r.0) l.replies
        ++ map (λ (p : PendingRestore). p.reply) pending
unfolding handle_restores
handle_restores-replies it env l [] = sym (append-nil _)
handle_restores-replies it env l (p ∷ pending) =
    handle_restores-replies it env (handle_restore it (env p.reply).0 (env p.reply).1 l p) pending
    ∙ ap (λ (rs : List ℕ). rs ++ map (λ (q : PendingRestore). q.reply) pending)
        (answered-handle_restore it (env p.reply).0 (env p.reply).1 l p)
    ∙ append_assoc (answered l) (p.reply ∷ []) _
