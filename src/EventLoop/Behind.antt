-- ===== src/EventLoop/Behind.antt =====
-- src/main.rs: the snapshot while the outcomes of a round are handled, and lags behind the history.
use uclip_daemon.Base.{
  ℕ, ◌-◌, ◌≤◌, ◌<◌, ◌≡◌, ◌≢◌, refl, sym, ap, subst, ◌∙◌, List, [], ◌∷◌, ◌++◌, map, append_assoc,
  Bool, true, false, String, drop, length, length-append, trim_front, trim_front-drop, drop-append,
  arith, All,
}
use uclip_daemon.Config.{max_history}
use uclip_daemon.History.State.{ClipState, ClipboardEntry}
use uclip_daemon.History.State.Valid.{IsValid}
use uclip_daemon.Io.{ReadOutcome, stored, ignored_duplicate, truncated, read_error}
use uclip_daemon.Daemon.Types.{EntrySummary, summary}

abbrev pub IsSuffix {ℓ} : {A : Type ℓ} → List A → List A → Type ℓ
IsSuffix {A} xs ys = (before : List A) × (ys ≡ before ++ xs)

module _ {ℓ} {A : Type ℓ} where
  pub IsSuffix-tail : (x : A) (xs ys : List A) → IsSuffix (x ∷ xs) ys → IsSuffix xs ys
  IsSuffix-tail x xs ys (before, e) = (before ++ x ∷ [], e ∙ sym (append_assoc before (x ∷ []) xs))

  -- What is pushed stays at the end, unless it is longer than what is kept.
  pub IsSuffix-push :
      (max : ℕ) (x : A) (xs ys : List A)
      → length xs < max
      → IsSuffix xs ys
      → IsSuffix (xs ++ x ∷ []) (trim_front max (ys ++ x ∷ []))
  IsSuffix-push max x xs ys room (before, e) =
      let whole : ys ++ x ∷ [] ≡ before ++ (xs ++ x ∷ []) =
        ap (λ (zs : List A). zs ++ x ∷ []) e ∙ append_assoc before xs (x ∷ []) in
      let evicted : ℕ = length (before ++ (xs ++ x ∷ [])) - max in
      let few : evicted ≤ length before =
        omega (arith, length-append before (xs ++ x ∷ []), length-append xs (x ∷ [])) in
      (
        drop evicted before,
        trim_front-drop max (ys ++ x ∷ [])
            ∙ ap (λ (zs : List A). drop (length zs - max) zs) whole
            ∙ drop-append evicted before (xs ++ x ∷ []) few,
      )

abbrev pub is_stored : ReadOutcome → Bool
is_stored (stored id m) = true
is_stored (ignored_duplicate m) = false
is_stored (truncated m n) = false
is_stored (read_error m e) = false

abbrev pub IsWithout : ℕ → List ClipboardEntry → Type 0
IsWithout id = All (λ (f : ClipboardEntry). f.id ≢ id)

-- The outcomes that are left, and the entries that they are about: each stored one, in its order,
-- is the next entry that waits, or is gone from the history.
pub data Lags (n : ℕ) (all : List ClipboardEntry)
    : List ReadOutcome → List ClipboardEntry → Type 0 where
  caught_up : Lags n all [] []
  skipped :
      {o : ReadOutcome} {os : List ReadOutcome} {es : List ClipboardEntry}
      → is_stored o ≡ false
      → Lags n all os es
      → Lags n all (o ∷ os) es
  gone :
      {id : ℕ} {m : String} {os : List ReadOutcome} {es : List ClipboardEntry}
      → id < n
      → IsWithout id all
      → Lags n all os es
      → Lags n all (stored id m ∷ os) es
  waits :
      {id : ℕ} {m : String} {os : List ReadOutcome} {es : List ClipboardEntry} (e : ClipboardEntry)
      → e.id ≡ id
      → Lags n all os es
      → Lags n all (stored id m ∷ os) (e ∷ es)

module _ (n m : ℕ) (grows : n ≤ m) (all rest : List ClipboardEntry)
    (still : (id : ℕ) → id < n → IsWithout id all → IsWithout id rest) where
  pub Lags-weaken :
      {os : List ReadOutcome} {es : List ClipboardEntry} → Lags n all os es → Lags m rest os es
  Lags-weaken caught_up = caught_up
  Lags-weaken (skipped h r) = skipped h (Lags-weaken r)
  Lags-weaken (gone {id} old w r) = gone (omega arith) (still id old w) (Lags-weaken r)
  Lags-weaken (waits e h r) = waits e h (Lags-weaken r)

  -- The first entry that waits is evicted.
  pub Lags-evict :
      {os : List ReadOutcome} {e : ClipboardEntry} {es : List ClipboardEntry}
      → e.id < n
      → IsWithout e.id rest
      → Lags n all os (e ∷ es)
      → Lags m rest os es
  Lags-evict old w (skipped h r) = skipped h (Lags-evict old w r)
  Lags-evict old w (gone {id} older v r) =
      gone (omega arith) (still id older v) (Lags-evict old w r)
  Lags-evict old w (waits e h r) =
      gone (omega arith) (subst (λ (k : ℕ). IsWithout k rest) h w) (Lags-weaken r)

module _ (n : ℕ) (all : List ClipboardEntry) where
  -- A copy that is stored waits last.
  pub Lags-waits :
      {os : List ReadOutcome} {es : List ClipboardEntry} (e : ClipboardEntry) (m : String)
      → Lags n all os es
      → Lags n all (os ++ stored e.id m ∷ []) (es ++ e ∷ [])
  Lags-waits e m caught_up = waits e refl caught_up
  Lags-waits e m (skipped h r) = skipped h (Lags-waits e m r)
  Lags-waits e m (gone old w r) = gone old w (Lags-waits e m r)
  Lags-waits e m (waits f h r) = waits f h (Lags-waits e m r)

  -- Other outcomes change nothing.
  pub Lags-skipped :
      {os : List ReadOutcome} {es : List ClipboardEntry} (o : ReadOutcome)
      → is_stored o ≡ false
      → Lags n all os es
      → Lags n all (os ++ o ∷ []) es
  Lags-skipped o k caught_up = skipped k caught_up
  Lags-skipped o k (skipped h r) = skipped h (Lags-skipped o k r)
  Lags-skipped o k (gone old w r) = gone old w (Lags-skipped o k r)
  Lags-skipped o k (waits f h r) = waits f h (Lags-skipped o k r)

-- The history and the snapshot before the outcomes are handled: the snapshot ends in the summaries
-- of the entries that it has seen, and the other entries wait.
pub record IsBehind (clipboard : ClipState) (snapshot : List EntrySummary) (os : List ReadOutcome)
    : Type 0 where
  pub valid : IsValid clipboard
  pub seen : List ClipboardEntry
  pub unseen : List ClipboardEntry
  pub split : clipboard.entries ≡ seen ++ unseen
  pub listed : IsSuffix (map summary seen) snapshot
  pub bounded : length snapshot ≤ max_history
  pub lags : Lags clipboard.next_id clipboard.entries os unseen
