-- ===== src/App/Echoed.antt =====
-- src/mime.rs and src/clipboard/state.rs: what the daemon reads back of its own restore.
use uclip_daemon.Base.{◌≡◌, refl, String, List, Bool, true, false, All, take, arith}
use uclip_daemon.Base.Eq.{string_eq, contains}
use uclip_daemon.HashMap.{get}
use uclip_daemon.HashMap.Laws.{is_some}
use uclip_daemon.Config.{max_mimes_per_selection, text_aliases}
use uclip_daemon.Mime.{is_text_mime, pick_mimes}
use uclip_daemon.Mime.Picked.{nub, wanted, pick_mimes-wanted}
use uclip_daemon.History.Content.{BlobOrder, ClipboardContent}
use uclip_daemon.History.Content.Views.{has_text}
use uclip_daemon.App.{restored_contents}
use uclip_daemon.App.Restore.{get-restored_contents}

abbrev pub IsText : String → Type 0
IsText m = is_text_mime m ≡ true

module _ (ms : List String) (plain : contains ms "text/plain" ≡ true)
    (utf8 : contains ms "text/plain;charset=utf-8" ≡ true) (text : contains ms "TEXT" ≡ true)
    (string : contains ms "STRING" ≡ true) where
  by_preferred :
      (a b c : Bool)
      → contains ms "text/markdown" ≡ a
      → contains ms "text/html" ≡ b
      → contains ms "text/uri-list" ≡ c
      → All IsText (take max_mimes_per_selection (nub (wanted ms)))
  unfolding is_text_mime
  by_preferred true true c d e f = rw (utf8, plain, d, e) (refl, (refl, (refl, (refl, tt))))
  by_preferred true false true d e f = rw (utf8, plain, d, e, f) (refl, (refl, (refl, (refl, tt))))
  by_preferred true false false d e f =
      rw (utf8, plain, d, e, f, text) (refl, (refl, (refl, (refl, tt))))
  by_preferred false true true d e f = rw (utf8, plain, d, e, f) (refl, (refl, (refl, (refl, tt))))
  by_preferred false true false d e f =
      rw (utf8, plain, d, e, f, text) (refl, (refl, (refl, (refl, tt))))
  by_preferred false false true d e f =
      rw (utf8, plain, d, e, f, text) (refl, (refl, (refl, (refl, tt))))
  by_preferred false false false d e f =
      rw (utf8, plain, d, e, f, text, string) (refl, (refl, (refl, (refl, tt))))

  pick_mimes-aliases : All IsText (pick_mimes ms)
  pick_mimes-aliases = rw (pick_mimes-wanted ms) (by_preferred _ _ _ refl refl refl)

-- The daemon reads only text of its own restore of an entry with text: whatever the order in
-- which the types are announced, the aliases use up what it requests, and no image is read.
pub echo-IsText :
    (it : BlobOrder) (c : ClipboardContent) (announced : List String)
    → has_text c ≡ true
    → ((k : String) → contains announced k ≡ is_some (get (restored_contents it c) k))
    → All IsText (pick_mimes announced)
echo-IsText it c announced text same =
    let alias_there : (k : String) → contains text_aliases k ≡ true → contains announced k ≡ true =
      λ k listed. ground (arith, same k, get-restored_contents it c k) in
    pick_mimes-aliases announced (alias_there "text/plain" refl)
      (alias_there "text/plain;charset=utf-8" refl) (alias_there "TEXT" refl)
      (alias_there "STRING" refl)
