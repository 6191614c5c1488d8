-- ===== src/History/State.antt =====
-- `ClipState`: the bounded history, its ids, and the guard against repeated copies.
pub mod Valid
pub mod Reads
pub mod Window
pub mod Repeat
use uclip_daemon.Base.{
  ℕ, zero, suc, ◌+◌, ◌-◌, ◌*◌, ◌/◌, ◌%◌, ◌^◌, String, List, [], ◌∷◌, ◌++◌, Bool, true, false, not,
  Option, none, some, is_empty, length, last, find, retain, eqb, trim_front, if◌then◌else◌,
}
use uclip_daemon.Base.Eq.{string_eq}
use uclip_daemon.HashMap.{extend}
use uclip_daemon.Text.{Chars, Bytes}
use uclip_daemon.Config.{max_history}
use uclip_daemon.History.Content.{Blobs, BlobOrder, ClipboardContent, from_blobs}
use uclip_daemon.History.Content.Views
use uclip_daemon.History.Content.Views.{content_beq}

-- `SystemTime`, in nanoseconds from the epoch, or before it.
pub data SystemTime : Type 0 where
  since_epoch : ℕ → SystemTime
  before_epoch : ℕ → SystemTime

pub record ClipboardEntry : Type 0 where
  pub id : ℕ
  pub timestamp : SystemTime
  pub content : ClipboardContent

unfoldable pub mime_type : ClipboardEntry → String
mime_type e = Views.primary_mime e.content

unfoldable pub is_text : ClipboardEntry → Bool
is_text e = Views.has_text e.content

unfoldable pub preview : ClipboardEntry → Chars
preview e = Views.preview e.content

pub record ClipState : Type 0 where
  pub entries : List ClipboardEntry
  pub next_id : ℕ

abbrev pub new : ClipState
new = record { entries = []; next_id = 1 }

unfoldable pub len : ClipState → ℕ
len s = length s.entries

unfoldable pub latest : ClipState → Option ClipboardEntry
latest s = last s.entries

unfoldable pub get_entry : ClipState → ℕ → Option ClipboardEntry
get_entry s id = find (λ e. eqb e.id id) s.entries

-- The new state, and whether an entry was removed.
unfoldable pub remove : ClipState → ℕ → ClipState × Bool
remove s id =
    let kept = retain (λ (e : ClipboardEntry). not (eqb e.id id)) s.entries in
    (record s { entries = kept }, not (eqb (length kept) (length s.entries)))

unfoldable pub is_repeat : Option ClipboardEntry → ClipboardContent → Bool
is_repeat none content = false
is_repeat (some last) content = content_beq last.content content

unfoldable pub push_entry : ClipState → ClipboardContent → SystemTime → ClipState × Option ℕ
push_entry s content now = (
  record {
    entries =
        trim_front max_history
          (s.entries ++ record { id = s.next_id; timestamp = now; content = content } ∷ []);
    next_id = (s.next_id + 1) % 2 ^ 64;
  },
  some s.next_id,
)

-- `next_id += 1` wraps as in a release build.
unfoldable pub add_content : ClipState → ClipboardContent → SystemTime → ClipState × Option ℕ
add_content s content now =
    if is_repeat (latest s) content then (s, none) else push_entry s content now

-- `now` is what `SystemTime::now()` returns.
unfoldable pub add_grouped : BlobOrder → ClipState → Blobs → SystemTime → ClipState × Option ℕ
add_grouped it s blobs now = elim (from_blobs it blobs) [
  | none ↦ (s, none)
  | some content ↦ add_content s content now
]

unfoldable pub add_entry :
    BlobOrder → ClipState → String → Bytes → SystemTime → ClipState × Option ℕ
add_entry it s mime_type content now =
    if is_empty content
    then (s, none)
    else add_grouped it s (extend [] ((mime_type, content) ∷ [])) now
