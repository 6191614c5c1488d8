-- ===== src/Display.antt =====
-- src/display.rs: entries as text, for the log.
-- `{:?}` of a `SystemTime` depends on the platform, and is a parameter.
use uclip_daemon.Base.{ℕ, String, List, [], ◌∷◌, ◌++◌, none, some, length}
use uclip_daemon.Base.Order.{codes}
use uclip_daemon.Text.{Chars, decimal}
use uclip_daemon.History.Content.{text_content, image_content, mixed_content}
use uclip_daemon.History.Content.Views.{primary_mime, image_summaries}
use uclip_daemon.History.State.{SystemTime, ClipboardEntry, ClipState, preview}

unfoldable pub format_kind : ClipboardEntry → String
format_kind entry = elim entry.content [
  | text_content t ↦ "Text"
  | image_content i ↦ "Image"
  | mixed_content m ↦ "Mixed"
]

unfoldable pub format_image : String → ℕ → Chars
format_image mime len =
    codes "<" ++ (decimal len ++ (codes " bytes of " ++ (codes mime ++ codes ">")))

-- The loop over `image_summaries`.
unfoldable pub format_images : List (String × ℕ) → Chars
format_images [] = []
format_images ((mime, len) ∷ images) = format_image mime len ++ (codes "\n" ++ format_images images)

module _ (debug_time : SystemTime → Chars) where
  unfoldable pub format_entry : ClipboardEntry → Chars
  format_entry e =
      codes "["
      ++ (decimal e.id
          ++ (codes "] "
              ++ (debug_time e.timestamp
                  ++ (codes " " ++ (codes (primary_mime e.content) ++ (codes ": " ++ preview e))))))

  unfoldable pub header : ClipboardEntry → Chars → Chars
  header e kind =
      codes "\n==== CLIPBOARD [id="
      ++ (decimal e.id ++ (codes " @" ++ (debug_time e.timestamp ++ (kind ++ codes "] ====\n"))))

  unfoldable pub format_new_entry : ClipboardEntry → Chars
  format_new_entry e = elim e.content [
    | text_content t ↦
        header e (codes " " ++ (codes t.primary_mime ++ codes " Text")) ++ (t.text ++ codes "\n")
    | image_content i ↦ header e [] ++ (format_image i.mime_type (length i.bytes) ++ codes "\n")
    | mixed_content m ↦
        header e (codes " Mixed")
        ++ (elim m.text [ none ↦ [] | some t ↦ t.text ++ codes "\n" ]
            ++ format_images (image_summaries e.content))
  ]

  unfoldable pub format_lines : List ClipboardEntry → Chars
  format_lines [] = []
  format_lines (e ∷ entries) = codes "\n" ++ (format_entry e ++ format_lines entries)

  unfoldable pub format_history : ClipState → Chars
  format_history s =
      codes "History ("
      ++ (decimal (length s.entries) ++ (codes " entries):" ++ format_lines s.entries))
