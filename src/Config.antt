-- ===== src/Config.antt =====
-- src/config.rs: the tuning constants of the daemon.
use uclip_daemon.Base.{ℕ, ◌*◌, String, List, [], ◌∷◌}

abbrev pub max_history : ℕ
max_history = 1000

abbrev pub max_content_bytes : ℕ
max_content_bytes = 1024 * 1024

abbrev pub preferred_text_mimes : List String
preferred_text_mimes =
    "text/plain;charset=utf-8" ∷ "text/plain" ∷ "text/markdown" ∷ "text/html" ∷ "text/uri-list"
    ∷ "TEXT" ∷ "STRING" ∷ "UTF8_STRING" ∷ []

abbrev pub supported_binary_mimes : List String
supported_binary_mimes = "image/png" ∷ "image/jpeg" ∷ "image/webp" ∷ "image/gif" ∷ []

abbrev pub max_mimes_per_selection : ℕ
max_mimes_per_selection = 4

abbrev pub text_aliases : List String
text_aliases = "text/plain" ∷ "text/plain;charset=utf-8" ∷ "TEXT" ∷ "STRING" ∷ "UTF8_STRING" ∷ []
