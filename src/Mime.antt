-- ===== src/Mime.antt =====
-- src/mime.rs: which MIME types are text, and which of the offered types are requested.
pub mod Picked
pub mod Sound
use text.Mathlib.Text.{starts_with}
use uclip_daemon.Base.{
  String, List, [], ◌∷◌, ◌++◌, Bool, ◌&&◌, ◌||◌, not, Option, none, some, find, take, if◌then◌else◌,
}
use uclip_daemon.Base.Eq.{string_eq, ◌==◌, contains}
use uclip_daemon.Config.{preferred_text_mimes, supported_binary_mimes, max_mimes_per_selection}

unfoldable pub is_text_mime : String → Bool
is_text_mime mime =
    mime == "TEXT"
    || mime == "STRING"
    || mime == "UTF8_STRING"
    || mime == "text/plain"
    || starts_with mime "text/plain;"
    || starts_with mime "text/"

-- `if !picked.contains(m) { picked.push(m.clone()) }`
push_new : List String → String → List String
push_new picked m = if not (contains picked m) then picked ++ m ∷ [] else picked

push_found : List String → Option String → List String
unfolding push_new
push_found picked none = picked
push_found picked (some m) = push_new picked m

-- The loops over the preferred and over the supported types.
pick_listed : List String → List String → List String → List String
unfolding push_found
pick_listed mime_types [] picked = picked
pick_listed mime_types (listed ∷ rest) picked =
    pick_listed mime_types rest (push_found picked (find (λ m. m == listed) mime_types))

-- The loop over the offered types.
pick_text : List String → List String → List String
pick_text [] picked = picked
pick_text (m ∷ rest) picked =
    pick_text rest (if is_text_mime m && not (contains picked m) then picked ++ m ∷ [] else picked)

unfoldable pub pick_mimes : List String → List String
unfolding is_text_mime pick_listed pick_text
pick_mimes mime_types =
    let picked = pick_listed mime_types preferred_text_mimes [] in
    let picked = pick_text mime_types picked in
    let picked = pick_listed mime_types supported_binary_mimes picked in
    take max_mimes_per_selection picked
