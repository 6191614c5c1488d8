-- ===== src/UnitTests/Mime.antt =====
-- src/mime.rs: its tests.
use uclip_daemon.Base.{All, ◌≡◌, refl, [], ◌∷◌, Bool, true, not, all, is_empty, length}
use uclip_daemon.Base.Eq.{string_eq, nat_eq, ◌==◌, list_beq}
use uclip_daemon.Config.{max_mimes_per_selection}
use uclip_daemon.Mime.{is_text_mime, pick_mimes}

unfoldable text_atoms_count_as_text : Bool
text_atoms_count_as_text = all is_text_mime (
    "TEXT" ∷ "STRING" ∷ "UTF8_STRING" ∷ "text/plain" ∷ "text/plain;charset=utf-8" ∷ "text/csv"
    ∷ "text/html" ∷ [])

unfoldable binary_and_app_types_are_not_text : Bool
binary_and_app_types_are_not_text =
    all (λ m. not (is_text_mime m)) ("image/png" ∷ "application/x-foo" ∷ "APPLICATION/JSON" ∷ [])

unfoldable prefers_ordered_text_mimes_first : Bool
prefers_ordered_text_mimes_first =
    list_beq (pick_mimes ("text/html" ∷ "text/plain" ∷ "text/plain;charset=utf-8" ∷ []))
      ("text/plain;charset=utf-8" ∷ "text/plain" ∷ "text/html" ∷ [])

unfoldable picks_up_unlisted_text_types : Bool
picks_up_unlisted_text_types =
    list_beq (pick_mimes ("text/csv" ∷ "image/png" ∷ [])) ("text/csv" ∷ "image/png" ∷ [])

unfoldable ignores_unsupported_application_types : Bool
ignores_unsupported_application_types = is_empty (pick_mimes ("application/x-foo" ∷ []))

unfoldable truncates_to_max_mimes : Bool
truncates_to_max_mimes =
    length (
      pick_mimes (
        "text/plain" ∷ "text/markdown" ∷ "text/html" ∷ "text/uri-list" ∷ "text/csv" ∷ "image/png"
        ∷ []))
    == max_mimes_per_selection

unfoldable dedupes_repeated_offers : Bool
dedupes_repeated_offers =
    list_beq (pick_mimes ("text/plain" ∷ "text/plain" ∷ [])) ("text/plain" ∷ [])

-- They pass.
tests_pass :
    All
      (λ (b : Bool). b ≡ true)
      (text_atoms_count_as_text ∷ binary_and_app_types_are_not_text
        ∷ prefers_ordered_text_mimes_first ∷ picks_up_unlisted_text_types
        ∷ ignores_unsupported_application_types ∷ truncates_to_max_mimes ∷ dedupes_repeated_offers
        ∷ [])
unfolding text_atoms_count_as_text binary_and_app_types_are_not_text
    prefers_ordered_text_mimes_first picks_up_unlisted_text_types
    ignores_unsupported_application_types truncates_to_max_mimes dedupes_repeated_offers
    is_text_mime pick_mimes
tests_pass = (refl, (refl, (refl, (refl, (refl, (refl, (refl, tt)))))))
