-- ===== src/UnitTests/Loop.antt =====
-- src/main.rs: its tests.
use uclip_daemon.Base.{[], ◌∷◌, All, ℕ, ◌+◌, ◌*◌, ◌^◌, ◌≡◌, refl, Bool, true, not, none, some}
use uclip_daemon.Base.Order.{codes}
use uclip_daemon.EventLoop.{echo_window, is_echo}

-- An instant, and a second, in nanoseconds.
abbrev now : ℕ
now = 100 * 10 ^ 9

abbrev second : ℕ
second = 10 ^ 9

unfoldable echo_matches_fresh_same_preview : Bool
echo_matches_fresh_same_preview = is_echo now (some (now, codes "hello")) (codes "hello")

unfoldable echo_rejects_different_preview : Bool
echo_rejects_different_preview = not (is_echo now (some (now, codes "hello")) (codes "other"))

unfoldable echo_rejects_missing_flag : Bool
echo_rejects_missing_flag = not (is_echo now none (codes "hello"))

-- The flag was armed a second more than the window ago.
unfoldable echo_expires_after_window : Bool
echo_expires_after_window =
    not (is_echo (now + (echo_window + second)) (some (now, codes "hello")) (codes "hello"))

-- They pass.
tests_pass :
    All
      (λ (b : Bool). b ≡ true)
      (echo_matches_fresh_same_preview ∷ echo_rejects_different_preview ∷ echo_rejects_missing_flag
        ∷ echo_expires_after_window ∷ [])
unfolding echo_matches_fresh_same_preview echo_rejects_different_preview echo_rejects_missing_flag
    echo_expires_after_window is_echo
tests_pass = (refl, (refl, (refl, (refl, tt))))
