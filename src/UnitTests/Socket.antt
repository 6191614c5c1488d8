-- ===== src/UnitTests/Socket.antt =====
-- src/daemon/server.rs: its tests of `socket_path`.
use mathlib.Core.List.{reverse}
use uclip_daemon.Base.{ℕ, ◌≡◌, refl, [], ◌∷◌, Bool, true, ◌&&◌, none, some, All}
use uclip_daemon.Base.Eq.{nat_eq}
use uclip_daemon.Base.Order.{codes}
use uclip_daemon.Text.{decimal}
use uclip_daemon.Daemon.Server.{socket_path, join_path}
use uclip_daemon.UnitTests.{says, starts}

abbrev uid : ℕ
uid = 1000

unfoldable socket_path_uses_xdg_runtime_dir : Bool
socket_path_uses_xdg_runtime_dir =
    says (socket_path (some (codes "/run/user/1000")) uid) "/run/user/1000/uclip.sock"

-- The extension is what follows the last full stop.
unfoldable socket_path_falls_back_to_tmp : Bool
socket_path_falls_back_to_tmp =
    let path = socket_path none uid in
    starts path (codes "/tmp/uclip-") && starts (reverse path) (reverse (codes ".sock"))

-- They pass.
tests_pass :
    All
      (λ (b : Bool). b ≡ true)
      (socket_path_uses_xdg_runtime_dir ∷ socket_path_falls_back_to_tmp ∷ [])
unfolding socket_path_uses_xdg_runtime_dir socket_path_falls_back_to_tmp socket_path join_path
    decimal
tests_pass = (refl, (refl, tt))
