-- ===== src/Daemon/Server/Stale.antt =====
-- src/daemon/server.rs: which calls `bind` makes, and which failures it reports.
use uclip_daemon.Base.{◌≡◌, List, [], ◌∷◌, ◌++◌, Option, none, some, arith}
use uclip_daemon.Base.Result.{Result, done, fail}
use uclip_daemon.Text.{Chars}
use uclip_daemon.Daemon.Server.Bind.{
  IoError, not_found, SysCall, create_dir_all, remove_file, bind_socket, set_permissions, Answer,
  parent, bind, rest_of, ◌then_do◌, call, unlink, attempt, make_parent, or_fail, tolerate,
  owner_only,
}

-- The failure of a call that counts: a socket that is not there need not be removed, and the
-- permissions are set as far as they can be.
abbrev pub counted : SysCall → Option IoError → Option IoError
counted (remove_file p) (some not_found) = none
counted (set_permissions p m) e = none
counted c e = e

abbrev pub make : Chars → List SysCall
make [] = []
make (c ∷ cs) = create_dir_all (c ∷ cs) ∷ []

-- The calls of a start, in their order.
abbrev pub plan : Chars → List SysCall
plan path =
    make (parent path) ++ remove_file path ∷ bind_socket path ∷ set_permissions path owner_only ∷ []

-- A plan is carried out up to its first failure that counts.
abbrev pub carry_out : Answer → List SysCall → Chars → List SysCall × Result IoError Chars
carry_out ask [] path = ([], done path)
carry_out ask (c ∷ cs) path = elim (counted c (ask c)) [
  | none ↦ (c ∷ (carry_out ask cs path).0, (carry_out ask cs path).1)
  | some e ↦ (c ∷ [], fail e)
]

after_parent :
    (path p : Chars) (ask : Answer)
    → (make_parent p then_do rest_of path) ask []
      ≡ carry_out ask
          (make p ++ remove_file path ∷ bind_socket path ∷ set_permissions path owner_only ∷ [])
          path
unfolding call unlink attempt make_parent or_fail tolerate rest_of
after_parent path [] ask = ground arith
after_parent path (c ∷ cs) ask = ground arith

-- `bind` makes the directory of the socket, removes a stale socket, binds the path, and restricts
-- it to its owner, in this order, and stops at the first failure that counts.
pub bind_lem : (path : Chars) (ask : Answer) → bind path ask [] ≡ carry_out ask (plan path) path
unfolding bind
bind_lem path ask = after_parent path (parent path) ask
