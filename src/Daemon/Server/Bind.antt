-- ===== src/Daemon/Server/Bind.antt =====
-- src/daemon/server.rs: `bind`, as calls of the file system and their answers.
use uclip_daemon.Base.{
  ℕ, List, [], ◌∷◌, ◌++◌, Bool, false, ◌&&◌, Option, none, some, is_empty, eqb, if◌then◌else◌,
}
use uclip_daemon.Base.Result.{Result, done, fail}
use uclip_daemon.Text.{Chars}

-- A failed call, with `std::io::ErrorKind::NotFound` told apart.
pub data IoError : Type 0 where
  not_found : IoError
  other : Chars → IoError

pub data SysCall : Type 0 where
  create_dir_all : Chars → SysCall
  remove_file : Chars → SysCall
  bind_socket : Chars → SysCall
  set_permissions : Chars → ℕ → SysCall

-- What the system answers to a call: `none` if it succeeds.
abbrev pub Answer : Type 0
Answer = SysCall → Option IoError

abbrev pub slash : ℕ
slash = b'/'

abbrev pub dot : ℕ
dot = b'.'

-- The path without its last component, read from the end.
unfoldable pub drop_name : Chars → Chars
drop_name [] = []
drop_name (c ∷ cs) = if eqb c slash then c ∷ cs else drop_name cs

-- Slashes at the end, and components `.` after a slash, are no part of a path.
unfoldable pub trim_end : Chars → Chars
trim_end [] = []
trim_end (c ∷ []) = if eqb c slash then [] else c ∷ []
trim_end (c ∷ d ∷ cs) =
    let after_slash = trim_end (d ∷ cs) in
    if eqb c slash
    then after_slash
    else if eqb c dot && eqb d slash
    then after_slash
    else c ∷ d ∷ cs

abbrev pub reverse_onto : Chars → Chars → Chars
reverse_onto [] acc = acc
reverse_onto (c ∷ cs) acc = reverse_onto cs (c ∷ acc)

abbrev pub is_rooted : Chars → Bool
is_rooted [] = false
is_rooted (c ∷ cs) = eqb c slash

-- `path.parent()`, for a path that ends in a name.
unfoldable pub parent : Chars → Chars
parent path =
    let trimmed = reverse_onto (trim_end (drop_name (reverse_onto path []))) [] in
    if is_rooted path && is_empty trimmed then slash ∷ [] else trimmed

-- An action makes calls after those already made, and may fail.
abbrev pub Action : Type 0 → Type 0
Action A = Answer → List SysCall → List SysCall × Result IoError A

infixl 5 ◌then_do◌
abbrev pub ◌then_do◌ : {A : Type 0} → Action (Unit {0}) → Action A → Action A
◌then_do◌ m k ask calls =
    let (calls', r) = m ask calls in elim r [ done u ↦ k ask calls' | fail e ↦ (calls', fail e) ]

unfoldable pub or_fail : Option IoError → Result IoError (Unit {0})
or_fail none = done tt
or_fail (some e) = fail e

-- `Ok(()) => {}`, `Err(e) if e.kind() == NotFound => {}`, `Err(e) => return Err(e.into())`
unfoldable pub tolerate : Option IoError → Result IoError (Unit {0})
tolerate none = done tt
tolerate (some not_found) = done tt
tolerate (some (other e)) = fail (other e)

unfoldable pub call : SysCall → Action (Unit {0})
call c ask calls = (calls ++ c ∷ [], or_fail (ask c))

unfoldable pub unlink : Chars → Action (Unit {0})
unlink path ask calls = (calls ++ remove_file path ∷ [], tolerate (ask (remove_file path)))

-- A failure is logged only.
unfoldable pub attempt : SysCall → Action (Unit {0})
attempt c ask calls = (calls ++ c ∷ [], done tt)

unfoldable pub make_parent : Chars → Action (Unit {0})
make_parent [] ask calls = (calls, done tt)
make_parent (c ∷ cs) ask calls = call (create_dir_all (c ∷ cs)) ask calls

-- `0o700`
abbrev pub owner_only : ℕ
owner_only = 448

-- `bind` after its directory was made.
unfoldable pub rest_of : Chars → Action Chars
rest_of path =
    unlink path
    then_do (call (bind_socket path)
        then_do (attempt (set_permissions path owner_only)
            then_do (λ ask calls. (calls, done path))))

unfoldable pub bind : Chars → Action Chars
bind path = make_parent (parent path) then_do rest_of path
