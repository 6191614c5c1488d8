-- ===== src/Daemon/Server/Serve.antt =====
-- src/daemon/server.rs: `serve`, which accepts connections and spawns a task for each.
use uclip_daemon.Base.{ℕ, zero, suc, String, List, [], ◌∷◌, ◌++◌, Option, none, some}
use uclip_daemon.Text.{Chars}
use uclip_daemon.Daemon.Server.{Answers, Input, connected, Next, continue, stop, Parsed, step}

-- What happens while the server runs: a connection, a connection that could not be accepted, or a
-- round of the task with this number.
pub data Happening : Type 0 where
  accepted : Happening
  accept_failed : Chars → Happening
  progressed : ℕ → Answers × Input → Happening

unfoldable pub update {ℓ} : {A : Type ℓ} → ℕ → (A → A) → List A → List A
update k f [] = []
update zero f (x ∷ xs) = f x ∷ xs
update (suc k) f (x ∷ xs) = x ∷ update k f xs

unfoldable pub get_elem? {ℓ} : {A : Type ℓ} → List A → ℕ → Option A
get_elem? [] k = none
get_elem? (x ∷ xs) zero = some x
get_elem? (x ∷ xs) (suc k) = get_elem? xs k

module _ (parse : Chars → Parsed) (find_id : Chars → Option String) where
  -- A task that has returned does no more.
  unfoldable pub advance : Answers × Input → Next → Next
  advance (a, i) (continue c) = step parse find_id a c i
  advance (a, i) (stop c e) = stop c e

  -- The tasks, in the order in which their connections were accepted.
  unfoldable pub serve_one : List Next → Happening → List Next
  serve_one tasks accepted = tasks ++ continue connected ∷ []
  serve_one tasks (accept_failed e) = tasks
  serve_one tasks (progressed k input) = update k (advance input) tasks

  unfoldable pub serve : List Next → List Happening → List Next
  serve tasks [] = tasks
  serve tasks (h ∷ hs) = serve (serve_one tasks h) hs
