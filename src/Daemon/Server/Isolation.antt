-- ===== src/Daemon/Server/Isolation.antt =====
-- src/daemon/server.rs: the tasks of the server do not touch each other's connections.
use uclip_daemon.Base.{
  ℕ, zero, suc, ◌+◌, ◌≤◌, ◌≡◌, refl, sym, ap, ◌∙◌, String, List, [], ◌∷◌, ◌++◌, Bool, true, false,
  Option, none, some, length, length-append, eqb, arith, if◌then◌else◌,
}
use uclip_daemon.Text.{Chars}
use uclip_daemon.Daemon.Server.{
  Answers, Input, connected, Next, continue, stop, Parsed, step, handle_client,
}
use uclip_daemon.Daemon.Server.Serve.{
  Happening, accepted, accept_failed, progressed, update, get_elem?, advance, serve_one, serve,
}

-- The inputs of task `k` among what happens, in their order.
unfoldable pub inputs_of : ℕ → List Happening → List (Answers × Input)
inputs_of k [] = []
inputs_of k (accepted ∷ hs) = inputs_of k hs
inputs_of k (accept_failed e ∷ hs) = inputs_of k hs
inputs_of k (progressed j input ∷ hs) =
    let rest = inputs_of k hs in if eqb j k then input ∷ rest else rest

-- What happens after the first `n` more connections were accepted.
unfoldable pub after_accepts : ℕ → List Happening → Option (List Happening)
after_accepts n [] = none
after_accepts zero (accepted ∷ hs) = some hs
after_accepts (suc n) (accepted ∷ hs) = after_accepts n hs
after_accepts n (accept_failed e ∷ hs) = after_accepts n hs
after_accepts n (progressed k input ∷ hs) = after_accepts n hs

pub some_inj {ℓ} : {A : Type ℓ} {x y : A} → some x ≡ some y → x ≡ y
some_inj h = cc

pub get_elem?-update {ℓ} :
    {A : Type ℓ} (f : A → A) (xs : List A) (j k : ℕ) (x : A)
    → get_elem? xs k ≡ some x
    → get_elem? (update j f xs) k ≡ some (if eqb j k then f x else x)
unfolding get_elem? update
get_elem?-update f [] j k x h = cc
get_elem?-update f (y ∷ xs) zero zero x h = ap (λ z. some (f z)) (some_inj h)
get_elem?-update f (y ∷ xs) zero (suc k) x h = ground (arith, h)
get_elem?-update f (y ∷ xs) (suc j) zero x h = ground (arith, h)
get_elem?-update f (y ∷ xs) (suc j) (suc k) x h = ground (arith, get_elem?-update f xs j k x h)

length-update {ℓ} :
    {A : Type ℓ} (f : A → A) (xs : List A) (j : ℕ) → length (update j f xs) ≡ length xs
unfolding update
length-update f [] j = refl
length-update f (x ∷ xs) zero = refl
length-update f (x ∷ xs) (suc j) = ap suc (length-update f xs j)

pub get_elem?-append {ℓ} :
    {A : Type ℓ} (xs ys : List A) (k : ℕ) (x : A)
    → get_elem? xs k ≡ some x
    → get_elem? (xs ++ ys) k ≡ some x
unfolding get_elem?
get_elem?-append [] ys k x h = cc
get_elem?-append (y ∷ xs) ys zero x h = h
get_elem?-append (y ∷ xs) ys (suc k) x h = get_elem?-append xs ys k x h

pub get_elem?-last {ℓ} :
    {A : Type ℓ} (xs : List A) (x : A) → get_elem? (xs ++ x ∷ []) (length xs) ≡ some x
unfolding get_elem?
get_elem?-last [] x = refl
get_elem?-last (y ∷ xs) x = get_elem?-last xs x

get_elem?-past {ℓ} : {A : Type ℓ} (xs : List A) (k : ℕ) → length xs ≤ k → get_elem? xs k ≡ none
unfolding get_elem?
get_elem?-past [] k h = refl
get_elem?-past (y ∷ xs) zero h = absurd (omega (arith, h))
get_elem?-past (y ∷ xs) (suc k) h = get_elem?-past xs k (omega (arith, h))

module _ (parse : Chars → Parsed) (find_id : Chars → Option String) where
  -- A task goes on with its inputs, if it has not returned.
  abbrev resume : Next → List (Answers × Input) → Next
  resume (continue c) inputs = handle_client parse find_id c inputs
  resume (stop c e) inputs = stop c e

  resume-advance :
      (input : Answers × Input) (n : Next) (rest : List (Answers × Input))
      → resume (advance parse find_id input n) rest ≡ resume n (input ∷ rest)
  unfolding advance handle_client
  resume-advance (a, i) (stop c e) rest = refl
  resume-advance (a, i) (continue c) rest = resumed (step parse find_id a c i)
    where
      resumed :
          (n : Next)
          → resume n rest
            ≡ elim n [ continue c' ↦ handle_client parse find_id c' rest | stop c' e ↦ stop c' e ]
      resumed (continue c') = refl
      resumed (stop c' e) = refl

  resume-nil : (n : Next) → resume n [] ≡ n
  unfolding handle_client
  resume-nil (continue c) = refl
  resume-nil (stop c e) = refl

  resume-if :
      (b : Bool) (input : Answers × Input) (n : Next) (rest : List (Answers × Input))
      → resume (if b then advance parse find_id input n else n) rest
        ≡ resume n (if b then input ∷ rest else rest)
  resume-if true input n rest = resume-advance input n rest
  resume-if false input n rest = refl

  running_task :
      (hs : List Happening) (tasks : List Next) (k : ℕ) (n : Next)
      → get_elem? tasks k ≡ some n
      → get_elem? (serve parse find_id tasks hs) k ≡ some (resume n (inputs_of k hs))
  unfolding serve serve_one inputs_of
  running_task [] tasks k n h = h ∙ ap some (sym (resume-nil n))
  running_task (accepted ∷ hs) tasks k n h =
      running_task hs (tasks ++ continue connected ∷ []) k n
        (get_elem?-append tasks (continue connected ∷ []) k n h)
  running_task (accept_failed e ∷ hs) tasks k n h = running_task hs tasks k n h
  running_task (progressed j input ∷ hs) tasks k n h =
      running_task hs (update j (advance parse find_id input) tasks) k _
        (get_elem?-update (advance parse find_id input) tasks j k n h)
      ∙ ap some (resume-if (eqb j k) input n (inputs_of k hs))

  abbrev pub spawned : ℕ → Option (List Happening) → Option Next
  spawned k none = none
  spawned k (some hs) = some (handle_client parse find_id connected (inputs_of k hs))

  later_task :
      (hs : List Happening) (tasks : List Next) (n k : ℕ)
      → k ≡ length tasks + n
      → get_elem? (serve parse find_id tasks hs) k ≡ spawned k (after_accepts n hs)
  unfolding serve serve_one after_accepts
  later_task [] tasks n k h = get_elem?-past tasks k (omega (arith, h))
  later_task (accepted ∷ hs) tasks zero k h =
      let here : k ≡ length tasks = omega (arith, h) in
      running_task hs (tasks ++ continue connected ∷ []) k (continue connected) (
        ap (get_elem? (tasks ++ continue connected ∷ [])) here
        ∙ get_elem?-last tasks (continue connected))
  later_task (accepted ∷ hs) tasks (suc n) k h =
      later_task hs (tasks ++ continue connected ∷ []) n k
        (omega (arith, h, length-append tasks (continue connected ∷ [])))
  later_task (accept_failed e ∷ hs) tasks n k h = later_task hs tasks n k h
  later_task (progressed j input ∷ hs) tasks n k h =
      later_task hs (update j (advance parse find_id input) tasks) n k
        (omega (arith, h, length-update (advance parse find_id input) tasks j))

  -- Each connection ends up as if it were alone: the state of a task is that of `handle_client` on
  -- the inputs of its own connection, whatever the other connections do and whichever accepts fail;
  -- and there is a task exactly for each connection that was accepted.
  pub serve-alone :
      (hs : List Happening) (k : ℕ)
      → get_elem? (serve parse find_id [] hs) k ≡ spawned k (after_accepts k hs)
  serve-alone hs k = later_task hs [] k k (omega arith)
