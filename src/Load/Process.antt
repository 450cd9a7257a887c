-- ===== src/Load/Process.antt =====
-- The processes of fanout_load_client_main.actor.cpp: how one is started, asked for its end and
-- killed, on both systems, and how the roles of the program end. What the system answers is a
-- parameter.
use weft_warp_loop.Base.{
  ℕ, suc, zero, ◌≡◌, refl, Bool, true, false, ◌&&◌, Option, none, some, List, [], ◌∷◌, ◌++◌, ◌==◌,
  if◌then◌else◌, Bytes, is_some,
}
use weft_warp_loop.Wire.Decimal.{ℤ, pos, negsuc, codes, to_string}
use weft_warp_loop.Load.Launch.{worker_exit_code, multi_succeeded, multi_exit_code}

-- `ChildHandle`: a process id on POSIX, and on Windows a handle that may be null.
abbrev pub no_pid : ℤ
no_pid = negsuc 0

-- `spawnProcess`, given what posix_spawn or CreateProcess answers.
unfoldable pub spawn_posix : ℕ → ℤ → ℤ
spawn_posix status pid = if status == 0 then pid else no_pid

unfoldable pub spawn_windows : Bool → ℕ → Option ℕ
spawn_windows created handle = if created then some handle else none

-- `childIsAlive`.
unfoldable pub is_alive_posix : ℤ → Bool
is_alive_posix (pos zero) = false
is_alive_posix (pos (suc n)) = true
is_alive_posix (negsuc n) = false

unfoldable pub is_alive_windows : Option ℕ → Bool
is_alive_windows handle = is_some handle

-- waitpid with WNOHANG: it fails, finds the child running, or gives whether it exited by itself and
-- its code.
pub data Waited : Type 0 where
  wait_failed still_running : Waited
  ended : Bool → ℕ → Waited

-- `pollChild` on POSIX. When waitpid fails, `status` is still 0, which reads as an exit with code 0.
unfoldable pub poll_posix : Waited → Option Bool
poll_posix still_running = none
poll_posix wait_failed = some true
poll_posix (ended exited code) = some (exited && (code == 0))

-- GetExitCodeProcess: it fails, or gives a code.
pub data Queried : Type 0 where
  query_failed : Queried
  exit_code : ℕ → Queried

abbrev pub still_active : ℕ
still_active = 259

-- `pollChild` on Windows.
unfoldable pub poll_windows : Queried → Option Bool
poll_windows query_failed = some false
poll_windows (exit_code code) = if code == still_active then none else some (code == 0)

-- The calls of the system that `forceKill` and `closeChild` make.
pub data ProcessCall : Type 0 where
  kill_process wait_process : ℤ → ProcessCall
  terminate wait_handle close_process close_thread : ℕ → ProcessCall

unfoldable pub kill_posix : ℤ → List ProcessCall
unfolding is_alive_posix
kill_posix pid = if is_alive_posix pid then kill_process pid ∷ wait_process pid ∷ [] else []

unfoldable pub kill_windows : Option ℕ → List ProcessCall
kill_windows none = []
kill_windows (some h) = terminate h ∷ wait_handle h ∷ []

unfoldable pub close_windows : Option ℕ → Option ℕ → List ProcessCall
close_windows none none = []
close_windows none (some t) = close_thread t ∷ []
close_windows (some h) none = close_process h ∷ []
close_windows (some h) (some t) = close_process h ∷ close_thread t ∷ []

-- `runWorker`: the exit code, once the player's future is ready; its result is none for an error.
unfoldable pub run_worker_exit : Option (Option Bool) → Option ℕ
run_worker_exit none = none
run_worker_exit (some result) = some (worker_exit_code result)

-- `runMulti`: what it prints, and its exit code.
unfoldable pub run_multi_end : Option ℕ → ℕ → Bytes × ℕ
run_multi_end result players = (
  codes "succeeded "
      ++ (to_string (pos (multi_succeeded result))
          ++ (b'/' ∷ (to_string (pos players) ++ codes "\n"))),
  multi_exit_code result players,
)

-- A player's success, false for an error.
abbrev pub is_success : Option Bool → Bool
is_success none = false
is_success (some ok) = ok

-- With the code that a worker process exits with, the coordinator takes the process for a success
-- on both systems exactly if its player succeeded, and on POSIX for a failure if it did not exit
-- by itself.
pub poll-run_worker_exit :
    (result : Option Bool) (code : ℕ)
    → run_worker_exit (some result) ≡ some code
    → (poll_posix (ended true code) ≡ some (is_success result))
      × (poll_windows (exit_code code) ≡ some (is_success result))
      × (poll_posix (ended false code) ≡ some false)
unfolding poll_posix poll_windows run_worker_exit
poll-run_worker_exit none code e = rw (← some_eq e) (refl, refl, refl)
  where
    some_eq : ◌≡◌ {A = Option ℕ} (some 1) (some code) → ◌≡◌ {A = ℕ} 1 code
    some_eq q = cc
poll-run_worker_exit (some true) code e = rw (← some_eq e) (refl, refl, refl)
  where
    some_eq : ◌≡◌ {A = Option ℕ} (some 0) (some code) → ◌≡◌ {A = ℕ} 0 code
    some_eq q = cc
poll-run_worker_exit (some false) code e = rw (← some_eq e) (refl, refl, refl)
  where
    some_eq : ◌≡◌ {A = Option ℕ} (some 1) (some code) → ◌≡◌ {A = ℕ} 1 code
    some_eq q = cc
