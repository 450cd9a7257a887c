-- ===== src/Load/Launch.antt =====
-- How fanout_load_client_main.actor.cpp starts processes: arguments, command lines, paths and exit
-- codes.
use weft_warp_loop.Base.{
  ℕ, ◌≡◌, refl, ap, ◌∙◌, Bool, true, false, ◌||◌, Option, none, some, List, [], ◌∷◌, ◌++◌, ◌==◌,
  if◌then◌else◌, get_or, Bytes, All, Without, append_assoc,
}
use weft_warp_loop.Wire.Decimal.{ℤ, pos, codes, to_string}

-- `quoteArg`.
abbrev pub quote_arg : Bytes → Bytes
quote_arg arg = b'"' ∷ (arg ++ (b'"' ∷ []))

abbrev pub later_args : List Bytes → Bytes
later_args [] = []
later_args (a ∷ more) = b' ' ∷ (quote_arg a ++ later_args more)

-- The command line of `spawnProcess` on Windows.
unfoldable pub cmd_line : List Bytes → Bytes
cmd_line [] = []
cmd_line (a ∷ more) = quote_arg a ++ later_args more

-- The arguments of `spawnWorker`; the deadline's text is what std::to_string makes of a double.
abbrev pub worker_args : Bytes → ℕ → ℤ → ℤ → Bytes → List Bytes
worker_args exec port player_id ticks deadline =
    exec
    ∷ codes "--worker"
    ∷ to_string (pos port)
    ∷ to_string player_id
    ∷ to_string ticks
    ∷ deadline
    ∷ []

-- A byte of "/\\".
abbrev pub is_separator : ℕ → Bool
is_separator c = c == b'/' || c == b'\\'

abbrev pub before_last : ℕ → Option Bytes → Option Bytes
before_last c (some d) = some (c ∷ d)
before_last c none = if is_separator c then some [] else none

-- What stands before the last separator, `find_last_of` with `substr`.
unfoldable pub dir_of : Bytes → Option Bytes
dir_of [] = none
dir_of (c ∷ cs) = before_last c (dir_of cs)

-- `dirName`.
unfoldable pub dir_name : Bytes → Bytes
dir_name path = get_or (dir_of path) (codes ".")

-- The arguments of `spawnShardServer` outside Windows; the first is the program.
unfoldable pub shard_args : Bytes → ℕ → List Bytes
shard_args exec port =
    let dir = dir_name exec in
    (dir ++ codes "/picoquic_fanout_server")
    ∷ to_string (pos port)
    ∷ (dir ++ codes "/../thirdparty/picoquic/certs/secp256r1/cert.pem")
    ∷ (dir ++ codes "/../thirdparty/picoquic/certs/secp256r1/key.pem")
    ∷ []

-- `g_workerExitCode` after `runWorkerThenStop`; the result is none for an error.
abbrev pub worker_exit_code : Option Bool → ℕ
worker_exit_code none = 1
worker_exit_code (some ok) = if ok then 0 else 1

-- `g_multiSucceeded` after `runMultiThenStop`, and the exit code of `runMulti`.
abbrev pub multi_succeeded : Option ℕ → ℕ
multi_succeeded none = 0
multi_succeeded (some n) = n

abbrev pub multi_exit_code : Option ℕ → ℕ → ℕ
multi_exit_code result players = if multi_succeeded result == players then 0 else 1

abbrev pub first_longer : ℕ → List Bytes → List Bytes
first_longer c [] = (c ∷ []) ∷ []
first_longer c (a ∷ more) = (c ∷ a) ∷ more

-- The arguments of a command line as a reader finds them, which goes from quote to quote; the flag
-- tells whether it is within an argument.
unfoldable pub read_args : Bool → Bytes → List Bytes
read_args false [] = []
read_args false (c ∷ cs) =
    let inside = read_args true cs in
    let outside = read_args false cs in if c == b'"' then inside else outside
read_args true [] = [] ∷ []
read_args true (c ∷ cs) =
    let inside = read_args true cs in
    let outside = read_args false cs in if c == b'"' then [] ∷ outside else first_longer c inside

read_args-quoted :
    (a rest : Bytes)
    → Without b'"' a
    → read_args true (a ++ (b'"' ∷ rest)) ≡ a ∷ read_args false rest
unfolding read_args
read_args-quoted [] rest h = refl
read_args-quoted (c ∷ a) rest (here, h) = rw (here, read_args-quoted a rest h) refl

read_args-quote_arg :
    (a rest : Bytes)
    → Without b'"' a
    → read_args false (quote_arg a ++ rest) ≡ a ∷ read_args false rest
unfolding read_args
read_args-quote_arg a rest h =
    ap (λ l. read_args true l) (append_assoc a (b'"' ∷ []) rest) ∙ read_args-quoted a rest h

read_args-later_args :
    (more : List Bytes) → All (Without b'"') more → read_args false (later_args more) ≡ more
unfolding read_args
read_args-later_args [] h = refl
read_args-later_args (a ∷ more) (here, h) =
    read_args-quote_arg a (later_args more) here ∙ ap (◌∷◌ a) (read_args-later_args more h)

-- A command line that spawnProcess builds of arguments without double quotes gives the same
-- arguments back to a reader that goes from quote to quote.
pub read_args-cmd_line :
    (args : List Bytes) → All (Without b'"') args → read_args false (cmd_line args) ≡ args
unfolding cmd_line read_args
read_args-cmd_line [] h = refl
read_args-cmd_line (a ∷ more) (here, h) =
    read_args-quote_arg a (later_args more) here ∙ ap (◌∷◌ a) (read_args-later_args more h)

dir_of-none : (name : Bytes) → All (λ c. is_separator c ≡ false) name → dir_of name ≡ none
unfolding dir_of
dir_of-none [] h = refl
dir_of-none (c ∷ cs) (here, h) = rw (dir_of-none cs h, before_last, here) refl

dir_of-append :
    (dir name : Bytes)
    → All (λ c. is_separator c ≡ false) name
    → dir_of (dir ++ (b'/' ∷ name)) ≡ some dir
unfolding dir_of
dir_of-append [] name h = rw (dir_of-none name h) refl
dir_of-append (c ∷ dir) name h = rw (dir_of-append dir name h) refl

-- For a load client at a path that ends in a slash and a name without separators, the program and
-- the certificate paths of a shard server stand beside it, in the directory before that slash.
pub shard_args-sibling :
    (dir name : Bytes) (port : ℕ)
    → All (λ c. is_separator c ≡ false) name
    → shard_args (dir ++ (b'/' ∷ name)) port
      ≡ (dir ++ codes "/picoquic_fanout_server")
        ∷ to_string (pos port)
        ∷ (dir ++ codes "/../thirdparty/picoquic/certs/secp256r1/cert.pem")
        ∷ (dir ++ codes "/../thirdparty/picoquic/certs/secp256r1/key.pem")
        ∷ []
unfolding shard_args dir_name
shard_args-sibling dir name port h = rw (dir_of-append dir name h) refl
