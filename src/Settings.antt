-- ===== src/Settings.antt =====
-- src/cpp/common/env.h: the settings from `.env` and the environment. The file is its bytes; atol
-- is a parameter.
use mathlib.Core.Option.{none-ne-some}
use stream_monitor.Prelude.{
  ℕ, ◌≡◌, inl, inr, Bool, ◌||◌, Bool-cases, Option-cases, List, [], ◌∷◌, ◌++◌, Option, none, some,
  ◌==◌, if◌then◌else◌, arith,
}
use stream_monitor.Prelude.Int.{ℤ}
use stream_monitor.Framing.{Bytes}
use stream_monitor.Framing.Split.{split}
use stream_monitor.Json.{bytes_eq, c_str}

-- The environment: a name is there once.
abbrev pub Environment : Type 0
Environment = List (Bytes × Bytes)

unfoldable pub getenv : Bytes → Environment → Option Bytes
getenv k [] = none
getenv k ((j, v) ∷ vs) = if bytes_eq j k then some v else getenv k vs

-- `setenv(k, v, 0)`: an existing name keeps its value, and an empty one is refused. No `k` of
-- load_env holds a '='.
unfoldable pub setenv : Bytes → Bytes → Environment → Environment
setenv [] v env = env
setenv (c ∷ cs) v env = elim (getenv (c ∷ cs) env) [
  | none ↦ env ++ ((c ∷ cs, v) ∷ [])
  | some _ ↦ env
]

abbrev pub is_blank : ℕ → Bool
is_blank c = c == b' ' || c == b'\t'

abbrev pub is_blank_or_cr : ℕ → Bool
is_blank_or_cr c = is_blank c || c == b'\r'

-- From `find_first_not_of` on.
unfoldable pub drop_front : (ℕ → Bool) → Bytes → Bytes
drop_front p [] = []
drop_front p (c ∷ cs) = let rest = drop_front p cs in if p c then rest else c ∷ cs

-- Up to `find_last_not_of`.
abbrev pub keep_front : Bool → ℕ → Bytes → Bytes
keep_front blank c [] = if blank then [] else c ∷ []
keep_front blank c (d ∷ ds) = c ∷ d ∷ ds

unfoldable pub drop_back : (ℕ → Bool) → Bytes → Bytes
drop_back p [] = []
drop_back p (c ∷ cs) = keep_front (p c) c (drop_back p cs)

-- Around the first '='.
unfoldable pub cut_at_eq : Bytes → Option (Bytes × Bytes)
cut_at_eq [] = none
cut_at_eq (c ∷ cs) =
    let rest = cut_at_eq cs in
    if c == b'=' then some ([], cs) else elim rest [ none ↦ none | some (k, v) ↦ some (c ∷ k, v) ]

abbrev pub set_pair : Option (Bytes × Bytes) → Environment → Environment
set_pair none env = env
set_pair (some (k, v)) env =
    setenv (c_str (drop_back is_blank k)) (c_str (drop_front is_blank v)) env

abbrev pub load_trimmed : Bytes → Environment → Environment
load_trimmed [] env = env
load_trimmed (c ∷ cs) env = if c == b'#' then env else set_pair (cut_at_eq (c ∷ cs)) env

unfoldable pub load_line : Environment → Bytes → Environment
load_line env line = load_trimmed (drop_back is_blank_or_cr (drop_front is_blank_or_cr line)) env

-- `std::getline` gives the lines, and what is behind the last '\n'.
unfoldable pub load_lines : List Bytes → Environment → Environment
load_lines [] env = env
load_lines (l ∷ ls) env = load_lines ls (load_line env l)

unfoldable pub load_env : Bytes → Environment → Environment
load_env text env = load_line (load_lines (split text).0 env) (split text).1

-- `(v && *v) ? v : def`
abbrev pub nonempty_or {ℓ} : {A : Type ℓ} → (Bytes → A) → A → Option Bytes → A
nonempty_or f def none = def
nonempty_or f def (some []) = def
nonempty_or f def (some (c ∷ cs)) = f (c ∷ cs)

unfoldable pub env_str : Environment → Bytes → Bytes → Bytes
env_str env key def = nonempty_or (λ v. v) def (getenv key env)

unfoldable pub env_long : (Bytes → ℤ) → Environment → Bytes → ℤ → ℤ
env_long atol env key def = nonempty_or atol def (getenv key env)

getenv-append : (k v : Bytes) (a b : Environment) → getenv k a ≡ some v → getenv k (a ++ b) ≡ some v
unfolding getenv
getenv-append k v [] b e = absurd (none-ne-some _ e)
getenv-append k v ((j, w) ∷ a) b e = ground (arith, getenv-append k v a b)

-- The names that are set keep their values.
abbrev Keeps : Environment → Environment → Type 0
Keeps a b = (k v : Bytes) → getenv k a ≡ some v → getenv k b ≡ some v

setenv-Keeps : (j w : Bytes) (env : Environment) → Keeps env (setenv j w env)
unfolding setenv
setenv-Keeps [] w env k v e = e
setenv-Keeps (c ∷ j) w env k v e = elim (Option-cases (getenv (c ∷ j) env)) [
  | inl n ↦ rw (setenv, n) (getenv-append k v env _ e)
  | inr (u, n) ↦ rw (setenv, n) e
]

set_pair-Keeps : (o : Option (Bytes × Bytes)) (env : Environment) → Keeps env (set_pair o env)
set_pair-Keeps none env k v e = e
set_pair-Keeps (some (j, w)) env k v e = setenv-Keeps _ _ env k v e

load_trimmed-Keeps : (line : Bytes) (env : Environment) → Keeps env (load_trimmed line env)
load_trimmed-Keeps [] env k v e = e
load_trimmed-Keeps (c ∷ cs) env k v e = elim (Bool-cases (c == b'#')) [
  | inl h ↦ rw h e
  | inr h ↦ rw h (set_pair-Keeps (cut_at_eq (c ∷ cs)) env k v e)
]

load_line-Keeps : (line : Bytes) (env : Environment) → Keeps env (load_line env line)
unfolding load_line
load_line-Keeps line env =
    load_trimmed-Keeps (drop_back is_blank_or_cr (drop_front is_blank_or_cr line)) env

load_lines-Keeps : (ls : List Bytes) (env : Environment) → Keeps env (load_lines ls env)
unfolding load_lines
load_lines-Keeps [] env k v e = e
load_lines-Keeps (l ∷ ls) env k v e =
    load_lines-Keeps ls (load_line env l) k v (load_line-Keeps l env k v e)

-- A name that is set keeps its value, whatever the file says.
pub load_env-getenv :
    (text k v : Bytes) (env : Environment)
    → getenv k env ≡ some v
    → getenv k (load_env text env) ≡ some v
unfolding load_env
load_env-getenv text k v env e =
    load_line-Keeps (split text).1 (load_lines (split text).0 env) k v
      (load_lines-Keeps (split text).0 env k v e)
