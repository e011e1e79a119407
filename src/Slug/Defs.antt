-- ===== src/Slug/Defs.antt =====
-- src/mcp_broker/project_slug.py: the `project` argument from the client's working directory. A
-- path is the list of its names, the deepest first; `Path` drops empty names and ".".
use mcp_broker.Prelude.{
  ℕ, zero, suc, String, ◌++ₛ◌, Bool, false, not, ◌||◌, Option, none, some, List, [], ◌∷◌, Dict,
  is_empty, is_blank, ◌==◌, if◌then◌else◌, lookup, insert, contains, starts_with, strip_prefix,
  split_char,
}
use mcp_broker.Value.{Value, str, as_str, got}

-- What `(cur / ".git").exists()` gives, or that it raises an `OSError`.
pub data Look : Type 0 where
  there absent unreadable : Look

abbrev max_walk : ℕ
max_walk = 64

abbrev names : List String → List String → List String
names [] deeper = deeper
names (n ∷ ns) deeper =
    let with_n = names ns (n ∷ deeper) in
    let without_n = names ns deeper in if is_empty n || n == "." then without_n else with_n

-- The names of a path, the deepest first.
unfoldable pub path_names : String → List String
path_names path = names (split_char b'/' path) []

-- The loop: the directories from `cur` upwards, as often as fuel is left.
unfoldable pub find_root : (List String → Look) → ℕ → List String → List String → List String
find_root look zero cur p = p
find_root look (suc fuel) [] p = elim (look []) [ there ↦ [] | absent ↦ p | unreadable ↦ p ]
find_root look (suc fuel) (n ∷ up) p = elim (look (n ∷ up)) [
  | there ↦ n ∷ up
  | absent ↦ find_root look fuel up p
  | unreadable ↦ p
]

-- `str(root).lstrip("/").replace("/", "-")`
unfoldable pub slug_of : List String → String
slug_of [] = ""
slug_of (n ∷ []) = n
slug_of (n ∷ m ∷ up) = slug_of (m ∷ up) ++ₛ ("-" ++ₛ n)

unfoldable pub derive_project_slug : (List String → Look) → Option String → Option String
unfolding path_names find_root slug_of
derive_project_slug look none = none
derive_project_slug look (some client_cwd) =
    let p = path_names client_cwd in
    if starts_with client_cwd "/" then some (slug_of (find_root look max_walk p p)) else none

abbrev pub is_given : Option String → Bool
is_given none = false
is_given (some s) = not (is_blank s)

abbrev pub with_slug : Dict Value → Option String → Dict Value
with_slug arguments none = arguments
with_slug arguments (some slug) =
    if is_empty slug then arguments else insert "project" (str slug) arguments

abbrev pub short_name :
    (List String → Look) → Dict Value → Option String → List String → Option String → Dict Value
short_name look arguments client_cwd exclude none = arguments
short_name look arguments client_cwd exclude (some short) =
    if contains exclude short
    then arguments
    else if is_given (as_str (got (lookup "project" arguments)))
    then arguments
    else with_slug arguments (derive_project_slug look client_cwd)

unfoldable pub inject_cwd_project :
    (List String → Look)
    → String
    → Dict Value
    → Option String
    → String
    → String
    → List String
    → Dict Value
inject_cwd_project look name arguments client_cwd tool_prefix separator exclude =
    short_name look arguments client_cwd exclude (strip_prefix (tool_prefix ++ₛ separator) name)
