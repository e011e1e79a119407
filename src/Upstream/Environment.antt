-- ===== src/Upstream/Environment.antt =====
-- src/mcp_broker/config.py: `UpstreamConfig.resolve_environment` and `resolve_request_meta`. The
-- variables of the process and the secret files are arguments.
use mcp_broker.Prelude.{
  String, ◌&&◌, ◌||◌, Option, none, some, List, [], ◌∷◌, ◌++◌, Dict, if◌then◌else◌, lookup, insert,
  is_empty, nat_eq,
}
use Prim.Native.Char.{code}
use mcp_broker.Prelude.Result.{Result, ok, err, ◌>>=◌}
use mcp_broker.Value.{Value, str}
use mcp_broker.Upstream.Defs.{UpstreamConfig}

-- What a path of a secret file leads to: no file, a file that cannot be read as a text, or its text.
pub data SecretFile : Type 0 where
  absent unreadable : SecretFile
  holds : String → SecretFile

pub data EnvironmentError : Type 0 where
  missing_variables missing_files : List String → EnvironmentError
  unreadable_file unknown_variable : String → EnvironmentError

-- `resolved` and the names of what is missing.
abbrev pub Gathered : Type 0
Gathered = Dict String × List String

abbrev pub note_variable : String → String → Option String → Gathered → Gathered
note_variable target source none (resolved, missing) = (resolved, missing ++ source ∷ [])
note_variable target source (some value) (resolved, missing) =
    (insert target value resolved, missing)

unfoldable pub gather_variables : Dict String → Dict String → Gathered → Gathered
gather_variables environ [] found = found
gather_variables environ ((target, source) ∷ rest) found =
    gather_variables environ rest (note_variable target source (lookup source environ) found)

-- `text.rstrip("\r\n")`
unfoldable pub strip_line_end : String → String
strip_line_end String.[] = String.[]
strip_line_end (String.◌∷◌ c s) =
    let rest = strip_line_end s in
    if is_empty rest && (nat_eq (code c) b'\r' || nat_eq (code c) b'\n')
    then String.[]
    else String.◌∷◌ c rest

abbrev pub note_text : String → String → String → Gathered → Gathered
note_text target path value (resolved, missing) =
    if is_empty value
    then (resolved, missing ++ path ∷ [])
    else (insert target value resolved, missing)

abbrev pub note_file : String → String → SecretFile → Gathered → Result EnvironmentError Gathered
note_file target path absent (resolved, missing) = ok (resolved, missing ++ path ∷ [])
note_file target path unreadable found = err (unreadable_file path)
note_file target path (holds text) found = ok (note_text target path (strip_line_end text) found)

unfoldable pub gather_files :
    (String → SecretFile) → Dict String → Gathered → Result EnvironmentError Gathered
gather_files files [] found = ok found
gather_files files ((target, path) ∷ rest) found = do
  now ← note_file target path (files path) found
  gather_files files rest now

abbrev pub after_files : List String → Gathered → Result EnvironmentError (Dict String)
after_files [] (resolved, []) = ok resolved
after_files [] (resolved, path ∷ paths) = err (missing_files (path ∷ paths))
after_files (name ∷ names) found = err (missing_variables (name ∷ names))

unfoldable pub resolve_environment :
    UpstreamConfig → Dict String → (String → SecretFile) → Result EnvironmentError (Dict String)
unfolding gather_variables gather_files
resolve_environment u environ files = do
  let (resolved, missing) = gather_variables environ u.env ([], [])
  found ← gather_files files u.env_files (resolved, [])
  after_files missing found

abbrev pub credential : String → Option String → Result EnvironmentError Value
credential source none = err (unknown_variable source)
credential source (some value) = ok (str value)

-- The comprehension; the values are texts.
unfoldable pub take_credentials : Dict String → Dict String → Result EnvironmentError (Dict Value)
take_credentials resolved [] = ok []
take_credentials resolved ((name, source) ∷ rest) = do
  value ← credential source (lookup source resolved)
  others ← take_credentials resolved rest
  ok ((name, value) ∷ others)

abbrev pub request_meta_of :
    UpstreamConfig
    → Dict String
    → Dict String
    → (String → SecretFile)
    → Result EnvironmentError (Dict Value)
request_meta_of u [] environ files = ok []
request_meta_of u (entry ∷ rest) environ files = do
  resolved ← resolve_environment u environ files
  take_credentials resolved (entry ∷ rest)

unfoldable pub resolve_request_meta :
    UpstreamConfig → Dict String → (String → SecretFile) → Result EnvironmentError (Dict Value)
unfolding resolve_environment take_credentials
resolve_request_meta u environ files = request_meta_of u u.request_meta environ files
