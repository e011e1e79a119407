-- ===== src/Slug/Given.antt =====
-- What the working directory changes in the arguments of a call.
use mcp_broker.Prelude.{
  String, ◌++ₛ◌, ◌≡◌, refl, true, false, Option, none, some, List, Dict, lookup, lookup-insert,
  arith, Bool-cases, inl, inr, is_empty, contains, strip_prefix, eq_iff, ◌==◌, ◌⊎◌, if-cases,
}
use mcp_broker.Value.{Value, str, as_str, got}
use mcp_broker.Slug.Defs.{
  Look, derive_project_slug, inject_cwd_project, is_given, with_slug, short_name,
}

-- The arguments agree, but for `project`, and that is a slug of the directory where it changes,
-- which it does only where none was given.
pub record IsInjected (look : List String → Look) (cwd : Option String) (before after : Dict Value)
    : Type 0 where
  pub others : (k : String) → k == "project" ≡ false → lookup k after ≡ lookup k before
  pub given :
      is_given (as_str (got (lookup "project" before))) ≡ true
      → lookup "project" after ≡ lookup "project" before
  pub slug :
      (after ≡ before)
      ⊎ ((s : String) × (derive_project_slug look cwd ≡ some s)
          × (is_empty s ≡ false)
          × (lookup "project" after ≡ some (str s)))

pub same-IsInjected :
    (look : List String → Look) (cwd : Option String) (d : Dict Value) → IsInjected look cwd d d
same-IsInjected look cwd d = record { others = λ k e. refl; given = λ e. refl; slug = inl refl }

with_slug-IsInjected :
    (look : List String → Look) (cwd : Option String) (d : Dict Value) (o : Option String)
    → derive_project_slug look cwd ≡ o
    → is_given (as_str (got (lookup "project" d))) ≡ false
    → IsInjected look cwd d (with_slug d o)
with_slug-IsInjected look cwd d none e missing = same-IsInjected look cwd d
with_slug-IsInjected look cwd d (some s) e missing = elim (Bool-cases (is_empty s)) [
  | inl empty ↦ rw empty (same-IsInjected look cwd d)
  | inr full ↦ rw full (record {
    others = λ k other.
        ground (arith, lookup-insert "project" k (str s) d, eq_iff k "project", eq_iff "project" k);
    given = λ g. absurd (cc);
    slug = inr (s, e, full, lookup-insert "project" "project" (str s) d);
  })
]

-- `inject_cwd_project` changes no argument but `project`. A `project` that is a text with more than
-- spaces stays as it is; where the arguments change, `project` becomes the slug of the client's
-- directory, which is not empty.
pub inject_cwd_project-IsInjected :
    (look : List String → Look) (name : String) (arguments : Dict Value) (cwd : Option String)
    (tool_prefix separator : String) (exclude : List String)
    → IsInjected look cwd arguments
        (inject_cwd_project look name arguments cwd tool_prefix separator exclude)
unfolding inject_cwd_project
inject_cwd_project-IsInjected look name arguments cwd tool_prefix separator exclude =
    by_short (strip_prefix (tool_prefix ++ₛ separator) name)
  where
    by_short :
        (o : Option String)
        → IsInjected look cwd arguments (short_name look arguments cwd exclude o)
    by_short none = same-IsInjected look cwd arguments
    by_short (some short) =
        if-cases (IsInjected look cwd arguments) (contains exclude short)
          (λ _. same-IsInjected look cwd arguments)
          (λ _.
            if-cases (IsInjected look cwd arguments)
              (is_given (as_str (got (lookup "project" arguments))))
              (λ _. same-IsInjected look cwd arguments)
              (λ missing. with_slug-IsInjected look cwd arguments _ refl missing))
