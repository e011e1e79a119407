-- ===== src/Catalog/Injected.antt =====
-- What the client's directory changes in the arguments of a call through the facade.
use mcp_broker.Prelude.{
  String, ◌≡◌, ◌∙◌, false, Option, none, some, [], ◌∷◌, ◌⊎◌, inl, inr, Dict, is_empty, lookup,
  subst, sym, if-cases,
}
use mcp_broker.Value.{Value, str}
use mcp_broker.Upstream.{UpstreamConfig, prefix_of}
use mcp_broker.Slug.{derive_project_slug}
use mcp_broker.Slug.Given.{IsInjected, same-IsInjected, inject_cwd_project-IsInjected}
use mcp_broker.Catalog.Facade.{
  BrokerCatalogFacade, inject_for, inject_given, inject_cwd_project_arg, or_dot,
}

abbrev Slugged : BrokerCatalogFacade → Option String → Dict Value → Dict Value → Type 0
Slugged f cwd before after =
    (after ≡ before)
    ⊎ ((s : String) × (derive_project_slug f.look cwd ≡ some s)
        × (is_empty s ≡ false)
        × (lookup "project" after ≡ some (str s)))

IsInjected-trans :
    (f : BrokerCatalogFacade) {cwd : Option String} {a b c : Dict Value}
    → IsInjected f.look cwd a b
    → IsInjected f.look cwd b c
    → IsInjected f.look cwd a c
IsInjected-trans f {cwd} {a} {b} {c} h k = record {
  others = λ j e. k.others j e ∙ h.others j e;
  given = λ g. k.given (rw (h.given g) g) ∙ h.given g;
  slug = last k.slug h.slug;
}
  where
    last : Slugged f cwd b c → Slugged f cwd a b → Slugged f cwd a c
    last (inl same) first = subst (Slugged f cwd a) (sym same) first
    last (inr new) first = inr new

inject_for-IsInjected :
    (f : BrokerCatalogFacade) (name : String) (cwd : Option String) (d : Dict UpstreamConfig)
    (arguments : Dict Value)
    → IsInjected f.look cwd arguments (inject_for f name cwd d arguments)
unfolding inject_for
inject_for-IsInjected f name cwd [] arguments = same-IsInjected f.look cwd arguments
inject_for-IsInjected f name cwd ((key, u) ∷ rest) arguments =
    IsInjected-trans f
      (if-cases (IsInjected f.look cwd arguments) u.inject_cwd_project
        (λ _.
          inject_cwd_project-IsInjected f.look name arguments cwd (prefix_of u)
            (or_dot f.settings.tool_namespace_separator) u.inject_cwd_project_exclude)
        (λ _. same-IsInjected f.look cwd arguments))
      (inject_for-IsInjected f name cwd rest _)

-- Whatever upstreams ask for it, the facade changes no argument of a call but `project`. A `project`
-- that is a text with more than spaces stays as it is; where the arguments change, `project` becomes
-- the slug of the client's directory, which is not empty.
pub inject_cwd_project_arg-IsInjected :
    (f : BrokerCatalogFacade) (name : String) (arguments : Dict Value)
    → IsInjected f.look f.client_cwd arguments (inject_cwd_project_arg f name arguments)
unfolding inject_cwd_project_arg
inject_cwd_project_arg-IsInjected f name arguments = by_cwd f.client_cwd
  where
    by_cwd : (o : Option String) → IsInjected f.look o arguments (inject_given f name o arguments)
    by_cwd none = same-IsInjected f.look none arguments
    by_cwd (some cwd) =
        if-cases (IsInjected f.look (some cwd) arguments) (is_empty cwd)
          (λ _. same-IsInjected f.look (some cwd) arguments)
          (λ _. inject_for-IsInjected f name (some cwd) f.upstreams arguments)
