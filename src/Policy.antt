-- ===== src/Policy.antt =====
-- Which capability a request needs, and which paths need no token:
-- backend/ontology_platform/access_policy.py. A path is the list of its code points. Whether a
-- compiled regular expression matches is the parameter `matches`, since `re` is not the
-- program's; the table `RULES` is a list of rules like any other here.
pub mod Prefix
pub mod Match
use Prim.Native.Char.{code}
use Prim.Native.String
use Prim.Native.String.{String}
use aletheia_onto.Base.{
  ℕ, Bool, true, false, not, ◌&&◌, ◌||◌, List, [], ◌∷◌, ◌++◌, ◌==◌, if◌then◌else◌, Text, any, find,
  Option, none, some, contains,
}

abbrev pub Route : Type 0
Route = List ℕ

abbrev pub codes : String → Route
codes String.[] = []
codes (String.◌∷◌ c s) = code c ∷ codes s

unfoldable pub same_route : Route → Route → Bool
same_route [] [] = true
same_route [] (b ∷ q) = false
same_route (a ∷ p) [] = false
same_route (a ∷ p) (b ∷ q) = (a == b) && same_route p q

-- `path[len(prefix):]` if `path.startswith(prefix)`
unfoldable pub after_prefix : Route → Route → Option Route
after_prefix [] p = some p
after_prefix (a ∷ prefix) [] = none
after_prefix (a ∷ prefix) (b ∷ p) = if a == b then after_prefix prefix p else none

unfoldable pub starts_with : Route → Route → Bool
starts_with prefix p = elim (after_prefix prefix p) [ none ↦ false | some _ ↦ true ]

abbrev pub slash : ℕ
slash = b'/'

abbrev pub root : Route
root = slash ∷ []

-- `VERSION_PREFIXES` and `API_PREFIXES`
abbrev pub transport_prefixes : List Route
transport_prefixes = codes "/v1" ∷ codes "/api" ∷ []

-- One round of the loop of `strip_version_prefix`; what follows the prefix still has its slash.
unfoldable pub strip_one : Route → Route → Option Route
strip_one prefix p = elim (after_prefix prefix p) [
  | none ↦ none
  | some [] ↦ some root
  | some (c ∷ rest) ↦ if c == slash then some (c ∷ rest) else none
]

unfoldable pub strip_from : List Route → Route → Route
strip_from [] p = p
strip_from (prefix ∷ prefixes) p = elim (strip_one prefix p) [
  | none ↦ strip_from prefixes p
  | some q ↦ q
]

unfoldable pub strip_version_prefix : Route → Route
strip_version_prefix p = strip_from transport_prefixes p

-- `path.rstrip("/")`
unfoldable pub strip_slashes : Route → Route
strip_slashes [] = []
strip_slashes (c ∷ p) = elim (strip_slashes p) [
  | [] ↦ if c == slash then [] else c ∷ []
  | d ∷ q ↦ c ∷ d ∷ q
]

-- `path.rstrip("/") or "/"`
unfoldable pub strip_or_root : Route → Route
strip_or_root p = elim (strip_slashes p) [ [] ↦ root | c ∷ q ↦ c ∷ q ]

-- `strip_version_prefix(path).rstrip("/") or "/"`
unfoldable pub normalize : Route → Route
normalize p = strip_or_root (strip_version_prefix p)

abbrev pub public_paths : List Route
public_paths =
    codes "/"
    ∷ codes "/health"
    ∷ codes "/auth/login"
    ∷ codes "/auth/sso/login"
    ∷ codes "/docs"
    ∷ codes "/redoc"
    ∷ codes "/openapi.json"
    ∷ codes "/docs/oauth2-redirect"
    ∷ codes "/metrics"
    ∷ []

-- `normalized in PUBLIC_PATHS or normalized.startswith("/docs")`
unfoldable pub is_listed : Route → Bool
is_listed q = any (same_route q) public_paths || starts_with (codes "/docs") q

-- `path == prefix or path.startswith(prefix + "/")`
unfoldable pub is_under : Route → Route → Bool
is_under p prefix = same_route p prefix || starts_with (prefix ++ slash ∷ []) p

unfoldable pub is_browser_shell : Route → Bool
is_browser_shell p =
    same_route p root
    || same_route p (codes "/admin")
    || starts_with (codes "/admin/") p
    || starts_with (codes "/assets/") p

unfoldable pub is_public : Route → Bool
is_public p =
    if is_listed (normalize p)
    then true
    else (if any (is_under p) transport_prefixes
        then false
        else if is_under p (codes "/admin/backup")
        then false
        else is_browser_shell p)

pub data Capability : Type 0 where
  cap_read cap_write cap_execute cap_review cap_publish cap_admin : Capability

-- A method is a `Text`, in upper case; a compiled pattern is a `Text` too.
pub record Rule : Type 0 where
  pub methods : List Text
  pub pattern : Text
  pub capability : Capability
  pub description : Text

module _ (matches : Text → Route → Bool) where
  unfoldable pub applies : Text → Route → Rule → Bool
  applies method q rule = contains method rule.methods && matches rule.pattern q

  -- The loop of `required_capability`, over the path as it was normalised.
  unfoldable pub first_capability : List Rule → Text → Route → Capability
  first_capability rules method q = elim (find (applies method q) rules) [
    | none ↦ cap_admin
    | some rule ↦ rule.capability
  ]

  -- `method` has gone through `upper()`.
  unfoldable pub required_capability : List Rule → List Rule → Text → Route → Capability
  unfolding first_capability
  required_capability plugin builtin method p =
      first_capability (plugin ++ builtin) method (normalize p)

unfoldable pub same_methods : List Text → List Text → Bool
same_methods [] [] = true
same_methods [] (b ∷ bs) = false
same_methods (a ∷ as') [] = false
same_methods (a ∷ as') (b ∷ bs) = (a == b) && same_methods as' bs

-- The loop of `register_route_policy`. A set of methods is a list in one fixed order.
unfoldable pub register : Rule → List Rule → List Rule
register rule [] = rule ∷ []
register rule (existing ∷ rules) =
    if (existing.pattern == rule.pattern) && same_methods existing.methods rule.methods
    then rule ∷ rules
    else existing ∷ register rule rules
