-- ===== src/AuthApp/Router.antt =====
-- frontend-auth/src/router/index.ts: the routes and the guard of every navigation.
use synkro.Base.{
  ℕ, zero, suc, String, Bool, true, false, not, ◌&&◌, Option, none, some, ◌≡◌, refl, code, eqb,
  if◌then◌else◌, arith,
}
use Prim.Native.String.{[], ◌∷◌}

-- `not_found path` is the route of every path that no other route has.
pub data Route : Type 0 where
  root login register logout profile validate_token : Route
  not_found : String → Route

abbrev pub path : Route → String
path root = "/"
path login = "/login"
path register = "/register"
path logout = "/logout"
path profile = "/profile"
path validate_token = "/api/validate-token"
path (not_found p) = p

-- `redirect` of the route `/`
abbrev pub redirect : Route → Route
redirect root = login
redirect r = r

abbrev pub requires_auth : Route → Bool
requires_auth profile = true
requires_auth _ = false

abbrev pub requires_guest : Route → Bool
requires_guest login = true
requires_guest register = true
requires_guest _ = false

-- `text.startsWith(prefix)`
abbrev pub starts_with : String → String → Bool
starts_with text [] = true
starts_with [] (c ∷ prefix) = false
starts_with (d ∷ text) (c ∷ prefix) = eqb (code d) (code c) && starts_with text prefix

-- what the guard passes to `next`
pub data Next : Type 0 where
  proceed : Next
  go : Route → Next

-- `router.beforeEach`, with `authStore.isAuthenticated`
pub before_each : Bool → Route → Next
before_each authenticated to =
    if starts_with (path to) "/api/"
    then proceed
    else if requires_auth to && not authenticated
    then go login
    else if requires_guest to && authenticated
    then go profile
    else proceed

-- A navigation: the guard runs again for the route that it names. The fuel bounds the redirections.
pub navigate : ℕ → Bool → Route → Option Route
unfolding before_each
navigate zero authenticated to = none
navigate (suc n) authenticated to = elim (before_each authenticated (redirect to)) [
  | proceed ↦ some (redirect to)
  | go r ↦ navigate n authenticated r
]

-- The page is one that the visitor may see.
abbrev pub IsAllowed : Bool → Route → Type 0
IsAllowed authenticated r =
    (requires_auth r ≡ true → authenticated ≡ true)
    × (requires_guest r ≡ true → authenticated ≡ false)

-- Every navigation ends at a page, after two runs of the guard at most, and the page is one that
-- the visitor may see: the profile only if authenticated, login and registration only if not.
pub navigate-IsAllowed :
    (n : ℕ) (authenticated : Bool) (to : Route)
    → (page : Route) × (navigate (suc (suc n)) authenticated to ≡ some page)
      × IsAllowed authenticated page
unfolding navigate
navigate-IsAllowed n true root = (profile, refl, (λ e. refl, λ e. cc))
navigate-IsAllowed n true login = (profile, refl, (λ e. refl, λ e. cc))
navigate-IsAllowed n true register = (profile, refl, (λ e. refl, λ e. cc))
navigate-IsAllowed n true logout = (logout, refl, (λ e. refl, λ e. cc))
navigate-IsAllowed n true profile = (profile, refl, (λ e. refl, λ e. cc))
navigate-IsAllowed n true validate_token = (validate_token, refl, (λ e. refl, λ e. cc))
navigate-IsAllowed n true (not_found p) = (not_found p, ground arith, (λ e. refl, λ e. cc))
navigate-IsAllowed n false root = (login, refl, (λ e. cc, λ e. refl))
navigate-IsAllowed n false login = (login, refl, (λ e. cc, λ e. refl))
navigate-IsAllowed n false register = (register, refl, (λ e. cc, λ e. refl))
navigate-IsAllowed n false logout = (logout, refl, (λ e. cc, λ e. refl))
navigate-IsAllowed n false profile = (login, refl, (λ e. cc, λ e. refl))
navigate-IsAllowed n false validate_token = (validate_token, refl, (λ e. cc, λ e. refl))
navigate-IsAllowed n false (not_found p) = (not_found p, ground arith, (λ e. cc, λ e. refl))
