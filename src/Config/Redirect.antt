-- ===== src/Config/Redirect.antt =====
-- `GetPackageRedirect` of internal/configstore/configstore.go.
use Prim.Native.String.{len, slice}
use text.Mathlib.TextPositions.{starts_with-append}
use kubocd.Common.Text.{slice_rest}
use kubocd.Common.{String, ◌<>◌, ◌≡◌, refl, false, Option, none, some, List, [], ◌∷◌, ◌++◌}
use kubocd.Common.{All, ◌==◌, string_eq, if◌then◌else◌, ap}
use text.Mathlib.Text.{starts_with}
use kubocd.Config.Spec.{PackageRedirectSpec}

-- The URL that a redirect whose old prefix fits gives.
redirected : PackageRedirectSpec → String → String
redirected r old_url =
    if r.new_prefix == ""
    then old_url
    else r.new_prefix <> slice old_url (len r.old_prefix) (len old_url)

unfoldable pub get_package_redirect :
    List PackageRedirectSpec → String → Option PackageRedirectSpec × String
unfolding redirected
get_package_redirect [] old_url = (none, old_url)
get_package_redirect (r ∷ redirects) old_url =
    if starts_with old_url r.old_prefix
    then (some r, redirected r old_url)
    else get_package_redirect redirects old_url

-- No old prefix of the list fits the URL.
abbrev pub NoneFits : String → List PackageRedirectSpec → Type 0
NoneFits url = All (λ (r : PackageRedirectSpec). starts_with url r.old_prefix ≡ false)

-- Where no prefix fits, the URL stays and no redirect is told.
pub get_package_redirect-none :
    (redirects : List PackageRedirectSpec) (url : String)
    → NoneFits url redirects
    → get_package_redirect redirects url ≡ (none, url)
unfolding get_package_redirect
get_package_redirect-none [] url h = refl
get_package_redirect-none (r ∷ redirects) url h =
    rw h.0 (get_package_redirect-none redirects url h.1)

redirected-append :
    (r : PackageRedirectSpec) (rest : String)
    → redirected r (r.old_prefix <> rest)
      ≡ (if r.new_prefix == "" then r.old_prefix <> rest else r.new_prefix <> rest)
unfolding redirected
redirected-append r rest =
    ap (λ u. if r.new_prefix == "" then r.old_prefix <> rest else r.new_prefix <> u)
      (slice_rest r.old_prefix rest)

-- The first redirect whose old prefix fits decides, whatever follows it: the rest of the URL
-- stays, and the prefix is replaced, unless the new prefix is empty.
pub get_package_redirect_first :
    (before after : List PackageRedirectSpec) (r : PackageRedirectSpec) (rest : String)
    → NoneFits (r.old_prefix <> rest) before
    → get_package_redirect (before ++ (r ∷ after)) (r.old_prefix <> rest)
      ≡ (some r, if r.new_prefix == "" then r.old_prefix <> rest else r.new_prefix <> rest)
unfolding get_package_redirect
get_package_redirect_first [] after r rest h =
    rw (starts_with-append r.old_prefix rest) (ap (λ u. (some r, u)) (redirected-append r rest))
get_package_redirect_first (b ∷ before) after r rest h =
    rw h.0 (get_package_redirect_first before after r rest h.1)
