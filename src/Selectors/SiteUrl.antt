-- ===== src/Selectors/SiteUrl.antt =====
-- The base path of the site: `getSiteURL` and the routes made of it in webapp/src/selectors.js.
use Prim.Native.String
use Prim.Native.String.{[] as nil, ◌∷◌ as cons}
use text.Mathlib.TextLemmas.{cons-append, cons-ne-nil}
use okrbest_plugin_todo.Common.{
  String, Option, some, [], ◌∷◌, true, false, ◌≡◌, ◌≢◌, ◌⊎◌, refl, ap, eq_iff, concat, arith,
}
use okrbest_plugin_todo.Model.{plugin_id}
use okrbest_plugin_todo.Selectors.{
  GlobalState, ends_with_slash, drop_last, without_slash, get_site_url, get_plugin_server_route,
}

-- A slash at the end is found, and dropping it gives back what stood before it.
ends_with_slash-append : (s : String) → ends_with_slash (String.◌++◌ s "/") ≡ true
unfolding ends_with_slash
ends_with_slash-append nil = refl
ends_with_slash-append (cons c nil) = rw cons-append
ends_with_slash-append (cons c (cons d s)) =
    rw (cons-append, cons-append) (rw cons-append at (ends_with_slash-append (cons d s)))

drop_last-append : (s : String) → drop_last (String.◌++◌ s "/") ≡ s
unfolding drop_last
drop_last-append nil = refl
drop_last-append (cons c nil) = rw cons-append
drop_last-append (cons c (cons d s)) =
    rw (cons-append, cons-append) (ap (cons c) (rw cons-append at (drop_last-append (cons d s))))

append-slash-ne-nil : (s : String) → String.◌++◌ s "/" ≢ ""
append-slash-ne-nil nil e = ground (arith, eq_iff "/" "")
append-slash-ne-nil (cons c s) e = cons-ne-nil c _ (rw cons-append at e)

module _ (pathname : String → Option String) where
  without_slash-plain : (s : String) → ends_with_slash s ≡ false → without_slash pathname s ≡ s
  unfolding without_slash
  without_slash-plain s h = ground arith

  without_slash-append : (s : String) → without_slash pathname (String.◌++◌ s "/") ≡ s
  unfolding without_slash
  without_slash-append s = ground (
    arith,
    ends_with_slash-append s,
    drop_last-append s,
    append-slash-ne-nil s,
    eq_iff (String.◌++◌ s "/") "",
  )

  -- If the path of the configured SiteURL is `base`, with no slash at its end, or `base` followed
  -- by a slash, then `getSiteURL` gives `base`, and the route to the server is `base` followed by
  -- `/plugins/` and the plugin's id: a slash at the end of the SiteURL makes no difference.
  pub get_site_url_base :
      (state : GlobalState) (url base : String)
      → state.site_url ≡ some url
      → url ≢ ""
      → ends_with_slash base ≡ false
      → (pathname url ≡ some base) ⊎ (pathname url ≡ some (String.◌++◌ base "/"))
      → (get_site_url pathname state ≡ some base)
        × (get_plugin_server_route pathname state
            ≡ some (concat (base ∷ "/plugins/" ∷ plugin_id ∷ [])))
  unfolding get_site_url get_plugin_server_route
  get_site_url_base state url base h ne plain p =
      ground (arith, eq_iff url "", without_slash-plain base plain, without_slash-append base)
