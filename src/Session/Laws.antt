-- ===== src/Session/Laws.antt =====
-- Who sees which page, and where a visitor who may not see it ends.
use campus_compile.Base.{
  Bool, true, false, Option, none, some, Option-cases, inl, inr, String, ◌≡◌, ◌↔◌, refl, arith,
  is_truthy,
}
use campus_compile.Session.{Claims, AuthState}
use campus_compile.Session.Routes.{
  Page, landing, login, oauth_success, children, redirect, protected_route, app_routes, is_public,
  needs_onboarding,
}

module _ (decode : String → Option Claims) where
  pub guarded_route :
      (page : Page) (auth : AuthState)
      → is_public page ≡ false
      → app_routes decode page auth ≡ protected_route decode (needs_onboarding page) page auth
  unfolding app_routes
  guarded_route landing auth h = cc
  guarded_route login auth h = cc
  guarded_route oauth_success auth h = cc
  guarded_route _ auth h = refl

  protected_iff :
      (require : Bool) (page : Page) (auth : AuthState) (token : String)
      → auth.token ≡ some token
      → (protected_route decode require page auth ≡ children page) ↔ (
          (auth.is_loading ≡ false)
          × (is_truthy (some token) ≡ true)
          × ((c : Claims) × (decode token ≡ some c) × (c.is_onboarded ≡ require)))
  unfolding protected_route
  protected_iff require page auth token held =
      (λ h. (ground arith, ground arith, ground arith), λ h. ground arith)

  unsigned :
      (require : Bool) (page : Page) (auth : AuthState)
      → auth.token ≡ none
      → protected_route decode require page auth ≡ children page
      → ⊥
  unfolding protected_route
  unsigned require page auth missing h = ground arith

  -- A page behind the guard is rendered exactly when the session has settled, there is a token, it
  -- is not empty and decodes, and the claims agree with the page: the onboarding page is for a user who is
  -- not onboarded, every other guarded page for one who is.
  pub children_iff :
      (page : Page) (auth : AuthState)
      → is_public page ≡ false
      → (app_routes decode page auth ≡ children page) ↔ (
          (auth.is_loading ≡ false)
          × ((token : String) × (auth.token ≡ some token)
              × (is_truthy (some token) ≡ true)
              × ((c : Claims) × (decode token ≡ some c)
                  × (c.is_onboarded ≡ needs_onboarding page))))
  children_iff page auth guarded =
      let require = needs_onboarding page in
      rw (guarded_route page auth guarded) (
        λ h. elim (Option-cases auth.token) [
          | inl missing ↦ elim (unsigned require page auth missing h) [ ]
          | inr (token, held) ↦
              let (l, full, good) = (protected_iff require page auth token held).0 h in
              (l, (token, held, full, good))
        ],
        λ (l, (token, held, full, good)).
            (protected_iff require page auth token held).1 (l, full, good),
      )

  -- One redirect suffices: once the session has settled, the page that the guard sends the visitor
  -- to is rendered, whatever page was asked for.
  pub redirect_settles :
      (page target : Page) (auth : AuthState)
      → app_routes decode page auth ≡ redirect target
      → app_routes decode target auth ≡ children target
  unfolding app_routes
  redirect_settles landing target auth h = ground arith
  redirect_settles page target auth h = ground arith
