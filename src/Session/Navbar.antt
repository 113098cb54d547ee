-- ===== src/Session/Navbar.antt =====
-- The navigation bar, frontend/src/components/Navbar.jsx, and the landing page, pages/Landing.jsx,
-- which reads the token of localStorage.
use campus_compile.Base.{
  Bool, true, false, ◌&&◌, ◌||◌, str_eq, Option, none, some, List, [], ◌∷◌, ◌++◌, String, ◌≡◌, ◌↔◌,
  inl, inr, refl, arith, Option-cases, Bool-cases, is_truthy, if◌then◌else◌,
}
use campus_compile.Storage.{Storage, get_item}
use campus_compile.View.{View, link, button, label, shown_if}
use campus_compile.Session.Entry.{reload-token}
use campus_compile.Session.{AuthState, signed_out, initial_auth, Claims, reload, on_mount, user_of}
use campus_compile.Session.Routes.{
  Page, problem_list, contest_list, app_routes, path, children, protected_route,
}

pub data Msg : Type 0 where
  logout : Msg

-- `isLoggedIn && isOnboarded`.
unfoldable pub shows_links : AuthState → Bool
shows_links auth =
    auth.is_logged_in && elim auth.current_user [ none ↦ false | some user ↦ user.is_onboarded ]

unfoldable pub view : AuthState → List (View Msg)
unfolding shows_links
view auth =
    link "/" "CampusCompile"
      ∷ shown_if (shows_links auth) (link "/problems" "Problems" ∷ link "/contests" "Contests" ∷ [])
    ++ (if auth.is_logged_in then button "Logout" false logout else link "/login" "Sign In") ∷ []

-- Whether a page has a link to a path.
abbrev pub has_link : {M : Type 0} → String → List (View M) → Bool
has_link path [] = false
has_link path (link target name ∷ vs) = str_eq target path || has_link path vs
has_link path (_ ∷ vs) = has_link path vs

-- The landing page has links only.
unfoldable pub landing : Storage → List (View ⊥)
landing storage =
    label "Welcome to CampusCompile"
    ∷ label "The ultimate competitive programming arena for students and professors."
    ∷ (if is_truthy (get_item "token" storage)
        then link "/contests" "Contests" ∷ link "/problems" "Problems" ∷ []
        else link "/login" "Login" ∷ [])

view-has_link :
    (auth : AuthState)
    → (has_link (path problem_list) (view auth) ≡ shows_links auth)
      × (has_link (path contest_list) (view auth) ≡ shows_links auth)
unfolding view path
view-has_link auth = go (shows_links auth) auth.is_logged_in
  where
    go :
        (shown logged_in : Bool)
        → let bar : List (View Msg) =
            link "/" "CampusCompile"
              ∷ shown_if shown (link "/problems" "Problems" ∷ link "/contests" "Contests" ∷ [])
            ++ (if logged_in then button "Logout" false logout else link "/login" "Sign In") ∷ [] in
          (has_link "/problems" bar ≡ shown) × (has_link "/contests" bar ≡ shown)
    go true true = (refl, refl)
    go true false = (refl, refl)
    go false true = (refl, refl)
    go false false = (refl, refl)

unsigned :
    (decode : String → Option Claims) (page : Page) (auth : AuthState)
    → auth.token ≡ none
    → protected_route decode true page auth ≡ children page
    → ⊥
unfolding protected_route
unsigned decode page auth missing h = ground arith

module _ (decode : String → Option Claims) (storage : Storage) where
  reload-none : get_item "token" storage ≡ none → (reload decode storage).auth ≡ signed_out
  unfolding on_mount initial_auth
  reload-none missing = ground arith

  reload_empty :
      (token : String)
      → get_item "token" storage ≡ some token
      → is_truthy (some token) ≡ false
      → (reload decode storage).auth ≡ signed_out
  unfolding on_mount initial_auth
  reload_empty token found empty = ground arith

  reload_bad :
      (token : String)
      → get_item "token" storage ≡ some token
      → is_truthy (some token) ≡ true
      → decode token ≡ none
      → (reload decode storage).auth ≡ record signed_out { token = some token }
  unfolding on_mount initial_auth
  reload_bad token found full bad = ground arith

  bad_token :
      (token : String)
      → decode token ≡ none
      → (page : Page)
      → protected_route decode true page (record signed_out { token = some token }) ≡ children page
      → ⊥
  unfolding protected_route
  bad_token token bad page h = ground arith

  known :
      (token : String) (c : Claims)
      → is_truthy (some token) ≡ true
      → decode token ≡ some c
      → let auth : AuthState = record {
        token = some token;
        current_user = some (user_of c);
        is_logged_in = true;
        is_loading = false;
      } in
        (page : Page)
        → (shows_links auth ≡ true) ↔ (protected_route decode true page auth ≡ children page)
  unfolding shows_links protected_route user_of
  known token c full good page = (λ h. ground arith, λ h. ground arith)

  shows_links-protected :
      (page : Page)
      → let auth = (reload decode storage).auth in
        (shows_links auth ≡ true) ↔ (protected_route decode true page auth ≡ children page)
  unfolding shows_links
  shows_links-protected page = elim (Option-cases (get_item "token" storage)) [
    | inl missing ↦
        rw (reload-none missing) ((λ e. cc), λ h. elim (unsigned decode page signed_out refl h) [ ])
    | inr (token, found) ↦ elim (Bool-cases (is_truthy (some token))) [
      | inl full ↦ elim (Option-cases (decode token)) [
        | inl bad ↦
            rw (reload_bad token found full bad)
              ((λ e. cc), λ h. elim (bad_token token bad page h) [ ])
        | inr (c, good) ↦
            rw (reload-token decode storage token c found full good) (known token c full good page)
      ]
      | inr empty ↦
          rw (reload_empty token found empty)
            ((λ e. cc), λ h. elim (unsigned decode page signed_out refl h) [ ])
    ]
  ]

  -- After a page load, the bar has a link to the list of problems exactly when its route renders that
  -- list, and a link to the list of contests exactly when its route renders that one.
  pub shows_links-app_routes :
      let auth = (reload decode storage).auth in
      ((has_link (path problem_list) (view auth) ≡ true)
        ↔ (app_routes decode problem_list auth ≡ children problem_list))
      × ((has_link (path contest_list) (view auth) ≡ true)
          ↔ (app_routes decode contest_list auth ≡ children contest_list))
  unfolding app_routes
  shows_links-app_routes =
      let (problems, contests) = view-has_link (reload decode storage).auth in
      (
        rw problems (shows_links-protected problem_list),
        rw contests (shows_links-protected contest_list),
      )
