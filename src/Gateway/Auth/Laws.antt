-- ===== src/Gateway/Auth/Laws.antt =====
-- Which requests the guard lets pass, and with which session.
use mathlib.Core.Path.{subst}
use public_nest_server.Base.{
  ℕ, Option, none, some, String, Bool, true, false, Result, ok, err, ◌≡◌, refl, arith, inl, inr,
  Result-cases, Option-cases, ap, sym, ◌∙◌,
}
use public_nest_server.Qa.Rewriter.{starts_with}
use public_nest_server.Gateway.Auth.{
  Session, User, AuthType, jwt, basic, api_key, given, scheme_of, bearer_of, chosen, auth_type_of,
  session_of, passed, run_strategy, can_activate,
}

err_not_ok : {E A : Type 0} {e : E} {a : A} → Path (Result E A) (err e) (ok a) → ⊥
err_not_ok h = ground arith

module _ (to_lower : String → String) where
  -- The strategy that the headers choose: an API key where its header is given, else the one that
  -- the scheme of the authorization names.
  abbrev pub IsChosen : Option String → Option String → AuthType → Type 0
  IsChosen api_key_header auth_header api_key = (key : String) × (given api_key_header ≡ some key)
  IsChosen api_key_header auth_header jwt =
      (given api_key_header ≡ none)
      × ((header : String) × (given auth_header ≡ some header)
          × (starts_with (to_lower header) "bearer " ≡ true))
  IsChosen api_key_header auth_header basic =
      (given api_key_header ≡ none)
      × ((header : String) × (given auth_header ≡ some header)
          × (starts_with (to_lower header) "bearer " ≡ false)
          × (starts_with (to_lower header) "basic " ≡ true))

  scheme_of-IsChosen :
      (header : String) (type : AuthType) (api_key_header auth_header : Option String)
      → given api_key_header ≡ none
      → given auth_header ≡ some header
      → scheme_of to_lower header ≡ ok type
      → IsChosen api_key_header auth_header type
  scheme_of-IsChosen header jwt api_key_header auth_header no_key here h =
      (no_key, (header, here, ground arith))
  scheme_of-IsChosen header basic api_key_header auth_header no_key here h =
      (no_key, (header, here, ground arith, ground arith))
  scheme_of-IsChosen header api_key api_key_header auth_header no_key here h = absurd (ground arith)

  auth_type_of-IsChosen :
      (api_key_header auth_header : Option String) (type : AuthType)
      → auth_type_of to_lower api_key_header auth_header ≡ ok type
      → IsChosen api_key_header auth_header type
  unfolding auth_type_of
  auth_type_of-IsChosen api_key_header auth_header type h =
      elim (Option-cases (given api_key_header)) [
        | inr (key, here) ↦
            let same : type ≡ api_key = ground arith in
            subst (IsChosen api_key_header auth_header) (sym same) (key, here)
        | inl no_key ↦ elim (Option-cases (given auth_header)) [
          | inl no_header ↦ absurd (ground arith)
          | inr (header, here) ↦
              scheme_of-IsChosen header type api_key_header auth_header no_key here (
                ap (bearer_of to_lower) (sym here)
                ∙ ap (λ o. chosen to_lower o auth_header) (sym no_key)
                ∙ h)
        ]
      ]

  module _ (show : ℕ → String) (new_id : String)
      (strategy : AuthType → Result String (Bool × Option User)) where
    -- The session that a strategy gives to a user: the user's own of basic; of a token a new one in
    -- the name of the user, and of an API key a new one of the system.
    abbrev pub IsSessionOf : AuthType → User → Session → Type 0
    IsSessionOf basic user session = session ≡ user.session
    IsSessionOf jwt user session =
        (session.id ≡ new_id)
        × ((uuid : String) → user.uuid ≡ some uuid → session.uuid ≡ uuid)
        × ((i : ℕ) → user.uuid ≡ none → user.id ≡ some i → session.uuid ≡ show i)
        × ((nick : String) → user.nick_name ≡ some nick → session.nick_name ≡ some nick)
        × (user.nick_name ≡ none → session.nick_name ≡ user.name)
    IsSessionOf api_key user session =
        (session.id ≡ new_id)
        × (session.uuid ≡ "api-key-user")
        × (session.nick_name ≡ some "ApiKeySystem")

    session_of-IsSessionOf :
        (type : AuthType) (user : User) → IsSessionOf type user (session_of show new_id type user)
    unfolding session_of
    session_of-IsSessionOf basic user = refl
    session_of-IsSessionOf api_key user = (refl, refl, refl)
    session_of-IsSessionOf jwt user =
        (refl, λ uuid h. rw h refl, λ i h h'. rw (h, h') refl, λ nick h. rw h refl, λ h. rw h refl)

    -- What a request that passes is: one of a public route, or one whose strategy has let it pass
    -- with a user, whose session it gets.
    abbrev pub IsAdmitted : Bool → Option String → Option String → Option Session → Type 0
    IsAdmitted is_public api_key_header auth_header none = is_public ≡ true
    IsAdmitted is_public api_key_header auth_header (some session) =
        (is_public ≡ false)
        × ((type : AuthType) × (user : User) × IsChosen api_key_header auth_header type
            × (strategy type ≡ ok (true, some user))
            × IsSessionOf type user session)

    passed-some :
        (type : AuthType) (p : Result String (Bool × Option User)) (session : Option Session)
        → passed show new_id type p ≡ ok session
        → (user : User) × (p ≡ ok (true, some user))
          × (session ≡ some (session_of show new_id type user))
    passed-some type (err message) session h = absurd (ground arith)
    passed-some type (ok (false, user)) session h = absurd (ground arith)
    passed-some type (ok (true, none)) session h = absurd (ground arith)
    passed-some type (ok (true, some user)) session h = (user, refl, ground arith)

    -- A request passes the guard only if its route is public, or if the strategy that its headers
    -- choose has let it pass and found a user: an API key where its header is given, else the one
    -- that the scheme of the authorization names. It then gets the session that came with the user
    -- from basic, a new one in the user's name from a token, and a new one of the system from an
    -- API key.
    pub can_activate-IsAdmitted :
        (is_public : Bool) (api_key_header auth_header : Option String) (session : Option Session)
        → can_activate show new_id to_lower strategy is_public api_key_header auth_header
          ≡ ok session
        → IsAdmitted is_public api_key_header auth_header session
    unfolding can_activate
    can_activate-IsAdmitted true api_key_header auth_header session h =
        let none_given : session ≡ none = ground arith in
        subst (IsAdmitted true api_key_header auth_header) (sym none_given) refl
    can_activate-IsAdmitted false api_key_header auth_header session h =
        elim (Result-cases (auth_type_of to_lower api_key_header auth_header)) [
          | inr (refusal, e) ↦
              absurd (err_not_ok (ap (run_strategy show new_id strategy) (sym e) ∙ h))
          | inl (type, e) ↦
              let (user, admitted, same) =
                passed-some type (strategy type) session
                  (ap (run_strategy show new_id strategy) (sym e) ∙ h) in
              subst (IsAdmitted false api_key_header auth_header) (sym same) (
                refl,
                (
                  type,
                  user,
                  auth_type_of-IsChosen api_key_header auth_header type e,
                  admitted,
                  session_of-IsSessionOf type user,
                ),
              )
        ]
