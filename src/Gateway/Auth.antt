-- ===== src/Gateway/Auth.antt =====
-- GatewayAuthGuard and AdminGuard (apps/gateway/src/auth/gateway-auth.guard.ts, admin.guard.ts), and
-- Session.create (libs/shared-kernel/src/session). The strategies of Passport and the random id of a
-- session are parameters; the headers are given in small letters and as they were sent.
pub mod Laws
use public_nest_server.Base.{
  ℕ, Option, none, some, or_else, String, Bool, true, false, not, text_eq, ◌&&◌, if◌then◌else◌,
  Result, ok, err, ⊤,
}
use public_nest_server.Qa.Rewriter.{starts_with}

pub record Session : Type 0 where
  pub id : String
  pub uuid : String
  pub nick_name : Option String
  pub game_db_id : ℕ
  pub database : String

-- `request.user`, as a strategy leaves it
pub record User : Type 0 where
  pub uuid : Option String
  pub nick_name : Option String
  pub name : Option String
  pub id : Option ℕ
  pub email : Option String
  pub activated_at : Option ℕ
  -- the same object, taken as a session
  pub session : Session

pub data AuthType : Type 0 where
  jwt : AuthType
  basic : AuthType
  api_key : AuthType

pub data Refusal : Type 0 where
  unauthorized : String → Refusal
  forbidden_admin : Refusal

-- a header that is there and not empty
abbrev pub given : Option String → Option String
given none = none
given (some h) = if text_eq h "" then none else some h

module _ (to_lower : String → String) where
  abbrev pub scheme_of : String → Result Refusal AuthType
  scheme_of header =
      if starts_with (to_lower header) "bearer "
      then ok jwt
      else (if starts_with (to_lower header) "basic "
          then ok basic
          else err (unauthorized "Unsupported authorization scheme"))

  abbrev pub bearer_of : Option String → Result Refusal AuthType
  bearer_of none = err (unauthorized "Authentication credentials missing")
  bearer_of (some header) = scheme_of header

  -- the strategy of a request: an API key goes before an authorization
  abbrev pub chosen : Option String → Option String → Result Refusal AuthType
  chosen (some key) auth_header = ok api_key
  chosen none auth_header = bearer_of (given auth_header)

  unfoldable pub auth_type_of : Option String → Option String → Result Refusal AuthType
  auth_type_of api_key_header auth_header = chosen (given api_key_header) auth_header

-- `String(user.id)`
abbrev pub user_id_text : (ℕ → String) → Option ℕ → String
user_id_text show none = "undefined"
user_id_text show (some i) = show i

module _ (show : ℕ → String) (new_id : String) where
  -- the session of a request
  unfoldable pub session_of : AuthType → User → Session
  session_of basic user = user.session
  session_of jwt user = record {
    id = new_id;
    uuid = or_else user.uuid (user_id_text show user.id);
    nick_name = elim user.nick_name [ none ↦ user.name | some n ↦ some n ];
    game_db_id = or_else user.id 0;
    database = "game_db";
  }
  session_of api_key user = record {
    id = new_id;
    uuid = "api-key-user";
    nick_name = some "ApiKeySystem";
    game_db_id = 0;
    database = "game_db";
  }

  abbrev pub established : AuthType → Option User → Result Refusal (Option Session)
  established type none = err (unauthorized "User session could not be established")
  established type (some user) = ok (some (session_of type user))

  -- the strategy: its message if it throws, whether it lets the request pass, and the user
  abbrev pub passed :
      AuthType → Result String (Bool × Option User) → Result Refusal (Option Session)
  passed type (err message) = err (unauthorized message)
  passed type (ok (false, user)) = err (unauthorized "Unauthorized")
  passed type (ok (true, user)) = established type user

  abbrev pub run_strategy :
      (AuthType → Result String (Bool × Option User))
      → Result Refusal AuthType
      → Result Refusal (Option Session)
  run_strategy strategy (err refusal) = err refusal
  run_strategy strategy (ok type) = passed type (strategy type)

  -- `canActivate`: the session that the request gets, if it gets one
  unfoldable pub can_activate :
      (String → String)
      → (AuthType → Result String (Bool × Option User))
      → Bool
      → Option String
      → Option String
      → Result Refusal (Option Session)
  unfolding auth_type_of session_of
  can_activate to_lower strategy is_public api_key_header auth_header =
      if is_public
      then ok none
      else run_strategy strategy (auth_type_of to_lower api_key_header auth_header)

-- `AdminGuard.canActivate`
abbrev pub email_of : User → Option String
email_of user = given user.email

abbrev pub is_active : Option ℕ → Bool
is_active none = false
is_active (some date) = true

abbrev pub is_some_text : Option String → Bool
is_some_text none = false
is_some_text (some t) = true

unfoldable pub admin_can_activate : Option User → Result Refusal ⊤
admin_can_activate none = err forbidden_admin
admin_can_activate (some user) =
    if is_some_text (email_of user) && is_active user.activated_at
    then ok tt
    else err forbidden_admin
