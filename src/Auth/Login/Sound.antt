-- ===== src/Auth/Login/Sound.antt =====
-- What a session of src/auth/login.rs rests on.
use openfortivpn_rs.Common.{
  Bool-cases, inl, inr, ◌⊎◌, ◌==◌, ==_iff, Option, none, some, List, [], ◌∷◌, ◌≡◌, refl, sym, ap,
  subst, not, ◌&&◌, ◌∙◌,
}
use openfortivpn_rs.Common.Bytes.{Bytes, codes}
use openfortivpn_rs.Common.Error.{Result, ok, err, ok_or, OpenfortivpnError, auth, text}
use openfortivpn_rs.Common.Text.{is_empty}
use openfortivpn_rs.NetPlan.{is_some}
use openfortivpn_rs.Config.Settings.{Text, Config}
use openfortivpn_rs.Http.{HttpResponse, Headers, unwrap_or}
use openfortivpn_rs.Http.Cookies.{svpn_cookie, cookie_header}
use openfortivpn_rs.Auth.Login.Pages.{
  get_value, action_url, otp_challenge_form, validate_auth_response,
}
use openfortivpn_rs.Auth.Login.Bodies.{
  Env, body_text, encode, otp_value_with_purpose, initial_login_body, otp_login_body,
}
use openfortivpn_rs.Auth.Login.Allows.{BodyAllows, validate-BodyAllows}
use openfortivpn_rs.Auth.Login.{
  AuthSession, Request, Web, Io, and_then, lift, ask, ensure_status_ok_for_path, post_logincheck,
  post_form, hostcheck_action, finish_authenticated_response, try_otp_challenge, checked,
  first_request, challenge, second_factor, log_in, authenticate, authenticate_by, no_cookie,
}

-- A step that succeeds did so by steps that did.
pub and_then_inv :
    {A B : Type 0} (r : Result A × Web) (rest : A → Io B) (b : B) (web : Web)
    → and_then r rest ≡ (ok b, web)
    → (a : A) × (web' : Web) × (r ≡ (ok a, web')) × (rest a web' ≡ (ok b, web))
and_then_inv (ok a, web') rest b web h = (a, web', refl, h)
and_then_inv (err e, web') rest b web h = absurd (cc h)

ok_inv : {A : Type 0} {a b : A} → ok a ≡ ok b → a ≡ b
ok_inv h = cc h

lift_inv :
    {A : Type 0} (r : Result A) (a : A) (web web' : Web) → lift r web ≡ (ok a, web') → r ≡ ok a
lift_inv r a web web' h = ap (λ t. t.0) h

-- A response of the gateway that lets a session in: it has status 200, a body that allows it, and a
-- cookie of the tunnel.
pub record LetsIn (env : Env) (response : HttpResponse) (cookie : Text) : Type 0 where
  pub status : response.status_code ≡ 200
  pub allowed : BodyAllows (env.from_utf8 response.body)
  pub svpn : Text
  pub has_svpn : svpn_cookie response ≡ some svpn
  pub its_cookie : cookie ≡ unwrap_or (cookie_header response) svpn

status_inv :
    (path : Text) (response : HttpResponse)
    → ensure_status_ok_for_path path response ≡ ok tt
    → response.status_code ≡ 200
unfolding ensure_status_ok_for_path
status_inv path response h = elim (Bool-cases (response.status_code == 200)) [
  | inl e ↦ (==_iff response.status_code 200).0 e
  | inr e ↦ absurd (cc (rw e at h))
]

ok_or_inv :
    {A : Type 0} (o : Option A) (e : OpenfortivpnError) (a : A) → ok_or o e ≡ ok a → o ≡ some a
ok_or_inv none e a h = absurd (cc h)
ok_or_inv (some b) e a h = ap some (cc h)

abbrev cookie_of : Result AuthSession × Web → Text
cookie_of (ok session, web) = session.cookie
cookie_of (err e, web) = []

-- One of the gateway's answers.
abbrev pub Given : List (Result HttpResponse) → HttpResponse → Type 0
Given [] response = ⊥
Given (answer ∷ answers) response = (answer ≡ ok response) ⊎ Given answers response

-- Answers are only used up.
abbrev Uses : Web → Web → Type 0
Uses web web' = (response : HttpResponse) → Given web'.answers response → Given web.answers response

request_inv :
    (host method path : Text) (headers : Headers) (body : Bytes)
    (answers : List (Result HttpResponse)) (requests : List Request) (response : HttpResponse)
    (web' : Web)
    → ask host method path headers body (record { answers = answers; requests = requests })
      ≡ (ok response, web')
    → Given answers response × ((r : HttpResponse) → Given web'.answers r → Given answers r)
unfolding ask
request_inv host method path headers body [] requests response web' h = absurd (cc h)
request_inv host method path headers body (answer ∷ answers) requests response web' h =
    let left : web'.answers ≡ answers = ap (λ t. t.1.answers) (sym h) in
    (inl (ap (λ t. t.0) h), λ r given. inr (subst (λ t. Given t r) left given))

-- A response with its path, of `web` and accepted, and what is left.
record Accepted (env : Env) (web web' : Web) (response : HttpResponse) : Type 0 where
  given : Given web.answers response
  accepted : validate_auth_response (body_text env response) ≡ ok tt
  uses : Uses web web'

module _ (env : Env) (config : Config) where
  finish_inv :
      (response : HttpResponse) (web web' : Web) (session : AuthSession)
      → finish_authenticated_response env config response web ≡ (ok session, web')
      → (svpn : Text) × (svpn_cookie response ≡ some svpn)
        × (session.cookie ≡ unwrap_or (cookie_header response) svpn)
  unfolding finish_authenticated_response
  finish_inv response web web' session h =
      let (svpn, web₁, a, h₁) =
        and_then_inv (lift (ok_or (svpn_cookie response) no_cookie) web) _ session web' h in
      let (_, web₂, b, h₂) =
        and_then_inv
          (hostcheck_action env config (unwrap_or (cookie_header response) svpn)
            (action_url (body_text env response)) web₁)
          _ session web' h₁ in
      (
        svpn,
        ok_or_inv (svpn_cookie response) no_cookie svpn (ap (λ t. t.0) a),
        ap cookie_of (sym h₂),
      )

  checked_inv :
      (path : Text) (response : HttpResponse) (web web' : Web) (answer : Text × HttpResponse)
      → checked env path response web ≡ (ok answer, web')
      → (answer.1 ≡ response)
        × (web' ≡ web)
        × (validate_auth_response (body_text env response) ≡ ok tt)
  checked_inv path response web web' answer h =
      let (done, web₁, a, h₁) =
        and_then_inv (lift (validate_auth_response (body_text env response)) web) _ answer web' h in
      (
        ap (λ (t : Text × HttpResponse). t.1) (sym (ok_pair h₁)),
        ap (λ t. t.1) (sym h₁) ∙ ap (λ t. t.1) (sym a),
        ap (λ t. t.0) a,
      )
    where
      ok_pair : {p q : Text × HttpResponse} {w w' : Web} → lift (ok p) w ≡ (ok q, w') → p ≡ q
      ok_pair h =
          ap
            (λ (t : Result (Text × HttpResponse) × Web). elim t.0 as (λ r. Text × HttpResponse) [
              | ok x ↦ x
              | err e ↦ ([], record { status_code = 0; reason = []; headers = []; body = [] })
            ])
            h

  -- A request whose response is checked.
  asked_inv :
      (host method path path' : Text) (headers : Headers) (body : Bytes) (web web' : Web)
      (answer : Text × HttpResponse)
      → and_then (ask host method path headers body web) (checked env path') ≡ (ok answer, web')
      → Accepted env web web' answer.1
  asked_inv host method path path' headers body web web' answer h =
      let (response, web₁, a, h₁) =
        and_then_inv (ask host method path headers body web) (checked env path') answer web' h in
      let (given, uses) =
        request_inv host method path headers body web.answers web.requests response web₁ a in
      let (same, left, accepted) = checked_inv path' response web₁ web' answer h₁ in
      record {
        given = subst (Given web.answers) (sym same) given;
        accepted = ap (λ r. validate_auth_response (body_text env r)) same ∙ accepted;
        uses = λ r g. uses r (subst (λ (w : Web). Given w.answers r) left g);
      }

  first_request_inv :
      (web web' : Web) (first : Text × HttpResponse)
      → first_request env config web ≡ (ok first, web')
      → Accepted env web web' first.1
  unfolding first_request initial_login_body post_form
  first_request_inv web web' first h =
      elim (Bool-cases (is_empty config.username && not (is_some config.password))) [
        | inl e ↦ asked_inv _ _ _ _ _ _ web web' first (rw e at h)
        | inr e ↦ asked_inv _ _ _ _ _ _ web web' first (rw e at h)
      ]

  -- What uses up answers one after another.
  then-Accepted :
      (web web₁ web₂ : Web) (response : HttpResponse)
      → Uses web web₁
      → Accepted env web₁ web₂ response
      → Accepted env web web₂ response
  then-Accepted web web₁ web₂ response uses a = record {
    given = uses response a.given;
    accepted = a.accepted;
    uses = λ r g. uses r (a.uses r g);
  }

  posted_inv :
      (path body : Text) (web web' : Web) (response : HttpResponse)
      → post_form env config path body web ≡ (ok response, web')
      → Given web.answers response × Uses web web'
  unfolding post_form
  posted_inv path body web web' response h =
      request_inv _ _ path _ (env.as_bytes body) web.answers web.requests response web' h

  otp_inv :
      (response : HttpResponse) (web web' : Web) (answer : Text × HttpResponse)
      → try_otp_challenge env config response web ≡ (ok answer, web')
      → Given web.answers answer.1 × Uses web web'
  unfolding try_otp_challenge
  otp_inv response web web' answer h =
      let (body, web₁, a, h₁) =
        and_then_inv {A = Text}
          (lift
            (ok_or (env.from_utf8 response.body)
              (auth (text "OTP challenge response is not valid UTF-8" ∷ [])))
            web)
          _ answer web' h in
      let (form, web₂, b, h₂) =
        and_then_inv {A = Text × Text}
          (lift
            (otp_challenge_form (encode env) (otp_value_with_purpose env config (codes "otp"))
              config body)
            web₁)
          _ answer web' h₁ in
      let (r, web₃, c, h₃) =
        and_then_inv (post_form env config form.0 form.1 web₂) _ answer web' h₂ in
      let (given, uses) = posted_inv form.0 form.1 web₂ web₃ r c in
      let same : web₂ ≡ web = ap (λ t. t.1) (sym b) ∙ ap (λ t. t.1) (sym a) in
      let left : web' ≡ web₃ = ap (λ t. t.1) (sym h₃) in
      let it : r ≡ answer.1 = ap (λ (t : Text × HttpResponse). t.1) (ok_inv (ap (λ t. t.0) h₃)) in
      (
        subst (λ (w : Web). Given w.answers answer.1) same (subst (Given web₂.answers) it given),
        λ q g.
            subst (λ (w : Web). Given w.answers q) same
              (uses q (subst (λ (w : Web). Given w.answers q) left g)),
      )

  challenge_inv :
      (first : Text × HttpResponse) (web₀ web web' : Web) (answer : Text × HttpResponse)
      → Accepted env web₀ web first.1
      → challenge env config first web ≡ (ok answer, web')
      → Accepted env web₀ web' answer.1
  unfolding challenge
  challenge_inv first web₀ web web' answer was h = elim (Bool-cases (first.1.status_code == 401)) [
    | inl e ↦
        let (next, web₁, a, h₁) =
          and_then_inv (try_otp_challenge env config first.1 web) _ answer web' (rw e at h) in
        let (given, uses) = otp_inv first.1 web web₁ next a in
        let (same, left, accepted) = checked_inv next.0 next.1 web₁ web' answer h₁ in
        record {
          given = was.uses answer.1 (subst (Given web.answers) (sym same) given);
          accepted = ap (λ r. validate_auth_response (body_text env r)) same ∙ accepted;
          uses = λ r g. was.uses r (uses r (subst (λ (w : Web). Given w.answers r) left g));
        }
    | inr e ↦
        let kept : lift (ok first) web ≡ (ok answer, web') = rw e at h in
        let same : first.1 ≡ answer.1 =
          ap (λ (t : Text × HttpResponse). t.1) (ok_inv (ap (λ t. t.0) kept)) in
        let left : web' ≡ web = ap (λ t. t.1) (sym kept) in
        subst (λ r. Accepted env web₀ web' r) same
          (subst (λ w. Accepted env web₀ w first.1) (sym left) was)
  ]

  finish_LetsIn :
      (response : HttpResponse) (web web' : Web) (session : AuthSession)
      → response.status_code ≡ 200
      → validate_auth_response (body_text env response) ≡ ok tt
      → finish_authenticated_response env config response web ≡ (ok session, web')
      → LetsIn env response session.cookie
  finish_LetsIn response web web' session status accepted h =
      let (svpn, has, its) = finish_inv response web web' session h in
      record {
        status = status;
        allowed = validate-BodyAllows env response accepted;
        svpn = svpn;
        has_svpn = has;
        its_cookie = its;
      }

  -- What a session is made of.
  abbrev pub LetIn : Web → Text → Type 0
  LetIn web cookie =
      (response : HttpResponse) × Given web.answers response × LetsIn env response cookie

  second_factor_inv :
      (response : HttpResponse) (token : Option Text) (web₀ web web' : Web) (session : AuthSession)
      → Uses web₀ web
      → second_factor env config response token web ≡ (ok session, web')
      → LetIn web₀ session.cookie
  unfolding second_factor
  second_factor_inv response none web₀ web web' session uses h = absurd (cc h)
  second_factor_inv response (some token) web₀ web web' session uses h =
      let (body, web₁, a, h₁) =
        and_then_inv {A = Text}
          (lift (otp_login_body env config (body_text env response) token) web) _ session web' h in
      let (answer, web₂, b, h₂) =
        and_then_inv {A = HttpResponse} (post_logincheck env config body web₁) _ session web' h₁ in
      let (_, web₃, c, h₃) =
        and_then_inv {A = Unit {0}} (lift (validate_auth_response (body_text env answer)) web₂) _
          session web' h₂ in
      let (_, web₄, d, h₄) =
        and_then_inv {A = Unit {0}}
          (lift (ensure_status_ok_for_path (codes "/remote/logincheck") answer) web₃) _ session web'
          h₃ in
      let (given, _) = posted_inv (codes "/remote/logincheck") body web₁ web₂ answer b in
      let same : web₁ ≡ web = ap (λ t. t.1) (sym a) in
      (
        answer,
        uses answer (subst (λ (w : Web). Given w.answers answer) same given),
        elim (Bool-cases (is_some (svpn_cookie answer))) [
          | inl e ↦
              finish_LetsIn answer web₄ web' session
                (status_inv (codes "/remote/logincheck") answer (ap (λ t. t.0) d)) (ap (λ t. t.0) c)
                (rw e at h₄)
          | inr e ↦ absurd (cc (rw e at h₄))
        ],
      )

  log_in_sound :
      (web web' : Web) (session : AuthSession)
      → log_in env config web ≡ (ok session, web')
      → LetIn web session.cookie
  unfolding log_in
  log_in_sound web web' session h =
      let (first, web₁, a, h₁) = and_then_inv (first_request env config web) _ session web' h in
      let (answer, web₂, b, h₂) =
        and_then_inv (challenge env config first web₁) _ session web' h₁ in
      let (_, web₃, c, h₃) =
        and_then_inv {A = Unit {0}} (lift (ensure_status_ok_for_path answer.0 answer.1) web₂) _
          session web' h₂ in
      let was = challenge_inv first web web₁ web₂ answer (first_request_inv web web₁ first a) b in
      let same : web₃ ≡ web₂ = ap (λ t. t.1) (sym c) in
      elim (Bool-cases (is_some (svpn_cookie answer.1))) [
        | inl e ↦ (
          answer.1,
          was.given,
          finish_LetsIn answer.1 web₃ web' session (status_inv answer.0 answer.1 (ap (λ t. t.0) c))
              was.accepted (rw e at h₃),
        )
        | inr e ↦
            second_factor_inv answer.1 (get_value (body_text env answer.1) (codes "tokeninfo=")) web
              web₃ web' session (λ r g. was.uses r (subst (λ (w : Web). Given w.answers r) same g))
              (rw e at h₃)
      ]

  -- A session that `authenticate` returns has the cookie of the configuration, or the cookie comes with
  -- one of the gateway's answers, of status 200. If that answer's body is UTF-8, it has no `ret=`, or the
  -- first `ret=` in it is followed by a number that is 1, up to the next `&`, `\r`, `\n`, NUL or the end; of a
  -- body that is not UTF-8 nothing is known.
  pub authenticate_sound :
      (web web' : Web) (session : AuthSession)
      → authenticate env config web ≡ (ok session, web')
      → (config.cookie ≡ some session.cookie) ⊎ LetIn web session.cookie
  unfolding authenticate
  authenticate_sound web web' session h = by_cookie config.cookie h
    where
      by_cookie :
          (o : Option Text)
          → authenticate_by env config o web ≡ (ok session, web')
          → (o ≡ some session.cookie) ⊎ LetIn web session.cookie
      by_cookie (some c) e = inl (ap some (ap cookie_of e))
      by_cookie none e = inr (log_in_sound web web' session e)
