-- ===== src/Auth/Login/Pages.antt =====
-- src/auth/login.rs: what is read out of the gateway's pages. The searches that go on behind what they
-- found run on fuel, one more than the text is long. The source panics where it cuts a
-- character of several bytes, or goes on behind the end of the page; here the search goes on with what
-- is left.
use openfortivpn_rs.Common.{
  ℕ, zero, suc, ◌+◌, ◌^◌, ◌-◌, Bool, ◌||◌, Option, none, some, List, [], ◌∷◌, ◌++◌, map, ◌==◌,
  if◌then◌else◌, length, take, drop,
}
use openfortivpn_rs.Common.Bytes.{codes}
use openfortivpn_rs.Common.Error.{
  Result, ok, err, ◌>>=◌, ok_or, auth, permission_denied, text, str, num,
}
use openfortivpn_rs.Common.Text.{parse_uint}
use openfortivpn_rs.Config.Settings.{Text, Config}
use openfortivpn_rs.Config.Parse.{trim_start, starts_with, to_ascii_lowercase}
use openfortivpn_rs.Strings.{find, strip_prefix, join_with, same_ignoring_case}
use openfortivpn_rs.Http.{unwrap_or}

-- `find` of a character that passes a test, and what stands in front of it.
unfoldable pub take_until : (ℕ → Bool) → Text → Text
take_until test [] = []
take_until test (c ∷ cs) = let rest = take_until test cs in if test c then [] else c ∷ rest

abbrev pub ends_value : ℕ → Bool
ends_value c = c == b'&' || (c == 13 || (c == 10 || c == 0))

unfoldable pub get_value : Text → Text → Option Text
get_value body key = elim (find body key) [
  | none ↦ none
  | some start ↦ some (take_until ends_value (drop (start + length key) body))
]

unfoldable pub find_ascii_case_insensitive : Text → Text → Option ℕ
find_ascii_case_insensitive haystack needle =
    find (map to_ascii_lowercase haystack) (map to_ascii_lowercase needle)

abbrev pub is_ascii_whitespace : ℕ → Bool
is_ascii_whitespace c = c == 32 || (c == 9 || (c == 10 || (c == 12 || c == 13)))

abbrev pub is_quote : ℕ → Bool
is_quote c = c == 34 || c == 39

abbrev unquoted : Text → Text
unquoted [] = []
unquoted (c ∷ cs) = if is_quote c then cs else c ∷ cs

abbrev full_or : Text → Option Text → Option Text
full_or [] next = next
full_or (c ∷ cs) next = some (c ∷ cs)

unfoldable pub action_loop : ℕ → Text → Option Text
action_loop zero rest = none
action_loop (suc fuel) rest = elim (find_ascii_case_insensitive rest (codes "action=")) [
  | none ↦ none
  | some index ↦
      let after_key = drop (index + 7) rest in
      full_or (take_until (λ c. is_quote c || is_ascii_whitespace c) (unquoted after_key))
        (action_loop fuel (drop 1 after_key))
]

abbrev pub action_url : Text → Option Text
action_url body = action_loop (suc (length body)) body

-- A quoted value behind the sign: found, not this one, or no more of this marker.
pub data Redirect : Type 0 where
  leads_to : Text → Redirect
  further : Redirect
  no_more : Redirect

abbrev quoted_value : ℕ → Text → Option ℕ → Redirect
quoted_value quote value_rest none = no_more
quoted_value quote value_rest (some value_end) =
    let v = take value_end value_rest in if starts_with v (codes "/") then leads_to v else further

abbrev behind_equals : Text → Redirect
behind_equals [] = no_more
behind_equals (quote ∷ value_rest) =
    if is_quote quote then quoted_value quote value_rest (find value_rest (quote ∷ [])) else further

abbrev behind_marker : Option Text → Redirect
behind_marker none = further
behind_marker (some after_equals) = behind_equals (trim_start after_equals)

abbrev redirected : Redirect → Option Text → Option Text
redirected (leads_to v) next = some v
redirected no_more next = none
redirected further next = next

unfoldable pub redirect_loop : ℕ → Text → Text → Option Text
redirect_loop zero marker rest = none
redirect_loop (suc fuel) marker rest = elim (find_ascii_case_insensitive rest marker) [
  | none ↦ none
  | some index ↦
      let after_marker = drop (index + length marker) rest in
      redirected (behind_marker (strip_prefix (trim_start after_marker) (codes "=")))
        (redirect_loop fuel marker (drop 1 after_marker))
]

unfoldable pub first_redirect : List Text → Text → Option Text
first_redirect [] body = none
first_redirect (marker ∷ markers) body = elim (redirect_loop (suc (length body)) marker body) [
  | some path ↦ some path
  | none ↦ first_redirect markers body
]

abbrev pub portal_redirect : Text → Option Text
portal_redirect body =
    first_redirect
      (codes "document.location" ∷ codes "window.location" ∷ codes "location.href" ∷ []) body

unfoldable pub html_attr : Text → Text → Option Text
html_attr tag name = elim (find_ascii_case_insensitive tag (name ++ (61 ∷ 34 ∷ []))) [
  | none ↦ none
  | some start ↦
      let rest = drop (start + (length name + 2)) tag in
      elim (find rest (34 ∷ [])) [ none ↦ none | some end ↦ some (take end rest) ]
]

abbrev prompt_end : Option ℕ → Text → Text
prompt_end none rest = codes "Please enter one-time password: "
prompt_end (some end) rest = take end rest

unfoldable pub otp_challenge_prompt : Config → Text → Text
otp_challenge_prompt config html_after_action =
    elim (find html_after_action (unwrap_or config.otp_prompt (codes "Please"))) [
      | none ↦ codes "Please enter one-time password: "
      | some start ↦
          let rest = drop start html_after_action in prompt_end (find rest (codes "<")) rest
    ]

abbrev realm_field : (Text → Text) → Option Text → List Text
realm_field encode none = []
realm_field encode (some []) = []
realm_field encode (some (c ∷ cs)) = (codes "realm=" ++ encode (c ∷ cs)) ∷ []

abbrev field : (Text → Text) → Text → Text → Text
field encode name value = encode name ++ (61 ∷ encode value)

-- The fields of one input; `encode` is `url_encode`.
unfoldable pub input_fields : (Text → Text) → Config → Text → Text → Result (List Text)
input_fields encode config otp input =
    let input_type = unwrap_or (html_attr input (codes "type")) [] in
    let name_of =
      ok_or (html_attr input (codes "name"))
        (auth (text "OTP challenge input is missing a name" ∷ [])) in
    let value_of =
      ok_or (html_attr input (codes "value"))
        (auth (text "OTP challenge hidden input is missing a value" ∷ [])) in
    if same_ignoring_case input_type (codes "hidden")
    then (name_of >>= λ name. value_of >>= λ value. ok (field encode name value ∷ []))
    else if same_ignoring_case input_type (codes "password")
    then (name_of >>= λ name. ok (field encode name otp ∷ realm_field encode config.realm))
    else ok []

abbrev or_length : Option ℕ → Text → ℕ
or_length none rest = length rest
or_length (some n) rest = n

unfoldable pub inputs_loop : ℕ → (Text → Text) → Config → Text → Text → Result (List Text)
inputs_loop zero encode config otp rest = ok []
inputs_loop (suc fuel) encode config otp rest =
    elim (find_ascii_case_insensitive rest (codes "<input")) [
      | none ↦ ok []
      | some start ↦
          let tail = drop start rest in
          let end = or_length (find tail (codes ">")) tail in
          input_fields encode config otp (take end tail) >>= λ fields.
          inputs_loop fuel encode config otp (drop (end + 1) tail) >>= λ others.
          ok (fields ++ others)
    ]

abbrev form_of : Text → List Text → Result (Text × Text)
form_of path [] =
    err (auth (text "OTP challenge form does not contain hidden or password inputs" ∷ []))
form_of path (f ∷ fields) = ok (path, join_with (codes "&") (f ∷ fields))

-- `otp_value` is `otp_value_with_purpose` with its purpose, given the prompt.
unfoldable pub otp_challenge_form :
    (Text → Text) → (Text → Result Text) → Config → Text → Result (Text × Text)
otp_challenge_form encode otp_value config html = do
  form_start ←
      ok_or (find_ascii_case_insensitive html (codes "<form"))
        (auth (text "OTP challenge response does not contain a form" ∷ []))
  let form = drop form_start html
  key ←
      ok_or (find_ascii_case_insensitive form (codes "action=" ++ 34 ∷ []))
        (auth (text "OTP challenge form does not contain an action" ∷ []))
  let action = drop (key + 8) form
  action_end ←
      ok_or (find action (34 ∷ [])) (auth (text "OTP challenge form action is unterminated" ∷ []))
  otp ← otp_value (otp_challenge_prompt config (drop action_end action))
  fields ← inputs_loop (suc (length form)) encode config otp form
  form_of (take action_end action) fields

-- The value of `ret=`, if there is one.
abbrev pub auth_result : Text → Option ℕ → Result (Unit {0})
auth_result ret none = err (auth (text "invalid authentication result: " ∷ str ret ∷ []))
auth_result ret (some n) =
    if n == 0
    then err permission_denied
    else if n == 1
    then ok tt
    else if n == 6
    then err (auth (text "gateway replied with an unsupported authentication challenge" ∷ []))
    else err (auth (text "unknown authentication result: " ∷ num n ∷ []))

-- Of the body as a text.
unfoldable pub validate_auth_response : Text → Result (Unit {0})
validate_auth_response body = elim (get_value body (codes "ret=")) [
  | none ↦ ok tt
  | some ret ↦ auth_result ret (parse_uint (2 ^ 32 - 1) ret)
]
