-- ===== src/Auth/Login/Allows.antt =====
-- What `validate_auth_response` of src/auth/login.rs lets through.
use openfortivpn_rs.Common.{
  true, ℕ, suc, ◌+◌, Bool-cases, inl, inr, ◌⊎◌, ◌==◌, ==_iff, Option, none, some, [], ◌∷◌, ◌++◌,
  ◌≡◌, refl, sym, ap, ap₂, ◌∙◌, subst, length, drop, arith,
}
use openfortivpn_rs.Common.Bytes.{codes}
use openfortivpn_rs.Common.Error.{Result, ok}
use openfortivpn_rs.Common.Text.{parse_uint}
use openfortivpn_rs.Config.Settings.{Text}
use openfortivpn_rs.Config.Parse.{starts_with}
use openfortivpn_rs.Strings.{find}
use openfortivpn_rs.Http.{HttpResponse, unwrap_or}
use openfortivpn_rs.Auth.Login.Pages.{
  take_until, ends_value, get_value, auth_result, validate_auth_response,
}
use openfortivpn_rs.Auth.Login.Bodies.{Env, body_text}

-- The end of the text, or one of `&`, `\r`, `\n` and NUL.
abbrev pub EndsValue : Text → Type 0
EndsValue [] = Unit
EndsValue (c ∷ rest) = (c ≡ 38) ⊎ ((c ≡ 13) ⊎ ((c ≡ 10) ⊎ (c ≡ 0)))

-- A page without `ret=`, or whose first `ret=` is followed by a number that is 1.
abbrev pub Allows : Text → Type 0
Allows page =
    (find page (codes "ret=") ≡ none)
    ⊎ ((before ret rest : Text) × (page ≡ before ++ (codes "ret=" ++ (ret ++ rest)))
        × (find page (codes "ret=") ≡ some (length before))
        × (parse_uint 4294967295 ret ≡ some 1)
        × EndsValue rest)

-- The body of a response; one that is not UTF-8 is not looked at.
abbrev pub BodyAllows : Option Text → Type 0
BodyAllows none = Unit
BodyAllows (some page) = Allows page

value_split :
    (value : Text) → (rest : Text) × (value ≡ take_until ends_value value ++ rest) × EndsValue rest
unfolding take_until
value_split [] = ([], refl, tt)
value_split (c ∷ cs) =
    let (rest, e, ends) = value_split cs in
    elim (Bool-cases (ends_value c)) [
      | inl hit ↦ (c ∷ cs, rw hit refl, ground arith)
      | inr miss ↦ (rest, rw miss (ap (λ t. c ∷ t) e), ends)
    ]

starts_with-drop :
    (value key : Text) → starts_with value key ≡ true → value ≡ key ++ drop (length key) value
unfolding starts_with
starts_with-drop value [] h = refl
starts_with-drop [] (k ∷ key) h = absurd (cc h)
starts_with-drop (c ∷ value) (k ∷ key) h = elim (Bool-cases (c == k)) [
  | inl e ↦ ap₂ (λ x xs. x ∷ xs) ((==_iff c k).0 e) (starts_with-drop value key (rw e at h))
  | inr e ↦ absurd (cc (rw e at h))
]

-- Where something is found it stands.
find_split :
    (value key : Text) (start : ℕ)
    → find value key ≡ some start
    → (before : Text) × (length before ≡ start)
      × (value ≡ before ++ (key ++ drop (start + length key) value))
unfolding find starts_with
find_split [] [] start h =
    let it : 0 ≡ start = cc h in ([], it, subst (λ n. ◌≡◌ {A = Text} [] (drop (n + 0) [])) it refl)
find_split [] (k ∷ key) start h = absurd (cc h)
find_split (c ∷ cs) key start h = elim (Bool-cases (starts_with (c ∷ cs) key)) [
  | inl e ↦
      let here : some 0 ≡ some start = rw e at h in
      let it : 0 ≡ start = cc here in
      (
        [],
        it,
        subst (λ n. c ∷ cs ≡ key ++ drop (n + length key) (c ∷ cs)) it
            (starts_with-drop (c ∷ cs) key e
              ∙ ap (λ m. key ++ drop m (c ∷ cs)) (zeroed (length key))),
      )
  | inr e ↦ by_rest (find_split cs key) (find cs key) refl (rw e at h)
]
  where
    zeroed : (m : ℕ) → m ≡ 0 + m
    zeroed m = omega arith

    moved : (n m : ℕ) → suc (n + m) ≡ n + 1 + m
    moved n m = omega arith

    by_rest :
        ((n : ℕ)
          → find cs key ≡ some n
          → (before : Text) × (length before ≡ n)
            × (cs ≡ before ++ (key ++ drop (n + length key) cs)))
        → (o : Option ℕ) → find cs key ≡ o
        → elim o [ none ↦ none | some i ↦ some (i + 1) ] ≡ some start
        → (before : Text) × (length before ≡ start)
          × (c ∷ cs ≡ before ++ (key ++ drop (start + length key) (c ∷ cs)))
    by_rest again none e k = absurd (cc k)
    by_rest again (some n) e k =
        let it : n + 1 ≡ start = cc k in
        let (before, long, its) = again n e in
        subst
          (λ m.
            (before : Text) × (length before ≡ m)
            × (c ∷ cs ≡ before ++ (key ++ drop (m + length key) (c ∷ cs))))
          it
          (
            c ∷ before,
            omega (arith, long),
            ap (λ t. c ∷ t) its
                ∙ ap (λ m. c ∷ (before ++ (key ++ drop m (c ∷ cs)))) (moved n (length key)),
          )

auth_result_one : (ret : Text) (n : Option ℕ) → auth_result ret n ≡ ok tt → n ≡ some 1
auth_result_one ret none h = absurd (cc h)
auth_result_one ret (some n) h = elim (Bool-cases (n == 0)) [
  | inl e ↦ absurd (cc (rw e at h))
  | inr e ↦
      let h' = rw e at h in
      elim (Bool-cases (n == 1)) [
        | inl one ↦ ap some ((==_iff n 1).0 one)
        | inr other ↦
            let h'' = rw other at h' in
            elim (Bool-cases (n == 6)) [
              | inl six ↦ absurd (cc (rw six at h''))
              | inr more ↦ absurd (cc (rw more at h''))
            ]
      ]
]

abbrev value_at : Text → Option ℕ → Option Text
value_at page none = none
value_at page (some start) = some (take_until ends_value (drop (start + 4) page))

abbrev outcome : Option Text → Result (Unit {0})
outcome none = ok tt
outcome (some ret) = auth_result ret (parse_uint 4294967295 ret)

validate-Allows : (page : Text) → validate_auth_response page ≡ ok tt → Allows page
unfolding validate_auth_response get_value
validate-Allows page h = by_start (find page (codes "ret=")) refl h
  where
    by_start :
        (o : Option ℕ)
        → find page (codes "ret=") ≡ o
        → outcome (value_at page o) ≡ ok tt
        → Allows page
    by_start none e k = inl e
    by_start (some start) e k =
        let (before, long, its) = find_split page (codes "ret=") start e in
        let (rest, value, ends) = value_split (drop (start + 4) page) in
        let ret = take_until ends_value (drop (start + 4) page) in
        inr (
          before,
          ret,
          rest,
          its ∙ ap (λ t. before ++ (codes "ret=" ++ t)) value,
          e ∙ ap some (sym long),
          auth_result_one ret (parse_uint 4294967295 ret) k,
          ends,
        )

-- A response that passes, by what its body is read as.
pub validate-BodyAllows :
    (env : Env) (response : HttpResponse)
    → validate_auth_response (body_text env response) ≡ ok tt
    → BodyAllows (env.from_utf8 response.body)
validate-BodyAllows env response h = by_body (env.from_utf8 response.body) h
  where
    by_body : (o : Option Text) → validate_auth_response (unwrap_or o []) ≡ ok tt → BodyAllows o
    by_body none h = tt
    by_body (some page) h = validate-Allows page h
