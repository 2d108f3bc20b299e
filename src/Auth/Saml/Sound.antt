-- ===== src/Auth/Saml/Sound.antt =====
-- What a session id of src/auth/saml.rs rests on.
use openfortivpn_rs.Common.{
  ◌<◌, arith, ℕ, zero, suc, true, false, Bool-cases, inl, inr, ◌⊎◌, Option, none, some, List, [],
  ◌∷◌, ◌++◌, ◌≡◌, refl, ap, ap₂, ◌∙◌, subst, ◌==◌, ==_iff, leb, take,
}
use openfortivpn_rs.Common.Bytes.{Bytes, codes}
use openfortivpn_rs.Common.Error.{Result, ok, err, ◌>>=◌, ◌>>◌, ok_or, auth, text}
use openfortivpn_rs.Config.Settings.{Text, Config}
use openfortivpn_rs.Config.Parse.{all, byte_length}
use openfortivpn_rs.Strings.{strip_prefix}
use openfortivpn_rs.Auth.Login.{is_valid_saml_session_id}
use openfortivpn_rs.Auth.Saml.{
  status_response, success_response_body, SamlRequestError, bad_method_or_path, TcpStream, Accept,
  accepted, would_block, failed, ends_id, id_before, is_id_character, checked_id,
  parse_callback_request, request_head, max_saml_session_id_length, process_callback_stream,
  processed, answered, respond, wait_for_session_id_on_listener, wait_for_session_id,
}

-- A request that brings an id to the server: `GET /?id=`, the id, and a character that ends it.
pub record Brings (request id : Text) : Type 0 where
  pub ending : ℕ
  pub rest : Text
  pub its_text : request ≡ codes "GET /?id=" ++ (id ++ ending ∷ rest)
  pub ends : (ending ≡ 32) ⊎ ((ending ≡ 38) ⊎ ((ending ≡ 13) ⊎ (ending ≡ 10)))
  pub valid : is_valid_saml_session_id id ≡ true
  pub short : byte_length id < 1024

strip_prefix_inv :
    (value prefix rest : Text) → strip_prefix value prefix ≡ some rest → value ≡ prefix ++ rest
unfolding strip_prefix
strip_prefix_inv value [] rest h = cc h
strip_prefix_inv [] (p ∷ ps) rest h = absurd (cc h)
strip_prefix_inv (c ∷ cs) (p ∷ ps) rest h = elim (Bool-cases (c == p)) [
  | inl e ↦ ap₂ (λ x xs. x ∷ xs) ((==_iff c p).0 e) (strip_prefix_inv cs ps rest (rw e at h))
  | inr e ↦ absurd (cc (rw e at h))
]

Split : Text → Text → Type 0
Split request id =
    (ending : ℕ) × (rest : Text) × (request ≡ id ++ ending ∷ rest) × (ends_id ending ≡ true)

id_before_inv : (request id : Text) → id_before request ≡ some id → Split request id
unfolding id_before Split
id_before_inv [] id h = absurd (cc h)
id_before_inv (c ∷ cs) id h = elim (Bool-cases (ends_id c)) [
  | inl e ↦
      let it : some [] ≡ some id = rw e at h in (c, cs, ap (λ t. t ++ c ∷ cs) (some_inv it), e)
  | inr e ↦ by_rest (id_before_inv cs) (id_before cs) refl (rw e at h)
]
  where
    some_inv : {A : Type 0} {a b : A} → some a ≡ some b → a ≡ b
    some_inv h = cc h

    by_rest :
        ((i : Text) → id_before cs ≡ some i → Split cs i)
        → (o : Option Text) → id_before cs ≡ o
        → elim o [ none ↦ none | some i ↦ some (c ∷ i) ] ≡ some id
        → Split (c ∷ cs) id
    by_rest again none e k = absurd (cc k)
    by_rest again (some i) e k =
        let (ending, rest, its, ends) = again i e in
        (ending, rest, ap (λ t. c ∷ t) its ∙ ap (λ t. t ++ ending ∷ rest) (some_inv k), ends)

checked_inv :
    (request id : Text)
    → checked_id (id_before request) ≡ inl id
    → Split request id
      × (is_valid_saml_session_id id ≡ true)
      × (leb max_saml_session_id_length (byte_length id) ≡ false)
unfolding checked_id is_valid_saml_session_id
checked_inv request id h = by_found (id_before request) refl h
  where
    by_found :
        (o : Option Text)
        → id_before request ≡ o
        → checked_id o ≡ inl id
        → Split request id
          × (is_valid_saml_session_id id ≡ true)
          × (leb max_saml_session_id_length (byte_length id) ≡ false)
    by_found none e k = absurd (cc k)
    by_found (some []) e k = absurd (cc k)
    by_found (some (c ∷ cs)) e k =
        elim (Bool-cases (leb max_saml_session_id_length (byte_length (c ∷ cs)))) [
          | inl long ↦ absurd (cc (rw long at k))
          | inr short ↦
              let k₁ = rw short at k in
              elim (Bool-cases (all is_id_character (c ∷ cs))) [
                | inl valid ↦
                    let same : c ∷ cs ≡ id = cc (rw valid at k₁) in
                    subst
                      (λ i.
                        Split request i
                        × (is_valid_saml_session_id i ≡ true)
                        × (leb max_saml_session_id_length (byte_length i) ≡ false))
                      same (id_before_inv request (c ∷ cs) e, valid, short)
                | inr bad ↦ absurd (cc (rw bad at k₁))
              ]
        ]

ending_cases : (c : ℕ) → ends_id c ≡ true → (c ≡ 32) ⊎ ((c ≡ 38) ⊎ ((c ≡ 13) ⊎ (c ≡ 10)))
ending_cases c h = ground arith

leb_below : (n : ℕ) → leb 1024 n ≡ false → n < 1024
leb_below n h = ground arith

-- What the server accepts is a request that brings the id.
parse_callback_request-Brings :
    (request id : Text) → parse_callback_request request ≡ inl id → Brings request id
unfolding parse_callback_request Split
parse_callback_request-Brings request id h = by_prefix (strip_prefix request request_head) refl h
  where
    by_prefix :
        (o : Option Text)
        → strip_prefix request request_head ≡ o
        → elim o [ none ↦ inr bad_method_or_path | some rest ↦ checked_id (id_before rest) ]
          ≡ inl id
        → Brings request id
    by_prefix none e k = absurd (cc k)
    by_prefix (some query) e k =
        let ((ending, rest, its, ends), valid, short) = checked_inv query id k in
        record {
          ending = ending;
          rest = rest;
          its_text =
              strip_prefix_inv request request_head query e ∙ ap (λ t. request_head ++ t) its;
          ends = ending_cases ending ends;
          valid = valid;
          short = leb_below (byte_length id) short;
        }

module _ (from_utf8_lossy : Bytes → Text) where
  -- A connection that brings the id, and that the page of success was written to.
  abbrev pub Served : TcpStream → Text → Type 0
  Served stream id =
      (request : Bytes) × (stream.read ≡ ok request)
      × Brings (from_utf8_lossy (take 1023 request)) id
      × (stream.write ≡ ok tt)
      × ((process_callback_stream from_utf8_lossy stream).1 ≡ status_response success_response_body)

  -- One of the connections that `accept` gave.
  abbrev pub Heard : List Accept → Text → Type 0
  Heard [] id = ⊥
  Heard (accepted stream ∷ accepts) id = Served stream id ⊎ Heard accepts id
  Heard (would_block late ∷ accepts) id = Heard accepts id
  Heard (failed e ∷ accepts) id = Heard accepts id

  process_callback_stream-Served :
      (stream : TcpStream) (id : Text)
      → (process_callback_stream from_utf8_lossy stream).0 ≡ ok id
      → Served stream id
  unfolding process_callback_stream
  process_callback_stream-Served stream id h = by_read stream.read refl h
    where
      by_write :
          (write : Result (Unit {0})) (result : Result Text)
          → write >> result ≡ ok id
          → (write ≡ ok tt) × (result ≡ ok id)
      by_write (ok done) result k = (refl, k)
      by_write (err e) result k = absurd (cc k)

      by_parse :
          (request : Text) (r : Text ⊎ SamlRequestError)
          → parse_callback_request request ≡ r
          → (respond from_utf8_lossy stream.write (answered from_utf8_lossy r)).0 ≡ ok id
          → Brings request id
            × (stream.write ≡ ok tt)
            × ((respond from_utf8_lossy stream.write (answered from_utf8_lossy r)).1
                ≡ status_response success_response_body)
      by_parse request (inl i) e k =
          let (sent, same) = by_write stream.write (ok i) k in
          (parse_callback_request-Brings request id (e ∙ cc same), sent, refl)
      by_parse request (inr fault) e k = absurd (cc (by_write stream.write _ k).1)

      by_read :
          (r : Result Bytes)
          → stream.read ≡ r
          → (processed from_utf8_lossy stream.write r).0 ≡ ok id
          → (request : Bytes) × (r ≡ ok request)
            × Brings (from_utf8_lossy (take 1023 request)) id
            × (stream.write ≡ ok tt)
            × ((processed from_utf8_lossy stream.write r).1 ≡ status_response success_response_body)
      by_read (err e) was k = absurd (cc k)
      by_read (ok request) was k =
          let line = from_utf8_lossy (take 1023 request) in
          let (brings, sent, page) = by_parse line (parse_callback_request line) refl k in
          (request, refl, brings, sent, page)

  listener-Heard :
      (tries : ℕ) (accepts : List Accept) (id : Text)
      → wait_for_session_id_on_listener from_utf8_lossy tries accepts ≡ some (ok id)
      → Heard accepts id
  unfolding wait_for_session_id_on_listener
  listener-Heard zero accepts id h = absurd (cc h)
  listener-Heard (suc tries) [] id h = absurd (cc h)
  listener-Heard (suc tries) (accepted stream ∷ accepts) id h =
      by_result (listener-Heard tries accepts id)
        ((process_callback_stream from_utf8_lossy stream).0) refl h
    where
      by_result :
          (wait_for_session_id_on_listener from_utf8_lossy tries accepts ≡ some (ok id)
            → Heard accepts id)
          → (r : Result Text) → (process_callback_stream from_utf8_lossy stream).0 ≡ r
          → elim r [
            | ok i ↦ some (ok i)
            | err e ↦ wait_for_session_id_on_listener from_utf8_lossy tries accepts
          ]
            ≡ some (ok id)
          → Served stream id ⊎ Heard accepts id
      by_result later (ok i) e k = inl (process_callback_stream-Served stream id (e ∙ cc k))
      by_result later (err fault) e k = inr (later k)
  listener-Heard (suc tries) (would_block late ∷ accepts) id h = elim (Bool-cases late) [
    | inl e ↦ listener-Heard tries accepts id (rw e at h)
    | inr e ↦ listener-Heard (suc tries) accepts id (rw e at h)
  ]
  listener-Heard (suc tries) (failed e ∷ accepts) id h = absurd (cc h)

  -- A session id that `wait_for_session_id` returns came in a request of one of the connections: behind
  -- `GET /?id=`, in front of a space, `&` or the end of the line. It is one that
  -- `authenticate_with_saml_session` sends, and shorter than 1024 bytes. A port was configured, the
  -- listener was set up, and the page of success was written to that connection.
  pub wait_for_session_id-Heard :
      (config : Config) (bound : Result (Unit {0})) (accepts : List Accept) (id : Text)
      → wait_for_session_id from_utf8_lossy config bound accepts ≡ some (ok id)
      → (port : ℕ) × (config.saml_port ≡ some port) × (bound ≡ ok tt) × Heard accepts id
  unfolding wait_for_session_id
  wait_for_session_id-Heard config bound accepts id h = by_port config.saml_port bound h
    where
      by_port :
          (o : Option ℕ) (b : Result (Unit {0}))
          → elim (ok_or o (auth (text "SAML callback port is not configured" ∷ [])) >>= λ port. b) [
            | err e ↦ some (err e)
            | ok done ↦ wait_for_session_id_on_listener from_utf8_lossy 5 accepts
          ]
            ≡ some (ok id)
          → (port : ℕ) × (o ≡ some port) × (b ≡ ok tt) × Heard accepts id
      by_port none b k = absurd (cc k)
      by_port (some port) (err e) k = absurd (cc k)
      by_port (some port) (ok done) k = (port, refl, refl, listener-Heard 5 accepts id k)
