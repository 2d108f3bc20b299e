-- ===== src/Http/Framing.antt =====
-- A response that src/http.rs receives in pieces.
use openfortivpn_rs.Common.{
  ℕ, ◌+◌, ◌-◌, ◌^◌, ◌≤◌, ◌<◌, Bool, true, false, ◌==◌, Option, none, some, List, [], ◌∷◌, ◌++◌,
  append_assoc, append-nil, map, ltb, le→ltb, ltb→lt, ltb→le, if◌then◌else◌, length, take, drop,
  take_prefix, drop_prefix, take-length, drop-length, ◌≡◌, refl, sym, ap, ◌∙◌, subst, arith, All,
  Bool-cases, inl, inr,
}
use openfortivpn_rs.Common.Bytes.{Bytes, codes}
use openfortivpn_rs.Common.Error.{Result, ok, err, ◌>>◌, refuse_if, permission_denied}
use openfortivpn_rs.Common.Text.{parse_uint}
use openfortivpn_rs.Config.Settings.{Text}
use openfortivpn_rs.Config.Parse.{trim, starts_with}
use openfortivpn_rs.Strings.{find}
use openfortivpn_rs.Tunnel.Io.Pty.Chunks.{join}
use openfortivpn_rs.Http.{Headers, header_value}
use openfortivpn_rs.Http.Headers.{parse_headers}
use openfortivpn_rs.Http.Receive.{
  max_header_size, header_terminator, find_bytes, headers_end, headers_closed, Complete,
  read_until_headers_complete, read_body, contains_permission_denied_marker, receive_body,
  http_receive,
}

starts_with_bound : (xs needle : Bytes) → starts_with xs needle ≡ true → length needle ≤ length xs
unfolding starts_with
starts_with_bound xs [] h = omega arith
starts_with_bound [] (p ∷ ps) h = absurd (cc h)
starts_with_bound (x ∷ xs) (p ∷ ps) h = elim (Bool-cases (x == p)) [
  | inl e ↦ omega (arith, starts_with_bound xs ps (rw e at h))
  | inr e ↦ absurd (cc (rw e at h))
]

-- Later bytes do not matter to a window that is there.
starts_with_prefix :
    (xs more needle : Bytes)
    → length needle ≤ length xs
    → starts_with (xs ++ more) needle ≡ starts_with xs needle
unfolding starts_with
starts_with_prefix [] [] [] h = refl
starts_with_prefix [] (m ∷ more) [] h = refl
starts_with_prefix (x ∷ xs) more [] h = refl
starts_with_prefix [] more (p ∷ ps) h = absurd (omega arith)
starts_with_prefix (x ∷ xs) more (p ∷ ps) h = rw (starts_with_prefix xs more ps (omega arith))

-- Where a needle is found there is room for it.
FoundIn : Bytes → Bytes → Bytes → Option ℕ → Type 0
FoundIn xs more needle none = Unit
FoundIn xs more needle (some i) =
    (i + length needle ≤ length xs) × (find (xs ++ more) needle ≡ some i)

find_step :
    (x : ℕ) (xs more needle : Bytes) (r : Option ℕ) (b : Bool)
    → 0 < length needle
    → starts_with (x ∷ xs) needle ≡ b
    → FoundIn xs more needle r
    → FoundIn
        (x ∷ xs)
        more
        needle
        (if b then some 0 else elim r [ none ↦ none | some i ↦ some (i + 1) ])
unfolding find FoundIn
find_step x xs more needle r true n e h =
    let fits = starts_with_bound (x ∷ xs) needle e in
    (omega arith, rw (starts_with_prefix (x ∷ xs) more needle fits, e) refl)
find_step x xs more needle none false n e h = tt
find_step x xs more needle (some i) false n e (fits, found) =
    (omega arith, rw (starts_with_prefix (x ∷ xs) more needle (omega arith), e, found) refl)

find-FoundIn :
    (xs more needle : Bytes) → 0 < length needle → FoundIn xs more needle (find xs needle)
unfolding find FoundIn
find-FoundIn [] more [] n = absurd (omega arith)
find-FoundIn [] more (p ∷ ps) n = tt
find-FoundIn (x ∷ xs) more needle n =
    find_step x xs more needle (find xs needle) (starts_with (x ∷ xs) needle) n refl
      (find-FoundIn xs more needle n)

found_in :
    (xs more needle : Bytes) (i : ℕ)
    → 0 < length needle
    → find xs needle ≡ some i
    → (i + length needle ≤ length xs) × (find (xs ++ more) needle ≡ some i)
unfolding FoundIn
found_in xs more needle i n e = subst (FoundIn xs more needle) e (find-FoundIn xs more needle n)

-- A needle that later bytes complete ends behind the first bytes.
EndsLater : Bytes → Bytes → Option ℕ → Type 0
EndsLater xs needle none = Unit
EndsLater xs needle (some i) = length xs < i + length needle

later_step :
    (x : ℕ) (xs more needle : Bytes) (r : Option ℕ) (b : Bool)
    → starts_with (x ∷ xs) needle ≡ false
    → starts_with (x ∷ (xs ++ more)) needle ≡ b
    → EndsLater xs needle r
    → EndsLater
        (x ∷ xs)
        needle
        (if b then some 0 else elim r [ none ↦ none | some i ↦ some (i + 1) ])
unfolding EndsLater
later_step x xs more needle r true a b h =
    elim (Bool-cases (ltb (length (x ∷ xs)) (length needle))) [
      | inl e ↦ omega (arith, ltb→lt (length (x ∷ xs)) (length needle) e)
      | inr e ↦ absurd (
          cc (
            starts_with_prefix (x ∷ xs) more needle (ltb→le (length (x ∷ xs)) (length needle) e),
            a,
            b,
          ))
    ]
later_step x xs more needle none false a b h = tt
later_step x xs more needle (some i) false a b h = omega (arith, h)

absent :
    (b : Bool) (r : Option ℕ)
    → (if b then some 0 else elim r as (λ q. Option ℕ) [ none ↦ none | some i ↦ some (i + 1) ])
      ≡ none
    → (b ≡ false) × (r ≡ none)
absent true r h = absurd (cc h)
absent false none h = (refl, refl)
absent false (some i) h = absurd (cc h)

find-EndsLater :
    (xs more needle : Bytes)
    → 0 < length needle
    → find xs needle ≡ none
    → EndsLater xs needle (find (xs ++ more) needle)
unfolding find EndsLater
find-EndsLater [] more needle n h = elim (find more needle) as (λ r. EndsLater [] needle r) [
  | none ↦ tt
  | some i ↦ omega arith
]
find-EndsLater (x ∷ xs) more needle n h =
    let (a, b) = absent (starts_with (x ∷ xs) needle) (find xs needle) h in
    later_step x xs more needle (find (xs ++ more) needle) (starts_with (x ∷ (xs ++ more)) needle) a
      refl (find-EndsLater xs more needle n b)

abbrev IsPiece : Bytes → Type 0
IsPiece piece = 0 < length piece

-- The headers of a response, of `head` and the empty line, are found in whatever pieces they come.
Completes : Bytes → ℕ → Result Complete → Type 0
Completes stream end r =
    (buffer : Bytes) × (pieces : List Bytes) × (r ≡ ok (end, buffer, map ok pieces))
    × All IsPiece pieces
    × (buffer ++ join pieces ≡ stream)
    × (end ≤ length buffer)

headers_end-Completes :
    (stream buffer : Bytes) (pieces : List Bytes) (end : ℕ) (next : Result Complete) (r : Option ℕ)
    → find buffer header_terminator ≡ r
    → find stream header_terminator ≡ some end
    → buffer ++ join pieces ≡ stream
    → All IsPiece pieces
    → end + 4 ≤ max_header_size
    → (r ≡ none → (length buffer ≤ max_header_size) → Completes stream (end + 4) next)
    → Completes stream (end + 4) (headers_end r buffer (map ok pieces) next)
unfolding Completes
headers_end-Completes stream buffer pieces end next (some i) e f b p m rest =
    let (fits, found) = found_in buffer (join pieces) header_terminator i (omega arith) e in
    let same : i ≡ end = cc (sym found ∙ ap (λ t. find t header_terminator) b ∙ f) in
    (buffer, pieces, ap (λ n. ok (n + 4, buffer, map ok pieces)) same, p, b, omega (arith, same))
headers_end-Completes stream buffer pieces end next none e f b p m rest =
    let later : EndsLater buffer header_terminator (some end) =
      subst (EndsLater buffer header_terminator) (ap (λ t. find t header_terminator) b ∙ f)
        (find-EndsLater buffer (join pieces) header_terminator (omega arith) e) in
    let short : length buffer ≤ max_header_size = unfold EndsLater in omega (arith, later) in
    rw (le→ltb max_header_size (length buffer) short) (rest refl short)

read_until-Completes :
    (pieces : List Bytes) (stream buffer : Bytes) (end : ℕ)
    → find stream header_terminator ≡ some end
    → buffer ++ join pieces ≡ stream
    → All IsPiece pieces
    → end + 4 ≤ max_header_size
    → Completes stream (end + 4) (read_until_headers_complete (map ok pieces) buffer)
unfolding read_until_headers_complete
read_until-Completes [] stream buffer end f b p m =
    headers_end-Completes stream buffer [] end (err headers_closed)
      (find_bytes buffer header_terminator) refl f b p m
      λ none_found short.
        absurd
          (cc (none_found, ap (λ t. find t header_terminator) (sym (append-nil buffer) ∙ b), f))
read_until-Completes ([] ∷ pieces) stream buffer end f b p m = absurd (omega (arith, p.0))
read_until-Completes ((c ∷ cs) ∷ pieces) stream buffer end f b p m =
    headers_end-Completes stream buffer ((c ∷ cs) ∷ pieces) end
      (read_until_headers_complete (map ok pieces) (buffer ++ (c ∷ cs)))
      (find_bytes buffer header_terminator) refl f b p m
      λ none_found short.
        read_until-Completes pieces stream (buffer ++ (c ∷ cs)) end f
          (append_assoc buffer (c ∷ cs) (join pieces) ∙ b) p.1 m

-- The body that is read holds what is expected of the stream.
Fills : Bytes → ℕ → Result Bytes → Type 0
Fills stream n r = (whole : Bytes) × (r ≡ ok whole) × (take n whole ≡ take n stream)

read_body-Fills :
    (pieces : List Bytes) (stream body : Bytes) (n : ℕ)
    → body ++ join pieces ≡ stream
    → All IsPiece pieces
    → n ≤ length stream
    → Fills stream n (read_body (map ok pieces) body n)
unfolding read_body Fills
read_body-Fills [] stream body n b p h =
    let same : body ≡ stream = sym (append-nil body) ∙ b in
    (body, rw (le→ltb (length body) n (omega (arith, ap length same))) refl, ap (take n) same)
read_body-Fills ([] ∷ pieces) stream body n b p h = absurd (omega (arith, p.0))
read_body-Fills ((c ∷ cs) ∷ pieces) stream body n b p h =
    let later =
      read_body-Fills pieces stream (body ++ (c ∷ cs)) n
        (append_assoc body (c ∷ cs) (join pieces) ∙ b) p.1 h in
    elim (Bool-cases (ltb (length body) n)) [
      | inl e ↦ rw e later
      | inr e ↦ rw e (
        body,
        refl,
        sym (take_prefix n body (join ((c ∷ cs) ∷ pieces)) (ltb→le (length body) n e))
            ∙ ap (take n) b,
      )
    ]

receive_body-length :
    (headers : Headers) (value : Text) (n : ℕ) (pieces : List Bytes) (stream body : Bytes)
    → header_value headers (codes "Content-Length") ≡ some value
    → parse_uint (2 ^ 64 - 1) (trim value) ≡ some n
    → body ++ join pieces ≡ stream
    → All IsPiece pieces
    → n ≤ length stream
    → receive_body headers (map ok pieces) body ≡ ok (take n stream)
unfolding receive_body Fills
receive_body-length headers value n pieces stream body v u b p h =
    let (whole, e, fills) = read_body-Fills pieces stream body n b p h in
    rw (receive_body, v, u, e) (ap ok fills)

drop_stream :
    (end : ℕ) (buffer more head body : Bytes)
    → buffer ++ more ≡ head ++ body
    → end ≡ length head
    → end ≤ length buffer
    → (take end buffer ≡ head) × (drop end buffer ++ more ≡ body)
drop_stream end buffer more head body e l h = (
  sym (take_prefix end buffer more h)
      ∙ ap (take end) e
      ∙ ap (λ n. take n (head ++ body)) l
      ∙ take-length head body,
  sym (drop_prefix end buffer more h)
      ∙ ap (drop end) e
      ∙ ap (λ n. drop n (head ++ body)) l
      ∙ drop-length head body,
)

-- A response whose head ends with the first empty line, is of 65536 bytes at most, parses, and has a
-- Content-Length that reads as `n`, followed by `n` bytes or more, is received the same in whatever
-- pieces it comes that are not empty: with exactly the first `n` bytes as its body, or as a refusal if
-- they hold a marker of one.
pub http_receive_pieces :
    (from_utf8 : Bytes → Option Text) (pieces : List Bytes) (head body : Bytes) (end n status : ℕ)
    (reason value : Text) (headers : Headers)
    → All IsPiece pieces
    → join pieces ≡ head ++ body
    → find_bytes (head ++ body) header_terminator ≡ some end
    → end + 4 ≡ length head
    → length head ≤ max_header_size
    → parse_headers from_utf8 head ≡ ok (status, reason, headers)
    → header_value headers (codes "Content-Length") ≡ some value
    → parse_uint (2 ^ 64 - 1) (trim value) ≡ some n
    → n ≤ length body
    → http_receive from_utf8 (map ok pieces) ≡ (
        refuse_if (contains_permission_denied_marker (take n body)) permission_denied
        >> ok (record {
          status_code = status;
          reason = reason;
          headers = headers;
          body = take n body;
        }))
unfolding http_receive Completes
http_receive_pieces from_utf8 pieces head body end n status reason value headers p j f l m h v u
      fits =
    let (buffer, left, e, p', b, inside) =
      read_until-Completes pieces (head ++ body) [] end f j p (omega (arith, l)) in
    let (taken, dropped) = drop_stream (end + 4) buffer (join left) head body b l inside in
    rw
      (
        e,
        taken,
        h,
        receive_body-length headers value n left body (drop (end + 4) buffer) v u dropped p' fits,
      )
      refl
