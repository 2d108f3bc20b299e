-- ===== src/Proxy/Dns/Response.antt =====
-- A whole response read by src/proxy/dns.rs.
use openfortivpn_rs.Proxy.Dns.{
  questions_loop, answers_loop, parse_message, parse_tcp_response, skip_name,
}
use openfortivpn_rs.Proxy.Dns.Names.{labels_bytes, IsLabel, skip_name-labels_bytes}
use openfortivpn_rs.Proxy.Dns.Answers.{
  Answer, encode_answers, addresses, answers_loop-encode_answers,
}
use openfortivpn_rs.Common.{
  ℕ, ◌+◌, ◌-◌, ◌%◌, ◌/◌, ◌≤◌, bit_and, false, List, [], ◌∷◌, ◌++◌, append_assoc, ◌≡◌, sym, ap, ap₂,
  ◌∙◌, arith, le→ltb, ◌==◌, ==_refl, ◌*◌, length, length-append, take-length, take, All,
}
use openfortivpn_rs.Common.Bytes.{Bytes, be_u16}
use openfortivpn_rs.Common.Error.{ok, ◌>>=◌}

-- The header of a response, its one question, its answers, and what follows them.
abbrev header : ℕ → ℕ → ℕ → Bytes
header id flags ancount =
    (id / 256)
    ∷ (id % 256)
    ∷ (flags / 256)
    ∷ (flags % 256)
    ∷ 0
    ∷ 1
    ∷ (ancount / 256)
    ∷ (ancount % 256)
    ∷ 0
    ∷ 0
    ∷ 0
    ∷ 0
    ∷ []

abbrev question : List Bytes → Bytes
question ls = labels_bytes ls ++ (0 ∷ 0 ∷ 1 ∷ 0 ∷ 1 ∷ [])

abbrev pub response_message : ℕ → ℕ → List Bytes → List Answer → Bytes → Bytes
response_message id flags ls answers rest =
    header id flags (length answers) ++ (question ls ++ encode_answers answers rest)

questions_step :
    (message : Bytes) (offset named : ℕ)
    → skip_name message offset ≡ ok named
    → named + 4 ≤ length message
    → questions_loop 1 message offset ≡ ok (named + 4)
unfolding questions_loop
questions_step message offset named a b = rw (a, le→ltb (length message) (named + 4) b)

one_question :
    (before : Bytes) (ls : List Bytes) (rest : Bytes)
    → All IsLabel ls
    → length ls ≤ 128
    → questions_loop 1 (before ++ (question ls ++ rest)) (length before)
      ≡ ok (length before + length (question ls))
one_question before ls rest h few =
    rw (append_assoc (labels_bytes ls) (0 ∷ 0 ∷ 1 ∷ 0 ∷ 1 ∷ []) rest) (
      questions_step (before ++ (labels_bytes ls ++ (0 ∷ 0 ∷ 1 ∷ 0 ∷ 1 ∷ rest))) (length before)
        (length before + (length (labels_bytes ls) + 1))
        (skip_name-labels_bytes ls before (0 ∷ 1 ∷ 0 ∷ 1 ∷ rest) h few)
        (omega (
          arith,
          length-append before (labels_bytes ls ++ (0 ∷ 0 ∷ 1 ∷ 0 ∷ 1 ∷ rest)),
          length-append (labels_bytes ls) (0 ∷ 0 ∷ 1 ∷ 0 ∷ 1 ∷ rest),
        ))
      ∙ ap ok (omega (arith, length-append (labels_bytes ls) (0 ∷ 0 ∷ 1 ∷ 0 ∷ 1 ∷ []))))

word : (n : ℕ) → n / 256 * 256 + n % 256 ≡ n
word n = omega arith

-- The checks of the header, and what they lead to.
header_checked :
    (id flags ancount : ℕ) (body : Bytes)
    → (bit_and flags 0x8000 == 0) ≡ false
    → bit_and flags 0x000f ≡ 0
    → let message = header id flags ancount ++ body in
      parse_message message id
      ≡ (questions_loop 1 message 12 >>= λ offset. answers_loop ancount message offset [])
unfolding parse_message
header_checked id flags ancount body a b = rw (
  word id,
  word flags,
  word ancount,
  le→ltb (length (header id flags ancount ++ body)) 12 (omega arith),
  ==_refl id,
  a,
  b,
)

minus_two : (n : ℕ) → 2 + n - 2 ≡ n
minus_two n = omega arith

framed :
    (id : ℕ) (message behind : Bytes)
    → parse_tcp_response (be_u16 (length message) ++ (message ++ behind)) id
      ≡ parse_message message id
unfolding parse_tcp_response
framed id message behind =
    rw
      (
        word (length message),
        le→ltb (length (be_u16 (length message) ++ (message ++ behind))) 2 (omega arith),
        le→ltb (length (be_u16 (length message) ++ (message ++ behind))) (2 + length message)
            (omega (arith, length-append message behind)),
      )
      (ap (λ t. parse_message t id)
        (ap (λ n. take n (message ++ behind)) (minus_two (length message))
          ∙ take-length message behind))

body_read :
    (id flags : ℕ) (ls : List Bytes) (answers : List Answer) (rest : Bytes)
    → All IsLabel ls
    → length ls ≤ 128
    → let message = response_message id flags ls answers rest in
      (questions_loop 1 message 12 >>= λ offset. answers_loop (length answers) message offset [])
      ≡ ok (addresses answers)
body_read id flags ls answers rest h few =
    let before = header id flags (length answers) in
    ap
      (λ r. r >>= λ offset.
        answers_loop (length answers) (response_message id flags ls answers rest) offset [])
      (one_question before ls (encode_answers answers rest) h few)
    ∙ ap₂ (λ m o. answers_loop (length answers) m o [])
        (sym (append_assoc before (question ls) (encode_answers answers rest)))
        (sym (length-append before (question ls)))
    ∙ answers_loop-encode_answers answers (before ++ question ls) rest []

-- A framed response to the query `id`, marked as a response and with rcode 0, that holds one question
-- with a name of at most 128 labels of 1 to 63 bytes and then answers of any types, whose names are
-- pointers to that name, gives exactly the addresses of its answers of type A, class IN and four
-- bytes, in their order. What follows, in the message or in the stream, changes nothing.
pub parse_tcp_response-response_message :
    (id flags : ℕ) (ls : List Bytes) (answers : List Answer) (rest behind : Bytes)
    → (bit_and flags 0x8000 == 0) ≡ false
    → bit_and flags 0x000f ≡ 0
    → All IsLabel ls
    → length ls ≤ 128
    → let message = response_message id flags ls answers rest in
      parse_tcp_response (be_u16 (length message) ++ (message ++ behind)) id
      ≡ ok (addresses answers)
parse_tcp_response-response_message id flags ls answers rest behind marked no_error h few =
    framed id (response_message id flags ls answers rest) behind
    ∙ header_checked id flags (length answers) (question ls ++ encode_answers answers rest) marked
        no_error
    ∙ body_read id flags ls answers rest h few
