-- ===== src/Proxy/Dns/Answers.antt =====
-- The answers of a response are read back by src/proxy/dns.rs.
use openfortivpn_rs.Proxy.Dns.{push_address, answers_loop, skip_name}
use openfortivpn_rs.Proxy.Dns.Names.{skip_name-pointer}
use openfortivpn_rs.Common.{
  ℕ, suc, ◌+◌, ◌%◌, ◌/◌, ◌≤◌, ◌<◌, ◌&&◌, List, [], ◌∷◌, ◌++◌, append_assoc, append-nil, ◌≡◌, refl,
  sym, ap, ap₂, ◌∙◌, arith, le→ltb, ◌==◌, if◌then◌else◌, length, length-append, get_or-append,
  get_or-prefix,
}
use openfortivpn_rs.Common.Bytes.{Bytes, at, from_be_u16}
use openfortivpn_rs.Common.Error.{ok}
use openfortivpn_rs.Common.Ipv4.{Ipv4Addr, read}

-- A resource record whose name is a pointer to the question.
pub record Answer : Type 0 where
  pub rr_type : ℕ
  pub class : ℕ
  pub ttl_high : ℕ
  pub ttl_low : ℕ
  pub rdata : Bytes

abbrev pub encode_answer : Answer → Bytes → Bytes
encode_answer a rest =
    0xc0
    ∷ 0x0c
    ∷ (a.rr_type / 256)
    ∷ (a.rr_type % 256)
    ∷ (a.class / 256)
    ∷ (a.class % 256)
    ∷ (a.ttl_high / 256)
    ∷ (a.ttl_high % 256)
    ∷ (a.ttl_low / 256)
    ∷ (a.ttl_low % 256)
    ∷ (length a.rdata / 256)
    ∷ (length a.rdata % 256)
    ∷ (a.rdata ++ rest)

-- The answers, in front of the rest of the message.
unfoldable pub encode_answers : List Answer → Bytes → Bytes
encode_answers [] rest = rest
encode_answers (a ∷ answers) rest = encode_answer a (encode_answers answers rest)

-- The addresses among the answers: the data of those of type A, class IN and four bytes.
unfoldable pub addresses : List Answer → List Ipv4Addr
addresses [] = []
addresses (a ∷ answers) =
    if a.rr_type == 1 && a.class == 1 && length a.rdata == 4
    then read a.rdata 0 ∷ addresses answers
    else addresses answers

answers_step :
    (left : ℕ) (message : Bytes) (offset : ℕ) (addrs : List Ipv4Addr)
    (named rr_type class rdlen : ℕ)
    → skip_name message offset ≡ ok named
    → from_be_u16 (at message named) (at message (named + 1)) ≡ rr_type
    → from_be_u16 (at message (named + 2)) (at message (named + 3)) ≡ class
    → from_be_u16 (at message (named + 8)) (at message (named + 9)) ≡ rdlen
    → named + 10 + rdlen ≤ length message
    → answers_loop (suc left) message offset addrs
      ≡ answers_loop left message
          (named + 10 + rdlen)
          (push_address message rr_type class rdlen (named + 10) addrs)
unfolding answers_loop
answers_step left message offset addrs named rr_type class rdlen a b c d f = rw (
  a,
  b,
  c,
  d,
  le→ltb (length message) (named + 10) (omega arith),
  le→ltb (length message) (named + 10 + rdlen) f,
)

at_behind :
    (before tail : Bytes) (i n : ℕ) → i ≡ length before + n → at (before ++ tail) i ≡ at tail n
at_behind before tail i n e = ap (at (before ++ tail)) e ∙ get_or-append 0 before tail n

module _ (before : Bytes) (a : Answer) (rest : Bytes) where
  abbrev message : Bytes
  message = before ++ encode_answer a rest

  abbrev named : ℕ
  named = length before + 2

  word_at :
      (i j k n : ℕ)
      → i ≡ length before + k
      → j ≡ length before + suc k
      → n / 256 ≡ at (encode_answer a rest) k
      → n % 256 ≡ at (encode_answer a rest) (suc k)
      → from_be_u16 (at message i) (at message j) ≡ n
  word_at i j k n e e' high low =
      ap₂ from_be_u16 (at_behind before (encode_answer a rest) i k e ∙ sym high)
        (at_behind before (encode_answer a rest) j (suc k) e' ∙ sym low)
      ∙ omega arith

  rdata_at : length a.rdata ≡ 4 → read message (named + 10) ≡ read a.rdata 0
  rdata_at four = cc (
    byte 0 (named + 10) (omega arith) (omega arith),
    byte 1 (named + 10 + 1) (omega arith) (omega arith),
    byte 2 (named + 10 + 2) (omega arith) (omega arith),
    byte 3 (named + 10 + 3) (omega arith) (omega arith),
  )
    where
      byte :
          (j i : ℕ)
          → i
            ≡ length before
              + (suc (suc (suc (suc (suc (suc (suc (suc (suc (suc (suc (suc j))))))))))))
          → j < length a.rdata
          → at message i ≡ at a.rdata j
      byte j i e h =
          at_behind before (encode_answer a rest) i _ e ∙ get_or-prefix 0 a.rdata rest j h

  abbrev found : List Ipv4Addr
  found = if a.rr_type == 1 && a.class == 1 && length a.rdata == 4 then read a.rdata 0 ∷ [] else []

  push_address-found :
      (addrs : List Ipv4Addr)
      → push_address message a.rr_type a.class (length a.rdata) (named + 10) addrs ≡ addrs ++ found
  unfolding push_address
  push_address-found addrs = ground (arith, rdata_at, append-nil addrs)

  -- One answer is read, and the loop goes on behind it.
  answer_round :
      (left : ℕ) (addrs : List Ipv4Addr)
      → answers_loop (suc left) message (length before) addrs
        ≡ answers_loop left message (named + 10 + length a.rdata) (addrs ++ found)
  answer_round left addrs =
      answers_step left message (length before) addrs named a.rr_type a.class (length a.rdata)
        (skip_name-pointer before _ 0x0c)
        (word_at named (named + 1) 2 a.rr_type (omega arith) (omega arith) refl refl)
        (word_at (named + 2) (named + 3) 4 a.class (omega arith) (omega arith) refl refl)
        (word_at (named + 8) (named + 9) 10 (length a.rdata) (omega arith) (omega arith) refl refl)
        (omega (arith, length-append before (encode_answer a rest), length-append a.rdata rest))
      ∙ ap (answers_loop left message (named + 10 + length a.rdata)) (push_address-found addrs)

abbrev head_of : Answer → Bytes
head_of a = encode_answer a []

head_split :
    (before : Bytes) (a : Answer) (rest : Bytes)
    → before ++ encode_answer a rest ≡ (before ++ head_of a) ++ rest
head_split before a rest = simp (append_assoc, append-nil)

length-head_of : (a : Answer) → length (head_of a) ≡ 12 + length a.rdata
length-head_of a = omega (arith, length-append a.rdata [])

found-addresses :
    (before : Bytes) (a : Answer) (answers : List Answer) (rest : Bytes)
    → found before a rest ++ addresses answers ≡ addresses (a ∷ answers)
unfolding addresses
found-addresses before a answers rest = ground arith

-- The loop reads all the answers, wherever they begin, and keeps the addresses in order.
pub answers_loop-encode_answers :
    (answers : List Answer) (before rest : Bytes) (addrs : List Ipv4Addr)
    → answers_loop (length answers) (before ++ encode_answers answers rest) (length before) addrs
      ≡ ok (addrs ++ addresses answers)
unfolding encode_answers
answers_loop-encode_answers [] before rest addrs =
    unfold answers_loop addresses in ap ok (sym (append-nil addrs))
answers_loop-encode_answers (a ∷ answers) before rest addrs =
    let later = encode_answers answers rest in
    answer_round before a later (length answers) addrs
    ∙ ap₂ (λ m o. answers_loop (length answers) m o (addrs ++ found before a later))
        (head_split before a later)
        (omega (arith, length-append before (head_of a), length-head_of a))
    ∙ answers_loop-encode_answers answers (before ++ head_of a) rest (addrs ++ found before a later)
    ∙ ap ok (
        append_assoc addrs (found before a later) (addresses answers)
        ∙ ap (λ t. addrs ++ t) (found-addresses before a answers later))
