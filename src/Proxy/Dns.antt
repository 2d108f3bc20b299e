-- ===== src/Proxy/Dns.antt =====
-- src/proxy/dns.rs: DNS queries over TCP, and the addresses of their answers.
pub mod Names
pub mod Answers
pub mod Response
use openfortivpn_rs.Common.{
  ℕ, zero, suc, ◌+◌, ◌-◌, ◌%◌, bit_and, Bool, true, false, ◌&&◌, ◌||◌, List, [], ◌∷◌, ◌++◌, ltb,
  leb, ◌==◌, ◌!=◌, if◌then◌else◌, length, drop, take,
}
use openfortivpn_rs.Common.Bytes.{Bytes, at, as_u16, be_u16, from_be_u16, slice}
use openfortivpn_rs.Common.Error.{Result, ok, err, ◌>>=◌, ◌>>◌, refuse_if, network, text, num, str}
use openfortivpn_rs.Common.Ipv4.{Ipv4Addr, read}
use openfortivpn_rs.Common.Text.{split, trim_end_matches, is_empty}

abbrev pub dns_type_a : ℕ
dns_type_a = 1

abbrev pub dns_class_in : ℕ
dns_class_in = 1

abbrev pub dns_header_len : ℕ
dns_header_len = 12

-- The loop of `encode_name` over the labels.
unfoldable pub encode_labels : Bytes → List Bytes → Bytes → Result Bytes
encode_labels name [] out = ok out
encode_labels name (label ∷ labels) out = do
  refuse_if (is_empty label || ltb 63 (length label))
      (network (text "bad DNS label in " ∷ str name ∷ []))
  encode_labels name labels (out ++ (length label ∷ label))

unfoldable pub encode_name : Bytes → Bytes → Result Bytes
encode_name name out =
    let trimmed = trim_end_matches b'.' name in
    if is_empty trimmed
    then ok (out ++ 0 ∷ [])
    else encode_labels name (split b'.' trimmed) out >>= λ out'. ok (out' ++ 0 ∷ [])

unfoldable pub query_header : ℕ → Bytes
query_header id = be_u16 id ++ (be_u16 0x0100 ++ (be_u16 1 ++ (be_u16 0 ++ (be_u16 0 ++ be_u16 0))))

unfoldable pub build_tcp_query : ℕ → Bytes → Result Bytes
build_tcp_query id name = do
  named ← encode_name name (query_header id)
  let message = named ++ (be_u16 dns_type_a ++ be_u16 dns_class_in)
  refuse_if (ltb 65535 (length message))
      (network (text "DNS query for " ∷ str name ∷ text " is too large" ∷ []))
  ok (be_u16 (as_u16 (length message)) ++ message)

-- One round of `skip_name`: the name ends before an offset, or a label does.
pub data NameStep : Type 0 where
  ended : ℕ → NameStep
  label : ℕ → NameStep

unfoldable pub skip_step : Bytes → ℕ → Result NameStep
skip_step message offset = do
  refuse_if (leb (length message) offset) (network (text "truncated DNS name" ∷ []))
  let len = at message offset
  let pointer = bit_and len 0xc0 == 0xc0
  refuse_if (pointer && leb (length message) (offset + 1))
      (network (text "truncated DNS name pointer" ∷ []))
  refuse_if (bit_and len 0xc0 != 0 && bit_and len 0xc0 != 0xc0)
      (network (text "unsupported DNS label encoding" ∷ []))
  ok (
      if pointer
      then ended (offset + 2)
      else if len == 0
      then ended (offset + 1)
      else label (offset + (1 + len)))

-- `left` is 128 - jumps: with none left, one more label makes `jumps > 128`.
unfoldable pub skip_loop : ℕ → Bytes → ℕ → Result ℕ
skip_loop zero message offset = skip_step message offset >>= λ s. elim s [
  | ended end ↦ ok end
  | label next ↦ err (network (text "DNS name too deep" ∷ []))
]
skip_loop (suc left) message offset = skip_step message offset >>= λ s. elim s [
  | ended end ↦ ok end
  | label next ↦ skip_loop left message next
]

unfoldable pub skip_name : Bytes → ℕ → Result ℕ
skip_name message offset = skip_loop 128 message offset

unfoldable pub questions_loop : ℕ → Bytes → ℕ → Result ℕ
questions_loop zero message offset = ok offset
questions_loop (suc left) message offset = do
  named ← skip_name message offset
  refuse_if (ltb (length message) (named + 4)) (network (text "truncated DNS question" ∷ []))
  questions_loop left message (named + 4)

-- What an answer adds to `addrs`, with its data at `offset`.
unfoldable pub push_address : Bytes → ℕ → ℕ → ℕ → ℕ → List Ipv4Addr → List Ipv4Addr
push_address message rr_type class rdlen offset addrs =
    if rr_type == dns_type_a && class == dns_class_in && rdlen == 4
    then addrs ++ read message offset ∷ []
    else addrs

unfoldable pub answers_loop : ℕ → Bytes → ℕ → List Ipv4Addr → Result (List Ipv4Addr)
answers_loop zero message offset addrs = ok addrs
answers_loop (suc left) message offset addrs = do
  named ← skip_name message offset
  refuse_if (ltb (length message) (named + 10)) (network (text "truncated DNS answer" ∷ []))
  let rr_type = from_be_u16 (at message named) (at message (named + 1))
  let class = from_be_u16 (at message (named + 2)) (at message (named + 3))
  let rdlen = from_be_u16 (at message (named + 8)) (at message (named + 9))
  let rdata = named + 10
  refuse_if (ltb (length message) (rdata + rdlen)) (network (text "truncated DNS rdata" ∷ []))
  answers_loop left message (rdata + rdlen) (push_address message rr_type class rdlen rdata addrs)

unfoldable pub parse_message : Bytes → ℕ → Result (List Ipv4Addr)
parse_message message expected_id = do
  refuse_if (ltb (length message) dns_header_len) (network (text "short DNS response" ∷ []))
  let id = from_be_u16 (at message 0) (at message 1)
  refuse_if (id != expected_id) (network (text "DNS response id mismatch" ∷ []))
  let flags = from_be_u16 (at message 2) (at message 3)
  refuse_if (bit_and flags 0x8000 == 0)
      (network (text "DNS response is not marked as response" ∷ []))
  let rcode = bit_and flags 0x000f
  refuse_if (rcode != 0) (network (text "DNS response returned rcode " ∷ num rcode ∷ []))
  let qdcount = from_be_u16 (at message 4) (at message 5)
  let ancount = from_be_u16 (at message 6) (at message 7)
  offset ← questions_loop qdcount message dns_header_len
  answers_loop ancount message offset []

-- A frame that is not whole yet gives no address and no error.
unfoldable pub parse_tcp_response : Bytes → ℕ → Result (List Ipv4Addr)
parse_tcp_response frame expected_id =
    let len = from_be_u16 (at frame 0) (at frame 1) in
    if ltb (length frame) 2
    then ok []
    else if ltb (length frame) (2 + len)
    then ok []
    else parse_message (slice 2 (2 + len) frame) expected_id
