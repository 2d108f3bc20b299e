-- ===== src/Proxy/Dns/Names.antt =====
-- Names in src/proxy/dns.rs: `skip_name` stays inside the message, and passes over every name that
-- `encode_name` writes.
use openfortivpn_rs.Proxy.Dns.{
  NameStep, ended, label, encode_labels, skip_step, skip_loop, skip_name,
}
use openfortivpn_rs.Common.{
  ℕ, zero, suc, ◌+◌, ◌≤◌, ◌<◌, bit_and, true, List, [], ◌∷◌, ◌++◌, append_assoc, ◌≡◌, refl, sym, ap,
  ap₂, subst, append-nil, ◌∙◌, arith, le→ltb, ◌==◌, ==_iff, length, length-append, get_or-append,
  All,
}
use openfortivpn_rs.Common.Bits.{all_below, all_below_sound}
use openfortivpn_rs.Common.Bytes.{Bytes, at}
use openfortivpn_rs.Common.Error.{Result, ok, err, ◌>>=◌, network, text}

-- A step that ends does so behind `offset` and inside the message; a label leads forward.
abbrev StepIs : Bytes → ℕ → Result NameStep → Type 0
StepIs message offset (ok (ended end)) = (offset < end) × (end ≤ length message)
StepIs message offset (ok (label next)) = offset < next
StepIs message offset (err e) = Unit

skip_step-StepIs : (message : Bytes) (offset : ℕ) → StepIs message offset (skip_step message offset)
unfolding skip_step
skip_step-StepIs message offset = ground arith

abbrev EndIs : Bytes → ℕ → Result ℕ → Type 0
EndIs message offset (ok end) = (offset < end) × (end ≤ length message)
EndIs message offset (err e) = Unit

EndIs-later :
    (message : Bytes) (offset next : ℕ) (r : Result ℕ)
    → offset < next
    → EndIs message next r
    → EndIs message offset r
EndIs-later message offset next (ok end) h e = omega arith
EndIs-later message offset next (err x) h e = tt

skip_loop-EndIs :
    (left : ℕ) (message : Bytes) (offset : ℕ) → EndIs message offset (skip_loop left message offset)
unfolding skip_loop
skip_loop-EndIs zero message offset =
    go (skip_step message offset) (skip_step-StepIs message offset)
  where
    go :
        (r : Result NameStep)
        → StepIs message offset r
        → EndIs message offset (
            r >>= λ s. elim s [
              | ended end ↦ ok end
              | label next ↦ err (network (text "DNS name too deep" ∷ []))
            ])
    go (ok (ended end)) h = h
    go (ok (label next)) h = tt
    go (err e) h = tt
skip_loop-EndIs (suc left) message offset =
    go (skip_step message offset) (skip_step-StepIs message offset)
      (λ next. skip_loop-EndIs left message next)
  where
    go :
        (r : Result NameStep)
        → StepIs message offset r
        → ((next : ℕ) → EndIs message next (skip_loop left message next))
        → EndIs message offset
            (r >>= λ s. elim s [ ended end ↦ ok end | label next ↦ skip_loop left message next ])
    go (ok (ended end)) h later = h
    go (ok (label next)) h later =
        EndIs-later message offset next (skip_loop left message next) h (later next)
    go (err e) h later = tt

-- A name that is passed over is not empty and ends inside the message, whatever bytes stand there.
pub skip_name_bounds :
    (message : Bytes) (offset end : ℕ)
    → skip_name message offset ≡ ok end
    → (offset < end) × (end ≤ length message)
unfolding skip_name
skip_name_bounds message offset end h =
    subst (EndIs message offset) h (skip_loop-EndIs 128 message offset)

-- The labels of a name as they are written, without the closing zero.
unfoldable pub labels_bytes : List Bytes → Bytes
labels_bytes [] = []
labels_bytes (l ∷ ls) = length l ∷ (l ++ labels_bytes ls)

abbrev pub IsLabel : Bytes → Type 0
IsLabel l = (0 < length l) × (length l ≤ 63)

pub encode_labels-labels_bytes :
    (name out : Bytes) (ls : List Bytes)
    → All IsLabel ls
    → encode_labels name ls out ≡ ok (out ++ labels_bytes ls)
unfolding encode_labels labels_bytes
encode_labels-labels_bytes name out [] h = ap ok (sym (append-nil out))
encode_labels-labels_bytes name out ([] ∷ ls) h = absurd (omega arith)
encode_labels-labels_bytes name out ((c ∷ cs) ∷ ls) h = rw (le→ltb 63 (length (c ∷ cs)) h.0.1) (
    encode_labels-labels_bytes name (out ++ (length (c ∷ cs) ∷ c ∷ cs)) ls h.1
    ∙ ap ok (append_assoc out (length (c ∷ cs) ∷ c ∷ cs) (labels_bytes ls)))

short_label_table : all_below 64 (λ l. bit_and l 0xc0 == 0) ≡ true
unfolding all_below
short_label_table = refl

short_label : (l : ℕ) → l ≤ 63 → bit_and l 0xc0 ≡ 0
short_label l h = (==_iff _ 0).0 (all_below_sound 64 _ l short_label_table (omega arith))

skip_step-label :
    (message : Bytes) (offset len : ℕ)
    → at message offset ≡ len
    → 0 < len
    → len ≤ 63
    → offset < length message
    → skip_step message offset ≡ ok (label (offset + (1 + len)))
unfolding skip_step
skip_step-label message offset len e pos short inside = rw (e, short_label len short) (ground arith)

skip_step-zero :
    (message : Bytes) (offset : ℕ)
    → at message offset ≡ 0
    → offset < length message
    → skip_step message offset ≡ ok (ended (offset + 1))
unfolding skip_step
skip_step-zero message offset e inside = rw e (ground arith)

skip_step-pointer :
    (message : Bytes) (offset : ℕ)
    → at message offset ≡ 0xc0
    → offset + 1 < length message
    → skip_step message offset ≡ ok (ended (offset + 2))
unfolding skip_step
skip_step-pointer message offset e inside = rw e (ground arith)

-- A compression pointer with a high byte of 0xc0 is passed over by its two bytes.
pub skip_name-pointer :
    (before rest : Bytes) (low : ℕ)
    → skip_name (before ++ (0xc0 ∷ low ∷ rest)) (length before) ≡ ok (length before + 2)
unfolding skip_name skip_loop
skip_name-pointer before rest low = rw (
    skip_step-pointer (before ++ (0xc0 ∷ low ∷ rest)) (length before)
      (ap (at (before ++ (0xc0 ∷ low ∷ rest))) (omega arith)
        ∙ get_or-append 0 before (0xc0 ∷ low ∷ rest) 0)
      (omega (arith, length-append before (0xc0 ∷ low ∷ rest))))

skip_loop-ended :
    (left : ℕ) (message : Bytes) (offset end : ℕ)
    → skip_step message offset ≡ ok (ended end)
    → skip_loop left message offset ≡ ok end
unfolding skip_loop
skip_loop-ended zero message offset end h = rw h
skip_loop-ended (suc left) message offset end h = rw h

skip_loop-label :
    (left : ℕ) (message : Bytes) (offset next : ℕ)
    → skip_step message offset ≡ ok (label next)
    → skip_loop (suc left) message offset ≡ skip_loop left message next
unfolding skip_loop
skip_loop-label left message offset next h = rw h

-- The byte at the end of a prefix.
at-length : (before rest : Bytes) (b : ℕ) → at (before ++ b ∷ rest) (length before) ≡ b
at-length before rest b =
    ap (at (before ++ b ∷ rest)) (omega arith) ∙ get_or-append 0 before (b ∷ rest) 0

skip_loop-labels_bytes :
    (ls : List Bytes) (left : ℕ) (before rest : Bytes)
    → All IsLabel ls
    → length ls ≤ left
    → skip_loop left (before ++ (labels_bytes ls ++ 0 ∷ rest)) (length before)
      ≡ ok (length before + (length (labels_bytes ls) + 1))
unfolding labels_bytes
skip_loop-labels_bytes [] left before rest h f =
    skip_loop-ended left (before ++ 0 ∷ rest) (length before) (length before + 1) (
      skip_step-zero (before ++ 0 ∷ rest) (length before) (at-length before rest 0)
        (omega (arith, length-append before (0 ∷ rest))))
skip_loop-labels_bytes (l ∷ ls) zero before rest h f = absurd (omega arith)
skip_loop-labels_bytes (l ∷ ls) (suc left) before rest h f =
    let behind = length l ∷ ((l ++ labels_bytes ls) ++ 0 ∷ rest) in
    let before' = before ++ (length l ∷ l) in
    skip_loop-label left (before ++ behind) (length before) (length before + (1 + length l)) (
      skip_step-label (before ++ behind) (length before) (length l)
        (at-length before ((l ++ labels_bytes ls) ++ 0 ∷ rest) (length l)) h.0.0 h.0.1
        (omega (arith, length-append before behind)))
    ∙ ap₂ (skip_loop left) (simp append_assoc) (omega (arith, length-append before (length l ∷ l)))
    ∙ skip_loop-labels_bytes ls left before' rest h.1 (omega arith)
    ∙ ap ok (omega (arith, length-append before (length l ∷ l), length-append l (labels_bytes ls)))

-- A name of at most 128 labels of 1 to 63 bytes is passed over by its labels and its closing zero,
-- wherever it stands in the message.
pub skip_name-labels_bytes :
    (ls : List Bytes) (before rest : Bytes)
    → All IsLabel ls
    → length ls ≤ 128
    → skip_name (before ++ (labels_bytes ls ++ 0 ∷ rest)) (length before)
      ≡ ok (length before + (length (labels_bytes ls) + 1))
unfolding skip_name
skip_name-labels_bytes ls before rest h f = skip_loop-labels_bytes ls 128 before rest h f
