-- ===== src/Hdlc/Frames.antt =====
-- What `find_frame` of src/hdlc.rs finds, against a reader of the stream that takes one byte at a time.
pub mod Found
use openfortivpn_rs.Hdlc.{first_flag}
use openfortivpn_rs.Hdlc.Escape.{NoFlag}
use openfortivpn_rs.Common.{
  ℕ, zero, suc, ◌+◌, ◌-◌, ◌≤◌, ◌<◌, Bool, true, false, List, [], ◌∷◌, ◌++◌, append_assoc,
  append-nil, ◌⊎◌, inl, inr, ◌≡◌, refl, sym, ap, ap₂, ◌∙◌, arith, Option, none, some, ◌==◌, ==_iff,
  if◌then◌else◌, Bool-cases, Option-cases, length, take, drop, drop-drop, drop-suc, drop-cons-lt,
  take-append-drop,
}
use openfortivpn_rs.Common.Bytes.{Bytes, slice}
use openfortivpn_rs.Common.Error.{
  Result, ok, err, ◌>>=◌, ok_or, OpenfortivpnError, hdlc_no_frame_found,
}

-- No flag was seen yet, or the bytes since the last flag.
pub data Mode : Type 0 where
  hunting : Mode
  inside : Bytes → Mode

abbrev pub next : Mode → ℕ → Mode
next hunting b = if b == 0x7e then inside [] else hunting
next (inside acc) b = if b == 0x7e then inside [] else inside (acc ++ b ∷ [])

-- A flag ends a frame that is not empty.
abbrev pub emit : Mode → ℕ → List Bytes
emit hunting b = []
emit (inside []) b = []
emit (inside (x ∷ acc)) b = if b == 0x7e then (x ∷ acc) ∷ [] else []

abbrev pub prepend : List Bytes → List Bytes × Mode → List Bytes × Mode
prepend xs p = (xs ++ p.0, p.1)

-- The frames of a stream, and the mode at its end.
abbrev pub scan : Mode → Bytes → List Bytes × Mode
scan m [] = ([], m)
scan m (b ∷ bs) = prepend (emit m b) (scan (next m b) bs)

prepend-append :
    (xs ys : List Bytes) (p : List Bytes × Mode) → prepend (xs ++ ys) p ≡ prepend xs (prepend ys p)
prepend-append xs ys p = ap (λ t. (t, p.1)) (append_assoc xs ys p.0)

-- The stream may arrive in any pieces.
pub scan-append :
    (m : Mode) (xs ys : Bytes) → scan m (xs ++ ys) ≡ prepend (scan m xs).0 (scan (scan m xs).1 ys)
scan-append m [] ys = refl
scan-append m (x ∷ xs) ys =
    ap (prepend (emit m x)) (scan-append (next m x) xs ys) ∙ sym (prepend-append (emit m x) _ _)

scan_noise : (xs ys : Bytes) → NoFlag xs → scan hunting (xs ++ ys) ≡ scan hunting ys
scan_noise [] ys h = refl
scan_noise (x ∷ xs) ys h = rw h.0 (scan_noise xs ys h.1)

emit-NoFlag : (acc : Bytes) (b : ℕ) → b == 0x7e ≡ false → emit (inside acc) b ≡ []
emit-NoFlag [] b h = refl
emit-NoFlag (x ∷ acc) b h = rw h

pub scan_body :
    (acc xs ys : Bytes) → NoFlag xs → scan (inside acc) (xs ++ ys) ≡ scan (inside (acc ++ xs)) ys
scan_body acc [] ys h = ap (λ t. scan (inside t) ys) (sym (append-nil acc))
scan_body acc (x ∷ xs) ys h =
    ap₂ (λ e m. prepend e (scan m (xs ++ ys))) (emit-NoFlag acc x h.0) (rw h.0)
    ∙ scan_body (acc ++ x ∷ []) xs ys h.1
    ∙ ap (λ t. scan (inside t) ys) (append_assoc acc (x ∷ []) xs)

-- Where `first_flag` stops, and what it passed over.
pub record StopsAt (i j : ℕ) (bytes : Bytes) : Type 0 where
  pub passed : Bytes
  pub rest : Bytes
  pub index : j ≡ i + length passed
  pub splits : bytes ≡ passed ++ 0x7e ∷ rest
  pub no_flag : NoFlag passed

pub first_flag-some : (i j : ℕ) (bytes : Bytes) → first_flag i bytes ≡ some j → StopsAt i j bytes
unfolding first_flag
first_flag-some i j [] h = absurd (cc)
first_flag-some i j (b ∷ bytes) h = elim (Bool-cases (b == 0x7e)) [
  | inl flag ↦ record {
    passed = [];
    rest = bytes;
    index = ground arith;
    splits = ap (λ t. t ∷ bytes) ((==_iff b 0x7e).0 flag);
    no_flag = tt;
  }
  | inr other ↦
      let s = first_flag-some (i + 1) j bytes (rw other at h) in
      record {
        passed = b ∷ s.passed;
        rest = s.rest;
        index = omega (arith, s.index);
        splits = ap (◌∷◌ b) s.splits;
        no_flag = (other, s.no_flag);
      }
]

pub first_flag-none : (i : ℕ) (bytes : Bytes) → first_flag i bytes ≡ none → NoFlag bytes
unfolding first_flag
first_flag-none i [] h = tt
first_flag-none i (b ∷ bytes) h = elim (Bool-cases (b == 0x7e)) [
  | inl flag ↦ absurd (ground arith)
  | inr other ↦ (other, first_flag-none (i + 1) bytes (rw other at h))
]
