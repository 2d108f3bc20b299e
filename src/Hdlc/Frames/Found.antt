-- ===== src/Hdlc/Frames/Found.antt =====
-- `find_frame` of src/hdlc.rs returns the first frame of the stream, and fails only where there is none.
use openfortivpn_rs.Hdlc.{first_flag, skip_flags, find_frame}
use openfortivpn_rs.Hdlc.Escape.{NoFlag}
use openfortivpn_rs.Hdlc.Frames.{
  hunting, inside, scan, prepend, scan_noise, scan_body, StopsAt, first_flag-some, first_flag-none,
}
use openfortivpn_rs.Common.{
  ℕ, suc, ◌+◌, ◌-◌, ◌<◌, false, [], ◌∷◌, ◌++◌, append-nil, inl, inr, ◌≡◌, refl, sym, ap, ap₂, ◌∙◌,
  subst, arith, none, ◌==◌, Bool-cases, Option-cases, length, take, drop, drop-drop, drop-suc,
  drop-cons-lt, take-length, drop-length,
}
use openfortivpn_rs.Common.Bytes.{Bytes, slice}
use openfortivpn_rs.Common.Error.{Result, ok, err, ◌>>=◌, ok_or, hdlc_no_frame_found}

abbrev StartsClear : Bytes → Type 0
StartsClear [] = Unit
StartsClear (b ∷ _) = b == 0x7e ≡ false

-- What `skip_flags` passed over makes no frame.
record Skips (s s' : ℕ) (bytes : Bytes) : Type 0 where
  count : ℕ
  index : s' ≡ s + count
  same : scan (inside []) bytes ≡ scan (inside []) (drop count bytes)
  clear : StartsClear (drop count bytes)

skip_flags-Skips : (s : ℕ) (bytes : Bytes) → Skips s (skip_flags s bytes) bytes
unfolding skip_flags
skip_flags-Skips s [] = record { count = 0; index = omega arith; same = refl; clear = tt }
skip_flags-Skips s (b ∷ bytes) = elim (Bool-cases (b == 0x7e)) [
  | inl flag ↦
      let k = skip_flags-Skips (s + 1) bytes in
      record {
        count = suc k.count;
        index = rw flag (omega (arith, k.index));
        same = rw flag k.same;
        clear = k.clear;
      }
  | inr other ↦ record { count = 0; index = rw other (omega arith); same = refl; clear = other }
]

-- `buffer[s..s + len]` is the first frame after `start`, and it ends before a flag.
pub record IsFirstFrame (buffer : Bytes) (start len s : ℕ) : Type 0 where
  pub nonempty : 0 < len
  pub forward : start < s
  pub within : s + len < length buffer
  pub no_flag : NoFlag (slice s (s + len) buffer)
  pub scanned :
      scan hunting (drop start buffer)
      ≡ prepend (slice s (s + len) buffer ∷ []) (scan hunting (drop (s + len) buffer))

drop-append_at :
    (n k : ℕ) (buffer x y : Bytes) → drop n buffer ≡ x ++ y → k ≡ n + length x → drop k buffer ≡ y
drop-append_at n k buffer x y h e =
    ap (λ t. drop t buffer) e
    ∙ sym (drop-drop (length x) n buffer)
    ∙ ap (drop (length x)) h
    ∙ drop-length x y

-- The first flag at `i`, the frame from `s`, its end flag at `e`.
module _ (buffer : Bytes) (start i s e : ℕ) (f : StopsAt start i (drop start buffer))
    (k : Skips (i + 1) s (drop (i + 1) buffer)) (g : StopsAt s e (drop s buffer)) where
  at_flag : drop i buffer ≡ 0x7e ∷ f.rest
  at_flag = drop-append_at start i buffer f.passed _ f.splits f.index

  behind_flag : drop (i + 1) buffer ≡ f.rest
  behind_flag = drop-suc i buffer at_flag

  behind_flags : drop k.count (drop (i + 1) buffer) ≡ drop s buffer
  behind_flags = drop-drop k.count (i + 1) buffer ∙ ap (λ t. drop t buffer) (sym k.index)

  at_end : drop e buffer ≡ 0x7e ∷ g.rest
  at_end = drop-append_at s e buffer g.passed _ g.splits g.index

  clear_ne_nil : (body rest w : Bytes) → StartsClear w → w ≡ body ++ 0x7e ∷ rest → 0 < length body
  clear_ne_nil [] rest w c h = absurd (flag_not_clear (subst StartsClear h c))
    where
      flag_not_clear : 0x7e == 0x7e ≡ false → ⊥
      flag_not_clear q = cc
  clear_ne_nil (x ∷ body) rest w c h = omega arith

  body-nonempty : 0 < length g.passed
  body-nonempty =
      clear_ne_nil g.passed g.rest (drop s buffer) (subst StartsClear behind_flags k.clear) g.splits

  slice-body : take (s + length g.passed - s) (drop s buffer) ≡ g.passed
  slice-body = ap₂ take (omega arith) g.splits ∙ take-length g.passed (0x7e ∷ g.rest)

  close_frame :
      (body rest : Bytes)
      → 0 < length body
      → scan (inside body) (0x7e ∷ rest) ≡ prepend (body ∷ []) (scan hunting (0x7e ∷ rest))
  close_frame [] rest h = absurd (omega arith)
  close_frame (x ∷ body) rest h = refl

  first_frame_scanned :
      scan hunting (drop start buffer) ≡ prepend (g.passed ∷ []) (scan hunting (drop e buffer))
  first_frame_scanned =
      ap (scan hunting) f.splits
      ∙ scan_noise f.passed (0x7e ∷ f.rest) f.no_flag
      ∙ ap (scan (inside [])) (sym behind_flag)
      ∙ k.same
      ∙ ap (scan (inside [])) (behind_flags ∙ g.splits)
      ∙ scan_body [] g.passed (0x7e ∷ g.rest) g.no_flag
      ∙ close_frame g.passed g.rest body-nonempty
      ∙ ap (λ t. prepend (g.passed ∷ []) (scan hunting t)) (sym at_end)

  first_frame : (len : ℕ) → len ≡ length g.passed → IsFirstFrame buffer start len s
  first_frame len h = record {
    nonempty = omega (arith, body-nonempty);
    forward = omega (arith, k.index, f.index);
    within = omega (arith, drop-cons-lt e buffer at_end, g.index);
    no_flag = subst NoFlag (sym sliced) g.no_flag;
    scanned =
        first_frame_scanned
        ∙ ap₂ (λ x y. prepend (x ∷ []) (scan hunting (drop y buffer))) (sym sliced)
            (omega (arith, g.index));
  }
    where
      sliced : slice s (s + len) buffer ≡ g.passed
      sliced = ap (λ t. take (s + t - s) (drop s buffer)) h ∙ slice-body

-- The two outcomes of `find_frame`.
abbrev pub Finds : Bytes → ℕ → Result (ℕ × ℕ) → Type 0
Finds buffer start (ok (len, s)) = IsFirstFrame buffer start len s
Finds buffer start (err e) = (e ≡ hdlc_no_frame_found) × ((scan hunting (drop start buffer)).0 ≡ [])

NoFlag-no_frame : (bytes : Bytes) → NoFlag bytes → (scan hunting bytes).0 ≡ []
NoFlag-no_frame bytes h =
    ap (λ t. (scan hunting t).0) (sym (append-nil bytes)) ∙ ap (λ t. t.0) (scan_noise bytes [] h)

open_no_frame : (bytes : Bytes) → NoFlag bytes → (scan (inside []) bytes).0 ≡ []
open_no_frame bytes h =
    ap (λ t. (scan (inside []) t).0) (sym (append-nil bytes))
    ∙ ap (λ t. t.0) (scan_body [] bytes [] h)

no_second_flag :
    (buffer : Bytes) (start i s : ℕ)
    → StopsAt start i (drop start buffer)
    → Skips (i + 1) s (drop (i + 1) buffer)
    → first_flag s (drop s buffer) ≡ none
    → (scan hunting (drop start buffer)).0 ≡ []
no_second_flag buffer start i s f k h =
    ap (λ t. t.0)
      (ap (scan hunting) f.splits
        ∙ scan_noise f.passed (0x7e ∷ f.rest) f.no_flag
        ∙ ap (scan (inside []))
            (sym (drop-suc i buffer (drop-append_at start i buffer f.passed _ f.splits f.index)))
        ∙ k.same
        ∙ ap (scan (inside []))
            (drop-drop k.count (i + 1) buffer ∙ ap (λ t. drop t buffer) (sym k.index)))
    ∙ open_no_frame (drop s buffer) (first_flag-none s (drop s buffer) h)

-- `find_frame` returns the bounds of the first frame of the stream behind `start`: it is not empty,
-- holds no flag and lies inside the buffer with its end flag, so no index is out of range. It fails
-- only with `HdlcNoFrameFound`, and then the stream completes no frame.
pub find_frame-Finds : (buffer : Bytes) (start : ℕ) → Finds buffer start (find_frame buffer start)
unfolding find_frame
find_frame-Finds buffer start = elim (Option-cases (first_flag start (drop start buffer))) [
  | inl n ↦
      rw n (refl, NoFlag-no_frame (drop start buffer) (first_flag-none start (drop start buffer) n))
  | inr (i, h) ↦ rw h (behind i (first_flag-some start i (drop start buffer) h))
]
  where
    behind :
        (i : ℕ)
        → StopsAt start i (drop start buffer)
        → let s = skip_flags (i + 1) (drop (i + 1) buffer) in
          Finds buffer start
            (ok_or (first_flag s (drop s buffer)) hdlc_no_frame_found >>= λ e. ok (e - s, s))
    behind i f =
        let s = skip_flags (i + 1) (drop (i + 1) buffer) in
        let k = skip_flags-Skips (i + 1) (drop (i + 1) buffer) in
        elim (Option-cases (first_flag s (drop s buffer))) [
          | inl n ↦ rw n (refl, no_second_flag buffer start i s f k n)
          | inr (e, h) ↦
              let g = first_flag-some s e (drop s buffer) h in
              rw h (first_frame buffer start i s e f k g (e - s) (omega (arith, g.index)))
        ]
