-- ===== src/NetApply/Lines.antt =====
-- The lines that src/net_apply.rs adds to the resolver file, and takes out again.
use openfortivpn_rs.Common.{
  ℕ, ==_refl, true, List, [], ◌∷◌, ◌++◌, append_assoc, ◌≡◌, ◌≢◌, refl, sym, ap, ◌∙◌, arith, All,
}
use openfortivpn_rs.Common.Bytes.{Bytes, equal}
use openfortivpn_rs.Config.Settings.{Text}
use openfortivpn_rs.Config.Parse.{lines}
use openfortivpn_rs.NetApply.Dns.{
  prepend_dns_lines_to_resolv_conf, removed, keep_lines, remove_added_dns_lines,
}

-- A line of a file: no line feed in it, and no carriage return at its end.
abbrev pub IsLine : Text → Type 0
IsLine [] = Unit
IsLine (c ∷ []) = (c ≢ 10) × (c ≢ 13)
IsLine (c ∷ d ∷ cs) = (c ≢ 10) × IsLine (d ∷ cs)

-- Each line with its line feed.
abbrev pub unlines : List Text → Text
unlines [] = []
unlines (line ∷ rest) = line ++ (10 ∷ unlines rest)

head_no_feed : (d : ℕ) (cs : Text) → IsLine (d ∷ cs) → d ≢ 10
head_no_feed d [] h = h.0
head_no_feed d (c ∷ cs) h = h.0

pub lines_first : (line rest : Text) → IsLine line → lines (line ++ (10 ∷ rest)) ≡ line ∷ lines rest
unfolding lines
lines_first [] [] h = refl
lines_first [] (d ∷ cs) h = refl
lines_first (c ∷ []) rest h = ground (arith, lines_first [] rest tt)
lines_first (c ∷ d ∷ cs) rest h =
    ground (arith, lines_first (d ∷ cs) rest h.1, head_no_feed d cs h.1)

pub lines-unlines : (ls : List Text) → All IsLine ls → lines (unlines ls) ≡ ls
lines-unlines [] h = unfold lines in refl
lines-unlines (line ∷ ls) h =
    lines_first line (unlines ls) h.0 ∙ ap (line ∷◌) (lines-unlines ls h.1)

equal_refl : (t : Text) → equal t t ≡ true
unfolding equal
equal_refl [] = refl
equal_refl (c ∷ cs) = rw (==_refl c) (equal_refl cs)

-- The lines added are taken out again, one by one, and the others stay.
keep_lines-append : (added others : List Text) → keep_lines (added ++ others) added ≡ unlines others
unfolding keep_lines removed
keep_lines-append [] [] = refl
keep_lines-append [] (line ∷ others) = ap (λ t. line ++ (10 ∷ t)) (keep_lines-append [] others)
keep_lines-append (line ∷ added) others =
    rw (keep_lines, removed, equal_refl line) (keep_lines-append added others)

module _ (as_bytes : Text → Bytes)
    (pieces : (line rest : Text)
      → as_bytes (line ++ (10 ∷ rest)) ≡ as_bytes line ++ (10 ∷ as_bytes rest)) where
  prepended :
      (original : Text) (added : List Text)
      → prepend_dns_lines_to_resolv_conf as_bytes (as_bytes original) added
        ≡ as_bytes (unlines added ++ original)
  unfolding prepend_dns_lines_to_resolv_conf
  prepended original [] = refl
  prepended original (line ∷ added) =
      ap (λ t. as_bytes line ++ (10 ∷ t)) (prepended original added)
      ∙ sym (pieces line (unlines added ++ original))
      ∙ ap as_bytes (sym (append_assoc line (10 ∷ unlines added) original))

unlines-append : (xs ys : List Text) → unlines (xs ++ ys) ≡ unlines xs ++ unlines ys
unlines-append [] ys = refl
unlines-append (x ∷ xs) ys =
    ap (λ t. x ++ (10 ∷ t)) (unlines-append xs ys)
    ∙ sym (append_assoc x (10 ∷ unlines xs) (unlines ys))

All-append : (xs ys : List Text) → All IsLine xs → All IsLine ys → All IsLine (xs ++ ys)
All-append [] ys a b = b
All-append (x ∷ xs) ys a b = (a.0, All-append xs ys a.1 b)

-- Lines put in front of a file of whole lines and then taken out of it leave the file as it was, also
-- where it holds a line like one of them. No line has a line feed in it or a carriage return at its
-- end, reading as UTF-8 undoes writing, and a line feed is written as itself.
pub remove_added_dns_lines-prepend :
    (as_bytes : Text → Bytes) (from_utf8_lossy : Bytes → Text) (file added : List Text)
    → ((t : Text) → from_utf8_lossy (as_bytes t) ≡ t)
    → ((line rest : Text) → as_bytes (line ++ (10 ∷ rest)) ≡ as_bytes line ++ (10 ∷ as_bytes rest))
    → All IsLine file
    → All IsLine added
    → let changed = prepend_dns_lines_to_resolv_conf as_bytes (as_bytes (unlines file)) added in
      as_bytes (remove_added_dns_lines (from_utf8_lossy changed) added) ≡ as_bytes (unlines file)
remove_added_dns_lines-prepend as_bytes from_utf8_lossy file added decodes pieces f a =
    let read : from_utf8_lossy
          (prepend_dns_lines_to_resolv_conf as_bytes (as_bytes (unlines file)) added)
        ≡ unlines (added ++ file) =
      ap from_utf8_lossy (prepended as_bytes pieces (unlines file) added)
      ∙ decodes (unlines added ++ unlines file)
      ∙ sym (unlines-append added file) in
    ap (λ t. as_bytes (keep_lines (lines t) added)) read
    ∙ ap (λ t. as_bytes (keep_lines t added))
        (lines-unlines (added ++ file) (All-append added file a f))
    ∙ ap as_bytes (keep_lines-append added file)
