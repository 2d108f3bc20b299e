-- ===== src/NetPlan/Masks.antt =====
-- The masks of src/net_plan.rs and of src/proxy/route_table.rs, against what a netmask is.
pub mod Runs
use openfortivpn_rs.Common.{
  ℕ, ◌+◌, ◌-◌, ◌*◌, ◌%◌, ◌^◌, ◌<◌, ◌==◌, ==_iff, Bool, true, false, Option, none, some, List, [],
  ◌∷◌, ◌++◌, length, replicate, ◌≡◌, ◌↔◌, refl, sym, ap, ◌∙◌, subst, arith, Bool-cases, inl, inr,
  if◌then◌else◌,
}
use openfortivpn_rs.Common.Text.{split}
use openfortivpn_rs.Config.Settings.{Text}
use openfortivpn_rs.NetPlan.{if_four, mask_loop}
use openfortivpn_rs.NetPlan
use openfortivpn_rs.Proxy.RouteTable
use openfortivpn_rs.Proxy.RouteTable.{whole_mask, octets_loop}
use openfortivpn_rs.NetPlan.Masks.Runs.{
  IsMask, all_bits, parsed, run, run_parsed, prefix_of, with_octets, mask_loop-run, octets_loop-run,
  length-parsed, length-all_bits, ones_run, run-ones,
}

-- Whether there are four parts, and what the bits of four come to.
IsMask-of_run :
    (mask : Text) (octets : List ℕ) (prefix : ℕ) (s : Bool)
    → parsed (split b'.' mask) ≡ some octets
    → length octets ≡ 4
    → run (all_bits octets) 0 false ≡ some (prefix, s)
    → IsMask mask prefix
IsMask-of_run mask octets prefix s e four h =
    let long = length-all_bits octets in
    let (ones, zeros, count, all, list) =
      ones_run (all_bits octets) 0 prefix s (omega (arith, long, four)) h in
    let ones_prefix : ones ≡ prefix = omega (arith, count) in
    let zeros_left : zeros ≡ 32 - prefix = omega (arith, count, all, long, four) in
    record {
      octets = octets;
      are_parsed = e;
      are_four = four;
      few = omega (arith, count, all, long, four);
      ones_first =
          list
          ∙ ap (λ n. replicate n true ++ replicate zeros false) ones_prefix
          ∙ ap (λ n. replicate prefix true ++ replicate n false) zeros_left;
    }

of_mask_run :
    (mask : Text) (prefix : ℕ) (is_mask : IsMask mask prefix)
    → prefix_of (run_parsed (parsed (split b'.' mask)) 0 false) ≡ some prefix
of_mask_run mask prefix is_mask =
    ap (λ o. prefix_of (run_parsed o 0 false)) is_mask.are_parsed
    ∙ ap (λ list. prefix_of (run list 0 false)) is_mask.ones_first
    ∙ run-ones prefix (32 - prefix) 0 (omega (arith, is_mask.few))
    ∙ ap some (omega arith)

parts_of_mask : (mask : Text) (prefix : ℕ) → IsMask mask prefix → length (split b'.' mask) ≡ 4
parts_of_mask mask prefix is_mask =
    length-parsed (split b'.' mask) is_mask.octets is_mask.are_parsed ∙ is_mask.are_four

-- What either function comes to, with its count of the parts.
abbrev checked : Bool → Option ℕ → Option ℕ
checked four none = none
checked four (some prefix) = if four then some prefix else none

checked_iff :
    (mask : Text) (prefix : ℕ)
    → (checked
          (length (split b'.' mask) == 4)
          (prefix_of (run_parsed (parsed (split b'.' mask)) 0 false))
        ≡ some prefix)
      ↔ IsMask mask prefix
checked_iff mask prefix = (λ h. by_parts (parsed (split b'.' mask)) refl h, back)
  where
    by_run :
        (octets : List ℕ)
        → parsed (split b'.' mask) ≡ some octets
        → (o : Option (ℕ × Bool)) → run (all_bits octets) 0 false ≡ o
        → checked (length (split b'.' mask) == 4) (prefix_of o) ≡ some prefix
        → IsMask mask prefix
    by_run octets e none e' h = absurd (cc h)
    by_run octets e (some (p, s)) e' h = elim (Bool-cases (length (split b'.' mask) == 4)) [
      | inl four ↦
          let found : some p ≡ some prefix = rw four at h in
          let same : p ≡ prefix = cc found in
          IsMask-of_run mask octets prefix s e
            (sym (length-parsed (split b'.' mask) octets e)
              ∙ (==_iff (length (split b'.' mask)) 4).0 four)
            (e' ∙ ap (λ n. some (n, s)) same)
      | inr other ↦ absurd (cc (rw other at h))
    ]

    by_parts :
        (o : Option (List ℕ))
        → parsed (split b'.' mask) ≡ o
        → checked (length (split b'.' mask) == 4) (prefix_of (run_parsed o 0 false)) ≡ some prefix
        → IsMask mask prefix
    by_parts none e h = absurd (cc h)
    by_parts (some octets) e h = by_run octets e (run (all_bits octets) 0 false) refl h

    back :
        IsMask mask prefix
        → checked
            (length (split b'.' mask) == 4)
            (prefix_of (run_parsed (parsed (split b'.' mask)) 0 false))
          ≡ some prefix
    back is_mask =
        ap (checked (length (split b'.' mask) == 4)) (of_mask_run mask prefix is_mask)
        ∙ ap (λ n. if n == 4 then some prefix else none) (parts_of_mask mask prefix is_mask)

plan_checked :
    (mask : Text)
    → NetPlan.ipv4_mask_to_prefix mask
      ≡ checked
          (length (split b'.' mask) == 4)
          (prefix_of (run_parsed (parsed (split b'.' mask)) 0 false))
unfolding NetPlan.ipv4_mask_to_prefix
plan_checked mask =
    ap (if_four (split b'.' mask)) (mask_loop-run (split b'.' mask) 0 false)
    ∙ same (prefix_of (run_parsed (parsed (split b'.' mask)) 0 false))
  where
    same : (o : Option ℕ) → if_four (split b'.' mask) o ≡ checked (length (split b'.' mask) == 4) o
    same none = refl
    same (some p) = refl

table_checked :
    (mask : Text)
    → length (split b'.' mask) < 2 ^ 32
    → RouteTable.ipv4_mask_to_prefix mask
      ≡ checked
          (length (split b'.' mask) == 4)
          (prefix_of (run_parsed (parsed (split b'.' mask)) 0 false))
unfolding RouteTable.ipv4_mask_to_prefix
table_checked mask few =
    ap whole_mask (octets_loop-run (split b'.' mask) 0 false 0 (omega arith))
    ∙ ap (λ n. whole_mask (with_octets n (run_parsed (parsed (split b'.' mask)) 0 false)))
        (counted (length (split b'.' mask)) few)
    ∙ same (run_parsed (parsed (split b'.' mask)) 0 false)
  where
    counted : (n : ℕ) → n < 2 ^ 32 → (0 + n) % 2 ^ 32 ≡ n
    counted n h = omega arith

    same :
        (o : Option (ℕ × Bool))
        → whole_mask (with_octets (length (split b'.' mask)) o)
          ≡ checked (length (split b'.' mask) == 4) (prefix_of o)
    same none = refl
    same (some (p, s)) = refl

-- On a text of fewer than 2 ^ 32 parts, both functions, the one for the operating system's routes and the
-- one for the proxy's, return `prefix` exactly if the text is four octets with `.` between them whose 32 bits
-- are `prefix` ones and then zeros.
pub ipv4_mask_to_prefix-IsMask :
    (mask : Text) (prefix : ℕ)
    → length (split b'.' mask) < 2 ^ 32
    → ((NetPlan.ipv4_mask_to_prefix mask ≡ some prefix) ↔ IsMask mask prefix)
      × ((RouteTable.ipv4_mask_to_prefix mask ≡ some prefix) ↔ IsMask mask prefix)
ipv4_mask_to_prefix-IsMask mask prefix few =
    let both = checked_iff mask prefix in
    (
      (λ h. both.0 (sym (plan_checked mask) ∙ h), λ m. plan_checked mask ∙ both.1 m),
      (λ h. both.0 (sym (table_checked mask few) ∙ h), λ m. table_checked mask few ∙ both.1 m),
    )
