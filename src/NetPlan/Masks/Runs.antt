-- ===== src/NetPlan/Masks/Runs.antt =====
-- The loops over a netmask in src/net_plan.rs and src/proxy/route_table.rs, on a list of bits.
use openfortivpn_rs.Common.{
  ℕ, zero, suc, ◌+◌, ◌-◌, ◌*◌, ◌%◌, ◌^◌, ◌≤◌, ◌<◌, bit_and, ◌!=◌, Bool, true, false, Option, none,
  some, List, [], ◌∷◌, ◌++◌, length, length-append, replicate, ◌≡◌, refl, sym, ap, ◌∙◌, arith,
  Bool-cases, Option-cases, inl, inr, if◌then◌else◌,
}
use openfortivpn_rs.Common.Text.{split, parse_uint}
use openfortivpn_rs.Config.Settings.{Text}
use openfortivpn_rs.NetPlan.{mask_bits_loop, mask_loop}
use openfortivpn_rs.Proxy.RouteTable.{bits_loop, octets_loop}

-- The lowest bits of an octet, the highest of them first.
bits : ℕ → ℕ → List Bool
bits zero octet = []
bits (suc bit) octet = (bit_and octet (2 ^ bit) != 0) ∷ bits bit octet

pub all_bits : List ℕ → List Bool
all_bits [] = []
all_bits (octet ∷ octets) = bits 8 octet ++ all_bits octets

abbrev one_more : Option ℕ → Option (List ℕ) → Option (List ℕ)
one_more none rest = none
one_more (some octet) none = none
one_more (some octet) (some octets) = some (octet ∷ octets)

-- All parts as numbers up to 255.
pub parsed : List Text → Option (List ℕ)
parsed [] = some []
parsed (part ∷ parts) = one_more (parse_uint 255 part) (parsed parts)

-- A netmask: four octets, whose 32 bits are `prefix` ones and then zeros.
pub record IsMask (mask : Text) (prefix : ℕ) : Type 0 where
  pub octets : List ℕ
  pub are_parsed : parsed (split b'.' mask) ≡ some octets
  pub are_four : length octets ≡ 4
  pub few : prefix ≤ 32
  pub ones_first : all_bits octets ≡ replicate prefix true ++ replicate (32 - prefix) false

-- Both loops, on a list of bits.
pub run : List Bool → ℕ → Bool → Option (ℕ × Bool)
run [] prefix saw_zero = some (prefix, saw_zero)
run (true ∷ rest) prefix saw_zero =
    let counted = run rest ((prefix + 1) % 2 ^ 8) saw_zero in if saw_zero then none else counted
run (false ∷ rest) prefix saw_zero = run rest prefix true

abbrev and_then : Option (ℕ × Bool) → List Bool → Option (ℕ × Bool)
and_then none rest = none
and_then (some (prefix, saw_zero)) rest = run rest prefix saw_zero

run-append :
    (first rest : List Bool) (prefix : ℕ) (saw_zero : Bool)
    → run (first ++ rest) prefix saw_zero ≡ and_then (run first prefix saw_zero) rest
unfolding run
run-append [] rest prefix saw_zero = refl
run-append (true ∷ first) rest prefix true = refl
run-append (true ∷ first) rest prefix false = run-append first rest ((prefix + 1) % 2 ^ 8) false
run-append (false ∷ first) rest prefix saw_zero = run-append first rest prefix true

bits_loop-run :
    (n octet prefix : ℕ) (saw_zero : Bool)
    → bits_loop n octet prefix saw_zero ≡ run (bits n octet) prefix saw_zero
unfolding bits_loop bits run
bits_loop-run zero octet prefix saw_zero = refl
bits_loop-run (suc n) octet prefix saw_zero = elim (Bool-cases (bit_and octet (2 ^ n) != 0)) [
  | inl e ↦ rw e (
      ap (λ t. if saw_zero then none else t)
        (bits_loop-run n octet ((prefix + 1) % 2 ^ 8) saw_zero))
  | inr e ↦ rw e (bits_loop-run n octet prefix true)
]

mask_bits_loop-run :
    (n octet prefix : ℕ) (saw_zero : Bool)
    → mask_bits_loop n octet prefix saw_zero ≡ run (bits n octet) prefix saw_zero
unfolding mask_bits_loop bits run
mask_bits_loop-run zero octet prefix saw_zero = refl
mask_bits_loop-run (suc n) octet prefix saw_zero = elim (Bool-cases (bit_and octet (2 ^ n) != 0)) [
  | inl e ↦ rw e (
      ap (λ t. if saw_zero then none else t)
        (mask_bits_loop-run n octet ((prefix + 1) % 2 ^ 8) saw_zero))
  | inr e ↦ rw e (mask_bits_loop-run n octet prefix true)
]

-- What a run over all parts comes to.
abbrev pub run_parsed : Option (List ℕ) → ℕ → Bool → Option (ℕ × Bool)
run_parsed none prefix saw_zero = none
run_parsed (some octets) prefix saw_zero = run (all_bits octets) prefix saw_zero

abbrev go_on : Option (List ℕ) → Option (ℕ × Bool) → Option (ℕ × Bool)
go_on octets none = none
go_on octets (some (prefix, saw_zero)) = run_parsed octets prefix saw_zero

run_parsed-part :
    (octet : ℕ) (rest : Option (List ℕ)) (prefix : ℕ) (saw_zero : Bool)
    → run_parsed (one_more (some octet) rest) prefix saw_zero
      ≡ go_on rest (run (bits 8 octet) prefix saw_zero)
unfolding all_bits
run_parsed-part octet none prefix saw_zero = by_first (run (bits 8 octet) prefix saw_zero)
  where
    by_first : (o : Option (ℕ × Bool)) → none ≡ go_on none o
    by_first none = refl
    by_first (some (p, s)) = refl
run_parsed-part octet (some octets) prefix saw_zero =
    run-append (bits 8 octet) (all_bits octets) prefix saw_zero
    ∙ same (run (bits 8 octet) prefix saw_zero)
  where
    same : (o : Option (ℕ × Bool)) → and_then o (all_bits octets) ≡ go_on (some octets) o
    same none = refl
    same (some (p, s)) = refl

abbrev pub prefix_of : Option (ℕ × Bool) → Option ℕ
prefix_of none = none
prefix_of (some (prefix, saw_zero)) = some prefix

-- The bits of an octet, and then the parts behind it.
part_run :
    (octet : ℕ) (rest : Option (List ℕ)) (prefix : ℕ) (saw_zero : Bool) (o r : Option (ℕ × Bool))
    → o ≡ run (bits 8 octet) prefix saw_zero
    → o ≡ r
    → go_on rest r ≡ run_parsed (one_more (some octet) rest) prefix saw_zero
part_run octet rest prefix saw_zero o r e e' =
    ap (go_on rest) (sym e' ∙ e) ∙ sym (run_parsed-part octet rest prefix saw_zero)

pub mask_loop-run :
    (parts : List Text) (prefix : ℕ) (saw_zero : Bool)
    → mask_loop parts prefix saw_zero ≡ prefix_of (run_parsed (parsed parts) prefix saw_zero)
unfolding mask_loop parsed all_bits run
mask_loop-run [] prefix saw_zero = refl
mask_loop-run (part ∷ parts) prefix saw_zero = elim (Option-cases (parse_uint 255 part)) [
  | inl bad ↦ rw (mask_loop, bad) refl
  | inr (octet, good) ↦ elim (Option-cases (mask_bits_loop 8 octet prefix saw_zero)) [
    | inl gap ↦
        rw (mask_loop, good, gap)
          (ap prefix_of (
            part_run octet (parsed parts) prefix saw_zero _ none
              (mask_bits_loop-run 8 octet prefix saw_zero) gap))
    | inr ((p, s), whole) ↦
        rw (mask_loop, good, whole)
          (mask_loop-run parts p s
            ∙ ap prefix_of (
                part_run octet (parsed parts) prefix saw_zero _ (some (p, s))
                  (mask_bits_loop-run 8 octet prefix saw_zero) whole))
  ]
]

abbrev pub with_octets : ℕ → Option (ℕ × Bool) → Option (ℕ × ℕ)
with_octets octets none = none
with_octets octets (some (prefix, saw_zero)) = some (prefix, octets)

pub octets_loop-run :
    (parts : List Text) (prefix : ℕ) (saw_zero : Bool) (octets : ℕ)
    → octets < 2 ^ 32
    → octets_loop parts prefix saw_zero octets
      ≡ with_octets ((octets + length parts) % 2 ^ 32) (run_parsed (parsed parts) prefix saw_zero)
unfolding octets_loop parsed all_bits run
octets_loop-run [] prefix saw_zero octets h = ap (λ n. some (prefix, n)) (omega arith)
octets_loop-run (part ∷ parts) prefix saw_zero octets h =
    elim (Option-cases (parse_uint 255 part)) [
      | inl bad ↦ rw (octets_loop, bad) refl
      | inr (octet, good) ↦ elim (Option-cases (bits_loop 8 octet prefix saw_zero)) [
        | inl gap ↦
            rw (octets_loop, good, gap)
              (ap (with_octets _) (
                part_run octet (parsed parts) prefix saw_zero _ none
                  (bits_loop-run 8 octet prefix saw_zero) gap))
        | inr ((p, s), whole) ↦
            rw (octets_loop, good, whole)
              (octets_loop-run parts p s ((octets + 1) % 2 ^ 32) (omega arith)
                ∙ ap (λ n. with_octets n (run_parsed (parsed parts) p s))
                    (moved octets (length parts))
                ∙ ap (with_octets _) (
                    part_run octet (parsed parts) prefix saw_zero _ (some (p, s))
                      (bits_loop-run 8 octet prefix saw_zero) whole))
      ]
    ]
  where
    moved : (n m : ℕ) → ((n + 1) % 2 ^ 32 + m) % 2 ^ 32 ≡ (n + suc m) % 2 ^ 32
    moved n m = omega arith

pub length-parsed :
    (parts : List Text) (octets : List ℕ)
    → parsed parts ≡ some octets
    → length parts ≡ length octets
unfolding parsed
length-parsed [] octets h = let same : [] ≡ octets = cc h in ap length same
length-parsed (part ∷ parts) octets h =
    by_parts (parse_uint 255 part) (parsed parts) (length-parsed parts) h
  where
    by_parts :
        (o : Option ℕ) (rest : Option (List ℕ))
        → ((os : List ℕ) → rest ≡ some os → length parts ≡ length os)
        → one_more o rest ≡ some octets
        → suc (length parts) ≡ length octets
    by_parts none rest again k = absurd (cc k)
    by_parts (some octet) none again k = absurd (cc k)
    by_parts (some octet) (some os) again k =
        let same : octet ∷ os ≡ octets = cc k in ap suc (again os refl) ∙ ap length same

length-bits : (n octet : ℕ) → length (bits n octet) ≡ n
unfolding bits
length-bits zero octet = refl
length-bits (suc n) octet = ap suc (length-bits n octet)

pub length-all_bits : (octets : List ℕ) → length (all_bits octets) ≡ length octets * 8
unfolding all_bits
length-all_bits [] = omega arith
length-all_bits (octet ∷ octets) = omega (
  arith,
  length-append (bits 8 octet) (all_bits octets),
  length-bits 8 octet,
  length-all_bits octets,
)

-- Behind a zero nothing but zeros goes through.
zeros_run :
    (rest : List Bool) (prefix q : ℕ) (s : Bool)
    → run rest prefix true ≡ some (q, s)
    → (q ≡ prefix) × (rest ≡ replicate (length rest) false)
unfolding run
zeros_run [] prefix q s h = (cc h, refl)
zeros_run (true ∷ rest) prefix q s h = absurd (cc h)
zeros_run (false ∷ rest) prefix q s h =
    let (same, zeros) = zeros_run rest prefix q s h in (same, ap (λ t. false ∷ t) zeros)

-- A run that goes through counts the ones, which stand first.
pub ones_run :
    (list : List Bool) (prefix q : ℕ) (s : Bool)
    → prefix + length list < 256
    → run list prefix false ≡ some (q, s)
    → (ones zeros : ℕ) × (q ≡ prefix + ones)
      × (ones + zeros ≡ length list)
      × (list ≡ replicate ones true ++ replicate zeros false)
unfolding run
ones_run [] prefix q s few h = (0, 0, omega (arith, same), omega arith, refl)
  where
    same : q ≡ prefix
    same = cc h
ones_run (true ∷ rest) prefix q s few h =
    let (ones, zeros, count, all, list) =
      ones_run rest ((prefix + 1) % 2 ^ 8) q s (omega arith) h in
    (suc ones, zeros, omega (arith, count), omega (arith, all), ap (λ t. true ∷ t) list)
ones_run (false ∷ rest) prefix q s few h =
    let (same, zeros) = zeros_run rest prefix q s h in
    (0, suc (length rest), omega (arith, same), omega arith, ap (λ t. false ∷ t) zeros)

run-zeros :
    (zeros prefix : ℕ) (s : Bool) → prefix_of (run (replicate zeros false) prefix s) ≡ some prefix
unfolding run
run-zeros zero prefix s = refl
run-zeros (suc zeros) prefix s = run-zeros zeros prefix true

pub run-ones :
    (ones zeros prefix : ℕ)
    → prefix + ones < 256
    → prefix_of (run (replicate ones true ++ replicate zeros false) prefix false)
      ≡ some (prefix + ones)
unfolding run
run-ones zero zeros prefix few = run-zeros zeros prefix false ∙ ap some (omega arith)
run-ones (suc ones) zeros prefix few =
    run-ones ones zeros ((prefix + 1) % 2 ^ 8) (omega arith) ∙ ap some (omega arith)
