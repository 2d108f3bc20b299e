-- ===== src/Config/Merge/Default.antt =====
-- src/config.rs: what `merge` makes of the defaults.
use openfortivpn_rs.Common.{
  ℕ, true, not, Option, none, some, [], ◌∷◌, ◌!=◌, if◌then◌else◌, ◌≡◌, refl, arith,
}
use openfortivpn_rs.Common.Bytes.{equal}
use openfortivpn_rs.Common.Text.{is_empty}
use openfortivpn_rs.Config.Merge.{merge, merge_option}
use openfortivpn_rs.Config.Settings.{Text, Config, default_config}

option_kept : {A : Type 0} (o : Option A) → merge_option none o ≡ o
option_kept none = refl
option_kept (some a) = refl

text_kept : (t : Text) → (if not (is_empty t) then t else []) ≡ t
text_kept [] = refl
text_kept (c ∷ cs) = refl

number_kept : (n d : ℕ) → (if n != d then n else d) ≡ n
number_kept n d = ground arith

equal_sound : (s t : Text) → equal s t ≡ true → s ≡ t
unfolding equal
equal_sound [] [] h = refl
equal_sound (c ∷ cs) (d ∷ ds) h = let ih = equal_sound cs ds in ground arith
equal_sound [] (d ∷ ds) h = cc
equal_sound (c ∷ cs) [] h = cc

same_kept : (s t : Text) → (if not (equal s t) then s else t) ≡ s
same_kept s t = let same = equal_sound s t in ground arith

-- Settings laid over the defaults are those settings.
pub merge-default : (other : Config) → merge default_config other ≡ other
unfolding merge
merge-default other = simp (option_kept, text_kept, number_kept, same_kept)
