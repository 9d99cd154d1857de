-- ===== src/Base/Bytes.antt =====
-- C strings as lists of bytes, without the NUL, and the comparisons of `string.h` on them.
use Prim.Native.Nat.{ℕ, suc, ◌+◌}
use Prim.Native.Char.{code}
use Prim.Native.String.{String}
use mathlib.Core.Path.{◌≡◌, refl}
use mathlib.Core.Logic.{◌↔◌}
use mathlib.Core.Bool.{Bool, true, false, ◌&&◌, ◌||◌}
use mathlib.Core.List.{List, [], ◌∷◌, ◌++◌}
use mathlib.Core.Option.{Option, none, some}
use native.Mathlib.Omega.{arith}
use gmrender_resurrect_silan.Base.Tests.{◌==◌}

abbrev pub Text : Type 0
Text = List ℕ

-- The bytes of a literal, which is ASCII throughout the program.
abbrev pub codes : String → Text
codes String.[] = []
codes (String.◌∷◌ c s) = code c ∷ codes s

-- `strcmp(a, b) == 0`
abbrev pub text_eq : Text → Text → Bool
text_eq [] [] = true
text_eq [] (b ∷ t) = false
text_eq (a ∷ s) [] = false
text_eq (a ∷ s) (b ∷ t) = (a == b) && text_eq s t

pub text_eq→eq : (s t : Text) → text_eq s t ≡ true → s ≡ t
text_eq→eq [] [] h = refl
text_eq→eq [] (b ∷ t) h = ground arith
text_eq→eq (a ∷ s) [] h = ground arith
text_eq→eq (a ∷ s) (b ∷ t) h = ground (arith, text_eq→eq s t)

pub text_eq_refl : (s : Text) → text_eq s s ≡ true
text_eq_refl [] = refl
text_eq_refl (a ∷ s) = ground (arith, text_eq_refl s)

pub text_eq_iff : (s t : Text) → (text_eq s t ≡ true) ↔ (s ≡ t)
text_eq_iff s t = (text_eq→eq s t, λ e. ground (arith, text_eq_refl s))

abbrev pub strlen : Text → ℕ
strlen [] = 0
strlen (a ∷ s) = suc (strlen s)

pub strlen-append : (s t : Text) → strlen (s ++ t) ≡ strlen s + strlen t
strlen-append [] t = omega arith
strlen-append (a ∷ s) t = omega (arith, strlen-append s t)

-- `strncmp(s, t, strlen(s)) == 0`: the second text starts with the first.
abbrev pub starts_with : Text → Text → Bool
starts_with [] t = true
starts_with (a ∷ s) [] = false
starts_with (a ∷ s) (b ∷ t) = (a == b) && starts_with s t

-- `strstr(t, s) != NULL`
abbrev pub strstr : Text → Text → Bool
strstr [] s = starts_with s []
strstr (b ∷ t) s = starts_with s (b ∷ t) || strstr t s

-- A `char *` that may be NULL, where the code puts "" in its place.
abbrev pub or_empty : Option Text → Text
or_empty none = []
or_empty (some s) = s
