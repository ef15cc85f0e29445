-- ===== src/Base/Text.antt =====
-- Texts as lists of character codes, and the string methods that Python calls on them.
use Prim.Native.Char.{code}
use Prim.Native.String.{String}
use Prim.Native.Nat.{ℕ, zero, suc}
use mathlib.Core.Path.{◌≡◌, refl}
use mathlib.Core.Bool.{Bool, true, false, ◌&&◌, ◌||◌}
use mathlib.Core.List.{List, [], ◌∷◌}
use native.Mathlib.Omega.{arith}
use loom_unified_agentic_cod.Base.Tests.{leb, ◌==◌, if◌then◌else◌}
use loom_unified_agentic_cod.Base.Lists.{any_of}

abbrev pub Text : Type 0
Text = List ℕ

abbrev pub codes : String → Text
codes String.[] = []
codes (String.◌∷◌ c s) = code c ∷ codes s

-- `s == t`
abbrev pub same : Text → Text → Bool
same [] [] = true
same [] (d ∷ t) = false
same (c ∷ s) [] = false
same (c ∷ s) (d ∷ t) = c == d && same s t

pub same_sound : (s t : Text) → same s t ≡ true → s ≡ t
same_sound [] [] h = refl
same_sound [] (d ∷ t) h = ground arith
same_sound (c ∷ s) [] h = ground arith
same_sound (c ∷ s) (d ∷ t) h = ground (arith, same_sound s t)

pub same_refl : (s : Text) → same s s ≡ true
same_refl [] = refl
same_refl (c ∷ s) = ground (arith, same_refl s)

-- `s in texts`
abbrev pub one_of : Text → List Text → Bool
one_of s texts = any_of (same s) texts

-- `t.startswith(s)`
abbrev pub starts_with : Text → Text → Bool
starts_with [] t = true
starts_with (c ∷ s) [] = false
starts_with (c ∷ s) (d ∷ t) = c == d && starts_with s t

-- `t.endswith(s)`
abbrev pub ends_with : Text → Text → Bool
ends_with s [] = same s []
ends_with s (c ∷ t) = same s (c ∷ t) || ends_with s t

-- `t[n:]`
abbrev pub drop : ℕ → Text → Text
drop zero t = t
drop (suc n) [] = []
drop (suc n) (c ∷ t) = drop n t

abbrev pub on_first : ℕ → List Text → List Text
on_first c [] = (c ∷ []) ∷ []
on_first c (w ∷ ws) = (c ∷ w) ∷ ws

-- `t.split(d)` at a character; the empty text has one part.
abbrev pub split_at : ℕ → Text → List Text
split_at d [] = [] ∷ []
split_at d (c ∷ t) = let ws = split_at d t in if c == d then [] ∷ ws else on_first c ws

-- The ASCII characters of `str.isspace`, which `strip` and `split` go by.
abbrev pub is_space : ℕ → Bool
is_space c = (leb 9 c && leb c 13) || (leb 28 c && leb c 32)

-- `t.lstrip()` of blanks
abbrev pub lstrip : Text → Text
lstrip [] = []
lstrip (c ∷ t) = if is_space c then lstrip t else c ∷ t

abbrev pub on_stripped : ℕ → Text → Text
on_stripped c [] = if is_space c then [] else c ∷ []
on_stripped c (d ∷ t) = c ∷ d ∷ t

-- `t.rstrip()` of blanks
abbrev pub rstrip : Text → Text
rstrip [] = []
rstrip (c ∷ t) = on_stripped c (rstrip t)

abbrev pub strip : Text → Text
strip t = rstrip (lstrip t)

abbrev pub is_empty : Text → Bool
is_empty [] = true
is_empty (c ∷ t) = false
