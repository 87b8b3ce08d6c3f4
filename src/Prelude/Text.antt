-- ===== src/Prelude/Text.antt =====
-- Texts compared byte by byte, as Go's < on strings. The order of the UTF-8 is that of the code points.
use Prim.Native.Char.{code}
use Prim.Native.String.{String}
use mathlib.Core.Path.{◌≡◌, refl}
use mathlib.Core.Bool.{Bool, true, false}
use native.Mathlib.Omega.{arith}
use text.Mathlib.TextEquality.{Char-path}
use xrpl_confluence.Prelude.Tests.{ltb, nat_beq, if◌then◌else◌}
use xrpl_confluence.Prelude.Sort.{IsOrder}

unfoldable pub str_ltb : String → String → Bool
str_ltb String.[] String.[] = false
str_ltb String.[] (String.◌∷◌ d t) = true
str_ltb (String.◌∷◌ c s) String.[] = false
str_ltb (String.◌∷◌ c s) (String.◌∷◌ d t) =
    if ltb (code c) (code d) then true else if nat_beq (code c) (code d) then str_ltb s t else false

str_ltb_asym : (s t : String) → str_ltb s t ≡ true → str_ltb t s ≡ false
unfolding str_ltb
str_ltb_asym String.[] String.[] h = refl
str_ltb_asym String.[] (String.◌∷◌ d t) h = refl
str_ltb_asym (String.◌∷◌ c s) String.[] h = cc
str_ltb_asym (String.◌∷◌ c s) (String.◌∷◌ d t) h = ground (arith, str_ltb_asym s t)

str_ltb_steps : (a b c : String) → str_ltb b a ≡ false → str_ltb c b ≡ false → str_ltb c a ≡ false
unfolding str_ltb
str_ltb_steps String.[] String.[] c h k = k
str_ltb_steps String.[] (String.◌∷◌ y b) String.[] h k = refl
str_ltb_steps String.[] (String.◌∷◌ y b) (String.◌∷◌ z c) h k = refl
str_ltb_steps (String.◌∷◌ x a) String.[] c h k = cc
str_ltb_steps (String.◌∷◌ x a) (String.◌∷◌ y b) String.[] h k = cc
str_ltb_steps (String.◌∷◌ x a) (String.◌∷◌ y b) (String.◌∷◌ z c) h k =
    ground (arith, str_ltb_steps a b c)

pub str_ltb-IsOrder : IsOrder str_ltb
str_ltb-IsOrder = record { asym = str_ltb_asym; steps = str_ltb_steps }

-- Two texts of which neither is less are the same text.
pub str_ltb_antisym : (s t : String) → str_ltb s t ≡ false → str_ltb t s ≡ false → s ≡ t
unfolding str_ltb
str_ltb_antisym String.[] String.[] h k = refl
str_ltb_antisym String.[] (String.◌∷◌ d t) h k = cc
str_ltb_antisym (String.◌∷◌ c s) String.[] h k = cc
str_ltb_antisym (String.◌∷◌ c s) (String.◌∷◌ d t) h k =
    ground (arith, str_ltb_antisym s t, Char-path c d)
