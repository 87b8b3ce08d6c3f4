-- ===== src/Scenario/Words.antt =====
-- What sidecar/internal/scenario uses of Go's strings, strconv, regexp and time: exact on ASCII, and on
-- the white space of Unicode. The case and the quoting of other characters, and time.ParseDuration, whose
-- fractions are in floating point, are the fields of `Go`.
use Prim.Native.Nat.{ℕ, suc, ◌+◌, ◌-◌}
use Prim.Native.Char.{Char, code}
use xrpl_confluence.Prelude.{
  String, Eq, ◌≡◌, ◌↔◌, arith, Bool, true, false, ◌||◌, ◌&&◌, not, List, [], ◌∷◌, if◌then◌else◌,
  ltb, leb, nat_beq, any, ◌==◌, nat_eq,
}
use xrpl_confluence.Prelude.Int.{ℤ}

-- `parse_duration` answers the nanoseconds, or the text of its error.
pub data Duration : Type 0 where
  nanoseconds : ℤ → Duration
  not_a_duration : String → Duration

pub record Go : Type 0 where
  pub upper_wide : ℕ → ℕ
  pub lower_wide : ℕ → ℕ
  pub quote : String → String
  pub parse_duration : String → Duration

between : ℕ → ℕ → Char → Bool
between lo hi c = leb lo (code c) && leb (code c) hi

is_digit : Char → Bool
unfolding between
is_digit = between 48 57

is_lower : Char → Bool
unfolding between
is_lower = between 97 122

is_upper : Char → Bool
unfolding between
is_upper = between 65 90

is_hex : Char → Bool
unfolding is_digit between
is_hex c = is_digit c || between 97 102 c || between 65 70 c

is_word : Char → Bool
unfolding is_digit is_lower is_upper
is_word c = is_digit c || is_lower c || is_upper c || nat_beq (code c) 95

all_chars : (Char → Bool) → String → Bool
all_chars p String.[] = true
all_chars p (String.◌∷◌ c s) = p c && all_chars p s

count_chars : String → ℕ
count_chars String.[] = 0
count_chars (String.◌∷◌ c s) = suc (count_chars s)

unfoldable pub is_empty : String → Bool
is_empty String.[] = true
is_empty (String.◌∷◌ c s) = false

-- ^[a-z0-9]+(-[a-z0-9]+)*$ : the flag says that the next character must be a letter or a digit.
kebab_from : Bool → String → Bool
unfolding is_lower is_digit
kebab_from fresh String.[] = not fresh
kebab_from fresh (String.◌∷◌ c s) =
    if is_lower c || is_digit c
    then kebab_from false s
    else if nat_beq (code c) 45 && not fresh
    then kebab_from true s
    else false

unfoldable pub is_kebab : String → Bool
unfolding kebab_from
is_kebab s = kebab_from true s

-- ^[0-9a-fA-F]{64}$
unfoldable pub is_amendment_id : String → Bool
unfolding all_chars is_hex count_chars
is_amendment_id s = nat_beq (count_chars s) 64 && all_chars is_hex s

-- ^[A-Za-z0-9_]+$
unfoldable pub is_amendment_name : String → Bool
unfolding all_chars is_word is_empty
is_amendment_name s = not (is_empty s) && all_chars is_word s

-- unicode.IsSpace
is_space : Char → Bool
unfolding between
is_space c =
    between 9 13 c
    || nat_beq (code c) 32
    || nat_beq (code c) 133
    || nat_beq (code c) 160
    || nat_beq (code c) 5760
    || between 8192 8202 c
    || nat_beq (code c) 8232
    || nat_beq (code c) 8233
    || nat_beq (code c) 8239
    || nat_beq (code c) 8287
    || nat_beq (code c) 12288

trim_left : String → String
unfolding is_space
trim_left String.[] = String.[]
trim_left (String.◌∷◌ c s) = let rest = trim_left s in if is_space c then rest else String.◌∷◌ c s

trim_right : String → String
unfolding is_space
trim_right String.[] = String.[]
trim_right (String.◌∷◌ c s) =
    let rest = trim_right s in
    elim rest [
      | String.[] ↦ if is_space c then String.[] else String.◌∷◌ c String.[]
      | String.◌∷◌ d t ↦ String.◌∷◌ c (String.◌∷◌ d t)
    ]

unfoldable pub trim_space : String → String
unfolding trim_left trim_right
trim_space s = trim_right (trim_left s)

-- The code points of strings.ToUpper(s) and strings.ToLower(s), which both go character by character.
upper_code : Go → ℕ → ℕ
upper_code go n = if leb 97 n && leb n 122 then n - 32 else if ltb n 128 then n else go.upper_wide n

lower_code : Go → ℕ → ℕ
lower_code go n = if leb 65 n && leb n 90 then n + 32 else if ltb n 128 then n else go.lower_wide n

unfoldable pub to_upper : Go → String → List ℕ
unfolding upper_code
to_upper go String.[] = []
to_upper go (String.◌∷◌ c s) = upper_code go (code c) ∷ to_upper go s

unfoldable pub to_lower : Go → String → List ℕ
unfolding lower_code
to_lower go String.[] = []
to_lower go (String.◌∷◌ c s) = lower_code go (code c) ∷ to_lower go s

unfoldable pub codes_of : String → List ℕ
codes_of String.[] = []
codes_of (String.◌∷◌ c s) = code c ∷ codes_of s

abbrev codes_beq : List ℕ → List ℕ → Bool
codes_beq [] [] = true
codes_beq [] (n ∷ ns) = false
codes_beq (m ∷ ms) [] = false
codes_beq (m ∷ ms) (n ∷ ns) = nat_beq m n && codes_beq ms ns

pub codes_beq_iff : (a b : List ℕ) → (codes_beq a b ≡ true) ↔ (a ≡ b)
codes_beq_iff [] [] = ground arith
codes_beq_iff [] (n ∷ ns) = ground arith
codes_beq_iff (m ∷ ms) [] = ground arith
codes_beq_iff (m ∷ ms) (n ∷ ns) = ground (arith, codes_beq_iff ms ns)

instance abbrev pub codes_eq : Eq (List ℕ)
codes_eq = record { beq = codes_beq; beq_iff = codes_beq_iff }

-- strings.ContainsAny, with the characters as their code points.
unfoldable pub contains_any : List ℕ → String → Bool
contains_any codes String.[] = false
contains_any codes (String.◌∷◌ c s) = any (λ n. n == code c) codes || contains_any codes s

-- strings.HasPrefix(s, "[")
unfoldable pub opens_section : String → Bool
opens_section String.[] = false
opens_section (String.◌∷◌ c s) = nat_beq (code c) 91
