-- ===== src/Chaos/Recurring.antt =====
-- chaos.ExpandRecurring of sidecar/internal/fuzz/chaos/recurring.go. The random numbers are an argument: `intn n`
-- is rng.Intn(n) on the state `G` of the generator. The index of the loop is a natural number, and what is
-- computed from it wraps around as an int does.
pub mod Ending
pub mod Tests
use Prim.Native.String.{◌++◌ as str_append}
use Prim.Native.Char.{Char, code}
use Prim.Native.Nat.{◌*◌}
use text.Mathlib.Text.{starts_with}
use xrpl_confluence.Prelude.{
  ℕ, zero, suc, ◌+◌, ◌-◌, String, Bool, true, false, ◌&&◌, ◌||◌, Option, none, some, List, [], ◌∷◌,
  ◌++◌, if◌then◌else◌, ◌==◌, string_eq, length, get_elem?, select, nat_beq,
}
use xrpl_confluence.Prelude.Int.{
  wrap_int, ℤ, pos, negsuc, pos_part, ◌+ℤ◌, ltb_ℤ, leb_ℤ, int_eq, sub_ℕ,
}
use xrpl_confluence.Prelude.Show.{decimal}

-- rawEntry, without its `recurring` block, which the expansion does not read.
pub record RawEntry : Type 0 where
  pub step : ℤ
  pub recover_after : ℤ
  pub type : String
  pub container : String
  pub from : String
  pub to : String
  pub iface : String
  pub delay_ms : ℤ
  pub delay_ms_min : ℤ
  pub delay_ms_max : ℤ
  pub feature : String
  pub target : String

pub record Recurring : Type 0 where
  pub every : ℤ
  pub start_step : ℤ
  pub count : ℤ
  pub until_step : ℤ
  pub jitter : ℤ
  pub inner : RawEntry

-- A generator whose Intn(n) is from 0 to n - 1.
pub record Rng (G : Type 0) : Type 0 where
  pub intn : ℕ → G → ℕ × G

is_star : Char → Bool
is_star c = nat_beq (code c) 42

has_star : String → Bool
unfolding is_star
has_star String.[] = false
has_star (String.◌∷◌ c s) = is_star c || has_star s

add_char : Char → Option String → Option String
add_char c none = none
add_char c (some p) = some (String.◌∷◌ c p)

-- The pattern without its last character, where that is a `*`.
star_prefix : String → Option String
unfolding is_star add_char
star_prefix String.[] = none
star_prefix (String.◌∷◌ c s) =
    let rest = star_prefix s in
    elim s [
      | String.[] ↦ if is_star c then some String.[] else none
      | String.◌∷◌ d t ↦ add_char c rest
    ]

nodes_with : Option String → List String → List String
nodes_with none nodes = []
nodes_with (some prefix) nodes = select (starts_with prefix) nodes

pub match_nodes : String → List String → List String
unfolding star_prefix nodes_with
match_nodes pattern nodes = nodes_with (star_prefix pattern) nodes

-- What a call returns: a value, or its error.
pub data Result (A : Type 0) : Type 0 where
  failed : String → Result A
  returned : A → Result A

-- `f` on what is returned.
pub then_with : {A B : Type 0} → Result A → (A → Result B) → Result B
then_with (failed err) f = failed err
then_with (returned a) f = f a

-- The error, shortened, of a text that is no pattern, or has no match.
no_match : String → String
no_match pattern = str_append "no nodes match pattern " pattern

module _ {G : Type 0} (rng : Rng G) where
  -- `match[rng.Intn(len(match))]`; a number out of range would panic.
  pick : String → List String → G → Result (String × G)
  unfolding no_match
  pick pattern [] g = failed (no_match pattern)
  pick pattern (m ∷ ms) g =
      let (i, g') = rng.intn (length (m ∷ ms)) g in
      elim (get_elem? (m ∷ ms) i) [ none ↦ failed "index out of range" | some n ↦ returned (n, g') ]

  resolve : List String → String → G → Result (String × G)
  unfolding pick has_star
  resolve nodes p g = if has_star p then pick p (match_nodes p nodes) g else returned (p, g)

  -- Container, From, To and Target, in this order.
  pub resolve_wildcards : List String → RawEntry → G → Result (RawEntry × G)
  unfolding resolve then_with
  resolve_wildcards nodes e g = then_with (resolve nodes e.container g) (λ r1.
      then_with (resolve nodes e.from r1.1) (λ r2. then_with (resolve nodes e.to r2.1) (λ r3.
        then_with (resolve nodes e.target r3.1) (λ r4.
          returned (record e { container = r1.0; from = r2.0; to = r3.0; target = r4.0 }, r4.1)))))

  -- The step with its jitter, and 0 for a negative one.
  jitter_step : ℤ → ℤ → G → ℤ × G
  jitter_step jitter step g =
      if leb_ℤ jitter (pos 0)
      then (step, g)
      else (let (n, g') = rng.intn (2 * pos_part jitter + 1) g in
          let moved = wrap_int (step +ℤ sub_ℕ n (pos_part jitter)) in
          (if ltb_ℤ moved (pos 0) then pos 0 else moved, g'))

  -- The random delay of a latency without one.
  draw_delay : RawEntry → RawEntry → G → RawEntry × G
  draw_delay inner e g =
      let lo = inner.delay_ms_min in
      let hi = inner.delay_ms_max in
      if e.type == "latency" && e.delay_ms == pos 0
      then (if ltb_ℤ (pos 0) hi && (ltb_ℤ (pos 0) lo && leb_ℤ lo hi)
          then (let (n, g') = rng.intn (pos_part hi - pos_part lo + 1) g in
              (record e { delay_ms = lo +ℤ pos n }, g'))
          else (e, g))
      else (e, g)

  -- The entry of one round of the loop.
  entry_at : List String → Recurring → ℤ → G → Result (RawEntry × G)
  unfolding jitter_step resolve_wildcards then_with draw_delay
  entry_at nodes spec step g =
      let (step', g') = jitter_step spec.jitter step g in
      then_with (resolve_wildcards nodes (record spec.inner { step = step' }) g')
        (λ r. returned (draw_delay spec.inner r.0 r.1))

-- spec.StartStep + i * spec.Every, for a positive Every.
pub step_of : Recurring → ℕ → ℤ
step_of spec i = wrap_int (spec.start_step +ℤ pos (i * pos_part spec.every))

-- The two `break`s of the loop.
pub is_past : Recurring → ℕ → Bool
is_past spec i =
    (ltb_ℤ (pos 0) spec.until_step && ltb_ℤ spec.until_step (step_of spec i))
    || (ltb_ℤ (pos 0) spec.count && leb_ℤ spec.count (pos i))

-- What the loop does on fuel.
pub data Looped : Type 0 where
  out_of_fuel : Looped
  ended : Result (List RawEntry) → Looped

push : RawEntry → Looped → Looped
push e out_of_fuel = out_of_fuel
push e (ended (failed err)) = ended (failed err)
push e (ended (returned es)) = ended (returned (e ∷ es))

entry_error : ℕ → String → String
entry_error i err = str_append "recurring entry " (str_append (decimal i) (str_append ": " err))

module _ {G : Type 0} (rng : Rng G) where
  pub loop : ℕ → List String → Recurring → ℕ → G → Looped
  unfolding push entry_at
  loop zero nodes spec i g = out_of_fuel
  loop (suc fuel) nodes spec i g =
      if is_past spec i
      then ended (returned [])
      else elim (entry_at rng nodes spec (step_of spec i) g) [
        | failed err ↦ ended (failed (entry_error i err))
        | returned (e, g') ↦ push e (loop fuel nodes spec (suc i) g')
      ]

  pub expand_recurring : ℕ → List String → Recurring → G → Looped
  unfolding loop
  expand_recurring fuel nodes spec g =
      if leb_ℤ spec.every (pos 0)
      then ended (failed "recurring: every must be > 0")
      else if leb_ℤ spec.count (pos 0) && leb_ℤ spec.until_step (pos 0)
      then ended (failed "recurring: count or until_step required")
      else if spec.inner.type == ""
      then ended (failed "recurring: event.type required")
      else loop fuel nodes spec 0 g
