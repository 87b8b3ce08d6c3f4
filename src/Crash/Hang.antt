-- ===== src/Crash/Hang.antt =====
-- crash.HangDetector of sidecar/internal/fuzz/crash/poller.go. Match and Liveness, which may be nil, are
-- arguments; `none` is the error of Liveness.
use xrpl_confluence.Prelude.{
  ℕ, suc, String, ◌≡◌, ◌∙◌, refl, Bool, true, false, ◌||◌, ◌&&◌, not, Option, none, some, List, [],
  ◌∷◌, arith, if◌then◌else◌, ◌==◌, string_eq, Bool-cases, inl, inr,
}
use text.Mathlib.TextEquality.{eq_iff}
use xrpl_confluence.Prelude.Dict.{Dict, lookup, insert, lookup-insert}
use xrpl_confluence.Prelude.Int.{ℤ, pos, leb_ℤ, int_eq, beq_ℤ_iff}

pub record HangDetector : Type 0 where
  pub stale_ticks : ℤ
  pub last : Dict String ℤ
  pub stale : Dict String ℕ
  pub fired : Dict String Bool
  pub seen : Dict String Bool

pub new_hang_detector : ℤ → HangDetector
new_hang_detector n = record { stale_ticks = n; last = []; stale = []; fired = []; seen = [] }

pub record Probe : Type 0 where
  pub match : Option (String → Bool)
  pub liveness : Option (String → Option ℤ)

-- `h.m[name]` of a map whose missing values are the zero value.
pub is_set : String → Dict String Bool → Bool
is_set name m = elim (lookup name m) [ none ↦ false | some b ↦ b ]

count_of : String → Dict String ℕ → ℕ
count_of name m = elim (lookup name m) [ none ↦ 0 | some n ↦ n ]

value_of : String → Dict String ℤ → ℤ
value_of name m = elim (lookup name m) [ none ↦ pos 0 | some v ↦ v ]

-- The sample that Step takes, when none of its early returns is taken.
sample : Probe → String → HangDetector → Option ℤ
sample probe name h = elim probe.match [
  | none ↦ none
  | some matches ↦ elim probe.liveness [
    | none ↦ none
    | some live ↦ if is_set name h.fired || not (matches name) then none else live name
  ]
]

restart : String → ℤ → HangDetector → HangDetector
restart name v h = record h { last = insert name v h.last; stale = insert name 1 h.stale }

count : String → ℤ → HangDetector → HangDetector
count name v h =
    if not (is_set name h.seen)
    then restart name v (record h { seen = insert name true h.seen })
    else if v == value_of name h.last
    then record h { stale = insert name (suc (count_of name h.stale)) h.stale }
    else restart name v h

fire : String → HangDetector → Bool × HangDetector
fire name h =
    if leb_ℤ h.stale_ticks (pos (count_of name h.stale))
    then (true, record h { fired = insert name true h.fired })
    else (false, h)

take_sample : String → HangDetector → Option ℤ → Bool × HangDetector
take_sample name h none = (false, h)
take_sample name h (some v) = fire name (count name v h)

pub step : Probe → String → HangDetector → Bool × HangDetector
step probe name h = take_sample name h (sample probe name h)

-- The detector after the answers of Liveness of a container that matches, the newest in front.
abbrev pub answering : Option ℤ → Probe
answering o = record { match = some (λ name. true); liveness = some (λ name. o) }

pub watch : ℤ → String → List (Option ℤ) → HangDetector
watch n name [] = new_hang_detector n
watch n name (o ∷ os) = (step (answering o) name (watch n name os)).1

-- The samples that are no errors, and the length of the run of equal samples in front.
abbrev pub samples : List (Option ℤ) → List ℤ
samples [] = []
samples (none ∷ os) = samples os
samples (some v ∷ os) = v ∷ samples os

abbrev pub streak : List ℤ → ℕ
streak [] = 0
streak (v ∷ []) = 1
streak (v ∷ w ∷ vs) = if v == w then suc (streak (w ∷ vs)) else 1

-- At one of the answers, the run of equal samples was at least `n` long.
abbrev pub is_hung : ℤ → List (Option ℤ) → Bool
is_hung n [] = false
is_hung n (none ∷ os) = is_hung n os
is_hung n (some v ∷ os) = is_hung n os || leb_ℤ n (pos (streak (v ∷ samples os)))

Tracks : String → List ℤ → HangDetector → Type 0
Tracks name [] h = is_set name h.seen ≡ false
Tracks name (v ∷ vs) h =
    (is_set name h.seen ≡ true)
    × (lookup name h.last ≡ some v)
    × (lookup name h.stale ≡ some (streak (v ∷ vs)))

count-Tracks :
    (name : String) (v : ℤ) (vs : List ℤ) (h : HangDetector)
    → Tracks name vs h
    → Tracks name (v ∷ vs) (count name v h)
      × (is_set name (count name v h).fired ≡ is_set name h.fired)
      × ((count name v h).stale_ticks ≡ h.stale_ticks)
unfolding Tracks count restart is_set count_of value_of
count-Tracks name v [] h t = rw (t) (
    ground (
      arith,
      t,
      lookup-insert name name true h.seen,
      lookup-insert name name v h.last,
      lookup-insert name name 1 h.stale,
      eq_iff name name,
    ))
count-Tracks name v (w ∷ vs) h (t, l, c) = ground (
  arith,
  t,
  l,
  c,
  lookup-insert name name true h.seen,
  lookup-insert name name v h.last,
  lookup-insert name name 1 h.stale,
  lookup-insert name name (suc (streak (w ∷ vs))) h.stale,
  eq_iff name name,
  beq_ℤ_iff v w,
)

sample_lem :
    (o : Option ℤ) (name : String) (h : HangDetector)
    → sample (answering o) name h ≡ (if is_set name h.fired then none else o)
unfolding sample
sample_lem o name h = ground arith

-- What the detector holds after the answers.
abbrev IsWatch : ℤ → String → List (Option ℤ) → HangDetector → Type 0
IsWatch n name os h =
    (h.stale_ticks ≡ n)
    × (is_set name h.fired ≡ is_hung n os)
    × (is_hung n os ≡ false → Tracks name (samples os) h)

abbrev Steps : ℤ → String → Option ℤ → List (Option ℤ) → Bool × HangDetector → Type 0
Steps n name o os r =
    (r.0 ≡ (is_hung n (o ∷ os) && not (is_hung n os))) × IsWatch n name (o ∷ os) r.1

fire-Steps :
    (n : ℤ) (name : String) (v : ℤ) (os : List (Option ℤ)) (h : HangDetector)
    → h.stale_ticks ≡ n
    → is_set name h.fired ≡ false
    → is_hung n os ≡ false
    → Tracks name (v ∷ samples os) h
    → Steps n name (some v) os (fire name h)
unfolding fire Tracks count_of is_set
fire-Steps n name v os h e f g (t, l, c) =
    elim (Bool-cases (leb_ℤ n (pos (streak (v ∷ samples os))))) [
      | inl q ↦
          rw (fire, count_of, c, e, q, g)
            (
              refl,
              (
                refl,
                ground (arith, lookup-insert name name true h.fired, eq_iff name name),
                (λ a. absurd (cc)),
              ),
            )
      | inr q ↦ rw (fire, count_of, c, e, q, g) (refl, (refl, f, (λ a. (t, l, c))))
    ]

step-Steps :
    (n : ℤ) (name : String) (o : Option ℤ) (os : List (Option ℤ)) (h : HangDetector)
    → IsWatch n name os h
    → Steps n name o os (step (answering o) name h)
unfolding step take_sample
step-Steps n name none os h (e, f, t) = rw (sample_lem none name h) (ground (arith, e, f, t))
step-Steps n name (some v) os h (e, f, t) = elim (Bool-cases (is_hung n os)) [
  | inl q ↦
      rw (sample_lem (some v) name h, f, q) (refl, (e, ground (arith, f, q), (λ a. absurd (cc))))
  | inr q ↦
      let (k, fs, st) = count-Tracks name v (samples os) h (t q) in
      rw (sample_lem (some v) name h, f ∙ q)
        (fire-Steps n name v os (count name v h) (st ∙ e) (fs ∙ f ∙ q) q k)
]

watch-IsWatch : (n : ℤ) (name : String) (os : List (Option ℤ)) → IsWatch n name os (watch n name os)
unfolding watch new_hang_detector Tracks is_set lookup
watch-IsWatch n name [] = (refl, refl, λ q. refl)
watch-IsWatch n name (o ∷ os) =
    (step-Steps n name o os (watch n name os) (watch-IsWatch n name os)).1

-- Step asks for the signal at an answer of Liveness exactly when the run of equal samples reaches
-- StaleTicks there and did not at an earlier answer: at most once, and errors neither lengthen a run
-- nor end it.
pub step-watch :
    (n : ℤ) (name : String) (o : Option ℤ) (os : List (Option ℤ))
    → (step (answering o) name (watch n name os)).0 ≡ (is_hung n (o ∷ os) && not (is_hung n os))
step-watch n name o os = (step-Steps n name o os (watch n name os) (watch-IsWatch n name os)).0
