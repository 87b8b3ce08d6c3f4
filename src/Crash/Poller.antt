-- ===== src/Crash/Poller.antt =====
-- crash.Poller of sidecar/internal/fuzz/crash/poller.go. What the container runtime answers during a tick
-- is an argument: `none` stands for an error. OnCrash is called with the events that a tick returns.
use xrpl_confluence.Prelude.{
  ℕ, String, ◌≡◌, ◌∙◌, ap, sym, refl, inl, inr, Bool, true, false, ◌||◌, Option, none, some, List,
  [], ◌∷◌, ◌++◌, arith, if◌then◌else◌, ◌==◌, string_eq, Bool-cases, Option-cases, All, select,
}
use text.Mathlib.TextEquality.{eq_iff}
use xrpl_confluence.Prelude.Dict.{Dict, lookup, insert, lookup-insert}
use xrpl_confluence.Prelude.Int.{ℤ, pos, int_eq, beq_ℤ_iff}
use xrpl_confluence.Crash.Markers.{classify}

pub record Event : Type 0 where
  pub container : String
  pub exit_code : ℤ
  pub kind : String
  pub marker_line : ℕ
  pub log_tail : List String

-- The answers of the runtime: ListByLabel, Inspect, and TailLogs with its error dropped.
pub record Runtime : Type 0 where
  pub list : Option (List String)
  pub inspect : String → Option (Bool × ℤ)
  pub tail_logs : String → List String

pub record Poller : Type 0 where
  pub seen : Dict String ℤ

pub new_poller : Poller
new_poller = record { seen = [] }

-- The exit code of a crash: neither `continue` of the first two tests is taken.
unfoldable pub crash_code : Option (Bool × ℤ) → Option ℤ
crash_code none = none
crash_code (some (running, code)) = if running || code == pos 0 then none else some code

reported : Option ℤ → ℤ → Bool
reported none code = false
reported (some last) code = last == code

crash_event : Runtime → String → ℤ → Event
crash_event rt name code =
    let tail = rt.tail_logs name in
    let cls = classify tail in
    record {
      container = name;
      exit_code = code;
      kind = cls.kind;
      marker_line = cls.marker_line;
      log_tail = tail;
    }

note : Runtime → String → Option ℤ → Poller → Poller × List Event
note rt name none p = (p, [])
note rt name (some code) p =
    if reported (lookup name p.seen) code
    then (p, [])
    else (record { seen = insert name code p.seen }, crash_event rt name code ∷ [])

pub poll : Runtime → List String → Poller → Poller × List Event
unfolding note reported crash_event crash_code
poll rt [] p = (p, [])
poll rt (name ∷ names) p =
    let (p', events) = note rt name (crash_code (rt.inspect name)) p in
    let (p'', more) = poll rt names p' in (p'', events ++ more)

-- `none` in front is the error of ListByLabel.
pub tick : Runtime → Poller → Option (List Event) × Poller
unfolding poll
tick rt p = elim rt.list [
  | none ↦ (none, p)
  | some names ↦ let (p', events) = poll rt names p in (some events, p')
]

-- The events of one tick, and of a sequence of ticks.
pub tick_events : Option (List Event) → List Event
tick_events none = []
tick_events (some events) = events

pub ticks : List Runtime → Poller → List Event × Poller
unfolding tick_events
ticks [] p = ([], p)
ticks (rt ∷ rts) p =
    let (answer, p') = tick rt p in
    let (more, p'') = ticks rts p' in (tick_events answer ++ more, p'')

reported_last : (o : Option ℤ) (code : ℤ) → reported o code ≡ true → o ≡ some code
unfolding reported
reported_last none code h = cc
reported_last (some last) code h = ground (arith, beq_ℤ_iff last code)

-- The crash that the runtime reports of the container, if any, is the one that was last reported.
abbrev pub IsSettled : Runtime → Poller → String → Type 0
IsSettled rt p name =
    (code : ℤ) → crash_code (rt.inspect name) ≡ some code → lookup name p.seen ≡ some code

module _ (rt : Runtime) where
  note-IsSettled_self :
      (name : String) (p : Poller)
      → IsSettled rt (note rt name (crash_code (rt.inspect name)) p).0 name
  unfolding note reported
  note-IsSettled_self name p code h = ground (
    arith,
    h,
    lookup-insert name name code p.seen,
    eq_iff name name,
    reported_last (lookup name p.seen) code,
  )

  note-IsSettled :
      (name other : String) (p : Poller)
      → IsSettled rt p other
      → IsSettled rt (note rt name (crash_code (rt.inspect name)) p).0 other
  unfolding note reported
  note-IsSettled name other p s code h = elim (Option-cases (crash_code (rt.inspect name))) [
    | inl e ↦ rw (e, note) (s code h)
    | inr (c, e) ↦
        rw (e, note)
          (ground (
            arith,
            h,
            e,
            s code h,
            lookup-insert name other c p.seen,
            eq_iff name other,
            reported_last (lookup name p.seen) c,
          ))
  ]

  note_settled :
      (name : String) (p : Poller)
      → IsSettled rt p name
      → note rt name (crash_code (rt.inspect name)) p ≡ (p, [])
  unfolding note reported
  note_settled name p s = elim (Option-cases (crash_code (rt.inspect name))) [
    | inl e ↦ rw (e, note) refl
    | inr (c, e) ↦ rw (e, note, s c e) (ground (arith, beq_ℤ_iff c c))
  ]

  poll-IsSettled_other :
      (names : List String) (p : Poller) (other : String)
      → IsSettled rt p other
      → IsSettled rt (poll rt names p).0 other
  unfolding poll
  poll-IsSettled_other [] p other s = s
  poll-IsSettled_other (name ∷ names) p other s =
      poll-IsSettled_other names (note rt name (crash_code (rt.inspect name)) p).0 other
        (note-IsSettled name other p s)

  poll-IsSettled : (names : List String) (p : Poller) → All (IsSettled rt (poll rt names p).0) names
  unfolding poll
  poll-IsSettled [] p = tt
  poll-IsSettled (name ∷ names) p =
      let p' = (note rt name (crash_code (rt.inspect name)) p).0 in
      (poll-IsSettled_other names p' name (note-IsSettled_self name p), poll-IsSettled names p')

  poll_settled :
      (names : List String) (p : Poller) → All (IsSettled rt p) names → poll rt names p ≡ (p, [])
  unfolding poll
  poll_settled [] p all = refl
  poll_settled (name ∷ names) p (s, all) = rw (note_settled name p s, poll_settled names p all) refl

  -- A second tick with the same answers of the runtime reports nothing and leaves the poller as it is.
  pub tick_again :
      (p : Poller) (names : List String)
      → rt.list ≡ some names
      → tick rt (tick rt p).1 ≡ (some [], (tick rt p).1)
  unfolding tick
  tick_again p names e =
      rw (e) (rw (poll_settled names (poll rt names p).0 (poll-IsSettled names p)) refl)

select_none :
    (keep : Event → Bool) (xs ys : List Event)
    → select keep xs ≡ []
    → select keep ys ≡ []
    → select keep (xs ++ ys) ≡ []
select_none keep [] ys e f = f
select_none keep (x ∷ xs) ys e f = elim (Bool-cases (keep x)) [
  | inl q ↦ absurd (ground (arith, q, e))
  | inr q ↦ ground (arith, q, e, select_none keep xs ys, f)
]

-- The events of the container.
abbrev pub events_of : String → List Event → List Event
events_of name events = select (λ e. e.container == name) events

module _ (name : String) (code : ℤ) where
  -- While the runtime answers so, the container is running, exited well, unknown, or exited with `code`.
  abbrev pub Same : Runtime → Type 0
  Same rt = (c : ℤ) → crash_code (rt.inspect name) ≡ some c → c ≡ code

  note_missed :
      (rt : Runtime) (other : String) (p : Poller)
      → lookup name p.seen ≡ some code
      → Same rt
      → (lookup name (note rt other (crash_code (rt.inspect other)) p).0.seen ≡ some code)
        × (events_of name (note rt other (crash_code (rt.inspect other)) p).1 ≡ [])
  unfolding note reported crash_event
  note_missed rt other p s h = elim (Option-cases (crash_code (rt.inspect other))) [
    | inl e ↦ rw (e, note) (s, refl)
    | inr (c, e) ↦
        rw (e, note)
          (elim (Bool-cases (other == name)) [
            | inl q ↦
                let same = (string_eq.beq_iff other name).0 q in
                let is_code = h c (ap (λ n. crash_code (rt.inspect n)) (sym same) ∙ e) in
                rw (same, is_code, s) (ground (arith, s, beq_ℤ_iff code code))
            | inr q ↦
                (ground (arith, s, q, lookup-insert other name c p.seen), ground (arith, s, q))
          ])
  ]

  poll_missed :
      (rt : Runtime) (names : List String) (p : Poller)
      → lookup name p.seen ≡ some code
      → Same rt
      → (lookup name (poll rt names p).0.seen ≡ some code)
        × (events_of name (poll rt names p).1 ≡ [])
  unfolding poll
  poll_missed rt [] p s h = (s, refl)
  poll_missed rt (other ∷ names) p s h =
      let (s', q) = note_missed rt other p s h in
      let (s'', r) =
        poll_missed rt names (note rt other (crash_code (rt.inspect other)) p).0 s' h in
      let events = (note rt other (crash_code (rt.inspect other)) p).1 in
      (
        s'',
        select_none (λ e. e.container == name) events
            (poll rt names (note rt other (crash_code (rt.inspect other)) p).0).1 q r,
      )

  tick_missed :
      (rt : Runtime) (p : Poller)
      → lookup name p.seen ≡ some code
      → Same rt
      → (lookup name (tick rt p).1.seen ≡ some code)
        × (events_of name (tick_events (tick rt p).0) ≡ [])
  unfolding tick tick_events
  tick_missed rt p s h = elim (Option-cases rt.list) [
    | inl e ↦ rw (e, tick) (s, refl)
    | inr (names, e) ↦ rw (e, tick) (poll_missed rt names p s h)
  ]

  -- Once a crash with `code` is reported, later ticks report nothing of the container while it is never
  -- seen to have exited with another code, whether or not it ran again between them: a second crash
  -- with the same exit code is not reported.
  pub crash_missed :
      (rts : List Runtime) (p : Poller)
      → lookup name p.seen ≡ some code
      → All Same rts
      → events_of name (ticks rts p).0 ≡ []
  unfolding ticks
  crash_missed [] p s h = refl
  crash_missed (rt ∷ rts) p s (h, hs) =
      let (s', q) = tick_missed rt p s h in
      select_none (λ e. e.container == name) (tick_events (tick rt p).0) (ticks rts (tick rt p).1).0
        q (crash_missed rts (tick rt p).1 s' hs)
