-- ===== src/Finding/Stall/Sustained.antt =====
-- A stall finding speaks of a stall that lasted: some node was over the threshold at every tick of the
-- whole time that the oracle requires.
use xrpl_confluence.Prelude.{
  ℕ, ◌-◌, ◌≤◌, ◌<◌, String, ◌≡◌, ◌∙◌, sym, subst, refl, Bool, true, false, ◌⊎◌, inl, inr, some,
  List, [], ◌∷◌, arith, any, map, contains, ◌==◌, string_eq, ◌&&◌,
}
use text.Mathlib.TextEquality.{eq_iff}
use xrpl_confluence.Prelude.Dict.{Dict, lookup, lookup-insert, lookup-erase, lookup-keep_keys}
use xrpl_confluence.Prelude.Int.{ℤ}
use xrpl_confluence.Finding.{Finding, Time}
use xrpl_confluence.Finding.Stall.{
  ConsensusProgressInput, ConsensusProgressOracle, Scan, is_stalled, start_of, note_start, visit,
  scan, settle, observe, purge, new_oracle,
}

-- A history of snapshots, the latest first.
abbrev pub History : Type 0
History = List (Time × List ConsensusProgressInput)

-- The node is over the threshold in the snapshot.
abbrev pub stalled_in : ℕ → String → List ConsensusProgressInput → Bool
stalled_in threshold node = any (λ input. input.node == node && is_stalled threshold input)

-- The node is over the threshold in the latest snapshot and in each one back to that of time `start`.
pub data StalledSince (threshold : ℕ) (node : String) (start : Time) : History → Type 0 where
  onset :
      {inputs : List ConsensusProgressInput} {h : History}
      → stalled_in threshold node inputs ≡ true
      → StalledSince threshold node start ((start, inputs) ∷ h)
  lasting :
      {now : Time} {inputs : List ConsensusProgressInput} {h : History}
      → stalled_in threshold node inputs ≡ true
      → StalledSince threshold node start h
      → StalledSince threshold node start ((now, inputs) ∷ h)

abbrev begin : ConsensusProgressOracle → Scan
begin o = record { starts = o.stall_starts; stalled = []; worst = 0 }

-- The recorded starts are true of the history.
abbrev pub IsSound : ℕ → History → Dict String Time → Type 0
IsSound threshold h starts =
    (node : String) (start : Time)
    → lookup node starts ≡ some start
    → StalledSince threshold node start h

module _ (now : Time) (threshold : ℕ) where
  -- A start that stands behind the loop, or part of it: new, or there before.
  abbrev Origin : String → Time → Scan → Type 0
  Origin node start s = (start ≡ now) ⊎ (lookup node s.starts ≡ some start)

  visit_start :
      (s : Scan) (input : ConsensusProgressInput) (node : String) (start : Time)
      → lookup node (visit now threshold s input).starts ≡ some start
      → ((input.node == node) ≡ true × (is_stalled threshold input ≡ true) × Origin node start s)
        ⊎ ((input.node == node) ≡ false × (lookup node s.starts ≡ some start))
  unfolding visit note_start
  visit_start s input node start e = ground (
    arith,
    lookup-insert input.node node now s.starts,
    lookup-erase input.node node s.starts,
    eq_iff input.node node,
  )

  scan_start :
      (s : Scan) (inputs : List ConsensusProgressInput) (node : String) (start : Time)
      → lookup node (scan now threshold s inputs).starts ≡ some start
      → ((stalled_in threshold node inputs ≡ true) × Origin node start s)
        ⊎ ((contains node (map (λ input. input.node) inputs) ≡ false)
            × (lookup node s.starts ≡ some start))
  unfolding scan
  scan_start s [] node start e = inr (refl, e)
  scan_start s (input ∷ inputs) node start e = ground (
    arith,
    scan_start (visit now threshold s input) inputs node start e,
    visit_start s input node start,
  )

  -- A node and the start of its stall.
  abbrev Longest : List ConsensusProgressInput → Scan → Time → Type 0
  Longest inputs s worst =
      (node : String) × (start : Time) × (stalled_in threshold node inputs ≡ true)
      × Origin node start s
      × (worst ≡ now - start)

  start_of-Origin : (s : Scan) (node : String) → Origin node (start_of now (lookup node s.starts)) s
  unfolding start_of
  start_of-Origin s node = ground arith

  visit_worst :
      (s : Scan) (input : ConsensusProgressInput)
      → ((visit now threshold s input).worst ≡ s.worst)
        ⊎ ((is_stalled threshold input ≡ true)
            × ((visit now threshold s input).worst
                ≡ now - start_of now (lookup input.node s.starts)))
  unfolding visit
  visit_worst s input = ground arith

  scan_worst :
      (s : Scan) (inputs : List ConsensusProgressInput)
      → ((scan now threshold s inputs).worst ≡ s.worst)
        ⊎ Longest inputs s (scan now threshold s inputs).worst
  unfolding scan
  scan_worst s [] = inl refl
  scan_worst s (input ∷ inputs) = elim (scan_worst (visit now threshold s input) inputs) [
    | inl e ↦ elim (visit_worst s input) [
      | inl e' ↦ inl (e ∙ e')
      | inr (st, e') ↦ inr (
        input.node,
        start_of now (lookup input.node s.starts),
        ground (arith, eq_iff input.node input.node),
        start_of-Origin s input.node,
        e ∙ e',
      )
    ]
    | inr (node, start, st, o, w) ↦
        inr (node, start, ground (arith, st), ground (arith, o, visit_start s input node start), w)
  ]

  -- Behind the latest snapshot, what an origin says of the history.
  Origin-StalledSince :
      (h : History) (o : ConsensusProgressOracle) (inputs : List ConsensusProgressInput)
      (node : String) (start : Time)
      → IsSound threshold h o.stall_starts
      → stalled_in threshold node inputs ≡ true
      → (start ≡ now) ⊎ (lookup node o.stall_starts ≡ some start)
      → StalledSince threshold node start ((now, inputs) ∷ h)
  Origin-StalledSince h o inputs node start sound st (inl e) = rw e (onset st)
  Origin-StalledSince h o inputs node start sound st (inr e) = lasting st (sound node start e)

purged_start :
    (now : Time) (inputs : List ConsensusProgressInput) (h : History) (o : ConsensusProgressOracle)
    (node : String) (start : Time)
    → IsSound o.gap_threshold h o.stall_starts
    → lookup node (purge inputs (scan now o.gap_threshold (begin o) inputs).starts) ≡ some start
    → StalledSince o.gap_threshold node start ((now, inputs) ∷ h)
unfolding purge
purged_start now inputs h o node start sound e =
    let kept =
      lookup-keep_keys (λ n. contains n (map (λ input. input.node) inputs)) node
        (scan now o.gap_threshold (begin o) inputs).starts in
    elim (scan_start now o.gap_threshold (begin o) inputs node start (ground (arith, kept, e))) [
      | inl (st, origin) ↦
          Origin-StalledSince now o.gap_threshold h o inputs node start sound st origin
      | inr (gone, _) ↦ absurd (ground (arith, kept, e, gone))
    ]

empty_start : (node : String) (start : Time) → ¬ (lookup node [] ≡ some start)
unfolding lookup
empty_start node start e = cc

settle_keeps :
    (id : String) (now : Time) (o : ConsensusProgressOracle) (s : Scan)
    → ((settle id now o s).0.stall_starts ≡ o.stall_starts)
      × ((settle id now o s).0.gap_threshold ≡ o.gap_threshold)
      × ((settle id now o s).0.sustain_for ≡ o.sustain_for)
unfolding settle
settle_keeps id now o s = ground arith

settle_sustained :
    (id : String) (now : Time) (o : ConsensusProgressOracle) (s : Scan) {f : Finding}
    → (settle id now o s).1 ≡ some f
    → o.sustain_for ≤ s.worst
unfolding settle
settle_sustained id now o s e = ground arith

module _ (id : String) (now : Time) (h : History) where
  observe_keeps :
      (inputs : List ConsensusProgressInput) (o : ConsensusProgressOracle)
      → ((observe id now inputs o).0.gap_threshold ≡ o.gap_threshold)
        × ((observe id now inputs o).0.sustain_for ≡ o.sustain_for)
  unfolding observe
  observe_keeps [] o = (refl, refl)
  observe_keeps (first ∷ more) o = let (a, b, c) = settle_keeps id now _ _ in (b, c)

  -- Each tick keeps the recorded starts true.
  observe-IsSound :
      (inputs : List ConsensusProgressInput) (o : ConsensusProgressOracle)
      → IsSound o.gap_threshold h o.stall_starts
      → IsSound o.gap_threshold ((now, inputs) ∷ h) (observe id now inputs o).0.stall_starts
  unfolding observe
  observe-IsSound [] o sound = λ node start e. absurd (empty_start node start e)
  observe-IsSound (first ∷ more) o sound = λ node start e.
      purged_start now (first ∷ more) h o node start sound
        (subst (λ d. lookup node d ≡ some start) (settle_keeps id now _ _).0 e)

  observe_lasted :
      (inputs : List ConsensusProgressInput) (o : ConsensusProgressOracle) {f : Finding}
      → IsSound o.gap_threshold h o.stall_starts
      → 0 < o.sustain_for
      → (observe id now inputs o).1 ≡ some f
      → (node : String) × (start : Time) × StalledSince o.gap_threshold node start
          ((now, inputs) ∷ h)
        × (o.sustain_for ≤ now - start)
  unfolding observe
  observe_lasted [] o sound p e = absurd (cc)
  observe_lasted (first ∷ more) o sound p e =
      elim (scan_worst now o.gap_threshold (begin o) (first ∷ more)) [
        | inl w ↦ absurd (omega (arith, w, settle_sustained id now _ _ e))
        | inr (node, start, st, origin, w) ↦ (
          node,
          start,
          Origin-StalledSince now o.gap_threshold h o (first ∷ more) node start sound st origin,
          omega (arith, w, settle_sustained id now _ _ e),
        )
      ]

-- The oracle after a history, from its start. The ids of findings do not matter to it.
unfoldable pub after : ConsensusProgressOracle → History → ConsensusProgressOracle
after o [] = o
after o ((now, inputs) ∷ h) = (observe "" now inputs (after o h)).0

module _ (o : ConsensusProgressOracle) where
  after_keeps :
      (h : History)
      → ((after o h).gap_threshold ≡ o.gap_threshold) × ((after o h).sustain_for ≡ o.sustain_for)
  unfolding after
  after_keeps [] = (refl, refl)
  after_keeps ((now, inputs) ∷ h) =
      let (a, b) = observe_keeps "" now h inputs (after o h) in
      let (c, d) = after_keeps h in (a ∙ c, b ∙ d)

  after-IsSound :
      (h : History) → o.stall_starts ≡ [] → IsSound o.gap_threshold h (after o h).stall_starts
  unfolding after
  after-IsSound [] e =
      λ node start f. absurd (empty_start node start (subst (λ d. lookup node d ≡ some start) e f))
  after-IsSound ((now, inputs) ∷ h) e =
      subst (λ t. IsSound t ((now, inputs) ∷ h) (observe "" now inputs (after o h)).0.stall_starts)
        (after_keeps h).0
        (observe-IsSound "" now h inputs (after o h) (
          subst (λ t. IsSound t h (after o h).stall_starts) (sym (after_keeps h).0)
            (after-IsSound h e)))

new_sustain : (gap sustain : ℤ) → 0 < (new_oracle gap sustain).sustain_for
unfolding new_oracle
new_sustain gap sustain = ground arith

new_starts : (gap sustain : ℤ) → (new_oracle gap sustain).stall_starts ≡ []
unfolding new_oracle
new_starts gap sustain = refl

-- Whenever the oracle, after any history of snapshots since its construction, makes a finding, some one
-- node was over the gap threshold in the present snapshot and in each one back to a time that lies at
-- least the sustain time ago.
pub observe_sustained :
    (gap sustain : ℤ) (h : History) (id : String) (now : Time)
    (inputs : List ConsensusProgressInput) (f : Finding)
    → (observe id now inputs (after (new_oracle gap sustain) h)).1 ≡ some f
    → let o = new_oracle gap sustain in
      (node : String) × (start : Time) × StalledSince o.gap_threshold node start ((now, inputs) ∷ h)
      × (o.sustain_for ≤ now - start)
observe_sustained gap sustain h id now inputs f e =
    let o = new_oracle gap sustain in
    let (thr, sus) = after_keeps o h in
    let (node, start, since, long) =
      observe_lasted id now h inputs (after o h)
        (subst (λ t. IsSound t h (after o h).stall_starts) (sym thr)
          (after-IsSound o h (new_starts gap sustain)))
        (rw sus (new_sustain gap sustain)) e in
    (
      node,
      start,
      subst (λ t. StalledSince t node start ((now, inputs) ∷ h)) thr since,
      subst (λ t. t ≤ now - start) sus long,
    )
