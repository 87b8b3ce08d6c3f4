-- ===== src/Finding/Stall/Episodes.antt =====
-- One finding for a stall episode.
use xrpl_confluence.Prelude.{
  ℕ, ◌≤◌, String, ◌≡◌, ◌≢◌, refl, Bool, true, false, Option, none, some, List, [], ◌∷◌, ◌++◌, arith,
  length, any, All, if◌then◌else◌, select, sym, ap, ◌∙◌, Bool-cases, inl, inr, ◌+◌,
}
use mathlib.Core.List.{append_assoc, append-nil}
use xrpl_confluence.Finding.{Finding, Time}
use xrpl_confluence.Finding.Stall.{
  ConsensusProgressInput, ConsensusProgressOracle, Scan, is_stalled, visit, scan, settle, observe,
}

-- One tick's id, time and snapshot.
abbrev pub Tick : Type 0
Tick = String × Time × List ConsensusProgressInput

add_found : Option Finding → List Finding → List Finding
add_found none fs = fs
add_found (some f) fs = f ∷ fs

-- The findings of a sequence of ticks.
pub findings_of : ConsensusProgressOracle → List Tick → List Finding
unfolding add_found
findings_of o [] = []
findings_of o ((id, now, inputs) ∷ ticks) =
    let (o', found) = observe id now inputs o in add_found found (findings_of o' ticks)

abbrev pub some_stalled : ℕ → List ConsensusProgressInput → Bool
some_stalled threshold = any (is_stalled threshold)

stalled-visit :
    (now : Time) (threshold : ℕ) (s : Scan) (input : ConsensusProgressInput)
    → (visit now threshold s input).stalled
      ≡ s.stalled ++ (if is_stalled threshold input then input ∷ [] else [])
unfolding visit
stalled-visit now threshold s input = ground (arith, append-nil s.stalled)

-- The loop collects the stalled inputs, in the order of the snapshot.
pub stalled-scan :
    (now : Time) (threshold : ℕ) (s : Scan) (inputs : List ConsensusProgressInput)
    → (scan now threshold s inputs).stalled ≡ s.stalled ++ select (is_stalled threshold) inputs
unfolding scan
stalled-scan now threshold s [] = sym (append-nil s.stalled)
stalled-scan now threshold s (input ∷ inputs) =
    stalled-scan now threshold (visit now threshold s input) inputs
    ∙ ap (λ l. l ++ select (is_stalled threshold) inputs) (stalled-visit now threshold s input)
    ∙ append_assoc s.stalled (if is_stalled threshold input then input ∷ [] else [])
        (select (is_stalled threshold) inputs)
    ∙ ap (◌++◌ s.stalled)
        (elim (Bool-cases (is_stalled threshold input)) [ inl e ↦ rw e | inr e ↦ rw e ])

select-ne-nil :
    (p : ConsensusProgressInput → Bool) (inputs : List ConsensusProgressInput)
    → any p inputs ≡ true
    → select p inputs ≢ []
select-ne-nil p [] h = cc
select-ne-nil p (input ∷ inputs) h = ground (arith, select-ne-nil p inputs)

abbrev pub marked : Bool → ℕ
marked true = 1
marked false = 0

-- Behind the loop, with a node stalled: the marker and the findings add up to at most 1.
settle_once :
    (id : String) (now : Time) (o : ConsensusProgressOracle) (s : Scan)
    → s.stalled ≢ []
    → let (o', found) = settle id now o s in
      (o'.gap_threshold ≡ o.gap_threshold)
      × (length (add_found found []) + marked o.open_finding ≡ marked o'.open_finding)
unfolding settle add_found
settle_once id now o s h = ground arith

observe_once :
    (id : String) (now : Time) (inputs : List ConsensusProgressInput) (o : ConsensusProgressOracle)
    → some_stalled o.gap_threshold inputs ≡ true
    → let (o', found) = observe id now inputs o in
      (o'.gap_threshold ≡ o.gap_threshold)
      × (length (add_found found []) + marked o.open_finding ≡ marked o'.open_finding)
unfolding observe
observe_once id now [] o h = absurd (cc)
observe_once id now (first ∷ more) o h = settle_once id now _ _ λ e.
    select-ne-nil (is_stalled o.gap_threshold) (first ∷ more) h
      (sym (stalled-scan now o.gap_threshold _ (first ∷ more)) ∙ e)

length-add_found :
    (found : Option Finding) (fs : List Finding)
    → length (add_found found fs) ≡ length (add_found found []) + length fs
unfolding add_found
length-add_found none fs = omega arith
length-add_found (some f) fs = omega arith

-- While some node is stalled at every tick, one finding is made at most, and none if one is open.
pub findings_of_episode :
    (o : ConsensusProgressOracle) (ticks : List Tick)
    → All (λ t. some_stalled o.gap_threshold t.2 ≡ true) ticks
    → length (findings_of o ticks) + marked o.open_finding ≤ 1
unfolding findings_of
findings_of_episode o [] h = ground arith
findings_of_episode o ((id, now, inputs) ∷ ticks) h =
    let (same, once) = observe_once id now inputs o h.0 in
    omega (
      arith,
      once,
      length-add_found (observe id now inputs o).1 (findings_of (observe id now inputs o).0 ticks),
      findings_of_episode (observe id now inputs o).0 ticks (rw same h.1),
    )

settle_recovered :
    (id : String) (now : Time) (o : ConsensusProgressOracle) (s : Scan)
    → s.stalled ≡ []
    → let (o', found) = settle id now o s in (o'.open_finding ≡ false) × (found ≡ none)
unfolding settle
settle_recovered id now o s h = ground arith

select-eq-nil :
    (p : ConsensusProgressInput → Bool) (inputs : List ConsensusProgressInput)
    → any p inputs ≡ false
    → select p inputs ≡ []
select-eq-nil p [] h = refl
select-eq-nil p (input ∷ inputs) h = ground (arith, select-eq-nil p inputs)

-- A tick at which no node is stalled makes no finding and ends the episode.
observe_recovered :
    (id : String) (now : Time) (inputs : List ConsensusProgressInput) (o : ConsensusProgressOracle)
    → some_stalled o.gap_threshold inputs ≡ false
    → let (o', found) = observe id now inputs o in (o'.open_finding ≡ false) × (found ≡ none)
unfolding observe
observe_recovered id now [] o h = (refl, refl)
observe_recovered id now (first ∷ more) o h = settle_recovered id now _ _ (
    stalled-scan now o.gap_threshold _ (first ∷ more)
    ∙ select-eq-nil (is_stalled o.gap_threshold) (first ∷ more) h)
