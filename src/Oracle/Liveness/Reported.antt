-- ===== src/Oracle/Liveness/Reported.antt =====
-- That the monitor of oracle.Oracle reports a stall that lasts, and goes on reporting it.
use Prim.Native.Nat.{◌^◌}
use xrpl_confluence.Prelude.{
  ℕ, ◌-◌, ◌≤◌, ◌<◌, ◌≡◌, ◌∙◌, sym, subst, refl, Bool, true, false, ◌&&◌, ◌⊎◌, inl, inr, Option,
  none, some, List, [], ◌∷◌, ◌++◌, arith, any, if◌then◌else◌, if_elim, ◌==◌, string_eq, leb, ltb,
  nat_beq, Bool-cases,
}
use xrpl_confluence.Prelude.Int.{ℤ, ltb_ℤ, leb_ℤ, pos}
use xrpl_confluence.Finding.{Time}
use xrpl_confluence.Oracle.Liveness.{
  NodeSnapshot, LivenessEvent, LivenessConfig, State, new_state, since, max_seq, mark, fire,
  fire_peers, low_on_peers, tick, threshold_of, cooldown_of,
}

-- The samples of the ticks, the latest first.
abbrev pub Samples : Type 0
Samples = List (Time × List NodeSnapshot)

module _ (cfg : LivenessConfig) (start : Time) where
  -- The state behind the ticks, and the events with the times of their ticks, the latest first.
  unfoldable pub state_after : Samples → State
  state_after [] = new_state start
  state_after ((now, ss) ∷ earlier) = (tick cfg now ss (state_after earlier)).0

  reported : Time → Option LivenessEvent → List (Time × LivenessEvent)
  reported now none = []
  reported now (some e) = (now, e) ∷ []

  pub events_after : Samples → List (Time × LivenessEvent)
  unfolding reported
  events_after [] = []
  events_after ((now, ss) ∷ earlier) =
      reported now (tick cfg now ss (state_after earlier)).2 ++ events_after earlier

  -- The last stall that the state remembers was reported, if there was one.
  abbrev IsRemembered : State → List (Time × LivenessEvent) → Type 0
  IsRemembered st events =
      (st.last_stall_fired_at ≡ 0)
      ⊎ (any (λ e. nat_beq e.0 st.last_stall_fired_at && e.1.kind == "consensus_stall") events
          ≡ true)

  mark_last :
      (now : Time) (m : ℤ) (st : State)
      → (mark now m st).0.last_stall_fired_at ≡ st.last_stall_fired_at
  unfolding mark
  mark_last now m st =
      if_elim (λ (r : State × ℕ). r.0.last_stall_fired_at ≡ st.last_stall_fired_at)
        (ltb_ℤ st.high_water_seq m) _ _ (λ e. refl) (λ e. refl)

  -- What a part of the tick leaves: the last stall is the same, and the events are no fewer.
  abbrev KeepsLast : State → State × Option LivenessEvent → Type 0
  KeepsLast st r = r.0.last_stall_fired_at ≡ st.last_stall_fired_at

  fire_peers-KeepsLast :
      (now : Time) (bad : List NodeSnapshot) (st : State) → KeepsLast st (fire_peers cfg now bad st)
  unfolding fire_peers
  fire_peers-KeepsLast now [] st = refl
  fire_peers-KeepsLast now (b ∷ bad) st =
      if_elim (KeepsLast st) (leb (cooldown_of cfg) (since now st.last_peer_fired_at)) _ _
        (λ e. refl) (λ e. refl)

  remembers : Time → Time × LivenessEvent → Bool
  remembers last e = nat_beq e.0 last && e.1.kind == "consensus_stall"

  any-reported :
      (p : Time × LivenessEvent → Bool) (now : Time) (o : Option LivenessEvent)
      (events : List (Time × LivenessEvent))
      → any p events ≡ true
      → any p (reported now o ++ events) ≡ true
  unfolding reported
  any-reported p now none events h = h
  any-reported p now (some e) events h = ground (arith, h)

  -- The test of the stall.
  is_due : Time → List NodeSnapshot → ℕ → State → Bool
  is_due now ss stall_for st =
      leb_ℤ (max_seq ss) st.high_water_seq
      && (leb (threshold_of cfg) stall_for
          && leb (cooldown_of cfg) (since now st.last_stall_fired_at))

  fire-IsRemembered :
      (now : Time) (ss : List NodeSnapshot) (stall_for : ℕ) (st : State)
      (events : List (Time × LivenessEvent))
      → IsRemembered st events
      → IsRemembered
          (fire cfg now ss stall_for st).0
          (reported now (fire cfg now ss stall_for st).1 ++ events)
  unfolding fire is_due reported
  fire-IsRemembered now ss stall_for st events r =
      if_elim (λ (x : State × Option LivenessEvent). IsRemembered x.0 (reported now x.1 ++ events))
        (is_due now ss stall_for st) _ _ (λ e. inr (ground arith))
        (λ e.
          keeps (fire_peers cfg now (low_on_peers cfg ss) st)
            (fire_peers-KeepsLast now (low_on_peers cfg ss) st) r)
    where
      keeps :
          (x : State × Option LivenessEvent)
          → KeepsLast st x
          → IsRemembered st events
          → IsRemembered x.0 (reported now x.1 ++ events)
      keeps x k (inl z) = inl (k ∙ z)
      keeps x k (inr z) = inr (
          any-reported (λ e. nat_beq e.0 x.0.last_stall_fired_at && e.1.kind == "consensus_stall")
            now x.1 events (rw (k) z))

  state_after-IsRemembered : (h : Samples) → IsRemembered (state_after h) (events_after h)
  unfolding state_after events_after tick new_state
  state_after-IsRemembered [] = inl refl
  state_after-IsRemembered ((now, ss) ∷ h) =
      let st = mark now (max_seq ss) (state_after h) in
      fire-IsRemembered now ss st.1 st.0 (events_after h)
        (rw (mark_last now (max_seq ss) (state_after h)) (state_after-IsRemembered h))

  -- The highest sequence number of the ticks, and the time of the tick that brought it.
  unfoldable pub highest : Samples → ℤ
  highest [] = pos 0
  highest ((now, ss) ∷ earlier) =
      if ltb_ℤ (highest earlier) (max_seq ss) then max_seq ss else highest earlier

  unfoldable pub last_advance : Samples → Time
  last_advance [] = start
  last_advance ((now, ss) ∷ earlier) =
      if ltb_ℤ (highest earlier) (max_seq ss) then now else last_advance earlier

  -- What the monitor keeps of the ticks is what they say.
  IsMarked : Samples → State → Type 0
  IsMarked h st = (st.high_water_seq ≡ highest h) × (st.high_water_time ≡ last_advance h)

  mark-IsMarked :
      (now : Time) (ss : List NodeSnapshot) (h : Samples) (st : State)
      → IsMarked h st
      → IsMarked ((now, ss) ∷ h) (mark now (max_seq ss) st).0
  unfolding mark IsMarked highest last_advance
  mark-IsMarked now ss h st (q, t) = elim (Bool-cases (ltb_ℤ (highest h) (max_seq ss))) [
    | inl e ↦ rw (subst (λ x. ltb_ℤ x (max_seq ss) ≡ true) (sym q) e, e) (refl, refl)
    | inr e ↦ rw (subst (λ x. ltb_ℤ x (max_seq ss) ≡ false) (sym q) e, e) (q, t)
  ]

  fire_peers-IsMarked :
      (now : Time) (bad : List NodeSnapshot) (h : Samples) (st : State)
      → IsMarked h st
      → IsMarked h (fire_peers cfg now bad st).0
  unfolding fire_peers IsMarked
  fire_peers-IsMarked now [] h st m = m
  fire_peers-IsMarked now (b ∷ bad) h st m =
      if_elim (λ (x : State × Option LivenessEvent). IsMarked h x.0)
        (leb (cooldown_of cfg) (since now st.last_peer_fired_at)) _ _ (λ e. m) (λ e. m)

  fire-IsMarked :
      (now : Time) (ss : List NodeSnapshot) (n : ℕ) (h : Samples) (st : State)
      → IsMarked h st
      → IsMarked h (fire cfg now ss n st).0
  unfolding fire IsMarked is_due
  fire-IsMarked now ss n h st m =
      if_elim (λ (x : State × Option LivenessEvent). IsMarked h x.0) (is_due now ss n st) _ _
        (λ e. m) (λ e. fire_peers-IsMarked now (low_on_peers cfg ss) h st m)

  state_after-IsMarked : (h : Samples) → IsMarked h (state_after h)
  unfolding state_after tick IsMarked highest last_advance new_state
  state_after-IsMarked [] = (refl, refl)
  state_after-IsMarked ((now, ss) ∷ h) =
      let st = mark now (max_seq ss) (state_after h) in
      fire-IsMarked now ss st.1 ((now, ss) ∷ h) st.0
        (mark-IsMarked now ss h (state_after h) (state_after-IsMarked h))

  cooldown_of_pos : 0 < cooldown_of cfg
  unfolding cooldown_of
  cooldown_of_pos = ground arith

  -- A stall event of the last cooldown.
  abbrev pub is_recent_stall : Time → Time × LivenessEvent → Bool
  is_recent_stall now e = e.1.kind == "consensus_stall" && ltb (now - e.0) (cooldown_of cfg)

  recent_of :
      (now last : Time) (events : List (Time × LivenessEvent))
      → ltb (now - last) (cooldown_of cfg) ≡ true
      → any (λ e. nat_beq e.0 last && e.1.kind == "consensus_stall") events ≡ true
      → any (is_recent_stall now) events ≡ true
  recent_of now last [] l a = a
  recent_of now last (e ∷ events) l a = ground (arith, l, a, recent_of now last events l)

  quiet :
      (now last : Time)
      → leb (cooldown_of cfg) (since now last) ≡ false
      → cooldown_of cfg < 2 ^ 63
      → ltb (now - last) (cooldown_of cfg) ≡ true
  unfolding since
  quiet now last q d = ground (arith, q, d)

  fire-IsReported :
      (now : Time) (ss : List NodeSnapshot) (n : ℕ) (st : State)
      (events : List (Time × LivenessEvent))
      → leb_ℤ (max_seq ss) st.high_water_seq ≡ true
      → threshold_of cfg ≤ n
      → cooldown_of cfg ≤ now
      → cooldown_of cfg < 2 ^ 63
      → IsRemembered st events
      → any (is_recent_stall now) (reported now (fire cfg now ss n st).1 ++ events) ≡ true
  unfolding fire is_due reported
  fire-IsReported now ss n st events low long c d r =
      if_elim
        (λ (x : State × Option LivenessEvent).
          any (is_recent_stall now) (reported now x.1 ++ events) ≡ true)
        (is_due now ss n st) _ _ (λ e. ground (arith, cooldown_of_pos))
        (λ e.
          let q : leb (cooldown_of cfg) (since now st.last_stall_fired_at) ≡ false =
            ground (arith, e, low, long) in
          any-reported (is_recent_stall now) now (fire_peers cfg now (low_on_peers cfg ss) st).1
            events (remembered (quiet now st.last_stall_fired_at q d) r))
    where
      remembered :
          ltb (now - st.last_stall_fired_at) (cooldown_of cfg) ≡ true
          → IsRemembered st events
          → any (is_recent_stall now) events ≡ true
      remembered l (inl z) = absurd (ground (arith, l, z, c))
      remembered l (inr z) = recent_of now st.last_stall_fired_at events l z

  -- While no tick brings a higher sequence number for the threshold, a stall was reported within the cooldown
  -- before every tick, or by it.
  pub events_after-IsReported :
      (now : Time) (ss : List NodeSnapshot) (h : Samples)
      → ltb_ℤ (highest h) (max_seq ss) ≡ false
      → threshold_of cfg ≤ since now (last_advance h)
      → cooldown_of cfg ≤ now
      → cooldown_of cfg < 2 ^ 63
      → any (is_recent_stall now) (events_after ((now, ss) ∷ h)) ≡ true
  unfolding events_after tick mark IsMarked
  events_after-IsReported now ss h low long c d =
      let (q, t) = state_after-IsMarked h in
      let low' : ltb_ℤ (state_after h).high_water_seq (max_seq ss) ≡ false =
        subst (λ x. ltb_ℤ x (max_seq ss) ≡ false) (sym q) low in
      let long' : threshold_of cfg ≤ since now (state_after h).high_water_time =
        subst (λ x. threshold_of cfg ≤ since now x) (sym t) long in
      rw (low') (
        fire-IsReported now ss (since now (state_after h).high_water_time) (state_after h)
          (events_after h) (ground (arith, low')) long' c d (state_after-IsRemembered h))
