-- ===== src/Server/Runs/Life.antt =====
-- How a run of server.Server ends: what its status says about the signals that its watcher received.
use xrpl_confluence.Prelude.{
  String, ◌≡◌, ◌∙◌, refl, Bool, true, ◌&&◌, Option, none, some, List, [], ◌∷◌, ◌++◌, arith, inl,
  inr, Option-cases, ◌==◌, string_eq, contains, any, All, ltb, Bool-cases, ==_refl, if_elim,
}
use text.Mathlib.TextEquality.{eq_iff}
use xrpl_confluence.Finding.{Finding, Time}
use xrpl_confluence.Finding.Store.{Store, list}
use xrpl_confluence.Server.Runs.{
  Run, Watch, Action, Signal, Emitter, signal, read, ticked, found, other_event, channel_closed,
  new_run, new_watch, act, acts, run_status_running, run_status_completed_budget,
  run_status_completed_stop_on, matches_stop_on, append_missing, sync_with, sync_findings_for_run,
  sync_opts, close_run, emit, add_reproducer, note_finding, finish, receive, receive_finding,
  handle_stop_on_trigger, is_missing,
}

pub contains-append :
    (x : String) (xs ys : List String) → contains x xs ≡ true → contains x (xs ++ ys) ≡ true
contains-append x [] ys h = ground (arith, h)
contains-append x (a ∷ xs) ys h = ground (arith, h, contains-append x xs ys)

-- What is contained wherever the items are is contained for each of them.
pub contains-All :
    (xs ys : List String)
    → ((x : String) → contains x xs ≡ true → contains x ys ≡ true)
    → All (λ x. contains x ys ≡ true) xs
contains-All [] ys h = tt
contains-All (x ∷ xs) ys h =
    (h x (ground (arith, eq_iff x x)), contains-All xs ys (λ y c. h y (ground (arith, c))))

pub contains_last : (x : String) (xs : List String) → contains x (xs ++ x ∷ []) ≡ true
contains_last x [] = ground (arith, eq_iff x x)
contains_last x (a ∷ xs) = ground (arith, contains_last x xs)

pub contains-append_missing :
    (x run_id : String) (already ids : List String) (fs : List Finding)
    → contains x ids ≡ true
    → contains x (append_missing run_id already ids fs) ≡ true
unfolding append_missing
contains-append_missing x run_id already ids [] h = h
contains-append_missing x run_id already ids (f ∷ fs) h =
    elim (Bool-cases (is_missing run_id already f)) [
      | inl e ↦ rw (e) (
          contains-append_missing x run_id already (ids ++ f.id ∷ []) fs
            (contains-append x ids (f.id ∷ []) h))
      | inr e ↦ rw (e) (contains-append_missing x run_id already ids fs h)
    ]

-- The later record differs in the reproducers, and may have more findings.
abbrev pub IsLater : Run → Run → Type 0
IsLater old new =
    (new.status ≡ old.status)
    × (new.trigger_finding ≡ old.trigger_finding)
    × (new.ended_at ≡ old.ended_at)
    × (new.stop_on ≡ old.stop_on)
    × (new.budget_ends_at ≡ old.budget_ends_at)
    × ((x : String) → contains x old.finding_ids ≡ true → contains x new.finding_ids ≡ true)

-- The findings and the ticks that the watcher was sent.
module _ {W : Type 0} where
  findings_of : Action W → List Finding
  findings_of (signal store now emitter (found f)) = f ∷ []
  findings_of (signal store now emitter (ticked t)) = []
  findings_of (signal store now emitter other_event) = []
  findings_of (signal store now emitter channel_closed) = []
  findings_of (read store) = []

  ticks_of : Action W → List Time
  ticks_of (signal store now emitter (found f)) = []
  ticks_of (signal store now emitter (ticked t)) = t ∷ []
  ticks_of (signal store now emitter other_event) = []
  ticks_of (signal store now emitter channel_closed) = []
  ticks_of (read store) = []

  pub findings_in : List (Action W) → List Finding
  findings_in [] = []
  findings_in (a ∷ earlier) = findings_of a ++ findings_in earlier

  pub ticks_in : List (Action W) → List Time
  ticks_in [] = []
  ticks_in (a ∷ earlier) = ticks_of a ++ ticks_in earlier

  pub sync-IsLater :
      (store : Option (Store W)) (r : Run) → IsLater r (sync_findings_for_run store r)
  unfolding sync_findings_for_run sync_with
  sync-IsLater none r = (refl, refl, refl, refl, refl, λ x h. h)
  sync-IsLater (some s) r = (
    refl,
    refl,
    refl,
    refl,
    refl,
    λ x h. contains-append_missing x r.id r.finding_ids r.finding_ids (list sync_opts s) h,
  )

-- A run that has not ended.
abbrev pub IsOpen : Run → Type 0
IsOpen r = (r.status ≡ run_status_running) × (r.ended_at ≡ none) × (r.trigger_finding ≡ "")

-- What the status of a run says: it has not ended; or a tick came behind the end of the budget; or the
-- trigger is a finding that was received, of a kind that the run stops on, and is listed.
pub data IsAccounted (r : Run) (fs : List Finding) (ts : List Time) : Type 0 where
  is_open : IsOpen r → IsAccounted r fs ts
  is_over_budget :
      r.status ≡ run_status_completed_budget
      → r.trigger_finding ≡ ""
      → any (λ t. ltb r.budget_ends_at t) ts ≡ true
      → IsAccounted r fs ts
  is_stopped_on :
      r.status ≡ run_status_completed_stop_on
      → any (λ f. f.id == r.trigger_finding && matches_stop_on r.stop_on f.kind) fs ≡ true
      → contains r.trigger_finding r.finding_ids ≡ true
      → IsAccounted r fs ts

any-append {ℓ} :
    {A : Type ℓ} (p : A → Bool) (xs ys : List A) → any p ys ≡ true → any p (xs ++ ys) ≡ true
any-append p [] ys h = h
any-append p (x ∷ xs) ys h = ground (arith, any-append p xs ys h)

IsAccounted-more :
    (r : Run) (fs fs' : List Finding) (ts ts' : List Time)
    → IsAccounted r fs ts
    → IsAccounted r (fs' ++ fs) (ts' ++ ts)
IsAccounted-more r fs fs' ts ts' (is_open o) = is_open o
IsAccounted-more r fs fs' ts ts' (is_over_budget s t o) =
    is_over_budget s t (any-append (λ t. ltb r.budget_ends_at t) ts' ts o)
IsAccounted-more r fs fs' ts ts' (is_stopped_on s t c) =
    is_stopped_on s
      (any-append (λ f. f.id == r.trigger_finding && matches_stop_on r.stop_on f.kind) fs' fs t) c

IsAccounted-later :
    (old new : Run) (fs : List Finding) (ts : List Time)
    → IsLater old new
    → IsAccounted old fs ts
    → IsAccounted new fs ts
IsAccounted-later old new fs ts (s, t, e, o, b, c) (is_open (p, q, r)) =
    is_open (s ∙ p, e ∙ q, t ∙ r)
IsAccounted-later old new fs ts (s, t, e, o, b, c) (is_over_budget p q r) =
    is_over_budget (s ∙ p) (t ∙ q) (rw (b) r)
IsAccounted-later old new fs ts (s, t, e, o, b, c) (is_stopped_on p q r) =
    is_stopped_on (s ∙ p) (rw (t, o) q) (rw (t) (c old.trigger_finding r))

pub IsOpen-later : (old new : Run) → IsLater old new → IsOpen old → IsOpen new
IsOpen-later old new (s, t, e, o, b, c) (p, q, r) = (s ∙ p, e ∙ q, t ∙ r)

-- And a run that is watched has not ended.
abbrev IsLive : Watch → List Finding → List Time → Type 0
IsLive w fs ts = IsAccounted w.run fs ts × (w.watching ≡ true → IsOpen w.run)

pub note-IsLater : (f : Finding) (r : Run) → IsLater r (note_finding f r)
unfolding note_finding
note-IsLater f r =
    (refl, refl, refl, refl, refl, λ x h. contains-append x r.finding_ids (f.id ∷ []) h)

pub emit-IsLater : (e : Emitter) (f : Finding) (r : Run) → IsLater r (emit e f r)
unfolding emit add_reproducer
emit-IsLater none f r = (refl, refl, refl, refl, refl, λ x h. h)
emit-IsLater (some e) f r = elim (Option-cases (e f)) [
  | inl q ↦ rw (q) (refl, refl, refl, refl, refl, λ x h. h)
  | inr (id, q) ↦ rw (q) (refl, refl, refl, refl, refl, λ x h. h)
]

module _ {W : Type 0} where
  close_budget :
      (store : Option (Store W)) (now t : Time) (r : Run) (fs : List Finding) (ts : List Time)
      → ltb r.budget_ends_at t ≡ true
      → IsAccounted (close_run store now run_status_completed_budget "" r) fs (t ∷ ts)
  unfolding close_run
  close_budget store now t r fs ts l =
      let (s, g, e, o, b, c) = sync-IsLater store r in is_over_budget refl refl (rw (b, l) refl)

  close_trigger :
      (store : Option (Store W)) (now : Time) (f : Finding) (r : Run) (fs : List Finding)
      (ts : List Time)
      → matches_stop_on r.stop_on f.kind ≡ true
      → IsAccounted
          (close_run store now run_status_completed_stop_on f.id (note_finding f r))
          (f ∷ fs)
          ts
  unfolding close_run note_finding
  close_trigger store now f r fs ts l =
      let (s, g, e, o, b, c) = sync-IsLater store (note_finding f r) in
      is_stopped_on refl (rw (o, l, ==_refl f.id) refl) (c f.id (contains_last f.id r.finding_ids))

  receive-IsLive :
      (store : Option (Store W)) (now : Time) (emitter : Emitter) (s : Signal) (w : Watch)
      (fs : List Finding) (ts : List Time)
      → IsLive w fs ts
      → IsOpen w.run
      → IsLive
          (receive store now emitter s w)
          (findings_of (signal store now emitter s) ++ fs)
          (ticks_of (signal store now emitter s) ++ ts)
  unfolding receive receive_finding handle_stop_on_trigger finish findings_of ticks_of
  receive-IsLive store now emitter (ticked t) w fs ts (a, v) o =
      if_elim (λ x. IsLive x fs (t ∷ ts)) (ltb w.run.budget_ends_at t) _ w
        (λ l. (close_budget store now t w.run fs ts l, λ h. absurd (cc))) (λ l. (is_open o, λ h. o))
  receive-IsLive store now emitter (found f) w fs ts (a, v) o =
      if_elim (λ x. IsLive x (f ∷ fs) ts) (matches_stop_on w.run.stop_on f.kind) _ _
        (λ m. (
          IsAccounted-later
              (close_run store now run_status_completed_stop_on f.id (note_finding f w.run)) _ _ _
              (emit-IsLater emitter f
                (close_run store now run_status_completed_stop_on f.id (note_finding f w.run)))
              (close_trigger store now f w.run fs ts m),
          λ h. absurd (cc),
        ))
        (λ m. (
          is_open (IsOpen-later w.run (note_finding f w.run) (note-IsLater f w.run) o),
          λ h. IsOpen-later w.run (note_finding f w.run) (note-IsLater f w.run) o,
        ))
  receive-IsLive store now emitter other_event w fs ts (a, v) o = (a, v)
  receive-IsLive store now emitter channel_closed w fs ts (a, v) o = (a, λ h. absurd (cc))

  act-IsLive :
      (a : Action W) (w : Watch) (fs : List Finding) (ts : List Time)
      → IsLive w fs ts
      → IsLive (act a w) (findings_of a ++ fs) (ticks_of a ++ ts)
  unfolding act findings_of ticks_of
  act-IsLive (signal store now emitter s) w fs ts l =
      if_elim
        (λ x.
          IsLive x (findings_of (signal store now emitter s) ++ fs)
            (ticks_of (signal store now emitter s) ++ ts))
        w.watching _ w (λ h. receive-IsLive store now emitter s w fs ts l (l.1 h))
        (λ h. (
          IsAccounted-more w.run fs (findings_of (signal store now emitter s)) ts
              (ticks_of (signal store now emitter s)) l.0,
          λ k. l.1 k,
        ))
  act-IsLive (read store) w fs ts (a, v) =
      let later = sync-IsLater store w.run in
      (
        IsAccounted-later w.run _ _ _ later a,
        λ h. IsOpen-later w.run (sync_findings_for_run store w.run) later (v h),
      )

  acts-IsLive :
      (actions : List (Action W)) (id scenario : String) (now ends : Time) (stop_on : List String)
      → IsLive
          (acts actions (new_watch (new_run id scenario now ends stop_on)))
          (findings_in actions)
          (ticks_in actions)
  unfolding acts new_watch new_run findings_in ticks_in
  acts-IsLive [] id scenario now ends stop_on =
      (is_open (refl, refl, refl), λ h. (refl, refl, refl))
  acts-IsLive (a ∷ earlier) id scenario now ends stop_on =
      act-IsLive a (acts earlier (new_watch (new_run id scenario now ends stop_on)))
        (findings_in earlier) (ticks_in earlier) (acts-IsLive earlier id scenario now ends stop_on)

  -- Whatever its watcher is sent and whoever reads it meanwhile: a run that is over has run over its budget,
  -- or was triggered by a finding that its watcher received, of a kind that it stops on, and lists it.
  pub acts-IsAccounted :
      (actions : List (Action W)) (id scenario : String) (now ends : Time) (stop_on : List String)
      → IsAccounted
          (acts actions (new_watch (new_run id scenario now ends stop_on))).run
          (findings_in actions)
          (ticks_in actions)
  acts-IsAccounted actions id scenario now ends stop_on =
      (acts-IsLive actions id scenario now ends stop_on).0
