-- ===== src/Runners/Shrink/Bisection.antt =====
-- How the verdict of Shrink depends on MaxStep, which the driver bisects.
use xrpl_confluence.Prelude.{
  ℕ, String, ◌≡◌, ◌↔◌, ◌+◌, ◌≤◌, ◌⊎◌, ◌∙◌, sym, ap, refl, Bool, true, false, ◌||◌, ◌&&◌, not,
  Option, none, some, List, [], ◌∷◌, if◌then◌else◌, ◌==◌, string_eq, ltb, length, arith, All,
  Bool-cases, inl, inr,
}
use xrpl_confluence.Finding.Mapper.{Divergence}
use xrpl_confluence.Corpus.Signature.{
  Any, DivergenceSignature, load_divergence_signature, signature_matches,
}
use xrpl_confluence.Corpus.Signature.Matching.{signature_matches-none}
use xrpl_confluence.Oracle.Compare.{Answer, failed, answered}
use xrpl_confluence.Runners.Shrink.{
  Detail, SubmitResult, Trial, ShrinkResult, Setup, is_accepted, set_up, tx_result_divergence,
  tx_metadata_divergence, note, compare_entry, succeed, submitted, replay_entry, replay, probe,
  run_probe, shrink,
}

-- The steps of a log do not decrease.
unfoldable pub IsOrdered : List Trial → Type 0
IsOrdered [] = Unit
IsOrdered (e ∷ es) = All (λ x. e.entry.step ≤ x.entry.step) es × IsOrdered es

-- Where the original divergence shows, if at all.
match_of : ShrinkResult → Option ℕ
match_of res = if res.matched then some res.matched_at else none

unfoldable pub found : Answer ShrinkResult → Option ℕ
unfolding match_of
found (failed err) = none
found (answered res) = match_of res

first_of : Option ℕ → Option ℕ → Option ℕ
first_of none later = later
first_of (some n) later = some n

first_none : (o : Option ℕ) → first_of o none ≡ o
unfolding first_of
first_none none = refl
first_none (some n) = refl

first_assoc : (a b c : Option ℕ) → first_of (first_of a b) c ≡ first_of a (first_of b c)
unfolding first_of
first_assoc none b c = refl
first_assoc (some n) b c = refl

module _ {R : Type 0} (go : Any R) (detail : Detail R) where
  -- The verdict of one comparison.
  shows : DivergenceSignature → ℕ → Option (Divergence R) → Option ℕ
  shows sig step d = if signature_matches go sig d then some step else none

  compared : DivergenceSignature → Trial → String → Option ℕ
  unfolding shows first_of
  compared sig e hash =
      first_of
        (shows sig e.entry.step
          (tx_result_divergence go detail hash e.entry.tx_type e.result_nodes))
        (shows sig e.entry.step
          (tx_metadata_divergence go detail hash e.entry.tx_type e.metadata_nodes))

  hit_out : DivergenceSignature → Trial → Option SubmitResult → Option ℕ
  unfolding compared
  hit_out sig e none = none
  hit_out sig e (some out) =
      if is_accepted out && (not (out.tx_hash == "") && e.validated)
      then compared sig e out.tx_hash
      else none

  hit : DivergenceSignature → Trial → Option ℕ
  unfolding hit_out
  hit sig e = hit_out sig e e.out

  -- The first entry up to a step that shows the divergence of a signature.
  first_hit : DivergenceSignature → ℕ → List Trial → Option ℕ
  unfolding hit first_of
  first_hit sig k [] = none
  first_hit sig k (e ∷ es) =
      let rest = first_hit sig k es in
      if e.cancelled || ltb k e.entry.step then none else first_of (hit sig e) rest

  -- Two results of the same probe: the second has what the first has, and a match that is shown in between.
  Follows : ShrinkResult → Option ℕ → ShrinkResult → Type 0
  unfolding match_of first_of
  Follows res o res' =
      (match_of res' ≡ first_of (match_of res) o)
      × (res'.signature ≡ res.signature)
      × (res'.max_step ≡ res.max_step)

  trans_Follows :
      (a b c : ShrinkResult) (o : Option ℕ) (f : DivergenceSignature → Option ℕ)
      → Follows a o b
      → Follows b (f b.signature) c
      → Follows a (first_of o (f a.signature)) c
  unfolding Follows
  trans_Follows a b c o f (m, s, k) (m', s', k') = (
    m'
        ∙ ap (λ x. first_of x (f b.signature)) m
        ∙ first_assoc (match_of a) o (f b.signature)
        ∙ ap (λ x. first_of (match_of a) (first_of o (f x))) s,
    s' ∙ s,
    k' ∙ k,
  )

  refl_Follows :
      (a b : ShrinkResult)
      → match_of b ≡ match_of a
      → b.signature ≡ a.signature
      → b.max_step ≡ a.max_step
      → Follows a none b
  unfolding Follows
  refl_Follows a b m s k = (m ∙ sym (first_none (match_of a)), s, k)

  note-Follows :
      (step : ℕ) (d : Option (Divergence R)) (res : ShrinkResult)
      → Follows res (shows res.signature step d) (note go detail step d res)
  unfolding note Follows shows match_of first_of
  note-Follows step none res =
      rw (signature_matches-none go res.signature) (sym (first_none (match_of res)), refl, refl)
  note-Follows step (some d) res = elim (Bool-cases res.matched) [
    | inl m ↦ rw (m) (refl, refl, refl)
    | inr m ↦ elim (Bool-cases (signature_matches go res.signature (some d))) [
      | inl h ↦ rw (m, h) (refl, refl, refl)
      | inr h ↦ rw (m, h) (refl, refl, refl)
    ]
  ]

  compare_entry-Follows :
      (e : Trial) (hash : String) (res : ShrinkResult)
      → Follows res (compared res.signature e hash) (compare_entry go detail e hash res)
  unfolding compare_entry compared
  compare_entry-Follows e hash res =
      let d = tx_result_divergence go detail hash e.entry.tx_type e.result_nodes in
      let d' = tx_metadata_divergence go detail hash e.entry.tx_type e.metadata_nodes in
      let mid = note go detail e.entry.step d res in
      trans_Follows res mid (note go detail e.entry.step d' mid)
        (shows res.signature e.entry.step d) (λ sig. shows sig e.entry.step d')
        (note-Follows e.entry.step d res) (note-Follows e.entry.step d' mid)

  submitted-Follows :
      (e : Trial) (out : Option SubmitResult) (res : ShrinkResult)
      → Follows res (hit_out res.signature e out) (submitted go detail e out res)
  unfolding submitted succeed hit_out match_of
  submitted-Follows e none res = refl_Follows res res refl refl refl
  submitted-Follows e (some out) res =
      let counted = record res { txs_succeeded = res.txs_succeeded + 1 } in
      elim (Bool-cases (is_accepted out)) [
        | inr a ↦ rw (a) (refl_Follows res res refl refl refl)
        | inl a ↦ elim (Bool-cases (out.tx_hash == "")) [
          | inl h ↦ rw (a, h) (refl_Follows res counted refl refl refl)
          | inr h ↦ elim (Bool-cases e.validated) [
            | inl v ↦
                rw (a, h, v)
                  (trans_Follows res counted (compare_entry go detail e out.tx_hash counted) none
                    (λ sig. compared sig e out.tx_hash) (refl_Follows res counted refl refl refl)
                    (compare_entry-Follows e out.tx_hash counted))
            | inr v ↦ rw (a, h, v) (refl_Follows res counted refl refl refl)
          ]
        ]
      ]

  replay_entry-Follows :
      (e : Trial) (res : ShrinkResult)
      → Follows res (hit res.signature e) (replay_entry go detail e res)
  unfolding replay_entry hit match_of first_of
  replay_entry-Follows e res =
      let counted = record res { txs_submitted = res.txs_submitted + 1 } in
      trans_Follows res counted (submitted go detail e e.out counted) none
        (λ sig. hit_out sig e e.out) (refl_Follows res counted refl refl refl)
        (submitted-Follows e e.out counted)

  -- The match of a replay is the first hit.
  replay-first_hit :
      (es : List Trial) (res : ShrinkResult)
      → match_of (replay go detail es res)
        ≡ first_of (match_of res) (first_hit res.signature res.max_step es)
  unfolding Follows replay first_hit
  replay-first_hit [] res = sym (first_none (match_of res))
  replay-first_hit (e ∷ es) res = elim (Bool-cases (e.cancelled || ltb res.max_step e.entry.step)) [
    | inl stop ↦ rw (stop) (sym (first_none (match_of res)))
    | inr go_on ↦
        let (m, s, k) = replay_entry-Follows e res in
        rw (go_on, replay-first_hit es (replay_entry go detail e res), m, s, k)
          (first_assoc (match_of res) (hit res.signature e)
            (first_hit res.signature res.max_step es))
  ]

  -- A hit is at the step of its entry.
  IsAt : ℕ → Option ℕ → Type 0
  IsAt s o = (o ≡ none) ⊎ (o ≡ some s)

  if-IsAt : (s : ℕ) (b : Bool) (o : Option ℕ) → IsAt s o → IsAt s (if b then o else none)
  unfolding IsAt
  if-IsAt s true o h = h
  if-IsAt s false o h = inl refl

  first_of-IsAt : (s : ℕ) (a b : Option ℕ) → IsAt s a → IsAt s b → IsAt s (first_of a b)
  unfolding IsAt first_of
  first_of-IsAt s none b h h' = h'
  first_of-IsAt s (some n) b h h' = h

  hit_out-IsAt :
      (sig : DivergenceSignature) (e : Trial) (out : Option SubmitResult)
      → IsAt e.entry.step (hit_out sig e out)
  unfolding hit_out compared shows IsAt
  hit_out-IsAt sig e none = inl refl
  hit_out-IsAt sig e (some out) = if-IsAt e.entry.step _ (compared sig e out.tx_hash) (
      first_of-IsAt e.entry.step _ _ (if-IsAt e.entry.step _ _ (inr refl))
        (if-IsAt e.entry.step _ _ (inr refl)))

  hit-cases :
      (sig : DivergenceSignature) (e : Trial) → (hit sig e ≡ none) ⊎ (hit sig e ≡ some e.entry.step)
  unfolding hit IsAt
  hit-cases sig e = hit_out-IsAt sig e e.out

  -- The three ways an entry is taken.
  stopped_lem :
      (sig : DivergenceSignature) (k : ℕ) (e : Trial) (es : List Trial)
      → (e.cancelled || ltb k e.entry.step) ≡ true
      → first_hit sig k (e ∷ es) ≡ none
  unfolding first_hit
  stopped_lem sig k e es h = rw (h) refl

  taken_lem :
      (sig : DivergenceSignature) (k : ℕ) (e : Trial) (es : List Trial)
      → (e.cancelled || ltb k e.entry.step) ≡ false
      → first_hit sig k (e ∷ es) ≡ first_of (hit sig e) (first_hit sig k es)
  unfolding first_hit
  taken_lem sig k e es h = rw (h) refl

  late :
      (sig : DivergenceSignature) (k n low : ℕ) (es : List Trial)
      → All (λ x. low ≤ x.entry.step) es
      → first_hit sig k es ≡ some n
      → low ≤ n
  unfolding first_hit first_of
  late sig k n low [] h q = absurd (cc)
  late sig k n low (e ∷ es) (h, hs) q = elim (Bool-cases (e.cancelled || ltb k e.entry.step)) [
    | inl stop ↦ absurd (ground (arith, q, stopped_lem sig k e es stop))
    | inr t ↦ elim (hit-cases sig e) [
      | inl z ↦
          late sig k n low es hs
            (ap (λ x. first_of x (first_hit sig k es)) (sym z) ∙ sym (taken_lem sig k e es t) ∙ q)
      | inr z ↦
          ground (arith, h, q, taken_lem sig k e es t ∙ ap (λ x. first_of x (first_hit sig k es)) z)
    ]
  ]

  le_refl : (a : ℕ) → a ≤ a
  le_refl a = omega arith

  first_hit-prefix :
      (sig : DivergenceSignature) (k k' n : ℕ) (es : List Trial)
      → IsOrdered es
      → k ≤ k'
      → (first_hit sig k es ≡ some n) ↔ ((first_hit sig k' es ≡ some n) × (n ≤ k))
  unfolding first_hit first_of IsOrdered
  first_hit-prefix sig k k' n [] o h = (λ q. absurd (cc), λ (q, l). q)
  first_hit-prefix sig k k' n (e ∷ es) (o, os) h =
      elim (Bool-cases (e.cancelled || ltb k e.entry.step)) [
        | inl stop ↦ (
          λ q. absurd (ground (arith, q, stopped_lem sig k e es stop)),
          λ (q, l). elim (Bool-cases e.cancelled) [
            | inl c ↦
                stopped_lem sig k e es stop ∙ sym (stopped_lem sig k' e es (ground (arith, c))) ∙ q
            | inr c ↦
                let below = late sig k' n e.entry.step (e ∷ es) (le_refl e.entry.step, o) q in
                absurd (ground (arith, stop, c, below, l))
          ],
        )
        | inr t ↦
            let t' : (e.cancelled || ltb k' e.entry.step) ≡ false = ground (arith, t, h) in
            elim (hit-cases sig e) [
              | inl z ↦
                  rw (taken_lem sig k e es t, taken_lem sig k' e es t', z)
                    (first_hit-prefix sig k k' n es os h)
              | inr z ↦
                  rw (taken_lem sig k e es t, taken_lem sig k' e es t', z)
                    (λ q. (q, ground (arith, q, t)), λ (q, l). q)
            ]
      ]

  probe-first_hit :
      (k : ℕ) (entries : List Trial) (sig : DivergenceSignature)
      → match_of (probe go detail k entries sig) ≡ first_hit sig k entries
  unfolding probe match_of first_of
  probe-first_hit k entries sig = replay-first_hit entries _

  run_probe-found :
      (k k' n : ℕ) (sig : Option DivergenceSignature) (entries : List Trial) (err : Option String)
      → IsOrdered entries
      → k ≤ k'
      → (found (run_probe go detail k sig (some entries) err) ≡ some n)
        ↔ ((found (run_probe go detail k' sig (some entries) err) ≡ some n) × (n ≤ k))
  unfolding run_probe found probe match_of first_of
  run_probe-found k k' n none entries err o h = (λ q. absurd (cc), λ (q, l). q)
  run_probe-found k k' n (some sig) entries (some e) o h = (λ q. absurd (cc), λ (q, l). q)
  run_probe-found k k' n (some sig) entries none o h =
      rw (probe-first_hit k entries sig, probe-first_hit k' entries sig)
        (first_hit-prefix sig k k' n entries o h)

  -- On a log whose steps do not decrease, and where the network answers alike, a probe with a MaxStep finds a
  -- match at a step exactly if a probe with a MaxStep that is no smaller finds its match at that step and the step
  -- is within the smaller. An error is no match.
  pub shrink-bisects :
      (node_urls : List String) (setup : Setup) (k k' n : ℕ) (file : Option (Divergence R))
      (entries : List Trial)
      → IsOrdered entries
      → k ≤ k'
      → (found (shrink go detail node_urls setup k file (some entries)) ≡ some n)
        ↔ ((found (shrink go detail node_urls setup k' file (some entries)) ≡ some n) × (n ≤ k))
  unfolding shrink found
  shrink-bisects node_urls setup k k' n file entries o h =
      elim (Bool-cases (ltb (length node_urls) 2)) [
        | inl few ↦ rw (few) (λ q. absurd (cc), λ (q, l). q)
        | inr many ↦
            rw (many) (
              run_probe-found k k' n (load_divergence_signature go file) entries (set_up setup) o h)
      ]
