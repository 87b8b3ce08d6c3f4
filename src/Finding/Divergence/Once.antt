-- ===== src/Finding/Divergence/Once.antt =====
-- A divergence is reported once.
use xrpl_confluence.Prelude.{
  ℕ, suc, String, ◌≡◌, refl, true, false, List, [], ◌∷◌, arith, ltb, length, string_eq, Bool-cases,
  inl, inr, All,
}
use text.Mathlib.TextEquality.{eq_iff}
use xrpl_confluence.Prelude.Dict.{lookup, lookup-insert}
use xrpl_confluence.Finding.Divergence.{
  DivergenceInput, DivergenceOracle, World, Group, group_by_seq, sorted_hashes, dedup_key, is_seen,
  report, report_all, tick,
}

key_of : Group → String
key_of g = dedup_key g.0 (sorted_hashes g.1)

-- Where the nodes of the group disagree, its key is marked.
abbrev IsMarked : DivergenceOracle → Group → Type 0
IsMarked o g =
    ltb (length (sorted_hashes g.1)) 2 ≡ false → is_seen (lookup (key_of g) o.seen) ≡ true

module _ (w : World) where
  report-IsMarked_self :
      (i : ℕ) (g : Group) (o : DivergenceOracle) → IsMarked (report w i g (sorted_hashes g.1) o).0 g
  unfolding report key_of is_seen
  report-IsMarked_self i (seq, group) o h =
      let key = dedup_key seq (sorted_hashes group) in
      ground (arith, h, lookup-insert key key true o.seen, eq_iff key key)

  report-IsMarked :
      (i : ℕ) (g other : Group) (o : DivergenceOracle)
      → IsMarked o other
      → IsMarked (report w i g (sorted_hashes g.1) o).0 other
  unfolding report is_seen
  report-IsMarked i (seq, group) other o m h =
      let key = dedup_key seq (sorted_hashes group) in
      ground (arith, h, m h, lookup-insert key (key_of other) true o.seen)

  report_all-IsMarked_other :
      (i : ℕ) (gs : List Group) (other : Group) (o : DivergenceOracle)
      → IsMarked o other
      → IsMarked (report_all w i gs o).0 other
  unfolding report_all
  report_all-IsMarked_other i [] other o m = m
  report_all-IsMarked_other i (g ∷ gs) other o m =
      report_all-IsMarked_other (suc i) gs other (report w i g (sorted_hashes g.1) o).0
        (report-IsMarked i g other o m)

  report_all-IsMarked :
      (i : ℕ) (gs : List Group) (o : DivergenceOracle) → All (IsMarked (report_all w i gs o).0) gs
  unfolding report_all
  report_all-IsMarked i [] o = tt
  report_all-IsMarked i (g ∷ gs) o =
      let o' = (report w i g (sorted_hashes g.1) o).0 in
      (
        report_all-IsMarked_other (suc i) gs g o' (report-IsMarked_self i g o),
        report_all-IsMarked (suc i) gs o',
      )

report_marked :
    (w : World) (i : ℕ) (g : Group) (o : DivergenceOracle)
    → IsMarked o g
    → report w i g (sorted_hashes g.1) o ≡ (o, [])
unfolding report key_of
report_marked w i (seq, group) o m = elim (Bool-cases (ltb (length (sorted_hashes group)) 2)) [
  | inl e ↦ rw (e) refl
  | inr e ↦ rw (e, m e) refl
]

report_all_marked :
    (w : World) (i : ℕ) (gs : List Group) (o : DivergenceOracle)
    → All (IsMarked o) gs
    → report_all w i gs o ≡ (o, [])
unfolding report_all
report_all_marked w i [] o m = refl
report_all_marked w i (g ∷ gs) o (m, ms) =
    rw (report_marked w i g o m, report_all_marked w (suc i) gs o ms) refl

-- A second tick on the same snapshot makes no finding and leaves the oracle as it is, whatever the clock
-- and the network answer then.
pub tick_once :
    (w w' : World) (inputs : List DivergenceInput) (o : DivergenceOracle)
    → tick w' inputs (tick w inputs o).0 ≡ ((tick w inputs o).0, [])
unfolding tick
tick_once w w' inputs o =
    let gs = group_by_seq inputs [] in
    report_all_marked w' 0 gs (report_all w 0 gs o).0 (report_all-IsMarked w 0 gs o)
