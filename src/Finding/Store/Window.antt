-- ===== src/Finding/Store/Window.antt =====
-- The buffer of finding.Store against its abstract view: the last 1000 findings of all that were added.
use xrpl_confluence.Prelude.{
  ℕ, zero, suc, ◌+◌, ◌-◌, ◌≤◌, ◌≡◌, refl, sym, ap, ◌∙◌, List, [], ◌∷◌, ◌++◌, arith, length, drop,
  length-append, length-drop, drop-append_last, drop_eq, leb, leb→le, Bool-cases, inl, inr,
}
use mathlib.Core.List.{append_assoc, append-nil}
use xrpl_confluence.Finding.{Finding}
use xrpl_confluence.Finding.Store.{
  Store, max_capacity, store_finding, make_room, evict_oldest, append,
}

abbrev pub last_added : List Finding → List Finding
last_added fs = drop (length fs - max_capacity) fs

drop_nil : (n : ℕ) → drop {A = Finding} n [] ≡ []
drop_nil zero = refl
drop_nil (suc n) = refl

drop-drop : (m n : ℕ) (xs : List Finding) → drop m (drop n xs) ≡ drop (n + m) xs
drop-drop m zero xs = ap (λ k. drop k xs) (omega arith)
drop-drop m (suc n) [] = drop_nil m ∙ sym (drop_nil (suc n + m))
drop-drop m (suc n) (x ∷ xs) =
    drop-drop m n xs ∙ drop_eq (suc (n + m)) (suc n + m) (x ∷ xs) (omega arith)

-- One more finding, after a history.
last_added_step :
    (history : List Finding) (f : Finding)
    → let held = last_added history in
      drop (length (held ++ f ∷ []) - max_capacity) (held ++ f ∷ [])
      ≡ last_added (history ++ f ∷ [])
last_added_step history f =
    ap (drop (length (held ++ f ∷ []) - max_capacity))
      (sym (drop-append_last over history f (omega arith)))
    ∙ drop-drop (length (held ++ f ∷ []) - max_capacity) over (history ++ f ∷ [])
    ∙ ap (λ k. drop k (history ++ f ∷ []))
        (omega (
          arith,
          length-append held (f ∷ []),
          length-append history (f ∷ []),
          length-drop over history,
        ))
  where
    over : ℕ
    over = length history - max_capacity

    held : List Finding
    held = drop over history

module _ {W : Type 0} where
  pub add_all : List Finding → Store W → Store W
  add_all [] s = s
  add_all (f ∷ fs) s = add_all fs (store_finding f s)

  findings-store_finding :
      (held : List Finding) (f : Finding) (s : Store W)
      → length held ≤ max_capacity
      → (store_finding f (record s { findings = held })).findings
        ≡ drop (length (held ++ f ∷ []) - max_capacity) (held ++ f ∷ [])
  unfolding store_finding make_room evict_oldest append
  findings-store_finding [] f s h = refl
  findings-store_finding (x ∷ xs) f s h = elim (Bool-cases (leb max_capacity (suc (length xs)))) [
    | inl full ↦ rw full (
        drop_eq 1 (length (x ∷ xs ++ f ∷ []) - max_capacity) (x ∷ xs ++ f ∷ [])
          (omega (arith, length-append xs (f ∷ []), leb→le max_capacity (suc (length xs)) full)))
    | inr room ↦ rw room (
        drop_eq 0 (length (x ∷ xs ++ f ∷ []) - max_capacity) (x ∷ xs ++ f ∷ [])
          (ground (arith, length-append xs (f ∷ []))))
  ]

  add_all_after :
      (fs history : List Finding) (s : Store W)
      → s.findings ≡ last_added history
      → (add_all fs s).findings ≡ last_added (history ++ fs)
  unfolding add_all
  add_all_after [] history s h = h ∙ ap last_added (sym (append-nil history))
  add_all_after (f ∷ fs) history s h =
      add_all_after fs (history ++ f ∷ []) (store_finding f s) stepped
      ∙ ap last_added (append_assoc history (f ∷ []) fs)
    where
      stepped : (store_finding f s).findings ≡ last_added (history ++ f ∷ [])
      stepped =
          findings-store_finding s.findings f s
            (omega (arith, ap length h, length-drop (length history - max_capacity) history))
          ∙ ap (λ held. drop (length (held ++ f ∷ []) - max_capacity) (held ++ f ∷ [])) h
          ∙ last_added_step history f

  -- After any sequence of Adds to an empty store the buffer holds the last 1000 of them, oldest first.
  pub findings-add_all :
      (fs : List Finding) (s : Store W) → s.findings ≡ [] → (add_all fs s).findings ≡ last_added fs
  findings-add_all fs s h = add_all_after fs [] s h
