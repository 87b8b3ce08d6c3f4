-- ===== src/Mainnet/Rewriter/Apart.antt =====
-- How Rewriter maps the addresses of a sequence of transactions.
use xrpl_confluence.Prelude.{
  ℕ, zero, suc, ◌≡◌, ◌∙◌, sym, refl, ap, subst, ◌≤◌, ◌<◌, ◌+◌, ◌%◌, String, Option, none, some,
  List, [], ◌∷◌, ◌==◌, string_eq, length, get_elem?, arith, Option-cases, inl, inr, Bool-cases,
  eq_of_==,
}
use mathlib.Core.Option.{some_inj}
use xrpl_confluence.Prelude.Dict.{Dict, lookup, insert, lookup-insert}
use xrpl_confluence.Mainnet.Rewriter.{
  Wallet, Rewriter, Json, Rewritten, new_rewriter, address_field_paths, stripped, iou_shaped_fields,
  address_at, assign, map_address, strip, place, rewrite_address, rewrite_object, rewrite_issuer,
  rewrite_each, rewrite, rewrite_all, judge, text_at,
}

-- Each address in the cache has an account of the pool, and while there were no more addresses than accounts,
-- it has its own.
record Good (ws : List Wallet) (r : Rewriter) : Type 0 where
  kept : r.pool ≡ ws
  counted : r.counter ≡ length r.cache
  some_account : 0 < length r.pool
  bounded : (a : String) (i : ℕ) → lookup a r.cache ≡ some i → i < length r.pool
  early :
      (a : String) (i : ℕ) → r.counter ≤ length r.pool → lookup a r.cache ≡ some i → i < r.counter
  apart :
      (a b : String) (i : ℕ)
      → r.counter ≤ length r.pool
      → lookup a r.cache ≡ some i
      → lookup b r.cache ≡ some i
      → a ≡ b

get_elem?-some :
    (i : ℕ) (ws : List Wallet) → i < length ws → (w : Wallet) × (get_elem? ws i ≡ some w)
get_elem?-some i [] h = absurd (omega arith)
get_elem?-some zero (w ∷ ws) h = (w, refl)
get_elem?-some (suc i) (w ∷ ws) h = get_elem?-some i ws (omega arith)

-- It returns, with a value and a rewriter that is good.
abbrev Returns : {A : Type 0} → List Wallet → Option (A × Rewriter) → Type 0
Returns {A} ws o = (x : A) × (r : Rewriter) × (o ≡ some (x, r)) × Good ws r

length-insert_new :
    (k : String) (v : ℕ) (m : Dict String ℕ)
    → lookup k m ≡ none
    → length (insert k v m) ≡ length m + 1
unfolding lookup insert
length-insert_new k v [] h = refl
length-insert_new k v ((j, w) ∷ m) h = elim (Bool-cases (j == k)) [
  | inl q ↦ absurd (ground (arith, q, h))
  | inr q ↦ rw (q) (omega (arith, length-insert_new k v m (ground (arith, q, h))))
]

address_at-Returns :
    (ws : List Wallet) (i : ℕ) (r : Rewriter)
    → Good ws r
    → i < length r.pool
    → Returns ws (address_at i r)
unfolding address_at
address_at-Returns ws i r g h =
    let (w, e) = get_elem?-some i r.pool h in (w.classic_address, r, rw (address_at, e) refl, g)

rest_small : (a n : ℕ) → (a % suc n) < suc n
rest_small a n = grind arith

rest_self : (a n : ℕ) → a < suc n → a % suc n ≡ a
rest_self a n h = grind arith

assign-Returns :
    (ws : List Wallet) (n : ℕ) (addr : String) (r : Rewriter)
    → Good ws r
    → n ≡ length r.pool
    → lookup addr r.cache ≡ none
    → Returns ws (assign n addr r)
unfolding assign
assign-Returns ws zero addr r g q z = absurd (ground (arith, q, g.some_account))
assign-Returns ws (suc n) addr r g q z =
    let idx = r.counter % suc n in
    let small : idx < suc n = rest_small r.counter n in
    let here : r.counter + 1 ≤ length r.pool → idx ≡ r.counter =
      λ h. rest_self r.counter n (omega (arith, h, q)) in
    let found = λ (a : String). lookup-insert addr a idx r.cache in
    address_at-Returns ws idx
      (record r { counter = r.counter + 1; cache = insert addr idx r.cache })
      (record {
        kept = g.kept;
        counted = omega (arith, g.counted, length-insert_new addr idx r.cache z);
        some_account = g.some_account;
        bounded = λ a i e. elim (Bool-cases (addr == a)) [
          | inl s ↦ ground (arith, s, e, found a, small, q)
          | inr s ↦ g.bounded a i (ground (arith, s, e, found a))
        ];
        early = λ a i h e. elim (Bool-cases (addr == a)) [
          | inl s ↦ ground (arith, s, e, found a, here h)
          | inr s ↦ ground (arith, g.early a i (omega (arith, h)) (ground (arith, s, e, found a)))
        ];
        apart = λ a b i h e e'. elim (Bool-cases (addr == a)) [
          | inl s ↦ elim (Bool-cases (addr == b)) [
            | inl t ↦ sym (eq_of_== addr a s) ∙ eq_of_== addr b t
            | inr t ↦ absurd (
                ground (
                  arith,
                  s,
                  e,
                  found a,
                  here h,
                  g.early b i (omega (arith, h)) (ground (arith, t, e', found b)),
                ))
          ]
          | inr s ↦ elim (Bool-cases (addr == b)) [
            | inl t ↦ absurd (
                ground (
                  arith,
                  t,
                  e',
                  found b,
                  here h,
                  g.early a i (omega (arith, h)) (ground (arith, s, e, found a)),
                ))
            | inr t ↦
                g.apart a b i (omega (arith, h)) (ground (arith, s, e, found a))
                  (ground (arith, t, e', found b))
          ]
        ];
      })
      (omega (arith, small, q))

map_address-Returns :
    (ws : List Wallet) (addr : String) (r : Rewriter) → Good ws r → Returns ws (map_address addr r)
unfolding map_address
map_address-Returns ws addr r g = elim (Option-cases (lookup addr r.cache)) [
  | inl z ↦ rw (map_address, z) (assign-Returns ws (length r.pool) addr r g refl z)
  | inr (i, e) ↦ rw (map_address, e) (address_at-Returns ws i r g (g.bounded addr i e))
]

new-Good : (ws : List Wallet) → 0 < length ws → Good ws (new_rewriter ws)
unfolding new_rewriter lookup
new-Good ws h = record {
  kept = refl;
  counted = refl;
  some_account = h;
  bounded = λ a i e. absurd (cc);
  early = λ a i l e. absurd (cc);
  apart = λ a b i l e e'. absurd (cc);
}

module _ {R : Type 0} (go : Json R) (ws : List Wallet) where
  place-Returns :
      (o : Option String) (put : String → Dict String R) (tx : Dict String R) (r : Rewriter)
      → Good ws r
      → Returns ws (place go o put tx r)
  unfolding place
  place-Returns none put tx r g = (tx, r, refl, g)
  place-Returns (some addr) put tx r g =
      let (x, r', e, g') = map_address-Returns ws addr r g in (put x, r', rw (place, e) refl, g')

  rewrite_address-Returns :
      (f : String) (tx : Dict String R) (r : Rewriter)
      → Good ws r
      → Returns ws (rewrite_address go f tx r)
  unfolding rewrite_address
  rewrite_address-Returns f tx r g = place-Returns _ _ tx r g

  rewrite_object-Returns :
      (f : String) (o : Option (Dict String R)) (tx : Dict String R) (r : Rewriter)
      → Good ws r
      → Returns ws (rewrite_object go f o tx r)
  unfolding rewrite_object
  rewrite_object-Returns f none tx r g = (tx, r, refl, g)
  rewrite_object-Returns f (some m) tx r g = place-Returns _ _ tx r g

  rewrite_issuer-Returns :
      (f : String) (tx : Dict String R) (r : Rewriter)
      → Good ws r
      → Returns ws (rewrite_issuer go f tx r)
  unfolding rewrite_issuer
  rewrite_issuer-Returns f tx r g = rewrite_object-Returns f _ tx r g

  rewrite_each-Returns :
      (change : String → Dict String R → Rewriter → Option (Dict String R × Rewriter))
      → ((f : String) (tx : Dict String R) (r : Rewriter) → Good ws r → Returns ws (change f tx r))
      → (fs : List String) (tx : Dict String R) (r : Rewriter) → Good ws r
      → Returns ws (rewrite_each go change fs tx r)
  unfolding rewrite_each
  rewrite_each-Returns change h [] tx r g = (tx, r, refl, g)
  rewrite_each-Returns change h (f ∷ fs) tx r g =
      let (tx1, r1, e1, g1) = h f tx r g in
      let (tx2, r2, e2, g2) = rewrite_each-Returns change h fs tx1 r1 g1 in
      (tx2, r2, rw (rewrite_each, e1) e2, g2)

  rewrite-Returns : (tx : Dict String R) (r : Rewriter) → Good ws r → Returns ws (rewrite go tx r)
  unfolding rewrite
  rewrite-Returns tx r g =
      let (tx1, r1, e1, g1) =
        rewrite_each-Returns (rewrite_address go) rewrite_address-Returns address_field_paths
          (strip stripped tx) r g in
      let (tx2, r2, e2, g2) =
        rewrite_each-Returns (rewrite_issuer go) rewrite_issuer-Returns iou_shaped_fields tx1 r1
          g1 in
      (judge go (text_at go "Account" tx2) tx2, r2, rw (rewrite, e1, e2) refl, g2)

  rewrite_all-Returns :
      (txs : List (Dict String R)) (r : Rewriter) → Good ws r → Returns ws (rewrite_all go txs r)
  unfolding rewrite_all
  rewrite_all-Returns [] r g = ([], r, refl, g)
  rewrite_all-Returns (tx ∷ txs) r g =
      let (out, r1, e1, g1) = rewrite-Returns tx r g in
      let (outs, r2, e2, g2) = rewrite_all-Returns txs r1 g1 in
      (out ∷ outs, r2, rw (rewrite_all, e1, e2) refl, g2)

  -- A rewriter on a pool that is not empty rewrites or refuses every transaction of a sequence: no index and no
  -- remainder panics. It keeps its pool.
  pub rewrite_all-returns :
      (txs : List (Dict String R))
      → 0 < length ws
      → (outs : List (Rewritten R)) × (r : Rewriter) × (rewrite_all go txs (new_rewriter ws)
          ≡ some (outs, r))
        × (r.pool ≡ ws)
  rewrite_all-returns txs h =
      let (outs, r, e, g) = rewrite_all-Returns txs (new_rewriter ws) (new-Good ws h) in
      (outs, r, e, g.kept)

  -- After a sequence of transactions on a pool that is not empty, of at most as many addresses as the pool has
  -- accounts, two addresses that have the same slot of the pool are the same.
  pub rewrite_all-apart :
      (txs : List (Dict String R)) (outs : List (Rewritten R)) (r : Rewriter) (a b : String) (i : ℕ)
      → 0 < length ws
      → rewrite_all go txs (new_rewriter ws) ≡ some (outs, r)
      → length r.cache ≤ length ws
      → lookup a r.cache ≡ some i
      → lookup b r.cache ≡ some i
      → a ≡ b
  rewrite_all-apart txs outs r a b i h e l p q =
      let (outs', r', e', g) = rewrite_all-Returns txs (new_rewriter ws) (new-Good ws h) in
      let same : r' ≡ r =
        ap (λ x. x.1) ((some_inj {a = (outs', r')} {b = (outs, r)}).0 (sym e' ∙ e)) in
      let g' = subst (λ x. Good ws x) same g in g'.apart a b i (rw (g'.kept, g'.counted) l) p q
