-- ===== src/Server/Events/Delivery.antt =====
-- What server.EventBus promises a subscriber: no more than a buffer of waiting events, and every event at most
-- once and in the order of publication.
use xrpl_confluence.Prelude.{
  ℕ, suc, ◌≤◌, ◌≡◌, ◌∙◌, sym, subst, refl, Option, none, some, List, [], ◌∷◌, ◌++◌, arith, inl, inr,
  if◌then◌else◌, ◌==◌, nat_eq, nat_beq_iff, length, length-append, ltb, Bool-cases, Option-cases,
}
use mathlib.Core.List.{append_assoc, append-nil}
use xrpl_confluence.Prelude.Dict.{lookup, lookup-insert, lookup-erase, lookup-map_values}
use xrpl_confluence.Server.Events.{
  Channel, EventBus, new_event_bus, send, publish, subscribe, unsubscribe, taken, take_from,
  rest_of, receive, Op, published, subscribed, unsubscribed, received, apply, after,
}

-- The one list is the other without some of its items.
pub data Within {A : Type 0} : List A → List A → Type 0 where
  none_left : {ys : List A} → Within [] ys
  kept : {x : A} {xs ys : List A} → Within xs ys → Within (x ∷ xs) (x ∷ ys)
  dropped : {y : A} {xs ys : List A} → Within xs ys → Within xs (y ∷ ys)

Within-append : {A : Type 0} {xs ys : List A} (zs : List A) → Within xs ys → Within xs (ys ++ zs)
Within-append zs none_left = none_left
Within-append zs (kept w) = kept (Within-append zs w)
Within-append zs (dropped w) = dropped (Within-append zs w)

last_of : {A : Type 0} (ys : List A) (z : A) → Within (z ∷ []) (ys ++ z ∷ [])
last_of [] z = kept none_left
last_of (y ∷ ys) z = dropped (last_of ys z)

Within-last :
    {A : Type 0} (xs ys : List A) (z : A) → Within xs ys → Within (xs ++ z ∷ []) (ys ++ z ∷ [])
Within-last [] ys z w = last_of ys z
Within-last (x ∷ xs) [] z w = elim w [ ]
Within-last (x ∷ xs) (y ∷ ys) z (kept w) = kept (Within-last xs ys z w)
Within-last (x ∷ xs) (y ∷ ys) z (dropped w) = dropped (Within-last (x ∷ xs) ys z w)

-- What is within a list still is without its end.
Within-prefix : {A : Type 0} (xs more ys : List A) → Within (xs ++ more) ys → Within xs ys
Within-prefix [] more ys w = none_left
Within-prefix (x ∷ xs) more [] w = elim w [ ]
Within-prefix (x ∷ xs) more (y ∷ ys) (kept w) = kept (Within-prefix xs more ys w)
Within-prefix (x ∷ xs) more (y ∷ ys) (dropped w) = dropped (Within-prefix (x ∷ xs) more ys w)

module _ {E : Type 0} where
  pub buffer_of : Option (Channel E) → List E
  buffer_of none = []
  buffer_of (some c) = c.buffer

  offer_to : Option (Channel E) → E → List E
  offer_to none e = []
  offer_to (some c) e = e ∷ []

  got_by : ℕ → Op E → EventBus E → List E
  got_by id (published e) b = []
  got_by id (subscribed capacity) b = []
  got_by id (unsubscribed j) b = []
  got_by id (received j) b = if j == id then (receive j b).1 else []

  offered_by : ℕ → Op E → EventBus E → List E
  offered_by id (published e) b = offer_to (lookup id b.subscribers) e
  offered_by id (subscribed capacity) b = []
  offered_by id (unsubscribed j) b = []
  offered_by id (received j) b = []

  -- What a subscriber has received, in this order, and what was published while it was subscribed.
  pub got : ℕ → List (Op E) → List E
  got id [] = []
  got id (op ∷ earlier) = got id earlier ++ got_by id op (after earlier)

  pub offered : ℕ → List (Op E) → List E
  offered id [] = []
  offered id (op ∷ earlier) = offered id earlier ++ offered_by id op (after earlier)

  pub Fits : Option (Channel E) → Type 0
  Fits none = Unit
  Fits (some c) = length c.buffer ≤ c.capacity

  -- What is received and waiting is within what was published; a buffer fits; and no id of the future is
  -- known.
  abbrev Served : ℕ → ℕ → Option (Channel E) → List E → List E → Type 0
  Served next id o gs os =
      Within (gs ++ buffer_of o) os × Fits o × (next ≤ id → (o ≡ none) × (gs ≡ []))

  send-Fits :
      (e : E) (c : Channel E)
      → length c.buffer ≤ c.capacity
      → length (send e c).buffer ≤ (send e c).capacity
  unfolding send
  send-Fits e c h = elim (Bool-cases (ltb (length c.buffer) c.capacity)) [
    | inl l ↦ rw (l) (ground (arith, l, length-append c.buffer (e ∷ [])))
    | inr l ↦ rw (l) h
  ]

  send-Within :
      (e : E) (c : Channel E) (gs os : List E)
      → Within (gs ++ c.buffer) os
      → Within (gs ++ (send e c).buffer) (os ++ e ∷ [])
  unfolding send
  send-Within e c gs os w = elim (Bool-cases (ltb (length c.buffer) c.capacity)) [
    | inl l ↦ rw (l) (
        subst (λ x. Within x (os ++ e ∷ [])) (append_assoc gs c.buffer (e ∷ []))
          (Within-last (gs ++ c.buffer) os e w))
    | inr l ↦ rw (l) (Within-append (e ∷ []) w)
  ]

  nothing_Served :
      (id : ℕ)
      → Served
          (new_event_bus {E = E}).next_id
          id
          (lookup id (new_event_bus {E = E}).subscribers)
          []
          []
  unfolding new_event_bus lookup buffer_of Fits
  nothing_Served id = (none_left, tt, λ l. (refl, refl))

  send_to : E → Option (Channel E) → Option (Channel E)
  send_to e none = none
  send_to e (some c) = some (send e c)

  lookup-publish :
      (id : ℕ) (e : E) (b : EventBus E)
      → lookup id (publish e b).subscribers ≡ send_to e (lookup id b.subscribers)
  unfolding publish send_to
  lookup-publish id e b = elim (Option-cases (lookup id b.subscribers)) [
    | inl q ↦ rw (lookup-map_values (send e) id b.subscribers, q) refl
    | inr (c, q) ↦ rw (lookup-map_values (send e) id b.subscribers, q) refl
  ]

  send_to-Served :
      (next id : ℕ) (e : E) (o : Option (Channel E)) (gs os : List E)
      → Served next id o gs os
      → Served next id (send_to e o) (gs ++ []) (os ++ offer_to o e)
  unfolding send_to offer_to buffer_of Fits
  send_to-Served next id e none gs os (w, f, n) =
      (rw (append-nil gs, append-nil os) w, tt, λ l. (refl, append-nil gs ∙ (n l).1))
  send_to-Served next id e (some c) gs os (w, f, n) = (
    rw (append-nil gs) (send-Within e c gs os w),
    send-Fits e c f,
    λ l. absurd (ground (arith, (n l).0)),
  )

  rest_to : Option (Channel E) → Option (Channel E)
  rest_to none = none
  rest_to (some c) = some (record c { buffer = rest_of c.buffer })

  lookup-receive :
      (id j : ℕ) (b : EventBus E)
      → lookup id (receive j b).0.subscribers
        ≡ (if j == id then rest_to (lookup j b.subscribers) else lookup id b.subscribers)
  unfolding receive take_from rest_to
  lookup-receive id j b = elim (Option-cases (lookup j b.subscribers)) [
    | inl q ↦ elim (Bool-cases (j == id)) [
      | inl e ↦
          rw (take_from, q, e)
            (subst (λ x. lookup x b.subscribers ≡ none) ((nat_beq_iff j id).0 e) q)
      | inr e ↦ rw (take_from, q, e) refl
    ]
    | inr (c, q) ↦
        rw (take_from, q)
          (lookup-insert j id (record c { buffer = rest_of c.buffer }) b.subscribers)
  ]

  take_first :
      (gs es os : List E)
      → Within (gs ++ es) os
      → Within ((gs ++ elim es [ [] ↦ [] | e ∷ rest ↦ e ∷ [] ]) ++ rest_of es) os
  unfolding rest_of
  take_first gs [] os w = rw (append-nil gs) w
  take_first gs (e ∷ es) os w = subst (λ x. Within x os) (sym (append_assoc gs (e ∷ []) es)) w

  rest_shorter : (es : List E) → length (rest_of es) ≤ length es
  unfolding rest_of
  rest_shorter [] = omega arith
  rest_shorter (e ∷ es) = omega arith

  rest_to-Served :
      (next id : ℕ) (o : Option (Channel E)) (gs os : List E)
      → Served next id o gs os
      → Served next id (rest_to o) (gs ++ taken o) (os ++ [])
  unfolding rest_to taken buffer_of Fits
  rest_to-Served next id none gs os (w, f, n) =
      (rw (append-nil gs, append-nil os) w, tt, λ l. (refl, append-nil gs ∙ (n l).1))
  rest_to-Served next id (some c) gs os (w, f, n) = (
    rw (append-nil os) (take_first gs c.buffer os w),
    omega (arith, f, rest_shorter c.buffer),
    λ l. absurd (ground (arith, (n l).0)),
  )

  same_Served :
      (next id : ℕ) (o : Option (Channel E)) (gs os : List E)
      → Served next id o gs os
      → Served next id o (gs ++ []) (os ++ [])
  same_Served next id o gs os s = rw (append-nil gs, append-nil os) s

  gone_Served :
      (next id : ℕ) (o : Option (Channel E)) (gs os : List E)
      → Served next id o gs os
      → Served next id none (gs ++ []) (os ++ [])
  unfolding buffer_of Fits
  gone_Served next id o gs os (w, f, n) =
      rw (append-nil gs, append-nil os, append-nil gs)
        (Within-prefix gs (buffer_of o) os w, tt, λ l. (refl, (n l).1))

  later_Served :
      (next id : ℕ) (o : Option (Channel E)) (gs os : List E)
      → Served next id o gs os
      → Served (suc next) id o (gs ++ []) (os ++ [])
  later_Served next id o gs os (w, f, n) =
      rw (append-nil gs, append-nil os) (w, f, λ l. n (omega (arith, l)))

  new_Served :
      (next id capacity : ℕ) (o : Option (Channel E)) (gs os : List E)
      → next ≡ id
      → Served next id o gs os
      → Served
          (suc next)
          id
          (some (record { capacity = capacity; buffer = [] }))
          (gs ++ [])
          (os ++ [])
  unfolding buffer_of Fits
  new_Served next id capacity o gs os p (w, f, n) =
      rw (append-nil gs, append-nil os, append-nil gs)
        (
          subst (λ x. Within x os) (sym (n (omega (arith, p))).1) none_left,
          omega arith,
          λ l. absurd (omega (arith, l, p)),
        )

  subscribed_Served :
      (id capacity : ℕ) (b : EventBus E) (gs os : List E)
      → Served b.next_id id (lookup id b.subscribers) gs os
      → Served
          (suc b.next_id)
          id
          (lookup id (subscribe capacity b).subscribers)
          (gs ++ [])
          (os ++ [])
  unfolding subscribe
  subscribed_Served id capacity b gs os s =
      let o = lookup id b.subscribers in
      elim (Bool-cases (b.next_id == id)) [
        | inl e ↦
            rw
              (
                lookup-insert b.next_id id (record { capacity = capacity; buffer = [] })
                    b.subscribers,
                e,
              )
              (new_Served b.next_id id capacity o gs os ((nat_beq_iff b.next_id id).0 e) s)
        | inr e ↦
            rw
              (
                lookup-insert b.next_id id (record { capacity = capacity; buffer = [] })
                    b.subscribers,
                e,
              )
              (later_Served b.next_id id o gs os s)
      ]

  unsubscribed_Served :
      (id j : ℕ) (b : EventBus E) (gs os : List E)
      → Served b.next_id id (lookup id b.subscribers) gs os
      → Served b.next_id id (lookup id (unsubscribe j b).subscribers) (gs ++ []) (os ++ [])
  unfolding unsubscribe
  unsubscribed_Served id j b gs os s =
      let o = lookup id b.subscribers in
      elim (Bool-cases (j == id)) [
        | inl e ↦ rw (lookup-erase j id b.subscribers, e) (gone_Served b.next_id id o gs os s)
        | inr e ↦ rw (lookup-erase j id b.subscribers, e) (same_Served b.next_id id o gs os s)
      ]

  receive-next : (j : ℕ) (b : EventBus E) → (receive j b).0.next_id ≡ b.next_id
  unfolding receive take_from
  receive-next j b = elim (Option-cases (lookup j b.subscribers)) [
    | inl q ↦ rw (take_from, q) refl
    | inr (c, q) ↦ rw (take_from, q) refl
  ]

  receive-taken : (j : ℕ) (b : EventBus E) → (receive j b).1 ≡ taken (lookup j b.subscribers)
  unfolding receive
  receive-taken j b = refl

  received_Served :
      (id j : ℕ) (b : EventBus E) (gs os : List E)
      → Served b.next_id id (lookup id b.subscribers) gs os
      → Served
          (receive j b).0.next_id
          id
          (lookup id (receive j b).0.subscribers)
          (gs ++ got_by id (received j) b)
          (os ++ [])
  unfolding got_by
  received_Served id j b gs os s = elim (Bool-cases (j == id)) [
    | inl e ↦
        rw (receive-next j b, lookup-receive id j b, e, receive-taken j b)
          (rest_to-Served b.next_id id (lookup j b.subscribers) gs os (
            subst (λ x. Served b.next_id id (lookup x b.subscribers) gs os)
              (sym ((nat_beq_iff j id).0 e)) s))
    | inr e ↦
        rw (receive-next j b, lookup-receive id j b, e)
          (same_Served b.next_id id (lookup id b.subscribers) gs os s)
  ]

  after-Served :
      (id : ℕ) (ops : List (Op E))
      → Served
          (after ops).next_id
          id
          (lookup id (after ops).subscribers)
          (got id ops)
          (offered id ops)
  unfolding after apply got offered got_by offered_by
  after-Served id [] = nothing_Served id
  after-Served id (published e ∷ earlier) =
      let b = after earlier in
      subst
        (λ o.
          Served b.next_id id o (got id earlier ++ [])
            (offered id earlier ++ offer_to (lookup id b.subscribers) e))
        (sym (lookup-publish id e b))
        (send_to-Served b.next_id id e (lookup id b.subscribers) (got id earlier)
          (offered id earlier) (after-Served id earlier))
  after-Served id (subscribed capacity ∷ earlier) =
      subscribed_Served id capacity (after earlier) (got id earlier) (offered id earlier)
        (after-Served id earlier)
  after-Served id (unsubscribed j ∷ earlier) =
      unsubscribed_Served id j (after earlier) (got id earlier) (offered id earlier)
        (after-Served id earlier)
  after-Served id (received j ∷ earlier) =
      received_Served id j (after earlier) (got id earlier) (offered id earlier)
        (after-Served id earlier)

  -- Whatever happens on the bus, and in whichever order: what a subscriber has received, with what waits in
  -- its buffer behind it, is what was published while it was subscribed without some of the events, each at
  -- most once and in the same order; and no more wait than its buffer holds.
  pub after-IsServed :
      (id : ℕ) (ops : List (Op E))
      → Within (got id ops ++ buffer_of (lookup id (after ops).subscribers)) (offered id ops)
        × Fits (lookup id (after ops).subscribers)
  after-IsServed id ops = let (w, f, n) = after-Served id ops in (w, f)
