-- ===== src/Engine/ExecutionActor/Lanes.antt =====
-- src/engine/execution_actor.rs: the invariant of the two lanes, and what a quote does to it.
use jev_trader.Prelude.{
  ℕ, ◌+◌, ◌≤◌, ◌<◌, ◌≡◌, refl, ◌⊎◌, inl, inr, Bool, true, false, none, some, arith, if◌then◌else◌,
  length, Bool-cases, ◌↔◌, Option-cases, sym, ◌==◌,
}
use jev_trader.Prelude.Words.{u64_max, saturating_add}
use jev_trader.Prelude.BTreeMap
use jev_trader.Prelude.BTreeMap.{contains_key}
use jev_trader.Prelude.Int.{pos}
use jev_trader.Prelude.F64.{F64}
use jev_trader.Strategy.Risk.{RiskBlock, RiskGate, check, Checked, pass, block}
use jev_trader.Strategy.Quote.{QuoteIntent}
use mathlib.Core.Option.{some-injective}
use jev_trader.Execution.Paper.{validate, RestingOrder, PaperOrder, place, new_order, Resting}
use jev_trader.Execution.Paper.Matching.{IsValid}
use jev_trader.Execution.Paper.Placement.{IsPlaceable, validate_iff, place_lem}
use jev_trader.Engine.ExecutionActor.{
  Variant, control, quant_v1, Quoted, ok, err, ExecutionActor, book_of, outstanding, order_of,
  place_in, on_quote,
}

-- One lane: a valid book, all of whose ids were drawn before `next`, within the limit.
pub record IsLane (next limit : ℕ) (resting : Resting) : Type 0 where
  pub valid : IsValid resting
  pub drawn : (x : ℕ) → contains_key x resting ≡ true → x < next
  pub bounded : length resting ≤ limit

-- An id rests in one lane at most.
abbrev IsApart : Resting → Resting → Type 0
IsApart a b = (x : ℕ) → contains_key x a ≡ true → contains_key x b ≡ true → ⊥

later-IsLane : (next limit : ℕ) (a : Resting) → IsLane next limit a → IsLane (next + 1) limit a
later-IsLane next limit a l = record {
  valid = l.valid;
  drawn = λ x h. omega (arith, l.drawn x h);
  bounded = l.bounded;
}

-- The order that an intent asks for, under an id.
abbrev pub order_for : ℕ → QuoteIntent → PaperOrder
order_for next intent = record {
  id = next;
  side = intent.side;
  price = intent.price;
  size = intent.size;
  placed_at_ms = pos 0;
}

-- An order that rests with its whole size left.
abbrev pub entry_of : PaperOrder → RestingOrder
entry_of order = record { order = order; remaining_size = order.size; touch_count = 0 }

-- A lane after an order was let in: the order rests in it under its id, and nothing else differs.
abbrev pub Rests : PaperOrder → Resting → Resting → Type 0
Rests order before after =
    (x : ℕ)
    → BTreeMap.get x after
      ≡ (if order.id == x then some (entry_of order) else BTreeMap.get x before)

-- `place` of an order with the next id into a lane with room.
place-IsLane :
    (next limit : ℕ) (a : Resting) (order : PaperOrder)
    → order.id ≡ next
    → length a < limit
    → IsLane next limit a
    → IsLane (next + 1) limit (place a order).1
      × ((x : ℕ) → contains_key x (place a order).1 ≡ true → (x ≡ next) ⊎ (contains_key x a ≡ true))
      × ((place a order).0 ≡ none ↔ IsPlaceable order)
      × ((place a order).0 ≡ none → Rests order a (place a order).1)
place-IsLane next limit a order e room l =
    let (v, accepted, found, size) = place_lem a order l.valid in
    let fresh : contains_key order.id a ≡ false = elim (Bool-cases (contains_key order.id a)) [
      | inl h ↦ absurd (omega (arith, l.drawn order.id h))
      | inr h ↦ h
    ] in
    let keys : (x : ℕ)
        → contains_key x (place a order).1 ≡ true
        → (x ≡ next) ⊎ (contains_key x a ≡ true) =
      λ x h. ground (arith, found x) in
    (
      record {
        valid = v;
        drawn = λ x h. ground (arith, keys x h, l.drawn x);
        bounded = ground arith;
      },
      keys,
      (λ h. (accepted.0 h).0, λ p. accepted.1 (p, fresh)),
      (λ h x. rw h at (found x)),
    )

check-room :
    (gate : RiskGate) (latency outstanding : ℕ) (stale : Bool)
    → check gate latency outstanding stale ≡ pass
    → outstanding < gate.limits.max_outstanding_quotes
unfolding check
check-room gate latency outstanding stale h = ground arith

pub Checked-cases : (c : Checked) → (c ≡ pass) ⊎ ((reason : RiskBlock) × (c ≡ block reason))
Checked-cases pass = inl refl
Checked-cases (block reason) = inr (reason, refl)

new_order-some : (order o : PaperOrder) → new_order order ≡ some o → (o ≡ order) × IsPlaceable order
unfolding new_order
new_order-some order o h = elim (Option-cases (validate order)) [
  | inl e ↦
      let h' : some order ≡ some o = rw (e, new_order) at h in
      (sym (some-injective _ _ h'), (validate_iff order).0 e)
  | inr (error, e) ↦ let h' : none ≡ some o = rw (e, new_order) at h in absurd (cc)
]

new_order-none : (order : PaperOrder) → new_order order ≡ none → IsPlaceable order → ⊥
unfolding new_order
new_order-none order h p =
    let e : validate order ≡ none = (validate_iff order).1 p in
    let h' : some order ≡ none = rw (e, new_order) at h in absurd (cc)

abbrev pub is_ok : Quoted → Bool
is_ok (ok fills) = true
is_ok (err reason) = false

abbrev pub other : Variant → Variant
other control = quant_v1
other quant_v1 = control

module _ (f : F64) where
  abbrev pub resting_of : ExecutionActor f → Variant → Resting
  resting_of actor variant = (book_of f actor variant).resting

  pub record IsSound (actor : ExecutionActor f) : Type 0 where
    pub lanes :
        (v : Variant)
        → IsLane actor.next_order_id actor.risk_gate.limits.max_outstanding_quotes
            (resting_of actor v)
    pub apart : IsApart actor.control_book.resting actor.quant_book.resting

  -- What `on_quote` does with an order, by how it ends.
  abbrev pub Quotes : ExecutionActor f → Variant → PaperOrder → Quoted × ExecutionActor f → Type 0
  Quotes actor variant order (r, after) =
      IsSound after
      × (is_ok r ≡ false → after ≡ actor)
      × (resting_of after (other variant) ≡ resting_of actor (other variant))
      × (after.next_order_id ≡ (if is_ok r then actor.next_order_id + 1 else actor.next_order_id))
      × (is_ok r ≡ true → Rests order (resting_of actor variant) (resting_of after variant))

  place_in-Quotes :
      (actor : ExecutionActor f) (variant : Variant) (order : PaperOrder)
      → IsSound actor
      → actor.next_order_id < u64_max
      → outstanding f actor variant < actor.risk_gate.limits.max_outstanding_quotes
      → order.id ≡ actor.next_order_id
      → IsPlaceable order
      → Quotes actor variant order (place_in f actor variant order)
        × (is_ok (place_in f actor variant order).0 ≡ true)
  unfolding place_in
  place_in-Quotes actor control order s small room e p =
      let next : saturating_add actor.next_order_id 1 ≡ actor.next_order_id + 1 = omega arith in
      let quant = s.lanes quant_v1 in
      let (lane, keys, done, rests) =
        place-IsLane _ _ actor.control_book.resting order e room (s.lanes control) in
      rw (done.1 p, place_in, next)
        (
          (
            record {
              lanes = elim [ control ↦ lane | quant_v1 ↦ later-IsLane _ _ _ quant ];
              apart = λ x h k. ground (arith, keys x h, s.apart x, quant.drawn x k);
            },
            (λ h. absurd (cc h)),
            refl,
            refl,
            (λ h. rests (done.1 p)),
          ),
          refl,
        )
  place_in-Quotes actor quant_v1 order s small room e p =
      let next : saturating_add actor.next_order_id 1 ≡ actor.next_order_id + 1 = omega arith in
      let first = s.lanes control in
      let (lane, keys, done, rests) =
        place-IsLane _ _ actor.quant_book.resting order e room (s.lanes quant_v1) in
      rw (done.1 p, place_in, next)
        (
          (
            record {
              lanes = elim [ control ↦ later-IsLane _ _ _ first | quant_v1 ↦ lane ];
              apart = λ x h k. ground (arith, keys x k, s.apart x h, first.drawn x h);
            },
            (λ h. absurd (cc h)),
            refl,
            refl,
            (λ h. rests (done.1 p)),
          ),
          refl,
        )

  -- While ids are left, a quote on a sound actor rests exactly if the gate passes it and the intent is
  -- a buy with a size and a price. If it rests, the variant's book holds its order under the next id,
  -- with its whole size left, and is otherwise as before; a refused quote changes nothing. Either way
  -- the actor stays sound, the other variant's book is untouched, and an id is drawn only for a quote
  -- that rests.
  pub on_quote-Quotes :
      (actor : ExecutionActor f) (variant : Variant) (intent : QuoteIntent) (stale : Bool)
      (latency : ℕ)
      → IsSound actor
      → actor.next_order_id < u64_max
      → Quotes actor variant
          (order_for actor.next_order_id intent)
          (on_quote f actor variant intent stale latency)
        × (is_ok (on_quote f actor variant intent stale latency).0 ≡ true
            ↔ (check actor.risk_gate latency (outstanding f actor variant) stale ≡ pass)
              × IsPlaceable (order_for actor.next_order_id intent))
  unfolding on_quote
  on_quote-Quotes actor variant intent stale latency s small =
      let out = outstanding f actor variant in
      elim (Checked-cases (check actor.risk_gate latency out stale)) [
        | inr (reason, e) ↦
            rw (e, on_quote)
              (
                (s, (λ h. refl), refl, refl, λ h. absurd (cc h)),
                ((λ h. absurd (cc h)), λ q. absurd (cc (q.0))),
              )
        | inl e ↦
            let order = order_of f actor.next_order_id intent in
            elim (Option-cases (new_order order)) [
              | inl n ↦
                  rw (e, n, on_quote)
                    (
                      (s, (λ h. refl), refl, refl, λ h. absurd (cc h)),
                      ((λ h. absurd (cc h)), λ q. absurd (new_order-none order n q.1)),
                    )
              | inr (o, n) ↦
                  let (same, p) = new_order-some order o n in
                  let (quotes, rests) =
                    place_in-Quotes actor variant order s small (check-room _ _ _ _ e) refl p in
                  rw (e, n, same, on_quote) (quotes, ((λ h. (refl, p)), λ h. rests))
            ]
      ]
