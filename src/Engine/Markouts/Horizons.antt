-- ===== src/Engine/Markouts/Horizons.antt =====
-- src/engine/pipeline.rs, the markout tracker: what the completed markouts hold.
use jev_trader.Prelude.{
  ℕ, ◌+◌, ◌≡◌, refl, sym, ap, ◌∙◌, All, All-map, All-append, inl, inr, ◌⊎◌, Option, none, some,
  List, [], ◌∷◌, ◌++◌, arith, if◌then◌else◌, length, length-append, Option-cases,
}
use mathlib.Core.Path.{subst}
use jev_trader.Prelude.Int.{ℤ, pos, leb_ℤ, saturating_add}
use jev_trader.Engine.Markouts.{
  Mids, fill_slot, CompletedMarkout, PendingMarkout, MarkoutTracker, fill_slots, all_mids, Observed,
  sort_out, observe_all, observe,
}

-- A mid of the market, if there was one, and when it was seen.
abbrev pub Sighting : Type 0
Sighting = ℤ × Option ℕ

-- The first mid seen at a time or later.
abbrev pub first_from : ℤ → List Sighting → Option ℕ
first_from target [] = none
first_from target ((at_ms, none) ∷ sightings) = first_from target sightings
first_from target ((at_ms, some mid) ∷ sightings) =
    if leb_ℤ target at_ms then some mid else first_from target sightings

-- What a slot holds after some sightings, by what it held before.
abbrev pub slot_from : ℤ → ℕ → List Sighting → Option ℕ → Option ℕ
slot_from quoted_at_ms horizon_ms sightings (some mid) = some mid
slot_from quoted_at_ms horizon_ms sightings none =
    first_from (saturating_add quoted_at_ms (pos horizon_ms)) sightings

module _ (Tags : Type 0) where
  abbrev pub slots_from : List Sighting → PendingMarkout Tags → Mids (Option ℕ)
  slots_from sightings p =
      let slot : ℕ → Option ℕ → Option ℕ =
        λ horizon. slot_from p.quote.quoted_at_ms horizon sightings in
      record {
        mid_1s = slot 1000 p.mids.mid_1s;
        mid_5s = slot 5000 p.mids.mid_5s;
        mid_10s = slot 10000 p.mids.mid_10s;
        mid_30s = slot 30000 p.mids.mid_30s;
        mid_60s = slot 60000 p.mids.mid_60s;
      }

  abbrev pub Member : PendingMarkout Tags → MarkoutTracker Tags → Type 0
  Member p [] = ⊥
  Member p (q ∷ pending) = (p ≡ q) ⊎ Member p pending

  -- The tracker over some sightings, in their order.
  abbrev pub observes : MarkoutTracker Tags → List Sighting → Observed Tags
  observes pending [] = record { completed = []; remaining = pending }
  observes pending ((at_ms, mid) ∷ sightings) =
      let now = observe Tags pending at_ms mid in
      let later = observes now.remaining sightings in
      record { completed = now.completed ++ later.completed; remaining = later.remaining }

  observe_all-length :
      (at_ms : ℤ) (mid : ℕ) (pending : MarkoutTracker Tags)
      → let o = observe_all Tags at_ms mid pending in
        length o.completed + length o.remaining ≡ length pending
  unfolding observe_all
  observe_all-length at_ms mid [] = omega arith
  observe_all-length at_ms mid (p ∷ pending) =
      elim (Option-cases (all_mids Tags (fill_slots Tags at_ms mid p).mids)) [
        | inl e ↦
            rw (e, observe_all, sort_out) (omega (arith, observe_all-length at_ms mid pending))
        | inr (m, e) ↦
            rw (e, observe_all, sort_out) (omega (arith, observe_all-length at_ms mid pending))
      ]

  -- No pending markout is lost, and none completes twice.
  pub observes-length :
      (pending : MarkoutTracker Tags) (sightings : List Sighting)
      → let o = observes pending sightings in
        length o.completed + length o.remaining ≡ length pending
  unfolding observe
  observes-length pending [] = omega arith
  observes-length pending ((at_ms, none) ∷ sightings) = observes-length pending sightings
  observes-length pending ((at_ms, some mid) ∷ sightings) =
      let now = observe_all Tags at_ms mid pending in
      let later = observes now.remaining sightings in
      omega (
        arith,
        observe_all-length at_ms mid pending,
        observes-length now.remaining sightings,
        length-append now.completed later.completed,
      )

  slot_step :
      (at_ms : ℤ) (mid : ℕ) (quoted : ℤ) (horizon : ℕ) (sightings : List Sighting) (x : Option ℕ)
      → slot_from quoted horizon sightings (fill_slot Tags at_ms mid quoted horizon x)
        ≡ slot_from quoted horizon ((at_ms, some mid) ∷ sightings) x
  slot_step at_ms mid quoted horizon sightings (some y) = refl
  slot_step at_ms mid quoted horizon sightings none = ground arith

  slots_step :
      (at_ms : ℤ) (mid : ℕ) (sightings : List Sighting) (p : PendingMarkout Tags)
      → slots_from sightings (fill_slots Tags at_ms mid p)
        ≡ slots_from ((at_ms, some mid) ∷ sightings) p
  unfolding fill_slots
  slots_step at_ms mid sightings p i =
      let step = λ (h : ℕ) (x : Option ℕ). slot_step at_ms mid p.quote.quoted_at_ms h sightings x in
      record {
        mid_1s = step 1000 p.mids.mid_1s i;
        mid_5s = step 5000 p.mids.mid_5s i;
        mid_10s = step 10000 p.mids.mid_10s i;
        mid_30s = step 30000 p.mids.mid_30s i;
        mid_60s = step 60000 p.mids.mid_60s i;
      }

  -- A full row is settled.
  slots_full :
      (sightings : List Sighting) (p : PendingMarkout Tags) (m : Mids ℕ)
      → all_mids Tags p.mids ≡ some m
      → all_mids Tags (slots_from sightings p) ≡ some m
  slots_full sightings p m h = ground (arith, h)

  slots_none : (p : PendingMarkout Tags) → slots_from [] p ≡ p.mids
  slots_none p = ground arith

  -- Each slot holds the mid of its horizon.
  abbrev pub IsFull : Mids (Option ℕ) → Mids ℕ → Type 0
  IsFull slots m =
      (slots.mid_1s ≡ some m.mid_1s)
      × (slots.mid_5s ≡ some m.mid_5s)
      × (slots.mid_10s ≡ some m.mid_10s)
      × (slots.mid_30s ≡ some m.mid_30s)
      × (slots.mid_60s ≡ some m.mid_60s)

  -- A slot is empty.
  abbrev pub IsOpen : Mids (Option ℕ) → Type 0
  IsOpen slots =
      (slots.mid_1s ≡ none)
      ⊎ ((slots.mid_5s ≡ none)
          ⊎ ((slots.mid_10s ≡ none) ⊎ ((slots.mid_30s ≡ none) ⊎ (slots.mid_60s ≡ none))))

  all_mids-IsFull :
      (slots : Mids (Option ℕ)) (m : Mids ℕ) → all_mids Tags slots ≡ some m → IsFull slots m
  all_mids-IsFull slots m h = ground arith

  all_mids-IsOpen : (slots : Mids (Option ℕ)) → all_mids Tags slots ≡ none → IsOpen slots
  all_mids-IsOpen slots h = ground arith

  -- A row that stems from one of `pending` and holds its first mids.
  abbrev pub IsRow : MarkoutTracker Tags → List Sighting → CompletedMarkout Tags → Type 0
  IsRow pending sightings r =
      (p : PendingMarkout Tags) × Member p pending
      × (r.quote ≡ p.quote)
      × IsFull (slots_from sightings p) r.mids

  -- The same, by what the code reads off the slots.
  abbrev IsRead : MarkoutTracker Tags → List Sighting → CompletedMarkout Tags → Type 0
  IsRead pending sightings r =
      (p : PendingMarkout Tags) × Member p pending
      × (r.quote ≡ p.quote)
      × (all_mids Tags (slots_from sightings p) ≡ some r.mids)

  -- A markout that stays pending: it stems from one of `pending`, has its first mids, and still lacks
  -- one, or is as it was.
  abbrev pub IsRest : MarkoutTracker Tags → List Sighting → PendingMarkout Tags → Type 0
  IsRest pending sightings q =
      (p : PendingMarkout Tags) × Member p pending
      × (q.quote ≡ p.quote)
      × (slots_from sightings p ≡ q.mids)
      × (IsOpen q.mids ⊎ (q ≡ p))

  -- What one sighting makes of some pending markouts.
  abbrev IsSorted : ℤ → ℕ → MarkoutTracker Tags → Observed Tags → Type 0
  IsSorted at_ms mid pending o =
      All
        (λ r.
          (p : PendingMarkout Tags) × Member p pending
          × (r.quote ≡ p.quote)
          × (all_mids Tags (fill_slots Tags at_ms mid p).mids ≡ some r.mids))
        o.completed
      × All
          (λ q.
            (p : PendingMarkout Tags) × Member p pending
            × (q ≡ fill_slots Tags at_ms mid p)
            × IsOpen q.mids)
          o.remaining

  observe_all-IsSorted :
      (at_ms : ℤ) (mid : ℕ) (pending : MarkoutTracker Tags)
      → IsSorted at_ms mid pending (observe_all Tags at_ms mid pending)
  unfolding observe_all fill_slots
  observe_all-IsSorted at_ms mid [] = (tt, tt)
  observe_all-IsSorted at_ms mid (p ∷ pending) =
      let (rows, rests) = observe_all-IsSorted at_ms mid pending in
      let rows' = All-map _ _ _ (λ r (s, m, q, a). (s, inr m, q, a)) rows in
      let rests' = All-map _ _ _ (λ r (s, m, e, o). (s, inr m, e, o)) rests in
      elim (Option-cases (all_mids Tags (fill_slots Tags at_ms mid p).mids)) [
        | inl e ↦
            rw (e, observe_all, sort_out)
              (
                rows',
                ((p, inl refl, refl, all_mids-IsOpen (fill_slots Tags at_ms mid p).mids e), rests'),
              )
        | inr (m, e) ↦ rw (e, observe_all, sort_out) (((p, inl refl, refl, e), rows'), rests')
      ]

  member_All {κ} :
      (P : PendingMarkout Tags → Type κ) (pending : MarkoutTracker Tags) (p : PendingMarkout Tags)
      → All P pending
      → Member p pending
      → P p
  member_All P [] p a m = absurd m
  member_All P (q ∷ pending) p a (inl e) = rw e a.0
  member_All P (q ∷ pending) p a (inr m) = member_All P pending p a.1 m

  still-IsOpen :
      (q r : PendingMarkout Tags) → IsOpen q.mids → IsOpen r.mids ⊎ (r ≡ q) → IsOpen r.mids
  still-IsOpen q r o (inl lacks) = lacks
  still-IsOpen q r o (inr same) = subst (λ x. IsOpen x.mids) (sym same) o

  All-IsRest : (pending : MarkoutTracker Tags) → All (IsRest pending []) pending
  All-IsRest [] = tt
  All-IsRest (p ∷ pending) = (
    (p, inl refl, refl, slots_none p, inr refl),
    All-map _ _ _ (λ q (s, m, same, seen, o). (s, inr m, same, seen, o)) (All-IsRest pending),
  )

  observes-IsRead :
      (pending : MarkoutTracker Tags) (sightings : List Sighting)
      → let o = observes pending sightings in
        All (IsRead pending sightings) o.completed × All (IsRest pending sightings) o.remaining
  unfolding observe fill_slots
  observes-IsRead pending [] = (tt, All-IsRest pending)
  observes-IsRead pending ((at_ms, none) ∷ sightings) = observes-IsRead pending sightings
  observes-IsRead pending ((at_ms, some mid) ∷ sightings) =
      let now = observe_all Tags at_ms mid pending in
      let (rows, rests) = observe_all-IsSorted at_ms mid pending in
      let (rows', rests') = observes-IsRead now.remaining sightings in
      (
        All-append _ _ _
            (All-map _ _ _
              (λ r (p, m, q, a). (
                p,
                m,
                q,
                ap (all_mids Tags) (sym (slots_step at_ms mid sightings p))
                    ∙ slots_full sightings (fill_slots Tags at_ms mid p) r.mids a,
              ))
              rows)
            (All-map _ _ _
              (λ r (q, m, same, full).
                let (p, m', e, o) = member_All _ now.remaining q rests m in
                (
                  p,
                  m',
                  same ∙ ap (λ x. x.quote) e,
                  ap (all_mids Tags)
                        (sym (ap (slots_from sightings) e ∙ slots_step at_ms mid sightings p))
                      ∙ full,
                ))
              rows'),
        All-map _ _ _
            (λ r (q, m, same, now_seen, kept).
              let (p, m', e, o) = member_All _ now.remaining q rests m in
              (
                p,
                m',
                same ∙ ap (λ x. x.quote) e,
                sym (ap (slots_from sightings) e ∙ slots_step at_ms mid sightings p) ∙ now_seen,
                inl (still-IsOpen q r o kept),
              ))
            rests',
      )

  -- Every row that completes stems from one of the pending markouts and holds, for each horizon, the
  -- first mid that was seen at the quote's time plus the horizon or later. What stays pending has first
  -- mids as far as they were seen, and lacks one or is as it was. A mid that an earlier sighting set is
  -- never replaced.
  pub observes-IsRow :
      (pending : MarkoutTracker Tags) (sightings : List Sighting)
      → let o = observes pending sightings in
        All (IsRow pending sightings) o.completed × All (IsRest pending sightings) o.remaining
  observes-IsRow pending sightings =
      let (rows, rests) = observes-IsRead pending sightings in
      (
        All-map _ _ _
            (λ r (p, m, q, full). (p, m, q, all_mids-IsFull (slots_from sightings p) r.mids full))
            rows,
        rests,
      )
