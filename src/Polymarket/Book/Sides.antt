-- ===== src/Polymarket/Book/Sides.antt =====
-- src/polymarket/book.rs, `set_level`: one side of the book as a finite map from prices to
-- quantities, and its well-formedness.
use jev_trader.Prelude.{
  ℕ, ◌<◌, ◌≡◌, refl, ◌≢◌, inl, inr, Bool, true, false, List, [], ◌∷◌, arith, ◌==◌, if◌then◌else◌,
  All, All-map, Bool-cases, ap, ◌∙◌,
}
use jev_trader.Polymarket.Book.{Level, write_level, insert_sorted, sort_levels, set_level}

-- The quantity that a side shows at a price; 0 where it shows no level.
abbrev pub depth : ℕ → List Level → ℕ
depth price [] = 0
depth price ((k, q) ∷ levels) = if k == price then q else depth price levels

-- A price stands strictly in front of another: above it among the bids, below it among the asks.
abbrev pub Precedes : Bool → ℕ → ℕ → Type 0
Precedes true a b = b < a
Precedes false a b = a < b

abbrev pub IsOrdered : Bool → List Level → Type 0
IsOrdered descending [] = Unit
IsOrdered descending (l ∷ levels) =
    All (λ m. Precedes descending l.0 m.0) levels × IsOrdered descending levels

abbrev pub IsPositive : Level → Type 0
IsPositive l = 0 < l.1

-- What the source promises of one side: strictly sorted, so each price at most once, and no level
-- of quantity zero.
pub record IsSide (descending : Bool) (levels : List Level) : Type 0 where
  pub ordered : IsOrdered descending levels
  pub positive : All IsPositive levels

abbrev IsFresh : ℕ → List Level → Type 0
IsFresh price = All (λ m. m.0 ≢ price)

abbrev IsDistinct : List Level → Type 0
IsDistinct [] = Unit
IsDistinct (l ∷ levels) = IsFresh l.0 levels × IsDistinct levels

-- `write_level` without indices.
put : List Level → ℕ → ℕ → List Level
put [] p q = if q == 0 then [] else (p, q) ∷ []
put ((k, v) ∷ levels) p q =
    if k == p then if q == 0 then levels else (k, q) ∷ levels else (k, v) ∷ put levels p q

write_level-cons_ne :
    (k v p q : ℕ) (levels : List Level)
    → k ≢ p
    → write_level ((k, v) ∷ levels) p q ≡ (k, v) ∷ write_level levels p q
unfolding write_level
write_level-cons_ne k v p q levels h = ground arith

write_level-eq-put : (levels : List Level) (p q : ℕ) → write_level levels p q ≡ put levels p q
unfolding put
write_level-eq-put [] p q = unfold write_level in refl
write_level-eq-put ((k, v) ∷ levels) p q = elim (Bool-cases (k == p)) [
  | inl e ↦ rw e (unfold write_level in ground arith)
  | inr e ↦ rw e (
      write_level-cons_ne k v p q levels (ground arith)
      ∙ ap (◌∷◌ (k, v)) (write_level-eq-put levels p q))
]

put-IsFresh :
    (x p q : ℕ) (levels : List Level) → p ≢ x → IsFresh x levels → IsFresh x (put levels p q)
unfolding put
put-IsFresh x p q [] h f = ground arith
put-IsFresh x p q ((k, v) ∷ levels) h f = ground (arith, put-IsFresh x p q levels h f.1)

put-IsDistinct : (p q : ℕ) (levels : List Level) → IsDistinct levels → IsDistinct (put levels p q)
unfolding put
put-IsDistinct p q [] d = ground arith
put-IsDistinct p q ((k, v) ∷ levels) d =
    ground (arith, put-IsDistinct p q levels d.1, put-IsFresh k p q levels)

put-IsPositive :
    (p q : ℕ) (levels : List Level) → All IsPositive levels → All IsPositive (put levels p q)
unfolding put
put-IsPositive p q [] d = ground arith
put-IsPositive p q ((k, v) ∷ levels) d = ground (arith, put-IsPositive p q levels d.1)

depth-fresh : (x : ℕ) (levels : List Level) → IsFresh x levels → depth x levels ≡ 0
depth-fresh x [] f = refl
depth-fresh x ((k, v) ∷ levels) f = ground (arith, depth-fresh x levels f.1)

depth-put :
    (x p q : ℕ) (levels : List Level)
    → IsDistinct levels
    → depth x (put levels p q) ≡ (if p == x then q else depth x levels)
unfolding put
depth-put x p q [] d = ground arith
depth-put x p q ((k, v) ∷ levels) d =
    ground (arith, depth-put x p q levels d.1, depth-fresh k levels d.0)

insert_sorted-IsFresh :
    (b : Bool) (x : ℕ) (l : Level) (levels : List Level)
    → l.0 ≢ x
    → IsFresh x levels
    → IsFresh x (insert_sorted b l levels)
unfolding insert_sorted
insert_sorted-IsFresh b x l [] h f = (h, tt)
insert_sorted-IsFresh b x l (m ∷ levels) h f =
    ground (arith, insert_sorted-IsFresh b x l levels h f.1)

insert_sorted-Precedes :
    (b : Bool) (x : ℕ) (l : Level) (levels : List Level)
    → Precedes b x l.0
    → All (λ m. Precedes b x m.0) levels
    → All (λ m. Precedes b x m.0) (insert_sorted b l levels)
unfolding insert_sorted
insert_sorted-Precedes b x l [] h f = (h, tt)
insert_sorted-Precedes b x l (m ∷ levels) h f =
    ground (arith, insert_sorted-Precedes b x l levels h f.1)

IsOrdered-front :
    (b : Bool) (l m : Level) (levels : List Level)
    → Precedes b l.0 m.0
    → IsOrdered b (m ∷ levels)
    → IsOrdered b (l ∷ m ∷ levels)
IsOrdered-front true l m levels h o = ((h, All-map _ _ levels (λ n e. omega arith) o.0), o)
IsOrdered-front false l m levels h o = ((h, All-map _ _ levels (λ n e. omega arith) o.0), o)

insert_sorted-IsOrdered :
    (b : Bool) (l : Level) (levels : List Level)
    → IsFresh l.0 levels
    → IsOrdered b levels
    → IsOrdered b (insert_sorted b l levels)
unfolding insert_sorted
insert_sorted-IsOrdered b l [] f o = (tt, tt)
insert_sorted-IsOrdered true l (m ∷ levels) f o = ground (
  arith,
  insert_sorted-IsOrdered true l levels f.1 o.1,
  insert_sorted-Precedes true m.0 l levels,
  IsOrdered-front true l m levels,
)
insert_sorted-IsOrdered false l (m ∷ levels) f o = ground (
  arith,
  insert_sorted-IsOrdered false l levels f.1 o.1,
  insert_sorted-Precedes false m.0 l levels,
  IsOrdered-front false l m levels,
)

insert_sorted-IsPositive :
    (b : Bool) (l : Level) (levels : List Level)
    → IsPositive l
    → All IsPositive levels
    → All IsPositive (insert_sorted b l levels)
unfolding insert_sorted
insert_sorted-IsPositive b l [] h f = (h, tt)
insert_sorted-IsPositive b l (m ∷ levels) h f =
    ground (arith, insert_sorted-IsPositive b l levels h f.1)

depth-insert_sorted :
    (b : Bool) (x : ℕ) (l : Level) (levels : List Level)
    → IsFresh l.0 levels
    → depth x (insert_sorted b l levels) ≡ depth x (l ∷ levels)
unfolding insert_sorted
depth-insert_sorted b x l [] f = refl
depth-insert_sorted b x l (m ∷ levels) f = ground (arith, depth-insert_sorted b x l levels f.1)

sort_levels-IsFresh :
    (b : Bool) (x : ℕ) (levels : List Level) → IsFresh x levels → IsFresh x (sort_levels b levels)
unfolding sort_levels
sort_levels-IsFresh b x [] f = tt
sort_levels-IsFresh b x (l ∷ levels) f =
    insert_sorted-IsFresh b x l (sort_levels b levels) f.0 (sort_levels-IsFresh b x levels f.1)

-- Sorting a list of distinct prices keeps the map that it stands for, and orders it strictly.
sort_levels_lem :
    (b : Bool) (levels : List Level)
    → IsDistinct levels
    → IsOrdered b (sort_levels b levels)
      × ((x : ℕ) → depth x (sort_levels b levels) ≡ depth x levels)
unfolding sort_levels
sort_levels_lem b [] d = (tt, λ x. refl)
sort_levels_lem b ((k, v) ∷ levels) d =
    let (o, same) = sort_levels_lem b levels d.1 in
    let f = sort_levels-IsFresh b k levels d.0 in
    (
      insert_sorted-IsOrdered b (k, v) (sort_levels b levels) f o,
      λ x. ground (arith, depth-insert_sorted b x (k, v) (sort_levels b levels) f, same x),
    )

sort_levels-IsPositive :
    (b : Bool) (levels : List Level) → All IsPositive levels → All IsPositive (sort_levels b levels)
unfolding sort_levels
sort_levels-IsPositive b [] h = tt
sort_levels-IsPositive b (l ∷ levels) h =
    insert_sorted-IsPositive b l (sort_levels b levels) h.0 (sort_levels-IsPositive b levels h.1)

IsOrdered-IsDistinct : (b : Bool) (levels : List Level) → IsOrdered b levels → IsDistinct levels
IsOrdered-IsDistinct b [] o = tt
IsOrdered-IsDistinct true (l ∷ levels) o =
    (All-map _ _ levels (λ m h. omega arith) o.0, IsOrdered-IsDistinct true levels o.1)
IsOrdered-IsDistinct false (l ∷ levels) o =
    (All-map _ _ levels (λ m h. omega arith) o.0, IsOrdered-IsDistinct false levels o.1)

-- On a well-formed side, `set_level` leaves a well-formed side, which shows the new quantity at the
-- price that was set (none, if the quantity is zero) and the old quantity at every other price.
pub set_level_lem :
    (descending : Bool) (levels : List Level) (price quantity : ℕ)
    → IsSide descending levels
    → IsSide descending (set_level levels price quantity descending)
      × ((x : ℕ)
          → depth x (set_level levels price quantity descending)
            ≡ (if price == x then quantity else depth x levels))
unfolding set_level
set_level_lem b levels p q side =
    let d = IsOrdered-IsDistinct b levels side.ordered in
    let (o, same) = sort_levels_lem b (put levels p q) (put-IsDistinct p q levels d) in
    rw (write_level-eq-put levels p q) (
      record {
        ordered = o;
        positive =
            sort_levels-IsPositive b (put levels p q) (put-IsPositive p q levels side.positive);
      },
      λ x. same x ∙ depth-put x p q levels d,
    )
