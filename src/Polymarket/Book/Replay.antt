-- ===== src/Polymarket/Book/Replay.antt =====
-- src/polymarket/book.rs: snapshots and deltas against the map that each side stands for.
use jev_trader.Prelude.{
  ℕ, ◌<◌, ◌≡◌, refl, ◌≢◌, ◌⊎◌, inl, inr, Bool, true, false, List, [], ◌∷◌, arith, ◌==◌,
  if◌then◌else◌, All, All-map, ap, ◌∙◌, sym,
}
use jev_trader.Polymarket.Book.{
  Level, OrderBook, BookSide, bid, ask, set_level, normalize_from, normalize_levels, apply_snapshot,
  apply_delta,
}
use jev_trader.Polymarket.Book.Sides.{depth, Precedes, IsSide, set_level_lem}

pub depth_before :
    (b : Bool) (x : ℕ) (levels : List Level)
    → All (λ m. Precedes b x m.0) levels
    → depth x levels ≡ 0
depth_before b x [] h = refl
depth_before true x (l ∷ levels) h = ground (arith, depth_before true x levels h.1)
depth_before false x (l ∷ levels) h = ground (arith, depth_before false x levels h.1)

Precedes-cases : (b : Bool) (x y : ℕ) → (x ≡ y) ⊎ (Precedes b x y ⊎ Precedes b y x)
Precedes-cases true x y = grind arith
Precedes-cases false x y = grind arith

-- The head of a well-formed side shows its own quantity, and the tail shows nothing at its price.
depth_head :
    (b : Bool) (l : Level) (levels : List Level)
    → IsSide b (l ∷ levels)
    → (depth l.0 (l ∷ levels) ≡ l.1) × (0 < l.1) × (depth l.0 levels ≡ 0)
depth_head b l levels s = (ground arith, s.positive.0, depth_before b l.0 levels s.ordered.0)

IsSide-tail : (b : Bool) (l : Level) (levels : List Level) → IsSide b (l ∷ levels) → IsSide b levels
IsSide-tail b l levels s = record { ordered = s.ordered.1; positive = s.positive.1 }

-- A price in front of the head of a side is not on the side.
depth_in_front :
    (b : Bool) (x : ℕ) (l : Level) (levels : List Level)
    → IsSide b (l ∷ levels)
    → Precedes b x l.0
    → depth x (l ∷ levels) ≡ 0
depth_in_front true x l levels s h =
    depth_before true x (l ∷ levels) (h, All-map _ _ levels (λ m k. omega arith) s.ordered.0)
depth_in_front false x l levels s h =
    depth_before false x (l ∷ levels) (h, All-map _ _ levels (λ m k. omega arith) s.ordered.0)

-- A well-formed side is determined by the quantities that it shows.
pub IsSide-ext :
    (b : Bool) (xs ys : List Level)
    → IsSide b xs
    → IsSide b ys
    → ((p : ℕ) → depth p xs ≡ depth p ys)
    → xs ≡ ys
IsSide-ext b [] [] s t same = refl
IsSide-ext b [] (l ∷ ys) s t same =
    let (a, p, z) = depth_head b l ys t in absurd (omega (arith, same l.0))
IsSide-ext b (l ∷ xs) [] s t same =
    let (a, p, z) = depth_head b l xs s in absurd (omega (arith, same l.0))
IsSide-ext b ((k, v) ∷ xs) ((j, w) ∷ ys) s t same =
    let (a, p, z) = depth_head b (k, v) xs s in
    let (a', p', z') = depth_head b (j, w) ys t in
    elim (Precedes-cases b k j) [
      | inl e ↦
          let same' : (x : ℕ) → depth x xs ≡ depth x ys =
            λ x. ground (arith, same x, z, rw (← e) at z') in
          let tails =
            IsSide-ext b xs ys (IsSide-tail b (k, v) xs s) (IsSide-tail b (j, w) ys t) same' in
          ground (arith, tails, same k)
      | inr (inl h) ↦ absurd (omega (arith, same k, depth_in_front b k (j, w) ys t h))
      | inr (inr h) ↦ absurd (omega (arith, same j, depth_in_front b j (k, v) xs s h))
    ]

-- The quantity last given for a price, 0 if none is, on top of the quantity `q` known before.
abbrev pub last_quantity : ℕ → ℕ → List Level → ℕ
last_quantity p q [] = q
last_quantity p q ((k, v) ∷ levels) = last_quantity p (if k == p then v else q) levels

normalize_from_lem :
    (b : Bool) (normalized levels : List Level)
    → IsSide b normalized
    → IsSide b (normalize_from b normalized levels)
      × ((p : ℕ)
          → depth p (normalize_from b normalized levels)
            ≡ last_quantity p (depth p normalized) levels)
unfolding normalize_from
normalize_from_lem b normalized [] s = (s, λ p. refl)
normalize_from_lem b normalized ((k, v) ∷ levels) s =
    let (s', d) = set_level_lem b normalized k v s in
    let (s'', d') = normalize_from_lem b (set_level normalized k v b) levels s' in
    (s'', λ p. d' p ∙ ap (λ q. last_quantity p q levels) (d p))

-- The levels of a snapshot, in whatever order and with whatever repeats, become a well-formed side
-- that shows at each price the quantity given last for it.
pub normalize_levels_lem :
    (levels : List Level) (descending : Bool)
    → IsSide descending (normalize_levels levels descending)
      × ((p : ℕ) → depth p (normalize_levels levels descending) ≡ last_quantity p 0 levels)
unfolding normalize_levels
normalize_levels_lem levels b =
    normalize_from_lem b [] levels (record { ordered = tt; positive = tt })

-- Two lists that give the same last quantities become the same side.
pub normalize_levels-ext :
    (xs ys : List Level) (descending : Bool)
    → ((p : ℕ) → last_quantity p 0 xs ≡ last_quantity p 0 ys)
    → normalize_levels xs descending ≡ normalize_levels ys descending
normalize_levels-ext xs ys b same =
    let (s, d) = normalize_levels_lem xs b in
    let (t, e) = normalize_levels_lem ys b in IsSide-ext b _ _ s t (λ p. d p ∙ same p ∙ sym (e p))

-- The invariant that the source states of a book.
pub record IsValid (book : OrderBook) : Type 0 where
  pub bids_side : IsSide true book.bids
  pub asks_side : IsSide false book.asks

-- The quantity that a book shows on a side at a price.
abbrev pub shows : OrderBook → BookSide → ℕ → ℕ
shows book bid p = depth p book.bids
shows book ask p = depth p book.asks

abbrev pub same_side : BookSide → BookSide → Bool
same_side bid bid = true
same_side ask ask = true
same_side _ _ = false

-- A delta keeps the invariant, sets the quantity at its side and price, and changes neither the
-- other quantities nor the stale flag.
pub apply_delta_lem :
    (book : OrderBook) (side : BookSide) (price quantity : ℕ)
    → IsValid book
    → IsValid (apply_delta book side price quantity)
      × ((apply_delta book side price quantity).stale ≡ book.stale)
      × ((s : BookSide) (p : ℕ)
          → shows (apply_delta book side price quantity) s p ≡ (
              if same_side side s
              then if price == p then quantity else shows book s p
              else shows book s p))
unfolding apply_delta
apply_delta_lem book bid price quantity v =
    let (s, d) = set_level_lem true book.bids price quantity v.bids_side in
    (record { bids_side = s; asks_side = v.asks_side }, refl, elim [ bid ↦ d | ask ↦ λ p. refl ])
apply_delta_lem book ask price quantity v =
    let (s, d) = set_level_lem false book.asks price quantity v.asks_side in
    (record { bids_side = v.bids_side; asks_side = s }, refl, elim [ bid ↦ λ p. refl | ask ↦ d ])

-- A snapshot makes any book, valid or not, valid and fresh, and forgets what it showed before.
pub apply_snapshot_lem :
    (book : OrderBook) (bids asks : List Level)
    → let after = apply_snapshot book bids asks in
      IsValid after
      × (after.stale ≡ false)
      × ((p : ℕ) → shows after bid p ≡ last_quantity p 0 bids)
      × ((p : ℕ) → shows after ask p ≡ last_quantity p 0 asks)
unfolding apply_snapshot
apply_snapshot_lem book bids asks =
    let (s, d) = normalize_levels_lem bids true in
    let (t, e) = normalize_levels_lem asks false in
    (record { bids_side = s; asks_side = t }, refl, d, e)

-- Two valid books that show the same quantities, and are both stale or both fresh, are equal.
pub IsValid-ext :
    (a b : OrderBook)
    → IsValid a
    → IsValid b
    → a.stale ≡ b.stale
    → ((s : BookSide) (p : ℕ) → shows a s p ≡ shows b s p)
    → a ≡ b
IsValid-ext a b v w e same =
    let p = IsSide-ext true a.bids b.bids v.bids_side w.bids_side (same bid) in
    let q = IsSide-ext false a.asks b.asks v.asks_side w.asks_side (same ask) in
    λ i. record { bids = p i; asks = q i; stale = e i }

abbrev set_quantity : BookSide → ℕ → ℕ → BookSide → ℕ → ℕ → ℕ
set_quantity side price quantity s p n =
    if same_side side s then if price == p then quantity else n else n

set_quantity_comm :
    (s t r : BookSide) (p q u v x n : ℕ)
    → (same_side s t ≡ false) ⊎ (p ≢ q)
    → set_quantity t q v r x (set_quantity s p u r x n)
      ≡ set_quantity s p u r x (set_quantity t q v r x n)
set_quantity_comm bid bid r p q u v x n h = ground arith
set_quantity_comm _ _ r p q u v x n h = ground arith

-- Deltas at different prices of a side, or on different sides, commute.
pub apply_delta_comm :
    (book : OrderBook) (s t : BookSide) (p q u v : ℕ)
    → IsValid book
    → (same_side s t ≡ false) ⊎ (p ≢ q)
    → apply_delta (apply_delta book s p u) t q v ≡ apply_delta (apply_delta book t q v) s p u
apply_delta_comm book s t p q u v valid apart =
    let (a, sa, da) = apply_delta_lem book s p u valid in
    let (b, sb, db) = apply_delta_lem (apply_delta book s p u) t q v a in
    let (c, sc, dc) = apply_delta_lem book t q v valid in
    let (d, sd, dd) = apply_delta_lem (apply_delta book t q v) s p u c in
    IsValid-ext _ _ b d (sb ∙ sa ∙ sym (sd ∙ sc)) (λ r x.
      db r x
      ∙ ap (set_quantity t q v r x) (da r x)
      ∙ set_quantity_comm s t r p q u v x (shows book r x) apart
      ∙ sym (dd r x ∙ ap (set_quantity s p u r x) (dc r x)))
