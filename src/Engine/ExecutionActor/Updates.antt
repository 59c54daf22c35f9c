-- ===== src/Engine/ExecutionActor/Updates.antt =====
-- src/engine/execution_actor.rs: market updates and cancellations keep the invariant of the lanes.
use jev_trader.Prelude.{ℕ, ◌≡◌, refl, arith}
use jev_trader.Prelude.F64.{F64}
use jev_trader.Execution.Paper
use jev_trader.Execution.Paper.{
  validate, RestingOrder, TopOfBookUpdate, PaperBook, PaperOrder, PaperFill, PaperError, place,
  new_order, touch_capacity, apply_update, match_update, Resting,
}
use jev_trader.Execution.Paper.Matching.{IsValid}
use jev_trader.Execution.Paper.Update.{apply_update_lem}
use jev_trader.Execution.Paper.Placement.{cancel_lem, Shrinks, match_update-Shrinks}
use jev_trader.Engine.ExecutionActor.{
  Variant, control, quant_v1, ExecutionActor, on_book_update, cancel,
}
use jev_trader.Engine.ExecutionActor.Lanes.{IsLane, IsSound, resting_of, other}

Shrinks-IsLane :
    (next limit : ℕ) (a b : Resting)
    → IsValid b
    → Shrinks a b
    → IsLane next limit a
    → IsLane next limit b
Shrinks-IsLane next limit a b v s l = record {
  valid = v;
  drawn = λ x h. l.drawn x (s.keys x h);
  bounded = omega (arith, s.count, l.bounded);
}

Paper_cancel-Shrinks :
    (resting : Resting) (id : ℕ)
    → IsValid resting
    → IsValid (Paper.cancel resting id).1 × Shrinks resting (Paper.cancel resting id).1
Paper_cancel-Shrinks resting id v =
    let (v', found, left, count) = cancel_lem resting id v in
    (v', record { keys = λ x h. ground (arith, left x); count = count })

module _ (f : F64) where
  apply_update-Shrinks :
      (book : PaperBook f) (update : TopOfBookUpdate)
      → IsValid book.resting
      → Shrinks book.resting (apply_update f book update).1.resting
  unfolding apply_update
  apply_update-Shrinks book update v =
      match_update-Shrinks book.resting update (touch_capacity f book update.marketable_size) v

  -- A market update keeps a sound actor sound, whatever it fills in the two books.
  pub on_book_update-IsSound :
      (actor : ExecutionActor f) (update : TopOfBookUpdate)
      → IsSound f actor
      → IsSound f (on_book_update f actor update).1
  unfolding on_book_update
  on_book_update-IsSound actor update s =
      let a = actor.control_book in
      let b = actor.quant_book in
      let va = (apply_update_lem f a update).2 (s.lanes control).valid in
      let vb = (apply_update_lem f b update).2 (s.lanes quant_v1).valid in
      let sa = apply_update-Shrinks a update (s.lanes control).valid in
      let sb = apply_update-Shrinks b update (s.lanes quant_v1).valid in
      record {
        lanes = elim [
          | control ↦ Shrinks-IsLane _ _ _ _ va sa (s.lanes control)
          | quant_v1 ↦ Shrinks-IsLane _ _ _ _ vb sb (s.lanes quant_v1)
        ];
        apart = λ x h k. s.apart x (sa.keys x h) (sb.keys x k);
      }

  -- A cancellation keeps a sound actor sound and leaves the other variant's orders as they are.
  pub cancel-IsSound :
      (actor : ExecutionActor f) (variant : Variant) (id : ℕ)
      → IsSound f actor
      → IsSound f (cancel f actor variant id).1
        × (resting_of f (cancel f actor variant id).1 (other variant)
            ≡ resting_of f actor (other variant))
  unfolding cancel
  cancel-IsSound actor control id s =
      let (v, shrinks) =
        Paper_cancel-Shrinks actor.control_book.resting id (s.lanes control).valid in
      (
        record {
          lanes = elim [
            | control ↦ Shrinks-IsLane _ _ _ _ v shrinks (s.lanes control)
            | quant_v1 ↦ s.lanes quant_v1
          ];
          apart = λ x h k. s.apart x (shrinks.keys x h) k;
        },
        refl,
      )
  cancel-IsSound actor quant_v1 id s =
      let (v, shrinks) =
        Paper_cancel-Shrinks actor.quant_book.resting id (s.lanes quant_v1).valid in
      (
        record {
          lanes = elim [
            | control ↦ s.lanes control
            | quant_v1 ↦ Shrinks-IsLane _ _ _ _ v shrinks (s.lanes quant_v1)
          ];
          apart = λ x h k. s.apart x h (shrinks.keys x k);
        },
        refl,
      )
