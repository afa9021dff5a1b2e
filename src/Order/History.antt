-- ===== src/Order/History.antt =====
-- The life of an order (order_repository.go): what any run of Create, Pay, Purchase,
-- CancelPendingOrder and the ticks of the two background workers keeps of it.
use my_go_market.Prelude.{ℕ, some, List, [], ◌∷◌, ◌≡◌, refl}
use my_go_market.Prelude.Int.{ℤ}
use my_go_market.Prelude.Text.{Text}
use my_go_market.Order.Store.{OrderModel, Shop, Draw, EntitlementEvent, row_at}
use my_go_market.Order.Payment.{create, pay, purchase, cancel_order}
use my_go_market.Order.Outbox.{
  EventDraw, process_entitlement_outbox_batch, cancel_expired_pending_orders,
}
use my_go_market.Order.Rows.{Evolves, IsKeyed, Preserves, Preserves-same, Preserves-trans}
use my_go_market.Order.States.{create-Preserves, cancel_order-Preserves}
use my_go_market.Order.PayStates.{pay-Preserves, purchase-Preserves}
use my_go_market.Order.WorkerStates.{
  process_entitlement_outbox_batch-Preserves, cancel_expired_pending_orders-Preserves,
}

-- A call of the repository, with what it reads from outside.
pub data Request : Type 0 where
  to_create : Draw → (user_id app_id : ℕ) → ℤ → (code key description : Text) → Request
  to_pay : Draw → (order_id user_id : ℕ) → (key : Text) → Request
  to_purchase : Draw → (user_id app_id : ℕ) → ℤ → (code key description : Text) → Request
  to_cancel : (now order_id user_id : ℕ) → Request
  to_process : (now limit : ℕ) → (EntitlementEvent → EventDraw) → Request
  to_expire : (now timeout limit : ℕ) → Request

module _ (uuid_string : ℕ → Text) where
  -- The state after a call, whatever it returned.
  unfoldable pub serve : Request → Shop → Shop
  serve (to_create draw u a amount code key description) s =
      (create draw u a amount code key description s).1
  serve (to_pay draw k u key) s = (pay uuid_string draw k u key s).1
  serve (to_purchase draw u a amount code key description) s =
      (purchase uuid_string draw u a amount code key description s).1
  serve (to_cancel now k u) s = (cancel_order now k u s).1
  serve (to_process now limit draw) s = process_entitlement_outbox_batch now limit draw s
  serve (to_expire now timeout limit) s = cancel_expired_pending_orders now timeout limit s

  unfoldable pub serve_all : List Request → Shop → Shop
  unfolding serve
  serve_all [] s = s
  serve_all (r ∷ rs) s = serve_all rs (serve r s)

  serve-Preserves : (r : Request) (s : Shop) → Preserves s (serve r s)
  unfolding serve
  serve-Preserves (to_create draw u a amount code key description) s =
      create-Preserves draw u a amount code key description s
  serve-Preserves (to_pay draw k u key) s = pay-Preserves uuid_string draw k u key s
  serve-Preserves (to_purchase draw u a amount code key description) s =
      purchase-Preserves uuid_string draw u a amount code key description s
  serve-Preserves (to_cancel now k u) s = cancel_order-Preserves now k u s
  serve-Preserves (to_process now limit draw) s =
      process_entitlement_outbox_batch-Preserves now limit draw s
  serve-Preserves (to_expire now timeout limit) s =
      cancel_expired_pending_orders-Preserves now timeout limit s

  serve_all-Preserves : (rs : List Request) (s : Shop) → Preserves s (serve_all rs s)
  unfolding serve_all
  serve_all-Preserves [] s = Preserves-same s s refl
  serve_all-Preserves (r ∷ rs) s =
      Preserves-trans s (serve r s) (serve_all rs (serve r s)) (serve-Preserves r s)
        (serve_all-Preserves rs (serve r s))

  -- From orders whose ids differ, after any calls of Create, Pay, Purchase and Cancel and any ticks of
  -- the entitlement worker and of the one that cancels expired orders, successful or not: the ids
  -- still differ, and an order that was there is still there, with the user, app, wallet, amount,
  -- currency and key that it was placed with; once it is not pending, its status, its payment and the
  -- time of it stay; and once it has a subscription, it keeps that one.
  pub orders_evolve :
      (rs : List Request) (s : Shop)
      → IsKeyed s
      → IsKeyed (serve_all rs s)
        × ((k : ℕ) (m : OrderModel)
            → row_at k s ≡ some m
            → (m' : OrderModel) × (row_at k (serve_all rs s) ≡ some m') × Evolves m m')
  orders_evolve rs s keyed = serve_all-Preserves rs s keyed
