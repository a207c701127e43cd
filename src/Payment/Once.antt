-- ===== src/Payment/Once.antt =====
-- services/commercial-service/internal/service/payment_service.go: no second bonus for an asset.
use microservice_metarang.Prelude.{
  ℕ, true, false, some, List, [], ◌∷◌, ◌≡◌, refl, ◌∙◌, inl, inr, arith,
}
use microservice_metarang.Prelude.Int.{ℤ, pos}
use microservice_metarang.Prelude.Rows.{count-append}
use microservice_metarang.Wallet.Row.{Asset}
use microservice_metarang.Wallet.Balance.{balance}
use microservice_metarang.Payment.Tables.{Product, asset, Order, Bank, Verification, Env}
use microservice_metarang.Payment.Repository.{find_order, has_first_order, is_first}
use microservice_metarang.Payment.Service.{
  is_verified, get_merchant_id, can_get_bonus, handle_callback,
}
use microservice_metarang.Payment.Commission.{added, commission}
use microservice_metarang.Payment.Credits.{handle_callback-settled}
use microservice_metarang.Payment.Balances.{shared, handle_callback_credits, settled-bonus}
use microservice_metarang.Payment.Bonus.{Adds, BankCall, serve, serve_all, serve-Adds}

Adds-keeps :
    (user : ℕ) (p : Product) (m n : Bank)
    → can_get_bonus user p m ≡ false
    → Adds m n
    → can_get_bonus user p n ≡ false
unfolding can_get_bonus has_first_order
Adds-keeps user p m n h (inl e) = rw e h
Adds-keeps user p m n h (inr (o, t, e)) =
    rw (e, count-append (is_first user p) m.first_orders _) (ground (arith, h))

serve_all-keeps :
    (user : ℕ) (p : Product) (cs : List (Env × BankCall)) (m : Bank)
    → can_get_bonus user p m ≡ false
    → can_get_bonus user p (serve_all cs m) ≡ false
serve_all-keeps user p [] m h = h
serve_all-keeps user p ((env, c) ∷ cs) m h =
    serve_all-keeps user p cs (serve env c m)
      (Adds-keeps user p m (serve env c m) h (serve-Adds env c m))

-- After a callback whose payment the gateway verifies, and any payments and callbacks, a verified
-- callback for an order of the same user and asset raises his balance by the amount of that order and
-- no bonus, and the PSC balance of the referrer by the commission, if there is one. No other balance
-- changes.
pub bonus_once :
    (env : Env) (id : ℕ) (token : ℤ) (m : Bank) (o : Order) (a : Asset) (rate : ℕ)
    (v : Verification)
    → find_order id m ≡ some o
    → o.product ≡ asset a
    → env.rate o.product ≡ some rate
    → env.verify_payment (get_merchant_id o.product) token ≡ some v
    → is_verified v ≡ true
    → (cs : List (Env × BankCall)) (later : Env) (new_id : ℕ) (new_token : ℤ) (q : Order)
      (new_rate : ℕ) (w : Verification)
    → let n = serve_all cs (handle_callback env id (pos 0) token m).1 in
      find_order new_id n ≡ some q
      → q.user_id ≡ o.user_id
      → q.product ≡ o.product
      → later.rate q.product ≡ some new_rate
      → later.verify_payment (get_merchant_id q.product) new_token ≡ some w
      → is_verified w ≡ true
      → (user : ℕ) (b : Asset)
      → balance user b (handle_callback later new_id (pos 0) new_token n).1.wallets
        ≡ shared
            (commission later q n)
            user
            b
            (added q.user_id a q.amount user b (balance user b n.wallets))
bonus_once env id token m o a rate v f e r g t cs later new_id new_token q new_rate w f2 u p r2 g2
      t2 user b =
    let n1 = (handle_callback env id (pos 0) token m).1 in
    let spent : can_get_bonus o.user_id o.product n1 ≡ false =
      rw (handle_callback-settled env id token m o a rate v f e r g t)
        (settled-bonus env o a rate v m) in
    let kept : can_get_bonus q.user_id q.product (serve_all cs n1) ≡ false =
      rw (u, p) (serve_all-keeps o.user_id o.product cs n1 spent) in
    handle_callback_credits later new_id new_token (serve_all cs n1) q a new_rate w f2 (p ∙ e) r2 g2
      t2 user b
    ∙ rw kept refl
