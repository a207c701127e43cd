-- ===== src/Payment/Repository.antt =====
-- services/commercial-service/internal/repository: the statements on orders, transactions, payments,
-- first orders and referrals. Each answers; a failing database is not modelled.
use microservice_metarang.Prelude.{
  ℕ, suc, Bool, ◌&&◌, Option, List, [], ◌∷◌, ◌++◌, ◌==◌, if◌then◌else◌, ltb,
}
use microservice_metarang.Prelude.Int.{ℤ, pos, ◌+ℤ◌}
use microservice_metarang.Prelude.Rows.{first, change, count}
use microservice_metarang.Prelude.Action.{Result, ok, err}
use microservice_metarang.Wallet.Repository.{Call, Error as WalletError}
use microservice_metarang.Payment.Tables.{
  Product, same_product, Order, Deposit, Payment, FirstOrder, ReferralOrder, Bank, Refusal,
  wallet_failed, Step,
}

-- The new order has the id `next_order_id`.
unfoldable pub create_order : Order → Bank → Bank
create_order o m = record m { orders = m.orders ++ o ∷ []; next_order_id = suc m.next_order_id }

unfoldable pub find_order : ℕ → Bank → Option Order
find_order id m = first (λ o. o.id == id) m.orders

-- Only the status is written.
unfoldable pub update_order : ℕ → ℤ → Bank → Bank
update_order id status m = record m {
  orders = change (λ o. o.id == id) (λ o. record o { status = status }) m.orders;
}

unfoldable pub create_deposit : Deposit → Bank → Bank
create_deposit d m = record m { deposits = m.deposits ++ d ∷ [] }

unfoldable pub update_deposit : Deposit → Bank → Bank
update_deposit d m = record m { deposits = change (λ e. e.id == d.id) (λ e. d) m.deposits }

unfoldable pub create_payment : Payment → Bank → Bank
create_payment p m = record m { payments = m.payments ++ p ∷ [] }

abbrev pub is_first : ℕ → Product → FirstOrder → Bool
is_first user p f = f.user_id == user && same_product f.product p

unfoldable pub has_first_order : ℕ → Product → Bank → Bool
has_first_order user p m = ltb 0 (count (is_first user p) m.first_orders)

unfoldable pub create_first_order : FirstOrder → Bank → Bank
create_first_order f m = record m { first_orders = m.first_orders ++ f ∷ [] }

-- The sum of the amounts that a referrer has got.
abbrev pub sum_for : ℕ → List ReferralOrder → ℤ
sum_for user [] = pos 0
sum_for user (r ∷ rs) =
    let rest = sum_for user rs in if r.user_id == user then r.amount +ℤ rest else rest

unfoldable pub get_total_referred_amount : ℕ → Bank → ℤ
get_total_referred_amount user m = sum_for user m.referral_orders

unfoldable pub create_referral_order : ReferralOrder → Bank → Bank
create_referral_order r m = record m { referral_orders = m.referral_orders ++ r ∷ [] }

abbrev wrap : {A : Type 0} → Result WalletError A → Result Refusal A
wrap (ok a) = ok a
wrap (err e) = err wallet_failed

-- A call of the wallet repository whose error is passed on.
abbrev pub wallet : {A : Type 0} → Call A → Step A
wallet c m = let (r, db) = c m.wallets in (wrap r, record m { wallets = db })
