-- ===== src/Payment/Tests.antt =====
-- services/commercial-service/internal/service: runs of the payment calls on small tables.
use microservice_metarang.Prelude.{
  ℕ, true, none, some, List, [], ◌∷◌, ◌≡◌, refl, arith, ◌==◌, if◌then◌else◌,
}
use microservice_metarang.Prelude.Int.{pos, ◌+ℤ◌, ◌-ℤ◌, cut}
use microservice_metarang.Wallet.Row.{psc, Wallet, column}
use microservice_metarang.Wallet.Repository.{add_balance}
use microservice_metarang.Wallet.Balance.{balance}
use microservice_metarang.Payment.Tables.{asset, Order, Bank, Verification, Env}
use microservice_metarang.Payment.Repository.{
  find_order, has_first_order, get_total_referred_amount, create_first_order, create_referral_order,
  create_order, update_order, create_deposit, update_deposit, create_payment,
}
use microservice_metarang.Payment.Referral.{
  commission_of, is_limit_reached, process_referral_commission,
}
use microservice_metarang.Payment.Service.{
  is_verified, is_requested, can_get_bonus, handle_callback, initiate_payment, credit_order,
  settle_order,
}
use microservice_metarang.Payment.Commission.{commission, added}
use microservice_metarang.Payment.Balances.{shared, handle_callback_credits}
use microservice_metarang.Payment.Once.{bonus_once}
use microservice_metarang.Payment.Bonus.{BankCall, initiate, callback, serve_all}
use microservice_metarang.Payment.Failure.{IsUnpaid, handle_callback-IsUnpaid}

abbrev wallet_of : ℕ → Wallet
wallet_of user = record {
  id = user;
  user_id = user;
  psc_amount = pos 100;
  irr_amount = pos 0;
  red_amount = pos 0;
  blue_amount = pos 0;
  yellow_amount = pos 0;
  satisfaction_amount = pos 0;
  effect_amount = pos 0;
}

abbrev receipt : Verification
receipt = record { status = pos 0; reference_id = pos 77; card_hash = "6037" }

-- User 7 was referred by user 9, who may get 1000 units in all.
abbrev env : Env
env = record {
  rate = λ p. some 30000;
  referrer = λ user. if user == 7 then some 9 else none;
  referral_limit = λ user. pos 1000;
  new_deposit_id = 5;
  request_payment = λ merchant id amount. some (record { status = pos 0; token = pos 12 });
  verify_payment = λ merchant token. some receipt;
}

abbrev order : Order
order = record { id = 1; user_id = 7; product = asset psc; amount = pos 40; status = pos 0 }

abbrev bank : Bank
bank = record {
  orders = order ∷ [];
  deposits = [];
  payments = [];
  first_orders = [];
  referral_orders = [];
  wallets = record { wallets = wallet_of 7 ∷ wallet_of 9 ∷ []; locked_assets = [] };
  next_order_id = 2;
}

found_1 : find_order 1 bank ≡ some order
unfolding find_order
found_1 = refl

verified : is_verified receipt ≡ true
unfolding is_verified
verified = refl

-- 40 and the bonus of 20.
handle_callback_credits_example :
    balance 7 psc (handle_callback env 1 (pos 0) (pos 12) bank).1.wallets ≡ some (pos 160)
unfolding balance column commission get_total_referred_amount is_limit_reached can_get_bonus
    has_first_order cut ◌+ℤ◌ ◌-ℤ◌
handle_callback_credits_example =
    handle_callback_credits env 1 (pos 12) bank order psc 30000 receipt found_1 refl refl refl
      verified 7 psc

referrer_gets_half :
    balance 9 psc (handle_callback env 1 (pos 0) (pos 12) bank).1.wallets ≡ some (pos 120)
unfolding balance column commission get_total_referred_amount is_limit_reached can_get_bonus
    has_first_order cut ◌+ℤ◌ ◌-ℤ◌
referrer_gets_half =
    handle_callback_credits env 1 (pos 12) bank order psc 30000 receipt found_1 refl refl refl
      verified 9 psc

-- A second order of 9 after the first one with its bonus: 160 + 9.
abbrev later_calls : List (Env × BankCall)
later_calls = (env, initiate 7 (asset psc) (pos 9)) ∷ (env, callback 3 (pos 0) (pos 12)) ∷ []

abbrev second_order : Order
second_order = record { id = 2; user_id = 7; product = asset psc; amount = pos 9; status = pos 0 }

abbrev after_first : Bank
after_first = serve_all later_calls (handle_callback env 1 (pos 0) (pos 12) bank).1

found_2 : find_order 2 after_first ≡ some second_order
unfolding find_order handle_callback initiate_payment create_order update_order create_deposit
    update_deposit create_payment credit_order settle_order is_verified is_requested
    process_referral_commission cut ◌+ℤ◌ ◌-ℤ◌ can_get_bonus has_first_order add_balance
    is_limit_reached get_total_referred_amount create_first_order commission_of
    create_referral_order
found_2 = refl

bonus_once_example :
    balance 7 psc (handle_callback env 2 (pos 0) (pos 12) after_first).1.wallets
    ≡ shared
        (commission env second_order after_first)
        7
        psc
        (added 7 psc (pos 9) 7 psc (balance 7 psc after_first.wallets))
bonus_once_example =
    bonus_once env 1 (pos 12) bank order psc 30000 receipt found_1 refl refl refl verified
      later_calls env 2 (pos 12) second_order 30000 receipt found_2 refl refl refl refl verified 7
      psc

handle_callback-IsUnpaid_example : IsUnpaid 2 bank (handle_callback env 1 (pos 3) (pos 12) bank)
handle_callback-IsUnpaid_example =
    handle_callback-IsUnpaid env 2 1 (pos 3) (pos 12) bank order found_1 refl
      (λ e. ground (arith, e))
