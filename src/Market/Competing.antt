-- ===== src/Market/Competing.antt =====
-- The other offers on a feature that is sold.
use microservice_metarang.Prelude.{
  ℕ, Bool, true, false, not, none, some, List, [], ◌∷◌, ◌≡◌, ◌≢◌, refl, sym, ◌∙◌, ◌==◌, ◌&&◌,
  if◌then◌else◌, arith, Option-cases, Bool-cases, inl, inr,
}
use microservice_metarang.Prelude.Action.{ok}
use microservice_metarang.Market.Tables.{Feature, BuyRequest, Market, Env}
use microservice_metarang.Market.Repository.{
  first, select, change, is_live, is_some, find_request, find_feature, get_locked, delete_locked,
  soft_delete_request, get_all_for_feature, update_request_status, set_deleted,
  complete_sell_requests,
}
use microservice_metarang.Market.Requests.{
  credit, refund_buy_request, refund_others, close_requests, accept_buy_request, hand_over,
}
use microservice_metarang.Market.Acceptance.{settled, accept_found}
use microservice_metarang.Market.Refunds.{first-remove_lock}
use microservice_metarang.Market.Closing.{
  handed_over, hand_over_rows, hand_over_features, settled_keeps, first_has_id,
}

-- The request is live and its funds are locked, so that it can be refunded.
unfoldable pub is_backed : ℕ → Market → Bool
is_backed id m = is_some (find_request id m) && is_some (get_locked id m)

first-soft_delete :
    (j k : ℕ) (rs : List BuyRequest)
    → first (is_live j) (change (λ r. r.id == k) set_deleted rs)
      ≡ (if j == k then none else first (is_live j) rs)
first-soft_delete j k [] = ground arith
first-soft_delete j k (r ∷ rs) = ground (arith, first-soft_delete j k rs)

find_request-refund :
    (env : Env) (j k : ℕ) (m : Market)
    → find_request j (refund_buy_request env k m)
      ≡ (if j == k && is_backed k m then none else find_request j m)
unfolding refund_buy_request find_request soft_delete_request delete_locked credit is_backed
find_request-refund env j k m = ground (arith, first-soft_delete j k m.requests)

get_locked-refund :
    (env : Env) (j k : ℕ) (m : Market)
    → get_locked j (refund_buy_request env k m)
      ≡ (if j == k && is_backed k m then none else get_locked j m)
unfolding refund_buy_request get_locked soft_delete_request delete_locked credit is_backed
get_locked-refund env j k m = ground (arith, first-remove_lock k j m.locked_wallets)

features-refund :
    (env : Env) (k : ℕ) (m : Market) → (refund_buy_request env k m).features ≡ m.features
unfolding refund_buy_request soft_delete_request delete_locked credit
features-refund env k m = ground arith

-- The id is among those of the list, and is not the one that is left out.
abbrev wanted : ℕ → ℕ → List BuyRequest → Bool
wanted id j [] = false
wanted id j (r ∷ rs) =
    if r.id == id then wanted id j rs else (if r.id == j then true else wanted id j rs)

is_backed-refund :
    (env : Env) (j k : ℕ) (m : Market)
    → is_backed j (refund_buy_request env k m) ≡ (if j == k then false else is_backed j m)
unfolding is_backed
is_backed-refund env j k m =
    rw (find_request-refund, get_locked-refund) (unfold is_backed in ground arith)

refund_others_closes :
    (env : Env) (id j : ℕ) (rs : List BuyRequest) (m : Market)
    → find_request j (refund_others env id rs m)
      ≡ (if wanted id j rs && is_backed j m then none else find_request j m)
unfolding refund_others
refund_others_closes env id j [] m = refl
refund_others_closes env id j (r ∷ rs) m = elim (Bool-cases (r.id == id)) [
  | inl e ↦ rw e (refund_others_closes env id j rs m)
  | inr e ↦ rw e (
      ground (
        arith,
        refund_others_closes env id j rs (refund_buy_request env r.id m),
        find_request-refund env j r.id m,
        is_backed-refund env j r.id m,
      ))
]

features-refund_others :
    (env : Env) (id : ℕ) (rs : List BuyRequest) (m : Market)
    → (refund_others env id rs m).features ≡ m.features
unfolding refund_others
features-refund_others env id [] m = refl
features-refund_others env id (r ∷ rs) m =
    features-refund_others env id rs (if r.id == id then m else refund_buy_request env r.id m)
    ∙ ground (arith, features-refund env r.id m)

-- A live request of the feature is among those that are read for the refunds.
wanted-select :
    (id feature j : ℕ) (rs : List BuyRequest) {q : BuyRequest}
    → first (is_live j) rs ≡ some q
    → q.feature_id ≡ feature
    → j ≢ id
    → wanted id j (select (λ r. r.feature_id == feature && not r.is_deleted) rs) ≡ true
wanted-select id feature j [] h e n = cc
wanted-select id feature j (r ∷ rs) {q} h e n =
    ground (arith, wanted-select id feature j rs {q = q})

abbrev accepted : BuyRequest → BuyRequest
accepted r = record r { status = 1 }

first-accepted :
    (j k : ℕ) (rs : List BuyRequest)
    → first (is_live j) (change (λ r. r.id == k) set_deleted (change (λ r. r.id == k) accepted rs))
      ≡ (if j == k then none else first (is_live j) rs)
first-accepted j k [] = ground arith
first-accepted j k (r ∷ rs) = ground (arith, first-accepted j k rs)

pub live_has_id :
    (j : ℕ) (rs : List BuyRequest) {r : BuyRequest} → first (is_live j) rs ≡ some r → r.id ≡ j
live_has_id j [] h = cc
live_has_id j (q ∷ rs) {r} h = ground (arith, live_has_id j rs {r = r})

-- The market once the accepted request and its lock are closed.
unfoldable pub settled_request : BuyRequest → Market → Market
settled_request r m = delete_locked r.id (soft_delete_request r.id (update_request_status r.id 1 m))

find_request-settled :
    (j : ℕ) (r : BuyRequest) (m : Market)
    → find_request j (settled_request r m) ≡ (if j == r.id then none else find_request j m)
unfolding settled_request find_request delete_locked soft_delete_request update_request_status
find_request-settled j r m = first-accepted j r.id m.requests

get_locked-settled :
    (j : ℕ) (r : BuyRequest) (m : Market)
    → get_locked j (settled_request r m) ≡ (if j == r.id then none else get_locked j m)
unfolding settled_request get_locked delete_locked soft_delete_request update_request_status
get_locked-settled j r m = first-remove_lock r.id j m.locked_wallets

close_requests_features :
    (env : Env) (r : BuyRequest) (m : Market) → (close_requests env r m).features ≡ m.features
unfolding close_requests complete_sell_requests delete_locked soft_delete_request
    update_request_status
close_requests_features env r m = features-refund_others env r.id _ _

find_request-close :
    (env : Env) (r : BuyRequest) (m : Market) (j : ℕ)
    → let m1 = settled_request r m in
      find_request j (close_requests env r m) ≡ (
        if wanted r.id j (get_all_for_feature r.feature_id m1) && is_backed j m1
        then none
        else find_request j m1)
unfolding close_requests complete_sell_requests settled_request find_request
find_request-close env r m j =
    unfold find_request in
    refund_others_closes env r.id j (get_all_for_feature r.feature_id (settled_request r m))
      (settled_request r m)

-- What is known of a request that is live after the refunds.
still_live :
    (id feature j : ℕ) (m : Market) {q : BuyRequest}
    → (if wanted id j (get_all_for_feature feature m) && is_backed j m
        then none
        else find_request j m)
      ≡ some q
    → (find_request j m ≡ some q) × (q.feature_id ≡ feature → j ≢ id → get_locked j m ≡ none)
unfolding get_all_for_feature find_request is_backed
still_live id feature j m {q} h =
    (ground arith, λ e n. ground (arith, wanted-select id feature j m.requests {q = q}))

-- A request that is still live is not the accepted one, and if it is on the same feature then it
-- has no lock.
close_requests_open :
    (env : Env) (r : BuyRequest) (m : Market) (j : ℕ) (q : BuyRequest)
    → find_request j (close_requests env r m) ≡ some q
    → (j ≢ r.id) × (q.feature_id ≡ r.feature_id → get_locked j m ≡ none)
close_requests_open env r m j q h =
    let (live, unlocked) =
      still_live r.id r.feature_id j (settled_request r m) {q = q}
        (sym (find_request-close env r m j) ∙ h) in
    let other : j ≢ r.id = λ e. ground (arith, find_request-settled j r m) in
    (other, λ e. ground (arith, unlocked e other, get_locked-settled j r m))

-- The request that was accepted is gone.
close_requests_gone :
    (env : Env) (r : BuyRequest) (m : Market) → find_request r.id (close_requests env r m) ≡ none
close_requests_gone env r m = elim (Option-cases (find_request r.id (close_requests env r m))) [
  | inl n ↦ n
  | inr (q, s) ↦ absurd ((close_requests_open env r m r.id q s).0 refl)
]

find_feature_same :
    (j : ℕ) (m m' : Market) → m.features ≡ m'.features → find_feature j m ≡ find_feature j m'
unfolding find_feature
find_feature_same j m m' e = rw e refl

get_locked_same :
    (j : ℕ) (m m' : Market)
    → m.locked_wallets ≡ m'.locked_wallets
    → get_locked j m ≡ get_locked j m'
unfolding get_locked
get_locked_same j m m' e = rw e refl

pub request_has_id : (id : ℕ) (m : Market) {r : BuyRequest} → find_request id m ≡ some r → r.id ≡ id
unfolding find_request
request_has_id id m {r} h = live_has_id id m.requests {r = r} h

feature_has_id : (id : ℕ) (m : Market) {f : Feature} → find_feature id m ≡ some f → f.id ≡ id
unfolding find_feature
feature_has_id id m {f} h = first_has_id id m.features {g = f} h

-- The market just before the requests are closed.
before_close : Env → BuyRequest → Feature → ℕ → Market → Market
before_close env r f seller m = hand_over env f r.buyer_id seller (settled env r seller m)

before_close_features :
    (env : Env) (r : BuyRequest) (f : Feature) (seller j : ℕ) (m : Market)
    → find_feature r.feature_id m ≡ some f
    → find_feature j (before_close env r f seller m)
      ≡ (if j == r.feature_id then some (handed_over env r.buyer_id f) else find_feature j m)
unfolding before_close
before_close_features env r f seller j m ff =
    let paid = settled env r seller m in
    let fid = feature_has_id r.feature_id m {f = f} ff in
    let same = (settled_keeps env r seller m).0 in
    ground (
      arith,
      fid,
      hand_over_features env f r.buyer_id seller j paid,
      find_feature_same f.id paid m same,
      find_feature_same j paid m same,
    )

before_close_locked :
    (env : Env) (r : BuyRequest) (f : Feature) (seller j : ℕ) (m : Market)
    → get_locked j (before_close env r f seller m) ≡ get_locked j m
unfolding before_close
before_close_locked env r f seller j m = get_locked_same j _ m (
    (hand_over_rows env f r.buyer_id seller (settled env r seller m)).2
    ∙ (settled_keeps env r seller m).2)

-- If AcceptBuyRequest succeeds on a live request r, whose feature is f, then the caller is the
-- seller of the request and it was pending. The feature belongs to the buyer, is sold and not
-- priced, and no other feature has changed; the request is gone.
pub accept_buy_request_closes :
    (env : Env) (id seller j : ℕ) (r x : BuyRequest) (f : Feature) (m : Market)
    → find_request id m ≡ some r
    → find_feature r.feature_id m ≡ some f
    → (accept_buy_request env id seller m).0 ≡ ok x
    → let m' = (accept_buy_request env id seller m).1 in
      (r.seller_id ≡ seller)
      × (r.status ≡ 0)
      × (find_feature j m'
          ≡ (if j == r.feature_id then some (handed_over env r.buyer_id f) else find_feature j m))
      × (find_request id m' ≡ none)
unfolding before_close
accept_buy_request_closes env id seller j r x f m fr ff h =
    let (owner, pending, _, _, _, e) = accept_found env id seller r x f m fr ff h in
    let m0 = before_close env r f seller m in
    let rid : r.id ≡ id = request_has_id id m {r = r} fr in
    (
      owner,
      pending,
      rw e (
          find_feature_same j _ m0 (close_requests_features env r m0)
          ∙ before_close_features env r f seller j m ff),
      rw (e, ← rid) (close_requests_gone env r m0),
    )

-- If AcceptBuyRequest succeeds on a live request r, then every request on the same feature that is
-- still live afterwards is one that had no funds locked: each offer with locked funds is closed.
pub accept_buy_request_settles_others :
    (env : Env) (id seller j : ℕ) (r x q : BuyRequest) (f : Feature) (m : Market)
    → find_request id m ≡ some r
    → find_feature r.feature_id m ≡ some f
    → (accept_buy_request env id seller m).0 ≡ ok x
    → find_request j (accept_buy_request env id seller m).1 ≡ some q
    → q.feature_id ≡ r.feature_id
    → get_locked j m ≡ none
unfolding before_close
accept_buy_request_settles_others env id seller j r x q f m fr ff h live same =
    let (_, _, _, _, _, e) = accept_found env id seller r x f m fr ff h in
    let m0 = before_close env r f seller m in
    sym (before_close_locked env r f seller j m)
    ∙ (close_requests_open env r m0 j q (rw e at live)).1 same
