-- ===== src/Lib.antt =====
-- The marketplace of land features and the wallets of its users, the chunked upload of files, the
-- validation of identity data, the Jalali calendar, the dynasties and families of users, the
-- payments, the security of accounts, the challenge and the follows of the social service, the
-- levels, the hourly profits of features, and the support tickets: twelve parts of this
-- repository, modelled function by function.
--
-- Wallets (services/commercial-service). Wallet/Row.antt has the rows of
-- internal/models/wallet.go, Wallet/Repository.antt the SQL statements of
-- internal/repository/wallet_repository.go, Wallet/Service.antt
-- internal/service/wallet_service.go, and Wallet/Client.antt the gRPC boundary:
-- internal/handler/wallet_handler.go on one side, the client of services/features-service
-- (internal/client/commercial_client.go) on the other. A call is a function from the database to
-- a result and a database (Prelude/Action.antt). An UPDATE changes every row that its WHERE
-- selects, and a rolled-back transaction leaves the tables alone. Wallet/Balance.antt and
-- Wallet/Locks.antt give the abstract view, a balance by user and asset and a total by asset;
-- Wallet/Solvency.antt is about sequences of calls, Wallet/Placeholder.antt about the balance
-- check of the client.
--
-- The marketplace (services/features-service). Market/Constants.antt has internal/constants,
-- Market/Tables.antt the rows of internal/models/feature.go, Market/Repository.antt the
-- statements of internal/repository, Market/Underpriced.antt the 24-hour restriction of
-- internal/service/marketplace_service.go and Market/Purchase.antt its BuyFeature with the three
-- paths, Market/Sale.antt CreateSellRequest and DeleteSellRequest. Market/Requests holds its
-- calls on buy requests: Payments.antt the wallet calls, Send.antt SendBuyRequest, Lifecycle.antt
-- AcceptBuyRequest, RejectBuyRequest, DeleteBuyRequest, UpdateGracePeriod and refundBuyRequest.
-- The state of a call is a record `Market` with the tables and the database of the wallets, so a
-- wallet call is a step on the same state; `Env` is what a call reads and does not change.
-- Market/Refunds.antt, Acceptance.antt, Payout.antt, Closing.antt, Competing.antt, Offers.antt,
-- Settlement.antt, GracePeriod.antt, Buying.antt and Selling.antt are the proofs.
--
-- Uploads (services/storage-service). Upload/Session.antt is internal/service/chunk_manager.go
-- and Upload/Handle.antt HandleChunkUpload of internal/service/storage_service.go.
-- Upload/Accepted.antt is the abstract view, the chunks that count; Upload/Progress.antt shows
-- that a session and its files hold exactly those, and Upload/Completion.antt what one chunk
-- does, and Upload/Runs.antt what a run of chunks leads to.
--
-- Identity data (shared/pkg/helpers). Identity/Rules.antt has the validators of validation.go
-- with NormalizePersianNumbers of numbers.go, on texts as lists of code points;
-- Identity/Checks.antt is about the check digits and the character classes.
--
-- Dates. Calendar/Jalali.antt has gregorianToJalali of shared/pkg/jalali/jalali.go.
-- Calendar/Cycle.antt is about the calendar of its second half, Calendar/Days.antt about the days
-- that its first half counts.
--
-- Dynasties (services/dynasty-service). Dynasty/Tables.antt has the rows of
-- internal/models/dynasty.go, Dynasty/Repository.antt the statements of internal/repository,
-- Dynasty/Policy.antt internal/policy, Dynasty/Validation.antt
-- internal/validation/family_validator.go. Of internal/service, Dynasty/Requests.antt is
-- join_request_service.go, the service that cmd/server/main.go starts, Dynasty/Enhanced.antt
-- join_request_service_enhanced.go, with all rules, Dynasty/Houses.antt the calls of
-- dynasty_service.go and prize_service.go that change rows, and Dynasty/Permissions.antt
-- permission_service.go with SetChildPermissions of internal/handler/family_handler.go.
-- Dynasty/Machine.antt is the specification of a request as a state machine. Statuses.antt,
-- Sending.antt, Decisions.antt, Joining.antt, Membership.antt, Rejoining.antt, Founding.antt,
-- Progress.antt and Grants.antt of that folder are the proofs.
--
-- Payments (services/commercial-service). Payment/Tables.antt has the rows of
-- internal/models/wallet.go that payments use, Payment/Repository.antt the statements of
-- internal/repository on them, Payment/Referral.antt internal/service/referral_service.go, and
-- Payment/Service.antt internal/service/payment_service.go with order_policy.go. The tables of
-- the wallets are a field of the state, so AddBalance is the one of Wallet/Repository.antt. What
-- the gateway answers to a call is a field of `Env`, and each call of a sequence has an `Env` of
-- its own. Commission.antt, Credits.antt, Balances.antt, Bonus.antt, Once.antt and Failure.antt
-- of that folder are the proofs.
--
-- Account security (services/auth-service). Security/Tables.antt has the rows of
-- internal/models/user.go that it uses, Security/Repository.antt the statements of
-- internal/repository, Security/Service.antt RequestAccountSecurity and VerifyAccountSecurity of
-- internal/service/auth_service.go, and UpdateProfile of user_service.go as far as it writes the
-- telephone number. The hash function is a parameter with the two laws that its documentation
-- gives; the random numbers, the clock and the notification service are fields of `Env`, and each
-- call of a sequence has its own. Security/Calls.antt says what the calls for other users keep,
-- on the lemmas of Prelude/Keys.antt on tables with a key; Locking.antt, Waiting.antt,
-- Codes.antt, Opening.antt, Once.antt and Phones.antt of that folder are the proofs.
--
-- The social service (services/social-service). Social/Challenge.antt has the rows of
-- internal/models/challenge.go, the statements of internal/repository/challenge_repository.go and
-- the calls of internal/service/challenge_service.go, Social/Follows.antt follow_repository.go
-- and the calls of follow_service.go. The prize goes through the handler of Wallet/Client.antt.
-- Answering.antt, Prizes.antt, Votes.antt and Following.antt of that folder are the proofs.
--
-- Levels (services/levels-service). Levels/Tables.antt has the rows of internal/models and the
-- statements of internal/repository that write, with the queries they need, Levels/Scores.antt
-- the calls of internal/service/activity_service.go that write, and ClaimPrize of
-- level_service.go. The float64 sum of a score is a field of `Env`, cut off as the source does; a
-- nil pointer that the code follows ends the call. Awards.antt, Single.antt and Reaching.antt of
-- that folder are the proofs.
--
-- Hourly profits (services/features-service). Profit/Tables.antt has the rows of
-- `feature_hourly_profits` with their ids and times, of which Market/Tables.antt shows what a
-- sale needs, and the statements of internal/repository/hourly_profit_repository.go;
-- Profit/Service.antt has the withdrawals of internal/service/profit_service.go, which pay
-- through the client of Wallet/Client.antt. The chunks of a withdrawal visit every row once in
-- order, and the model goes through the rows. Withdrawals.antt and Single.antt of that folder are
-- the proofs.
--
-- Tickets (services/support-service). Support/Tickets.antt has the rows of
-- internal/models/ticket.go, the statements of internal/repository/ticket_repository.go and the
-- calls of internal/service/ticket_service.go; Standing.antt and Closed.antt of that folder are
-- the proofs. The handler refuses the user 0.
--
-- Numbers. An amount is a whole number of units of 10⁻¹⁰, the scale of the decimal columns,
-- positive or negative; rates are scaled alike. The source computes the marketplace in float64:
-- the model computes exactly and cuts off what is less than a unit. The columns of the tables
-- that hold whole numbers of rials, two decimals of a price or of the satisfaction are wider
-- here: what is said of balances and prices holds of the columns as long as the amounts fit them,
-- which whole prices in rials that are divisible by twenty do after fees. The user logs of the
-- levels round as their columns do. Times are seconds. All loops of the source run over lists or
-- counts, and the models recurse on those, so no function needs fuel.
--
-- Not modelled: failures of the database, the network and the file system, so that of two wallet
-- calls in a row the second fails only if the first does, and no theorem says what a call leaves
-- behind that loses its connection in between; the `updated_at` columns; the texts of messages
-- and of formatted amounts; mutexes and concurrent calls; the calls of the marketplace that only
-- list rows; the SOAP exchange with the payment gateway; the registration of the validators;
-- every other service. The user table, the variables and the clock are the fields of `Env`, and
-- the MD5 sum of an upload is a field of the `Env` of uploads.
pub mod Calendar
pub mod Dynasty
pub mod Identity
pub mod Levels
pub mod Market
pub mod Payment
pub mod Prelude
pub mod Profit
pub mod Security
pub mod Social
pub mod Support
pub mod Upload
pub mod Wallet
