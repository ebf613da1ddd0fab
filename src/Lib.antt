-- ===== src/Lib.antt =====
-- The logic of the card room: money, tournaments, the deal, the showdown, and parts
-- of the web client.
--
-- Parts, and the files that model them:
--   * Store: the database as libs/shared/prisma/schema.prisma declares it, with the enumerations of
--     libs/shared/src/wallet.ts and libs/shared/src/audit.ts. Store/Table has the queries of the
--     client library on a table with unique keys, Store/Outcome what a call ensures if it returns.
--   * Wallet: apps/api/src/wallet/wallet.service.ts. Wallet/Base, Requests, Admin and CashOut hold
--     getBalance, createWallet, createDepositRequest, createWithdrawalRequest, lockFunds,
--     adminAdjustBalance, adminProcessTransaction and settleCashOut; Wallet/Ledger defines the
--     invariant `IsSound`: row numbers are unique, and every balance is the sum of what its ledger
--     rows have moved.
--   * Tournament: apps/api/src/tournament/tournament.service.ts. Tournament/Admin holds create,
--     update, delete, findById, transitionStatus and toResponseDto, Tournament/Register and
--     Unregister hold registerPlayer and unregisterPlayer, which pay through the wallets of Store.
--   * Lifecycle: apps/api/src/tournament/tournament-cron.service.ts and
--     tournament-lifecycle.processor.ts, the job that moves the statuses of the tournaments by the
--     clock, through transitionStatus.
--   * Settlement: how chips come back from the tables. Settlement/Defs is the worker
--     apps/api/src/worker/processors/cashout.processor.ts, which calls settleCashOut;
--     Settlement/Cleanup is apps/api/src/game/reconciliation.service.ts, which offers its jobs to the
--     queue when the server starts, and Settlement/Reaper
--     apps/api/src/game/player-reaper.service.ts, which offers one for each player it removes.
--   * Archive: apps/api/src/worker/processors/hand-history.processor.ts, which files the hands, counts
--     them for the players and credits the rake to the house, in the wallets of Store.
--   * Hands: getHandHistory, getHandDetail and getMyHandHistory of
--     apps/api/src/game/game.service.ts, what a player may see of the hands that Archive has filed.
--   * Reserves: runAudit of apps/api/src/cron/cron.service.ts, the audit of the wallets of Store against
--     the chips in Redis, with the lockdown of the tables.
--   * Healer: findOrphanedTransactions and autoResolveGhostMoney of the same file, the sweep of buy-ins
--     that no cash-out of Wallet answers.
--   * Purge: reapOldHandHistory of the same file, the removal of old replays in batches.
--   * History: any sequence of the calls of Wallet, Tournament, Lifecycle and the worker.
--   * Rebuy: rebuy of apps/api/src/game/game.service.ts, which pays through Wallet, asks the table for
--     the chips and takes the payment back by settleCashOut if the table refuses.
--   * Timers: apps/api/src/scheduler/timer.service.ts, the delayed jobs that end a turn.
--   * Turns: apps/api/src/scheduler/processors/turn-timer.processor.ts, what happens when a turn
--     ends by its timer, and the next job of Timers.
--   * BankConfig: apps/api/src/config/config.service.ts, the account that players pay to: getBankConfig,
--     updateBankConfig and restoreBankConfig with the history of the account.
--   * Users: apps/api/src/user/user.service.ts with the tiers of libs/shared/src/user.ts. Users/Service
--     holds getProfile, updateProfile, ensureWalletExists, createUser, adminUpdateUser, banUser,
--     unbanUser, updateRole, addRake and mapToUserResponse.
--   * Showdown: apps/api/src/game/hand-evaluator.service.ts.
--   * HandEvaluator: apps/web/src/utils/handEvaluator.ts, the evaluator of the web client. Its Ranks,
--     Five and Defs hold the ranks, evaluate5, and combinations, findBest and evaluateHand.
--   * Deck: libs/shared/src/shuffle.ts.
--   * Replay: apps/web/src/hooks/useHandReplayer.ts.
--   * AnimationQueue: apps/web/src/hooks/useAnimationQueue.ts.
--   * TablePositions: apps/web/src/hooks/useTablePositions.ts, the angles of the seats.
--   * Prelude: the shared names, Boolean tests, lists and integers.
--
-- Conventions. An operation is a function from the store to a result, an error or a value with the
-- next store; a transaction that throws is rolled back, which `commit` and `commit_hall` state. Ids
-- and moments are natural numbers that the caller supplies (the database and the clock make them
-- up), and a creation under a number in use is refused. Amounts of money are whole hundredths;
-- rounding to two decimals is not modelled. Row locks are not modelled: an operation is one step.
-- All recursion is structural but for the loop of Purge, which runs on fuel: more fuel than there are
-- rows to strip is enough, since every batch but the last strips one. The counts of ticks and of
-- steps in Replay and AnimationQueue are bounded by the length of the log and of the queue.
--
-- Parameters: Node's crypto.randomInt, with its documented range, and the evaluation of one hand by
-- the library poker-evaluator, a function from cards to a value and a name; Redis, with the scripts
-- `force_cleanup`, `leave_table`, `add_chips_vault` and `timeout` and what is read from it; the ids
-- that the queue refuses, where its library's rule is the hypothesis `RefusesLong` of
-- Settlement/Refused, and the texts of ids and moments; whether an audit that is not awaited is
-- written; where a broadcast or the scheduling of a turn throws; whether the removal of a delayed job
-- succeeds; the length of a text in the checks of an account; the seat of a player's session in the
-- gateway; the types of the users, the chips on the tables, the seated players, the moments of the
-- ledger rows and the user of the system's audit rows; the order in which the database lists hands
-- and results in a query, and the rows of its tables; the floating-point floor of a player's part of
-- the rake, of which nothing is assumed; and whether a database filter without a condition matches.
--
-- Not modelled: passwords and avatars, the table scripts in Lua, queries that only list rows,
-- validation schemas, the gateways around the services, the scan of Redis for the ids of the
-- tables, the intervals that start a sweep, and everything that renders.
pub mod Prelude
pub mod Deck
pub mod Showdown
pub mod HandEvaluator
pub mod Store
pub mod Wallet
pub mod Tournament
pub mod Lifecycle
pub mod Settlement
pub mod History
pub mod Replay
pub mod AnimationQueue
pub mod TablePositions
pub mod Users
pub mod BankConfig
pub mod Reserves
pub mod Healer
pub mod Archive
pub mod Hands
pub mod Purge
pub mod Rebuy
pub mod Timers
pub mod Turns
