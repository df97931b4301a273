-- ===== src/Common/Transaction.antt =====
-- The transaction around every write request (src/common/interceptors/transaction.interceptor.ts and
-- src/common/kernel-infrastructure/persistence/typeorm-transaction-manager.ts): the writes of a
-- request are committed together, and an exception that leaves the handler undoes them all.
use core_kernel.Prelude.{Result, ok, err, Action}

-- `POST`, `PATCH`, `PUT` and `DELETE` open a transaction, `GET` does not.
pub data Method : Type 0 where
  get_method post patch put delete : Method

abbrev pub settle {ℓ κ ι} :
    {S : Type ℓ} {E : Type κ} {A : Type ι} → S → Result E A → S → Result E A × S
settle before (ok a) after = (ok a, after)
settle before (err e) after = (err e, before)

abbrev pub run_in_transaction {ℓ κ ι} :
    {S : Type ℓ} {E : Type κ} {A : Type ι} → Action S E A → Action S E A
run_in_transaction work s = let (r, s') = work s in settle s r s'

abbrev pub intercept {ℓ κ ι} :
    {S : Type ℓ} {E : Type κ} {A : Type ι} → Method → Action S E A → Action S E A
intercept get_method handler = handler
intercept _ handler = run_in_transaction handler
