-- ===== src/Tests/Payments.antt =====
-- The theorems on the verifier, at the small platform.
use comos_pay_community_serv.Base.{
  String, false, some, List, [], ◌∷◌, Memᴰ, ◌≡◌, inl, inr, refl, value, ◌↔◌,
}
use comos_pay_community_serv.Stellar.Horizon.{found, OperationRecord, TransactionRecord}
use comos_pay_community_serv.Stellar.Verifier.{
  VerificationResult, failed_on_chain, confirmed, verify_by_hash, verify_transaction,
  verify_payments, payment_matches, memo_matches, find_matching_payment, scan,
}
use comos_pay_community_serv.Stellar.Verifier.Settles.{IsSettled}
use comos_pay_community_serv.Stellar.Verifier.Sound.{
  verify_by_hash_sound, verify_by_hash_complete, verify_by_hash_failed_iff,
}
use comos_pay_community_serv.Stellar.Verifier.Scan.{
  find_matching_payment_sound, find_matching_payment_complete,
}
use comos_pay_community_serv.Tests.{texts, ledger, order, payment, paid_transaction}

confirms_paid : verify_by_hash ledger texts order "paid" ≡ value (confirmed "paid" "PAYER")
unfolding verify_by_hash verify_transaction verify_payments payment_matches memo_matches
confirms_paid = refl

finds_paid : find_matching_payment ledger texts order 50 ≡ value (confirmed "paid" "PAYER")
unfolding find_matching_payment scan payment_matches memo_matches
finds_paid = refl

order_settled : IsSettled ledger texts order (payment ∷ []) "paid" "PAYER"
order_settled = record {
  transaction = paid_transaction;
  on_chain = refl;
  successful = refl;
  carries = record { memo_type = refl; memo = refl };
  payment = payment;
  listed = Memᴰ.head refl;
  pays = record {
    type = refl;
    to = refl;
    asset = inl (refl, refl);
    amount = inr ("5", refl, refl);
  };
  from = refl;
}

verify_by_hash_sound_example :
    (records : List OperationRecord) × (payer : String) × (ledger.payments_for_transaction
        order.network "paid"
      ≡ found records)
    × IsSettled ledger texts order records "paid" payer
    × (confirmed "paid" "PAYER" ≡ confirmed "paid" payer)
verify_by_hash_sound_example =
    verify_by_hash_sound ledger texts order "paid" (confirmed "paid" "PAYER") confirms_paid refl

verify_by_hash_complete_example :
    (q : String) × (verify_by_hash ledger texts order "paid" ≡ value (confirmed "paid" q))
verify_by_hash_complete_example =
    verify_by_hash_complete ledger texts order "paid" "PAYER" (payment ∷ []) refl order_settled

verify_by_hash_failed_iff_example :
    ((r : VerificationResult) × (verify_by_hash ledger texts order "failed" ≡ value r)
      × (r.reason ≡ some failed_on_chain))
    ↔ ((t : TransactionRecord) × (ledger.transaction order.network "failed" ≡ found t)
        × (t.successful ≡ false))
verify_by_hash_failed_iff_example = verify_by_hash_failed_iff ledger texts order "failed"

find_matching_payment_sound_example :
    (records : List OperationRecord) × (hash payer : String) × (ledger.payments_for_account
        order.network order.destination 50
      ≡ found records)
    × (s : IsSettled ledger texts order records hash payer) × (s.payment.transaction_hash ≡ hash)
    × (confirmed "paid" "PAYER" ≡ confirmed hash payer)
find_matching_payment_sound_example =
    find_matching_payment_sound ledger texts order 50 (confirmed "paid" "PAYER") finds_paid refl

find_matching_payment_complete_example :
    (h q : String) × (find_matching_payment ledger texts order 50 ≡ value (confirmed h q))
unfolding order_settled
find_matching_payment_complete_example =
    find_matching_payment_complete ledger texts order 50 "paid" "PAYER" (payment ∷ []) refl
      (λ p. (paid_transaction, refl), tt) order_settled refl
