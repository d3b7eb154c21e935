-- ===== src/Payments/Webhook/Deliveries.antt =====
-- What becomes of a captured payment under `handlePaymobWebhook`, and of a delivery sent again.
use hakawi.Common.{
  ◌≡◌, refl, String, true, err, uncaught, Option, some, arith, find, eq_refl, ok, find-update_hit,
  any_of_find, inl, inr, any, ◌∙◌,
}
use hakawi.Payments.Store.{Payment, World, same_status, completed}
use hakawi.Payments.Repository.{is_id, column_is, find_by_transaction_id, change_payment}
use hakawi.Payments.Webhook.{
  Receiver, already_processed, resolve_webhook_status, WebhookPayload, handle_paymob_webhook,
  settle_delivery, find_delivered,
}
use hakawi.Payments.Webhook.Settlement.{delivered, after_delivery, settle_loses}
use hakawi.Payments.Webhook.Laws.{IsChosen, IsDelivery, IsSigned-passes}

-- The payment under the delivered transaction is completed.
completed_under :
    (t o : String) (p : WebhookPayload) (payment : Payment) (w : World)
    → IsChosen t o payment w
    → (q : Payment) × (find
          (λ x. column_is x.paymob_transaction_id t)
          (change_payment payment.id (delivered p t payment) w).payments
        ≡ some q)
      × (q.status ≡ resolve_webhook_status p)
completed_under t o p payment w chosen =
    let (x, e) =
      find-update_hit (λ q. column_is q.paymob_transaction_id t) (is_id payment.id) write w.payments
        (λ q. eq_refl t) (first chosen) (present chosen) in
    (write x, e, refl)
  where
    write : Payment → Payment
    write q = record (delivered p t payment q) { updated_at = w.now }

    first :
        IsChosen t o payment w
        → (y : Payment) → find (λ q. column_is q.paymob_transaction_id t) w.payments ≡ some y
        → is_id payment.id y ≡ true
    first (inl e) y h = ground (arith, eq_refl payment.id)
    first (inr e) y h = absurd (ground arith)

    present : IsChosen t o payment w → any (is_id payment.id) w.payments ≡ true
    present (inl e) = any_of_find _ (is_id payment.id) w.payments e (eq_refl payment.id)
    present (inr e) = any_of_find _ (is_id payment.id) w.payments e.1 (eq_refl payment.id)

module _ (r : Receiver) (raw : String) (given : Option String) (w : World)
    (d : IsDelivery r raw given w) where
  abbrev left_by : World
  left_by = after_delivery d.body d.transaction d.payment w

  settled : settle_delivery raw d.body d.transaction d.payment w ≡ (err uncaught, left_by)
  settled = settle_loses raw d.body d.transaction d.payment w d.permitted

  thrown_from :
      IsChosen d.transaction d.order d.payment w
      → handle_paymob_webhook r raw given w ≡ (err uncaught, left_by)
  unfolding handle_paymob_webhook find_by_transaction_id find_delivered
  thrown_from (inl e) =
      rw (IsSigned-passes r raw given w d.signed, d.decoded, d.named, d.ordered, e)
        (rw d.open_status settled)
  thrown_from (inr (e, f)) =
      rw (IsSigned-passes r raw given w d.signed, d.decoded, d.named, d.ordered, e) (rw f settled)

  again :
      (q : Payment)
      → find (λ x. column_is x.paymob_transaction_id d.transaction) left_by.payments ≡ some q
      → same_status q.status completed ≡ true
      → handle_paymob_webhook r raw given left_by ≡ (ok already_processed, left_by)
  unfolding handle_paymob_webhook find_by_transaction_id
  again q found done =
      ground (arith, IsSigned-passes r raw given left_by d.signed, d.decoded, d.named, d.ordered)

  -- A signed delivery that completes a payment, of the recorded amount and in a status from which the
  -- table lets it complete, throws; it leaves the payment completed under its transaction, and no new
  -- transaction row, event or dropped key. Sent again, it is answered `already_processed` and changes
  -- nothing: neither delivery announces `payment.completed`.
  pub capture_lost :
      resolve_webhook_status d.body ≡ completed
      → let w' = record w {
        payments =
            (change_payment d.payment.id (delivered d.body d.transaction d.payment) w).payments;
      } in
        (handle_paymob_webhook r raw given w ≡ (err uncaught, w'))
        × ((q : Payment) × (find (λ x. column_is x.paymob_transaction_id d.transaction) w'.payments
              ≡ some q)
            × (q.status ≡ completed))
        × (handle_paymob_webhook r raw given w' ≡ (ok already_processed, w'))
  capture_lost completes =
      let (q, found, status) = completed_under d.transaction d.order d.body d.payment w d.chosen in
      let done = status ∙ completes in
      (thrown_from d.chosen, (q, found, done), again q found (rw done refl))
