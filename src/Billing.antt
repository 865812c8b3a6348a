-- ===== src/Billing.antt =====
-- Usage-based billing (internal/service/billing.go). The payment processor is a parameter.
pub mod Store
pub mod Ledger
pub mod Webhook
use buktio.Base.{
  ℕ, ◌+◌, ◌*◌, ◌/◌, String, ◌<>◌, Bool, true, false, not, ◌&&◌, Option, none, some, List, [], ◌∷◌,
  str_eq, if◌then◌else◌,
}
use buktio.Runtime.Rows.{BillingCustomer}
use buktio.Runtime.World.{
  World, text, report_usage, create_subscription, Result, Exec, ◌>>=◌, ◌>>◌, pure, raise, gets,
  attempt, or_zero, ignore, call_out,
}
use buktio.Runtime.Errors.{Error, mapped}
use buktio.Runtime.Facade.{Services, Context, tenant}
use buktio.Audit.{audit}
use buktio.Guard.{scim_token_actor, require_platform_admin}
use buktio.Tenants.Store.{suspend_row, resume_row, org_usage_totals, traffic_by_org}
use buktio.Billing.Store.{
  upsert_billing_customer, get_billing_customer, org_by_stripe_customer, set_billing_status,
  list_billing_org_ids, record_usage_report,
}

abbrev pub gib : ℕ
gib = 1024 * 1024 * 1024

abbrev pub day : ℕ
day = 24 * 60 * 60 * 1000000000

-- billing.Subscription
pub record Subscription : Type 0 where
  pub customer_id : String
  pub subscription_id : String
  pub storage_item_id : String
  pub egress_item_id : String
  pub requests_item_id : String

-- billing.WebhookEvent; the key `type` of the source.
pub record WebhookEvent : Type 0 where
  pub event_type : String
  pub customer_id : String
  pub org_id : String

-- billing.Provider, and the text of a day (`Format("2006-01-02")`). What a report returns is logged
-- and nothing else, so the answer of `ReportUsage` is left out.
pub record Provider : Type 0 where
  pub enabled : Bool
  pub create_customer : World → String → String → Result String Subscription
  pub parse_webhook : String → String → Result String WebhookEvent
  pub format_day : ℕ → String

abbrev pub day_start : ℕ → ℕ
day_start now = now / day * day

abbrev pub billing_disabled : Error
billing_disabled = record {
  code = "billing_disabled";
  message = "billing is not enabled";
  http = 404;
}

-- An error of the processor, given the code and status of the operation.
abbrev pub or_refuse : {A : Type 0} → (String → Error) → Result String A → Exec Error A
or_refuse e (Result.ok a) = pure a
or_refuse e (Result.err msg) = raise (e msg)

unfoldable pub idem_key : String → String → String → String
idem_key org metric day = org <> ":" <> metric <> ":" <> day

-- reportMetric: the ledger row first, then the report.
unfoldable pub report_metric : String → String → ℕ → String → ℕ → ℕ → String → Exec Error (Unit {0})
unfolding idem_key
report_metric org metric qty item start end day = if str_eq item "" then pure tt else do
  let idem = idem_key org metric day
  fresh ← attempt (
      record_usage_report (record {
        org_id = org;
        metric = metric;
        quantity = qty;
        period_start = start;
        period_end = end;
        idempotency_key = idem;
      }))
  if elim fresh [ none ↦ false | some b ↦ b ]
      then call_out (report_usage item qty idem)
      else pure tt

-- The body of the loop of BillingReportOnce, for a customer's row and without one.
unfoldable pub report_customer :
    ℕ → String → String → Option BillingCustomer → Exec Error (Unit {0})
report_customer start day_text org none = pure tt
report_customer start day_text org (some c) = do
  used ← or_zero (0, 0) (org_usage_totals org)
  sent ← or_zero (0, 0) (traffic_by_org org start)
  report_metric org "storage_gb_month" (used.0 / gib) c.storage_item_id start (start + day) day_text
  report_metric org "egress_gb" (sent.0 / gib) c.egress_item_id start (start + day) day_text
  report_metric org "requests" sent.1 c.requests_item_id start (start + day) day_text

unfoldable pub report_org : ℕ → String → String → Exec Error (Unit {0})
report_org start day_text org = do
  customer ← attempt (get_billing_customer org)
  report_customer start day_text org customer

unfoldable pub report_orgs : ℕ → String → List String → Exec Error (Unit {0})
report_orgs start day_text [] = pure tt
report_orgs start day_text (org ∷ orgs) = do
  report_org start day_text org
  report_orgs start day_text orgs

module _ (b : Provider) where
  unfoldable pub billing_report_once : Exec Error (Unit {0})
  billing_report_once = if not b.enabled then pure tt else do
    orgs ← or_zero [] list_billing_org_ids
    now ← gets (λ w. w.now)
    report_orgs (day_start now) (b.format_day (day_start now)) orgs

  unfoldable pub trigger_billing_report : Context → Exec Error (Unit {0})
  trigger_billing_report ctx = do
    require_platform_admin ctx
    if not b.enabled then raise billing_disabled else billing_report_once

  module _ (s : Services) (ctx : Context) where
    unfoldable pub setup_billing : String → Exec Error (Unit {0})
    setup_billing email = do
      scim_token_actor ctx
      if not b.enabled then raise billing_disabled else pure tt
      let org = (tenant s ctx).org_id
      existing ← attempt (get_billing_customer org)
      elim existing [
        | some c ↦ pure tt
        | none ↦ do
          answer ← gets (λ w. b.create_customer w org email)
          call_out (create_subscription org email)
          sub ←
              or_refuse (λ msg. record { code = "billing_setup_failed"; message = msg; http = 502 })
                answer
          mapped (
              upsert_billing_customer (record {
                org_id = org;
                stripe_customer_id = sub.customer_id;
                stripe_subscription_id = sub.subscription_id;
                storage_item_id = sub.storage_item_id;
                egress_item_id = sub.egress_item_id;
                requests_item_id = sub.requests_item_id;
                status = "active";
              }))
          audit s ctx "billing.setup" "organization" org
              (some (("customer", text sub.customer_id) ∷ []))
      ]

    -- The effect of an event on the organisation that it is about.
    unfoldable pub apply_event : String → String → Exec Error (Unit {0})
    apply_event event_type org =
        if str_eq event_type "payment_failed"
        then (do
          ignore (set_billing_status org "past_due")
          ignore (suspend_row org "payment failed")
          audit s ctx "billing.suspend" "organization" org
              (some (("reason", text "payment_failed") ∷ [])))
        else if str_eq event_type "payment_succeeded"
        then (do
          ignore (set_billing_status org "active")
          ignore (resume_row org)
          audit s ctx "billing.resume" "organization" org none)
        else if str_eq event_type "subscription_canceled"
        then ignore (set_billing_status org "canceled")
        else pure tt

    -- The organisation that an event names, or that of its customer; "" where there is none.
    unfoldable pub event_org : WebhookEvent → Exec Error String
    event_org ev =
        if str_eq ev.org_id "" && not (str_eq ev.customer_id "")
        then or_zero "" (org_by_stripe_customer ev.customer_id)
        else pure ev.org_id

    unfoldable pub handle_billing_webhook : String → String → Exec Error (Unit {0})
    handle_billing_webhook payload sig = do
      ev ←
          or_refuse
            (λ _. record {
              code = "invalid_webhook";
              message = "could not verify webhook";
              http = 400;
            })
            (b.parse_webhook payload sig)
      org ← event_org ev
      if str_eq org "" then pure tt else apply_event ev.event_type org
