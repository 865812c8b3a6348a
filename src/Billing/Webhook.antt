-- ===== src/Billing/Webhook.antt =====
-- The events of the processor (HandleBillingWebhook of internal/service/billing.go).
use buktio.Base.{
  ℕ, ◌≡◌, ◌≢◌, ap, ◌∙◌, not, ◌&&◌, String, Bool, true, false, none, some, List, [], ◌∷◌, arith,
  str_eq, eq_iff, any, update_where, if◌then◌else◌,
}
use buktio.Runtime.Rows.{Organization}
use buktio.Tenants.{org_is_suspended}
use buktio.Runtime.World.{World, ok, text}
use buktio.Runtime.Errors.{Error, actions}
use buktio.Runtime.Facade.{Services, Context}
use buktio.Audit.Frame.{audit-db, audit-ok}
use buktio.Tenants.Store.{live_org, suspended_row, resumed_row, suspend_row, resume_row}
use buktio.Tenants.Lifecycle.{
  suspended, suspended_in, authenticated, suspended_in-suspended, suspended_in-resumed,
}
use buktio.Billing.Store.{customer_of, set_billing_status}
use buktio.Billing.{Provider, WebhookEvent, apply_event, event_org, handle_billing_webhook}

-- The state of an organisation after an event.
abbrev pub suspended_by : String → Bool → Bool
suspended_by event_type before =
    if str_eq event_type "payment_failed"
    then true
    else if str_eq event_type "payment_succeeded"
    then false
    else before

-- The organisations after an event for one of them.
abbrev pub organizations_by : String → String → ℕ → List Organization → List Organization
organizations_by event_type org now os =
    if str_eq event_type "payment_failed"
    then update_where (live_org org) (suspended_row "payment failed" now) os
    else if str_eq event_type "payment_succeeded"
    then update_where (live_org org) (resumed_row now) os
    else os

event_table :
    (b : Provider) (s : Services) (ctx : Context) (payload sig : String) (ev : WebhookEvent)
    (w : World)
    → w.faults ≡ []
    → b.parse_webhook payload sig ≡ ok ev
    → ev.org_id ≢ ""
    → any (live_org ev.org_id) w.db.organizations ≡ true
    → ((handle_billing_webhook b s ctx payload sig w).0 ≡ ok tt)
      × ((handle_billing_webhook b s ctx payload sig w).1.db.organizations
          ≡ organizations_by ev.event_type ev.org_id w.now w.db.organizations)
unfolding handle_billing_webhook event_org apply_event set_billing_status suspend_row resume_row
    actions
event_table b s ctx payload sig ev w f signed named live =
    let org = ev.org_id in
    let with_status = λ (status : String).
      update_where (customer_of org) (λ c. record c { status = status }) w.db.billing_customers in
    let failed_world = record w {
      db = record w.db {
        billing_customers = with_status "past_due";
        organizations =
            update_where (live_org org) (suspended_row "payment failed" w.now) w.db.organizations;
      };
    } in
    let paid_world = record w {
      db = record w.db {
        billing_customers = with_status "active";
        organizations = update_where (live_org org) (resumed_row w.now) w.db.organizations;
      };
    } in
    (
      ground (
        arith,
        eq_iff org "",
        audit-ok s ctx "billing.suspend" "organization" org
            (some (("reason", text "payment_failed") ∷ [])) {E = Error} failed_world,
        audit-ok s ctx "billing.resume" "organization" org none {E = Error} paid_world,
      ),
      ground (
        arith,
        eq_iff org "",
        audit-db s ctx "billing.suspend" "organization" org
            (some (("reason", text "payment_failed") ∷ [])) Error failed_world,
        audit-db s ctx "billing.resume" "organization" org none Error paid_world,
      ),
    )

event_flag :
    (event_type org o : String) (now : ℕ) (os : List Organization)
    → org ≢ ""
    → any (live_org org) os ≡ true
    → (not (str_eq o "") && suspended_in o (organizations_by event_type org now os)) ≡ (
        if str_eq o org
        then suspended_by event_type (not (str_eq o "") && suspended_in o os)
        else not (str_eq o "") && suspended_in o os)
event_flag event_type org o now os named live = ground (
  arith,
  eq_iff o "",
  eq_iff o org,
  suspended_in-suspended org "payment failed" now o os,
  suspended_in-resumed org now o os,
)

-- Where no statement fails and the event that the processor signed names a live organisation: the
-- operation succeeds; a failed payment suspends that organisation with this reason, a payment
-- resumes it whoever suspended it, another event leaves its row, and the rows of the other
-- organisations are as before. In a later world with these organisations the authentication finds
-- it accordingly, and any other one as before.
pub webhook-suspended :
    (b : Provider) (s : Services) (ctx : Context) (payload sig : String) (ev : WebhookEvent)
    (w : World) (o : String) (v : World)
    → w.faults ≡ []
    → b.parse_webhook payload sig ≡ ok ev
    → ev.org_id ≢ ""
    → any (live_org ev.org_id) w.db.organizations ≡ true
    → v.db.organizations ≡ (handle_billing_webhook b s ctx payload sig w).1.db.organizations
    → v.faults ≡ []
    → let after : Bool =
        if str_eq o ev.org_id
        then suspended_by ev.event_type (suspended w.db o)
        else suspended w.db o in
      ((handle_billing_webhook b s ctx payload sig w).0 ≡ ok tt)
      × ((handle_billing_webhook b s ctx payload sig w).1.db.organizations
          ≡ organizations_by ev.event_type ev.org_id w.now w.db.organizations)
      × (suspended (handle_billing_webhook b s ctx payload sig w).1.db o ≡ after)
      × ((org_is_suspended {E = Error} o v).0 ≡ ok after)
webhook-suspended b s ctx payload sig ev w o v f signed named live same answers =
    let (done, table) = event_table b s ctx payload sig ev w f signed named live in
    let flag =
      ap (λ os. not (str_eq o "") && suspended_in o os) table
      ∙ event_flag ev.event_type ev.org_id o w.now w.db.organizations named live in
    (done, table, flag, authenticated o _ v same answers ∙ ap ok flag)
