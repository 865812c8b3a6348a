-- ===== src/Billing/Store.antt =====
-- The statements on billing customers and on the ledger of usage reports
-- (internal/repository/billing.go).
use buktio.Base.{
  String, Bool, true, false, not, ◌&&◌, ◌||◌, List, [], ◌∷◌, ◌++◌, str_eq, select, find, any,
  update_where, if◌then◌else◌,
}
use buktio.Runtime.Rows.{BillingCustomer, UsageReport}
use buktio.Runtime.World.{
  RepoErr, violation, Exec, ◌>>=◌, ◌>>◌, pure, raise, gets, statement, wrapped, put_db,
}
use buktio.Guard.{row_or_not_found}

abbrev pub customer_of : String → BillingCustomer → Bool
customer_of org c = str_eq c.org_id org

-- The organisation has a row, and no other organisation has the same customer.
unfoldable pub upsert_billing_customer : BillingCustomer → Exec RepoErr (Unit {0})
upsert_billing_customer c = wrapped "repository: upsert billing customer: " (
    statement (λ w.
      (if not (any (λ o. str_eq o.id c.org_id) w.db.organizations)
            || any
                (λ (d : BillingCustomer).
                  str_eq d.stripe_customer_id c.stripe_customer_id
                  && not (str_eq d.org_id c.org_id))
                w.db.billing_customers
          then raise violation
          else put_db (record w.db {
            billing_customers =
                if any (customer_of c.org_id) w.db.billing_customers
                then update_where (customer_of c.org_id) (λ _. c) w.db.billing_customers
                else w.db.billing_customers ++ c ∷ [];
          }))
        w))

unfoldable pub get_billing_customer : String → Exec RepoErr BillingCustomer
get_billing_customer org =
    wrapped "repository: get billing customer: "
      (statement (λ w. row_or_not_found (find (customer_of org) w.db.billing_customers) w))

unfoldable pub org_by_stripe_customer : String → Exec RepoErr String
org_by_stripe_customer customer = wrapped "repository: org by stripe customer: " (
    statement (λ w.
      (do
        c ← row_or_not_found (
            find (λ (c : BillingCustomer). str_eq c.stripe_customer_id customer)
              w.db.billing_customers)
        pure c.org_id)
        w))

unfoldable pub set_billing_status : String → String → Exec RepoErr (Unit {0})
set_billing_status org status = statement (λ w.
    put_db
      (record w.db {
        billing_customers =
            update_where (customer_of org) (λ c. record c { status = status })
              w.db.billing_customers;
      })
      w)

abbrev org_ids : List BillingCustomer → List String
org_ids [] = []
org_ids (c ∷ cs) = c.org_id ∷ org_ids cs

unfoldable pub list_billing_org_ids : Exec RepoErr (List String)
list_billing_org_ids = wrapped "repository: list billing orgs: " (
    statement (
      gets (λ w. org_ids (
        select (λ (c : BillingCustomer). not (str_eq c.status "canceled"))
          w.db.billing_customers))))

abbrev pub has_key : String → UsageReport → Bool
has_key k r = str_eq r.idempotency_key k

-- `ON CONFLICT (idempotency_key) DO NOTHING`: whether the row is new.
unfoldable pub record_usage_report : UsageReport → Exec RepoErr Bool
record_usage_report r = wrapped "repository: record usage report: " (
    statement (λ w.
      (if any (has_key r.idempotency_key) w.db.usage_reports
          then pure false
          else if not (any (λ o. str_eq o.id r.org_id) w.db.organizations)
          then raise violation
          else do put_db (record w.db { usage_reports = w.db.usage_reports ++ r ∷ [] }); pure true)
        w))
