-- ===== src/Billing/Ledger.antt =====
-- The ledger of reports (reportMetric and BillingReportOnce of internal/service/billing.go).
use buktio.Base.{
  ℕ, ◌+◌, ◌≤◌, ◌≡◌, ◌≢◌, refl, ap, ◌⊎◌, inl, inr, String, Bool, true, false, Option, none, some,
  List, [], ◌∷◌, ◌++◌, arith, str_eq, eq_iff, find, any, length, select, Bool-cases, if◌then◌else◌,
}
use buktio.Runtime.Rows.{Db, BillingCustomer, UsageReport}
use buktio.Runtime.World.{World, Call, report_usage, ok?}
use buktio.Runtime.Errors.{actions}
use buktio.Runtime.Holds.{Holds, holds_rules, Holds-bind, Holds-pure, Holds-wrapped}
use buktio.Guard.Lookups.{Holds-row}
use buktio.Tenants.Store.{org_usage_totals, traffic_by_org}
use buktio.Billing.Store.{
  customer_of, get_billing_customer, list_billing_org_ids, has_key, record_usage_report,
}
use buktio.Billing.{
  Provider, idem_key, report_metric, report_customer, report_org, report_orgs, billing_report_once,
}

-- Whether a call reports usage under a key.
abbrev pub reports : String → Call → Bool
reports k (report_usage item qty idem) = str_eq idem k
reports k _ = false

-- How often usage was reported under a key.
abbrev pub posts : String → List Call → ℕ
posts k calls = length (select (reports k) calls)

-- The rows of the ledger with a key.
abbrev pub rows : String → Db → ℕ
rows k db = length (select (has_key k) db.usage_reports)

-- Usage was reported at most once under a key, and only if the ledger has its row.
abbrev pub IsBilledOnce : String → List Call → Db → Type 0
IsBilledOnce k trail db = (posts k trail ≤ rows k db) × (rows k db ≤ 1)

rows-append :
    (k : String) (r : UsageReport) (rs : List UsageReport)
    → length (select (has_key k) (rs ++ r ∷ []))
      ≡ length (select (has_key k) rs) + (if has_key k r then 1 else 0)
rows-append k r [] = ground arith
rows-append k r (x ∷ rs) = ground (arith, rows-append k r rs)

rows-none :
    (k : String) (rs : List UsageReport)
    → any (has_key k) rs ≡ false
    → length (select (has_key k) rs) ≡ 0
rows-none k [] h = refl
rows-none k (r ∷ rs) h = ground (arith, rows-none k rs)

abbrev pub new_report : String → String → ℕ → ℕ → ℕ → String → UsageReport
new_report org metric qty start end day = record {
  org_id = org;
  metric = metric;
  quantity = qty;
  period_start = start;
  period_end = end;
  idempotency_key = idem_key org metric day;
}

-- What the ledger answers, whatever statement fails: a row is new, or nothing changes.
recorded :
    (r : UsageReport) (w : World)
    → let v = (record_usage_report r w).1 in
      (v.trail ≡ w.trail)
      × (((ok? (record_usage_report r w).0 ≢ some true) × (v.db ≡ w.db))
          ⊎ ((ok? (record_usage_report r w).0 ≡ some true)
              × (any (has_key r.idempotency_key) w.db.usage_reports ≡ false)
              × (v.db ≡ record w.db { usage_reports = w.db.usage_reports ++ r ∷ [] })))
unfolding record_usage_report actions
recorded r w = ground arith

module _ (k : String) where
  metric_at :
      (org metric item day : String) (qty start end : ℕ) (w : World)
      → IsBilledOnce k w.trail w.db
      → let v = (report_metric org metric qty item start end day w).1 in IsBilledOnce k v.trail v.db
  unfolding report_metric actions
  metric_at org metric item day qty start end w h =
      let r = new_report org metric qty start end day in
      elim (Bool-cases (str_eq item "")) [
        | inl e ↦ rw e h
        | inr e ↦
            let (same, outcome) = recorded r w in
            elim outcome [
              | inl (known, kept) ↦ ground (arith, e, same, known, kept)
              | inr (fresh, new, stored) ↦ ground (
                arith,
                e,
                same,
                fresh,
                stored,
                rows-append k r w.db.usage_reports,
                rows-none k w.db.usage_reports,
                eq_iff r.idempotency_key k,
                new,
              )
            ]
      ]

  report_metric-Holds :
      (org metric item day : String) (qty start end : ℕ)
      → Holds (IsBilledOnce k) (report_metric org metric qty item start end day)
  report_metric-Holds org metric item day qty start end = record {
    at = λ w h. metric_at org metric item day qty start end w h;
  }

  get_billing_customer-Holds : (org : String) → Holds (IsBilledOnce k) (get_billing_customer org)
  unfolding get_billing_customer
  get_billing_customer-Holds org =
      Holds-wrapped _ _ (Holds-row (λ w. find (customer_of org) w.db.billing_customers))

  org_usage_totals-Holds : (org : String) → Holds (IsBilledOnce k) (org_usage_totals org)
  unfolding org_usage_totals
  org_usage_totals-Holds org = search holds_rules

  traffic_by_org-Holds :
      (org : String) (since : ℕ) → Holds (IsBilledOnce k) (traffic_by_org org since)
  unfolding traffic_by_org
  traffic_by_org-Holds org since = search holds_rules

  list_billing_org_ids-Holds : Holds (IsBilledOnce k) list_billing_org_ids
  unfolding list_billing_org_ids
  list_billing_org_ids-Holds = search holds_rules

  report_customer-Holds :
      (start : ℕ) (day org : String) (customer : Option BillingCustomer)
      → Holds (IsBilledOnce k) (report_customer start day org customer)
  unfolding report_customer
  report_customer-Holds start day org none = Holds-pure tt
  report_customer-Holds start day org (some c) =
      search (holds_rules, report_metric-Holds, org_usage_totals-Holds, traffic_by_org-Holds) depth
        12

  report_org-Holds :
      (start : ℕ) (day org : String) → Holds (IsBilledOnce k) (report_org start day org)
  unfolding report_org
  report_org-Holds start day org =
      search (holds_rules, report_customer-Holds, get_billing_customer-Holds)

  report_orgs-Holds :
      (start : ℕ) (day : String) (orgs : List String)
      → Holds (IsBilledOnce k) (report_orgs start day orgs)
  unfolding report_orgs
  report_orgs-Holds start day [] = Holds-pure tt
  report_orgs-Holds start day (org ∷ orgs) =
      Holds-bind _ _ (report_org-Holds start day org) (λ _. report_orgs-Holds start day orgs)

  pub pass-Holds : (b : Provider) → Holds (IsBilledOnce k) (billing_report_once b)
  unfolding billing_report_once
  pass-Holds b = search (holds_rules, report_orgs-Holds, list_billing_org_ids-Holds) depth 9

-- The worlds that passes of the reporter reach, whatever else happens between them to the database
-- but to its ledger, to the clock, to the statements that fail and to the calls that are no
-- reports.
pub data Passes (b : Provider) : World → World → Type 0 where
  no_pass : {w : World} → Passes b w w
  pass : {w v : World} → Passes b w v → Passes b w (billing_report_once b v).1
  between :
      {w v u : World}
      → Passes b w v
      → u.db.usage_reports ≡ v.db.usage_reports
      → ((k : String) → posts k u.trail ≡ posts k v.trail)
      → Passes b w u

billed :
    (b : Provider) (w v : World) (k : String)
    → IsBilledOnce k w.trail w.db
    → Passes b w v
    → IsBilledOnce k v.trail v.db
billed b w _ k h no_pass = h
billed b w _ k h (pass {v = v} p) = (pass-Holds k b).at v (billed b w v k h p)
billed b w u k h (between {v = v} p e t) =
    let (posted, single) = billed b w v k h p in
    (
      omega (arith, posted, t k, ap (λ rs. length (select (has_key k) rs)) e),
      omega (arith, single, ap (λ rs. length (select (has_key k) rs)) e),
    )

-- However many passes run, at whatever times and whatever statements fail: the processor is told of
-- a usage under one key (an organisation, a metric and a day) at most once.
pub posts-Passes :
    (b : Provider) (w v : World) (k : String)
    → IsBilledOnce k w.trail w.db
    → Passes b w v
    → posts k v.trail ≤ 1
posts-Passes b w v k h p = omega (arith, billed b w v k h p)

-- Where no statement fails, the metric has an item and the organisation a row: a usage whose key
-- the ledger does not have is written to it and reported once to the item, and one whose key it has
-- is neither.
pub report_metric_lem :
    (org metric item day : String) (qty start end : ℕ) (w : World)
    → w.faults ≡ []
    → item ≢ ""
    → any (λ o. str_eq o.id org) w.db.organizations ≡ true
    → let idem = idem_key org metric day in
      let v = (report_metric org metric qty item start end day w).1 in
      if any (has_key idem) w.db.usage_reports
      then (v.trail ≡ w.trail) × (v.db ≡ w.db)
      else (v.trail ≡ report_usage item qty idem ∷ w.trail)
        × (v.db ≡ record w.db {
          usage_reports = w.db.usage_reports ++ new_report org metric qty start end day ∷ [];
        })
unfolding report_metric record_usage_report actions
report_metric_lem org metric item day qty start end w f named there =
    elim (Bool-cases (any (has_key (idem_key org metric day)) w.db.usage_reports)) [
      | inl old ↦ rw old (ground (arith, old, eq_iff item ""), ground (arith, old, eq_iff item ""))
      | inr new ↦ rw new (ground (arith, new, eq_iff item ""), ground (arith, new, eq_iff item ""))
    ]
