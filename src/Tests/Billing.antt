-- ===== src/Tests/Billing.antt =====
-- The theorems on organisations, quotas and billing, applied.
use buktio.Base.{◌≤◌, ◌≡◌, refl, true, false, [], ◌∷◌, arith, eq_iff}
use buktio.Base.Int.{pos}
use buktio.Runtime.World.{ok, err, report_usage}
use buktio.Runtime.Facade.{Services, background, subject_from, tenant}
use buktio.Runtime.Errors.{Error}
use buktio.Tenants.Store.{suspended_row, resumed_row}
use buktio.Tenants.{suspend_org, resume_org, org_is_suspended}
use buktio.Tenants.Lifecycle.{suspended, suspend_org-suspended, resume_org-suspended}
use buktio.Quota.{quota_guard}
use buktio.Quota.Ceilings.{quota_guard-ceilings, quota_guard_wraps}
use buktio.Billing.{Provider, idem_key, report_metric, billing_report_once, handle_billing_webhook}
use buktio.Billing.Ledger.{posts, no_pass, pass, new_report, posts-Passes, report_metric_lem}
use buktio.Billing.Webhook.{webhook-suspended}
use buktio.Tests.{acme, services, ctx, world}

suspend_org-suspended_example :
    let w' = (suspend_org services ctx "acme" "abuse" world).1 in
    ((suspend_org services ctx "acme" "abuse" world).0 ≡ ok tt)
    × (w'.db.organizations ≡ suspended_row "abuse" 5 acme ∷ [])
    × (suspended w'.db "acme" ≡ true)
    × ((org_is_suspended {E = Error} "acme" (record world { db = w'.db })).0 ≡ ok true)
unfolding subject_from
suspend_org-suspended_example =
    suspend_org-suspended services ctx "acme" world refl refl refl "abuse" "acme"
      (record world { db = (suspend_org services ctx "acme" "abuse" world).1.db })
      (λ e. ground (arith, (eq_iff "acme" "").1 e)) refl refl

resume_org-suspended_example :
    let w' = (resume_org services ctx "acme" world).1 in
    ((resume_org services ctx "acme" world).0 ≡ ok tt)
    × (w'.db.organizations ≡ resumed_row 5 acme ∷ [])
    × (suspended w'.db "acme" ≡ false)
    × ((org_is_suspended {E = Error} "acme" (record world { db = w'.db })).0 ≡ ok false)
unfolding subject_from
resume_org-suspended_example =
    resume_org-suspended services ctx "acme" world refl refl refl "acme"
      (record world { db = (resume_org services ctx "acme" world).1.db }) refl refl

quota_guard-ceilings_example : quota_guard services ctx (pos 100) world ≡ (ok tt, world)
unfolding tenant
quota_guard-ceilings_example =
    quota_guard-ceilings services ctx acme 100 3 world refl
      (λ e. ground (arith, (eq_iff "acme" "").1 e)) refl refl (omega arith) (omega arith)

-- A license of 2^33 GiB.
abbrev large : Services
large = record services {
  limit = λ resource org. record { unlimited = false; max = pos 8589934592 };
}

quota_guard_wraps_example : quota_guard large ctx (pos 100) world ≡ (ok tt, world)
unfolding tenant
quota_guard_wraps_example = quota_guard_wraps large ctx acme (pos 100) world refl refl refl refl

abbrev provider : Provider
provider = record {
  enabled = true;
  create_customer = λ w org email. err "no";
  parse_webhook =
      λ payload sig. ok (record { event_type = payload; customer_id = ""; org_id = "acme" });
  format_day = λ t. "1970-01-01";
}

posts-Passes_example :
    posts "acme:egress_gb:1970-01-01"
      (billing_report_once provider (billing_report_once provider world).1).1.trail
    ≤ 1
posts-Passes_example =
    posts-Passes provider world
      (billing_report_once provider (billing_report_once provider world).1).1
      "acme:egress_gb:1970-01-01" (omega arith, omega arith) (pass (pass no_pass))

report_metric_lem_example :
    let v = (report_metric "acme" "egress_gb" 7 "si_egress" 0 9 "1970-01-01" world).1 in
    (v.trail ≡ report_usage "si_egress" 7 "acme:egress_gb:1970-01-01" ∷ [])
    × (v.db
        ≡ record world.db { usage_reports = new_report "acme" "egress_gb" 7 0 9 "1970-01-01" ∷ [] })
unfolding idem_key
report_metric_lem_example =
    report_metric_lem "acme" "egress_gb" "si_egress" "1970-01-01" 7 0 9 world refl
      (λ e. ground (arith, (eq_iff "si_egress" "").1 e)) refl

webhook-suspended_example :
    let w' = (handle_billing_webhook provider services background "payment_failed" "sig" world).1 in
    ((handle_billing_webhook provider services background "payment_failed" "sig" world).0 ≡ ok tt)
    × (w'.db.organizations ≡ suspended_row "payment failed" 5 acme ∷ [])
    × (suspended w'.db "acme" ≡ true)
    × ((org_is_suspended {E = Error} "acme" (record world { db = w'.db })).0 ≡ ok true)
webhook-suspended_example =
    webhook-suspended provider services background "payment_failed" "sig"
      (record { event_type = "payment_failed"; customer_id = ""; org_id = "acme" }) world "acme"
      (record world {
        db =
            (handle_billing_webhook provider services background "payment_failed" "sig" world).1.db;
      })
      refl refl (λ e. ground (arith, (eq_iff "acme" "").1 e)) refl refl refl
