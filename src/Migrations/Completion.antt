-- ===== src/Migrations/Completion.antt =====
-- The worker ends, and has copied what the source lists (internal/service/migrations.go).
use buktio.Base.{
  ℕ, zero, suc, ◌+◌, ◌≤◌, ◌==◌, ◌≡◌, refl, ◌∙◌, ap, String, false, not, ◌&&◌, ◌||◌, none, some,
  List, [], ◌∷◌, arith, length, ltb, str_eq, find, Bool-cases, inl, inr, if◌then◌else◌,
}
use buktio.Runtime.Rows.{Bucket, MigrationJob}
use buktio.Runtime.World.{
  World, Call, meter_emit, read_source, put_object, head_object, ok, Exec, ignore, ◌>>◌,
}
use buktio.Runtime.Errors.{actions}
use buktio.Runtime.Facade.{Services, Context, background, with_tenant, tenant}
use buktio.Metering.{emit}
use buktio.Storage.{Storage, Object, Page, ask, provider_for_bucket}
use buktio.Migrations.Store.{job_with_id, set_migration_status, update_migration_progress}
use buktio.Migrations.Worker.{
  Source, copy_one_object, copy_page, copy_pages, copy_to_bucket, run_job, run_migration,
}
use buktio.Migrations.Counts.{
  count_of, bytes_of, total, last_token, Lists, Copies, find-update, progressed, get_lem,
  update_lem, set_lem, get_bucket_lem,
}

module _ (s : Services) (st : Storage) (src : Source) (j : MigrationJob) (dest : Bucket)
    (c : Copies st src j dest.garage_global_alias) where
  same_size : (n : ℕ) → (ltb 0 n && not (n == n)) ≡ false
  same_size n = ground arith

  copy_one_object_lem :
      (o : Object) (w : World)
      → (t : List Call) × (copy_one_object s st src j dest.garage_global_alias o w
          ≡ (ok tt, record w { trail = t }))
  unfolding copy_one_object ask actions
  copy_one_object_lem o w =
      let alias = dest.garage_global_alias in
      let read = read_source j.source_bucket o.key ∷ w.trail in
      let put = put_object alias o.key ∷ read in
      (
        head_object alias o.key ∷ put,
        ground (
          arith,
          c.got w.trail o.key,
          c.spooled read (c.size o.key),
          c.written read o.key (c.size o.key),
          c.headed put o.key,
          same_size (c.size o.key),
        ),
      )

  module _ (ctx : Context) where
    copy_page_lem :
        (os : List Object) (n b : ℕ) (w : World)
        → (t : List Call) × (copy_page s st src ctx j dest os n b w
            ≡ (ok (n + count_of os, b + bytes_of os), record w { trail = t }))
    unfolding copy_page emit actions
    copy_page_lem [] n b w = (w.trail, ground arith)
    copy_page_lem (o ∷ os) n b w = elim (Bool-cases o.is_prefix) [
      | inl prefix ↦ let (t, e) = copy_page_lem os n b w in (t, ground (arith, prefix, e))
      | inr object ↦
          let (t, e) = copy_one_object_lem o w in
          let (u, d) = copy_page_lem os (n + 1) (b + o.size) (record w {
            trail = meter_emit "object.uploaded" (tenant s ctx).org_id dest.id o.size ∷ t;
          }) in
          (u, ground (arith, object, e, d))
    ]

    -- The world after a page was copied and its progress stored.
    abbrev after_page : Page → ℕ → ℕ → List Call → World → World
    after_page p n b t w = record w {
      trail = t;
      db = record w.db {
        migrations =
            progressed j.id p.next_token (n + count_of p.objects) (b + bytes_of p.objects)
              w.db.migrations;
      };
    }

    stored :
        (p : Page) (n b : ℕ) (t : List Call) (w : World)
        → w.faults ≡ []
        → (k : Exec String (Unit {0})) (v : World) → v ≡ record w { trail = t }
        → (ignore (
                update_migration_progress j.id p.next_token
                  (n + count_of p.objects)
                  (b + bytes_of p.objects))
              >> k)
            v
          ≡ k (after_page p n b t w)
    unfolding actions
    stored p n b t w f k v e = rw (
      e,
      update_lem j.id p.next_token (n + count_of p.objects) (b + bytes_of p.objects)
          (record w { trail = t }) f,
    )

    page_round :
        (fuel n b : ℕ) (token : String) (p : Page) (cur : MigrationJob) (w : World)
        → w.faults ≡ []
        → find (job_with_id j.id) w.db.migrations ≡ some cur
        → str_eq cur.status "canceled" ≡ false
        → ((t : List Call) → src.list t j token ≡ ok p)
        → (t : List Call) × (copy_pages s st src (suc fuel) ctx j dest token n b w
            ≡ (if not p.is_truncated || str_eq p.next_token ""
                  then ignore (set_migration_status j.id "completed" "")
                  else copy_pages s st src fuel ctx j dest p.next_token
                      (n + count_of p.objects)
                      (b + bytes_of p.objects))
                (after_page p n b t w))
    unfolding copy_pages ask actions
    page_round fuel n b token p cur w f found alive listed =
        let (t, e) =
          copy_page_lem p.objects n b
            (record w { trail = read_source j.source_bucket "" ∷ w.trail }) in
        (
          t,
          rw (get_lem j.id cur w f found, alive, listed w.trail, e)
              (stored p n b t w f
                (if not p.is_truncated || str_eq p.next_token ""
                  then ignore (set_migration_status j.id "completed" "")
                  else copy_pages s st src fuel ctx j dest p.next_token (n + count_of p.objects)
                      (b + bytes_of p.objects))
                _ (ap (λ x. x.1) e)),
        )

    -- The job's row at the end.
    abbrev finished : MigrationJob → ℕ → ℕ → String → List Page → MigrationJob
    finished cur n b token pages = record cur {
      status = "completed";
      error = "";
      copied_objects = n + total count_of pages;
      copied_bytes = b + total bytes_of pages;
      cursor = last_token token pages;
    }

    progress_found :
        (p : Page) (n b : ℕ) (t : List Call) (cur : MigrationJob) (w : World)
        → find (job_with_id j.id) w.db.migrations ≡ some cur
        → find (job_with_id j.id) (after_page p n b t w).db.migrations
          ≡ some (record cur {
            cursor = p.next_token;
            copied_objects = n + count_of p.objects;
            copied_bytes = b + bytes_of p.objects;
            status = "running";
          })
    progress_found p n b t cur w found = find-update j.id _ w.db.migrations cur (λ k. refl) found

    -- The last page: its progress, and the final status.
    completed :
        (p : Page) (n b : ℕ) (t : List Call) (cur : MigrationJob) (w : World)
        → w.faults ≡ []
        → find (job_with_id j.id) w.db.migrations ≡ some cur
        → find
            (job_with_id j.id)
            (ignore {F = String}
              (set_migration_status j.id "completed" "")
              (after_page p n b t w)).1.db.migrations
          ≡ some (finished cur n b p.next_token (p ∷ []))
    unfolding ignore
    completed p n b t cur w f found =
        rw (set_lem j.id "completed" "" (after_page p n b t w) f)
          (find-update j.id _ _ _ (λ k. refl) (progress_found p n b t cur w found) ∙ ground arith)

    -- The sums of a page and of the pages behind it.
    regroup :
        (cur : MigrationJob) (n b : ℕ) (token : String) (p q : Page) (ps : List Page)
        → finished
            (record cur {
              cursor = p.next_token;
              copied_objects = n + count_of p.objects;
              copied_bytes = b + bytes_of p.objects;
              status = "running";
            })
            (n + count_of p.objects)
            (b + bytes_of p.objects)
            p.next_token
            (q ∷ ps)
          ≡ finished cur n b token (p ∷ q ∷ ps)
    regroup cur n b token p q ps = ground arith

    copy_pages_lem :
        (pages : List Page) (fuel n b : ℕ) (token : String) (cur : MigrationJob) (w : World)
        → length pages ≤ fuel
        → w.faults ≡ []
        → find (job_with_id j.id) w.db.migrations ≡ some cur
        → str_eq cur.status "canceled" ≡ false
        → Lists src j token pages
        → find (job_with_id j.id) (copy_pages s st src fuel ctx j dest token n b w).1.db.migrations
          ≡ some (finished cur n b token pages)
    copy_pages_lem [] fuel n b token cur w enough f found alive l = absurd l
    copy_pages_lem (p ∷ ps) zero n b token cur w enough f found alive l = absurd (omega arith)
    copy_pages_lem (p ∷ []) (suc fuel) n b token cur w enough f found alive l =
        let (t, e) = page_round fuel n b token p cur w f found alive l.0 in
        rw (e, l.1) (completed p n b t cur w f found)
    copy_pages_lem (p ∷ q ∷ ps) (suc fuel) n b token cur w enough f found alive l =
        let (t, e) = page_round fuel n b token p cur w f found alive l.0 in
        let ih =
          copy_pages_lem (q ∷ ps) fuel (n + count_of p.objects) (b + bytes_of p.objects)
            p.next_token _ (after_page p n b t w) (omega arith) f
            (progress_found p n b t cur w found) refl l.2 in
        rw (e, l.1) (ih ∙ ap some (regroup cur n b token p q ps))

-- Up to the loop, nothing changes.
reaches_pages :
    (s : Services) (st : Storage) (src : Source) (j : MigrationJob) (dest : Bucket)
    (secret : String) (fuel : ℕ) (w : World)
    → w.faults ≡ []
    → find (job_with_id j.id) w.db.migrations ≡ some j
    → str_eq j.status "completed" ≡ false
    → str_eq j.status "canceled" ≡ false
    → src.open_secret j.source_secret_enc ≡ ok secret
    → find (λ (x : Bucket). str_eq x.id j.dest_bucket_id && not x.deleted) w.db.buckets ≡ some dest
    → st.unreachable w.trail dest.cluster_id ≡ none
    → run_migration s st src fuel j.id w
      ≡ copy_pages s st src fuel
          (with_tenant background (record {
            org_id = j.org_id;
            project_id = dest.project_id;
            cluster_id = dest.cluster_id;
          }))
          j
          dest
          j.cursor
          j.copied_objects
          j.copied_bytes
          w
unfolding run_migration run_job copy_to_bucket provider_for_bucket actions
reaches_pages s st src j dest secret fuel w f found unfinished alive opened bucket reachable =
    ground (
      arith,
      get_lem j.id j w f found,
      unfinished,
      alive,
      opened,
      get_bucket_lem j.dest_bucket_id dest w f bucket,
      reachable,
    )

module _ (s : Services) (st : Storage) (src : Source) (j : MigrationJob) (dest : Bucket)
    (secret : String) (pages : List Page) (fuel : ℕ) (w : World) where
  -- Where no statement fails, every object is copied, and the source lists so many pages from the
  -- job's cursor on, the last of which says that there are no more: with fuel for the pages, a job
  -- that is neither completed nor canceled ends as completed, with no error, at the last page's
  -- cursor, and its counters have grown by the objects of the pages and by their bytes, prefixes
  -- left out.
  pub run_migration-completes :
      w.faults ≡ []
      → find (job_with_id j.id) w.db.migrations ≡ some j
      → str_eq j.status "completed" ≡ false
      → str_eq j.status "canceled" ≡ false
      → src.open_secret j.source_secret_enc ≡ ok secret
      → find (λ (x : Bucket). str_eq x.id j.dest_bucket_id && not x.deleted) w.db.buckets
        ≡ some dest
      → st.unreachable w.trail dest.cluster_id ≡ none
      → Copies st src j dest.garage_global_alias
      → Lists src j j.cursor pages
      → length pages ≤ fuel
      → find (job_with_id j.id) (run_migration s st src fuel j.id w).1.db.migrations
        ≡ some (record j {
          status = "completed";
          error = "";
          copied_objects = j.copied_objects + total count_of pages;
          copied_bytes = j.copied_bytes + total bytes_of pages;
          cursor = last_token j.cursor pages;
        })
  run_migration-completes f found unfinished alive opened bucket reachable c l enough =
      ap (λ r. find (job_with_id j.id) r.1.db.migrations)
        (reaches_pages s st src j dest secret fuel w f found unfinished alive opened bucket
          reachable)
      ∙ copy_pages_lem s st src j dest c _ pages fuel j.copied_objects j.copied_bytes j.cursor j w
          enough f found alive l
