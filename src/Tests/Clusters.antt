-- ===== src/Tests/Clusters.antt =====
-- The theorems on clusters and buckets, applied.
use buktio.Base.{
  ◌*◌, ◌≡◌, refl, String, false, none, some, str_eq, eq_iff, find, if◌then◌else◌, List, [], ◌∷◌,
  arith, length, take, drop, ltb, ap,
}
use buktio.Runtime.Rows.{Cluster, ProviderConfig}
use buktio.Runtime.World.{World, Call, delete_objects, drop_on_backend, not_found, ok, err}
use buktio.Runtime.Errors.{Error}
use buktio.Clusters.Registry.{Registry, provider, cached}
use buktio.Clusters.{remove_cluster}
use buktio.Clusters.Store.{live_cluster, mark_deleted}
use buktio.Clusters.Removal.{remove_cluster-provider, remove_cluster_respelled}
use buktio.Runtime.Facade.{subject_from}
use buktio.Storage.{Storage, Object, Page}
use buktio.Buckets.{QuotaDto, object_keys, page_size, empty_bucket, record_bucket}
use buktio.Buckets.Empty.{IsKeyList, empty_bucket-drops}
use buktio.Buckets.Compensation.{record_bucket-drops_other}
use buktio.Tests.{services, ctx, world, db, bucket}
use buktio.Tests.Storage.{backend}

abbrev registry : Registry
registry = record { open_secret = λ sealed. ok sealed; primary_public_endpoint = "https://s3.test" }

abbrev primary_cluster : Cluster
primary_cluster = record {
  id = "c1";
  name = "primary";
  provider = "garage";
  mode = "managed";
  s3_endpoint = "http://garage:3900";
  admin_endpoint = "http://garage:3903";
  s3_region = "garage";
  web_endpoint = "";
  admin_token_enc = "token";
  system_s3_access_key_id = "GKsystem";
  system_s3_secret_enc = "secret";
  status = "healthy";
  deleted = false;
}

abbrev second : Cluster
second = record primary_cluster { id = "c2"; name = "second"; provider = "minio" }

abbrev config : ProviderConfig
config = record {
  kind = "minio";
  s3_endpoint = "http://garage:3900";
  s3_region = "garage";
  admin_url = "http://garage:3903";
  admin_token = "token";
  access_key_id = "GKsystem";
  secret_access_key = "secret";
  s3_public_endpoint = "http://garage:3900";
}

-- Two clusters, the second with its provider in the cache. Ids are read whatever their case.
abbrev clustered : World
clustered = record world {
  db = record db {
    clusters = primary_cluster ∷ second ∷ [];
    cache = ("c2", config) ∷ [];
    uuid = λ id. some (if str_eq id "C2" then "c2" else id);
  };
}

-- The world after a removal by a text.
abbrev without_second : String → World
without_second id = record clustered {
  db = (remove_cluster services registry ctx id clustered).1.db;
}

remove_cluster-provider_example :
    ((remove_cluster services registry ctx "c2" clustered).0 ≡ ok tt)
    × ((without_second "c2").db.clusters ≡ mark_deleted "c2" clustered.db.clusters)
    × ((provider registry "c2" (without_second "c2")).0 ≡ err not_found)
    × (cached "c2" (without_second "c2").db.cache ≡ none)
unfolding subject_from
remove_cluster-provider_example =
    remove_cluster-provider services registry ctx "c2" "c2" second clustered (without_second "c2")
      refl refl refl refl refl refl refl refl

remove_cluster_respelled_example :
    ((remove_cluster services registry ctx "C2" clustered).0 ≡ ok tt)
    × ((without_second "C2").db.clusters ≡ mark_deleted "c2" clustered.db.clusters)
    × (find (live_cluster "c2") (without_second "C2").db.clusters ≡ none)
    × ((provider registry "c2" (without_second "C2")).0 ≡ ok config)
unfolding cached subject_from
remove_cluster_respelled_example =
    remove_cluster_respelled services registry ctx "C2" "c2" second config clustered
      (without_second "C2") refl refl (λ e. ground (arith, (eq_iff "c2" "C2").1 e)) refl refl refl
      refl refl refl

-- A backend whose bucket has two keys at first, and loses a page of them with each deletion.
abbrev keys_in : List Call → List String
keys_in [] = "a" ∷ "b" ∷ []
keys_in (delete_objects alias keys ∷ t) = drop page_size (keys_in t)
keys_in (_ ∷ t) = keys_in t

abbrev objects_of : List String → List Object
objects_of [] = []
objects_of (k ∷ ks) = record { key = k; size = 1; is_prefix = false } ∷ objects_of ks

keys-objects : (ks : List String) → object_keys (objects_of ks) ≡ ks
keys-objects [] = refl
keys-objects (k ∷ ks) = ap (λ l. k ∷ l) (keys-objects ks)

abbrev page_at : List Call → Page
page_at t = record {
  objects = objects_of (take page_size (keys_in t));
  common_prefixes = [];
  next_token = "";
  is_truncated = ltb page_size (length (keys_in t));
}

abbrev key_backend : Storage
key_backend = record backend { list = λ t alias input. ok (page_at t) }

key_backend-IsKeyList : IsKeyList key_backend "photos" keys_in
key_backend-IsKeyList = record {
  page = page_at;
  listed = λ t. refl;
  first_keys = λ t. keys-objects (take page_size (keys_in t));
  truncated = λ t. refl;
  read = λ t. refl;
  accepted = λ t keys. refl;
  removed = λ t. refl;
}

empty_bucket-drops_example :
    ((empty_bucket key_backend "photos" world).0 ≡ ok tt)
    × (keys_in (empty_bucket key_backend "photos" world).1.trail
        ≡ drop (1000 * page_size) (keys_in world.trail))
    × ((empty_bucket key_backend "photos" world).1.db ≡ world.db)
empty_bucket-drops_example =
    empty_bucket-drops key_backend "photos" keys_in key_backend-IsKeyList world

abbrev no_quota : QuotaDto
no_quota = record { max_bytes = none; max_objects = none }

-- Another project asks for the name of a bucket that is there.
record_bucket-drops_other_example :
    let done = record_bucket services backend ctx "c1" "photos" "g1" no_quota world in
    (e : Error) × (done.0 ≡ err e)
    × (done.1.db ≡ world.db)
    × (done.1.trail ≡ drop_on_backend "c1" "g1" ∷ world.trail)
record_bucket-drops_other_example =
    record_bucket-drops_other services backend ctx [] [] bucket "photos" no_quota world refl refl
