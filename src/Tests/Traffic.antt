-- ===== src/Tests/Traffic.antt =====
-- The theorems on the proxy's counters and on names, applied.
use buktio.Base.{◌+◌, ◌≡◌, List, [], ◌∷◌, if◌then◌else◌}
use buktio.Base.Int.{negsuc}
use buktio.Proxy.{Key, Request, samples, length_of_body}
use buktio.Proxy.Totals.{
  Event, served, flushed, run, requests_in, bytes_in_of, bytes_out_of, served_by, run-conserves,
}
use buktio.Runtime.World.{ok, err}
use buktio.Validate.{codes, validate_key_name}
use buktio.Validate.Names.{is_key_name, validate_key_name-is_key_name}

abbrev request : Request
request = record {
  authorization = "AWS4-HMAC-SHA256 Credential=GK1/20240101/garage/s3/aws4_request, Signature=x";
  amz_credential = "";
  path = "/photos/cat.jpg";
  method = "GET";
  content_length = negsuc 0;
}

abbrev photos : Key
photos = record { access_key_id = "GK1"; bucket = "photos"; method = "GET" }

abbrev events : List Event
events = served request 10 ∷ flushed ∷ served request 5 ∷ []

run-conserves_example :
    let (cs, out) = run events [] [] in
    (requests_in photos (samples cs) + requests_in photos out
      ≡ 0 + 0 + served_by photos (λ r n. 1) events)
    × (bytes_in_of photos (samples cs) + bytes_in_of photos out
        ≡ 0 + 0 + served_by photos (λ r n. length_of_body r.content_length) events)
    × (bytes_out_of photos (samples cs) + bytes_out_of photos out
        ≡ 0 + 0 + served_by photos (λ r n. n) events)
run-conserves_example = run-conserves photos events [] []

validate_key_name-is_key_name_example : validate_key_name "ci key_1" ≡ (
    if is_key_name (codes "ci key_1")
    then ok tt
    else err "key name must be 1-64 characters (letters, digits, space, _.-)")
validate_key_name-is_key_name_example = validate_key_name-is_key_name "ci key_1"
