-- ===== src/Storage/Signature.antt =====
-- The address of an object and the signature of a request (rustfs_storage.go). SHA-256, HMAC and the
-- parsing of an address are parameters.
use go_video_transcode_servi.Common.{
  Text, codes, text_eq, Bool, true, false, ltb, ◌==◌, ◌||◌, List, [], ◌∷◌, ◌++◌, is_empty,
  trim_space, trim_left_by, trim_right_by, has_prefix, if◌then◌else◌,
}
use go_video_transcode_servi.Storage.{is_slash}

normalize_endpoint : Text → Text
normalize_endpoint e =
    let endpoint = trim_space e in
    if is_empty endpoint
    then codes "http://localhost:9000"
    else if has_prefix endpoint (codes "http://") || has_prefix endpoint (codes "https://")
    then trim_right_by is_slash endpoint
    else codes "http://" ++ trim_right_by is_slash endpoint

pub infer_bucket_from_key : Text → Text
infer_bucket_from_key key =
    let k = trim_left_by is_slash key in
    if has_prefix k (codes "uploads/") || has_prefix k (codes "chunks/")
    then codes "uploads"
    else if has_prefix k (codes "transcoded/") || has_prefix k (codes "hls/")
    then codes "transcode"
    else codes "uploads"

pub record RustFsStorage : Type 0 where
  pub endpoint : Text
  pub access : Text
  pub secret : Text
  pub region : Text

unfoldable new_rustfs_storage : Text → Text → Text → RustFsStorage
unfolding normalize_endpoint
new_rustfs_storage endpoint access secret = record {
  endpoint = normalize_endpoint endpoint;
  access = access;
  secret = secret;
  region = codes "us-east-1";
}

pub s3_url : RustFsStorage → Text → Text → Text
s3_url st bucket key =
    st.endpoint ++ (codes "/" ++ (bucket ++ (codes "/" ++ trim_left_by is_slash key)))

pub record Crypto : Type 0 where
  pub sha256_hex : Text → Text  -- of the text's bytes
  pub hmac_sha256 : Text → Text → Text
  pub hex : Text → Text
  pub host_of : Text → Text  -- url.Parse(u).Host
  pub path_of : Text → Text  -- url.Parse(u).Path
  pub query_of : Text → Text  -- url.Parse(u).RawQuery

-- An HTTP request: its headers by their names in lower case.
pub record Request : Type 0 where
  pub method : Text
  pub url : Text
  pub headers : List (Text × Text)

-- Header.Get, with the empty text for a header that is not there
unfoldable get_header : Text → List (Text × Text) → Text
get_header name [] = []
get_header name ((n, v) ∷ rest) =
    let later = get_header name rest in if text_eq n name then v else later

-- Header.Set
unfoldable set_header : Text → Text → List (Text × Text) → List (Text × Text)
set_header name value [] = (name, value) ∷ []
set_header name value ((n, v) ∷ rest) =
    let later = set_header name value rest in
    if text_eq n name then (name, value) ∷ rest else (n, v) ∷ later

-- The order of sort.Strings.
unfoldable text_less : Text → Text → Bool
text_less [] [] = false
text_less [] (d ∷ t) = true
text_less (c ∷ s) [] = false
text_less (c ∷ s) (d ∷ t) = if c == d then text_less s t else ltb c d

unfoldable insert_sorted : Text → List Text → List Text
unfolding text_less
insert_sorted t [] = t ∷ []
insert_sorted t (u ∷ us) =
    let later = insert_sorted t us in if text_less u t then u ∷ later else t ∷ u ∷ us

unfoldable sort_texts : List Text → List Text
unfolding insert_sorted
sort_texts [] = []
sort_texts (t ∷ ts) = insert_sorted t (sort_texts ts)

-- strings.Join
unfoldable join_by : Text → List Text → Text
join_by sep [] = []
join_by sep (t ∷ []) = t
join_by sep (t ∷ u ∷ ts) = t ++ (sep ++ join_by sep (u ∷ ts))

-- The names of the headers that are signed.
unfoldable signed_headers : List (Text × Text) → List Text
unfolding sort_texts get_header
signed_headers headers =
    let always = codes "host" ∷ codes "x-amz-content-sha256" ∷ codes "x-amz-date" ∷ [] in
    if is_empty (get_header (codes "content-type") headers)
    then sort_texts always
    else sort_texts (always ++ codes "content-type" ∷ [])

canonical_line : Text → List (Text × Text) → Text → Text
canonical_line host headers name =
    name
    ++ (codes ":"
        ++ ((if text_eq name (codes "host")
              then trim_space host
              else trim_space (get_header name headers))
            ++ codes "\n"))

canonical_headers : Text → List (Text × Text) → List Text → Text
unfolding canonical_line
canonical_headers host headers [] = []
canonical_headers host headers (name ∷ names) =
    canonical_line host headers name ++ canonical_headers host headers names

unfoldable canonical_request : Crypto → Request → Text → Text
unfolding canonical_headers join_by signed_headers
canonical_request cr req payload_hash =
    let signed = signed_headers req.headers in
    join_by (codes "\n") (
      req.method
      ∷ cr.path_of req.url
      ∷ cr.query_of req.url
      ∷ canonical_headers (cr.host_of req.url) req.headers signed
      ∷ join_by (codes ";") signed
      ∷ payload_hash
      ∷ [])

-- The keys derived from the secret, one from the other.
signing_key : Crypto → RustFsStorage → Text → Text
signing_key cr st date =
    let k_date = cr.hmac_sha256 (codes "AWS4" ++ st.secret) date in
    let k_region = cr.hmac_sha256 k_date st.region in
    let k_service = cr.hmac_sha256 k_region (codes "s3") in
    cr.hmac_sha256 k_service (codes "aws4_request")

-- The two dates are those of the clock, as 20060102T150405Z and as 20060102.
unfoldable pub sign_s3 : Crypto → RustFsStorage → Text → Text → Request → Text → Request
unfolding signing_key canonical_request set_header signed_headers join_by
sign_s3 cr st amz_date date req payload_hash =
    let host = cr.host_of req.url in
    let headers =
      set_header (codes "host") host (set_header (codes "x-amz-date") amz_date req.headers) in
    let dated = record req { headers = headers } in
    let hash = cr.sha256_hex (canonical_request cr dated payload_hash) in
    let scope = join_by (codes "/") (date ∷ st.region ∷ codes "s3" ∷ codes "aws4_request" ∷ []) in
    let to_sign = join_by (codes "\n") (codes "AWS4-HMAC-SHA256" ∷ amz_date ∷ scope ∷ hash ∷ []) in
    let sig = cr.hex (cr.hmac_sha256 (signing_key cr st date) to_sign) in
    let auth =
      codes "AWS4-HMAC-SHA256 Credential="
      ++ (st.access
          ++ (codes "/"
              ++ (scope
                  ++ (codes ", SignedHeaders="
                      ++ (join_by (codes ";") (signed_headers headers)
                          ++ (codes ", Signature=" ++ sig)))))) in
    record dated { headers = set_header (codes "authorization") auth headers }
