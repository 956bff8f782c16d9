-- ===== src/Fetch/Gitiles.antt =====
-- The callers of `http_get` in fetch.py: the URLs of crates and of the GitHub API, `resolve_ci_run`, and
-- GitilesFetchSource.
use xr_browser.Prelude.{
  ℕ, suc, ◌+◌, String, Text, Bool, true, false, ◌&&◌, Option, none, some, List, [], ◌∷◌, ◌++◌,
  codes, decimal, has_text, starts_with, is_empty, length, ◌==◌, lookup, store, if◌then◌else◌,
}
use xr_browser.Json.{Json, arr, obj, nil, Fields, end, field, get}
use xr_browser.ListPackage.{or_null, iterate, truthy}
use xr_browser.Fetch.{
  Problem, unparseable, not_https, host_refused, http_error, gave_up, not_decoded, no_ref,
  run_not_found, index_error, key_error, json_error, wrong_type, is_fetch_error, Platform, World,
  Outcome, raised, gives, checked_url,
}
use xr_browser.Fetch.Http.{http_get}

-- A function that acts on the world.
abbrev pub Net {ℓ} : Type ℓ → Type ℓ
Net A = World → Outcome A × World

module _ {ℓ κ} {A : Type ℓ} {B : Type κ} where
  abbrev pub continue_with : (A → Net B) → Outcome A × World → Outcome B × World
  continue_with next (raised e, w) = (raised e, w)
  continue_with next (gives a, w) = next a w

  infixl 5 ◌>>=◌
  abbrev pub ◌>>=◌ : Net A → (A → Net B) → Net B
  act >>= next = λ w. continue_with next (act w)

abbrev pub pure {ℓ} : {A : Type ℓ} → A → Net A
pure a w = (gives a, w)

abbrev pub lift {ℓ} : {A : Type ℓ} → Outcome A → Net A
lift o w = (o, w)

abbrev on {ℓ κ} : {A : Type ℓ} {B : Type κ} → Outcome A → (A → Outcome B) → Outcome B
on (raised e) next = raised e
on (gives a) next = next a

-- s.lstrip("/")
unfoldable pub lstrip_slash : Text → Text
lstrip_slash [] = []
lstrip_slash (c ∷ s) = if c == b'/' then lstrip_slash s else c ∷ s

-- raw.split(b"\n", 1)[1]
unfoldable pub after_line : Text → Outcome Text
after_line [] = raised index_error
after_line (c ∷ s) = elim (c == 10) [ true ↦ gives s | false ↦ after_line s ]

unfoldable pub strip_magic : Text → Outcome Text
strip_magic raw = elim (starts_with (codes ")]}'") raw) [
  | true ↦ after_line raw
  | false ↦ gives raw
]

abbrev pub gitiles : Text
gitiles = codes "https://chromium.googlesource.com/chromium/src"

-- d.get(k) on what json.loads gives
abbrev pub get_json : Text → Json → Outcome Json
get_json k (obj fs) = gives (or_null (get k fs))
get_json k _ = raised wrong_type

-- [e["name"] for e in entries]
unfoldable pub names_of : List Json → Outcome (List Json)
names_of [] = gives []
names_of (obj e ∷ es) = elim (get (codes "name") e) [
  | none ↦ raised key_error
  | some v ↦ elim (names_of es) [ raised x ↦ raised x | gives vs ↦ gives (v ∷ vs) ]
]
names_of (_ ∷ es) = raised wrong_type

-- The part of _cached after the network call: the counters and, for an immutable URL, the file.
unfoldable pub keep : Bool → Text → Text → Net Text
keep immutable key data_bytes w = (
  gives data_bytes,
  record w {
    bytes_fetched = w.bytes_fetched + length data_bytes;
    requests = suc w.requests;
    cache = if immutable then store key data_bytes w.cache else w.cache;
  },
)

-- str(sorted(ALLOWED_HOSTS))
abbrev hosts_text : Text
hosts_text =
    codes
      "['api.github.com', 'chromium.googlesource.com', 'chromiumdash.appspot.com', 'commondatastorage.googleapis.com', 'pypi.org', 'static.crates.io']"

module _ (p : Platform) where
  unfoldable pub crates_io_crate_url : Text → Text → Outcome Text
  crates_io_crate_url name version = checked_url p (
      codes "https://static.crates.io/crates/"
      ++ (name ++ (b'/' ∷ (name ++ (b'-' ∷ (version ++ codes ".crate"))))))

  unfoldable pub github_api_url : Text → Outcome Text
  github_api_url path = checked_url p (codes "https://api.github.com/" ++ lstrip_slash path)

  -- str(exc), for the FetchErrors of http_get
  unfoldable pub message : Problem → Text
  message (unparseable url why) =
      codes "unparseable URL " ++ (p.repr (some url) ++ (codes ": " ++ why))
  message (not_https url) =
      codes "non-https URL refused: " ++ (p.repr (some url) ++ codes " (https-only policy)")
  message (host_refused url host) =
      codes "host "
      ++ (p.repr host
          ++ (codes " not on the fetch allowlist (allowed: "
              ++ (hosts_text ++ (codes "); refusing " ++ p.repr (some url)))))
  message (http_error code url) = codes "HTTP " ++ (decimal code ++ (codes " fetching " ++ url))
  message (gave_up url last) =
      codes "fetch failed for " ++ (url ++ (codes " after 3 attempts: " ++ last))
  message _ = []

  unfoldable pub not_found : Problem → Problem
  not_found e =
      if is_fetch_error e && has_text (codes "HTTP 404") (message e)
      then run_not_found (message e)
      else e

  -- except FetchError
  unfoldable pub missing_run : Outcome (Text × Text) × World → Outcome (Text × Text) × World
  missing_run (raised e, w) = (raised (not_found e), w)
  missing_run (gives raws, w) = (gives raws, w)

  unfoldable pub loads : Text → Outcome Json
  loads raw = elim (p.json_loads raw) [ none ↦ raised json_error | some v ↦ gives v ]

  unfoldable pub actions_url : Text → Text → String → ℕ → Text
  actions_url org repo kind id =
      codes "https://api.github.com/repos/"
      ++ (org ++ (b'/' ∷ (repo ++ (codes "/actions/" ++ (codes kind ++ (b'/' ∷ decimal id))))))

  unfoldable pub run_raws : Text → Text → ℕ → ℕ → Net (Text × Text)
  run_raws org repo run_id job_id = do
    run_raw ← http_get p (actions_url org repo "runs" run_id)
    job_raw ← http_get p (actions_url org repo "jobs" job_id)
    pure (run_raw, job_raw)

  unfoldable pub run_fields : Text × Text → Outcome Fields
  run_fields (run_raw, job_raw) = on (loads run_raw) (λ run. on (loads job_raw) (λ job.
      on (get_json (codes "conclusion") job) (λ conclusion.
        on (get_json (codes "status") run) (λ status.
          on (get_json (codes "head_sha") run) (λ head_sha.
            on (get_json (codes "name") run) (λ name.
              on (get_json (codes "html_url") run) (λ html_url. gives (
                field (codes "conclusion") conclusion (
                  field (codes "status") status (
                    field (codes "head_sha") head_sha
                      (field (codes "name") name (field (codes "html_url") html_url end))))))))))))

  unfoldable pub resolve_ci_run : Text → Text → ℕ → ℕ → Net Fields
  resolve_ci_run org repo run_id job_id w =
      continue_with (λ raws. lift (run_fields raws))
        (missing_run (run_raws org repo run_id job_id w))

  -- _cached; the cache holds each file under the digest of its URL.
  unfoldable pub cached : Text → Bool → Net Text
  cached url true w = elim (lookup (p.python.sha256 url) w.cache) [
    | some data_bytes ↦ (gives data_bytes, w)
    | none ↦ continue_with (keep true (p.python.sha256 url)) (http_get p url w)
  ]
  cached url false w = continue_with (keep false (p.python.sha256 url)) (http_get p url w)

  unfoldable pub file_text : Text → Text → Net Text
  file_text rev path = do
    raw ← cached (gitiles ++ (codes "/+/" ++ (rev ++ (b'/' ∷ (path ++ codes "?format=TEXT"))))) true
    lift (elim (p.b64_utf8 raw) [
      | none ↦ raised (not_decoded (rev ++ (b'/' ∷ path)))
      | some text ↦ gives text
    ])

  -- json.loads(_strip_magic(raw))
  unfoldable pub guarded_json : Text → Outcome Json
  guarded_json raw = elim (strip_magic raw) [ raised e ↦ raised e | gives rest ↦ loads rest ]

  entries_of : Json → Outcome (List Json)
  entries_of (obj fs) = elim (get (codes "entries") fs) [
    | none ↦ gives []
    | some v ↦ elim (iterate v) [ none ↦ raised wrong_type | some es ↦ names_of es ]
  ]
  entries_of _ = raised wrong_type

  unfoldable pub dir_listing : Text → Text → Net (List Json)
  unfolding entries_of
  dir_listing rev path = do
    raw ←
        cached (gitiles ++ (codes "/+/" ++ (rev ++ (b'/' ∷ (path ++ codes "/?format=JSON"))))) true
    v ← lift (guarded_json raw)
    lift (entries_of v)

  log_of : Json → Outcome Json
  log_of (obj fs) = elim (get (codes "log") fs) [ none ↦ gives (arr nil) | some v ↦ gives v ]
  log_of _ = raised wrong_type

  -- f"{start}..{ref}", where there is a start
  unfoldable pub log_range : Text → Option Text → Text
  log_range ref none = ref
  log_range ref (some start) = if is_empty start then ref else start ++ (codes ".." ++ ref)

  unfoldable pub log : Text → ℕ → Option Text → Net Json
  unfolding log_of
  log ref n start = do
    raw ←
        cached
          (gitiles
            ++ (codes "/+log/" ++ (log_range ref start ++ (codes "?format=JSON&n=" ++ decimal n))))
          false
    v ← lift (guarded_json raw)
    lift (log_of v)

  unfoldable pub commit : Text → Net Json
  commit rev = do
    raw ← cached (gitiles ++ (codes "/+/" ++ (rev ++ codes "?format=JSON"))) true
    lift (guarded_json raw)

  unfoldable pub releases : Text → Text → ℕ → Net Json
  releases channel platform num = do
    raw ←
        cached
          (codes "https://chromiumdash.appspot.com/fetch_releases?channel="
            ++ (p.quote channel
                ++ (codes "&platform=" ++ (p.quote platform ++ (codes "&num=" ++ decimal num)))))
          false
    lift (loads raw)

  value_at : Json → Outcome Json
  value_at (obj e) = elim (get (codes "value") e) [ none ↦ raised key_error | some v ↦ gives v ]
  value_at _ = raised wrong_type

  ref_of : Text → Json → Outcome Json
  ref_of ref entry = elim (truthy p.python entry) [
    | false ↦ raised (no_ref ref)
    | true ↦ value_at entry
  ]

  unfoldable pub ref_value : Text → Net Json
  unfolding ref_of value_at
  ref_value ref = do
    raw ←
        cached (gitiles ++ (codes "/+refs/" ++ (ref ++ codes "?format=JSON")))
          (starts_with (codes "tags/") ref)
    v ← lift (guarded_json raw)
    entry ← lift (get_json (codes "refs/" ++ ref) v)
    lift (ref_of ref entry)
