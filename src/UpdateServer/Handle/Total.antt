-- ===== src/UpdateServer/Handle/Total.antt =====
-- The exceptions of `handle`, up to the entries of its response.
use xr_browser.Prelude.{
  Whole, plus, minus, length, All, refl, ap, ◌∙◌, Option-cases, ℕ, Text, true, ◌≡◌, ◌≢◌, Option,
  none, some, List, [], ◌∷◌, text_eq, text_eq_iff, text_mem, codes, arith, Bool-cases, inl, inr,
}
use xr_browser.Json.{Json, null, int, str, arr, obj, Fields, end, field, get, keys, Items, items}
use xr_browser.UpdateServer.Answer.{
  Code, ok, raised, unknown_field, malformed_request, bind-ne-raised, bind-ne-raised_at,
  require-ne-raised,
}
use xr_browser.UpdateServer.Platform.{Platform}
use xr_browser.UpdateServer.Spec.{Channel, Spec, app_id}
use xr_browser.UpdateServer.Check.{update_check}
use xr_browser.UpdateServer.Check.Total.{IsConsistent, VersionReads, update_check-ne-raised}
use xr_browser.UpdateServer.Handle.{
  closed, exactly, as_object, appid_of, known_channel, bucket_of, epoch_of, finish_entry, app_entry,
  app_entries, required, as_protocol, as_apps, handle_request, compare_length, check_length,
  body_of, parsed, handle_frame,
}

get_of_key : (k : Text) (fs : Fields) → text_mem k (keys fs) ≡ true → get k fs ≢ none
unfolding get
get_of_key k end h = cc
get_of_key k (field j v fs) h = ground (arith, text_eq_iff k j, text_eq_iff j k, get_of_key k fs)

exactly-keys :
    (fs : Fields)
    → exactly ("protocol" ∷ "os" ∷ "app" ∷ []) fs ≡ true
    → (text_mem (codes "protocol") (keys fs) ≡ true)
      × (text_mem (codes "os") (keys fs) ≡ true)
      × (text_mem (codes "app") (keys fs) ≡ true)
unfolding exactly closed
exactly-keys fs h = ground arith

module _ (p : Platform) (spec : Spec) where
  as_object-ne-raised : (d : Text) (c : Code) (v : Json) → as_object p spec d c v ≢ raised
  unfolding as_object
  as_object-ne-raised d c (obj fs) = λ e. cc
  as_object-ne-raised d c _ = λ e. cc

  appid_of-ne-raised : (v : Option Json) → appid_of p spec v ≢ raised
  unfolding appid_of
  appid_of-ne-raised (some (str t)) = ground arith
  appid_of-ne-raised _ = λ e. cc

  known_channel-ne-raised : (v : Option Json) → known_channel p spec v ≢ raised
  unfolding known_channel
  known_channel-ne-raised v = ground arith

  bucket_of-ne-raised : (v : Option Json) → bucket_of p spec v ≢ raised
  unfolding bucket_of
  bucket_of-ne-raised (some (int n)) = ground arith
  bucket_of-ne-raised _ = λ e. cc

  epoch_of-ne-raised : (v : Option Json) → epoch_of p spec v ≢ raised
  unfolding epoch_of
  epoch_of-ne-raised none = λ e. cc
  epoch_of-ne-raised (some null) = λ e. cc
  epoch_of-ne-raised (some (str e)) = λ e. cc
  epoch_of-ne-raised _ = λ e. cc

  as_protocol-ne-raised : (v : Json) → as_protocol p spec v ≢ raised
  unfolding as_protocol
  as_protocol-ne-raised (str t) = ground arith
  as_protocol-ne-raised _ = λ e. cc

  as_apps-ne-raised : (v : Json) → as_apps p spec v ≢ raised
  unfolding as_apps
  as_apps-ne-raised (arr vs) = ground arith
  as_apps-ne-raised _ = λ e. cc

  required-ne-raised :
      (k : Text) (fs : Fields) → text_mem k (keys fs) ≡ true → required p spec k fs ≢ raised
  unfolding required
  required-ne-raised k fs h = ground (arith, get_of_key k fs)

  compare_length-ne-raised : (body : ℕ) (n : Whole) → compare_length p spec body n ≢ raised
  unfolding compare_length
  compare_length-ne-raised body (plus n) = ground arith
  compare_length-ne-raised body (minus n) = λ e. cc

  check_length-ne-raised :
      (frame : List ℕ) (n : Option Whole) → check_length p spec frame n ≢ raised
  unfolding check_length
  check_length-ne-raised frame none = ground arith
  check_length-ne-raised frame (some n) = ground (arith, compare_length-ne-raised (length frame) n)

  parsed-ne-raised : (v : Option Json) → parsed p spec v ≢ raised
  unfolding parsed
  parsed-ne-raised v = ground arith

  as_object-eq-ok :
      (d : Text) (c : Code) (v : Json) (fs : Fields) → as_object p spec d c v ≡ ok fs → v ≡ obj fs
  unfolding as_object
  as_object-eq-ok d c (obj gs) fs e = cc e
  as_object-eq-ok d c _ fs e = cc

  required-eq-ok :
      (k : Text) (fs : Fields) (v : Json) → required p spec k fs ≡ ok v → get k fs ≡ some v
  unfolding required
  required-eq-ok k fs v e = elim (Option-cases (get k fs)) [
    | inl missing ↦ absurd (ground arith)
    | inr (w, found) ↦ let same = rw (found, required) at e in cc (found, same)
  ]

  as_apps-eq-ok :
      (v : Json) (apps : List Json)
      → as_apps p spec v ≡ ok apps
      → (vs : Items) × (v ≡ arr vs) × (items vs ≡ apps)
  unfolding as_apps
  as_apps-eq-ok (arr vs) apps e = (vs, refl, ground arith)
  as_apps-eq-ok _ apps e = cc

  parsed-eq-ok : (v : Option Json) (req : Json) → parsed p spec v ≡ ok req → v ≡ some req
  unfolding parsed
  parsed-eq-ok none req e = cc
  parsed-eq-ok (some v) req e = cc e

  -- The version of the application, if it is a text, does not make int(…) raise.
  abbrev pub AppReads : Json → Type 0
  AppReads app = (fs : Fields) → app ≡ obj fs → VersionReads p (get (codes "version") fs)

  -- So it is for every application of the request.
  abbrev pub RequestReads : Json → Type 0
  RequestReads req =
      (fs : Fields) (apps : Items)
      → req ≡ obj fs
      → get (codes "app") fs ≡ some (arr apps)
      → All AppReads (items apps)

  -- And of the request that the frame holds, if it holds one.
  abbrev pub FrameReads : List ℕ → Type 0
  FrameReads frame =
      (req : Json) → p.loads (body_of p spec (p.decode frame)) ≡ some req → RequestReads req

  apps_read :
      (req : Json) (fs : Fields) (v : Json) (apps : List Json)
      → RequestReads req
      → req ≡ obj fs
      → get (codes "app") fs ≡ some v
      → as_apps p spec v ≡ ok apps
      → All AppReads apps
  apps_read req fs v apps h is_object given listed =
      let (vs, is_array, same) = as_apps-eq-ok v apps listed in
      rw (← same) (h fs vs is_object (given ∙ ap some is_array))

  module _ (good : IsConsistent p spec) where
    finish_entry-ne-raised :
        (appid : Text) (channel : Channel) (bucket : ℕ) (epoch : Option Text) (rawv : Option Json)
        → VersionReads p rawv
        → finish_entry p spec appid channel bucket epoch rawv ≢ raised
    unfolding finish_entry
    finish_entry-ne-raised appid channel bucket epoch rawv h =
        elim (Bool-cases (text_eq appid (codes app_id))) [
          | inl ours ↦ rw ours (
              bind-ne-raised (update_check p spec channel bucket epoch rawv)
                (update_check-ne-raised p spec good channel bucket epoch rawv h) (λ uc e. cc))
          | inr other ↦ rw other (λ e. cc)
        ]

    app_entry-ne-raised :
        (os : Fields) (app : Json) → AppReads app → app_entry p spec os app ≢ raised
    unfolding app_entry
    app_entry-ne-raised os app h =
        bind-ne-raised_at (as_object p spec (codes "bad app entry") unknown_field app)
          (as_object-ne-raised _ _ app)
          λ fs is_object.
            require-ne-raised
              (closed ("appid" ∷ "version" ∷ "channel" ∷ "bucket" ∷ "epoch" ∷ []) fs) unknown_field
              (codes "bad app entry")
              λ _.
                bind-ne-raised (appid_of p spec (get (codes "appid") fs))
                  (appid_of-ne-raised (get (codes "appid") fs))
                  λ appid.
                    bind-ne-raised (known_channel p spec (get (codes "channel") fs))
                      (known_channel-ne-raised (get (codes "channel") fs))
                      λ channel.
                        bind-ne-raised (bucket_of p spec (get (codes "bucket") fs))
                          (bucket_of-ne-raised (get (codes "bucket") fs))
                          λ bucket.
                            bind-ne-raised (epoch_of p spec (get (codes "epoch") fs))
                              (epoch_of-ne-raised (get (codes "epoch") fs))
                              λ epoch.
                                require-ne-raised (closed ("platform" ∷ "version" ∷ "arch" ∷ []) os)
                                  unknown_field (codes "bad os entry")
                                  λ _.
                                    finish_entry-ne-raised appid channel bucket epoch
                                      (get (codes "version") fs)
                                      (h fs (as_object-eq-ok _ _ app fs is_object))

    app_entries-ne-raised :
        (os : Fields) (apps : List Json) → All AppReads apps → app_entries p spec os apps ≢ raised
    unfolding app_entries
    app_entries-ne-raised os [] h = λ e. cc
    app_entries-ne-raised os (app ∷ apps) h =
        bind-ne-raised (app_entry p spec os app) (app_entry-ne-raised os app h.0) λ e.
          bind-ne-raised (app_entries p spec os apps) (app_entries-ne-raised os apps h.1)
            λ es bad. cc

    handle_request-ne-raised : (req : Json) → RequestReads req → handle_request p spec req ≢ raised
    unfolding handle_request
    handle_request-ne-raised req h =
        bind-ne-raised_at (as_object p spec (codes "request not an object") malformed_request req)
          (as_object-ne-raised _ _ req)
          λ fs is_object.
            require-ne-raised (exactly ("protocol" ∷ "os" ∷ "app" ∷ []) fs) unknown_field
              (codes "request keys must be exactly protocol/os/app")
              λ present.
                let (has_protocol, has_os, has_app) = exactly-keys fs present in
                bind-ne-raised (required p spec (codes "protocol") fs)
                  (required-ne-raised (codes "protocol") fs has_protocol)
                  λ protocol.
                    bind-ne-raised (as_protocol p spec protocol) (as_protocol-ne-raised protocol)
                      λ _.
                        bind-ne-raised (required p spec (codes "os") fs)
                          (required-ne-raised (codes "os") fs has_os)
                          λ os_value.
                            bind-ne-raised
                              (as_object p spec (codes "os must be an object") malformed_request
                                os_value)
                              (as_object-ne-raised _ _ os_value)
                              λ os.
                                bind-ne-raised_at (required p spec (codes "app") fs)
                                  (required-ne-raised (codes "app") fs has_app)
                                  λ app_value given.
                                    bind-ne-raised_at (as_apps p spec app_value)
                                      (as_apps-ne-raised app_value)
                                      λ apps listed. app_entries-ne-raised os apps (
                                        apps_read req fs app_value apps h
                                          (as_object-eq-ok _ _ req fs is_object)
                                          (required-eq-ok (codes "app") fs app_value given) listed)

    pub handle_frame-ne-raised :
        (frame : List ℕ) (n : Option Whole)
        → FrameReads frame
        → handle_frame p spec frame n ≢ raised
    unfolding handle_frame
    handle_frame-ne-raised frame n h =
        bind-ne-raised (check_length p spec frame n) (check_length-ne-raised frame n) λ _.
          bind-ne-raised_at (parsed p spec (p.loads (body_of p spec (p.decode frame))))
            (parsed-ne-raised (p.loads (body_of p spec (p.decode frame))))
            λ req holds. handle_request-ne-raised req (h req (parsed-eq-ok _ req holds))
