-- ===== src/UpdateServer/Handle/Entries.antt =====
-- The entries of a response of `handle` against the applications of the request.
use xr_browser.Prelude.{
  ℕ, ◌≤◌, ◌<◌, Text, ◌≡◌, ◌≢◌, refl, sym, ap, ◌∙◌, ◌&&◌, Option, none, some, List, [], ◌∷◌, length,
  ltb, leb, text_eq, text_eq_iff, codes, arith, Bool-cases, Option-cases, inl, inr,
}
use xr_browser.Json.{Json, null, int, str, obj, Fields, get}
use xr_browser.UpdateServer.Answer.{
  Code, ok, unknown_field, Ensures, holds, refused, Ensures-bind, Ensures-require, Ensures-eq-ok,
  Ensures-self, Ensures-map,
}
use xr_browser.UpdateServer.Platform.{Platform}
use xr_browser.UpdateServer.Spec.{Channel, channel_of, Spec, app_id, max_appid}
use xr_browser.UpdateServer.Check.{update_check}
use xr_browser.UpdateServer.Handle.{
  Entry, unknown_application, checked, entry_appid, closed, as_object, appid_of, known_channel,
  bucket_of, epoch_of, finish_entry, app_entry, app_entries,
}

module _ (p : Platform) (spec : Spec) where
  -- Another product's entry says so; that of XR holds the update check.
  abbrev pub Decided : Channel → ℕ → Option Text → Option Json → Entry → Type 0
  Decided channel bucket epoch rawv (unknown_application appid) = appid ≢ codes app_id
  Decided channel bucket epoch rawv (checked appid uc) =
      (appid ≡ codes app_id) × (update_check p spec channel bucket epoch rawv ≡ ok uc)

  -- The client's epoch: the text that the field holds, or none where it is absent or null.
  pub data GivesEpoch : Option Json → Option Text → Type 0 where
    absent : GivesEpoch none none
    null_given : GivesEpoch (some null) none
    given : {e : Text} → GivesEpoch (some (str e)) (some e)

  -- The entry answers the application.
  pub record IsAnswered (app : Json) (e : Entry) : Type 0 where
    pub fields : Fields
    pub channel : Channel
    pub bucket : ℕ
    pub epoch : Option Text
    pub is_object : app ≡ obj fields
    pub appid : get (codes "appid") fields ≡ some (str (entry_appid e))
    pub appid_bounds : (0 < length (entry_appid e)) × (length (entry_appid e) ≤ max_appid)
    pub channel_known : channel_of (get (codes "channel") fields) ≡ some channel
    pub bucket_given : get (codes "bucket") fields ≡ some (int bucket)
    pub bucket_bound : bucket ≤ 99
    pub epoch_given : GivesEpoch (get (codes "epoch") fields) epoch
    pub decided : Decided channel bucket epoch (get (codes "version") fields) e

  as_object_ok :
      (d : Text) (c : Code) (v : Json) → Ensures (λ fs. v ≡ obj fs) (as_object p spec d c v)
  unfolding as_object
  as_object_ok d c (obj fs) = holds refl
  as_object_ok d c _ = refused

  appid_of_ok :
      (v : Option Json)
      → Ensures
          (λ t. (v ≡ some (str t)) × (0 < length t) × (length t ≤ max_appid))
          (appid_of p spec v)
  unfolding appid_of
  appid_of_ok (some (str t)) = elim (Bool-cases (ltb 0 (length t) && leb (length t) max_appid)) [
    | inl fits ↦ rw fits (holds (refl, ground arith, ground arith))
    | inr misfit ↦ rw misfit refused
  ]
  appid_of_ok _ = refused

  known_channel_ok :
      (v : Option Json) → Ensures (λ c. channel_of v ≡ some c) (known_channel p spec v)
  unfolding known_channel
  known_channel_ok v = elim (Option-cases (channel_of v)) [
    | inl unknown ↦ rw (unknown, known_channel) refused
    | inr (c, known) ↦ rw (known, known_channel) (holds refl)
  ]

  bucket_of_ok :
      (v : Option Json) → Ensures (λ n. (v ≡ some (int n)) × (n ≤ 99)) (bucket_of p spec v)
  unfolding bucket_of
  bucket_of_ok (some (int n)) = elim (Bool-cases (leb n 99)) [
    | inl fits ↦ rw fits (holds (refl, ground arith))
    | inr misfit ↦ rw misfit refused
  ]
  bucket_of_ok _ = refused

  epoch_of_ok : (v : Option Json) → Ensures (GivesEpoch v) (epoch_of p spec v)
  unfolding epoch_of
  epoch_of_ok none = holds absent
  epoch_of_ok (some null) = holds null_given
  epoch_of_ok (some (str e)) = holds given
  epoch_of_ok _ = refused

  finish_entry_ok :
      (appid : Text) (channel : Channel) (bucket : ℕ) (epoch : Option Text) (rawv : Option Json)
      → Ensures
          (λ e. (entry_appid e ≡ appid) × Decided channel bucket epoch rawv e)
          (finish_entry p spec appid channel bucket epoch rawv)
  unfolding finish_entry
  finish_entry_ok appid channel bucket epoch rawv =
      elim (Bool-cases (text_eq appid (codes app_id))) [
        | inl ours ↦ rw ours (
            Ensures-bind (Ensures-self (update_check p spec channel bucket epoch rawv))
              (λ uc found. holds (refl, ((text_eq_iff appid (codes app_id)).0 ours, found))))
        | inr other ↦
            rw other (holds (refl, λ same. cc (other, (text_eq_iff appid (codes app_id)).1 same)))
      ]

  app_entry_ok : (os : Fields) (app : Json) → Ensures (IsAnswered app) (app_entry p spec os app)
  unfolding app_entry
  app_entry_ok os app = Ensures-bind (as_object_ok _ _ app) λ fs is_object.
      Ensures-bind
        (Ensures-require (closed ("appid" ∷ "version" ∷ "channel" ∷ "bucket" ∷ "epoch" ∷ []) fs)
          unknown_field (codes "bad app entry"))
        λ _ _. Ensures-bind (appid_of_ok (get (codes "appid") fs)) λ appid appid_is.
          Ensures-bind (known_channel_ok (get (codes "channel") fs)) λ channel channel_is.
            Ensures-bind (bucket_of_ok (get (codes "bucket") fs)) λ bucket bucket_is.
              Ensures-bind (epoch_of_ok (get (codes "epoch") fs)) λ epoch epoch_is.
                Ensures-bind
                  (Ensures-require (closed ("platform" ∷ "version" ∷ "arch" ∷ []) os) unknown_field
                    (codes "bad os entry"))
                  λ _ _.
                    Ensures-map
                      (finish_entry_ok appid channel bucket epoch (get (codes "version") fs))
                      λ e done. record {
                        fields = fs;
                        channel = channel;
                        bucket = bucket;
                        epoch = epoch;
                        is_object = is_object;
                        appid = appid_is.0 ∙ ap (λ t. some (str t)) (sym done.0);
                        appid_bounds = rw done.0 (appid_is.1, appid_is.2);
                        channel_known = channel_is;
                        bucket_given = bucket_is.0;
                        bucket_bound = bucket_is.1;
                        epoch_given = epoch_is;
                        decided = done.1;
                      }

  -- Entry by entry, in the order of the request.
  abbrev pub AllAnswered : List Json → List Entry → Type 0
  AllAnswered [] [] = Unit
  AllAnswered (app ∷ apps) (e ∷ es) = IsAnswered app e × AllAnswered apps es
  AllAnswered _ _ = ⊥

  app_entries_ok :
      (os : Fields) (apps : List Json) → Ensures (AllAnswered apps) (app_entries p spec os apps)
  unfolding app_entries
  app_entries_ok os [] = holds tt
  app_entries_ok os (app ∷ apps) =
      Ensures-bind (app_entry_ok os app)
        λ e here. Ensures-bind (app_entries_ok os apps) λ es later. holds (here, later)

  -- The entries that a request's loop returns answer its applications one for one, in order: each
  -- carries the application's id, and is an unknown application where the id is not XR's, or the
  -- result of the update check on the application's channel, bucket, epoch and version.
  pub app_entries-AllAnswered :
      (os : Fields) (apps : List Json) (es : List Entry)
      → app_entries p spec os apps ≡ ok es
      → AllAnswered apps es
  app_entries-AllAnswered os apps es h = Ensures-eq-ok es (app_entries_ok os apps) h
