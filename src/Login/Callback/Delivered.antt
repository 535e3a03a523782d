-- ===== src/Login/Callback/Delivered.antt =====
-- auth.go callback with credential_store.go: from a login in the browser to the credential that the API
-- reads.
use trae_api.Prelude.{
  ℕ, ◌+◌, ◌<◌, ◌≤◌, String, string_eq, Bool, true, false, Option, none, some, List, ◌≡◌, ◌≢◌, refl,
  ◌∙◌, leb, len, Assoc, lookup, All, arith, inr, pos,
}
use trae_api.Fault.{Fault, Result, ok, err}
use trae_api.Json.{Codec}
use trae_api.Login.{
  Credential, AuthManager, Device, begin_login, ten_minutes, Saved, refused, published, unconfirmed,
  Event, run,
}
use trae_api.Login.Link.{ClientConfig, link_query, get}
use trae_api.Login.Callback.{Page, Arrival, prepare, callback}
use trae_api.Login.Callback.Awaited.{IsHarmless}
use trae_api.Login.Callback.Completes.{attempt_of, IsTimely, IsDone, login_completes}
use trae_api.Refresh.{reconcile_published}
use trae_api.Refresh.Exchange.{Texts}
use trae_api.Refresh.Exchange.Request.{Crypto}
use trae_api.Store.{Disk, Calls}
use trae_api.Store.Codec.{Encoding, api_view}
use trae_api.Store.Read.{max_file, load, read_api_credential}
use trae_api.Store.Save.{prepare_save, save}
use trae_api.Store.RoundTrip.{quiet}
use trae_api.Store.Served.{SharesNames, seen_at, read-save}

-- The store of Auth when a callback saves: its disk and path, the temporary name, and the answers of the
-- system calls of Save and of the Load of reconcilePublished.
pub record Saving : Type 0 where
  pub io : Calls
  pub inner : Calls
  pub loading : Calls
  pub temp : String
  pub path : String
  pub held : Bool
  pub disk : Disk

abbrev published_how : Bool × Option Fault → Saved
published_how (false, e) = refused
published_how (true, none) = published
published_how (true, some e) = unconfirmed

module _ ⦃go : Encoding⦄ where
  abbrev pub saved_state : Saving → Credential → Result (Unit {0}) × Disk
  saved_state s c = save s.io s.inner s.temp s.path s.held c s.disk

  -- What callback learns of a save.
  unfoldable pub save_callback : Saving → Credential → Saved
  unfolding save load reconcile_published
  save_callback s c =
      let saved = saved_state s c in
      published_how (reconcile_published c saved.0 (load s.loading s.path saved.1))

  -- The save of a credential succeeds, under a temporary name that is fresh and not the path, and its text
  -- fits the limit of the reader.
  pub record Succeeds (s : Saving) (c : Credential) : Type 0 where
    pub fresh : lookup s.temp s.disk.files ≡ none
    pub apart : s.temp ≢ s.path
    pub fits :
        (text : String)
        → prepare_save s.io s.inner s.path s.held c s.disk ≡ ok text
        → len text ≤ max_file
    pub success : (saved_state s c).0 ≡ ok tt

  published_of_success :
      (c : Credential) (saved : Result (Unit {0})) (disk : Result Credential)
      → saved ≡ ok tt
      → published_how (reconcile_published c saved disk) ≡ published
  unfolding reconcile_published
  published_of_success c (ok x) disk h = refl
  published_of_success c (err e) disk h = absurd (cc)

  save_callback-published :
      (s : Saving) (c : Credential) → Succeeds s c → save_callback s c ≡ published
  unfolding save_callback
  save_callback-published s c h = published_of_success c _ _ h.success

  seen_valid :
      (now : ℕ) (c : Credential) → now < c.expires_at → seen_at now c ≡ ok (api_view (pos 1) c)
  seen_valid now c h = let e : leb c.expires_at now ≡ false = ground arith in rw (e) refl

module _ ⦃go : Codec⦄ ⦃texts : Texts⦄ ⦃crypto : Crypto⦄ ⦃encoding : Encoding⦄ where
  -- The login is done, and the API reads what it knows of the credential.
  abbrev pub IsDelivered : String → ℕ → ℕ → Credential → Saving → Page × AuthManager → Type 0
  IsDelivered id later at c s o =
      IsDone id later c o
      × (read_api_credential quiet s.path at (saved_state s c).1 ≡ ok (api_view (pos 1) c))

  -- A login that begins where Auth listens reaches the API: when the query of its callback brings back the
  -- trace id of the authorization link and gives a credential, the callback is timely, only harmless
  -- steps of other goroutines come in between and the credential is saved, then the page says that the login is
  -- done, the credential is the manager's, the status of the attempt is completed, and the API reads
  -- the credential from the file as the save has left it until the credential expires, if the text of a stored
  -- credential is decoded into the part that the API knows and no system call of the read fails.
  pub login-IsDelivered :
      (cfg : ClientConfig) (now : ℕ) (id : String) (d : Device) (q : Assoc String String)
      (a : AuthManager) (es : List Event) (r : Arrival) (c : Credential) (later : ℕ)
      (names : SharesNames encoding) (s : Saving) (at : ℕ)
      → a.callback_url ≢ ""
      → id ≢ ""
      → All (IsHarmless id (now + ten_minutes)) es
      → IsTimely id (now + ten_minutes) r
      → r.get "loginTraceID" ≡ get "login_trace_id" (link_query cfg a.callback_url id d q)
      → prepare cfg r (attempt_of now d a.generation) ≡ inr c
      → r.saved c ≡ save_callback s c
      → Succeeds s c
      → at < c.expires_at
      → IsDelivered id later at c s (callback cfg r (run es (begin_login now id (some d) a).1))
  login-IsDelivered cfg now id d q a es r c later names s at listens named before timely traced
        prepared saved h valid =
      (
        login_completes cfg now id d q a es r c later listens named before timely traced prepared
            (saved ∙ save_callback-published s c h),
        read-save names s.io s.inner s.temp s.path s.held c s.disk at h.fresh h.apart h.fits
              h.success
            ∙ seen_valid at c valid,
      )
