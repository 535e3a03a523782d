-- ===== src/AuthService/Running/Closed.antt =====
-- auth_service.go Run: what is left of the Auth service when Run has returned.
use trae_api.Prelude.{
  String, ◌==◌, string_eq, true, false, Option, some, ◌≡◌, refl, inl, inr, Bool-cases, Option-cases,
  arith, ◌∙◌, ℕ, text_eq_iff, text_eq_refl,
}
use trae_api.Fault.{failure, err}
use trae_api.Http.{Urls, Url, denied}
use trae_api.Server.Config.{Net}
use trae_api.Login.{AuthManager, Device, begin_login}
use trae_api.Store.{lock_path}
use trae_api.Store.Owner.{close_store}
use trae_api.AuthService.Routes.{AuthRequest, is_callback_host, admit}
use trae_api.AuthService.Running.{
  AuthService, Bound, unbound, outside, loopback, listen, Closing, shutdown, Ending, run_service,
}

-- The service has let go of its store, its context is cancelled and no callback is expected.
record IsClosed (path : String) (s : AuthService) : Type 0 where
  callback_url : s.manager.callback_url ≡ ""
  cancelled : s.cancelled ≡ true
  unlocked : s.disk.locked (lock_path path) ≡ false

shutdown-IsClosed :
    (io : Closing) (s : AuthService) {path : String}
    → s.down ≡ false
    → s.held ≡ true
    → s.store_path ≡ path
    → IsClosed path (shutdown io s).1
unfolding shutdown
shutdown-IsClosed io s h k p =
    rw (h, shutdown)
      (record {
        callback_url = refl;
        cancelled = refl;
        unlocked = rw (k, close_store) (rw (p, text_eq_refl (lock_path _)) refl);
      })

listen-keeps :
    (bound : Bound) (s : AuthService)
    → ((listen bound s).1.down ≡ s.down)
      × ((listen bound s).1.held ≡ s.held)
      × ((listen bound s).1.store_path ≡ s.store_path)
unfolding listen
listen-keeps bound s = elim (Bool-cases s.has_listener) [
  | inl e ↦ ground arith
  | inr e ↦ listened bound s e
]
  where
    listened :
        (bound : Bound) (s : AuthService)
        → s.has_listener ≡ false
        → ((listen bound s).1.down ≡ s.down)
          × ((listen bound s).1.held ≡ s.held)
          × ((listen bound s).1.store_path ≡ s.store_path)
    listened (unbound x) s e = ground arith
    listened outside s e = ground arith
    listened (loopback x) s e = ground arith

run_service-IsClosed :
    (bound : Bound) (serving : AuthManager → AuthManager) (ending : Ending) (io : Closing)
    (s : AuthService)
    → s.down ≡ false
    → s.held ≡ true
    → IsClosed s.store_path (run_service bound serving ending io s).1
unfolding run_service
run_service-IsClosed bound serving ending io s h k =
    let (x, y, z) = listen-keeps bound s in
    elim (Option-cases (listen bound s).0) [
      | inl e ↦ rw (e, run_service) (shutdown-IsClosed io _ (x ∙ h) (y ∙ k) z)
      | inr (f, e) ↦ rw (e, run_service) (shutdown-IsClosed io _ (x ∙ h) (y ∙ k) z)
    ]

empty : {t : String} → t ≡ "" → (t == "") ≡ true
empty {t} e = (text_eq_iff t "").1 e

no_callback-begin :
    (now : ℕ) (id : String) (drawn : Option Device) (a : AuthManager)
    → a.callback_url ≡ ""
    → (begin_login now id drawn a).0
      ≡ err (failure "authorization callback listener is unavailable")
unfolding begin_login
no_callback-begin now id drawn a e =
    let q : (a.callback_url == "") ≡ true = empty e in ground (arith, q)

module _ ⦃net : Net⦄ ⦃urls : Urls⦄ where
  no_host :
      (host : String)
      → ((u : Url) → urls.parse "" ≡ some u → u.host ≡ "")
      → is_callback_host "" host ≡ false
  no_host host hostless = elim (Option-cases (urls.parse "")) [
    | inl e ↦ rw (e, is_callback_host) refl
    | inr (u, e) ↦
        let q : (u.host == "") ≡ true = empty (hostless u e) in
        rw (e, is_callback_host) (rw (q) refl)
  ]

  no_callback-denied :
      (callback : String) (r : AuthRequest)
      → callback ≡ ""
      → ((u : Url) → urls.parse "" ≡ some u → u.host ≡ "")
      → admit callback r ≡ denied 403 "non-local Auth request denied"
  unfolding admit
  no_callback-denied callback r e hostless = rw (e) (
      let q : is_callback_host "" r.request.host ≡ false = no_host r.request.host hostless in
      rw (q, admit) refl)

  -- Whether or not Auth could listen and however its serving ended, when Run returns the lock of the
  -- store is free, every request is denied and no login can begin, if the service had not been shut
  -- down, held its store and the URL "" has no host.
  pub run_service-closed :
      (bound : Bound) (serving : AuthManager → AuthManager) (ending : Ending) (io : Closing)
      (s : AuthService) (r : AuthRequest) (now : ℕ) (id : String) (drawn : Option Device)
      → s.down ≡ false
      → s.held ≡ true
      → ((u : Url) → urls.parse "" ≡ some u → u.host ≡ "")
      → ((run_service bound serving ending io s).1.disk.locked (lock_path s.store_path) ≡ false)
        × (admit (run_service bound serving ending io s).1.manager.callback_url r
            ≡ denied 403 "non-local Auth request denied")
        × ((begin_login now id drawn (run_service bound serving ending io s).1.manager).0
            ≡ err (failure "authorization callback listener is unavailable"))
  run_service-closed bound serving ending io s r now id drawn h k hostless =
      let c = run_service-IsClosed bound serving ending io s h k in
      (
        c.unlocked,
        no_callback-denied _ r c.callback_url hostless,
        no_callback-begin now id drawn _ c.callback_url,
      )
