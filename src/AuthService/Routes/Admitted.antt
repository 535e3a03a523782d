-- ===== src/AuthService/Routes/Admitted.antt =====
-- auth_service.go routes: which requests are served.
use trae_api.Prelude.{
  String, ◌==◌, ◌<>◌, string_eq, Bool, true, false, not, ◌&&◌, ◌||◌, some, ◌≡◌, ◌≢◌, ◌⊎◌, inl, inr,
  text_eq_iff, ◌↔◌, arith, Option-cases, if◌then◌else◌,
}
use trae_api.Server.Config.{Net, is_loopback}
use trae_api.Http.{Urls, Url, Request, denied, served, local_management_host, same_origin}
use trae_api.AuthService.Routes.{AuthRequest, is_local_peer, is_callback_host, admit}

-- The page of a browser that sends the request comes from the host itself, or the request names no origin
-- and is not a cross-site fetch.
abbrev pub SameOrigin : Request → Type 0
SameOrigin r =
    ((r.origin ≡ "") × (r.sec_fetch_site ≢ "cross-site"))
    ⊎ ((r.origin ≢ "") × ((r.origin ≡ "http://" <> r.host) ⊎ (r.origin ≡ "https://" <> r.host)))

same_origin_iff : (r : Request) → (same_origin r ≡ true) ↔ SameOrigin r
unfolding same_origin
same_origin_iff r =
    let a = text_eq_iff r.origin "" in
    let b = text_eq_iff r.sec_fetch_site "cross-site" in
    let c = text_eq_iff r.origin ("http://" <> r.host) in
    let d = text_eq_iff r.origin ("https://" <> r.host) in
    (λ h. ground (arith, a, b, c, d, h), λ h. ground (arith, a, b, c, d, h))

module _ ⦃net : Net⦄ ⦃urls : Urls⦄ where
  -- The host is that of the URL.
  abbrev pub IsHostOf : String → String → Type 0
  IsHostOf callback host =
      (u : Url) × (urls.parse callback ≡ some u) × (u.host ≢ "") × (host ≡ u.host)

  -- A text that is a host alone, which is this machine.
  abbrev pub IsLocalHost : String → Type 0
  IsLocalHost host =
      (u : Url) × (urls.parse ("http://" <> host) ≡ some u)
      × (u.host ≡ host)
      × (u.has_user ≡ false)
      × (u.path ≡ "")
      × (u.raw_query ≡ "")
      × (u.fragment ≡ "")
      × ((urls.equal_fold u.hostname "localhost" ≡ true)
          ⊎ (is_loopback (net.parse_ip u.hostname) ≡ true))

  abbrev pub IsLocalPeer : String → Type 0
  IsLocalPeer addr =
      (p : String × String) × (net.split_host_port addr ≡ some p)
      × (is_loopback (net.parse_ip p.0) ≡ true)

  is_callback_host_iff :
      (callback host : String) → (is_callback_host callback host ≡ true) ↔ IsHostOf callback host
  is_callback_host_iff callback host = (
    λ h. elim (Option-cases (urls.parse callback)) [
      | inl e ↦ absurd (ground (arith, e, h))
      | inr (u, e) ↦
          let a = text_eq_iff u.host "" in
          let b = text_eq_iff host u.host in
          (u, e, ground (arith, e, a, b, h), ground (arith, e, a, b, h))
    ],
    λ (u, e, n, k).
        rw (e, is_callback_host)
          (ground (arith, text_eq_iff u.host "", text_eq_iff host u.host, n, k)),
  )

  alone :
      (a b c d e f g : Bool)
      → (if not a || b || not c || not d || not e then false else f || g) ≡ true
      → (a ≡ true) × (b ≡ false) × (c ≡ true) × (d ≡ true) × (e ≡ true) × ((f ≡ true) ⊎ (g ≡ true))
  alone a b c d e f g h =
      (ground arith, ground arith, ground arith, ground arith, ground arith, ground arith)

  all_alone :
      (a b c d e f g : Bool)
      → (a ≡ true) × (b ≡ false) × (c ≡ true) × (d ≡ true) × (e ≡ true) × ((f ≡ true) ⊎ (g ≡ true))
      → (if not a || b || not c || not d || not e then false else f || g) ≡ true
  all_alone a b c d e f g h = ground arith

  local_management_host_iff :
      (host : String) → (local_management_host host ≡ true) ↔ IsLocalHost host
  unfolding local_management_host
  local_management_host_iff host = (
    λ h. elim (Option-cases (urls.parse ("http://" <> host))) [
      | inl e ↦ absurd (ground (arith, e, h))
      | inr (u, e) ↦
          let k : (if not (u.host == host)
                  || u.has_user
                  || not (u.path == "")
                  || not (u.raw_query == "")
                  || not (u.fragment == "")
                then false
                else urls.equal_fold u.hostname "localhost"
                  || is_loopback (net.parse_ip u.hostname))
              ≡ true =
            ground (arith, e, h) in
          let (a, b, c, d, f, g) = alone _ _ _ _ _ _ _ k in
          (
            u,
            e,
            (text_eq_iff _ _).0 a,
            b,
            (text_eq_iff _ _).0 c,
            (text_eq_iff _ _).0 d,
            (text_eq_iff _ _).0 f,
            g,
          )
    ],
    λ (u, e, a, b, c, d, f, g).
        rw (e, local_management_host)
          (all_alone _ _ _ _ _ _ _ (
            (text_eq_iff _ _).1 a,
            b,
            (text_eq_iff _ _).1 c,
            (text_eq_iff _ _).1 d,
            (text_eq_iff _ _).1 f,
            g,
          )),
  )

  is_local_peer_iff : (addr : String) → (is_local_peer addr ≡ true) ↔ IsLocalPeer addr
  is_local_peer_iff addr = (
    λ h. elim (Option-cases (net.split_host_port addr)) [
      | inl e ↦ absurd (ground (arith, e, h))
      | inr (p, e) ↦ (p, e, ground (arith, e, h))
    ],
    λ (p, e, h). rw (e, is_local_peer) h,
  )

  -- What admit asks of the tests.
  abbrev Passes : AuthRequest → Type 0
  Passes r =
      (((r.path == "/authorize") ≡ true) × ((r.method == "GET") ≡ true))
      ⊎ (((r.path == "/authorize") ≡ false) × (same_origin r.request ≡ true))

  passed :
      (callback : String) (r : AuthRequest)
      → admit callback r ≡ served
      → (is_callback_host callback r.request.host ≡ true)
        × (local_management_host r.request.host ≡ true)
        × (is_local_peer r.remote_addr ≡ true)
        × Passes r
  unfolding admit
  passed callback r h = chosen _ _ _ _ _ _ h
    where
      chosen :
          (a b c p m s : Bool)
          → (if not a || not b || not c || p && not m
              then denied 403 "non-local Auth request denied"
              else if not p && not s
              then denied 403 "cross-origin management request denied"
              else served)
            ≡ served
          → (a ≡ true)
            × (b ≡ true)
            × (c ≡ true)
            × (((p ≡ true) × (m ≡ true)) ⊎ ((p ≡ false) × (s ≡ true)))
      chosen a b c p m s h = (ground arith, ground arith, ground arith, ground arith)

  passes :
      (callback : String) (r : AuthRequest)
      → is_callback_host callback r.request.host ≡ true
      → local_management_host r.request.host ≡ true
      → is_local_peer r.remote_addr ≡ true
      → Passes r
      → admit callback r ≡ served
  unfolding admit
  passes callback r a b c h = rw (a) (rw (b) (rw (c) (ground (arith, h))))

  -- The request comes from this machine, to the host that Auth listens on, and either is the browser's
  -- GET of the callback or comes from the same origin.
  pub record Admitted (callback : String) (r : AuthRequest) : Type 0 where
    pub host : IsHostOf callback r.request.host
    pub local : IsLocalHost r.request.host
    pub peer : IsLocalPeer r.remote_addr
    pub origin :
        ((r.path ≡ "/authorize") × (r.method ≡ "GET"))
        ⊎ ((r.path ≢ "/authorize") × SameOrigin r.request)

  -- Auth serves a request exactly if its host is that of the URL on which Auth listens, "http://" and the
  -- host parse into a URL of that host alone whose name is localhost or a loopback address, the peer has a
  -- loopback address, and either the path is "/authorize" and the method GET, or the path is another one and
  -- the origin is absent and the fetch not cross-site, or is "http://" or "https://" with that host.
  pub admit_iff :
      (callback : String) (r : AuthRequest) → (admit callback r ≡ served) ↔ Admitted callback r
  admit_iff callback r =
      let a = is_callback_host_iff callback r.request.host in
      let b = local_management_host_iff r.request.host in
      let c = is_local_peer_iff r.remote_addr in
      let d = same_origin_iff r.request in
      let p = text_eq_iff r.path "/authorize" in
      let m = text_eq_iff r.method "GET" in
      (
        λ h.
            let g = passed callback r h in
            record {
              host = a.0 g.0;
              local = b.0 g.1;
              peer = c.0 g.2;
              origin = elim g.3 [
                | inl (x, y) ↦ inl (p.0 x, m.0 y)
                | inr (x, y) ↦ inr (λ q. absurd (ground (arith, p, q, x)), d.0 y)
              ];
            },
        λ h. passes callback r (a.1 h.host) (b.1 h.local) (c.1 h.peer) (elim h.origin [
          | inl (x, y) ↦ inl (p.1 x, m.1 y)
          | inr (x, y) ↦ inr (ground (arith, p, x), d.1 y)
        ]),
      )
