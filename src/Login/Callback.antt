-- ===== src/Login/Callback.antt =====
-- auth.go callback, the page that the browser opens after an authorization: what it makes of the
-- query, and its steps with the mutex let go in between.
pub mod Account
pub mod Awaited
pub mod Completes
pub mod Delivered
pub mod Published
pub mod Spent
use trae_api.Prelude.{
  ℕ, String, ◌==◌, string_eq, Bool, true, false, not, ◌&&◌, ◌||◌, Option, none, some, List, [], ◌∷◌,
  ◌⊎◌, inl, inr, if◌then◌else◌, ltb, eqb, or_text,
}
use trae_api.Fault.{Result, ok, err}
use trae_api.Json.{Codec, text, Members, at_key, object_value, first_string}
use trae_api.Login.{
  Credential, LoginAttempt, AuthManager, is_stale, claim, Saved, refused, published, unconfirmed,
  commit, finish_login, Event, run,
}
use trae_api.Login.Link.{ClientConfig}
use trae_api.Refresh.Exchange.{Texts, parse_expiry, jwt_claims}
use trae_api.Refresh.Exchange.Request.{Crypto, Turn, exchange}

pub record Page : Type 0 where
  pub status : ℕ
  pub shown : String

-- The request, and what the code meets while it serves it: whether its context is done, the clock,
-- the turns of an exchange, what reconcilePublished says of the save, and the steps of other goroutines while the
-- mutex is free.
pub record Arrival : Type 0 where
  pub done_before : Bool
  -- the length of r.URL.RawQuery
  pub query_bytes : ℕ
  pub get : String → String
  pub claimed_at : ℕ
  pub first : Turn
  pub second : Turn
  pub exchanged_at : ℕ
  pub meanwhile : List Event
  pub done_after : Bool
  pub committed_at : ℕ
  pub saved : Credential → Saved
  pub afterwards : List Event

abbrev or_time : ℕ → ℕ → ℕ
or_time s t = if eqb s 0 then t else s

abbrev pub trace_id : (String → String) → String
trace_id get = or_text (get "loginTraceID") (get "login_trace_id")

abbrev pub done_page : Page
done_page = record { status = 200; shown = "登录成功，可以关闭此页面并返回 trae-api。" }

module _ ⦃go : Codec⦄ ⦃texts : Texts⦄ ⦃crypto : Crypto⦄ where
  abbrev pub is_foreign : (String → String) → Bool
  is_foreign get =
      let info = object_value (text (get "userInfo")) in
      let region = or_text (first_string info ("Region" ∷ "region" ∷ [])) (get "region") in
      not (region == "") && not (texts.equal_fold region "CN")

  -- The credential as the query gives it.
  unfoldable pub from_query : ClientConfig → (String → String) → LoginAttempt → Credential
  unfolding parse_expiry
  from_query cfg get p =
      let jwt = object_value (text (get "userJwt")) in
      let info = object_value (text (get "userInfo")) in
      record {
        token = first_string jwt ("Token" ∷ "token" ∷ []);
        refresh_token =
            or_text
              (or_text (first_string jwt ("RefreshToken" ∷ "refreshToken" ∷ []))
                (get "refreshToken"))
              (get "data");
        user_id =
            or_text (first_string info ("UserID" ∷ "UserId" ∷ "userId" ∷ "userID" ∷ []))
              (get "userId");
        client_id =
            or_text (or_text (first_string jwt ("ClientID" ∷ "clientId" ∷ [])) (get "clientID"))
              cfg.client_id;
        expires_at =
            or_time (parse_expiry (at_key jwt "TokenExpireAt"))
              (parse_expiry (at_key jwt "tokenExpireAt"));
        refresh_expires_at =
            or_time
              (or_time (parse_expiry (at_key jwt "RefreshExpireAt"))
                (parse_expiry (at_key jwt "refreshExpireAt")))
              (parse_expiry (text (get "refreshExpireAt")));
        refresh_pending = false;
        device_id = p.device;
        machine_id = p.machine;
        device_key = p.key;
      }

  -- The user id and the expiry that only the claims of the token give.
  unfoldable pub with_claims : Credential → Credential
  unfolding parse_expiry jwt_claims
  with_claims c =
      let claims = jwt_claims c.token in
      record c {
        user_id =
            or_text c.user_id (first_string claims ("user_id" ∷ "userId" ∷ "UserID" ∷ "sub" ∷ []));
        expires_at = or_time c.expires_at (parse_expiry (at_key claims "exp"));
      }

  -- A credential without a token is exchanged for one that has it.
  abbrev pub with_token : Arrival → Credential → Result Credential
  with_token r c =
      let exchanged = exchange r.exchanged_at r.first r.second c in
      if c.token == "" then exchanged.0 else ok c

  abbrev pub complete : Credential → Page ⊎ Credential
  complete c =
      if c.token == "" || c.user_id == ""
      then inl (record { status = 400; shown = "授权缺少账号信息，请重新登录。" })
      else inr c

  -- What callback does without the mutex: a page that ends it, or the credential to publish.
  unfoldable pub prepare : ClientConfig → Arrival → LoginAttempt → Page ⊎ Credential
  unfolding from_query with_claims
  prepare cfg r p =
      if is_foreign r.get
      then inl (record { status = 400; shown = "仅支持国内版 Trae CN 账号。" })
      else (elim (with_token r (from_query cfg r.get p)) [
        | err e ↦ inl (record { status = 400; shown = "未收到有效凭证，令牌兑换失败，请重新登录。" })
        | ok c ↦ complete (with_claims c)
      ])

  -- The last part with the mutex: the page and the state that commit leaves.
  unfoldable pub conclude :
      Arrival → String → LoginAttempt → Credential → AuthManager → Page × AuthManager
  unfolding commit
  conclude r state p c a =
      let saved = if a.has_store then r.saved c else published in
      let committed = commit r.done_after r.committed_at state p c saved a in
      let page =
        if is_stale r.done_after r.committed_at state p a
        then record { status = 400; shown = "登录状态已改变，请重新登录。" }
        else (elim saved as (λ _. Page) [
          | refused ↦ record { status = 503; shown = "凭证保存失败，请重新登录。" }
          | unconfirmed ↦ record { status = 503; shown = "凭证当前可用，但磁盘持久化未确认；重启前请重新登录。" }
          | published ↦ done_page
        ]) in
      (page, committed.1)

  -- After the claim, finishLogin runs last, whatever the page is.
  unfoldable pub after_claim :
      ClientConfig → Arrival → String → LoginAttempt → AuthManager → Page × AuthManager
  unfolding prepare conclude finish_login run
  after_claim cfg r state p a =
      let b = run r.meanwhile a in
      let ended : Page × AuthManager = elim (prepare cfg r p) [
        | inl page ↦ (page, b)
        | inr c ↦ conclude r state p c b
      ] in
      (ended.0, finish_login state (run r.afterwards ended.1))

  unfoldable pub callback : ClientConfig → Arrival → AuthManager → Page × AuthManager
  callback cfg r a =
      let state = trace_id r.get in
      let claimed = claim r.claimed_at state a in
      if r.done_before
      then (record { status = 400; shown = "授权请求已取消，请重新发起登录。" }, a)
      else if ltb 65536 r.query_bytes
      then (record { status = 400; shown = "授权回调过大。" }, a)
      else (elim claimed.0 [
        | none ↦ (record { status = 400; shown = "授权已失效或已使用，请重新发起登录。" }, claimed.1)
        | some p ↦ after_claim cfg r state p claimed.1
      ])
