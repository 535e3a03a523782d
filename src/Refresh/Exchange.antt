-- ===== src/Refresh/Exchange.antt =====
-- auth.go: the answer of a token exchange (decodeExchange, parseExpiry, jwtClaims). Its firstString
-- and objectValue are, word for word, the functions of models.go that Json models.
--
-- A time is a count of nanoseconds since the zero Time; times before it, numbers that are not finite
-- and seconds that overflow an int64 are left out.
pub mod Request
pub mod Accepted
use trae_api.Prelude.{
  ℕ, ◌+◌, ◌*◌, ◌/◌, ◌^◌, String, ◌==◌, string_eq, Bool, true, false, not, ◌&&◌, ◌||◌, Option, none,
  some, List, [], ◌∷◌, if◌then◌else◌, eqb, or_text,
}
use trae_api.Fault.{
  Fault, failure, login_required, ambiguous_exchange, Result, ok, err, ◌>>=◌, ◌>>◌, reject,
}
use trae_api.Json.{
  Codec, Number, is_positive, exceeds, Value, object, Members, end, at_key, object_value,
  first_string,
}
use trae_api.Login.{Credential}

-- What fmt, strconv, time, strings and encoding/base64 are used for.
pub record Texts : Type 0 where
  -- fmt.Sprint
  pub sprint : Value → String
  -- strconv.ParseFloat: the number, when there is no error
  pub parse_float : String → Option Number
  -- time.Parse
  pub parse_time : String → String → Option ℕ
  -- strings.Split at "."
  pub split_dots : String → List String
  -- base64.RawURLEncoding.DecodeString
  pub unbase64_url : String → Option String
  -- strings.EqualFold
  pub equal_fold : String → String → Bool

-- time.Unix(s, 0)
abbrev pub unix : ℕ → ℕ
unix s = (s + 62135596800) * 1000000000

module _ ⦃go : Codec⦄ ⦃texts : Texts⦄ where
  unfoldable pub parse_expiry : Value → ℕ
  parse_expiry v =
      let s = texts.sprint v in
      let date : ℕ = elim (texts.parse_time "2006-01-02T15:04:05.999999999Z07:00" s) [
        | some t ↦ t
        | none ↦ (elim (texts.parse_time "2006-01-02 15:04:05" s) [ some t ↦ t | none ↦ 0 ])
      ] in
      elim (texts.parse_float s) [
        | none ↦ date
        | some n ↦
            if is_positive n
            then unix (if exceeds n (10 ^ 12) then n.whole / 1000 else n.whole)
            else date
      ]

  abbrev claims : Option String → Option Members
  claims none = none
  claims (some b) = elim (go.unmarshal b) [ some (object m) ↦ some m | _ ↦ none ]

  unfoldable pub jwt_claims : String → Option Members
  jwt_claims token = elim (texts.split_dots token) [
    | a ∷ b ∷ c ∷ [] ↦ claims (texts.unbase64_url b)
    | _ ↦ none
  ]

  abbrev or_time : ℕ → ℕ → ℕ
  or_time s t = if eqb s 0 then t else s

  abbrev result_object : Option Members → Option Members
  result_object root = elim (at_key root "Result") [
    | object m ↦ some m
    | _ ↦ (elim (at_key root "result") [ object m ↦ some m | _ ↦ root ])
  ]

  -- The texts and times of the answer, over those of the old credential.
  abbrev pub renewed : String → Option Members → Credential → Credential
  renewed token payload c = record c {
    token = token;
    refresh_token =
        or_text (first_string payload ("RefreshToken" ∷ "refreshToken" ∷ [])) c.refresh_token;
    client_id = or_text (first_string payload ("ClientID" ∷ "clientId" ∷ [])) c.client_id;
    expires_at =
        or_time
          (or_time (parse_expiry (at_key payload "TokenExpireAt"))
            (parse_expiry (at_key payload "tokenExpireAt")))
          (parse_expiry (at_key (jwt_claims token) "exp"));
    refresh_expires_at =
        or_time
          (or_time (parse_expiry (at_key payload "RefreshExpireAt"))
            (parse_expiry (at_key payload "refreshExpireAt")))
          c.refresh_expires_at;
  }

  abbrev user_info : Option Members → Option Members
  user_info payload = elim (object_value (at_key payload "UserInfo")) [
    | none ↦ object_value (at_key payload "userInfo")
    | some end ↦ object_value (at_key payload "userInfo")
    | some m ↦ some m
  ]

  abbrev pub with_user : String → Credential → Result Credential
  with_user user c =
      if user == ""
      then ok c
      else if not (c.user_id == "") && not (c.user_id == user)
      then err login_required
      else ok (record c { user_id = user })

  -- The loop over the places of the user id.
  abbrev pub users : List (Option Members) → Credential → Result Credential
  users [] c = ok c
  users (source ∷ sources) c =
      with_user (first_string source ("UserID" ∷ "userId" ∷ [])) c >>= users sources

  abbrev foreign : Option Members → Bool
  foreign info =
      let region = first_string info ("Region" ∷ "region" ∷ []) in
      not (region == "") && not (texts.equal_fold region "CN")

  abbrev pub accept : Option Members → Credential → Result Credential
  accept root c =
      let payload = result_object root in
      let token = first_string payload ("Token" ∷ "token" ∷ "AccessToken" ∷ "accessToken" ∷ []) in
      let info = user_info payload in
      reject (token == "") ambiguous_exchange
      >> reject (foreign info) (failure "only CN accounts are supported")
      >> users (info ∷ payload ∷ []) (renewed token payload c)

  -- The status, and what the decoder makes of the body: an error, or a map that may be nil.
  unfoldable pub decode_exchange : ℕ → Option (Option Members) → Credential → Result Credential
  unfolding parse_expiry jwt_claims
  decode_exchange status body c =
      if eqb status 401 || eqb status 403
      then err login_required
      else if not (eqb status 200)
      then err (failure "token exchange returned HTTP")
      else (elim body [
        | none ↦ err (failure "invalid token exchange response")
        | some root ↦ accept root c
      ])
