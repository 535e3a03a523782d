-- ===== src/Tests/Delivery.antt =====
-- The login of the callback, with the disk on which it is saved.
use trae_api.Prelude.{
  ◌≤◌, ◌==◌, string_eq, text_eq, text_eq_iff, Bool, true, ◌&&◌, none, some, [], ◌∷◌, ◌≡◌, refl, sym,
  ◌∙◌, subst, ap, inl, inr, if◌then◌else◌, if-cases, eqb, eqb_iff, len, pos, lookup, arith,
}
use trae_api.Fault.{ok}
use trae_api.Login.{asked, run, begin_login}
use trae_api.Json.{object_value, first_string, at_key, member?}
use trae_api.Login.Callback.{prepare, callback, Arrival}
use trae_api.Login.Callback.Completes.{attempt_of, IsTimely}
use trae_api.Refresh.Exchange.{parse_expiry}
use trae_api.Login.Callback.Delivered.{
  Saving, save_callback, Succeeds, IsDelivered, login-IsDelivered,
}
use trae_api.Store.{checked_dir}
use trae_api.Store.Codec.{ApiCredential, Encoding, ecdsa, api_view, validate_api}
use trae_api.Store.Read.{max_file, load, read_credential_file}
use trae_api.Store.Save.{prepare_save, save, write_file}
use trae_api.Store.RoundTrip.{quiet}
use trae_api.Store.Served.{SharesNames}
use trae_api.Tests.Logins.{idle, drawn}
use trae_api.Tests.Storage.{is_one, is_one-eq, both, user_view, file, named, disk, apart, free}
use trae_api.Tests.Callbacks.{
  codec, texts, crypto, config, arrival, granted, not_listening, unnamed, brings_back,
}

is_view : ApiCredential → Bool
is_view v =
    v.token == "token"
    && eqb v.expires_at 5
    && v.user_id == "user"
    && v.client_id == "client"
    && v.device_id == "device"
    && v.machine_id == "machine"
    && is_one v.version

is_view-eq : (v : ApiCredential) → is_view v ≡ true → v ≡ user_view
unfolding is_view
is_view-eq v h =
    let (h, n) = both _ _ h in
    let (h, m) = both _ _ h in
    let (h, d) = both _ _ h in
    let (h, c) = both _ _ h in
    let (h, u) = both _ _ h in
    let (t, e) = both _ _ h in
    let t : v.token ≡ "token" = (text_eq_iff _ _).0 t in
    let e : v.expires_at ≡ 5 = (eqb_iff _ _).0 e in
    let u : v.user_id ≡ "user" = (text_eq_iff _ _).0 u in
    let c : v.client_id ≡ "client" = (text_eq_iff _ _).0 c in
    let d : v.device_id ≡ "device" = (text_eq_iff _ _).0 d in
    let m : v.machine_id ≡ "machine" = (text_eq_iff _ _).0 m in
    let n : v.version ≡ pos 1 = is_one-eq _ n in cc

instance abbrev encoding : Encoding
encoding = record {
  marshal = λ s. if is_view (api_view s.version s.credential) then some "file" else none;
  decode_stored = λ text. some (file, true);
  decode_api = λ text. some (user_view, true);
  base64 = λ s. s;
  unbase64 = λ s. some s;
  marshal_key = named;
  parse_key = λ der. some (ecdsa der true);
  is_p256 = λ k. true;
}

names : SharesNames encoding
names = record {
  decode_api-marshal = λ s text h. elim (if-cases (is_view (api_view s.version s.credential)) h) [
    | inl (e, q) ↦ ap (λ v. some (v, true)) (sym (is_view-eq (api_view s.version s.credential) e))
    | inr (e, q) ↦ absurd (cc)
  ];
}

abbrev saving : Saving
saving = record {
  io = quiet;
  inner = quiet;
  loading = quiet;
  temp = "temp";
  path = "auth";
  held = true;
  disk = disk;
}

abbrev arrives : Arrival
arrives = record arrival { saved = save_callback saving }

prepares : prepare config arrives (attempt_of 0 drawn 0) ≡ inr granted
unfolding prepare parse_expiry object_value first_string at_key member? text_eq
prepares = refl

timely : IsTimely "login" 600000000000 arrives
timely = record {
  open_before = refl;
  short = omega arith;
  claimed = omega arith;
  harmless = (omega arith, tt);
  open_after = refl;
  committed = omega arith;
  last = refl;
}

prepared : prepare_save quiet quiet "auth" true granted disk ≡ ok "file"
unfolding prepare_save validate_api checked_dir load read_credential_file text_eq lookup is_view
    is_one
prepared = refl

succeeds : Succeeds saving granted
unfolding save write_file prepare_save validate_api checked_dir load read_credential_file text_eq
    lookup is_view is_one
succeeds = record {
  fresh = free;
  apart = apart;
  fits = λ text h.
      let e : ok "file" ≡ ok text = sym prepared ∙ h in
      let q : "file" ≡ text = cc in subst (λ t. len t ≤ max_file) q (omega arith);
  success = refl;
}

login-IsDelivered_example : IsDelivered "login" 50 3 granted saving (
    callback config arrives
      (run (asked 10 "login" ∷ []) (begin_login 0 "login" (some drawn) idle).1))
login-IsDelivered_example =
    login-IsDelivered config 0 "login" drawn [] idle (asked 10 "login" ∷ []) arrives granted 50
      names saving 3 not_listening unnamed (omega arith, tt) timely brings_back prepares refl
      succeeds (omega arith)
