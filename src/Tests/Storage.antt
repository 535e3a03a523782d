-- ===== src/Tests/Storage.antt =====
-- A credential with the mark of a pending refresh, on a disk, in an encoding that knows it alone.
use trae_api.Prelude.{
  List, ℤ, pos, negsuc, ◌≤◌, String, ◌==◌, string_eq, text_eq, text_eq_iff, eqb_iff, ◌<>◌, Bool,
  true, false, ◌&&◌, Option, none, some, [], ◌∷◌, ◌≡◌, ◌≢◌, ◌⊎◌, refl, inl, inr, sym, subst, ap,
  ◌∙◌, if◌then◌else◌, if-cases, eqb, len, lookup, arith,
}
use trae_api.Fault.{Fault, ok, err}
use trae_api.Login.{Credential}
use trae_api.Store.{Disk, private, regular, Calls, checked_dir}
use trae_api.Store.Codec.{
  StoredCredential, ApiCredential, ecdsa, Encoding, IsLawful, validate_api, decode_credential,
}
use trae_api.Store.Read.{read_credential_file, restore, load, max_file, read_api_credential}
use trae_api.Store.Save.{write_file, prepare_save, save, quarantine_rejected, prepare_quarantine}
use trae_api.Store.Owner.{open_credential_store}
use trae_api.Store.RoundTrip.{quiet, load-save}
use trae_api.Store.Rejected.{Rejects, Moved, quarantine_rejected-Moved}
use trae_api.Refresh.{marked}

abbrev pub saved : Credential
saved = record {
  token = "token";
  refresh_token = "refresh";
  user_id = "user";
  client_id = "client";
  expires_at = 5;
  refresh_expires_at = 9;
  refresh_pending = true;
  device_id = "device";
  machine_id = "machine";
  device_key = "";
}

abbrev pub file : StoredCredential
file = record { credential = saved; version = pos 1; device_private_key = "key" }

unfoldable pub is_one : ℤ → Bool
is_one (pos n) = eqb n 1
is_one (negsuc n) = false

pub is_one-eq : (v : ℤ) → is_one v ≡ true → v ≡ pos 1
unfolding is_one
is_one-eq (pos n) h = ap pos ((eqb_iff n 1).0 h)
is_one-eq (negsuc n) h = absurd (cc)

-- The stored credential is the one above, whatever its key is named.
is_file : StoredCredential → Bool
is_file s =
    s.credential.token == "token"
    && s.credential.refresh_token == "refresh"
    && s.credential.user_id == "user"
    && s.credential.client_id == "client"
    && eqb s.credential.expires_at 5
    && eqb s.credential.refresh_expires_at 9
    && s.credential.refresh_pending
    && s.credential.device_id == "device"
    && s.credential.machine_id == "machine"
    && is_one s.version
    && s.device_private_key == "key"

pub both : (a b : Bool) → (a && b) ≡ true → (a ≡ true) × (b ≡ true)
both true b h = (refl, h)
both false b h = absurd (cc)

is_file-eq :
    (s : StoredCredential)
    → is_file s ≡ true
    → record s { credential = record s.credential { device_key = "" } } ≡ file
unfolding is_file
is_file-eq s h =
    let (h, k) = both _ _ h in
    let (h, v) = both _ _ h in
    let (h, m) = both _ _ h in
    let (h, d) = both _ _ h in
    let (h, p) = both _ _ h in
    let (h, r) = both _ _ h in
    let (h, e) = both _ _ h in
    let (h, c) = both _ _ h in
    let (h, u) = both _ _ h in
    let (t, f) = both _ _ h in
    let t : s.credential.token ≡ "token" = (text_eq_iff _ _).0 t in
    let f : s.credential.refresh_token ≡ "refresh" = (text_eq_iff _ _).0 f in
    let u : s.credential.user_id ≡ "user" = (text_eq_iff _ _).0 u in
    let c : s.credential.client_id ≡ "client" = (text_eq_iff _ _).0 c in
    let e : s.credential.expires_at ≡ 5 = (eqb_iff _ _).0 e in
    let r : s.credential.refresh_expires_at ≡ 9 = (eqb_iff _ _).0 r in
    let d : s.credential.device_id ≡ "device" = (text_eq_iff _ _).0 d in
    let m : s.credential.machine_id ≡ "machine" = (text_eq_iff _ _).0 m in
    let v : s.version ≡ pos 1 = is_one-eq _ v in
    let k : s.device_private_key ≡ "key" = (text_eq_iff _ _).0 k in cc

abbrev pub user_view : ApiCredential
user_view = record {
  version = pos 1;
  token = "token";
  expires_at = 5;
  user_id = "user";
  client_id = "client";
  device_id = "device";
  machine_id = "machine";
}

abbrev pub named : String → Option String
named k = if k == "" then none else some k

instance abbrev encoding : Encoding
encoding = record {
  marshal = λ s. if is_file s then some "file" else none;
  decode_stored = λ text. some (file, true);
  decode_api = λ text. some (user_view, true);
  base64 = λ s. s;
  unbase64 = λ s. some s;
  marshal_key = named;
  parse_key = λ der. some (ecdsa der true);
  is_p256 = λ k. true;
}

named-eq : (k der : String) → named k ≡ some der → ((k == "") ≡ false) × (k ≡ der)
named-eq k der h = elim (if-cases (k == "") h) [ inl (e, q) ↦ absurd (cc) | inr (e, q) ↦ (e, cc) ]

encoding-IsLawful : IsLawful encoding
encoding-IsLawful = record {
  decode-marshal = λ s text h. elim (if-cases (is_file s) h) [
    | inl (e, q) ↦ ap (λ f. some (f, true)) (sym (is_file-eq s e))
    | inr (e, q) ↦ absurd (cc)
  ];
  unbase64-base64 = λ s. refl;
  base64-ne-empty =
      λ k der h. subst (λ x. (x == "") ≡ false) (named-eq k der h).1 (named-eq k der h).0;
  parse-marshal_key = λ k der h. ap (λ x. some (ecdsa x true)) (sym (named-eq k der h).1);
}

abbrev pub disk : Disk
disk = record { directory = private; files = []; locked = λ p. p == "auth.lock" }

abbrev credential : Credential
credential = record saved { device_key = "key"; refresh_pending = false }

prepared : prepare_save quiet quiet "auth" true (marked credential) disk ≡ ok "file"
unfolding prepare_save validate_api checked_dir load read_credential_file text_eq lookup is_file
    is_one
prepared = refl

fits :
    (text : String)
    → prepare_save quiet quiet "auth" true (marked credential) disk ≡ ok text
    → len text ≤ max_file
fits text h =
    let e : ok "file" ≡ ok text = sym prepared ∙ h in
    let q : "file" ≡ text = cc in subst (λ t. len t ≤ max_file) q (omega arith)

pub apart : ◌≢◌ {A = String} "temp" "auth"
unfolding text_eq
apart e = let q : text_eq "temp" "auth" ≡ true = (text_eq_iff "temp" "auth").1 e in absurd (cc)

saves : (save quiet quiet "temp" "auth" true (marked credential) disk).0 ≡ ok tt
unfolding save write_file prepare_save validate_api checked_dir load read_credential_file text_eq
    lookup is_file is_one
saves = refl

abbrev after_save : Disk
after_save = (save quiet quiet "temp" "auth" true (marked credential) disk).1

pub free : lookup "temp" disk.files ≡ none
unfolding lookup
free = refl

load-save_example : load quiet "auth" after_save ≡ ok (marked credential)
load-save_example =
    load-save encoding-IsLawful quiet quiet "temp" "auth" true (marked credential) disk free apart
      fits saves

abbrev full : Disk
full = record disk { files = ("auth", record { kind = regular true; content = "file" }) ∷ [] }

moved : "auth" ≢ "auth" <> ".rejected-" <> "00"
unfolding ◌<>◌
moved e = absurd (cc)

quarantine_rejected-Moved_example :
    ((e : Fault) × (quarantine_rejected quiet quiet "auth" "00" true "token" full ≡ (err e, full)))
    ⊎ (Rejects quiet "auth" true "token" full
        × Moved "auth"
            ("auth" <> ".rejected-" <> "00")
            full
            (quarantine_rejected quiet quiet "auth" "00" true "token" full).1)
quarantine_rejected-Moved_example =
    quarantine_rejected-Moved quiet quiet "auth" "00" true "token" full moved

quarantines : (quarantine_rejected quiet quiet "auth" "00" true "token" full).0 ≡ ok tt
unfolding quarantine_rejected prepare_quarantine checked_dir load read_credential_file
    decode_credential restore validate_api text_eq lookup ◌<>◌
quarantines = refl

reads : read_api_credential quiet "auth" 3 full ≡ ok user_view
unfolding read_api_credential checked_dir read_credential_file decode_credential validate_api
    text_eq lookup
reads = refl

abbrev closed : Disk
closed = record disk { locked = λ p. false }

abbrev opened : Disk
opened = (open_credential_store quiet quiet "auth" closed).1

-- Two other attempts, one of them for the same path.
abbrev attempts : List (Calls × (Calls × String))
attempts = (quiet, (quiet, "auth")) ∷ (quiet, (quiet, "other")) ∷ []
