-- ===== src/Store/Codec.antt =====
-- credential_store.go: the credential as it is stored, and the checks on it (storedCredential,
-- apiCredential, decodeCredential, validateAPI). encoding/json, base64 and crypto/x509 are the
-- record Encoding, and a private key is named by a text, which is empty for nil.
use trae_api.Prelude.{
  ℕ, ℤ, pos, negsuc, String, ◌==◌, string_eq, Bool, true, false, not, ◌||◌, Option, none, some, eqb,
  ◌≡◌,
}
use trae_api.Fault.{failure, Result, ok, err, ◌>>◌, reject}
use trae_api.Login.{Credential}

pub record ApiCredential : Type 0 where
  pub version : ℤ
  pub token : String
  pub expires_at : ℕ
  pub user_id : String
  pub client_id : String
  pub device_id : String
  pub machine_id : String

-- The embedded credential is stored without its key.
pub record StoredCredential : Type 0 where
  pub credential : Credential
  pub version : ℤ
  pub device_private_key : String

-- A key that x509 has parsed: an ECDSA key, with its name and whether its curve is P-256, or not.
pub data ParsedKey : Type 0 where
  ecdsa : String → Bool → ParsedKey
  other_key : ParsedKey

pub record Encoding : Type 0 where
  pub marshal : StoredCredential → Option String
  -- one JSON value of the data, and whether nothing comes after it
  pub decode_stored : String → Option (StoredCredential × Bool)
  pub decode_api : String → Option (ApiCredential × Bool)
  pub base64 : String → String
  pub unbase64 : String → Option String
  pub marshal_key : String → Option String
  pub parse_key : String → Option ParsedKey
  pub is_p256 : String → Bool

-- What the store relies on: decoding undoes encoding.
pub record IsLawful (go : Encoding) : Type 0 where
  pub decode-marshal :
      (s : StoredCredential) (text : String)
      → go.marshal s ≡ some text
      → go.decode_stored text
        ≡ some (record s { credential = record s.credential { device_key = "" } }, true)
  pub unbase64-base64 : (s : String) → go.unbase64 (go.base64 s) ≡ some s
  pub base64-ne-empty :
      (k der : String) → go.marshal_key k ≡ some der → (go.base64 der == "") ≡ false
  pub parse-marshal_key :
      (k der : String)
      → go.marshal_key k ≡ some der
      → go.parse_key der ≡ some (ecdsa k (go.is_p256 k))

-- decodeCredential
unfoldable pub decode_credential : {A : Type 0} → Option (A × Bool) → Result A
decode_credential none = err (failure "invalid credential JSON")
decode_credential (some (value, true)) = ok value
decode_credential (some (value, false)) = err (failure "trailing credential JSON")

-- c.Version != credentialVersion
abbrev pub is_current : ℤ → Bool
is_current (pos n) = eqb n 1
is_current (negsuc n) = false

-- The test of validateAPI for an empty field.
abbrev pub is_incomplete : ApiCredential → Bool
is_incomplete c =
    c.token == ""
    || c.user_id == ""
    || c.client_id == ""
    || c.device_id == ""
    || c.machine_id == ""
    || eqb c.expires_at 0

unfoldable pub validate_api : ApiCredential → Result (Unit {0})
validate_api c = do
  reject (not (is_current c.version)) (failure "unsupported credential version")
  reject (is_incomplete c) (failure "incomplete credential")

-- The API's view of a credential of some version.
abbrev pub api_view : ℤ → Credential → ApiCredential
api_view version c = record {
  version = version;
  token = c.token;
  expires_at = c.expires_at;
  user_id = c.user_id;
  client_id = c.client_id;
  device_id = c.device_id;
  machine_id = c.machine_id;
}
