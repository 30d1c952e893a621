-- ===== src/Demo/Config.antt =====
-- demo/src/server/config.ts
use ckb_crypto_agile_account.Common.{
  ℕ, Bool, false, not, ◌&&◌, ◌||◌, [], ◌∷◌, Option, none, some, leb, ◌==◌, length, Text, codes, ok,
  ◌>>◌, throw_if,
}
use ckb_crypto_agile_account.Failure.{key_unavailable, Throws}
use ckb_crypto_agile_account.Json.Patterns.{all, is_digit}
use ckb_crypto_agile_account.Demo.Constants.{client_origin, rp_id, api_port}
use ckb_crypto_agile_account.Demo.Service.{api}

pub record ServerConfig : Type 0 where
  pub host : Text
  pub port : ℕ
  pub client_origin : Text
  pub rp_id : Text
  pub network : Text
  pub private_key : Text

abbrev pub is_hex_any : ℕ → Bool
is_hex_any c = is_digit c || (leb b'a' c && leb c b'f' || leb b'A' c && leb c b'F')

-- `/^0x[0-9a-fA-F]{64}$/`
unfoldable pub is_private_key_text : Text → Bool
is_private_key_text (z ∷ x ∷ digits) =
    z == b'0' && (x == b'x' && (length digits == 64 && all is_hex_any digits))
is_private_key_text _ = false

abbrev pub or_none : Option Text → Text
or_none none = []
or_none (some t) = t

-- `loadServerConfig`, of the value of CKB_PRIVKEY. That the key is no enumerable property is left out.
unfoldable pub load_server_config : Option Text → Throws ServerConfig
load_server_config ckb_privkey = do
  throw_if (not (is_private_key_text (or_none ckb_privkey)))
      (api key_unavailable 500 "CKB_PRIVKEY is missing or invalid")
  ok (record {
    host = codes "127.0.0.1";
    port = api_port;
    client_origin = client_origin;
    rp_id = rp_id;
    network = codes "testnet";
    private_key = or_none ckb_privkey;
  })
