-- ===== src/Secrets/Samples.antt =====
-- A resource whose credentials are to be decrypted.
use smirror.Prelude.{[], ◌∷◌, Option, none, some, Bytes, errorf, ok, err, ◌≡◌, refl, true}
use smirror.Text.Search.{codes, same}
use smirror.Config.Types.{Resource, empty_resource}
use smirror.Secrets.{
  Keys, init, is_settled, kms, load_auth, load_key, load_secrets, decode_base64_if_needed,
}
use smirror.Secrets.Once.{init-again}

abbrev plain_keys : Keys Bytes
plain_keys = record {
  google = [];
  new_aws = err (errorf (codes "no session"));
  decrypt = λ k secret. ok secret.key;
  decode_base64 = λ text. err (errorf (codes "illegal base64 data"));
  new_aes256_key = λ text. ok text;
  valid_json = λ text. true;
  new_jwt_config = λ text. ok text;
  new_auth_config = λ text. ok text;
}

abbrev locked : Option Bytes → Resource
locked auth = record empty_resource {
  credentials = some (record {
    secret = record { url = codes "gs://s"; parameter = []; key = codes "k" };
    token = [];
    raw_token = [];
    auth = auth;
  });
}

init-again_example :
    init plain_keys (codes "gs") none (some (locked (some (codes "k"))) ∷ none ∷ [])
    ≡ (none, some (locked (some (codes "k"))) ∷ none ∷ [])
unfolding init is_settled kms load_auth load_key load_secrets decode_base64_if_needed same
init-again_example =
    init-again plain_keys (codes "gs") none none (some (locked none) ∷ none ∷ [])
      (some (locked (some (codes "k"))) ∷ none ∷ []) refl
