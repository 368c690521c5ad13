-- ===== src/Docker/Secrets.antt =====
-- secrets-manager.go: the two managers of secrets. `get_env` is `os.Getenv`.
use cloudcompute.Base.{◌≡◌, String, [], ite, String_discrete, arith}
use cloudcompute.Base.Maps.{Map, insert, get_or, get_or-insert}
use cloudcompute.Manifest.{KeyValuePairs}
use cloudcompute.KeyValues.{set_val, get_val}
use cloudcompute.KeyValues.Laws.{get_val-set_val}

-- What a manager promises: a secret that is added is the one that its key gives, revealed in the
-- manager's own way, and the others are as they were.
pub record SecretsManager (S : Type 0) : Type 0 where
  pub new_secrets : S
  pub add : String → String → S → S
  pub get : String → S → String
  pub reveal : String → String
  pub get-add :
      (key other val : String) (s : S)
      → get other (add key val s) ≡ ite (String_discrete key other) (reveal val) (get other s)

-- `InMemorySecretsManager`
unfoldable pub add_secret : String → String → KeyValuePairs → KeyValuePairs
add_secret key val secrets = set_val secrets key val

unfoldable pub get_secret : String → KeyValuePairs → String
get_secret key secrets = get_val secrets key

-- `EnvironmentSecretManager`: a key's value is the name of a variable of the environment.
unfoldable pub add_environment_secret : String → String → Map String String → Map String String
add_environment_secret key val secrets = insert String_discrete key val secrets

unfoldable pub get_environment_secret : (String → String) → String → Map String String → String
get_environment_secret get_env key secrets = get_env (get_or String_discrete "" key secrets)

in_memory_secrets : SecretsManager KeyValuePairs
unfolding add_secret get_secret
in_memory_secrets = record {
  new_secrets = [];
  add = add_secret;
  get = get_secret;
  reveal = λ val. val;
  get-add = λ key other val s. get_val-set_val s key val other;
}

environment_get-add :
    (get_env : String → String) (key other val : String) (s : Map String String)
    → get_environment_secret get_env other (add_environment_secret key val s)
      ≡ ite (String_discrete key other) (get_env val) (get_environment_secret get_env other s)
unfolding add_environment_secret get_environment_secret
environment_get-add get_env key other val s =
    ground (arith, get_or-insert String_discrete "" key other val s)

environment_secrets : (String → String) → SecretsManager (Map String String)
environment_secrets get_env = record {
  new_secrets = [];
  add = add_environment_secret;
  get = get_environment_secret get_env;
  reveal = get_env;
  get-add = environment_get-add get_env;
}
