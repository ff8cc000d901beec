-- ===== src/Examples/Starting.antt =====
-- The start of the service on concrete files.
use unidpp_archive.Prelude.{◌≡◌, refl, none, some, [], if◌then◌else◌}
use unidpp_archive.Result.{ok}
use unidpp_archive.Text.{Str, text, trim, eq_str}
use unidpp_archive.Keyring.{Keyring, seeded_dev, dev, dev_seed_of, from_env_map}
use unidpp_archive.LogAnchor.{var}
use unidpp_archive.Api.Config.{
  Environment, from_env, from_vars, env_values, values_of, keyring_from_env,
}
use unidpp_archive.Api.Start.{messages, start, start-IsConsistent}
use unidpp_archive.Examples.Service.{kept-IsReadable, sample, sample_documented}
use unidpp_archive.Examples.Runs.{calm, calm_done, one_record, one_file, one_record-IsConsistent}

-- Every variable is set but the seed of the operator; addresses are texts.
abbrev env : Environment
env key = if eq_str key (text "UNIDPP_ARCHIVE_SIGN_SEED") then none else some (text "x")

abbrev development : Keyring Str
development = record {
  mode = seeded_dev;
  notary_key = text "unidpp-archive/notary|x";
  dev_seed = some (text "x");
}

start-IsConsistent_example :
    start sample some (text "b") env calm one_file
    ≡ ok (
      messages sample some (text "b") (from_env some (text "b") env) development [],
      ok (record {
        config = from_env some (text "b") env;
        store = one_record;
        keyring = development;
      }),
      one_file,
    )
unfolding from_env from_vars env_values values_of var text eq_str keyring_from_env from_env_map dev
    dev_seed_of trim
start-IsConsistent_example =
    start-IsConsistent sample sample_documented some (text "b") env calm development [] one_record
      one_file refl refl refl calm_done one_record-IsConsistent (kept-IsReadable 0, tt)
