-- ===== src/Splunk/Commands/Checked.antt =====
-- What the command `config_check` of main.py can print.
use solutions_library.Prelude.{◌≡◌, Bool, true, false, none, some, is_nil, arith}
use solutions_library.Prelude.Text.{Text}
use solutions_library.Prelude.Dict.{Dict}
use solutions_library.Splunk.Daemon.{AppConfig, validate_config}
use solutions_library.Splunk.Settings.{Parser}
use solutions_library.Splunk.Commands.{
  cli, config_check, Auth, bearer_token, access_key, no_authentication,
}

-- The line shows a token or a key that is present.
abbrev pub is_present : Auth → Bool
is_present (bearer_token present) = present
is_present (access_key present region) = present
is_present no_authentication = false

cli-validate_config :
    (p : Parser) (env : Dict Text) (config : AppConfig)
    → cli p env ≡ some config
    → validate_config config ≡ none
unfolding cli
cli-validate_config p env config e = ground arith

-- With settings that the group of commands accepts, the check of the settings never shows a missing
-- one: the lines on the authentication and on the collector's token say that they are set, and
-- those of the organization and the collector's address are not empty.
pub config_check-cli :
    (p : Parser) (env : Dict Text) (config : AppConfig)
    → cli p env ≡ some config
    → let shown = config_check config in
      (is_present shown.auth ≡ true)
      × (shown.hec_token ≡ true)
      × (is_nil shown.organization_id ≡ false)
      × (is_nil shown.hec_url ≡ false)
unfolding config_check validate_config
config_check-cli p env config e = let accepted = cli-validate_config p env config e in ground arith
