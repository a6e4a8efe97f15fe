-- ===== src/Transfer/RcloneConf.antt =====
-- cmk-data-transfer/orchestrator/rclone_conf.py: the settings of rclone.
-- `native_oracle_conf_example`, which nothing uses, is left out.
use solutions_library.Prelude.{[], ◌∷◌, ◌++◌}
use solutions_library.Prelude.Text.{Text, codes, join}
use solutions_library.Transfer.Config.{Config, effective_endpoint}

unfoldable pub build_s3_compat_conf : {F : Type 0} → Config F → Text
build_s3_compat_conf c = join (codes "\n") (
    codes "[oci]"
    ∷ codes "type = s3"
    ∷ codes "provider = Other"
    ∷ (codes "access_key_id = " ++ c.access_key_id)
    ∷ (codes "secret_access_key = " ++ c.secret_access_key)
    ∷ (codes "endpoint = " ++ effective_endpoint c)
    ∷ (codes "region = " ++ c.region)
    ∷ codes "force_path_style = true"
    ∷ codes "no_check_bucket = true"
    ∷ []
    ∷ [])
