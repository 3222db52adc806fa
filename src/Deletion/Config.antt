-- ===== src/Deletion/Config.antt =====
-- core/deletion.py, `deletion_log_from_config`: which log a configuration names.
use mirror_memory.Prelude.{
  ℕ, String, Option, none, some, List, [], ◌∷◌, ltb, not, any, if◌then◌else◌,
}
use mirror_memory.Prelude.Text.{str_eq, starts_with}

-- `config.deletion_log`; an absent text is empty.
pub record Settings : Type 0 where
  pub retention_days : ℕ
  pub backup_retention_days : ℕ
  pub backend : String
  pub url : String
  pub maintenance_url : String
  pub directory : String

pub data Choice : Type 0 where
  no_log invalid : Choice
  postgres_log : String → Option String → Choice
  file_log : String → Choice

abbrev pub server_schemes : List String
server_schemes = "postgresql" ∷ "mysql" ∷ "mssql" ∷ "oracle" ∷ []

-- `default_directory` is a parameter, since it derives a path of the file system; `invalid` is the
-- ValueError.
unfoldable pub deletion_log_from_config : (String → String) → Settings → String → Choice
deletion_log_from_config default_directory c database_url =
    if ltb c.retention_days c.backup_retention_days
    then invalid
    else if str_eq c.backend "none"
    then no_log
    else if str_eq c.backend "postgres"
    then if str_eq c.url ""
      then invalid
      else postgres_log c.url (if str_eq c.maintenance_url "" then none else some c.maintenance_url)
    else if not (str_eq c.directory "")
    then file_log c.directory
    else if not (any (λ scheme. starts_with scheme database_url) server_schemes)
    then file_log (default_directory database_url)
    else invalid
