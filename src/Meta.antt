-- ===== src/Meta.antt =====
-- pkg/meta/version.go: what the program says about itself.
use go_acme_store.Common.{String, ◌<>◌, ◌==◌, if◌then◌else◌}

-- The variables that the linker sets.
pub record Build : Type 0 where
  pub name : String
  pub version : String
  pub commit_sha : String
  pub build_date : String

-- Package `runtime`.
pub record Runtime : Type 0 where
  pub version : String
  pub compiler : String
  pub goos : String
  pub goarch : String

pub record AppMetadata : Type 0 where
  pub app_name : String
  pub app_version : String
  pub commit_ref : String
  pub go_version : String
  pub go_platform : String

-- `if s == "" { s = other }`
abbrev or_else : String → String → String
or_else other s = if s == "" then other else s

unfoldable pub get_app_metadata : Runtime → Build → AppMetadata
get_app_metadata r b = record {
  app_name = b.name;
  app_version = or_else "devel" b.version;
  commit_ref = or_else "unknown" b.commit_sha;
  go_version = r.version;
  go_platform = r.goos <> ("/" <> r.goarch);
}

unfoldable pub to_string : AppMetadata → String
to_string i =
    i.app_name
    <> (" v:"
        <> (i.app_version
            <> ("(ref-"
                <> (i.commit_ref
                    <> ("), platform: " <> (i.go_version <> (" [" <> (i.go_platform <> "]"))))))))

-- The text that `PrintVersion` prints.
unfoldable pub print_version : Runtime → Build → String
print_version r b =
    "metadata:\n  version     : "
    <> (b.version
        <> ("\n  build date  : "
            <> (b.build_date
                <> ("\n  git hash    : "
                    <> (b.commit_sha
                        <> ("\n  go version  : "
                            <> (r.version
                                <> ("\n  go compiler : "
                                    <> (r.compiler
                                        <> ("\n  platform    : "
                                            <> (r.goos <> ("/" <> (r.goarch <> "\n")))))))))))))
