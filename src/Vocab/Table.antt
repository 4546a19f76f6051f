-- ===== src/Vocab/Table.antt =====
-- The `Vocabulary` and the banned argument names of internal/vocab/vocab.go.
use butterstack_connector.Prelude.{ℕ, String, Bool, true, false, List, [], ◌∷◌, some, Bytes, codes}
use butterstack_connector.Prelude.Int.{ℤ, pos}
use butterstack_connector.Regexp.{CharClass, Regexp}
use butterstack_connector.Vocab.Schema.{Class, Kind, Scope, Arg, Verb, optional, reserved}

abbrev word_class : CharClass
word_class = (b'A', b'Z') ∷ (b'a', b'z') ∷ (b'0', b'9') ∷ (b'_', b'_') ∷ []

abbrev hex_class : CharClass
hex_class = (b'0', b'9') ∷ (b'a', b'f') ∷ []

abbrev dotted_class : CharClass
dotted_class =
    (b'A', b'Z') ∷ (b'a', b'z') ∷ (b'0', b'9') ∷ (b'.', b'.') ∷ (b'_', b'_') ∷ (b'-', b'-') ∷ []

abbrev job_class : CharClass
job_class = (b'/', b'/') ∷ dotted_class

abbrev pub re_build_type_id : Regexp
re_build_type_id = record { class = word_class; least = 1; extra = 189 } ∷ []

abbrev pub re_hex_sha : Regexp
re_hex_sha = record { class = hex_class; least = 7; extra = 57 } ∷ []

abbrev pub re_job : Regexp
re_job = record { class = job_class; least = 1; extra = 189 } ∷ []

abbrev pub re_repo : Regexp
re_repo =
    record { class = dotted_class; least = 1; extra = 99 }
    ∷ record { class = (b'/', b'/') ∷ []; least = 1; extra = 0 }
    ∷ record { class = dotted_class; least = 1; extra = 99 }
    ∷ []

abbrev pub two_40 : ℤ
two_40 = pos 1099511627776

abbrev int_arg : String → Bool → ℤ → Arg
int_arg n required max = record (optional (codes n) Kind.int) {
  required = required;
  min = pos 1;
  max = max;
}

abbrev path_arg : String → Arg
path_arg n = record (optional (codes n) Kind.depot_path) {
  required = true;
  scope = Scope.depot;
  max_len = 1024;
}

abbrev text_arg : String → Regexp → ℕ → Scope → Arg
text_arg n re len scope = record (optional (codes n) Kind.string) {
  required = true;
  pattern = some re;
  max_len = len;
  scope = scope;
}

-- A verb with `Compiled: true`.
abbrev live : String → Class → String → ℕ → List Arg → Verb
live n c tool max_bytes args = record (reserved (codes n) c (codes tool)) {
  compiled = true;
  default_max_bytes = max_bytes;
  args = args;
}

abbrev pub server_info_verb : Verb
server_info_verb = live "teamcity.server.info" Class.metadata "teamcity" 8192 []

abbrev pub build_get_verb : Verb
build_get_verb =
    live "teamcity.build.get" Class.metadata "teamcity" 32768 (int_arg "build_id" true two_40 ∷ [])

abbrev pub build_queue_verb : Verb
build_queue_verb =
    record (reserved (codes "teamcity.build.queue") Class.mutation (codes "teamcity")) {
      mutating = true;
      args = text_arg "build_type_id" re_build_type_id 190 Scope.allowed_build_types ∷ [];
    }

abbrev pub describe_verb : Verb
describe_verb = live "p4.describe" Class.paths "perforce" 4194304 (
    int_arg "change" true two_40
    ∷ int_arg "max_files" false (pos 100000)
    ∷ record (optional (codes "include_diff") Kind.bool) { must_be_false = true }
    ∷ [])

abbrev pub changes_verb : Verb
changes_verb =
    live "p4.changes" Class.paths "perforce" 1048576
      (path_arg "path" ∷ int_arg "max" false (pos 200) ∷ [])

abbrev pub file_contents_verb : Verb
file_contents_verb = record (reserved (codes "p4.file_contents") Class.content (codes "perforce")) {
  args =
      path_arg "depot_path"
      ∷ int_arg "rev" false (pos 4294967296)
      ∷ int_arg "max_bytes" false (pos 1048576)
      ∷ [];
}

abbrev pub build_trigger_verb : Verb
build_trigger_verb =
    record (reserved (codes "jenkins.build.trigger") Class.mutation (codes "jenkins")) {
      mutating = true;
      args = text_arg "job" re_job 190 Scope.unscoped ∷ [];
    }

abbrev pub commit_get_verb : Verb
commit_get_verb = record (reserved (codes "ghes.commit.get") Class.paths (codes "ghes")) {
  args =
      text_arg "repo" re_repo 190 Scope.repo_allowlist
      ∷ text_arg "sha" re_hex_sha 64 Scope.unscoped
      ∷ [];
}

abbrev pub horde_info_verb : Verb
horde_info_verb = reserved (codes "horde.server.info") Class.metadata (codes "horde")

unfoldable pub vocabulary : List Verb
vocabulary =
    live "sys.ping" Class.metadata "" 1024 []
    ∷ live "sys.version" Class.metadata "" 1024 []
    ∷ live "sys.capabilities" Class.metadata "" 8192 []
    ∷ server_info_verb
    ∷ build_get_verb
    ∷ build_queue_verb
    ∷ describe_verb
    ∷ changes_verb
    ∷ file_contents_verb
    ∷ build_trigger_verb
    ∷ commit_get_verb
    ∷ horde_info_verb
    ∷ []

-- The names with the reason why each is banned.
unfoldable pub banned_arg_names : List (Bytes × String)
banned_arg_names =
    (codes "params", "Jenkins build parameters interpolate into shell build steps")
    ∷ (codes "parameters", "same as params")
    ∷ (codes "properties", "TeamCity properties are consumed by build steps")
    ∷ (codes "env", "environment injection reaches build steps")
    ∷ (codes "branchname", "branch names reach VCS checkout logic and build steps")
    ∷ (codes "branch_name", "branch names reach VCS checkout logic and build steps")
    ∷ (codes "comment", "free text on a queue request, no v0 need")
    ∷ (codes "url", "a verb that takes a URL is a tunnel")
    ∷ (codes "host", "a verb that takes a host is a tunnel")
    ∷ (codes "port", "a verb that takes a port is a tunnel")
    ∷ (codes "command", "a verb that takes a command is a shell")
    ∷ (codes "script", "a verb that takes a script is a shell")
    ∷ (codes "args", "a verb that takes an argv is a shell")
    ∷ []
