-- ===== src/Protection.antt =====
-- internal/protection/protection.go: the hard protections, each a reason never to signal a process.
pub mod Paths
pub mod Clear
pub mod Classes
use ghostgc.Prelude.{
  ℕ, ◌<>◌, Bool, true, false, not, ◌&&◌, ◌||◌, String, Option, none, some, List, [], ◌∷◌, ◌++◌,
  ◌==◌, ◌!=◌, string_eq, nat_eq, if◌then◌else◌, contains, any, is_empty,
}
use ghostgc.Prelude.Int.{ℤ, pos, int_eq}
use ghostgc.Prelude.Int
use ghostgc.Prelude.Runtime.{Runtime}
use ghostgc.Process.{Process, has_tty, name}
use ghostgc.Process.Tree.{init_pid}
use Paths.{path_base, trim_slashes, split_slashes, contains_run}

pub record Rule : Type 0 where
  pub id : String
  pub reason : String

pub record Result : Type 0 where
  pub protected : Bool
  pub rules : List Rule

-- A protection that an agent adapter contributes.
pub record ProtectionRule : Type 0 where
  pub id : String
  pub reason : String
  pub exec_names : List String
  pub path_segment : String
  pub always : Bool

pub record Input (R : Runtime) : Type 0 where
  pub process : Process
  pub self_pid : ℤ
  pub self_uid : ℕ
  pub is_agent_root : Bool
  pub session_active : Bool
  pub attribution_confidence : R.Float
  pub descendant_count : ℤ
  pub adapter_rules : List ProtectionRule

pub record ExecClass : Type 0 where
  pub id : String
  pub reason : String
  pub names : List String

unfoldable pub exec_classes : List ExecClass
exec_classes =
    record {
      id = "protected-editor-v1";
      reason = "interactive editors and IDEs hold unsaved user state";
      names =
          "code" ∷ "code - insiders" ∷ "codium" ∷ "cursor" ∷ "zed" ∷ "windsurf" ∷ "idea" ∷ "goland"
          ∷ "pycharm" ∷ "webstorm" ∷ "rider" ∷ "clion" ∷ "phpstorm" ∷ "rubymine" ∷ "datagrip"
          ∷ "studio" ∷ "xcode" ∷ "nvim" ∷ "vim" ∷ "vi" ∷ "emacs" ∷ "helix" ∷ "hx" ∷ "sublime_text"
          ∷ "nova" ∷ [];
    }
    ∷ record {
      id = "protected-language-server-v1";
      reason = "language servers are shared editor infrastructure, not agent work";
      names =
          "gopls" ∷ "rust-analyzer" ∷ "clangd" ∷ "pyright" ∷ "pyright-langserver"
          ∷ "basedpyright-langserver" ∷ "typescript-language-server" ∷ "tsserver" ∷ "vtsls"
          ∷ "jdtls" ∷ "solargraph" ∷ "ruby-lsp" ∷ "lua-language-server" ∷ "yaml-language-server"
          ∷ "json-languageserver" ∷ "bash-language-server" ∷ "sourcekit-lsp" ∷ "metals"
          ∷ "elixir-ls" ∷ "terraform-ls" ∷ "tflint" ∷ "omnisharp" ∷ "intelephense" ∷ "svelteserver"
          ∷ "vscode-eslint-server" ∷ [];
    }
    ∷ record {
      id = "protected-container-runtime-v1";
      reason = "container runtimes own state for every container on the machine";
      names =
          "dockerd" ∷ "docker" ∷ "com.docker.backend" ∷ "com.docker.build" ∷ "containerd"
          ∷ "containerd-shim" ∷ "podman" ∷ "colima" ∷ "limactl" ∷ "lima" ∷ "vfkit" ∷ "krunkit"
          ∷ "qemu-system-aarch64" ∷ "qemu-system-x86_64" ∷ "rancher-desktop" ∷ "orbstack"
          ∷ "buildkitd" ∷ [];
    }
    ∷ record {
      id = "protected-database-v1";
      reason = "database servers can lose or corrupt data when signalled";
      names =
          "postgres" ∷ "postgresql" ∷ "mysqld" ∷ "mariadbd" ∷ "mongod" ∷ "redis-server"
          ∷ "valkey-server" ∷ "clickhouse-server" ∷ "cockroach" ∷ "etcd" ∷ "influxd" ∷ "cassandra"
          ∷ "elasticsearch" ∷ "opensearch" ∷ "memcached" ∷ "nats-server" ∷ "rabbitmq-server" ∷ [];
    }
    ∷ record {
      id = "protected-build-or-test-v1";
      reason = "build and test processes represent in-flight work whose loss is expensive";
      names =
          "make" ∷ "gmake" ∷ "cmake" ∷ "ninja" ∷ "bazel" ∷ "bazelisk" ∷ "buck2" ∷ "gradle"
          ∷ "gradlew" ∷ "mvn" ∷ "maven" ∷ "cargo" ∷ "rustc" ∷ "tsc" ∷ "webpack" ∷ "rollup"
          ∷ "esbuild" ∷ "swc" ∷ "turbo" ∷ "nx" ∷ "jest" ∷ "vitest" ∷ "pytest" ∷ "tox" ∷ "rspec"
          ∷ "phpunit" ∷ "gotestsum" ∷ "ctest" ∷ "xcodebuild" ∷ "swift" ∷ "dotnet" ∷ [];
    }
    ∷ record {
      id = "protected-development-server-v1";
      reason = "development servers are long-lived by design; being idle is normal for them";
      names =
          "next-server" ∷ "vite" ∷ "webpack-dev-server" ∷ "nodemon" ∷ "rails" ∷ "puma" ∷ "unicorn"
          ∷ "gunicorn" ∷ "uvicorn" ∷ "hypercorn" ∷ "daphne" ∷ "flask" ∷ "django-admin" ∷ "air"
          ∷ "watchexec" ∷ "entr" ∷ [];
    }
    ∷ record {
      id = "protected-broad-runtime-v1";
      reason =
          "executable name is too broad to establish what the process is doing (specification section 14)";
      names =
          "node" ∷ "bun" ∷ "deno" ∷ "python" ∷ "python3" ∷ "ruby" ∷ "perl" ∷ "php" ∷ "go" ∷ "java"
          ∷ "dotnet" ∷ "git" ∷ "gh" ∷ "bash" ∷ "zsh" ∷ "sh" ∷ "dash" ∷ "fish" ∷ "ksh" ∷ "tcsh"
          ∷ "csh" ∷ "nu" ∷ "xonsh" ∷ "ssh" ∷ "rsync" ∷ "tmux" ∷ "screen" ∷ [];
    }
    ∷ []

-- The first class of the list that has the name.
unfoldable pub find_class : List ExecClass → String → Option Rule
find_class [] base = none
find_class (c ∷ cs) base =
    let rest = find_class cs base in
    if contains c.names base then some (record { id = c.id; reason = c.reason }) else rest

unfoldable pub executable_protection : Runtime → String → Option Rule
unfolding find_class
executable_protection R name = find_class exec_classes (R.to_lower name)

unfoldable pub match_adapter_rule : ProtectionRule → Process → Bool
match_adapter_rule r p =
    if r.always
    then true
    else if contains r.exec_names (path_base p.exec_path)
    then true
    else if r.path_segment != ""
    then contains_run (split_slashes (trim_slashes r.path_segment))
        (split_slashes (trim_slashes p.exec_path))
    else false

-- One rule, if its condition holds.
unfoldable pub rule_if : Bool → String → String → List Rule
rule_if b id reason = if b then record { id = id; reason = reason } ∷ [] else []

unfoldable pub adapter_matches : List ProtectionRule → Process → List Rule
unfolding rule_if
adapter_matches [] p = []
adapter_matches (r ∷ rs) p = rule_if (match_adapter_rule r p) r.id r.reason ++ adapter_matches rs p

module _ (R : Runtime) where
  -- 0.95, the minimum for a policy to consider a process.
  abbrev pub confidence_policy_eligible : R.Float
  confidence_policy_eligible = R.literal 95 2

  -- One rule for each class that has the lower-cased name.
  unfoldable pub class_matches : List ExecClass → String → String → List Rule
  unfolding rule_if
  class_matches [] base shown = []
  class_matches (c ∷ cs) base shown =
      rule_if (contains c.names base) c.id (c.reason <> " (executable " <> R.quoted shown <> ")")
      ++ class_matches cs base shown

  unfoldable pub rules : Input R → List Rule
  unfolding class_matches adapter_matches rule_if
  rules i =
      let p = i.process in
      let pid = R.decimal p.pid in
      rule_if (i.self_pid != pos 0 && p.pid == i.self_pid) "protected-self-v1"
        ("process " <> pid <> " is the ghostgc daemon itself")
      ++ (rule_if (p.pid == init_pid) "protected-init-v1"
            ("process " <> pid <> " is the init process")
          ++ (rule_if (p.uid != i.self_uid) "protected-other-user-v1" (
                "process is owned by uid "
                <> R.decimal (pos p.uid)
                <> ", not by the user running ghostgc (uid "
                <> R.decimal (pos i.self_uid)
                <> ")")
              ++ (rule_if (has_tty p) "protected-controlling-terminal-v1" (
                    "process has a controlling terminal (" <> p.tty
                    <> "), which indicates an interactive session")
                  ++ (rule_if (p.pid == p.sid && p.sid != pos 0) "protected-session-leader-v1" (
                        "process "
                        <> pid
                        <> " is the leader of terminal session "
                        <> R.decimal p.sid)
                      ++ (rule_if i.is_agent_root "protected-agent-root-v1"
                            "process is an agent session root; terminating it would end the user's session"
                          ++ (rule_if i.session_active "protected-active-session-v1"
                                "the owning agent session is still active"
                              ++ (rule_if (Int.ltb (pos 0) i.descendant_count)
                                    "protected-has-descendants-v1"
                                    ("process has "
                                      <> R.decimal i.descendant_count
                                      <> " live descendant(s) that would be orphaned")
                                  ++ (rule_if
                                        (R.lt i.attribution_confidence confidence_policy_eligible)
                                        "protected-uncertain-attribution-v1"
                                        ("attribution confidence is "
                                          <> R.fixed2 i.attribution_confidence
                                          <> ", below the "
                                          <> R.fixed2 confidence_policy_eligible
                                          <> " required for any policy to consider the process; unknown ownership is protected")
                                      ++ (rule_if (not p.detailed) "protected-not-inspected-v1"
                                            "process was not inspected in detail, so nothing about it has been established"
                                          ++ (class_matches exec_classes (R.to_lower (name p))
                                                (name p)
                                              ++ adapter_matches i.adapter_rules p))))))))))

  unfoldable pub evaluate : Input R → Result
  unfolding rules
  evaluate i = let found = rules i in record { protected = not (is_empty found); rules = found }
