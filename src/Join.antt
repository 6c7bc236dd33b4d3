-- ===== src/Join.antt =====
-- Joining a cluster, cmd/asterkube-init/join_bundle_linux.go, boot_args_join_linux.go, persist_linux.go and what they
-- take from ca_bundle_linux.go, cni_setup_linux.go and kubelet_apiserver_linux.go: the calls, and the small
-- functions on texts.
pub mod Bundle
pub mod Trust
pub mod Kubelet
pub mod Files
pub mod Paths
pub mod Persist
mod Samples
use asterkube.Prelude.{
  ℕ, Bool, true, false, not, ◌&&◌, ◌||◌, ◌==◌, List, [], ◌∷◌, Option, none, some, String,
  if◌then◌else◌,
}
use asterkube.Prelude.Text.{str_eq, str_append, has_prefix, contains_text, cut_at, split_on}
use asterkube.Prelude.Prog.{Prog, History, System, ret, ask, bind, ◌>>=◌, ◌>>◌}
use asterkube.Mount.Fstab.{trim_space}

-- What the init asks of the kernel to join a cluster and to keep the node.
pub data JoinCall : Type 0 where
  stats : String → JoinCall
  reads_file : String → JoinCall
  writes_file : String → String → JoinCall
  makes_executable : String → JoinCall
  makes_dir : String → JoinCall
  lists_dir : String → JoinCall
  removes : String → JoinCall
  links : String → String → JoinCall
  mounts : String → String → JoinCall
  unmounts : String → JoinCall
  creates_file : String → JoinCall
  starts : String → List String → JoinCall
  terminates : ℕ → JoinCall
  kills : ℕ → JoinCall
  sleeps : ℕ → JoinCall
  tells_time : JoinCall
  opens_netlink : JoinCall
  closes_netlink : JoinCall
  finds_link : String → JoinCall
  adds_addr : ℕ → String → ℕ → JoinCall
  adds_default_route : String → ℕ → JoinCall
  syncs : JoinCall
  powers_off : JoinCall

-- An error, none, none with a text, with a number, or with the names of the files of a directory.
pub data JoinAnswer : Type 0 where
  failed fine : JoinAnswer
  text : String → JoinAnswer
  number : ℕ → JoinAnswer
  names : List String → JoinAnswer

abbrev pub JoinProg : Type 0 → Type 0
JoinProg A = Prog JoinCall JoinAnswer A

abbrev pub JoinHistory : Type 0
JoinHistory = History JoinCall JoinAnswer

abbrev pub JoinSystem : Type 0
JoinSystem = System JoinCall JoinAnswer

abbrev pub is_failed : JoinAnswer → Bool
is_failed failed = true
is_failed _ = false

-- The text of a file that could be read.
abbrev pub text_of : JoinAnswer → Option String
text_of (text s) = some s
text_of _ = none

-- readFileString: nothing for a file that cannot be read.
abbrev pub string_of : JoinAnswer → String
string_of (text s) = s
string_of _ = ""

unfoldable pub read_file_string : String → JoinProg String
read_file_string path = ask (reads_file path) >>= λ r. ret (string_of r)

unfoldable pub exists : String → JoinProg Bool
exists path = ask (stats path) >>= λ r. ret (not (is_failed r))

-- The first of the needles that is found, or the empty text.
unfoldable pub first_match : String → List String → String
first_match haystack [] = ""
first_match haystack (n ∷ ns) =
    let later = first_match haystack ns in if contains_text haystack n then n else later

-- The environment is a function: the empty text for a name that is not set.
abbrev pub Environ : Type 0
Environ = String → String

unfoldable pub env_or : Environ → String → String → String
env_or env key def = let v = trim_space (env key) in if str_eq v "" then def else v

unfoldable pub boot_args_configured : Environ → Bool
boot_args_configured env = not (str_eq (trim_space (env "ASTERKUBE_APISERVER")) "")

abbrev pub Settings : Type 0
Settings = List (String × String)

-- The last line of a key stands in front.
abbrev pub setting : String → Settings → String
setting key [] = ""
setting key (s ∷ more) = if str_eq s.0 key then s.1 else setting key more

-- A line of node.env: blank ones, comments and those without a key set nothing.
unfoldable pub env_line : String → Settings → Settings
env_line line m =
    let ln = trim_space line in
    if str_eq ln "" || has_prefix ln "#" then m else elim (cut_at 61 ln) [
      | none ↦ m
      | some kv ↦ if str_eq kv.0 "" then m else (trim_space kv.0, trim_space kv.1) ∷ m
    ]

unfoldable pub env_lines : List String → Settings → Settings
env_lines [] m = m
env_lines (l ∷ ls) m = env_lines ls (env_line l m)

unfoldable pub parse_env_file : String → JoinProg Settings
parse_env_file path = ask (reads_file path) >>= λ r. elim (text_of r) [
  | none ↦ ret []
  | some data_text ↦ ret (env_lines (split_on 10 data_text) [])
]
