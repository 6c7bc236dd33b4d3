-- ===== src/Oci/Programs.antt =====
-- Which program a name stands for: resolveInRootPath of cmd/asterkube-init/ociruntime_linux.go and
-- resolveInRootfs of cmd/asterkube-init/runc_exec_linux.go.
pub mod Found
use asterkube.Prelude.{
  ℕ, Bool, false, not, List, [], ◌∷◌, Option, none, some, if◌then◌else◌, String, ◌==◌,
}
use Prim.Native.Char.{Char, code}
use asterkube.Prelude.Text.{str_eq, str_append, has_prefix, cut_prefix, contains_byte, split_on}
use asterkube.Oci.Paths.{path_join}

abbrev pub default_path : String
default_path = "/usr/local/sbin:/usr/local/bin:/usr/sbin:/usr/bin:/sbin:/bin"

abbrev pub colon : ℕ
colon = 58

abbrev pub slash : ℕ
slash = 47

-- What stat(2) says of a path that exists.
pub record Stat : Type 0 where
  pub is_dir : Bool
  pub executable : Bool

-- The last PATH of an environment, or "".
unfoldable pub last_path : List String → String → String
last_path [] p = p
last_path (e ∷ env) p = last_path env (if has_prefix e "PATH=" then cut_prefix e "PATH=" else p)

abbrev is_executable : Option Stat → Bool
is_executable none = false
is_executable (some st) = st.executable

unfoldable pub search_root_path : (String → Option Stat) → String → List String → String
search_root_path stat argv0 [] = argv0
search_root_path stat argv0 (dir ∷ dirs) =
    let cand = path_join (dir ∷ argv0 ∷ []) in
    let later = search_root_path stat argv0 dirs in
    if is_executable (stat cand) then cand else later

unfoldable pub resolve_in_root_path : (String → Option Stat) → String → List String → String
resolve_in_root_path stat argv0 env =
    let given = last_path env "" in
    let path_env = if str_eq given "" then default_path else given in
    if contains_byte slash argv0
    then argv0
    else search_root_path stat argv0 (split_on colon path_env)

-- The first PATH of an environment, or the default.
unfoldable pub first_path : List String → String
first_path [] = default_path
first_path (e ∷ env) =
    let later = first_path env in if has_prefix e "PATH=" then cut_prefix e "PATH=" else later

abbrev slash_unless_empty : Char → String → String
slash_unless_empty c String.[] = if code c == slash then String.[] else String.◌∷◌ c String.[]
slash_unless_empty c (String.◌∷◌ d s) = String.◌∷◌ c (String.◌∷◌ d s)

-- `strings.TrimRight(s, "/")`
unfoldable pub trim_slashes : String → String
trim_slashes String.[] = String.[]
trim_slashes (String.◌∷◌ c s) = slash_unless_empty c (trim_slashes s)

abbrev pub is_file : Option Stat → Bool
is_file none = false
is_file (some st) = not st.is_dir

unfoldable pub search_rootfs :
    (String → Option Stat) → String → String → List String → Option String
search_rootfs stat rootfs cmd [] = none
search_rootfs stat rootfs cmd (dir ∷ dirs) =
    let cand = str_append (trim_slashes dir) (str_append "/" cmd) in
    let later = search_rootfs stat rootfs cmd dirs in
    if str_eq dir ""
    then later
    else if is_file (stat (str_append rootfs cand))
    then some cand
    else later

-- `none` is the error "not found".
unfoldable pub resolve_in_rootfs :
    (String → Option Stat) → String → String → List String → Option String
resolve_in_rootfs stat rootfs cmd env =
    let abs = if has_prefix cmd "/" then cmd else str_append "/" cmd in
    if contains_byte slash cmd
    then elim (stat (str_append rootfs abs)) [ none ↦ none | some st ↦ some abs ]
    else search_rootfs stat rootfs cmd (split_on colon (first_path env))
