-- ===== src/Oci/Commands/Globals.antt =====
-- The global flags in front of a subcommand.
use asterkube.Prelude.{List, [], ◌∷◌, ◌≡◌, refl, ◌∙◌, arith, String, false}
use asterkube.Prelude.Text.{str_eq, has_prefix, dash_only}
use asterkube.Oci.Commands.{RuntimeGlobals, subcommand, sets, no_flag, global_case, global_args}

-- The flags that the shim passes.
pub data GlobalFlag : Type 0 where
  root_flag : String → GlobalFlag
  log_flag : String → GlobalFlag
  format_flag : String → GlobalFlag
  debug_flag : GlobalFlag
  systemd_flag : GlobalFlag

-- The flags, written out in front of other arguments.
unfoldable pub in_front : List GlobalFlag → List String → List String
in_front [] tail = tail
in_front (root_flag r ∷ more) tail = "--root" ∷ r ∷ in_front more tail
in_front (log_flag l ∷ more) tail = "--log" ∷ l ∷ in_front more tail
in_front (format_flag f ∷ more) tail = "--log-format" ∷ f ∷ in_front more tail
in_front (debug_flag ∷ more) tail = "--debug" ∷ in_front more tail
in_front (systemd_flag ∷ more) tail = "--systemd-cgroup" ∷ in_front more tail

-- What they set: the last one of a kind counts.
unfoldable pub set_by : List GlobalFlag → RuntimeGlobals → RuntimeGlobals
set_by [] g = g
set_by (root_flag r ∷ more) g = set_by more (record g { root = r })
set_by (log_flag l ∷ more) g = set_by more (record g { log = l })
set_by (format_flag f ∷ more) g = set_by more g
set_by (debug_flag ∷ more) g = set_by more g
set_by (systemd_flag ∷ more) g = set_by more g

-- A flag without a value, whatever is behind it.
lone_flag :
    (a : String) (rest : List String) (g : RuntimeGlobals)
    → global_case a g ≡ sets g
    → global_args (a ∷ rest) g ≡ global_args rest g
unfolding global_args
lone_flag a [] g e = rw (e, global_args) refl
lone_flag a (v ∷ rest) g e = rw (e, global_args) refl

long_prefix :
    (s : String)
    → has_prefix s "-" ≡ false
    → (has_prefix s "--root=" ≡ false)
      × (has_prefix s "--log=" ≡ false)
      × (has_prefix s "--log-format=" ≡ false)
      × (has_prefix s "--" ≡ false)
unfolding has_prefix
long_prefix String.[] h = (refl, refl, refl, refl)
long_prefix (String.◌∷◌ c s) h = ground arith

command_case :
    (cmd : String) (g : RuntimeGlobals)
    → has_prefix cmd "-" ≡ false
    → str_eq cmd "version" ≡ false
    → global_case cmd g ≡ no_flag
unfolding global_case
command_case cmd g h k = ground (
  arith,
  k,
  long_prefix cmd h,
  dash_only cmd "--root" h (unfold has_prefix in refl),
  dash_only cmd "--log" h (unfold has_prefix in refl),
  dash_only cmd "--log-format" h (unfold has_prefix in refl),
  dash_only cmd "--version" h (unfold has_prefix in refl),
  dash_only cmd "-v" h (unfold has_prefix in refl),
  dash_only cmd "--help" h (unfold has_prefix in refl),
  dash_only cmd "-h" h (unfold has_prefix in refl),
  dash_only cmd "--systemd-cgroup" h (unfold has_prefix in refl),
  dash_only cmd "--debug" h (unfold has_prefix in refl),
  dash_only cmd "--rootless" h (unfold has_prefix in refl),
)

at_command :
    (cmd : String) (rest : List String) (g : RuntimeGlobals)
    → global_case cmd g ≡ no_flag
    → global_args (cmd ∷ rest) g ≡ subcommand g (cmd ∷ rest)
unfolding global_args
at_command cmd [] g e = rw (e, global_args) refl
at_command cmd (v ∷ rest) g e = rw (e, global_args) refl

-- Behind any of the shim's global flags the runtime finds the subcommand with its own arguments untouched,
-- and has the root and the log of the last flag of each kind; the subcommand does not start with a dash
-- and is not `version`.
pub global_args-in_front :
    (flags : List GlobalFlag) (cmd : String) (rest : List String) (g : RuntimeGlobals)
    → has_prefix cmd "-" ≡ false
    → str_eq cmd "version" ≡ false
    → global_args (in_front flags (cmd ∷ rest)) g ≡ subcommand (set_by flags g) (cmd ∷ rest)
unfolding in_front set_by global_args global_case has_prefix
global_args-in_front [] cmd rest g h k = at_command cmd rest g (command_case cmd g h k)
global_args-in_front (root_flag r ∷ more) cmd rest g h k =
    global_args-in_front more cmd rest (record g { root = r }) h k
global_args-in_front (log_flag l ∷ more) cmd rest g h k =
    global_args-in_front more cmd rest (record g { log = l }) h k
global_args-in_front (format_flag f ∷ more) cmd rest g h k =
    global_args-in_front more cmd rest g h k
global_args-in_front (debug_flag ∷ more) cmd rest g h k =
    lone_flag "--debug" (in_front more (cmd ∷ rest)) g refl
    ∙ global_args-in_front more cmd rest g h k
global_args-in_front (systemd_flag ∷ more) cmd rest g h k =
    lone_flag "--systemd-cgroup" (in_front more (cmd ∷ rest)) g refl
    ∙ global_args-in_front more cmd rest g h k
