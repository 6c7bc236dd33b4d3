-- ===== src/Mount/Applet/Arguments.antt =====
-- What the arguments of the mount and umount commands make of a system call.
use asterkube.Prelude.{
  Bool, true, false, ◌&&◌, List, [], ◌∷◌, ◌++◌, none, ◌≡◌, refl, sym, ap, ◌∙◌, arith, String,
  append_assoc, append-nil, All,
}
use asterkube.Prelude.Text.{has_prefix, join, dash_only}
use asterkube.Mount.Options.{Case, effect_of, MountOpts, no_opts, apply_mount_opts}
use asterkube.Mount.Applet.{
  MountCall, Fails, MountArgs, mount_flag_cases, set_type, add_opts, lone_argument, mount_args,
  call_for, run_mount, mount_with,
}

-- Arguments in groups: `-t type`, `-o options`, and operands.
pub data Argument : Type 0 where
  fs_type : String → Argument
  options : String → Argument
  operand : String → Argument

unfoldable pub written : List Argument → List String
written [] = []
written (fs_type t ∷ more) = "-t" ∷ t ∷ written more
written (options o ∷ more) = "-o" ∷ o ∷ written more
written (operand s ∷ more) = s ∷ written more

-- An operand does not look like an option.
abbrev pub IsOperand : Argument → Type 0
IsOperand (fs_type t) = true ≡ true
IsOperand (options o) = true ≡ true
IsOperand (operand s) = has_prefix s "-" ≡ false

-- What each group asks for.
abbrev pub take_argument : Argument → MountArgs → MountArgs
take_argument (fs_type t) m = set_type t m
take_argument (options o) m = add_opts o m
take_argument (operand s) m = record m { positional = m.positional ++ s ∷ [] }

unfoldable pub take_arguments : List Argument → MountArgs → MountArgs
take_arguments [] m = m
take_arguments (a ∷ more) m = take_arguments more (take_argument a m)

all_dashed : List Case → Bool
all_dashed [] = true
all_dashed (c ∷ cases) = has_prefix c.word "-" && all_dashed cases

no_case :
    (cases : List Case) (s : String)
    → has_prefix s "-" ≡ false
    → all_dashed cases ≡ true
    → effect_of cases s ≡ none
unfolding effect_of all_dashed
no_case [] s h k = refl
no_case (c ∷ cases) s h k = ground (arith, dash_only s c.word h, no_case cases s h)

longer_prefix :
    (s : String)
    → has_prefix s "-" ≡ false
    → (has_prefix s "-t" ≡ false) × (has_prefix s "-o" ≡ false)
unfolding has_prefix
longer_prefix String.[] h = (refl, refl)
longer_prefix (String.◌∷◌ c s) h = ground arith

flags_dashed : all_dashed mount_flag_cases ≡ true
unfolding all_dashed has_prefix mount_flag_cases
flags_dashed = refl

lone_operand :
    (s : String) (m : MountArgs)
    → has_prefix s "-" ≡ false
    → lone_argument s m ≡ take_argument (operand s) m
unfolding lone_argument
lone_operand s m h = ground (arith, longer_prefix s h, no_case mount_flag_cases s h flags_dashed)

one_operand :
    (s : String) (rest : List String) (m : MountArgs)
    → has_prefix s "-" ≡ false
    → mount_args (s ∷ rest) m ≡ mount_args rest (lone_argument s m)
unfolding mount_args has_prefix
one_operand s [] m h = ground (
  arith,
  dash_only s "-t" h refl,
  dash_only s "--types" h refl,
  dash_only s "-o" h refl,
  dash_only s "--options" h refl,
)
one_operand s (v ∷ rest) m h = ground (
  arith,
  dash_only s "-t" h refl,
  dash_only s "--types" h refl,
  dash_only s "-o" h refl,
  dash_only s "--options" h refl,
)

mount_args-written :
    (arguments : List Argument) (m : MountArgs)
    → All IsOperand arguments
    → mount_args (written arguments) m ≡ take_arguments arguments m
unfolding mount_args written take_arguments
mount_args-written [] m h = refl
mount_args-written (fs_type t ∷ more) m (p, h) = mount_args-written more (set_type t m) h
mount_args-written (options o ∷ more) m (p, h) = mount_args-written more (add_opts o m) h
mount_args-written (operand s ∷ more) m (p, h) =
    one_operand s (written more) m p
    ∙ ap (mount_args (written more)) (lone_operand s m p)
    ∙ mount_args-written more (take_argument (operand s) m) h

unfoldable pub operands : List Argument → List String
operands [] = []
operands (operand s ∷ more) = s ∷ operands more
operands (fs_type t ∷ more) = operands more
operands (options o ∷ more) = operands more

unfoldable pub last_type : List Argument → String → String
last_type [] t = t
last_type (operand s ∷ more) t = last_type more t
last_type (fs_type t ∷ more) old = last_type more t
last_type (options o ∷ more) t = last_type more t

unfoldable pub all_opts : List Argument → MountOpts → MountOpts
all_opts [] st = st
all_opts (operand s ∷ more) st = all_opts more st
all_opts (fs_type t ∷ more) st = all_opts more st
all_opts (options o ∷ more) st = all_opts more (apply_mount_opts o st)

take_arguments_lem :
    (arguments : List Argument) (m : MountArgs)
    → take_arguments arguments m ≡ record {
      fs_type = last_type arguments m.fs_type;
      opts = all_opts arguments m.opts;
      positional = m.positional ++ operands arguments;
    }
unfolding take_arguments operands last_type all_opts
take_arguments_lem [] m = λ i. record m { positional = sym (append-nil m.positional) i }
take_arguments_lem (fs_type t ∷ more) m = take_arguments_lem more (set_type t m)
take_arguments_lem (options o ∷ more) m = take_arguments_lem more (add_opts o m)
take_arguments_lem (operand s ∷ more) m =
    take_arguments_lem more (take_argument (operand s) m) ∙ (λ i. record {
      fs_type = last_type more m.fs_type;
      opts = all_opts more m.opts;
      positional = append_assoc m.positional (s ∷ []) (operands more) i;
    })

-- The call for some operands, a filesystem type and options.
unfoldable pub expected_call : List String → String → MountOpts → List MountCall
expected_call [] t o = []
expected_call (target ∷ []) t o =
    record {
      source = "";
      target = target;
      fs_type = t;
      flags = o.flags;
      mount_data = join "," o.data_words;
    }
    ∷ []
expected_call (source ∷ target ∷ _) t o =
    record {
      source = source;
      target = target;
      fs_type = t;
      flags = o.flags;
      mount_data = join "," o.data_words;
    }
    ∷ []

call_made :
    (mount : MountCall → Fails) (ps : List String) (t : String) (o : MountOpts)
    → (mount_with mount (record { fs_type = t; opts = o; positional = ps })).calls
      ≡ expected_call ps t o
unfolding mount_with call_for expected_call
call_made mount [] t o = refl
call_made mount (a ∷ []) t o = refl
call_made mount (a ∷ b ∷ more) t o = refl

-- In whatever order a type, lists of options and operands stand on the command line, mount makes one
-- call: with the first two operands as source and target (one alone is the target; without any there
-- is no call), the last type, and what the lists of options do one behind the other.
pub run_mount-written :
    (mount : MountCall → Fails) (arguments : List Argument)
    → All IsOperand arguments
    → (run_mount mount (written arguments)).calls
      ≡ expected_call (operands arguments) (last_type arguments "") (all_opts arguments no_opts)
unfolding run_mount
run_mount-written mount arguments h =
    ap (λ m. (mount_with mount m).calls)
      (mount_args-written arguments start h ∙ take_arguments_lem arguments start)
    ∙ call_made mount (operands arguments) (last_type arguments "") (all_opts arguments no_opts)
  where
    start : MountArgs
    start = record { fs_type = ""; opts = no_opts; positional = [] }
