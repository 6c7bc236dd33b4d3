-- ===== src/Mount/Applet.antt =====
-- The mount and umount commands: runMount and runUmount of
-- cmd/asterkube-init/mount_applet_linux.go.
pub mod Arguments
pub mod Umount
use asterkube.Prelude.{
  ℕ, Bool, ◌||◌, List, [], ◌∷◌, ◌++◌, Option, none, some, if◌then◌else◌, bit_or, String,
}
use asterkube.Prelude.Text.{str_eq, has_prefix, cut_prefix, join}
use asterkube.Mount.Options.{
  Case, Effect, sets, clears, nothing, effect_of, MountOpts, no_opts, change_flags,
  apply_mount_opts, ms_rdonly, ms_bind, ms_rec, ms_move, ms_shared, ms_private, ms_slave,
  ms_unbindable,
}

-- What mount(2) is called with.
pub record MountCall : Type 0 where
  pub source : String
  pub target : String
  pub fs_type : String
  pub flags : ℕ
  pub mount_data : String

-- An errno where a system call fails.
abbrev pub Fails : Type 0
Fails = Option ℕ

-- A run of a command: the system calls in their order, and the exit code.
pub record CommandRun (C : Type 0) : Type 0 where
  pub calls : List C
  pub exit_code : ℕ

abbrev pub mount_failure : ℕ
mount_failure = 32

-- The variables that the arguments change.
pub record MountArgs : Type 0 where
  pub fs_type : String
  pub opts : MountOpts
  pub positional : List String

abbrev on : String → Effect → Case
on w e = record { word = w; effect = e }

-- The cases of runMount without a value.
unfoldable pub mount_flag_cases : List Case
mount_flag_cases =
    on "-r" (sets ms_rdonly)
    ∷ on "--read-only" (sets ms_rdonly)
    ∷ on "-w" (clears ms_rdonly)
    ∷ on "--rw" (clears ms_rdonly)
    ∷ on "-B" (sets ms_bind)
    ∷ on "--bind" (sets ms_bind)
    ∷ on "-R" (sets (bit_or ms_bind ms_rec))
    ∷ on "--rbind" (sets (bit_or ms_bind ms_rec))
    ∷ on "-M" (sets ms_move)
    ∷ on "--move" (sets ms_move)
    ∷ on "--make-shared" (sets ms_shared)
    ∷ on "--make-rshared" (sets (bit_or ms_shared ms_rec))
    ∷ on "--make-private" (sets ms_private)
    ∷ on "--make-rprivate" (sets (bit_or ms_private ms_rec))
    ∷ on "--make-slave" (sets ms_slave)
    ∷ on "--make-rslave" (sets (bit_or ms_slave ms_rec))
    ∷ on "--make-unbindable" (sets ms_unbindable)
    ∷ on "-n" nothing
    ∷ on "--no-mtab" nothing
    ∷ on "-v" nothing
    ∷ on "--verbose" nothing
    ∷ on "-F" nothing
    ∷ on "-s" nothing
    ∷ on "--no-canonicalize" nothing
    ∷ []

abbrev pub set_type : String → MountArgs → MountArgs
set_type t m = record m { fs_type = t }

abbrev pub add_opts : String → MountArgs → MountArgs
add_opts o m = record m { opts = apply_mount_opts o m.opts }

-- An argument that a case of `mount_flag_cases` knows, an unknown option, or an operand.
abbrev pub flag_or_operand : Option Effect → String → MountArgs → MountArgs
flag_or_operand (some e) a m = record m {
  opts = record { flags = change_flags e m.opts.flags; data_words = m.opts.data_words };
}
flag_or_operand none a m =
    if has_prefix a "-" then m else record m { positional = m.positional ++ a ∷ [] }

-- An argument that is not followed by a value of its own.
unfoldable pub lone_argument : String → MountArgs → MountArgs
lone_argument a m =
    if has_prefix a "-t"
    then set_type (cut_prefix a "-t") m
    else if has_prefix a "-o"
    then add_opts (cut_prefix a "-o") m
    else flag_or_operand (effect_of mount_flag_cases a) a m

abbrev pub is_type_flag : String → Bool
is_type_flag a = str_eq a "-t" || str_eq a "--types"

abbrev pub is_opts_flag : String → Bool
is_opts_flag a = str_eq a "-o" || str_eq a "--options"

-- `for i := 0; i < len(args); i++`, where `-t` and `-o` take the next argument if there is one.
unfoldable pub mount_args : List String → MountArgs → MountArgs
mount_args [] m = m
mount_args (a ∷ []) m =
    if is_type_flag a then m else if is_opts_flag a then m else lone_argument a m
mount_args (a ∷ value ∷ rest) m =
    let typed = mount_args rest (set_type value m) in
    let opted = mount_args rest (add_opts value m) in
    let next = mount_args (value ∷ rest) (lone_argument a m) in
    if is_type_flag a then typed else if is_opts_flag a then opted else next

abbrev pub mount_call : String → String → MountArgs → MountCall
mount_call source target m = record {
  source = source;
  target = target;
  fs_type = m.fs_type;
  flags = m.opts.flags;
  mount_data = join "," m.opts.data_words;
}

-- The switch on the number of operands.
unfoldable pub call_for : List String → MountArgs → Option MountCall
call_for [] m = none
call_for (target ∷ []) m = some (mount_call "" target m)
call_for (source ∷ target ∷ _) m = some (mount_call source target m)

abbrev exit_for : Fails → ℕ
exit_for none = 0
exit_for (some e) = mount_failure

-- What follows the loop.
unfoldable pub mount_with : (MountCall → Fails) → MountArgs → CommandRun MountCall
mount_with mount m = elim (call_for m.positional m) [
  | none ↦ record { calls = []; exit_code = 0 }
  | some call ↦ record { calls = call ∷ []; exit_code = exit_for (mount call) }
]

unfoldable pub run_mount : (MountCall → Fails) → List String → CommandRun MountCall
run_mount mount args =
    mount_with mount (mount_args args (record { fs_type = ""; opts = no_opts; positional = [] }))

-- What umount2(2) is called with.
pub record UmountCall : Type 0 where
  pub target : String
  pub flags : ℕ

pub record UmountArgs : Type 0 where
  pub flags : ℕ
  pub targets : List String

-- `mntForce` and `mntDetach`.
abbrev mnt_force : ℕ
mnt_force = 1

abbrev mnt_detach : ℕ
mnt_detach = 2

-- The options that runUmount ignores by name are unknown options too: both change nothing.
unfoldable pub umount_args : List String → UmountArgs → UmountArgs
umount_args [] m = m
umount_args (a ∷ rest) m = umount_args rest (
    if str_eq a "-l" || str_eq a "--lazy"
    then record m { flags = bit_or m.flags mnt_detach }
    else if str_eq a "-f" || str_eq a "--force"
    then record m { flags = bit_or m.flags mnt_force }
    else if has_prefix a "-"
    then m
    else record m { targets = m.targets ++ a ∷ [] })

-- `for _, t := range targets`: the first failure exits.
unfoldable pub umount_targets : (UmountCall → Fails) → ℕ → List String → CommandRun UmountCall
umount_targets umount flags [] = record { calls = []; exit_code = 0 }
umount_targets umount flags (t ∷ ts) =
    let call : UmountCall = record { target = t; flags = flags } in
    let rest = umount_targets umount flags ts in
    elim (umount call) [
      | none ↦ record rest { calls = call ∷ rest.calls }
      | some e ↦ record { calls = call ∷ []; exit_code = mount_failure }
    ]

unfoldable pub run_umount : (UmountCall → Fails) → List String → CommandRun UmountCall
run_umount umount args =
    let m = umount_args args (record { flags = 0; targets = [] }) in
    umount_targets umount m.flags m.targets
