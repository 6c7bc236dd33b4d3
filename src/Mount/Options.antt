-- ===== src/Mount/Options.antt =====
-- Mount options: applyMountOpts of cmd/asterkube-init/mount_applet_linux.go, and the flags.
pub mod LastWord
use asterkube.Prelude.{
  ℕ, Bool, List, [], ◌∷◌, ◌++◌, Option, none, some, if◌then◌else◌, bit_or, String,
}
use asterkube.Prelude.Bits.{and_not}
use asterkube.Prelude.Text.{str_eq, split_on}

abbrev pub ms_rdonly : ℕ
ms_rdonly = 1

abbrev pub ms_nosuid : ℕ
ms_nosuid = 2

abbrev pub ms_nodev : ℕ
ms_nodev = 4

abbrev pub ms_noexec : ℕ
ms_noexec = 8

abbrev pub ms_synchronous : ℕ
ms_synchronous = 16

abbrev pub ms_remount : ℕ
ms_remount = 32

abbrev pub ms_dirsync : ℕ
ms_dirsync = 128

abbrev pub ms_noatime : ℕ
ms_noatime = 1024

abbrev pub ms_nodiratime : ℕ
ms_nodiratime = 2048

abbrev pub ms_bind : ℕ
ms_bind = 4096

abbrev pub ms_move : ℕ
ms_move = 8192

abbrev pub ms_rec : ℕ
ms_rec = 16384

abbrev pub ms_silent : ℕ
ms_silent = 32768

abbrev pub ms_unbindable : ℕ
ms_unbindable = 131072

abbrev pub ms_private : ℕ
ms_private = 262144

abbrev pub ms_slave : ℕ
ms_slave = 524288

abbrev pub ms_shared : ℕ
ms_shared = 1048576

abbrev pub ms_relatime : ℕ
ms_relatime = 2097152

abbrev pub ms_strictatime : ℕ
ms_strictatime = 16777216

-- What a case of the switch does: `|=`, `&^=`, or nothing.
pub data Effect : Type 0 where
  sets : ℕ → Effect
  clears : ℕ → Effect
  nothing : Effect

-- A case of a switch on a word.
pub record Case : Type 0 where
  pub word : String
  pub effect : Effect

-- The first case for a word, `none` standing for `default`.
unfoldable pub effect_of : List Case → String → Option Effect
effect_of [] o = none
effect_of (c ∷ cases) o =
    let later = effect_of cases o in if str_eq o c.word then some c.effect else later

abbrev on : String → Effect → Case
on w e = record { word = w; effect = e }

-- The switch of applyMountOpts.
unfoldable pub mount_cases : List Case
mount_cases =
    on "" nothing
    ∷ on "defaults" nothing
    ∷ on "loop" nothing
    ∷ on "rw" (clears ms_rdonly)
    ∷ on "bind" (sets ms_bind)
    ∷ on "rbind" (sets (bit_or ms_bind ms_rec))
    ∷ on "remount" (sets ms_remount)
    ∷ on "move" (sets ms_move)
    ∷ on "ro" (sets ms_rdonly)
    ∷ on "nosuid" (sets ms_nosuid)
    ∷ on "suid" (clears ms_nosuid)
    ∷ on "nodev" (sets ms_nodev)
    ∷ on "dev" (clears ms_nodev)
    ∷ on "noexec" (sets ms_noexec)
    ∷ on "exec" (clears ms_noexec)
    ∷ on "sync" (sets ms_synchronous)
    ∷ on "dirsync" (sets ms_dirsync)
    ∷ on "noatime" (sets ms_noatime)
    ∷ on "nodiratime" (sets ms_nodiratime)
    ∷ on "relatime" (sets ms_relatime)
    ∷ on "strictatime" (sets ms_strictatime)
    ∷ on "shared" (sets ms_shared)
    ∷ on "rshared" (sets (bit_or ms_shared ms_rec))
    ∷ on "private" (sets ms_private)
    ∷ on "rprivate" (sets (bit_or ms_private ms_rec))
    ∷ on "slave" (sets ms_slave)
    ∷ on "rslave" (sets (bit_or ms_slave ms_rec))
    ∷ on "silent" (sets ms_silent)
    ∷ []

-- The two variables that the options change.
pub record MountOpts : Type 0 where
  pub flags : ℕ
  pub data_words : List String

abbrev pub no_opts : MountOpts
no_opts = record { flags = 0; data_words = [] }

abbrev pub change_flags : Effect → ℕ → ℕ
change_flags (sets m) f = bit_or f m
change_flags (clears m) f = and_not f m
change_flags nothing f = f

abbrev pub take_word : Option Effect → String → MountOpts → MountOpts
take_word (some e) o st = record st { flags = change_flags e st.flags }
take_word none o st = record st { data_words = st.data_words ++ o ∷ [] }

-- One word: a known one changes the flags, any other is data for the filesystem.
unfoldable pub apply_word : List Case → String → MountOpts → MountOpts
apply_word cases o st = take_word (effect_of cases o) o st

-- `for _, o := range words`
unfoldable pub apply_words : List Case → List String → MountOpts → MountOpts
apply_words cases [] st = st
apply_words cases (o ∷ ws) st = apply_words cases ws (apply_word cases o st)

-- The comma.
abbrev pub comma : ℕ
comma = 44

unfoldable pub apply_mount_opts : String → MountOpts → MountOpts
apply_mount_opts opts st = apply_words mount_cases (split_on comma opts) st
