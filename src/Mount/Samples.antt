-- ===== src/Mount/Samples.antt =====
-- Runs of the mount code on small inputs, and its theorems there.
use asterkube.Prelude.{
  or_else, ℕ, Bool, true, false, List, [], ◌∷◌, ◌++◌, Option, none, some, ◌≡◌, refl, if◌then◌else◌,
  String, bit_or, All,
}
use asterkube.Prelude.Bits.{bit}
use asterkube.Prelude.Text.{str_eq, split_on, has_prefix, join}
use asterkube.Mount.Options.{
  no_opts, apply_mount_opts, apply_words, apply_word, mount_cases, comma, effect_of,
}
use asterkube.Mount.Options.LastWord.{apply_mount_opts-last_word, last_said, unknown}
use asterkube.Mount.Applet.{MountCall, Fails, run_mount}
use asterkube.Mount.Applet.Arguments.{
  Argument, fs_type, options, operand, written, run_mount-written, expected_call, operands,
  last_type, all_opts,
}
use asterkube.Mount.Applet.{run_umount, umount_args, umount_targets}
use asterkube.Mount.Applet.Umount.{AllMade, asked_for, run_umount-AllMade}
use asterkube.Mount.Boot.{MountSpec, Kernel, mount_all, default_mounts}
use asterkube.Mount.Boot.InOrder.{InOrder, mount_all-InOrder}
use asterkube.Mount.Fstab.{
  entry, no_auto, kept, parse_lines, entry_of_line, entry_of_fields, fields, trim_space, is_pseudo,
  one_of, fstab_pseudo_opts, is_space,
}
use asterkube.Mount.Fstab.Entries.{ComesFrom, entry-ComesFrom}

-- `ro` is undone by the `rw` behind it.
ro_rw :
    apply_mount_opts "ro,nosuid,size=1m,rw" no_opts
    ≡ record { flags = 2; data_words = "size=1m" ∷ [] }
unfolding apply_mount_opts apply_words apply_word effect_of mount_cases split_on
    asterkube.Prelude.Bits.and_not
ro_rw = refl

apply_mount_opts-last_word_example :
    ((k : ℕ)
      → bit k (apply_mount_opts "ro,size=1m,rw" no_opts).flags
        ≡ or_else (last_said mount_cases k (split_on comma "ro,size=1m,rw")) (bit k 0))
    × ((apply_mount_opts "ro,size=1m,rw" no_opts).data_words
        ≡ [] ++ unknown mount_cases (split_on comma "ro,size=1m,rw"))
apply_mount_opts-last_word_example = apply_mount_opts-last_word "ro,size=1m,rw" no_opts

abbrev a_tmpfs : List Argument
a_tmpfs = fs_type "tmpfs" ∷ operand "tmpfs" ∷ options "ro,size=1m" ∷ operand "/mnt" ∷ []

abbrev always : MountCall → Fails
always call = none

run_mount-written_example :
    (run_mount always (written a_tmpfs)).calls
    ≡ expected_call (operands a_tmpfs) (last_type a_tmpfs "") (all_opts a_tmpfs no_opts)
unfolding has_prefix
run_mount-written_example = run_mount-written always a_tmpfs (refl, (refl, (refl, (refl, tt))))

-- A kernel whose state is the list of what is mounted; it has no sysfs.
abbrev small_kernel : Kernel (List String)
small_kernel = record {
  exists = λ w path. false;
  is_populated = λ w path. str_eq path "/dev";
  mkdir_all = λ w path. w;
  mount = λ w call. if str_eq call.fs_type "sysfs" then (w, some 19) else (call.target ∷ w, none);
}

mount_all-InOrder_example :
    InOrder small_kernel default_mounts []
      (mount_all small_kernel default_mounts []).0
      (mount_all small_kernel default_mounts []).1
mount_all-InOrder_example = mount_all-InOrder small_kernel default_mounts []

-- The devtmpfs is skipped and the sysfs fails, and the others are mounted all the same.
default_mounts_run :
    (mount_all small_kernel default_mounts []).0
    ≡ "/sys/kernel/config" ∷ "/sys/fs/cgroup" ∷ "/run" ∷ "/tmp" ∷ "/proc" ∷ []
unfolding mount_all asterkube.Mount.Boot.mount_one default_mounts
default_mounts_run = refl

abbrev data_disk : MountSpec
data_disk = record {
  source = "/dev/vdb";
  target = "/data";
  fs_type = "ext2";
  flags = 2;
  mount_data = "size=1m";
  device = true;
  skip_if_populated = false;
}

data_disk_line :
    parse_lines (
      "# a comment" ∷ "  /dev/vdb\t/data ext2 nosuid,nofail,size=1m 0 2"
      ∷ "/dev/vdc /old ext2 noauto" ∷ "too short" ∷ [])
    ≡ data_disk ∷ []
unfolding parse_lines entry_of_line entry_of_fields fields trim_space entry no_auto kept is_pseudo
    one_of fstab_pseudo_opts is_space apply_mount_opts apply_words apply_word effect_of mount_cases
    split_on join has_prefix
data_disk_line = refl

entry-ComesFrom_example :
    (no_auto (split_on comma "nosuid,nofail,size=1m") ≡ false)
    × ComesFrom (split_on comma "nosuid,nofail,size=1m") data_disk
unfolding entry no_auto kept is_pseudo one_of fstab_pseudo_opts apply_mount_opts apply_words
    apply_word effect_of mount_cases split_on join has_prefix
entry-ComesFrom_example =
    entry-ComesFrom "/dev/vdb" "/data" "ext2" "nosuid,nofail,size=1m" data_disk refl

run_umount-AllMade_example :
    AllMade
      (λ call. none)
      (asked_for ("/a" ∷ "-l" ∷ "/b" ∷ []))
      (run_umount (λ call. none) ("/a" ∷ "-l" ∷ "/b" ∷ []))
unfolding run_umount umount_args umount_targets has_prefix
run_umount-AllMade_example = run_umount-AllMade (λ call. none) ("/a" ∷ "-l" ∷ "/b" ∷ []) refl
