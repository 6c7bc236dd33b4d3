-- ===== src/Oci/Rootfs.antt =====
-- The container's root filesystem: mountOptions and setupRootfs of
-- cmd/asterkube-init/ociruntime_linux.go.
pub mod Options
use asterkube.Prelude.{
  ℕ, List, [], ◌∷◌, ◌++◌, Option, none, some, if◌then◌else◌, bit_or, String, map,
}
use asterkube.Prelude.Text.{str_eq, join}
use asterkube.Mount.Options.{
  Case, Effect, sets, MountOpts, no_opts, apply_words, ms_rdonly, ms_nosuid, ms_nodev, ms_noexec,
  ms_bind, ms_rec, ms_relatime, ms_strictatime, ms_remount, ms_private,
}
use asterkube.Mount.Applet.{MountCall, Fails}
use asterkube.Oci.Paths.{path_join}
use asterkube.Oci.Spec.{OciMount, OciSpec}

abbrev on : String → Effect → Case
on w e = record { word = w; effect = e }

-- The switch of mountOptions.
unfoldable pub oci_cases : List Case
oci_cases =
    on "ro" (sets ms_rdonly)
    ∷ on "nosuid" (sets ms_nosuid)
    ∷ on "nodev" (sets ms_nodev)
    ∷ on "noexec" (sets ms_noexec)
    ∷ on "bind" (sets ms_bind)
    ∷ on "rbind" (sets (bit_or ms_bind ms_rec))
    ∷ on "relatime" (sets ms_relatime)
    ∷ on "strictatime" (sets ms_strictatime)
    ∷ on "remount" (sets ms_remount)
    ∷ []

unfoldable pub mount_options : List String → MountOpts
mount_options opts = apply_words oci_cases opts no_opts

pub data RootCall : Type 0 where
  mounts : MountCall → RootCall
  makes_dir : String → RootCall
  pivot_root : String → String → RootCall
  chroot : String → RootCall
  chdir : String → RootCall
  detaches : String → RootCall
  removes_dir : String → RootCall

-- What the system answers. The errors of the configuration's own mounts are only printed.
pub record RootEnv : Type 0 where
  pub make_private : Fails
  pub bind_rootfs : Fails
  pub pivot : Fails
  pub chroot : Fails
  pub chdir : Fails

pub record RootRun : Type 0 where
  pub calls : List RootCall
  pub err : Fails

abbrev plain_mount : String → String → ℕ → RootCall
plain_mount source target flags =
    mounts
      (record { source = source; target = target; fs_type = ""; flags = flags; mount_data = "" })

-- One mount of the configuration, with its directory.
unfoldable pub spec_mount : String → OciMount → List RootCall
spec_mount rootfs m =
    let dest = path_join (rootfs ∷ m.destination ∷ []) in
    let o = mount_options m.options in
    makes_dir dest
    ∷ mounts (record {
      source = if str_eq m.source "" then m.mount_type else m.source;
      target = dest;
      fs_type = m.mount_type;
      flags = o.flags;
      mount_data = join "," o.data_words;
    })
    ∷ []

unfoldable pub spec_mounts : String → List OciMount → List RootCall
spec_mounts rootfs [] = []
spec_mounts rootfs (m ∷ ms) = spec_mount rootfs m ++ spec_mounts rootfs ms

abbrev detach_calls : List RootCall
detach_calls = detaches "/.oldroot" ∷ removes_dir "/.oldroot" ∷ []

-- The last part: into the new root by pivot_root, or by chroot where that fails.
unfoldable pub enter_root : RootEnv → String → RootRun
enter_root env rootfs =
    let old = path_join (rootfs ∷ ".oldroot" ∷ []) in
    let before = makes_dir old ∷ pivot_root rootfs old ∷ [] in
    elim env.pivot [
      | some e ↦ elim env.chroot [
        | some f ↦ record { calls = before ++ chroot rootfs ∷ []; err = some e }
        | none ↦ record { calls = before ++ chroot rootfs ∷ chdir "/" ∷ []; err = env.chdir }
      ]
      | none ↦ elim env.chdir [
        | some e ↦ record { calls = before ++ chdir "/" ∷ []; err = some e }
        | none ↦ record { calls = before ++ chdir "/" ∷ detach_calls; err = none }
      ]
    ]

unfoldable pub setup_rootfs : RootEnv → String → OciSpec → RootRun
setup_rootfs env rootfs spec =
    let private_call = plain_mount "" "/" (bit_or ms_rec ms_private) in
    let bind_call = plain_mount rootfs rootfs (bit_or ms_bind ms_rec) in
    let last = enter_root env rootfs in
    elim env.make_private [
      | some e ↦ record { calls = private_call ∷ []; err = some e }
      | none ↦ elim env.bind_rootfs [
        | some e ↦ record { calls = private_call ∷ bind_call ∷ []; err = some e }
        | none ↦ record {
          calls = private_call ∷ bind_call ∷ spec_mounts rootfs spec.mounts ++ last.calls;
          err = last.err;
        }
      ]
    ]
