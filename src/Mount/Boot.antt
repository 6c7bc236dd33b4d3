-- ===== src/Mount/Boot.antt =====
-- The filesystems of the boot: defaultMounts, mountOne and mountAll of
-- cmd/asterkube-init/mount_linux.go.
pub mod InOrder
use asterkube.Prelude.{
  ℕ, Bool, true, false, ◌&&◌, not, List, [], ◌∷◌, Option, none, some, if◌then◌else◌, String,
}
use asterkube.Prelude.Text.{str_append}
use asterkube.Mount.Applet.{MountCall, Fails}

pub record MountSpec : Type 0 where
  pub source : String
  pub target : String
  pub fs_type : String
  pub flags : ℕ
  pub mount_data : String
  pub device : Bool
  pub skip_if_populated : Bool

pub record MountResult : Type 0 where
  pub spec : MountSpec
  pub skipped : Bool
  pub note : String
  pub err : Fails

-- What mountOne asks of the kernel, whose state is `W`: `exists` and `isPopulated` look, `os.MkdirAll` and
-- mount(2) change it.
pub record Kernel (W : Type 0) : Type 0 where
  pub exists : W → String → Bool
  pub is_populated : W → String → Bool
  pub mkdir_all : W → String → W
  pub mount : W → MountCall → W × Fails

abbrev pub call_of : MountSpec → MountCall
call_of spec = record {
  source = spec.source;
  target = spec.target;
  fs_type = spec.fs_type;
  flags = spec.flags;
  mount_data = spec.mount_data;
}

abbrev pub no_device : MountSpec → MountResult
no_device spec = record {
  spec = spec;
  skipped = true;
  note = str_append "device " (str_append spec.source " not present");
  err = none;
}

abbrev pub already_populated : MountSpec → MountResult
already_populated spec = record {
  spec = spec;
  skipped = true;
  note = "already populated by kernel";
  err = none;
}

abbrev pub tried : MountSpec → Fails → MountResult
tried spec err = record { spec = spec; skipped = false; note = ""; err = err }

module _ {W : Type 0} (kernel : Kernel W) where
  unfoldable pub mount_one : MountSpec → W → W × MountResult
  mount_one spec w =
      let after = kernel.mount (kernel.mkdir_all w spec.target) (call_of spec) in
      if spec.device && not (kernel.exists w spec.source)
      then (w, no_device spec)
      else if spec.skip_if_populated && kernel.is_populated w spec.target
      then (w, already_populated spec)
      else (after.0, tried spec after.1)

  unfoldable pub mount_all : List MountSpec → W → W × List MountResult
  mount_all [] w = (w, [])
  mount_all (spec ∷ specs) w =
      let one = mount_one spec w in let rest = mount_all specs one.0 in (rest.0, one.1 ∷ rest.1)

abbrev pseudo : String → String → MountSpec
pseudo fs_type target = record {
  source = fs_type;
  target = target;
  fs_type = fs_type;
  flags = 0;
  mount_data = "";
  device = false;
  skip_if_populated = false;
}

unfoldable pub default_mounts : List MountSpec
default_mounts =
    pseudo "proc" "/proc"
    ∷ pseudo "sysfs" "/sys"
    ∷ record (pseudo "devtmpfs" "/dev") { skip_if_populated = true }
    ∷ pseudo "tmpfs" "/tmp"
    ∷ pseudo "tmpfs" "/run"
    ∷ pseudo "cgroup2" "/sys/fs/cgroup"
    ∷ pseudo "configfs" "/sys/kernel/config"
    ∷ []
