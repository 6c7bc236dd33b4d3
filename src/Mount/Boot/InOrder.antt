-- ===== src/Mount/Boot/InOrder.antt =====
-- How mountAll goes through its table.
use asterkube.Prelude.{true, false, ◌&&◌, not, List, [], ◌∷◌, ◌≡◌, refl, if_cases}
use asterkube.Mount.Applet.{Fails}
use asterkube.Mount.Boot.{
  MountSpec, MountResult, Kernel, call_of, no_device, already_populated, tried, mount_one,
  mount_all,
}

module _ {W : Type 0} (kernel : Kernel W) where
  -- How one entry goes: it is skipped, which leaves the kernel as it was, or tried.
  pub data Went : MountSpec → W → W → MountResult → Type 0 where
    missing_device :
        {spec : MountSpec} {w : W}
        → (spec.device && not (kernel.exists w spec.source)) ≡ true
        → Went spec w w (no_device spec)
    populated :
        {spec : MountSpec} {w : W}
        → (spec.device && not (kernel.exists w spec.source)) ≡ false
        → (spec.skip_if_populated && kernel.is_populated w spec.target) ≡ true
        → Went spec w w (already_populated spec)
    mounted :
        {spec : MountSpec} {w after : W} {err : Fails}
        → (spec.device && not (kernel.exists w spec.source)) ≡ false
        → (spec.skip_if_populated && kernel.is_populated w spec.target) ≡ false
        → kernel.mount (kernel.mkdir_all w spec.target) (call_of spec) ≡ (after, err)
        → Went spec w after (tried spec err)

  -- Entries that go one after the other, each from where the one before left the kernel.
  pub data InOrder : List MountSpec → W → W → List MountResult → Type 0 where
    finished : {w : W} → InOrder [] w w []
    followed :
        {spec : MountSpec} {specs : List MountSpec} {w v u : W} {r : MountResult}
        {rs : List MountResult}
        → Went spec w v r
        → InOrder specs v u rs
        → InOrder (spec ∷ specs) w u (r ∷ rs)

  mount_one-Went :
      (spec : MountSpec) (w : W)
      → Went spec w (mount_one kernel spec w).0 (mount_one kernel spec w).1
  unfolding mount_one
  mount_one-Went spec w =
      if_cases (λ (r : W × MountResult). Went spec w r.0 r.1)
        (spec.device && not (kernel.exists w spec.source)) missing_device
        (λ present.
          if_cases (λ (r : W × MountResult). Went spec w r.0 r.1)
            (spec.skip_if_populated && kernel.is_populated w spec.target) (populated present)
            (λ empty. mounted present empty refl))

  -- mountAll goes through all of its entries in their order, whatever fails on the way, with a result for
  -- each: an entry is skipped only if its device is missing or its directory is in use already, and is
  -- otherwise mounted with its own source, target, type, flags and data.
  pub mount_all-InOrder :
      (specs : List MountSpec) (w : W)
      → InOrder specs w (mount_all kernel specs w).0 (mount_all kernel specs w).1
  unfolding mount_all
  mount_all-InOrder [] w = finished
  mount_all-InOrder (spec ∷ specs) w =
      followed (mount_one-Went spec w) (mount_all-InOrder specs (mount_one kernel spec w).0)
