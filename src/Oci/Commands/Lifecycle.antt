-- ===== src/Oci/Commands/Lifecycle.antt =====
-- The life of a container, from create over start to delete.
use asterkube.Prelude.{
  ℕ, true, false, [], ◌∷◌, Option, none, some, ◌≡◌, refl, ap, ◌∙◌, arith, String,
}
use asterkube.Prelude.Text.{str_eq, str_eq-refl, has_prefix, dash_only}
use asterkube.Oci.Spec.{OciSpec}
use asterkube.Oci.Containers.{
  ContainerState, Dir, Store, put, Env, Run, failed, not_found, read_state, read_spec, last_arg,
  state_of,
}
use asterkube.Oci.Create.{
  CreateArgs, create_args, create_arg, create_forked, create_container, cmd_create, start_container,
  cmd_start, created_state,
}
use asterkube.Oci.Controls.{cmd_delete, delete_args}

put_here : (root id : String) (d : Option Dir) (s : Store) → put root id d s root id ≡ d
put_here root id d s = ground (arith, str_eq-refl root, str_eq-refl id)

-- An id, as an argument: it is not empty and does not look like an option.
pub record IsId (id : String) : Type 0 where
  pub nonempty : str_eq id "" ≡ false
  pub no_dash : has_prefix id "-" ≡ false

-- A system in which nothing fails.
pub record Works (env : Env) : Type 0 where
  pub mkdir : env.mkdir ≡ none
  pub mkfifo : env.mkfifo ≡ none
  pub write_state : env.write_state ≡ none
  pub open_fifo : env.open_fifo ≡ none
  pub remove_all : env.remove_all ≡ none

last_arg_id : (id : String) → IsId id → last_arg (id ∷ []) ≡ id
unfolding last_arg
last_arg_id id h = ground (arith, h.no_dash)

module _ (env : Env) (root bundle id : String) (s : Store) where
  abbrev created_args : CreateArgs
  created_args = record { bundle = bundle; pid_file = ""; id = id }

  create-Works :
      (spec : OciSpec) (pid : ℕ)
      → Works env
      → str_eq id "" ≡ false
      → str_eq bundle "" ≡ false
      → read_spec env bundle ≡ some spec
      → env.fork ≡ some pid
      → (create_container env root created_args s).store root id
        ≡ some (record { state = some (created_state env root id bundle spec pid); fifo = true })
  unfolding create_container create_forked
  create-Works spec pid w h hb hs hf =
      ground
        (arith, h, hb, hs, hf, w.mkdir, w.mkfifo, w.write_state, str_eq-refl root, str_eq-refl id)

module _ (env : Env) (root id : String) (st : ContainerState) (s : Store) where
  start-Works :
      Works env
      → IsId id
      → s root id ≡ some (record { state = some st; fifo = true })
      → (cmd_start env root (id ∷ []) s).store root id
        ≡ some (record { state = some (record st { status = "running" }); fifo = false })
  unfolding cmd_start start_container read_state
  start-Works w h e =
      ground
        (arith, last_arg_id id h, e, w.open_fifo, w.write_state, str_eq-refl root, str_eq-refl id)

  start_again :
      IsId id
      → s root id ≡ some (record { state = some st; fifo = false })
      → (cmd_start env root (id ∷ []) s).ending ≡ failed not_found
  unfolding cmd_start start_container read_state
  start_again h e = ground (arith, last_arg_id id h, e)

  delete_args_id : IsId id → (delete_args (id ∷ []) (record { id = ""; force = false })).id ≡ id
  unfolding delete_args has_prefix
  delete_args_id h =
      ground
        (arith, h.no_dash, dash_only id "--force" h.no_dash refl, dash_only id "-f" h.no_dash refl)

  delete-Works :
      Works env
      → IsId id
      → read_state root id s ≡ some st
      → (cmd_delete env root (id ∷ []) s).store root id ≡ none
  unfolding cmd_delete
  delete-Works w h e =
      ground (arith, delete_args_id h, e, w.remove_all, str_eq-refl root, str_eq-refl id)

longer_prefix :
    (id : String)
    → has_prefix id "-" ≡ false
    → (has_prefix id "--bundle=" ≡ false) × (has_prefix id "--pid-file=" ≡ false)
unfolding has_prefix
longer_prefix String.[] h = (refl, refl)
longer_prefix (String.◌∷◌ c id) h = ground arith

create_args_id :
    (bundle id : String)
    → IsId id
    → create_args ("--bundle" ∷ bundle ∷ id ∷ []) (record { bundle = ""; pid_file = ""; id = "" })
      ≡ some (record { bundle = bundle; pid_file = ""; id = id })
unfolding create_args create_arg has_prefix
create_args_id bundle id h = ground (
  arith,
  h.no_dash,
  longer_prefix id h.no_dash,
  dash_only id "--bundle" h.no_dash refl,
  dash_only id "-b" h.no_dash refl,
  dash_only id "--pid-file" h.no_dash refl,
  dash_only id "--console-socket" h.no_dash refl,
  dash_only id "--preserve-fds" h.no_dash refl,
)

parsed_create :
    (env : Env) (root bundle id : String) (s : Store)
    → IsId id
    → cmd_create env root ("--bundle" ∷ bundle ∷ id ∷ []) s
      ≡ create_container env root (created_args env root bundle id s) s
unfolding cmd_create
parsed_create env root bundle id s h = rw (create_args_id bundle id h, cmd_create) refl

module _ (env : Env) (root bundle id : String) (s : Store) where
  abbrev pub created : Store
  created = (cmd_create env root ("--bundle" ∷ bundle ∷ id ∷ []) s).store

  abbrev pub running : Store
  running = (cmd_start env root (id ∷ []) created).store

  abbrev pub deleted : Store
  deleted = (cmd_delete env root (id ∷ []) running).store

  -- Where nothing fails: create leaves the container created, with the pid of its init and its fifo in
  -- place; start makes it running, without the fifo, and a second start finds nothing to start; delete
  -- leaves nothing of it.
  pub lifecycle_lem :
      (spec : OciSpec) (pid : ℕ)
      → Works env
      → IsId id
      → str_eq bundle "" ≡ false
      → read_spec env bundle ≡ some spec
      → env.fork ≡ some pid
      → (created root id
          ≡ some (record { state = some (created_state env root id bundle spec pid); fifo = true }))
        × (running root id
            ≡ some (record {
              state =
                  some (record (created_state env root id bundle spec pid) { status = "running" });
              fifo = false;
            }))
        × ((cmd_start env root (id ∷ []) running).ending ≡ failed not_found)
        × (deleted root id ≡ none)
  unfolding read_state
  lifecycle_lem spec pid w h hb hs hf =
      let st = created_state env root id bundle spec pid in
      let c : created root id ≡ some (record { state = some st; fifo = true }) =
        ap (λ (r : Run). r.store root id) (parsed_create env root bundle id s h)
        ∙ create-Works env root bundle id s spec pid w h.nonempty hb hs hf in
      let r = start-Works env root id st created w h c in
      (
        c,
        r,
        start_again env root id _ running h r,
        delete-Works env root id _ running w h (ap state_of r),
      )
