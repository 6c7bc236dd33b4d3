-- ===== src/Seccomp.antt =====
-- The filter of the seccomp probe: buildFilter and the choice of its action in
-- cmd/asterkube-init/seccomp_probe_linux.go.
pub mod Verdicts
mod Samples
use asterkube.Prelude.{
  ℕ, ◌+◌, Bool, ◌==◌, List, [], ◌∷◌, Option, none, some, String, ◌≡◌, if◌then◌else◌, get_elem?,
  bit_or,
}
use asterkube.Prelude.Text.{str_eq}

pub record SockFilter : Type 0 where
  pub code : ℕ
  pub jt : ℕ
  pub jf : ℕ
  pub k : ℕ

abbrev pub bpf_load_word : ℕ
bpf_load_word = bit_or (bit_or 0x00 0x00) 0x20

abbrev pub bpf_jump_equal : ℕ
bpf_jump_equal = bit_or (bit_or 0x05 0x10) 0x00

abbrev pub bpf_return : ℕ
bpf_return = bit_or 0x06 0x00

abbrev pub off_nr : ℕ
off_nr = 0

abbrev pub off_arch : ℕ
off_arch = 4

abbrev pub audit_arch_x86_64 : ℕ
audit_arch_x86_64 = 0xC000003E

abbrev pub ret_kill_process : ℕ
ret_kill_process = 0x80000000

abbrev pub ret_errno : ℕ
ret_errno = 0x00050000

abbrev pub ret_allow : ℕ
ret_allow = 0x7fff0000

abbrev instruction : ℕ → ℕ → ℕ → ℕ → SockFilter
instruction code jt jf k = record { code = code; jt = jt; jf = jf; k = k }

unfoldable pub build_filter : ℕ → ℕ → List SockFilter
build_filter target_nr action =
    instruction bpf_load_word 0 0 off_arch
    ∷ instruction bpf_jump_equal 1 0 audit_arch_x86_64
    ∷ instruction bpf_return 0 0 ret_kill_process
    ∷ instruction bpf_load_word 0 0 off_nr
    ∷ instruction bpf_jump_equal 0 1 target_nr
    ∷ instruction bpf_return 0 0 action
    ∷ instruction bpf_return 0 0 ret_allow
    ∷ []

-- The action that the child asks for: EPERM, or the end of the process.
unfoldable pub child_action : String → ℕ
child_action mode = if str_eq mode "kill" then ret_kill_process else bit_or ret_errno 1

-- struct seccomp_data, as far as the filter reads it.
pub record SeccompData : Type 0 where
  pub nr : ℕ
  pub arch : ℕ

-- The kernel's machine for classic BPF, which runs a program from an instruction on, with a number in its register.
-- Its laws are those that the kernel documents of the three instructions.
pub record Machine : Type 0 where
  pub eval : List SockFilter → ℕ → ℕ → SeccompData → Option ℕ
  pub word : SeccompData → ℕ → ℕ
  pub word_nr : (d : SeccompData) → word d 0 ≡ d.nr
  pub word_arch : (d : SeccompData) → word d 4 ≡ d.arch
  pub load :
      (prog : List SockFilter) (pc a : ℕ) (d : SeccompData) (i : SockFilter)
      → get_elem? prog pc ≡ some i
      → i.code ≡ 0x20
      → eval prog pc a d ≡ eval prog (pc + 1) (word d i.k) d
  pub jump :
      (prog : List SockFilter) (pc a : ℕ) (d : SeccompData) (i : SockFilter)
      → get_elem? prog pc ≡ some i
      → i.code ≡ 0x15
      → eval prog pc a d ≡ eval prog (pc + 1 + (if a == i.k then i.jt else i.jf)) a d
  pub return :
      (prog : List SockFilter) (pc a : ℕ) (d : SeccompData) (i : SockFilter)
      → get_elem? prog pc ≡ some i
      → i.code ≡ 0x06
      → eval prog pc a d ≡ some i.k
