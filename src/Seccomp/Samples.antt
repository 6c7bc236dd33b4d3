-- ===== src/Seccomp/Samples.antt =====
-- A machine for classic BPF, and the filter on it.
use asterkube.Prelude.{
  ℕ, zero, suc, ◌+◌, true, false, List, [], ◌∷◌, Option, none, some, ◌≡◌, refl, ap, ◌∙◌, arith,
  ◌==◌, if◌then◌else◌, get_elem?,
}
use asterkube.Seccomp.{SockFilter, SeccompData, Machine, build_filter, child_action}
use asterkube.Seccomp.Verdicts.{verdict, build_filter-verdict}

-- The word at an offset of the data: the number of the system call, or its architecture.
abbrev word_at : SeccompData → ℕ → ℕ
word_at d zero = d.nr
word_at d (suc n) = d.arch

-- What an instruction does, where `go` runs on behind so many more.
abbrev act_last : SockFilter → Option ℕ
act_last i = if i.code == 0x06 then some i.k else none

abbrev act_else : SockFilter → ℕ → SeccompData → (ℕ → ℕ → Option ℕ) → Option ℕ
act_else i a d go = if i.code == 0x15 then go (if a == i.k then i.jt else i.jf) a else act_last i

abbrev act : SockFilter → ℕ → SeccompData → (ℕ → ℕ → Option ℕ) → Option ℕ
act i a d go = if i.code == 0x20 then go 0 (word_at d i.k) else act_else i a d go

abbrev execute : List SockFilter → ℕ → ℕ → SeccompData → Option ℕ
execute [] pc a d = none
execute (i ∷ prog) (suc pc) a d = execute prog pc a d
execute (i ∷ prog) zero a d = act i a d (λ skip b. execute prog skip b d)

-- A sum that goes by its first number.
abbrev ahead : ℕ → ℕ → ℕ
ahead zero s = s
ahead (suc pc) s = suc (ahead pc s)

ahead_sum : (pc s : ℕ) → ahead pc s ≡ pc + s
ahead_sum zero s = omega arith
ahead_sum (suc pc) s = omega (arith, ahead_sum pc s)

some_injective : (x i : SockFilter) → some x ≡ some i → x ≡ i
some_injective x i h = ground (arith, h)

execute-act :
    (prog : List SockFilter) (pc a : ℕ) (d : SeccompData) (i : SockFilter)
    → get_elem? prog pc ≡ some i
    → execute prog pc a d ≡ act i a d (λ skip b. execute prog (suc (ahead pc skip)) b d)
execute-act [] pc a d i h = absurd (ground (arith, h))
execute-act (x ∷ prog) zero a d i h =
    ap (λ j. act j a d (λ skip b. execute prog skip b d)) (some_injective x i h)
execute-act (x ∷ prog) (suc pc) a d i h = execute-act prog pc a d i h

load_law :
    (prog : List SockFilter) (pc a : ℕ) (d : SeccompData) (i : SockFilter)
    → get_elem? prog pc ≡ some i
    → i.code ≡ 0x20
    → execute prog pc a d ≡ execute prog (pc + 1) (word_at d i.k) d
load_law prog pc a d i g c =
    let e = execute-act prog pc a d i g in
    let n : suc (ahead pc 0) ≡ pc + 1 = omega (arith, ahead_sum pc 0) in
    let t : (i.code == 0x20) ≡ true = ground (arith, c) in
    e
    ∙ ap
        (λ b.
          if b
          then execute prog (suc (ahead pc 0)) (word_at d i.k) d
          else act_else i a d (λ skip b. execute prog (suc (ahead pc skip)) b d))
        t
    ∙ ap (λ q. execute prog q (word_at d i.k) d) n

jump_law :
    (prog : List SockFilter) (pc a : ℕ) (d : SeccompData) (i : SockFilter)
    → get_elem? prog pc ≡ some i
    → i.code ≡ 0x15
    → execute prog pc a d ≡ execute prog (pc + 1 + (if a == i.k then i.jt else i.jf)) a d
jump_law prog pc a d i g c =
    let s = if a == i.k then i.jt else i.jf in
    let n : suc (ahead pc s) ≡ pc + 1 + s = omega (arith, ahead_sum pc s) in
    let t : (i.code == 0x20) ≡ false = ground (arith, c) in
    let u : (i.code == 0x15) ≡ true = ground (arith, c) in
    execute-act prog pc a d i g
    ∙ ap
        (λ b.
          if b
          then execute prog (suc (ahead pc 0)) (word_at d i.k) d
          else act_else i a d (λ skip b. execute prog (suc (ahead pc skip)) b d))
        t
    ∙ ap (λ b. if b then execute prog (suc (ahead pc s)) a d else act_last i) u
    ∙ ap (λ q. execute prog q a d) n

return_law :
    (prog : List SockFilter) (pc a : ℕ) (d : SeccompData) (i : SockFilter)
    → get_elem? prog pc ≡ some i
    → i.code ≡ 0x06
    → execute prog pc a d ≡ some i.k
return_law prog pc a d i g c =
    let e = execute-act prog pc a d i g in
    let t : (i.code == 0x20) ≡ false = ground (arith, c) in
    let u : (i.code == 0x15) ≡ false = ground (arith, c) in
    let v : (i.code == 0x06) ≡ true = ground (arith, c) in
    e
    ∙ ap
        (λ b.
          if b
          then execute prog (suc (ahead pc 0)) (word_at d i.k) d
          else act_else i a d (λ skip b. execute prog (suc (ahead pc skip)) b d))
        t
    ∙ ap
        (λ b.
          if b
          then execute prog (suc (ahead pc (if a == i.k then i.jt else i.jf))) a d
          else act_last i)
        u
    ∙ ap (λ b. if b then some i.k else none) v

abbrev machine : Machine
machine = record {
  eval = execute;
  word = word_at;
  word_nr = λ d. refl;
  word_arch = λ d. refl;
  load = load_law;
  jump = jump_law;
  return = return_law;
}

-- uname(2) of x86-64.
abbrev uname_call : SeccompData
uname_call = record { nr = 63; arch = 0xC000003E }

build_filter-verdict_example :
    machine.eval (build_filter 63 (child_action "errno")) 0 0 uname_call
    ≡ some (verdict 63 (child_action "errno") uname_call)
build_filter-verdict_example = build_filter-verdict machine 63 (child_action "errno") uname_call 0
