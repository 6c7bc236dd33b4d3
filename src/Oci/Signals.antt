-- ===== src/Oci/Signals.antt =====
-- Signal names: parseSignal of cmd/asterkube-init/ociruntime_linux.go.
use asterkube.Prelude.{
  ℕ, ◌-◌, Bool, ◌&&◌, ◌||◌, List, [], ◌∷◌, none, some, if◌then◌else◌, String, ◌==◌, leb, map,
}
use asterkube.Prelude.Int.{ℤ, pos}
use asterkube.Prelude.Words.{bytes_eq}
use asterkube.Prelude.Text.{codes}
use asterkube.Prelude.Decimal.{atoi}

-- `strings.ToUpper`, by the characters' numbers: two letters beyond ASCII have an ASCII capital, and no
-- other one's capital is ASCII.
unfoldable pub upper : ℕ → ℕ
upper c =
    if leb 97 c && leb c 122
    then c - 32
    else if c == 0x131
    then 73
    else if c == 0x17f
    then 83
    else c

-- `strings.TrimPrefix(s, "SIG")`
unfoldable pub trim_sig : List ℕ → List ℕ
trim_sig (a ∷ b ∷ c ∷ s) = if bytes_eq (a ∷ b ∷ c ∷ []) (codes "SIG") then s else a ∷ b ∷ c ∷ s
trim_sig s = s

abbrev pub sigterm : ℤ
sigterm = pos 15

abbrev named : List ℕ → String → String → Bool
named s name number = bytes_eq s (codes name) || bytes_eq s (codes number)

unfoldable pub parse_signal : String → ℤ
parse_signal text =
    let s = trim_sig (map upper (codes text)) in
    if named s "TERM" "15" || bytes_eq s []
    then sigterm
    else if named s "KILL" "9"
    then pos 9
    else if named s "INT" "2"
    then pos 2
    else if named s "HUP" "1"
    then pos 1
    else if named s "QUIT" "3"
    then pos 3
    else if named s "USR1" "10"
    then pos 10
    else elim (atoi s) [ some n ↦ n | none ↦ sigterm ]
