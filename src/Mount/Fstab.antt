-- ===== src/Mount/Fstab.antt =====
-- /etc/fstab: parseFstab of cmd/asterkube-init/fstab_linux.go, on the lines that its scanner reads.
pub mod Entries
use asterkube.Prelude.{
  ℕ, Bool, true, false, ◌&&◌, ◌||◌, not, List, [], ◌∷◌, ◌++◌, Option, none, some, if◌then◌else◌,
  String, ◌==◌, leb,
}
use Prim.Native.Char.{Char, code}
use asterkube.Prelude.Text.{str_eq, has_prefix, push_front, split_on, join}
use asterkube.Mount.Options.{MountOpts, no_opts, apply_mount_opts, comma}
use asterkube.Mount.Boot.{MountSpec}

-- `unicode.IsSpace`, by the character's number.
unfoldable pub is_space : ℕ → Bool
is_space c =
    (leb 9 c && leb c 13)
    || (c == 32
        || (c == 0x85
            || (c == 0xa0
                || (c == 0x1680
                    || ((leb 0x2000 c && leb c 0x200a)
                        || (c == 0x2028
                            || (c == 0x2029 || (c == 0x202f || (c == 0x205f || c == 0x3000)))))))))

trim_left : String → String
trim_left String.[] = String.[]
trim_left (String.◌∷◌ c s) =
    let rest = trim_left s in if is_space (code c) then rest else String.◌∷◌ c s

abbrev cons_unless_blank : Char → String → String
cons_unless_blank c String.[] = if is_space (code c) then String.[] else String.◌∷◌ c String.[]
cons_unless_blank c (String.◌∷◌ d s) = String.◌∷◌ c (String.◌∷◌ d s)

trim_right : String → String
trim_right String.[] = String.[]
trim_right (String.◌∷◌ c s) = cons_unless_blank c (trim_right s)

-- `strings.TrimSpace`.
unfoldable pub trim_space : String → String
unfolding trim_left trim_right
trim_space s = trim_right (trim_left s)

-- Split at every blank, which leaves empty texts where blanks are adjacent.
split_at_spaces : String → List String
split_at_spaces String.[] = String.[] ∷ []
split_at_spaces (String.◌∷◌ c s) =
    let rest = split_at_spaces s in
    if is_space (code c) then String.[] ∷ rest else push_front c rest

drop_empty : List String → List String
drop_empty [] = []
drop_empty (w ∷ ws) = let rest = drop_empty ws in if str_eq w "" then rest else w ∷ rest

-- `strings.Fields`.
unfoldable pub fields : String → List String
unfolding split_at_spaces drop_empty
fields s = drop_empty (split_at_spaces s)

-- Whether a text is one of a list.
unfoldable pub one_of : String → List String → Bool
one_of s [] = false
one_of s (w ∷ ws) = str_eq s w || one_of s ws

unfoldable pub fstab_pseudo_opts : List String
fstab_pseudo_opts =
    "auto" ∷ "nofail" ∷ "_netdev" ∷ "user" ∷ "users" ∷ "nouser" ∷ "owner" ∷ "group" ∷ []

unfoldable pub is_pseudo : String → Bool
is_pseudo o = one_of o fstab_pseudo_opts || has_prefix o "comment="

-- The words that are kept for mount(2), and whether `noauto` is one of the words.
unfoldable pub kept : List String → List String
kept [] = []
kept (o ∷ ws) =
    let rest = kept ws in if str_eq o "noauto" then rest else if is_pseudo o then rest else o ∷ rest

unfoldable pub no_auto : List String → Bool
no_auto ws = one_of "noauto" ws

-- One entry, from its fields.
unfoldable pub entry : String → String → String → String → Option MountSpec
entry source target fs_type opts =
    let words = split_on comma opts in
    let o = apply_mount_opts (join "," (kept words)) no_opts in
    if no_auto words
    then none
    else some (record {
      source = source;
      target = target;
      fs_type = fs_type;
      flags = o.flags;
      mount_data = join "," o.data_words;
      device = has_prefix source "/dev/";
      skip_if_populated = false;
    })

-- The fields of a line: three at least, and the options behind them.
unfoldable pub entry_of_fields : List String → Option MountSpec
entry_of_fields (source ∷ target ∷ fs_type ∷ []) = entry source target fs_type "defaults"
entry_of_fields (source ∷ target ∷ fs_type ∷ opts ∷ _) = entry source target fs_type opts
entry_of_fields _ = none

unfoldable pub entry_of_line : String → Option MountSpec
entry_of_line text =
    let line = trim_space text in
    if str_eq line "" || has_prefix line "#" then none else entry_of_fields (fields line)

abbrev add_entry : Option MountSpec → List MountSpec → List MountSpec
add_entry none specs = specs
add_entry (some spec) specs = spec ∷ specs

-- `none` stands for a table that cannot be opened.
unfoldable pub parse_lines : List String → List MountSpec
parse_lines [] = []
parse_lines (text ∷ more) = add_entry (entry_of_line text) (parse_lines more)

unfoldable pub parse_fstab : Option (List String) → List MountSpec
parse_fstab none = []
parse_fstab (some lines) = parse_lines lines
