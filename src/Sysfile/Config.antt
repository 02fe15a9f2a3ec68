-- ===== src/Sysfile/Config.antt =====
-- lib/utility.c, configure_sysfiles: the catalog of the paths of the system's control files. The list
-- of allocated strings, which only serves to free them, is left out.
use cray_pwrapi.Base.{
  ℕ, ◌+◌, List, [], ◌∷◌, ◌++◌, map, Bool, true, false, Option, none, some, is_some, bytes_eq, codes,
  ◌==◌, if◌then◌else◌,
}
use cray_pwrapi.Sysfile.Format.{fmtmatch}
use cray_pwrapi.Sysfile.Line.{blank, malformed, setting, trim, parse_line}

-- `sysentry_t`, with the value that the backup of the catalog has for it.
pub record Entry : Type 0 where
  pub key : List ℕ
  pub default : List ℕ
  pub val : Option (List ℕ)

abbrev pub clear_values : List Entry → List Entry
clear_values entries = map (λ (e : Entry). record e { val = none }) entries

abbrev pub fill_default : Entry → Entry
fill_default e = elim e.val [ none ↦ record e { val = some e.default } | some v ↦ e ]

abbrev pub fill_defaults : List Entry → List Entry
fill_defaults entries = map fill_default entries

-- The first entry with the key takes the value; `none` is an error of the file, or of an allocation.
unfoldable pub assign : Bool → List ℕ → List ℕ → List Entry → Option (List Entry)
unfolding fmtmatch
assign works key val [] = none
assign works key val (e ∷ entries) =
    let rest = assign works key val entries in
    if bytes_eq e.key key
    then (if is_some e.val then none else elim (fmtmatch e.default val) [
      | none ↦ none
      | some false ↦ none
      | some true ↦ if works then some (record e { val = some val } ∷ entries) else none
    ])
    else elim rest [ none ↦ none | some entries' ↦ some (e ∷ entries') ]

abbrev pub chroot_key : List ℕ
chroot_key = codes "chroot"

-- A setting of a line; the directory of a directive 'chroot' replaces that of an earlier one.
unfoldable pub take_setting :
    Bool → List ℕ → List ℕ → Option (List ℕ) × List Entry → Option (Option (List ℕ) × List Entry)
unfolding assign
take_setting works key val (root, entries) =
    if bytes_eq chroot_key key
    then some (if works then some (trim (λ c. c == b'/') val) else none, entries)
    else elim (assign works key val entries) [ none ↦ none | some entries' ↦ some (root, entries') ]

-- The lines from a number on; `works` says whether the allocations at a line succeed.
unfoldable pub read_lines :
    (ℕ → Bool)
    → ℕ
    → List (List ℕ)
    → Option (List ℕ) × List Entry
    → Option (Option (List ℕ) × List Entry)
unfolding parse_line take_setting
read_lines works lineno [] s = some s
read_lines works lineno (buf ∷ lines) s = elim (parse_line buf) [
  | blank ↦ read_lines works (lineno + 1) lines s
  | malformed ↦ none
  | setting key val ↦ elim (take_setting (works lineno) key val s) [
    | none ↦ none
    | some s' ↦ read_lines works (lineno + 1) lines s'
  ]
]

-- Every value that is not set becomes the default under the new root.
unfoldable pub fill_root : (ℕ → Bool) → ℕ → List ℕ → List Entry → Option (List Entry)
fill_root works i root [] = some []
fill_root works i root (e ∷ entries) =
    let rest = fill_root works (i + 1) root entries in
    elim e.val [
      | some v ↦ elim rest [ none ↦ none | some entries' ↦ some (e ∷ entries') ]
      | none ↦
          if works i
          then elim rest [
            | none ↦ none
            | some entries' ↦ some (record e { val = some (root ++ e.default) } ∷ entries')
          ]
          else none
    ]

-- The values before the holes are filled; `none` is an error.
unfoldable pub read_config :
    (ℕ → Bool) → (ℕ → Bool) → List (List ℕ) → List Entry → Option (List Entry)
unfolding read_lines fill_root
read_config works prints lines entries = elim (read_lines works 1 lines (none, entries)) [
  | none ↦ none
  | some (none, entries') ↦ some entries'
  | some (some root, entries') ↦ fill_root prints 0 root entries'
]

-- The catalog, if the plugin has one, with the lines of the file, if it can be opened; `backed_up`
-- says whether there is a backup of the catalog. An error erases all that was done.
unfoldable pub configure_sysfiles :
    (ℕ → Bool)
    → (ℕ → Bool)
    → Bool
    → Option (List (List ℕ))
    → Option (List Entry)
    → Option (List Entry)
unfolding read_config
configure_sysfiles works prints backed_up file none = none
configure_sysfiles works prints false file (some catalog) = some catalog
configure_sysfiles works prints true none (some catalog) =
    some (fill_defaults (clear_values catalog))
configure_sysfiles works prints true (some lines) (some catalog) =
    elim (read_config works prints lines (clear_values catalog)) [
      | none ↦ some (fill_defaults (clear_values catalog))
      | some entries ↦ some (fill_defaults entries)
    ]
