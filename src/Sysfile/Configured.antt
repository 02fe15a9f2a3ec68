-- ===== src/Sysfile/Configured.antt =====
-- lib/utility.c, configure_sysfiles: what the catalog holds afterwards.
use cray_pwrapi.Base.{
  ℕ, ◌+◌, ◌≡◌, refl, ap, ap₂, ◌∙◌, List, [], ◌∷◌, map, Bool, true, false, Option, none, some,
  bytes_eq, All, inl, inr, Bool-cases, ◌⊎◌, if◌then◌else◌, ◌==◌,
}
use cray_pwrapi.Sysfile.Directives.{descriptors}
use cray_pwrapi.Sysfile.Line.{Line, blank, malformed, setting, trim, parse_line}
use cray_pwrapi.Sysfile.Config.{
  Entry, clear_values, fill_default, fill_defaults, assign, chroot_key, take_setting, read_lines,
  fill_root, read_config, configure_sysfiles,
}
use cray_pwrapi.Sysfile.Sound.{
  Fits, Sound, SoundFor, OnSome, name_of, bytes_eq_self, assign-Sound, fill_root-Sound,
}

-- A 'chroot' directive for the root: the path of the directive, without slashes at its ends.
IsDirective : List ℕ → List ℕ → Type 0
IsDirective buf root =
    (key : List ℕ) × (val : List ℕ) × (parse_line buf ≡ setting key val)
    × (bytes_eq chroot_key key ≡ true)
    × (root ≡ trim (λ c. c == b'/') val)

-- One of the lines directs the root.
pub Directs : List (List ℕ) → List ℕ → Type 0
Directs [] root = ⊥
Directs (buf ∷ lines) root = IsDirective buf root ⊎ Directs lines root

module _ (IsRoot : List ℕ → Type 0) where
  -- The root that the lines read so far direct, if one does.
  abbrev RootOf : Option (List ℕ) → Type 0
  RootOf none = Unit {0}
  RootOf (some root) = IsRoot root

  -- The lines read so far.
  State : List Entry → Option (List ℕ) × List Entry → Type 0
  State catalog s = SoundFor IsRoot catalog s.1 × RootOf s.0

  after_assign :
      (catalog : List Entry) (root : Option (List ℕ)) (entries : List Entry)
      (r : Option (List Entry))
      → map name_of entries ≡ map name_of catalog
      → RootOf root
      → OnSome (SoundFor IsRoot entries) r
      → OnSome (State catalog) (elim r [ none ↦ none | some entries' ↦ some (root, entries') ])
  unfolding State SoundFor
  after_assign catalog root entries none names ok h = tt
  after_assign catalog root entries (some entries') names ok h = ((h.0, h.1 ∙ names), ok)

  taken_root :
      (works : Bool) (val : List ℕ) → IsRoot val → RootOf (if works then some val else none)
  taken_root true val r = r
  taken_root false val r = tt

  take_setting-Sound :
      (works : Bool) (key val : List ℕ) (catalog : List Entry) (s : Option (List ℕ) × List Entry)
      → (bytes_eq chroot_key key ≡ true → IsRoot (trim (λ c. c == b'/') val))
      → State catalog s
      → OnSome (State catalog) (take_setting works key val s)
  unfolding take_setting State SoundFor
  take_setting-Sound works key val catalog (root, entries) directs h =
      elim (Bool-cases (bytes_eq chroot_key key)) [
        | inl y ↦ rw y (h.0, taken_root works (trim (λ c. c == b'/') val) (directs y))
        | inr n ↦ rw n (
            after_assign catalog root entries (assign works key val entries) h.0.1 h.1
              (assign-Sound IsRoot works key val entries h.0.0))
      ]

  Continues : (ℕ → Bool) → ℕ → List (List ℕ) → List Entry → Type 0
  Continues works lineno lines catalog =
      (s : Option (List ℕ) × List Entry)
      → State catalog s
      → OnSome (State catalog) (read_lines works lineno lines s)

  after_setting :
      (works : ℕ → Bool) (lineno : ℕ) (lines : List (List ℕ)) (catalog : List Entry)
      (r : Option (Option (List ℕ) × List Entry))
      → OnSome (State catalog) r
      → Continues works (lineno + 1) lines catalog
      → OnSome
          (State catalog)
          (elim r [ none ↦ none | some s' ↦ read_lines works (lineno + 1) lines s' ])
  unfolding Continues
  after_setting works lineno lines catalog none h ih = tt
  after_setting works lineno lines catalog (some s') h ih = ih s' h

  after_line :
      (works : ℕ → Bool) (lineno : ℕ) (lines : List (List ℕ)) (catalog : List Entry)
      (s : Option (List ℕ) × List Entry) (line : Line)
      → ((key val : List ℕ)
          → line ≡ setting key val
          → bytes_eq chroot_key key ≡ true
          → IsRoot (trim (λ c. c == b'/') val))
      → State catalog s
      → Continues works (lineno + 1) lines catalog
      → OnSome (State catalog) (elim line [
        | blank ↦ read_lines works (lineno + 1) lines s
        | malformed ↦ none
        | setting key val ↦ elim (take_setting (works lineno) key val s) [
          | none ↦ none
          | some s' ↦ read_lines works (lineno + 1) lines s'
        ]
      ])
  unfolding Continues
  after_line works lineno lines catalog s blank d h ih = ih s h
  after_line works lineno lines catalog s malformed d h ih = tt
  after_line works lineno lines catalog s (setting key val) d h ih =
      after_setting works lineno lines catalog (take_setting (works lineno) key val s)
        (take_setting-Sound (works lineno) key val catalog s (d key val refl) h) ih

  read_lines-Sound :
      (works : ℕ → Bool) (lineno : ℕ) (lines : List (List ℕ)) (catalog : List Entry)
      (s : Option (List ℕ) × List Entry)
      → ((root : List ℕ) → Directs lines root → IsRoot root)
      → State catalog s
      → OnSome (State catalog) (read_lines works lineno lines s)
  unfolding read_lines Continues Directs IsDirective
  read_lines-Sound works lineno [] catalog s d h = h
  read_lines-Sound works lineno (buf ∷ lines) catalog s d h =
      after_line works lineno lines catalog s (parse_line buf)
        (λ key val line is. d (trim (λ c. c == b'/') val) (inl (key, val, line, is, refl))) h
        (λ s' h'.
          read_lines-Sound works (lineno + 1) lines catalog s' (λ root m. d root (inr m)) h')

  clear-Sound : (catalog : List Entry) → SoundFor IsRoot catalog (clear_values catalog)
  unfolding SoundFor Sound
  clear-Sound [] = (tt, refl)
  clear-Sound (e ∷ catalog) =
      let h = clear-Sound catalog in ((tt, h.0), ap (λ rest. name_of e ∷ rest) h.1)

  -- An entry with a value that fits.
  pub Configured : Entry → Type 0
  Configured e = (v : List ℕ) × (e.val ≡ some v) × Fits IsRoot e.default v

  default-Configured :
      (key default : List ℕ) (val : Option (List ℕ))
      → Sound IsRoot (record { key = key; default = default; val = val })
      → Configured (fill_default (record { key = key; default = default; val = val }))
        × (name_of (fill_default (record { key = key; default = default; val = val }))
            ≡ (key, default))
  unfolding Configured Sound Fits
  default-Configured key default none s =
      ((default, refl, inl (bytes_eq_self (descriptors false default))), refl)
  default-Configured key default (some v) s = ((v, refl, s), refl)

  fill-Configured :
      (entries : List Entry)
      → All (Sound IsRoot) entries
      → All Configured (fill_defaults entries)
        × (map name_of (fill_defaults entries) ≡ map name_of entries)
  fill-Configured [] h = (tt, refl)
  fill-Configured (e ∷ entries) h =
      let rest = fill-Configured entries h.1 in
      let (here, name) = default-Configured e.key e.default e.val h.0 in
      ((here, rest.0), ap₂ (λ n ns. n ∷ ns) name rest.1)

  Sound-All :
      (catalog entries : List Entry) → SoundFor IsRoot catalog entries → All (Sound IsRoot) entries
  unfolding SoundFor
  Sound-All catalog entries h = h.0

  under_catalog :
      (catalog entries : List Entry) (r : Option (List Entry))
      → SoundFor IsRoot catalog entries
      → OnSome (SoundFor IsRoot entries) r
      → OnSome (SoundFor IsRoot catalog) r
  unfolding SoundFor
  under_catalog catalog entries none h k = tt
  under_catalog catalog entries (some entries') h k = (k.0, k.1 ∙ h.1)

  ends :
      (catalog : List Entry) (r : Option (List Entry))
      → OnSome (SoundFor IsRoot catalog) r
      → (entries : List Entry) × (elim r [
        | none ↦ some (fill_defaults (clear_values catalog))
        | some entries' ↦ some (fill_defaults entries')
      ]
          ≡ some entries)
        × All Configured entries
        × (map name_of entries ≡ map name_of catalog)
  unfolding SoundFor
  ends catalog none h =
      let cleared = clear-Sound catalog in
      let (all, names) = fill-Configured (clear_values catalog) cleared.0 in
      (fill_defaults (clear_values catalog), refl, all, names ∙ cleared.1)
  ends catalog (some entries') h =
      let (all, names) = fill-Configured entries' h.0 in
      (fill_defaults entries', refl, all, names ∙ h.1)

  to_end :
      (prints : ℕ → Bool) (catalog : List Entry) (r : Option (Option (List ℕ) × List Entry))
      → OnSome (State catalog) r
      → OnSome (SoundFor IsRoot catalog) (elim r [
        | none ↦ none
        | some (none, entries) ↦ some entries
        | some (some root, entries) ↦ fill_root prints 0 root entries
      ])
  unfolding State
  to_end prints catalog none h = tt
  to_end prints catalog (some (none, entries)) h = h.0
  to_end prints catalog (some (some root, entries)) h =
      under_catalog catalog entries (fill_root prints 0 root entries) h.0
        (fill_root-Sound IsRoot prints 0 root entries h.1 (Sound-All catalog entries h.0))

  read_config-Sound :
      (works prints : ℕ → Bool) (lines : List (List ℕ)) (catalog : List Entry)
      → ((root : List ℕ) → Directs lines root → IsRoot root)
      → OnSome (SoundFor IsRoot catalog) (read_config works prints lines (clear_values catalog))
  unfolding read_config State
  read_config-Sound works prints lines catalog d =
      to_end prints catalog (read_lines works 1 lines (none, clear_values catalog)) (
        read_lines-Sound works 1 lines catalog (none, clear_values catalog) d
          (clear-Sound catalog, tt))

-- The lines of the file, of which there are none if it cannot be opened.
abbrev pub lines_of : Option (List (List ℕ)) → List (List ℕ)
lines_of none = []
lines_of (some lines) = lines

-- Whatever the file holds, whether or not it can be opened, and whichever allocations fail: once the
-- catalog of a plugin has been backed up, configure_sysfiles leaves a catalog of the same keys in
-- which every entry has a path. The path has the format descriptors of the default one, unless it is
-- the default path under a directory that holds a '%' and that a 'chroot' directive of the file
-- names, up to slashes at its ends.
pub configure_sysfiles-Configured :
    (works prints : ℕ → Bool) (file : Option (List (List ℕ))) (catalog : List Entry)
    → (entries : List Entry) × (configure_sysfiles works prints true file (some catalog)
        ≡ some entries)
      × All (Configured (Directs (lines_of file))) entries
      × (map name_of entries ≡ map name_of catalog)
unfolding configure_sysfiles SoundFor
configure_sysfiles-Configured works prints none catalog =
    let cleared = clear-Sound (Directs []) catalog in
    let (all, names) = fill-Configured (Directs []) (clear_values catalog) cleared.0 in
    (fill_defaults (clear_values catalog), refl, all, names ∙ cleared.1)
configure_sysfiles-Configured works prints (some lines) catalog =
    ends (Directs lines) catalog (read_config works prints lines (clear_values catalog))
      (read_config-Sound (Directs lines) works prints lines catalog (λ root m. m))
