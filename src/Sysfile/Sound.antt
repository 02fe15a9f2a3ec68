-- ===== src/Sysfile/Sound.antt =====
-- lib/utility.c, configure_sysfiles: the invariant of a catalog whose holes are not filled.
use cray_pwrapi.Base.{
  ℕ, ◌+◌, ◌≡◌, refl, ap, sym, ◌∙◌, List, [], ◌∷◌, ◌++◌, map, Bool, true, false, Option, none, some,
  is_some, bytes_eq, contains, ◌==◌, if◌then◌else◌, All, ◌⊎◌, inl, inr, Bool-cases, arith,
}
use cray_pwrapi.Sysfile.Format.{fmtmatch, match_loop}
use cray_pwrapi.Sysfile.Directives.{descriptors, fmtmatch-descriptors}
use cray_pwrapi.Sysfile.Config.{Entry, assign, fill_root}

pub bytes_eq_self : (a : List ℕ) → bytes_eq a a ≡ true
bytes_eq_self [] = refl
bytes_eq_self (c ∷ cs) = ground (arith, bytes_eq_self cs)

under_root :
    (root default : List ℕ)
    → contains root b'%' ≡ false
    → descriptors false (root ++ default) ≡ descriptors false default
under_root [] default h = refl
under_root (c ∷ root) default h =
    let plain : (c == b'%') ≡ false = ground (arith, h) in
    rw plain (under_root root default (ground (arith, h)))

abbrev pub name_of : Entry → List ℕ × List ℕ
name_of e = (e.key, e.default)

-- What holds of a result, if there is one.
abbrev pub OnSome {ℓ} : {A : Type ℓ} → (A → Type 0) → Option A → Type 0
OnSome P none = Unit
OnSome P (some a) = P a

-- The paths that count as a new root.
module _ (IsRoot : List ℕ → Type 0) where
  -- A path has the format descriptors of the default, or it is the default under a root with a '%'.
  unfoldable pub Fits : List ℕ → List ℕ → Type 0
  Fits default v =
      (bytes_eq (descriptors false default) (descriptors false v) ≡ true)
      ⊎ ((root : List ℕ) × IsRoot root × (v ≡ root ++ default) × (contains root b'%' ≡ true))

  fmtmatch-Fits : (default v : List ℕ) → fmtmatch default v ≡ some true → Fits default v
  unfolding Fits fmtmatch match_loop
  fmtmatch-Fits [] [] h = inl refl
  fmtmatch-Fits [] (s ∷ str) h = absurd (cc)
  fmtmatch-Fits (r ∷ ref) [] h = absurd (cc)
  fmtmatch-Fits (r ∷ ref) (s ∷ str) h =
      inl (some_injective (sym (fmtmatch-descriptors r s ref str) ∙ h))
    where
      some_injective : {a b : Bool} → some a ≡ some b → a ≡ b
      some_injective e = cc

  root-Fits : (root default : List ℕ) → IsRoot root → Fits default (root ++ default)
  unfolding Fits
  root-Fits root default r = elim (Bool-cases (contains root b'%')) [
    | inl y ↦ inr (root, r, refl, y)
    | inr n ↦ inl (rw (under_root root default n) (bytes_eq_self (descriptors false default)))
  ]

  -- What is known of a value before the holes are filled.
  unfoldable pub Sound : Entry → Type 0
  Sound e = elim e.val [ none ↦ Unit {0} | some v ↦ Fits e.default v ]

  -- The entries are those of the catalog, and their values are sound.
  unfoldable pub SoundFor : List Entry → List Entry → Type 0
  SoundFor catalog entries = All Sound entries × (map name_of entries ≡ map name_of catalog)

  -- The entry with the key, where it has a value or not, and the value fits or not.
  assign_here :
      (works taken : Bool) (val : List ℕ) (e : Entry) (entries : List Entry) (fits : Option Bool)
      → fmtmatch e.default val ≡ fits
      → All Sound entries
      → OnSome (SoundFor (e ∷ entries)) (
          if taken then none else elim fits [
            | none ↦ none
            | some false ↦ none
            | some true ↦ if works then some (record e { val = some val } ∷ entries) else none
          ])
  unfolding SoundFor Sound
  assign_here works true val e entries fits q h = tt
  assign_here works false val e entries none q h = tt
  assign_here works false val e entries (some false) q h = tt
  assign_here false false val e entries (some true) q h = tt
  assign_here true false val e entries (some true) q h = ((fmtmatch-Fits e.default val q, h), refl)

  assign_later :
      (e : Entry) (entries : List Entry) (rest : Option (List Entry))
      → Sound e
      → OnSome (SoundFor entries) rest
      → OnSome
          (SoundFor (e ∷ entries))
          (elim rest [ none ↦ none | some entries' ↦ some (e ∷ entries') ])
  unfolding SoundFor
  assign_later e entries none s h = tt
  assign_later e entries (some entries') s h = ((s, h.0), ap (λ rest. name_of e ∷ rest) h.1)

  pub assign-Sound :
      (works : Bool) (key val : List ℕ) (entries : List Entry)
      → All Sound entries
      → OnSome (SoundFor entries) (assign works key val entries)
  unfolding assign
  assign-Sound works key val [] h = tt
  assign-Sound works key val (e ∷ entries) h = elim (Bool-cases (bytes_eq e.key key)) [
    | inl y ↦
        rw y (assign_here works (is_some e.val) val e entries (fmtmatch e.default val) refl h.1)
    | inr n ↦ rw n (
        assign_later e entries (assign works key val entries) h.0
          (assign-Sound works key val entries h.1))
  ]

  fill_one :
      (works : Bool) (root : List ℕ) (e : Entry) (entries : List Entry) (val : Option (List ℕ))
      (rest : Option (List Entry))
      → IsRoot root
      → Sound e
      → OnSome (SoundFor entries) rest
      → OnSome (SoundFor (e ∷ entries)) (elim val [
        | some v ↦ elim rest [ none ↦ none | some entries' ↦ some (e ∷ entries') ]
        | none ↦
            if works
            then elim rest [
              | none ↦ none
              | some entries' ↦ some (record e { val = some (root ++ e.default) } ∷ entries')
            ]
            else none
      ])
  unfolding SoundFor Sound
  fill_one works root e entries (some v) none r s h = tt
  fill_one works root e entries (some v) (some entries') r s h =
      ((s, h.0), ap (λ rest. name_of e ∷ rest) h.1)
  fill_one false root e entries none rest r s h = tt
  fill_one true root e entries none none r s h = tt
  fill_one true root e entries none (some entries') r s h =
      ((root-Fits root e.default r, h.0), ap (λ rest. name_of e ∷ rest) h.1)

  pub fill_root-Sound :
      (works : ℕ → Bool) (i : ℕ) (root : List ℕ) (entries : List Entry)
      → IsRoot root
      → All Sound entries
      → OnSome (SoundFor entries) (fill_root works i root entries)
  unfolding fill_root SoundFor
  fill_root-Sound works i root [] r h = (tt, refl)
  fill_root-Sound works i root (e ∷ entries) r h =
      fill_one (works i) root e entries e.val (fill_root works (i + 1) root entries) r h.0
        (fill_root-Sound works (i + 1) root entries r h.1)
