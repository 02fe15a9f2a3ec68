-- ===== src/Object/Lengths.antt =====
-- lib/object.c: the lengths that the metadata give and the texts that they are of.
use cray_pwrapi.Base.{
  ℕ, ◌+◌, ◌<◌, ◌≡◌, refl, ap, ◌∙◌, List, true, false, some, length, inl, inr, ◌⊎◌, arith,
}
use cray_pwrapi.Types.{
  AttrName, attr_throttled_time, attr_not_specified, MetaName, md_max_len, md_name_len, md_name,
  md_desc_len, md_desc, ret_success,
}
use cray_pwrapi.Glib.HashTable.{HashTable}
use cray_pwrapi.Opaque.Map.{OpaqueMap}
use cray_pwrapi.Object.Tree.{Obj, object, type_of}
use cray_pwrapi.Object.Names.{obj_name, obj_desc, attr_name, attr_desc}
use cray_pwrapi.Object.Bits.{validate_attr}
use cray_pwrapi.Object.Meta.{
  number, text, print_string, MetaReading, MetaTables, answers, obj_get_meta, obj_attr_get_meta,
}
use cray_pwrapi.Object.MetaApi.{
  is_not_specified, find_object, get_meta_of, checked_get_meta, pwr_obj_attr_get_meta,
}
use cray_pwrapi.Object.Formats.{
  has_conversion, print_string-Printed, in_range_lem, valid_code, throttled_time_length,
}

-- The metadata that are lengths and texts.
data Plain : MetaName → Type 0 where
  plain_name_len : Plain md_name_len
  plain_name : Plain md_name
  plain_desc_len : Plain md_desc_len
  plain_desc : Plain md_desc

module _ {S : Type 0} (t : MetaTables S) where
  -- A text and a number of bytes that holds it with its NUL.
  abbrev pub Fits : (MetaName → S → MetaReading S) → MetaName → MetaName → S → Type 0
  Fits get len what s =
      (txt : List ℕ) × ((get what s ≡ answers t (text txt) s)
        × (get len s ≡ answers t (number (length txt + 1)) s))

  object-Fits :
      (obj : Obj) (s : S)
      → Fits (obj_get_meta t obj) md_name_len md_name s
        × Fits (obj_get_meta t obj) md_desc_len md_desc s
  unfolding obj_get_meta
  object-Fits (object type self os_id cs) s =
      ((obj_name type, (refl, refl)), (obj_desc type, (refl, refl)))

  attr-Fits :
      (obj : Obj) (attr : AttrName) (s : S)
      → has_conversion (attr_desc attr) ≡ true
      → Fits (obj_attr_get_meta t obj attr) md_name_len md_name s
        × Fits (obj_attr_get_meta t obj attr) md_desc_len md_desc s
  unfolding obj_attr_get_meta
  attr-Fits (object type self os_id cs) attr s p =
      let w = print_string-Printed (attr_desc attr) (obj_name type) p in
      (
        (attr_name attr, (refl, refl)),
        (
          print_string (attr_desc attr) (obj_name type),
          (refl, ap (λ n. answers t (number n) s) (omega (arith, w.0, w.1))),
        ),
      )

  checked-object :
      (o : Obj) (s : S) {meta : MetaName}
      → Plain meta
      → checked_get_meta t o attr_not_specified meta s ≡ obj_get_meta t o meta s
  unfolding checked_get_meta get_meta_of
  checked-object o s plain_name_len = refl
  checked-object o s plain_name = refl
  checked-object o s plain_desc_len = refl
  checked-object o s plain_desc = refl

  checked-attr :
      (o : Obj) (attr : AttrName) (s : S) {meta : MetaName}
      → Plain meta
      → is_not_specified attr ≡ false
      → validate_attr (type_of o) attr ≡ ret_success
      → checked_get_meta t o attr meta s ≡ obj_attr_get_meta t o attr meta s
  unfolding checked_get_meta get_meta_of
  checked-attr o attr s plain_name_len p v = rw (p, v) refl
  checked-attr o attr s plain_name p v = rw (p, v) refl
  checked-attr o attr s plain_desc_len p v = rw (p, v) refl
  checked-attr o attr s plain_desc p v = rw (p, v) refl

  Fits-through :
      (get base : MetaName → S → MetaReading S) (s : S)
      → ((meta : MetaName) → Plain meta → get meta s ≡ base meta s)
      → Fits base md_name_len md_name s × Fits base md_desc_len md_desc s
      → Fits get md_name_len md_name s × Fits get md_desc_len md_desc s
  Fits-through get base s same ((name, (a, b)), (desc, (c, d))) = (
    (name, (same md_name plain_name ∙ a, same md_name_len plain_name_len ∙ b)),
    (desc, (same md_desc plain_desc ∙ c, same md_desc_len plain_desc_len ∙ d)),
  )

  checked-Fits :
      (o : Obj) (attr : AttrName) (s : S)
      → (attr ≡ attr_not_specified) ⊎ (validate_attr (type_of o) attr ≡ ret_success)
      → Fits (checked_get_meta t o attr) md_name_len md_name s
        × Fits (checked_get_meta t o attr) md_desc_len md_desc s
  checked-Fits o attr s (inl e) =
      Fits-through (checked_get_meta t o attr) (obj_get_meta t o) s
        (λ meta p. ap (λ (a : AttrName). checked_get_meta t o a meta s) e ∙ checked-object o s p)
        (object-Fits o s)
  checked-Fits o attr s (inr v) =
      let (c, e) = valid_code (type_of o) attr v in
      let (out, has) = in_range_lem attr c e in
      Fits-through (checked_get_meta t o attr) (obj_attr_get_meta t o attr) s
        (λ meta p. checked-attr o attr s p out v) (attr-Fits o attr s has)

  -- The largest length is the same for an object and for each of its attributes.
  checked-max_len :
      (o : Obj) (attr : AttrName) (s : S)
      → (attr ≡ attr_not_specified) ⊎ (validate_attr (type_of o) attr ≡ ret_success)
      → checked_get_meta t o attr md_max_len s ≡ answers t (number 64) s
  unfolding checked_get_meta get_meta_of
  checked-max_len o attr s (inl e) = ap (λ (a : AttrName). checked_get_meta t o a md_max_len s) e
  checked-max_len o attr s (inr v) =
      let (c, e) = valid_code (type_of o) attr v in
      let (out, has) = in_range_lem attr c e in rw (out, v) refl

  module _ (h : HashTable ℕ ℕ) where
    found_lem :
        (map : OpaqueMap h) (objects : ℕ → Obj) (obj ipc : ℕ) (o : Obj) (attr : AttrName)
        (meta : MetaName) (s : S)
        → find_object h map objects (λ c. 0) obj ≡ some (ipc, o)
        → pwr_obj_attr_get_meta h t map objects obj attr meta s ≡ checked_get_meta t o attr meta s
    unfolding pwr_obj_attr_get_meta
    found_lem map objects obj ipc o attr meta s e = rw (e, pwr_obj_attr_get_meta) refl

    -- For an object that is found, with an attribute that it supports or none, the length that the
    -- metadata give for the name, and for the description, is that of the text that they then store,
    -- with one byte for its end.
    pub get_meta-Fits :
        (map : OpaqueMap h) (objects : ℕ → Obj) (obj ipc : ℕ) (o : Obj) (attr : AttrName) (s : S)
        → find_object h map objects (λ c. 0) obj ≡ some (ipc, o)
        → (attr ≡ attr_not_specified) ⊎ (validate_attr (type_of o) attr ≡ ret_success)
        → Fits (pwr_obj_attr_get_meta h t map objects obj attr) md_name_len md_name s
          × Fits (pwr_obj_attr_get_meta h t map objects obj attr) md_desc_len md_desc s
    get_meta-Fits map objects obj ipc o attr s e v =
        Fits-through (pwr_obj_attr_get_meta h t map objects obj attr) (checked_get_meta t o attr) s
          (λ meta p. found_lem map objects obj ipc o attr meta s e) (checked-Fits o attr s v)

    -- For an object that supports the throttled time, the largest length of a text that the metadata
    -- give is 64, both for the object and for every attribute that it supports, and the description of
    -- the throttled time is longer.
    pub max_len_exceeded :
        (map : OpaqueMap h) (objects : ℕ → Obj) (obj ipc : ℕ) (o : Obj) (attr : AttrName) (s : S)
        → find_object h map objects (λ c. 0) obj ≡ some (ipc, o)
        → (attr ≡ attr_not_specified) ⊎ (validate_attr (type_of o) attr ≡ ret_success)
        → validate_attr (type_of o) attr_throttled_time ≡ ret_success
        → (pwr_obj_attr_get_meta h t map objects obj attr md_max_len s ≡ answers t (number 64) s)
          × ((txt : List ℕ) × ((pwr_obj_attr_get_meta h t map objects obj attr_throttled_time
                    md_desc s
                  ≡ answers t (text txt) s)
                × (64 < length txt)))
    unfolding obj_attr_get_meta
    max_len_exceeded map objects obj ipc (object type self os_id cs) attr s e a v =
        let o = object type self os_id cs in
        let (out, has) = in_range_lem attr_throttled_time 16 refl in
        let w = print_string-Printed (attr_desc attr_throttled_time) (obj_name type) has in
        (
          found_lem map objects obj ipc o attr md_max_len s e ∙ checked-max_len o attr s a,
          (
            print_string (attr_desc attr_throttled_time) (obj_name type),
            (
              found_lem map objects obj ipc o attr_throttled_time md_desc s e
                  ∙ checked-attr o attr_throttled_time s plain_desc refl v,
              omega (arith, w.0, throttled_time_length),
            ),
          ),
        )
