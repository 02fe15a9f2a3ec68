-- ===== src/Opaque/Insert.antt =====
-- lib/opaque.c: a structure that is put into the map is found under the key that is returned, and
-- not any more once the key is removed.
use cray_pwrapi.Base.{
  ℕ, ◌≡◌, ◌≢◌, refl, sym, ap, ◌∙◌, List, [], ◌∷◌, true, false, none, some, ◌==◌, arith, Bool-cases,
  Option-cases, update_self, ◌⊎◌, inl, inr, ℕ_discrete,
}
use cray_pwrapi.Glib.HashTable.{HashTable}
use cray_pwrapi.Opaque.Map.{
  OpaqueType, opaque_invalid, OpaqueRef, OpaqueMap, opaque_map_clean_entry, opaque_map_lookup,
  opaque_map_lookup_type, enter, insert_loop, opaque_map_insert, opaque_map_remove,
}

module _ (h : HashTable ℕ ℕ) where
  -- Some number that is left is not 0 and no key.
  abbrev pub HasFree : h.Table → List ℕ → Type 0
  HasFree table [] = ⊥
  HasFree table (key ∷ rand) = ((key ≢ 0) × (h.lookup table key ≡ none)) ⊎ HasFree table rand

  -- What an insertion leaves: the key is new and not NULL, the structure is found under it, and
  -- every key but 0 stands for what it stood for.
  pub record Inserted (map : OpaqueMap h) (type : OpaqueType) (opaque : ℕ) (key : ℕ)
      (map' : OpaqueMap h) : Type 0 where
    pub not_null : key ≢ 0
    pub new : h.lookup map.table key ≡ none
    pub found : opaque_map_lookup_type h (some map') key type ≡ some opaque
    pub keeps_key : (map'.refs opaque).key ≡ key
    pub others :
        (k : ℕ)
        → k ≢ 0
        → k ≢ key
        → opaque_map_lookup h (some map') k ≡ opaque_map_lookup h (some map) k

  lookup_entered :
      (map : OpaqueMap h) (type : OpaqueType) (opaque key : ℕ) (rand : List ℕ)
      → opaque_map_lookup_type h
          (some (record (enter h map type opaque key) { rand = rand }))
          key
          type
        ≡ some opaque
  unfolding opaque_map_lookup_type opaque_map_lookup enter
  lookup_entered map type opaque key rand =
      rw (h.lookup-insert_self map.table key opaque, opaque_map_lookup_type)
        (rw (update_self map.refs opaque (record { type_of = type; key = key })) (ground arith))

  lookup_kept :
      (map : OpaqueMap h) (type : OpaqueType) (opaque key k : ℕ)
      → k ≢ key
      → opaque_map_lookup h (some (enter h map type opaque key)) k
        ≡ opaque_map_lookup h (some map) k
  unfolding opaque_map_lookup enter
  lookup_kept map type opaque key k ne = h.lookup-insert_ne map.table key k opaque ne

  free_kept :
      (map : OpaqueMap h) (type : OpaqueType) (opaque zero_key : ℕ) (rand : List ℕ)
      → HasFree map.table rand
      → zero_key ≡ 0
      → HasFree (enter h map type opaque zero_key).table rand
  unfolding enter
  free_kept map type opaque z [] f e = absurd f
  free_kept map type opaque z (key ∷ rand) (inl (ne, new)) e =
      inl (ne, h.lookup-insert_ne map.table z key opaque (λ q. ne (q ∙ e)) ∙ new)
  free_kept map type opaque z (key ∷ rand) (inr f) e = inr (free_kept map type opaque z rand f e)

  -- An entry under 0 does not count.
  after_zero :
      (map : OpaqueMap h) (type : OpaqueType) (opaque zero_key key : ℕ) (map' : OpaqueMap h)
      → zero_key ≡ 0
      → Inserted (enter h map type opaque zero_key) type opaque key map'
      → Inserted map type opaque key map'
  unfolding enter
  after_zero map type opaque z key map' e done = record {
    not_null = done.not_null;
    new = sym (h.lookup-insert_ne map.table z key opaque (λ q. done.not_null (q ∙ e))) ∙ done.new;
    found = done.found;
    keeps_key = done.keeps_key;
    others = λ k k0 ne. done.others k k0 ne ∙ lookup_kept map type opaque z k (λ q. k0 (q ∙ e));
  }

  pub loop_inserts :
      (rand : List ℕ) (map : OpaqueMap h) (type : OpaqueType) (opaque : ℕ)
      → HasFree map.table rand
      → (key : ℕ) × (map' : OpaqueMap h) × (insert_loop h rand map type opaque ≡ some (key, map'))
        × Inserted map type opaque key map'
  unfolding insert_loop opaque_map_lookup enter
  loop_inserts [] map type opaque f = absurd f
  loop_inserts (key ∷ rand) map type opaque f = elim (Option-cases (h.lookup map.table key)) [
    | inr (other, e) ↦
        let (key', map', eq, done) =
          loop_inserts rand map type opaque (elim f [ inl (ne, new) ↦ cc | inr g ↦ g ]) in
        (key', map', rw (e, insert_loop) eq, done)
    | inl e ↦ elim (Bool-cases (key == 0)) [
      | inr n ↦ (
        key,
        record (enter h map type opaque key) { rand = rand },
        rw (e, insert_loop) (rw n refl),
        record {
          not_null = ground arith;
          new = e;
          found = lookup_entered map type opaque key rand;
          keeps_key =
              ap (λ (r : OpaqueRef). r.key)
                (update_self map.refs opaque (record { type_of = type; key = key }));
          others = λ k k0 ne. lookup_kept map type opaque key k ne;
        },
      )
      | inl y ↦
          let (key', map', eq, done) = loop_inserts rand (enter h map type opaque key) type opaque (
            free_kept map type opaque key rand
              (elim f [ inl (ne, new) ↦ absurd (ground arith) | inr g ↦ g ]) (ground arith)) in
          (
            key',
            map',
            rw (e, insert_loop) (rw y eq),
            after_zero map type opaque key key' map' (ground arith) done,
          )
    ]
  ]

  -- Where the random numbers that are left hold one that is neither 0 nor a key of the map,
  -- opaque_map_insert returns: the key is not NULL and was no key before, the structure is found
  -- under it with the given type and carries it, and any key that is not NULL is the new one or
  -- stands for what it stood for.
  pub insert_found :
      (map : OpaqueMap h) (type : OpaqueType) (opaque k : ℕ)
      → HasFree map.table map.rand
      → k ≢ 0
      → (key : ℕ) × (map' : OpaqueMap h) × (opaque_map_insert h (some map) type opaque
          ≡ some (key, some map'))
        × (key ≢ 0)
        × (h.lookup map.table key ≡ none)
        × (opaque_map_lookup_type h (some map') key type ≡ some opaque)
        × ((map'.refs opaque).key ≡ key)
        × ((k ≡ key) ⊎ (opaque_map_lookup h (some map') k ≡ opaque_map_lookup h (some map) k))
  unfolding opaque_map_insert
  insert_found map type opaque k f k0 =
      let (key, map', eq, done) = loop_inserts map.rand map type opaque f in
      (
        key,
        map',
        rw (eq, opaque_map_insert) refl,
        done.not_null,
        done.new,
        done.found,
        done.keeps_key,
        elim (ℕ_discrete k key) [ yes e ↦ inl e | no ne ↦ inr (done.others k k0 ne) ],
      )

  -- A key that stands for a structure is removed: the call returns true, the structure's reference
  -- becomes invalid with the key 0, the key stands for nothing, and any key is the removed one or
  -- stands for what it stood for. A key that stands for nothing gives false and changes nothing.
  pub remove_lookup :
      (map : OpaqueMap h) (key k : ℕ)
      → (map' : OpaqueMap h) × (((h.lookup map.table key ≡ none)
            × (opaque_map_remove h (some map) key ≡ (false, some map'))
            × (map' ≡ map))
          ⊎ ((opaque : ℕ) × (h.lookup map.table key ≡ some opaque)
              × (opaque_map_remove h (some map) key ≡ (true, some map'))
              × (map'.refs opaque ≡ record { type_of = opaque_invalid; key = 0 })
              × (opaque_map_lookup h (some map') key ≡ none)
              × ((k ≡ key)
                  ⊎ (opaque_map_lookup h (some map') k ≡ opaque_map_lookup h (some map) k))))
  unfolding opaque_map_remove opaque_map_lookup opaque_map_clean_entry
  remove_lookup map key k = elim (Option-cases (h.lookup map.table key)) [
    | inl e ↦ (map, inl (e, rw (e, opaque_map_remove) refl, refl))
    | inr (opaque, e) ↦ (
      record map {
        table = h.remove map.table key;
        refs = opaque_map_clean_entry h map.refs opaque;
      },
      inr (
        opaque,
        e,
        rw (e, opaque_map_remove) refl,
        update_self map.refs opaque (record { type_of = opaque_invalid; key = 0 }),
        h.lookup-remove_self map.table key,
        elim (ℕ_discrete k key) [
          | yes same ↦ inl same
          | no ne ↦ inr (h.lookup-remove_ne map.table key k ne)
        ],
      ),
    )
  ]
