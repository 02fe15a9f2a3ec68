-- ===== src/Opaque/Frame.antt =====
-- lib/opaque.c: what an insertion leaves alone, and the size of its key.
use cray_pwrapi.Base.{
  ℕ, ◌^◌, ◌<◌, ◌≡◌, ◌≢◌, ap, ◌∙◌, List, [], ◌∷◌, Option, some, ◌==◌, update_ne, arith, All,
  Bool-cases, Option-cases, inl, inr,
}
use cray_pwrapi.Glib.HashTable.{HashTable}
use cray_pwrapi.Opaque.Map.{OpaqueType, OpaqueMap, enter, insert_loop}

module _ (h : HashTable ℕ ℕ) where
  enter_refs :
      (map : OpaqueMap h) (type : OpaqueType) (opaque key a : ℕ)
      → a ≢ opaque
      → (enter h map type opaque key).refs a ≡ map.refs a
  unfolding enter
  enter_refs map type opaque key a ne =
      update_ne map.refs opaque a (record { type_of = type; key = key }) (ground arith)

  -- The references of other structures, and a key of 32 bits.
  pub loop_frame :
      (rand : List ℕ) (map : OpaqueMap h) (type : OpaqueType) (opaque key a : ℕ)
      (map' : OpaqueMap h)
      → All (λ k. k < 2 ^ 32) rand
      → a ≢ opaque
      → insert_loop h rand map type opaque ≡ some (key, map')
      → (map'.refs a ≡ map.refs a) × (key < 2 ^ 32)
  unfolding insert_loop
  loop_frame [] map type opaque key a map' small ne e = cc
  loop_frame (k ∷ rand) map type opaque key a map' small ne e =
      elim (Option-cases (h.lookup map.table k)) [
        | inr (other, taken) ↦
            loop_frame rand map type opaque key a map' small.1 ne (rw (taken, insert_loop) at e)
        | inl free ↦ elim (Bool-cases (k == 0)) [
          | inl y ↦
              let rest =
                loop_frame rand (enter h map type opaque k) type opaque key a map' small.1 ne
                  (rw y at (rw (free, insert_loop) at e)) in
              (rest.0 ∙ enter_refs map type opaque k a ne, rest.1)
          | inr n ↦
              last map type opaque k key a map' rand small.0 ne
                (rw n at (rw (free, insert_loop) at e))
        ]
      ]
    where
      last :
          (map : OpaqueMap h) (type : OpaqueType) (opaque k key a : ℕ) (map' : OpaqueMap h)
          (rand : List ℕ)
          → k < 2 ^ 32
          → a ≢ opaque
          → ◌≡◌ {A = Option (ℕ × OpaqueMap h)}
              (some (k, record (enter h map type opaque k) { rand = rand }))
              (some (key, map'))
          → (map'.refs a ≡ map.refs a) × (key < 2 ^ 32)
      last map type opaque k key a map' rand lt ne e =
          let maps : map' ≡ record (enter h map type opaque k) { rand = rand } = cc in
          let same : map'.refs a ≡ (enter h map type opaque k).refs a =
            ap (λ (m : OpaqueMap h). m.refs a) maps in
          let key_eq : key ≡ k = cc in (same ∙ enter_refs map type opaque k a ne, rw key_eq lt)
