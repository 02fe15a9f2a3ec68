-- ===== src/Daemon/Written.antt =====
-- daemon/pwrapi_worker.c: what a successful write of a control file leaves to read.
use cray_pwrapi.Base.{
  ℕ, ◌^◌, ◌<◌, Bool-cases, ◌≡◌, refl, ◌≢◌, Bool, true, false, some, ◌∙◌, sym, ap, inl, inr,
  Option-cases,
}
use cray_pwrapi.Types.{AttrName, attr_cstate_limit, attr_gov, data_uint64}
use cray_pwrapi.Daemon.Request.{FilePath, SetInfo}
use cray_pwrapi.Daemon.Files.{Files}
use cray_pwrapi.Daemon.FileIo.{
  file_read_uint64, file_write_uint64, flushed, write_by, write_attr_value, read_by,
  read_attr_value, read_value_by_type,
}

-- The attributes whose value is one integer or double in one file.
abbrev pub is_plain : AttrName → Bool
is_plain attr_cstate_limit = false
is_plain attr_gov = false
is_plain _ = true

module _ (f : Files) where
  open f use {FS, fopen_read, fscanf_ld, readdir, fopen_write, fprintf_ld, fflush}

  -- What a successful write of an integer leaves: the integer in its file, and everything else as
  -- it was.
  pub record Wrote (fs : FS) (p : FilePath) (v : ℕ) (fs' : FS) : Type 0 where
    pub reads : file_read_uint64 f fs' p ≡ some v
    pub dirs : (q : FilePath) → readdir fs' q ≡ readdir fs q
    pub others : (q : FilePath) → q ≢ p → file_read_uint64 f fs' q ≡ file_read_uint64 f fs q

  flushed_inv :
      (p : FilePath) (r : FS × Bool) (fs' : FS)
      → flushed f p r ≡ (fs', true)
      → (fs2 : FS) × (r ≡ (fs2, true)) × (fflush fs2 p ≡ (fs', true))
  unfolding flushed
  flushed_inv p (fs2, true) fs' h = (fs2, refl, h)
  flushed_inv p (fs2, false) fs' h = cc

  pub file_write_uint64-Wrote :
      (fs : FS) (p : FilePath) (v : ℕ) (fs' : FS)
      → v < 2 ^ 64
      → file_write_uint64 f fs p v ≡ (fs', true)
      → Wrote fs p v fs'
  unfolding file_write_uint64 file_read_uint64
  file_write_uint64-Wrote fs p v fs' lt h = elim (Option-cases (fopen_write fs p)) [
    | inl e ↦ cc (rw (e, file_write_uint64) at h)
    | inr (fs1, e) ↦
        let (fs2, printed, flush) =
          flushed_inv p (fprintf_ld fs1 p v) fs' (rw (e, file_write_uint64) at h) in
        let (opens, reads, dirs, opens', reads') =
          f.written fs fs1 fs2 fs' p v lt e printed flush in
        record {
          reads = rw opens reads;
          dirs = dirs;
          others = λ q ne. rw (opens' q ne, reads' q ne) refl;
        }
  ]

  write_by_plain :
      (a : AttrName) (fs : FS) (p : FilePath) (v : ℕ)
      → is_plain a ≡ true
      → write_by f a fs p data_uint64 v ≡ file_write_uint64 f fs p v
  unfolding write_by
  write_by_plain attr_cstate_limit fs p v h = cc
  write_by_plain attr_gov fs p v h = cc
  write_by_plain _ fs p v h = refl

  -- The same for a request with an integer in one file.
  pub write_attr_value-Wrote :
      (fs : FS) (s : SetInfo) (fs' : FS)
      → is_plain s.attribute ≡ true
      → s.data_type ≡ data_uint64
      → s.value < 2 ^ 64
      → write_attr_value f fs s ≡ (fs', true)
      → Wrote fs s.path s.value fs'
  unfolding write_attr_value
  write_attr_value-Wrote fs s fs' plain t lt h = file_write_uint64-Wrote fs s.path s.value fs' lt (
      sym (write_by_plain s.attribute fs s.path s.value plain)
      ∙ ap (λ ty. write_by f s.attribute fs s.path ty s.value) (sym t)
      ∙ h)

  read_by_plain :
      (a : AttrName) (fs : FS) (p : FilePath)
      → is_plain a ≡ true
      → read_by f a fs p data_uint64 ≡ file_read_uint64 f fs p
  unfolding read_by read_value_by_type
  read_by_plain attr_cstate_limit fs p h = cc
  read_by_plain attr_gov fs p h = cc
  read_by_plain _ fs p h = refl

  pub read_attr_value_plain :
      (fs : FS) (s : SetInfo)
      → is_plain s.attribute ≡ true
      → s.data_type ≡ data_uint64
      → read_attr_value f fs s ≡ file_read_uint64 f fs s.path
  unfolding read_attr_value
  read_attr_value_plain fs s plain t =
      ap (read_by f s.attribute fs s.path) t ∙ read_by_plain s.attribute fs s.path plain

  -- What is read is an integer of 64 bits.
  pub file_read_uint64_lt :
      (fs : FS) (p : FilePath) (v : ℕ) → file_read_uint64 f fs p ≡ some v → v < 2 ^ 64
  unfolding file_read_uint64
  file_read_uint64_lt fs p v h = elim (Bool-cases (fopen_read fs p)) [
    | inl e ↦ f.fscanf_ld_lt fs p v (rw (e, file_read_uint64) at h)
    | inr e ↦ cc (rw (e, file_read_uint64) at h)
  ]
