-- ===== src/Glib/HashTable.antt =====
-- GHashTable, as the daemon and the opaque map use it: a finite map. `lookup` is `none` where
-- g_hash_table_lookup returns NULL because the key is missing.
use cray_pwrapi.Base.{◌≡◌, ◌≢◌, List, [], Option, none, some}

pub record HashTable (K V : Type 0) : Type 1 where
  pub Table : Type 0
  pub empty : Table
  pub lookup : Table → K → Option V
  pub insert : Table → K → V → Table
  pub remove : Table → K → Table
  -- What g_hash_table_foreach_remove walks, in the order of the table.
  pub entries : Table → List (K × V)
  pub lookup-empty : (k : K) → lookup empty k ≡ none
  pub lookup-insert_self : (t : Table) (k : K) (v : V) → lookup (insert t k v) k ≡ some v
  pub lookup-insert_ne :
      (t : Table) (k j : K) (v : V) → j ≢ k → lookup (insert t k v) j ≡ lookup t j
  pub lookup-remove_self : (t : Table) (k : K) → lookup (remove t k) k ≡ none
  pub lookup-remove_ne : (t : Table) (k j : K) → j ≢ k → lookup (remove t k) j ≡ lookup t j
  pub entries-empty : entries empty ≡ []
