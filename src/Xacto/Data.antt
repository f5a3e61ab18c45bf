-- ===== src/Xacto/Data.antt =====
-- `xacto/src/data.c`: blobs and keys. A blob is the value that a pointer to it leads to, and none where
-- it was freed; mutexes work and memory is there.
pub mod Keys
use cse.Base.{
  ℕ, zero, suc, ◌+◌, ◌-◌, ◌%◌, ◌^◌, Bool, true, false, Option, none, some, List, [], ◌∷◌, ◌++◌,
  ◌==◌, ltb, if◌then◌else◌, get_or, take, drop, length, replicate, max,
}

-- `BLOB`; the content has `size` bytes and a NUL.
pub record Blob : Type 0 where
  pub refcnt : ℕ
  pub size : ℕ
  pub content : Option (List ℕ)

pub record Key : Type 0 where
  pub hash : ℕ
  pub blob : Blob

-- `memcpy` of `size` bytes into the new content.
unfoldable pub blob_create : Option (List ℕ) → ℕ → Blob
blob_create none size = record { refcnt = 1; size = size; content = none }
blob_create (some s) size = record {
  refcnt = 1;
  size = size;
  content = some (take size s ++ (0 ∷ []));
}

unfoldable pub blob_ref : Blob → Blob
blob_ref bp = record bp { refcnt = bp.refcnt + 1 }

unfoldable pub blob_unref : Blob → Option Blob
blob_unref bp = if bp.refcnt - 1 == 0 then none else some (record bp { refcnt = bp.refcnt - 1 })

-- `strncmp(s, t, n) == 0`
unfoldable pub same_prefix : ℕ → List ℕ → List ℕ → Bool
same_prefix zero s t = true
same_prefix (suc n) s t =
    let rest = same_prefix n (drop 1 s) (drop 1 t) in
    if get_or s 0 0 == get_or t 0 0 then if get_or s 0 0 == 0 then true else rest else false

abbrev pub bytes_at : Option (List ℕ) → List ℕ
bytes_at none = []
bytes_at (some s) = s

-- Whether `blob_compare` gives 0.
unfoldable pub blob_compare : Blob → Blob → Bool
blob_compare bp1 bp2 =
    let most = if ltb bp2.size bp1.size then bp1.size else bp2.size in
    same_prefix most (bytes_at bp1.content) (bytes_at bp2.content)

-- NUM_BUCKETS
abbrev pub num_buckets : ℕ
num_buckets = 8

-- `c % NUM_BUCKETS` of a char, which is negative from 128 on: the bit pattern of the int.
unfoldable pub char_hash : ℕ → ℕ
char_hash c = if ltb c 128 then c % num_buckets else (2 ^ 32 - (256 - c) % num_buckets) % 2 ^ 32

unfoldable pub blob_hash : Blob → ℕ
blob_hash bp = hash_of bp.content
  where
    hash_of : Option (List ℕ) → ℕ
    hash_of none = 0
    hash_of (some s) = char_hash (get_or s 0 0)

unfoldable pub key_create : Blob → Key
key_create bp = record { hash = blob_hash bp; blob = bp }

-- Whether `key_compare` gives 0.
unfoldable pub key_compare : Key → Key → Bool
key_compare kp1 kp2 = if kp1.hash == kp2.hash then blob_compare kp1.blob kp2.blob else false
