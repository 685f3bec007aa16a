-- ===== src/Blob.antt =====
-- src/blob/mod.rs: byte strings as chunks of a fixed size, each a file named by its SHA-256.
pub mod Chunks
pub mod RoundTrip
pub mod Collect
use ph_reactor.Base.{
  ℕ, zero, suc, ◌*◌, Bool, true, false, Option, none, some, List, [], ◌∷◌, ◌++◌, length, take, drop,
  all, any, keep, not, is_some, map, ◌&&◌, eqb, if◌then◌else◌,
}
use ph_reactor.Base.Eq.{◌==◌, nat_eq}
use ph_reactor.Base.Map.{Map, lookup, insert, contains_key}
use ph_reactor.Base.Result.{Result, ok, err, ◌>>=◌, ◌>>◌}
use ph_reactor.Doc.Data.{Hash32}
use ph_reactor.Action.{Extern}

abbrev pub chunk_bytes : ℕ
chunk_bytes = 256 * 1024

pub record BlobRef : Type 0 where
  pub hash : Hash32
  pub size : ℕ
  pub chunks : List Hash32

-- The directory: the `.chunk` files by their names, and whether a write succeeds.
pub record BlobStore : Type 0 where
  pub files : Map Hash32 (List ℕ)
  pub writable : Bool

pub data BlobError : Type 0 where
  hash_mismatch missing_chunk wrong_size wrong_hash write_failed : BlobError

-- `bytes.chunks(n)`; the first argument bounds the number of chunks.
unfoldable pub split_chunks : ℕ → ℕ → List ℕ → List (List ℕ)
split_chunks zero n bytes = []
split_chunks (suc fuel) n [] = []
split_chunks (suc fuel) n (b ∷ bytes) =
    take n (b ∷ bytes) ∷ split_chunks fuel n (drop n (b ∷ bytes))

unfoldable pub chunks_of : ℕ → List ℕ → List (List ℕ)
unfolding split_chunks
chunks_of n bytes = split_chunks (length bytes) n bytes

-- The chunk size is an argument: the program has the one size `chunk_bytes`.
module _ (x : Extern) (n : ℕ) where
  -- `BlobRef::of`
  unfoldable pub blob_ref : List ℕ → BlobRef
  unfolding chunks_of
  blob_ref bytes = record {
    hash = x.sha256 bytes;
    size = length bytes;
    chunks = map (λ c. x.sha256 c) (chunks_of n bytes);
  }

unfoldable pub has_chunk : BlobStore → Hash32 → Bool
has_chunk s h = contains_key h s.files

unfoldable pub get_chunk : BlobStore → Hash32 → Option (List ℕ)
get_chunk s h = lookup h s.files

unfoldable pub put_chunk : Extern → BlobStore → Hash32 → List ℕ → Result BlobError BlobStore
unfolding has_chunk
put_chunk x s claimed bytes =
    if x.sha256 bytes == claimed
    then if has_chunk s claimed
      then ok s
      else if s.writable
      then ok (record s { files = insert claimed bytes s.files })
      else err write_failed
    else err hash_mismatch

-- The chunks are stored one by one under their own hashes.
unfoldable pub put_chunks : Extern → BlobStore → List (List ℕ) → Result BlobError BlobStore
unfolding put_chunk
put_chunks x s [] = ok s
put_chunks x s (c ∷ cs) = put_chunk x s (x.sha256 c) c >>= λ s'. put_chunks x s' cs

unfoldable pub put : Extern → ℕ → BlobStore → List ℕ → Result BlobError (BlobRef × BlobStore)
unfolding blob_ref put_chunks chunks_of
put x n s bytes = do s' ← put_chunks x s (chunks_of n bytes); ok (blob_ref x n bytes, s')

-- The hashes that are not here, each once, in their order.
unfoldable pub missing_after : List Hash32 → BlobStore → List Hash32 → List Hash32
unfolding has_chunk
missing_after seen s [] = []
missing_after seen s (h ∷ hs) =
    let rest = missing_after (h ∷ seen) s hs in
    if not (any (λ k. k == h) seen) && not (has_chunk s h) then h ∷ rest else rest

unfoldable pub missing : BlobStore → BlobRef → List Hash32
unfolding missing_after
missing s r = missing_after [] s r.chunks

unfoldable pub is_complete : BlobStore → BlobRef → Bool
unfolding has_chunk
is_complete s r = all (λ h. has_chunk s h) r.chunks

unfoldable pub read_chunks : BlobStore → List Hash32 → Result BlobError (List ℕ)
unfolding get_chunk
read_chunks s [] = ok []
read_chunks s (h ∷ hs) = elim (get_chunk s h) [
  | none ↦ err missing_chunk
  | some c ↦ read_chunks s hs >>= λ rest. ok (c ++ rest)
]

unfoldable pub get : Extern → BlobStore → BlobRef → Result BlobError (List ℕ)
unfolding read_chunks
get x s r = read_chunks s r.chunks >>= λ out.
    if not (eqb (length out) r.size)
    then err wrong_size
    else if not (x.sha256 out == r.hash)
    then err wrong_hash
    else ok out

-- Every chunk outside `refs` is deleted, where the directory can be written; and how many were.
unfoldable pub gc : BlobStore → List BlobRef → ℕ × BlobStore
gc s refs =
    let live = λ (h : Hash32). any (λ r. any (λ k. k == h) r.chunks) refs in
    if s.writable
    then (
      length (keep (λ entry. not (live entry.0)) s.files),
      record s { files = keep (λ entry. live entry.0) s.files },
    )
    else (0, s)
