-- ===== src/Tests/Blobs.antt =====
-- A blob of three bytes in chunks of two.
use ph_reactor.Base.{◌+◌, length, ℕ, ◌<◌, ◌≡◌, refl, true, false, none, List, [], ◌∷◌, All, arith}
use ph_reactor.Base.Eq.{nat_eq}
use ph_reactor.Base.Map.{lookup}
use ph_reactor.Base.Result.{ok}
use ph_reactor.Base.Bytes.{from_be_bytes}
use ph_reactor.Doc.Data.{Hash32}
use ph_reactor.Blob.{
  BlobRef, BlobStore, blob_ref, chunks_of, split_chunks, put, put_chunks, put_chunk, has_chunk, get,
  read_chunks, get_chunk, gc,
}
use ph_reactor.Blob.RoundTrip.{Agrees, NoClash, get-put}
use ph_reactor.Blob.Collect.{gc_keeps}
use ph_reactor.Tests.Fixture.{crypto}

abbrev bytes : List ℕ
bytes = 1 ∷ 2 ∷ 3 ∷ []

abbrev empty : BlobStore
empty = record { files = []; writable = true }

fresh : All (Agrees crypto empty) (chunks_of 2 bytes)
unfolding chunks_of split_chunks lookup
fresh = (λ b h. absurd (cc), (λ b h. absurd (cc), tt))

apart : NoClash crypto (chunks_of 2 bytes)
unfolding chunks_of split_chunks from_be_bytes ph_reactor.Base.Bytes.be_value
apart = ((λ h. absurd (omega arith), tt), (tt, tt))

get-put_example :
    (s : BlobStore) × (put crypto 2 empty bytes ≡ ok (blob_ref crypto 2 bytes, s))
    × (get crypto s (blob_ref crypto 2 bytes) ≡ ok bytes)
get-put_example = get-put crypto 2 empty bytes (omega arith) refl fresh apart

abbrev kept : BlobRef
kept = record { hash = 66051; size = 3; chunks = 258 ∷ 3 ∷ [] }

-- The two chunks of the blob, and one of no blob.
abbrev full : BlobStore
full = record { files = (258, 1 ∷ 2 ∷ []) ∷ (9, 9 ∷ []) ∷ (3, 3 ∷ []) ∷ []; writable = true }

gc_keeps_example :
    (get crypto (gc full (kept ∷ [])).1 kept ≡ get crypto full kept)
    × (full.writable ≡ true
        → (h : Hash32) → ph_reactor.Blob.Collect.in_use (kept ∷ []) h ≡ false
        → get_chunk (gc full (kept ∷ [])).1 h ≡ none)
    × ((gc full (kept ∷ [])).0 + length (gc full (kept ∷ [])).1.files ≡ length full.files)
gc_keeps_example = gc_keeps crypto full (kept ∷ []) kept (refl, (refl, tt))

run_get : get crypto (gc full (kept ∷ [])).1 kept ≡ ok bytes
unfolding get read_chunks get_chunk gc lookup from_be_bytes ph_reactor.Base.Bytes.be_value
run_get = refl

run_gone : get_chunk (gc full (kept ∷ [])).1 9 ≡ none
unfolding get_chunk gc lookup
run_gone = refl
