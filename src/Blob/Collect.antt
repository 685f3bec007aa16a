-- ===== src/Blob/Collect.antt =====
-- What the collection of garbage keeps: the chunks of the blobs that are still used.
use ph_reactor.Base.{
  ℕ, ◌+◌, length, ◌≡◌, refl, ◌∙◌, ap, inl, inr, Bool, true, false, none, List, [], ◌∷◌, ◌||◌, any,
  keep, not, arith, if◌then◌else◌, Bool-cases, Option-cases, All,
}
use ph_reactor.Base.Eq.{◌==◌, ==_iff, nat_eq}
use ph_reactor.Base.Map.{Map, lookup}
use ph_reactor.Doc.Data.{Hash32}
use ph_reactor.Action.{Extern}
use ph_reactor.Blob.{BlobRef, BlobStore, get_chunk, read_chunks, get, gc}

-- `h` is a chunk of one of the blobs.
abbrev pub in_use : List BlobRef → Hash32 → Bool
in_use refs h = any (λ r. any (λ k. k == h) r.chunks) refs

lookup-keep :
    (live : Hash32 → Bool) (files : Map Hash32 (List ℕ)) (h : Hash32)
    → lookup h (keep (λ entry. live entry.0) files) ≡ (if live h then lookup h files else none)
unfolding lookup
lookup-keep live [] h = ground arith
lookup-keep live ((k, c) ∷ files) h = elim (Bool-cases (live k)) [
  | inl kept ↦ rw kept (ground (arith, ==_iff k h, kept, lookup-keep live files h, same_lem))
  | inr gone ↦ rw gone (ground (arith, ==_iff k h, gone, lookup-keep live files h, same_lem))
]
  where
    same_lem : k ≡ h → live k ≡ live h
    same_lem e = ap live e

pub lookup-gc :
    (s : BlobStore) (refs : List BlobRef) (h : Hash32)
    → lookup h (gc s refs).1.files
      ≡ (if not s.writable || in_use refs h then lookup h s.files else none)
unfolding gc
lookup-gc s refs h = elim (Bool-cases s.writable) [
  | inl w ↦ rw w (lookup-keep (in_use refs) s.files h)
  | inr w ↦ rw w refl
]

abbrev AllUsed : List BlobRef → List Hash32 → Type 0
AllUsed refs hs = All (λ h. in_use refs h ≡ true) hs

read_same :
    (s : BlobStore) (refs : List BlobRef) (hs : List Hash32)
    → AllUsed refs hs
    → read_chunks (gc s refs).1 hs ≡ read_chunks s hs
unfolding read_chunks get_chunk
read_same s refs [] used = refl
read_same s refs (h ∷ hs) used =
    let same : lookup h (gc s refs).1.files ≡ lookup h s.files =
      lookup-gc s refs h ∙ ground (arith, used.0) in
    rw (same, read_chunks)
      (elim (Option-cases (lookup h s.files)) [
        | inl gone ↦ rw (gone, read_chunks) refl
        | inr (c, held) ↦ rw (held, read_same s refs hs used.1, read_chunks) refl
      ])

counted_lem :
    (live : Hash32 → Bool) (files : Map Hash32 (List ℕ))
    → length (keep (λ entry. not (live entry.0)) files)
        + length (keep (λ entry. live entry.0) files)
      ≡ length files
counted_lem live [] = refl
counted_lem live ((k, c) ∷ files) = ground (arith, counted_lem live files)

-- A garbage collection never takes a chunk of a blob that is still used: each of them reads as it
-- did, and on a writable disk a chunk of none of them is gone. The number that it gives is that of the
-- chunks that were taken.
pub gc_keeps :
    (x : Extern) (s : BlobStore) (refs : List BlobRef) (r : BlobRef)
    → All (λ h. in_use refs h ≡ true) r.chunks
    → (get x (gc s refs).1 r ≡ get x s r)
      × (s.writable ≡ true
          → (h : Hash32) → in_use refs h ≡ false
          → get_chunk (gc s refs).1 h ≡ none)
      × ((gc s refs).0 + length (gc s refs).1.files ≡ length s.files)
unfolding get get_chunk gc
gc_keeps x s refs r used = (
  rw (read_same s refs r.chunks used) refl,
  λ w h idle. rw (lookup-gc s refs h, w, idle) refl,
  elim (Bool-cases s.writable) [
    | inl w ↦ rw w (counted_lem (in_use refs) s.files)
    | inr w ↦ rw w (omega arith)
  ],
)
