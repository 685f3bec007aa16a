-- ===== src/Blob/RoundTrip.antt =====
-- What is put is what is got.
use ph_reactor.Base.{
  ℕ, ◌<◌, ◌≡◌, refl, sym, ap, ◌∙◌, ◌≢◌, ◌⊎◌, inl, inr, true, some, List, [], ◌∷◌, All, map, arith,
  Bool-cases, Option-cases,
}
use ph_reactor.Base.Eq.{◌==◌, ==_iff, ==_self, nat_eq}
use ph_reactor.Base.Map.{lookup, insert, lookup-insert_self, lookup-insert_ne}
use ph_reactor.Base.Result.{ok, >>=-eq-ok}
use ph_reactor.Doc.Data.{Hash32}
use ph_reactor.Action.{Extern}
use ph_reactor.Blob.{
  BlobStore, blob_ref, chunks_of, has_chunk, get_chunk, put_chunk, put_chunks, put, read_chunks,
  get,
}
use ph_reactor.Blob.Chunks.{concat, chunks_of_lem}

module _ (x : Extern) where
  -- The chunk that the store holds under the hash of `c`, if any, is `c`.
  abbrev pub Agrees : BlobStore → List ℕ → Type 0
  Agrees s c = (b : List ℕ) → lookup (x.sha256 c) s.files ≡ some b → b ≡ c

  -- No two of the chunks share a hash.
  abbrev pub NoClash : List (List ℕ) → Type 0
  NoClash [] = Unit
  NoClash (c ∷ cs) = All (λ d. x.sha256 d ≡ x.sha256 c → d ≡ c) cs × NoClash cs

  abbrev Holds : BlobStore → List ℕ → Type 0
  Holds s c = lookup (x.sha256 c) s.files ≡ some c

  put_chunk_effect :
      (s s' : BlobStore) (c : List ℕ)
      → Agrees s c
      → put_chunk x s (x.sha256 c) c ≡ ok s'
      → Holds s' c × ((h : Hash32) → h ≢ x.sha256 c → lookup h s'.files ≡ lookup h s.files)
  unfolding put_chunk has_chunk
  put_chunk_effect s s' c agrees e = elim (Option-cases (lookup (x.sha256 c) s.files)) [
    | inr (b, held) ↦
        let e1 = rw (==_self (x.sha256 c), held) at e in
        let same : s ≡ s' = cc in rw (← same) (held ∙ ap some (agrees b held), λ h ne. refl)
    | inl fresh ↦ elim (Bool-cases s.writable) [
      | inr w ↦ absurd (let e1 = rw (==_self (x.sha256 c), fresh, w) at e in cc)
      | inl w ↦
          let e1 = rw (==_self (x.sha256 c), fresh, w) at e in
          let same : record s { files = insert (x.sha256 c) c s.files } ≡ s' = cc in
          rw (← same) (
            lookup-insert_self (x.sha256 c) c s.files,
            λ h ne. lookup-insert_ne (x.sha256 c) h c s.files (λ q. ne (sym q)),
          )
    ]
  ]

  -- Another chunk's file is as it was.
  other_file :
      (s s' : BlobStore) (c d : List ℕ)
      → Agrees s c
      → put_chunk x s (x.sha256 c) c ≡ ok s'
      → (x.sha256 d ≡ x.sha256 c → d ≡ c)
      → (d ≡ c) ⊎ (lookup (x.sha256 d) s'.files ≡ lookup (x.sha256 d) s.files)
  other_file s s' c d agrees e clash = elim (Bool-cases (x.sha256 d == x.sha256 c)) [
    | inl same ↦ inl (clash ((==_iff (x.sha256 d) (x.sha256 c)).0 same))
    | inr apart ↦
        let (held, rest) = put_chunk_effect s s' c agrees e in
        inr (rest (x.sha256 d) (λ q. ground (arith, ==_iff (x.sha256 d) (x.sha256 c), q)))
  ]

  agrees_after :
      (s s' : BlobStore) (c d : List ℕ)
      → Agrees s c
      → put_chunk x s (x.sha256 c) c ≡ ok s'
      → (x.sha256 d ≡ x.sha256 c → d ≡ c)
      → Agrees s d
      → Agrees s' d
  agrees_after s s' c d agrees e clash before b held = elim (other_file s s' c d agrees e clash) [
    | inl same ↦ cc (same, (put_chunk_effect s s' c agrees e).0, held)
    | inr kept ↦ before b (sym kept ∙ held)
  ]

  file_after :
      (s s' : BlobStore) (c d : List ℕ)
      → Agrees s c
      → put_chunk x s (x.sha256 c) c ≡ ok s'
      → (x.sha256 d ≡ x.sha256 c → d ≡ c)
      → Holds s d
      → Holds s' d
  file_after s s' c d agrees e clash before = elim (other_file s s' c d agrees e clash) [
    | inl same ↦ rw same (put_chunk_effect s s' c agrees e).0
    | inr kept ↦ kept ∙ before
  ]

  agree_after :
      (s s' : BlobStore) (c : List ℕ) (ds : List (List ℕ))
      → Agrees s c
      → put_chunk x s (x.sha256 c) c ≡ ok s'
      → All (λ d. x.sha256 d ≡ x.sha256 c → d ≡ c) ds
      → All (Agrees s) ds
      → All (Agrees s') ds
  agree_after s s' c [] agrees e clash before = tt
  agree_after s s' c (d ∷ ds) agrees e clash before = (
    agrees_after s s' c d agrees e clash.0 before.0,
    agree_after s s' c ds agrees e clash.1 before.1,
  )

  file_kept :
      (s s' : BlobStore) (c : List ℕ) (ds : List (List ℕ))
      → All (Agrees s) ds
      → NoClash ds
      → put_chunks x s ds ≡ ok s'
      → All (λ d. x.sha256 d ≡ x.sha256 c → d ≡ c) ds
      → Holds s c
      → Holds s' c
  unfolding put_chunks
  file_kept s s' c [] agree apart e clash held = let same : s ≡ s' = cc in rw (← same) held
  file_kept s s' c (d ∷ ds) agree apart e clash held =
      let (s1, first, rest) = >>=-eq-ok (put_chunk x s (x.sha256 d) d) _ e in
      file_kept s1 s' c ds (agree_after s s1 d ds agree.0 first apart.0 agree.1) apart.1 rest
        clash.1 (file_after s s1 d c agree.0 first (λ q. sym (clash.0 (sym q))) held)

  stored :
      (s s' : BlobStore) (cs : List (List ℕ))
      → All (Agrees s) cs
      → NoClash cs
      → put_chunks x s cs ≡ ok s'
      → All (Holds s') cs
  unfolding put_chunks
  stored s s' [] agree apart e = tt
  stored s s' (c ∷ cs) agree apart e =
      let (s1, first, rest) = >>=-eq-ok (put_chunk x s (x.sha256 c) c) _ e in
      let later = agree_after s s1 c cs agree.0 first apart.0 agree.1 in
      (
        file_kept s1 s' c cs later apart.1 rest apart.0 (put_chunk_effect s s1 c agree.0 first).0,
        stored s1 s' cs later apart.1 rest,
      )

  read_stored :
      (s : BlobStore) (cs : List (List ℕ))
      → All (Holds s) cs
      → read_chunks s (map (λ c. x.sha256 c) cs) ≡ ok (concat cs)
  unfolding read_chunks get_chunk concat
  read_stored s [] h = refl
  read_stored s (c ∷ cs) h = rw (h.0, read_stored s cs h.1, read_chunks) refl

put_succeeds :
    (x : Extern) (s : BlobStore) (cs : List (List ℕ))
    → s.writable ≡ true
    → (s' : BlobStore) × (put_chunks x s cs ≡ ok s')
unfolding put_chunks put_chunk has_chunk
put_succeeds x s [] w = (s, refl)
put_succeeds x s (c ∷ cs) w = elim (Option-cases (lookup (x.sha256 c) s.files)) [
  | inr (b, held) ↦ rw (==_self (x.sha256 c), held) (put_succeeds x s cs w)
  | inl fresh ↦
      let filled : BlobStore = record { files = insert (x.sha256 c) c s.files; writable = true } in
      rw (==_self (x.sha256 c), fresh, w) (put_succeeds x filled cs refl)
]

-- Where the directory can be written, a blob can be put, and is got back byte for byte. Its chunks
-- share no hash with one another or with a different chunk that is stored.
pub get-put :
    (x : Extern) (n : ℕ) (s : BlobStore) (bytes : List ℕ)
    → 0 < n
    → s.writable ≡ true
    → All (Agrees x s) (chunks_of n bytes)
    → NoClash x (chunks_of n bytes)
    → (s' : BlobStore) × (put x n s bytes ≡ ok (blob_ref x n bytes, s'))
      × (get x s' (blob_ref x n bytes) ≡ ok bytes)
unfolding put get blob_ref
get-put x n s bytes p w agree apart =
    let (s', stores) = put_succeeds x s (chunks_of n bytes) w in
    let held = stored x s s' (chunks_of n bytes) agree apart stores in
    let whole = read_stored x s' (chunks_of n bytes) held ∙ ap ok (chunks_of_lem n bytes p) in
    (s', rw stores refl, rw whole (rw (==_self (x.sha256 bytes)) (ground arith)))
