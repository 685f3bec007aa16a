-- ===== src/P2p/Codec/RoundTrip.antt =====
-- What is written on a stream is read from it.
use ph_reactor.Base.{
  ℕ, ◌^◌, ◌<◌, ◌≡◌, refl, ap, inl, inr, false, some, List, [], ◌∷◌, ◌++◌, length, take, drop, arith,
  append_assoc, length-append, ltb, Bool-cases, Option-cases,
}
use ph_reactor.Base.Bytes.{be_bytes, length-be_bytes, from_be_bytes-be_bytes}
use ph_reactor.Base.Result.{ok}
use ph_reactor.P2p.Codec.{SyncMsg, MsgExtern, read_exact, read_msg, write_msg, max_msg_bytes}

take-append :
    (xs ys : List ℕ) → (take (length xs) (xs ++ ys) ≡ xs) × (drop (length xs) (xs ++ ys) ≡ ys)
take-append [] ys = (refl, refl)
take-append (x ∷ xs) ys = let (front, back) = take-append xs ys in (ap (λ r. x ∷ r) front, back)

pub read_exact-append :
    (n : ℕ) (xs ys : List ℕ) → length xs ≡ n → read_exact n (xs ++ ys) ≡ ok (xs, ys)
unfolding read_exact
read_exact-append n xs ys e =
    let (front, back) = take-append xs ys in
    let enough : ltb (length (xs ++ ys)) n ≡ false = ground (arith, length-append xs ys, e) in
    rw enough (rw (← e) (rw (front, back) refl))

-- Where `serde_json` reads back what it wrote for a message, the frame that was written for that
-- message is read back as it, whatever follows on the stream, and reading stops at the frame's end.
pub read_msg-write_msg :
    (w : MsgExtern) (msg : SyncMsg) (bytes rest : List ℕ)
    → ((body : List ℕ) → w.msg_to_vec msg ≡ some body → w.msg_from_slice body ≡ some msg)
    → write_msg w msg ≡ ok bytes
    → read_msg w max_msg_bytes (bytes ++ rest) ≡ ok (msg, rest)
unfolding read_msg write_msg
read_msg-write_msg w msg bytes rest reads e = elim (Option-cases (w.msg_to_vec msg)) [
  | inl failed ↦ absurd (let e1 = rw (failed, write_msg) at e in cc)
  | inr (body, encoded) ↦ elim (Bool-cases (ltb max_msg_bytes (length body))) [
    | inl large ↦ absurd (let e1 = rw (encoded, large, write_msg) at e in cc)
    | inr fits ↦
        let e1 = rw (encoded, fits, write_msg) at e in
        let frame : be_bytes 4 (length body) ++ body ≡ bytes = cc in
        let n = length body in
        let flat : bytes ++ rest ≡ be_bytes 4 n ++ (body ++ rest) =
          rw (← frame) (append_assoc (be_bytes 4 n) body rest) in
        let small : n < 256 ^ 4 = ground (arith, fits) in
        let header = read_exact-append 4 (be_bytes 4 n) (body ++ rest) (length-be_bytes 4 n) in
        let len = from_be_bytes-be_bytes 4 n small in
        rw
          (
            flat,
            header,
            len,
            fits,
            read_exact-append n body rest refl,
            reads body encoded,
            read_msg,
          )
          refl
  ]
]
