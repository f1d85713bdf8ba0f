-- ===== src/Client/Body/Limited.antt =====
-- `read_response_body_limited` of rust/haiai/src/client.rs returns a body exactly if it fits.
use haiai.Prelude.{
  subst, ℕ, ◌+◌, ◌≤◌, ◌<◌, ◌≡◌, ◌↔◌, ap, sym, ◌∙◌, inl, inr, false, List, [], ◌∷◌, ◌++◌, append-nil,
  append_assoc, arith, length, length-append, usize_limit, checked_add, Bool-cases,
}
use haiai.Text.{Text}
use haiai.Text.Utf8.{Bytes}
use haiai.Error.{ok, Result-cases, Foreign, done, fault}
use haiai.Client.Body.{
  Response, next_length, read_chunks, announces_more, read_response_body_limited,
}

-- The chunks arrive without an error, and make up the bytes.
pub data Delivers : List (Foreign Bytes) → Bytes → Type 0 where
  nothing : Delivers [] []
  chunk_and :
      (chunk : Bytes) {chunks : List (Foreign Bytes)} {rest : Bytes}
      → Delivers chunks rest
      → Delivers (done chunk ∷ chunks) (chunk ++ rest)

module _ (max_bytes : ℕ) (context : Text) (max_is_usize : max_bytes < usize_limit) where
  next_length-ok :
      (body chunk : Bytes) {next : ℕ}
      → next_length max_bytes context body chunk ≡ ok next
      → length (body ++ chunk) ≤ max_bytes
  unfolding next_length checked_add
  next_length-ok body chunk h = ground (arith, h, length-append body chunk)

  next_length_fits :
      (body chunk : Bytes)
      → length (body ++ chunk) ≤ max_bytes
      → next_length max_bytes context body chunk ≡ ok (length body + length chunk)
  unfolding next_length checked_add
  next_length_fits body chunk h = ground (arith, h, length-append body chunk, max_is_usize)

  read_chunks_sound :
      (body : Bytes) (chunks : List (Foreign Bytes)) {out : Bytes}
      → length body ≤ max_bytes
      → read_chunks max_bytes context body chunks ≡ ok out
      → (rest : Bytes) × Delivers chunks rest × (out ≡ body ++ rest) × (length out ≤ max_bytes)
  unfolding read_chunks
  read_chunks_sound body [] {out} small h =
      let same : out ≡ body = ground (arith, h) in
      ([], nothing, same ∙ sym (append-nil body), rw same small)
  read_chunks_sound body (fault e ∷ chunks) small h = ground (arith, h)
  read_chunks_sound body (done chunk ∷ chunks) {out} small h =
      elim (Result-cases (next_length max_bytes context body chunk)) [
        | inr (e, a) ↦ ground (arith, a, h)
        | inl (next, a) ↦
            let (rest, delivers, same, bounded) =
              read_chunks_sound (body ++ chunk) chunks {out = out} (next_length-ok body chunk a)
                (rw a at h) in
            (chunk ++ rest, chunk_and chunk delivers, same ∙ append_assoc body chunk rest, bounded)
      ]

  read_chunks_complete :
      (body : Bytes) {chunks : List (Foreign Bytes)} {rest : Bytes}
      → Delivers chunks rest
      → length (body ++ rest) ≤ max_bytes
      → read_chunks max_bytes context body chunks ≡ ok (body ++ rest)
  unfolding read_chunks
  read_chunks_complete body nothing small = ap ok (sym (append-nil body))
  read_chunks_complete body (chunk_and chunk {chunks} {rest} delivers) small =
      let grouped = append_assoc body chunk rest in
      let fits : length (body ++ chunk) ≤ max_bytes = omega (
        arith,
        small,
        length-append body (chunk ++ rest),
        length-append chunk rest,
        length-append body chunk,
      ) in
      rw (read_chunks, next_length_fits body chunk fits)
        (read_chunks_complete (body ++ chunk) delivers (rw grouped small) ∙ ap ok grouped)

  -- Below a limit that is a `usize`, the body of a response is returned exactly if the response
  -- announces no more than the limit and its chunks arrive without an error and make up at most the
  -- limit: what is returned is all of their bytes, in order.
  pub read_response_body_limited_iff :
      (response : Response) (body : Bytes)
      → (read_response_body_limited response max_bytes context ≡ ok body) ↔ (
          (announces_more max_bytes response.content_length ≡ false)
          × Delivers response.chunks body
          × (length body ≤ max_bytes))
  unfolding read_response_body_limited
  read_response_body_limited_iff response body = (
    (λ h. elim (Bool-cases (announces_more max_bytes response.content_length)) [
      | inl a ↦ ground (arith, a, h)
      | inr a ↦
          let (rest, delivers, same, bounded) =
            read_chunks_sound [] response.chunks {out = body} (omega arith)
              (rw (read_response_body_limited, a) at h) in
          (a, subst (Delivers response.chunks) (sym same) delivers, bounded)
    ]),
    (λ (a, delivers, bounded).
        rw (read_response_body_limited, a) (read_chunks_complete [] delivers bounded)),
  )
