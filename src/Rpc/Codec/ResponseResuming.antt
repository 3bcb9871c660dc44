-- ===== src/Rpc/Codec/ResponseResuming.antt =====
-- Responses that come in pieces.
use consentry.Common.{
  ℕ, ◌≡◌, ◌≢◌, ap, ◌<◌, ◌≤◌, inl, inr, refl, sym, ◌∙◌, true, false, Bool-cases, Option-cases, leb,
  [], ◌∷◌, ◌++◌, length, length-append, Option, none, some, arith,
}
use consentry.Common.Result.{Result, ok, err}
use consentry.Common.Text.{Text}
use consentry.Common.Slices.{take, drop, take-append_of_le, drop-append_of_le}
use consentry.Rpc.Methods.{is_response}
use consentry.Rpc.Protocol.{Protocol, RpcError, has_context_bytes}
use consentry.Rpc.Codec.{Bytes, IoError, ForkName, Outside}
use consentry.Rpc.Codec.Requests.{decoded}
use consentry.Rpc.Codec.Responses.{
  OutboundCodec, set_outbound_len, handle_v1_response, handle_v2_response, handle_response,
  read_response, decode_response_body, decode_chunk, context_bytes_to_fork_name, awaits_context,
  decode_named, decode_response, Outcome, read_error, decode_error_body, decode_error,
}
use consentry.Rpc.Codec.Base.{BaseOutbound, as_success, as_error, decode_with, decode_coded}
use consentry.Rpc.Codec.Resuming.{after_length-resumes, after_length-keeps}

module _ {Block : Type 0} (o : Outside Block) where
  v1_response-done : (p : Protocol) (bytes : Bytes) → handle_v1_response o p bytes ≢ ok none
  unfolding handle_v1_response decoded
  v1_response-done p bytes h = ground arith

  v2_response-done :
      (p : Protocol) (bytes : Bytes) (f f' : Option ForkName)
      → handle_v2_response o p bytes f ≢ (ok none, f')
  unfolding handle_v2_response decoded
  v2_response-done p bytes f f' h = ground arith

  handle_response-done :
      (c : OutboundCodec) (bytes s : Bytes) (c' : OutboundCodec) (s' : Bytes)
      → handle_response o c bytes s ≢ (ok none, c', s')
  unfolding handle_response
  handle_response-done c bytes s c' s' h = grind (
    arith,
    v1_response-done c.protocol.message_name bytes,
    v2_response-done c.protocol.message_name bytes c.fork_name
        (handle_v2_response o c.protocol.message_name bytes c.fork_name).1,
  )

  read_response-waits :
      (c : OutboundCodec) (s : Bytes) (n : ℕ) (r : Result IoError Bytes × ℕ) (c' : OutboundCodec)
      (s' : Bytes)
      → read_response o c s n r ≡ (ok none, c', s')
      → (c' ≡ c) × (s' ≡ s)
  unfolding read_response
  read_response-waits c s n (ok bytes, m) c' s' h = absurd (handle_response-done _ bytes _ c' s' h)
  read_response-waits c s n (err e, m) c' s' h = (grind arith, grind arith)

  response_body-waits :
      (c : OutboundCodec) (s : Bytes) (n : ℕ) (c' : OutboundCodec) (s' : Bytes)
      → decode_response_body o c s n ≡ (ok none, c', s')
      → (c' ≡ c) × (s' ≡ s)
  unfolding decode_response_body
  response_body-waits c s n c' s' h = grind (
    arith,
    read_response-waits c s n (o.snappy.read_exact (take (o.snappy.max_compress_len n) s) n) c' s',
  )

  read_error-waits :
      (c : OutboundCodec) (s : Bytes) (n : ℕ) (r : Result IoError Bytes × ℕ) (c' : OutboundCodec)
      (s' : Bytes)
      → read_error o c s n r ≡ (ok none, c', s')
      → (c' ≡ c) × (s' ≡ s)
  unfolding read_error decoded
  read_error-waits c s n (ok bytes, m) c' s' h = ground arith
  read_error-waits c s n (err e, m) c' s' h = (grind arith, grind arith)

  error_body-waits :
      (c : OutboundCodec) (s : Bytes) (n : ℕ) (c' : OutboundCodec) (s' : Bytes)
      → decode_error_body o c s n ≡ (ok none, c', s')
      → (c' ≡ c) × (s' ≡ s)
  unfolding decode_error_body
  error_body-waits c s n c' s' h = grind (
    arith,
    read_error-waits c s n (o.snappy.read_exact (take (o.snappy.max_compress_len n) s) n) c' s',
  )

  decode_chunk-resumes :
      (c : OutboundCodec) (s more : Bytes) (c' : OutboundCodec) (s' : Bytes)
      → decode_chunk o c s ≡ (ok none, c', s')
      → (c'.protocol ≡ c.protocol)
        × (c'.fork_name ≡ c.fork_name)
        × (decode_chunk o c' (s' ++ more) ≡ decode_chunk o c (s ++ more))
  unfolding decode_chunk
  decode_chunk-resumes c s more c' s' d =
      let (k, kept) =
        after_length-keeps (λ x. x.len) set_outbound_len (decode_response_body o) (λ x l. refl)
          (λ x l m. refl) response_body-waits c _ d in
      (
        ap (λ x. x.protocol) kept,
        ap (λ x. x.fork_name) kept,
        after_length-resumes (λ x. x.len) set_outbound_len (decode_response_body o) (λ x l. refl)
            (λ x l m. refl) response_body-waits o.varint c s more _ {c' = c'} {s' = s'} refl d,
      )

  decode_error-resumes :
      (c : OutboundCodec) (s more : Bytes) (c' : OutboundCodec) (s' : Bytes)
      → decode_error o c s ≡ (ok none, c', s')
      → decode_error o c' (s' ++ more) ≡ decode_error o c (s ++ more)
  unfolding decode_error
  decode_error-resumes c s more c' s' d =
      after_length-resumes (λ x. x.len) set_outbound_len (decode_error_body o) (λ x l. refl)
        (λ x l m. refl) error_body-waits o.varint c s more _ {c' = c'} {s' = s'} refl d

  awaits_context-eq :
      (c c' : OutboundCodec)
      → c'.protocol ≡ c.protocol
      → c'.fork_name ≡ c.fork_name
      → awaits_context o c' ≡ awaits_context o c
  awaits_context-eq c c' p f = λ i. elim (f i) [ none ↦ has_context_bytes (p i) | some _ ↦ false ]

  no_context :
      (c : OutboundCodec) (s : Bytes)
      → awaits_context o c ≡ false
      → decode_response o c s ≡ decode_chunk o c s
  unfolding decode_response
  no_context c s n = rw (decode_response, n) refl

  whole_context :
      (c : OutboundCodec) (s : Bytes)
      → awaits_context o c ≡ true
      → leb 4 (length s) ≡ true
      → decode_response o c s
        ≡ decode_named o c (drop 4 s) (context_bytes_to_fork_name o (take 4 s))
  unfolding decode_response
  whole_context c s y long = rw (decode_response, y, long) refl

  named-resumes :
      (c : OutboundCodec) (s more : Bytes) (f : Result RpcError ForkName) (c' : OutboundCodec)
      (s' : Bytes)
      → decode_named o c s f ≡ (ok none, c', s')
      → decode_response o c' (s' ++ more) ≡ decode_named o c (s ++ more) f
  named-resumes c s more (err e) c' s' d = cc
  named-resumes c s more (ok fork) c' s' d =
      let named = record c { fork_name = some fork } in
      let (p, f, again) = decode_chunk-resumes named s more c' s' d in
      no_context c' (s' ++ more) (awaits_context-eq named c' p f) ∙ again

  whole_context_append :
      (c : OutboundCodec) (s more : Bytes)
      → awaits_context o c ≡ true
      → leb 4 (length s) ≡ true
      → decode_response o c (s ++ more)
        ≡ decode_named o c (drop 4 s ++ more) (context_bytes_to_fork_name o (take 4 s))
  whole_context_append c s more y long =
      let four : 4 ≤ length s = ground arith in
      rw
        (
          whole_context c (s ++ more) y (ground (arith, length-append s more)),
          drop-append_of_le 4 s more four,
          take-append_of_le 4 s more four,
        )
        refl

  context-resumes :
      (c : OutboundCodec) (s more : Bytes) (c' : OutboundCodec) (s' : Bytes)
      → awaits_context o c ≡ true
      → decode_response o c s ≡ (ok none, c', s')
      → decode_response o c' (s' ++ more) ≡ decode_response o c (s ++ more)
  unfolding decode_response
  context-resumes c s more c' s' y d = elim (Bool-cases (leb 4 (length s))) [
    | inr short ↦
        let d' : (ok none, c, s) ≡ decode_response o c s = rw (decode_response, y, short) refl in
        ap (λ x. decode_response o x.1 (x.2 ++ more)) (sym (d' ∙ d))
    | inl long ↦
        named-resumes c (drop 4 s) more (context_bytes_to_fork_name o (take 4 s)) c' s'
          (sym (whole_context c s y long) ∙ d)
        ∙ sym (whole_context_append c s more y long)
  ]

  -- What has been read of the context bytes is kept too.
  decode_response-resumes :
      (c : OutboundCodec) (s more : Bytes) (c' : OutboundCodec) (s' : Bytes)
      → decode_response o c s ≡ (ok none, c', s')
      → decode_response o c' (s' ++ more) ≡ decode_response o c (s ++ more)
  decode_response-resumes c s more c' s' d = elim (Bool-cases (awaits_context o c)) [
    | inl y ↦ context-resumes c s more c' s' y d
    | inr n ↦
        let (p, f, again) = decode_chunk-resumes c s more c' s' (sym (no_context c s n) ∙ d) in
        no_context c' (s' ++ more) (awaits_context-eq c c' p f ∙ n)
        ∙ (again ∙ sym (no_context c (s ++ more) n))
  ]

  awaited :
      (code : ℕ) (c' : BaseOutbound) (s' more : Bytes) (r : Outcome o)
      → as_success o code r ≡ (ok none, c', s')
      → (r ≡ (ok none, c'.inner, s')) × (c'.current_response_code ≡ some code)
  awaited code c' s' more (ok (some resp), inner, src) d = cc
  awaited code c' s' more (ok none, inner, src) d = (grind arith, grind arith)
  awaited code c' s' more (err e, inner, src) d = cc

  awaited_error :
      (code : ℕ) (c' : BaseOutbound) (s' more : Bytes)
      (r : Result RpcError (Option Text) × OutboundCodec × Bytes)
      → as_error o code r ≡ (ok none, c', s')
      → (r ≡ (ok none, c'.inner, s')) × (c'.current_response_code ≡ some code)
  awaited_error code c' s' more (ok (some message), inner, src) d = cc
  awaited_error code c' s' more (ok none, inner, src) d = (grind arith, grind arith)
  awaited_error code c' s' more (err e, inner, src) d = cc

  decode_with-resumes :
      (code : ℕ) (inner : OutboundCodec) (s more : Bytes) (c' : BaseOutbound) (s' : Bytes)
      → decode_with o code inner s ≡ (ok none, c', s')
      → (c'.current_response_code ≡ some code)
        × (decode_with o code c'.inner (s' ++ more) ≡ decode_with o code inner (s ++ more))
  unfolding decode_with
  decode_with-resumes code inner s more c' s' d = elim (Bool-cases (is_response code)) [
    | inl y ↦
        let (e, k) = awaited code c' s' more (decode_response o inner s) (ground arith) in
        (
          k,
          rw (decode_with, y)
              (ap (as_success o code) (decode_response-resumes inner s more c'.inner s' e)),
        )
    | inr n ↦
        let (e, k) = awaited_error code c' s' more (decode_error o inner s) (ground arith) in
        (
          k,
          rw (decode_with, n)
              (ap (as_error o code) (decode_error-resumes inner s more c'.inner s' e)),
        )
  ]

  known_code :
      (c : BaseOutbound) (s : Bytes) (code : ℕ)
      → c.current_response_code ≡ some code
      → leb (length s) 1 ≡ false
      → decode_coded o c s ≡ decode_with o code c.inner s
  unfolding decode_coded
  known_code c s code k long = rw (decode_coded, long, k) refl

  pub fresh_code :
      (c : BaseOutbound) (code : ℕ) (s : Bytes)
      → c.current_response_code ≡ none
      → leb (length (code ∷ s)) 1 ≡ false
      → decode_coded o c (code ∷ s) ≡ decode_with o code c.inner s
  unfolding decode_coded
  fresh_code c code s k long = rw (decode_coded, long, k) refl

  fresh_code-resumes :
      (c : BaseOutbound) (s more : Bytes) (c' : BaseOutbound) (s' : Bytes)
      → c.current_response_code ≡ none
      → leb (length s) 1 ≡ false
      → decode_coded o c s ≡ (ok none, c', s')
      → 1 < length (s' ++ more)
      → decode_coded o c' (s' ++ more) ≡ decode_coded o c (s ++ more)
  fresh_code-resumes c [] more c' s' k long d h = cc
  fresh_code-resumes c (code ∷ s) more c' s' k long d h =
      let (kept, again) =
        decode_with-resumes code c.inner s more c' s' (sym (fresh_code c code s k long) ∙ d) in
      known_code c' (s' ++ more) code kept (ground arith)
      ∙ (again ∙ sym (fresh_code c code (s ++ more) k (ground (arith, length-append s more))))

  -- A chunk that is not complete is waited for: when more bytes have come, so that at least two are
  -- not read yet, decoding these with the codec as it was left is decoding all the bytes at once.
  pub decode_coded-resumes :
      (c : BaseOutbound) (s more : Bytes) (c' : BaseOutbound) (s' : Bytes)
      → decode_coded o c s ≡ (ok none, c', s')
      → 1 < length (s' ++ more)
      → decode_coded o c' (s' ++ more) ≡ decode_coded o c (s ++ more)
  unfolding decode_coded
  decode_coded-resumes c s more c' s' d h = elim (Bool-cases (leb (length s) 1)) [
    | inl short ↦
        let d' : (ok none, c, s) ≡ decode_coded o c s = rw (decode_coded, short) refl in
        ap (λ x. decode_coded o x.1 (x.2 ++ more)) (sym (d' ∙ d))
    | inr long ↦ elim (Option-cases c.current_response_code) [
      | inr (code, k) ↦
          let (kept, again) =
            decode_with-resumes code c.inner s more c' s' (sym (known_code c s code k long) ∙ d) in
          known_code c' (s' ++ more) code kept (ground arith)
          ∙ (again ∙ sym (known_code c (s ++ more) code k (ground (arith, length-append s more))))
      | inl k ↦ fresh_code-resumes c s more c' s' k long d h
    ]
  ]
